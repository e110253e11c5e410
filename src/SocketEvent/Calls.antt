-- ===== src/SocketEvent/Calls.antt =====
-- The calls of Sockets/SocketEvent.cpp, WaitManager.cpp and API.cpp on the one queue of the process,
-- which SocketEventQueue::Ptr points to or which is null, and runs of the queue's own calls.
use syncme.Prelude.{
  ℕ, ◌==◌, Bool, true, false, not, Option, none, some, List, [], ◌∷◌, if◌then◌else◌,
}
use syncme.SocketEvent.{
  Mask, no_events, is_none_set, SocketEvent, Command, Epoll, SocketEventQueue, socket_event_queue,
  fire_events, take_events, AddEventResult, failed, success, grow, append, remove_socket_event,
  activate_event, is_empty_queue, deliver, process_command,
}

-- A wait of AddSocketEvent: whether EvStop ended it, and what the other threads did meanwhile.
pub record Waited (K : Type 0) : Type 0 where
  pub stopped : Bool
  pub others : SocketEventQueue K → SocketEventQueue K

module _ {K : Type 0} (epoll : Epoll K) where
  -- `next` is what follows where Append asks for a longer list.
  unfoldable pub after_append :
      (SocketEventQueue K → Option Bool × SocketEventQueue K)
      → AddEventResult × SocketEventQueue K
      → Option Bool × SocketEventQueue K
  after_append next (failed, q) = (some false, q)
  after_append next (success, q) = (some true, q)
  after_append next (grow, q) = next q

  -- The loop of AddSocketEvent over its waits; `none` where it waits still.
  unfoldable pub add_socket_event :
      List (Waited K) → ℕ → SocketEvent → SocketEventQueue K → Option Bool × SocketEventQueue K
  unfolding append after_append
  add_socket_event [] p e q = after_append (λ q'. (none, q')) (append epoll p e q)
  add_socket_event (w ∷ ws) p e q =
      after_append
        (λ q'.
          if w.stopped then (some false, w.others q') else add_socket_event ws p e (w.others q'))
        (append epoll p e q)

  -- CreateSocketEvent; `fresh` is the epoll instance of a new queue, if the system gives one.
  unfoldable pub create_socket_event :
      List (Waited K)
      → Option K
      → ℕ
      → SocketEvent
      → Option (SocketEventQueue K)
      → Option Bool × Option (SocketEventQueue K)
  unfolding add_socket_event
  create_socket_event ws fresh p e (some q) =
      let (added, q') = add_socket_event ws p e q in (added, some q')
  create_socket_event ws none p e none = (some false, none)
  create_socket_event ws (some poll) p e none =
      let (added, q') = add_socket_event ws p e (socket_event_queue poll) in (added, some q')

  -- SocketEvent::OnCloseHandle up to that of Event; `none` is a call through the null pointer.
  unfoldable pub on_close_handle :
      ℕ
      → SocketEvent
      → Option (SocketEventQueue K)
      → Option (SocketEvent × Option (SocketEventQueue K))
  unfolding remove_socket_event is_empty_queue
  on_close_handle p e none = none
  on_close_handle p e (some q) =
      let closed : SocketEvent = record e { event_mask = no_events } in
      let q' : SocketEventQueue K = (remove_socket_event epoll p closed q).1 in
      some (closed, if is_empty_queue q' then none else some q')

  register_again :
      List (Waited K) → ℕ → SocketEvent → Option (SocketEventQueue K) → Option (SocketEventQueue K)
  unfolding remove_socket_event add_socket_event
  register_again ws p e none = none
  register_again ws p e (some q) =
      let (removed, q') = remove_socket_event epoll p e q in
      some (if removed then (add_socket_event ws p e q').1 else q')

  unfoldable pub get_events :
      List (Waited K)
      → ℕ
      → SocketEvent
      → Option (SocketEventQueue K)
      → Mask × SocketEvent × Option (SocketEventQueue K)
  unfolding take_events register_again
  get_events ws p e ptr =
      let (events, reg, e') = take_events e in
      (events, e', if reg then register_again ws p e' ptr else ptr)

  activate_in : ℕ → SocketEvent → Option (SocketEventQueue K) → Option (SocketEventQueue K)
  unfolding activate_event
  activate_in p e none = none
  activate_in p e (some q) = some (activate_event epoll p e q).1

  -- WaitManager::AddSocketEvent, with what poll reports if it reports something.
  unfoldable pub start_wait :
      Option Mask
      → ℕ
      → SocketEvent
      → Option (SocketEventQueue K)
      → SocketEvent × Option (SocketEventQueue K)
  unfolding fire_events activate_in
  start_wait none p e ptr = (e, activate_in p e ptr)
  start_wait (some revents) p e ptr =
      if not (is_none_set revents)
      then (fire_events revents e, ptr)
      else if e.closed
      then (e, ptr)
      else (e, activate_in p e ptr)

-- An entry of the list that epoll_wait filled: the control socket, with what was read from it, or a
-- socket event.
pub data Entry : Type 0 where
  from_control : Option Command → Entry
  from_socket : ℕ → Mask → Entry

abbrev update : ℕ → SocketEvent → (ℕ → SocketEvent) → ℕ → SocketEvent
update p e events k = if p == k then e else events k

module _ {K : Type 0} where
  -- The loop of ProcessEvents, on the events that the pointers stand for; the last command counts.
  unfoldable pub process_entries :
      List Entry
      → Option Command
      → (ℕ → SocketEvent)
      → SocketEventQueue K
      → Option Command × (ℕ → SocketEvent) × SocketEventQueue K
  unfolding deliver
  process_entries [] command events q = (command, events, q)
  process_entries (from_control none ∷ rest) command events q =
      process_entries rest command events q
  process_entries (from_control (some c) ∷ rest) command events q =
      process_entries rest (some c) events q
  process_entries (from_socket p mask ∷ rest) command events q =
      let (e, q') = deliver p mask (events p) q in
      process_entries rest command (update p e events) q'

  unfoldable pub process_events :
      List Entry
      → (ℕ → SocketEvent)
      → SocketEventQueue K
      → Bool × (ℕ → SocketEvent) × SocketEventQueue K
  unfolding process_entries process_command
  process_events entries events q =
      let (command, events', q') = process_entries entries none events q in
      let (goes_on, q'') = process_command command q' in (goes_on, events', q'')

-- What threads do with one queue, each under its lock.
pub data Call : Type 0 where
  call_append call_remove call_activate : ℕ → SocketEvent → Call
  call_process : List Entry → (ℕ → SocketEvent) → Call

module _ {K : Type 0} (epoll : Epoll K) where
  unfoldable pub call : Call → SocketEventQueue K → SocketEventQueue K
  unfolding append remove_socket_event activate_event process_events
  call (call_append p e) q = (append epoll p e q).1
  call (call_remove p e) q = (remove_socket_event epoll p e q).1
  call (call_activate p e) q = (activate_event epoll p e q).1
  call (call_process entries events) q = (process_events entries events q).2

  unfoldable pub run : List Call → SocketEventQueue K → SocketEventQueue K
  unfolding call
  run [] q = q
  run (c ∷ cs) q = run cs (call c q)
