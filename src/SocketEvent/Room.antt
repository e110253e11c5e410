-- ===== src/SocketEvent/Room.antt =====
-- Events of Sockets/SocketEventQueue.cpp, the list that epoll_wait fills.
use syncme.Prelude.{
  ℕ, ◌+◌, ◌≡◌, ◌≤◌, ◌≢◌, ◌<◌, ◌%◌, refl, ap, arith, Bool, true, false, Option, none, some, List, [],
  ◌∷◌, leb→le, length,
}
use syncme.SocketEvent.{
  Mask, SocketEvent, SocketEventMap, Command, cmd_exit, cmd_grow, unknown, Epoll, SocketEventQueue,
  grow_size, lookup, store, remove, grow, append, append_entry, remove_socket_event, remove_found,
  activate_event, activate_found, deliver, deliver_found, process_command,
}
use syncme.SocketEvent.Calls.{
  Call, call_append, call_remove, call_activate, call_process, Entry, from_control, from_socket,
  process_entries, process_events, call, run,
}

-- epoll_wait has room for every event of the queue and for the control socket.
abbrev pub HasRoom : {K : Type 0} → SocketEventQueue K → Type 0
HasRoom q = length q.queue + 1 ≤ q.list_size

length-store : (p : ℕ) (b : Bool) (m : SocketEventMap) → length (store p b m) ≤ length m + 1
unfolding store
length-store p b [] = omega arith
length-store p b ((k, c) ∷ m) = ground (arith, length-store p b m)

length-store_found :
    (p : ℕ) (b c : Bool) (m : SocketEventMap)
    → lookup p m ≡ some c
    → length (store p b m) ≡ length m
unfolding store lookup
length-store_found p b c [] h = cc
length-store_found p b c ((k, d) ∷ m) h = ground (arith, length-store_found p b c m)

length-remove : (p : ℕ) (m : SocketEventMap) → length (remove p m) ≤ length m
unfolding remove
length-remove p [] = omega arith
length-remove p ((k, b) ∷ m) = ground (arith, length-remove p m)

module _ {K : Type 0} (epoll : Epoll K) where
  append-HasRoom :
      (p : ℕ) (e : SocketEvent) (q : SocketEventQueue K)
      → HasRoom q
      → HasRoom (append epoll p e q).1
  unfolding append append_entry
  append-HasRoom p e q h =
      ground (arith, length-store p true q.queue, leb→le (length q.queue + 1 + 1) q.list_size)

  remove_found-HasRoom :
      (o : Option Bool) (p : ℕ) (e : SocketEvent) (q : SocketEventQueue K)
      → HasRoom q
      → HasRoom (remove_found epoll o p e q).1
  unfolding remove_found
  remove_found-HasRoom none p e q h = h
  remove_found-HasRoom (some armed) p e q h = omega (arith, length-remove p q.queue)

  activate_found-HasRoom :
      (o : Option Bool) (p : ℕ) (e : SocketEvent) (q : SocketEventQueue K)
      → lookup p q.queue ≡ o
      → HasRoom q
      → HasRoom (activate_found epoll o p e q).1
  unfolding activate_found
  activate_found-HasRoom none p e q k h = h
  activate_found-HasRoom (some true) p e q k h = h
  activate_found-HasRoom (some false) p e q k h =
      ground (arith, length-store_found p true false q.queue k)

  deliver_found-HasRoom :
      (o : Option Bool) (p : ℕ) (events : Mask) (e : SocketEvent) (q : SocketEventQueue K)
      → lookup p q.queue ≡ o
      → HasRoom q
      → HasRoom (deliver_found o p events e q).1
  unfolding deliver_found
  deliver_found-HasRoom none p events e q k h = h
  deliver_found-HasRoom (some armed) p events e q k h =
      ground (arith, length-store_found p false armed q.queue k)

  command-HasRoom :
      (c : Option Command) (q : SocketEventQueue K) → HasRoom q → HasRoom (process_command c q).1
  unfolding process_command
  command-HasRoom none q h = h
  command-HasRoom (some cmd_exit) q h = h
  command-HasRoom (some cmd_grow) q h = omega arith
  command-HasRoom (some unknown) q h = h

  entries-HasRoom :
      (entries : List Entry) (c : Option Command) (events : ℕ → SocketEvent)
      (q : SocketEventQueue K)
      → HasRoom q
      → HasRoom (process_entries entries c events q).2
  unfolding process_entries deliver
  entries-HasRoom [] c events q h = h
  entries-HasRoom (from_control none ∷ rest) c events q h = entries-HasRoom rest c events q h
  entries-HasRoom (from_control (some d) ∷ rest) c events q h =
      entries-HasRoom rest (some d) events q h
  entries-HasRoom (from_socket p mask ∷ rest) c events q h =
      entries-HasRoom rest c _ _ (deliver_found-HasRoom _ p mask (events p) q refl h)

  call-HasRoom : (c : Call) (q : SocketEventQueue K) → HasRoom q → HasRoom (call epoll c q)
  unfolding call remove_socket_event activate_event process_events
  call-HasRoom (call_append p e) q h = append-HasRoom p e q h
  call-HasRoom (call_remove p e) q h = remove_found-HasRoom _ p e q h
  call-HasRoom (call_activate p e) q h = activate_found-HasRoom _ p e q refl h
  call-HasRoom (call_process entries events) q h =
      command-HasRoom _ _ (entries-HasRoom entries none events q h)

-- Whatever calls are made, the list that epoll_wait fills has room for every event of the queue and
-- for the control socket.
pub run-HasRoom :
    {K : Type 0} (epoll : Epoll K) (calls : List Call) (q : SocketEventQueue K)
    → HasRoom q
    → HasRoom (run epoll calls q)
unfolding run
run-HasRoom epoll [] q h = h
run-HasRoom epoll (c ∷ cs) q h = run-HasRoom epoll cs (call epoll c q) (call-HasRoom epoll c q h)

module _ {K : Type 0} (epoll : Epoll K) where
  -- An Append that asks leaves the queue and the list as they are.
  append-asked :
      (p : ℕ) (e : SocketEvent) (q : SocketEventQueue K)
      → (append epoll p e q).0 ≡ grow
      → ((append epoll p e q).1.list_size ≡ q.list_size) × ((append epoll p e q).1.queue ≡ q.queue)
  unfolding append append_entry
  append-asked p e q k = (ground arith, ground arith)

  append-fits :
      (p : ℕ) (e : SocketEvent) (q : SocketEventQueue K)
      → length q.queue + 2 ≤ q.list_size
      → (append epoll p e q).0 ≢ grow
  unfolding append append_entry
  append-fits p e q h k = ground arith

-- An Append that asks for a longer list is not asked again: where the list had room for the
-- queue, once the worker has read the command it is longer by at most 65 entries, its length
-- is a multiple of 64, EvGrowDone is set, and an Append of any event that follows at once does
-- not ask for more.
pub append-after_grow :
    {K : Type 0} (epoll : Epoll K) (p p' : ℕ) (e e' : SocketEvent) (q : SocketEventQueue K)
    → HasRoom q
    → (append epoll p e q).0 ≡ grow
    → let grown = (process_command (some cmd_grow) (append epoll p e q).1).1 in
      (q.list_size < grown.list_size)
      × (grown.list_size ≤ q.list_size + 1 + grow_size)
      × (grown.list_size % grow_size ≡ 0)
      × (grown.ev_grow_done ≡ true)
      × ((append epoll p' e' grown).0 ≢ grow)
unfolding process_command
append-after_grow epoll p p' e e' q h k =
    let (same_size, same_queue) = append-asked epoll p e q k in
    (
      omega (arith, same_size),
      omega (arith, same_size),
      omega (arith, same_size),
      refl,
      append-fits epoll p' e' _ (omega (arith, h, same_size, ap length same_queue)),
    )
