-- ===== src/SocketEvent.antt =====
-- Sockets/SocketEvent.cpp and SocketEventQueue.cpp as they are compiled for Linux, with WaitManager.cpp
-- and API.cpp. The kernel is a parameter (`Epoll`). A pointer to a SocketEvent is a number.
pub mod Calls
mod Room
mod Absent
mod NullQueue
mod Tests
use syncme.Prelude.{
  ℕ, zero, suc, ◌+◌, ◌*◌, ◌/◌, Bool, true, false, not, ◌&&◌, ◌||◌, Option, none, some, List, [],
  ◌∷◌, ◌++◌, ◌==◌, leb, if◌then◌else◌, length,
}
use syncme.IoQueue.{Queue, is_empty}

-- A set of EVENT_READ, EVENT_WRITE and EVENT_CLOSE, and of EPOLLIN, EPOLLOUT and EPOLLRDHUP.
pub record Mask : Type 0 where
  pub read : Bool
  pub write : Bool
  pub close : Bool

abbrev pub no_events : Mask
no_events = record { read = false; write = false; close = false }

abbrev pub is_none_set : Mask → Bool
is_none_set m = not (m.read || (m.write || m.close))

abbrev pub and_mask : Mask → Mask → Mask
and_mask a b = record {
  read = a.read && b.read;
  write = a.write && b.write;
  close = a.close && b.close;
}

pub record SocketEvent : Type 0 where
  pub socket : ℕ
  pub event_mask : Mask
  pub events : Mask
  pub closed : Bool
  pub tx_queue : Option Queue
  -- How often SetEvent was called on it.
  pub sets : ℕ

abbrev pub SocketEventMap : Type 0
SocketEventMap = List (ℕ × Bool)

-- Commands that were sent to ControlSocket and are not read.
pub data Command : Type 0 where
  cmd_exit cmd_grow unknown : Command

-- epoll_ctl on one epoll instance, and sendto of the control socket to itself; each says whether it
-- worked.
pub record Epoll (K : Type 0) : Type 0 where
  pub ctl_add : K → ℕ → ℕ → Mask → Bool × K
  pub ctl_mod : K → ℕ → ℕ → Mask → Bool × K
  pub ctl_del : K → ℕ → Bool × K
  pub send_to_self : K → Command → Bool × K

pub record SocketEventQueue (K : Type 0) : Type 0 where
  -- Whether EvStop and EvGrowDone are set.
  pub ev_stop : Bool
  pub ev_grow_done : Bool
  pub thread : Bool
  pub queue : SocketEventMap
  pub poll : K
  -- Events.size()
  pub list_size : ℕ

abbrev pub grow_size : ℕ
grow_size = 64

-- The constructor, once the system calls in it have worked.
unfoldable pub socket_event_queue : {K : Type 0} → K → SocketEventQueue K
socket_event_queue poll = record {
  ev_stop = false;
  ev_grow_done = false;
  thread = false;
  queue = [];
  poll = poll;
  list_size = grow_size;
}

expects_write : Option Queue → Bool
expects_write none = false
expects_write (some q) = not (is_empty q)

unfoldable pub expect_write : SocketEvent → Bool
unfolding expects_write
expect_write e = expects_write e.tx_queue

unfoldable pub get_poll_event : SocketEvent → Mask
unfolding expect_write
get_poll_event e = record {
  read = e.event_mask.read;
  write = expect_write e && e.event_mask.write;
  close = e.event_mask.close;
}

-- SocketEvent::FireEvents
unfoldable pub fire_events : Mask → SocketEvent → SocketEvent
fire_events events e =
    let masked : Mask = and_mask events e.event_mask in
    if is_none_set masked
    then e
    else record e { events = masked; closed = e.closed || masked.close; sets = e.sets + 1 }

-- The start of GetEvents: what happened, and whether the event has to be registered again.
unfoldable pub take_events : SocketEvent → Mask × Bool × SocketEvent
take_events e =
    let mask : Mask = e.event_mask in
    (
      e.events,
      e.events.close,
      record e {
        events = no_events;
        event_mask = record mask { close = mask.close && not e.events.close };
      },
    )

-- Queue.count, Queue[p], Queue[p] = b and Queue.erase.
unfoldable pub lookup : ℕ → SocketEventMap → Option Bool
lookup p [] = none
lookup p ((k, b) ∷ m) = if p == k then some b else lookup p m

unfoldable pub store : ℕ → Bool → SocketEventMap → SocketEventMap
store p b [] = (p, b) ∷ []
store p b ((k, c) ∷ m) = if p == k then (k, b) ∷ m else (k, c) ∷ store p b m

unfoldable pub remove : ℕ → SocketEventMap → SocketEventMap
remove p [] = []
remove p ((k, b) ∷ m) = let rest = remove p m in if p == k then rest else (k, b) ∷ rest

pub data AddEventResult : Type 0 where
  failed success grow : AddEventResult

module _ {K : Type 0} (epoll : Epoll K) where
  -- Append, once the entry fits the list.
  unfoldable pub append_entry :
      ℕ → SocketEvent → SocketEventQueue K → AddEventResult × SocketEventQueue K
  unfolding get_poll_event store
  append_entry p e q =
      if is_none_set (get_poll_event e)
      then (success, q)
      else let (added, poll) = epoll.ctl_add q.poll e.socket p (get_poll_event e) in
        if not added
        then (failed, record q { poll = poll })
        else (success, record q { poll = poll; queue = store p true q.queue; thread = true })

  unfoldable pub append : ℕ → SocketEvent → SocketEventQueue K → AddEventResult × SocketEventQueue K
  unfolding append_entry
  append p e q =
      let num_events : ℕ = length q.queue + 1 in
      if q.ev_stop
      then (failed, q)
      else if leb (num_events + 1) q.list_size
      then append_entry p e q
      else let (sent, poll) = epoll.send_to_self q.poll cmd_grow in
        (if not sent then failed else grow, record q { ev_grow_done = false; poll = poll })

  remove_found : Option Bool → ℕ → SocketEvent → SocketEventQueue K → Bool × SocketEventQueue K
  unfolding remove
  remove_found none p e q = (false, q)
  remove_found (some armed) p e q =
      let (deleted, poll) = epoll.ctl_del q.poll e.socket in
      (deleted, record q { queue = remove p q.queue; poll = poll })

  unfoldable pub remove_socket_event :
      ℕ → SocketEvent → SocketEventQueue K → Bool × SocketEventQueue K
  unfolding lookup remove_found
  remove_socket_event p e q = remove_found (lookup p q.queue) p e q

  activate_found : Option Bool → ℕ → SocketEvent → SocketEventQueue K → Bool × SocketEventQueue K
  unfolding get_poll_event store
  activate_found none p e q = (false, q)
  activate_found (some true) p e q = (true, q)
  activate_found (some false) p e q =
      if is_none_set (get_poll_event e)
      then (false, q)
      else let (modified, poll) = epoll.ctl_mod q.poll e.socket p (get_poll_event e) in
        if not modified
        then (false, record q { poll = poll })
        else (true, record q { poll = poll; queue = store p true q.queue })

  unfoldable pub activate_event : ℕ → SocketEvent → SocketEventQueue K → Bool × SocketEventQueue K
  unfolding lookup activate_found
  activate_event p e q = activate_found (lookup p q.queue) p e q

module _ {K : Type 0} where
  unfoldable pub is_empty_queue : SocketEventQueue K → Bool
  is_empty_queue q = length q.queue == 0

  deliver_found :
      Option Bool → ℕ → Mask → SocketEvent → SocketEventQueue K → SocketEvent × SocketEventQueue K
  unfolding store fire_events
  deliver_found none p events e q = (e, q)
  deliver_found (some armed) p events e q =
      (fire_events events e, record q { queue = store p false q.queue })

  -- SocketEventQueue::FireEvents for an event that epoll_wait gave.
  unfoldable pub deliver :
      ℕ → Mask → SocketEvent → SocketEventQueue K → SocketEvent × SocketEventQueue K
  unfolding lookup deliver_found
  deliver p events e q = deliver_found (lookup p q.queue) p events e q

  -- The commands of ProcessEvents; the result says whether Worker goes on.
  unfoldable pub process_command : Option Command → SocketEventQueue K → Bool × SocketEventQueue K
  process_command none q = (true, q)
  process_command (some cmd_exit) q = (false, q)
  process_command (some cmd_grow) q = (
    true,
    record q { list_size = ((q.list_size + 1) / grow_size + 1) * grow_size; ev_grow_done = true },
  )
  process_command (some unknown) q = (true, q)
