-- ===== src/SocketEvent/Tests.antt =====
-- The socket events of lib/source/Sockets on a kernel that remembers which sockets it polls.
use syncme.Prelude.{
  ℕ, ◌+◌, ◌≡◌, ◌≢◌, ◌≤◌, ◌<◌, ◌%◌, refl, arith, true, false, none, some, List, [], ◌∷◌, ◌==◌,
  if◌then◌else◌,
}
use syncme.SocketEvent.{
  Mask, no_events, SocketEvent, cmd_grow, Epoll, SocketEventQueue, grow_size, grow, success, lookup,
  get_poll_event, append, process_command, activate_event, deliver, remove_socket_event,
}
use syncme.SocketEvent.Calls.{
  Call, call_append, call_remove, call_activate, call_process, from_control, from_socket, run,
  create_socket_event, get_events, start_wait,
}
use syncme.SocketEvent.Room.{HasRoom, run-HasRoom, append-after_grow}
use syncme.SocketEvent.Absent.{run-removed, append-unseen}
use syncme.SocketEvent.NullQueue.{close_both, close_both-null}

abbrev without : ℕ → List ℕ → List ℕ
without s [] = []
without s (t ∷ ts) = if s == t then ts else t ∷ without s ts

abbrev polling : Epoll (List ℕ)
polling = record {
  ctl_add = λ k s p m. (true, s ∷ k);
  ctl_mod = λ k s p m. (true, k);
  ctl_del = λ k s. (true, without s k);
  send_to_self = λ k c. (true, k);
}

abbrev event_for : Mask → SocketEvent
event_for m = record {
  socket = 5;
  event_mask = m;
  events = no_events;
  closed = false;
  tx_queue = none;
  sets = 0;
}

abbrev for_input : SocketEvent
for_input = event_for (record { read = true; write = false; close = true })

-- It has no queue of bytes to send.
abbrev for_output : SocketEvent
for_output = event_for (record { read = false; write = true; close = false })

abbrev some_input : Mask
some_input = record { read = true; write = false; close = false }

abbrev calls : List Call
calls =
    call_append 1 for_input
    ∷ call_append 2 for_input
    ∷ call_process (from_socket 2 some_input ∷ []) (λ p. for_input)
    ∷ call_activate 2 for_input
    ∷ call_process (from_control (some cmd_grow) ∷ []) (λ p. for_input)
    ∷ call_remove 1 for_input
    ∷ []

abbrev new_queue : SocketEventQueue (List ℕ)
new_queue = record {
  ev_stop = false;
  ev_grow_done = false;
  thread = false;
  queue = [];
  poll = [];
  list_size = grow_size;
}

abbrev full_queue : SocketEventQueue (List ℕ)
full_queue = record new_queue { queue = (1, true) ∷ []; list_size = 2 }

calls_queue : (run polling calls new_queue).queue ≡ (2, true) ∷ []
unfolding run
calls_queue = refl

-- The input that is there is reported, and taken once.
input_taken :
    let (e, ptr) = start_wait polling (some some_input) 1 for_input (some new_queue) in
    let (events, e', ptr') = get_events polling [] 1 e ptr in
    (events ≡ some_input) × (e'.events ≡ no_events)
unfolding start_wait get_events
input_taken = (refl, refl)

run-HasRoom_example : HasRoom (run polling calls new_queue)
run-HasRoom_example = run-HasRoom polling calls new_queue (omega arith)

append-after_grow_example :
    let grown = (process_command (some cmd_grow) (append polling 2 for_input full_queue).1).1 in
    (2 < grown.list_size)
    × (grown.list_size ≤ 2 + 1 + grow_size)
    × (grown.list_size % grow_size ≡ 0)
    × (grown.ev_grow_done ≡ true)
    × ((append polling 2 for_input grown).0 ≢ grow)
unfolding append
append-after_grow_example =
    append-after_grow polling 2 2 for_input for_input full_queue (omega arith) refl

run-removed_example :
    let q' =
      run polling
        (call_process (from_socket 2 some_input ∷ []) (λ p. for_input)
          ∷ call_append 3 for_input
          ∷ [])
        (remove_socket_event polling 2 for_input (run polling calls new_queue)).1 in
    (deliver 2 some_input for_input q' ≡ (for_input, q'))
    × (activate_event polling 2 for_input q' ≡ (false, q'))
run-removed_example =
    run-removed polling 2 for_input for_input some_input
      (call_process (from_socket 2 some_input ∷ []) (λ p. for_input) ∷ call_append 3 for_input ∷ [])
      (run polling calls new_queue) ((λ e. cc), tt)

append-unseen_example :
    let q' = run polling (call_append 1 for_input ∷ []) new_queue in
    (append polling 2 for_output new_queue ≡ (success, new_queue))
    × (activate_event polling 2 for_input q' ≡ (false, q'))
unfolding lookup get_poll_event
append-unseen_example =
    append-unseen polling 2 for_output for_input (call_append 1 for_input ∷ []) new_queue refl refl
      (omega arith) refl ((λ e. cc), tt)

close_both-null_example :
    let (r, ptr) = create_socket_event polling [] (some []) 1 for_output none in
    let (r', ptr') = create_socket_event polling [] none 2 for_output ptr in
    (r ≡ some true) × (r' ≡ some true) × (close_both polling 1 for_output 2 for_output ptr' ≡ none)
unfolding get_poll_event
close_both-null_example = close_both-null polling [] 1 2 for_output for_output refl refl
