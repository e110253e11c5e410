-- ===== src/SocketEvent/NullQueue.antt =====
-- The queue that SocketEventQueue::Ptr points to, over creations and closings of socket events.
use syncme.Prelude.{ℕ, ◌≡◌, refl, arith, ap, subst, sym, true, Option, none, some, []}
use syncme.SocketEvent.{
  SocketEvent, Epoll, SocketEventQueue, socket_event_queue, append, append_entry,
  remove_socket_event, is_empty_queue, is_none_set, get_poll_event, lookup, success, remove_found,
}
use syncme.SocketEvent.Calls.{add_socket_event, create_socket_event, on_close_handle, after_append}

module _ {K : Type 0} (epoll : Epoll K) where
  -- OnCloseHandle of two events, one after the other.
  unfoldable pub close_both :
      ℕ
      → SocketEvent
      → ℕ
      → SocketEvent
      → Option (SocketEventQueue K)
      → Option (SocketEvent × Option (SocketEventQueue K))
  unfolding on_close_handle
  close_both p e p' e' ptr = elim (on_close_handle epoll p e ptr) [
    | none ↦ none
    | some (_, ptr') ↦ on_close_handle epoll p' e' ptr'
  ]

  append-unseen_first :
      (p : ℕ) (e : SocketEvent) (poll : K)
      → is_none_set (get_poll_event e) ≡ true
      → append epoll p e (socket_event_queue poll) ≡ (success, socket_event_queue poll)
  unfolding append append_entry socket_event_queue
  append-unseen_first p e poll h = ground arith

  add-unseen :
      (p : ℕ) (e : SocketEvent) (poll : K)
      → is_none_set (get_poll_event e) ≡ true
      → add_socket_event epoll [] p e (socket_event_queue poll)
        ≡ (some true, socket_event_queue poll)
  unfolding add_socket_event after_append
  add-unseen p e poll h =
      ap (after_append epoll (λ q'. (none, q'))) (append-unseen_first p e poll h)

  close_both-fresh :
      (p p' : ℕ) (e e' : SocketEvent) (poll : K)
      → close_both p e p' e' (some (socket_event_queue poll)) ≡ none
  unfolding close_both on_close_handle remove_socket_event remove_found lookup is_empty_queue
      socket_event_queue
  close_both-fresh p p' e e' poll = refl

-- Two events for which there is nothing to poll are created, the first of which makes the queue.
-- Both creations succeed, but closing both events calls a member function of the null pointer.
pub close_both-null :
    {K : Type 0} (epoll : Epoll K) (poll : K) (p p' : ℕ) (e e' : SocketEvent)
    → is_none_set (get_poll_event e) ≡ true
    → is_none_set (get_poll_event e') ≡ true
    → let (r, ptr) = create_socket_event epoll [] (some poll) p e none in
      let (r', ptr') = create_socket_event epoll [] none p' e' ptr in
      (r ≡ some true) × (r' ≡ some true) × (close_both epoll p e p' e' ptr' ≡ none)
unfolding create_socket_event
close_both-null epoll poll p p' e e' h h' = (
  ap (λ m. m.0) first,
  subst (λ m. (add_socket_event epoll [] p' e' m.1).0 ≡ some true) (sym first)
      (ap (λ m. m.0) second),
  subst (λ m. close_both epoll p e p' e' (some (add_socket_event epoll [] p' e' m.1).1) ≡ none)
      (sym first)
      (subst (λ m. close_both epoll p e p' e' (some m.1) ≡ none) (sym second)
        (close_both-fresh epoll p p' e e' poll)),
)
  where
    first :
        add_socket_event epoll [] p e (socket_event_queue poll)
        ≡ (some true, socket_event_queue poll)
    first = add-unseen epoll p e poll h

    second :
        add_socket_event epoll [] p' e' (socket_event_queue poll)
        ≡ (some true, socket_event_queue poll)
    second = add-unseen epoll p' e' poll h'
