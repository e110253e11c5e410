-- ===== src/SocketEvent/Absent.antt =====
-- Events that Sockets/SocketEventQueue.cpp does not hold.
use syncme.Prelude.{
  ℕ, ◌+◌, ◌≡◌, ◌≢◌, ◌≤◌, refl, ap, ◌∙◌, arith, Bool, true, false, Option, none, some, List, [], ◌∷◌,
  length,
}
use syncme.SocketEvent.{
  Mask, SocketEvent, SocketEventMap, Command, cmd_exit, cmd_grow, unknown, Epoll, SocketEventQueue,
  lookup, store, remove, success, append, append_entry, remove_socket_event, remove_found,
  activate_event, activate_found, deliver, deliver_found, process_command, is_none_set,
  get_poll_event,
}
use syncme.SocketEvent.Calls.{
  Call, call_append, call_remove, call_activate, call_process, Entry, from_control, from_socket,
  process_entries, process_events, call, run,
}

lookup-store_other :
    (p k : ℕ) (b : Bool) (m : SocketEventMap) → p ≢ k → lookup p (store k b m) ≡ lookup p m
unfolding lookup store
lookup-store_other p k b [] h = ground (arith, h)
lookup-store_other p k b ((j, c) ∷ m) h = ground (arith, h, lookup-store_other p k b m h)

lookup-remove : (p : ℕ) (m : SocketEventMap) → lookup p (remove p m) ≡ none
unfolding lookup remove
lookup-remove p [] = refl
lookup-remove p ((k, b) ∷ m) = ground (arith, lookup-remove p m)

lookup-remove_absent :
    (p k : ℕ) (m : SocketEventMap) → lookup p m ≡ none → lookup p (remove k m) ≡ none
unfolding lookup remove
lookup-remove_absent p k [] h = refl
lookup-remove_absent p k ((j, b) ∷ m) h = ground (arith, lookup-remove_absent p k m)

-- The queue does not hold `p`.
abbrev pub IsAbsent : {K : Type 0} → ℕ → SocketEventQueue K → Type 0
IsAbsent p q = lookup p q.queue ≡ none

-- No call of these adds `p`.
abbrev pub NeverAdds : ℕ → List Call → Type 0
NeverAdds p [] = Unit {0}
NeverAdds p (call_append k e ∷ cs) = (p ≢ k) × NeverAdds p cs
NeverAdds p (c ∷ cs) = NeverAdds p cs

module _ {K : Type 0} (epoll : Epoll K) (p : ℕ) where
  append-IsAbsent :
      (k : ℕ) (e : SocketEvent) (q : SocketEventQueue K)
      → p ≢ k
      → IsAbsent p q
      → IsAbsent p (append epoll k e q).1
  unfolding append append_entry
  append-IsAbsent k e q h a = ground (arith, lookup-store_other p k true q.queue h)

  -- A call that finds `k` is not one about `p`.
  found-other :
      (k : ℕ) (b : Bool) (m : SocketEventMap) → lookup p m ≡ none → lookup k m ≡ some b → p ≢ k
  found-other k b m a f e = cc (ap (λ j. lookup j m) e)

  remove_found-IsAbsent :
      (o : Option Bool) (k : ℕ) (e : SocketEvent) (q : SocketEventQueue K)
      → IsAbsent p q
      → IsAbsent p (remove_found epoll o k e q).1
  unfolding remove_found
  remove_found-IsAbsent none k e q a = a
  remove_found-IsAbsent (some b) k e q a = lookup-remove_absent p k q.queue a

  activate_found-IsAbsent :
      (o : Option Bool) (k : ℕ) (e : SocketEvent) (q : SocketEventQueue K)
      → lookup k q.queue ≡ o
      → IsAbsent p q
      → IsAbsent p (activate_found epoll o k e q).1
  unfolding activate_found
  activate_found-IsAbsent none k e q f a = a
  activate_found-IsAbsent (some true) k e q f a = a
  activate_found-IsAbsent (some false) k e q f a =
      ground (arith, lookup-store_other p k true q.queue (found-other k false q.queue a f))

  deliver_found-IsAbsent :
      (o : Option Bool) (k : ℕ) (events : Mask) (e : SocketEvent) (q : SocketEventQueue K)
      → lookup k q.queue ≡ o
      → IsAbsent p q
      → IsAbsent p (deliver_found o k events e q).1
  unfolding deliver_found
  deliver_found-IsAbsent none k events e q f a = a
  deliver_found-IsAbsent (some b) k events e q f a =
      lookup-store_other p k false q.queue (found-other k b q.queue a f) ∙ a

  command-IsAbsent :
      (c : Option Command) (q : SocketEventQueue K)
      → IsAbsent p q
      → IsAbsent p (process_command c q).1
  unfolding process_command
  command-IsAbsent none q a = a
  command-IsAbsent (some cmd_exit) q a = a
  command-IsAbsent (some cmd_grow) q a = a
  command-IsAbsent (some unknown) q a = a

  entries-IsAbsent :
      (entries : List Entry) (c : Option Command) (events : ℕ → SocketEvent)
      (q : SocketEventQueue K)
      → IsAbsent p q
      → IsAbsent p (process_entries entries c events q).2
  unfolding process_entries deliver
  entries-IsAbsent [] c events q a = a
  entries-IsAbsent (from_control none ∷ rest) c events q a = entries-IsAbsent rest c events q a
  entries-IsAbsent (from_control (some d) ∷ rest) c events q a =
      entries-IsAbsent rest (some d) events q a
  entries-IsAbsent (from_socket k mask ∷ rest) c events q a =
      entries-IsAbsent rest c _ _ (deliver_found-IsAbsent _ k mask (events k) q refl a)

  run-IsAbsent :
      (calls : List Call) (q : SocketEventQueue K)
      → NeverAdds p calls
      → IsAbsent p q
      → IsAbsent p (run epoll calls q)
  unfolding run call remove_socket_event activate_event process_events
  run-IsAbsent [] q n a = a
  run-IsAbsent (call_append k e ∷ cs) q (h, n) a = run-IsAbsent cs _ n (append-IsAbsent k e q h a)
  run-IsAbsent (call_remove k e ∷ cs) q n a = run-IsAbsent cs _ n (remove_found-IsAbsent _ k e q a)
  run-IsAbsent (call_activate k e ∷ cs) q n a =
      run-IsAbsent cs _ n (activate_found-IsAbsent _ k e q refl a)
  run-IsAbsent (call_process entries events ∷ cs) q n a =
      run-IsAbsent cs _ n (command-IsAbsent _ _ (entries-IsAbsent entries none events q a))

  remove_found-removed :
      (o : Option Bool) (e : SocketEvent) (q : SocketEventQueue K)
      → lookup p q.queue ≡ o
      → IsAbsent p (remove_found epoll o p e q).1
  unfolding remove_found
  remove_found-removed none e q f = f
  remove_found-removed (some b) e q f = lookup-remove p q.queue

  absent-ignored :
      (o : Option Bool) (events : Mask) (e : SocketEvent) (q : SocketEventQueue K)
      → o ≡ none
      → (deliver_found o p events e q ≡ (e, q)) × (activate_found epoll o p e q ≡ (false, q))
  unfolding deliver_found activate_found
  absent-ignored none events e q f = (refl, refl)
  absent-ignored (some b) events e q f = cc

-- Once RemoveSocketEvent was called for an event, and as long as it is not added again, whatever
-- other calls are made: what epoll_wait still gives for it is not delivered, and it is not
-- activated.
pub run-removed :
    {K : Type 0} (epoll : Epoll K) (p : ℕ) (e e' : SocketEvent) (events : Mask) (calls : List Call)
    (q : SocketEventQueue K)
    → NeverAdds p calls
    → let q' = run epoll calls (remove_socket_event epoll p e q).1 in
      (deliver p events e' q' ≡ (e', q')) × (activate_event epoll p e' q' ≡ (false, q'))
unfolding remove_socket_event deliver activate_event
run-removed epoll p e e' events calls q n =
    absent-ignored epoll p _ events e' _
      (run-IsAbsent epoll p calls _ n (remove_found-removed epoll p _ e q refl))

-- Append, where EvStop is not set and the list has room, accepts an event that is not in the
-- queue and has nothing to poll for at the moment, but does not put it into the queue:
-- ActivateEvent then refuses it whatever there is to poll for later, until it is added again.
pub append-unseen :
    {K : Type 0} (epoll : Epoll K) (p : ℕ) (e e' : SocketEvent) (calls : List Call)
    (q : SocketEventQueue K)
    → lookup p q.queue ≡ none
    → q.ev_stop ≡ false
    → length q.queue + 2 ≤ q.list_size
    → is_none_set (get_poll_event e) ≡ true
    → NeverAdds p calls
    → let q' = run epoll calls q in
      (append epoll p e q ≡ (success, q)) × (activate_event epoll p e' q' ≡ (false, q'))
unfolding append append_entry activate_event
append-unseen epoll p e e' calls q a s h m n =
    (ground arith, (absent-ignored epoll p _ e.events e' _ (run-IsAbsent epoll p calls q n a)).1)
