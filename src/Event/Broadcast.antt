-- ===== src/Event/Broadcast.antt =====
-- Who hears of a SetEvent.
use syncme.Prelude.{
  ℕ, ◌≡◌, ◌≢◌, refl, true, false, ◌&&◌, List, [], ◌∷◌, ◌++◌, arith, if◌then◌else◌, map,
}
use syncme.Event.{
  EventState, EventWaitNode, object, silent, complete, get_closing, on_close_handle, set_event,
  wait_for_single_object, register_wait, unregister_wait, owned_by, not_owned_by, everybody, unlink,
  is_registered,
}

-- SetEvent on a notification event tells every registered wait once, wakes every thread, and from
-- then on lets every wait on a handle that is not closing through and stays set.
pub set_event-notification :
    (s : EventState) (h : ℕ)
    → s.notification ≡ true
    → get_closing s h ≡ false
    → let (o, s') = set_event s in
      (o.completions ≡ map (complete false) s.waits)
      × (o.wakeup ≡ everybody)
      × (s'.waits ≡ s.waits)
      × (wait_for_single_object s' h ≡ (object 0, s'))
unfolding set_event wait_for_single_object
set_event-notification s h e c = ground arith

-- A node that was not in the list leaves it as it found it: RegisterWait, then UnregisterWait.
abbrev pub IsFresh : ℕ → List EventWaitNode → Type 0
IsFresh node [] = Unit {0}
IsFresh node (n ∷ ns) = (n.id ≢ node) × IsFresh node ns

unlink-append :
    (h node : ℕ) (ns : List EventWaitNode) (n : EventWaitNode)
    → IsFresh node ns
    → n.id ≡ node
    → n.owner ≡ h
    → (is_registered h node (ns ++ n ∷ []) ≡ true) × (unlink h node (ns ++ n ∷ []) ≡ ns)
unfolding is_registered unlink
unlink-append h node [] n f e o = ground arith
unlink-append h node (m ∷ ns) n f e o = ground (arith, unlink-append h node ns n f.1 e o)

-- RegisterWait and then UnregisterWait leave the list as it was. If the event was set the node is
-- told so, and of a synchronization event that takes the signal.
pub unregister_wait-register_wait :
    (s : EventState) (h node : ℕ)
    → get_closing s h ≡ false
    → IsFresh node s.waits
    → let (o, s') = register_wait s h node in
      let (found, s'') = unregister_wait s' h node in
      (found ≡ true)
      × (s''.waits ≡ s.waits)
      × (o.completions ≡ (
          if s.signalled
          then record { node = node; cookie = s.next_cookie; failed = false } ∷ []
          else []))
      × (s''.signalled ≡ (s.signalled && s.notification))
unfolding register_wait unregister_wait
unregister_wait-register_wait s h node c f = ground (
  arith,
  unlink-append h node s.waits (record { id = node; owner = h; cookie = s.next_cookie }) f refl
      refl,
)

owned_by-not_owned_by : (h : ℕ) (ns : List EventWaitNode) → owned_by h (not_owned_by h ns) ≡ []
owned_by-not_owned_by h [] = refl
owned_by-not_owned_by h (n ∷ ns) = ground (arith, owned_by-not_owned_by h ns)

others-not_owned_by :
    (h k : ℕ) (ns : List EventWaitNode) → k ≢ h → owned_by k (not_owned_by h ns) ≡ owned_by k ns
others-not_owned_by h k [] ne = refl
others-not_owned_by h k (n ∷ ns) ne = ground (arith, others-not_owned_by h k ns ne)

-- Closing a handle tells its own waits that they failed, and leaves those of the other handles and
-- the signal alone; closing it again does nothing.
pub on_close_handle_lem :
    (s : EventState) (h k : ℕ)
    → get_closing s h ≡ false
    → k ≢ h
    → let (o, s') = on_close_handle s h in
      (o.completions ≡ map (complete true) (owned_by h s.waits))
      × (owned_by h s'.waits ≡ [])
      × (owned_by k s'.waits ≡ owned_by k s.waits)
      × (get_closing s' k ≡ get_closing s k)
      × (s'.signalled ≡ s.signalled)
      × (on_close_handle s' h ≡ (silent, s'))
unfolding on_close_handle get_closing
on_close_handle_lem s h k c ne =
    ground (arith, owned_by-not_owned_by h s.waits, others-not_owned_by h k s.waits ne)
