-- ===== src/Event/Starvation.antt =====
-- A synchronization event of Event.cpp while its first wait stays registered.
use syncme.Prelude.{
  ◌≡◌, ◌≢◌, refl, ap, ◌∙◌, arith, true, false, ◌&&◌, List, [], ◌∷◌, ◌++◌, map, ◌==◌, if◌then◌else◌,
}
use syncme.Event.{
  EventState, EventWaitNode, Completion, complete, get_closing, on_close_handle, set_event,
  reset_event, duplicate, wait_for_single_object, register_wait, unregister_wait, owned_by,
  not_owned_by, is_registered, unlink,
}
use syncme.Event.Tokens.{
  Call, sets, resets, duplicates, closes, waits, registers, unregisters, step, run, sets_of,
  granted-closed, sets_of-cons,
}

-- The calls of Complete with false.
abbrev pub granted_of : List Completion → List Completion
granted_of [] = []
granted_of (c ∷ cs) = if c.failed then granted_of cs else c ∷ granted_of cs

abbrev pub heard_at : EventState → Call → List Completion
heard_at s sets = granted_of (set_event s).0.completions
heard_at s resets = []
heard_at s (duplicates h) = []
heard_at s (closes h) = granted_of (on_close_handle s h).0.completions
heard_at s (waits h) = []
heard_at s (registers h node) = granted_of (register_wait s h node).0.completions
heard_at s (unregisters h node) = []

-- The registered waits that a run lets through, in order.
abbrev pub heard : EventState → List Call → List Completion
heard s [] = []
heard s (c ∷ cs) = heard_at s c ++ heard (step s c).1 cs

-- The completion, once for each SetEvent.
abbrev pub copies : Completion → List Call → List Completion
copies c [] = []
copies c (sets ∷ cs) = c ∷ copies c cs
copies c (resets ∷ cs) = copies c cs
copies c (duplicates h ∷ cs) = copies c cs
copies c (closes h ∷ cs) = copies c cs
copies c (waits h ∷ cs) = copies c cs
copies c (registers h node ∷ cs) = copies c cs
copies c (unregisters h node ∷ cs) = copies c cs

-- The call neither unregisters the wait nor closes its handle.
abbrev pub Leaves : EventWaitNode → Call → Type 0
Leaves n sets = Unit {0}
Leaves n resets = Unit {0}
Leaves n (duplicates h) = Unit {0}
Leaves n (closes h) = n.owner ≢ h
Leaves n (waits h) = Unit {0}
Leaves n (registers h node) = Unit {0}
Leaves n (unregisters h node) = (n.id == node && n.owner == h) ≡ false

abbrev pub AllLeave : EventWaitNode → List Call → Type 0
AllLeave n [] = Unit {0}
AllLeave n (c ∷ cs) = Leaves n c × AllLeave n cs

-- The wait is the first of a synchronization event that is not set.
abbrev pub IsFirst : EventWaitNode → EventState → Type 0
IsFirst n s =
    (s.notification ≡ false)
    × (s.signalled ≡ false)
    × ((ns : List EventWaitNode) × (s.waits ≡ n ∷ ns))

granted_of-closed : (ns : List EventWaitNode) → granted_of (map (complete true) ns) ≡ []
granted_of-closed [] = refl
granted_of-closed (n ∷ ns) = granted_of-closed ns

module _ (n : EventWaitNode) where
  -- What one call does.
  Once : EventState → Call → Type 0
  Once s c =
      (heard_at s c ≡ copies (complete false n) (c ∷ []))
      × ((step s c).0 ≡ sets_of (c ∷ []))
      × IsFirst n (step s c).1

  step-IsFirst : (s : EventState) (c : Call) → Leaves n c → IsFirst n s → Once s c
  unfolding Once step set_event reset_event duplicate on_close_handle wait_for_single_object
      register_wait unregister_wait is_registered unlink
  step-IsFirst s sets l (f, g, (ns, w)) =
      (ground arith, ground arith, (ground arith, ground arith, (ns, ground arith)))
  step-IsFirst s resets l (f, g, (ns, w)) = (refl, refl, (f, refl, (ns, w)))
  step-IsFirst s (duplicates h) l (f, g, (ns, w)) =
      (refl, refl, (ground arith, ground arith, (ns, ground arith)))
  step-IsFirst s (closes h) l (f, g, (ns, w)) = (
    ground (arith, granted_of-closed (owned_by h s.waits)),
    ground (arith, granted-closed (owned_by h s.waits)),
    (
      ground arith,
      ground arith,
      (if get_closing s h then ns else not_owned_by h ns, ground (arith, ap (not_owned_by h) w)),
    ),
  )
  step-IsFirst s (waits h) l (f, g, (ns, w)) =
      (refl, ground arith, (ground arith, ground arith, (ns, ground arith)))
  step-IsFirst s (registers h node) l (f, g, (ns, w)) =
      let added : EventWaitNode = record { id = node; owner = h; cookie = s.next_cookie } in
      (
        ground arith,
        ground arith,
        (
          ground arith,
          ground arith,
          (
            if get_closing s h then ns else ns ++ added ∷ [],
            ground (arith, ap (λ l. l ++ added ∷ []) w),
          ),
        ),
      )
  step-IsFirst s (unregisters h node) l (f, g, (ns, w)) = (
    refl,
    refl,
    (
      ground arith,
      ground arith,
      (
        if is_registered h node ns then unlink h node ns else ns,
        ground (arith, ap (is_registered h node) w, ap (unlink h node) w),
      ),
    ),
  )

  copies-cons :
      (x : Completion) (c : Call) (cs : List Call)
      → copies x (c ∷ []) ++ copies x cs ≡ copies x (c ∷ cs)
  copies-cons x sets cs = refl
  copies-cons x resets cs = refl
  copies-cons x (duplicates h) cs = refl
  copies-cons x (closes h) cs = refl
  copies-cons x (waits h) cs = refl
  copies-cons x (registers h node) cs = refl
  copies-cons x (unregisters h node) cs = refl

  -- Where a synchronization event is not set and a wait is the first that is registered, that wait
  -- hears of every SetEvent and nobody else of any, as long as it stays registered and its handle
  -- open: no other registered wait and no WaitForSingleObject is let through, whatever is called,
  -- and the event is never set.
  pub run-heard :
      (cs : List Call) (s : EventState)
      → AllLeave n cs
      → IsFirst n s
      → (heard s cs ≡ copies (complete false n) cs)
        × ((run s cs).0 ≡ sets_of cs)
        × IsFirst n (run s cs).1
  unfolding Once run
  run-heard [] s l h = (refl, refl, h)
  run-heard (c ∷ cs) s l h =
      let (a, b, k) = step-IsFirst s c l.0 h in
      let (d, e, m) = run-heard cs (step s c).1 l.1 k in
      (
        ap (λ l. l ++ heard (step s c).1 cs) a
            ∙ ap (λ l. copies (complete false n) (c ∷ []) ++ l) d
            ∙ copies-cons (complete false n) c cs,
        omega (arith, b, e, sets_of-cons c cs),
        m,
      )
