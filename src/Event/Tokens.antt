-- ===== src/Event/Tokens.antt =====
-- The waits that a synchronization event of Event.cpp lets through, over runs of calls.
use syncme.Prelude.{
  ℕ, suc, ◌+◌, ◌≤◌, ◌≡◌, refl, Bool, true, false, List, [], ◌∷◌, arith, if◌then◌else◌, map,
}
use syncme.Event.{
  EventState, event, EventWaitNode, Completion, WaitResult, object, timeout, failed, complete,
  duplicate, on_close_handle, set_event, reset_event, wait_for_single_object, register_wait,
  unregister_wait, owned_by,
}

pub data Call : Type 0 where
  sets resets : Call
  duplicates closes waits : ℕ → Call
  registers unregisters : ℕ → ℕ → Call

-- A wait that ends well: WaitForSingleObject returns OBJECT_0, or Complete is called with false.
abbrev pub granted : List Completion → ℕ
granted [] = 0
granted (c ∷ cs) = (if c.failed then 0 else 1) + granted cs

abbrev pub released : WaitResult → ℕ
released (object n) = 1
released timeout = 0
released failed = 0

unfoldable pub step : EventState → Call → ℕ × EventState
step s sets = let (o, s') = set_event s in (granted o.completions, s')
step s resets = (0, reset_event s)
step s (duplicates h) = (0, (duplicate s h).1)
step s (closes h) = let (o, s') = on_close_handle s h in (granted o.completions, s')
step s (waits h) = let (r, s') = wait_for_single_object s h in (released r, s')
step s (registers h node) = let (o, s') = register_wait s h node in (granted o.completions, s')
step s (unregisters h node) = (0, (unregister_wait s h node).1)

-- The waits that a run lets through.
unfoldable pub run : EventState → List Call → ℕ × EventState
unfolding step
run s [] = (0, s)
run s (c ∷ cs) = let (n, s') = step s c in let (m, s'') = run s' cs in (n + m, s'')

abbrev pub sets_of : List Call → ℕ
sets_of [] = 0
sets_of (sets ∷ cs) = suc (sets_of cs)
sets_of (resets ∷ cs) = sets_of cs
sets_of (duplicates h ∷ cs) = sets_of cs
sets_of (closes h ∷ cs) = sets_of cs
sets_of (waits h ∷ cs) = sets_of cs
sets_of (registers h node ∷ cs) = sets_of cs
sets_of (unregisters h node ∷ cs) = sets_of cs

abbrev pub token : EventState → ℕ
token s = if s.signalled then 1 else 0

pub granted-closed : (ns : List EventWaitNode) → granted (map (complete true) ns) ≡ 0
granted-closed [] = refl
granted-closed (n ∷ ns) = omega (arith, granted-closed ns)

set_event-token :
    (s : EventState) (ns : List EventWaitNode)
    → s.waits ≡ ns
    → s.notification ≡ false
    → let (o, s') = set_event s in
      (s'.notification ≡ false) × (granted o.completions + token s' ≤ 1)
unfolding set_event
set_event-token s [] e h = ground arith
set_event-token s (n ∷ ns) e h = ground arith

-- A call spends the signal at most once.
step-token :
    (s : EventState) (c : Call)
    → s.notification ≡ false
    → let (n, s') = step s c in
      (s'.notification ≡ false) × (n + token s' ≤ sets_of (c ∷ []) + token s)
unfolding step reset_event duplicate on_close_handle wait_for_single_object register_wait
    unregister_wait
step-token s sets h = ground (arith, set_event-token s s.waits refl h)
step-token s resets h = ground arith
step-token s (duplicates handle) h = ground arith
step-token s (closes handle) h = ground (arith, granted-closed (owned_by handle s.waits))
step-token s (waits handle) h = ground arith
step-token s (registers handle node) h = ground arith
step-token s (unregisters handle node) h = ground arith

pub sets_of-cons : (c : Call) (cs : List Call) → sets_of (c ∷ cs) ≡ sets_of (c ∷ []) + sets_of cs
sets_of-cons sets cs = omega arith
sets_of-cons resets cs = omega arith
sets_of-cons (duplicates h) cs = omega arith
sets_of-cons (closes h) cs = omega arith
sets_of-cons (waits h) cs = omega arith
sets_of-cons (registers h node) cs = omega arith
sets_of-cons (unregisters h node) cs = omega arith

run-notification :
    (s : EventState) (cs : List Call)
    → s.notification ≡ false
    → let (n, s') = run s cs in n + token s' ≤ sets_of cs + token s
unfolding run
run-notification s [] h = omega arith
run-notification s (c ∷ cs) h =
    let now = step-token s c h in
    omega (arith, now.1, run-notification (step s c).1 cs now.0, sets_of-cons c cs)

-- However the handles of a synchronization event are waited on, registered, duplicated and closed,
-- in whatever order: the waits that it lets through are no more than the calls of SetEvent and the
-- signal that it was made with.
pub run-token :
    (signalled : Bool) (cs : List Call)
    → (run (event false signalled) cs).0 ≤ sets_of cs + (if signalled then 1 else 0)
unfolding event
run-token signalled cs = omega (arith, run-notification (event false signalled) cs refl)
