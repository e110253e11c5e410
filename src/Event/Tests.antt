-- ===== src/Event/Tests.antt =====
-- An event of Event.cpp with a few waits, and waits of Wait.cpp.
use syncme.Prelude.{ℕ, true, false, List, [], ◌∷◌, ◌≡◌, refl, arith, ◌⊎◌, ◌<◌, ◌≤◌, ◌↔◌}
use syncme.Event.{
  EventState, EventWaitNode, event, on_close_handle, set_event, wait_for_single_object,
  register_wait, unregister_wait, complete,
}
use syncme.Event.Tokens.{
  Call, sets, resets, duplicates, closes, waits, registers, unregisters, run-token,
}
use syncme.Event.Tokens
use syncme.Event.Starvation.{heard, copies, IsFirst, run-heard}
use syncme.Event.WaitContext.{wait_context, wait_result, Signal, any_failed, hears}
use syncme.Event.WaitContext
use syncme.Event.WaitContext.Result.{run-wait_all}

-- Two waits of the handles 0 and 1.
abbrev first : EventWaitNode
first = record { id = 7; owner = 0; cookie = 1 }

abbrev second : EventWaitNode
second = record { id = 8; owner = 1; cookie = 2 }

abbrev busy : EventState
busy = record {
  notification = false;
  signalled = false;
  waits = first ∷ second ∷ [];
  closing = [];
  next_handle = 2;
  next_cookie = 3;
}

abbrev manual : EventState
manual = record busy { notification = true }

abbrev script : List Call
script = registers 0 7 ∷ sets ∷ unregisters 0 7 ∷ sets ∷ waits 0 ∷ waits 0 ∷ closes 0 ∷ []

tokens-test : (Tokens.run (event false false) script).0 ≡ 2
unfolding Tokens.run register_wait event set_event unregister_wait wait_for_single_object
    on_close_handle
tokens-test = refl

run-token_example : (Tokens.run (event false true) script).0 ≤ 3
run-token_example = run-token true script

-- While the first wait stays, another one is registered and closed, and a thread waits.
abbrev meanwhile : List Call
meanwhile = sets ∷ registers 1 9 ∷ sets ∷ waits 0 ∷ unregisters 1 8 ∷ closes 1 ∷ resets ∷ sets ∷ []

run-heard_example :
    (heard busy meanwhile ≡ copies (complete false first) meanwhile)
    × ((Tokens.run busy meanwhile).0 ≡ 3)
    × IsFirst first (Tokens.run busy meanwhile).1
run-heard_example =
    run-heard first meanwhile busy (tt, (tt, (tt, (tt, (refl, ((λ e. cc), (tt, (tt, tt))))))))
      (refl, refl, (second ∷ [], refl))

abbrev signals : List Signal
signals = (1, false) ∷ (0, false) ∷ []

run-wait_all_example :
    ((WaitContext.run (wait_context true 2) signals).signalled ≡ true)
    ↔ (((i : ℕ) → i < 2 → hears signals i ≡ true) ⊎ (any_failed signals ≡ true))
run-wait_all_example = run-wait_all 2 signals (omega arith)
