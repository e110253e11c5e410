-- ===== src/IoQueue/Tests.antt =====
-- The queue of Queue.cpp on a few packets.
use syncme.Prelude.{ℕ, true, none, some, List, [], ◌∷◌, ◌≡◌, refl, arith}
use syncme.IoQueue.{Queue, append}
use syncme.IoQueue.Stream.{Returns}
use syncme.IoQueue.Trace.{
  Call, appends, appends_buffer, pops, joins, run, Keeps, run-Keeps, offered,
}

-- Two packets under a limit of 6 bytes, and what freshly grown memory holds.
abbrev two : Queue
two = record {
  limit = 6;
  signal = true;
  signalled = 0;
  packets = (1 ∷ 2 ∷ []) ∷ (3 ∷ []) ∷ [];
  free = [];
  total = 3;
  auto_join = true;
}

abbrev junk : ℕ → ℕ
junk i = 170

append-test :
    append junk two (4 ∷ []) none
    ≡ some (record {
      accepted = true;
      queue = record two { packets = (1 ∷ 2 ∷ []) ∷ (3 ∷ 4 ∷ []) ∷ []; total = 4; signalled = 1 };
      lender = none;
      qsize = 4;
    })
unfolding append
append-test = refl

abbrev script : List Call
script = appends (4 ∷ 5 ∷ []) none ∷ joins 4 ∷ appends_buffer (6 ∷ 7 ∷ []) ∷ pops ∷ []

run-Keeps_example : Returns (run junk two script) (Keeps two (offered script))
run-Keeps_example = run-Keeps junk two script refl (omega arith)
