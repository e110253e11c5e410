-- ===== src/ThreadPool/Tests.antt =====
-- Two threads that submit to a pool of Pool.cpp with one worker.
use syncme.ThreadPool.ThreadList.{find_signalled, closing, update, wait}
use syncme.ThreadPool.ThreadList.Update.{Updated, update-Updated}
use syncme.ThreadPool.Worker.{
  Worker, worker, start, on_invoke, callback_done, notified, invoke, next, here, starts, calls,
  finishes, notifies, invokes, Steps,
}
use syncme.ThreadPool.Worker.Once.{IsRun, Steps-IsRun}
use syncme.ThreadPool.Submit.{Shared, Round, hand_off, run_internal, returned}
use syncme.ThreadPool.Submit.Claim.{
  IsLawful, IsLawfulRound, Ends, hand_off-IsLawful, run_internal-Ends, run_internal-returns,
}
use syncme.Prelude.{
  ◌==◌, inl, ℕ, Bool, false, none, true, some, List, [], ◌∷◌, ◌≡◌, ◌≤◌, refl, arith, length,
}
use syncme.ThreadPool.{pool, locked_stop_expired}
use syncme.ThreadPool.Capacity.{
  Section, reserves, creates, frees, releases_spent, world, run, run-max_threads,
}

-- The second thread finds no slot between the first one's reservation and its release.
abbrev script : List Section
script =
    reserves
    ∷ reserves
    ∷ creates 5
    ∷ creates 6
    ∷ frees 5
    ∷ releases_spent
    ∷ reserves
    ∷ creates 7
    ∷ []

workers-test : (run (world 1) script).pool.all ≡ 5 ∷ []
unfolding run
workers-test = refl

sweep-test :
    (locked_stop_expired
      (λ w. true)
      (some 2)
      (record (pool 4) { all = 1 ∷ 2 ∷ 3 ∷ []; unused = 3 ∷ 2 ∷ [] })).all
    ≡ 1 ∷ 2 ∷ []
unfolding locked_stop_expired
sweep-test = refl

run-max_threads_example :
    let p = (run (world 1) script).pool in (length p.all ≤ 1) × (p.creating_workers ≤ 1)
run-max_threads_example = run-max_threads 1 script (omega arith)

abbrev same : Shared → Shared
same s = s

-- Worker 7 is done with its task and takes the next one.
abbrev hands_over : Round
hands_over = record {
  before_pop = λ s. (hand_off 7 s.tasks s).1;
  before_wait = same;
  before_reserve = same;
  before_dequeue = same;
  before_start = same;
  before_drop = same;
  before_release = same;
  sweep = false;
  expired = λ w. false;
  new_worker = 8;
  starts = true;
  invokes = true;
}

same-IsLawful : (t : ℕ) → IsLawful t same
same-IsLawful t = record { queued = λ s q. inl q; handed = λ s h. h; taken = λ s k. k }

hands_over-IsLawfulRound : (t : ℕ) → IsLawfulRound t hands_over
hands_over-IsLawfulRound t = record {
  before_pop = hand_off-IsLawful t 7;
  before_wait = same-IsLawful t;
  before_reserve = same-IsLawful t;
  before_dequeue = same-IsLawful t;
  before_start = same-IsLawful t;
  before_drop = same-IsLawful t;
  before_release = same-IsLawful t;
}

abbrev full : Shared
full = record {
  pool = record (pool 1) { all = 7 ∷ [] };
  tasks = [];
  worker_of = λ t. none;
  invoked = [];
}

run_internal-test : (run_internal false true (hands_over ∷ []) 5 full).0 ≡ returned false
unfolding run_internal hand_off
run_internal-test = refl

run_internal-Ends_example : Ends 5 (run_internal false true (hands_over ∷ []) 5 full)
run_internal-Ends_example =
    run_internal-Ends false true (hands_over ∷ []) 5 full (hands_over-IsLawfulRound 5, tt) refl refl

run_internal-returns_example :
    (b : Bool) × ((run_internal false true (hands_over ∷ []) 5 full).0 ≡ returned b)
run_internal-returns_example = run_internal-returns true hands_over [] 5 full

-- A worker that has run the callback 5 is invoked with 6.
abbrev invoked_again : Worker
invoked_again = invoke 6 (notified none (callback_done true (on_invoke (start true 5 worker).1)))

invoked_again-Steps : Steps worker invoked_again
unfolding start on_invoke callback_done notified
invoked_again-Steps =
    next
      (next (next (next (next here (starts true 5 refl)) (calls refl)) (finishes true refl))
        (notifies none refl))
      (invokes 6 refl refl refl)

invoked_again-test : (invoked_again.given ≡ 5 ∷ 6 ∷ []) × (invoked_again.called ≡ 5 ∷ [])
unfolding start on_invoke callback_done notified invoke
invoked_again-test = (refl, refl)

Steps-IsRun_example : IsRun invoked_again
Steps-IsRun_example = Steps-IsRun invoked_again-Steps

-- The thread 8 ends after the first pass.
abbrev passes : List (ℕ → Bool)
passes = (λ h. h == 7) ∷ (λ h. h == 8) ∷ (λ h. false) ∷ (λ h. false) ∷ []

abbrev threads : List ℕ
threads = 8 ∷ 9 ∷ 7 ∷ []

update-test : update passes threads ≡ some (7 ∷ 8 ∷ [], 9 ∷ [])
unfolding update find_signalled closing
update-test = refl

wait-test : wait (true ∷ false ∷ true ∷ true ∷ []) threads ≡ (threads, [])
unfolding wait
wait-test = refl

update-Updated_example : Updated passes threads (update passes threads)
update-Updated_example = update-Updated passes threads (omega arith)
