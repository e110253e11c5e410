-- ===== src/ThreadPool/Capacity.antt =====
-- The pool of Pool.cpp under any interleaving of its sections.
use syncme.Prelude.{
  ℕ, zero, suc, ◌+◌, ◌-◌, ◌^◌, ◌≤◌, ◌<◌, ◌≡◌, refl, ◌∙◌, Bool, true, false, ◌||◌, Option, none,
  some, List, [], ◌∷◌, length, length-append, arith, if◌then◌else◌, Bool-cases, inl, inr, ltb, leb,
  add_word,
}
use syncme.ThreadPool.{
  Pool, pool, set_stopping, erase_worker, find_expired, sweep_loop, locked_stop_expired, pop_front,
  pop_unused, reserve_worker_slot, release_worker_slot, push_all, push_unused, drop_failed, on_free,
}

-- The pool, with the slots that threads hold: those reserved for a worker that is not yet in All,
-- and those whose worker was pushed there.
pub record World : Type 0 where
  pub pool : Pool
  pub reserved : ℕ
  pub spent : ℕ

-- The sections that a thread goes through. Run2 reserves, creates and releases the slot, or releases
-- it unspent when the task is gone; CreateWorker drops the worker if it does not start.
pub data Section : Type 0 where
  reserves releases_reserved releases_spent stops : Section
  creates fails frees returns : ℕ → Section
  takes : Bool → (ℕ → Bool) → Section
  sweeps : (ℕ → Bool) → Option ℕ → Section

reserving : World → Bool × Pool → World
reserving v (false, p) = record v { pool = p }
reserving v (true, p) = record v { pool = p; reserved = v.reserved + 1 }

-- A thread creates a worker, or releases a slot, only if it holds one.
unfoldable pub step : World → Section → World
unfolding reserving set_stopping push_all drop_failed on_free push_unused pop_unused
    locked_stop_expired reserve_worker_slot release_worker_slot
step v reserves = reserving v (reserve_worker_slot v.pool)
step v (creates w) =
    if ltb 0 v.reserved
    then record v { pool = push_all v.pool w; reserved = v.reserved - 1; spent = v.spent + 1 }
    else v
step v (fails w) = record v { pool = drop_failed v.pool w }
step v releases_reserved =
    if ltb 0 v.reserved
    then record v { pool = release_worker_slot v.pool; reserved = v.reserved - 1 }
    else v
step v releases_spent =
    if ltb 0 v.spent then record v { pool = release_worker_slot v.pool; spent = v.spent - 1 } else v
step v stops = record v { pool = set_stopping v.pool }
step v (frees w) = record v { pool = on_free v.pool w }
step v (returns w) = record v { pool = push_unused v.pool w }
step v (takes sweep expired) = record v { pool = (pop_unused sweep expired v.pool).2 }
step v (sweeps expired caller) = record v { pool = locked_stop_expired expired caller v.pool }

unfoldable pub run : World → List Section → World
unfolding step
run v [] = v
run v (s ∷ ss) = run (step v s) ss

abbrev pub world : ℕ → World
world max_threads = record { pool = pool max_threads; reserved = 0; spent = 0 }

record IsBounded (max_threads : ℕ) (v : World) : Type 0 where
  limit : v.pool.max_threads ≡ max_threads
  slots : v.pool.creating_workers ≡ v.reserved + v.spent
  few_slots : v.pool.creating_workers ≤ max_threads
  room : length v.pool.all + v.reserved ≤ max_threads

length-erase_worker : (w : ℕ) (ws : List ℕ) → length (erase_worker w ws) ≤ length ws
unfolding erase_worker
length-erase_worker w [] = omega arith
length-erase_worker w (x ∷ xs) = ground (arith, length-erase_worker w xs)

-- What a sweep leaves alone, and that it adds no worker.
record Shrinks (p p' : Pool) : Type 0 where
  limit : p'.max_threads ≡ p.max_threads
  slots : p'.creating_workers ≡ p.creating_workers
  fewer : length p'.all ≤ length p.all

sweep_loop-Shrinks :
    (fuel : ℕ) (expired : ℕ → Bool) (caller : Option ℕ) (p : Pool)
    → Shrinks p (sweep_loop fuel expired caller p)
unfolding sweep_loop
sweep_loop-Shrinks zero expired caller p = record {
  limit = refl;
  slots = refl;
  fewer = omega arith;
}
sweep_loop-Shrinks (suc fuel) expired caller p = swept (find_expired expired caller p.unused) (λ w.
    sweep_loop-Shrinks fuel expired caller
      (record p { unused = erase_worker w p.unused; all = erase_worker w p.all }))
  where
    swept :
        (o : Option ℕ)
        → ((w : ℕ)
            → Shrinks
                (record p { unused = erase_worker w p.unused; all = erase_worker w p.all })
                (sweep_loop fuel expired caller
                  (record p { unused = erase_worker w p.unused; all = erase_worker w p.all })))
        → Shrinks p (elim o [
          | none ↦ p
          | some w ↦
              sweep_loop fuel expired caller
                (record p { unused = erase_worker w p.unused; all = erase_worker w p.all })
        ])
    swept none k = record { limit = refl; slots = refl; fewer = omega arith }
    swept (some w) k =
        let s = k w in
        let e = length-erase_worker w p.all in
        record { limit = s.limit; slots = s.slots; fewer = omega (arith, s.fewer, e) }

locked_stop_expired-Shrinks :
    (expired : ℕ → Bool) (caller : Option ℕ) (p : Pool)
    → Shrinks p (locked_stop_expired expired caller p)
unfolding locked_stop_expired
locked_stop_expired-Shrinks expired caller p = stopped p.stopping
  where
    stopped :
        (b : Bool) → Shrinks p (if b then p else sweep_loop (length p.unused) expired caller p)
    stopped true = record { limit = refl; slots = refl; fewer = omega arith }
    stopped false = sweep_loop-Shrinks (length p.unused) expired caller p

pop_front-Shrinks :
    (sweep : Bool) (expired : ℕ → Bool) (p : Pool) (ws : List ℕ)
    → Shrinks p (pop_front sweep expired p ws).1
unfolding pop_front
pop_front-Shrinks sweep expired p [] = record { limit = refl; slots = refl; fewer = omega arith }
pop_front-Shrinks true expired p (w ∷ ws) =
    let s = locked_stop_expired-Shrinks expired none (record p { unused = ws }) in
    record { limit = s.limit; slots = s.slots; fewer = s.fewer }
pop_front-Shrinks false expired p (w ∷ ws) = record {
  limit = refl;
  slots = refl;
  fewer = omega arith;
}

Shrinks-IsBounded :
    (n : ℕ) (v : World) (p : Pool)
    → Shrinks v.pool p
    → IsBounded n v
    → IsBounded n (record v { pool = p })
Shrinks-IsBounded n v p s b = record {
  limit = s.limit ∙ b.limit;
  slots = s.slots ∙ b.slots;
  few_slots = omega (arith, s.slots, b.few_slots);
  room = omega (arith, s.fewer, b.room);
}

reserve-IsBounded :
    (n : ℕ) (v : World)
    → n < 2 ^ 63
    → IsBounded n v
    → IsBounded n (reserving v (reserve_worker_slot v.pool))
unfolding reserving reserve_worker_slot
reserve-IsBounded n v small b =
    elim (Bool-cases (
      v.pool.stopping
      || leb v.pool.max_threads (add_word (length v.pool.all) v.pool.creating_workers))) [
        | inl e ↦ simp e b
        | inr e ↦
            let free : length v.pool.all + v.pool.creating_workers < n =
              ground (arith, e, b.limit, b.slots, b.few_slots, b.room) in
            simp e record {
              limit = b.limit;
              slots = omega (arith, b.slots, b.few_slots);
              few_slots = omega (arith, free);
              room = omega (arith, free, b.slots);
            }
      ]

step-IsBounded :
    (n : ℕ) (v : World) (s : Section) → n < 2 ^ 63 → IsBounded n v → IsBounded n (step v s)
unfolding step set_stopping push_all drop_failed on_free push_unused pop_unused release_worker_slot
step-IsBounded n v reserves small b = reserve-IsBounded n v small b
step-IsBounded n v (creates w) small b = elim (Bool-cases (ltb 0 v.reserved)) [
  | inr e ↦ simp e b
  | inl e ↦
      let some_slot : 0 < v.reserved = ground arith in
      simp e record {
        limit = b.limit;
        slots = omega (arith, b.slots, some_slot);
        few_slots = b.few_slots;
        room = omega (arith, b.room, some_slot, length-append v.pool.all (w ∷ []));
      }
]
step-IsBounded n v (fails w) small b =
    Shrinks-IsBounded n v (drop_failed v.pool w)
      (record { limit = refl; slots = refl; fewer = length-erase_worker w v.pool.all }) b
step-IsBounded n v releases_reserved small b = elim (Bool-cases (ltb 0 v.reserved)) [
  | inr e ↦ simp e b
  | inl e ↦
      let some_slot : 0 < v.reserved = ground arith in
      simp e record {
        limit = b.limit;
        slots = omega (arith, b.slots, b.few_slots, some_slot);
        few_slots = omega (arith, b.slots, b.few_slots, some_slot);
        room = omega (arith, b.room);
      }
]
step-IsBounded n v releases_spent small b = elim (Bool-cases (ltb 0 v.spent)) [
  | inr e ↦ simp e b
  | inl e ↦
      let some_slot : 0 < v.spent = ground arith in
      simp e record {
        limit = b.limit;
        slots = omega (arith, b.slots, b.few_slots, some_slot);
        few_slots = omega (arith, b.slots, b.few_slots, some_slot);
        room = b.room;
      }
]
step-IsBounded n v stops small b = record {
  limit = b.limit;
  slots = b.slots;
  few_slots = b.few_slots;
  room = b.room;
}
step-IsBounded n v (frees w) small b = record {
  limit = b.limit;
  slots = b.slots;
  few_slots = b.few_slots;
  room = b.room;
}
step-IsBounded n v (returns w) small b = record {
  limit = b.limit;
  slots = b.slots;
  few_slots = b.few_slots;
  room = b.room;
}
step-IsBounded n v (takes sweep expired) small b =
    Shrinks-IsBounded n v _ (pop_front-Shrinks sweep expired v.pool v.pool.unused) b
step-IsBounded n v (sweeps expired caller) small b =
    Shrinks-IsBounded n v _ (locked_stop_expired-Shrinks expired caller v.pool) b

run-IsBounded :
    (n : ℕ) (v : World) (ss : List Section) → n < 2 ^ 63 → IsBounded n v → IsBounded n (run v ss)
unfolding run
run-IsBounded n v [] small b = b
run-IsBounded n v (s ∷ ss) small b =
    run-IsBounded n (step v s) ss small (step-IsBounded n v s small b)

-- However the threads that submit, finish and sweep interleave, in a pool that starts empty with a
-- limit below 2 ^ 63 that nobody changes: there are never more workers than MaxThreads, and never
-- more slots in use than that.
pub run-max_threads :
    (max_threads : ℕ) (ss : List Section)
    → max_threads < 2 ^ 63
    → let p = (run (world max_threads) ss).pool in
      (length p.all ≤ max_threads) × (p.creating_workers ≤ max_threads)
run-max_threads max_threads ss small =
    let b =
      run-IsBounded max_threads (world max_threads) ss small
        record { limit = refl; slots = omega arith; few_slots = omega arith; room = omega arith } in
    (omega (arith, b.room), b.few_slots)
