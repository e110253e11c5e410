-- ===== src/ThreadPool/Submit/Claim.antt =====
-- Run2 of lib/source/ThreadPool/Pool.cpp: who runs a task.
use syncme.Prelude.{
  length, append-nil, ℕ, ◌+◌, ◌-◌, ◌≡◌, ◌≤◌, refl, ap, ◌∙◌, arith, Bool, true, false, not, ◌&&◌,
  ◌||◌, Option, none, some, List, [], ◌∷◌, ◌++◌, leb, ◌==◌, if◌then◌else◌, ◌⊎◌, inl, inr,
  ℕ_discrete,
}
use syncme.ThreadPool.{
  Pool, pop_unused, reserve_worker_slot, release_worker_slot, push_all, push_unused, drop_failed,
}
use syncme.ThreadPool.Submit.{
  Shared, is_queued, erase_task, dequeue_task, Round, hand_off, queue_task, run_internal,
  create_worker, create_round, invoke_round, Ran, returned, running, returns, popped, run2, count,
  workers_of, IsQueued, IsHandedOff, IsTaken,
}

-- Other threads take the task at most off the queue for a worker, as CB_OnFree does.
pub record IsLawful (t : ℕ) (others : Shared → Shared) : Type 0 where
  pub queued : (s : Shared) → IsQueued t s → IsQueued t (others s) ⊎ IsHandedOff t (others s)
  pub handed : (s : Shared) → IsHandedOff t s → IsHandedOff t (others s)
  pub taken : (s : Shared) → IsTaken t s → IsTaken t (others s)

pub record IsLawfulRound (t : ℕ) (r : Round) : Type 0 where
  pub before_pop : IsLawful t r.before_pop
  pub before_wait : IsLawful t r.before_wait
  pub before_reserve : IsLawful t r.before_reserve
  pub before_dequeue : IsLawful t r.before_dequeue
  pub before_start : IsLawful t r.before_start
  pub before_drop : IsLawful t r.before_drop
  pub before_release : IsLawful t r.before_release

abbrev pub AreLawful : ℕ → List Round → Type 0
AreLawful t [] = Unit {0}
AreLawful t (r ∷ rs) = IsLawfulRound t r × AreLawful t rs

-- Before the submitter has looked for the task.
abbrev pub IsOffered : ℕ → Shared → Type 0
IsOffered t s = IsQueued t s ⊎ IsHandedOff t s

-- What Run2 has done when it returns: with false, one worker was given the task, once, and it
-- is task->Worker. With true, the task is off the queue and was given to at most one worker, or the
-- pool is told to stop and the task waits.
abbrev pub Ends : ℕ → Ran × Shared → Type 0
Ends t (running, s) = IsOffered t s
Ends t (returned false, s) = IsHandedOff t s
Ends t (returned true, s) =
    ((count t s.tasks ≡ 0) × (length (workers_of t s.invoked) ≤ 1))
    ⊎ (IsQueued t s × (s.pool.stop_event ≡ true))

count-append : (t : ℕ) (xs ys : List ℕ) → count t (xs ++ ys) ≡ count t xs + count t ys
count-append t [] ys = omega arith
count-append t (x ∷ xs) ys = ground (arith, count-append t xs ys)

count_self : (t : ℕ) → count t (t ∷ []) ≡ 1
count_self t = ground arith

workers_of-append :
    (t : ℕ) (xs ys : List (ℕ × ℕ)) → workers_of t (xs ++ ys) ≡ workers_of t xs ++ workers_of t ys
workers_of-append t [] ys = refl
workers_of-append t (x ∷ xs) ys = ground (arith, workers_of-append t xs ys)

-- A task that no worker has is given to one.
workers_of_one :
    (t w : ℕ) (xs : List (ℕ × ℕ)) → workers_of t xs ≡ [] → workers_of t (xs ++ (t, w) ∷ []) ≡ w ∷ []
workers_of_one t w xs e = workers_of-append t xs ((t, w) ∷ []) ∙ ground (arith, e)

length_none : (ws : List ℕ) → ws ≡ [] → length ws ≤ 1
length_none ws e = rw e (omega arith)

length_one : (ws : List ℕ) (w : ℕ) → ws ≡ w ∷ [] → length ws ≤ 1
length_one ws w e = rw e (omega arith)

is_queued-count : (t : ℕ) (xs : List ℕ) → count t xs ≡ 1 → is_queued t xs ≡ true
unfolding is_queued
is_queued-count t [] h = absurd (omega arith)
is_queued-count t (x ∷ xs) h = ground (arith, is_queued-count t xs)

not-is_queued : (t : ℕ) (xs : List ℕ) → count t xs ≡ 0 → is_queued t xs ≡ false
unfolding is_queued
not-is_queued t [] h = refl
not-is_queued t (x ∷ xs) h = ground (arith, not-is_queued t xs)

count-erase_task : (t : ℕ) (xs : List ℕ) → count t (erase_task t xs) ≡ count t xs - 1
unfolding erase_task
count-erase_task t [] = omega arith
count-erase_task t (x ∷ xs) = ground (arith, count-erase_task t xs)

IsOffered-others :
    (t : ℕ) (others : Shared → Shared) (s : Shared)
    → IsLawful t others
    → IsOffered t s
    → IsOffered t (others s)
IsOffered-others t others s law (inl q) = law.queued s q
IsOffered-others t others s law (inr h) = inr (law.handed s h)

-- The submitter takes the task, or finds that a worker has it.
dequeue_task-claims :
    (t : ℕ) (s : Shared)
    → IsOffered t s
    → let (b, s') = dequeue_task t s in
      ((b ≡ true) × IsTaken t s') ⊎ ((b ≡ false) × IsHandedOff t s')
unfolding dequeue_task
dequeue_task-claims t s (inl q) =
    inl (is_queued-count t s.tasks q.0, (omega (arith, q.0, count-erase_task t s.tasks), q.1))
dequeue_task-claims t s (inr h) =
    inr (not-is_queued t s.tasks h.0, (omega (arith, h.0, count-erase_task t s.tasks), h.1))

refused-Ends : (t : ℕ) (s : Shared) → IsOffered t s → Ends t (returns (dequeue_task t s))
refused-Ends t s o = by (dequeue_task t s).0 _ (dequeue_task-claims t s o)
  where
    by :
        (b : Bool) (s' : Shared)
        → ((b ≡ true) × IsTaken t s') ⊎ ((b ≡ false) × IsHandedOff t s')
        → Ends t (returned b, s')
    by true s' (inl c) = inl (c.1.0, length_none _ c.1.1)
    by true s' (inr c) = cc
    by false s' (inl c) = cc
    by false s' (inr c) = c.1

invoke_round-Ends :
    (t w : ℕ) (r : Round) (s : Shared)
    → IsLawfulRound t r
    → IsOffered t s
    → Ends t (returns (invoke_round r t w s))
unfolding invoke_round push_unused
invoke_round-Ends t w r s law o =
    by (dequeue_task t (r.before_dequeue s)).0 r.invokes (dequeue_task t (r.before_dequeue s)).1 (
      dequeue_task-claims t (r.before_dequeue s)
        (IsOffered-others t r.before_dequeue s law.before_dequeue o))
  where
    by :
        (b c : Bool) (s' : Shared)
        → ((b ≡ true) × IsTaken t s') ⊎ ((b ≡ false) × IsHandedOff t s')
        → let back : Shared = record s' { pool = push_unused s'.pool w } in
          Ends t (
            returns (
              if not b
              then (false, back)
              else if c
              then (true, record s' { invoked = s'.invoked ++ (t, w) ∷ [] })
              else (true, back)))
    by true true s' (inl k) = inl (k.1.0, length_one _ w (workers_of_one t w s'.invoked k.1.1))
    by true false s' (inl k) = inl (k.1.0, length_none _ k.1.1)
    by true c s' (inr k) = cc
    by false c s' (inl k) = cc
    by false c s' (inr k) = k.1

-- A worker that was started has the task; after a failed start no worker has it.
create_worker-claims :
    (r : Round) (t : ℕ) (s : Shared)
    → IsLawfulRound t r
    → IsTaken t s
    → IsHandedOff t (create_worker r t s) ⊎ IsTaken t (create_worker r t s)
unfolding create_worker push_all drop_failed
create_worker-claims r t s law k =
    by r.starts pushed dropped taken (law.before_drop.taken pushed taken)
  where
    pushed : Shared
    pushed =
        let s' : Shared = r.before_start s in record s' { pool = push_all s'.pool r.new_worker }

    dropped : Shared
    dropped =
        let s' : Shared = r.before_drop pushed in
        record s' { pool = drop_failed s'.pool r.new_worker }

    taken : IsTaken t pushed
    taken = law.before_start.taken s k

    by :
        (b : Bool) (u v : Shared)
        → IsTaken t u
        → IsTaken t v
        → let s' : Shared = if b then u else v in
          let made : Shared = record s' {
            worker_of =
                λ n. if n == t then (if b then some r.new_worker else none) else s'.worker_of n;
            invoked = if b then s'.invoked ++ (t, r.new_worker) ∷ [] else s'.invoked;
          } in
          IsHandedOff t made ⊎ IsTaken t made
    by true u v h k =
        inl (h.0, (r.new_worker, workers_of_one t r.new_worker u.invoked h.1, ground arith))
    by false u v h k = inr (k.0, k.1)

released :
    (t : ℕ) (others : Shared → Shared) (s : Shared)
    → IsLawful t others
    → IsHandedOff t s ⊎ IsTaken t s
    → let s' : Shared = others s in
      Ends t (returned true, record s' { pool = release_worker_slot s'.pool })
released t others s law (inl h) = let (a, (w, b, c)) = law.handed s h in inl (a, length_one _ w b)
released t others s law (inr k) = let (a, b) = law.taken s k in inl (a, length_none _ b)

create_round-Ends :
    (t : ℕ) (r : Round) (s : Shared)
    → IsLawfulRound t r
    → IsOffered t s
    → Ends t (returns (create_round r t s))
unfolding create_round
create_round-Ends t r s law o =
    by (dequeue_task t (r.before_dequeue s)).0 (dequeue_task t (r.before_dequeue s)).1 (
      dequeue_task-claims t (r.before_dequeue s)
        (IsOffered-others t r.before_dequeue s law.before_dequeue o))
  where
    by :
        (b : Bool) (s' : Shared)
        → ((b ≡ true) × IsTaken t s') ⊎ ((b ≡ false) × IsHandedOff t s')
        → let made : Shared = create_worker r t s' in
          let s'' : Shared = r.before_release (if b then made else s') in
          Ends t (returned b, record s'' { pool = release_worker_slot s''.pool })
    by true s' (inl k) =
        released t r.before_release (create_worker r t s') law.before_release
          (create_worker-claims r t s' law k.1)
    by true s' (inr k) = cc
    by false s' (inl k) = cc
    by false s' (inr k) = law.before_release.handed s' k.1

if-Ends :
    (t : ℕ) (b : Bool) (x y : Ran × Shared)
    → (b ≡ true → Ends t x)
    → (b ≡ false → Ends t y)
    → Ends t (if b then x else y)
if-Ends t true x y h k = h refl
if-Ends t false x y h k = k refl

module _ (wait fail : Bool) (r : Round) (t : ℕ) (next : Shared → Ran × Shared)
    (law : IsLawfulRound t r) (rest : (s : Shared) → IsOffered t s → Ends t (next s)) where
  woken-Ends :
      (s : Shared)
      → IsOffered t s
      → Ends t (
          if s.pool.stop_event
          then (returned true, s)
          else next (record s { pool = record s.pool { free_event = false } }))
  woken-Ends s (inl q) = if-Ends t s.pool.stop_event _ _ (λ e. inr (q, e)) (λ e. rest _ (inl q))
  woken-Ends s (inr h) =
      if-Ends t s.pool.stop_event _ _ (λ e. inl (h.0, length_one _ h.1.0 h.1.1))
        (λ e. rest _ (inr h))

  popped-Ends :
      (p : ℕ × Option ℕ × Pool) (s : Shared)
      → IsOffered t s
      → Ends t (popped wait fail r t next p s)
  unfolding popped
  popped-Ends (all, some w, p) s o = invoke_round-Ends t w r (record s { pool = p }) law o
  popped-Ends (all, none, p) s o =
      let s1 : Shared = record s { pool = p } in
      let s2 : Shared = r.before_reserve s1 in
      let o2 : IsOffered t s2 = IsOffered-others t r.before_reserve s1 law.before_reserve o in
      let (reserved, p') = reserve_worker_slot s2.pool in
      let s3 : Shared = record s2 { pool = p' } in
      if-Ends t (leb s.pool.max_threads all) _ _
        (λ e.
          if-Ends t (fail || not wait) _ _
            (λ e.
              refused-Ends t (r.before_dequeue s1)
                (IsOffered-others t r.before_dequeue s1 law.before_dequeue o))
            (λ e.
              woken-Ends (r.before_wait s1)
                (IsOffered-others t r.before_wait s1 law.before_wait o)))
        (λ e.
          if-Ends t reserved _ _ (λ e. create_round-Ends t r s3 law o2)
            (λ e.
              if-Ends t (not wait || fail) _ _
                (λ e.
                  refused-Ends t (r.before_dequeue s3)
                    (IsOffered-others t r.before_dequeue s3 law.before_dequeue o2))
                (λ e. rest s3 o2)))

rounds-Ends :
    (wait fail : Bool) (rs : List Round) (t : ℕ) (s : Shared)
    → AreLawful t rs
    → IsOffered t s
    → Ends t (run2 wait fail rs t s)
unfolding run2
rounds-Ends wait fail [] t s law o = o
rounds-Ends wait fail (r ∷ rs) t s law o =
    let s' : Shared = r.before_pop s in
    let o' : IsOffered t s' = IsOffered-others t r.before_pop s law.0.before_pop o in
    if-Ends t s'.pool.stopping _ _
      (λ e.
        refused-Ends t (r.before_dequeue s')
          (IsOffered-others t r.before_dequeue s' law.0.before_dequeue o'))
      (λ e.
        popped-Ends wait fail r t (run2 wait fail rs t) law.0
          (λ s o. rounds-Ends wait fail rs t s law.1 o)
          (pop_unused (wait && r.sweep) r.expired s'.pool) s' o')

-- The direct handoff of CB_OnFree is lawful.
module _ (t w : ℕ) where
  hand_off-queued :
      (us : List ℕ) (s : Shared) → s.tasks ≡ us → IsQueued t s → IsOffered t (hand_off w us s).1
  unfolding hand_off
  hand_off-queued [] s e q = inl q
  hand_off-queued (u ∷ us) s e q = elim (ℕ_discrete u t) [
    | yes d ↦ inr (
      ground (arith, ap (count t) e, q.0),
      (
        w,
        ap (λ v. workers_of t (s.invoked ++ (v, w) ∷ [])) d ∙ workers_of_one t w s.invoked q.1,
        ground arith,
      ),
    )
    | no d ↦ inl (
      ground (arith, ap (count t) e, q.0),
      workers_of-append t s.invoked ((u, w) ∷ []) ∙ ground (arith, q.1),
    )
  ]

  hand_off-others :
      (us : List ℕ) (s : Shared)
      → s.tasks ≡ us
      → count t s.tasks ≡ 0
      → let s' : Shared = (hand_off w us s).1 in
        (count t s'.tasks ≡ 0)
        × (workers_of t s'.invoked ≡ workers_of t s.invoked)
        × (s'.worker_of t ≡ s.worker_of t)
  unfolding hand_off
  hand_off-others [] s e q = (q, refl, refl)
  hand_off-others (u ∷ us) s e q = (
    ground (arith, ap (count t) e),
    workers_of-append t s.invoked ((u, w) ∷ [])
        ∙ ap (λ l. workers_of t s.invoked ++ l) (ground (arith, ap (count t) e))
        ∙ append-nil (workers_of t s.invoked),
    ground (arith, ap (count t) e),
  )

  pub hand_off-IsLawful : IsLawful t (λ s. (hand_off w s.tasks s).1)
  hand_off-IsLawful = record {
    queued = λ s q. hand_off-queued s.tasks s refl q;
    handed = λ s (a, (v, b, c)).
        let (d, e, f) = hand_off-others s.tasks s refl a in (d, (v, e ∙ b, f ∙ c));
    taken = λ s (a, b). let (d, e, f) = hand_off-others s.tasks s refl a in (d, e ∙ b);
  }

-- Run or TryRun of a new task, while other threads take it at most off the queue, for one worker:
-- when Run2 returns false, one worker was given the task, once, and just this worker is its Worker,
-- which RunInternal goes on to use. When it returns true, the task is off the queue and at most one
-- worker was given it, or the pool is told to stop while the task waits. Until then the task is
-- queued, or a worker has taken it and runs it once.
pub run_internal-Ends :
    (wait fail : Bool) (rs : List Round) (t : ℕ) (s : Shared)
    → AreLawful t rs
    → count t s.tasks ≡ 0
    → workers_of t s.invoked ≡ []
    → Ends t (run_internal wait fail rs t s)
unfolding run_internal queue_task
run_internal-Ends wait fail rs t s law h k =
    rounds-Ends wait fail rs t (queue_task t s) law
      (inl (omega (arith, h, count-append t s.tasks (t ∷ []), count_self t), k))

IsDone : Ran × Shared → Type 0
IsDone r = (b : Bool) × (r.0 ≡ returned b)

if-IsDone : (b : Bool) (x y : Ran × Shared) → IsDone x → IsDone y → IsDone (if b then x else y)
if-IsDone true x y h k = h
if-IsDone false x y h k = k

popped-IsDone :
    (fail : Bool) (r : Round) (t : ℕ) (next : Shared → Ran × Shared) (p : ℕ × Option ℕ × Pool)
    (s : Shared)
    → IsDone (popped false fail r t next p s)
unfolding IsDone popped
popped-IsDone fail r t next (all, some w, p) s = (_, refl)
popped-IsDone true r t next (all, none, p) s =
    if-IsDone (leb s.pool.max_threads all) _ _ (_, refl) (if-IsDone _ _ _ (_, refl) (_, refl))
popped-IsDone false r t next (all, none, p) s =
    if-IsDone (leb s.pool.max_threads all) _ _ (_, refl) (if-IsDone _ _ _ (_, refl) (_, refl))

-- TryRun does not wait for a worker: whatever other threads do, it returns within its first round.
pub run_internal-returns :
    (fail : Bool) (r : Round) (rs : List Round) (t : ℕ) (s : Shared)
    → (b : Bool) × ((run_internal false fail (r ∷ rs) t s).0 ≡ returned b)
unfolding run_internal run2 IsDone
run_internal-returns fail r rs t s =
    if-IsDone (r.before_pop (queue_task t s)).pool.stopping _ _ (_, refl)
      (popped-IsDone fail r t (run2 false fail rs t) _ (r.before_pop (queue_task t s)))
