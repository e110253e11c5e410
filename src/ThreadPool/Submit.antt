-- ===== src/ThreadPool/Submit.antt =====
-- lib/source/ThreadPool/Pool.cpp: how Run and TryRun hand a task to a worker.
-- A task is named by its address. What other threads do before a section of the submitting thread
-- is an argument of its round, with what IsExpired, Start and Invoke answer in it.
pub mod Claim
use syncme.Prelude.{
  sub_word, ℕ, zero, suc, ◌+◌, ◌-◌, ◌*◌, ◌/◌, ◌≡◌, ◌≤◌, ◌<◌, refl, sym, ap, ◌∙◌, arith, Bool, true,
  false, not, ◌&&◌, ◌||◌, Option, none, some, List, [], ◌∷◌, ◌++◌, length, leb, ltb, ◌==◌,
  if◌then◌else◌, ◌⊎◌, inl, inr,
}
use syncme.ThreadPool.{
  Pool, pop_unused, reserve_worker_slot, release_worker_slot, push_all, push_unused, drop_failed,
}

pub record Shared : Type 0 where
  pub pool : Pool
  pub tasks : List ℕ
  -- task->Worker
  pub worker_of : ℕ → Option ℕ
  -- What happened so far: the tasks whose callback was given to a worker, with the worker.
  pub invoked : List (ℕ × ℕ)

-- QueueTask
unfoldable pub queue_task : ℕ → Shared → Shared
queue_task t s = record s { tasks = s.tasks ++ t ∷ [] }

unfoldable pub is_queued : ℕ → List ℕ → Bool
is_queued t [] = false
is_queued t (u ∷ us) = if u == t then true else is_queued t us

unfoldable pub erase_task : ℕ → List ℕ → List ℕ
erase_task t [] = []
erase_task t (u ∷ us) = if u == t then us else u ∷ erase_task t us

unfoldable pub dequeue_task : ℕ → Shared → Bool × Shared
unfolding is_queued erase_task
dequeue_task t s = (is_queued t s.tasks, record s { tasks = erase_task t s.tasks })

-- The direct handoff of CB_OnFree, outside OVERFLOW_MODE::WAIT, when TaskLock is free.
unfoldable pub hand_off : ℕ → List ℕ → Shared → Option ℕ × Shared
hand_off w [] s = (none, s)
hand_off w (t ∷ ts) s = (
  some t,
  record s {
    tasks = ts;
    worker_of = λ u. if u == t then some w else s.worker_of u;
    invoked = s.invoked ++ (t, w) ∷ [];
  },
)

abbrev compact_percent : ℕ
compact_percent = 80

abbrev compact_step : ℕ
compact_step = 10

-- How many workers DoCompact asks to free; 0 when it does not ask.
unfoldable pub try_to_free : Pool → ℕ
try_to_free p =
    let in_use : ℕ = sub_word (length p.all) (length p.unused) in
    if leb compact_percent (100 * in_use / p.max_threads)
    then sub_word in_use ((compact_percent - compact_step) * p.max_threads / 100)
    else 0

pub record Round : Type 0 where
  pub before_pop : Shared → Shared
  pub before_wait : Shared → Shared
  pub before_reserve : Shared → Shared
  pub before_dequeue : Shared → Shared
  pub before_start : Shared → Shared
  pub before_drop : Shared → Shared
  pub before_release : Shared → Shared
  pub sweep : Bool
  pub expired : ℕ → Bool
  pub new_worker : ℕ
  pub starts : Bool
  pub invokes : Bool

-- CreateWorker, which sets task->Worker to null when Start has failed.
unfoldable pub create_worker : Round → ℕ → Shared → Shared
unfolding push_all drop_failed
create_worker r t s =
    let pushed : Shared =
      let s' : Shared = r.before_start s in record s' { pool = push_all s'.pool r.new_worker } in
    let dropped : Shared =
      let s' : Shared = r.before_drop pushed in
      record s' { pool = drop_failed s'.pool r.new_worker } in
    let result : Option ℕ = if r.starts then some r.new_worker else none in
    let s' : Shared = if r.starts then pushed else dropped in
    record s' {
      worker_of = λ u. if u == t then result else s'.worker_of u;
      invoked = if r.starts then s'.invoked ++ (t, r.new_worker) ∷ [] else s'.invoked;
    }

-- With a reserved slot.
unfoldable pub create_round : Round → ℕ → Shared → Bool × Shared
unfolding dequeue_task create_worker release_worker_slot
create_round r t s =
    let (dequeued, s') = dequeue_task t (r.before_dequeue s) in
    let made : Shared = create_worker r t s' in
    let s'' : Shared = r.before_release (if dequeued then made else s') in
    (dequeued, record s'' { pool = release_worker_slot s''.pool })

-- With an idle worker `w`.
unfoldable pub invoke_round : Round → ℕ → ℕ → Shared → Bool × Shared
unfolding dequeue_task push_unused
invoke_round r t w s =
    let (dequeued, s') = dequeue_task t (r.before_dequeue s) in
    let back : Shared = record s' { pool = push_unused s'.pool w } in
    if not dequeued
    then (false, back)
    else if r.invokes
    then (true, record s' { invoked = s'.invoked ++ (t, w) ∷ [] })
    else (true, back)

-- What Run2 returns, or that it goes on after the rounds.
pub data Ran : Type 0 where
  returned : Bool → Ran
  running : Ran

abbrev pub returns : Bool × Shared → Ran × Shared
returns (b, s) = (returned b, s)

unfoldable pub popped :
    Bool → Bool → Round → ℕ → (Shared → Ran × Shared) → ℕ × Option ℕ × Pool → Shared → Ran × Shared
unfolding invoke_round create_round dequeue_task reserve_worker_slot
popped wait fail r t next (all, some w, p) s = returns (invoke_round r t w (record s { pool = p }))
popped wait fail r t next (all, none, p) s =
    let s1 : Shared = record s { pool = p } in
    let refused : Ran × Shared = returns (dequeue_task t (r.before_dequeue s1)) in
    let waited : Shared = r.before_wait s1 in
    let woken : Ran × Shared =
      if waited.pool.stop_event
      then (returned true, waited)
      else next (record waited { pool = record waited.pool { free_event = false } }) in
    let s2 : Shared = r.before_reserve s1 in
    let (reserved, p') = reserve_worker_slot s2.pool in
    let s3 : Shared = record s2 { pool = p' } in
    let refused3 : Ran × Shared = returns (dequeue_task t (r.before_dequeue s3)) in
    let created : Ran × Shared = returns (create_round r t s3) in
    let again : Ran × Shared = next s3 in
    if leb s.pool.max_threads all
    then (if fail || not wait then refused else woken)
    else if reserved
    then created
    else if not wait || fail
    then refused3
    else again

-- The loop of Run2 and what follows it. `wait` is waitForWorker, and `fail` is OVERFLOW_MODE::FAIL.
unfoldable pub run2 : Bool → Bool → List Round → ℕ → Shared → Ran × Shared
unfolding popped pop_unused dequeue_task
run2 wait fail [] t s = (running, s)
run2 wait fail (r ∷ rs) t s =
    let s' : Shared = r.before_pop s in
    let stopped : Ran × Shared = returns (dequeue_task t (r.before_dequeue s')) in
    let going : Ran × Shared =
      popped wait fail r t (run2 wait fail rs t) (pop_unused (wait && r.sweep) r.expired s'.pool)
        s' in
    if s'.pool.stopping then stopped else going

-- Run and TryRun, of a new task.
unfoldable pub run_internal : Bool → Bool → List Round → ℕ → Shared → Ran × Shared
unfolding queue_task run2
run_internal wait fail rs t s = run2 wait fail rs t (queue_task t s)

abbrev pub count : ℕ → List ℕ → ℕ
count t [] = 0
count t (u ∷ us) = if u == t then suc (count t us) else count t us

-- The workers that the task's callback was given to.
abbrev pub workers_of : ℕ → List (ℕ × ℕ) → List ℕ
workers_of t [] = []
workers_of t (i ∷ is) = if i.0 == t then i.1 ∷ workers_of t is else workers_of t is

-- The task waits in the queue, once, and no worker has it.
abbrev pub IsQueued : ℕ → Shared → Type 0
IsQueued t s = (count t s.tasks ≡ 1) × (workers_of t s.invoked ≡ [])

-- One worker took the task off the queue and runs it, once, and is task->Worker.
abbrev pub IsHandedOff : ℕ → Shared → Type 0
IsHandedOff t s =
    (count t s.tasks ≡ 0) × ((w : ℕ) × (workers_of t s.invoked ≡ w ∷ []) × (s.worker_of t ≡ some w))

-- The submitter took the task off the queue, and no worker has it.
abbrev pub IsTaken : ℕ → Shared → Type 0
IsTaken t s = (count t s.tasks ≡ 0) × (workers_of t s.invoked ≡ [])
