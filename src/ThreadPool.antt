-- ===== src/ThreadPool.antt =====
-- lib/source/ThreadPool/Pool.cpp: the lists of workers and the slots for new ones.
-- A worker is named by its address. Each section under the pool's lock is one step. The counters
-- for statistics and the management timer are not modelled. Submit has the queue of tasks, Worker
-- the worker's own thread.
pub mod Capacity
pub mod Submit
pub mod ThreadList
pub mod Worker
mod Tests
use syncme.Prelude.{
  ℕ, zero, suc, ◌+◌, ◌-◌, Bool, true, false, not, ◌&&◌, ◌||◌, Option, none, some, List, [], ◌∷◌,
  ◌++◌, length, ltb, leb, ◌==◌, if◌then◌else◌, add_word, sub_word,
}

pub record Pool : Type 0 where
  pub max_threads : ℕ
  pub creating_workers : ℕ
  -- Whether FreeEvent and StopEvent are set.
  pub free_event : Bool
  pub stop_event : Bool
  pub stopping : Bool
  pub all : List ℕ
  pub unused : List ℕ

abbrev pub pool : ℕ → Pool
pool max_threads = record {
  max_threads = max_threads;
  creating_workers = 0;
  free_event = false;
  stop_event = false;
  stopping = false;
  all = [];
  unused = [];
}

unfoldable pub set_stopping : Pool → Pool
set_stopping p = record p { stopping = true; stop_event = true }

unfoldable pub erase_worker : ℕ → List ℕ → List ℕ
erase_worker w [] = []
erase_worker w (v ∷ vs) = if v == w then vs else v ∷ erase_worker w vs

-- The first worker that the sweep of Locked_StopExpired stops: it has expired and is not the caller.
find_expired : (ℕ → Bool) → Option ℕ → List ℕ → Option ℕ
find_expired expired caller [] = none
find_expired expired caller (w ∷ ws) =
    if expired w && not (elim caller [ none ↦ false | some c ↦ w == c ])
    then some w
    else find_expired expired caller ws

-- The outer loop; each round takes one worker out of both lists.
sweep_loop : ℕ → (ℕ → Bool) → Option ℕ → Pool → Pool
unfolding find_expired erase_worker
sweep_loop zero expired caller p = p
sweep_loop (suc fuel) expired caller p = elim (find_expired expired caller p.unused) [
  | none ↦ p
  | some w ↦
      sweep_loop fuel expired caller
        (record p { unused = erase_worker w p.unused; all = erase_worker w p.all })
]

-- Locked_StopExpired, with what IsExpired says; as many rounds as workers are idle are enough.
unfoldable pub locked_stop_expired : (ℕ → Bool) → Option ℕ → Pool → Pool
unfolding sweep_loop
locked_stop_expired expired caller p =
    if p.stopping then p else sweep_loop (length p.unused) expired caller p

pop_front : Bool → (ℕ → Bool) → Pool → List ℕ → Option ℕ × Pool
unfolding locked_stop_expired
pop_front sweep expired p [] = (none, p)
pop_front sweep expired p (w ∷ ws) =
    let p' : Pool = record p { unused = ws } in
    (some w, if sweep then locked_stop_expired expired none p' else p')

-- PopUnused: `sweep` says that the caller may sweep and half of MaxIdleTime is over.
unfoldable pub pop_unused : Bool → (ℕ → Bool) → Pool → ℕ × Option ℕ × Pool
unfolding pop_front
pop_unused sweep expired p =
    let (w, p') = pop_front sweep expired p p.unused in
    (add_word (length p.all) p.creating_workers, w, p')

unfoldable pub reserve_worker_slot : Pool → Bool × Pool
reserve_worker_slot p =
    if p.stopping || leb p.max_threads (add_word (length p.all) p.creating_workers)
    then (false, p)
    else (true, record p { creating_workers = add_word p.creating_workers 1 })

unfoldable pub release_worker_slot : Pool → Pool
release_worker_slot p = record p {
  creating_workers = sub_word p.creating_workers 1;
  free_event = true;
}

-- Push(All, t) and Push(Unused, t)
unfoldable pub push_all : Pool → ℕ → Pool
push_all p w = record p { all = p.all ++ w ∷ [] }

unfoldable pub push_unused : Pool → ℕ → Pool
push_unused p w = record p { unused = p.unused ++ w ∷ [] }

-- The last section of CreateWorker, when Start has failed.
unfoldable pub drop_failed : Pool → ℕ → Pool
unfolding erase_worker
drop_failed p w = record p { all = erase_worker w p.all }

-- The section of CB_OnFree.
unfoldable pub on_free : Pool → ℕ → Pool
on_free p w = record p { unused = w ∷ p.unused; free_event = true }
