-- ===== src/TaskQueue/Once.antt =====
-- How often the items that TaskQueue.cpp is given are completed.
use syncme.Prelude.{
  ℕ, ◌+◌, ◌≡◌, refl, ap, sym, ◌∙◌, subst, true, false, Option, none, some, List, [], ◌∷◌, ◌++◌,
  append-nil, append_assoc, arith, if◌then◌else◌, Bool-cases, inl, inr, ◌==◌,
}
use syncme.TaskQueue.{
  TaskQueue, task_queue, Call, scheduling, cancelling, stopping, working, invoke, cancel_item,
  cancel_items, stop, schedule, is_scheduled, erase, cancel, take_front, pop_item, work_on, turn,
  worker_proc, step, run,
}

abbrev pub occurrences : ℕ → List ℕ → ℕ
occurrences i [] = 0
occurrences i (j ∷ js) = (if j == i then 1 else 0) + occurrences i js

pub occurrences-append :
    (i : ℕ) (js ks : List ℕ) → occurrences i (js ++ ks) ≡ occurrences i js + occurrences i ks
occurrences-append i [] ks = omega arith
occurrences-append i (j ∷ js) ks = omega (arith, occurrences-append i js ks)

-- The items that a call hands to the queue.
abbrev pub handed : Call → List ℕ
handed (scheduling (some i)) = i ∷ []
handed c = []

abbrev pub all_handed : List Call → List ℕ
all_handed [] = []
all_handed (c ∷ cs) = handed c ++ all_handed cs

abbrev pub taken_items : Option ℕ → List ℕ
taken_items none = []
taken_items (some i) = i ∷ []

-- How often the queue holds an item, in wait, in work or completed.
abbrev pub held : ℕ → TaskQueue → ℕ
held i q = occurrences i q.items + occurrences i (taken_items q.taken) + occurrences i q.completed

occurrences-erase :
    (i item : ℕ) (js : List ℕ)
    → is_scheduled item js ≡ true
    → occurrences i (erase item js) + occurrences i (item ∷ []) ≡ occurrences i js
unfolding is_scheduled erase
occurrences-erase i item [] e = absurd (let f : true ≡ false = sym e in cc)
occurrences-erase i item (j ∷ js) e = ground (arith, occurrences-erase i item js)

pub completed-cancel_items :
    (q : TaskQueue) (is : List ℕ) → cancel_items q is ≡ record q { completed = q.completed ++ is }
unfolding cancel_items cancel_item
completed-cancel_items q [] = ap (λ c. record q { completed = c }) (sym (append-nil q.completed))
completed-cancel_items q (i ∷ is) =
    completed-cancel_items (cancel_item q i) is
    ∙ ap (λ c. record q { completed = c }) (append_assoc q.completed (i ∷ []) is)

held-take_front :
    (i : ℕ) (q : TaskQueue) (is : List ℕ)
    → q.taken ≡ none
    → q.items ≡ is
    → held i (work_on q (take_front q is)) ≡ held i q
unfolding work_on take_front
held-take_front i q [] e f = refl
held-take_front i q (j ∷ js) e f =
    let t = ap (λ o. occurrences i (taken_items o)) e in
    let u = ap (occurrences i) f in omega (arith, t, u)

held-turn : (i : ℕ) (q : TaskQueue) (o : Option ℕ) → q.taken ≡ o → held i (turn q o) ≡ held i q
unfolding turn work_on pop_item invoke
held-turn i q none e = elim (Bool-cases q.joined) [
  | inl j ↦ simp j refl
  | inr j ↦ elim (Bool-cases q.stop_requested) [
    | inl s ↦ simp (j, s) refl
    | inr s ↦ simp (j, s) (held-take_front i q q.items e refl)
  ]
]
held-turn i q (some j) e =
    let t = ap (λ o. occurrences i (taken_items o)) e in
    let u = occurrences-append i q.completed (j ∷ []) in omega (arith, t, u)

held-step :
    (i : ℕ) (q : TaskQueue) (c : Call) → held i (step q c) ≡ held i q + occurrences i (handed c)
unfolding step schedule cancel stop worker_proc cancel_item
held-step i q (scheduling none) = omega arith
held-step i q (scheduling (some j)) = elim (Bool-cases q.stop_requested) [
  | inl e ↦ rw e (let u = occurrences-append i q.completed (j ∷ []) in omega (arith, u))
  | inr e ↦ rw e (let u = occurrences-append i q.items (j ∷ []) in omega (arith, u))
]
held-step i q (cancelling j) = elim (Bool-cases (is_scheduled j q.items)) [
  | inl e ↦
      simp (e, step, cancel)
        (let u = occurrences-append i q.completed (j ∷ []) in
          let v = occurrences-erase i j q.items e in omega (arith, u, v))
  | inr e ↦ simp (e, step, cancel) (omega arith)
]
held-step i q stopping =
    let r : TaskQueue = record q { stop_requested = true; items = [] } in
    let u = occurrences-append i q.completed q.items in
    rw (completed-cancel_items r q.items) (omega (arith, u))
held-step i q working = let u = held-turn i q q.taken refl in omega (arith, u)

held-run :
    (i : ℕ) (q : TaskQueue) (cs : List Call)
    → held i (run q cs) ≡ held i q + occurrences i (all_handed cs)
unfolding run
held-run i q [] = omega arith
held-run i q (c ∷ cs) =
    let u = occurrences-append i (handed c) (all_handed cs) in
    omega (arith, held-run i (step q c) cs, held-step i q c, u)

-- After any calls on a new queue, with the worker's turns anywhere between them, every item that
-- was handed to Schedule, also after Stop, is as often among the waiting items, the item the
-- worker has taken and the completed items together as it was handed over.
run-held : (i : ℕ) (cs : List Call) → held i (run task_queue cs) ≡ occurrences i (all_handed cs)
run-held i cs = held-run i task_queue cs ∙ omega arith

run-append : (q : TaskQueue) (cs ds : List Call) → run q (cs ++ ds) ≡ run (run q cs) ds
unfolding run
run-append q [] ds = refl
run-append q (c ∷ cs) ds = run-append (step q c) cs ds

-- The queue is empty and the worker has left its loop.
record IsJoined (q : TaskQueue) : Type 0 where
  left : q.joined ≡ true
  empty : q.items ≡ []
  idle : q.taken ≡ none

turn-idle :
    (q : TaskQueue)
    → q.taken ≡ none
    → q.items ≡ []
    → q.stop_requested ≡ true
    → IsJoined (turn q none)
unfolding turn work_on pop_item
turn-idle q t e s = elim (Bool-cases q.joined) [
  | inl j ↦
      subst IsJoined (sym (ap (λ b. if b then q else work_on q (pop_item q)) j))
        record { left = j; empty = e; idle = t }
  | inr j ↦
      subst IsJoined
        (sym (
          ap (λ b. if b then q else work_on q (pop_item q)) j
          ∙ ap (λ b. work_on q (if b then some (none, q) else take_front q q.items)) s))
        record { left = refl; empty = e; idle = t }
]

worker_proc-IsJoined : (q : TaskQueue) → IsJoined q → IsJoined (worker_proc q)
unfolding worker_proc turn
worker_proc-IsJoined q v =
    subst IsJoined
      (sym (ap (turn q) v.idle ∙ ap (λ b. if b then q else work_on q (pop_item q)) v.left)) v

turns-IsJoined :
    (q : TaskQueue) (o : Option ℕ)
    → q.taken ≡ o
    → q.items ≡ []
    → q.stop_requested ≡ true
    → IsJoined (worker_proc (turn q o))
unfolding worker_proc turn invoke
turns-IsJoined q none t e s = worker_proc-IsJoined (turn q none) (turn-idle q t e s)
turns-IsJoined q (some i) t e s = turn-idle (record (invoke q i) { taken = none }) refl e s

stop-IsJoined : (q : TaskQueue) → IsJoined (run q (stopping ∷ working ∷ working ∷ []))
unfolding run step stop worker_proc
stop-IsJoined q =
    let r : TaskQueue = record q { stop_requested = true; items = [] } in
    rw (completed-cancel_items r q.items)
      (turns-IsJoined (record r { completed = q.completed ++ q.items }) q.taken refl refl refl)

all_handed-append : (cs ds : List Call) → all_handed (cs ++ ds) ≡ all_handed cs ++ all_handed ds
all_handed-append [] ds = refl
all_handed-append (c ∷ cs) ds =
    ap (λ is. handed c ++ is) (all_handed-append cs ds)
    ∙ sym (append_assoc (handed c) (all_handed cs) (all_handed ds))

-- Stop after any calls on a new queue: within two turns of the worker it leaves its loop, so that
-- the join returns, and by then every item that was ever handed to Schedule is completed as often
-- as it was handed over.
pub run-stop :
    (i : ℕ) (cs : List Call)
    → let q = run task_queue (cs ++ stopping ∷ working ∷ working ∷ []) in
      (q.joined ≡ true) × (occurrences i q.completed ≡ occurrences i (all_handed cs))
run-stop i cs =
    let ends = stopping ∷ working ∷ working ∷ [] in
    let v : IsJoined (run task_queue (cs ++ ends)) =
      subst IsJoined (sym (run-append task_queue cs ends)) (stop-IsJoined (run task_queue cs)) in
    let a = ap (occurrences i) v.empty in
    let b = ap (λ o. occurrences i (taken_items o)) v.idle in
    let c = occurrences-append i (all_handed cs) (all_handed ends) in
    let d = run-held i (cs ++ ends) ∙ ap (occurrences i) (all_handed-append cs ends) in
    (v.left, omega (arith, a, b, c, d))
