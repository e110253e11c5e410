-- ===== src/TaskQueue/Order.antt =====
-- The order in which the worker of TaskQueue.cpp invokes the items.
use syncme.Prelude.{
  ℕ, ◌≡◌, refl, ap, sym, ◌∙◌, subst, true, Option, none, some, List, [], ◌∷◌, ◌++◌, append-nil,
  append_assoc, Bool-cases, inl, inr, ◌==◌,
}
use syncme.TaskQueue.{
  TaskQueue, task_queue, Call, scheduling, cancelling, stopping, working, invoke, cancel_item, stop,
  schedule, is_scheduled, erase, cancel, take_front, pop_item, work_on, turn, worker_proc, step,
  run,
}
use syncme.TaskQueue.Once.{handed, all_handed, taken_items, completed-cancel_items}

-- The first list is the second with some of its members left out.
pub data IsSublist : List ℕ → List ℕ → Type 0 where
  end : IsSublist [] []
  keep : (i : ℕ) (is js : List ℕ) → IsSublist is js → IsSublist (i ∷ is) (i ∷ js)
  skip : (j : ℕ) (is js : List ℕ) → IsSublist is js → IsSublist is (j ∷ js)

IsSublist-refl : (is : List ℕ) → IsSublist is is
IsSublist-refl [] = end
IsSublist-refl (i ∷ is) = keep i is is (IsSublist-refl is)

IsSublist-trans : (is js ks : List ℕ) → IsSublist is js → IsSublist js ks → IsSublist is ks
IsSublist-trans is js ks a end = a
IsSublist-trans is js ks a (skip k js' ks' b) = skip k is ks' (IsSublist-trans is js ks' a b)
IsSublist-trans is js ks (keep i is' js1 a) (keep j js' ks' b) =
    keep i is' ks' (IsSublist-trans is' js' ks' a b)
IsSublist-trans is js ks (skip i is' js1 a) (keep j js' ks' b) =
    skip j is ks' (IsSublist-trans is js' ks' a b)

IsSublist-append :
    (is js ks ls : List ℕ) → IsSublist is js → IsSublist ks ls → IsSublist (is ++ ks) (js ++ ls)
IsSublist-append is js ks ls end b = b
IsSublist-append is js ks ls (keep i is' js' a) b =
    keep i (is' ++ ks) (js' ++ ls) (IsSublist-append is' js' ks ls a b)
IsSublist-append is js ks ls (skip j is' js' a) b =
    skip j (is ++ ks) (js' ++ ls) (IsSublist-append is js' ks ls a b)

erase-IsSublist : (item : ℕ) (is : List ℕ) → IsSublist (erase item is) is
unfolding erase
erase-IsSublist item [] = end
erase-IsSublist item (i ∷ is) = elim (Bool-cases (i == item)) [
  | inl e ↦ rw e (skip i is is (IsSublist-refl is))
  | inr e ↦ rw e (keep i (erase item is) is (erase-IsSublist item is))
]

-- The items that were invoked, the one that is taken and those that wait, oldest first.
abbrev pub line : TaskQueue → List ℕ
line q = q.invoked ++ (taken_items q.taken ++ q.items)

-- Appending hands over more; the others may only drop.
IsSublist-more : (is js : List ℕ) → IsSublist is (is ++ js)
IsSublist-more [] [] = end
IsSublist-more [] (j ∷ js) = skip j [] js (IsSublist-more [] js)
IsSublist-more (i ∷ is) js = keep i is (is ++ js) (IsSublist-more is js)

IsSublist-behind : (is js ks : List ℕ) → IsSublist js ks → IsSublist (is ++ js) (is ++ ks)
IsSublist-behind is js ks a = IsSublist-append is is js ks (IsSublist-refl is) a

line-items :
    (q : TaskQueue) (is : List ℕ)
    → IsSublist is q.items
    → IsSublist (line (record q { items = is })) (line q ++ [])
line-items q is a = subst (IsSublist (line (record q { items = is }))) (sym (append-nil (line q))) (
    IsSublist-behind q.invoked (taken_items q.taken ++ is) (taken_items q.taken ++ q.items)
      (IsSublist-behind (taken_items q.taken) is q.items a))

line-work_on :
    (q : TaskQueue) (is : List ℕ)
    → q.taken ≡ none
    → q.items ≡ is
    → line (work_on q (take_front q is)) ≡ line q
unfolding work_on take_front
line-work_on q [] e f = refl
line-work_on q (i ∷ is) e f =
    ap (λ js. q.invoked ++ js) (sym f ∙ sym (ap (λ o. taken_items o ++ q.items) e))

line-turn : (q : TaskQueue) (o : Option ℕ) → q.taken ≡ o → line (turn q o) ≡ line q
unfolding turn work_on pop_item invoke
line-turn q none e = elim (Bool-cases q.joined) [
  | inl j ↦ simp j refl
  | inr j ↦ elim (Bool-cases q.stop_requested) [
    | inl s ↦ simp (j, s) refl
    | inr s ↦ simp (j, s) (line-work_on q q.items e refl)
  ]
]
line-turn q (some i) e =
    append_assoc q.invoked (i ∷ []) q.items
    ∙ sym (ap (λ o. q.invoked ++ (taken_items o ++ q.items)) e)

line-step : (q : TaskQueue) (c : Call) → IsSublist (line (step q c)) (line q ++ handed c)
unfolding step schedule cancel stop worker_proc cancel_item
line-step q (scheduling none) = IsSublist-more (line q) []
line-step q (scheduling (some i)) = elim (Bool-cases q.stop_requested) [
  | inl e ↦ simp (e, step, schedule) (IsSublist-more (line q) (i ∷ []))
  | inr e ↦
      simp (e, step, schedule)
        (subst (λ is. IsSublist is (line q ++ i ∷ []))
          (append_assoc q.invoked (taken_items q.taken ++ q.items) (i ∷ [])
            ∙ ap (λ is. q.invoked ++ is) (append_assoc (taken_items q.taken) q.items (i ∷ [])))
          (IsSublist-refl (line q ++ i ∷ [])))
]
line-step q (cancelling i) = elim (Bool-cases (is_scheduled i q.items)) [
  | inl e ↦ simp (e, step, cancel) (line-items q (erase i q.items) (erase-IsSublist i q.items))
  | inr e ↦ simp (e, step, cancel) (line-items q q.items (IsSublist-refl q.items))
]
line-step q stopping =
    let r : TaskQueue = record q { stop_requested = true; items = [] } in
    rw (completed-cancel_items r q.items) (line-items q [] (IsSublist-more [] q.items))
line-step q working =
    subst (λ is. IsSublist is (line q ++ [])) (sym (line-turn q q.taken refl))
      (IsSublist-more (line q) [])

line-run : (q : TaskQueue) (cs : List Call) → IsSublist (line (run q cs)) (line q ++ all_handed cs)
unfolding run
line-run q [] = IsSublist-more (line q) []
line-run q (c ∷ cs) =
    subst (IsSublist (line (run (step q c) cs))) (append_assoc (line q) (handed c) (all_handed cs))
      (IsSublist-trans _ (line (step q c) ++ all_handed cs) _ (line-run (step q c) cs) (
        IsSublist-append (line (step q c)) (line q ++ handed c) (all_handed cs) (all_handed cs)
          (line-step q c) (IsSublist-refl (all_handed cs))))

-- After any calls on a new queue, with the worker's turns anywhere between them, the items that
-- were invoked, then the one the worker has taken, then those that wait, stand in the order in
-- which they were handed to Schedule: they are a sublist of the items that were handed over.
pub run-IsSublist : (cs : List Call) → IsSublist (line (run task_queue cs)) (all_handed cs)
run-IsSublist cs = line-run task_queue cs
