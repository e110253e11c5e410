-- ===== src/TaskQueue/Tests.antt =====
-- A few items in the queue of TaskQueue.cpp.
use syncme.Prelude.{true, some, List, [], ◌∷◌, ◌++◌, ◌≡◌, refl}
use syncme.TaskQueue.{task_queue, Call, scheduling, cancelling, stopping, working, run}
use syncme.TaskQueue.Once.{occurrences, run-stop}
use syncme.TaskQueue.Order.{IsSublist, line, run-IsSublist}

-- Item 2 is cancelled while the worker has item 1, and item 4 comes too late.
abbrev script : List Call
script =
    scheduling (some 1)
    ∷ scheduling (some 2)
    ∷ working
    ∷ scheduling (some 3)
    ∷ cancelling 2
    ∷ working
    ∷ stopping
    ∷ scheduling (some 4)
    ∷ []

invoked-test : (run task_queue script).invoked ≡ 1 ∷ []
unfolding run
invoked-test = refl

completed-test : (run task_queue script).completed ≡ 2 ∷ 1 ∷ 3 ∷ 4 ∷ []
unfolding run
completed-test = refl

run-stop_example :
    let q = run task_queue (script ++ stopping ∷ working ∷ working ∷ []) in
    (q.joined ≡ true) × (occurrences 3 q.completed ≡ 1)
run-stop_example = run-stop 3 script

run-IsSublist_example : IsSublist (line (run task_queue script)) (1 ∷ 2 ∷ 3 ∷ 4 ∷ [])
run-IsSublist_example = run-IsSublist script
