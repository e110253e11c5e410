-- ===== src/TaskQueue.antt =====
-- lib/source/TaskQueue: TaskQueue.cpp and TaskQueueItem.cpp.
-- An item is named by its address; the null pointer is `none`. The lock makes each section of an
-- operation one step. The condition variable is not modelled: where the code waits on it the step
-- is not taken.
pub mod Once
pub mod Order
mod Tests
use syncme.Prelude.{
  ℕ, Bool, true, false, ◌||◌, Option, none, some, List, [], ◌∷◌, ◌++◌, ◌==◌, if◌then◌else◌,
}

pub record TaskQueue : Type 0 where
  pub items : List ℕ
  pub stop_requested : Bool
  -- The item that the worker has taken and not completed, and whether the worker has left its loop.
  pub taken : Option ℕ
  pub joined : Bool
  -- The items whose callback was called, and those whose event Completed was set, in that order.
  pub invoked : List ℕ
  pub completed : List ℕ

abbrev pub task_queue : TaskQueue
task_queue = record {
  items = [];
  stop_requested = false;
  taken = none;
  joined = false;
  invoked = [];
  completed = [];
}

-- Item::Invoke and Item::Cancel
unfoldable pub invoke : TaskQueue → ℕ → TaskQueue
invoke q item = record q { invoked = q.invoked ++ item ∷ []; completed = q.completed ++ item ∷ [] }

unfoldable pub cancel_item : TaskQueue → ℕ → TaskQueue
cancel_item q item = record q { completed = q.completed ++ item ∷ [] }

unfoldable pub cancel_items : TaskQueue → List ℕ → TaskQueue
unfolding cancel_item
cancel_items q [] = q
cancel_items q (i ∷ is) = cancel_items (cancel_item q i) is

-- Stop up to its wait for the worker
unfoldable pub stop : TaskQueue → TaskQueue
unfolding cancel_items
stop q = cancel_items (record q { stop_requested = true; items = [] }) q.items

-- Schedule, with no exception from push_back
unfoldable pub schedule : TaskQueue → Option ℕ → Option ℕ × TaskQueue
unfolding cancel_item
schedule q none = (none, q)
schedule q (some item) =
    if q.stop_requested
    then (none, cancel_item q item)
    else (some item, record q { items = q.items ++ item ∷ [] })

unfoldable pub is_scheduled : ℕ → List ℕ → Bool
is_scheduled item [] = false
is_scheduled item (i ∷ is) = (i == item) || is_scheduled item is

unfoldable pub erase : ℕ → List ℕ → List ℕ
erase item [] = []
erase item (i ∷ is) = if i == item then is else i ∷ erase item is

-- Cancel
unfoldable pub cancel : TaskQueue → ℕ → Bool × TaskQueue
unfolding is_scheduled erase cancel_item
cancel q item =
    if is_scheduled item q.items
    then (true, record (cancel_item q item) { items = erase item q.items })
    else (false, q)

take_front : TaskQueue → List ℕ → Option (Option ℕ × TaskQueue)
take_front q [] = none
take_front q (i ∷ is) = some (some i, record q { items = is })

-- PopItem: `none` while it waits, a null item once the queue is stopped.
unfoldable pub pop_item : TaskQueue → Option (Option ℕ × TaskQueue)
unfolding take_front
pop_item q = if q.stop_requested then some (none, q) else take_front q q.items

work_on : TaskQueue → Option (Option ℕ × TaskQueue) → TaskQueue
work_on q none = q
work_on q (some (none, q')) = record q' { joined = true }
work_on q (some (some i, q')) = record q' { taken = some i }

-- A turn of the loop of WorkerProc: it pops an item, or invokes the one it has popped.
turn : TaskQueue → Option ℕ → TaskQueue
unfolding work_on pop_item invoke
turn q none = if q.joined then q else work_on q (pop_item q)
turn q (some i) = record (invoke q i) { taken = none }

unfoldable pub worker_proc : TaskQueue → TaskQueue
unfolding turn
worker_proc q = turn q q.taken

-- A call of a client, or a turn of the worker.
pub data Call : Type 0 where
  scheduling : Option ℕ → Call
  cancelling : ℕ → Call
  stopping : Call
  working : Call

unfoldable pub step : TaskQueue → Call → TaskQueue
unfolding schedule cancel stop worker_proc
step q (scheduling item) = (schedule q item).1
step q (cancelling item) = (cancel q item).1
step q stopping = stop q
step q working = worker_proc q

-- The calls of the clients and the turns of the worker, in the order of the lock.
unfoldable pub run : TaskQueue → List Call → TaskQueue
unfolding step
run q [] = q
run q (c ∷ cs) = run (step q c) cs
