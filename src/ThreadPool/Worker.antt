-- ===== src/ThreadPool/Worker.antt =====
-- lib/source/ThreadPool/Worker.cpp: a thread of the pool and the callbacks that it is given.
-- A callback is a number. The functions of the pool and the steps of the worker's own thread
-- interleave; a wait of Invoke for BusyEvent is not modelled, and neither are the events that could
-- not be created.
pub mod Once
use syncme.Prelude.{
  ℕ, zero, suc, ◌+◌, ◌≡◌, ◌≤◌, refl, sym, ap, ◌∙◌, arith, Bool, true, false, not, ◌&&◌, ◌||◌,
  Option, none, some, List, [], ◌∷◌, ◌++◌, append-nil, append_assoc, ◌==◌, if◌then◌else◌, ◌⊎◌, inl,
  inr,
}

-- Where the thread stands: no thread, at OnInvoke, in the callback, before NotifyIdle, in
-- WaitForMultipleObjects, or behind the loop.
pub data Place : Type 0 where
  no_thread at_invoke in_callback before_idle in_wait behind_loop : Place

pub record Worker : Type 0 where
  pub started_event : Bool
  pub stop_event : Bool
  pub idle_event : Bool
  pub busy_event : Bool
  pub invoke_event : Bool
  pub expire_timer : Bool
  pub started : Bool
  pub stopped : Bool
  pub exited : Bool
  pub expire_timer_armed : Bool
  pub callback : Option ℕ
  pub first_task : Bool
  pub place : Place
  -- What happened so far: the callbacks that the worker was given, and those that it began.
  pub given : List ℕ
  pub called : List ℕ

-- The constructor.
abbrev pub worker : Worker
worker = record {
  started_event = false;
  stop_event = false;
  idle_event = false;
  busy_event = false;
  invoke_event = false;
  expire_timer = false;
  started = false;
  stopped = false;
  exited = false;
  expire_timer_armed = false;
  callback = none;
  first_task = true;
  place = no_thread;
  given = [];
  called = [];
}

-- SetExpireTimer: with a time, the timer is set later (`timer_due`).
unfoldable pub set_expire_timer : ℕ → Worker → Worker
set_expire_timer ms w = record w {
  expire_timer_armed = true;
  expire_timer = if ms == 0 then true else w.expire_timer;
}

unfoldable pub timer_due : Worker → Worker
timer_due w = record w { expire_timer = w.expire_timer_armed || w.expire_timer }

unfoldable pub cancel_expire_timer : Worker → Worker
cancel_expire_timer w = record w {
  expire_timer = if w.expire_timer_armed then false else w.expire_timer;
  expire_timer_armed = false;
}

unfoldable pub is_expired : Worker → Bool
is_expired w = w.expire_timer

-- Whether Thread is set.
abbrev pub has_thread : Place → Bool
has_thread no_thread = false
has_thread place = true

-- Start; `runs` says that the thread could be made, whose StartedEvent it waits for.
abbrev pub launch : Bool → ℕ → Worker → Bool × Worker
launch runs cb w = (
  runs,
  record w {
    started_event = runs || w.started_event;
    callback = if runs then some cb else none;
    started = runs || w.started;
    first_task = true;
    place = if runs then at_invoke else w.place;
    given = if runs then w.given ++ cb ∷ [] else w.given;
  },
)

unfoldable pub start : Bool → ℕ → Worker → Bool × Worker
start runs cb w = if has_thread w.place then (false, w) else launch runs cb w

-- Stop sets StopEvent and joins the thread; what follows when the thread has ended is `joined`.
unfoldable pub stop : Worker → Worker
stop w = record w {
  stop_event = if has_thread w.place then true else w.stop_event;
  stopped = if has_thread w.place then w.stopped else true;
}

unfoldable pub joined : Worker → Worker
joined w = record w { place = no_thread; stopped = true }

-- Invoke on a thread that runs.
unfoldable pub invoke : ℕ → Worker → Worker
invoke cb w = record w {
  callback = some cb;
  idle_event = false;
  busy_event = false;
  invoke_event = true;
  given = w.given ++ cb ∷ [];
}

-- WaitForMultipleObjects(StopEvent, InvokeEvent, ManagementTimer) returns. On the timer, OnTimer is a
-- call of the pool, and the thread waits again.
unfoldable pub wait_ends : Worker → Worker
wait_ends w = record w {
  place = if w.stop_event then behind_loop else if w.invoke_event then at_invoke else in_wait;
  first_task = false;
  exited = if w.stop_event then true else w.exited;
}

-- From OnInvoke into the callback.
unfoldable pub on_invoke : Worker → Worker
on_invoke w = record w {
  invoke_event = false;
  busy_event = if w.first_task then w.busy_event else true;
  place = in_callback;
  called = elim w.callback [ none ↦ w.called | some cb ↦ w.called ++ cb ∷ [] ];
}

-- From the callback to NotifyIdle; `made` says that the new IdleEvent could be created.
unfoldable pub callback_done : Bool → Worker → Worker
callback_done made w = record w {
  callback = none;
  idle_event = made;
  place = if made then before_idle else behind_loop;
  exited = if made then w.exited else true;
}

-- NotifyIdle and what follows it, with the task that it gives.
unfoldable pub notified : Option ℕ → Worker → Worker
notified none w = record w { place = in_wait }
notified (some cb) w = record w {
  callback = some cb;
  first_task = true;
  place = at_invoke;
  given = w.given ++ cb ∷ [];
}

-- What the pool and the thread do. The pool invokes a worker that waits, has nothing to do and is
-- not told to stop: it takes it off the list of idle workers, where NotifyIdle put it.
pub data Step (w : Worker) : Worker → Type 0 where
  starts : (runs : Bool) (cb : ℕ) → w.callback ≡ none → Step w (start runs cb w).1
  stops : Step w (stop w)
  joins : w.place ≡ behind_loop → Step w (joined w)
  arms : (ms : ℕ) → Step w (set_expire_timer ms w)
  expires : Step w (timer_due w)
  cancels : Step w (cancel_expire_timer w)
  invokes :
      (cb : ℕ) → w.place ≡ in_wait → w.callback ≡ none → w.stop_event ≡ false → Step w (invoke cb w)
  wait_returns : w.place ≡ in_wait → Step w (wait_ends w)
  calls : w.place ≡ at_invoke → Step w (on_invoke w)
  finishes : (made : Bool) → w.place ≡ in_callback → Step w (callback_done made w)
  notifies : (task : Option ℕ) → w.place ≡ before_idle → Step w (notified task w)

pub data Steps (w : Worker) : Worker → Type 0 where
  here : Steps w w
  next : {u v : Worker} → Steps w u → Step u v → Steps w v

-- What the worker has still to begin.
abbrev pub to_call : Place → Option ℕ → List ℕ
to_call in_callback cb = []
to_call place none = []
to_call place (some cb) = cb ∷ []
