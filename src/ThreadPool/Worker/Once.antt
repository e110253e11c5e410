-- ===== src/ThreadPool/Worker/Once.antt =====
-- Worker.cpp calls every callback that it is given once, in order.
use syncme.Prelude.{
  ℕ, ◌≡◌, ◌≢◌, refl, sym, ap, ◌∙◌, Bool, true, false, Option, none, some, List, [], ◌∷◌, ◌++◌,
  append-nil, if◌then◌else◌, subst,
}
use syncme.ThreadPool.Worker.{
  Place, no_thread, at_invoke, in_callback, before_idle, in_wait, behind_loop, Worker, worker,
  set_expire_timer, timer_due, cancel_expire_timer, start, launch, has_thread, stop, joined, invoke,
  wait_ends, on_invoke, callback_done, notified, Step, starts, stops, joins, arms, expires, cancels,
  invokes, wait_returns, calls, finishes, notifies, Steps, here, next, to_call,
}

-- Where the thread is about to call, there is a callback; where it waits, there is one exactly when
-- InvokeEvent is set; and what was given was called, save for the one that is still to be called.
abbrev pub IsAt : Place → Bool → Option ℕ → Type 0
IsAt at_invoke invoke_event callback = callback ≢ none
IsAt in_callback invoke_event callback = invoke_event ≡ false
IsAt before_idle invoke_event callback = (invoke_event ≡ false) × (callback ≡ none)
IsAt in_wait true callback = callback ≢ none
IsAt in_wait false callback = callback ≡ none
IsAt place invoke_event callback = Unit {0}

abbrev pub IsRun : Worker → Type 0
IsRun w =
    (w.given ≡ w.called ++ to_call w.place w.callback) × IsAt w.place w.invoke_event w.callback

-- The worker by the fields that matter.
abbrev IsRunAt : Place → Bool → Option ℕ → List ℕ → List ℕ → Type 0
IsRunAt place invoke_event callback given called =
    (given ≡ called ++ to_call place callback) × IsAt place invoke_event callback

add_one :
    (given called : List ℕ) (cb : ℕ) → given ≡ called ++ [] → given ++ cb ∷ [] ≡ called ++ cb ∷ []
add_one given called cb h = ap (λ l. l ++ cb ∷ []) (h ∙ append-nil called)

at_place :
    (w : Worker) (place : Place)
    → w.place ≡ place
    → IsRun w
    → IsRunAt place w.invoke_event w.callback w.given w.called
at_place w place e r = subst (λ q. IsRunAt q w.invoke_event w.callback w.given w.called) e r

-- A callback for a worker that has none, at a place where that is called next.
invoked :
    (e : Bool) (callback : Option ℕ) (given called : List ℕ) (cb : ℕ)
    → callback ≡ none
    → IsRunAt in_wait e callback given called
    → IsRunAt in_wait true (some cb) (given ++ cb ∷ []) called
invoked e none given called cb c h = (add_one given called cb h.0, (λ m. cc))
invoked e (some x) given called cb c h = cc

started_at :
    (runs e : Bool) (callback : Option ℕ) (given called : List ℕ) (cb : ℕ)
    → callback ≡ none
    → IsRunAt no_thread e callback given called
    → IsRunAt
        (if runs then at_invoke else no_thread)
        e
        (if runs then some cb else none)
        (if runs then given ++ cb ∷ [] else given)
        called
started_at true e none given called cb c h = (add_one given called cb h.0, (λ m. cc))
started_at false e none given called cb c h = h
started_at runs e (some x) given called cb c h = cc

woken :
    (stops e : Bool) (callback : Option ℕ) (given called : List ℕ)
    → IsRunAt in_wait e callback given called
    → IsRunAt
        (if stops then behind_loop else if e then at_invoke else in_wait)
        e
        callback
        given
        called
woken true e none given called h = (h.0, tt)
woken true e (some cb) given called h = (h.0, tt)
woken false true none given called h = h
woken false true (some cb) given called h = h
woken false false none given called h = h
woken false false (some cb) given called h = h

begun :
    (e : Bool) (callback : Option ℕ) (given called : List ℕ)
    → IsRunAt at_invoke e callback given called
    → IsRunAt in_callback false callback given
        (elim callback [ none ↦ called | some cb ↦ called ++ cb ∷ [] ])
begun e none given called h = absurd (h.1 refl)
begun e (some cb) given called h = (h.0 ∙ sym (append-nil (called ++ cb ∷ [])), refl)

done :
    (made e : Bool) (callback : Option ℕ) (given called : List ℕ)
    → IsRunAt in_callback e callback given called
    → IsRunAt (if made then before_idle else behind_loop) e none given called
done true e callback given called h = (h.0, (h.1, refl))
done false e callback given called h = (h.0, tt)

waiting :
    (e : Bool) (callback : Option ℕ) (given called : List ℕ)
    → IsRunAt before_idle e callback given called
    → IsRunAt in_wait e callback given called
waiting true callback given called h = cc
waiting false none given called h = (h.0, refl)
waiting false (some cb) given called h = cc

told_again :
    (e : Bool) (callback : Option ℕ) (given called : List ℕ) (cb : ℕ)
    → IsRunAt before_idle e callback given called
    → IsRunAt at_invoke e (some cb) (given ++ cb ∷ []) called
told_again e none given called cb h = (add_one given called cb h.0, (λ m. cc))
told_again e (some x) given called cb h = cc

told :
    (task : Option ℕ) (w : Worker)
    → IsRunAt before_idle w.invoke_event w.callback w.given w.called
    → IsRun (notified task w)
unfolding notified
told none w h = waiting w.invoke_event w.callback w.given w.called h
told (some cb) w h = told_again w.invoke_event w.callback w.given w.called cb h

ended :
    (e : Bool) (callback : Option ℕ) (given called : List ℕ)
    → IsRunAt behind_loop e callback given called
    → IsRunAt no_thread e callback given called
ended e none given called h = (h.0, tt)
ended e (some cb) given called h = (h.0, tt)

no_thread_at : (place : Place) → has_thread place ≡ false → no_thread ≡ place
no_thread_at no_thread h = refl
no_thread_at at_invoke h = cc
no_thread_at in_callback h = cc
no_thread_at before_idle h = cc
no_thread_at in_wait h = cc
no_thread_at behind_loop h = cc

launch-IsRun :
    (runs : Bool) (cb : ℕ) (w : Worker)
    → has_thread w.place ≡ false
    → w.callback ≡ none
    → IsRun w
    → IsRun (launch runs cb w).1
launch-IsRun runs cb w p c r =
    subst
      (λ q.
        IsRunAt (if runs then at_invoke else q) w.invoke_event (if runs then some cb else none)
          (if runs then w.given ++ cb ∷ [] else w.given) w.called)
      (no_thread_at w.place p)
      (started_at runs w.invoke_event w.callback w.given w.called cb c
        (at_place w no_thread (sym (no_thread_at w.place p)) r))

start_if :
    (s runs : Bool) (cb : ℕ) (w : Worker)
    → has_thread w.place ≡ s
    → w.callback ≡ none
    → IsRun w
    → IsRun (if s then (false, w) else launch runs cb w).1
start_if true runs cb w p c r = r
start_if false runs cb w p c r = launch-IsRun runs cb w p c r

start-IsRun :
    (runs : Bool) (cb : ℕ) (w : Worker) → w.callback ≡ none → IsRun w → IsRun (start runs cb w).1
unfolding start
start-IsRun runs cb w c r = start_if (has_thread w.place) runs cb w refl c r

Step-IsRun : {w v : Worker} → Step w v → IsRun w → IsRun v
unfolding start stop joined set_expire_timer timer_due cancel_expire_timer invoke wait_ends
    on_invoke callback_done
Step-IsRun {w = w} (starts runs cb c) r = start-IsRun runs cb w c r
Step-IsRun stops r = r
Step-IsRun {w = w} (joins p) r =
    ended w.invoke_event w.callback w.given w.called (at_place w behind_loop p r)
Step-IsRun (arms ms) r = r
Step-IsRun expires r = r
Step-IsRun cancels r = r
Step-IsRun {w = w} (invokes cb p c n) r =
    subst (λ q. IsRunAt q true (some cb) (w.given ++ cb ∷ []) w.called) (sym p)
      (invoked w.invoke_event w.callback w.given w.called cb c (at_place w in_wait p r))
Step-IsRun {w = w} (wait_returns p) r =
    woken w.stop_event w.invoke_event w.callback w.given w.called (at_place w in_wait p r)
Step-IsRun {w = w} (calls p) r =
    begun w.invoke_event w.callback w.given w.called (at_place w at_invoke p r)
Step-IsRun {w = w} (finishes made p) r =
    done made w.invoke_event w.callback w.given w.called (at_place w in_callback p r)
Step-IsRun {w = w} (notifies task p) r = told task w (at_place w before_idle p r)

-- However the pool and the thread of a new worker act: the callbacks that it was given are those that
-- it called, in order and each once, followed by at most one that is still to be called; there is
-- one where it is about to call.
pub Steps-IsRun : {w : Worker} → Steps worker w → IsRun w
Steps-IsRun here = (refl, tt)
Steps-IsRun (next h st) = Step-IsRun st (Steps-IsRun h)
