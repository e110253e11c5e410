-- ===== src/TimerQueue.antt =====
-- lib/source/Timer: Timer.cpp, TimerQueue.cpp and the calls of API.cpp on the queue.
-- A timer is named by its event. The clocks are arguments: the time of GetTimeInMillisec and of
-- the steady clock in a call. The lock makes each operation one step. `long` is 64 bits wide.
pub mod Wake
pub mod Fire
mod Tests
use syncme.Prelude.{
  ℕ, zero, suc, ◌+◌, ◌-◌, ◌^◌, ◌≡◌, Bool, true, false, not, ◌&&◌, ◌||◌, Option, none, some, List,
  [], ◌∷◌, ◌++◌, ltb, leb, ◌==◌, if◌then◌else◌, add_word, sub_word, word_max, ℤ, pos, negsuc,
}

abbrev pub forever : ℕ
forever = 0xffff_ffff

-- Timer. The callback is named by a number; 0 is none.
pub record Timer : Type 0 where
  pub ev_timer : ℕ
  pub period : ℕ
  pub callback : ℕ
  pub next_due_time : ℕ

-- The times of one call.
pub record Clock : Type 0 where
  pub now : ℕ
  pub steady : ℕ

pub record TimerQueue : Type 0 where
  -- Whether EvStop and EvUpdate are set, and whether the worker was started.
  pub ev_stop : Bool
  pub ev_update : Bool
  pub thread : Bool
  pub queue : List Timer
  pub queued_timers : ℕ
  -- Zero while the worker is active, UINT64_MAX while it waits for ever.
  pub wake_deadline : ℕ
  pub wake_steady_deadline : ℕ

pub timer_queue : ℕ → TimerQueue
timer_queue queued_timers = record {
  ev_stop = false;
  ev_update = false;
  thread = false;
  queue = [];
  queued_timers = queued_timers;
  wake_deadline = 0;
  wake_steady_deadline = 0;
}

-- Timer::Set
unfoldable pub set_due : Clock → Timer → ℕ → Timer
set_due clock t due_time = record t { next_due_time = add_word clock.now due_time }

-- Stop
unfoldable pub stop : TimerQueue → TimerQueue
stop q = record q {
  ev_stop = q.ev_stop || q.thread;
  thread = false;
  queue = [];
  queued_timers = 0;
  wake_deadline = 0;
}

unfoldable pub wake_for_earlier_timer : Clock → TimerQueue → ℕ → ℕ → TimerQueue
wake_for_earlier_timer clock q due_time delay =
    if q.wake_deadline == 0
    then q
    else if ltb due_time q.wake_deadline
        || (ltb delay forever && ltb (clock.steady + delay) q.wake_steady_deadline)
    then record q { wake_deadline = 0; ev_update = true }
    else q

unfoldable pub is_queued : ℕ → List Timer → Bool
is_queued timer [] = false
is_queued timer (t ∷ ts) = (t.ev_timer == timer) || is_queued timer ts

-- The loop of SetTimer: the timer that is found gets a new due time, and nothing else.
set_found : Clock → ℕ → ℕ → List Timer → List Timer
unfolding set_due
set_found clock timer due_time [] = []
set_found clock timer due_time (t ∷ ts) =
    if t.ev_timer == timer
    then set_due clock t due_time ∷ ts
    else t ∷ set_found clock timer due_time ts

set_new : Clock → TimerQueue → ℕ → ℕ → ℕ → ℕ → TimerQueue
unfolding wake_for_earlier_timer set_due
set_new clock q timer due_time period callback =
    let t : Timer =
      set_due clock
        (record { ev_timer = timer; period = period; callback = callback; next_due_time = 0 })
        due_time in
    let q' : TimerQueue = record q {
      queue = q.queue ++ t ∷ [];
      queued_timers = add_word q.queued_timers 1;
    } in
    if q.thread
    then wake_for_earlier_timer clock q' t.next_due_time due_time
    else record q' { thread = true }

-- SetTimer for times that are not negative; `none` is a null handle.
unfoldable pub set_timer_for : Clock → TimerQueue → ℕ → ℕ → ℕ → ℕ → Bool × TimerQueue
unfolding is_queued set_found set_new wake_for_earlier_timer
set_timer_for clock q timer due_time period callback =
    if is_queued timer q.queue
    then (
      true,
      wake_for_earlier_timer clock (record q { queue = set_found clock timer due_time q.queue })
          (add_word clock.now due_time) due_time,
    )
    else (true, set_new clock q timer due_time period callback)

-- SetTimer: negative times, a due time of 0 and a null handle are refused.
unfoldable pub set_timer : Clock → TimerQueue → Option ℕ → ℤ → ℤ → ℕ → Bool × TimerQueue
unfolding set_timer_for
set_timer clock q none due_time period callback = (false, q)
set_timer clock q (some timer) (negsuc n) period callback = (false, q)
set_timer clock q (some timer) (pos n) (negsuc m) callback = (false, q)
set_timer clock q (some timer) (pos n) (pos m) callback =
    if n == 0 then (false, q) else set_timer_for clock q timer n m callback

remove_timer : ℕ → List Timer → List Timer
remove_timer timer [] = []
remove_timer timer (t ∷ ts) = if t.ev_timer == timer then ts else t ∷ remove_timer timer ts

unfoldable pub cancel_timer : TimerQueue → ℕ → Bool × TimerQueue
unfolding is_queued remove_timer
cancel_timer q timer =
    if is_queued timer q.queue
    then (
      true,
      record q { queue = remove_timer timer q.queue; queued_timers = sub_word q.queued_timers 1 },
    )
    else (false, q)

-- The loop of GetSleepTime
unfoldable pub earliest : ℕ → List Timer → ℕ
earliest min [] = min
earliest min (t ∷ ts) = earliest (if ltb t.next_due_time min then t.next_due_time else min) ts

sleep_ms : ℕ → ℕ → ℕ
sleep_ms now min = if leb forever (min - now) then forever - 1 else min - now

sleep_until : Clock → TimerQueue → ℕ → ℕ × TimerQueue
unfolding sleep_ms
sleep_until clock q min =
    if leb min clock.now
    then (0, record q { wake_deadline = 0 })
    else let ms : ℕ = sleep_ms clock.now min in
      (
        ms,
        record q {
          wake_deadline = add_word clock.now ms;
          wake_steady_deadline = clock.steady + ms;
        },
      )

sleep_of : Clock → TimerQueue → List Timer → ℕ × TimerQueue
unfolding earliest sleep_until
sleep_of clock q [] = (forever, record q { wake_deadline = word_max })
sleep_of clock q (t ∷ ts) = sleep_until clock q (earliest word_max (t ∷ ts))

-- GetSleepTime under the lock: the milliseconds to wait.
unfoldable pub get_sleep_time : Clock → TimerQueue → ℕ × TimerQueue
unfolding sleep_of
get_sleep_time clock q = sleep_of clock q q.queue

-- What SignallOne does outside the lock: the callback, and SignalFromTimerQueue.
pub record Fired : Type 0 where
  pub ev_timer : ℕ
  pub callback : ℕ

pub find_due : ℕ → List Timer → Option (Timer × List Timer)
find_due now [] = none
find_due now (t ∷ ts) =
    if leb t.next_due_time now
    then some (t, ts)
    else elim (find_due now ts) [ none ↦ none | some (u, us) ↦ some (u, t ∷ us) ]

signall_due : Clock → TimerQueue → Option (Timer × List Timer) → Option (Fired × TimerQueue)
unfolding set_due
signall_due clock q none = none
signall_due clock q (some (t, rest)) = some (
  record { ev_timer = t.ev_timer; callback = t.callback },
  if t.period == 0
      then record q { queue = rest; queued_timers = sub_word q.queued_timers 1 }
      else record q {
        queue = rest ++ set_due clock t t.period ∷ [];
        queued_timers = add_word (sub_word q.queued_timers 1) 1;
      },
)

-- SignallOne, with its first reading of the clock and that of Timer::Set after it: `none` if no
-- timer is due.
unfoldable pub signall_one : ℕ → Clock → TimerQueue → Option (Fired × TimerQueue)
unfolding find_due signall_due
signall_one now clock q = signall_due clock q (find_due now q.queue)

-- SignallTimers, with the clocks of each round; it ends when no timer is due, or with the clocks.
unfoldable pub signall_timers : List (ℕ × Clock) → TimerQueue → List Fired × TimerQueue
unfolding signall_one
signall_timers [] q = ([], q)
signall_timers ((now, clock) ∷ clocks) q =
    elim (signall_one now clock (record q { wake_deadline = 0 })) [
      | none ↦ ([], record q { wake_deadline = 0 })
      | some (f, q') ↦ let (fs, q'') = signall_timers clocks q' in (f ∷ fs, q'')
    ]

-- SetWaitableTimer and CancelWaitableTimer, on the one queue of the process, which is made on
-- demand and stopped when it runs empty. `is_timer` is WaitableTimer::IsTimer.
unfoldable pub set_waitable_timer :
    Clock → Option TimerQueue → ℕ → Bool → ℕ → ℤ → ℤ → ℕ → Bool × Option TimerQueue
unfolding set_timer timer_queue
set_waitable_timer clock instance_queue queued is_timer timer due_time period callback =
    if not is_timer
    then (false, instance_queue)
    else let q : TimerQueue = elim instance_queue [ none ↦ timer_queue queued | some q ↦ q ] in
      let (r, q') = set_timer clock q (some timer) due_time period callback in (r, some q')

none_queued : List Timer → Bool
none_queued [] = true
none_queued (t ∷ ts) = false

cancelled : Bool × TimerQueue → Bool × Option TimerQueue
unfolding none_queued
cancelled (false, q) = (false, some q)
cancelled (true, q) = if none_queued q.queue then (true, none) else (true, some q)

unfoldable pub cancel_waitable_timer : Option TimerQueue → Bool → ℕ → Bool × Option TimerQueue
unfolding cancelled cancel_timer
cancel_waitable_timer none is_timer timer = (false, none)
cancel_waitable_timer (some q) is_timer timer =
    if not is_timer then (false, some q) else cancelled (cancel_timer q timer)
