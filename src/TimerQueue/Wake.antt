-- ===== src/TimerQueue/Wake.antt =====
-- The sleep of the timer queue's worker, and the calls that clients make meanwhile.
use syncme.Prelude.{
  ℕ, ◌+◌, ◌≤◌, ◌<◌, ◌≡◌, ◌≢◌, refl, ap, sym, ◌∙◌, true, ◌&&◌, ◌||◌, Option, none, some, List, subst,
  [], ◌∷◌, ◌++◌, arith, if◌then◌else◌, Bool-cases, ◌⊎◌, inl, inr, ◌==◌, ltb, add_word, word_max, ℤ,
  pos, negsuc, dec_le,
}
use syncme.TimerQueue.{
  Timer, TimerQueue, Clock, set_due, wake_for_earlier_timer, is_queued, set_found, set_new,
  set_timer_for, set_timer, remove_timer, cancel_timer, earliest, get_sleep_time, sleep_of,
  sleep_until, sleep_ms, forever,
}

-- No timer is due before `d`.
abbrev pub AllFrom : ℕ → List Timer → Type 0
AllFrom d [] = Unit {0}
AllFrom d (t ∷ ts) = (d ≤ t.next_due_time) × AllFrom d ts

AllFrom-append :
    (d : ℕ) (ts : List Timer) (t : Timer)
    → AllFrom d ts
    → d ≤ t.next_due_time
    → AllFrom d (ts ++ t ∷ [])
AllFrom-append d [] t a h = (h, tt)
AllFrom-append d (u ∷ ts) t a h = (a.0, AllFrom-append d ts t a.1 h)

AllFrom-mono : (d e : ℕ) (ts : List Timer) → d ≤ e → AllFrom e ts → AllFrom d ts
AllFrom-mono d e [] h a = tt
AllFrom-mono d e (t ∷ ts) h a = (omega arith, AllFrom-mono d e ts h a.1)

earliest-le : (min : ℕ) (ts : List Timer) → earliest min ts ≤ min
unfolding earliest
earliest-le min [] = omega arith
earliest-le min (t ∷ ts) =
    ground (arith, earliest-le (if ltb t.next_due_time min then t.next_due_time else min) ts)

earliest-AllFrom : (min : ℕ) (ts : List Timer) → AllFrom (earliest min ts) ts
unfolding earliest
earliest-AllFrom min [] = tt
earliest-AllFrom min (t ∷ ts) =
    let min' : ℕ = if ltb t.next_due_time min then t.next_due_time else min in
    (ground (arith, earliest-le min' ts), earliest-AllFrom min' ts)

set_found-AllFrom :
    (clock : Clock) (timer due d : ℕ) (ts : List Timer)
    → AllFrom d ts
    → d ≤ add_word clock.now due
    → AllFrom d (set_found clock timer due ts)
unfolding set_found set_due
set_found-AllFrom clock timer due d [] a h = tt
set_found-AllFrom clock timer due d (t ∷ ts) a h = elim (Bool-cases (t.ev_timer == timer)) [
  | inl e ↦ rw e (h, a.1)
  | inr e ↦ rw e (a.0, set_found-AllFrom clock timer due d ts a.1 h)
]

remove_timer-AllFrom :
    (timer d : ℕ) (ts : List Timer) → AllFrom d ts → AllFrom d (remove_timer timer ts)
unfolding remove_timer
remove_timer-AllFrom timer d [] a = tt
remove_timer-AllFrom timer d (t ∷ ts) a = elim (Bool-cases (t.ev_timer == timer)) [
  | inl e ↦ rw e a.1
  | inr e ↦ rw e (a.0, remove_timer-AllFrom timer d ts a.1)
]

-- The worker waits until `d` and will be woken for anything that is due earlier.
pub record IsWaiting (d : ℕ) (q : TimerQueue) : Type 0 where
  pub running : q.thread ≡ true
  pub covered : (q.ev_update ≡ true) ⊎ ((q.wake_deadline ≡ d) × AllFrom d q.queue)

wake_for_earlier_timer-wakes :
    (clock : Clock) (q : TimerQueue) (due delay : ℕ)
    → (wake_for_earlier_timer clock q due delay ≡ q)
      ⊎ ((wake_for_earlier_timer clock q due delay).ev_update ≡ true)
unfolding wake_for_earlier_timer
wake_for_earlier_timer-wakes clock q due delay = elim (Bool-cases (q.wake_deadline == 0)) [
  | inl e ↦ inl (rw e refl)
  | inr e ↦
      elim (Bool-cases (
        ltb due q.wake_deadline
        || (ltb delay forever && ltb (clock.steady + delay) q.wake_steady_deadline))) [
          | inl f ↦ inr (rw (e, f) refl)
          | inr f ↦ inl (rw (e, f) refl)
        ]
]

wake_for_earlier_timer-thread :
    (clock : Clock) (q : TimerQueue) (due delay : ℕ)
    → (wake_for_earlier_timer clock q due delay).thread ≡ q.thread
unfolding wake_for_earlier_timer
wake_for_earlier_timer-thread clock q due delay = ground arith

wake_for_earlier_timer-early :
    (clock : Clock) (q : TimerQueue) (due delay : ℕ)
    → q.wake_deadline ≢ 0
    → due < q.wake_deadline
    → (wake_for_earlier_timer clock q due delay).ev_update ≡ true
unfolding wake_for_earlier_timer
wake_for_earlier_timer-early clock q due delay nz h = ground arith

wake_for_earlier_timer-IsWaiting :
    (clock : Clock) (q : TimerQueue) (due delay d : ℕ)
    → d ≢ 0
    → q.thread ≡ true
    → (q.ev_update ≡ true) ⊎ ((q.wake_deadline ≡ d) × (d ≤ due → AllFrom d q.queue))
    → IsWaiting d (wake_for_earlier_timer clock q due delay)
wake_for_earlier_timer-IsWaiting clock q due delay d nz r c = record {
  running = wake_for_earlier_timer-thread clock q due delay ∙ r;
  covered = elim (wake_for_earlier_timer-wakes clock q due delay) [
    | inr w ↦ inl w
    | inl same ↦ elim c [
      | inl u ↦ inl (ap (λ p. p.ev_update) same ∙ u)
      | inr (e, all) ↦ elim (dec_le d due) [
        | yes late ↦ inr (rw same (e, all late))
        | no early ↦
            inl (wake_for_earlier_timer-early clock q due delay (λ z. nz (sym e ∙ z)) (omega arith))
      ]
    ]
  ];
}

-- A call of a client, with the clock of the call.
pub data Call : Type 0 where
  set : Clock → Option ℕ → ℤ → ℤ → ℕ → Call
  cancel : ℕ → Call

unfoldable call : Call → TimerQueue → TimerQueue
unfolding set_timer cancel_timer
call (set clock timer due_time period callback) q =
    (set_timer clock q timer due_time period callback).1
call (cancel timer) q = (cancel_timer q timer).1

unfoldable pub calls : List Call → TimerQueue → TimerQueue
unfolding call
calls [] q = q
calls (c ∷ cs) q = calls cs (call c q)

set_new-IsWaiting :
    (clock : Clock) (q : TimerQueue) (timer due period callback d : ℕ)
    → d ≢ 0
    → IsWaiting d q
    → IsWaiting d (set_new clock q timer due period callback)
unfolding set_new set_due
set_new-IsWaiting clock q timer due period callback d nz w =
    let t : Timer = record {
      ev_timer = timer;
      period = period;
      callback = callback;
      next_due_time = add_word clock.now due;
    } in
    let q' : TimerQueue = record q {
      queue = q.queue ++ t ∷ [];
      queued_timers = add_word q.queued_timers 1;
    } in
    subst
      (λ b. IsWaiting d (
        if b
        then wake_for_earlier_timer clock q' (add_word clock.now due) due
        else record q' { thread = true }))
      (sym w.running)
      (wake_for_earlier_timer-IsWaiting clock q' (add_word clock.now due) due d nz w.running
        (elim w.covered [
          | inl u ↦ inl u
          | inr (f, a) ↦ inr (f, λ h. AllFrom-append d q.queue t a h)
        ]))

set_timer_for-IsWaiting :
    (clock : Clock) (q : TimerQueue) (timer due period callback d : ℕ)
    → d ≢ 0
    → IsWaiting d q
    → IsWaiting d (set_timer_for clock q timer due period callback).1
unfolding set_timer_for set_new set_due
set_timer_for-IsWaiting clock q timer due period callback d nz w =
    elim (Bool-cases (is_queued timer q.queue)) [
      | inl e ↦ rw e (
          wake_for_earlier_timer-IsWaiting clock
            (record q { queue = set_found clock timer due q.queue }) (add_word clock.now due) due d
            nz w.running
            (elim w.covered [
              | inl u ↦ inl u
              | inr (f, a) ↦ inr (f, λ h. set_found-AllFrom clock timer due d q.queue a h)
            ]))
      | inr e ↦ rw e (set_new-IsWaiting clock q timer due period callback d nz w)
    ]

call-IsWaiting :
    (c : Call) (q : TimerQueue) (d : ℕ) → d ≢ 0 → IsWaiting d q → IsWaiting d (call c q)
unfolding call set_timer cancel_timer
call-IsWaiting (set clock none due period callback) q d nz w = w
call-IsWaiting (set clock (some timer) (negsuc n) period callback) q d nz w = w
call-IsWaiting (set clock (some timer) (pos n) (negsuc m) callback) q d nz w = w
call-IsWaiting (set clock (some timer) (pos n) (pos m) callback) q d nz w =
    elim (Bool-cases (n == 0)) [
      | inl e ↦ rw (e, call, set_timer) w
      | inr e ↦ rw (e, call, set_timer) (set_timer_for-IsWaiting clock q timer n m callback d nz w)
    ]
call-IsWaiting (cancel timer) q d nz w = elim (Bool-cases (is_queued timer q.queue)) [
  | inl e ↦
      rw (e, call, cancel_timer)
        record {
          running = w.running;
          covered = elim w.covered [
            | inl u ↦ inl u
            | inr (f, a) ↦ inr (f, remove_timer-AllFrom timer d q.queue a)
          ];
        }
  | inr e ↦ rw (e, call, cancel_timer) w
]

calls-IsWaiting :
    (cs : List Call) (q : TimerQueue) (d : ℕ) → d ≢ 0 → IsWaiting d q → IsWaiting d (calls cs q)
unfolding calls
calls-IsWaiting [] q d nz w = w
calls-IsWaiting (c ∷ cs) q d nz w = calls-IsWaiting cs (call c q) d nz (call-IsWaiting c q d nz w)

sleep_ms-bounds :
    (now min : ℕ)
    → now < min
    → min ≤ word_max
    → ((sleep_ms now min ≢ 0) × (now + sleep_ms now min ≤ min) × (sleep_ms now min < forever))
      × (add_word now (sleep_ms now min) ≡ now + sleep_ms now min)
unfolding sleep_ms
sleep_ms-bounds now min h w =
    let small : now + sleep_ms now min ≤ min = ground arith in
    ((ground arith, small, ground arith), omega arith)

-- The sleep is for ever where there is no timer, and otherwise it ends at its deadline.
abbrev pub EndsAt : ℕ → List Timer → ℕ → ℕ → Type 0
EndsAt now [] ms deadline = ms ≡ forever
EndsAt now (t ∷ ts) ms deadline = (ms < forever) × (deadline ≡ now + ms)

-- GetSleepTime either asks for no wait or leaves a wait that covers every timer.
abbrev Sleeps : Clock → List Timer → ℕ × TimerQueue → Type 0
Sleeps clock ts (ms, q) =
    (ms ≡ 0)
    ⊎ (EndsAt clock.now ts ms q.wake_deadline × (q.wake_deadline ≢ 0) × IsWaiting q.wake_deadline q)

sleep_until-Sleeps :
    (clock : Clock) (q : TimerQueue) (t : Timer) (ts : List Timer) (min : ℕ)
    → q.thread ≡ true
    → min ≤ word_max
    → AllFrom min q.queue
    → Sleeps clock (t ∷ ts) (sleep_until clock q min)
unfolding sleep_until
sleep_until-Sleeps clock q t ts min r h a = elim (dec_le min clock.now) [
  | yes past ↦ subst (Sleeps clock (t ∷ ts)) (sym (sleep_until-past past)) (inl refl)
  | no ahead ↦
      let (b, e) = sleep_ms-bounds clock.now min (omega arith) h in
      let ms : ℕ = sleep_ms clock.now min in
      subst (Sleeps clock (t ∷ ts)) (sym (sleep_until-ahead ahead)) (
        inr (
          (b.2, e),
          λ z. b.0 (omega arith),
          record {
            running = r;
            covered = inr (refl, AllFrom-mono (add_word clock.now ms) min q.queue (omega arith) a);
          },
        ))
]
  where
    sleep_until-past :
        min ≤ clock.now → sleep_until clock q min ≡ (0, record q { wake_deadline = 0 })
    sleep_until-past past = ground arith

    sleep_until-ahead :
        (min ≤ clock.now → ⊥)
        → let ms = sleep_ms clock.now min in
          sleep_until clock q min ≡ (
            ms,
            record q {
              wake_deadline = add_word clock.now ms;
              wake_steady_deadline = clock.steady + ms;
            },
          )
    sleep_until-ahead ahead = ground arith

get_sleep_time-Sleeps :
    (clock : Clock) (q : TimerQueue)
    → q.thread ≡ true
    → Sleeps clock q.queue (get_sleep_time clock q)
unfolding get_sleep_time sleep_of
get_sleep_time-Sleeps clock q r = sleep_of-Sleeps q.queue refl
  where
    sleep_of-Sleeps : (ts : List Timer) → q.queue ≡ ts → Sleeps clock ts (sleep_of clock q ts)
    sleep_of-Sleeps [] e = inr (
      refl,
      λ z. omega arith,
      record { running = r; covered = inr (refl, subst (AllFrom word_max) (sym e) tt) },
    )
    sleep_of-Sleeps (t ∷ ts) e =
        sleep_until-Sleeps clock q t ts (earliest word_max (t ∷ ts)) r
          (earliest-le word_max (t ∷ ts))
          (subst (AllFrom (earliest word_max (t ∷ ts))) (sym e)
            (earliest-AllFrom word_max (t ∷ ts)))

-- Let the worker run and compute its sleep, and then let clients make any calls of SetTimer and
-- CancelTimer while it sleeps. Either the sleep is 0, or it is for ever exactly where there
-- was no timer and otherwise ends at its deadline, the worker still runs, and either it has been
-- woken by EvUpdate or its deadline stands and no timer of the queue is due before it.
pub calls-get_sleep_time :
    (clock : Clock) (q : TimerQueue) (cs : List Call)
    → q.thread ≡ true
    → let (ms, asleep) = get_sleep_time clock q in
      (ms ≡ 0)
      ⊎ (EndsAt clock.now q.queue ms asleep.wake_deadline
          × IsWaiting asleep.wake_deadline (calls cs asleep))
calls-get_sleep_time clock q cs r = elim (get_sleep_time-Sleeps clock q r) [
  | inl z ↦ inl z
  | inr (m, nz, w) ↦
      let asleep : TimerQueue = (get_sleep_time clock q).1 in
      inr (m, calls-IsWaiting cs asleep asleep.wake_deadline nz w)
]
