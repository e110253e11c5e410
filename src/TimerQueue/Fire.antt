-- ===== src/TimerQueue/Fire.antt =====
-- The timers that the rounds of SignallTimers fire, and what SetTimer changes in the queue.
use syncme.Prelude.{
  ℕ, zero, suc, ◌+◌, ◌≤◌, ◌<◌, ◌≡◌, refl, ap, sym, ◌∙◌, subst, Bool, true, false, none, some, List,
  [], ◌∷◌, ◌++◌, append-nil, append_assoc, arith, if◌then◌else◌, Bool-cases, inl, inr, ◌==◌, leb,
  add_word, sub_word, word_max, dec_le, map, length, replicate,
}
use syncme.TimerQueue.{
  Timer, TimerQueue, Clock, Fired, set_due, find_due, signall_due, signall_one, signall_timers,
  set_timer_for, set_new, set_found, is_queued, wake_for_earlier_timer,
}

-- No timer is due at `now`.
abbrev AllLate : ℕ → List Timer → Type 0
AllLate now [] = Unit {0}
AllLate now (t ∷ ts) = (now < t.next_due_time) × AllLate now ts

AllLate-append :
    (now : ℕ) (ts us : List Timer) → AllLate now ts → AllLate now us → AllLate now (ts ++ us)
AllLate-append now [] us a b = b
AllLate-append now (t ∷ ts) us a b = (a.0, AllLate-append now ts us a.1 b)

-- The periods reach no further than the clock's range.
abbrev pub AllFit : ℕ → List Timer → Type 0
AllFit now [] = Unit {0}
AllFit now (t ∷ ts) = (now + t.period ≤ word_max) × AllFit now ts

-- What the worker owes at `now`: the timers that are due are fired in their order, the others wait,
-- and those with a period are due again after it.
abbrev pub owed : ℕ → List Timer → List Fired
owed now [] = []
owed now (t ∷ ts) =
    if leb t.next_due_time now
    then record { ev_timer = t.ev_timer; callback = t.callback } ∷ owed now ts
    else owed now ts

abbrev pub waiting : ℕ → List Timer → List Timer
waiting now [] = []
waiting now (t ∷ ts) = if leb t.next_due_time now then waiting now ts else t ∷ waiting now ts

abbrev pub again : ℕ → Timer → List Timer
again now t = if t.period == 0 then [] else record t { next_due_time = now + t.period } ∷ []

abbrev pub rescheduled : ℕ → List Timer → List Timer
rescheduled now [] = []
rescheduled now (t ∷ ts) =
    if leb t.next_due_time now then again now t ++ rescheduled now ts else rescheduled now ts

again-AllLate : (now : ℕ) (t : Timer) → AllLate now (again now t)
again-AllLate now t = elim (Bool-cases (t.period == 0)) [
  | inl e ↦ rw e tt
  | inr e ↦ rw e (ground arith, tt)
]

find_due-none : (now : ℕ) (ts : List Timer) → AllLate now ts → find_due now ts ≡ none
unfolding find_due
find_due-none now [] a = refl
find_due-none now (t ∷ ts) a =
    let late : leb t.next_due_time now ≡ false = ground (arith, a.0) in
    rw (late, find_due-none now ts a.1) refl

find_due-first :
    (now : ℕ) (ks : List Timer) (t : Timer) (ts : List Timer)
    → AllLate now ks
    → t.next_due_time ≤ now
    → find_due now (ks ++ t ∷ ts) ≡ some (t, ks ++ ts)
unfolding find_due
find_due-first now [] t ts a h =
    let due : leb t.next_due_time now ≡ true = ground arith in rw due refl
find_due-first now (k ∷ ks) t ts a h =
    let late : leb k.next_due_time now ≡ false = ground (arith, a.0) in
    rw (late, find_due-first now ks t ts a.1 h) refl

-- What one round leaves.
fired_queue : Clock → TimerQueue → Timer → List Timer → TimerQueue
unfolding set_due
fired_queue clock q t rest =
    if t.period == 0
    then record q { queue = rest; queued_timers = sub_word q.queued_timers 1 }
    else record q {
      queue = rest ++ set_due clock t t.period ∷ [];
      queued_timers = add_word (sub_word q.queued_timers 1) 1;
    }

queue-fired_queue :
    (clock : Clock) (q : TimerQueue) (t : Timer) (rest : List Timer)
    → clock.now + t.period ≤ word_max
    → (fired_queue clock q t rest).queue ≡ rest ++ again clock.now t
unfolding fired_queue set_due
queue-fired_queue clock q t rest h = elim (Bool-cases (t.period == 0)) [
  | inl e ↦ rw e (sym (append-nil rest))
  | inr e ↦
      let same : add_word clock.now t.period ≡ clock.now + t.period = omega arith in
      rw (e, same) refl
]

signall_one-first :
    (clock : Clock) (q : TimerQueue) (ks : List Timer) (t : Timer) (ts : List Timer)
    → q.queue ≡ ks ++ t ∷ ts
    → AllLate clock.now ks
    → t.next_due_time ≤ clock.now
    → signall_one clock.now clock q
      ≡ some (
        record { ev_timer = t.ev_timer; callback = t.callback },
        fired_queue clock q t (ks ++ ts),
      )
unfolding signall_one signall_due fired_queue set_due
signall_one-first clock q ks t ts e a h =
    ap (λ us. signall_due clock q (find_due clock.now us)) e
    ∙ ap (signall_due clock q) (find_due-first clock.now ks t ts a h)

signall_one-none :
    (clock : Clock) (q : TimerQueue)
    → AllLate clock.now q.queue
    → signall_one clock.now clock q ≡ none
unfolding signall_one signall_due
signall_one-none clock q a = ap (signall_due clock q) (find_due-none clock.now q.queue a)

signall_timers-none :
    (clock : Clock) (cs : List (ℕ × Clock)) (q : TimerQueue)
    → signall_one clock.now clock (record q { wake_deadline = 0 }) ≡ none
    → signall_timers ((clock.now, clock) ∷ cs) q ≡ ([], record q { wake_deadline = 0 })
unfolding signall_timers
signall_timers-none clock cs q e =
    ap
      (λ o. elim o [
        | none ↦ ([], record q { wake_deadline = 0 })
        | some (f, q') ↦ let (fs, q'') = signall_timers cs q' in (f ∷ fs, q'')
      ])
      e

signall_timers-some :
    (clock : Clock) (cs : List (ℕ × Clock)) (q : TimerQueue) (f : Fired) (q' : TimerQueue)
    → signall_one clock.now clock (record q { wake_deadline = 0 }) ≡ some (f, q')
    → signall_timers ((clock.now, clock) ∷ cs) q
      ≡ (f ∷ (signall_timers cs q').0, (signall_timers cs q').1)
unfolding signall_timers
signall_timers-some clock cs q f q' e =
    ap
      (λ o. elim o [
        | none ↦ ([], record q { wake_deadline = 0 })
        | some (f, q') ↦ let (fs, q'') = signall_timers cs q' in (f ∷ fs, q'')
      ])
      e

-- What the rounds from a queue of timers that are kept, timers to look at and timers that are
-- scheduled again come to.
abbrev Settles : Clock → List Timer → List Timer → List Timer → List Fired × TimerQueue → Type 0
Settles clock ks ts late (fs, q) =
    (fs ≡ owed clock.now ts)
    × (q.queue ≡ (ks ++ waiting clock.now ts) ++ (late ++ rescheduled clock.now ts))

Settles-due :
    (clock : Clock) (ks : List Timer) (t : Timer) (ts late : List Timer)
    (r : List Fired × TimerQueue)
    → t.next_due_time ≤ clock.now
    → Settles clock ks ts (late ++ again clock.now t) r
    → Settles clock ks
        (t ∷ ts)
        late
        (record { ev_timer = t.ev_timer; callback = t.callback } ∷ r.0, r.1)
Settles-due clock ks t ts late r due s =
    let is_due : leb t.next_due_time clock.now ≡ true = ground arith in
    rw is_due (
      ap (λ fs. record { ev_timer = t.ev_timer; callback = t.callback } ∷ fs) s.0,
      s.1
          ∙ ap (λ us. (ks ++ waiting clock.now ts) ++ us)
              (append_assoc late (again clock.now t) (rescheduled clock.now ts)),
    )

Settles-late :
    (clock : Clock) (ks : List Timer) (t : Timer) (ts late : List Timer)
    (r : List Fired × TimerQueue)
    → (t.next_due_time ≤ clock.now → ⊥)
    → Settles clock (ks ++ t ∷ []) ts late r
    → Settles clock ks (t ∷ ts) late r
Settles-late clock ks t ts late r ahead s =
    let is_late : leb t.next_due_time clock.now ≡ false = ground arith in
    rw is_late (
      s.0,
      s.1
          ∙ ap (λ us. us ++ (late ++ rescheduled clock.now ts))
              (append_assoc ks (t ∷ []) (waiting clock.now ts)),
    )

signall_timers-Settles :
    (clock : Clock) (n : ℕ) (q : TimerQueue) (ks ts late : List Timer)
    → q.queue ≡ ks ++ (ts ++ late)
    → AllLate clock.now ks
    → AllLate clock.now late
    → AllFit clock.now ts
    → length ts < n
    → Settles clock ks ts late (signall_timers (replicate n (clock.now, clock)) q)
signall_timers-Settles clock zero q ks ts late e a b f h = absurd (omega (arith, h))
signall_timers-Settles clock (suc n) q ks [] late e a b f h =
    let calm =
      signall_one-none clock (record q { wake_deadline = 0 })
        (subst (AllLate clock.now) (sym e) (AllLate-append clock.now ks late a b)) in
    subst (Settles clock ks [] late)
      (sym (signall_timers-none clock (replicate n (clock.now, clock)) q calm))
      (rw (append-nil ks, append-nil late) (refl, e))
signall_timers-Settles clock (suc n) q ks (t ∷ ts) late e a b f h =
    elim (dec_le t.next_due_time clock.now) [
      | yes due ↦
          let q0 : TimerQueue = record q { wake_deadline = 0 } in
          let q1 : TimerQueue = fired_queue clock q0 t (ks ++ (ts ++ late)) in
          let first = signall_one-first clock q0 ks t (ts ++ late) e a due in
          let left = queue-fired_queue clock q0 t (ks ++ (ts ++ late)) f.0 in
          subst (Settles clock ks (t ∷ ts) late)
            (sym (signall_timers-some clock (replicate n (clock.now, clock)) q _ q1 first))
            (Settles-due clock ks t ts late (signall_timers (replicate n (clock.now, clock)) q1) due
              (signall_timers-Settles clock n q1 ks ts (late ++ again clock.now t)
                (left ∙ rw (append_assoc, append_assoc) refl) a
                (AllLate-append clock.now late (again clock.now t) b (again-AllLate clock.now t))
                f.1 (omega (arith, h))))
      | no ahead ↦
          Settles-late clock ks t ts late (signall_timers (replicate (suc n) (clock.now, clock)) q)
            ahead
            (signall_timers-Settles clock (suc n) q (ks ++ t ∷ []) ts late
              (e ∙ sym (append_assoc ks (t ∷ []) (ts ++ late)))
              (AllLate-append clock.now ks (t ∷ []) a (omega arith, tt)) b f.1 (omega (arith, h)))
    ]

-- The rounds of SignallTimers while the clock stands still, one more than the queue has timers:
-- they call back and signal exactly the timers that are due, each once and in the queue's order;
-- the others stay, and the periodic ones that were due are due again a period later. The sums of
-- the clock and the periods do not wrap.
pub signall_timers-settle :
    (clock : Clock) (q : TimerQueue)
    → AllFit clock.now q.queue
    → let (fs, q') = signall_timers (replicate (suc (length q.queue)) (clock.now, clock)) q in
      (fs ≡ owed clock.now q.queue)
      × (q'.queue ≡ waiting clock.now q.queue ++ rescheduled clock.now q.queue)
signall_timers-settle clock q f =
    signall_timers-Settles clock (suc (length q.queue)) q [] q.queue [] (sym (append-nil q.queue))
      tt tt f (omega arith)

-- A timer's settings are its name, its period and its callback.
abbrev pub settings : Timer → ℕ × ℕ × ℕ
settings t = (t.ev_timer, t.period, t.callback)

map-settings-set_found :
    (clock : Clock) (timer due : ℕ) (ts : List Timer)
    → map settings (set_found clock timer due ts) ≡ map settings ts
unfolding set_found set_due
map-settings-set_found clock timer due [] = refl
map-settings-set_found clock timer due (t ∷ ts) = elim (Bool-cases (t.ev_timer == timer)) [
  | inl e ↦ rw e refl
  | inr e ↦ rw e (ap (λ us. settings t ∷ us) (map-settings-set_found clock timer due ts))
]

map-append : (f : Timer → ℕ × ℕ × ℕ) (ts us : List Timer) → map f (ts ++ us) ≡ map f ts ++ map f us
map-append f [] us = refl
map-append f (t ∷ ts) us = ap (λ r. f t ∷ r) (map-append f ts us)

queue-wake_for_earlier_timer :
    (clock : Clock) (q : TimerQueue) (due delay : ℕ)
    → (wake_for_earlier_timer clock q due delay).queue ≡ q.queue
unfolding wake_for_earlier_timer
queue-wake_for_earlier_timer clock q due delay = ground arith

queue-set_new :
    (clock : Clock) (q : TimerQueue) (timer due period callback : ℕ)
    → map settings (set_new clock q timer due period callback).queue
      ≡ map settings q.queue ++ (timer, period, callback) ∷ []
unfolding set_new set_due
queue-set_new clock q timer due period callback = appended q.thread
  where
    t : Timer
    t = record {
      ev_timer = timer;
      period = period;
      callback = callback;
      next_due_time = add_word clock.now due;
    }

    q' : TimerQueue
    q' = record q { queue = q.queue ++ t ∷ []; queued_timers = add_word q.queued_timers 1 }

    appended :
        (b : Bool)
        → map settings
            (if b
              then wake_for_earlier_timer clock q' (add_word clock.now due) due
              else record q' { thread = true }).queue
          ≡ map settings q.queue ++ (timer, period, callback) ∷ []
    appended true =
        ap (map settings) (queue-wake_for_earlier_timer clock q' (add_word clock.now due) due)
        ∙ map-append settings q.queue (t ∷ [])
    appended false = map-append settings q.queue (t ∷ [])

-- SetTimer with times that are not negative changes no timer's period or callback: for a handle
-- that the queue knows already its new period and callback are dropped, and a handle that is new
-- is appended with them.
pub settings-set_timer_for :
    (clock : Clock) (q : TimerQueue) (timer due period callback : ℕ)
    → map settings (set_timer_for clock q timer due period callback).1.queue ≡ (
        if is_queued timer q.queue
        then map settings q.queue
        else map settings q.queue ++ (timer, period, callback) ∷ [])
unfolding set_timer_for
settings-set_timer_for clock q timer due period callback =
    elim (Bool-cases (is_queued timer q.queue)) [
      | inl e ↦ rw e (
          ap (map settings) (
            queue-wake_for_earlier_timer clock
              (record q { queue = set_found clock timer due q.queue }) (add_word clock.now due) due)
          ∙ map-settings-set_found clock timer due q.queue)
      | inr e ↦ rw e (queue-set_new clock q timer due period callback)
    ]
