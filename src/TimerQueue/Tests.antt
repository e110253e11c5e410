-- ===== src/TimerQueue/Tests.antt =====
-- A few timers in TimerQueue.cpp.
use syncme.Prelude.{true, false, some, [], ◌∷◌, ◌≡◌, refl, arith, ◌⊎◌, replicate, map, pos}
use syncme.TimerQueue.{TimerQueue, Clock, is_queued, get_sleep_time, set_timer_for, signall_timers}
use syncme.TimerQueue.Wake.{EndsAt, set, cancel, calls, IsWaiting, calls-get_sleep_time}
use syncme.TimerQueue.Fire.{settings, signall_timers-settle, settings-set_timer_for}

abbrev clock : Clock
clock = record { now = 1000; steady = 10 }

-- One timer that is due, with a period, and one that is not.
abbrev two : TimerQueue
two = record {
  ev_stop = false;
  ev_update = false;
  thread = true;
  queue =
      record { ev_timer = 1; period = 20; callback = 0; next_due_time = 990 }
      ∷ record { ev_timer = 2; period = 0; callback = 7; next_due_time = 1500 }
      ∷ [];
  queued_timers = 2;
  wake_deadline = 0;
  wake_steady_deadline = 0;
}

-- The first timer alone is not due any more.
abbrev later : TimerQueue
later = record two {
  queue = record { ev_timer = 2; period = 0; callback = 7; next_due_time = 1500 } ∷ [];
}

sleep-test : (get_sleep_time clock later).0 ≡ 500
unfolding get_sleep_time
sleep-test = refl

calls-get_sleep_time_example :
    let (ms, asleep) = get_sleep_time clock later in
    (ms ≡ 0)
    ⊎ (EndsAt 1000 later.queue ms asleep.wake_deadline
        × IsWaiting asleep.wake_deadline
            (calls (set clock (some 5) (pos 100) (pos 0) 0 ∷ cancel 2 ∷ []) asleep))
calls-get_sleep_time_example =
    calls-get_sleep_time clock later (set clock (some 5) (pos 100) (pos 0) 0 ∷ cancel 2 ∷ []) refl

signall_timers-settle_example :
    let (fs, q') = signall_timers (replicate 3 (1000, clock)) two in
    (fs ≡ record { ev_timer = 1; callback = 0 } ∷ [])
    × (q'.queue
        ≡ record { ev_timer = 2; period = 0; callback = 7; next_due_time = 1500 }
          ∷ record { ev_timer = 1; period = 20; callback = 0; next_due_time = 1020 }
          ∷ [])
signall_timers-settle_example = signall_timers-settle clock two (omega arith, (omega arith, tt))

settings-set_timer_for_example :
    map settings (set_timer_for clock two 1 30 5 9).1.queue ≡ (1, 20, 0) ∷ (2, 0, 7) ∷ []
unfolding is_queued
settings-set_timer_for_example = settings-set_timer_for clock two 1 30 5 9
