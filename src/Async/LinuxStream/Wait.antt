-- ===== src/Async/LinuxStream/Wait.antt =====
-- Wait of Async/AsyncStreamLinux.cpp. The answers of epoll_wait and of the clock are the rounds of a
-- call; a time of the clock is in nanoseconds. Wait may go on after the rounds that are given.
use syncme.Prelude.{
  ℕ, ◌+◌, ◌-◌, ◌*◌, ◌/◌, ◌≡◌, ◌≤◌, ◌<◌, refl, ap, ◌∙◌, arith, Bool, true, false, not, ◌&&◌, Option,
  none, some, List, [], ◌∷◌, ◌++◌, ◌==◌, leb, ◌⊎◌, inl, inr, if◌then◌else◌,
}
use syncme.Async.LinuxStream.{
  eintr, EpollEvent, Kernel, Result, LinuxAsyncEngine, pop_pending_result,
}
use syncme.Async.LinuxStream.Calls.{no_result, int_max, nanoseconds, process_epoll_event}
use syncme.Async.LinuxStream.Runs.{
  report, Call, call_report, call_event, call_pop, call_fail, perform, run,
}

-- The clock before epoll_wait, and what epoll_wait answers to its timeout (`none` is -1): errno, or
-- the events.
pub record Round : Type 0 where
  pub now : ℕ
  pub epoll_wait : Option ℕ → ℕ ⊎ List EpollEvent

-- What Wait returns, with its result.
pub data Waited : Type 0 where
  returned : Bool → Result → Waited
  waiting : Waited

-- `waitTimeout` after the first round.
unfoldable pub wait_timeout : ℕ → ℕ → ℕ
wait_timeout deadline now =
    let remaining : ℕ = (deadline - now) / nanoseconds in
    if leb int_max remaining then int_max else remaining + 1

module _ {K : Type 0} (sys : Kernel K) where
  -- epoll_wait disarms the descriptors that it reports.
  abbrev report_all : List EpollEvent → LinuxAsyncEngine K → LinuxAsyncEngine K
  report_all [] s = s
  report_all (ev ∷ evs) s = report_all evs (report ev.fd s)

  abbrev process_all : List EpollEvent → LinuxAsyncEngine K → LinuxAsyncEngine K
  process_all [] s = s
  process_all (ev ∷ evs) s = process_all evs (process_epoll_event sys ev s)

  -- PopPendingResult at the end of a round, and before the first.
  unfoldable pub after_pop :
      (LinuxAsyncEngine K → Waited × LinuxAsyncEngine K)
      → Option Result × LinuxAsyncEngine K
      → Waited × LinuxAsyncEngine K
  after_pop next (none, s) = next s
  after_pop next (some r, s) = (returned true r, s)

  unfoldable pub answered :
      (LinuxAsyncEngine K → Waited × LinuxAsyncEngine K)
      → ℕ ⊎ List EpollEvent
      → LinuxAsyncEngine K
      → Waited × LinuxAsyncEngine K
  unfolding after_pop pop_pending_result
  answered next (inl errno) s =
      let again : Waited × LinuxAsyncEngine K = next s in
      if errno == eintr
      then again
      else (returned false (record no_result { error = errno }), record s { failed = true })
  answered next (inr []) s = (returned true no_result, s)
  answered next (inr (ev ∷ evs)) s =
      after_pop next (pop_pending_result (process_all (ev ∷ evs) (report_all (ev ∷ evs) s)))

  -- The loop; `first` says whether no round was made yet.
  unfoldable pub wait_rounds :
      Option ℕ → ℕ → Bool → List Round → LinuxAsyncEngine K → Waited × LinuxAsyncEngine K
  unfolding answered wait_timeout
  wait_rounds timeout deadline first [] s = (waiting, s)
  wait_rounds none deadline first (round ∷ rounds) s =
      answered (wait_rounds none deadline false rounds) (round.epoll_wait none) s
  wait_rounds (some timeout) deadline first (round ∷ rounds) s =
      let asked : ℕ = if first then timeout else wait_timeout deadline round.now in
      let waited : Waited × LinuxAsyncEngine K =
        answered (wait_rounds (some timeout) deadline false rounds) (round.epoll_wait (some asked))
          s in
      if not first && leb deadline round.now then (returned true no_result, s) else waited

  abbrev deadline_of : Option ℕ → ℕ → ℕ
  deadline_of none start = 0
  deadline_of (some timeout) start = start + timeout * nanoseconds

  -- Wait, begun at `start`; a timeout of `none` is negative.
  unfoldable pub wait : Option ℕ → ℕ → List Round → LinuxAsyncEngine K → Waited × LinuxAsyncEngine K
  unfolding wait_rounds after_pop pop_pending_result
  wait timeout start rounds s =
      after_pop (wait_rounds timeout (deadline_of timeout start) true rounds) (pop_pending_result s)

-- In every round of Wait but the first, before its deadline and with a timeout that fits in an int,
-- epoll_wait is asked to wait at least until the deadline, at least for a millisecond, and never
-- more than a millisecond beyond the deadline.
pub wait_timeout_lem :
    (start timeout now : ℕ)
    → timeout ≤ int_max
    → start ≤ now
    → now < start + timeout * nanoseconds
    → let deadline = start + timeout * nanoseconds in
      let asked = wait_timeout deadline now in
      (0 < asked)
      × (asked ≤ int_max)
      × (deadline ≤ now + asked * nanoseconds)
      × (now + asked * nanoseconds ≤ deadline + nanoseconds)
unfolding wait_timeout
wait_timeout_lem start timeout now h k l = ground arith

module _ {K : Type 0} (sys : Kernel K) where
  -- Some run of the calls leads from `s` to `t`.
  abbrev pub Runs : LinuxAsyncEngine K → LinuxAsyncEngine K → Type 0
  Runs s t = (cs : List Call) × (run sys cs s ≡ t)

  run-append :
      (cs ds : List Call) (s : LinuxAsyncEngine K)
      → run sys (cs ++ ds) s ≡ run sys ds (run sys cs s)
  run-append [] ds s = refl
  run-append (c ∷ cs) ds s = run-append cs ds (perform sys c s)

  Runs-trans : (s t u : LinuxAsyncEngine K) → Runs s t → Runs t u → Runs s u
  Runs-trans s t u (cs, e) (ds, d) = (cs ++ ds, run-append cs ds s ∙ ap (run sys ds) e ∙ d)

  report_all-Runs : (evs : List EpollEvent) (s : LinuxAsyncEngine K) → Runs s (report_all sys evs s)
  unfolding perform
  report_all-Runs [] s = ([], refl)
  report_all-Runs (ev ∷ evs) s =
      Runs-trans s (perform sys (call_report ev.fd) s) _ (call_report ev.fd ∷ [], refl)
        (report_all-Runs evs _)

  process_all-Runs :
      (evs : List EpollEvent) (s : LinuxAsyncEngine K) → Runs s (process_all sys evs s)
  unfolding perform
  process_all-Runs [] s = ([], refl)
  process_all-Runs (ev ∷ evs) s =
      Runs-trans s (perform sys (call_event ev) s) _ (call_event ev ∷ [], refl)
        (process_all-Runs evs _)

  after_pop-Runs :
      (next : LinuxAsyncEngine K → Waited × LinuxAsyncEngine K) (s : LinuxAsyncEngine K)
      (popped : Option Result × LinuxAsyncEngine K)
      → Runs s popped.1
      → ((t : LinuxAsyncEngine K) → Runs t (next t).1)
      → Runs s (after_pop sys next popped).1
  unfolding after_pop
  after_pop-Runs next s (none, t) h k = Runs-trans s t (next t).1 h (k t)
  after_pop-Runs next s (some r, t) h k = h

  pop_pending_result-Runs : (s : LinuxAsyncEngine K) → Runs s (pop_pending_result s).1
  unfolding perform
  pop_pending_result-Runs s = (call_pop ∷ [], refl)

  if-Runs :
      (s : LinuxAsyncEngine K) (b : Bool) (t u : Waited × LinuxAsyncEngine K)
      → Runs s t.1
      → Runs s u.1
      → Runs s (if b then t else u).1
  if-Runs s true t u h k = h
  if-Runs s false t u h k = k

  answered-Runs :
      (next : LinuxAsyncEngine K → Waited × LinuxAsyncEngine K) (answer : ℕ ⊎ List EpollEvent)
      (s : LinuxAsyncEngine K)
      → ((t : LinuxAsyncEngine K) → Runs t (next t).1)
      → Runs s (answered sys next answer s).1
  unfolding answered perform
  answered-Runs next (inl errno) s k =
      if-Runs s (errno == eintr) (next s) _ (k s) (call_fail ∷ [], refl)
  answered-Runs next (inr []) s k = ([], refl)
  answered-Runs next (inr (ev ∷ evs)) s k =
      let t : LinuxAsyncEngine K = report_all sys (ev ∷ evs) s in
      let u : LinuxAsyncEngine K = process_all sys (ev ∷ evs) t in
      after_pop-Runs next s (pop_pending_result u)
        (Runs-trans s t _ (report_all-Runs (ev ∷ evs) s)
          (Runs-trans t u _ (process_all-Runs (ev ∷ evs) t) (pop_pending_result-Runs u)))
        k

  wait_rounds-Runs :
      (timeout : Option ℕ) (deadline : ℕ) (first : Bool) (rounds : List Round)
      (s : LinuxAsyncEngine K)
      → Runs s (wait_rounds sys timeout deadline first rounds s).1
  unfolding wait_rounds
  wait_rounds-Runs timeout deadline first [] s = ([], refl)
  wait_rounds-Runs none deadline first (round ∷ rounds) s =
      answered-Runs (wait_rounds sys none deadline false rounds) (round.epoll_wait none) s
        (wait_rounds-Runs none deadline false rounds)
  wait_rounds-Runs (some timeout) deadline first (round ∷ rounds) s =
      if-Runs s (not first && leb deadline round.now) (returned true no_result, s) _ ([], refl)
        (answered-Runs (wait_rounds sys (some timeout) deadline false rounds)
          (round.epoll_wait (some (if first then timeout else wait_timeout deadline round.now))) s
          (wait_rounds-Runs (some timeout) deadline false rounds))

-- Whatever epoll_wait and the clock answer, Wait leaves the engine as some run of the calls does, so
-- that what holds after every run of calls holds after Wait.
pub wait-Runs :
    {K : Type 0} (sys : Kernel K) (timeout : Option ℕ) (start : ℕ) (rounds : List Round)
    (s : LinuxAsyncEngine K)
    → Runs sys s (wait sys timeout start rounds s).1
unfolding wait
wait-Runs sys timeout start rounds s =
    after_pop-Runs sys (wait_rounds sys timeout (deadline_of sys timeout start) true rounds) s
      (pop_pending_result s) (pop_pending_result-Runs sys s)
      (wait_rounds-Runs sys timeout (deadline_of sys timeout start) true rounds)
