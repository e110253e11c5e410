-- ===== src/Async/LinuxStream/Results/Run.antt =====
-- Every call of Async/AsyncStreamLinux.cpp keeps the order of the results.
use syncme.Prelude.{
  ℕ, ◌≡◌, ◌≢◌, ◌<◌, refl, sym, ap, ◌∙◌, arith, Bool, true, false, Option, none, some, List, [], ◌∷◌,
  ◌++◌, append_assoc, ◌==◌,
}
use syncme.Async.LinuxStream.{
  Kernel, Socket, linux_async_stream, Result, LinuxAsyncEngine, put, lookup, handle, is_valid,
  pop_from, pop_pending_result, signal_stop_event, set_flag, set_non_blocking, make_event,
}
use syncme.Async.LinuxStream.Calls.{add_entry, add_found, add_fd, add, remove_entry}
use syncme.Async.LinuxStream.Runs.{
  is_item, rebind_handles, rebind_socket, close, report, entry_of, remove, wake_up, stop_engine,
  Call, call_add, call_rebind, call_remove, call_start_read, call_start_write, call_close,
  call_report, call_event, call_pop, call_wake, call_stop, call_fail, perform, run,
  linux_async_engine, open_stop_event, register_stop_event, empty_engine,
}
use syncme.Async.LinuxStream.Results.{
  Extends, AreOpen, still-Extends, Extends-refl, Extends-trans, put-Extends, if-Extends,
}
use syncme.Async.LinuxStream.Results.Events.{
  kernel-Extends, start_read-Extends, start_write-Extends, process_epoll_event-Extends,
}

module _ {K : Type 0} (sys : Kernel K) where
  add_entry-Extends :
      (skt context fd : ℕ) (answer : Option ℕ) (s : LinuxAsyncEngine K)
      → Extends s (add_entry sys skt context fd answer s).1
  unfolding add_entry
  add_entry-Extends skt context fd (some errno) s = Extends-refl s
  add_entry-Extends skt context fd none s =
      still-Extends s _ refl refl (omega arith) (λ p l e. ground arith)

  add_found-Extends :
      (skt context fd : ℕ) (found : Option ℕ) (s : LinuxAsyncEngine K)
      → Extends s (add_found sys skt context fd found s).1
  unfolding add_found
  add_found-Extends skt context fd (some p) s = Extends-refl s
  add_found-Extends skt context fd none s =
      let (answer, k) = sys.ctl_add s.kernel fd (make_event (linux_async_stream skt context)) in
      Extends-trans s (record s { kernel = k }) _ (kernel-Extends k s)
        (add_entry-Extends skt context fd answer (record s { kernel = k }))

  set_non_blocking-Extends :
      (fd : ℕ) (s : LinuxAsyncEngine K) → Extends s (set_non_blocking sys fd s).1
  unfolding set_non_blocking
  set_non_blocking-Extends fd s =
      let (flag, k) = sys.get_nonblock s.kernel fd in
      Extends-trans s (record s { kernel = k }) _ (kernel-Extends k s)
        (set flag (record s { kernel = k }))
    where
      set : (o : Option Bool) (s : LinuxAsyncEngine K) → Extends s (set_flag sys fd o s).1
      set none s = Extends-refl s
      set (some true) s = Extends-refl s
      set (some false) s = kernel-Extends _ s

  add-Extends :
      (skt : Option ℕ) (context : ℕ) (s : LinuxAsyncEngine K) → Extends s (add sys skt context s).1
  unfolding add add_fd
  add-Extends none context s = Extends-refl s
  add-Extends (some skt) context s =
      if-Extends s (is_valid s) (add_fd sys skt context (s.sockets skt).handle s) (none, s)
        (at_handle (s.sockets skt).handle) (Extends-refl s)
    where
      at_handle : (fd : Option ℕ) → Extends s (add_fd sys skt context fd s).1
      at_handle none = Extends-refl s
      at_handle (some fd) =
          let (worked, t) = set_non_blocking sys fd s in
          Extends-trans s t _ (set_non_blocking-Extends fd s) (
            if-Extends t worked (add_found sys skt context fd (lookup fd t.entries) t) (none, t)
              (add_found-Extends skt context fd (lookup fd t.entries) t) (Extends-refl t))

  remove_entry-Extends :
      (p : ℕ) (o : Option ℕ) (s : LinuxAsyncEngine K) → Extends s (remove_entry sys p o s).1
  unfolding remove_entry
  remove_entry-Extends p none s = Extends-refl s
  remove_entry-Extends p (some fd) s =
      still-Extends s _ refl refl (omega arith) (λ q l e. ground arith)

  rebind_handles-Extends :
      (p skt : ℕ) (old new : Option ℕ) (s : LinuxAsyncEngine K)
      → Extends s (rebind_handles p skt old new s).1
  unfolding rebind_handles
  rebind_handles-Extends p skt none new s = Extends-refl s
  rebind_handles-Extends p skt (some old) none s = Extends-refl s
  rebind_handles-Extends p skt (some old) (some new) s =
      if-Extends s ((s.streams p).skt == skt) (true, s) _ (Extends-refl s)
        (if-Extends s (old == new) _ (false, s)
          (if-Extends s (is_item p (lookup old s.entries))
            (true, put p (record (s.streams p) { skt = skt }) s) (false, s)
            (put-Extends p _ s (λ e. e)) (Extends-refl s))
          (Extends-refl s))

  rebind_socket-Extends :
      (p : ℕ) (skt : Option ℕ) (s : LinuxAsyncEngine K) → Extends s (rebind_socket p skt s).1
  unfolding rebind_socket
  rebind_socket-Extends p none s = Extends-refl s
  rebind_socket-Extends p (some skt) s =
      rebind_handles-Extends p skt (handle p s) (s.sockets skt).handle s

  pop_from-Extends :
      (rs : List Result) (s : LinuxAsyncEngine K)
      → s.pending_results ≡ rs
      → Extends s (pop_from rs s).1
  unfolding pop_from
  pop_from-Extends [] s e = Extends-refl s
  pop_from-Extends (r ∷ rs) s e =
      still-Extends s _ (append_assoc s.popped (r ∷ []) rs ∙ ap (λ l. s.popped ++ l) (sym e)) refl
        (omega arith) (λ p l h. h)

  pub perform-Extends : (c : Call) (s : LinuxAsyncEngine K) → Extends s (perform sys c s)
  unfolding perform remove pop_pending_result wake_up stop_engine signal_stop_event close report
  perform-Extends (call_add skt context) s = add-Extends skt context s
  perform-Extends (call_rebind p skt) s = rebind_socket-Extends p skt s
  perform-Extends (call_remove p) s = remove_entry-Extends p (entry_of sys p s) s
  perform-Extends (call_start_read p buffer) s = start_read-Extends sys p buffer s
  perform-Extends (call_start_write p buffers) s = start_write-Extends sys p buffers s
  perform-Extends (call_close p) s = still-Extends s _ refl refl (omega arith) (λ q l e. e)
  perform-Extends (call_report fd) s = still-Extends s _ refl refl (omega arith) (λ q l e. e)
  perform-Extends (call_event ev) s = process_epoll_event-Extends sys ev s
  perform-Extends call_pop s = pop_from-Extends s.pending_results s refl
  perform-Extends call_wake s = kernel-Extends _ s
  perform-Extends call_stop s = still-Extends s _ refl refl (omega arith) (λ q l e. e)
  perform-Extends call_fail s = still-Extends s _ refl refl (omega arith) (λ q l e. e)

  run-Extends : (cs : List Call) (s : LinuxAsyncEngine K) → Extends s (run sys cs s)
  run-Extends [] s = Extends-refl s
  run-Extends (c ∷ cs) s =
      Extends-trans s (perform sys c s) _ (perform-Extends c s) (run-Extends cs (perform sys c s))

  -- A new engine has no results.
  abbrev IsNew : LinuxAsyncEngine K → Type 0
  IsNew s = (s.popped ++ s.pending_results ≡ []) × (s.reported ≡ [])

  linux_async_engine-IsNew :
      (sockets : ℕ → Socket) (k : K) → IsNew (linux_async_engine sys sockets k)
  unfolding linux_async_engine open_stop_event register_stop_event
  linux_async_engine-IsNew sockets k =
      opened (sys.epoll_create k).0 (empty_engine sys sockets (sys.epoll_create k).1) (refl, refl)
    where
      registered :
          (o : Option ℕ) (s : LinuxAsyncEngine K) → IsNew s → IsNew (register_stop_event sys o s)
      registered none s h = h
      registered (some fd) s h = h

      opened : (o : Option ℕ) (s : LinuxAsyncEngine K) → IsNew s → IsNew (open_stop_event sys o s)
      opened none s h = h
      opened (some fd) s h = registered (sys.eventfd s.kernel).0 _ h

-- After any calls of a new engine, the results that were handed out, and behind them those that wait,
-- are exactly the results that were queued, in the order in which they were queued.
pub run-popped :
    {K : Type 0} (sys : Kernel K) (sockets : ℕ → Socket) (k : K) (cs : List Call)
    → let s = run sys cs (linux_async_engine sys sockets k) in
      s.popped ++ s.pending_results ≡ s.reported
run-popped sys sockets k cs =
    let (rs, a, b, c) = (run-Extends sys cs (linux_async_engine sys sockets k)).results in
    let (p, r) = linux_async_engine-IsNew sys sockets k in a ∙ ap (λ l. l ++ rs) (p ∙ sym r) ∙ sym b

-- No result is for the stream.
abbrev pub AreNotFor : ℕ → List Result → Type 0
AreNotFor p [] = Unit {0}
AreNotFor p (r ∷ rs) = (r.stream ≢ some p) × AreNotFor p rs

AreOpen-AreNotFor :
    {K : Type 0} (s : LinuxAsyncEngine K) (p : ℕ) (rs : List Result)
    → p < s.made
    → (s.streams p).removing ≡ true
    → AreOpen s rs
    → AreNotFor p rs
AreOpen-AreNotFor s p [] l h o = tt
AreOpen-AreNotFor s p (r ∷ rs) l h o =
    ((λ e. clash (sym h ∙ o.0 p e l)), AreOpen-AreNotFor s p rs l h o.1)
  where
    clash : true ≡ false → ⊥
    clash e = cc

-- A stream that is being removed stays so, and no call queues a result for it any more.
pub run-removing :
    {K : Type 0} (sys : Kernel K) (s : LinuxAsyncEngine K) (p : ℕ) (cs : List Call)
    → p < s.made
    → (s.streams p).removing ≡ true
    → let t = run sys cs s in
      ((t.streams p).removing ≡ true)
      × ((rs : List Result) × (t.reported ≡ s.reported ++ rs) × AreNotFor p rs)
run-removing sys s p cs l h =
    let e : Extends s (run sys cs s) = run-Extends sys cs s in
    let (rs, a, b, o) = e.results in (e.removing p l h, (rs, b, AreOpen-AreNotFor s p rs l h o))
