-- ===== src/Async/LinuxStream/Armed/Run.antt =====
-- Every call of Async/AsyncStreamLinux.cpp leaves the streams that wait armed.
use syncme.Prelude.{ℕ, ◌≡◌, refl, arith, false, Option, none, some, List, [], ◌∷◌}
use syncme.Async.LinuxStream.{
  Result, Kernel, Socket, LinuxAsyncEngine, lookup, handle, pop_pending_result, pop_from,
  signal_stop_event,
}
use syncme.Async.LinuxStream.Runs.{
  close, report, wake_up, stop_engine, Call, call_add, call_rebind, call_remove, call_start_read,
  call_start_write, call_close, call_report, call_event, call_pop, call_wake, call_stop, call_fail,
  perform, run, linux_async_engine, open_stop_event, register_stop_event, empty_engine,
}
use syncme.Async.LinuxStream.Armed.{IsArmed, IsWired, kernel-IsWired}
use syncme.Async.LinuxStream.Armed.Events.{
  start_read-IsWired, start_write-IsWired, process_epoll_event-IsWired,
}
use syncme.Async.LinuxStream.Armed.Registry.{add-IsWired, remove-IsWired, rebind_socket-IsWired}

module _ {K : Type 0} (sys : Kernel K) where
  close-IsWired : (p : ℕ) (s : LinuxAsyncEngine K) → IsWired s none → IsWired (close p s) none
  unfolding close
  close-IsWired p s w = record {
    unique = w.unique;
    unmade = w.unmade;
    owned = λ q fd r h. ground (arith, w.owned q fd r);
    armed = λ q fd n r h. ground (arith, w.armed q fd n r);
  }

  report-IsWired : (fd : ℕ) (s : LinuxAsyncEngine K) → IsWired s none → IsWired (report fd s) none
  unfolding report
  report-IsWired fd s w = record {
    unique = w.unique;
    unmade = w.unmade;
    owned = w.owned;
    armed = λ q fd' n r h. ground (arith, w.armed q fd' n r h);
  }

  pop_from-IsWired :
      (rs : List Result) (s : LinuxAsyncEngine K) → IsWired s none → IsWired (pop_from rs s).1 none
  unfolding pop_from
  pop_from-IsWired [] s w = w
  pop_from-IsWired (r ∷ rs) s w = record {
    unique = w.unique;
    unmade = w.unmade;
    owned = w.owned;
    armed = w.armed;
  }

  perform-IsWired :
      (c : Call) (s : LinuxAsyncEngine K) → IsWired s none → IsWired (perform sys c s) none
  unfolding perform pop_pending_result wake_up stop_engine signal_stop_event
  perform-IsWired (call_add skt context) s w = add-IsWired sys skt context s w
  perform-IsWired (call_rebind p skt) s w = rebind_socket-IsWired sys p skt s w
  perform-IsWired (call_remove p) s w = remove-IsWired sys p s w
  perform-IsWired (call_start_read p buffer) s w = start_read-IsWired sys p buffer s w
  perform-IsWired (call_start_write p buffers) s w = start_write-IsWired sys p buffers s w
  perform-IsWired (call_close p) s w = close-IsWired p s w
  perform-IsWired (call_report fd) s w = report-IsWired fd s w
  perform-IsWired (call_event ev) s w = process_epoll_event-IsWired sys ev s w
  perform-IsWired call_pop s w = pop_from-IsWired s.pending_results s w
  perform-IsWired call_wake s w = kernel-IsWired _ s none w
  perform-IsWired call_stop s w = record {
    unique = w.unique;
    unmade = w.unmade;
    owned = w.owned;
    armed = w.armed;
  }
  perform-IsWired call_fail s w = record {
    unique = w.unique;
    unmade = w.unmade;
    owned = w.owned;
    armed = w.armed;
  }

  pub run-IsWired :
      (cs : List Call) (s : LinuxAsyncEngine K) → IsWired s none → IsWired (run sys cs s) none
  run-IsWired [] s w = w
  run-IsWired (c ∷ cs) s w = run-IsWired cs (perform sys c s) (perform-IsWired c s w)

  register_stop_event-IsWired :
      (event : Option ℕ) (s : LinuxAsyncEngine K)
      → IsWired s none
      → IsWired (register_stop_event sys event s) none
  unfolding register_stop_event
  register_stop_event-IsWired none s w = record {
    unique = w.unique;
    unmade = w.unmade;
    owned = w.owned;
    armed = w.armed;
  }
  register_stop_event-IsWired (some fd) s w = record {
    unique = w.unique;
    unmade = w.unmade;
    owned = w.owned;
    armed = w.armed;
  }

  open_stop_event-IsWired :
      (poll : Option ℕ) (s : LinuxAsyncEngine K)
      → IsWired s none
      → IsWired (open_stop_event sys poll s) none
  unfolding open_stop_event
  open_stop_event-IsWired none s w = record {
    unique = w.unique;
    unmade = w.unmade;
    owned = w.owned;
    armed = w.armed;
  }
  open_stop_event-IsWired (some fd) s w =
      let (event, k) = sys.eventfd s.kernel in
      register_stop_event-IsWired event (record s { poll = some fd; kernel = k })
        (record { unique = w.unique; unmade = w.unmade; owned = w.owned; armed = w.armed })

  pub linux_async_engine-IsWired :
      (sockets : ℕ → Socket) (k : K) → IsWired (linux_async_engine sys sockets k) none
  unfolding linux_async_engine
  linux_async_engine-IsWired sockets k =
      let (poll, k') = sys.epoll_create k in
      open_stop_event-IsWired poll (empty_engine sys sockets k') (record {
        unique = tt;
        unmade = λ p h. refl;
        owned = λ p fd r h. absurd cc;
        armed = λ p fd n r h. absurd cc;
      })

-- After any calls of a new engine, a stream that is not being removed and whose socket is open is the
-- one registered for its descriptor. While its read or its write is pending, epoll was asked to
-- report that the descriptor allows it and has not reported it since, or an event of the descriptor
-- was reported and is not processed.
pub run-IsArmed :
    {K : Type 0} (sys : Kernel K) (sockets : ℕ → Socket) (k : K) (cs : List Call) (p fd : ℕ)
    → let s = run sys cs (linux_async_engine sys sockets k) in
      (s.streams p).removing ≡ false
      → handle p s ≡ some fd
      → (lookup fd s.entries ≡ some p) × IsArmed s p fd
run-IsArmed sys sockets k cs p fd r h =
    let w : IsWired (run sys cs (linux_async_engine sys sockets k)) none =
      run-IsWired sys cs (linux_async_engine sys sockets k)
        (linux_async_engine-IsWired sys sockets k) in
    (w.owned p fd r h, w.armed p fd (λ e. cc) r h)
