-- ===== src/Async/LinuxStream/Answers/Run.antt =====
-- Every call of Async/AsyncStreamLinux.cpp answers what it ends.
use syncme.Prelude.{
  ℕ, ◌≡◌, ◌<◌, refl, sym, ◌∙◌, arith, Bool, true, false, Option, none, some, List, [], ◌∷◌,
  append-nil, if◌then◌else◌, ◌==◌, subst,
}
use syncme.Async.TlsStream.{error}
use syncme.Async.LinuxStream.{
  EpollEvent, Kernel, Socket, linux_async_stream, Result, LinuxAsyncEngine, update, put, lookup,
  handle, is_valid, queue_result_locked, push_pending_result_locked, pop_from, pop_pending_result,
  signal_stop_event, set_non_blocking, get_socket_error, make_event,
}
use syncme.Async.LinuxStream.Transfer.{update_interest_locked}
use syncme.Async.LinuxStream.Calls.{
  add_entry, add_found, add_fd, add, remove_entry, stop_event_ready, stream_failed, transfer,
  process_entry, is_handle, process_epoll_event,
}
use syncme.Async.LinuxStream.Runs.{
  is_item, rebind_handles, rebind_socket, close, report, entry_of, remove, wake_up, stop_engine,
  Call, call_add, call_rebind, call_remove, call_start_read, call_start_write, call_close,
  call_report, call_event, call_pop, call_wake, call_stop, call_fail, perform, run,
  linux_async_engine,
}
use syncme.Async.LinuxStream.Quiet.{Quiet}
use syncme.Async.LinuxStream.Armed.{IsWired}
use syncme.Async.LinuxStream.Armed.Events.{cleared-IsWired, transfer-Quiet}
use syncme.Async.LinuxStream.Armed.Registry.{set_non_blocking-kernel}
use syncme.Async.LinuxStream.Armed.Run.{run-IsWired, linux_async_engine-IsWired}
use syncme.Async.LinuxStream.Answers.{
  Answers, Answers-trans, Answers-refl, still-Answers, kernel-Answers, if-Answers,
  if-Answers_engine,
}
use syncme.Async.LinuxStream.Answers.Transfer.{
  put-Answers, queue_result_locked-Answers, update_interest_locked-Answers,
}
use syncme.Async.LinuxStream.Answers.Events.{
  IsWired-IsOwn, Quiet-IsOwn, start_read-Answers, start_write-Answers, transfer-Answers,
}

module _ {K : Type 0} (sys : Kernel K) (p : ℕ) where
  stream_failed-Answers : (q : ℕ) (s : LinuxAsyncEngine K) → Answers p s (stream_failed sys q s)
  unfolding stream_failed get_socket_error
  stream_failed-Answers q s =
      let (code, t) = get_socket_error sys (handle q s) s in
      let u : LinuxAsyncEngine K = queue_result_locked q error none 0 code t in
      Answers-trans p s t _ (kernel-Answers p t.kernel s) (
        Answers-trans p t u _ (queue_result_locked-Answers p q error none 0 code t)
          (put-Answers p q _ u (λ e. e) (λ e. e)))

  process_entry-Answers :
      (q : ℕ) (ev : EpollEvent) (s : LinuxAsyncEngine K)
      → IsWired s (some q)
      → Answers p s (process_entry sys (some q) ev s)
  unfolding process_entry
  process_entry-Answers q ev s w =
      let t : LinuxAsyncEngine K = transfer sys q ev s in
      let h : Quiet s t = transfer-Quiet sys q ev s in
      kept (s.streams q).removing refl
        (if ev.err then stream_failed sys q s else (update_interest_locked sys q t).1)
        (λ e.
          if-Answers_engine p s ev.err (stream_failed sys q s) (update_interest_locked sys q t).1
            (stream_failed-Answers q s)
            (Answers-trans p s t _
              (transfer-Answers sys p q ev s (IsWired-IsOwn q s (some q) w e) e)
              (update_interest_locked-Answers sys p q t (λ k.
                Quiet-IsOwn q s t h (IsWired-IsOwn q s (some q) w (sym (h.removing q) ∙ k))))))
    where
      kept :
          (b : Bool)
          → (s.streams q).removing ≡ b
          → (t : LinuxAsyncEngine K) → ((s.streams q).removing ≡ false → Answers p s t)
          → Answers p s (if b then s else t)
      kept true e t h = Answers-refl p s
      kept false e t h = h e

  process_epoll_event-Answers :
      (ev : EpollEvent) (s : LinuxAsyncEngine K)
      → IsWired s none
      → Answers p s (process_epoll_event sys ev s)
  unfolding process_epoll_event stop_event_ready push_pending_result_locked process_entry
  process_epoll_event-Answers ev s w =
      if-Answers_engine p s (is_handle s.stop_event ev.fd) (stop_event_ready sys s)
        (process_entry sys (lookup ev.fd s.entries) ev t)
        (still-Answers p s _ (_, refl) (λ e. e) (λ e. e))
        (Answers-trans p s t _
          (still-Answers p s t ([], sym (append-nil s.reported)) (λ e. e) (λ e. e))
          (found (lookup ev.fd s.entries) refl))
    where
      t : LinuxAsyncEngine K
      t = record s { in_flight = update s.in_flight ev.fd false }

      found : (o : Option ℕ) → lookup ev.fd s.entries ≡ o → Answers p t (process_entry sys o ev t)
      found none e = Answers-refl p t
      found (some q) e = process_entry-Answers q ev t (cleared-IsWired ev.fd q s e w)

  add_fd-Answers :
      (skt context : ℕ) (fd : Option ℕ) (s : LinuxAsyncEngine K)
      → p < s.made
      → Answers p s (add_fd sys skt context fd s).1
  unfolding add_fd add_found add_entry
  add_fd-Answers skt context none s l = Answers-refl p s
  add_fd-Answers skt context (some fd) s l =
      let (worked, t) = set_non_blocking sys fd s in
      let (k, e) = set_non_blocking-kernel sys fd s in
      let h : Answers p s t = subst (λ t. Answers p s t) (sym e) (kernel-Answers p k s) in
      Answers-trans p s t _ h (
        if-Answers p t worked (add_found sys skt context fd (lookup fd t.entries) t) (none, t)
          (found (lookup fd t.entries) t (subst (λ t. p < t.made) (sym e) l)) (Answers-refl p t))
    where
      entered :
          (answer : Option ℕ) (t : LinuxAsyncEngine K)
          → p < t.made
          → Answers p t (add_entry sys skt context fd answer t).1
      entered (some errno) t l = Answers-refl p t
      entered none t l =
          still-Answers p t _ ([], sym (append-nil t.reported)) (λ e. ground arith)
            (λ e. ground arith)

      found :
          (o : Option ℕ) (t : LinuxAsyncEngine K)
          → p < t.made
          → Answers p t (add_found sys skt context fd o t).1
      found (some q) t l = Answers-refl p t
      found none t l =
          let (answer, k) = sys.ctl_add t.kernel fd (make_event (linux_async_stream skt context)) in
          Answers-trans p t (record t { kernel = k }) _ (kernel-Answers p k t)
            (entered answer (record t { kernel = k }) l)

  add-Answers :
      (skt : Option ℕ) (context : ℕ) (s : LinuxAsyncEngine K)
      → p < s.made
      → Answers p s (add sys skt context s).1
  unfolding add
  add-Answers none context s l = Answers-refl p s
  add-Answers (some skt) context s l =
      if-Answers p s (is_valid s) (add_fd sys skt context (s.sockets skt).handle s) (none, s)
        (add_fd-Answers skt context (s.sockets skt).handle s l) (Answers-refl p s)

  remove_entry-Answers :
      (q : ℕ) (o : Option ℕ) (s : LinuxAsyncEngine K) → Answers p s (remove_entry sys q o s).1
  unfolding remove_entry
  remove_entry-Answers q none s = Answers-refl p s
  remove_entry-Answers q (some fd) s =
      still-Answers p s _ ([], sym (append-nil s.reported)) (λ e. ground arith) (λ e. ground arith)

  rebind_handles-Answers :
      (q skt : ℕ) (old new : Option ℕ) (s : LinuxAsyncEngine K)
      → Answers p s (rebind_handles q skt old new s).1
  unfolding rebind_handles
  rebind_handles-Answers q skt none new s = Answers-refl p s
  rebind_handles-Answers q skt (some old) none s = Answers-refl p s
  rebind_handles-Answers q skt (some old) (some new) s =
      if-Answers p s ((s.streams q).skt == skt) (true, s) _ (Answers-refl p s)
        (if-Answers p s (old == new) _ (false, s)
          (if-Answers p s (is_item q (lookup old s.entries))
            (true, put q (record (s.streams q) { skt = skt }) s) (false, s)
            (put-Answers p q _ s (λ e. e) (λ e. e)) (Answers-refl p s))
          (Answers-refl p s))

  rebind_socket-Answers :
      (q : ℕ) (skt : Option ℕ) (s : LinuxAsyncEngine K) → Answers p s (rebind_socket q skt s).1
  unfolding rebind_socket
  rebind_socket-Answers q none s = Answers-refl p s
  rebind_socket-Answers q (some skt) s =
      rebind_handles-Answers q skt (handle q s) (s.sockets skt).handle s

  pop_from-Answers : (rs : List Result) (s : LinuxAsyncEngine K) → Answers p s (pop_from rs s).1
  unfolding pop_from
  pop_from-Answers [] s = Answers-refl p s
  pop_from-Answers (r ∷ rs) s =
      still-Answers p s _ ([], sym (append-nil s.reported)) (λ e. e) (λ e. e)

  perform-Answers :
      (c : Call) (s : LinuxAsyncEngine K)
      → p < s.made
      → IsWired s none
      → Answers p s (perform sys c s)
  unfolding perform remove pop_pending_result wake_up stop_engine signal_stop_event close report
  perform-Answers (call_add skt context) s l w = add-Answers skt context s l
  perform-Answers (call_rebind q skt) s l w = rebind_socket-Answers q skt s
  perform-Answers (call_remove q) s l w = remove_entry-Answers q (entry_of sys q s) s
  perform-Answers (call_start_read q buffer) s l w = start_read-Answers sys p q buffer s w
  perform-Answers (call_start_write q buffers) s l w = start_write-Answers sys p q buffers s w
  perform-Answers (call_close q) s l w =
      still-Answers p s _ ([], sym (append-nil s.reported)) (λ e. e) (λ e. e)
  perform-Answers (call_report fd) s l w =
      still-Answers p s _ ([], sym (append-nil s.reported)) (λ e. e) (λ e. e)
  perform-Answers (call_event ev) s l w = process_epoll_event-Answers ev s w
  perform-Answers call_pop s l w = pop_from-Answers s.pending_results s
  perform-Answers call_wake s l w = kernel-Answers p _ s
  perform-Answers call_stop s l w =
      still-Answers p s _ ([], sym (append-nil s.reported)) (λ e. e) (λ e. e)
  perform-Answers call_fail s l w =
      still-Answers p s _ ([], sym (append-nil s.reported)) (λ e. e) (λ e. e)

-- After any calls of a new engine, whatever call comes next: a read or a write of a stream that was
-- pending before it is pending after it, or the call queued a result for the stream.
pub run-Answers :
    {K : Type 0} (sys : Kernel K) (sockets : ℕ → Socket) (k : K) (cs : List Call) (c : Call) (p : ℕ)
    → let s = run sys cs (linux_async_engine sys sockets k) in
      p < s.made → Answers p s (perform sys c s)
run-Answers sys sockets k cs c p l =
    perform-Answers sys p c (run sys cs (linux_async_engine sys sockets k)) l (
      run-IsWired sys cs (linux_async_engine sys sockets k)
        (linux_async_engine-IsWired sys sockets k))
