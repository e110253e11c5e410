-- ===== src/Async/LinuxStream/Results/Events.antt =====
-- StartRead, StartWrite and ProcessEpollEvent of Async/AsyncStreamLinux.cpp keep the order of the
-- results.
use syncme.Prelude.{
  ℕ, refl, sym, arith, Bool, true, false, not, ◌&&◌, ◌||◌, Option, none, some, append_assoc,
  if◌then◌else◌, ◌==◌,
}
use syncme.Async.BufferChain.{BufferChain, is_empty, size}
use syncme.Async.TlsStream.{error}
use syncme.Async.LinuxStream.{
  Interest, EpollEvent, Kernel, LinuxAsyncStream, LinuxAsyncEngine, update, put, lookup, handle,
  find_stream_locked, queue_result_locked, push_pending_result_locked, signal_stop_event,
  get_socket_error, make_event,
}
use syncme.Async.LinuxStream.Transfer.{
  end_read, end_write, arm, try_read_locked, try_write_locked, interest_set, update_interest_locked,
}
use syncme.Async.LinuxStream.Calls.{
  start_read, start_write, stop_event_ready, stream_failed, transfer, process_entry, is_handle,
  process_epoll_event,
}
use syncme.Async.LinuxStream.Quiet.{
  Quiet, Quiet-trans, kernel-Quiet, ended-Quiet, queue_result_locked-Quiet,
}
use syncme.Async.LinuxStream.Quiet.Transfer.{try_read_locked-Quiet, try_write_locked-Quiet}
use syncme.Async.LinuxStream.Armed.Events.{transfer-Quiet}
use syncme.Async.LinuxStream.Results.{
  Extends, still-Extends, Extends-refl, Extends-trans, Quiet-Extends, put-Extends, if-Extends,
  if-Extends_engine,
}

module _ {K : Type 0} where
  pub kernel-Extends : (k : K) (s : LinuxAsyncEngine K) → Extends s (record s { kernel = k })
  kernel-Extends k s = Quiet-Extends s (record s { kernel = k }) (kernel-Quiet k s)

  arm-Extends :
      (h : Option ℕ) (interest : Interest) (s : LinuxAsyncEngine K) → Extends s (arm h interest s)
  arm-Extends none interest s = Extends-refl s
  arm-Extends (some fd) interest s = still-Extends s _ refl refl (omega arith) (λ p l e. e)

module _ {K : Type 0} (sys : Kernel K) where
  interest_set-Extends :
      (p : ℕ) (interest : Interest) (owner answer : Option ℕ) (s : LinuxAsyncEngine K)
      → Extends s (interest_set sys p interest owner answer s).1
  unfolding interest_set signal_stop_event
  interest_set-Extends p interest owner none s = arm-Extends (handle p s) interest s
  interest_set-Extends p interest none (some errno) s = Extends-refl s
  interest_set-Extends p interest (some owner) (some errno) s =
      let stream : LinuxAsyncStream = end_write (end_read (s.streams p)) in
      let t : LinuxAsyncEngine K = queue_result_locked owner error none 0 errno (put p stream s) in
      Extends-trans s t _
        (Quiet-Extends s t
          (ended-Quiet p owner stream error none 0 errno s refl refl (λ h. cc) (λ h. cc)))
        (kernel-Extends _ t)

  update_interest_locked-Extends :
      (p : ℕ) (s : LinuxAsyncEngine K) → Extends s (update_interest_locked sys p s).1
  unfolding update_interest_locked
  update_interest_locked-Extends p s =
      let stream : LinuxAsyncStream = s.streams p in
      let (answer, k) = sys.ctl_mod s.kernel (handle p s) (make_event stream) in
      let set : Bool × LinuxAsyncEngine K =
        interest_set sys p (make_event stream) (find_stream_locked p s) answer
          (record s { kernel = k }) in
      if-Extends s (stream.removing || (not stream.read_pending && not stream.write_pending))
        (true, s) set (Extends-refl s)
        (Extends-trans s (record s { kernel = k }) set.1 (kernel-Extends k s)
          (interest_set-Extends p (make_event stream) (find_stream_locked p s) answer
            (record s { kernel = k })))

  -- A call that starts a transfer, tries it and updates the interest.
  started-Extends :
      (p : ℕ) (b : Bool) (s t : LinuxAsyncEngine K) (tried : Bool × LinuxAsyncEngine K)
      → Extends s t
      → Quiet t tried.1
      → Extends s
          (if b
            then (false, s)
            else if tried.0
            then update_interest_locked sys p tried.1
            else (false, tried.1)).1
  started-Extends p true s t tried h q = Extends-refl s
  started-Extends p false s t tried h q = Extends-trans s t _ h (
      Extends-trans t tried.1 _ (Quiet-Extends t tried.1 q) (
        if-Extends tried.1 tried.0 (update_interest_locked sys p tried.1) (false, tried.1)
          (update_interest_locked-Extends p tried.1) (Extends-refl tried.1)))

  pub start_read-Extends :
      (p : ℕ) (buffer : Option ℕ) (s : LinuxAsyncEngine K) → Extends s (start_read sys p buffer s).1
  unfolding start_read
  start_read-Extends p none s = Extends-refl s
  start_read-Extends p (some n) s =
      let stream : LinuxAsyncStream = s.streams p in
      let t : LinuxAsyncEngine K =
        put p (record stream { read_buffer = some n; read_pending = true }) s in
      started-Extends p
        ((n == 0) || (stream.removing || (stream.read_pending || stream.read_closed))) s t
        (try_read_locked sys p t) (put-Extends p _ s (λ e. e)) (try_read_locked-Quiet sys p t)

  pub start_write-Extends :
      (p : ℕ) (buffers : BufferChain) (s : LinuxAsyncEngine K)
      → Extends s (start_write sys p buffers s).1
  unfolding start_write
  start_write-Extends p buffers s =
      let stream : LinuxAsyncStream = s.streams p in
      let t : LinuxAsyncEngine K =
        put p
          (record stream {
            write_buffers = buffers;
            write_offset = 0;
            write_size = size buffers;
            write_pending = true;
          })
          s in
      started-Extends p (is_empty buffers || (stream.removing || stream.write_pending)) s t
        (try_write_locked sys p t) (put-Extends p _ s (λ e. e)) (try_write_locked-Quiet sys p t)

  process_entry-Extends :
      (o : Option ℕ) (ev : EpollEvent) (s : LinuxAsyncEngine K)
      → Extends s (process_entry sys o ev s)
  unfolding process_entry stream_failed get_socket_error
  process_entry-Extends none ev s = Extends-refl s
  process_entry-Extends (some p) ev s =
      let (code, t) = get_socket_error sys (handle p s) s in
      let u : LinuxAsyncEngine K = queue_result_locked p error none 0 code t in
      let moved : LinuxAsyncEngine K = transfer sys p ev s in
      if-Extends_engine s (s.streams p).removing s _ (Extends-refl s) (
        if-Extends_engine s ev.err (stream_failed sys p s) (update_interest_locked sys p moved).1
          (Extends-trans s u _
            (Quiet-Extends s u (
              Quiet-trans s t u (kernel-Quiet t.kernel s)
                (queue_result_locked-Quiet p error none 0 code t)))
            (put-Extends p _ u (λ e. refl)))
          (Extends-trans s moved _ (Quiet-Extends s moved (transfer-Quiet sys p ev s))
            (update_interest_locked-Extends p moved)))

  pub process_epoll_event-Extends :
      (ev : EpollEvent) (s : LinuxAsyncEngine K) → Extends s (process_epoll_event sys ev s)
  unfolding process_epoll_event stop_event_ready push_pending_result_locked
  process_epoll_event-Extends ev s =
      let t : LinuxAsyncEngine K = record s { in_flight = update s.in_flight ev.fd false } in
      if-Extends_engine s (is_handle s.stop_event ev.fd) (stop_event_ready sys s)
        (process_entry sys (lookup ev.fd s.entries) ev t)
        (record {
          made = omega arith;
          removing = λ p l e. e;
          results = (_, sym (append_assoc s.popped s.pending_results _), refl, ((λ p e l. cc), tt));
        })
        (Extends-trans s t _ (still-Extends s t refl refl (omega arith) (λ p l e. e))
          (process_entry-Extends (lookup ev.fd s.entries) ev t))
