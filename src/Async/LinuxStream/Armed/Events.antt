-- ===== src/Async/LinuxStream/Armed/Events.antt =====
-- StartRead, StartWrite and ProcessEpollEvent of Async/AsyncStreamLinux.cpp leave the streams that
-- wait armed.
use syncme.Prelude.{
  ℕ, ◌≡◌, refl, arith, Bool, true, false, not, ◌&&◌, ◌||◌, Option, none, some, if◌then◌else◌, ◌==◌,
}
use syncme.Async.BufferChain.{BufferChain, is_empty, size}
use syncme.Async.TlsStream.{read_closed, error}
use syncme.Async.LinuxStream.{
  EpollEvent, Kernel, LinuxAsyncStream, LinuxAsyncEngine, update, put, lookup, handle,
  find_stream_locked, queue_result_locked, get_socket_error,
}
use syncme.Async.LinuxStream.Transfer.{
  try_read_locked, read_into, read_owned, try_write_locked, write_owned, update_interest_locked,
}
use syncme.Async.LinuxStream.Calls.{
  start_read, start_write, stop_event_ready, stream_failed, transfer, read_ready, write_ready,
  hung_up, process_entry, is_handle, process_epoll_event,
}
use syncme.Async.LinuxStream.Quiet.{
  Quiet, Quiet-trans, Quiet-refl, if-Quiet, queue_result_locked-Quiet,
}
use syncme.Async.LinuxStream.Quiet.Transfer.{try_read_locked-Quiet, try_write_locked-Quiet}
use syncme.Async.LinuxStream.Armed.{
  if-IsWired, if-IsWired_result, IsWired, Quiet-IsWired, exempt-IsWired, kernel-IsWired,
  except-IsWired,
}
use syncme.Async.LinuxStream.Armed.Update.{update_interest_locked-IsWired, tried-IsWired}

module _ {K : Type 0} where
  -- A stream that begins to wait is the exception.
  pub put-IsWired :
      (p : ℕ) (stream : LinuxAsyncStream) (s : LinuxAsyncEngine K)
      → stream.skt ≡ (s.streams p).skt
      → stream.removing ≡ (s.streams p).removing
      → IsWired s (some p)
      → IsWired (put p stream s) (some p)
  put-IsWired p stream s a b w = record {
    unique = w.unique;
    unmade = λ q h. ground (arith, w.unmade q h);
    owned = λ q fd r h. ground (arith, w.owned q fd);
    armed = λ q fd n r h. ground (arith, w.armed q fd n);
  }

  -- Nothing is asked of a stream that is being removed.
  removing-IsWired :
      (p : ℕ) (s : LinuxAsyncEngine K)
      → IsWired s (some p)
      → IsWired (put p (record (s.streams p) { removing = true }) s) none
  removing-IsWired p s w = record {
    unique = w.unique;
    unmade = λ q h. ground (arith, w.unmade q h);
    owned = λ q fd r h. ground (arith, w.owned q fd);
    armed = λ q fd n r h. ground (arith, w.armed q fd);
  }

  -- An event is taken up for the stream that is registered for its descriptor.
  pub cleared-IsWired :
      (fd p : ℕ) (s : LinuxAsyncEngine K)
      → lookup fd s.entries ≡ some p
      → IsWired s none
      → IsWired (record s { in_flight = update s.in_flight fd false }) (some p)
  cleared-IsWired fd p s e w = record {
    unique = w.unique;
    unmade = w.unmade;
    owned = w.owned;
    armed = λ q fd' n r h. ground (arith, w.armed q fd' (λ m. cc) r h, w.owned q fd' r h);
  }

  stray-IsWired :
      (fd : ℕ) (s : LinuxAsyncEngine K)
      → lookup fd s.entries ≡ none
      → IsWired s none
      → IsWired (record s { in_flight = update s.in_flight fd false }) none
  stray-IsWired fd s e w = record {
    unique = w.unique;
    unmade = w.unmade;
    owned = w.owned;
    armed = λ q fd' n r h. ground (arith, w.armed q fd' n r h, w.owned q fd' r h);
  }

module _ {K : Type 0} (sys : Kernel K) where
  try_read_locked-refused :
      (p : ℕ) (s : LinuxAsyncEngine K)
      → (try_read_locked sys p s).0 ≡ false
      → find_stream_locked p s ≡ none
  unfolding try_read_locked read_into read_owned
  try_read_locked-refused p s e = tried (s.streams p).read_buffer (not (s.streams p).read_pending) e
    where
      owned :
          (owner : Option ℕ) (size : ℕ) → (read_owned sys p owner size s).0 ≡ false → owner ≡ none
      owned none size e = refl
      owned (some owner) size e = cc

      tried :
          (buffer : Option ℕ) (b : Bool)
          → (if b then (true, s) else read_into sys p buffer s).0 ≡ false
          → find_stream_locked p s ≡ none
      tried buffer true e = cc
      tried none false e = cc
      tried (some size) false e = owned (find_stream_locked p s) size e

  try_write_locked-refused :
      (p : ℕ) (s : LinuxAsyncEngine K)
      → (try_write_locked sys p s).0 ≡ false
      → find_stream_locked p s ≡ none
  unfolding try_write_locked write_owned
  try_write_locked-refused p s e =
      tried (find_stream_locked p s) (not (s.streams p).write_pending) e
    where
      tried :
          (owner : Option ℕ) (b : Bool)
          → (if b then (true, s) else write_owned sys p owner s).0 ≡ false
          → owner ≡ none
      tried owner true e = cc
      tried none false e = refl
      tried (some owner) false e = cc

  pub start_read-IsWired :
      (p : ℕ) (buffer : Option ℕ) (s : LinuxAsyncEngine K)
      → IsWired s none
      → IsWired (start_read sys p buffer s).1 none
  unfolding start_read
  start_read-IsWired p none s w = w
  start_read-IsWired p (some n) s w =
      let stream : LinuxAsyncStream = s.streams p in
      let t : LinuxAsyncEngine K =
        put p (record stream { read_buffer = some n; read_pending = true }) s in
      let tried : Bool × LinuxAsyncEngine K = try_read_locked sys p t in
      if-IsWired_result
        ((n == 0) || (stream.removing || (stream.read_pending || stream.read_closed))) (false, s)
        (if tried.0 then update_interest_locked sys p tried.1 else (false, tried.1)) none w
        (tried-IsWired sys p t tried (try_read_locked-Quiet sys p t) (try_read_locked-refused p t)
          (put-IsWired p _ s refl refl (except-IsWired s (some p) w)))

  pub start_write-IsWired :
      (p : ℕ) (buffers : BufferChain) (s : LinuxAsyncEngine K)
      → IsWired s none
      → IsWired (start_write sys p buffers s).1 none
  unfolding start_write
  start_write-IsWired p buffers s w =
      let stream : LinuxAsyncStream = s.streams p in
      let t : LinuxAsyncEngine K =
        put p
          (record stream {
            write_buffers = buffers;
            write_offset = 0;
            write_size = size buffers;
            write_pending = true;
          })
          s in
      let tried : Bool × LinuxAsyncEngine K = try_write_locked sys p t in
      if-IsWired_result (is_empty buffers || (stream.removing || stream.write_pending)) (false, s)
        (if tried.0 then update_interest_locked sys p tried.1 else (false, tried.1)) none w
        (tried-IsWired sys p t tried (try_write_locked-Quiet sys p t) (try_write_locked-refused p t)
          (put-IsWired p _ s refl refl (except-IsWired s (some p) w)))

  pub read_ready-Quiet :
      (p : ℕ) (ev : EpollEvent) (s : LinuxAsyncEngine K) → Quiet s (read_ready sys p ev s)
  unfolding read_ready
  read_ready-Quiet p ev s =
      if-Quiet s ((s.streams p).read_pending && (ev.readable || (ev.rd_hup || ev.hup)))
        (try_read_locked sys p s).1 s (λ e. try_read_locked-Quiet sys p s) (λ e. Quiet-refl s)

  pub write_ready-Quiet :
      (p : ℕ) (ev : EpollEvent) (s : LinuxAsyncEngine K) → Quiet s (write_ready sys p ev s)
  unfolding write_ready
  write_ready-Quiet p ev s =
      if-Quiet s ((s.streams p).write_pending && (ev.writable || ev.hup))
        (try_write_locked sys p s).1 s (λ e. try_write_locked-Quiet sys p s) (λ e. Quiet-refl s)

  hung_up-Quiet : (p : ℕ) (ev : EpollEvent) (s : LinuxAsyncEngine K) → Quiet s (hung_up sys p ev s)
  unfolding hung_up
  hung_up-Quiet p ev s =
      if-Quiet s (ev.hup && (not (s.streams p).read_pending && not (s.streams p).write_pending))
        (queue_result_locked p read_closed none 0 0 s) s
        (λ e. queue_result_locked-Quiet p read_closed none 0 0 s) (λ e. Quiet-refl s)

  pub transfer-Quiet :
      (p : ℕ) (ev : EpollEvent) (s : LinuxAsyncEngine K) → Quiet s (transfer sys p ev s)
  unfolding transfer
  transfer-Quiet p ev s =
      let t : LinuxAsyncEngine K = read_ready sys p ev s in
      let u : LinuxAsyncEngine K = write_ready sys p ev t in
      Quiet-trans s t _ (read_ready-Quiet p ev s)
        (Quiet-trans t u _ (write_ready-Quiet p ev t) (hung_up-Quiet p ev u))

  stream_failed-IsWired :
      (p : ℕ) (s : LinuxAsyncEngine K) → IsWired s (some p) → IsWired (stream_failed sys p s) none
  unfolding stream_failed get_socket_error
  stream_failed-IsWired p s w =
      let (code, t) = get_socket_error sys (handle p s) s in
      let u : LinuxAsyncEngine K = queue_result_locked p error none 0 code t in
      removing-IsWired p u (
        Quiet-IsWired t u (some p) (queue_result_locked-Quiet p error none 0 code t)
          (kernel-IsWired t.kernel s (some p) w))

  process_entry-IsWired :
      (p : ℕ) (ev : EpollEvent) (s : LinuxAsyncEngine K)
      → IsWired s (some p)
      → IsWired (process_entry sys (some p) ev s) none
  unfolding process_entry
  process_entry-IsWired p ev s w =
      choose (s.streams p).removing
        (if ev.err
          then stream_failed sys p s
          else (update_interest_locked sys p (transfer sys p ev s)).1)
        refl
        (if-IsWired ev.err _ _ none (stream_failed-IsWired p s w) (
          update_interest_locked-IsWired sys p (transfer sys p ev s)
            (Quiet-IsWired s (transfer sys p ev s) (some p) (transfer-Quiet p ev s) w)))
    where
      choose :
          (b : Bool) (t : LinuxAsyncEngine K)
          → (s.streams p).removing ≡ b
          → IsWired t none
          → IsWired (if b then s else t) none
      choose true t r h = exempt-IsWired s p w (λ fd a b. absurd cc)
      choose false t r h = h

  pub process_epoll_event-IsWired :
      (ev : EpollEvent) (s : LinuxAsyncEngine K)
      → IsWired s none
      → IsWired (process_epoll_event sys ev s) none
  unfolding process_epoll_event stop_event_ready process_entry
  process_epoll_event-IsWired ev s w =
      if-IsWired (is_handle s.stop_event ev.fd) (stop_event_ready sys s)
        (process_entry sys (lookup ev.fd s.entries) ev t) none
        (record { unique = w.unique; unmade = w.unmade; owned = w.owned; armed = w.armed })
        (found (lookup ev.fd s.entries) refl)
    where
      t : LinuxAsyncEngine K
      t = record s { in_flight = update s.in_flight ev.fd false }

      found : (o : Option ℕ) → lookup ev.fd s.entries ≡ o → IsWired (process_entry sys o ev t) none
      found none e = stray-IsWired ev.fd s e w
      found (some p) e = process_entry-IsWired p ev t (cleared-IsWired ev.fd p s e w)
