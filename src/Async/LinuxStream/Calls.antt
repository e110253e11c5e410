-- ===== src/Async/LinuxStream/Calls.antt =====
-- The calls of the engine in Async/AsyncStreamLinux.cpp, and their runs.
use syncme.Prelude.{
  ℕ, suc, ◌-◌, ◌^◌, Bool, true, false, not, ◌&&◌, ◌||◌, Option, none, some, ◌∷◌, ◌==◌,
  if◌then◌else◌,
}
use syncme.Async.BufferChain.{BufferChain, is_empty, size}
use syncme.Async.TlsStream.{no_operation, read_closed, error, wake, stop, none_origin}
use syncme.Async.LinuxStream.{
  no_interest, EpollEvent, Kernel, LinuxAsyncStream, linux_async_stream, Result, LinuxAsyncEngine,
  update, lookup, erase, put, handle, is_valid, push_pending_result_locked, queue_result_locked,
  make_event, set_non_blocking, get_socket_error,
}
use syncme.Async.LinuxStream.Transfer.{try_read_locked, try_write_locked, update_interest_locked}

-- Result()
abbrev pub no_result : Result
no_result = record {
  stream = none;
  context = 0;
  op = no_operation;
  buffer = none;
  bytes = 0;
  error = 0;
  origin = none_origin;
}

abbrev pub int_max : ℕ
int_max = 2 ^ 31 - 1

abbrev pub nanoseconds : ℕ
nanoseconds = 1000000

-- The test `ev.data.fd == StopEvent`.
abbrev pub is_handle : Option ℕ → ℕ → Bool
is_handle none fd = false
is_handle (some h) fd = fd == h

module _ {K : Type 0} (sys : Kernel K) where
  unfoldable pub add_entry :
      ℕ → ℕ → ℕ → Option ℕ → LinuxAsyncEngine K → Option ℕ × LinuxAsyncEngine K
  add_entry skt context fd (some errno) s = (none, s)
  add_entry skt context fd none s =
      let p : ℕ = s.made in
      (
        some p,
        record s {
          entries = (fd, p) ∷ s.entries;
          streams = update s.streams p (linux_async_stream skt context);
          made = suc s.made;
          armed = update s.armed fd no_interest;
        },
      )

  unfoldable pub add_found :
      ℕ → ℕ → ℕ → Option ℕ → LinuxAsyncEngine K → Option ℕ × LinuxAsyncEngine K
  unfolding add_entry
  add_found skt context fd (some p) s = (none, s)
  add_found skt context fd none s =
      let (answer, k) = sys.ctl_add s.kernel fd (make_event (linux_async_stream skt context)) in
      add_entry skt context fd answer (record s { kernel = k })

  unfoldable pub add_fd : ℕ → ℕ → Option ℕ → LinuxAsyncEngine K → Option ℕ × LinuxAsyncEngine K
  unfolding add_found set_non_blocking lookup
  add_fd skt context none s = (none, s)
  add_fd skt context (some fd) s =
      let (worked, s') = set_non_blocking sys fd s in
      let added : Option ℕ × LinuxAsyncEngine K =
        add_found skt context fd (lookup fd s'.entries) s' in
      if worked then added else (none, s')

  -- Add, with the stream that it gives.
  unfoldable pub add : Option ℕ → ℕ → LinuxAsyncEngine K → Option ℕ × LinuxAsyncEngine K
  unfolding add_fd is_valid
  add none context s = (none, s)
  add (some skt) context s =
      let added : Option ℕ × LinuxAsyncEngine K = add_fd skt context (s.sockets skt).handle s in
      if is_valid s then added else (none, s)

  unfoldable pub remove_entry : ℕ → Option ℕ → LinuxAsyncEngine K → Bool × LinuxAsyncEngine K
  unfolding erase
  remove_entry p none s = (false, s)
  remove_entry p (some fd) s = (
    true,
    put p (record (s.streams p) { removing = true })
        (record s { kernel = sys.ctl_del s.kernel fd; entries = erase fd s.entries }),
  )

  -- StartRead of the engine; the size of the buffer, or `none` for a null pointer.
  unfoldable pub start_read : ℕ → Option ℕ → LinuxAsyncEngine K → Bool × LinuxAsyncEngine K
  unfolding try_read_locked update_interest_locked
  start_read p none s = (false, s)
  start_read p (some length) s =
      let stream : LinuxAsyncStream = s.streams p in
      let started : LinuxAsyncEngine K =
        put p (record stream { read_buffer = some length; read_pending = true }) s in
      let (ok, s') = try_read_locked sys p started in
      let updated : Bool × LinuxAsyncEngine K = update_interest_locked sys p s' in
      if (length == 0) || (stream.removing || (stream.read_pending || stream.read_closed))
      then (false, s)
      else if ok
      then updated
      else (false, s')

  unfoldable pub start_write : ℕ → BufferChain → LinuxAsyncEngine K → Bool × LinuxAsyncEngine K
  unfolding try_write_locked update_interest_locked is_empty size
  start_write p buffers s =
      let stream : LinuxAsyncStream = s.streams p in
      let started : LinuxAsyncEngine K =
        put p
          (record stream {
            write_buffers = buffers;
            write_offset = 0;
            write_size = size buffers;
            write_pending = true;
          })
          s in
      let (ok, s') = try_write_locked sys p started in
      let updated : Bool × LinuxAsyncEngine K = update_interest_locked sys p s' in
      if is_empty buffers || (stream.removing || stream.write_pending)
      then (false, s)
      else if ok
      then updated
      else (false, s')

  -- The branch of ProcessEpollEvent for StopEvent.
  unfoldable pub stop_event_ready : LinuxAsyncEngine K → LinuxAsyncEngine K
  unfolding push_pending_result_locked
  stop_event_ready s =
      push_pending_result_locked (record no_result { op = if s.stopping then stop else wake })
        (record s { kernel = sys.drain s.kernel })

  -- The branch for EPOLLERR.
  unfoldable pub stream_failed : ℕ → LinuxAsyncEngine K → LinuxAsyncEngine K
  unfolding get_socket_error queue_result_locked
  stream_failed p s =
      let (code, s') = get_socket_error sys (handle p s) s in
      let s'' : LinuxAsyncEngine K = queue_result_locked p error none 0 code s' in
      put p (record (s''.streams p) { removing = true }) s''

  -- The three tests of ProcessEpollEvent between EPOLLERR and UpdateInterestLocked.
  unfoldable pub read_ready : ℕ → EpollEvent → LinuxAsyncEngine K → LinuxAsyncEngine K
  unfolding try_read_locked
  read_ready p ev s =
      if (s.streams p).read_pending && (ev.readable || (ev.rd_hup || ev.hup))
      then (try_read_locked sys p s).1
      else s

  unfoldable pub write_ready : ℕ → EpollEvent → LinuxAsyncEngine K → LinuxAsyncEngine K
  unfolding try_write_locked
  write_ready p ev s =
      if (s.streams p).write_pending && (ev.writable || ev.hup)
      then (try_write_locked sys p s).1
      else s

  unfoldable pub hung_up : ℕ → EpollEvent → LinuxAsyncEngine K → LinuxAsyncEngine K
  unfolding queue_result_locked
  hung_up p ev s =
      if ev.hup && (not (s.streams p).read_pending && not (s.streams p).write_pending)
      then queue_result_locked p read_closed none 0 0 s
      else s

  unfoldable pub transfer : ℕ → EpollEvent → LinuxAsyncEngine K → LinuxAsyncEngine K
  unfolding read_ready write_ready hung_up
  transfer p ev s = hung_up p ev (write_ready p ev (read_ready p ev s))

  unfoldable pub process_entry : Option ℕ → EpollEvent → LinuxAsyncEngine K → LinuxAsyncEngine K
  unfolding transfer stream_failed update_interest_locked
  process_entry none ev s = s
  process_entry (some p) ev s =
      let failed : LinuxAsyncEngine K = stream_failed p s in
      let moved : LinuxAsyncEngine K = (update_interest_locked sys p (transfer p ev s)).1 in
      if (s.streams p).removing then s else if ev.err then failed else moved

  unfoldable pub process_epoll_event : EpollEvent → LinuxAsyncEngine K → LinuxAsyncEngine K
  unfolding stop_event_ready process_entry lookup
  process_epoll_event ev s =
      if is_handle s.stop_event ev.fd
      then stop_event_ready s
      else process_entry (lookup ev.fd s.entries) ev
          (record s { in_flight = update s.in_flight ev.fd false })
