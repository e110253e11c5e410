-- ===== src/Async/LinuxStream/Runs.antt =====
-- The smaller calls of the engine in Async/AsyncStreamLinux.cpp, and runs of calls in any order.
use syncme.Prelude.{
  ℕ, Bool, true, false, not, Option, none, some, List, [], ◌∷◌, ◌==◌, if◌then◌else◌,
}
use syncme.Async.BufferChain.{BufferChain}
use syncme.Async.LinuxStream.{
  no_interest, EpollEvent, Kernel, Socket, LinuxAsyncStream, linux_async_stream, is_none, is_valid,
  LinuxAsyncEngine, update, lookup, find_item, find_handle, put, handle, pop_pending_result,
  signal_stop_event,
}
use syncme.Async.LinuxStream.Calls.{add, remove_entry, start_read, start_write, process_epoll_event}

-- The test `it->second.get() != item`.
abbrev pub is_item : ℕ → Option ℕ → Bool
is_item p none = false
is_item p (some q) = q == p

module _ {K : Type 0} where
  unfoldable pub rebind_handles :
      ℕ → ℕ → Option ℕ → Option ℕ → LinuxAsyncEngine K → Bool × LinuxAsyncEngine K
  unfolding lookup
  rebind_handles p skt (some old) (some new) s =
      if (s.streams p).skt == skt
      then (true, s)
      else if old == new
      then (if is_item p (lookup old s.entries)
          then (true, put p (record (s.streams p) { skt = skt }) s)
          else (false, s))
      else (false, s)
  rebind_handles p skt old new s = (false, s)

  -- RebindSocket; the stream is not a null pointer.
  unfoldable pub rebind_socket : ℕ → Option ℕ → LinuxAsyncEngine K → Bool × LinuxAsyncEngine K
  unfolding rebind_handles
  rebind_socket p none s = (false, s)
  rebind_socket p (some skt) s = rebind_handles p skt (handle p s) (s.sockets skt).handle s

  -- Close of the stream, as far as the engine sees it: the socket loses its descriptor.
  unfoldable pub close : ℕ → LinuxAsyncEngine K → LinuxAsyncEngine K
  close p s =
      let skt : ℕ = (s.streams p).skt in
      record s { sockets = update s.sockets skt (record (s.sockets skt) { handle = none }) }

  -- epoll_wait reports an event of a descriptor, which EPOLLONESHOT disarms.
  unfoldable pub report : ℕ → LinuxAsyncEngine K → LinuxAsyncEngine K
  report fd s = record s {
    armed = update s.armed fd no_interest;
    in_flight = update s.in_flight fd true;
  }

module _ {K : Type 0} (sys : Kernel K) where
  -- The entry that Remove erases.
  unfoldable pub entry_of : ℕ → LinuxAsyncEngine K → Option ℕ
  unfolding lookup find_item
  entry_of p s =
      if is_item p (find_handle (handle p s) s.entries) then handle p s else find_item p s.entries

  -- Remove; the stream is not a null pointer.
  unfoldable pub remove : ℕ → LinuxAsyncEngine K → Bool × LinuxAsyncEngine K
  unfolding remove_entry entry_of
  remove p s = remove_entry sys p (entry_of p s) s

  unfoldable pub wake_up : LinuxAsyncEngine K → LinuxAsyncEngine K
  unfolding signal_stop_event
  wake_up s = signal_stop_event sys s

  unfoldable pub stop_engine : LinuxAsyncEngine K → LinuxAsyncEngine K
  unfolding signal_stop_event
  stop_engine s = signal_stop_event sys (record s { stopping = true })

-- The calls of the users of the engine, and what Wait does between two locked sections.
pub data Call : Type 0 where
  call_add : Option ℕ → ℕ → Call
  call_rebind : ℕ → Option ℕ → Call
  call_remove : ℕ → Call
  call_start_read : ℕ → Option ℕ → Call
  call_start_write : ℕ → BufferChain → Call
  call_close : ℕ → Call
  call_report : ℕ → Call
  call_event : EpollEvent → Call
  call_pop call_wake call_stop call_fail : Call

module _ {K : Type 0} (sys : Kernel K) where
  unfoldable pub perform : Call → LinuxAsyncEngine K → LinuxAsyncEngine K
  unfolding add rebind_socket remove start_read start_write process_epoll_event pop_pending_result
      wake_up stop_engine close report
  perform (call_add skt context) s = (add sys skt context s).1
  perform (call_rebind p skt) s = (rebind_socket p skt s).1
  perform (call_remove p) s = (remove sys p s).1
  perform (call_start_read p buffer) s = (start_read sys p buffer s).1
  perform (call_start_write p buffers) s = (start_write sys p buffers s).1
  perform (call_close p) s = close p s
  perform (call_report fd) s = report fd s
  perform (call_event ev) s = process_epoll_event sys ev s
  perform call_pop s = (pop_pending_result s).1
  perform call_wake s = wake_up sys s
  perform call_stop s = stop_engine sys s
  perform call_fail s = record s { failed = true }

  abbrev pub run : List Call → LinuxAsyncEngine K → LinuxAsyncEngine K
  run [] s = s
  run (c ∷ cs) s = run cs (perform c s)

-- No stream was made at a pointer yet.
abbrev pub no_stream : LinuxAsyncStream
no_stream = record (linux_async_stream 0 0) { removing = true }

module _ {K : Type 0} (sys : Kernel K) where
  -- An engine without descriptors.
  abbrev pub empty_engine : (ℕ → Socket) → K → LinuxAsyncEngine K
  empty_engine sockets k = record {
    poll = none;
    stop_event = none;
    stopping = false;
    failed = false;
    entries = [];
    pending_results = [];
    streams = λ p. no_stream;
    sockets = sockets;
    made = 0;
    kernel = k;
    reported = [];
    popped = [];
    armed = λ fd. no_interest;
    in_flight = λ fd. false;
    stuck = false;
  }

  unfoldable pub register_stop_event : Option ℕ → LinuxAsyncEngine K → LinuxAsyncEngine K
  register_stop_event none s = record s { failed = true }
  register_stop_event (some fd) s =
      let (answer, k) = sys.ctl_add s.kernel fd (record { read = true; write = false }) in
      record s { stop_event = some fd; kernel = k; failed = not (is_none answer) }

  unfoldable pub open_stop_event : Option ℕ → LinuxAsyncEngine K → LinuxAsyncEngine K
  unfolding register_stop_event
  open_stop_event none s = record s { failed = true }
  open_stop_event (some fd) s =
      let (event, k) = sys.eventfd s.kernel in
      register_stop_event event (record s { poll = some fd; kernel = k })

  -- The constructor of LinuxAsyncEngine.
  unfoldable pub linux_async_engine : (ℕ → Socket) → K → LinuxAsyncEngine K
  unfolding open_stop_event
  linux_async_engine sockets k =
      let (poll, k') = sys.epoll_create k in open_stop_event poll (empty_engine sockets k')

  -- Create
  unfoldable pub create : (ℕ → Socket) → K → Option (LinuxAsyncEngine K)
  unfolding linux_async_engine is_valid
  create sockets k =
      let engine : LinuxAsyncEngine K = linux_async_engine sockets k in
      if is_valid engine then some engine else none
