-- ===== src/Async/LinuxStream.antt =====
-- Async/AsyncStreamLinux.cpp: sockets that are read and written over one epoll instance.
-- The kernel is a parameter (`Kernel`). A pointer to a stream is the number of streams that were made
-- before it; a socket and a context are numbers, too. A descriptor of `none` is -1. Each function
-- whose name ends in `locked`, and each handler, is one section under Lock. Skt is never null, since
-- Add and RebindSocket refuse a null socket. Left out are the counters of the capacity of the buffers
-- and of the pending results, and the texts for the log.
pub mod Transfer
pub mod Calls
pub mod Runs
pub mod Wait
pub mod HangUp
pub mod Answers
pub mod Quiet
pub mod Armed
pub mod Iov
pub mod Send
pub mod Results
mod Tests
use syncme.Prelude.{
  ℕ, suc, ◌+◌, ◌*◌, ◌^◌, Bool, true, false, not, ◌&&◌, ◌||◌, Option, none, some, List, [], ◌∷◌,
  ◌++◌, ◌==◌, ◌⊎◌, inl, inr, if◌then◌else◌,
}
use syncme.Async.BufferChain.{Buffer, BufferChain, empty_chain}
use syncme.Async.TlsStream.{Operation, error, ErrorOrigin, none_origin, transport}

abbrev pub max_iov : ℕ
max_iov = 16

-- EAGAIN, which is EWOULDBLOCK too, EINTR and EPIPE.
abbrev pub eagain : ℕ
eagain = 11

abbrev pub eintr : ℕ
eintr = 4

abbrev pub epipe : ℕ
epipe = 32

-- What epoll_ctl asks for besides EPOLLONESHOT: EPOLLIN | EPOLLRDHUP, and EPOLLOUT.
pub record Interest : Type 0 where
  pub read : Bool
  pub write : Bool

abbrev pub no_interest : Interest
no_interest = record { read = false; write = false }

pub record EpollEvent : Type 0 where
  pub fd : ℕ
  pub err : Bool
  pub readable : Bool
  pub writable : Bool
  pub rd_hup : Bool
  pub hup : Bool

-- The system calls, on the state `K` of the system. Where a call fails, errno is its answer; the
-- others answer with `none` when they worked.
pub record Kernel (K : Type 0) : Type 0 where
  pub epoll_create : K → Option ℕ × K
  pub eventfd : K → Option ℕ × K
  pub ctl_add : K → ℕ → Interest → Option ℕ × K
  pub ctl_mod : K → Option ℕ → Interest → Option ℕ × K
  pub ctl_del : K → ℕ → K
  -- fcntl: whether O_NONBLOCK is set, and setting it.
  pub get_nonblock : K → ℕ → Option Bool × K
  pub set_nonblock : K → ℕ → Bool × K
  -- recv with a buffer of that size; no bytes at the end of the stream.
  pub recv : K → Option ℕ → ℕ → (ℕ ⊎ List ℕ) × K
  -- sendmsg, repeated while it fails with EINTR: how many bytes it took.
  pub sendmsg : K → Option ℕ → List (List ℕ) → (ℕ ⊎ ℕ) × K
  -- getsockopt(SO_ERROR)
  pub so_error : K → Option ℕ → (ℕ ⊎ ℕ) × K
  -- A write to the event descriptor, and a read of it.
  pub signal : K → K
  pub drain : K → K
  -- GetTimeInMillisec
  pub now : K → ℕ

pub record Socket : Type 0 where
  pub handle : Option ℕ
  pub peer_disconnected : Bool

pub record LinuxAsyncStream : Type 0 where
  pub skt : ℕ
  pub context : ℕ
  pub read_pending : Bool
  pub write_pending : Bool
  pub removing : Bool
  pub read_closed : Bool
  -- The size of the buffer that StartRead was given.
  pub read_buffer : Option ℕ
  pub write_buffers : BufferChain
  pub write_offset : ℕ
  pub write_size : ℕ
  pub last_write_progress_time : ℕ
  -- What happened so far: the bytes that sendmsg took.
  pub sent : List ℕ

-- The constructor of LinuxAsyncStream.
abbrev pub linux_async_stream : ℕ → ℕ → LinuxAsyncStream
linux_async_stream skt context = record {
  skt = skt;
  context = context;
  read_pending = false;
  write_pending = false;
  removing = false;
  read_closed = false;
  read_buffer = none;
  write_buffers = empty_chain;
  write_offset = 0;
  write_size = 0;
  last_write_progress_time = 0;
  sent = [];
}

pub record Result : Type 0 where
  pub stream : Option ℕ
  pub context : ℕ
  pub op : Operation
  pub buffer : Option Buffer
  pub bytes : ℕ
  pub error : ℕ
  pub origin : ErrorOrigin

pub record LinuxAsyncEngine (K : Type 0) : Type 0 where
  pub poll : Option ℕ
  pub stop_event : Option ℕ
  pub stopping : Bool
  pub failed : Bool
  pub entries : List (ℕ × ℕ)
  pub pending_results : List Result
  -- The objects behind the pointers, and how many streams were made.
  pub streams : ℕ → LinuxAsyncStream
  pub sockets : ℕ → Socket
  pub made : ℕ
  pub kernel : K
  -- What happened so far: the results that were queued and those that were handed out; what
  -- epoll_ctl was last asked for a descriptor, while epoll_wait has not reported it since;
  -- the descriptors whose event was reported and is not processed; whether a loop of
  -- TryWriteLocked used up its rounds.
  pub reported : List Result
  pub popped : List Result
  pub armed : ℕ → Interest
  pub in_flight : ℕ → Bool
  pub stuck : Bool

abbrev pub update {ℓ} : {A : Type ℓ} → (ℕ → A) → ℕ → A → ℕ → A
update f k a n = if n == k then a else f n

unfoldable pub lookup : ℕ → List (ℕ × ℕ) → Option ℕ
lookup k [] = none
lookup k ((j, v) ∷ m) = if k == j then some v else lookup k m

unfoldable pub erase : ℕ → List (ℕ × ℕ) → List (ℕ × ℕ)
erase k [] = []
erase k ((j, v) ∷ m) = let rest = erase k m in if k == j then rest else (j, v) ∷ rest

-- The find_if of Remove.
unfoldable pub find_item : ℕ → List (ℕ × ℕ) → Option ℕ
find_item p [] = none
find_item p ((j, v) ∷ m) = if v == p then some j else find_item p m

abbrev pub find_handle : Option ℕ → List (ℕ × ℕ) → Option ℕ
find_handle none m = none
find_handle (some fd) m = lookup fd m

abbrev pub origin_of : Operation → ErrorOrigin
origin_of error = transport
origin_of op = none_origin

abbrev pub make_event : LinuxAsyncStream → Interest
make_event stream = record { read = stream.read_pending; write = stream.write_pending }

abbrev pub is_none : Option ℕ → Bool
is_none none = true
is_none (some fd) = false

-- What getsockopt says; EPIPE where it has no error to give.
abbrev socket_error_code : ℕ ⊎ ℕ → ℕ
socket_error_code (inl errno) = errno
socket_error_code (inr e) = if e == 0 then epipe else e

module _ {K : Type 0} where
  abbrev pub put : ℕ → LinuxAsyncStream → LinuxAsyncEngine K → LinuxAsyncEngine K
  put p stream s = record s { streams = update s.streams p stream }

  -- stream->Skt->Handle
  abbrev pub handle : ℕ → LinuxAsyncEngine K → Option ℕ
  handle p s = (s.sockets (s.streams p).skt).handle

  unfoldable pub is_valid : LinuxAsyncEngine K → Bool
  is_valid s = not s.failed && (not (is_none s.poll) && not (is_none s.stop_event))

  unfoldable pub push_pending_result_locked : Result → LinuxAsyncEngine K → LinuxAsyncEngine K
  push_pending_result_locked r s = record s {
    pending_results = s.pending_results ++ r ∷ [];
    reported = s.reported ++ r ∷ [];
  }

  unfoldable pub clear_pending_results_locked : LinuxAsyncEngine K → LinuxAsyncEngine K
  clear_pending_results_locked s = record s { pending_results = [] }

  unfoldable pub pop_from : List Result → LinuxAsyncEngine K → Option Result × LinuxAsyncEngine K
  pop_from [] s = (none, s)
  pop_from (r ∷ rs) s = (some r, record s { pending_results = rs; popped = s.popped ++ r ∷ [] })

  -- PopPendingResult, with the result that it gives.
  unfoldable pub pop_pending_result : LinuxAsyncEngine K → Option Result × LinuxAsyncEngine K
  unfolding pop_from
  pop_pending_result s = pop_from s.pending_results s

  unfoldable pub queue_result_locked :
      ℕ → Operation → Option Buffer → ℕ → ℕ → LinuxAsyncEngine K → LinuxAsyncEngine K
  queue_result_locked p op buffer bytes code s =
      let refuses : Bool = (s.streams p).removing in
      let r : Result = record {
        stream = some p;
        context = (s.streams p).context;
        op = op;
        buffer = buffer;
        bytes = bytes;
        error = code;
        origin = origin_of op;
      } in
      record s {
        pending_results = if refuses then s.pending_results else s.pending_results ++ r ∷ [];
        reported = if refuses then s.reported else s.reported ++ r ∷ [];
      }

  unfoldable pub find_stream_locked : ℕ → LinuxAsyncEngine K → Option ℕ
  find_stream_locked p s = find_handle (handle p s) s.entries

module _ {K : Type 0} (sys : Kernel K) where
  unfoldable pub signal_stop_event : LinuxAsyncEngine K → LinuxAsyncEngine K
  signal_stop_event s = record s {
    kernel = elim s.stop_event [ none ↦ s.kernel | some fd ↦ sys.signal s.kernel ];
  }

  abbrev pub set_flag : ℕ → Option Bool → LinuxAsyncEngine K → Bool × LinuxAsyncEngine K
  set_flag fd none s = (false, s)
  set_flag fd (some true) s = (true, s)
  set_flag fd (some false) s =
      let (worked, k) = sys.set_nonblock s.kernel fd in (worked, record s { kernel = k })

  unfoldable pub set_non_blocking : ℕ → LinuxAsyncEngine K → Bool × LinuxAsyncEngine K
  set_non_blocking fd s =
      let (flag, k) = sys.get_nonblock s.kernel fd in set_flag fd flag (record s { kernel = k })

  unfoldable pub get_socket_error : Option ℕ → LinuxAsyncEngine K → ℕ × LinuxAsyncEngine K
  get_socket_error fd s =
      let (answer, k) = sys.so_error s.kernel fd in
      (socket_error_code answer, record s { kernel = k })
