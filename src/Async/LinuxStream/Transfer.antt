-- ===== src/Async/LinuxStream/Transfer.antt =====
-- TryReadLocked, TryWriteLocked and UpdateInterestLocked of Async/AsyncStreamLinux.cpp.
use syncme.Prelude.{
  ℕ, zero, suc, ◌-◌, Bool, true, false, not, ◌&&◌, ◌||◌, Option, none, some, List, [], ◌∷◌, ◌++◌,
  ◌==◌, leb, ◌⊎◌, inl, inr, if◌then◌else◌, add_word, length, take, drop,
}
use syncme.Async.BufferChain.{BufferView, empty_chain, slice}
use syncme.Async.TlsStream.{read, write, read_closed, error}
use syncme.Async.LinuxStream.{
  max_iov, eagain, epipe, Interest, Kernel, LinuxAsyncStream, LinuxAsyncEngine, update, put, handle,
  queue_result_locked, find_stream_locked, make_event, signal_stop_event,
}

-- The bytes of the first entries of iov, at most `room` of them.
unfoldable pub build_iov : List BufferView → ℕ → ℕ → List (List ℕ)
build_iov views skip zero = []
build_iov [] skip (suc room) = []
build_iov (v ∷ vs) skip (suc room) =
    let passed = build_iov vs (skip - v.size) (suc room) in
    let rest = build_iov vs 0 room in if leb v.size skip then passed else drop skip (slice v) ∷ rest

abbrev pub concat : List (List ℕ) → List ℕ
concat [] = []
concat (x ∷ xs) = x ++ concat xs

-- The stream's part in the end of a read, and of a write.
abbrev pub end_read : LinuxAsyncStream → LinuxAsyncStream
end_read stream = record stream { read_pending = false; read_buffer = none }

abbrev pub end_write : LinuxAsyncStream → LinuxAsyncStream
end_write stream = record stream {
  write_pending = false;
  write_buffers = empty_chain;
  write_offset = 0;
  write_size = 0;
}

module _ {K : Type 0} where
  -- What TryReadLocked does with the answer of recv.
  unfoldable pub received : ℕ → ℕ → ℕ ⊎ List ℕ → LinuxAsyncEngine K → LinuxAsyncEngine K
  unfolding queue_result_locked
  received p owner (inl errno) s =
      if errno == eagain
      then s
      else queue_result_locked owner error none 0 errno (put p (end_read (s.streams p)) s)
  received p owner (inr []) s =
      let skt : ℕ = (s.streams p).skt in
      queue_result_locked owner read_closed none 0 0 (
        put p (record (end_read (s.streams p)) { read_closed = true })
          (record s {
            sockets = update s.sockets skt (record (s.sockets skt) { peer_disconnected = true });
          }))
  received p owner (inr (b ∷ bs)) s =
      queue_result_locked owner read (some (b ∷ bs)) (length (b ∷ bs)) 0
        (put p (end_read (s.streams p)) s)

  unfoldable pub complete_write_locked : ℕ → LinuxAsyncEngine K → LinuxAsyncEngine K
  unfolding queue_result_locked
  complete_write_locked p s =
      queue_result_locked p write none (s.streams p).write_size 0
        (put p (end_write (s.streams p)) s)

  unfoldable pub fail_write : ℕ → ℕ → ℕ → LinuxAsyncEngine K → LinuxAsyncEngine K
  unfolding queue_result_locked
  fail_write p owner code s =
      queue_result_locked owner error none 0 code (put p (end_write (s.streams p)) s)

  -- `armed` after epoll_ctl.
  abbrev pub arm : Option ℕ → Interest → LinuxAsyncEngine K → LinuxAsyncEngine K
  arm none interest s = s
  arm (some fd) interest s = record s { armed = update s.armed fd interest }

module _ {K : Type 0} (sys : Kernel K) where
  unfoldable pub read_owned : ℕ → Option ℕ → ℕ → LinuxAsyncEngine K → Bool × LinuxAsyncEngine K
  unfolding received
  read_owned p none size s = (false, s)
  read_owned p (some owner) size s =
      let (answer, k) = sys.recv s.kernel (handle p s) size in
      (true, received p owner answer (record s { kernel = k }))

  unfoldable pub read_into : ℕ → Option ℕ → LinuxAsyncEngine K → Bool × LinuxAsyncEngine K
  unfolding read_owned find_stream_locked
  read_into p none s = (true, s)
  read_into p (some size) s = read_owned p (find_stream_locked p s) size s

  unfoldable pub try_read_locked : ℕ → LinuxAsyncEngine K → Bool × LinuxAsyncEngine K
  unfolding read_into
  try_read_locked p s =
      let tried : Bool × LinuxAsyncEngine K = read_into p (s.streams p).read_buffer s in
      if not (s.streams p).read_pending then (true, s) else tried

  -- What the loop of TryWriteLocked does with the answer of sendmsg; `next` is the next round.
  unfoldable pub sent_some :
      (LinuxAsyncEngine K → LinuxAsyncEngine K)
      → ℕ
      → ℕ
      → List (List ℕ)
      → ℕ ⊎ ℕ
      → LinuxAsyncEngine K
      → LinuxAsyncEngine K
  unfolding fail_write complete_write_locked
  sent_some next p owner iov (inl errno) s =
      if errno == eagain then s else fail_write p owner errno s
  sent_some next p owner iov (inr zero) s = fail_write p owner epipe s
  sent_some next p owner iov (inr (suc n)) s =
      let stream : LinuxAsyncStream = s.streams p in
      let s' : LinuxAsyncEngine K =
        put p
          (record stream {
            last_write_progress_time = sys.now s.kernel;
            write_offset = add_word stream.write_offset (suc n);
            sent = stream.sent ++ take (suc n) (concat iov);
          })
          s in
      if leb stream.write_size (add_word stream.write_offset (suc n))
      then complete_write_locked owner s'
      else next s'

  unfoldable pub send_iov :
      (LinuxAsyncEngine K → LinuxAsyncEngine K)
      → ℕ
      → ℕ
      → List (List ℕ)
      → LinuxAsyncEngine K
      → LinuxAsyncEngine K
  unfolding sent_some complete_write_locked
  send_iov next p owner [] s = complete_write_locked owner s
  send_iov next p owner (x ∷ xs) s =
      let (answer, k) = sys.sendmsg s.kernel (handle p s) (x ∷ xs) in
      sent_some next p owner (x ∷ xs) answer (record s { kernel = k })

  -- The loop. Its rounds are enough where sendmsg takes no more than it is given.
  unfoldable pub write_rounds : ℕ → ℕ → ℕ → LinuxAsyncEngine K → LinuxAsyncEngine K
  unfolding send_iov build_iov
  write_rounds zero p owner s = record s { stuck = true }
  write_rounds (suc rounds) p owner s =
      let stream : LinuxAsyncStream = s.streams p in
      send_iov (write_rounds rounds p owner) p owner
        (build_iov stream.write_buffers.views stream.write_offset max_iov) s

  unfoldable pub write_owned : ℕ → Option ℕ → LinuxAsyncEngine K → Bool × LinuxAsyncEngine K
  unfolding write_rounds
  write_owned p none s = (false, s)
  write_owned p (some owner) s =
      let stream : LinuxAsyncStream = s.streams p in
      (true, write_rounds (suc (stream.write_size - stream.write_offset)) p owner s)

  unfoldable pub try_write_locked : ℕ → LinuxAsyncEngine K → Bool × LinuxAsyncEngine K
  unfolding write_owned find_stream_locked
  try_write_locked p s =
      let tried : Bool × LinuxAsyncEngine K = write_owned p (find_stream_locked p s) s in
      if not (s.streams p).write_pending then (true, s) else tried

  -- What UpdateInterestLocked does with the answer of epoll_ctl.
  unfoldable pub interest_set :
      ℕ → Interest → Option ℕ → Option ℕ → LinuxAsyncEngine K → Bool × LinuxAsyncEngine K
  unfolding queue_result_locked signal_stop_event
  interest_set p interest owner none s = (true, arm (handle p s) interest s)
  interest_set p interest none (some errno) s = (false, s)
  interest_set p interest (some owner) (some errno) s = (
    true,
    signal_stop_event sys (
        queue_result_locked owner error none 0 errno
          (put p (end_write (end_read (s.streams p))) s)),
  )

  unfoldable pub update_interest_locked : ℕ → LinuxAsyncEngine K → Bool × LinuxAsyncEngine K
  unfolding interest_set find_stream_locked
  update_interest_locked p s =
      let stream : LinuxAsyncStream = s.streams p in
      let (answer, k) = sys.ctl_mod s.kernel (handle p s) (make_event stream) in
      let set : Bool × LinuxAsyncEngine K =
        interest_set p (make_event stream) (find_stream_locked p s) answer
          (record s { kernel = k }) in
      if stream.removing || (not stream.read_pending && not stream.write_pending)
      then (true, s)
      else set
