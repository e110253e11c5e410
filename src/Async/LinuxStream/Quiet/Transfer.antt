-- ===== src/Async/LinuxStream/Quiet/Transfer.antt =====
-- TryReadLocked and TryWriteLocked of Async/AsyncStreamLinux.cpp leave the rest of the engine alone.
use syncme.Prelude.{
  ℕ, zero, suc, ◌-◌, refl, arith, Bool, true, false, not, Option, none, some, List, [], ◌∷◌, ◌⊎◌,
  inl, inr, if◌then◌else◌, ◌==◌, leb,
}
use syncme.Async.TlsStream.{read, write, read_closed, error}
use syncme.Async.LinuxStream.{
  max_iov, eagain, epipe, Kernel, update, handle, find_stream_locked, LinuxAsyncEngine, put,
}
use syncme.Async.LinuxStream.Transfer.{
  build_iov, received, complete_write_locked, fail_write, read_owned, read_into, try_read_locked,
  sent_some, send_iov, write_rounds, write_owned, try_write_locked,
}
use syncme.Async.LinuxStream.Quiet.{
  Quiet, Quiet-refl, Quiet-trans, if-Quiet, put-Quiet, ended-Quiet, kernel-Quiet,
}

module _ {K : Type 0} where
  abbrev disconnect : ℕ → LinuxAsyncEngine K → LinuxAsyncEngine K
  disconnect skt s = record s {
    sockets = update s.sockets skt (record (s.sockets skt) { peer_disconnected = true });
  }

  disconnect-Quiet : (skt : ℕ) (s : LinuxAsyncEngine K) → Quiet s (disconnect skt s)
  disconnect-Quiet skt s = record {
    entries = refl;
    armed = refl;
    in_flight = refl;
    made = refl;
    popped = refl;
    skt = λ q. refl;
    removing = λ q. refl;
    handles = λ k. ground arith;
    reads = λ q h. h;
    writes = λ q h. h;
    results = (Quiet-refl s).results;
  }

  received-Quiet :
      (p owner : ℕ) (answer : ℕ ⊎ List ℕ) (s : LinuxAsyncEngine K)
      → Quiet s (received p owner answer s)
  unfolding received
  received-Quiet p owner (inl errno) s =
      if-Quiet s (errno == eagain) s _ (λ e. Quiet-refl s)
        (λ e. ended-Quiet p owner _ error none 0 errno s refl refl (λ e. cc) (λ e. e))
  received-Quiet p owner (inr []) s =
      Quiet-trans s (disconnect (s.streams p).skt s) _ (disconnect-Quiet (s.streams p).skt s) (
        ended-Quiet p owner _ read_closed none 0 0 (disconnect (s.streams p).skt s) refl refl
          (λ e. cc) (λ e. e))
  received-Quiet p owner (inr (b ∷ bs)) s =
      ended-Quiet p owner _ read (some (b ∷ bs)) _ 0 s refl refl (λ e. cc) (λ e. e)

  complete_write_locked-Quiet :
      (p : ℕ) (s : LinuxAsyncEngine K) → Quiet s (complete_write_locked p s)
  unfolding complete_write_locked
  complete_write_locked-Quiet p s = ended-Quiet p p _ write none _ 0 s refl refl (λ e. e) (λ e. cc)

  fail_write-Quiet :
      (p owner code : ℕ) (s : LinuxAsyncEngine K) → Quiet s (fail_write p owner code s)
  unfolding fail_write
  fail_write-Quiet p owner code s =
      ended-Quiet p owner _ error none 0 code s refl refl (λ e. e) (λ e. cc)

module _ {K : Type 0} (sys : Kernel K) where
  read_owned-Quiet :
      (p : ℕ) (owner : Option ℕ) (size : ℕ) (s : LinuxAsyncEngine K)
      → Quiet s (read_owned sys p owner size s).1
  unfolding read_owned
  read_owned-Quiet p none size s = Quiet-refl s
  read_owned-Quiet p (some owner) size s =
      let (answer, k) = sys.recv s.kernel (handle p s) size in
      Quiet-trans s (record s { kernel = k }) _ (kernel-Quiet k s)
        (received-Quiet p owner answer (record s { kernel = k }))

  read_into-Quiet :
      (p : ℕ) (buffer : Option ℕ) (s : LinuxAsyncEngine K) → Quiet s (read_into sys p buffer s).1
  unfolding read_into
  read_into-Quiet p none s = Quiet-refl s
  read_into-Quiet p (some size) s = read_owned-Quiet p (find_stream_locked p s) size s

  pub try_read_locked-Quiet : (p : ℕ) (s : LinuxAsyncEngine K) → Quiet s (try_read_locked sys p s).1
  unfolding try_read_locked
  try_read_locked-Quiet p s = choose (not (s.streams p).read_pending)
    where
      choose :
          (b : Bool)
          → Quiet s (if b then (true, s) else read_into sys p (s.streams p).read_buffer s).1
      choose true = Quiet-refl s
      choose false = read_into-Quiet p (s.streams p).read_buffer s

  module _ (next : LinuxAsyncEngine K → LinuxAsyncEngine K)
      (rest : (s : LinuxAsyncEngine K) → Quiet s (next s)) (p owner : ℕ) where
    sent_some-Quiet :
        (iov : List (List ℕ)) (answer : ℕ ⊎ ℕ) (s : LinuxAsyncEngine K)
        → Quiet s (sent_some sys next p owner iov answer s)
    unfolding sent_some
    sent_some-Quiet iov (inl errno) s =
        if-Quiet s (errno == eagain) s _ (λ e. Quiet-refl s) (λ e. fail_write-Quiet p owner errno s)
    sent_some-Quiet iov (inr zero) s = fail_write-Quiet p owner epipe s
    sent_some-Quiet iov (inr (suc n)) s =
        Quiet-trans s (put p _ s) _ (put-Quiet p _ s refl refl (λ e. e) (λ e. e)) (
          if-Quiet (put p _ s) (leb (s.streams p).write_size _) _ _
            (λ e. complete_write_locked-Quiet owner (put p _ s)) (λ e. rest (put p _ s)))

    send_iov-Quiet :
        (iov : List (List ℕ)) (s : LinuxAsyncEngine K) → Quiet s (send_iov sys next p owner iov s)
    unfolding send_iov
    send_iov-Quiet [] s = complete_write_locked-Quiet owner s
    send_iov-Quiet (x ∷ xs) s =
        let (answer, k) = sys.sendmsg s.kernel (handle p s) (x ∷ xs) in
        Quiet-trans s (record s { kernel = k }) _ (kernel-Quiet k s)
          (sent_some-Quiet (x ∷ xs) answer (record s { kernel = k }))

  write_rounds-Quiet :
      (rounds p owner : ℕ) (s : LinuxAsyncEngine K) → Quiet s (write_rounds sys rounds p owner s)
  unfolding write_rounds
  write_rounds-Quiet zero p owner s = record {
    entries = refl;
    armed = refl;
    in_flight = refl;
    made = refl;
    popped = refl;
    skt = λ q. refl;
    removing = λ q. refl;
    handles = λ k. refl;
    reads = λ q h. h;
    writes = λ q h. h;
    results = (Quiet-refl s).results;
  }
  write_rounds-Quiet (suc rounds) p owner s =
      send_iov-Quiet (write_rounds sys rounds p owner) (write_rounds-Quiet rounds p owner) p owner
        (build_iov (s.streams p).write_buffers.views (s.streams p).write_offset max_iov) s

  write_owned-Quiet :
      (p : ℕ) (owner : Option ℕ) (s : LinuxAsyncEngine K) → Quiet s (write_owned sys p owner s).1
  unfolding write_owned
  write_owned-Quiet p none s = Quiet-refl s
  write_owned-Quiet p (some owner) s =
      write_rounds-Quiet (suc ((s.streams p).write_size - (s.streams p).write_offset)) p owner s

  pub try_write_locked-Quiet :
      (p : ℕ) (s : LinuxAsyncEngine K) → Quiet s (try_write_locked sys p s).1
  unfolding try_write_locked
  try_write_locked-Quiet p s = choose (not (s.streams p).write_pending)
    where
      choose :
          (b : Bool)
          → Quiet s (if b then (true, s) else write_owned sys p (find_stream_locked p s) s).1
      choose true = Quiet-refl s
      choose false = write_owned-Quiet p (find_stream_locked p s) s
