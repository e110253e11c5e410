-- ===== src/Async/LinuxStream/Answers/Transfer.antt =====
-- TryReadLocked, TryWriteLocked and UpdateInterestLocked of Async/AsyncStreamLinux.cpp answer what
-- they end.
use syncme.Prelude.{
  ℕ, zero, suc, ◌-◌, ◌≡◌, refl, sym, arith, Bool, true, false, not, ◌&&◌, ◌||◌, Option, none, some,
  List, [], ◌∷◌, append-nil, ◌⊎◌, inl, inr, if◌then◌else◌, ◌==◌, leb, subst,
}
use syncme.Async.BufferChain.{Buffer}
use syncme.Async.TlsStream.{Operation, read, write, read_closed, error}
use syncme.Async.LinuxStream.{
  max_iov, eagain, epipe, Kernel, LinuxAsyncStream, LinuxAsyncEngine, update, put, handle,
  find_stream_locked, queue_result_locked, make_event, signal_stop_event, Interest,
}
use syncme.Async.LinuxStream.Transfer.{
  build_iov, end_read, end_write, arm, received, complete_write_locked, fail_write, read_owned,
  read_into, try_read_locked, sent_some, send_iov, write_rounds, write_owned, try_write_locked,
  interest_set, update_interest_locked,
}
use syncme.Async.LinuxStream.Quiet.{queue_result_locked-Quiet}
use syncme.Async.LinuxStream.Answers.{
  Answers, Answers-trans, Answers-refl, still-Answers, kernel-Answers, if-Answers,
  if-Answers_engine, ended-Answers,
}

-- FindStreamLocked finds no other stream.
abbrev pub IsOwn : {K : Type 0} → ℕ → LinuxAsyncEngine K → Type 0
IsOwn q s = (o : ℕ) → find_stream_locked q s ≡ some o → o ≡ q

module _ {K : Type 0} (p : ℕ) where
  received-Answers :
      (q : ℕ) (answer : ℕ ⊎ List ℕ) (s : LinuxAsyncEngine K)
      → (s.streams q).removing ≡ false
      → Answers p s (received q q answer s)
  unfolding received
  received-Answers q (inl errno) s kept =
      if-Answers_engine p s (errno == eagain) s _ (Answers-refl p s)
        (ended-Answers p q _ error none 0 errno s kept refl)
  received-Answers q (inr []) s kept =
      let skt : ℕ = (s.streams q).skt in
      let t : LinuxAsyncEngine K = record s {
        sockets = update s.sockets skt (record (s.sockets skt) { peer_disconnected = true });
      } in
      Answers-trans p s t _
        (still-Answers p s t ([], sym (append-nil s.reported)) (λ e. e) (λ e. e))
        (ended-Answers p q _ read_closed none 0 0 t kept refl)
  received-Answers q (inr (b ∷ bs)) s kept =
      ended-Answers p q _ read (some (b ∷ bs)) _ 0 s kept refl

  complete_write_locked-Answers :
      (q : ℕ) (s : LinuxAsyncEngine K)
      → (s.streams q).removing ≡ false
      → Answers p s (complete_write_locked q s)
  unfolding complete_write_locked
  complete_write_locked-Answers q s kept = ended-Answers p q _ write none _ 0 s kept refl

  fail_write-Answers :
      (q code : ℕ) (s : LinuxAsyncEngine K)
      → (s.streams q).removing ≡ false
      → Answers p s (fail_write q q code s)
  unfolding fail_write
  fail_write-Answers q code s kept = ended-Answers p q _ error none 0 code s kept refl

  pub put-Answers :
      (q : ℕ) (stream : LinuxAsyncStream) (s : LinuxAsyncEngine K)
      → ((s.streams q).read_pending ≡ true → stream.read_pending ≡ true)
      → ((s.streams q).write_pending ≡ true → stream.write_pending ≡ true)
      → Answers p s (put q stream s)
  put-Answers q stream s r w =
      still-Answers p s (put q stream s) ([], sym (append-nil s.reported)) (λ e. ground arith)
        (λ e. ground arith)

  pub queue_result_locked-Answers :
      (q : ℕ) (op : Operation) (buffer : Option Buffer) (bytes code : ℕ) (s : LinuxAsyncEngine K)
      → Answers p s (queue_result_locked q op buffer bytes code s)
  unfolding queue_result_locked
  queue_result_locked-Answers q op buffer bytes code s =
      let (rs, e, m, h) = (queue_result_locked-Quiet q op buffer bytes code s).results in
      still-Answers p s _ (rs, m) (λ e. e) (λ e. e)

module _ {K : Type 0} (sys : Kernel K) (p : ℕ) where
  read_owned-Answers :
      (q : ℕ) (owner : Option ℕ) (size : ℕ) (s : LinuxAsyncEngine K)
      → ((o : ℕ) → owner ≡ some o → o ≡ q)
      → (s.streams q).removing ≡ false
      → Answers p s (read_owned sys q owner size s).1
  unfolding read_owned
  read_owned-Answers q none size s own kept = Answers-refl p s
  read_owned-Answers q (some o) size s own kept =
      let (answer, k) = sys.recv s.kernel (handle q s) size in
      let t : LinuxAsyncEngine K = record s { kernel = k } in
      Answers-trans p s t _ (kernel-Answers p k s) (
        subst (λ o. Answers p t (received q o answer t)) (sym (own o refl))
          (received-Answers p q answer t kept))

  pub try_read_locked-Answers :
      (q : ℕ) (s : LinuxAsyncEngine K)
      → IsOwn q s
      → (s.streams q).removing ≡ false
      → Answers p s (try_read_locked sys q s).1
  unfolding try_read_locked read_into
  try_read_locked-Answers q s own kept =
      if-Answers p s (not (s.streams q).read_pending) (true, s)
        (read_into sys q (s.streams q).read_buffer s) (Answers-refl p s)
        (into (s.streams q).read_buffer)
    where
      into : (b : Option ℕ) → Answers p s (read_into sys q b s).1
      into none = Answers-refl p s
      into (some size) = read_owned-Answers q (find_stream_locked q s) size s own kept

  module _ (next : LinuxAsyncEngine K → LinuxAsyncEngine K) (q : ℕ)
      (rest : (s : LinuxAsyncEngine K)
        → (s.streams q).removing ≡ false
        → Answers p s (next s)) where
    sent_some-Answers :
        (iov : List (List ℕ)) (answer : ℕ ⊎ ℕ) (s : LinuxAsyncEngine K)
        → (s.streams q).removing ≡ false
        → Answers p s (sent_some sys next q q iov answer s)
    unfolding sent_some
    sent_some-Answers iov (inl errno) s kept =
        if-Answers_engine p s (errno == eagain) s _ (Answers-refl p s)
          (fail_write-Answers p q errno s kept)
    sent_some-Answers iov (inr zero) s kept = fail_write-Answers p q epipe s kept
    sent_some-Answers iov (inr (suc n)) s kept =
        Answers-trans p s (put q _ s) _ (put-Answers p q _ s (λ e. e) (λ e. e)) (
          if-Answers_engine p (put q _ s) (leb (s.streams q).write_size _) _ _
            (complete_write_locked-Answers p q (put q _ s) (ground arith))
            (rest (put q _ s) (ground arith)))

    send_iov-Answers :
        (iov : List (List ℕ)) (s : LinuxAsyncEngine K)
        → (s.streams q).removing ≡ false
        → Answers p s (send_iov sys next q q iov s)
    unfolding send_iov
    send_iov-Answers [] s kept = complete_write_locked-Answers p q s kept
    send_iov-Answers (x ∷ xs) s kept =
        let (answer, k) = sys.sendmsg s.kernel (handle q s) (x ∷ xs) in
        Answers-trans p s (record s { kernel = k }) _ (kernel-Answers p k s)
          (sent_some-Answers (x ∷ xs) answer (record s { kernel = k }) kept)

  write_rounds-Answers :
      (rounds q : ℕ) (s : LinuxAsyncEngine K)
      → (s.streams q).removing ≡ false
      → Answers p s (write_rounds sys rounds q q s)
  unfolding write_rounds
  write_rounds-Answers zero q s kept =
      still-Answers p s _ ([], sym (append-nil s.reported)) (λ e. e) (λ e. e)
  write_rounds-Answers (suc rounds) q s kept =
      send_iov-Answers (write_rounds sys rounds q q) q (write_rounds-Answers rounds q)
        (build_iov (s.streams q).write_buffers.views (s.streams q).write_offset max_iov) s kept

  write_owned-Answers :
      (q : ℕ) (owner : Option ℕ) (s : LinuxAsyncEngine K)
      → ((o : ℕ) → owner ≡ some o → o ≡ q)
      → (s.streams q).removing ≡ false
      → Answers p s (write_owned sys q owner s).1
  unfolding write_owned
  write_owned-Answers q none s own kept = Answers-refl p s
  write_owned-Answers q (some o) s own kept =
      let rounds : ℕ = suc ((s.streams q).write_size - (s.streams q).write_offset) in
      subst (λ o. Answers p s (write_rounds sys rounds q o s)) (sym (own o refl))
        (write_rounds-Answers rounds q s kept)

  pub try_write_locked-Answers :
      (q : ℕ) (s : LinuxAsyncEngine K)
      → IsOwn q s
      → (s.streams q).removing ≡ false
      → Answers p s (try_write_locked sys q s).1
  unfolding try_write_locked
  try_write_locked-Answers q s own kept =
      if-Answers p s (not (s.streams q).write_pending) (true, s)
        (write_owned sys q (find_stream_locked q s) s) (Answers-refl p s)
        (write_owned-Answers q (find_stream_locked q s) s own kept)

  interest_set-Answers :
      (q : ℕ) (interest : Interest) (owner answer : Option ℕ) (s : LinuxAsyncEngine K)
      → ((o : ℕ) → owner ≡ some o → o ≡ q)
      → (s.streams q).removing ≡ false
      → Answers p s (interest_set sys q interest owner answer s).1
  unfolding interest_set signal_stop_event
  interest_set-Answers q interest owner none s own kept = armed (handle q s)
    where
      armed : (h : Option ℕ) → Answers p s (arm h interest s)
      armed none = Answers-refl p s
      armed (some fd) = still-Answers p s _ ([], sym (append-nil s.reported)) (λ e. e) (λ e. e)
  interest_set-Answers q interest none (some errno) s own kept = Answers-refl p s
  interest_set-Answers q interest (some o) (some errno) s own kept =
      let stream : LinuxAsyncStream = end_write (end_read (s.streams q)) in
      let t : LinuxAsyncEngine K = queue_result_locked o error none 0 errno (put q stream s) in
      Answers-trans p s t _
        (subst (λ o. Answers p s (queue_result_locked o error none 0 errno (put q stream s)))
          (sym (own o refl)) (ended-Answers p q stream error none 0 errno s kept refl))
        (kernel-Answers p _ t)

  pub update_interest_locked-Answers :
      (q : ℕ) (s : LinuxAsyncEngine K)
      → ((s.streams q).removing ≡ false → IsOwn q s)
      → Answers p s (update_interest_locked sys q s).1
  unfolding update_interest_locked
  update_interest_locked-Answers q s own =
      let stream : LinuxAsyncStream = s.streams q in
      let (answer, k) = sys.ctl_mod s.kernel (handle q s) (make_event stream) in
      let t : LinuxAsyncEngine K = record s { kernel = k } in
      refused (stream.removing || (not stream.read_pending && not stream.write_pending))
        (interest_set sys q (make_event stream) (find_stream_locked q s) answer t)
        (λ e.
          let kept : stream.removing ≡ false = ground arith in
          Answers-trans p s t _ (kernel-Answers p k s) (
            interest_set-Answers q (make_event stream) (find_stream_locked q s) answer t (own kept)
              kept))
    where
      refused :
          (b : Bool) (t : Bool × LinuxAsyncEngine K)
          → (b ≡ false → Answers p s t.1)
          → Answers p s (if b then (true, s) else t).1
      refused true t h = Answers-refl p s
      refused false t h = h refl
