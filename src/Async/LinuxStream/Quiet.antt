-- ===== src/Async/LinuxStream/Quiet.antt =====
-- What the transfers of Async/AsyncStreamLinux.cpp leave alone.
pub mod Transfer
use syncme.Prelude.{
  ℕ, zero, suc, ◌+◌, ◌-◌, ◌≡◌, refl, sym, ap, ◌∙◌, arith, Bool, true, false, not, ◌&&◌, ◌||◌,
  Option, none, some, List, [], ◌∷◌, ◌++◌, append-nil, append_assoc, ◌⊎◌, inl, inr, if◌then◌else◌,
  ◌==◌, add_word, leb,
}
use syncme.Async.BufferChain.{Buffer}
use syncme.Async.TlsStream.{Operation, read, write, read_closed, error}
use syncme.Async.LinuxStream.{
  max_iov, eagain, epipe, Kernel, LinuxAsyncStream, update, handle, find_stream_locked, Result,
  LinuxAsyncEngine, put, queue_result_locked,
}
use syncme.Async.LinuxStream.Transfer.{
  build_iov, received, complete_write_locked, fail_write, read_owned, read_into, try_read_locked,
  sent_some, send_iov, write_rounds, write_owned, try_write_locked,
}

-- No result is for a stream that is being removed.
abbrev pub AreFor : {K : Type 0} → LinuxAsyncEngine K → List Result → Type 0
AreFor s [] = Unit {0}
AreFor s (r ∷ rs) = ((p : ℕ) → r.stream ≡ some p → (s.streams p).removing ≡ false) × AreFor s rs

module _ {K : Type 0} where
  -- From `s` to `t` results were queued at most for streams that are not being removed, operations
  -- may have ended and none began, and nothing was registered or armed.
  pub record Quiet (s t : LinuxAsyncEngine K) : Type 0 where
    pub entries : t.entries ≡ s.entries
    pub armed : t.armed ≡ s.armed
    pub in_flight : t.in_flight ≡ s.in_flight
    pub made : t.made ≡ s.made
    pub popped : t.popped ≡ s.popped
    pub skt : (q : ℕ) → (t.streams q).skt ≡ (s.streams q).skt
    pub removing : (q : ℕ) → (t.streams q).removing ≡ (s.streams q).removing
    pub handles : (k : ℕ) → (t.sockets k).handle ≡ (s.sockets k).handle
    pub reads : (q : ℕ) → (t.streams q).read_pending ≡ true → (s.streams q).read_pending ≡ true
    pub writes : (q : ℕ) → (t.streams q).write_pending ≡ true → (s.streams q).write_pending ≡ true
    pub results :
        (rs : List Result) × (t.pending_results ≡ s.pending_results ++ rs)
        × (t.reported ≡ s.reported ++ rs)
        × AreFor s rs

  AreFor-append :
      (s t : LinuxAsyncEngine K) (rs us : List Result)
      → ((q : ℕ) → (t.streams q).removing ≡ (s.streams q).removing)
      → AreFor s rs
      → AreFor t us
      → AreFor s (rs ++ us)
  AreFor-append s t [] [] e h k = tt
  AreFor-append s t [] (u ∷ us) e h k =
      ((λ p m. sym (e p) ∙ k.0 p m), AreFor-append s t [] us e tt k.1)
  AreFor-append s t (r ∷ rs) us e h k = (h.0, AreFor-append s t rs us e h.1 k)

  pub Quiet-refl : (s : LinuxAsyncEngine K) → Quiet s s
  Quiet-refl s = record {
    entries = refl;
    armed = refl;
    in_flight = refl;
    made = refl;
    popped = refl;
    skt = λ q. refl;
    removing = λ q. refl;
    handles = λ k. refl;
    reads = λ q h. h;
    writes = λ q h. h;
    results = ([], sym (append-nil s.pending_results), sym (append-nil s.reported), tt);
  }

  pub Quiet-trans : (s t u : LinuxAsyncEngine K) → Quiet s t → Quiet t u → Quiet s u
  Quiet-trans s t u h k =
      let (rs, hp, hr, hf) = h.results in
      let (us, kp, kr, kf) = k.results in
      record {
        entries = k.entries ∙ h.entries;
        armed = k.armed ∙ h.armed;
        in_flight = k.in_flight ∙ h.in_flight;
        made = k.made ∙ h.made;
        popped = k.popped ∙ h.popped;
        skt = λ q. k.skt q ∙ h.skt q;
        removing = λ q. k.removing q ∙ h.removing q;
        handles = λ sk. k.handles sk ∙ h.handles sk;
        reads = λ q e. h.reads q (k.reads q e);
        writes = λ q e. h.writes q (k.writes q e);
        results = (
          rs ++ us,
          kp ∙ ap (λ l. l ++ us) hp ∙ append_assoc s.pending_results rs us,
          kr ∙ ap (λ l. l ++ us) hr ∙ append_assoc s.reported rs us,
          AreFor-append s t rs us h.removing hf kf,
        );
      }

  pub queue_result_locked-Quiet :
      (p : ℕ) (op : Operation) (buffer : Option Buffer) (bytes code : ℕ) (s : LinuxAsyncEngine K)
      → Quiet s (queue_result_locked p op buffer bytes code s)
  unfolding queue_result_locked
  queue_result_locked-Quiet p op buffer bytes code s = record {
    entries = refl;
    armed = refl;
    in_flight = refl;
    made = refl;
    popped = refl;
    skt = λ q. refl;
    removing = λ q. refl;
    handles = λ k. refl;
    reads = λ q h. h;
    writes = λ q h. h;
    results = queued (s.streams p).removing _ refl refl;
  }
    where
      queued :
          (b : Bool) (r : Result)
          → r.stream ≡ some p
          → (s.streams p).removing ≡ b
          → (rs : List Result) × ((if b then s.pending_results else s.pending_results ++ r ∷ [])
              ≡ s.pending_results ++ rs)
            × ((if b then s.reported else s.reported ++ r ∷ []) ≡ s.reported ++ rs)
            × AreFor s rs
      queued true r m e = ([], sym (append-nil s.pending_results), sym (append-nil s.reported), tt)
      queued false r m e = (r ∷ [], refl, refl, ((λ q k. ground arith), tt))

  pub put-Quiet :
      (p : ℕ) (stream : LinuxAsyncStream) (s : LinuxAsyncEngine K)
      → stream.skt ≡ (s.streams p).skt
      → stream.removing ≡ (s.streams p).removing
      → (stream.read_pending ≡ true → (s.streams p).read_pending ≡ true)
      → (stream.write_pending ≡ true → (s.streams p).write_pending ≡ true)
      → Quiet s (put p stream s)
  put-Quiet p stream s a b c d = record {
    entries = refl;
    armed = refl;
    in_flight = refl;
    made = refl;
    popped = refl;
    skt = λ q. ground arith;
    removing = λ q. ground arith;
    handles = λ k. refl;
    reads = λ q h. ground arith;
    writes = λ q h. ground arith;
    results = ([], sym (append-nil s.pending_results), sym (append-nil s.reported), tt);
  }

  pub kernel-Quiet : (k : K) (s : LinuxAsyncEngine K) → Quiet s (record s { kernel = k })
  kernel-Quiet k s = record {
    entries = refl;
    armed = refl;
    in_flight = refl;
    made = refl;
    popped = refl;
    skt = λ q. refl;
    removing = λ q. refl;
    handles = λ k. refl;
    reads = λ q h. h;
    writes = λ q h. h;
    results = ([], sym (append-nil s.pending_results), sym (append-nil s.reported), tt);
  }

  -- A transfer that ends and queues its result.
  pub ended-Quiet :
      (p owner : ℕ) (stream : LinuxAsyncStream) (op : Operation) (buffer : Option Buffer)
      (bytes code : ℕ) (s : LinuxAsyncEngine K)
      → stream.skt ≡ (s.streams p).skt
      → stream.removing ≡ (s.streams p).removing
      → (stream.read_pending ≡ true → (s.streams p).read_pending ≡ true)
      → (stream.write_pending ≡ true → (s.streams p).write_pending ≡ true)
      → Quiet s (queue_result_locked owner op buffer bytes code (put p stream s))
  ended-Quiet p owner stream op buffer bytes code s a b c d =
      Quiet-trans s (put p stream s) _ (put-Quiet p stream s a b c d)
        (queue_result_locked-Quiet owner op buffer bytes code (put p stream s))

  pub if-Quiet :
      (s : LinuxAsyncEngine K) (b : Bool) (t u : LinuxAsyncEngine K)
      → (b ≡ true → Quiet s t)
      → (b ≡ false → Quiet s u)
      → Quiet s (if b then t else u)
  if-Quiet s true t u h k = h refl
  if-Quiet s false t u h k = k refl
