-- ===== src/Async/LinuxStream/Answers.antt =====
-- In Async/AsyncStreamLinux.cpp, a transfer that ends is answered by a result of its stream.
pub mod Transfer
pub mod Events
pub mod Run
use syncme.Prelude.{
  ℕ, zero, suc, ◌+◌, ◌-◌, ◌≡◌, ◌≢◌, refl, sym, ap, ◌∙◌, arith, Bool, true, false, not, ◌&&◌, ◌||◌,
  Option, none, some, List, [], ◌∷◌, ◌++◌, append-nil, append_assoc, ◌⊎◌, inl, inr, if◌then◌else◌,
  ◌==◌, add_word, leb, length, subst, ℕ_discrete,
}
use syncme.Async.BufferChain.{Buffer}
use syncme.Async.TlsStream.{Operation, read, write, read_closed, error}
use syncme.Async.LinuxStream.{
  max_iov, eagain, epipe, Kernel, LinuxAsyncStream, Result, LinuxAsyncEngine, update, put, handle,
  find_stream_locked, queue_result_locked, make_event, signal_stop_event, origin_of,
}
use syncme.Async.LinuxStream.Transfer.{
  build_iov, concat, end_read, end_write, arm, received, complete_write_locked, fail_write,
  read_owned, read_into, try_read_locked, sent_some, send_iov, write_rounds, write_owned,
  try_write_locked, interest_set, update_interest_locked,
}

-- One of the results is for the stream.
abbrev pub HasFor : ℕ → List Result → Type 0
HasFor p [] = ⊥
HasFor p (r ∷ rs) = (r.stream ≡ some p) ⊎ HasFor p rs

-- From `s` to `t` a result was queued for the stream.
abbrev pub Told : {K : Type 0} → ℕ → LinuxAsyncEngine K → LinuxAsyncEngine K → Type 0
Told p s t = (rs : List Result) × (t.reported ≡ s.reported ++ rs) × HasFor p rs

HasFor-append_left : (p : ℕ) (rs us : List Result) → HasFor p rs → HasFor p (rs ++ us)
HasFor-append_left p [] us h = absurd h
HasFor-append_left p (r ∷ rs) us (inl e) = inl e
HasFor-append_left p (r ∷ rs) us (inr h) = inr (HasFor-append_left p rs us h)

HasFor-append_right : (p : ℕ) (rs us : List Result) → HasFor p us → HasFor p (rs ++ us)
HasFor-append_right p [] us h = h
HasFor-append_right p (r ∷ rs) us h = inr (HasFor-append_right p rs us h)

module _ {K : Type 0} where
  -- What was pending for the stream is pending, or a result was queued for it.
  pub record Answers (p : ℕ) (s t : LinuxAsyncEngine K) : Type 0 where
    pub grows : (rs : List Result) × (t.reported ≡ s.reported ++ rs)
    pub reads : (s.streams p).read_pending ≡ true → ((t.streams p).read_pending ≡ true) ⊎ Told p s t
    pub writes :
        (s.streams p).write_pending ≡ true → ((t.streams p).write_pending ≡ true) ⊎ Told p s t

  -- It is pending after both steps, or told of in one of them.
  Told-trans :
      (p : ℕ) (s t u : LinuxAsyncEngine K) (b c : Bool)
      → Answers p s t
      → Answers p t u
      → (b ≡ true) ⊎ Told p s t
      → (b ≡ true → (c ≡ true) ⊎ Told p t u)
      → (c ≡ true) ⊎ Told p s u
  Told-trans p s t u b c h k (inr (rs, e, m)) f =
      let (us, d) = k.grows in
      inr (
        rs ++ us,
        d ∙ ap (λ l. l ++ us) e ∙ append_assoc s.reported rs us,
        HasFor-append_left p rs us m,
      )
  Told-trans p s t u b c h k (inl e) f = told (f e)
    where
      told : (c ≡ true) ⊎ Told p t u → (c ≡ true) ⊎ Told p s u
      told (inl d) = inl d
      told (inr (us, d, m)) =
          let (rs, e) = h.grows in
          inr (
            rs ++ us,
            d ∙ ap (λ l. l ++ us) e ∙ append_assoc s.reported rs us,
            HasFor-append_right p rs us m,
          )

  pub Answers-trans :
      (p : ℕ) (s t u : LinuxAsyncEngine K) → Answers p s t → Answers p t u → Answers p s u
  Answers-trans p s t u h k =
      let (rs, e) = h.grows in
      let (us, d) = k.grows in
      record {
        grows = (rs ++ us, d ∙ ap (λ l. l ++ us) e ∙ append_assoc s.reported rs us);
        reads = λ m. Told-trans p s t u _ _ h k (h.reads m) k.reads;
        writes = λ m. Told-trans p s t u _ _ h k (h.writes m) k.writes;
      }

  -- Nothing pending has ended.
  pub still-Answers :
      (p : ℕ) (s t : LinuxAsyncEngine K)
      → (rs : List Result) × (t.reported ≡ s.reported ++ rs)
      → ((s.streams p).read_pending ≡ true → (t.streams p).read_pending ≡ true)
      → ((s.streams p).write_pending ≡ true → (t.streams p).write_pending ≡ true)
      → Answers p s t
  still-Answers p s t g r w = record { grows = g; reads = λ m. inl (r m); writes = λ m. inl (w m) }

  pub Answers-refl : (p : ℕ) (s : LinuxAsyncEngine K) → Answers p s s
  Answers-refl p s = still-Answers p s s ([], sym (append-nil s.reported)) (λ e. e) (λ e. e)

  pub kernel-Answers :
      (p : ℕ) (k : K) (s : LinuxAsyncEngine K) → Answers p s (record s { kernel = k })
  kernel-Answers p k s = still-Answers p s _ ([], sym (append-nil s.reported)) (λ e. e) (λ e. e)

  pub if-Answers {ℓ} :
      {A : Type ℓ} (p : ℕ) (s : LinuxAsyncEngine K) (b : Bool) (t u : A × LinuxAsyncEngine K)
      → Answers p s t.1
      → Answers p s u.1
      → Answers p s (if b then t else u).1
  if-Answers p s true t u h k = h
  if-Answers p s false t u h k = k

  pub if-Answers_engine :
      (p : ℕ) (s : LinuxAsyncEngine K) (b : Bool) (t u : LinuxAsyncEngine K)
      → Answers p s t
      → Answers p s u
      → Answers p s (if b then t else u)
  if-Answers_engine p s true t u h k = h
  if-Answers_engine p s false t u h k = k

  -- A transfer of a stream that ends and queues its result.
  pub ended-Answers :
      (p q : ℕ) (stream : LinuxAsyncStream) (op : Operation) (buffer : Option Buffer)
      (bytes code : ℕ) (s : LinuxAsyncEngine K)
      → (s.streams q).removing ≡ false
      → stream.removing ≡ (s.streams q).removing
      → Answers p s (queue_result_locked q op buffer bytes code (put q stream s))
  unfolding queue_result_locked
  ended-Answers p q stream op buffer bytes code s kept same = elim (ℕ_discrete p q) [
    | yes e ↦ record {
      grows = (_ ∷ [], reported);
      reads = λ m. inr (_ ∷ [], reported, inl (ap some (sym e)));
      writes = λ m. inr (_ ∷ [], reported, inl (ap some (sym e)));
    }
    | no d ↦ still-Answers p s _ (_ ∷ [], reported) (λ m. ground arith) (λ m. ground arith)
  ]
    where
      reported :
          (queue_result_locked q op buffer bytes code (put q stream s)).reported
          ≡ s.reported
            ++ record {
              stream = some q;
              context = ((put q stream s).streams q).context;
              op = op;
              buffer = buffer;
              bytes = bytes;
              error = code;
              origin = origin_of op;
            }
              ∷ []
      reported = ground arith
