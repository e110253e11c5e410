-- ===== src/Async/LinuxStream/Results.antt =====
-- The results of Async/AsyncStreamLinux.cpp: their order, and streams that are being removed.
pub mod Events
pub mod Removal
pub mod Run
use syncme.Prelude.{
  ℕ, suc, ◌+◌, ◌≡◌, ◌≢◌, ◌≤◌, ◌<◌, refl, sym, ap, ◌∙◌, arith, Bool, true, false, not, ◌&&◌, ◌||◌,
  Option, none, some, List, [], ◌∷◌, ◌++◌, append-nil, append_assoc, if◌then◌else◌, ◌==◌,
}
use syncme.Async.TlsStream.{error}
use syncme.Async.LinuxStream.{
  Kernel, LinuxAsyncStream, Result, LinuxAsyncEngine, put, queue_result_locked,
}
use syncme.Async.LinuxStream.Quiet.{AreFor, Quiet}

-- The results are for streams that are made and not being removed, or for none.
abbrev pub AreOpen : {K : Type 0} → LinuxAsyncEngine K → List Result → Type 0
AreOpen s [] = Unit {0}
AreOpen s (r ∷ rs) =
    ((p : ℕ) → r.stream ≡ some p → p < s.made → (s.streams p).removing ≡ false) × AreOpen s rs

module _ {K : Type 0} where
  AreFor-AreOpen : (s : LinuxAsyncEngine K) (rs : List Result) → AreFor s rs → AreOpen s rs
  AreFor-AreOpen s [] h = tt
  AreFor-AreOpen s (r ∷ rs) h = ((λ p e l. h.0 p e), AreFor-AreOpen s rs h.1)

  -- From `s` to `t` streams stay in removal, and the results that were queued come behind those that
  -- there were, in the order of their queueing.
  pub record Extends (s t : LinuxAsyncEngine K) : Type 0 where
    pub made : s.made ≤ t.made
    pub removing :
        (p : ℕ) → p < s.made → (s.streams p).removing ≡ true → (t.streams p).removing ≡ true
    pub results :
        (rs : List Result) × (t.popped ++ t.pending_results ≡ (s.popped ++ s.pending_results) ++ rs)
        × (t.reported ≡ s.reported ++ rs)
        × AreOpen s rs

  pub still-Extends :
      (s t : LinuxAsyncEngine K)
      → t.popped ++ t.pending_results ≡ s.popped ++ s.pending_results
      → t.reported ≡ s.reported
      → s.made ≤ t.made
      → ((p : ℕ) → p < s.made → (s.streams p).removing ≡ true → (t.streams p).removing ≡ true)
      → Extends s t
  still-Extends s t a b m h = record {
    made = m;
    removing = h;
    results = (
      [],
      a ∙ sym (append-nil (s.popped ++ s.pending_results)),
      b ∙ sym (append-nil s.reported),
      tt,
    );
  }

  AreOpen-append :
      (s t : LinuxAsyncEngine K) (rs us : List Result)
      → s.made ≤ t.made
      → ((p : ℕ) → p < s.made → (s.streams p).removing ≡ true → (t.streams p).removing ≡ true)
      → AreOpen s rs
      → AreOpen t us
      → AreOpen s (rs ++ us)
  AreOpen-append s t [] [] m e h k = tt
  AreOpen-append s t [] (u ∷ us) m e h k = (
    (λ p q l. still (s.streams p).removing (e p l) (k.0 p q (omega arith))),
    AreOpen-append s t [] us m e tt k.1,
  )
    where
      still : (b : Bool) {c : Bool} → (b ≡ true → c ≡ true) → c ≡ false → b ≡ false
      still true h k = sym (h refl) ∙ k
      still false h k = refl
  AreOpen-append s t (r ∷ rs) us m e h k = (h.0, AreOpen-append s t rs us m e h.1 k)

  pub Extends-refl : (s : LinuxAsyncEngine K) → Extends s s
  Extends-refl s = still-Extends s s refl refl (omega arith) (λ p l h. h)

  pub Extends-trans : (s t u : LinuxAsyncEngine K) → Extends s t → Extends t u → Extends s u
  Extends-trans s t u h k =
      let (rs, hp, hr, hf) = h.results in
      let (us, kp, kr, kf) = k.results in
      record {
        made = omega (arith, h.made, k.made);
        removing = λ p l e. k.removing p (omega (arith, h.made)) (h.removing p l e);
        results = (
          rs ++ us,
          kp ∙ ap (λ l. l ++ us) hp ∙ append_assoc (s.popped ++ s.pending_results) rs us,
          kr ∙ ap (λ l. l ++ us) hr ∙ append_assoc s.reported rs us,
          AreOpen-append s t rs us h.made h.removing hf kf,
        );
      }

  pub Quiet-Extends : (s t : LinuxAsyncEngine K) → Quiet s t → Extends s t
  Quiet-Extends s t q =
      let (rs, hp, hr, hf) = q.results in
      record {
        made = omega (arith, q.made);
        removing = λ p l e. q.removing p ∙ e;
        results = (
          rs,
          ap (λ l. l ++ t.pending_results) q.popped
              ∙ ap (λ l. s.popped ++ l) hp
              ∙ sym (append_assoc s.popped s.pending_results rs),
          hr,
          AreFor-AreOpen s rs hf,
        );
      }

  pub put-Extends :
      (p : ℕ) (stream : LinuxAsyncStream) (s : LinuxAsyncEngine K)
      → ((s.streams p).removing ≡ true → stream.removing ≡ true)
      → Extends s (put p stream s)
  put-Extends p stream s h =
      still-Extends s (put p stream s) refl refl (omega arith) (λ q l e. ground arith)

  pub if-Extends {ℓ} :
      {A : Type ℓ} (s : LinuxAsyncEngine K) (b : Bool) (t u : A × LinuxAsyncEngine K)
      → Extends s t.1
      → Extends s u.1
      → Extends s (if b then t else u).1
  if-Extends s true t u h k = h
  if-Extends s false t u h k = k

  pub if-Extends_engine :
      (s : LinuxAsyncEngine K) (b : Bool) (t u : LinuxAsyncEngine K)
      → Extends s t
      → Extends s u
      → Extends s (if b then t else u)
  if-Extends_engine s true t u h k = h
  if-Extends_engine s false t u h k = k
