-- ===== src/Async/TlsStream/Refine/Reading.antt =====
-- DrivePlainRead of Async/AsyncTlsStream.cpp against the protocol.
use syncme.Prelude.{
  ℕ, ◌≡◌, refl, arith, Bool, true, false, not, Option, none, some, List, [], ◌∷◌, ◌==◌, leb, ◌⊎◌,
  inl, inr, length, if◌then◌else◌, leb→le,
}
use syncme.Async.BufferChain.{Buffer}
use syncme.Async.TlsStream.{
  SslApi, Lower, TlsStream, Action, continue, queue_read_closed, is_want_io, convert_ssl_error, tls,
  ssl_error_zero_return, queue_result,
}
use syncme.Async.TlsStream.Drive.{
  deliver_front, deliver_from, deliver_adopted_plaintext, end_plain_read, give_adopted, read_answer,
  read_plain, drive_plain_read,
}
use syncme.Async.TlsStream.Machine.{
  loose, reports_closed, ends_read, skips_adopted, gives_adopted, reads, Steps, stays, also, once,
  join, Steps-completed,
}
use syncme.Async.TlsStream.Refine.{branch, adjusted, says, calls, queue_error-Steps}

module _ {S : Type 0} where
  deliver_front-Steps :
      (next : Action S) (source : Buffer) (rest : List Buffer) (capacity : ℕ) (s : TlsStream S)
      → s.adopted_plain_buffers ≡ source ∷ rest
      → s.handshake_completed ≡ true
      → ((s' : TlsStream S)
          → s'.adopted_plain_buffers ≡ rest
          → s'.handshake_completed ≡ true
          → Steps S s' (next s').1)
      → Steps S s (deliver_front next source rest capacity s).1
  unfolding deliver_front
  deliver_front-Steps next source rest capacity s e c p =
      branch (leb (length source) s.adopted_plain_offset) _ _
        (λ h. join (once (skips_adopted source rest e (leb→le _ _ h))) (p _ refl c))
        (λ h. once (gives_adopted source rest capacity e (ground arith) c))

  deliver_from-Steps :
      (buffers : List Buffer) (capacity : ℕ) (s : TlsStream S)
      → s.adopted_plain_buffers ≡ buffers
      → s.handshake_completed ≡ true
      → Steps S s (deliver_from buffers capacity s).1
  unfolding deliver_from
  deliver_from-Steps [] capacity s e c = stays
  deliver_from-Steps (source ∷ rest) capacity s e c =
      deliver_front-Steps (deliver_from rest capacity) source rest capacity s e c
        (deliver_from-Steps rest capacity)

  deliver_adopted_plaintext-Steps :
      (capacity : Option ℕ) (s : TlsStream S)
      → s.handshake_completed ≡ true
      → Steps S s (deliver_adopted_plaintext capacity s).1
  unfolding deliver_adopted_plaintext
  deliver_adopted_plaintext-Steps none s c = stays
  deliver_adopted_plaintext-Steps (some n) s c =
      branch (not s.plain_read_pending) _ _ (λ _. stays) (λ _. deliver_from-Steps _ n s refl c)

  read_answer-Steps :
      (r : ℕ ⊎ List ℕ) (s : TlsStream S)
      → s.handshake_completed ≡ true
      → s.adopted_plain_buffers ≡ []
      → Steps S s (read_answer r s).1
  unfolding read_answer queue_read_closed end_plain_read
  read_answer-Steps (inr bytes) s c a = once (reads bytes c a)
  read_answer-Steps (inl e) s c a =
      branch (e == ssl_error_zero_return) _ _
        (λ _.
          also (adjusted (record (loose s) { tls_read_closed = true }) stays)
            (reports_closed (inl c)))
        (λ _.
          branch (is_want_io e) _ _ (λ _. stays)
            (λ _. join (says _ (once ends_read)) (queue_error-Steps (convert_ssl_error e) tls _)))

  -- Nothing adopted is left for a read that is still open.
  IsExhausted : TlsStream S → Type 0
  IsExhausted s =
      (s.plain_read_buffer ≡ none) ⊎ (s.plain_read_pending ≡ false) ⊎ (s.adopted_plain_buffers ≡ [])

  deliver_from-IsExhausted :
      (buffers : List Buffer) (capacity : ℕ) (s : TlsStream S)
      → s.adopted_plain_buffers ≡ buffers
      → IsExhausted (deliver_from buffers capacity s).1
  unfolding IsExhausted deliver_from deliver_front give_adopted queue_result
  deliver_from-IsExhausted [] capacity s e = inr (inr e)
  deliver_from-IsExhausted (source ∷ rest) capacity s e =
      branches (leb (length source) s.adopted_plain_offset) _
        (deliver_from-IsExhausted rest capacity _ refl)
    where
      branches :
          (b : Bool) (x : Bool × TlsStream S)
          → IsExhausted x.1
          → IsExhausted (if b then x else give_adopted source rest capacity s).1
      branches true x h = h
      branches false x h = inl refl

  deliver_adopted_plaintext-IsExhausted :
      (capacity : Option ℕ) (s : TlsStream S)
      → s.plain_read_buffer ≡ capacity
      → IsExhausted (deliver_adopted_plaintext capacity s).1
  unfolding IsExhausted deliver_adopted_plaintext
  deliver_adopted_plaintext-IsExhausted none s e = inl e
  deliver_adopted_plaintext-IsExhausted (some n) s e =
      open_read s.plain_read_pending refl
        (deliver_from-IsExhausted s.adopted_plain_buffers n s refl)
    where
      open_read :
          (b : Bool)
          → s.plain_read_pending ≡ b
          → IsExhausted (deliver_from s.adopted_plain_buffers n s).1
          → IsExhausted (if not b then (true, s) else deliver_from s.adopted_plain_buffers n s).1
      open_read true e h = h
      open_read false e h = inr (inl e)

module _ {S : Type 0} (api : SslApi S) (low : Lower) where
  read_plain-Steps :
      (capacity : Option ℕ) (s : TlsStream S)
      → s.plain_read_buffer ≡ capacity
      → s.handshake_completed ≡ true
      → IsExhausted s
      → Steps S s (read_plain api low capacity s).1
  unfolding IsExhausted read_plain
  read_plain-Steps none s e c x = stays
  read_plain-Steps (some n) s e c x =
      branch (not s.plain_read_pending) _ _ (λ _. stays)
        (λ p.
          let (r, ssl) = api.read s.ssl n in
          join (calls ssl stays) (
            read_answer-Steps r _ c
              (elim x [ inl k ↦ cc | inr (inl k) ↦ ground arith | inr (inr k) ↦ k ])))

  pub drive_plain_read-Steps :
      (s : TlsStream S) → s.handshake_completed ≡ true → Steps S s (drive_plain_read api low s).1
  unfolding drive_plain_read
  drive_plain_read-Steps s c =
      after_delivery (deliver_adopted_plaintext s.plain_read_buffer s)
        (deliver_adopted_plaintext-Steps s.plain_read_buffer s c)
        (deliver_adopted_plaintext-IsExhausted s.plain_read_buffer s refl)
    where
      after_delivery :
          (m : Bool × TlsStream S)
          → Steps S s m.1
          → IsExhausted m.1
          → Steps S s (continue m (λ s'. read_plain api low s'.plain_read_buffer s')).1
      after_delivery (false, s') p x = p
      after_delivery (true, s') p x =
          join p (read_plain-Steps s'.plain_read_buffer s' refl (Steps-completed p c) x)
