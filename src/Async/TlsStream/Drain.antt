-- ===== src/Async/TlsStream/Drain.antt =====
-- DrainEncryptedOutput of Async/AsyncTlsStream.cpp.
use syncme.Prelude.{
  Option, ◌∙◌, ℕ, zero, suc, ◌+◌, ◌≤◌, ◌<◌, arith, length, subst, sym, ap, ◌≡◌, refl, Bool, true,
  false, not, some, List, ◌==◌, ◌⊎◌, inl, inr, if◌then◌else◌, min,
}
use syncme.Async.WriteQueue.{AsyncWriteQueue, push_buffer}
use syncme.Async.WriteQueue.Accepts.{Accepts, push_buffer-Accepts}
use syncme.Async.TlsStream.{
  encrypted_chunk_size, SslApi, Lower, ErrorText, lower_write_failed, drain_no_wbio, TlsStream,
  Action, refuse,
}
use syncme.Async.TlsStream.Drive.{drain_answer, drain_loop, drain_encrypted_output}

-- What draining leaves alone, as a view of the stream.
abbrev pub IsApart : {S A : Type 0} → (TlsStream S → A) → Type 0
IsApart {S = S} view =
    (s : TlsStream S) (ssl : S) (writer : AsyncWriteQueue) (text : Option ErrorText)
    → view (record s { ssl = ssl; lower_writer = writer; last_error = text }) ≡ view s

module _ {S A : Type 0} (api : SslApi S) (low : Lower) (view : TlsStream S → A)
    (apart : IsApart view) where
  if-keeps :
      {a : A} (b : Bool) (x y : Bool × TlsStream S)
      → view x.1 ≡ a
      → view y.1 ≡ a
      → view (if b then x else y).1 ≡ a
  if-keeps true x y p q = p
  if-keeps false x y p q = q

  drain_answer-keeps :
      (next : Action S)
      → ((s : TlsStream S) → view (next s).1 ≡ view s)
      → (r : Bool ⊎ List ℕ) (s : TlsStream S) → view (drain_answer api low next r s).1 ≡ view s
  unfolding drain_answer
  drain_answer-keeps next p (inl true) s = refl
  drain_answer-keeps next p (inl false) s = apart s _ _ _
  drain_answer-keeps next p (inr bytes) s =
      let (started, writer) = push_buffer low.writes s.lower_writer (some bytes) in
      if-keeps (not started) (refuse lower_write_failed (record s { lower_writer = writer }))
        (next (record s { lower_writer = writer })) (apart s _ _ _) (p _ ∙ apart s _ _ _)

  drain_loop-keeps : (fuel : ℕ) (s : TlsStream S) → view (drain_loop api low fuel s).1 ≡ view s
  unfolding drain_loop
  drain_loop-keeps zero s = refl
  drain_loop-keeps (suc fuel) s =
      let (r, ssl) = api.wbio_read s.ssl (min (api.wbio_pending s.ssl) encrypted_chunk_size) in
      if-keeps (api.wbio_pending s.ssl == 0) (true, s)
        (drain_answer api low (drain_loop api low fuel) r (record s { ssl = ssl })) refl
        (drain_answer-keeps (drain_loop api low fuel) (drain_loop-keeps fuel) r _ ∙ apart s _ _ _)

  pub drain-keeps : (s : TlsStream S) → view (drain_encrypted_output api low s).1 ≡ view s
  unfolding drain_encrypted_output
  drain-keeps s =
      if-keeps (not s.has_bios) (refuse drain_no_wbio s) _ (apart s _ _ _) (drain_loop-keeps _ s)

-- A memory BIO gives bytes while it holds some, and holds as many fewer.
pub record IsMemoryBio {S : Type 0} (api : SslApi S) : Type 0 where
  pub gives :
      (s : S) (size : ℕ)
      → 0 < api.wbio_pending s
      → 0 < size
      → (bytes : List ℕ) × (ssl : S) × (api.wbio_read s size ≡ (inr bytes, ssl))
        × (0 < length bytes)
        × (api.wbio_pending ssl + length bytes ≡ api.wbio_pending s)

module _ {S : Type 0} (api : SslApi S) (low : Lower) (bio : IsMemoryBio api)
    (accepts : Accepts low.writes) where
  -- The answer is true, and nothing is left in the BIO.
  IsDrained : Bool × TlsStream S → Type 0
  IsDrained m = (m.0 ≡ true) × (api.wbio_pending m.1.ssl ≡ 0)

  if-IsDrained :
      (b : Bool) (x y : Bool × TlsStream S)
      → (b ≡ true → IsDrained x)
      → (b ≡ false → IsDrained y)
      → IsDrained (if b then x else y)
  if-IsDrained true x y p q = p refl
  if-IsDrained false x y p q = q refl

  -- What the next rounds have to do.
  Drains : Action S → S → Type 0
  unfolding IsDrained
  Drains next ssl =
      (s : TlsStream S) → s.ssl ≡ ssl → s.lower_writer.stream ≡ true → IsDrained (next s)

  drain_answer-IsDrained :
      (next : Action S) (bytes : List ℕ) (s : TlsStream S)
      → 0 < length bytes
      → s.lower_writer.stream ≡ true
      → Drains next s.ssl
      → IsDrained (drain_answer api low next (inr bytes) s)
  unfolding Drains drain_answer
  drain_answer-IsDrained next bytes s h e p =
      let (started, writer) = push_buffer low.writes s.lower_writer (some bytes) in
      let (a, attached) = push_buffer-Accepts low.writes s.lower_writer bytes accepts e h in
      if-IsDrained (not started) (refuse lower_write_failed (record s { lower_writer = writer }))
        (next (record s { lower_writer = writer })) (λ k. ground arith) (λ _. p _ refl attached)

  -- One round, on what BIO_read gives.
  round-IsDrained :
      (next : Action S) (s : TlsStream S) (r : (Bool ⊎ List ℕ) × S) (bytes : List ℕ) (ssl : S)
      → s.lower_writer.stream ≡ true
      → r ≡ (inr bytes, ssl)
      → 0 < length bytes
      → Drains next ssl
      → IsDrained (drain_answer api low next r.0 (record s { ssl = r.1 }))
  round-IsDrained next s r bytes ssl e k h p =
      subst (λ m. IsDrained (drain_answer api low next m.0 (record s { ssl = m.1 }))) (sym k)
        (drain_answer-IsDrained next bytes (record s { ssl = ssl }) h e p)

  drain_loop-IsDrained :
      (fuel : ℕ) (s : TlsStream S)
      → api.wbio_pending s.ssl ≤ fuel
      → s.lower_writer.stream ≡ true
      → IsDrained (drain_loop api low fuel s)
  unfolding IsDrained Drains drain_loop
  drain_loop-IsDrained zero s h e = (refl, omega arith)
  drain_loop-IsDrained (suc fuel) s h e =
      let (r, ssl) = api.wbio_read s.ssl (min (api.wbio_pending s.ssl) encrypted_chunk_size) in
      if-IsDrained (api.wbio_pending s.ssl == 0) (true, s)
        (drain_answer api low (drain_loop api low fuel) r (record s { ssl = ssl }))
        (λ k. (refl, ground arith))
        (λ k.
          let (bytes, ssl', given, some_bytes, fewer) =
            bio.gives s.ssl _ (ground arith) (ground arith) in
          round-IsDrained (drain_loop api low fuel) s _ bytes ssl' e given some_bytes
            (λ s' same attached.
              drain_loop-IsDrained fuel s' (omega (arith, ap api.wbio_pending same)) attached))

-- DrainEncryptedOutput comes to an end: where it has a memory BIO, and a lower stream is
-- attached and takes on every write, it returns true with nothing left in the BIO.
pub drain_encrypted_output-IsDrained :
    {S : Type 0} (api : SslApi S) (low : Lower) (s : TlsStream S)
    → IsMemoryBio api
    → Accepts low.writes
    → s.has_bios ≡ true
    → s.lower_writer.stream ≡ true
    → let (drained, s') = drain_encrypted_output api low s in
      (drained ≡ true) × (api.wbio_pending s'.ssl ≡ 0)
unfolding IsDrained drain_encrypted_output
drain_encrypted_output-IsDrained api low s bio accepts b e =
    if-IsDrained api low bio accepts (not s.has_bios) (refuse drain_no_wbio s)
      (drain_loop api low _ s) (λ k. cc (ap not b))
      (λ _. drain_loop-IsDrained api low bio accepts (api.wbio_pending s.ssl) s (omega arith) e)
