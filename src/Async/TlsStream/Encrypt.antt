-- ===== src/Async/TlsStream/Encrypt.antt =====
-- What DrivePlainWrite of Async/AsyncTlsStream.cpp hands to SSL_write.
use syncme.Prelude.{
  ℕ, zero, suc, ◌+◌, ◌-◌, ◌≡◌, ◌≤◌, ◌<◌, refl, ap, sym, ◌∙◌, arith, Bool, true, false, not, ◌&&◌,
  drop_all, drop-append, drop-nil, List, [], ◌∷◌, ◌++◌, append-nil, append_assoc, length, take,
  drop, leb, ◌⊎◌, inl, inr, if◌then◌else◌, subst, length-append, take-append-drop, length-take,
  length-drop, min,
}
use syncme.Async.BufferChain.{BufferView, AreViews, slice, payload_of}
use syncme.Async.TlsStream.{
  SslApi, Lower, tls_write_batch_limit, TlsStream, queue_error, queue_result, reset_plain_write,
  is_want_io,
}
use syncme.Async.TlsStream.Drain.{drain-keeps}
use syncme.Async.TlsStream.Drive.{drain_encrypted_output}
use syncme.Async.TlsStream.Write.{
  Flow, next_view, unwritten_ciphertext, took, write_failed, encrypt_answer, encrypt_bytes,
  encrypt_views,
}

-- SSL_write takes some of the bytes that it is given, and no others.
pub record TakesWhatIsGiven {S : Type 0} (api : SslApi S) : Type 0 where
  pub at_most :
      (s : S) (bytes : List ℕ) (n : ℕ) (ssl : S)
      → api.write s bytes ≡ (inr n, ssl)
      → n < length bytes

-- From `s`, the loops go on with all of `bytes` encrypted and nothing else, or the function returns
-- with the first of them encrypted and nothing else.
abbrev pub Encrypts : {S : Type 0} → TlsStream S → List ℕ → Flow S → Type 0
Encrypts s bytes (inl (_, s')) = (n : ℕ) × (s'.encrypted ≡ s.encrypted ++ take n bytes)
Encrypts s bytes (inr s') =
    (s'.encrypted ≡ s.encrypted ++ bytes)
    × (s'.plain_write_offset ≡ s.plain_write_offset + length bytes)

take-append :
    (xs : List ℕ) (n : ℕ) (ys : List ℕ) → take (length xs + n) (xs ++ ys) ≡ xs ++ take n ys
take-append [] n ys = ap (λ k. take k ys) {x = 0 + n} {y = n} (omega arith)
take-append (x ∷ xs) n ys =
    ap (λ k. take k (x ∷ (xs ++ ys))) {x = suc (length xs) + n} {y = suc (length xs + n)}
      (omega arith)
    ∙ ap (λ l. x ∷ l) (take-append xs n ys)

take_short : (n : ℕ) (xs ys : List ℕ) → take n xs ≡ take (min n (length xs)) (xs ++ ys)
take_short zero [] ys = ap (λ k. take k ys) {x = 0} {y = min 0 0} (omega arith)
take_short (suc n) [] ys = ap (λ k. take k ys) {x = 0} {y = min (suc n) 0} (omega arith)
take_short zero (x ∷ xs) ys =
    ap (λ k. take k (x ∷ (xs ++ ys))) {x = 0} {y = min 0 (suc (length xs))} (omega arith)
take_short (suc n) (x ∷ xs) ys =
    ap (λ l. x ∷ l) (take_short n xs ys)
    ∙ ap (λ k. take k (x ∷ (xs ++ ys))) {x = suc (min n (length xs))}
        {y = min (suc n) (suc (length xs))} (omega arith)

module _ {S : Type 0} where
  Encrypts-append :
      (s s' : TlsStream S) (xs ys : List ℕ) (f : Flow S)
      → Encrypts s xs (inr s')
      → Encrypts s' ys f
      → Encrypts s (xs ++ ys) f
  Encrypts-append s s' xs ys (inl (_, s'')) h (n, e) = (
    length xs + n,
    e
        ∙ ap (λ l. l ++ take n ys) h.0
        ∙ append_assoc s.encrypted xs (take n ys)
        ∙ ap (λ l. s.encrypted ++ l) (sym (take-append xs n ys)),
  )
  Encrypts-append s s' xs ys (inr s'') h k = (
    k.0 ∙ ap (λ l. l ++ ys) h.0 ∙ append_assoc s.encrypted xs ys,
    omega (arith, h.1, k.1, length-append xs ys),
  )

  next_view-Encrypts :
      (s : TlsStream S) (xs ys : List ℕ) (next : TlsStream S → Flow S) (f : Flow S)
      → Encrypts s xs f
      → ((s' : TlsStream S) → Encrypts s' ys (next s'))
      → Encrypts s (xs ++ ys) (next_view next f)
  unfolding next_view
  next_view-Encrypts s xs ys next (inl (_, s')) (n, e) k =
      (min n (length xs), e ∙ ap (λ l. s.encrypted ++ l) (take_short n xs ys))
  next_view-Encrypts s xs ys next (inr s') h k = Encrypts-append s s' xs ys (next s') h (k s')

  if-Encrypts :
      (s : TlsStream S) (bytes : List ℕ) (b : Bool) (x y : Flow S)
      → (b ≡ true → Encrypts s bytes x)
      → (b ≡ false → Encrypts s bytes y)
      → Encrypts s bytes (if b then x else y)
  if-Encrypts s bytes true x y p q = p refl
  if-Encrypts s bytes false x y p q = q refl

length-slice : (v : BufferView) → v.offset + v.size ≤ length v.buffer → length (slice v) ≡ v.size
length-slice v h =
    omega (arith, length-take v.size (drop v.offset v.buffer), length-drop v.offset v.buffer)

module _ {S : Type 0} (api : SslApi S) (low : Lower) (law : TakesWhatIsGiven api) where
  write_failed-encrypted :
      (e : ℕ) (s : TlsStream S) → (write_failed api low e s).1.encrypted ≡ s.encrypted
  unfolding write_failed queue_error queue_result reset_plain_write
  write_failed-encrypted e s =
      choose (is_want_io e) (drain_encrypted_output api low s) _
        (drain-keeps api low (λ s. s.encrypted) (λ s ssl writer text. refl) s)
        (choose (not s.handshake_completed && s.handshake_result_queued) _ _ refl refl)
    where
      choose :
          (b : Bool) (x y : Bool × TlsStream S)
          → x.1.encrypted ≡ s.encrypted
          → y.1.encrypted ≡ s.encrypted
          → (if b then x else y).1.encrypted ≡ s.encrypted
      choose true x y p q = p
      choose false x y p q = q

  encrypt_answer-Encrypts :
      (next : List ℕ → TlsStream S → Flow S) (bytes : List ℕ) (r : (ℕ ⊎ ℕ) × S) (s : TlsStream S)
      → ((n : ℕ) (ssl : S) → r ≡ (inr n, ssl) → n < length bytes)
      → ((n : ℕ) (s' : TlsStream S)
          → n < length bytes
          → Encrypts s' (drop (n + 1) bytes) (next (drop (n + 1) bytes) s'))
      → Encrypts s bytes (encrypt_answer api low next r.1 bytes r.0 s)
  unfolding encrypt_answer took
  encrypt_answer-Encrypts next bytes (inl e, ssl) s h k =
      (0, write_failed-encrypted e _ ∙ sym (append-nil s.encrypted))
  encrypt_answer-Encrypts next bytes (inr n, ssl) s h k =
      subst (λ l. Encrypts s l (next (drop (n + 1) bytes) (took ssl n bytes s)))
        (take-append-drop (n + 1) bytes)
        (Encrypts-append s (took ssl n bytes s) (take (n + 1) bytes) (drop (n + 1) bytes)
          (next (drop (n + 1) bytes) (took ssl n bytes s))
          (refl, omega (arith, length-take (n + 1) bytes, h n ssl refl)) (k n _ (h n ssl refl)))

  encrypt_bytes-Encrypts :
      (fuel : ℕ) (bytes : List ℕ) (s : TlsStream S)
      → length bytes ≤ fuel
      → Encrypts s bytes (encrypt_bytes api low fuel bytes s)
  unfolding encrypt_bytes
  encrypt_bytes-Encrypts zero [] s h = (sym (append-nil s.encrypted), omega arith)
  encrypt_bytes-Encrypts zero (b ∷ bs) s h = absurd (omega arith)
  encrypt_bytes-Encrypts (suc fuel) [] s h = (sym (append-nil s.encrypted), omega arith)
  encrypt_bytes-Encrypts (suc fuel) (b ∷ bs) s h =
      let r : (ℕ ⊎ ℕ) × S = api.write s.ssl (b ∷ bs) in
      if-Encrypts s (b ∷ bs) (leb tls_write_batch_limit (unwritten_ciphertext api low s))
        (inl (drain_encrypted_output api low s))
        (encrypt_answer api low (encrypt_bytes api low fuel) r.1 (b ∷ bs) r.0 s)
        (λ _. (
          0,
          drain-keeps api low (λ s. s.encrypted) (λ s ssl writer text. refl) s
              ∙ sym (append-nil s.encrypted),
        ))
        (λ _.
          encrypt_answer-Encrypts (encrypt_bytes api low fuel) (b ∷ bs) r s
            (λ n ssl e. law.at_most s.ssl (b ∷ bs) n ssl e)
            (λ n s' k.
              encrypt_bytes-Encrypts fuel (drop (n + 1) (b ∷ bs)) s'
                (omega (arith, length-drop (n + 1) (b ∷ bs)))))

  -- Where the views lie in their buffers and SSL_write takes no more than it is given, the
  -- loops of DrivePlainWrite skip what is encrypted already. If they come to their end,
  -- SSL_write took all the rest of the plaintext, in order and once, and the offset counts it;
  -- if they return before, it took a prefix of the rest.
  pub encrypt_views-Encrypts :
      (views : List BufferView) (skip : ℕ) (s : TlsStream S)
      → AreViews views
      → Encrypts s (drop skip (payload_of views)) (encrypt_views api low skip views s)
  unfolding encrypt_views
  encrypt_views-Encrypts [] skip s h =
      subst (λ l. Encrypts s l (inr s)) (sym (drop-nil skip))
        (sym (append-nil s.encrypted), omega arith)
  encrypt_views-Encrypts (v ∷ vs) skip s (some_size, inside, h) =
      let skip' : ℕ = if leb v.size skip then skip - v.size else 0 in
      subst (λ l. Encrypts s l (encrypt_views api low skip (v ∷ vs) s))
        (sym (drop-append skip (slice v) (payload_of vs)))
        (next_view-Encrypts s (drop skip (slice v)) (drop (skip - length (slice v)) (payload_of vs))
          (encrypt_views api low skip' vs)
          (if leb v.size skip
            then inr s
            else encrypt_bytes api low (length (slice v)) (drop skip (slice v)) s)
          (if-Encrypts s (drop skip (slice v)) (leb v.size skip) (inr s) _
            (λ e.
              subst (λ l. Encrypts s l (inr s))
                (sym (drop_all skip (slice v) (ground (arith, length-slice v inside))))
                (sym (append-nil s.encrypted), omega arith))
            (λ e.
              encrypt_bytes-Encrypts (length (slice v)) (drop skip (slice v)) s
                (omega (arith, length-drop skip (slice v)))))
          (λ s'.
            subst (λ n. Encrypts s' (drop n (payload_of vs)) (encrypt_views api low skip' vs s'))
              {x = skip'} {y = skip - length (slice v)} (ground (arith, length-slice v inside))
              (encrypt_views-Encrypts vs skip' s' h)))
