-- ===== src/Async/TlsStream/Reads.antt =====
-- The plaintext that Async/AsyncTlsStream.cpp gives to its owner.
use syncme.Prelude.{
  ℕ, zero, suc, drop_all, ◌+◌, ◌≡◌, ◌≤◌, refl, ap, sym, ◌∙◌, arith, Bool, true, false, ◌&&◌, Option,
  none, some, List, [], ◌∷◌, ◌++◌, append-nil, append_assoc, length, take, drop, leb, leb→le,
  if◌then◌else◌, inl, inr, drop-drop,
}
use syncme.Async.BufferChain.{Buffer}
use syncme.Async.TlsStream.{SslApi, Lower, Operation, read, Result, TlsStream, queue_result}
use syncme.Async.TlsStream.Drive.{give_adopted, read_answer, end_plain_read}
use syncme.Async.TlsStream.Write.{took, finish_write}
use syncme.Async.TlsStream.Calls.{
  Call, run, close, pop_pending_result, set_result_sink, take_first, has_pending,
}
use syncme.Async.TlsStream.Machine.{
  Step, adjusts, pushes, acknowledges, shuts_down, starts_handshake, completes_handshake,
  ends_handshake, reports_error, reports_closed, begins_read, ends_read, skips_adopted,
  gives_adopted, reads, begins_write, encrypts, drops_write, finishes_write, closes, pops,
  sets_sink, Steps, stays, steps, IsEnd,
}
use syncme.Async.TlsStream.Refine.Calls.{run-Steps}

abbrev pub content : Option Buffer → List ℕ
content none = []
content (some b) = b

-- The bytes of a result that is a Read.
abbrev pub read_bytes : Operation → Option Buffer → List ℕ
read_bytes read buffer = content buffer
read_bytes _ buffer = []

-- The plaintext that a list of results hands over.
abbrev pub delivered : List Result → List ℕ
delivered [] = []
delivered (r ∷ rs) = read_bytes r.op r.buffer ++ delivered rs

abbrev pub joined : List Buffer → List ℕ
joined [] = []
joined (b ∷ bs) = b ++ joined bs

-- What is left of the adopted buffers, `offset` bytes into the first.
abbrev pub left_of : List Buffer → ℕ → List ℕ
left_of [] offset = []
left_of (b ∷ bs) offset = drop offset b ++ joined bs

-- While the stream is not closed: what the owner got, then what is left of the adopted plaintext, is
-- the plaintext that was adopted, then what SSL_read gave.
abbrev pub IsBalanced : {S : Type 0} → List ℕ → TlsStream S → Type 0
IsBalanced adopted s =
    s.removing ≡ false
    → delivered s.reported ++ left_of s.adopted_plain_buffers s.adopted_plain_offset
      ≡ adopted ++ s.decrypted

delivered-append :
    (rs : List Result) (r : Result)
    → delivered (rs ++ r ∷ []) ≡ delivered rs ++ read_bytes r.op r.buffer
delivered-append [] r = append-nil _
delivered-append (x ∷ rs) r =
    ap (λ t. read_bytes x.op x.buffer ++ t) (delivered-append rs r)
    ∙ sym (append_assoc (read_bytes x.op x.buffer) (delivered rs) _)

delivered-first :
    (left : List ℕ) (rs : List Result) (r : Result) (chunk : List ℕ)
    → read_bytes r.op r.buffer ≡ chunk
    → delivered (rs ++ r ∷ []) ++ left ≡ delivered rs ++ (chunk ++ left)
delivered-first left rs r chunk e =
    ap (λ t. t ++ left) (delivered-append rs r ∙ ap (λ t. delivered rs ++ t) e)
    ∙ append_assoc (delivered rs) chunk left

-- A result that is no Read hands nothing over.
delivered-other :
    (rs : List Result) (r : Result)
    → read_bytes r.op r.buffer ≡ []
    → delivered (rs ++ r ∷ []) ≡ delivered rs
delivered-other rs r e = delivered-append rs r ∙ ap (λ t. delivered rs ++ t) e ∙ append-nil _

end-silent : (r : Result) → IsEnd r → read_bytes r.op r.buffer ≡ []
end-silent r (inl e) = ap (λ o. read_bytes o r.buffer) e
end-silent r (inr e) = ap (λ o. read_bytes o r.buffer) e

left_of-zero : (bs : List Buffer) → left_of bs 0 ≡ joined bs
left_of-zero [] = refl
left_of-zero (b ∷ bs) = refl

take_rest : (n : ℕ) (xs : List ℕ) → take n xs ++ drop (length (take n xs)) xs ≡ xs
take_rest zero xs = refl
take_rest (suc n) [] = refl
take_rest (suc n) (x ∷ xs) = ap (λ l. x ∷ l) (take_rest n xs)

abbrev chunk_of : ℕ → ℕ → Buffer → Buffer
chunk_of capacity offset source = take capacity (drop offset source)

-- A chunk and what follows it, in the buffer it is taken from.
chunk_first :
    (capacity offset : ℕ) (source : Buffer) (rest : List Buffer)
    → let chunk = take capacity (drop offset source) in
      let used = leb (length source) (offset + length chunk) in
      chunk
        ++ left_of
            (if used then rest else source ∷ rest)
            (if used then 0 else offset + length chunk)
      ≡ drop offset source ++ joined rest
chunk_first capacity offset source rest =
    after (leb (length source) (offset + length (chunk_of capacity offset source))) (leb→le _ _)
  where
    split :
        chunk_of capacity offset source
          ++ drop (offset + length (chunk_of capacity offset source)) source
        ≡ drop offset source
    split =
        ap (λ l. chunk_of capacity offset source ++ l)
          (sym (drop-drop (length (chunk_of capacity offset source)) offset source))
        ∙ take_rest capacity (drop offset source)

    after :
        (used : Bool)
        → (used ≡ true → length source ≤ offset + length (chunk_of capacity offset source))
        → chunk_of capacity offset source
            ++ left_of
                (if used then rest else source ∷ rest)
                (if used then 0 else offset + length (chunk_of capacity offset source))
          ≡ drop offset source ++ joined rest
    after true h =
        ap (λ l. chunk_of capacity offset source ++ l) (left_of-zero rest)
        ∙ ap (λ l. l ++ joined rest)
            (sym (append-nil (chunk_of capacity offset source))
              ∙ ap (λ l. chunk_of capacity offset source ++ l) (sym (drop_all _ source (h refl)))
              ∙ split)
    after false h =
        sym (
          append_assoc (chunk_of capacity offset source)
            (drop (offset + length (chunk_of capacity offset source)) source) (joined rest))
        ∙ ap (λ l. l ++ joined rest) split

-- A result that hands nothing over, while the adopted plaintext stays.
silent :
    (left : List ℕ) (rs : List Result) (r : Result) (all : List ℕ)
    → read_bytes r.op r.buffer ≡ []
    → delivered rs ++ left ≡ all
    → delivered (rs ++ r ∷ []) ++ left ≡ all
silent left rs r all e h = ap (λ t. t ++ left) (delivered-other rs r e) ∙ h

-- A result that hands over a chunk of the adopted plaintext.
given :
    (capacity offset : ℕ) (source : Buffer) (rest buffers : List Buffer) (rs : List Result)
    (r : Result) (all : List ℕ)
    → let chunk = take capacity (drop offset source) in
      let used = leb (length source) (offset + length chunk) in
      buffers ≡ source ∷ rest
      → read_bytes r.op r.buffer ≡ chunk
      → delivered rs ++ left_of buffers offset ≡ all
      → delivered (rs ++ r ∷ [])
          ++ left_of
              (if used then rest else source ∷ rest)
              (if used then 0 else offset + length chunk)
        ≡ all
given capacity offset source rest buffers rs r all e k h =
    delivered-first _ rs r (chunk_of capacity offset source) k
    ∙ ap (λ t. delivered rs ++ t) (chunk_first capacity offset source rest)
    ∙ ap (λ l. delivered rs ++ left_of l offset) (sym e)
    ∙ h

-- A result that hands over bytes of SSL_read, once nothing adopted is left.
decrypts :
    (bytes decrypted adopted : List ℕ) (offset : ℕ) (buffers : List Buffer) (rs : List Result)
    (r : Result)
    → buffers ≡ []
    → read_bytes r.op r.buffer ≡ bytes
    → delivered rs ++ left_of buffers offset ≡ adopted ++ decrypted
    → delivered (rs ++ r ∷ []) ++ left_of buffers offset ≡ adopted ++ (decrypted ++ bytes)
decrypts bytes decrypted adopted offset buffers rs r e k h =
    ap (λ l. delivered (rs ++ r ∷ []) ++ l) none_left
    ∙ append-nil _
    ∙ delivered-append rs r
    ∙ ap (λ t. delivered rs ++ t) k
    ∙ ap (λ t. t ++ bytes) all
    ∙ append_assoc adopted decrypted bytes
  where
    none_left : left_of buffers offset ≡ []
    none_left = ap (λ l. left_of l offset) e

    all : delivered rs ≡ adopted ++ decrypted
    all = sym (append-nil _) ∙ ap (λ l. delivered rs ++ l) (sym none_left) ∙ h

skipped :
    (offset : ℕ) (source : Buffer) (rest buffers : List Buffer)
    → buffers ≡ source ∷ rest
    → length source ≤ offset
    → left_of rest 0 ≡ left_of buffers offset
skipped offset source rest buffers e h =
    left_of-zero rest
    ∙ ap (λ l. l ++ joined rest) (sym (drop_all offset source h))
    ∙ ap (λ l. left_of l offset) (sym e)

close-removing : {S : Type 0} (s : TlsStream S) → (close s).removing ≡ true
unfolding close
close-removing s = ground arith

module _ {S : Type 0} (adopted : List ℕ) where
  Step-IsBalanced :
      {s s' : TlsStream S} → Step S s s' → IsBalanced adopted s → IsBalanced adopted s'
  unfolding close pop_pending_result set_result_sink queue_result give_adopted read_answer took
      finish_write end_plain_read
  Step-IsBalanced (adjusts l) h = h
  Step-IsBalanced (pushes env bytes) h = h
  Step-IsBalanced (acknowledges env n) h = h
  Step-IsBalanced (shuts_down a b) h = h
  Step-IsBalanced (starts_handshake a) h = h
  Step-IsBalanced {s = s} (completes_handshake a b) h = λ o. silent _ s.reported _ _ refl (h o)
  Step-IsBalanced {s = s} (ends_handshake r e a b) h =
      λ o. silent _ s.reported r _ (end-silent r e) (h o)
  Step-IsBalanced {s = s} (reports_error r e a) h =
      λ o. silent _ s.reported r _ (end-silent r (inr e)) (h o)
  Step-IsBalanced {s = s} (reports_closed a) h = λ o. silent _ s.reported _ _ refl (h o)
  Step-IsBalanced (begins_read n a b) h = h
  Step-IsBalanced ends_read h = h
  Step-IsBalanced {s = s} (skips_adopted source rest e a) h =
      λ o. ap (λ l. delivered s.reported ++ l) (skipped _ source rest _ e a) ∙ h o
  Step-IsBalanced {s = s} (gives_adopted source rest capacity e a b) h =
      λ o. given capacity _ source rest _ s.reported _ _ e refl (h o)
  Step-IsBalanced {s = s} (reads bytes a b) h =
      λ o. decrypts bytes _ adopted _ _ s.reported _ b refl (h o)
  Step-IsBalanced (begins_write c a b) h = h
  Step-IsBalanced (encrypts ssl n bytes) h = h
  Step-IsBalanced drops_write h = h
  Step-IsBalanced {s = s} (finishes_write a b c) h = λ o. silent _ s.reported _ _ refl (h o)
  Step-IsBalanced {s = s} closes h = λ o. cc (close-removing s)
  Step-IsBalanced {s = s} pops h = pop s.pending_results
    where
      pop : (rs : List Result) → IsBalanced adopted (take_first s rs).1
      pop [] = h
      pop (r ∷ []) = h
      pop (r ∷ r' ∷ rs) = h
  Step-IsBalanced {s = s} (sets_sink sink) h = sinks sink (has_pending s.pending_results)
    where
      sinks :
          (a b : Bool)
          → IsBalanced adopted (
              if a && b
              then record s { has_sink = a; result_notified = true; notified = s.notified + 1 }
              else record s { has_sink = a; result_notified = false })
      sinks true true = h
      sinks true false = h
      sinks false b = h

  Steps-IsBalanced :
      {s s' : TlsStream S} → Steps S s s' → IsBalanced adopted s → IsBalanced adopted s'
  Steps-IsBalanced stays h = h
  Steps-IsBalanced (steps a b p step) h = Step-IsBalanced step (Steps-IsBalanced p h)

-- No plaintext is lost, repeated or reordered: whatever the calls, until the stream is closed the
-- bytes of the Read results, in order, then what is left of the adopted buffers, are the bytes that
-- were adopted, then those that SSL_read gave.
pub run-IsBalanced :
    {S : Type 0} (api : SslApi S) (adopted : List ℕ) (calls : List (Lower × Call)) (s : TlsStream S)
    → IsBalanced adopted s
    → IsBalanced adopted (run api calls s)
run-IsBalanced api adopted calls s h = Steps-IsBalanced adopted (run-Steps api calls s) h
