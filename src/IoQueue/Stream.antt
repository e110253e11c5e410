-- ===== src/IoQueue/Stream.antt =====
-- IO::Queue as a stream of bytes: what goes in, what comes out, and the count that it keeps.
use syncme.Prelude.{
  ℕ, ◌+◌, ◌%◌, ◌≡◌, refl, ap, ◌∙◌, true, false, not, Option, none, some, List, [], ◌∷◌, ◌++◌, arith,
  inl, inr, if◌then◌else◌, Bool-cases, Option-cases, length, length-append, append-nil, add_word,
  word_mod,
}
use syncme.IoQueue.{
  Buffer, Queue, Outcome, ◌>>=◌, exceeds, refused, stored, append, append_joined, joined, back,
  set_back, get_buffer, insert,
}
use syncme.IoQueue.Store.{flatten, flatten-append, fill_lem, copy_at-grow, flatten-set_back}

-- `Total` is the number of queued bytes, as far as a `size_t` holds it.
abbrev pub IsCounted : Queue → Type 0
IsCounted q = q.total ≡ length (flatten q.packets) % word_mod

-- What a call that adds `cb` bytes leaves, where `content` is the stream with them.
pub record Gains (q : Queue) (cb : ℕ) (content : List ℕ) (r : Outcome) : Type 0 where
  pub accepted : r.accepted ≡ not (exceeds q cb)
  pub stream : flatten r.queue.packets ≡ (if exceeds q cb then flatten q.packets else content)
  pub counted : IsCounted r.queue
  pub qsize : r.qsize ≡ r.queue.total
  pub same_limit : r.queue.limit ≡ q.limit

abbrev pub Returns {ℓ} : {A : Type ℓ} → Option A → (A → Type 0) → Type 0
Returns none P = ⊥
Returns (some r) P = P r

pub Returns-bind {ℓ κ} :
    {A : Type ℓ} {B : Type κ} (P : A → Type 0) (Q : B → Type 0) (m : Option A) (f : A → Option B)
    → Returns m P
    → ((a : A) → P a → Returns (f a) Q)
    → Returns (m >>= f) Q
Returns-bind P Q none f h k = absurd h
Returns-bind P Q (some a) f h k = k a h

get_buffer-keeps :
    (q : Queue) (lender : Option Queue)
    → let q' = (get_buffer q lender).1 in
      (q'.packets ≡ q.packets) × (q'.total ≡ q.total) × (q'.limit ≡ q.limit)
unfolding get_buffer
get_buffer-keeps q lender = ground arith

module _ (junk : ℕ → ℕ) (q : Queue) (bytes : List ℕ) (lender : Option Queue) where
  pub append-refused :
      exceeds q (length bytes) ≡ true → append junk q bytes lender ≡ some (refused q lender)
  unfolding append
  append-refused h = rw h

  joined-back : (b : Buffer) → joined q bytes ≡ some b → back q.packets ≡ some b
  unfolding joined
  joined-back b h = ground arith

  pub append-joined :
      (b : Buffer)
      → exceeds q (length bytes) ≡ false
      → joined q bytes ≡ some b
      → append junk q bytes lender
        ≡ some (
            stored
              (record q {
                packets = set_back q.packets (b ++ bytes);
                total = add_word q.total (length bytes);
              })
              lender)
  unfolding append append_joined
  append-joined b h e = rw (h, e, append_joined) (rw (copy_at-grow junk b bytes))

  pub append-new :
      exceeds q (length bytes) ≡ false
      → joined q bytes ≡ none
      → append junk q bytes lender
        ≡ some (
            stored
              (record (get_buffer q lender).1 {
                packets = (get_buffer q lender).1.packets ++ bytes ∷ [];
                total = add_word (get_buffer q lender).1.total (length bytes);
              })
              (get_buffer q lender).2)
  unfolding append append_joined
  append-new h e = rw (h, e, append_joined) (rw (fill_lem junk (get_buffer q lender).0 bytes))

pub refused-Gains :
    (q : Queue) (cb : ℕ) (content : List ℕ) (lender : Option Queue)
    → IsCounted q
    → exceeds q cb ≡ true
    → Gains q cb content (refused q lender)
unfolding refused
refused-Gains q cb content lender v h = ground arith

pub stored-Gains :
    (q q' : Queue) (cb : ℕ) (content : List ℕ) (lender : Option Queue)
    → exceeds q cb ≡ false
    → flatten q'.packets ≡ content
    → q'.total ≡ length content % word_mod
    → q'.limit ≡ q.limit
    → Gains q cb content (stored q' lender)
unfolding stored
stored-Gains q q' cb content lender h c t l = ground arith

counted-append :
    (q : Queue) (xs ys : List ℕ)
    → IsCounted q
    → length xs + length ys ≡ length (flatten q.packets) + length ys
    → add_word q.total (length ys) ≡ length (xs ++ ys) % word_mod
counted-append q xs ys v h = omega (arith, length-append xs ys)

module _ (junk : ℕ → ℕ) (q : Queue) (bytes : List ℕ) (lender : Option Queue) (v : IsCounted q) where
  -- Append to a queue whose `Total` is right: the bytes come at the end of the stream, whether they join the last packet, fill a
  -- buffer kept from before, one of the lender's, or a new one; or the limit refuses them all.
  pub append-Gains :
      Returns (append junk q bytes lender) (Gains q (length bytes) (flatten q.packets ++ bytes))
  append-Gains = elim (Bool-cases (exceeds q (length bytes))) [
    | inl over ↦
        rw (append-refused junk q bytes lender over)
          (refused-Gains q (length bytes) (flatten q.packets ++ bytes) lender v over)
    | inr fits ↦ elim (Option-cases (joined q bytes)) [
      | inl none_fits ↦
          let keeps = get_buffer-keeps q lender in
          rw (append-new junk q bytes lender fits none_fits) (
            stored-Gains q _ (length bytes) (flatten q.packets ++ bytes) _ fits
              (flatten-append (get_buffer q lender).1.packets (bytes ∷ [])
                ∙ ap (λ ps. flatten ps ++ (bytes ++ [])) keeps.0
                ∙ ap (λ t. flatten q.packets ++ t) (append-nil bytes))
              (ap (λ t. add_word t (length bytes)) keeps.1
                ∙ counted-append q (flatten q.packets) bytes v refl)
              keeps.2)
      | inr (b, e) ↦ rw (append-joined junk q bytes lender b fits e) (
          stored-Gains q _ (length bytes) (flatten q.packets ++ bytes) _ fits
            (flatten-set_back q.packets b bytes (joined-back junk q bytes lender b e))
            (counted-append q (flatten q.packets) bytes v refl) refl)
    ]
  ]

  insert-new :
      exceeds q (length bytes) ≡ false
      → insert junk q bytes lender
        ≡ some (
            stored
              (record (get_buffer q lender).1 {
                packets = bytes ∷ (get_buffer q lender).1.packets;
                total = add_word (get_buffer q lender).1.total (length bytes);
              })
              (get_buffer q lender).2)
  unfolding insert
  insert-new h = rw h (rw (fill_lem junk (get_buffer q lender).0 bytes))

  insert-refused :
      exceeds q (length bytes) ≡ true → insert junk q bytes lender ≡ some (refused q lender)
  unfolding insert
  insert-refused h = rw h

  -- Insert: the same at the front of the stream.
  pub insert-Gains :
      Returns (insert junk q bytes lender) (Gains q (length bytes) (bytes ++ flatten q.packets))
  insert-Gains = elim (Bool-cases (exceeds q (length bytes))) [
    | inl over ↦
        rw (insert-refused over)
          (refused-Gains q (length bytes) (bytes ++ flatten q.packets) lender v over)
    | inr fits ↦
        let keeps = get_buffer-keeps q lender in
        rw (insert-new fits) (
          stored-Gains q _ (length bytes) (bytes ++ flatten q.packets) _ fits
            (ap (λ ps. bytes ++ flatten ps) keeps.0)
            (omega (arith, keeps.1, length-append bytes (flatten q.packets))) keeps.2)
  ]
