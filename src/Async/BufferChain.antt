-- ===== src/Async/BufferChain.antt =====
-- Async/BufferChain.cpp and its header: a list of slices of shared buffers, and its size.
use syncme.Prelude.{
  ℕ, ◌+◌, ◌-◌, ◌≤◌, ◌<◌, ◌%◌, ◌≡◌, refl, ap, sym, ◌∙◌, Bool, true, false, ◌||◌, Option, none, some,
  List, [], ◌∷◌, ◌++◌, arith, length, take, drop, length-append, append-nil, append_assoc,
  length-take, length-drop, ltb, ◌==◌, if◌then◌else◌, add_word, word_mod, ◌↔◌, ◌⊎◌, inl, inr,
  dec_lt, dec_le,
}

-- A shared buffer by its bytes: nobody writes to it while a chain holds it.
abbrev pub Buffer : Type 0
Buffer = List ℕ

pub record BufferView : Type 0 where
  pub buffer : Buffer
  pub offset : ℕ
  pub size : ℕ

pub record BufferChain : Type 0 where
  pub views : List BufferView
  pub total_size : ℕ

abbrev pub empty_chain : BufferChain
empty_chain = record { views = []; total_size = 0 }

-- Add(buffer, offset, size)
unfoldable pub add : BufferChain → Option Buffer → ℕ → ℕ → Bool × BufferChain
add c none offset size = (false, c)
add c (some b) offset size =
    if size == 0
    then (false, c)
    else if ltb (length b) offset || ltb (length b - offset) size
    then (false, c)
    else (
      true,
      record {
        views = c.views ++ record { buffer = b; offset = offset; size = size } ∷ [];
        total_size = add_word c.total_size size;
      },
    )

-- Add(buffer)
unfoldable pub add_buffer : BufferChain → Option Buffer → Bool × BufferChain
unfolding add
add_buffer c none = (false, c)
add_buffer c (some b) = add c (some b) 0 (length b)

pub clear : BufferChain → BufferChain
clear c = empty_chain

unfoldable pub is_empty : BufferChain → Bool
is_empty c = c.total_size == 0

unfoldable pub size : BufferChain → ℕ
size c = c.total_size

-- The move constructor: the new chain, and what is left of the old one.
unfoldable pub move : BufferChain → BufferChain × BufferChain
unfolding clear
move c = (c, clear c)

-- The bytes that a chain stands for.
abbrev pub slice : BufferView → List ℕ
slice v = take v.size (drop v.offset v.buffer)

abbrev pub payload_of : List BufferView → List ℕ
payload_of [] = []
payload_of (v ∷ vs) = slice v ++ payload_of vs

abbrev pub payload : BufferChain → List ℕ
payload c = payload_of c.views

abbrev pub AreViews : List BufferView → Type 0
AreViews [] = Unit {0}
AreViews (v ∷ vs) = (0 < v.size) × (v.offset + v.size ≤ length v.buffer) × AreViews vs

-- Every view lies in its buffer, and the size is that of the bytes.
pub record IsValid (c : BufferChain) : Type 0 where
  pub views : AreViews c.views
  pub sized : c.total_size ≡ length (payload c) % word_mod

payload_of-append :
    (vs ws : List BufferView) → payload_of (vs ++ ws) ≡ payload_of vs ++ payload_of ws
payload_of-append [] ws = refl
payload_of-append (v ∷ vs) ws =
    ap (λ t. slice v ++ t) (payload_of-append vs ws)
    ∙ sym (append_assoc (slice v) (payload_of vs) (payload_of ws))

AreViews-append : (vs ws : List BufferView) → AreViews vs → AreViews ws → AreViews (vs ++ ws)
AreViews-append [] ws h k = k
AreViews-append (v ∷ vs) ws h k = (h.0, h.1, AreViews-append vs ws h.2 k)

module _ (c : BufferChain) (b : Buffer) (offset size : ℕ) where
  added_view : BufferChain
  added_view = record {
    views = c.views ++ record { buffer = b; offset = offset; size = size } ∷ [];
    total_size = add_word c.total_size size;
  }

  add-inside : 0 < size → offset + size ≤ length b → add c (some b) offset size ≡ (true, added_view)
  unfolding add added_view
  add-inside h k = ground arith

  add-outside : (size ≡ 0) ⊎ (length b < offset + size) → add c (some b) offset size ≡ (false, c)
  unfolding add
  add-outside h = ground arith

  payload-added : payload added_view ≡ payload c ++ take size (drop offset b)
  unfolding added_view
  payload-added =
      payload_of-append c.views (record { buffer = b; offset = offset; size = size } ∷ [])
      ∙ ap (λ t. payload c ++ t) (append-nil (take size (drop offset b)))

  added-IsValid : 0 < size → offset + size ≤ length b → IsValid c → IsValid added_view
  unfolding added_view
  added-IsValid h k v = record {
    views =
        AreViews-append c.views (record { buffer = b; offset = offset; size = size } ∷ []) v.views
          (h, k, tt);
    sized = omega (
      arith,
      v.sized,
      ap length payload-added,
      length-append (payload c) (take size (drop offset b)),
      length-take size (drop offset b),
      length-drop offset b,
    );
  }

-- Add keeps a chain valid and takes exactly the slices that are not empty and lie in their buffer;
-- what it takes comes at the end of the chain's bytes, and a refusal changes nothing.
pub add_lem :
    (c : BufferChain) (b : Buffer) (offset size : ℕ)
    → IsValid c
    → let (added, c') = add c (some b) offset size in
      IsValid c'
      × ((added ≡ true) ↔ ((0 < size) × (offset + size ≤ length b)))
      × (payload c' ≡ (if added then payload c ++ take size (drop offset b) else payload c))
add_lem c b offset size v = elim (dec_lt 0 size) [
  | no z ↦
      rw (add-outside c b offset size (inl (omega arith)))
        (v, ((λ e. cc), λ h. absurd (z h.0)), refl)
  | yes some_size ↦ elim (dec_le (offset + size) (length b)) [
    | no out ↦
        rw (add-outside c b offset size (inr (omega arith)))
          (v, ((λ e. cc), λ h. absurd (out h.1)), refl)
    | yes inside ↦ rw (add-inside c b offset size some_size inside) (
      added-IsValid c b offset size some_size inside v,
      ((λ _. (some_size, inside)), λ _. refl),
      payload-added c b offset size,
    )
  ]
]

-- Add(buffer) takes a buffer that is there and is not empty, and takes all of it.
pub add_buffer_lem :
    (c : BufferChain) (byte : ℕ) (bytes : List ℕ)
    → IsValid c
    → let (added, c') = add_buffer c (some (byte ∷ bytes)) in
      (added ≡ true) × IsValid c' × (payload c' ≡ payload c ++ (byte ∷ bytes))
unfolding add_buffer
add_buffer_lem c byte bytes v =
    rw (add-inside c (byte ∷ bytes) 0 (length (byte ∷ bytes)) (omega arith) (omega arith)) (
      refl,
      added-IsValid c (byte ∷ bytes) 0 _ (omega arith) (omega arith) v,
      payload-added c (byte ∷ bytes) 0 (length (byte ∷ bytes))
          ∙ ap (λ t. payload c ++ (byte ∷ t)) (take_all bytes),
    )
  where
    take_all : (xs : List ℕ) → take (length xs) xs ≡ xs
    take_all [] = refl
    take_all (x ∷ xs) = ap (λ t. x ∷ t) (take_all xs)
