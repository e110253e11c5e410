-- ===== src/TlsHello/Alpn.antt =====
-- The ALPN part of SelectCertCallback, on any bytes and on what a client encodes.
use syncme.Prelude.{
  ℕ, zero, suc, ◌+◌, ◌*◌, ◌^◌, ◌<◌, ◌≤◌, ◌≡◌, refl, ap, sym, ◌∙◌, some, List, [], ◌∷◌, ◌++◌, arith,
  length, take, drop, get_elem?, get_elem?_total, drop-eq-cons, drop-drop, take-append-drop,
  length-append, drop-append_length, take-append_length, get_elem?_of_drop, drop_next, ◌-◌, ◌/◌,
  ◌%◌, append-nil, append_assoc, length-take, length-drop, ◌⊎◌, inl, inr, Option, dec_lt, dec_le,
}
use syncme.TlsHello.Parse.{alpn_loop, parse_alpn}

-- One length byte before each protocol: the body of a ProtocolNameList.
abbrev pub entries : List (List ℕ) → List ℕ
entries [] = []
entries (p ∷ ps) = length p ∷ p ++ entries ps

abbrev pub AreBytes : List ℕ → Type 0
AreBytes [] = Unit {0}
AreBytes (b ∷ bs) = (b < 256) × AreBytes bs

AreBytes-get_elem? : (xs : List ℕ) (i : ℕ) {b : ℕ} → AreBytes xs → get_elem? xs i ≡ some b → b < 256
AreBytes-get_elem? [] i h e = cc
AreBytes-get_elem? (x ∷ xs) zero h e = ground arith
AreBytes-get_elem? (x ∷ xs) (suc i) h e = AreBytes-get_elem? xs i h.1 e

abbrev pub AreNames : List (List ℕ) → Type 0
AreNames [] = Unit {0}
AreNames (p ∷ ps) = (0 < length p) × (length p < 256) × AreNames ps

module _ (fuel : ℕ) (ext : List ℕ) (pos : ℕ) (alpn : List (List ℕ)) where
  loop_step :
      (n : ℕ)
      → length ext < 2 ^ 16
      → get_elem? ext pos ≡ some n
      → 0 < n
      → pos + 1 + n ≤ length ext
      → alpn_loop (suc fuel) ext pos alpn
        ≡ alpn_loop fuel ext (pos + 1 + n) (alpn ++ take n (drop (pos + 1) ext) ∷ [])
  unfolding alpn_loop
  loop_step n small at pos_n fits = ground arith

  loop_end : length ext ≤ pos → alpn_loop (suc fuel) ext pos alpn ≡ some alpn
  unfolding alpn_loop
  loop_end h = ground arith

  loop_break :
      (n : ℕ)
      → length ext < 2 ^ 16
      → pos < length ext
      → get_elem? ext pos ≡ some n
      → n < 256
      → (n ≡ 0) ⊎ (length ext < pos + 1 + n)
      → alpn_loop (suc fuel) ext pos alpn ≡ some alpn
  unfolding alpn_loop
  loop_break n small inside at byte h = ground arith

  -- Either the loop ends, or it takes the entry at `pos`.
  loop_cases :
      length ext < 2 ^ 16
      → AreBytes ext
      → (alpn_loop (suc fuel) ext pos alpn ≡ some alpn)
        ⊎ ((n : ℕ) × (get_elem? ext pos ≡ some n) × (0 < n) × (pos + 1 + n ≤ length ext))
  loop_cases small bytes = elim (dec_lt pos (length ext)) [
    | no out ↦ inl (loop_end (omega arith))
    | yes inside ↦
        let (n, at) = get_elem?_total ext pos inside in
        let byte : n < 256 = AreBytes-get_elem? ext pos bytes at in
        elim (dec_lt 0 n) [
          | no z ↦ inl (loop_break n small inside at byte (inl (omega arith)))
          | yes pos_n ↦ elim (dec_le (pos + 1 + n) (length ext)) [
            | no long ↦ inl (loop_break n small inside at byte (inr (omega arith)))
            | yes fits ↦ inr (n, at, pos_n, fits)
          ]
        ]
  ]

-- What lies at `pos`, as one entry and the bytes behind it.
entry_at :
    (ext : List ℕ) (pos n : ℕ) (tail : List ℕ)
    → get_elem? ext pos ≡ some n
    → pos + 1 + n ≤ length ext
    → drop (pos + 1 + n) ext ≡ tail
    → (drop pos ext ≡ n ∷ take n (drop (pos + 1) ext) ++ tail)
      × (length (take n (drop (pos + 1) ext)) ≡ n)
entry_at ext pos n tail at fits e = (
  drop-eq-cons ext pos at
      ∙ ap (λ t. n ∷ t)
          (sym (take-append-drop n (drop (pos + 1) ext))
            ∙ ap (λ t. take n (drop (pos + 1) ext) ++ t) (drop-drop n (pos + 1) ext ∙ e)),
  omega (arith, length-take n (drop (pos + 1) ext), length-drop (pos + 1) ext),
)

-- Any bytes: the loop ends, reads nothing outside, and what it adds are the entries that lie there.
abbrev Reads : List ℕ → ℕ → List (List ℕ) → Option (List (List ℕ)) → Type 0
Reads ext pos alpn r =
    (new : List (List ℕ)) × (rest : List ℕ) × (r ≡ some (alpn ++ new))
    × (drop pos ext ≡ entries new ++ rest)
    × AreNames new

Reads-next :
    (ext : List ℕ) (pos n : ℕ) (alpn : List (List ℕ)) (r : Option (List (List ℕ)))
    → get_elem? ext pos ≡ some n
    → 0 < n
    → n < 256
    → pos + 1 + n ≤ length ext
    → Reads ext (pos + 1 + n) (alpn ++ take n (drop (pos + 1) ext) ∷ []) r
    → Reads ext pos alpn r
Reads-next ext pos n alpn r at pos_n byte fits (new, rest, e, d, names) =
    let name = take n (drop (pos + 1) ext) in
    let (split, len) = entry_at ext pos n (entries new ++ rest) at fits d in
    (
      name ∷ new,
      rest,
      e ∙ ap some (append_assoc alpn (name ∷ []) new),
      split
          ∙ ap (λ k. k ∷ name ++ (entries new ++ rest)) (sym len)
          ∙ ap (λ t. length name ∷ t) (sym (append_assoc name (entries new) rest)),
      (omega (arith, len), omega (arith, len), names),
    )

alpn_loop_lem :
    (fuel : ℕ) (ext : List ℕ) (pos : ℕ) (alpn : List (List ℕ))
    → length ext < 2 ^ 16
    → AreBytes ext
    → length ext < pos + fuel
    → 0 < fuel
    → Reads ext pos alpn (alpn_loop fuel ext pos alpn)
alpn_loop_lem zero ext pos alpn small bytes enough some_fuel = elim some_fuel [ ]
alpn_loop_lem (suc fuel) ext pos alpn small bytes enough some_fuel =
    elim (loop_cases fuel ext pos alpn small bytes) [
      | inl e ↦ ([], drop pos ext, e ∙ ap some (sym (append-nil alpn)), refl, tt)
      | inr (n, at, pos_n, fits) ↦ rw (loop_step fuel ext pos alpn n small at pos_n fits) (
          Reads-next ext pos n alpn _ at pos_n (AreBytes-get_elem? ext pos bytes at) fits (
            alpn_loop_lem fuel ext (pos + 1 + n) (alpn ++ take n (drop (pos + 1) ext) ∷ []) small
              bytes (omega arith) (omega arith)))
    ]

-- Entries that fill the extension to its end are all read.
alpn_loop-entries :
    (fuel : ℕ) (ps : List (List ℕ)) (ext : List ℕ) (pos : ℕ) (alpn : List (List ℕ))
    → AreNames ps
    → length ext < 2 ^ 16
    → drop pos ext ≡ entries ps
    → length (entries ps) < fuel
    → alpn_loop fuel ext pos alpn ≡ some (alpn ++ ps)
alpn_loop-entries zero ps ext pos alpn names small e enough = elim enough [ ]
alpn_loop-entries (suc fuel) [] ext pos alpn names small e enough =
    loop_end fuel ext pos alpn (omega (arith, ap length e, length-drop pos ext))
    ∙ ap some (sym (append-nil alpn))
alpn_loop-entries (suc fuel) (p ∷ ps) ext pos alpn names small e enough =
    loop_step fuel ext pos alpn (length p) small (get_elem?_of_drop ext pos e) names.0
      (omega (arith, room, length-append p (entries ps)))
    ∙ ap (λ t. alpn_loop fuel ext (pos + 1 + length p) (alpn ++ t ∷ []))
        (ap (take (length p)) tail ∙ take-append_length p (entries ps))
    ∙ alpn_loop-entries fuel ps ext (pos + 1 + length p) (alpn ++ p ∷ []) names.2 small
        (sym (drop-drop (length p) (pos + 1) ext)
          ∙ ap (drop (length p)) tail
          ∙ drop-append_length p (entries ps))
        (omega (arith, length-append p (entries ps)))
    ∙ ap some (append_assoc alpn (p ∷ []) ps)
  where
    tail : drop (pos + 1) ext ≡ p ++ entries ps
    tail = drop_next ext pos e

    room : length ext - pos ≡ suc (length (p ++ entries ps))
    room = omega (arith, ap length e, length-drop pos ext)

-- A big-endian 16-bit length.
abbrev pub u16 : ℕ → List ℕ
u16 n = n / 256 ∷ n % 256 ∷ []

entries-append : (ps qs : List (List ℕ)) → entries (ps ++ qs) ≡ entries ps ++ entries qs
entries-append [] qs = refl
entries-append (p ∷ ps) qs =
    ap (λ t. length p ∷ p ++ t) (entries-append ps qs)
    ∙ ap (λ t. length p ∷ t) (sym (append_assoc p (entries ps) (entries qs)))

AreNames-append : (ps qs : List (List ℕ)) → AreNames ps → AreNames qs → AreNames (ps ++ qs)
AreNames-append [] qs hp hq = hq
AreNames-append (p ∷ ps) qs hp hq = (hp.0, hp.1, AreNames-append ps qs hp.2 hq)

parse_alpn-body :
    (hi lo : ℕ) (body : List ℕ) (alpn : List (List ℕ))
    → hi * 256 + lo ≤ length body
    → length body + 2 < 2 ^ 16
    → parse_alpn (hi ∷ lo ∷ body) alpn ≡ alpn_loop (suc (length body + 2)) (hi ∷ lo ∷ body) 2 alpn
unfolding parse_alpn
parse_alpn-body hi lo body alpn h small = ground arith

parse_alpn-short :
    (hi lo : ℕ) (body : List ℕ) (alpn : List (List ℕ))
    → length body < hi * 256 + lo
    → hi * 256 + lo < 2 ^ 16
    → parse_alpn (hi ∷ lo ∷ body) alpn ≡ some alpn
unfolding parse_alpn
parse_alpn-short hi lo body alpn h small = ground arith

-- The list of protocols that a client encodes, each of 1 to 255 bytes and in an extension shorter
-- than 2 ^ 16, is what the parser appends to `Alpn`. Entries that follow the declared list inside
-- the extension are appended too.
pub parse_alpn-entries :
    (ps qs : List (List ℕ)) (alpn : List (List ℕ))
    → AreNames ps
    → AreNames qs
    → length (entries ps ++ entries qs) + 2 < 2 ^ 16
    → parse_alpn (u16 (length (entries ps)) ++ (entries ps ++ entries qs)) alpn
      ≡ some (alpn ++ (ps ++ qs))
parse_alpn-entries ps qs alpn hp hq small =
    parse_alpn-body (length (entries ps) / 256) (length (entries ps) % 256) _ alpn
      (omega (arith, length-append (entries ps) (entries qs))) small
    ∙ alpn_loop-entries _ (ps ++ qs) (u16 (length (entries ps)) ++ (entries ps ++ entries qs)) 2
        alpn (AreNames-append ps qs hp hq) (omega arith) (sym (entries-append ps qs))
        (omega (arith, ap length (entries-append ps qs)))

-- Any bytes of an extension shorter than 2 ^ 16: the parser reads none outside it and ends, and what it appends are
-- names of 1 to 255 bytes, each behind its length, one after the other from the third byte on.
pub parse_alpn_lem :
    (ext : List ℕ) (alpn : List (List ℕ))
    → length ext < 2 ^ 16
    → AreBytes ext
    → (new : List (List ℕ)) × (rest : List ℕ) × (parse_alpn ext alpn ≡ some (alpn ++ new))
      × (ext ≡ take 2 ext ++ (entries new ++ rest))
      × AreNames new
unfolding parse_alpn
parse_alpn_lem [] alpn small bytes = ([], [], ap some (sym (append-nil alpn)), refl, tt)
parse_alpn_lem (x ∷ []) alpn small bytes = ([], [], ap some (sym (append-nil alpn)), refl, tt)
parse_alpn_lem (hi ∷ lo ∷ body) alpn small bytes = elim (dec_le (hi * 256 + lo) (length body)) [
  | no short ↦ (
    [],
    body,
    parse_alpn-short hi lo body alpn (omega arith) (omega arith) ∙ ap some (sym (append-nil alpn)),
    refl,
    tt,
  )
  | yes fits ↦
      let (new, rest, e, d, names) =
        alpn_loop_lem (suc (length body + 2)) (hi ∷ lo ∷ body) 2 alpn small bytes (omega arith)
          (omega arith) in
      (
        new,
        rest,
        parse_alpn-body hi lo body alpn fits (omega arith) ∙ e,
        ap (λ t. hi ∷ lo ∷ t) d,
        names,
      )
]
