-- ===== src/TlsHello/Parse.antt =====
-- The two extension parsers inside SelectCertCallback.
use syncme.Prelude.{
  ℕ, zero, suc, ◌+◌, ◌*◌, true, false, ◌||◌, Option, none, some, List, [], ◌∷◌, ◌++◌, ltb, leb,
  ◌==◌, if◌then◌else◌, length, get_elem?, take, drop, add_word,
}

infixl 5 ◌>>=◌
abbrev pub ◌>>=◌ {ℓ κ} : {A : Type ℓ} {B : Type κ} → Option A → (A → Option B) → Option B
none >>= f = none
some a >>= f = f a

-- `ext_data[pos]`
abbrev pub byte_at : List ℕ → ℕ → Option ℕ
byte_at ext pos = get_elem? ext pos

-- `(size_t(ext_data[pos]) << 8) | ext_data[pos + 1]`: of two bytes the operands share no bit.
unfoldable pub read_u16 : List ℕ → ℕ → Option ℕ
read_u16 ext pos = do hi ← byte_at ext pos; lo ← byte_at ext (add_word pos 1); some (hi * 256 + lo)

-- The `len` bytes from `ext_data + pos`.
unfoldable pub read_bytes : List ℕ → ℕ → ℕ → Option (List ℕ)
read_bytes ext pos len =
    if leb (pos + len) (length ext) then some (take len (drop pos ext)) else none

-- `some none` leaves `Sni` as it was.
sni_name : List ℕ → Option (Option (List ℕ))
unfolding read_u16 read_bytes
sni_name ext = read_u16 ext 3 >>= λ name_len.
    if leb (add_word 5 name_len) (length ext)
    then read_bytes ext 5 name_len >>= (λ name. some (some name))
    else some none

sni_entry : List ℕ → Option (Option (List ℕ))
unfolding sni_name
sni_entry ext =
    if leb (add_word 2 3) (length ext)
    then byte_at ext 2 >>= (λ name_type. if name_type == 0 then sni_name ext else some none)
    else some none

unfoldable pub parse_sni : List ℕ → Option (Option (List ℕ))
unfolding sni_entry read_u16
parse_sni ext =
    if leb 5 (length ext)
    then read_u16 ext 0
      >>= (λ list_len. if leb (add_word list_len 2) (length ext) then sni_entry ext else some none)
    else some none

-- The `while` of the ALPN part. It appends to the protocols that `Alpn` holds.
unfoldable pub alpn_loop : ℕ → List ℕ → ℕ → List (List ℕ) → Option (List (List ℕ))
unfolding read_bytes
alpn_loop zero ext pos alpn = none
alpn_loop (suc fuel) ext pos alpn = elim (ltb pos (length ext)) [
  | false ↦ some alpn
  | true ↦ elim (byte_at ext pos) [
    | none ↦ none
    | some proto_len ↦
        elim (proto_len == 0 || ltb (length ext) (add_word (add_word pos 1) proto_len)) [
          | true ↦ some alpn
          | false ↦ elim (read_bytes ext (add_word pos 1) proto_len) [
            | none ↦ none
            | some proto ↦
                alpn_loop fuel ext (add_word (add_word pos 1) proto_len) (alpn ++ proto ∷ [])
          ]
        ]
  ]
]

-- The position grows in every round, so the length of the extension is enough fuel.
unfoldable pub parse_alpn : List ℕ → List (List ℕ) → Option (List (List ℕ))
unfolding read_u16 alpn_loop
parse_alpn ext alpn =
    if leb 2 (length ext)
    then read_u16 ext 0 >>= (λ list_len.
      if leb (add_word list_len 2) (length ext)
      then alpn_loop (suc (length ext)) ext 2 alpn
      else some alpn)
    else some alpn
