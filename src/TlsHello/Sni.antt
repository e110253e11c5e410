-- ===== src/TlsHello/Sni.antt =====
-- The server-name part of SelectCertCallback.
use syncme.Prelude.{
  ℕ, ◌+◌, ◌*◌, ◌^◌, ◌<◌, ◌≤◌, ◌≡◌, refl, none, some, List, [], ◌∷◌, ◌++◌, arith, length, take, drop,
  length-append, take-append_length, dec_le, ℕ_discrete, ◌⊎◌, inl, inr, take-append-drop,
  length-take,
}
use syncme.TlsHello.Alpn.{u16, AreBytes}
use syncme.TlsHello.Parse.{parse_sni}

-- A host name as a client encodes it, with whatever follows it in the extension: the declared
-- list is the first entry and `more` further bytes.
abbrev pub host_list : List ℕ → ℕ → List ℕ → List ℕ
host_list name more rest = u16 (length name + 3 + more) ++ (0 ∷ u16 (length name) ++ (name ++ rest))

-- The host name that a client encodes, in an extension shorter than 2 ^ 16, is what the parser
-- finds, whatever entries follow it there.
pub parse_sni-host_list :
    (name rest : List ℕ) (more : ℕ)
    → more ≤ length rest
    → length (host_list name more rest) < 2 ^ 16
    → parse_sni (host_list name more rest) ≡ some (some name)
unfolding parse_sni
parse_sni-host_list name rest more h small =
    ground (arith, length-append name rest, take-append_length name rest)

host_at :
    (a b t hi lo : ℕ) (body : List ℕ)
    → t ≡ 0
    → lo < 256
    → hi * 256 + lo ≤ length body
    → let name = take (hi * 256 + lo) body in
      a ∷ b ∷ t ∷ hi ∷ lo ∷ body
      ≡ a ∷ b ∷ 0 ∷ u16 (length name) ++ (name ++ drop (hi * 256 + lo) body)
host_at a b t hi lo body host byte fits =
    ground (arith, length-take (hi * 256 + lo) body, take-append-drop (hi * 256 + lo) body)

-- Any bytes of an extension shorter than 2 ^ 16: the parser reads none outside it, and the name that it finds, if any,
-- lies there in full behind the type byte 0 and its length.
pub parse_sni_lem :
    (ext : List ℕ)
    → length ext < 2 ^ 16
    → AreBytes ext
    → (parse_sni ext ≡ some none)
      ⊎ ((head : List ℕ) × (name : List ℕ) × (rest : List ℕ) × (parse_sni ext ≡ some (some name))
          × (length head ≡ 2)
          × (ext ≡ head ++ (0 ∷ u16 (length name) ++ (name ++ rest))))
unfolding parse_sni
parse_sni_lem [] small bytes = inl refl
parse_sni_lem (a ∷ []) small bytes = inl refl
parse_sni_lem (a ∷ b ∷ []) small bytes = inl refl
parse_sni_lem (a ∷ b ∷ t ∷ []) small bytes = inl refl
parse_sni_lem (a ∷ b ∷ t ∷ hi ∷ []) small bytes = inl refl
parse_sni_lem (a ∷ b ∷ t ∷ hi ∷ lo ∷ body) small bytes =
    elim (dec_le (a * 256 + b) (length body + 3)) [
      | no long ↦ inl (ground arith)
      | yes listed ↦ elim (ℕ_discrete t 0) [
        | no other ↦ inl (ground arith)
        | yes host ↦ elim (dec_le (hi * 256 + lo) (length body)) [
          | no long ↦ inl (ground arith)
          | yes fits ↦ inr (
            a ∷ b ∷ [],
            take (hi * 256 + lo) body,
            drop (hi * 256 + lo) body,
            ground arith,
            refl,
            host_at a b t hi lo body host bytes.1.1.1.1.0 fits,
          )
        ]
      ]
    ]
