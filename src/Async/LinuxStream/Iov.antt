-- ===== src/Async/LinuxStream/Iov.antt =====
-- BuildIov of Async/AsyncStreamLinux.cpp: the entries that sendmsg is given.
use syncme.Prelude.{
  ℕ, zero, suc, ◌+◌, ◌-◌, ◌≡◌, ◌≤◌, ◌<◌, refl, ap, sym, ◌∙◌, arith, Bool, true, false, List, [],
  ◌∷◌, ◌++◌, append_assoc, length, drop, leb, if◌then◌else◌, length-take, length-drop, drop-nil,
  drop-append, drop_all, subst, leb→le,
}
use syncme.Async.BufferChain.{BufferView, AreViews, slice, payload_of}
use syncme.Async.LinuxStream.Transfer.{build_iov, concat}

abbrev pub AreFull : List (List ℕ) → Type 0
AreFull [] = Unit {0}
AreFull (x ∷ xs) = (0 < length x) × AreFull xs

-- The entries hold the first of the bytes, none of them is empty, and with room to spare they hold
-- all.
abbrev pub Covers : ℕ → List ℕ → List (List ℕ) → Type 0
Covers room bytes iov =
    (length iov ≤ room)
    × AreFull iov
    × ((rest : List ℕ) × (concat iov ++ rest ≡ bytes) × (length iov < room → rest ≡ []))

length-slice : (v : BufferView) → v.offset + v.size ≤ length v.buffer → length (slice v) ≡ v.size
length-slice v h =
    omega (arith, length-take v.size (drop v.offset v.buffer), length-drop v.offset v.buffer)

drop-payload_passed :
    (v : BufferView) (vs : List BufferView) (skip : ℕ)
    → length (slice v) ≡ v.size
    → v.size ≤ skip
    → drop (skip - v.size) (payload_of vs) ≡ drop skip (payload_of (v ∷ vs))
drop-payload_passed v vs skip e h = sym (
    drop-append skip (slice v) (payload_of vs)
    ∙ ap (λ l. l ++ drop (skip - length (slice v)) (payload_of vs))
        (drop_all skip (slice v) (omega (arith, e)))
    ∙ ap (λ n. drop (skip - n) (payload_of vs)) e)

drop-payload_within :
    (v : BufferView) (vs : List BufferView) (skip : ℕ)
    → length (slice v) ≡ v.size
    → skip < v.size
    → drop skip (slice v) ++ payload_of vs ≡ drop skip (payload_of (v ∷ vs))
drop-payload_within v vs skip e h = sym (
    drop-append skip (slice v) (payload_of vs)
    ∙ ap (λ n. drop skip (slice v) ++ drop n (payload_of vs)) {x = skip - length (slice v)} {y = 0}
        (omega (arith, e)))

if-Covers :
    (room : ℕ) (bytes : List ℕ) (b : Bool) (x y : List (List ℕ))
    → (b ≡ true → Covers room bytes x)
    → (b ≡ false → Covers room bytes y)
    → Covers room bytes (if b then x else y)
if-Covers room bytes true x y h k = h refl
if-Covers room bytes false x y h k = k refl

entry-Covers :
    (room : ℕ) (x bytes : List ℕ) (iov : List (List ℕ))
    → 0 < length x
    → Covers room bytes iov
    → Covers (suc room) (x ++ bytes) (x ∷ iov)
entry-Covers room x bytes iov h (short, full, (rest, e, all)) = (
  omega arith,
  (h, full),
  (rest, append_assoc x (concat iov) rest ∙ ap (λ l. x ++ l) e, λ l. all (omega arith)),
)

-- With `room` entries, BuildIov gives the first of the bytes behind WriteOffset: no entry is empty,
-- and with fewer than `room` entries they are all of these bytes. The views of the chain are valid.
pub build_iov-Covers :
    (vs : List BufferView) (skip room : ℕ)
    → AreViews vs
    → Covers room (drop skip (payload_of vs)) (build_iov vs skip room)
unfolding build_iov
build_iov-Covers vs skip zero h =
    (omega arith, tt, (drop skip (payload_of vs), refl, (λ l. absurd (omega arith))))
build_iov-Covers [] skip (suc room) h = (omega arith, tt, ([], sym (drop-nil skip), (λ l. refl)))
build_iov-Covers (v ∷ vs) skip (suc room) h =
    let e : length (slice v) ≡ v.size = length-slice v h.1 in
    if-Covers (suc room) (drop skip (payload_of (v ∷ vs))) (leb v.size skip)
      (build_iov vs (skip - v.size) (suc room)) (drop skip (slice v) ∷ build_iov vs 0 room)
      (λ passed.
        subst (λ l. Covers (suc room) l (build_iov vs (skip - v.size) (suc room)))
          (drop-payload_passed v vs skip e (leb→le v.size skip passed))
          (build_iov-Covers vs (skip - v.size) (suc room) h.2))
      (λ within.
        let l : skip < v.size = ground arith in
        subst (λ l. Covers (suc room) l (drop skip (slice v) ∷ build_iov vs 0 room))
          (drop-payload_within v vs skip e l)
          (entry-Covers room (drop skip (slice v)) (payload_of vs) (build_iov vs 0 room)
            (omega (arith, e, length-drop skip (slice v))) (build_iov-Covers vs 0 room h.2)))
