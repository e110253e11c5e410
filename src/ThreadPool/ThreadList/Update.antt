-- ===== src/ThreadPool/ThreadList/Update.antt =====
-- ThreadList.cpp: which handles Update closes.
use syncme.Prelude.{
  ℕ, suc, ◌+◌, ◌≡◌, ◌<◌, refl, arith, Bool, true, false, Option, none, some, List, [], ◌∷◌, length,
  if◌then◌else◌,
}
use syncme.ThreadPool.Submit.{count}
use syncme.ThreadPool.ThreadList.{find_signalled, closing, update}

abbrev pub IsQuiet : (ℕ → Bool) → List ℕ → Type 0
IsQuiet signalled [] = Unit {0}
IsQuiet signalled (h ∷ hs) = (signalled h ≡ false) × IsQuiet signalled hs

-- The passes close these handles, one each, that is signalled in that pass; in the next pass, the
-- last one, none of those that are left is.
abbrev pub ClosedBy : List (ℕ → Bool) → List ℕ → List ℕ → Type 0
ClosedBy [] hs left = ⊥
ClosedBy (signalled ∷ passes) [] left = IsQuiet signalled left
ClosedBy (signalled ∷ passes) (h ∷ hs) left = (signalled h ≡ true) × ClosedBy passes hs left

-- What Update makes of a list, where each handle is closed as often as it is taken from it.
abbrev pub Updated : List (ℕ → Bool) → List ℕ → Option (List ℕ × List ℕ) → Type 0
Updated passes list none = ⊥
Updated passes list (some r) =
    ClosedBy passes r.0 r.1 × ((h : ℕ) → count h r.0 + count h r.1 ≡ count h list)

abbrev Found : (ℕ → Bool) → List ℕ → Option (ℕ × List ℕ) → Type 0
Found signalled list none = IsQuiet signalled list
Found signalled list (some r) =
    (signalled r.0 ≡ true)
    × (length list ≡ suc (length r.1))
    × ((h : ℕ) → count h (r.0 ∷ r.1) ≡ count h list)

first_or_later :
    (b : Bool) (signalled : ℕ → Bool) (h : ℕ) (hs : List ℕ) (r : Option (ℕ × List ℕ))
    → signalled h ≡ b
    → Found signalled hs r
    → Found signalled
        (h ∷ hs)
        (if b then some (h, hs) else elim r [ none ↦ none | some r ↦ some (r.0, h ∷ r.1) ])
first_or_later true signalled h hs r e f = (e, refl, (λ x. refl))
first_or_later false signalled h hs none e f = (e, f)
first_or_later false signalled h hs (some r) e f =
    (f.0, ground (arith, f.1), (λ x. ground (arith, f.2 x)))

find_signalled-Found :
    (signalled : ℕ → Bool) (list : List ℕ) → Found signalled list (find_signalled signalled list)
unfolding find_signalled
find_signalled-Found signalled [] = tt
find_signalled-Found signalled (h ∷ hs) =
    first_or_later (signalled h) signalled h hs (find_signalled signalled hs) refl
      (find_signalled-Found signalled hs)

closing-Updated :
    (signalled : ℕ → Bool) (passes : List (ℕ → Bool)) (list rest : List ℕ) (h : ℕ)
    (r : Option (List ℕ × List ℕ))
    → Found signalled list (some (h, rest))
    → Updated passes rest r
    → Updated (signalled ∷ passes) list (closing h r)
unfolding closing
closing-Updated signalled passes list rest h none f u = absurd u
closing-Updated signalled passes list rest h (some r) f u =
    ((f.0, u.0), (λ x. ground (arith, f.2 x, u.1 x)))

passed :
    (signalled : ℕ → Bool) (passes : List (ℕ → Bool)) (list : List ℕ) (r : Option (ℕ × List ℕ))
    → ((l : List ℕ) → length l < length passes → Updated passes l (update passes l))
    → length list < suc (length passes)
    → Found signalled list r
    → Updated
        (signalled ∷ passes)
        list
        (elim r [ none ↦ some ([], list) | some r ↦ closing r.0 (update passes r.1) ])
passed signalled passes list none ih h f = (f, (λ x. omega arith))
passed signalled passes list (some r) ih h f =
    closing-Updated signalled passes list r.1 r.0 (update passes r.1) f
      (ih r.1 (omega (arith, h, f.1)))

-- Update returns after at most one pass more than there are handles. Each pass but the last closes
-- one handle that is signalled in that pass, and in the last pass none of those that are left is
-- signalled. Each handle is closed as often as it is taken from the list.
pub update-Updated :
    (passes : List (ℕ → Bool)) (list : List ℕ)
    → length list < length passes
    → Updated passes list (update passes list)
unfolding update
update-Updated [] list h = absurd (omega arith)
update-Updated (signalled ∷ passes) list h =
    passed signalled passes list (find_signalled signalled list) (update-Updated passes) h
      (find_signalled-Found signalled list)
