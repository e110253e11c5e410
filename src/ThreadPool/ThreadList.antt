-- ===== src/ThreadPool/ThreadList.antt =====
-- lib/source/ThreadPool/ThreadList.cpp: the handles of threads that run.
-- A handle is a number. Events are set at any time, so that each pass over the list has its own
-- states.
pub mod Update
use syncme.Prelude.{
  ℕ, zero, suc, ◌+◌, ◌≡◌, ◌≤◌, ◌<◌, refl, arith, Bool, true, false, Option, none, some, List, [],
  ◌∷◌, ◌++◌, length, if◌then◌else◌, ◌⊎◌, inl, inr,
}

-- The loop over the list in Update: the first handle that is signalled, and what is left without it.
unfoldable pub find_signalled : (ℕ → Bool) → List ℕ → Option (ℕ × List ℕ)
find_signalled signalled [] = none
find_signalled signalled (h ∷ hs) =
    let rest = find_signalled signalled hs in
    if signalled h then some (h, hs) else elim rest [ none ↦ none | some r ↦ some (r.0, h ∷ r.1) ]

unfoldable pub closing : ℕ → Option (List ℕ × List ℕ) → Option (List ℕ × List ℕ)
closing h none = none
closing h (some r) = some (h ∷ r.0, r.1)

-- Update, with the handles that it closes and those that it leaves. None: more passes follow.
unfoldable pub update : List (ℕ → Bool) → List ℕ → Option (List ℕ × List ℕ)
update [] list = none
update (signalled ∷ passes) list = elim (find_signalled signalled list) [
  | none ↦ some ([], list)
  | some r ↦ closing r.0 (update passes r.1)
]

unfoldable pub add : List (ℕ → Bool) → ℕ → List ℕ → Option (List ℕ × List ℕ)
add passes h list = update passes (list ++ h ∷ [])

-- Wait, with what each WaitForSingleObject answers: whether it is OBJECT_0.
unfoldable pub wait : List Bool → List ℕ → List ℕ × List ℕ
wait answers [] = ([], [])
wait [] (h ∷ hs) = ([], h ∷ hs)
wait (true ∷ answers) (h ∷ hs) = let rest = wait answers hs in (h ∷ rest.0, rest.1)
wait (false ∷ answers) (h ∷ hs) = wait answers (h ∷ hs)
