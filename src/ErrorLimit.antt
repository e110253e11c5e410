-- ===== src/ErrorLimit.antt =====
-- lib/source/Sockets/ErrorLimit.cpp: whether errors come too often.
-- The clock is an argument: the time that GetTimeInMillisec returns in the call.
pub mod Window
mod Tests
use syncme.Prelude.{
  ℕ, zero, suc, ◌≡◌, Bool, true, false, Option, none, some, List, [], ◌∷◌, ◌++◌, length, ltb, leb,
  if◌then◌else◌, sub_word,
}

pub record ErrorLimit : Type 0 where
  pub count : ℕ
  pub duration : ℕ
  pub history : List ℕ

pub set_limit : ErrorLimit → ℕ → ℕ → ErrorLimit
set_limit e count duration = record { count = count; duration = duration; history = [] }

-- The constructor
pub error_limit : ℕ → ℕ → ErrorLimit
unfolding set_limit
error_limit count duration =
    set_limit (record { count = 0; duration = 0; history = [] }) count duration

pub clear : ErrorLimit → ErrorLimit
clear e = record e { history = [] }

-- `t - *it > Duration`
is_old : ℕ → ℕ → ℕ → Bool
is_old duration t x = ltb duration (sub_word t x)

-- The inner loop: the history without its first old entry, if there is one.
erase_first : ℕ → ℕ → List ℕ → Option (List ℕ)
unfolding is_old
erase_first duration t [] = none
erase_first duration t (x ∷ xs) =
    if is_old duration t x
    then some xs
    else elim (erase_first duration t xs) [ none ↦ none | some ys ↦ some (x ∷ ys) ]

-- The outer loop, until nothing was erased. Each round erases one entry, so one round more than
-- there are entries is enough.
erase_loop : ℕ → ℕ → ℕ → List ℕ → Option (List ℕ)
unfolding erase_first
erase_loop zero duration t xs = none
erase_loop (suc fuel) duration t xs = elim (erase_first duration t xs) [
  | none ↦ some xs
  | some ys ↦ erase_loop fuel duration t ys
]

reported : ErrorLimit → ℕ → Option (List ℕ) → Option (Bool × ErrorLimit)
reported e t none = none
reported e t (some recent) =
    let history : List ℕ = recent ++ t ∷ [] in
    some (leb e.count (length history), record e { history = history })

-- `none` would be a loop that does not end.
pub report_error : ErrorLimit → ℕ → Option (Bool × ErrorLimit)
unfolding erase_loop reported
report_error e t = reported e t (erase_loop (suc (length e.history)) e.duration t e.history)
