-- ===== src/ErrorLimit/Window.antt =====
-- What ErrorLimit.cpp counts.
use syncme.Prelude.{
  ℕ, zero, suc, ◌≤◌, ◌<◌, ◌≡◌, refl, ap, sym, ◌∙◌, Bool, Option, none, some, List, [], ◌∷◌, ◌++◌,
  arith, length, ltb, leb, if◌then◌else◌, sub_word, word_mod, Bool-cases, ◌⊎◌, inl, inr,
  append_assoc,
}
use syncme.ErrorLimit.{ErrorLimit, is_old, erase_first, erase_loop, report_error, reported}

-- The entries that are not old, in their order.
abbrev pub recent : ℕ → ℕ → List ℕ → List ℕ
recent duration t [] = []
recent duration t (x ∷ xs) =
    if ltb duration (sub_word t x) then recent duration t xs else x ∷ recent duration t xs

erase_first_lem :
    (duration t : ℕ) (xs : List ℕ)
    → ((erase_first duration t xs ≡ none) × (recent duration t xs ≡ xs))
      ⊎ ((ys : List ℕ) × (erase_first duration t xs ≡ some ys)
          × (recent duration t xs ≡ recent duration t ys)
          × (length xs ≡ suc (length ys)))
unfolding erase_first is_old
erase_first_lem duration t [] = inl (refl, refl)
erase_first_lem duration t (x ∷ xs) = elim (Bool-cases (ltb duration (sub_word t x))) [
  | inl old ↦ inr (xs, ground arith, ground arith, refl)
  | inr new ↦ elim (erase_first_lem duration t xs) [
    | inl (e, r) ↦ inl (ground arith, ground arith)
    | inr (ys, e, r, l) ↦ inr (x ∷ ys, ground arith, ground arith, ap suc l)
  ]
]

erase_loop_lem :
    (fuel duration t : ℕ) (xs : List ℕ)
    → length xs < fuel
    → erase_loop fuel duration t xs ≡ some (recent duration t xs)
unfolding erase_loop
erase_loop_lem zero duration t xs h = elim h [ ]
erase_loop_lem (suc fuel) duration t xs h = elim (erase_first_lem duration t xs) [
  | inl (e, r) ↦ ground arith
  | inr (ys, e, r, l) ↦ ground (arith, erase_loop_lem fuel duration t ys)
]

-- The loops end, and ReportError is a filter: it drops what is older than Duration, notes the new
-- error, and says whether Count errors are in the window.
pub report_error_lem :
    (e : ErrorLimit) (t : ℕ)
    → let history = recent e.duration t e.history ++ t ∷ [] in
      report_error e t ≡ some (leb e.count (length history), record e { history = history })
unfolding report_error reported
report_error_lem e t =
    rw (erase_loop_lem (suc (length e.history)) e.duration t e.history (omega arith))

-- A run of reports, each at its time, with what the last one returned.
unfoldable pub reports : ErrorLimit → ℕ → List ℕ → Option (Bool × ErrorLimit)
reports e t [] = report_error e t
reports e t (u ∷ us) = elim (report_error e t) [ none ↦ none | some (r, e') ↦ reports e' u us ]

-- Times that do not go back from `first` on, each a uint64_t.
abbrev pub IsAscending : ℕ → List ℕ → Type 0
IsAscending first [] = Unit {0}
IsAscending first (t ∷ ts) = (first ≤ t) × (t < word_mod) × IsAscending t ts

abbrev pub last_time : ℕ → List ℕ → ℕ
last_time t [] = t
last_time t (u ∷ us) = last_time u us

abbrev pub AreBefore : ℕ → List ℕ → Type 0
AreBefore t [] = Unit {0}
AreBefore t (x ∷ xs) = (x ≤ t) × AreBefore t xs

last_time-ge :
    (t : ℕ) (ts : List ℕ)
    → t < word_mod
    → IsAscending t ts
    → (t ≤ last_time t ts) × (last_time t ts < word_mod)
last_time-ge t [] w a = (omega arith, w)
last_time-ge t (u ∷ us) w a = omega (arith, last_time-ge u us a.1 a.2)

-- What was too old once stays too old.
recent-recent :
    (duration t u : ℕ) (xs : List ℕ)
    → t ≤ u
    → u < word_mod
    → AreBefore t xs
    → recent duration u (recent duration t xs) ≡ recent duration u xs
recent-recent duration t u [] h w b = refl
recent-recent duration t u (x ∷ xs) h w b = ground (arith, recent-recent duration t u xs h w b.1)

recent-append :
    (duration t : ℕ) (xs ys : List ℕ)
    → recent duration t (xs ++ ys) ≡ recent duration t xs ++ recent duration t ys
recent-append duration t [] ys = refl
recent-append duration t (x ∷ xs) ys = ground (arith, recent-append duration t xs ys)

AreBefore-recent :
    (duration t : ℕ) (xs : List ℕ) → AreBefore t xs → AreBefore t (recent duration t xs ++ t ∷ [])
AreBefore-recent duration t [] b = (omega arith, tt)
AreBefore-recent duration t (x ∷ xs) b = elim (Bool-cases (ltb duration (sub_word t x))) [
  | inl old ↦ rw old (AreBefore-recent duration t xs b.1)
  | inr new ↦ rw new (b.0, AreBefore-recent duration t xs b.1)
]

AreBefore-mono : (t u : ℕ) (xs : List ℕ) → t ≤ u → AreBefore t xs → AreBefore u xs
AreBefore-mono t u [] h b = tt
AreBefore-mono t u (x ∷ xs) h b = (omega arith, AreBefore-mono t u xs h b.1)

recent-now : (duration t : ℕ) → t < word_mod → recent duration t (t ∷ []) ≡ t ∷ []
recent-now duration t w = ground arith

reports-cons :
    (e : ErrorLimit) (t u : ℕ) (us : List ℕ)
    → reports e t (u ∷ us)
      ≡ reports (record e { history = recent e.duration t e.history ++ t ∷ [] }) u us
unfolding reports
reports-cons e t u us = rw (report_error_lem e t, reports)

-- While the clock does not go back, the history after any reports is those errors of all that ever
-- were reported that are at most Duration old, and the last call returns true exactly when these
-- are at least Count.
pub reports_lem :
    (e : ErrorLimit) (t : ℕ) (ts : List ℕ)
    → AreBefore t e.history
    → t < word_mod
    → IsAscending t ts
    → let history = recent e.duration (last_time t ts) (e.history ++ t ∷ ts) in
      reports e t ts ≡ some (leb e.count (length history), record e { history = history })
unfolding reports
reports_lem e t [] b w a =
    report_error_lem e t
    ∙ ap (λ h. some (leb e.count (length h), record e { history = h }))
        (ap (λ r. recent e.duration t e.history ++ r) (sym (recent-now e.duration t w))
          ∙ sym (recent-append e.duration t e.history (t ∷ [])))
reports_lem e t (u ∷ us) b w a =
    reports-cons e t u us
    ∙ reports_lem (record e { history = kept ++ t ∷ [] }) u us
        (AreBefore-mono t u (kept ++ t ∷ []) a.0 (AreBefore-recent e.duration t e.history b)) a.1
        a.2
    ∙ ap (λ h. some (leb e.count (length h), record e { history = h })) merged
  where
    kept : List ℕ
    kept = recent e.duration t e.history

    end : ℕ
    end = last_time u us

    late : (u ≤ end) × (end < word_mod)
    late = last_time-ge u us a.1 a.2

    merged :
        recent e.duration end ((kept ++ t ∷ []) ++ u ∷ us)
        ≡ recent e.duration end (e.history ++ t ∷ u ∷ us)
    merged =
        ap (recent e.duration end) (append_assoc kept (t ∷ []) (u ∷ us))
        ∙ recent-append e.duration end kept (t ∷ u ∷ us)
        ∙ ap (λ r. r ++ recent e.duration end (t ∷ u ∷ us))
            (recent-recent e.duration t end e.history (omega (arith, late)) late.1 b)
        ∙ sym (recent-append e.duration end e.history (t ∷ u ∷ us))
