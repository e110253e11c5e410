-- ===== src/ErrorLimit/Tests.antt =====
-- Three errors in ErrorLimit.cpp.
use syncme.Prelude.{false, some, [], ◌∷◌, ◌≡◌, arith}
use syncme.ErrorLimit.{ErrorLimit}
use syncme.ErrorLimit.Window.{reports, reports_lem}

-- Two errors within 10 milliseconds are too many.
abbrev limit : ErrorLimit
limit = record { count = 2; duration = 10; history = 95 ∷ [] }

reports_example :
    reports limit 100 (103 ∷ 120 ∷ []) ≡ some (false, record limit { history = 120 ∷ [] })
reports_example =
    reports_lem limit 100 (103 ∷ 120 ∷ []) (omega arith, tt) (omega arith)
      (omega arith, omega arith, (omega arith, omega arith, tt))
