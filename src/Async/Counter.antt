-- ===== src/Async/Counter.antt =====
-- Async/Counter.cpp: process-wide byte counters and their peaks. Other threads move the same
-- atomics: what they do between two reads of one thread is an argument.
use syncme.Prelude.{
  ℕ, ◌≤◌, ◌≡◌, Bool, true, false, ◌||◌, not, List, [], ◌∷◌, ◌++◌, arith, max, ◌⊎◌, ltb, leb, ◌==◌,
  if◌then◌else◌, add_word, sub_word,
}

-- Before one compare_exchange_weak others may have raised the peak to `raised`, and the exchange
-- may fail without a reason.
pub record Attempt : Type 0 where
  pub raised : ℕ
  pub spurious : Bool

-- The loop of UpdatePeak: the peak that it leaves, and whether it has ended after the attempts.
update_peak_loop : List Attempt → ℕ → ℕ → ℕ → ℕ × Bool
update_peak_loop [] peak current value = (peak, leb value current)
update_peak_loop (a ∷ as') peak current value =
    let seen : ℕ = max peak a.raised in
    elim (leb value current) [
      | true ↦ (peak, true)
      | false ↦ elim (a.spurious || not (seen == current)) [
        | true ↦ update_peak_loop as' seen seen value
        | false ↦ (value, true)
      ]
    ]

pub update_peak : List Attempt → ℕ → ℕ → ℕ × Bool
unfolding update_peak_loop
update_peak as' peak value = update_peak_loop as' peak peak value

-- Undisturbed, the first exchange succeeds.
unfoldable pub raise_peak : ℕ → ℕ → ℕ
raise_peak peak value = if ltb peak value then value else peak

pub record Tracked : Type 0 where
  pub bytes : ℕ
  pub peak : ℕ

-- AddWriteQueueBytes, TrackAsyncIoBufferAllocation
unfoldable pub track_allocation : Tracked → ℕ → Tracked
unfolding raise_peak
track_allocation t n =
    if n == 0
    then t
    else let value : ℕ = add_word t.bytes n in
      record { bytes = value; peak = raise_peak t.peak value }

-- RemoveWriteQueueBytes, TrackAsyncIoBufferDeallocation
unfoldable pub track_deallocation : Tracked → ℕ → Tracked
track_deallocation t n = if n == 0 then t else record t { bytes = sub_word t.bytes n }

-- The highest of what the attempts show.
abbrev pub highest : List Attempt → ℕ → ℕ
highest [] peak = peak
highest (a ∷ as') peak = highest as' (max peak a.raised)

highest-ge : (as' : List Attempt) (peak : ℕ) → peak ≤ highest as' peak
highest-ge [] peak = omega arith
highest-ge (a ∷ as') peak = omega (arith, highest-ge as' (max peak a.raised))

loop_bounds :
    (as' : List Attempt) (peak current value : ℕ)
    → current ≤ peak
    → let (after, ended) = update_peak_loop as' peak current value in
      (peak ≤ after) × (after ≤ max value (highest as' peak)) × ((ended ≡ false) ⊎ (value ≤ after))
unfolding update_peak_loop
loop_bounds [] peak current value h = ground arith
loop_bounds (a ∷ as') peak current value h = ground (
  arith,
  loop_bounds as' (max peak a.raised) (max peak a.raised) value (omega arith),
  highest-ge as' (max peak a.raised),
)

-- UpdatePeak among other threads: it never lowers the peak and never takes it above what somebody
-- reported; and its loop has not ended, or the peak is at least its own value.
pub update_peak_lem :
    (as' : List Attempt) (peak value : ℕ)
    → let (after, ended) = update_peak as' peak value in
      (peak ≤ after) × (after ≤ max value (highest as' peak)) × ((ended ≡ false) ⊎ (value ≤ after))
unfolding update_peak
update_peak_lem as' peak value = loop_bounds as' peak peak value (omega arith)

abbrev pub calm : Attempt
calm = record { raised = 0; spurious = false }

-- And it ends: two attempts that nobody disturbs are enough, whatever came before.
pub update_peak_ends :
    (as' : List Attempt) (peak value : ℕ)
    → (update_peak (as' ++ calm ∷ calm ∷ []) peak value).1 ≡ true
unfolding update_peak
update_peak_ends as' peak value = loop_ends as' peak peak
  where
    loop_ends :
        (as' : List Attempt) (peak current : ℕ)
        → (update_peak_loop (as' ++ calm ∷ calm ∷ []) peak current value).1 ≡ true
    loop_ends [] peak current = ground arith
    loop_ends (a ∷ as') peak current =
        ground (arith, loop_ends as' (max peak a.raised) (max peak a.raised))
