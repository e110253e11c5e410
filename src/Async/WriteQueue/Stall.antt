-- ===== src/Async/WriteQueue/Stall.antt =====
-- AsyncWriteQueue::GetStallTimeout against what its comment promises.
use syncme.Prelude.{ℕ, ◌+◌, ◌-◌, ◌≤◌, ◌≡◌, ◌≢◌, true, false, arith, ◌⊎◌, pos, negsuc, max, min, ◌↔◌}
use syncme.Async.WriteQueue.{AsyncWriteQueue, Env, get_stall_timeout, is_idle, int_max}

-- The last moment at which the pending write is known to have moved.
abbrev pub progress : Env → AsyncWriteQueue → ℕ
progress env q = max q.write_started env.last_write_progress_time

-- The safeguard is on: a limit is set, a write is queued, and the stream shows its progress.
pub record IsWatched (env : Env) (q : AsyncWriteQueue) (timeout : ℕ) : Type 0 where
  pub limited : timeout ≢ 0
  pub busy : is_idle q ≡ false
  pub attached : q.stream ≡ true
  pub tracked : env.can_track_write_progress ≡ true

-- Where the safeguard is on, the result is the time that is left before `timeout` milliseconds
-- without progress, cut to an int, so it is 0 exactly when the write has stalled for that long;
-- a clock that is behind the last progress counts as no time at all.
pub get_stall_timeout-watched :
    (env : Env) (q : AsyncWriteQueue) (now timeout : ℕ)
    → IsWatched env q timeout
    → (get_stall_timeout env q now timeout ≡ pos (min int_max (timeout - (now - progress env q))))
      × ((get_stall_timeout env q now timeout ≡ pos 0) ↔ (progress env q + timeout ≤ now))
unfolding get_stall_timeout
get_stall_timeout-watched env q now timeout w =
    (ground arith, ((λ e. ground arith), λ h. ground arith))

-- Where it is off the result is -1: no limit, nothing to write, no stream, or one whose progress
-- cannot be seen.
pub get_stall_timeout-off :
    (env : Env) (q : AsyncWriteQueue) (now timeout : ℕ)
    → (get_stall_timeout env q now timeout ≡ negsuc 0) ↔ (
        (timeout ≡ 0)
        ⊎ (is_idle q ≡ true)
        ⊎ (q.stream ≡ false)
        ⊎ (env.can_track_write_progress ≡ false))
unfolding get_stall_timeout
get_stall_timeout-off env q now timeout = ((λ e. ground arith), λ h. ground arith)
