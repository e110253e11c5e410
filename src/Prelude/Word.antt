-- ===== src/Prelude/Word.antt =====
-- `size_t` and `uint64_t` arithmetic, which wraps at 2 ^ 64.
use Prim.Native.Nat.{ℕ, ◌+◌, ◌-◌, ◌%◌, ◌^◌}

abbrev pub word_mod : ℕ
word_mod = 2 ^ 64

-- `size_t(-1)`, which the source also writes as UINT64_MAX and `(uint64_t)-1LL`.
abbrev pub word_max : ℕ
word_max = 2 ^ 64 - 1

abbrev pub add_word : ℕ → ℕ → ℕ
add_word a b = (a + b) % word_mod

abbrev pub sub_word : ℕ → ℕ → ℕ
sub_word a b = (a + (word_mod - b % word_mod)) % word_mod
