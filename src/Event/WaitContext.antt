-- ===== src/Event/WaitContext.antt =====
-- lib/source/Event/Wait.cpp: WaitContext, which gathers the calls of Complete for one
-- WaitForMultipleObjects, and the result that it comes to.
pub mod Result
use syncme.Prelude.{
  ℕ, zero, suc, ◌+◌, ◌≤◌, ◌<◌, ◌≡◌, ◌≢◌, refl, ap, sym, ◌∙◌, Bool, true, false, not, ◌&&◌, ◌||◌,
  Option, none, some, List, [], ◌∷◌, ◌++◌, arith, if◌then◌else◌, ltb, Bool-cases, ◌⊎◌, inl, inr,
  ◌==◌, length, set, replicate, length-set, length-replicate, get_elem?, ◌↔◌,
}
use syncme.Event.{WaitResult, object, timeout, failed}

pub record WaitContext : Type 0 where
  pub pending : List Bool
  pub wait_all : Bool
  pub signalled : Bool
  pub bits : List Bool
  pub first_signalled : ℕ
  pub failed : Bool

pub wait_context : Bool → ℕ → WaitContext
wait_context wait_all count = record {
  pending = replicate count false;
  wait_all = wait_all;
  signalled = false;
  bits = replicate count false;
  first_signalled = count;
  failed = false;
}

unfoldable pub mark_registered : WaitContext → ℕ → WaitContext
mark_registered c index = record c { pending = set c.pending index true }

unfoldable pub completed : WaitContext → ℕ → Bool
completed c count = if c.wait_all && ltb (length c.bits) count then false else c.signalled

-- The loop that counts the bits.
abbrev pub bits_set : List Bool → ℕ
bits_set [] = 0
bits_set (b ∷ bs) = (if b then 1 else 0) + bits_set bs

unfoldable pub event_signalled : WaitContext → ℕ → Bool → WaitContext
event_signalled c index broken =
    let bits : List Bool = set c.bits index true in
    record c {
      failed = c.failed || broken;
      pending = if broken then set c.pending index false else c.pending;
      bits = bits;
      first_signalled = if c.first_signalled == length c.bits then index else c.first_signalled;
      signalled = c.signalled || (not c.wait_all || (bits_set bits == length bits || broken));
    }

-- The end of Wait: `in_time` is false if the time was over before Signalled was set.
unfoldable pub wait_result : WaitContext → Bool → WaitResult
wait_result c in_time =
    if c.failed then failed else if in_time then object c.first_signalled else timeout

-- The calls of one wait, each with the index of its event and whether that was closed.
abbrev pub Signal : Type 0
Signal = ℕ × Bool

unfoldable pub run : WaitContext → List Signal → WaitContext
unfolding event_signalled
run c [] = c
run c ((index, broken) ∷ ss) = run (event_signalled c index broken) ss

abbrev pub any_failed : List Signal → Bool
any_failed [] = false
any_failed ((index, broken) ∷ ss) = broken || any_failed ss

abbrev pub hears : List Signal → ℕ → Bool
hears [] i = false
hears ((index, broken) ∷ ss) i = (index == i) || hears ss i

abbrev pub AreIndices : ℕ → List Signal → Type 0
AreIndices count [] = Unit {0}
AreIndices count ((index, broken) ∷ ss) = (index < count) × AreIndices count ss
