-- ===== src/Event/WaitContext/Result.antt =====
-- When a wait for several events is over, and what it returns.
use syncme.Prelude.{
  ℕ, zero, suc, ◌≤◌, ◌<◌, ◌≡◌, refl, ap, ◌∙◌, Bool, true, false, ◌||◌, some, List, [], ◌∷◌, arith,
  if◌then◌else◌, Bool-cases, ◌⊎◌, inl, inr, ◌==◌, length, set, replicate, length-set,
  length-replicate, get_elem?, ◌↔◌,
}
use syncme.Event.{object, failed}
use syncme.Event.WaitContext.{
  WaitContext, wait_context, bits_set, event_signalled, wait_result, Signal, run, any_failed, hears,
}

bits_set-le : (bs : List Bool) → bits_set bs ≤ length bs
bits_set-le [] = omega arith
bits_set-le (b ∷ bs) = ground (arith, bits_set-le bs)

bits_set-set : (bs : List Bool) (i : ℕ) → bits_set bs ≤ bits_set (set bs i true)
bits_set-set [] i = omega arith
bits_set-set (b ∷ bs) zero = ground arith
bits_set-set (b ∷ bs) (suc i) = ground (arith, bits_set-set bs i)

abbrev is_full : List Bool → Bool
is_full bs = bits_set bs == length bs

run-failed : (c : WaitContext) (ss : List Signal) → (run c ss).failed ≡ (c.failed || any_failed ss)
unfolding run
run-failed c [] = ground arith
run-failed c ((index, broken) ∷ ss) = ground (arith, run-failed (event_signalled c index broken) ss)

-- All events: the wait is over exactly when every bit is set, or an event was closed.
run-signalled :
    (c : WaitContext) (ss : List Signal)
    → c.wait_all ≡ true
    → c.signalled ≡ (is_full c.bits || c.failed)
    → (run c ss).signalled ≡ (is_full (run c ss).bits || (run c ss).failed)
unfolding run
run-signalled c [] h e = e
run-signalled c ((index, broken) ∷ ss) h e = run-signalled (event_signalled c index broken) ss h (
    ground (
      arith,
      bits_set-le c.bits,
      bits_set-set c.bits index,
      bits_set-le (set c.bits index true),
      length-set c.bits index true,
    ))

get_elem?-set_bit :
    (bs : List Bool) (index i : ℕ) {b : Bool}
    → get_elem? bs i ≡ some b
    → get_elem? (set bs index true) i ≡ some (b || (index == i))
get_elem?-set_bit [] index i e = cc
get_elem?-set_bit (x ∷ bs) zero zero e = ground arith
get_elem?-set_bit (x ∷ bs) zero (suc i) e = ground arith
get_elem?-set_bit (x ∷ bs) (suc index) zero e = ground arith
get_elem?-set_bit (x ∷ bs) (suc index) (suc i) {b} e =
    ground (arith, get_elem?-set_bit bs index i {b = b} e)

-- The bit of an event says whether it was heard of.
run-bits :
    (c : WaitContext) (ss : List Signal) (i : ℕ) {b : Bool}
    → get_elem? c.bits i ≡ some b
    → get_elem? (run c ss).bits i ≡ some (b || hears ss i)
unfolding run
run-bits c [] i {b} e = ground arith
run-bits c ((index, broken) ∷ ss) i {b} e = ground (
  arith,
  run-bits (event_signalled c index broken) ss i {b = b || (index == i)}
      (get_elem?-set_bit c.bits index i {b = b} e),
)

length-run_bits : (c : WaitContext) (ss : List Signal) → length (run c ss).bits ≡ length c.bits
unfolding run
length-run_bits c [] = refl
length-run_bits c ((index, broken) ∷ ss) =
    length-run_bits (event_signalled c index broken) ss ∙ length-set c.bits index true

get_elem?-replicate : (n i : ℕ) → i < n → get_elem? (replicate n false) i ≡ some false
get_elem?-replicate zero i h = elim h [ ]
get_elem?-replicate (suc n) zero h = refl
get_elem?-replicate (suc n) (suc i) h = get_elem?-replicate n i (omega arith)

is_full-get_elem? :
    (bs : List Bool) → ((i : ℕ) → i < length bs → get_elem? bs i ≡ some true) → is_full bs ≡ true
is_full-get_elem? [] h = refl
is_full-get_elem? (b ∷ bs) h =
    ground (arith, h 0 (omega arith), is_full-get_elem? bs (λ i k. h (suc i) (omega arith)))

get_elem?-is_full :
    (bs : List Bool) (i : ℕ) → is_full bs ≡ true → i < length bs → get_elem? bs i ≡ some true
get_elem?-is_full [] i f h = elim h [ ]
get_elem?-is_full (b ∷ bs) zero f h = ground (arith, bits_set-le bs)
get_elem?-is_full (b ∷ bs) (suc i) f h =
    get_elem?-is_full bs i (ground (arith, bits_set-le bs)) (omega arith)

bits_set-replicate : (n : ℕ) → bits_set (replicate n false) ≡ 0
bits_set-replicate zero = refl
bits_set-replicate (suc n) = omega (arith, bits_set-replicate n)

-- Waiting for all of at least one event: the wait is over exactly when every event was heard of or
-- one of them was closed.
pub run-wait_all :
    (count : ℕ) (ss : List Signal)
    → 0 < count
    → ((run (wait_context true count) ss).signalled ≡ true)
      ↔ (((i : ℕ) → i < count → hears ss i ≡ true) ⊎ (any_failed ss ≡ true))
unfolding wait_context
run-wait_all count ss some_event = (forth, back)
  where
    start : WaitContext
    start = wait_context true count

    bits : List Bool
    bits = (run start ss).bits

    long : length bits ≡ count
    long = length-run_bits start ss ∙ length-replicate count false

    bit : (i : ℕ) → i < count → get_elem? bits i ≡ some (hears ss i)
    bit i h = run-bits start ss i {b = false} (get_elem?-replicate count i h)

    over : (run start ss).signalled ≡ (is_full bits || any_failed ss)
    over =
        run-signalled start ss refl
          (ground (arith, bits_set-replicate count, length-replicate count false))
        ∙ ap (λ b. is_full bits || b) (run-failed start ss)

    forth :
        (run start ss).signalled ≡ true
        → ((i : ℕ) → i < count → hears ss i ≡ true) ⊎ (any_failed ss ≡ true)
    forth e = elim (Bool-cases (is_full bits)) [
      | inl full ↦ inl (λ i h. cc (bit i h, get_elem?-is_full bits i full (omega (arith, long))))
      | inr open_bits ↦ inr (ground (arith, over))
    ]

    back :
        ((i : ℕ) → i < count → hears ss i ≡ true) ⊎ (any_failed ss ≡ true)
        → (run start ss).signalled ≡ true
    back (inl h) =
        over
        ∙ ap (λ b. b || any_failed ss)
            (is_full-get_elem? bits
              (λ i k. bit i (omega (arith, long)) ∙ ap some (h i (omega (arith, long)))))
    back (inr h) = ground (arith, over, h)

run-first :
    (c : WaitContext) (ss : List Signal)
    → c.first_signalled < length c.bits
    → (run c ss).first_signalled ≡ c.first_signalled
unfolding run
run-first c [] h = refl
run-first c ((index, broken) ∷ ss) h =
    run-first (event_signalled c index broken) ss (ground (arith, length-set c.bits index true))
    ∙ ground arith

run-over : (c : WaitContext) (ss : List Signal) → c.signalled ≡ true → (run c ss).signalled ≡ true
unfolding run
run-over c [] h = h
run-over c ((index, broken) ∷ ss) h = run-over (event_signalled c index broken) ss (ground arith)

-- Waiting for any event: the first one that is heard of ends the wait, and its index is the result
-- whatever is heard later, unless an event was closed by then.
pub run-wait_any :
    (count index : ℕ) (broken : Bool) (ss : List Signal)
    → index < count
    → let c = run (wait_context false count) ((index, broken) ∷ ss) in
      (c.signalled ≡ true)
      × (wait_result c true ≡ (if broken || any_failed ss then failed else object index))
unfolding run wait_result wait_context
run-wait_any count index broken ss h = ground (
  arith,
  run-over (event_signalled (wait_context false count) index broken) ss refl,
  run-failed (event_signalled (wait_context false count) index broken) ss,
  run-first (event_signalled (wait_context false count) index broken) ss,
  length-set (replicate count false) index true,
  length-replicate count false,
)
