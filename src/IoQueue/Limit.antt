-- ===== src/IoQueue/Limit.antt =====
-- The limit of IO::Queue, and the stock of buffers that it keeps.
use syncme.Prelude.{
  ℕ, suc, ◌+◌, ◌-◌, ◌≤◌, ◌<◌, ◌≡◌, refl, ap, false, Option, none, some, List, [], ◌∷◌, ◌++◌, arith,
  ◌⊎◌, inl, inr, ◌==◌, length, length-append, word_mod, word_max, ◌↔◌, subst, Bool-cases,
  Option-cases,
}
use syncme.IoQueue.{
  Buffer, Queue, exceeds, get_available_limit, append, joined, push_free, pop_free, get_buffer,
  keep_buffers, buffer_size, refused, stored,
}
use syncme.IoQueue.Stream.{Returns, append-refused, append-new, append-joined}

-- GetAvailableLimit foretells what Append and Insert take: an append of at least one byte, whose
-- sum with `Total` does not wrap, is taken exactly when it finds no limit or one of at least that
-- many bytes.
pub get_available_limit-exceeds :
    (q : Queue) (cb : ℕ)
    → q.total + cb < word_mod
    → 0 < cb
    → (exceeds q cb ≡ false)
      ↔ ((get_available_limit q ≡ none) ⊎ ((a : ℕ) × (get_available_limit q ≡ some a) × (cb ≤ a)))
unfolding exceeds get_available_limit
get_available_limit-exceeds q cb small pos_cb = (forth, back)
  where
    forth :
        exceeds q cb ≡ false
        → (get_available_limit q ≡ none) ⊎ ((a : ℕ) × (get_available_limit q ≡ some a) × (cb ≤ a))
    forth h = elim (Bool-cases (q.limit == word_max)) [
      | inl e ↦ inl (ground arith)
      | inr e ↦ inr (q.limit - q.total, ground arith, ground arith)
    ]

    back :
        (get_available_limit q ≡ none) ⊎ ((a : ℕ) × (get_available_limit q ≡ some a) × (cb ≤ a))
        → exceeds q cb ≡ false
    back h = ground arith

-- The stock of buffers never grows past KEEP_BUFFERS, and holds none of more than BUFFER_SIZE.
abbrev pub AreKept : List Buffer → Type 0
AreKept [] = Unit {0}
AreKept (b ∷ bs) = (length b ≤ buffer_size) × AreKept bs

pub record IsStocked (q : Queue) : Type 0 where
  pub few : length q.free ≤ keep_buffers
  pub small : AreKept q.free

AreKept-append :
    (bs : List Buffer) (b : Buffer) → AreKept bs → length b ≤ buffer_size → AreKept (bs ++ b ∷ [])
AreKept-append [] b h k = (k, tt)
AreKept-append (c ∷ bs) b h k = (h.0, AreKept-append bs b h.1 k)

push_free-IsStocked : (q : Queue) (b : Buffer) → IsStocked q → IsStocked (push_free q b)
unfolding push_free
push_free-IsStocked q b v =
    ground (arith, AreKept-append q.free b v.small, length-append q.free (b ∷ []))

pop_free_of : (q : Queue) (f : List Buffer) → q.free ≡ f → IsStocked q → IsStocked (pop_free q).1
unfolding pop_free
pop_free_of q [] e v = ground arith
pop_free_of q (b ∷ f) e v =
    let few : suc (length f) ≤ keep_buffers = omega (arith, v.few, ap length e) in
    let small : AreKept (b ∷ f) = subst AreKept e v.small in ground arith

pop_free-IsStocked : (q : Queue) → IsStocked q → IsStocked (pop_free q).1
pop_free-IsStocked q v = pop_free_of q q.free refl v

abbrev pub IsLender : Option Queue → Type 0
IsLender none = Unit {0}
IsLender (some lender) = IsStocked lender

get_buffer-IsStocked :
    (q : Queue) (lender : Option Queue)
    → IsStocked q
    → IsLender lender
    → IsStocked (get_buffer q lender).1 × IsLender (get_buffer q lender).2
unfolding get_buffer
get_buffer-IsStocked q none v w = ground (arith, pop_free-IsStocked q v)
get_buffer-IsStocked q (some lender) v w =
    ground (arith, pop_free-IsStocked q v, pop_free-IsStocked lender w)

stored-IsStocked :
    (q q' : Queue) (lender : Option Queue)
    → q'.free ≡ q.free
    → IsStocked q
    → IsLender lender
    → IsStocked (stored q' lender).queue × IsLender (stored q' lender).lender
unfolding stored
stored-IsStocked q q' lender e v w = (
  record {
    few = elim (Bool-cases q'.signal) [ inl s ↦ rw (s, e) v.few | inr s ↦ rw (s, e) v.few ];
    small = elim (Bool-cases q'.signal) [ inl s ↦ rw (s, e) v.small | inr s ↦ rw (s, e) v.small ];
  },
  w,
)

refused-IsStocked :
    (q : Queue) (lender : Option Queue)
    → IsStocked q
    → IsLender lender
    → IsStocked (refused q lender).queue × IsLender (refused q lender).lender
unfolding refused
refused-IsStocked q lender v w = (v, w)

-- PushFree keeps at most KEEP_BUFFERS buffers of at most BUFFER_SIZE bytes, and Append and its
-- GetBuffer keep that of the queue and of the queue that they borrow from.
pub append-IsStocked :
    (junk : ℕ → ℕ) (q : Queue) (bytes : List ℕ) (lender : Option Queue) (b : Buffer)
    → IsStocked q
    → IsLender lender
    → IsStocked (push_free q b)
      × Returns (append junk q bytes lender) (λ r. IsStocked r.queue × IsLender r.lender)
append-IsStocked junk q bytes lender b v w = (
  push_free-IsStocked q b v,
  elim (Bool-cases (exceeds q (length bytes))) [
    | inl over ↦ rw (append-refused junk q bytes lender over) (refused-IsStocked q lender v w)
    | inr fits ↦ elim (Option-cases (joined q bytes)) [
      | inl e ↦
          let (v', w') = get_buffer-IsStocked q lender v w in
          rw (append-new junk q bytes lender fits e)
            (stored-IsStocked (get_buffer q lender).1 _ (get_buffer q lender).2 refl v' w')
      | inr (back_one, e) ↦
          rw (append-joined junk q bytes lender back_one fits e)
            (stored-IsStocked q _ lender refl v w)
    ]
  ],
)
