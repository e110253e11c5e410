-- ===== src/IoQueue/Trace.antt =====
-- A run of calls on one IO::Queue: a producer appends, a consumer takes packets.
use syncme.Prelude.{
  ℕ, ◌+◌, ◌≤◌, ◌<◌, ◌≡◌, ap, sym, ◌∙◌, Option, none, some, List, [], ◌∷◌, ◌++◌, arith, length,
  length-append, append-nil, append_assoc, word_mod, if◌then◌else◌, Option-cases, inl, inr, subst,
}
use syncme.IoQueue.{Buffer, Queue, Outcome, append, append_buffer, pop_first, join, ◌>>=◌}
use syncme.IoQueue.Store.{flatten}
use syncme.IoQueue.Stream.{IsCounted, Gains, Returns, Returns-bind, append-Gains}
use syncme.IoQueue.Fifo.{bytes_of, Pops, pop_first-Pops, join-Joins, append_buffer-Gains}

pub data Call : Type 0 where
  appends : List ℕ → Option Queue → Call
  appends_buffer : Buffer → Call
  pops : Call
  joins : ℕ → Call

-- What a call took in, what it gave out, and the queue.
abbrev pub Effect : Type 0
Effect = List ℕ × List ℕ × Queue

taken : List ℕ → Outcome → Effect
taken bytes r = (if r.accepted then bytes else [], [], r.queue)

given : Option Buffer × Queue → Effect
given r = ([], bytes_of r.0, r.1)

module _ (junk : ℕ → ℕ) where
  pub step : Queue → Call → Option Effect
  unfolding taken given
  step q (appends bytes lender) = append junk q bytes lender >>= λ r. some (taken bytes r)
  step q (appends_buffer b) = some (taken b (append_buffer q (some b)))
  step q pops = some (given (pop_first q))
  step q (joins upto) = join junk q upto >>= λ r. some (given r)

  pub run : Queue → List Call → Option Effect
  unfolding step
  run q [] = some ([], [], q)
  run q (c ∷ cs) = elim (step q c) [
    | none ↦ none
    | some (i, o, q') ↦ elim (run q' cs) [
      | none ↦ none
      | some (is, os, q'') ↦ some (i ++ is, o ++ os, q'')
    ]
  ]

-- The bytes that a run offers.
abbrev pub offered : List Call → ℕ
offered [] = 0
offered (appends bytes lender ∷ cs) = length bytes + offered cs
offered (appends_buffer b ∷ cs) = length b + offered cs
offered (pops ∷ cs) = offered cs
offered (joins upto ∷ cs) = offered cs

offered-cons : (c : Call) (cs : List Call) → offered (c ∷ []) + offered cs ≡ offered (c ∷ cs)
offered-cons (appends bytes lender) cs = omega arith
offered-cons (appends_buffer b) cs = omega arith
offered-cons pops cs = omega arith
offered-cons (joins upto) cs = omega arith

-- Nothing is lost, made up or put out of order.
pub record Keeps (q : Queue) (n : ℕ) (e : Effect) : Type 0 where
  pub stream : flatten q.packets ++ e.0 ≡ e.1 ++ flatten e.2.packets
  pub counted : IsCounted e.2
  -- No more is taken in than the `n` bytes that were offered.
  pub took : length e.0 ≤ n

Gains-Keeps :
    (q : Queue) (bytes : List ℕ) (r : Outcome)
    → Gains q (length bytes) (flatten q.packets ++ bytes) r
    → Keeps q (length bytes) (taken bytes r)
unfolding taken
Gains-Keeps q bytes r g = ground (arith, append-nil (flatten q.packets))

Pops-Keeps : (q : Queue) (r : Option Buffer × Queue) → Pops q r → Keeps q 0 (given r)
unfolding given
Pops-Keeps q r p = ground (arith, append-nil (flatten q.packets), p.stream)

Keeps-widen : (q : Queue) {n : ℕ} {e : Effect} → Keeps q n e → Keeps q (n + 0) e
Keeps-widen q {n} {e} k = record {
  stream = k.stream;
  counted = k.counted;
  took = omega (arith, k.took);
}

-- Two runs one after the other.
Keeps-append :
    (q : Queue) (n m : ℕ) (i o is os : List ℕ) (q' q'' : Queue)
    → Keeps q n (i, o, q')
    → Keeps q' m (is, os, q'')
    → Keeps q (n + m) (i ++ is, o ++ os, q'')
Keeps-append q n m i o is os q' q'' k l = record {
  stream =
      sym (append_assoc (flatten q.packets) i is)
      ∙ ap (λ t. t ++ is) k.stream
      ∙ append_assoc o (flatten q'.packets) is
      ∙ ap (λ t. o ++ t) l.stream
      ∙ sym (append_assoc o os (flatten q''.packets));
  counted = l.counted;
  took = omega (arith, k.took, l.took, length-append i is);
}

module _ (junk : ℕ → ℕ) where
  step-Keeps :
      (q : Queue) (c : Call)
      → IsCounted q
      → length (flatten q.packets) < word_mod
      → Returns (step junk q c) (Keeps q (offered (c ∷ [])))
  unfolding step
  step-Keeps q (appends bytes lender) v small =
      Returns-bind _ (Keeps q (length bytes + 0)) (append junk q bytes lender) _
        (append-Gains junk q bytes lender v) (λ r g. Keeps-widen q (Gains-Keeps q bytes r g))
  step-Keeps q (appends_buffer b) v small =
      Keeps-widen q (Gains-Keeps q b _ (append_buffer-Gains q b v))
  step-Keeps q pops v small = Pops-Keeps q _ (pop_first-Pops q v)
  step-Keeps q (joins upto) v small =
      Returns-bind _ (Keeps q 0) (join junk q upto) _ (join-Joins junk q v upto small)
        (λ r g. Pops-Keeps q r g.0)

  run-cons :
      (q : Queue) (c : Call) (cs : List Call) (i o is os : List ℕ) (q' q'' : Queue)
      → step junk q c ≡ some (i, o, q')
      → run junk q' cs ≡ some (is, os, q'')
      → run junk q (c ∷ cs) ≡ some (i ++ is, o ++ os, q'')
  unfolding run
  run-cons q c cs i o is os q' q'' e e' = ground arith

  run-step :
      (q : Queue) (c : Call) (cs : List Call) (m : ℕ)
      → ((e : Effect) → Keeps q (offered (c ∷ [])) e → Returns (run junk e.2 cs) (Keeps e.2 m))
      → Returns (step junk q c) (Keeps q (offered (c ∷ [])))
      → Returns (run junk q (c ∷ cs)) (Keeps q (offered (c ∷ []) + m))
  run-step q c cs m rest h = elim (Option-cases (step junk q c)) [
    | inl e ↦ absurd (rw e at h)
    | inr ((i, o, q'), e) ↦
        let k : Keeps q (offered (c ∷ [])) (i, o, q') = rw e at h in
        elim (Option-cases (run junk q' cs)) [
          | inl none_left ↦ absurd (rw none_left at (rest (i, o, q') k))
          | inr ((is, os, q''), e') ↦
              rw (run-cons q c cs i o is os q' q'' e e')
                (Keeps-append q _ m i o is os q' q'' k (rw e' at (rest (i, o, q') k)))
        ]
  ]

  -- A producer and a consumer: the bytes accepted come out in their order, none twice and none
  -- missing, and what has not come out yet is what the queue holds and counts. This is so for any
  -- joining of packets, any limit and any buffers lent, as long as the bytes have an address each.
  pub run-Keeps :
      (q : Queue) (cs : List Call)
      → IsCounted q
      → length (flatten q.packets) + offered cs < word_mod
      → Returns (run junk q cs) (Keeps q (offered cs))
  unfolding run
  run-Keeps q [] v small = record {
    stream = append-nil (flatten q.packets);
    counted = v;
    took = omega arith;
  }
  run-Keeps q (c ∷ cs) v small =
      subst (λ n. Returns (run junk q (c ∷ cs)) (Keeps q n)) (offered-cons c cs)
        (run-step q c cs (offered cs) (λ e k. run-Keeps e.2 cs k.counted (room e k))
          (step-Keeps q c v (omega (arith, offered-cons c cs))))
    where
      room :
          (e : Effect)
          → Keeps q (offered (c ∷ [])) e
          → length (flatten e.2.packets) + offered cs < word_mod
      room e k = omega (
        arith,
        offered-cons c cs,
        k.took,
        ap length k.stream,
        length-append (flatten q.packets) e.0,
        length-append e.1 (flatten e.2.packets),
      )
