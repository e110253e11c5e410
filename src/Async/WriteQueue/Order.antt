-- ===== src/Async/WriteQueue/Order.antt =====
-- The bytes that AsyncWriteQueue counts and the write that it has started, over runs of calls.
use syncme.Prelude.{
  ℕ, ◌+◌, ◌%◌, ◌≡◌, ◌≢◌, refl, ap, sym, ◌∙◌, true, false, Option, none, some, List, [], ◌∷◌, ◌++◌,
  arith, ◌==◌, word_mod, add_word, sub_word, Bool-cases, ◌⊎◌, inl, inr,
}
use syncme.Async.BufferChain.{BufferChain, is_empty, size}
use syncme.Async.Counter.{track_allocation, track_deallocation}
use syncme.Async.WriteQueue.{
  AsyncWriteQueue, Env, start_next, push, on_write_completed, clear, detach, attach, start_front,
  complete_front,
}

abbrev pub total_bytes : List BufferChain → ℕ
total_bytes [] = 0
total_bytes (c ∷ cs) = c.total_size + total_bytes cs

total_bytes-append :
    (cs : List BufferChain) (c : BufferChain)
    → total_bytes (cs ++ c ∷ []) ≡ total_bytes cs + c.total_size
total_bytes-append [] c = omega arith
total_bytes-append (d ∷ cs) c = omega (arith, total_bytes-append cs c)

-- The queue once a chain is in it, and once its first chain is done, before the next write starts.
abbrev pub pushed : AsyncWriteQueue → BufferChain → AsyncWriteQueue
pushed q c = record q {
  chains = q.chains ++ c ∷ [];
  queued_bytes = add_word q.queued_bytes c.total_size;
  tracked = track_allocation q.tracked c.total_size;
}

abbrev pub finished : AsyncWriteQueue → BufferChain → List BufferChain → AsyncWriteQueue
finished q c cs = record q {
  chains = cs;
  queued_bytes = sub_word q.queued_bytes c.total_size;
  tracked = track_deallocation q.tracked c.total_size;
  write_pending = false;
  write_started = 0;
}

-- A completion is refused, or it is that of the whole first chain.
pub complete_front_cases :
    (env : Env) (q : AsyncWriteQueue) (bytes : ℕ) (c : BufferChain) (cs : List BufferChain)
    → (complete_front env q bytes (c ∷ cs) ≡ (false, none, q))
      ⊎ ((q.write_pending ≡ true)
          × (bytes ≡ c.total_size)
          × (complete_front env q bytes (c ∷ cs) ≡ (
            (start_next env (finished q c cs)).0,
            some c,
            (start_next env (finished q c cs)).1,
          )))
unfolding complete_front size
complete_front_cases env q bytes c cs = elim (Bool-cases q.write_pending) [
  | inr h ↦ inl (ground arith)
  | inl h ↦ elim (Bool-cases (bytes == c.total_size)) [
    | inr k ↦ inl (ground arith)
    | inl k ↦ inr (h, ground arith, simp (h, k))
  ]
]

pub push-full :
    (env : Env) (q : AsyncWriteQueue) (c : BufferChain)
    → is_empty c ≡ false
    → push env q c ≡ start_next env (pushed q c)
unfolding push size
push-full env q c e = rw e

pub push-nothing :
    (env : Env) (q : AsyncWriteQueue) (c : BufferChain)
    → is_empty c ≡ true
    → push env q c ≡ (true, q)
unfolding push
push-nothing env q c e = rw e

-- `others` are the bytes that the other queues of the process hold.
pub record IsValid (others : ℕ) (q : AsyncWriteQueue) : Type 0 where
  pub queued : q.queued_bytes ≡ total_bytes q.chains % word_mod
  pub counted : q.tracked.bytes ≡ (others + total_bytes q.chains) % word_mod
  pub writes : q.write_pending ≡ true → q.chains ≢ []
  pub rests : q.write_pending ≡ false → q.write_started ≡ 0

module _ (others : ℕ) (env : Env) where
  start_front-IsValid :
      (q : AsyncWriteQueue) (cs : List BufferChain)
      → q.chains ≡ cs
      → IsValid others q
      → IsValid others (start_front env q cs).1
  unfolding start_front
  start_front-IsValid q [] e v = v
  start_front-IsValid q (c ∷ cs) e v = record {
    queued = ground (arith, v.queued);
    counted = ground (arith, v.counted);
    writes = λ h k. cc (sym e ∙ chains-kept ∙ k);
    rests = λ h. ground (arith, v.rests);
  }
    where
      chains-kept : q.chains ≡ (start_front env q (c ∷ cs)).1.chains
      chains-kept = ground arith

  start_next-IsValid :
      (q : AsyncWriteQueue) → IsValid others q → IsValid others (start_next env q).1
  unfolding start_next
  start_next-IsValid q v = start_front-IsValid q q.chains refl v

  append-ne-nil : (cs : List BufferChain) (c : BufferChain) → cs ++ c ∷ [] ≢ []
  append-ne-nil [] c e = cc
  append-ne-nil (d ∷ cs) c e = cc

  pushed-IsValid :
      (q : AsyncWriteQueue) (c : BufferChain) → IsValid others q → IsValid others (pushed q c)
  unfolding track_allocation
  pushed-IsValid q c v = record {
    queued = omega (arith, v.queued, total_bytes-append q.chains c);
    counted = ground (arith, v.counted, total_bytes-append q.chains c);
    writes = λ h. append-ne-nil q.chains c;
    rests = v.rests;
  }

  push-IsValid :
      (q : AsyncWriteQueue) (c : BufferChain) → IsValid others q → IsValid others (push env q c).1
  push-IsValid q c v = elim (Bool-cases (is_empty c)) [
    | inl e ↦ rw (push-nothing env q c e) v
    | inr e ↦ rw (push-full env q c e) (start_next-IsValid (pushed q c) (pushed-IsValid q c v))
  ]

  finished-IsValid :
      (q : AsyncWriteQueue) (c : BufferChain) (cs : List BufferChain)
      → q.chains ≡ c ∷ cs
      → IsValid others q
      → IsValid others (finished q c cs)
  unfolding track_deallocation
  finished-IsValid q c cs e v = record {
    queued = omega (arith, v.queued, ap total_bytes e);
    counted = ground (arith, v.counted, ap total_bytes e);
    writes = λ h. cc;
    rests = λ h. refl;
  }

  complete_front-IsValid :
      (q : AsyncWriteQueue) (bytes : ℕ) (cs : List BufferChain)
      → q.chains ≡ cs
      → IsValid others q
      → IsValid others (complete_front env q bytes cs).2
  unfolding complete_front
  complete_front-IsValid q bytes [] e v = v
  complete_front-IsValid q bytes (c ∷ cs) e v = elim (complete_front_cases env q bytes c cs) [
    | inl h ↦ rw h v
    | inr (_, _, h) ↦ rw h (start_next-IsValid _ (finished-IsValid q c cs e v))
  ]

cleared-IsValid : (others : ℕ) (q : AsyncWriteQueue) → IsValid others q → IsValid others (clear q)
unfolding clear track_deallocation
cleared-IsValid others q v = record {
  queued = omega arith;
  counted = ground (arith, v.queued, v.counted);
  writes = λ h. cc;
  rests = λ h. refl;
}

pub data Call : Type 0 where
  attaches detaches clears : Call
  pushes : BufferChain → Call
  completes : ℕ → Call

abbrev pub listed : Option BufferChain → List BufferChain
listed none = []
listed (some c) = c ∷ []

-- A call: the queue after it, with the chain that it reports as completed.
unfoldable pub call : AsyncWriteQueue → Env × Call → Option BufferChain × AsyncWriteQueue
call q (env, attaches) = (none, attach q)
call q (env, detaches) = (none, detach q)
call q (env, clears) = (none, clear q)
call q (env, pushes c) = (none, (push env q c).1)
call q (env, completes bytes) =
    let (r, completed, q') = on_write_completed env q bytes in (completed, q')

unfoldable pub run : AsyncWriteQueue → List (Env × Call) → List BufferChain × AsyncWriteQueue
unfolding call
run q [] = ([], q)
run q (c ∷ cs) =
    let (completed, q') = call q c in let (more, q'') = run q' cs in (listed completed ++ more, q'')

pub call-IsValid :
    (others : ℕ) (q : AsyncWriteQueue) (c : Env × Call)
    → IsValid others q
    → IsValid others (call q c).1
unfolding call on_write_completed attach detach
call-IsValid others q (env, attaches) v = record {
  queued = v.queued;
  counted = v.counted;
  writes = v.writes;
  rests = v.rests;
}
call-IsValid others q (env, detaches) v =
    cleared-IsValid others (record q { stream = false })
      (record { queued = v.queued; counted = v.counted; writes = v.writes; rests = v.rests })
call-IsValid others q (env, clears) v = cleared-IsValid others q v
call-IsValid others q (env, pushes c) v = push-IsValid others env q c v
call-IsValid others q (env, completes bytes) v =
    complete_front-IsValid others env q bytes q.chains refl v

-- After any calls `Size` is the sum of the queued chains, the process-wide counter holds exactly
-- the bytes of this queue above those of the others, and a write is pending only for a chain
-- that is still at the front, and without one its start time is 0, if all this was so before.
pub run-IsValid :
    (others : ℕ) (q : AsyncWriteQueue) (cs : List (Env × Call))
    → IsValid others q
    → IsValid others (run q cs).1
unfolding run
run-IsValid others q [] v = v
run-IsValid others q (c ∷ cs) v = run-IsValid others (call q c).1 cs (call-IsValid others q c v)
