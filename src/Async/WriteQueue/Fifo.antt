-- ===== src/Async/WriteQueue/Fifo.antt =====
-- Which chains the stream of an AsyncWriteQueue sees, and in which order.
use syncme.Prelude.{
  ℕ, ◌≡◌, ◌≢◌, refl, ap, sym, ◌∙◌, Bool, true, false, List, [], ◌∷◌, ◌++◌, arith, if◌then◌else◌,
  append-nil, append_assoc, Bool-cases, inl, inr,
}
use syncme.Async.BufferChain.{BufferChain, is_empty}
use syncme.Async.WriteQueue.{
  AsyncWriteQueue, Env, start_next, start_front, push, on_write_completed, attach, complete_front,
}
use syncme.Async.WriteQueue.Order.{
  IsValid, Call, attaches, detaches, clears, pushes, completes, call, run, listed, pushed, finished,
  push-full, push-nothing, complete_front_cases, call-IsValid,
}

-- The chain that the stream is writing.
abbrev pub in_flight : Bool → List BufferChain → List BufferChain
in_flight false cs = []
in_flight true [] = []
in_flight true (c ∷ cs) = c ∷ []

-- The chains that were pushed are those done and those queued; those started are those done and
-- the one in flight.
pub record IsOrdered (all done : List BufferChain) (q : AsyncWriteQueue) : Type 0 where
  pub queued : all ≡ done ++ q.chains
  pub sent : q.started ≡ done ++ in_flight q.write_pending q.chains

start_front-IsOrdered :
    (env : Env) (all done : List BufferChain) (q : AsyncWriteQueue) (cs : List BufferChain)
    → q.chains ≡ cs
    → IsOrdered all done q
    → IsOrdered all done (start_front env q cs).1
unfolding start_front
start_front-IsOrdered env all done q [] e o = o
start_front-IsOrdered env all done q (c ∷ cs) e o = record {
  queued = ground (arith, o.queued);
  sent = ground (arith, o.sent, append_assoc done [] (c ∷ []), append-nil done);
}

start_next-IsOrdered :
    (env : Env) (all done : List BufferChain) (q : AsyncWriteQueue)
    → IsOrdered all done q
    → IsOrdered all done (start_next env q).1
unfolding start_next
start_next-IsOrdered env all done q o = start_front-IsOrdered env all done q q.chains refl o

in_flight-append :
    (pending : Bool) (cs : List BufferChain) (c : BufferChain)
    → (pending ≡ true → cs ≢ [])
    → in_flight pending (cs ++ c ∷ []) ≡ in_flight pending cs
in_flight-append false cs c h = refl
in_flight-append true [] c h = absurd (h refl refl)
in_flight-append true (d ∷ cs) c h = refl

pushed-IsOrdered :
    (all done : List BufferChain) (q : AsyncWriteQueue) (c : BufferChain)
    → (q.write_pending ≡ true → q.chains ≢ [])
    → IsOrdered all done q
    → IsOrdered (all ++ c ∷ []) done (pushed q c)
pushed-IsOrdered all done q c h o = record {
  queued = ap (λ t. t ++ c ∷ []) o.queued ∙ append_assoc done q.chains (c ∷ []);
  sent = o.sent ∙ ap (λ t. done ++ t) (sym (in_flight-append q.write_pending q.chains c h));
}

finished-IsOrdered :
    (all done : List BufferChain) (q : AsyncWriteQueue) (c : BufferChain) (cs : List BufferChain)
    → q.chains ≡ c ∷ cs
    → q.write_pending ≡ true
    → IsOrdered all done q
    → IsOrdered all (done ++ c ∷ []) (finished q c cs)
finished-IsOrdered all done q c cs e h o = record {
  queued = o.queued ∙ ap (λ t. done ++ t) e ∙ sym (append_assoc done (c ∷ []) cs);
  sent = o.sent ∙ flying ∙ sym (append-nil (done ++ c ∷ []));
}
  where
    flying : done ++ in_flight q.write_pending q.chains ≡ done ++ c ∷ []
    flying = ground arith

abbrev pub offered : List (Env × Call) → List BufferChain
offered [] = []
offered ((env, pushes c) ∷ cs) = (if is_empty c then [] else c ∷ []) ++ offered cs
offered ((env, attaches) ∷ cs) = offered cs
offered ((env, detaches) ∷ cs) = offered cs
offered ((env, clears) ∷ cs) = offered cs
offered ((env, completes bytes) ∷ cs) = offered cs

-- No call drops what is queued.
abbrev pub AreLive : List (Env × Call) → Type 0
AreLive [] = Unit {0}
AreLive ((env, detaches) ∷ cs) = ⊥
AreLive ((env, clears) ∷ cs) = ⊥
AreLive ((env, attaches) ∷ cs) = AreLive cs
AreLive ((env, pushes c) ∷ cs) = AreLive cs
AreLive ((env, completes bytes) ∷ cs) = AreLive cs

push-IsOrdered :
    (env : Env) (all done : List BufferChain) (q : AsyncWriteQueue) (c : BufferChain)
    → (q.write_pending ≡ true → q.chains ≢ [])
    → IsOrdered all done q
    → IsOrdered (all ++ (if is_empty c then [] else c ∷ [])) done (push env q c).1
push-IsOrdered env all done q c h o = elim (Bool-cases (is_empty c)) [
  | inl e ↦ rw (push-nothing env q c e, e, append-nil all) o
  | inr e ↦
      rw (push-full env q c e, e)
        (start_next-IsOrdered env (all ++ c ∷ []) done (pushed q c)
          (pushed-IsOrdered all done q c h o))
]

complete-IsOrdered :
    (env : Env) (all done : List BufferChain) (q : AsyncWriteQueue) (bytes : ℕ)
    (cs : List BufferChain)
    → q.chains ≡ cs
    → IsOrdered all done q
    → let r = complete_front env q bytes cs in IsOrdered all (done ++ listed r.1) r.2
unfolding complete_front
complete-IsOrdered env all done q bytes [] e o = record {
  queued = o.queued ∙ sym (ap (λ t. t ++ q.chains) (append-nil done));
  sent = o.sent ∙ sym (ap (λ t. t ++ in_flight q.write_pending q.chains) (append-nil done));
}
complete-IsOrdered env all done q bytes (c ∷ cs) e o =
    elim (complete_front_cases env q bytes c cs) [
      | inl h ↦ rw h (rw append-nil o)
      | inr (p, _, h) ↦ rw h (
          start_next-IsOrdered env all (done ++ c ∷ []) (finished q c cs)
            (finished-IsOrdered all done q c cs e p o))
    ]

call-IsOrdered :
    (others : ℕ) (all done : List BufferChain) (q : AsyncWriteQueue) (c : Env × Call)
    → IsValid others q
    → AreLive (c ∷ [])
    → IsOrdered all done q
    → let (completed, q') = call q c in
      IsOrdered (all ++ offered (c ∷ [])) (done ++ listed completed) q'
unfolding call on_write_completed attach
call-IsOrdered others all done q (env, attaches) v l o =
    rw (append-nil all, append-nil done) (record { queued = o.queued; sent = o.sent })
call-IsOrdered others all done q (env, detaches) v l o = absurd l
call-IsOrdered others all done q (env, clears) v l o = absurd l
call-IsOrdered others all done q (env, pushes c) v l o =
    rw (append-nil (if is_empty c then [] else c ∷ []), append-nil done)
      (push-IsOrdered env all done q c v.writes o)
call-IsOrdered others all done q (env, completes bytes) v l o =
    rw append-nil (complete-IsOrdered env all done q bytes q.chains refl o)

AreLive-head :
    (c : Env × Call) (cs : List (Env × Call)) → AreLive (c ∷ cs) → AreLive (c ∷ []) × AreLive cs
AreLive-head (env, attaches) cs l = (tt, l)
AreLive-head (env, detaches) cs l = absurd l
AreLive-head (env, clears) cs l = absurd l
AreLive-head (env, pushes c) cs l = (tt, l)
AreLive-head (env, completes bytes) cs l = (tt, l)

offered-cons :
    (c : Env × Call) (cs : List (Env × Call)) → offered (c ∷ cs) ≡ offered (c ∷ []) ++ offered cs
offered-cons (env, attaches) cs = refl
offered-cons (env, detaches) cs = refl
offered-cons (env, clears) cs = refl
offered-cons (env, pushes c) cs =
    ap (λ t. t ++ offered cs) (sym (append-nil (if is_empty c then [] else c ∷ [])))
offered-cons (env, completes bytes) cs = refl

-- Until a Clear or Detach, whatever the stream answers and whenever it completes: the chains that
-- OnWriteCompleted gives back are the pushed ones in their order, the queue holds the others, and
-- the stream has been given each of the completed ones once and in that order, and at most one
-- more, the front of the queue.
pub run-IsOrdered :
    (others : ℕ) (all done : List BufferChain) (q : AsyncWriteQueue) (cs : List (Env × Call))
    → IsValid others q
    → AreLive cs
    → IsOrdered all done q
    → let (completed, q') = run q cs in IsOrdered (all ++ offered cs) (done ++ completed) q'
unfolding run
run-IsOrdered others all done q [] v l o = rw (append-nil all, append-nil done) o
run-IsOrdered others all done q (c ∷ cs) v l o =
    let now = call q c in
    let (head, tail) = AreLive-head c cs l in
    rw
      (
        offered-cons c cs,
        ← append_assoc all (offered (c ∷ [])) (offered cs),
        ← append_assoc done (listed now.0) (run now.1 cs).0,
      )
      (run-IsOrdered others (all ++ offered (c ∷ [])) (done ++ listed now.0) now.1 cs
        (call-IsValid others q c v) tail (call-IsOrdered others all done q c v head o))
