-- ===== src/Async/WriteQueue/Accepts.antt =====
-- Async/AsyncWriteQueue.cpp on a stream that takes on every write.
use syncme.Prelude.{
  ℕ, ◌<◌, ◌≡◌, refl, arith, Bool, true, false, some, List, [], ◌∷◌, length, ◌++◌, if◌then◌else◌,
  add_word,
}
use syncme.Async.BufferChain.{BufferChain, add_buffer, add, empty_chain, is_empty, size}
use syncme.Async.Counter.{track_allocation}
use syncme.Async.WriteQueue.{
  AsyncWriteQueue, Env, push_buffer, push, start_next, start_front, push_added,
}

-- The lower stream takes on every write.
abbrev pub Accepts : Env → Type 0
Accepts env = (c : BufferChain) → env.start_write c ≡ true

start_front-Accepts :
    (env : Env) (q : AsyncWriteQueue) (cs : List BufferChain)
    → Accepts env
    → q.stream ≡ true
    → let (started, q') = start_front env q cs in (started ≡ true) × (q'.stream ≡ true)
unfolding start_front
start_front-Accepts env q [] a e = (refl, e)
start_front-Accepts env q (c ∷ cs) a e = (ground (arith, a c), ground (arith, a c))

push-Accepts :
    (env : Env) (q : AsyncWriteQueue) (c : BufferChain)
    → Accepts env
    → q.stream ≡ true
    → let (started, q') = push env q c in (started ≡ true) × (q'.stream ≡ true)
unfolding push start_next
push-Accepts env q c a e = choose (is_empty c)
  where
    choose :
        (b : Bool)
        → let (started, q') =
            if b
            then (true, q)
            else start_next env (record q {
              chains = q.chains ++ c ∷ [];
              queued_bytes = add_word q.queued_bytes (size c);
              tracked = track_allocation q.tracked (size c);
            }) in
          (started ≡ true) × (q'.stream ≡ true)
    choose true = (refl, e)
    choose false = start_front-Accepts env _ (q.chains ++ c ∷ []) a e

pub push_buffer-Accepts :
    (env : Env) (q : AsyncWriteQueue) (bytes : List ℕ)
    → Accepts env
    → q.stream ≡ true
    → 0 < length bytes
    → let (started, q') = push_buffer env q (some bytes) in (started ≡ true) × (q'.stream ≡ true)
unfolding push_buffer push_added add_buffer add
push_buffer-Accepts env q [] a e h = elim h [ ]
push_buffer-Accepts env q (b ∷ bs) a e h = added (add_buffer empty_chain (some (b ∷ bs))) taken
  where
    taken : (add_buffer empty_chain (some (b ∷ bs))).0 ≡ true
    taken = ground arith

    added :
        (m : Bool × BufferChain)
        → m.0 ≡ true
        → let (started, q') = push_added env q m in (started ≡ true) × (q'.stream ≡ true)
    added (true, c) k = push-Accepts env q c a e
    added (false, c) k = cc
