-- ===== src/IoQueue/Fifo.antt =====
-- The calls of Queue.cpp that take packets out, join them or move them whole.
use syncme.Prelude.{
  ℕ, ◌<◌, ◌≡◌, refl, ap, sym, ◌∙◌, Bool, true, not, Option, none, some, List, [], ◌∷◌, ◌++◌, arith,
  ◌⊎◌, inl, inr, Bool-cases, ◌==◌, ltb, length, length-append, append-nil, append_assoc, add_word,
  sub_word, word_mod, word_max, ◌&&◌,
}
use syncme.IoQueue.{
  Buffer, Queue, exceeds, pop_first, push_front, join, append_buffer, append_queue, resize,
  join_loop, join_packets, take_packets, drain, ◌>>=◌,
}
use syncme.IoQueue.Store.{flatten, flatten-append, join_loop_lem}
use syncme.IoQueue.Stream.{IsCounted, Gains, Returns, refused-Gains, stored-Gains}

abbrev pub bytes_of : Option Buffer → List ℕ
bytes_of none = []
bytes_of (some b) = b

-- What a call that takes a packet leaves: the packet and the rest are the stream as it was.
pub record Pops (q : Queue) (r : Option Buffer × Queue) : Type 0 where
  pub stream : bytes_of r.0 ++ flatten r.1.packets ≡ flatten q.packets
  pub counted : IsCounted r.1
  pub same_limit : r.1.limit ≡ q.limit
  pub nothing : (flatten q.packets ≡ []) ⊎ ((b : Buffer) × (r.0 ≡ some b))

pop_first_of : (q : Queue) (ps : List Buffer) → q.packets ≡ ps → IsCounted q → Pops q (pop_first q)
unfolding pop_first
pop_first_of q [] e v = record {
  stream = ground arith;
  counted = ground arith;
  same_limit = ground arith;
  nothing = inl (ground arith);
}
pop_first_of q (b ∷ ps) e v = record {
  stream = ground arith;
  counted = ground (arith, length-append b (flatten ps));
  same_limit = ground arith;
  nothing = inr (b, ground arith);
}

-- PopFirst on a queue whose `Total` is right takes the first packet off the stream: the packet and what is left are the stream as it
-- was, `Total` is what is left, and there is no packet only if there are no bytes.
pub pop_first-Pops : (q : Queue) → IsCounted q → Pops q (pop_first q)
pop_first-Pops q v = pop_first_of q q.packets refl v

pop_first-last :
    (q : Queue)
    → (q.packets ≡ []) ⊎ ((b : Buffer) × (q.packets ≡ b ∷ []))
    → flatten (pop_first q).1.packets ≡ []
unfolding pop_first
pop_first-last q (inl e) = ground arith
pop_first-last q (inr (b, e)) = ground arith

-- The packets in one, before PopFirst takes it.
merged : Queue → Queue
merged q = record q { packets = flatten q.packets ∷ [] }

pop_first-merged :
    (q : Queue)
    → IsCounted q
    → Pops q (pop_first (merged q)) × ((pop_first (merged q)).1.packets ≡ [])
unfolding merged pop_first
pop_first-merged q v = (
  record {
    stream = append-nil (flatten q.packets);
    counted = omega arith;
    same_limit = refl;
    nothing = inr (flatten q.packets, refl);
  },
  refl,
)

module _ (junk : ℕ → ℕ) (q : Queue) (v : IsCounted q) where
  join-many :
      (b c : Buffer) (bs : List Buffer)
      → q.packets ≡ b ∷ c ∷ bs
      → length (flatten q.packets) < word_mod
      → join_packets junk (b ∷ c ∷ bs) q ≡ some (pop_first (merged q))
  unfolding join_packets merged
  join-many b c bs e small =
      ap (λ n. join_loop (resize junk b n) (length b) (c ∷ bs) >>= λ b'. popped b') total
      ∙ ap (λ o. o >>= λ b'. popped b') (join_loop_lem junk b (c ∷ bs))
      ∙ ap (λ ps. popped (flatten ps)) (sym e)
    where
      total : q.total ≡ length (b ++ flatten (c ∷ bs))
      total = omega (arith, ap (λ ps. length (flatten ps)) e)

      popped : Buffer → Option (Option Buffer × Queue)
      popped b' = some (pop_first (record q { packets = b' ∷ [] }))

  -- The packets that Join leaves behind: none, if it may take them all.
  abbrev pub Joins : ℕ → Option Buffer × Queue → Type 0
  Joins upto r =
      Pops q r
      × (((not (upto == word_max) && ltb upto q.total) ≡ true) ⊎ (flatten r.1.packets ≡ []))

  join_packets-all :
      (ps : List Buffer)
      → q.packets ≡ ps
      → length (flatten q.packets) < word_mod
      → Returns (join_packets junk ps q) (λ r. Pops q r × (flatten r.1.packets ≡ []))
  unfolding join_packets
  join_packets-all [] e small = (pop_first-Pops q v, pop_first-last q (inl e))
  join_packets-all (b ∷ []) e small = (pop_first-Pops q v, pop_first-last q (inr (b, e)))
  join_packets-all (b ∷ c ∷ bs) e small =
      rw (join-many b c bs e small) ((pop_first-merged q v).0, ap flatten (pop_first-merged q v).1)

  -- Join: one buffer with the bytes of all packets, whatever lay in the memory it grows into; only
  -- the first packet if `upto` is less than the queue holds.
  pub join-Joins :
      (upto : ℕ) → length (flatten q.packets) < word_mod → Returns (join junk q upto) (Joins upto)
  unfolding join
  join-Joins upto small = elim (Bool-cases (not (upto == word_max) && ltb upto q.total)) [
    | inl over ↦ rw over (pop_first-Pops q v, inl over)
    | inr fits ↦
        rw fits (weaken (join_packets junk q.packets q) (join_packets-all q.packets refl small))
  ]
    where
      weaken :
          (o : Option (Option Buffer × Queue))
          → Returns o (λ r. Pops q r × (flatten r.1.packets ≡ []))
          → Returns o (Joins upto)
      weaken none h = h
      weaken (some r) h = (h.0, inr h.1)

-- PushFront: the packet comes before the stream, whatever the limit.
pub push_front-stream :
    (q : Queue) (b : Buffer) (signal : Bool)
    → IsCounted q
    → (flatten (push_front q b signal).packets ≡ b ++ flatten q.packets)
      × IsCounted (push_front q b signal)
unfolding push_front
push_front-stream q b signal v = ground (arith, length-append b (flatten q.packets))

-- Append(BufferPtr) of a buffer that is not null: as Append of its bytes.
pub append_buffer-Gains :
    (q : Queue) (b : Buffer)
    → IsCounted q
    → Gains q (length b) (flatten q.packets ++ b) (append_buffer q (some b))
unfolding append_buffer
append_buffer-Gains q b v = elim (Bool-cases (exceeds q (length b))) [
  | inl over ↦ rw over (refused-Gains q (length b) (flatten q.packets ++ b) none v over)
  | inr fits ↦ rw fits (
      stored-Gains q _ (length b) (flatten q.packets ++ b) none fits
        (flatten-append q.packets (b ∷ []) ∙ ap (λ t. flatten q.packets ++ t) (append-nil b))
        (omega (arith, length-append (flatten q.packets) b)) refl)
]

take_packets-stream :
    (bs : List Buffer) (q : Queue)
    → IsCounted q
    → (flatten (take_packets bs q).packets ≡ flatten q.packets ++ flatten bs)
      × IsCounted (take_packets bs q)
unfolding take_packets
take_packets-stream [] q v = (sym (append-nil (flatten q.packets)), v)
take_packets-stream (b ∷ bs) q v =
    let q' : Queue = record q {
      packets = q.packets ++ b ∷ [];
      total = add_word q.total (length b);
    } in
    let s : flatten q'.packets ≡ flatten q.packets ++ b =
      flatten-append q.packets (b ∷ []) ∙ ap (λ t. flatten q.packets ++ t) (append-nil b) in
    let rest =
      take_packets-stream bs q' (omega (arith, ap length s, length-append (flatten q.packets) b)) in
    (rest.0 ∙ ap (λ t. t ++ flatten bs) s ∙ append_assoc (flatten q.packets) b (flatten bs), rest.1)

drain-empty :
    (bs : List Buffer) (q : Queue)
    → q.packets ≡ bs
    → IsCounted q
    → ((drain bs q).packets ≡ []) × IsCounted (drain bs q)
unfolding drain
drain-empty [] q e v = (e, v)
drain-empty (b ∷ bs) q e v =
    drain-empty bs (record q { packets = bs; total = sub_word q.total (length b) }) refl
      (ground (arith, length-append b (flatten bs)))

append_queue_of :
    (q other : Queue) (bs : List Buffer)
    → other.packets ≡ bs
    → IsCounted q
    → IsCounted other
    → let (r, other') = append_queue q other in
      (r.accepted ≡ true)
      × (flatten r.queue.packets ≡ flatten q.packets ++ flatten other.packets)
      × IsCounted r.queue
      × (r.qsize ≡ r.queue.total)
      × (other'.packets ≡ [])
      × (other'.total ≡ 0)
unfolding append_queue
append_queue_of q other [] e v w =
    ground (arith, append-nil (flatten q.packets), ap (λ ps. length (flatten ps)) e)
append_queue_of q other (b ∷ bs) e v w = ground (
  arith,
  ap (λ ps. length (flatten ps)) e,
  take_packets-stream (b ∷ bs) q v,
  drain-empty (b ∷ bs) other e w,
)

-- Append(Queue&), where both `Total`s are right: the whole stream of the other queue, whatever the limit, and the other one is
-- left empty.
pub append_queue-stream :
    (q other : Queue)
    → IsCounted q
    → IsCounted other
    → let (r, other') = append_queue q other in
      (r.accepted ≡ true)
      × (flatten r.queue.packets ≡ flatten q.packets ++ flatten other.packets)
      × IsCounted r.queue
      × (r.qsize ≡ r.queue.total)
      × (other'.packets ≡ [])
      × (other'.total ≡ 0)
append_queue-stream q other v w = append_queue_of q other other.packets refl v w
