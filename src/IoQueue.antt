-- ===== src/IoQueue.antt =====
-- lib/source/Sockets/Queue.cpp: the queue of byte buffers between a socket and its owner.
-- A buffer is the list of its bytes: whoever hands one to a queue is taken to leave it
-- alone until it comes out again. The lock makes each operation one step; `Signal` is counted.
-- The assertions are those of a release build: none. A `memcpy` past the end is `none`.
pub mod Store
pub mod Stream
pub mod Fifo
pub mod Trace
pub mod Limit
mod Tests
use syncme.Prelude.{
  ℕ, zero, suc, ◌+◌, ◌-◌, ◌*◌, ◌≡◌, Bool, true, false, not, ◌&&◌, ◌||◌, Option, none, some, List,
  [], ◌∷◌, ◌++◌, ltb, leb, ◌==◌, if◌then◌else◌, length, take, drop, word_max, add_word, sub_word,
}

abbrev pub Buffer : Type 0
Buffer = List ℕ

abbrev pub default_limit : ℕ
default_limit = 128 * 1024

abbrev pub buffer_size : ℕ
buffer_size = 128 * 1024

abbrev pub keep_buffers : ℕ
keep_buffers = 8

pub record Queue : Type 0 where
  pub limit : ℕ
  -- Whether `Signal` holds a function, and how often it was called.
  pub signal : Bool
  pub signalled : ℕ
  pub packets : List Buffer
  pub free : List Buffer
  pub total : ℕ
  pub auto_join : Bool

infixl 5 ◌>>=◌
abbrev pub ◌>>=◌ {ℓ κ} : {A : Type ℓ} {B : Type κ} → Option A → (A → Option B) → Option B
none >>= f = none
some a >>= f = f a

pub queue : ℕ → Bool → Queue
queue limit signal = record {
  limit = limit;
  signal = signal;
  signalled = 0;
  packets = [];
  free = [];
  total = 0;
  auto_join = false;
}

pub set_auto_join : Queue → Bool → Queue
set_auto_join q f = record q { auto_join = f }

pub set_signall_ready : Queue → Bool → Queue
set_signall_ready q signal = record q { signal = signal }

pub set_limit : Queue → ℕ → Queue
set_limit q limit = record q { limit = limit }

-- `none` for the result `false`: there is no limit.
pub get_available_limit : Queue → Option ℕ
get_available_limit q =
    if q.limit == word_max
    then none
    else if leb q.limit q.total
    then some 0
    else some (q.limit - q.total)

notify : Queue → Queue
notify q = if q.signal then record q { signalled = q.signalled + 1 } else q

pop_free_of : List Buffer → Queue → Option Buffer × Queue
pop_free_of [] q = (none, q)
pop_free_of (b ∷ free) q = (some b, record q { free = free })

pub pop_free : Queue → Option Buffer × Queue
unfolding pop_free_of
pop_free q = pop_free_of q.free q

pub push_free : Queue → Buffer → Queue
push_free q b =
    if leb (length b) buffer_size
    then if ltb (length q.free) keep_buffers then record q { free = q.free ++ b ∷ [] } else q
    else q

borrow : Option Queue → Option Buffer × Option Queue
unfolding pop_free
borrow none = (none, none)
borrow (some lender) = let (b, lender') = pop_free lender in (b, some lender')

-- A new buffer is empty; `reserve` only sets room aside. The lender is another queue.
or_new : Option Buffer → Buffer
or_new none = []
or_new (some b) = b

get_or_borrow : Option Buffer → Queue → Option Queue → Buffer × Queue × Option Queue
unfolding borrow or_new
get_or_borrow (some b) q lender = (b, q, lender)
get_or_borrow none q lender = let (b, lender') = borrow lender in (or_new b, q, lender')

pub get_buffer : Queue → Option Queue → Buffer × Queue × Option Queue
unfolding pop_free get_or_borrow
get_buffer q lender = let (b, q') = pop_free q in get_or_borrow b q' lender

-- `memcpy(&(*b)[pos], data, size)`
pub copy_at : Buffer → ℕ → List ℕ → Option Buffer
copy_at b pos src =
    if leb (pos + length src) (length b)
    then some (take pos b ++ (src ++ drop (pos + length src) b))
    else none

pop_first_of : List Buffer → Queue → Option Buffer × Queue
pop_first_of [] q = (none, q)
pop_first_of (b ∷ packets) q =
    (some b, record q { packets = packets; total = sub_word q.total (length b) })

pub pop_first : Queue → Option Buffer × Queue
unfolding pop_first_of
pop_first q = pop_first_of q.packets q

pub push_front : Queue → Buffer → Bool → Queue
unfolding notify
push_front q b signal =
    let q' : Queue = record q { packets = b ∷ q.packets; total = add_word q.total (length b) } in
    if signal then notify q' else q'

pub is_empty : Queue → Bool
is_empty q = q.total == 0

pub size : Queue → ℕ
size q = q.total

pub count : Queue → ℕ
count q = length q.packets

-- `Limit != -1 && Total + cb > Limit`
pub exceeds : Queue → ℕ → Bool
exceeds q cb = not (q.limit == word_max) && ltb q.limit (add_word q.total cb)

-- What a call reports: its result and the size that it stores through `qsize`.
pub record Outcome : Type 0 where
  pub accepted : Bool
  pub qsize : ℕ
  pub queue : Queue
  pub lender : Option Queue

pub refused : Queue → Option Queue → Outcome
refused q lender = record { accepted = false; qsize = q.total; queue = q; lender = lender }

pub stored : Queue → Option Queue → Outcome
unfolding notify
stored q lender = record { accepted = true; qsize = q.total; queue = notify q; lender = lender }

-- Append(BufferPtr)
pub append_buffer : Queue → Option Buffer → Outcome
unfolding exceeds refused stored notify
append_buffer q none = record { accepted = false; qsize = q.total; queue = notify q; lender = none }
append_buffer q (some b) =
    if exceeds q (length b)
    then refused q none
    else stored (record q { packets = q.packets ++ b ∷ []; total = add_word q.total (length b) })
        none

-- The loop of Append(Queue&): PopFirst takes the packets of the other queue one by one.
take_packets : List Buffer → Queue → Queue
take_packets [] q = q
take_packets (b ∷ bs) q =
    take_packets bs
      (record q { packets = q.packets ++ b ∷ []; total = add_word q.total (length b) })

drain : List Buffer → Queue → Queue
drain [] other = other
drain (b ∷ bs) other =
    drain bs (record other { packets = bs; total = sub_word other.total (length b) })

-- Append(Queue&): this queue and the other one afterwards.
pub append_queue : Queue → Queue → Outcome × Queue
unfolding take_packets drain stored notify count
append_queue q other =
    if count other == 0
    then (record { accepted = true; qsize = q.total; queue = q; lender = none }, other)
    else (stored (take_packets other.packets q) none, drain other.packets other)

pub back : List Buffer → Option Buffer
back [] = none
back (b ∷ []) = some b
back (b ∷ c ∷ bs) = back (c ∷ bs)

pub set_back : List Buffer → Buffer → List Buffer
set_back [] b' = []
set_back (b ∷ []) b' = b' ∷ []
set_back (b ∷ c ∷ bs) b' = b ∷ set_back (c ∷ bs) b'

-- The bytes of the last packet with more behind them; `none` where they go into a new one.
pub joined : Queue → List ℕ → Option Buffer
unfolding back
joined q bytes =
    if q.auto_join
    then elim (back q.packets) [
      | none ↦ none
      | some b ↦ if leb (length b + length bytes) buffer_size then some b else none
    ]
    else none

-- The loop of Join over the packets behind the first.
pub join_loop : Buffer → ℕ → List Buffer → Option Buffer
unfolding copy_at
join_loop b pos [] = some b
join_loop b pos (b1 ∷ bs) = copy_at b pos b1 >>= λ b'. join_loop b' (pos + length b1) bs

-- The bytes that `resize` adds are not initialised: `junk` says what lies there.
module _ (junk : ℕ → ℕ) where
  pub pad : ℕ → ℕ → List ℕ
  pad from zero = []
  pad from (suc n) = junk from ∷ pad (from + 1) n

  pub resize : Buffer → ℕ → Buffer
  unfolding pad
  resize b n = take n b ++ pad (length b) (n - length b)

  -- A buffer from GetBuffer, resized and filled.
  pub fill : Buffer → List ℕ → Option Buffer
  unfolding resize copy_at
  fill b bytes = copy_at (resize b (length bytes)) 0 bytes

  -- Insert(p, cb)
  pub insert : Queue → List ℕ → Option Queue → Option Outcome
  unfolding exceeds refused stored fill get_buffer
  insert q bytes lender =
      if exceeds q (length bytes)
      then some (refused q lender)
      else let (b, q', lender') = get_buffer q lender in
        fill b bytes >>= (λ b'. some (
          stored (record q' { packets = b' ∷ q'.packets; total = add_word q'.total (length bytes) })
            lender'))

  append_joined : Option Buffer → Queue → List ℕ → Option Queue → Option Outcome
  unfolding resize copy_at fill stored get_buffer set_back
  append_joined (some b) q bytes lender =
      copy_at (resize b (length b + length bytes)) (length b) bytes >>= λ b'. some (
        stored
          (record q { packets = set_back q.packets b'; total = add_word q.total (length bytes) })
          lender)
  append_joined none q bytes lender =
      let (b, q', lender') = get_buffer q lender in
      fill b bytes >>= λ b'. some (
        stored
          (record q' { packets = q'.packets ++ b' ∷ []; total = add_word q'.total (length bytes) })
          lender')

  -- Append(p, cb)
  pub append : Queue → List ℕ → Option Queue → Option Outcome
  unfolding exceeds refused joined append_joined
  append q bytes lender =
      if exceeds q (length bytes)
      then some (refused q lender)
      else append_joined (joined q bytes) q bytes lender

  join_packets : List Buffer → Queue → Option (Option Buffer × Queue)
  unfolding resize join_loop pop_first
  join_packets [] q = some (pop_first q)
  join_packets (b ∷ []) q = some (pop_first q)
  join_packets (b ∷ c ∷ bs) q = join_loop (resize b q.total) (length b) (c ∷ bs) >>= λ b'.
      some (pop_first (record q { packets = b' ∷ [] }))

  pub join : Queue → ℕ → Option (Option Buffer × Queue)
  unfolding join_packets pop_first
  join q upto =
      if not (upto == word_max) && ltb upto q.total
      then some (pop_first q)
      else join_packets q.packets q
