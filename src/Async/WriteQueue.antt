-- ===== src/Async/WriteQueue.antt =====
-- Async/AsyncWriteQueue.cpp: the chains that wait for their turn on one stream.
-- The stream is not part of this file: what `StartWrite` answers, the clock and the progress that
-- the stream reports are the `Env` of a call. `started` lists the chains that the stream took on.
pub mod Order
pub mod Fifo
pub mod Stall
pub mod Accepts
use syncme.Prelude.{
  ℕ, zero, suc, ◌+◌, ◌-◌, ◌^◌, ◌≡◌, Bool, true, false, not, ◌&&◌, ◌||◌, Option, none, some, List,
  [], ◌∷◌, ◌++◌, length, ltb, leb, ◌==◌, if◌then◌else◌, add_word, sub_word, max, ℤ, pos, negsuc,
}
use syncme.Async.BufferChain.{Buffer, BufferChain, empty_chain, is_empty, size, add_buffer, move}
use syncme.Async.Counter.{Tracked, track_allocation, track_deallocation}

pub record AsyncWriteQueue : Type 0 where
  -- Whether a stream is attached.
  pub stream : Bool
  pub chains : List BufferChain
  pub queued_bytes : ℕ
  pub write_pending : Bool
  pub write_started : ℕ
  -- AsyncWriteQueueBytes and its peak, which all queues of the process share.
  pub tracked : Tracked
  pub started : List BufferChain

-- GetTimeInMillisec, and the answers of the stream during one call.
pub record Env : Type 0 where
  pub now : ℕ
  pub start_write : BufferChain → Bool
  pub can_track_write_progress : Bool
  pub last_write_progress_time : ℕ

-- The constructor; the counters are those of the process.
pub write_queue : Tracked → AsyncWriteQueue
write_queue tracked = record {
  stream = false;
  chains = [];
  queued_bytes = 0;
  write_pending = false;
  write_started = 0;
  tracked = tracked;
  started = [];
}

unfoldable pub clear : AsyncWriteQueue → AsyncWriteQueue
unfolding track_deallocation
clear q = record q {
  tracked = track_deallocation q.tracked q.queued_bytes;
  chains = [];
  queued_bytes = 0;
  write_pending = false;
  write_started = 0;
}

unfoldable pub attach : AsyncWriteQueue → AsyncWriteQueue
attach q = record q { stream = true }

unfoldable pub detach : AsyncWriteQueue → AsyncWriteQueue
unfolding clear
detach q = clear (record q { stream = false })

pub start_front : Env → AsyncWriteQueue → List BufferChain → Bool × AsyncWriteQueue
start_front env q [] = (true, q)
start_front env q (front ∷ rest) =
    if q.write_pending
    then (true, q)
    else if not q.stream
    then (false, q)
    else if env.start_write front
    then (
      true,
      record q { write_pending = true; write_started = env.now; started = q.started ++ front ∷ [] },
    )
    else (false, record q { write_pending = false; write_started = 0 })

unfoldable pub start_next : Env → AsyncWriteQueue → Bool × AsyncWriteQueue
unfolding start_front
start_next env q = start_front env q q.chains

-- Push(BufferChain&&): the chain is taken over.
unfoldable pub push : Env → AsyncWriteQueue → BufferChain → Bool × AsyncWriteQueue
unfolding start_next is_empty size track_allocation
push env q buffers =
    if is_empty buffers
    then (true, q)
    else start_next env (record q {
      chains = q.chains ++ buffers ∷ [];
      queued_bytes = add_word q.queued_bytes (size buffers);
      tracked = track_allocation q.tracked (size buffers);
    })

-- Push(const BufferChain&): a copy of the chain.
unfoldable pub push_copy : Env → AsyncWriteQueue → BufferChain → Bool × AsyncWriteQueue
unfolding push is_empty
push_copy env q buffers = if is_empty buffers then (true, q) else push env q buffers

push_added : Env → AsyncWriteQueue → Bool × BufferChain → Bool × AsyncWriteQueue
unfolding push
push_added env q (false, chain) = (false, q)
push_added env q (true, chain) = push env q chain

-- Push(IO::BufferPtr)
unfoldable pub push_buffer : Env → AsyncWriteQueue → Option Buffer → Bool × AsyncWriteQueue
unfolding push_added add_buffer
push_buffer env q buffer = push_added env q (add_buffer empty_chain buffer)

-- The result, the chain that goes to `completed`, and the queue.
abbrev pub Completion : Type 0
Completion = Bool × Option BufferChain × AsyncWriteQueue

pub complete_front : Env → AsyncWriteQueue → ℕ → List BufferChain → Completion
unfolding start_next size track_deallocation
complete_front env q bytes [] = (false, none, q)
complete_front env q bytes (front ∷ rest) =
    if not q.write_pending
    then (false, none, q)
    else if not (bytes == size front)
    then (false, none, q)
    else let (started, q') = start_next env (record q {
      chains = rest;
      queued_bytes = sub_word q.queued_bytes (size front);
      tracked = track_deallocation q.tracked (size front);
      write_pending = false;
      write_started = 0;
    }) in
      (started, some front, q')

unfoldable pub on_write_completed : Env → AsyncWriteQueue → ℕ → Completion
unfolding complete_front
on_write_completed env q bytes = complete_front env q bytes q.chains

is_none_left : List BufferChain → Bool
is_none_left [] = true
is_none_left (c ∷ cs) = false

unfoldable pub is_empty_queue : AsyncWriteQueue → Bool
unfolding is_none_left
is_empty_queue q = is_none_left q.chains

pub is_writing : AsyncWriteQueue → Bool
is_writing q = q.write_pending

unfoldable pub is_idle : AsyncWriteQueue → Bool
unfolding is_none_left
is_idle q = is_none_left q.chains && not q.write_pending

abbrev pub int_max : ℕ
int_max = 2 ^ 31 - 1

unfoldable pub get_stall_timeout : Env → AsyncWriteQueue → ℕ → ℕ → ℤ
unfolding is_idle
get_stall_timeout env q now timeout =
    if timeout == 0 || (is_idle q || (not q.stream || not env.can_track_write_progress))
    then negsuc 0
    else let progress : ℕ = max q.write_started env.last_write_progress_time in
      let elapsed : ℕ = if leb progress now then now - progress else 0 in
      if leb timeout elapsed
      then pos 0
      else let remaining : ℕ = timeout - elapsed in
        if ltb int_max remaining then pos int_max else pos remaining
