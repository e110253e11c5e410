-- ===== src/Async/Tests.antt =====
-- The counters, the chains and the write queue of lib/source/Async on a few writes.
use syncme.Prelude.{true, false, List, [], ◌∷◌, ◌≡◌, refl, pos}
use syncme.Async.Counter.{Attempt}
use syncme.Async.BufferChain.{Buffer, BufferChain, is_empty}
use syncme.Async.WriteQueue.{AsyncWriteQueue, Env, get_stall_timeout, is_idle}
use syncme.Async.WriteQueue.Order.{run-IsValid, run, Call, attaches, pushes, completes}
use syncme.Async.WriteQueue.Order
use syncme.Async.WriteQueue.Fifo.{run-IsOrdered, IsOrdered}

-- Another thread raises the peak before the first exchange.
abbrev raised : List Attempt
raised = record { raised = 7; spurious = false } ∷ []

abbrev bytes : Buffer
bytes = 1 ∷ 2 ∷ 3 ∷ []

abbrev chain : BufferChain
chain = record { views = record { buffer = bytes; offset = 0; size = 3 } ∷ []; total_size = 3 }

abbrev env : Env
env = record {
  now = 40;
  start_write = λ c. true;
  can_track_write_progress = true;
  last_write_progress_time = 45;
}

abbrev fresh_queue : AsyncWriteQueue
fresh_queue = record {
  stream = false;
  chains = [];
  queued_bytes = 0;
  write_pending = false;
  write_started = 0;
  tracked = record { bytes = 10; peak = 10 };
  started = [];
}

abbrev script : List (Env × Call)
script = (env, attaches) ∷ (env, pushes chain) ∷ (env, pushes chain) ∷ (env, completes 3) ∷ []

fresh_queue-IsValid : Order.IsValid 10 fresh_queue
fresh_queue-IsValid = record { queued = refl; counted = refl; writes = λ e. cc; rests = λ e. refl }

run-IsOrdered_example :
    let (completed, q') = run fresh_queue script in IsOrdered (chain ∷ chain ∷ []) completed q'
unfolding is_empty
run-IsOrdered_example =
    run-IsOrdered 10 [] [] fresh_queue script fresh_queue-IsValid tt
      (record { queued = refl; sent = refl })

-- Writing since 40, with progress at 45.
abbrev writing : AsyncWriteQueue
writing = record fresh_queue {
  stream = true;
  chains = chain ∷ [];
  queued_bytes = 3;
  write_pending = true;
  write_started = 40;
}

stall-test : get_stall_timeout env writing 50 20 ≡ pos 15
unfolding get_stall_timeout
stall-test = refl

writing-busy : is_idle writing ≡ false
unfolding is_idle
writing-busy = refl
