-- ===== src/Async/LinuxStream/Tests.antt =====
-- Async/AsyncStreamLinux.cpp with a system of one connection.
use syncme.Prelude.{
  ℕ, zero, suc, ◌+◌, ◌-◌, ◌≡◌, ◌≤◌, refl, arith, true, false, none, some, List, [], ◌∷◌, ◌++◌, ◌⊎◌,
  inl, inr, length, take, drop, min, length-take,
}
use syncme.Async.BufferChain.{BufferChain}
use syncme.Async.LinuxStream.{
  eintr, linux_async_stream, eagain, EpollEvent, Kernel, Socket, LinuxAsyncStream, LinuxAsyncEngine,
  Result, lookup, find_stream_locked,
}
use syncme.Async.LinuxStream.Transfer.{concat, try_write_locked}
use syncme.Async.LinuxStream.Calls.{add, start_read, start_write, process_entry}
use syncme.Async.LinuxStream.Runs.{
  perform, Call, call_add, call_start_read, call_start_write, call_event, call_pop, call_wake, run,
  empty_engine, linux_async_engine,
}
use syncme.Async.LinuxStream.Armed.{IsArmed}
use syncme.Async.LinuxStream.Armed.Run.{run-IsArmed}
use syncme.Async.LinuxStream.Results.Run.{AreNotFor, run-popped}
use syncme.Async.LinuxStream.Results.Removal.{failed, run-ended}
use syncme.Async.LinuxStream.Send.{TakesWhatIsGiven, Sends}
use syncme.Async.LinuxStream.Send.Rounds.{try_write_locked-Sends}
use syncme.Async.LinuxStream.Wait.{Round}
use syncme.Async.LinuxStream.Answers.{Answers}
use syncme.Async.LinuxStream.Answers.Run.{run-Answers}
use syncme.Async.LinuxStream.HangUp.{process_entry-hup, read_result, closed_result}

-- What came in and is not read, and how many bytes the connection takes before it is full.
record Wire : Type 0 where
  inbox : List ℕ
  room : ℕ
  outbox : List ℕ

abbrev receive : Wire → ℕ → List ℕ → (ℕ ⊎ List ℕ) × Wire
receive w size [] = (inl eagain, w)
receive w size (b ∷ bs) = (inr (take size (b ∷ bs)), record w { inbox = drop size (b ∷ bs) })

-- At most three bytes at once.
abbrev transmit : Wire → List ℕ → ℕ → (ℕ ⊎ ℕ) × Wire
transmit w bytes zero = (inl eagain, w)
transmit w bytes (suc room) = (
  inr (length (take (min 3 (suc room)) bytes)),
  record w {
    room = suc room - min 3 (suc room);
    outbox = w.outbox ++ take (min 3 (suc room)) bytes;
  },
)

abbrev wire_kernel : Kernel Wire
wire_kernel = record {
  epoll_create = λ w. (some 3, w);
  eventfd = λ w. (some 4, w);
  ctl_add = λ w fd interest. (none, w);
  ctl_mod = λ w fd interest. (none, w);
  ctl_del = λ w fd. w;
  get_nonblock = λ w fd. (some false, w);
  set_nonblock = λ w fd. (true, w);
  recv = λ w fd size. receive w size w.inbox;
  sendmsg = λ w fd iov. transmit w (concat iov) w.room;
  so_error = λ w fd. (inr 0, w);
  signal = λ w. w;
  drain = λ w. w;
  now = λ w. 7;
}

abbrev open_sockets : ℕ → Socket
open_sockets k = record { handle = some (k + 10); peer_disconnected = false }

abbrev quiet_wire : Wire
quiet_wire = record { inbox = []; room = 4; outbox = [] }

abbrev two_views : BufferChain
two_views = record {
  views =
      record { buffer = 1 ∷ 2 ∷ 3 ∷ []; offset = 1; size = 2 }
      ∷ record { buffer = 4 ∷ 5 ∷ 6 ∷ 7 ∷ []; offset = 0; size = 4 }
      ∷ [];
  total_size = 6;
}

abbrev engine : LinuxAsyncEngine Wire
engine = linux_async_engine wire_kernel open_sockets quiet_wire

abbrev calls : List Call
calls = call_add (some 0) 5 ∷ call_start_read 0 (some 8) ∷ call_start_write 0 two_views ∷ []

abbrev added : List Call
added = call_add (some 0) 5 ∷ []

run_made : (run wire_kernel added engine).made ≡ 1
unfolding linux_async_engine perform add
run_made = refl

run_offset : ((run wire_kernel calls engine).streams 0).write_offset ≡ 4
unfolding linux_async_engine perform add start_read start_write
run_offset = refl

-- The read waits, and so does the rest of the write.
run-IsArmed_example :
    let s = run wire_kernel calls engine in (lookup 10 s.entries ≡ some 0) × IsArmed s 0 10
unfolding linux_async_engine perform add start_read start_write
run-IsArmed_example = run-IsArmed wire_kernel open_sockets quiet_wire calls 0 10 refl refl

run-popped_example :
    let s =
      run wire_kernel
        (call_add (some 0) 5 ∷ call_wake ∷ call_pop ∷ [])
        (linux_async_engine wire_kernel open_sockets quiet_wire) in
    s.popped ++ s.pending_results ≡ s.reported
run-popped_example =
    run-popped wire_kernel open_sockets quiet_wire (call_add (some 0) 5 ∷ call_wake ∷ call_pop ∷ [])

abbrev broken : EpollEvent
broken = record {
  fd = 10;
  readable = false;
  writable = false;
  rd_hup = false;
  hup = false;
  err = true;
}

run-ended_example :
    let s = perform wire_kernel (call_event broken) (run wire_kernel added engine) in
    let t = run wire_kernel (call_start_read 0 (some 8) ∷ []) s in
    ((t.streams 0).removing ≡ true)
    × ((rs : List Result) × (t.reported ≡ s.reported ++ rs) × AreNotFor 0 rs)
unfolding linux_async_engine perform add
run-ended_example =
    run-ended wire_kernel (run wire_kernel added engine) 0 (call_event broken)
      (call_start_read 0 (some 8) ∷ []) (omega arith) (failed broken refl refl refl)

take-le : (n : ℕ) (xs : List ℕ) → length (take n xs) ≤ length xs
take-le n xs = omega (arith, length-take n xs)

transmit-le :
    (w : Wire) (bytes : List ℕ) (room n : ℕ) (w' : Wire)
    → transmit w bytes room ≡ (inr n, w')
    → n ≤ length bytes
transmit-le w bytes zero n w' e = cc
transmit-le w bytes (suc room) n w' e = ground (arith, take-le (min 3 (suc room)) bytes)

wire_kernel-TakesWhatIsGiven : TakesWhatIsGiven wire_kernel
wire_kernel-TakesWhatIsGiven = record {
  at_most = λ w fd iov n w' e. transmit-le w (concat iov) w.room n w' e;
}

abbrev writing : LinuxAsyncStream
writing = record (linux_async_stream 0 5) {
  write_pending = true;
  write_buffers = two_views;
  write_offset = 1;
  write_size = 6;
}

abbrev writing_engine : LinuxAsyncEngine Wire
writing_engine = record (empty_engine wire_kernel open_sockets quiet_wire) {
  entries = (10, 0) ∷ [];
  streams = λ p. writing;
  made = 1;
}

try_write_locked-Sends_example :
    let (ok, t) = try_write_locked wire_kernel 0 writing_engine in
    (ok ≡ true) × Sends 0 writing writing_engine t
unfolding find_stream_locked lookup
try_write_locked-Sends_example =
    try_write_locked-Sends wire_kernel 0 writing_engine wire_kernel-TakesWhatIsGiven
      (record {
        pending = refl;
        kept = refl;
        views = (omega arith, omega arith, (omega arith, omega arith, tt));
        sized = refl;
        fits = omega arith;
        left = omega arith;
      })
      refl

abbrev interrupted : List Round
interrupted =
    record { now = 0; epoll_wait = λ timeout. inl eintr }
    ∷ record { now = 3; epoll_wait = λ timeout. inr [] }
    ∷ []

abbrev reading_engine : LinuxAsyncEngine Wire
reading_engine =
    record (empty_engine wire_kernel open_sockets (record quiet_wire { inbox = 1 ∷ 2 ∷ 3 ∷ [] })) {
      entries = (10, 0) ∷ [];
      streams = λ p. record (linux_async_stream 0 5) { read_pending = true; read_buffer = some 2 };
      made = 1;
    }

abbrev hang_up : EpollEvent
hang_up = record {
  fd = 10;
  err = false;
  readable = true;
  writable = false;
  rd_hup = true;
  hup = true;
}

-- One byte is left behind.
process_entry-hup_example :
    let t = process_entry wire_kernel (some 0) hang_up reading_engine in
    (t.reported
      ≡ read_result wire_kernel 0 reading_engine (1 ∷ 2 ∷ [])
        ∷ closed_result wire_kernel 0 reading_engine
        ∷ [])
    × ((t.streams 0).read_closed ≡ false)
unfolding find_stream_locked lookup
process_entry-hup_example =
    process_entry-hup wire_kernel 0 hang_up reading_engine 2 1 (2 ∷ [])
      (record quiet_wire { inbox = 3 ∷ [] }) refl refl
      (record {
        kept = refl;
        pending = refl;
        alone = refl;
        buffer = refl;
        registered = refl;
        gives = refl;
      })

run-Answers_example :
    let s = run wire_kernel calls (linux_async_engine wire_kernel open_sockets quiet_wire) in
    Answers 0 s (perform wire_kernel (call_event hang_up) s)
unfolding linux_async_engine perform add start_read start_write
run-Answers_example =
    run-Answers wire_kernel open_sockets quiet_wire calls (call_event hang_up) 0 (omega arith)
