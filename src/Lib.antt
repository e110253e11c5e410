-- ===== src/Lib.antt =====
-- Syncme: events, timers, task queues and socket helpers for C++ (lib/source, lib/include/Syncme).
--
-- The program's parts. `Event` (lib/source/Event/Event.cpp) is a Windows-like event; threads wait
-- on one in Event::Wait or on several through a `WaitContext` (lib/source/Event/Wait.cpp), which
-- links a node into the wait list of each event and gathers their calls of `Complete`.
-- `TimerQueue` (lib/source/Timer) sets events when timers are due; one worker thread sleeps until
-- the earliest. `Task::Queue` (lib/source/TaskQueue.cpp) runs items on one worker, and each item
-- owns an event that says it is completed. A thread pool (lib/source/ThreadPool/Pool.cpp) keeps
-- idle workers, makes new ones up to a limit and stops those that were idle for long. The socket
-- layer (lib/source/Sockets) passes bytes through `IO::Queue` (Queue.cpp); the asynchronous
-- streams (Async) write chains of buffer views one at a time (BufferChain.cpp,
-- AsyncWriteQueue.cpp) and count their bytes in process-wide atomics (Counter.cpp). A TLS stream
-- (AsyncTlsStream.cpp) lies over another stream: what comes from below goes into OpenSSL, Drive
-- does what can be done at the moment, and ciphertext goes down through a write queue. On Linux a
-- `SocketEvent` (SocketEvent.cpp) is an event that a worker of `SocketEventQueue` sets when epoll
-- says so; WaitManager.cpp polls once and arms it again before each wait. On Linux the streams at
-- the bottom are those of an epoll engine (AsyncStreamLinux.cpp), which tries each read and write
-- at once, arms the descriptor for what is left, and queues a result for Wait when it is done.
-- TlsHello.cpp peeks at a TLS ClientHello, ErrorLimit.cpp says whether errors come too often, and
-- File/View.cpp gives out pointers into a window of a mapped file.
--
-- The files. A record holds the state of a class, with its members in the source's order and
-- words, and one function models one member function; each takes the state and gives the new one
-- back.
--   Prelude       Boolean tests, lists over native numbers, `size_t` and `uint64_t` arithmetic.
--   TlsHello      Parse: the two extension parsers. Handshake: the callbacks and
--                 PeekClientHelloImpl. Alpn, Sni, Peek: what is proved of them.
--   IoQueue       Queue.cpp. Store, Stream, Fifo, Limit: single calls. Trace: runs of calls.
--   Async         Counter, BufferChain, WriteQueue, and under WriteQueue its Order, Fifo, Stall
--                 and Accepts. TlsStream: AsyncTlsStream.cpp, its state here, Drive's parts in
--                 TlsStream/Drive and Write, the calls in Calls. Machine: the protocol as a step
--                 relation, which Refine relates to the code. Handshake, Reads, Notice, Encrypt,
--                 Drain, EarlyClose: what is proved of it. LinuxStream: AsyncStreamLinux.cpp, its
--                 state here, the locked transfers in LinuxStream/Transfer, the calls in Calls and
--                 Runs, and Wait. Quiet, Armed, Answers, Results, Iov, Send,
--                 HangUp: what is proved of it.
--   ErrorLimit    ErrorLimit.cpp, and Window for what it counts.
--   FileView      View.cpp. Window: single steps of Map. Range: which bytes it gives out.
--   Event         Event.cpp. Tokens, Starvation: runs. Broadcast: single calls. WaitContext: Wait.cpp.
--   SocketEvent   SocketEvent.cpp and SocketEventQueue.cpp on Linux. Calls: WaitManager.cpp,
--                 API.cpp and runs. Room: the list for epoll_wait. Absent: events that are not in
--                 the queue. NullQueue: the pointer to the queue.
--   TimerQueue    TimerQueue.cpp, Timer.cpp and the two calls of API.cpp. Wake: the sleep of the
--                 worker. Fire: the rounds of SignallTimers.
--   TaskQueue     TaskQueue.cpp, TaskQueueItem.cpp. Once: the completions. Order: the invocations.
--   ThreadPool    ThreadPool/Pool.cpp: the sections under its lock. Capacity: their interleavings.
--                 Submit: the queue of tasks and the loop of Run2. Submit/Claim: who runs a task.
--                 Worker: Worker.cpp as a state machine. Worker/Once: the callbacks it calls.
--                 ThreadList: ThreadList.cpp. ThreadList/Update: the handles that Update closes.
-- The module Tests of each part runs the code on small inputs.
--
-- Concurrency. Where a mutex guards a member function, the function is one step, and a run is a
-- list of calls in the order of the lock, any list of them. The atomics of Counter.cpp have no
-- lock: what other threads do between two reads is an argument. A condition variable is not
-- modelled: where the code waits, its step is not taken or returns what the condition is then.
--
-- Integers. `size_t` and `uint64_t` are natural numbers with the wrap-around of 2 ^ 64 written out
-- where the code adds or subtracts. Bytes are natural numbers.
--
-- Loops. A loop over a container is structural recursion over the list, or over the list of its
-- rounds. The loop of the ALPN parser runs on fuel, one more than the bytes of the extension:
-- each round consumes a byte, so that this is enough. ErrorLimit's nested loop runs on fuel, one
-- more than the history: each round erases an entry. A result `none` stands for a read or write
-- out of bounds, or for fuel that ran out. The loops of the TLS stream run on fuel too: around
-- SSL_write and BIO_write as many rounds as bytes, since each takes one or more, and in
-- DrainEncryptedOutput as many as bytes are pending in the BIO; the loop around BIO_write leaves
-- retries to the parameter. The loop of TryWriteLocked runs on one round more than the bytes that
-- are left, and the field `stuck` would tell that they were used up; sendmsg is repeated while it
-- is interrupted by the parameter. Wait goes through a list of answers of epoll_wait and may go
-- on after them.
--
-- Parameters. BoringSSL is the record `Ssl` (which callbacks it makes and what the handshake
-- returns), OpenSSL under the TLS stream is the record `SslApi` on a state of any type, what its
-- lower stream answers during a call is `Lower`, epoll and the control socket are `Epoll`, the
-- system calls of the Linux engine are `Kernel` on a state of any type, MapViewOfFile and
-- UnmapViewOfFile are the record `System`, the stream of a write queue and the clocks are `Env`
-- and `Clock`, and the bytes in memory that `resize` does not initialise are the function `junk`.
--
-- In the TLS stream a constructor stands for each text of LastError, two messages that differ in
-- their words only share one, and the fields `reported`, `notified`, `decrypted` and `encrypted`
-- record what happened. ResultSink makes no call of the stream, and a length that is cast to int
-- fits it.
--
-- Not modelled: the sockets and their system calls, the worker and the constructor of the socket
-- event queue, what is compiled for Windows, the event loops, the counters of capacity of the
-- Linux engine and its destructor, the constructor of the TLS stream with the buffers that it
-- reuses and the counters of capacity, Stop, StopUnused and the timer of the thread pool, the file
-- mapping, the critical section, threads, sleep and configuration. Of the modelled files: the
-- doubly linked list of wait nodes (a list here), the registration loop of
-- WaitForMultipleObjects, TryLock and the outer loop of the timers' worker, and exceptions.
pub mod Prelude
pub mod TlsHello
pub mod IoQueue
pub mod Async
pub mod ErrorLimit
pub mod FileView
pub mod Event
pub mod TimerQueue
pub mod SocketEvent
pub mod TaskQueue
pub mod ThreadPool
