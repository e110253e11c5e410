-- ===== src/Async/TlsStream/Calls.antt =====
-- Async/AsyncTlsStream.cpp: the calls of the owner and of the engine, each under the stream's lock.
use syncme.Prelude.{
  ℕ, zero, suc, ◌+◌, Bool, true, false, not, ◌&&◌, ◌||◌, Option, none, some, List, [], ◌∷◌, ◌==◌,
  take, drop, if◌then◌else◌,
}
use syncme.Async.BufferChain.{Buffer, BufferChain, is_empty, size}
use syncme.Async.WriteQueue.{on_write_completed}
use syncme.Async.WriteQueue
use syncme.Async.TlsStream.{
  ssl_error_syscall, SslApi, Lower, Operation, read, write, read_closed, handshake, error,
  no_operation, wake, stop, transport, read_refused, write_refused, shutdown_refused,
  handshake_removing, handshake_no_ssl, adoption_removing, adoption_closed, adoption_pending,
  feed_removing, feed_no_ssl, feed_no_data, feed_no_rbio, feed_failed, closed_while_writing,
  lower_error, completion_mismatch, Result, TlsStream, Action, continue, refuse, queue_error,
  queue_read_closed, is_handshake_terminated, reset_plain_write,
}
use syncme.Async.TlsStream.Drive.{complete_lower_shutdown, end_plain_read}
use syncme.Async.TlsStream.Write.{drive}

module _ {S : Type 0} (api : SslApi S) (low : Lower) where
  unfoldable pub begin_read : Option ℕ → Action S
  unfolding drive
  begin_read none s = (false, s)
  begin_read (some n) s =
      if n == 0
      then (false, s)
      else drive api low (record s { plain_read_buffer = some n; plain_read_pending = true })

  -- With the size of the buffer, if there is one.
  unfoldable pub start_read : Option ℕ → Action S
  unfolding is_handshake_terminated begin_read
  start_read capacity s =
      if s.removing || (s.tls_read_closed || s.plain_read_pending)
      then (false, s)
      else if is_handshake_terminated s
      then refuse read_refused s
      else begin_read capacity s

  unfoldable pub start_write : BufferChain → Action S
  unfolding is_handshake_terminated drive is_empty size
  start_write buffers s =
      if s.removing || (s.plain_write_pending || is_empty buffers)
      then (false, s)
      else if is_handshake_terminated s
      then refuse write_refused s
      else drive api low (record s {
        plain_write_buffers = buffers;
        plain_write_offset = 0;
        plain_write_size = size buffers;
        plain_write_pending = true;
        plain_write_needs_read = false;
      })

  unfoldable pub shutdown_send : Action S
  unfolding is_handshake_terminated drive
  shutdown_send s =
      if s.removing
      then (false, s)
      else if s.shutdown_completed
      then (true, s)
      else if is_handshake_terminated s
      then refuse shutdown_refused s
      else drive api low (record s { shutdown_pending = true })

  unfoldable pub start_handshake : Action S
  unfolding is_handshake_terminated drive
  start_handshake s =
      if s.removing
      then refuse handshake_removing s
      else if not s.has_ssl
      then refuse handshake_no_ssl s
      else if is_handshake_terminated s
      then (false, s)
      else drive api low (record s { handshake_started = true })

  -- After BIO_write; `next` are the rounds after this one.
  unfoldable pub input_answer : (List ℕ → Action S) → List ℕ → Option ℕ → Action S
  input_answer next bytes none s = refuse feed_failed s
  input_answer next bytes (some n) s = next (drop (n + 1) bytes) s

  -- The loop around BIO_write; as many rounds as bytes are enough.
  unfoldable pub write_input : ℕ → List ℕ → Action S
  unfolding input_answer
  write_input zero bytes s = (true, s)
  write_input (suc fuel) [] s = (true, s)
  write_input (suc fuel) (b ∷ bs) s =
      let (r, ssl) = api.rbio_write s.ssl (b ∷ bs) in
      input_answer (write_input fuel) (b ∷ bs) r (record s { ssl = ssl })

  unfoldable pub feed_content : Option (List ℕ) → ℕ → Action S
  unfolding write_input drive
  feed_content none bytes s = refuse feed_no_data s
  feed_content (some content) bytes s =
      if not s.has_bios
      then refuse feed_no_rbio s
      else continue (write_input bytes (take bytes content) s)
          (λ s'. if not s'.handshake_started then (true, s') else drive api low s')

  -- FeedEncryptedInput(data, bytes), with the bytes that it points to.
  unfoldable pub feed_encrypted_input : Option (List ℕ) → ℕ → Action S
  unfolding feed_content
  feed_encrypted_input input bytes s =
      if s.removing || not s.has_ssl
      then refuse (if s.removing then feed_removing else feed_no_ssl) s
      else if bytes == 0
      then (true, s)
      else feed_content input bytes s

  -- FeedEncryptedInput(IO::BufferPtr, bytes)
  unfoldable pub feed_buffer : Option Buffer → ℕ → Action S
  unfolding write_input
  feed_buffer none bytes s = (true, s)
  feed_buffer (some content) bytes s =
      if bytes == 0
      then (true, s)
      else if not s.has_bios
      then refuse feed_no_rbio s
      else write_input bytes (take bytes content) s

  unfoldable pub complete_lower_write : ℕ → Action S
  unfolding complete_lower_shutdown on_write_completed
  complete_lower_write bytes s =
      let (done, _, writer) = on_write_completed low.writes s.lower_writer bytes in
      if not done
      then refuse completion_mismatch (record s { lower_writer = writer })
      else complete_lower_shutdown api low (record s { lower_writer = writer })

  unfoldable pub lower_read_closes : Action S
  unfolding reset_plain_write queue_error queue_read_closed end_plain_read drive
  lower_read_closes s =
      if s.plain_write_needs_read
      then queue_error ssl_error_syscall transport
          (reset_plain_write (end_plain_read (record s { last_error = some closed_while_writing })))
      else if s.handshake_started && not s.handshake_completed
      then drive api low s
      else if not s.plain_read_pending
      then (true, s)
      else queue_read_closed (end_plain_read s)

  unfoldable pub lower_fails : ℕ → Action S
  unfolding is_handshake_terminated queue_error
  lower_fails code s =
      if is_handshake_terminated s
      then (true, s)
      else queue_error code transport (record s { last_error = some (lower_error code) })

  unfoldable pub lower_result : Operation → Result → Action S
  unfolding feed_buffer complete_lower_write lower_read_closes lower_fails drive
  lower_result read r s =
      continue (feed_buffer r.buffer r.bytes (record s { lower_read_pending = false }))
        (drive api low)
  lower_result write r s = continue (complete_lower_write r.bytes s) (drive api low)
  lower_result read_closed r s =
      lower_read_closes
        (record s { lower_read_pending = false; lower_read_closed = true; tls_read_closed = true })
  lower_result error r s =
      lower_fails r.error (record s { lower_read_pending = false; lower_read_closed = true })
  lower_result handshake r s = (true, s)
  lower_result no_operation r s = (true, s)
  lower_result wake r s = (true, s)
  lower_result stop r s = (true, s)

  -- `mine`: the result is one of LowerStream.
  unfoldable pub process_lower_result : Bool → Result → Action S
  unfolding lower_result
  process_lower_result mine r s =
      if s.removing then (false, s) else if not mine then (false, s) else lower_result r.op r s

abbrev pub has_pending : List Result → Bool
has_pending [] = false
has_pending (r ∷ rs) = true

module _ {S : Type 0} where
  unfoldable pub close : TlsStream S → TlsStream S
  unfolding reset_plain_write WriteQueue.clear
  close s =
      if s.removing
      then s
      else reset_plain_write (record s {
        removing = true;
        shutdown_pending = false;
        pending_results = [];
        result_notified = false;
        has_sink = false;
        adopted_plain_buffers = [];
        adopted_plain_offset = 0;
        lower_writer = WriteQueue.clear s.lower_writer;
        plain_read_buffer = none;
        plain_read_pending = false;
      })

  unfoldable pub adopt_pending_lower_read : Action S
  adopt_pending_lower_read s =
      if s.removing
      then refuse adoption_removing s
      else if s.lower_read_closed
      then refuse adoption_closed s
      else if s.lower_read_pending
      then refuse adoption_pending s
      else (true, record s { lower_read_pending = true })

  unfoldable pub is_shutdown_completed : TlsStream S → Bool
  is_shutdown_completed s = s.shutdown_completed && s.lower_send_shutdown_completed

  unfoldable pub take_first : TlsStream S → List Result → Option Result × TlsStream S
  take_first s [] = (none, record s { result_notified = false })
  take_first s (r ∷ []) = (some r, record s { pending_results = []; result_notified = false })
  take_first s (r ∷ r' ∷ rest) = (some r, record s { pending_results = r' ∷ rest })

  unfoldable pub pop_pending_result : TlsStream S → Option Result × TlsStream S
  unfolding take_first
  pop_pending_result s = take_first s s.pending_results

  unfoldable pub has_pending_result : TlsStream S → Bool
  has_pending_result s = has_pending s.pending_results

  -- `sink`: whether the function that is passed is one.
  unfoldable pub set_result_sink : Bool → TlsStream S → TlsStream S
  set_result_sink sink s =
      if sink && has_pending s.pending_results
      then record s { has_sink = sink; result_notified = true; notified = s.notified + 1 }
      else record s { has_sink = sink; result_notified = false }

-- The calls of the owner and of the engine that change a stream.
pub data Call : Type 0 where
  call_start_read : Option ℕ → Call
  call_start_write : BufferChain → Call
  call_shutdown_send call_close call_start_handshake call_adopt call_pop : Call
  call_feed : Option (List ℕ) → ℕ → Call
  call_lower_result : Bool → Result → Call
  call_set_sink : Bool → Call

module _ {S : Type 0} (api : SslApi S) where
  unfoldable pub call : Lower → Call → TlsStream S → TlsStream S
  unfolding start_read start_write shutdown_send close start_handshake adopt_pending_lower_read
      pop_pending_result feed_encrypted_input process_lower_result set_result_sink
  call low (call_start_read capacity) s = (start_read api low capacity s).1
  call low (call_start_write buffers) s = (start_write api low buffers s).1
  call low call_shutdown_send s = (shutdown_send api low s).1
  call low call_close s = close s
  call low call_start_handshake s = (start_handshake api low s).1
  call low call_adopt s = (adopt_pending_lower_read s).1
  call low call_pop s = (pop_pending_result s).1
  call low (call_feed input bytes) s = (feed_encrypted_input api low input bytes s).1
  call low (call_lower_result mine r) s = (process_lower_result api low mine r s).1
  call low (call_set_sink sink) s = set_result_sink sink s

  -- Calls one after another, each with what the lower stream answers during it.
  unfoldable pub run : List (Lower × Call) → TlsStream S → TlsStream S
  unfolding call
  run [] s = s
  run ((low, c) ∷ rest) s = run rest (call low c s)
