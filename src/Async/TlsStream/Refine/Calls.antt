-- ===== src/Async/TlsStream/Refine/Calls.antt =====
-- The calls of Async/AsyncTlsStream.cpp against the protocol.
use syncme.Prelude.{
  ℕ, zero, suc, ◌≡◌, refl, Bool, true, false, not, ◌&&◌, ◌||◌, Option, none, some, List, [], ◌∷◌,
  ◌==◌, ◌⊎◌, inl, inr, if◌then◌else◌, take,
}
use syncme.Async.BufferChain.{Buffer, BufferChain, is_empty}
use syncme.Async.WriteQueue.{on_write_completed}
use syncme.Async.TlsStream.{
  ssl_error_syscall, transport, SslApi, Lower, Operation, read, write, read_closed, handshake,
  error, no_operation, wake, stop, Result, TlsStream, Action, queue_read_closed,
  is_handshake_terminated, read_refused, write_refused, shutdown_refused, handshake_removing,
  handshake_no_ssl, adoption_removing, adoption_closed, adoption_pending, feed_removing,
  feed_no_ssl, feed_no_data, feed_no_rbio, feed_failed, completion_mismatch,
}
use syncme.Async.TlsStream.Drive.{end_plain_read}
use syncme.Async.TlsStream.Write.{drive}
use syncme.Async.TlsStream.Calls.{
  begin_read, start_read, start_write, shutdown_send, start_handshake, input_answer, write_input,
  feed_content, feed_encrypted_input, feed_buffer, complete_lower_write, lower_read_closes,
  lower_fails, lower_result, process_lower_result, adopt_pending_lower_read, Call, call_start_read,
  call_start_write, call_shutdown_send, call_close, call_start_handshake, call_adopt, call_pop,
  call_feed, call_lower_result, call_set_sink, call, run,
}
use syncme.Async.TlsStream.Machine.{
  loose, acknowledges, starts_handshake, reports_closed, begins_read, ends_read, begins_write,
  drops_write, closes, pops, sets_sink, Steps, stays, also, once, join,
}
use syncme.Async.TlsStream.Refine.{
  branch, continue-Steps, adjusted, says, calls, refuse-Steps, queue_error-Steps,
  complete_lower_shutdown-Steps,
}
use syncme.Async.TlsStream.Refine.Writing.{drive-Steps}

-- Where a test of the form `a || (b || c)` fails.
none_of : (a b c : Bool) → (a || (b || c)) ≡ false → (a ≡ false) × (b ≡ false) × (c ≡ false)
none_of false false false h = (refl, refl, refl)
none_of true b c h = cc
none_of false true c h = cc
none_of false false true h = cc

not-false : (b : Bool) → not b ≡ false → b ≡ true
not-false true h = refl
not-false false h = cc

unstarted : (a b : Bool) → (a && not b) ≡ false → (b ≡ true) ⊎ (a ≡ false)
unstarted a true h = inl refl
unstarted false false h = inr refl
unstarted true false h = cc

module _ {S : Type 0} (api : SslApi S) (low : Lower) where
  begin_read-Steps :
      (capacity : Option ℕ) (s : TlsStream S)
      → is_handshake_terminated s ≡ false
      → s.removing ≡ false
      → Steps S s (begin_read api low capacity s).1
  unfolding begin_read
  begin_read-Steps none s t r = stays
  begin_read-Steps (some n) s t r =
      branch (n == 0) _ _ (λ _. stays)
        (λ _. join (once (begins_read n t r)) (drive-Steps api low _))

  start_read-Steps :
      (capacity : Option ℕ) (s : TlsStream S) → Steps S s (start_read api low capacity s).1
  unfolding start_read
  start_read-Steps capacity s =
      branch (s.removing || (s.tls_read_closed || s.plain_read_pending)) _ _ (λ _. stays)
        (λ h.
          branch (is_handshake_terminated s) _ _ (λ _. refuse-Steps read_refused stays)
            (λ t.
              begin_read-Steps capacity s t
                (none_of s.removing s.tls_read_closed s.plain_read_pending h).0))

  start_write-Steps :
      (buffers : BufferChain) (s : TlsStream S) → Steps S s (start_write api low buffers s).1
  unfolding start_write
  start_write-Steps buffers s =
      branch (s.removing || (s.plain_write_pending || is_empty buffers)) _ _ (λ _. stays)
        (λ h.
          branch (is_handshake_terminated s) _ _ (λ _. refuse-Steps write_refused stays)
            (λ t.
              join
                (once (
                  begins_write buffers t
                    (none_of s.removing s.plain_write_pending (is_empty buffers) h).1))
                (drive-Steps api low _)))

  shutdown_send-Steps : (s : TlsStream S) → Steps S s (shutdown_send api low s).1
  unfolding shutdown_send
  shutdown_send-Steps s =
      branch s.removing _ _ (λ _. stays)
        (λ _.
          branch s.shutdown_completed _ _ (λ _. stays)
            (λ _.
              branch (is_handshake_terminated s) _ _ (λ _. refuse-Steps shutdown_refused stays)
                (λ _.
                  join (adjusted (record (loose s) { shutdown_pending = true }) stays)
                    (drive-Steps api low _))))

  start_handshake-Steps : (s : TlsStream S) → Steps S s (start_handshake api low s).1
  unfolding start_handshake
  start_handshake-Steps s =
      branch s.removing _ _ (λ _. refuse-Steps handshake_removing stays)
        (λ _.
          branch (not s.has_ssl) _ _ (λ _. refuse-Steps handshake_no_ssl stays)
            (λ _.
              branch (is_handshake_terminated s) _ _ (λ _. stays)
                (λ t. join (once (starts_handshake t)) (drive-Steps api low _))))

  input_answer-Steps :
      (next : List ℕ → Action S) (bytes : List ℕ) (r : Option ℕ) (s : TlsStream S)
      → ((bytes : List ℕ) (s' : TlsStream S) → Steps S s' (next bytes s').1)
      → Steps S s (input_answer api low next bytes r s).1
  unfolding input_answer
  input_answer-Steps next bytes none s p = refuse-Steps feed_failed stays
  input_answer-Steps next bytes (some n) s p = p _ s

  write_input-Steps :
      (fuel : ℕ) (bytes : List ℕ) (s : TlsStream S) → Steps S s (write_input api low fuel bytes s).1
  unfolding write_input
  write_input-Steps zero bytes s = stays
  write_input-Steps (suc fuel) [] s = stays
  write_input-Steps (suc fuel) (b ∷ bs) s =
      let (r, ssl) = api.rbio_write s.ssl (b ∷ bs) in
      join (calls ssl stays)
        (input_answer-Steps (write_input api low fuel) (b ∷ bs) r _ (write_input-Steps fuel))

  feed_content-Steps :
      (input : Option (List ℕ)) (bytes : ℕ) (s : TlsStream S)
      → Steps S s (feed_content api low input bytes s).1
  unfolding feed_content
  feed_content-Steps none bytes s = refuse-Steps feed_no_data stays
  feed_content-Steps (some content) bytes s =
      branch (not s.has_bios) _ _ (λ _. refuse-Steps feed_no_rbio stays)
        (λ _.
          continue-Steps (write_input api low bytes (take bytes content) s) _
            (write_input-Steps bytes (take bytes content) s)
            (λ s' p.
              branch (not s'.handshake_started) _ (drive api low s') (λ _. stays)
                (λ _. drive-Steps api low s')))

  feed_encrypted_input-Steps :
      (input : Option (List ℕ)) (bytes : ℕ) (s : TlsStream S)
      → Steps S s (feed_encrypted_input api low input bytes s).1
  unfolding feed_encrypted_input
  feed_encrypted_input-Steps input bytes s =
      branch (s.removing || not s.has_ssl) _ _
        (λ _. refuse-Steps (if s.removing then feed_removing else feed_no_ssl) stays)
        (λ _. branch (bytes == 0) _ _ (λ _. stays) (λ _. feed_content-Steps input bytes s))

  feed_buffer-Steps :
      (buffer : Option Buffer) (bytes : ℕ) (s : TlsStream S)
      → Steps S s (feed_buffer api low buffer bytes s).1
  unfolding feed_buffer
  feed_buffer-Steps none bytes s = stays
  feed_buffer-Steps (some content) bytes s =
      branch (bytes == 0) _ _ (λ _. stays)
        (λ _.
          branch (not s.has_bios) _ _ (λ _. refuse-Steps feed_no_rbio stays)
            (λ _. write_input-Steps bytes (take bytes content) s))

  complete_lower_write-Steps :
      (bytes : ℕ) (s : TlsStream S) → Steps S s (complete_lower_write api low bytes s).1
  unfolding complete_lower_write
  complete_lower_write-Steps bytes s =
      branch (not (on_write_completed low.writes s.lower_writer bytes).0) _ _
        (λ _. refuse-Steps completion_mismatch (once (acknowledges low.writes bytes)))
        (λ _. join (once (acknowledges low.writes bytes)) (complete_lower_shutdown-Steps api low _))

  lower_read_closes-Steps : (s : TlsStream S) → Steps S s (lower_read_closes api low s).1
  unfolding lower_read_closes queue_read_closed end_plain_read
  lower_read_closes-Steps s =
      branch s.plain_write_needs_read _ _
        (λ _.
          join (also (also (says _ stays) ends_read) drops_write)
            (queue_error-Steps ssl_error_syscall transport _))
        (λ _.
          branch (s.handshake_started && not s.handshake_completed) (drive api low s) _
            (λ _. drive-Steps api low s)
            (λ u.
              branch (not s.plain_read_pending) _ _ (λ _. stays)
                (λ p. once (
                  reports_closed
                    (elim (unstarted _ _ u) [ inl c ↦ inl c | inr n ↦ inr (n, not-false _ p) ])))))

  lower_fails-Steps : (code : ℕ) (s : TlsStream S) → Steps S s (lower_fails api low code s).1
  unfolding lower_fails
  lower_fails-Steps code s =
      branch (is_handshake_terminated s) _ _ (λ _. stays)
        (λ _. join (says _ stays) (queue_error-Steps code transport _))

  lower_result-Steps :
      (op : Operation) (r : Result) (s : TlsStream S) → Steps S s (lower_result api low op r s).1
  unfolding lower_result
  lower_result-Steps read r s =
      continue-Steps
        (feed_buffer api low r.buffer r.bytes (record s { lower_read_pending = false })) _
        (join (adjusted (record (loose s) { lower_read_pending = false }) stays)
          (feed_buffer-Steps r.buffer r.bytes _))
        (λ s' p. drive-Steps api low s')
  lower_result-Steps write r s =
      continue-Steps (complete_lower_write api low r.bytes s) _
        (complete_lower_write-Steps r.bytes s) (λ s' p. drive-Steps api low s')
  lower_result-Steps read_closed r s =
      join
        (adjusted
          (record (loose s) {
            lower_read_pending = false;
            lower_read_closed = true;
            tls_read_closed = true;
          })
          stays)
        (lower_read_closes-Steps _)
  lower_result-Steps error r s =
      join
        (adjusted (record (loose s) { lower_read_pending = false; lower_read_closed = true }) stays)
        (lower_fails-Steps r.error _)
  lower_result-Steps handshake r s = stays
  lower_result-Steps no_operation r s = stays
  lower_result-Steps wake r s = stays
  lower_result-Steps stop r s = stays

  process_lower_result-Steps :
      (mine : Bool) (r : Result) (s : TlsStream S)
      → Steps S s (process_lower_result api low mine r s).1
  unfolding process_lower_result
  process_lower_result-Steps mine r s =
      branch s.removing _ _ (λ _. stays)
        (λ _. branch (not mine) _ _ (λ _. stays) (λ _. lower_result-Steps r.op r s))

  adopt-Steps : (s : TlsStream S) → Steps S s (adopt_pending_lower_read s).1
  unfolding adopt_pending_lower_read
  adopt-Steps s =
      branch s.removing _ _ (λ _. refuse-Steps adoption_removing stays)
        (λ _.
          branch s.lower_read_closed _ _ (λ _. refuse-Steps adoption_closed stays)
            (λ _.
              branch s.lower_read_pending _ _ (λ _. refuse-Steps adoption_pending stays)
                (λ _. adjusted (record (loose s) { lower_read_pending = true }) stays)))

  pub call-Steps : (c : Call) (s : TlsStream S) → Steps S s (call api low c s)
  unfolding call
  call-Steps (call_start_read capacity) s = start_read-Steps capacity s
  call-Steps (call_start_write buffers) s = start_write-Steps buffers s
  call-Steps call_shutdown_send s = shutdown_send-Steps s
  call-Steps call_close s = once closes
  call-Steps call_start_handshake s = start_handshake-Steps s
  call-Steps call_adopt s = adopt-Steps s
  call-Steps call_pop s = once pops
  call-Steps (call_feed input bytes) s = feed_encrypted_input-Steps input bytes s
  call-Steps (call_lower_result mine r) s = process_lower_result-Steps mine r s
  call-Steps (call_set_sink sink) s = once (sets_sink sink)

-- Whatever OpenSSL and the lower stream answer, each call of the stream takes steps of the protocol
-- only, so the conditions of `Step` hold at every change of the stream's state.
pub run-Steps :
    {S : Type 0} (api : SslApi S) (calls : List (Lower × Call)) (s : TlsStream S)
    → Steps S s (run api calls s)
unfolding run
run-Steps api [] s = stays
run-Steps api ((low, c) ∷ rest) s =
    join (call-Steps api low c s) (run-Steps api rest (call api low c s))
