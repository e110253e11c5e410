-- ===== src/Async/TlsStream/Write.antt =====
-- Async/AsyncTlsStream.cpp: DrivePlainWrite, DriveShutdown, and Drive, which calls the others.
use syncme.Prelude.{
  ℕ, zero, suc, ◌+◌, ◌-◌, Bool, true, false, not, ◌&&◌, none, some, List, [], ◌∷◌, ◌++◌, ◌==◌, leb,
  ◌⊎◌, inl, inr, length, take, drop, if◌then◌else◌, add_word,
}
use syncme.Async.BufferChain.{BufferView, slice}
use syncme.Async.WriteQueue.{is_idle}
use syncme.Async.TlsStream.{
  ssl_error_want_read, tls_write_batch_limit, is_want_io, convert_ssl_error, Shutdown, completed,
  sent, shutdown_error, SslApi, Lower, write, none_origin, tls, ssl_failed, ssl_write, ssl_shutdown,
  closed_in_handshake, drive_no_ssl, drive_no_lower, TlsStream, Action, continue, refuse,
  queue_result, queue_error, queue_handshake_read_closed, reset_plain_write,
}
use syncme.Async.TlsStream.Drive.{
  drain_encrypted_output, complete_lower_shutdown, start_lower_read, drive_handshake,
  drive_plain_read,
}

-- Inside the loops of DrivePlainWrite: `inl` where the function returns, `inr` where it goes on.
abbrev pub Flow : Type 0 → Type 0
Flow S = (Bool × TlsStream S) ⊎ TlsStream S

module _ {S : Type 0} where
  unfoldable pub next_view : (TlsStream S → Flow S) → Flow S → Flow S
  next_view next (inl answer) = inl answer
  next_view next (inr s) = next s

  unfoldable pub finish_write : Action S
  unfolding queue_result reset_plain_write
  finish_write s =
      queue_result
        (record {
          op = write;
          buffer = none;
          bytes = s.plain_write_size;
          error = 0;
          origin = none_origin;
        })
        (reset_plain_write s)

  -- SSL_write took the first `n + 1` bytes.
  unfoldable pub took : S → ℕ → List ℕ → TlsStream S → TlsStream S
  took ssl n bytes s = record s {
    ssl = ssl;
    plain_write_needs_read = false;
    plain_write_offset = s.plain_write_offset + (n + 1);
    encrypted = s.encrypted ++ take (n + 1) bytes;
  }

  unfoldable pub shutdown_answer : Shutdown → Action S
  unfolding queue_error is_want_io convert_ssl_error
  shutdown_answer completed s =
      (true, record s { shutdown_completed = true; shutdown_pending = false })
  shutdown_answer sent s = (true, s)
  shutdown_answer (shutdown_error e) s =
      if is_want_io e
      then (true, s)
      else queue_error (convert_ssl_error e) tls
          (record s { last_error = some (ssl_failed ssl_shutdown e) })

module _ {S : Type 0} (api : SslApi S) (low : Lower) where
  unfoldable pub unwritten_ciphertext : TlsStream S → ℕ
  unwritten_ciphertext s =
      if s.has_ssl && s.has_bios
      then add_word s.lower_writer.queued_bytes (api.wbio_pending s.ssl)
      else s.lower_writer.queued_bytes

  unfoldable pub write_failed : ℕ → Action S
  unfolding drain_encrypted_output queue_error is_want_io convert_ssl_error reset_plain_write
  write_failed e s =
      if is_want_io e
      then drain_encrypted_output api low s
      else queue_error (convert_ssl_error e) tls
          (reset_plain_write (record s { last_error = some (ssl_failed ssl_write e) }))

  -- After SSL_write; `next` are the rounds after this one, on the bytes that are left of the view.
  unfoldable pub encrypt_answer :
      (List ℕ → TlsStream S → Flow S) → S → List ℕ → ℕ ⊎ ℕ → TlsStream S → Flow S
  unfolding took write_failed
  encrypt_answer next ssl bytes (inr n) s = next (drop (n + 1) bytes) (took ssl n bytes s)
  encrypt_answer next ssl bytes (inl e) s =
      inl
        (write_failed e (record s { ssl = ssl; plain_write_needs_read = e == ssl_error_want_read }))

  -- The loop over the bytes of one view. Each round takes a byte or more, so that as many rounds as
  -- bytes are enough.
  unfoldable pub encrypt_bytes : ℕ → List ℕ → TlsStream S → Flow S
  unfolding drain_encrypted_output unwritten_ciphertext encrypt_answer
  encrypt_bytes zero bytes s = inr s
  encrypt_bytes (suc fuel) [] s = inr s
  encrypt_bytes (suc fuel) (b ∷ bs) s =
      if leb tls_write_batch_limit (unwritten_ciphertext s)
      then inl (drain_encrypted_output api low s)
      else let (r, ssl) = api.write s.ssl (b ∷ bs) in
        encrypt_answer (encrypt_bytes fuel) ssl (b ∷ bs) r s

  unfoldable pub encrypt_views : ℕ → List BufferView → TlsStream S → Flow S
  unfolding encrypt_bytes next_view
  encrypt_views skip [] s = inr s
  encrypt_views skip (v ∷ vs) s =
      let skipped : Bool = leb v.size skip in
      next_view (encrypt_views (if skipped then skip - v.size else 0) vs)
        (if skipped then inr s else encrypt_bytes (length (slice v)) (drop skip (slice v)) s)

  -- Once all of the plaintext is encrypted.
  unfoldable pub end_of_write : Action S
  unfolding finish_write drain_encrypted_output is_idle
  end_of_write s = continue (drain_encrypted_output api low s) (λ s'.
      if leb s'.plain_write_size s'.plain_write_offset && is_idle s'.lower_writer
      then finish_write s'
      else (true, s'))

  unfoldable pub after_views : Flow S → Bool × TlsStream S
  unfolding end_of_write
  after_views (inl answer) = answer
  after_views (inr s) = end_of_write s

  unfoldable pub drive_plain_write : Action S
  unfolding finish_write encrypt_views after_views is_idle
  drive_plain_write s =
      if not s.plain_write_pending
      then (true, s)
      else if leb s.plain_write_size s.plain_write_offset
      then (if not (is_idle s.lower_writer) then (true, s) else finish_write s)
      else after_views (encrypt_views s.plain_write_offset s.plain_write_buffers.views s)

  unfoldable pub drive_shutdown : Action S
  unfolding shutdown_answer
  drive_shutdown s = let (r, ssl) = api.shutdown s.ssl in shutdown_answer r (record s { ssl = ssl })

  -- Drive after DriveHandshake left the handshake unfinished.
  unfoldable pub await_handshake : Action S
  unfolding drain_encrypted_output queue_handshake_read_closed start_lower_read
  await_handshake s = continue (drain_encrypted_output api low s) (λ s'.
      if s'.lower_read_closed
      then queue_handshake_read_closed closed_in_handshake s'
      else if s'.handshake_result_queued
      then (true, s')
      else start_lower_read api low s')

  unfoldable pub drive_read_if : Action S
  unfolding drive_plain_read
  drive_read_if s = if s.plain_read_pending then drive_plain_read api low s else (true, s)

  unfoldable pub drive_write_if : Action S
  unfolding drive_plain_write
  drive_write_if s = if s.plain_write_pending then drive_plain_write s else (true, s)

  unfoldable pub drive_shutdown_if : Action S
  unfolding drive_shutdown
  drive_shutdown_if s =
      if s.shutdown_pending && not s.shutdown_completed then drive_shutdown s else (true, s)

  -- Drive once the handshake is completed.
  unfoldable pub drive_established : Action S
  unfolding drive_read_if drive_write_if drive_shutdown_if drain_encrypted_output
      complete_lower_shutdown start_lower_read
  drive_established s = continue (drive_read_if s) (λ s1. continue (drive_write_if s1) (λ s2.
      continue (drive_shutdown_if s2) (λ s3.
        continue (drain_encrypted_output api low s3)
          (λ s4. continue (complete_lower_shutdown api low s4) (start_lower_read api low)))))

  unfoldable pub drive_started : Action S
  unfolding drive_handshake await_handshake drive_established
  drive_started s =
      continue (drive_handshake api low s)
        (λ s'. if not s'.handshake_completed then await_handshake s' else drive_established s')

  unfoldable pub drive : Action S
  unfolding drive_started drive_established
  drive s =
      if not s.has_ssl
      then refuse drive_no_ssl s
      else if not s.has_lower
      then refuse drive_no_lower s
      else if s.handshake_completed
      then drive_established s
      else if not s.handshake_started
      then (true, s)
      else drive_started s
