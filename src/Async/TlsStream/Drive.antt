-- ===== src/Async/TlsStream/Drive.antt =====
-- Async/AsyncTlsStream.cpp: Drive and what it calls, under the stream's lock.
use syncme.Prelude.{
  ℕ, zero, suc, ◌+◌, Bool, true, false, not, ◌&&◌, ◌||◌, Option, none, some, List, [], ◌∷◌, ◌++◌,
  ◌==◌, leb, ◌⊎◌, inl, inr, length, take, drop, min, if◌then◌else◌,
}
use syncme.Async.BufferChain.{Buffer}
use syncme.Async.WriteQueue.{push_buffer, is_idle}
use syncme.Async.TlsStream.{
  ssl_error_zero_return, encrypted_chunk_size, is_want_io, convert_ssl_error, SslApi, Lower, read,
  none_origin, tls, ssl_failed, ssl_do_handshake, ssl_read, peer_close_notify, drain_no_wbio,
  drain_failed, lower_write_failed, lower_read_failed, lower_shutdown_no_stream,
  lower_shutdown_failed, TlsStream, Action, continue, refuse, queue_result, queue_error,
  queue_read_closed, queue_handshake_completed, queue_handshake_read_closed,
}

module _ {S : Type 0} where
  unfoldable pub handshake_answer : Option ℕ → Action S
  unfolding queue_handshake_completed queue_handshake_read_closed queue_error is_want_io
      convert_ssl_error
  handshake_answer none s =
      queue_handshake_completed (record s { handshake_completed = true; last_error = none })
  handshake_answer (some e) s =
      if is_want_io e
      then (true, s)
      else if e == ssl_error_zero_return
      then queue_handshake_read_closed peer_close_notify (record s { tls_read_closed = true })
      else queue_error (convert_ssl_error e) tls
          (record s { last_error = some (ssl_failed ssl_do_handshake e) })

  -- The bytes that are left of the front buffer go into a read buffer of `capacity` bytes.
  unfoldable pub give_adopted : Buffer → List Buffer → ℕ → Action S
  unfolding queue_result
  give_adopted source rest capacity s =
      let chunk : Buffer = take capacity (drop s.adopted_plain_offset source) in
      let offset : ℕ = s.adopted_plain_offset + length chunk in
      let used : Bool = leb (length source) offset in
      queue_result
        (record {
          op = read;
          buffer = some chunk;
          bytes = length chunk;
          error = 0;
          origin = none_origin;
        })
        (record s {
          adopted_plain_buffers = if used then rest else source ∷ rest;
          adopted_plain_offset = if used then 0 else offset;
          plain_read_buffer = none;
          plain_read_pending = false;
        })

  -- The front buffer is used up already, or some of it is given; `next` goes on with the others.
  unfoldable pub deliver_front : Action S → Buffer → List Buffer → ℕ → Action S
  unfolding give_adopted
  deliver_front next source rest capacity s =
      if leb (length source) s.adopted_plain_offset
      then next (record s { adopted_plain_buffers = rest; adopted_plain_offset = 0 })
      else give_adopted source rest capacity s

  unfoldable pub deliver_from : List Buffer → ℕ → Action S
  unfolding deliver_front
  deliver_from [] capacity s = (true, s)
  deliver_from (source ∷ rest) capacity s =
      deliver_front (deliver_from rest capacity) source rest capacity s

  -- DeliverAdoptedPlaintext, with the size of the read buffer.
  unfoldable pub deliver_adopted_plaintext : Option ℕ → Action S
  unfolding deliver_from
  deliver_adopted_plaintext none s = (true, s)
  deliver_adopted_plaintext (some capacity) s =
      if not s.plain_read_pending
      then (true, s)
      else deliver_from s.adopted_plain_buffers capacity s

  unfoldable pub end_plain_read : TlsStream S → TlsStream S
  end_plain_read s = record s { plain_read_buffer = none; plain_read_pending = false }

  unfoldable pub read_answer : ℕ ⊎ List ℕ → Action S
  unfolding queue_result queue_read_closed queue_error is_want_io convert_ssl_error end_plain_read
  read_answer (inr bytes) s =
      queue_result
        (record {
          op = read;
          buffer = some bytes;
          bytes = length bytes;
          error = 0;
          origin = none_origin;
        })
        (record (end_plain_read s) { decrypted = s.decrypted ++ bytes })
  read_answer (inl e) s =
      if e == ssl_error_zero_return
      then queue_read_closed (record (end_plain_read s) { tls_read_closed = true })
      else if is_want_io e
      then (true, s)
      else queue_error (convert_ssl_error e) tls
          (record (end_plain_read s) { last_error = some (ssl_failed ssl_read e) })

module _ {S : Type 0} (api : SslApi S) (low : Lower) where
  -- One round of DrainEncryptedOutput after BIO_read; `next` are the rounds after it.
  unfoldable pub drain_answer : Action S → Bool ⊎ List ℕ → Action S
  unfolding push_buffer
  drain_answer next (inl true) s = (true, s)
  drain_answer next (inl false) s = refuse drain_failed s
  drain_answer next (inr bytes) s =
      let (started, writer) = push_buffer low.writes s.lower_writer (some bytes) in
      if not started
      then refuse lower_write_failed (record s { lower_writer = writer })
      else next (record s { lower_writer = writer })

  -- The loop of DrainEncryptedOutput. Each round takes bytes out of the BIO, so that as many rounds
  -- as bytes are pending are enough.
  unfoldable pub drain_loop : ℕ → Action S
  unfolding drain_answer
  drain_loop zero s = (true, s)
  drain_loop (suc fuel) s =
      let pending : ℕ = api.wbio_pending s.ssl in
      if pending == 0
      then (true, s)
      else let (r, ssl) = api.wbio_read s.ssl (min pending encrypted_chunk_size) in
        drain_answer (drain_loop fuel) r (record s { ssl = ssl })

  unfoldable pub drain_encrypted_output : Action S
  unfolding drain_loop
  drain_encrypted_output s =
      if not s.has_bios then refuse drain_no_wbio s else drain_loop (api.wbio_pending s.ssl) s

  unfoldable pub complete_lower_shutdown : Action S
  unfolding is_idle
  complete_lower_shutdown s =
      if not s.shutdown_completed || not (is_idle s.lower_writer)
      then (true, s)
      else if s.lower_send_shutdown_completed
      then (true, s)
      else if not s.has_lower
      then refuse lower_shutdown_no_stream s
      else if not low.shutdown_send
      then refuse lower_shutdown_failed s
      else (true, record s { lower_send_shutdown_completed = true })

  unfoldable pub start_lower_read : Action S
  start_lower_read s =
      if s.lower_read_pending || (s.lower_read_closed || s.removing)
      then (true, s)
      else if not s.handshake_started && not s.handshake_completed
      then (true, s)
      else if not s.plain_read_pending
          && (not s.plain_write_needs_read && (s.handshake_completed && not s.shutdown_pending))
      then (true, s)
      else if not low.start_read
      then refuse lower_read_failed s
      else (true, record s { lower_read_pending = true })

  unfoldable pub drive_handshake : Action S
  unfolding handshake_answer
  drive_handshake s =
      if s.handshake_completed
      then (true, s)
      else if s.handshake_result_queued
      then (true, s)
      else let (r, ssl) = api.do_handshake s.ssl in handshake_answer r (record s { ssl = ssl })

  unfoldable pub read_plain : Option ℕ → Action S
  unfolding read_answer
  read_plain none s = (true, s)
  read_plain (some capacity) s =
      if not s.plain_read_pending
      then (true, s)
      else let (r, ssl) = api.read s.ssl capacity in read_answer r (record s { ssl = ssl })

  unfoldable pub drive_plain_read : Action S
  unfolding deliver_adopted_plaintext read_plain
  drive_plain_read s =
      continue (deliver_adopted_plaintext s.plain_read_buffer s)
        (λ s'. read_plain s'.plain_read_buffer s')
