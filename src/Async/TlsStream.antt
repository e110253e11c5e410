-- ===== src/Async/TlsStream.antt =====
-- Async/AsyncTlsStream.cpp: a stream that carries TLS over another stream.
-- OpenSSL is a parameter (`SslApi`), and so are the answers of the lower stream (`Lower`). Ssl,
-- LowerStream and the two memory BIOs may be null. The buffers that are kept for reuse, the counters
-- of their capacity and the texts behind LastError are left out.
pub mod Drive
pub mod Write
pub mod Calls
pub mod Drain
pub mod Encrypt
pub mod Machine
pub mod Refine
pub mod Handshake
pub mod Notice
pub mod Reads
pub mod EarlyClose
mod Tests
use syncme.Prelude.{
  ℕ, ◌+◌, ◌*◌, Bool, true, false, not, ◌&&◌, ◌||◌, Option, none, some, List, [], ◌∷◌, ◌++◌, ◌==◌,
  ◌⊎◌, if◌then◌else◌,
}
use syncme.Async.BufferChain.{Buffer, BufferChain, empty_chain}
use syncme.Async.WriteQueue.{AsyncWriteQueue, Env}

-- The values of SSL_get_error that the code names.
abbrev pub ssl_error_none : ℕ
ssl_error_none = 0

abbrev pub ssl_error_ssl : ℕ
ssl_error_ssl = 1

abbrev pub ssl_error_want_read : ℕ
ssl_error_want_read = 2

abbrev pub ssl_error_want_write : ℕ
ssl_error_want_write = 3

abbrev pub ssl_error_syscall : ℕ
ssl_error_syscall = 5

abbrev pub ssl_error_zero_return : ℕ
ssl_error_zero_return = 6

abbrev pub encrypted_chunk_size : ℕ
encrypted_chunk_size = 128 * 1024

abbrev pub tls_write_batch_limit : ℕ
tls_write_batch_limit = 64 * 1024

unfoldable pub is_want_io : ℕ → Bool
is_want_io e = (e == ssl_error_want_read) || (e == ssl_error_want_write)

unfoldable pub convert_ssl_error : ℕ → ℕ
unfolding is_want_io
convert_ssl_error e =
    if (e == ssl_error_zero_return) || (is_want_io e || (e == ssl_error_none)) then 0 else e

-- SSL_shutdown: it returned 1, or 0, or failed.
pub data Shutdown : Type 0 where
  completed sent : Shutdown
  shutdown_error : ℕ → Shutdown

-- OpenSSL on the state `S` of one SSL object with its memory BIOs. Where a call fails, SSL_get_error
-- is its answer. A BIO call that moved `n + 1` bytes answers with `n`.
pub record SslApi (S : Type 0) : Type 0 where
  -- `none`: it returned 1.
  pub do_handshake : S → Option ℕ × S
  pub read : S → ℕ → (ℕ ⊎ List ℕ) × S
  -- How many bytes SSL_write took, less one.
  pub write : S → List ℕ → (ℕ ⊎ ℕ) × S
  pub shutdown : S → Shutdown × S
  pub wbio_pending : S → ℕ
  -- `inl` is a failure, with what BIO_should_retry says.
  pub wbio_read : S → ℕ → (Bool ⊎ List ℕ) × S
  -- BIO_write, repeated while BIO_should_retry asks for it; `none` is a failure.
  pub rbio_write : S → List ℕ → Option ℕ × S

-- The answers of the lower stream during one call.
pub record Lower : Type 0 where
  pub writes : Env
  pub start_read : Bool
  pub shutdown_send : Bool

pub data Operation : Type 0 where
  no_operation read write read_closed handshake error wake stop : Operation

pub data ErrorOrigin : Type 0 where
  none_origin transport tls : ErrorOrigin

-- A result for the owner, or from the lower stream. Its Stream and Context are those of the stream.
pub record Result : Type 0 where
  pub op : Operation
  pub buffer : Option Buffer
  pub bytes : ℕ
  pub error : ℕ
  pub origin : ErrorOrigin

pub data SslOperation : Type 0 where
  ssl_do_handshake ssl_read ssl_write ssl_shutdown : SslOperation

-- The texts of LastError.
pub data ErrorText : Type 0 where
  read_refused write_refused shutdown_refused : ErrorText
  handshake_removing handshake_no_ssl : ErrorText
  adoption_removing adoption_closed adoption_pending : ErrorText
  feed_removing feed_no_ssl feed_no_data feed_no_rbio feed_failed : ErrorText
  closed_while_writing closed_in_handshake peer_close_notify : ErrorText
  drive_no_ssl drive_no_lower drain_no_wbio drain_failed : ErrorText
  lower_write_failed lower_read_failed lower_shutdown_no_stream lower_shutdown_failed : ErrorText
  completion_mismatch : ErrorText
  lower_error protocol_error : ℕ → ErrorText
  ssl_failed : SslOperation → ℕ → ErrorText

pub record TlsStream (S : Type 0) : Type 0 where
  pub has_lower : Bool
  pub has_ssl : Bool
  pub has_bios : Bool
  pub ssl : S
  pub pending_results : List Result
  -- Whether ResultSink is set.
  pub has_sink : Bool
  pub result_notified : Bool
  pub adopted_plain_buffers : List Buffer
  pub adopted_plain_offset : ℕ
  pub lower_writer : AsyncWriteQueue
  pub removing : Bool
  pub handshake_started : Bool
  pub handshake_completed : Bool
  pub handshake_result_queued : Bool
  pub lower_read_pending : Bool
  pub lower_read_closed : Bool
  pub tls_read_closed : Bool
  pub shutdown_pending : Bool
  pub shutdown_completed : Bool
  pub lower_send_shutdown_completed : Bool
  -- The size of the buffer that StartRead was given.
  pub plain_read_buffer : Option ℕ
  pub plain_read_pending : Bool
  pub plain_write_buffers : BufferChain
  pub plain_write_offset : ℕ
  pub plain_write_size : ℕ
  pub plain_write_pending : Bool
  pub plain_write_needs_read : Bool
  pub last_error : Option ErrorText
  -- What happened so far: the results that were queued, how often ResultSink was called, the bytes
  -- that SSL_read gave and those that SSL_write took.
  pub reported : List Result
  pub notified : ℕ
  pub decrypted : List ℕ
  pub encrypted : List ℕ

-- What a member function does: its result and the stream.
abbrev pub Action : Type 0 → Type 0
Action S = TlsStream S → Bool × TlsStream S

module _ {S : Type 0} where
  -- `if (!m) return false;`
  abbrev pub continue : Bool × TlsStream S → Action S → Bool × TlsStream S
  continue (true, s) k = k s
  continue (false, s) k = (false, s)

  abbrev pub refuse : ErrorText → Action S
  refuse text s = (false, record s { last_error = some text })

  unfoldable pub notify_result_ready : TlsStream S → TlsStream S
  notify_result_ready s =
      let returns : Bool = s.result_notified || not s.has_sink in
      record s {
        result_notified = if returns then s.result_notified else true;
        notified = if returns then s.notified else s.notified + 1;
      }

  unfoldable pub queue_result : Result → Action S
  unfolding notify_result_ready
  queue_result r s = (
    true,
    notify_result_ready (record s {
      pending_results = s.pending_results ++ r ∷ [];
      reported = s.reported ++ r ∷ [];
    }),
  )

  unfoldable pub queue_error : ℕ → ErrorOrigin → Action S
  unfolding queue_result
  queue_error code origin s =
      if not s.handshake_completed && s.handshake_result_queued
      then (true, s)
      else let code' : ℕ = if code == 0 then ssl_error_ssl else code in
        queue_result
          (record { op = error; buffer = none; bytes = 0; error = code'; origin = origin })
          (record s {
            handshake_result_queued =
                if s.handshake_completed then s.handshake_result_queued else true;
            last_error = elim s.last_error [
              | none ↦ some (protocol_error code')
              | some text ↦ some text
            ];
          })

  unfoldable pub queue_read_closed : Action S
  unfolding queue_result
  queue_read_closed s =
      queue_result
        (record { op = read_closed; buffer = none; bytes = 0; error = 0; origin = none_origin }) s

  unfoldable pub queue_handshake_completed : Action S
  unfolding queue_result
  queue_handshake_completed s =
      if s.handshake_result_queued
      then (true, s)
      else queue_result
          (record { op = handshake; buffer = none; bytes = 0; error = 0; origin = none_origin })
          (record s { handshake_result_queued = true })

  unfoldable pub queue_handshake_read_closed : ErrorText → Action S
  unfolding queue_read_closed
  queue_handshake_read_closed reason s =
      if s.handshake_result_queued
      then (true, s)
      else queue_read_closed (record s { handshake_result_queued = true; last_error = some reason })

  unfoldable pub is_handshake_terminated : TlsStream S → Bool
  is_handshake_terminated s = not s.handshake_completed && s.handshake_result_queued

  unfoldable pub reset_plain_write : TlsStream S → TlsStream S
  reset_plain_write s = record s {
    plain_write_buffers = empty_chain;
    plain_write_offset = 0;
    plain_write_size = 0;
    plain_write_pending = false;
    plain_write_needs_read = false;
  }
