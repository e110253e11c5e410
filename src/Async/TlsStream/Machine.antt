-- ===== src/Async/TlsStream/Machine.antt =====
-- The protocol that Async/AsyncTlsStream.cpp keeps, as a step relation: what may change at once, and
-- under which conditions. What OpenSSL and the lower stream do is left open.
use syncme.Prelude.{
  arith, inr, ℕ, [], ◌≤◌, ◌<◌, ◌≡◌, ◌⊎◌, refl, Bool, true, false, Option, none, some, List, ◌∷◌,
  length,
}
use syncme.Async.BufferChain.{Buffer, BufferChain}
use syncme.Async.WriteQueue.{Env, push_buffer, on_write_completed, is_idle}
use syncme.Async.TlsStream.{
  read_closed, error, handshake, none_origin, ErrorText, Result, TlsStream, queue_result,
  is_handshake_terminated, reset_plain_write,
}
use syncme.Async.TlsStream.Drive.{give_adopted, read_answer}
use syncme.Async.TlsStream.Write.{finish_write, took}
use syncme.Async.TlsStream.Calls.{close, pop_pending_result, set_result_sink}

-- The fields that no condition below protects.
pub record Loose (S : Type 0) : Type 0 where
  pub ssl : S
  pub last_error : Option ErrorText
  pub lower_read_pending : Bool
  pub lower_read_closed : Bool
  pub tls_read_closed : Bool
  pub shutdown_pending : Bool
  pub shutdown_completed : Bool
  pub plain_write_needs_read : Bool

module _ {S : Type 0} where
  abbrev pub loose : TlsStream S → Loose S
  loose s = record {
    ssl = s.ssl;
    last_error = s.last_error;
    lower_read_pending = s.lower_read_pending;
    lower_read_closed = s.lower_read_closed;
    tls_read_closed = s.tls_read_closed;
    shutdown_pending = s.shutdown_pending;
    shutdown_completed = s.shutdown_completed;
    plain_write_needs_read = s.plain_write_needs_read;
  }

  abbrev pub with_loose : TlsStream S → Loose S → TlsStream S
  with_loose s l = record s {
    ssl = l.ssl;
    last_error = l.last_error;
    lower_read_pending = l.lower_read_pending;
    lower_read_closed = l.lower_read_closed;
    tls_read_closed = l.tls_read_closed;
    shutdown_pending = l.shutdown_pending;
    shutdown_completed = l.shutdown_completed;
    plain_write_needs_read = l.plain_write_needs_read;
  }

-- A result that can end a handshake which never completed.
abbrev pub IsEnd : Result → Type 0
IsEnd r = (r.op ≡ read_closed) ⊎ (r.op ≡ error)

abbrev pub closed_result : Result
closed_result = record {
  op = read_closed;
  buffer = none;
  bytes = 0;
  error = 0;
  origin = none_origin;
}

abbrev pub handshake_result : Result
handshake_result = record {
  op = handshake;
  buffer = none;
  bytes = 0;
  error = 0;
  origin = none_origin;
}

pub data Step (S : Type 0) (s : TlsStream S) : TlsStream S → Type 0 where
  adjusts : (l : Loose S) → Step S s (with_loose s l)
  pushes :
      (env : Env) (bytes : Buffer)
      → Step S s (record s { lower_writer = (push_buffer env s.lower_writer (some bytes)).1 })
  acknowledges :
      (env : Env) (n : ℕ)
      → Step S s (record s { lower_writer = (on_write_completed env s.lower_writer n).2 })
  shuts_down :
      s.shutdown_completed ≡ true
      → is_idle s.lower_writer ≡ true
      → Step S s (record s { lower_send_shutdown_completed = true })
  starts_handshake :
      is_handshake_terminated s ≡ false → Step S s (record s { handshake_started = true })
  completes_handshake :
      s.handshake_completed ≡ false
      → s.handshake_result_queued ≡ false
      → Step S s
          (queue_result handshake_result (record s {
            handshake_completed = true;
            handshake_result_queued = true;
            last_error = none;
          })).1
  ends_handshake :
      (r : Result)
      → IsEnd r
      → s.handshake_completed ≡ false
      → s.handshake_result_queued ≡ false
      → Step S s (queue_result r (record s { handshake_result_queued = true })).1
  reports_error :
      (r : Result) → r.op ≡ error → s.handshake_completed ≡ true → Step S s (queue_result r s).1
  reports_closed :
      (s.handshake_completed ≡ true)
        ⊎ ((s.handshake_started ≡ false) × (s.plain_read_pending ≡ true))
      → Step S s
          (queue_result closed_result
            (record s { plain_read_buffer = none; plain_read_pending = false })).1
  begins_read :
      (n : ℕ)
      → is_handshake_terminated s ≡ false
      → s.removing ≡ false
      → Step S s (record s { plain_read_buffer = some n; plain_read_pending = true })
  ends_read : Step S s (record s { plain_read_buffer = none; plain_read_pending = false })
  skips_adopted :
      (source : Buffer) (rest : List Buffer)
      → s.adopted_plain_buffers ≡ source ∷ rest
      → length source ≤ s.adopted_plain_offset
      → Step S s (record s { adopted_plain_buffers = rest; adopted_plain_offset = 0 })
  gives_adopted :
      (source : Buffer) (rest : List Buffer) (capacity : ℕ)
      → s.adopted_plain_buffers ≡ source ∷ rest
      → s.adopted_plain_offset < length source
      → s.handshake_completed ≡ true
      → Step S s (give_adopted source rest capacity s).1
  reads :
      (bytes : List ℕ)
      → s.handshake_completed ≡ true
      → s.adopted_plain_buffers ≡ []
      → Step S s (read_answer (inr bytes) s).1
  begins_write :
      (c : BufferChain)
      → is_handshake_terminated s ≡ false
      → s.plain_write_pending ≡ false
      → Step S s (record s {
        plain_write_buffers = c;
        plain_write_offset = 0;
        plain_write_size = c.total_size;
        plain_write_pending = true;
        plain_write_needs_read = false;
      })
  encrypts : (ssl : S) (n : ℕ) (bytes : List ℕ) → Step S s (took ssl n bytes s)
  drops_write : Step S s (reset_plain_write s)
  finishes_write :
      s.handshake_completed ≡ true
      → s.plain_write_size ≤ s.plain_write_offset
      → is_idle s.lower_writer ≡ true
      → Step S s (finish_write s).1
  closes : Step S s (close s)
  pops : Step S s (pop_pending_result s).1
  sets_sink : (sink : Bool) → Step S s (set_result_sink sink s)

-- Any number of steps.
pub data Steps (S : Type 0) (s : TlsStream S) : TlsStream S → Type 0 where
  stays : Steps S s s
  steps : (s' s'' : TlsStream S) → Steps S s s' → Step S s' s'' → Steps S s s''

module _ {S : Type 0} where
  pub also : {s s' s'' : TlsStream S} → Steps S s s' → Step S s' s'' → Steps S s s''
  also {s' = s'} {s'' = s''} p step = steps s' s'' p step

  pub once : {s s' : TlsStream S} → Step S s s' → Steps S s s'
  once step = also stays step

  pub join : {s s' s'' : TlsStream S} → Steps S s s' → Steps S s' s'' → Steps S s s''
  join p stays = p
  join p (steps a b q step) = steps a b (join p q) step

  -- A handshake that is completed stays so.
  Step-completed :
      {s s' : TlsStream S}
      → Step S s s'
      → s.handshake_completed ≡ true
      → s'.handshake_completed ≡ true
  unfolding close pop_pending_result set_result_sink queue_result finish_write took give_adopted
      read_answer reset_plain_write
  Step-completed (adjusts l) h = h
  Step-completed (pushes env bytes) h = h
  Step-completed (acknowledges env n) h = h
  Step-completed (shuts_down a b) h = h
  Step-completed (starts_handshake a) h = h
  Step-completed (completes_handshake a b) h = refl
  Step-completed (ends_handshake r e a b) h = h
  Step-completed (reports_error r e a) h = h
  Step-completed (reports_closed a) h = h
  Step-completed (begins_read n a b) h = h
  Step-completed ends_read h = h
  Step-completed (skips_adopted source rest e a) h = h
  Step-completed (gives_adopted source rest capacity e a b) h = h
  Step-completed (reads bytes a b) h = h
  Step-completed (begins_write c a b) h = h
  Step-completed (encrypts ssl n bytes) h = h
  Step-completed drops_write h = h
  Step-completed (finishes_write a b c) h = h
  Step-completed closes h = ground arith
  Step-completed pops h = ground arith
  Step-completed (sets_sink sink) h = ground arith

  pub Steps-completed :
      {s s' : TlsStream S}
      → Steps S s s'
      → s.handshake_completed ≡ true
      → s'.handshake_completed ≡ true
  Steps-completed stays h = h
  Steps-completed (steps a b p step) h = Step-completed step (Steps-completed p h)
