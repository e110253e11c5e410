-- ===== src/Async/TlsStream/EarlyClose.antt =====
-- A read that is begun before the handshake, in Async/AsyncTlsStream.cpp.
use syncme.Prelude.{
  Bool, List, ap, arith, ◌≡◌, refl, sym, ◌∙◌, true, false, not, some, [], ◌∷◌, ◌++◌, if◌then◌else◌,
  append_assoc, subst,
}
use syncme.Async.TlsStream.{
  ssl_error_want_read, SslApi, Lower, Result, Action, TlsStream, queue_result, queue_read_closed,
  queue_handshake_read_closed, is_handshake_terminated, is_want_io, continue, closed_in_handshake,
}
use syncme.Async.TlsStream.Drive.{
  start_lower_read, drain_encrypted_output, handshake_answer, drive_handshake, end_plain_read,
}
use syncme.Async.TlsStream.Write.{await_handshake, drive_started, drive, drive_established}
use syncme.Async.TlsStream.Calls.{
  start_handshake, process_lower_result, lower_result, lower_read_closes, call_start_handshake,
  call_lower_result, call, run,
}
use syncme.Async.TlsStream.Machine.{closed_result}
use syncme.Async.TlsStream.Drain.{IsMemoryBio, drain-keeps, drain_encrypted_output-IsDrained}
use syncme.Async.WriteQueue.Accepts.{Accepts}

-- The handshake is not started and nothing was reported of it, but a read waits for plaintext.
abbrev pub waiting : {S : Type 0} → TlsStream S → TlsStream S
waiting s = record s {
  has_lower = true;
  has_ssl = true;
  has_bios = true;
  removing = false;
  handshake_started = false;
  handshake_completed = false;
  handshake_result_queued = false;
  plain_read_pending = true;
  plain_write_needs_read = false;
}

-- The lower stream is closed, and the handshake is not finished.
abbrev closed : {S : Type 0} → TlsStream S → S → TlsStream S
closed s ssl = record s {
  has_lower = true;
  has_ssl = true;
  has_bios = true;
  ssl = ssl;
  removing = false;
  handshake_started = true;
  handshake_completed = false;
  handshake_result_queued = false;
  lower_read_closed = true;
}

module _ {S : Type 0} (api : SslApi S) (low : Lower) (bio : IsMemoryBio api)
    (accepts : Accepts low.writes) where
  -- What follows the drain in AwaitHandshake.
  abbrev then_closes : Action S
  then_closes s =
      if s.lower_read_closed
      then queue_handshake_read_closed closed_in_handshake s
      else if s.handshake_result_queued
      then (true, s)
      else start_lower_read api low s

  drained-closed :
      (b : Bool) (s : TlsStream S) (rs : List Result)
      → b ≡ true
      → s.lower_read_closed ≡ true
      → s.handshake_result_queued ≡ false
      → s.reported ≡ rs
      → (continue (b, s) then_closes).1.reported ≡ rs ++ closed_result ∷ []
  unfolding queue_handshake_read_closed queue_read_closed queue_result
  drained-closed true s rs e c q r = ground (arith, ap (λ l. l ++ closed_result ∷ []) r)
  drained-closed false s rs e c q r = cc

  start_handshake-closed :
      (s : TlsStream S) (before after : S)
      → s.lower_writer.stream ≡ true
      → api.do_handshake before ≡ (some ssl_error_want_read, after)
      → (start_handshake api low (closed s before)).1.reported ≡ s.reported ++ closed_result ∷ []
  unfolding start_handshake is_handshake_terminated drive drive_started drive_handshake
      handshake_answer is_want_io await_handshake
  start_handshake-closed s before after stream asks =
      subst
        (λ m.
          (continue (handshake_answer m.0 (closed s m.1)) (λ s'.
            if not s'.handshake_completed
            then await_handshake api low s'
            else drive_established api low s')).1.reported
          ≡ s.reported ++ closed_result ∷ [])
        (sym asks)
        (drained-closed (drain_encrypted_output api low (closed s after)).0
          (drain_encrypted_output api low (closed s after)).1 s.reported
          (drain_encrypted_output-IsDrained api low (closed s after) bio accepts refl stream).0
          (drain-keeps api low (λ t. t.lower_read_closed) (λ t ssl w x. refl) (closed s after))
          (drain-keeps api low (λ t. t.handshake_result_queued) (λ t ssl w x. refl)
            (closed s after))
          (drain-keeps api low (λ t. t.reported) (λ t ssl w x. refl) (closed s after)))

-- Where the lower stream closes before StartHandshake while a read waits, the lower stream still
-- takes on every write, and OpenSSL, over a memory BIO, asks for input (a client also queues its
-- ClientHello): the stream reports ReadClosed twice, once for the read, and again for the
-- handshake.
pub close_before_handshake_lem :
    {S : Type 0} (api : SslApi S) (low : Lower) (s : TlsStream S) (ssl : S)
    → IsMemoryBio api
    → Accepts low.writes
    → s.lower_writer.stream ≡ true
    → api.do_handshake s.ssl ≡ (some ssl_error_want_read, ssl)
    → (run api
        ((low, call_lower_result true closed_result) ∷ (low, call_start_handshake) ∷ [])
        (waiting s)).reported
      ≡ s.reported ++ closed_result ∷ closed_result ∷ []
unfolding run call process_lower_result lower_result lower_read_closes queue_read_closed
    queue_result end_plain_read
close_before_handshake_lem api low s ssl bio accepts stream asks =
    start_handshake-closed api low bio accepts
      (call api low (call_lower_result true closed_result) (waiting s)) s.ssl ssl stream asks
    ∙ append_assoc s.reported (closed_result ∷ []) (closed_result ∷ [])
