-- ===== src/Async/TlsStream/Refine.antt =====
-- Every function under Async/AsyncTlsStream.cpp's Drive takes steps of the protocol only.
pub mod Reading
pub mod Writing
pub mod Calls
use syncme.Prelude.{
  ℕ, zero, suc, ◌+◌, ◌-◌, ◌≡◌, refl, sym, ◌∙◌, ap, arith, Bool, true, false, not, ◌&&◌, ◌||◌,
  Option, none, some, List, [], ◌∷◌, ◌==◌, leb, ltb, ◌⊎◌, inl, inr, length, if◌then◌else◌, min,
  drop, leb→le,
}
use syncme.Async.BufferChain.{Buffer, BufferView, slice}
use syncme.Async.WriteQueue.{is_idle, push_buffer}
use syncme.Async.TlsStream.{
  SslApi, Lower, encrypted_chunk_size, ErrorOrigin, ErrorText, Shutdown, completed, sent,
  shutdown_error, TlsStream, Action, continue, refuse, queue_error, queue_read_closed,
  queue_handshake_completed, queue_handshake_read_closed, is_handshake_terminated,
  reset_plain_write, is_want_io, convert_ssl_error, tls, lower_write_failed, lower_read_failed,
  drain_failed, drain_no_wbio, lower_shutdown_no_stream, lower_shutdown_failed,
  ssl_error_zero_return, Result, error, none_origin, queue_result,
}
use syncme.Async.TlsStream.Drive.{
  drain_answer, drain_loop, drain_encrypted_output, complete_lower_shutdown, start_lower_read,
  handshake_answer, drive_handshake, deliver_front, deliver_from, deliver_adopted_plaintext,
  end_plain_read, give_adopted, read_answer, read_plain, drive_plain_read,
}
use syncme.Async.TlsStream.Machine.{
  Loose, loose, Step, adjusts, pushes, shuts_down, completes_handshake, ends_handshake,
  reports_error, reports_closed, ends_read, skips_adopted, gives_adopted, reads, Steps, stays, also,
  once, join, Steps-completed,
}

unfinished : (c q : Bool) → (not c && q) ≡ false → c ≡ false → q ≡ false
unfinished false q h e = h
unfinished true q h e = cc

module _ {S : Type 0} where
  pub branch :
      {s : TlsStream S} (b : Bool) (x y : Bool × TlsStream S)
      → (b ≡ true → Steps S s x.1)
      → (b ≡ false → Steps S s y.1)
      → Steps S s (if b then x else y).1
  branch true x y p q = p refl
  branch false x y p q = q refl

  pub continue-Steps :
      {s : TlsStream S} (m : Bool × TlsStream S) (k : Action S)
      → Steps S s m.1
      → ((s' : TlsStream S) → Steps S s s' → Steps S s' (k s').1)
      → Steps S s (continue m k).1
  continue-Steps (true, s') k p q = join p (q s' p)
  continue-Steps (false, s') k p q = p

  pub adjusted :
      {s s' : TlsStream S} (l : Loose S)
      → Steps S s s'
      → Steps S s (record s' {
        ssl = l.ssl;
        last_error = l.last_error;
        lower_read_pending = l.lower_read_pending;
        lower_read_closed = l.lower_read_closed;
        tls_read_closed = l.tls_read_closed;
        shutdown_pending = l.shutdown_pending;
        shutdown_completed = l.shutdown_completed;
        plain_write_needs_read = l.plain_write_needs_read;
      })
  adjusted l p = also p (adjusts l)

  pub says :
      {s s' : TlsStream S} (text : Option ErrorText)
      → Steps S s s'
      → Steps S s (record s' { last_error = text })
  says {s' = s'} text p = adjusted (record (loose s') { last_error = text }) p

  pub calls : {s s' : TlsStream S} (ssl : S) → Steps S s s' → Steps S s (record s' { ssl = ssl })
  calls {s' = s'} ssl p = adjusted (record (loose s') { ssl = ssl }) p

  pub refuse-Steps :
      {s s' : TlsStream S} (text : ErrorText) → Steps S s s' → Steps S s (refuse text s').1
  refuse-Steps text p = says (some text) p

  pub queue_error-Steps :
      (code : ℕ) (origin : ErrorOrigin) (s : TlsStream S) → Steps S s (queue_error code origin s).1
  unfolding queue_error
  queue_error-Steps code origin s =
      branch (not s.handshake_completed && s.handshake_result_queued) _ _ (λ _. stays)
        (λ h. reports s.handshake_completed _ _ refl refl (unfinished _ _ h))
    where
      reports :
          (c : Bool) (r : Result) (text : Option ErrorText)
          → s.handshake_completed ≡ c
          → r.op ≡ error
          → (s.handshake_completed ≡ false → s.handshake_result_queued ≡ false)
          → Steps S s
              (queue_result r (record s {
                handshake_result_queued = if c then s.handshake_result_queued else true;
                last_error = text;
              })).1
      reports true r text e k h = also (says text stays) (reports_error r k e)
      reports false r text e k h = also (says text stays) (ends_handshake r (inr k) e (h e))

  queue_handshake_read_closed-Steps :
      (reason : ErrorText) (s : TlsStream S)
      → s.handshake_completed ≡ false
      → Steps S s (queue_handshake_read_closed reason s).1
  unfolding queue_handshake_read_closed queue_read_closed
  queue_handshake_read_closed-Steps reason s c =
      branch s.handshake_result_queued _ _ (λ _. stays)
        (λ h. also (says (some reason) stays) (ends_handshake _ (inl refl) c h))

  handshake_answer-Steps :
      (r : Option ℕ) (s : TlsStream S)
      → s.handshake_completed ≡ false
      → s.handshake_result_queued ≡ false
      → Steps S s (handshake_answer r s).1
  unfolding handshake_answer queue_handshake_completed
  handshake_answer-Steps none s c q =
      branch s.handshake_result_queued _ _ (λ h. cc) (λ _. once (completes_handshake c q))
  handshake_answer-Steps (some e) s c q =
      branch (is_want_io e) _ _ (λ _. stays)
        (λ _.
          branch (e == ssl_error_zero_return) _ _
            (λ _.
              join (adjusted (record (loose s) { tls_read_closed = true }) stays)
                (queue_handshake_read_closed-Steps _ _ c))
            (λ _. join (says _ stays) (queue_error-Steps (convert_ssl_error e) tls _)))

module _ {S : Type 0} (api : SslApi S) (low : Lower) where
  drain_answer-Steps :
      (next : Action S)
      → ((s : TlsStream S) → Steps S s (next s).1)
      → (r : Bool ⊎ List ℕ) (s : TlsStream S) → Steps S s (drain_answer api low next r s).1
  unfolding drain_answer
  drain_answer-Steps next p (inl true) s = stays
  drain_answer-Steps next p (inl false) s = refuse-Steps drain_failed stays
  drain_answer-Steps next p (inr bytes) s =
      branch (not (push_buffer low.writes s.lower_writer (some bytes)).0) _ _
        (λ _. refuse-Steps lower_write_failed (once (pushes low.writes bytes)))
        (λ _. join (once (pushes low.writes bytes)) (p _))

  drain_loop-Steps : (fuel : ℕ) (s : TlsStream S) → Steps S s (drain_loop api low fuel s).1
  unfolding drain_loop
  drain_loop-Steps zero s = stays
  drain_loop-Steps (suc fuel) s =
      branch (api.wbio_pending s.ssl == 0) _ _ (λ _. stays)
        (λ _.
          let (r, ssl) = api.wbio_read s.ssl (min (api.wbio_pending s.ssl) encrypted_chunk_size) in
          join (calls ssl stays)
            (drain_answer-Steps (drain_loop api low fuel) (drain_loop-Steps fuel) r _))

  pub drain_encrypted_output-Steps :
      (s : TlsStream S) → Steps S s (drain_encrypted_output api low s).1
  unfolding drain_encrypted_output
  drain_encrypted_output-Steps s =
      branch (not s.has_bios) _ _ (λ _. refuse-Steps drain_no_wbio stays)
        (λ _. drain_loop-Steps _ s)

  both_true : (b c : Bool) → (not b || not c) ≡ false → (b ≡ true) × (c ≡ true)
  both_true true true h = (refl, refl)
  both_true true false h = cc
  both_true false c h = cc

  pub complete_lower_shutdown-Steps :
      (s : TlsStream S) → Steps S s (complete_lower_shutdown api low s).1
  unfolding complete_lower_shutdown
  complete_lower_shutdown-Steps s =
      branch (not s.shutdown_completed || not (is_idle s.lower_writer)) _ _ (λ _. stays)
        (λ h.
          branch s.lower_send_shutdown_completed _ _ (λ _. stays)
            (λ _.
              branch (not s.has_lower) _ _ (λ _. refuse-Steps lower_shutdown_no_stream stays)
                (λ _.
                  branch (not low.shutdown_send) _ _ (λ _. refuse-Steps lower_shutdown_failed stays)
                    (λ _. once (shuts_down (both_true _ _ h).0 (both_true _ _ h).1)))))

  pub start_lower_read-Steps : (s : TlsStream S) → Steps S s (start_lower_read api low s).1
  unfolding start_lower_read
  start_lower_read-Steps s =
      branch (s.lower_read_pending || (s.lower_read_closed || s.removing)) _ _ (λ _. stays)
        (λ _.
          branch (not s.handshake_started && not s.handshake_completed) _ _ (λ _. stays)
            (λ _.
              branch
                (not s.plain_read_pending
                  && (not s.plain_write_needs_read
                      && (s.handshake_completed && not s.shutdown_pending)))
                _ _ (λ _. stays)
                (λ _.
                  branch (not low.start_read) _ _ (λ _. refuse-Steps lower_read_failed stays)
                    (λ _. adjusted (record (loose s) { lower_read_pending = true }) stays))))

  pub drive_handshake-Steps : (s : TlsStream S) → Steps S s (drive_handshake api low s).1
  unfolding drive_handshake
  drive_handshake-Steps s =
      branch s.handshake_completed _ _ (λ _. stays)
        (λ c.
          branch s.handshake_result_queued _ _ (λ _. stays)
            (λ q.
              let (r, ssl) = api.do_handshake s.ssl in
              join (calls ssl stays) (handshake_answer-Steps r _ c q)))
