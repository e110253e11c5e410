-- ===== src/Async/TlsStream/Refine/Writing.antt =====
-- DrivePlainWrite, DriveShutdown and Drive of Async/AsyncTlsStream.cpp against the protocol.
use syncme.Prelude.{
  ℕ, zero, suc, ◌+◌, ◌-◌, ◌≡◌, refl, ◌∙◌, Bool, true, false, not, ◌&&◌, List, [], ◌∷◌, ◌==◌, leb,
  ◌⊎◌, inl, inr, length, drop, if◌then◌else◌, leb→le,
}
use syncme.Async.BufferChain.{BufferView, slice}
use syncme.Async.WriteQueue.{is_idle}
use syncme.Async.TlsStream.{
  ssl_error_want_read, tls_write_batch_limit, is_want_io, convert_ssl_error, Shutdown, completed,
  sent, shutdown_error, SslApi, Lower, tls, closed_in_handshake, drive_no_ssl, drive_no_lower,
  TlsStream, continue, queue_handshake_read_closed,
}
use syncme.Async.TlsStream.Drive.{
  drain_encrypted_output, complete_lower_shutdown, start_lower_read, drive_handshake,
}
use syncme.Async.TlsStream.Write.{
  Flow, next_view, unwritten_ciphertext, took, write_failed, encrypt_answer, encrypt_bytes,
  encrypt_views, end_of_write, after_views, drive_plain_write, shutdown_answer, drive_shutdown,
  await_handshake, drive_read_if, drive_write_if, drive_shutdown_if, drive_established,
  drive_started, drive, finish_write,
}
use syncme.Async.TlsStream.Drain.{drain-keeps}
use syncme.Async.TlsStream.Machine.{
  loose, drops_write, encrypts, finishes_write, Steps, stays, also, once, join, Steps-completed,
}
use syncme.Async.TlsStream.Refine.Reading.{drive_plain_read-Steps}
use syncme.Async.TlsStream.Refine.{
  branch, continue-Steps, adjusted, says, calls, refuse-Steps, queue_error-Steps,
  queue_handshake_read_closed-Steps, drain_encrypted_output-Steps, complete_lower_shutdown-Steps,
  start_lower_read-Steps, drive_handshake-Steps,
}

both : (b c : Bool) → (b && c) ≡ true → (b ≡ true) × (c ≡ true)
both true c h = (refl, h)
both false c h = cc

not-false : (b : Bool) → not b ≡ false → b ≡ true
not-false true h = refl
not-false false h = cc

not-true : (b : Bool) → not b ≡ true → b ≡ false
not-true false h = refl
not-true true h = cc

module _ {S : Type 0} where
  FlowSteps : TlsStream S → Flow S → Type 0
  FlowSteps s (inl answer) = Steps S s answer.1
  FlowSteps s (inr s') = Steps S s s'

  flow-join : {s s' : TlsStream S} (f : Flow S) → Steps S s s' → FlowSteps s' f → FlowSteps s f
  unfolding FlowSteps
  flow-join (inl answer) p q = join p q
  flow-join (inr s') p q = join p q

  flow-branch :
      (s : TlsStream S) (b : Bool) (x y : Flow S)
      → FlowSteps s x
      → FlowSteps s y
      → FlowSteps s (if b then x else y)
  flow-branch s true x y p q = p
  flow-branch s false x y p q = q

  next_view-Steps :
      (s : TlsStream S) (next : TlsStream S → Flow S) (f : Flow S)
      → ((s' : TlsStream S) → FlowSteps s' (next s'))
      → FlowSteps s f
      → FlowSteps s (next_view next f)
  unfolding FlowSteps next_view
  next_view-Steps s next (inl answer) n p = p
  next_view-Steps s next (inr s') n p = flow-join (next s') p (n s')

module _ {S : Type 0} (api : SslApi S) (low : Lower) where
  write_failed-Steps : (e : ℕ) (s : TlsStream S) → Steps S s (write_failed api low e s).1
  unfolding write_failed
  write_failed-Steps e s =
      branch (is_want_io e) _ _ (λ _. drain_encrypted_output-Steps api low s)
        (λ _.
          join (also (says _ stays) drops_write) (queue_error-Steps (convert_ssl_error e) tls _))

  encrypt_answer-Steps :
      (next : List ℕ → TlsStream S → Flow S) (ssl : S) (bytes : List ℕ) (r : ℕ ⊎ ℕ)
      (s : TlsStream S)
      → ((bytes : List ℕ) (s' : TlsStream S) → FlowSteps s' (next bytes s'))
      → FlowSteps s (encrypt_answer api low next ssl bytes r s)
  unfolding FlowSteps encrypt_answer
  encrypt_answer-Steps next ssl bytes (inr n) s p =
      flow-join (next (drop (n + 1) bytes) (took ssl n bytes s)) (once (encrypts ssl n bytes))
        (p _ _)
  encrypt_answer-Steps next ssl bytes (inl e) s p =
      join
        (adjusted
          (record (loose s) { ssl = ssl; plain_write_needs_read = e == ssl_error_want_read }) stays)
        (write_failed-Steps e _)

  encrypt_bytes-Steps :
      (fuel : ℕ) (bytes : List ℕ) (s : TlsStream S)
      → FlowSteps s (encrypt_bytes api low fuel bytes s)
  unfolding FlowSteps encrypt_bytes
  encrypt_bytes-Steps zero bytes s = stays
  encrypt_bytes-Steps (suc fuel) [] s = stays
  encrypt_bytes-Steps (suc fuel) (b ∷ bs) s =
      let (r, ssl) = api.write s.ssl (b ∷ bs) in
      flow-branch s (leb tls_write_batch_limit (unwritten_ciphertext api low s))
        (inl (drain_encrypted_output api low s))
        (encrypt_answer api low (encrypt_bytes api low fuel) ssl (b ∷ bs) r s)
        (drain_encrypted_output-Steps api low s)
        (encrypt_answer-Steps (encrypt_bytes api low fuel) ssl (b ∷ bs) r s
          (encrypt_bytes-Steps fuel))

  encrypt_views-Steps :
      (views : List BufferView) (skip : ℕ) (s : TlsStream S)
      → FlowSteps s (encrypt_views api low skip views s)
  unfolding FlowSteps encrypt_views
  encrypt_views-Steps [] skip s = stays
  encrypt_views-Steps (v ∷ vs) skip s =
      next_view-Steps s (encrypt_views api low (if leb v.size skip then skip - v.size else 0) vs)
        (if leb v.size skip
          then inr s
          else encrypt_bytes api low (length (slice v)) (drop skip (slice v)) s)
        (λ s'. encrypt_views-Steps vs _ s')
        (flow-branch s (leb v.size skip) (inr s) _ stays (encrypt_bytes-Steps _ _ s))

  end_of_write-Steps :
      (s : TlsStream S) → s.handshake_completed ≡ true → Steps S s (end_of_write api low s).1
  unfolding end_of_write
  end_of_write-Steps s c =
      continue-Steps (drain_encrypted_output api low s) _ (drain_encrypted_output-Steps api low s)
        (λ s' p.
          branch (leb s'.plain_write_size s'.plain_write_offset && is_idle s'.lower_writer)
            (finish_write s') (true, s')
            (λ h.
              once
                (finishes_write (Steps-completed p c) (leb→le _ _ (both _ _ h).0) (both _ _ h).1))
            (λ _. stays))

  after_views-Steps :
      (s : TlsStream S) (f : Flow S)
      → s.handshake_completed ≡ true
      → FlowSteps s f
      → Steps S s (after_views api low f).1
  unfolding FlowSteps after_views
  after_views-Steps s (inl answer) c p = p
  after_views-Steps s (inr s') c p = join p (end_of_write-Steps s' (Steps-completed p c))

  drive_plain_write-Steps :
      (s : TlsStream S) → s.handshake_completed ≡ true → Steps S s (drive_plain_write api low s).1
  unfolding drive_plain_write
  drive_plain_write-Steps s c =
      branch (not s.plain_write_pending) _ _ (λ _. stays)
        (λ _.
          branch (leb s.plain_write_size s.plain_write_offset) _ _
            (λ h.
              branch (not (is_idle s.lower_writer)) _ (finish_write s) (λ _. stays)
                (λ i. once (finishes_write c (leb→le _ _ h) (not-false _ i))))
            (λ _.
              after_views-Steps s
                (encrypt_views api low s.plain_write_offset s.plain_write_buffers.views s) c
                (encrypt_views-Steps s.plain_write_buffers.views s.plain_write_offset s)))

  shutdown_answer-Steps : (r : Shutdown) (s : TlsStream S) → Steps S s (shutdown_answer r s).1
  unfolding shutdown_answer
  shutdown_answer-Steps completed s =
      adjusted (record (loose s) { shutdown_completed = true; shutdown_pending = false }) stays
  shutdown_answer-Steps sent s = stays
  shutdown_answer-Steps (shutdown_error e) s =
      branch (is_want_io e) _ _ (λ _. stays)
        (λ _. join (says _ stays) (queue_error-Steps (convert_ssl_error e) tls _))

  await_handshake-Steps :
      (s : TlsStream S) → s.handshake_completed ≡ false → Steps S s (await_handshake api low s).1
  unfolding await_handshake
  await_handshake-Steps s c =
      after_drain (drain_encrypted_output api low s) (drain_encrypted_output-Steps api low s)
        (drain-keeps api low (λ s. s.handshake_completed) (λ s ssl writer text. refl) s ∙ c)
    where
      after_drain :
          (m : Bool × TlsStream S)
          → Steps S s m.1
          → m.1.handshake_completed ≡ false
          → Steps S s
              (continue m (λ s'.
                if s'.lower_read_closed
                then queue_handshake_read_closed closed_in_handshake s'
                else if s'.handshake_result_queued
                then (true, s')
                else start_lower_read api low s')).1
      after_drain (false, s') p d = p
      after_drain (true, s') p d = join p (
          branch s'.lower_read_closed (queue_handshake_read_closed closed_in_handshake s') _
            (λ _. queue_handshake_read_closed-Steps _ s' d)
            (λ _.
              branch s'.handshake_result_queued _ (start_lower_read api low s') (λ _. stays)
                (λ _. start_lower_read-Steps api low s')))

  drive_established-Steps :
      (s : TlsStream S) → s.handshake_completed ≡ true → Steps S s (drive_established api low s).1
  unfolding drive_established drive_read_if drive_write_if drive_shutdown_if drive_shutdown
  drive_established-Steps s c =
      continue-Steps (drive_read_if api low s) _
        (branch s.plain_read_pending _ _ (λ _. drive_plain_read-Steps api low s c) (λ _. stays))
        (λ s1 p1.
          continue-Steps (drive_write_if api low s1) _
            (branch s1.plain_write_pending _ _
              (λ _. drive_plain_write-Steps s1 (Steps-completed p1 c)) (λ _. stays))
            (λ s2 p2.
              continue-Steps (drive_shutdown_if api low s2) _
                (branch (s2.shutdown_pending && not s2.shutdown_completed)
                  (drive_shutdown api low s2) _
                  (λ _.
                    let (r, ssl) = api.shutdown s2.ssl in
                    join (calls ssl stays) (shutdown_answer-Steps r _))
                  (λ _. stays))
                (λ s3 p3.
                  continue-Steps (drain_encrypted_output api low s3) _
                    (drain_encrypted_output-Steps api low s3)
                    (λ s4 p4.
                      continue-Steps (complete_lower_shutdown api low s4) _
                        (complete_lower_shutdown-Steps api low s4)
                        (λ s5 p5. start_lower_read-Steps api low s5)))))

  drive_started-Steps : (s : TlsStream S) → Steps S s (drive_started api low s).1
  unfolding drive_started
  drive_started-Steps s =
      continue-Steps (drive_handshake api low s) _ (drive_handshake-Steps api low s) (λ s' p.
        branch (not s'.handshake_completed) (await_handshake api low s') _
          (λ h. await_handshake-Steps s' (not-true _ h))
          (λ h. drive_established-Steps s' (not-false _ h)))

  pub drive-Steps : (s : TlsStream S) → Steps S s (drive api low s).1
  unfolding drive
  drive-Steps s =
      branch (not s.has_ssl) _ _ (λ _. refuse-Steps drive_no_ssl stays)
        (λ _.
          branch (not s.has_lower) _ _ (λ _. refuse-Steps drive_no_lower stays)
            (λ _.
              branch s.handshake_completed _ _ (λ c. drive_established-Steps s c)
                (λ _.
                  branch (not s.handshake_started) _ (drive_started api low s) (λ _. stays)
                    (λ _. drive_started-Steps s))))
