-- ===== src/Async/TlsStream/Notice.antt =====
-- ResultSink of Async/AsyncTlsStream.cpp: how the owner learns of results.
use syncme.Prelude.{
  ℕ, ◌⊎◌, inl, inr, Bool-cases, ◌≤◌, ◌<◌, ◌∙◌, ◌≡◌, ◌+◌, refl, arith, Bool, true, false, not, ◌&&◌,
  ◌||◌, List, [], ◌∷◌, ◌++◌, if◌then◌else◌,
}
use syncme.Async.TlsStream.{SslApi, Lower, Result, TlsStream, queue_result}
use syncme.Async.TlsStream.Drive.{give_adopted, read_answer}
use syncme.Async.TlsStream.Write.{took, finish_write}
use syncme.Async.TlsStream.Calls.{
  Call, run, close, take_first, pop_pending_result, set_result_sink, has_pending,
}
use syncme.Async.TlsStream.Machine.{
  Step, adjusts, pushes, acknowledges, shuts_down, starts_handshake, completes_handshake,
  ends_handshake, reports_error, reports_closed, begins_read, ends_read, skips_adopted,
  gives_adopted, reads, begins_write, encrypts, drops_write, finishes_write, closes, pops,
  sets_sink, Steps, stays, steps,
}
use syncme.Async.TlsStream.Refine.Calls.{run-Steps}

-- There is a sink, and a result waits.
abbrev pub awaits : {S : Type 0} → TlsStream S → Bool
awaits s = s.has_sink && has_pending s.pending_results

-- ResultNotified is set exactly where there is a sink and a result waits.
abbrev pub IsAnnounced : {S : Type 0} → TlsStream S → Type 0
IsAnnounced s = s.result_notified ≡ awaits s

-- From ResultNotified unset to ResultNotified set, ResultSink was called.
abbrev Tells : {S : Type 0} → TlsStream S → TlsStream S → Type 0
Tells s t =
    (s.notified ≤ t.notified)
    × (s.result_notified ≡ false → t.result_notified ≡ true → s.notified < t.notified)

-- After NotifyResultReady, with a result more.
told :
    (notified sink : Bool) (rs : List Result) (r : Result)
    → notified ≡ (sink && has_pending rs)
    → (if notified || not sink then notified else true) ≡ (sink && has_pending (rs ++ r ∷ []))
told notified sink [] r e = ground arith
told notified sink (x ∷ rs) r e = ground arith

tells :
    (told sink : Bool) (n : ℕ)
    → (n ≤ (if told || not sink then n else n + 1))
      × (told ≡ false
          → (if told || not sink then told else true) ≡ true
          → n < (if told || not sink then n else n + 1))
tells true sink n = (omega arith, λ e k. cc)
tells false true n = (omega arith, λ e k. omega arith)
tells false false n = (omega arith, λ e k. cc)

module _ {S : Type 0} where
  take_first-IsAnnounced :
      (s : TlsStream S) (rs : List Result)
      → s.result_notified ≡ (s.has_sink && has_pending rs)
      → s.pending_results ≡ rs
      → IsAnnounced (take_first s rs).1
  unfolding take_first
  take_first-IsAnnounced s [] e k = ground arith
  take_first-IsAnnounced s (r ∷ []) e k = ground arith
  take_first-IsAnnounced s (r ∷ r' ∷ rs) e k = ground arith

  Step-IsAnnounced : {s s' : TlsStream S} → Step S s s' → IsAnnounced s → IsAnnounced s'
  unfolding close pop_pending_result set_result_sink queue_result give_adopted read_answer took
      finish_write
  Step-IsAnnounced (adjusts l) h = h
  Step-IsAnnounced (pushes env bytes) h = h
  Step-IsAnnounced (acknowledges env n) h = h
  Step-IsAnnounced (shuts_down a b) h = h
  Step-IsAnnounced (starts_handshake a) h = h
  Step-IsAnnounced {s = s} (completes_handshake a b) h = told _ _ s.pending_results _ h
  Step-IsAnnounced {s = s} (ends_handshake r e a b) h = told _ _ s.pending_results _ h
  Step-IsAnnounced {s = s} (reports_error r e a) h = told _ _ s.pending_results _ h
  Step-IsAnnounced {s = s} (reports_closed a) h = told _ _ s.pending_results _ h
  Step-IsAnnounced (begins_read n a b) h = h
  Step-IsAnnounced ends_read h = h
  Step-IsAnnounced (skips_adopted source rest e a) h = h
  Step-IsAnnounced {s = s} (gives_adopted source rest capacity e a b) h =
      told _ _ s.pending_results _ h
  Step-IsAnnounced {s = s} (reads bytes a b) h = told _ _ s.pending_results _ h
  Step-IsAnnounced (begins_write c a b) h = h
  Step-IsAnnounced (encrypts ssl n bytes) h = h
  Step-IsAnnounced drops_write h = h
  Step-IsAnnounced {s = s} (finishes_write a b c) h = told _ _ s.pending_results _ h
  Step-IsAnnounced closes h = ground arith
  Step-IsAnnounced {s = s} pops h = take_first-IsAnnounced s s.pending_results h refl
  Step-IsAnnounced {s = s} (sets_sink sink) h = sinks sink (has_pending s.pending_results) refl
    where
      sinks :
          (a b : Bool)
          → b ≡ has_pending s.pending_results
          → IsAnnounced (
              if a && b
              then record s { has_sink = a; result_notified = true; notified = s.notified + 1 }
              else record s { has_sink = a; result_notified = false })
      sinks a b e = ground arith

  Steps-IsAnnounced : {s s' : TlsStream S} → Steps S s s' → IsAnnounced s → IsAnnounced s'
  Steps-IsAnnounced stays h = h
  Steps-IsAnnounced (steps a b p step) h = Step-IsAnnounced step (Steps-IsAnnounced p h)

  -- NotifyResultReady calls the sink where it sets ResultNotified.
  take_first-Tells :
      (s : TlsStream S) (rs : List Result) → s.pending_results ≡ rs → Tells s (take_first s rs).1
  unfolding take_first
  take_first-Tells s [] e = ground arith
  take_first-Tells s (r ∷ []) e = ground arith
  take_first-Tells s (r ∷ r' ∷ rs) e = ground arith

  Tells-refl : (s : TlsStream S) → Tells s s
  Tells-refl s = (omega arith, λ e k. cc)

  Tells-trans : (s t u : TlsStream S) → Tells s t → Tells t u → Tells s u
  Tells-trans s t u h k = by t.result_notified refl
    where
      by : (b : Bool) → t.result_notified ≡ b → Tells s u
      by true e = (omega (arith, h.0, k.0), λ p q. omega (arith, h.1 p e, k.0))
      by false e = (omega (arith, h.0, k.0), λ p q. omega (arith, h.0, k.1 e q))

  Step-Tells : {s s' : TlsStream S} → Step S s s' → Tells s s'
  unfolding close pop_pending_result set_result_sink queue_result give_adopted read_answer took
      finish_write
  Step-Tells {s = s} (adjusts l) = Tells-refl s
  Step-Tells {s = s} (pushes env bytes) = Tells-refl s
  Step-Tells {s = s} (acknowledges env n) = Tells-refl s
  Step-Tells {s = s} (shuts_down a b) = Tells-refl s
  Step-Tells {s = s} (starts_handshake a) = Tells-refl s
  Step-Tells {s = s} (completes_handshake a b) = tells s.result_notified s.has_sink s.notified
  Step-Tells {s = s} (ends_handshake r e a b) = tells s.result_notified s.has_sink s.notified
  Step-Tells {s = s} (reports_error r e a) = tells s.result_notified s.has_sink s.notified
  Step-Tells {s = s} (reports_closed a) = tells s.result_notified s.has_sink s.notified
  Step-Tells {s = s} (begins_read n a b) = Tells-refl s
  Step-Tells {s = s} ends_read = Tells-refl s
  Step-Tells {s = s} (skips_adopted source rest e a) = Tells-refl s
  Step-Tells {s = s} (gives_adopted source rest capacity e a b) =
      tells s.result_notified s.has_sink s.notified
  Step-Tells {s = s} (reads bytes a b) = tells s.result_notified s.has_sink s.notified
  Step-Tells {s = s} (begins_write c a b) = Tells-refl s
  Step-Tells {s = s} (encrypts ssl n bytes) = Tells-refl s
  Step-Tells {s = s} drops_write = Tells-refl s
  Step-Tells {s = s} (finishes_write a b c) = tells s.result_notified s.has_sink s.notified
  Step-Tells closes = ground arith
  Step-Tells {s = s} pops = take_first-Tells s s.pending_results refl
  Step-Tells {s = s} (sets_sink sink) = sinks sink (has_pending s.pending_results)
    where
      sinks :
          (a b : Bool)
          → Tells s (
              if a && b
              then record s { has_sink = a; result_notified = true; notified = s.notified + 1 }
              else record s { has_sink = a; result_notified = false })
      sinks a b = ground arith

  Steps-Tells : {s s' : TlsStream S} → Steps S s s' → Tells s s'
  Steps-Tells {s = s} stays = Tells-refl s
  Steps-Tells {s = s} (steps a b p step) = Tells-trans s a b (Steps-Tells p) (Step-Tells step)

-- No result waits unseen. From a state in which ResultNotified says whether there is a sink and a
-- result waits, it says so after any calls; and unless there was a sink and a result waited already
-- before them, or there is no sink or no result waits after them, ResultSink was called in between.
pub run-IsAnnounced :
    {S : Type 0} (api : SslApi S) (calls : List (Lower × Call)) (s : TlsStream S)
    → IsAnnounced s
    → let t = run api calls s in
      IsAnnounced t × ((awaits s ≡ true) ⊎ (awaits t ≡ false) ⊎ (s.notified < t.notified))
run-IsAnnounced api calls s h =
    let t = run api calls s in
    let announced : IsAnnounced t = Steps-IsAnnounced (run-Steps api calls s) h in
    (
      announced,
      elim (Bool-cases (awaits s)) [
        | inl e ↦ inl e
        | inr e ↦ elim (Bool-cases (awaits t)) [
          | inr k ↦ inr (inl k)
          | inl k ↦ inr (inr ((Steps-Tells (run-Steps api calls s)).1 (h ∙ e) (announced ∙ k)))
        ]
      ],
    )
