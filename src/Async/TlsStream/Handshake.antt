-- ===== src/Async/TlsStream/Handshake.antt =====
-- What Async/AsyncTlsStream.cpp reports of the handshake.
use syncme.Prelude.{
  ◌≡◌, ◌⊎◌, inl, inr, refl, ap, ◌∙◌, arith, Bool, true, false, List, [], ◌∷◌, ◌++◌,
}
use syncme.Async.TlsStream.{
  SslApi, Lower, Operation, handshake, Result, TlsStream, is_handshake_terminated, queue_result,
}
use syncme.Async.TlsStream.Drive.{give_adopted, read_answer}
use syncme.Async.TlsStream.Write.{took, finish_write}
use syncme.Async.TlsStream.Calls.{Call, run, close, pop_pending_result, set_result_sink}
use syncme.Async.TlsStream.Machine.{
  Step, adjusts, pushes, acknowledges, shuts_down, starts_handshake, completes_handshake,
  ends_handshake, reports_error, reports_closed, begins_read, ends_read, skips_adopted,
  gives_adopted, reads, begins_write, encrypts, drops_write, finishes_write, closes, pops,
  sets_sink, Steps, stays, steps, IsEnd, handshake_result,
}
use syncme.Async.TlsStream.Refine.Calls.{run-Steps}

abbrev pub is_handshake : Operation → Bool
is_handshake handshake = true
is_handshake _ = false

abbrev pub NoHandshake : List Result → Type 0
NoHandshake [] = Unit {0}
NoHandshake (r ∷ rs) = (is_handshake r.op ≡ false) × NoHandshake rs

-- What was reported, where the handshake is completed or not, and its result is queued or not.
abbrev pub Outcome : Bool → Bool → List Result → Type 0
Outcome false false rs = rs ≡ []
Outcome false true rs = (r : Result) × IsEnd r × (rs ≡ r ∷ [])
Outcome true q rs = (rest : List Result) × (rs ≡ handshake_result ∷ rest) × NoHandshake rest

abbrev pub HasOutcome : {S : Type 0} → TlsStream S → Type 0
HasOutcome s =
    (s.handshake_started ≡ true)
    × Outcome s.handshake_completed s.handshake_result_queued s.reported

nothing_yet : (c q : Bool) (rs : List Result) → c ≡ false → q ≡ false → Outcome c q rs → rs ≡ []
nothing_yet false false rs d e h = h
nothing_yet false true rs d e h = cc
nothing_yet true q rs d e h = cc

NoHandshake-append :
    (rs : List Result) (r : Result)
    → NoHandshake rs
    → is_handshake r.op ≡ false
    → NoHandshake (rs ++ r ∷ [])
NoHandshake-append [] r h k = (k, tt)
NoHandshake-append (x ∷ rs) r h k = (h.0, NoHandshake-append rs r h.1 k)

one_more :
    (c q : Bool) (rs : List Result) (r : Result)
    → c ≡ true
    → is_handshake r.op ≡ false
    → Outcome c q rs
    → Outcome c q (rs ++ r ∷ [])
one_more true q rs r c k (rest, e, h) =
    (rest ++ r ∷ [], ap (λ l. l ++ r ∷ []) e, NoHandshake-append rest r h k)
one_more false q rs r c k h = cc

first_end :
    (c : Bool) (rs : List Result) (r : Result)
    → c ≡ false
    → IsEnd r
    → rs ≡ []
    → Outcome c true (rs ++ r ∷ [])
first_end false rs r c e k = (r, e, ap (λ l. l ++ r ∷ []) k)
first_end true rs r c e k = cc

module _ {S : Type 0} where
  Step-HasOutcome : {s s' : TlsStream S} → Step S s s' → HasOutcome s → HasOutcome s'
  unfolding close pop_pending_result set_result_sink queue_result give_adopted read_answer took
      finish_write
  Step-HasOutcome {s = s} (adjusts l) h = h
  Step-HasOutcome {s = s} (pushes env bytes) h = h
  Step-HasOutcome {s = s} (acknowledges env n) h = h
  Step-HasOutcome {s = s} (shuts_down a b) h = h
  Step-HasOutcome {s = s} (starts_handshake a) (_, h) = (refl, h)
  Step-HasOutcome {s = s} (completes_handshake a b) (started, h) =
      (started, ([], ap (λ l. l ++ handshake_result ∷ []) (nothing_yet _ _ s.reported a b h), tt))
  Step-HasOutcome {s = s} (ends_handshake r e a b) (started, h) =
      (started, first_end _ s.reported r a e (nothing_yet _ _ s.reported a b h))
  Step-HasOutcome {s = s} (reports_error r e a) (started, h) =
      (started, one_more _ _ s.reported r a (ap is_handshake e) h)
  Step-HasOutcome {s = s} (reports_closed (inl a)) (started, h) =
      (started, one_more _ _ s.reported _ a refl h)
  Step-HasOutcome {s = s} (reports_closed (inr (a, _))) (started, h) = cc
  Step-HasOutcome {s = s} (begins_read n a b) h = h
  Step-HasOutcome ends_read h = h
  Step-HasOutcome {s = s} (skips_adopted source rest e a) h = h
  Step-HasOutcome {s = s} (gives_adopted source rest capacity e a b) (started, h) =
      (started, one_more _ _ s.reported _ b refl h)
  Step-HasOutcome {s = s} (reads bytes a b) (started, h) =
      (started, one_more _ _ s.reported _ a refl h)
  Step-HasOutcome {s = s} (begins_write c a b) h = h
  Step-HasOutcome {s = s} (encrypts ssl n bytes) h = h
  Step-HasOutcome drops_write h = h
  Step-HasOutcome {s = s} (finishes_write a b c) (started, h) =
      (started, one_more _ _ s.reported _ a refl h)
  Step-HasOutcome closes h = ground arith
  Step-HasOutcome pops h = ground arith
  Step-HasOutcome {s = s} (sets_sink sink) h = ground arith

  Steps-HasOutcome : {s s' : TlsStream S} → Steps S s s' → HasOutcome s → HasOutcome s'
  Steps-HasOutcome stays h = h
  Steps-HasOutcome (steps a b p step) h = Step-HasOutcome step (Steps-HasOutcome p h)

-- Once a handshake is started, whatever the calls, OpenSSL and the lower stream do: until it is
-- completed nothing is reported, or one ReadClosed or Error that ends it for good; from its
-- completion on, the first result is Handshake and no other result is one.
pub run-HasOutcome :
    {S : Type 0} (api : SslApi S) (calls : List (Lower × Call)) (s : TlsStream S)
    → HasOutcome s
    → HasOutcome (run api calls s)
run-HasOutcome api calls s h = Steps-HasOutcome (run-Steps api calls s) h

-- The handshake was reported as ended, and no plaintext read that was begun before it is left.
abbrev pub IsOver : {S : Type 0} → TlsStream S → Type 0
IsOver s =
    (s.handshake_completed ≡ false)
    × (s.handshake_result_queued ≡ true)
    × ((s.handshake_started ≡ true) ⊎ (s.plain_read_pending ≡ false))

over-terminated : {S : Type 0} (s : TlsStream S) → IsOver s → is_handshake_terminated s ≡ true
unfolding is_handshake_terminated
over-terminated s h = rw (h.0, h.1) refl

module _ {S : Type 0} where
  Step-IsOver :
      {s s' : TlsStream S} → Step S s s' → IsOver s → IsOver s' × (s'.reported ≡ s.reported)
  unfolding close pop_pending_result set_result_sink queue_result give_adopted read_answer took
      finish_write
  Step-IsOver (adjusts l) h = (h, refl)
  Step-IsOver (pushes env bytes) h = (h, refl)
  Step-IsOver (acknowledges env n) h = (h, refl)
  Step-IsOver (shuts_down a b) h = (h, refl)
  Step-IsOver {s = s} (starts_handshake a) h = cc (over-terminated s h)
  Step-IsOver (completes_handshake a b) h = cc h.1
  Step-IsOver (ends_handshake r e a b) h = cc h.1
  Step-IsOver (reports_error r e a) h = cc h.0
  Step-IsOver (reports_closed (inl a)) h = cc h.0
  Step-IsOver (reports_closed (inr (a, b))) h = elim h.2 [ inl k ↦ cc | inr k ↦ cc ]
  Step-IsOver {s = s} (begins_read n a b) h = cc (over-terminated s h)
  Step-IsOver ends_read h = ((h.0, h.1, inr refl), refl)
  Step-IsOver (skips_adopted source rest e a) h = (h, refl)
  Step-IsOver (gives_adopted source rest capacity e a b) h = cc h.0
  Step-IsOver (reads bytes a b) h = cc h.0
  Step-IsOver {s = s} (begins_write c a b) h = cc (over-terminated s h)
  Step-IsOver (encrypts ssl n bytes) h = (h, refl)
  Step-IsOver drops_write h = (h, refl)
  Step-IsOver (finishes_write a b c) h = cc h.0
  Step-IsOver {s = s} closes h = (ground arith, ground arith)
  Step-IsOver {s = s} pops h = (ground arith, ground arith)
  Step-IsOver (sets_sink sink) h = (ground arith, ground arith)

  Steps-IsOver :
      {s s' : TlsStream S} → Steps S s s' → IsOver s → IsOver s' × (s'.reported ≡ s.reported)
  Steps-IsOver stays h = (h, refl)
  Steps-IsOver (steps a b p step) h =
      let (h', e) = Steps-IsOver p h in let (h'', e') = Step-IsOver step h' in (h'', e' ∙ e)

-- A handshake that was reported as ended unfinished stays so, and the stream reports nothing
-- after it, whatever the calls, OpenSSL and the lower stream do; if it ended before it was
-- started, no read may wait then.
pub run-IsOver :
    {S : Type 0} (api : SslApi S) (calls : List (Lower × Call)) (s : TlsStream S)
    → IsOver s
    → IsOver (run api calls s) × ((run api calls s).reported ≡ s.reported)
run-IsOver api calls s h = Steps-IsOver (run-Steps api calls s) h
