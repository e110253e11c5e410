-- ===== src/Async/LinuxStream/HangUp.antt =====
-- ProcessEpollEvent of Async/AsyncStreamLinux.cpp when the peer has hung up.
use syncme.Prelude.{
  ℕ, ◌≡◌, refl, ap, ◌∙◌, arith, Bool, true, false, not, ◌&&◌, ◌||◌, none, some, List, [], ◌∷◌, ◌++◌,
  append_assoc, length, inr, if◌then◌else◌,
}
use syncme.Async.TlsStream.{read, read_closed, none_origin}
use syncme.Async.LinuxStream.{
  EpollEvent, Kernel, Result, LinuxAsyncEngine, handle, queue_result_locked, find_stream_locked,
}
use syncme.Async.LinuxStream.Transfer.{
  received, read_owned, read_into, try_read_locked, try_write_locked, update_interest_locked,
}
use syncme.Async.LinuxStream.Calls.{read_ready, write_ready, hung_up, transfer, process_entry}

if-true : {A : Type 0} (b : Bool) (x y : A) → b ≡ true → (if b then x else y) ≡ x
if-true b x y e = rw e refl

if-false : {A : Type 0} (b : Bool) (x y : A) → b ≡ false → (if b then x else y) ≡ y
if-false b x y e = rw e refl

module _ {K : Type 0} (sys : Kernel K) (p : ℕ) (s : LinuxAsyncEngine K) where
  -- A read waits, alone, in an open stream; recv gives bytes and leaves the system in `k`.
  pub record IsReading (size byte : ℕ) (bytes : List ℕ) (k : K) : Type 0 where
    pub kept : (s.streams p).removing ≡ false
    pub pending : (s.streams p).read_pending ≡ true
    pub alone : (s.streams p).write_pending ≡ false
    pub buffer : (s.streams p).read_buffer ≡ some size
    pub registered : find_stream_locked p s ≡ some p
    pub gives : sys.recv s.kernel (handle p s) size ≡ (inr (byte ∷ bytes), k)

  abbrev pub read_result : List ℕ → Result
  read_result bytes = record {
    stream = some p;
    context = (s.streams p).context;
    op = read;
    buffer = some bytes;
    bytes = length bytes;
    error = 0;
    origin = none_origin;
  }

  abbrev pub closed_result : Result
  closed_result = record {
    stream = some p;
    context = (s.streams p).context;
    op = read_closed;
    buffer = none;
    bytes = 0;
    error = 0;
    origin = none_origin;
  }

  try_read_locked-gives :
      (size byte : ℕ) (bytes : List ℕ) (k : K)
      → IsReading size byte bytes k
      → (try_read_locked sys p s).1 ≡ received p p (inr (byte ∷ bytes)) (record s { kernel = k })
  unfolding try_read_locked read_into read_owned
  try_read_locked-gives size byte bytes k h =
      ap (λ r. r.1)
        (if-false (not (s.streams p).read_pending) (true, s)
          (read_into sys p (s.streams p).read_buffer s) (ap not h.pending))
      ∙ ap (λ b. (read_into sys p b s).1) h.buffer
      ∙ ap (λ o. (read_owned sys p o size s).1) h.registered
      ∙ ap (λ a. received p p a.0 (record s { kernel = a.1 })) h.gives

  after_read : ℕ → List ℕ → K → LinuxAsyncEngine K
  after_read byte bytes k = received p p (inr (byte ∷ bytes)) (record s { kernel = k })

  read_ready-gives :
      (ev : EpollEvent) (size byte : ℕ) (bytes : List ℕ) (k : K)
      → ev.hup ≡ true
      → IsReading size byte bytes k
      → read_ready sys p ev s ≡ after_read byte bytes k
  unfolding read_ready after_read
  read_ready-gives ev size byte bytes k e h =
      if-true ((s.streams p).read_pending && (ev.readable || (ev.rd_hup || ev.hup)))
        (try_read_locked sys p s).1 s (ground (arith, h.pending))
      ∙ try_read_locked-gives size byte bytes k h

  -- What follows the read changes nothing but the results.
  after_read_idle :
      (byte size : ℕ) (bytes : List ℕ) (k : K)
      → IsReading size byte bytes k
      → let t : LinuxAsyncEngine K = after_read byte bytes k in
        ((t.streams p).read_pending ≡ false)
        × ((t.streams p).write_pending ≡ false)
        × ((t.streams p).removing ≡ false)
        × ((t.streams p).context ≡ (s.streams p).context)
        × ((t.streams p).read_closed ≡ (s.streams p).read_closed)
        × (t.reported ≡ s.reported ++ read_result (byte ∷ bytes) ∷ [])
  unfolding after_read received queue_result_locked
  after_read_idle byte size bytes k h = ground (arith, h.alone, h.kept)

  transfer-gives :
      (ev : EpollEvent) (size byte : ℕ) (bytes : List ℕ) (k : K)
      → ev.hup ≡ true
      → IsReading size byte bytes k
      → transfer sys p ev s ≡ queue_result_locked p read_closed none 0 0 (after_read byte bytes k)
  unfolding transfer write_ready hung_up
  transfer-gives ev size byte bytes k e h =
      let t : LinuxAsyncEngine K = after_read byte bytes k in
      let (r, w, m, c, d, l) = after_read_idle byte size bytes k h in
      ap (λ u. hung_up sys p ev (write_ready sys p ev u))
        (read_ready-gives ev size byte bytes k e h)
      ∙ ap (hung_up sys p ev) (
          if-false ((t.streams p).write_pending && (ev.writable || ev.hup))
            (try_write_locked sys p t).1 t (ground (arith, w)))
      ∙ if-true (ev.hup && (not (t.streams p).read_pending && not (t.streams p).write_pending))
          (queue_result_locked p read_closed none 0 0 t) t (ground (arith, r, w))

  update-idle :
      (t : LinuxAsyncEngine K)
      → (t.streams p).read_pending ≡ false
      → (t.streams p).write_pending ≡ false
      → update_interest_locked sys p t ≡ (true, t)
  unfolding update_interest_locked
  update-idle t r w =
      if-true
        ((t.streams p).removing
          || (not (t.streams p).read_pending && not (t.streams p).write_pending))
        _ _ (ground (arith, r, w))

-- A hang-up is processed while a read waits alone and recv gives bytes: the read is answered with
-- them, and ReadClosed is queued behind it although recv did not tell the end of the stream, which
-- the stream does not count as closed.
pub process_entry-hup :
    {K : Type 0} (sys : Kernel K) (p : ℕ) (ev : EpollEvent) (s : LinuxAsyncEngine K) (size byte : ℕ)
    (bytes : List ℕ) (k : K)
    → ev.err ≡ false
    → ev.hup ≡ true
    → IsReading sys p s size byte bytes k
    → let t = process_entry sys (some p) ev s in
      (t.reported ≡ s.reported ++ read_result sys p s (byte ∷ bytes) ∷ closed_result sys p s ∷ [])
      × ((t.streams p).read_closed ≡ (s.streams p).read_closed)
unfolding process_entry queue_result_locked
process_entry-hup {K = K} sys p ev s size byte bytes k e h r =
    let t : LinuxAsyncEngine K = after_read sys p s byte bytes k in
    let u : LinuxAsyncEngine K = queue_result_locked p read_closed none 0 0 t in
    let (a, b, m, c, d, l) = after_read_idle sys p s byte size bytes k r in
    let whole : process_entry sys (some p) ev s ≡ u =
      if-false (s.streams p).removing s _ r.kept
      ∙ if-false ev.err _ _ e
      ∙ ap (λ x. (update_interest_locked sys p x).1)
          (transfer-gives sys p s ev size byte bytes k h r)
      ∙ ap (λ x. x.1) {y = (true, u)} (update-idle sys p s u a b) in
    (
      ap (λ x. x.reported) whole
          ∙ if-false (t.streams p).removing t.reported _ m
          ∙ ap (λ x. t.reported ++ record (closed_result sys p s) { context = x } ∷ []) c
          ∙ ap (λ x. x ++ closed_result sys p s ∷ []) l
          ∙ append_assoc s.reported (read_result sys p s (byte ∷ bytes) ∷ [])
              (closed_result sys p s ∷ []),
      ap (λ x. (x.streams p).read_closed) whole ∙ d,
    )
