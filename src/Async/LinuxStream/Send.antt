-- ===== src/Async/LinuxStream/Send.antt =====
-- TryWriteLocked of Async/AsyncStreamLinux.cpp: the bytes of a chain go out in order, each once.
pub mod Rounds
use syncme.Prelude.{
  ℕ, zero, suc, ◌+◌, ◌-◌, ◌%◌, ◌≡◌, ◌≤◌, ◌<◌, min, refl, ap, sym, ◌∙◌, arith, Bool, true, false,
  not, Option, none, some, List, [], ◌∷◌, ◌++◌, append-nil, append_assoc, length, take, drop, leb,
  ◌==◌, if◌then◌else◌, ◌⊎◌, inl, inr, add_word, word_mod, length-append, length-take, length-drop,
  leb→le, drop-drop,
}
use syncme.Async.BufferChain.{BufferView, AreViews, BufferChain, payload, payload_of}
use syncme.Async.TlsStream.{write, error}
use syncme.Async.LinuxStream.{
  max_iov, eagain, epipe, Kernel, LinuxAsyncStream, Result, LinuxAsyncEngine, put, handle,
  origin_of, find_stream_locked, queue_result_locked,
}
use syncme.Async.LinuxStream.Transfer.{
  build_iov, concat, complete_write_locked, fail_write, sent_some, send_iov, write_rounds,
  write_owned, try_write_locked,
}
use syncme.Async.LinuxStream.Iov.{AreFull, Covers, build_iov-Covers}

-- sendmsg takes no more than it is given.
pub record TakesWhatIsGiven {K : Type 0} (sys : Kernel K) : Type 0 where
  pub at_most :
      (k : K) (fd : Option ℕ) (iov : List (List ℕ)) (n : ℕ) (k' : K)
      → sys.sendmsg k fd iov ≡ (inr n, k')
      → n ≤ length (concat iov)

-- A write that is not done: its chain is valid, and bytes of it are left.
pub record IsWriting (stream : LinuxAsyncStream) : Type 0 where
  pub pending : stream.write_pending ≡ true
  pub kept : stream.removing ≡ false
  pub views : AreViews stream.write_buffers.views
  pub sized : stream.write_size ≡ length (payload stream.write_buffers)
  pub fits : stream.write_size < word_mod
  pub left : stream.write_offset < stream.write_size

abbrev pub left_bytes : LinuxAsyncStream → List ℕ
left_bytes stream = drop stream.write_offset (payload stream.write_buffers)

-- How a try to write with the stream `from` ends, when it sent `n` bytes.
pub data Ending {K : Type 0} (p n : ℕ) (from : LinuxAsyncStream) (s t : LinuxAsyncEngine K)
    : Type 0 where
  waits :
      (t.streams p).write_pending ≡ true
      → (t.streams p).write_buffers ≡ from.write_buffers
      → (t.streams p).write_size ≡ from.write_size
      → (t.streams p).write_offset ≡ from.write_offset + n
      → t.reported ≡ s.reported
      → Ending p n from s t
  completes :
      (t.streams p).write_pending ≡ false
      → from.write_offset + n ≡ from.write_size
      → t.reported
        ≡ s.reported
          ++ record {
            stream = some p;
            context = from.context;
            op = write;
            buffer = none;
            bytes = from.write_size;
            error = 0;
            origin = origin_of write;
          }
            ∷ []
      → Ending p n from s t
  fails :
      (code : ℕ)
      → (t.streams p).write_pending ≡ false
      → t.reported
        ≡ s.reported
          ++ record {
            stream = some p;
            context = from.context;
            op = error;
            buffer = none;
            bytes = 0;
            error = code;
            origin = origin_of error;
          }
            ∷ []
      → Ending p n from s t

-- The next `n` of the bytes that are left were sent, and the loop came to its end.
pub record Sends {K : Type 0} (p : ℕ) (from : LinuxAsyncStream) (s t : LinuxAsyncEngine K)
    : Type 0 where
  pub n : ℕ
  pub sent : (t.streams p).sent ≡ from.sent ++ take n (left_bytes from)
  pub in_time : t.stuck ≡ s.stuck
  pub ending : Ending p n from s t

take-nil : (n : ℕ) → take {A = ℕ} n [] ≡ []
take-nil zero = refl
take-nil (suc n) = refl

take-drop_add : (m n : ℕ) (xs : List ℕ) → take m xs ++ take n (drop m xs) ≡ take (m + n) xs
take-drop_add zero n xs = ap (λ k. take k xs) {x = n} {y = 0 + n} (omega arith)
take-drop_add (suc m) n [] = take-nil n ∙ sym (take-nil (suc m + n))
take-drop_add (suc m) n (x ∷ xs) =
    ap (λ l. x ∷ l) (take-drop_add m n xs)
    ∙ ap (λ k. take k (x ∷ xs)) {x = suc (m + n)} {y = suc m + n} (omega arith)

take_prefix : (n : ℕ) (xs ys : List ℕ) → n ≤ length xs → take n xs ≡ take n (xs ++ ys)
take_prefix zero xs ys h = refl
take_prefix (suc n) [] ys h = absurd (omega arith)
take_prefix (suc n) (x ∷ xs) ys h = ap (λ l. x ∷ l) (take_prefix n xs ys (omega arith))

module _ {K : Type 0} (sys : Kernel K) where
  abbrev pub advanced : ℕ → List (List ℕ) → ℕ → LinuxAsyncStream → LinuxAsyncStream
  advanced time iov m stream = record stream {
    last_write_progress_time = time;
    write_offset = add_word stream.write_offset m;
    sent = stream.sent ++ take m (concat iov);
  }

  abbrev pub advance : ℕ → List (List ℕ) → ℕ → LinuxAsyncEngine K → LinuxAsyncEngine K
  advance p iov m s = put p (advanced (sys.now s.kernel) iov m (s.streams p)) s

  pub put_self :
      (p : ℕ) (stream : LinuxAsyncStream) (s : LinuxAsyncEngine K)
      → (put p stream s).streams p ≡ stream
  put_self p stream s = ground arith

  complete_write-Sends :
      (p n : ℕ) (from : LinuxAsyncStream) (s t : LinuxAsyncEngine K)
      → (t.streams p).removing ≡ false
      → (t.streams p).sent ≡ from.sent ++ take n (left_bytes from)
      → t.stuck ≡ s.stuck
      → t.reported ≡ s.reported
      → (t.streams p).context ≡ from.context
      → (t.streams p).write_size ≡ from.write_size
      → from.write_offset + n ≡ from.write_size
      → Sends p from s (complete_write_locked p t)
  unfolding complete_write_locked queue_result_locked
  complete_write-Sends p n from s t r e st rep con siz all = record {
    n = n;
    sent = ground arith;
    in_time = st;
    ending = completes (ground arith) all (ground arith);
  }

  fail_write-Sends :
      (p code : ℕ) (s : LinuxAsyncEngine K)
      → (s.streams p).removing ≡ false
      → Sends p (s.streams p) s (fail_write p p code s)
  unfolding fail_write queue_result_locked
  fail_write-Sends p code s r = record {
    n = 0;
    sent = ground (arith, append-nil (s.streams p).sent);
    in_time = refl;
    ending = fails code (ground arith) (ground arith);
  }

  blocked-Sends :
      (p : ℕ) (s : LinuxAsyncEngine K)
      → (s.streams p).write_pending ≡ true
      → Sends p (s.streams p) s s
  blocked-Sends p s w = record {
    n = 0;
    sent = sym (append-nil (s.streams p).sent);
    in_time = refl;
    ending = waits w refl refl (omega arith) refl;
  }

  -- What was sent in one round comes before what the next rounds send.
  advanced-Ending :
      (p time m n : ℕ) (iov : List (List ℕ)) (from : LinuxAsyncStream) (s t : LinuxAsyncEngine K)
      → IsWriting from
      → from.write_offset + m < from.write_size
      → Ending p n (advanced time iov m from) s t
      → Ending p (m + n) from s t
  advanced-Ending p time m n iov from s t w l (waits a b c d e) =
      waits a b c (omega (arith, d, w.fits)) e
  advanced-Ending p time m n iov from s t w l (completes a b c) =
      completes a (omega (arith, b, w.fits)) c
  advanced-Ending p time m n iov from s t w l (fails code a b) = fails code a b

  advanced-Sends :
      (p time m : ℕ) (iov : List (List ℕ)) (from : LinuxAsyncStream) (s t : LinuxAsyncEngine K)
      → IsWriting from
      → take m (concat iov) ≡ take m (left_bytes from)
      → from.write_offset + m < from.write_size
      → Sends p (advanced time iov m from) s t
      → Sends p from s t
  advanced-Sends p time m iov from s t w e l h =
      let bytes : List ℕ = payload from.write_buffers in
      let offset : add_word from.write_offset m ≡ from.write_offset + m = omega (arith, w.fits) in
      record {
        n = m + h.n;
        sent =
            h.sent
            ∙ append_assoc from.sent (take m (concat iov)) _
            ∙ ap (λ x. from.sent ++ x)
                (ap (λ x. x ++ take h.n (drop (add_word from.write_offset m) bytes)) e
                  ∙ ap (λ k. take m (left_bytes from) ++ take h.n (drop k bytes)) offset
                  ∙ ap (λ x. take m (left_bytes from) ++ take h.n x)
                      (sym (drop-drop m from.write_offset bytes))
                  ∙ take-drop_add m h.n (left_bytes from));
        in_time = h.in_time;
        ending = advanced-Ending p time m h.n iov from s t w l h.ending;
      }

  if-Sends :
      (p : ℕ) (from : LinuxAsyncStream) (s : LinuxAsyncEngine K) (b : Bool)
      (t u : LinuxAsyncEngine K)
      → (b ≡ true → Sends p from s t)
      → (b ≡ false → Sends p from s u)
      → Sends p from s (if b then t else u)
  if-Sends p from s true t u h k = h refl
  if-Sends p from s false t u h k = k refl

  -- The number of bytes that are sent, and what they are.
  sent_bytes :
      (room m : ℕ) (bytes : List ℕ) (iov : List (List ℕ))
      → Covers room bytes iov
      → m ≤ length (concat iov)
      → (m ≤ length bytes) × (take m (concat iov) ≡ take m bytes)
  sent_bytes room m bytes iov (short, full, (rest, e, all)) h = (
    omega (arith, ap length e, length-append (concat iov) rest),
    take_prefix m (concat iov) rest h ∙ ap (take m) e,
  )

  pub sent_some-Sends :
      (next : LinuxAsyncEngine K → LinuxAsyncEngine K) (p : ℕ) (iov : List (List ℕ))
      (answer : ℕ ⊎ ℕ) (s : LinuxAsyncEngine K)
      → IsWriting (s.streams p)
      → Covers max_iov (left_bytes (s.streams p)) iov
      → ((n : ℕ) → answer ≡ inr n → n ≤ length (concat iov))
      → ((m : ℕ)
          → (s.streams p).write_offset + suc m < (s.streams p).write_size
          → Sends p
              (advanced (sys.now s.kernel) iov (suc m) (s.streams p))
              s
              (next (advance p iov (suc m) s)))
      → Sends p (s.streams p) s (sent_some sys next p p iov answer s)
  unfolding sent_some
  sent_some-Sends next p iov (inl errno) s w c h k =
      if-Sends p (s.streams p) s (errno == eagain) s (fail_write p p errno s)
        (λ e. blocked-Sends p s w.pending) (λ e. fail_write-Sends p errno s w.kept)
  sent_some-Sends next p iov (inr zero) s w c h k = fail_write-Sends p epipe s w.kept
  sent_some-Sends next p iov (inr (suc m)) s w c h k =
      let from : LinuxAsyncStream = s.streams p in
      let to : LinuxAsyncStream = advanced (sys.now s.kernel) iov (suc m) from in
      let (most, same) = sent_bytes max_iov (suc m) (left_bytes from) iov c (h (suc m) refl) in
      let left : from.write_offset + suc m ≤ from.write_size = omega (
        arith,
        most,
        w.sized,
        w.left,
        length-drop from.write_offset (payload from.write_buffers),
      ) in
      let offset : add_word from.write_offset (suc m) ≡ from.write_offset + suc m =
        omega (arith, w.fits) in
      let at : (put p to s).streams p ≡ to = put_self p to s in
      if-Sends p from s (leb from.write_size (add_word from.write_offset (suc m)))
        (complete_write_locked p (put p to s)) (next (put p to s))
        (λ e.
          complete_write-Sends p (suc m) from s (put p to s)
            (ap (λ x. x.removing) {y = to} at ∙ w.kept)
            (ap (λ x. x.sent) {y = to} at ∙ ap (λ l. from.sent ++ l) same) refl refl
            (ap (λ x. x.context) {y = to} at) (ap (λ x. x.write_size) {y = to} at)
            (omega (arith, offset, left, leb→le _ _ e)))
        (λ e.
          let short : from.write_offset + suc m < from.write_size = ground (arith, offset) in
          advanced-Sends p (sys.now s.kernel) (suc m) iov from s (next (put p to s)) w same short
            (k m short))
