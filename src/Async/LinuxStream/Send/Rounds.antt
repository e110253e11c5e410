-- ===== src/Async/LinuxStream/Send/Rounds.antt =====
-- The loop of TryWriteLocked in Async/AsyncStreamLinux.cpp comes to its end.
use syncme.Prelude.{
  ℕ, zero, suc, ◌+◌, ◌-◌, ◌≡◌, ◌<◌, refl, ap, sym, ◌∙◌, arith, Bool, true, false, not, Option, none,
  some, List, [], ◌∷◌, length, if◌then◌else◌, ◌⊎◌, length-drop, subst, ◌≢◌,
}
use syncme.Async.BufferChain.{payload}
use syncme.Async.LinuxStream.{
  max_iov, Kernel, LinuxAsyncStream, LinuxAsyncEngine, handle, find_stream_locked,
}
use syncme.Async.LinuxStream.Transfer.{send_iov, write_rounds, write_owned, try_write_locked}
use syncme.Async.LinuxStream.Iov.{Covers, build_iov-Covers}
use syncme.Async.LinuxStream.Send.{
  TakesWhatIsGiven, IsWriting, left_bytes, Ending, waits, completes, fails, Sends, advance,
  advanced, put_self, sent_some-Sends,
}

module _ {K : Type 0} where
  rebase-Ending :
      (p n : ℕ) (from : LinuxAsyncStream) (s u t : LinuxAsyncEngine K)
      → u.reported ≡ s.reported
      → Ending p n from u t
      → Ending p n from s t
  rebase-Ending p n from s u t h (waits a b c d e) = waits a b c d (e ∙ h)
  rebase-Ending p n from s u t h (completes a b c) = completes a b cc
  rebase-Ending p n from s u t h (fails code a b) = fails code a cc

  rebase-Sends :
      (p : ℕ) (from : LinuxAsyncStream) (s u t : LinuxAsyncEngine K)
      → u.reported ≡ s.reported
      → u.stuck ≡ s.stuck
      → Sends p from u t
      → Sends p from s t
  rebase-Sends p from s u t h k r = record {
    n = r.n;
    sent = r.sent;
    in_time = r.in_time ∙ k;
    ending = rebase-Ending p r.n from s u t h r.ending;
  }

module _ {K : Type 0} (sys : Kernel K) (law : TakesWhatIsGiven sys) where
  -- There is something to send.
  Covers-full :
      (room : ℕ) (bytes : List ℕ) (iov : List (List ℕ))
      → 0 < room
      → 0 < length bytes
      → Covers room bytes iov
      → iov ≢ []
  Covers-full room bytes [] h k (short, full, (rest, e, all)) n =
      absurd (omega (arith, k, ap length e, ap length (all h)))
  Covers-full room bytes (x ∷ xs) h k c n = cc

  advanced-IsWriting :
      (time m : ℕ) (iov : List (List ℕ)) (from : LinuxAsyncStream)
      → IsWriting from
      → from.write_offset + m < from.write_size
      → IsWriting (advanced sys time iov m from)
  advanced-IsWriting time m iov from w h = record {
    pending = w.pending;
    kept = w.kept;
    views = w.views;
    sized = w.sized;
    fits = w.fits;
    left = omega (arith, w.fits);
  }

  module _ (next : LinuxAsyncEngine K → LinuxAsyncEngine K) (p : ℕ) (rounds : ℕ)
      (rest : (s : LinuxAsyncEngine K)
        → IsWriting (s.streams p)
        → (s.streams p).write_size - (s.streams p).write_offset < rounds
        → Sends p (s.streams p) s (next s)) where
    next-Sends :
        (iov : List (List ℕ)) (m : ℕ) (s : LinuxAsyncEngine K)
        → IsWriting (s.streams p)
        → (s.streams p).write_size - (s.streams p).write_offset < suc rounds
        → (s.streams p).write_offset + suc m < (s.streams p).write_size
        → Sends p
            (advanced sys (sys.now s.kernel) iov (suc m) (s.streams p))
            s
            (next (advance sys p iov (suc m) s))
    next-Sends iov m s w h k =
        let from : LinuxAsyncStream = s.streams p in
        let to : LinuxAsyncStream = advanced sys (sys.now s.kernel) iov (suc m) from in
        let u : LinuxAsyncEngine K = advance sys p iov (suc m) s in
        let at : u.streams p ≡ to = put_self sys p to s in
        let w' : IsWriting to = advanced-IsWriting (sys.now s.kernel) (suc m) iov from w k in
        rebase-Sends p to s u (next u) refl refl (
          subst (λ x. Sends p x u (next u)) at
            (rest u (subst IsWriting (sym at) w') (
              subst (λ x. x.write_size - x.write_offset < rounds) (sym at)
                (omega (arith, w.fits)))))

    send_iov-Sends :
        (iov : List (List ℕ)) (s : LinuxAsyncEngine K)
        → IsWriting (s.streams p)
        → Covers max_iov (left_bytes (s.streams p)) iov
        → (s.streams p).write_size - (s.streams p).write_offset < suc rounds
        → Sends p (s.streams p) s (send_iov sys next p p iov s)
    unfolding send_iov
    send_iov-Sends [] s w c h = absurd (
        Covers-full max_iov (left_bytes (s.streams p)) [] (omega arith)
          (omega (
            arith,
            w.left,
            w.sized,
            length-drop (s.streams p).write_offset (payload (s.streams p).write_buffers),
          ))
          c refl)
    send_iov-Sends (x ∷ xs) s w c h =
        let answer : (ℕ ⊎ ℕ) × K = sys.sendmsg s.kernel (handle p s) (x ∷ xs) in
        let t : LinuxAsyncEngine K = record s { kernel = answer.1 } in
        rebase-Sends p (s.streams p) s t _ refl refl (
          sent_some-Sends sys next p (x ∷ xs) answer.0 t w c
            (λ n e.
              law.at_most s.kernel (handle p s) (x ∷ xs) n answer.1 (ap (λ a. (a, answer.1)) e))
            (λ m k. next-Sends (x ∷ xs) m t w h k))

  write_rounds-Sends :
      (rounds p : ℕ) (s : LinuxAsyncEngine K)
      → IsWriting (s.streams p)
      → (s.streams p).write_size - (s.streams p).write_offset < rounds
      → Sends p (s.streams p) s (write_rounds sys rounds p p s)
  unfolding write_rounds
  write_rounds-Sends zero p s w h = absurd (omega arith)
  write_rounds-Sends (suc rounds) p s w h =
      send_iov-Sends (write_rounds sys rounds p p) p rounds (write_rounds-Sends rounds p) _ s w
        (build_iov-Covers (s.streams p).write_buffers.views (s.streams p).write_offset max_iov
          w.views)
        h

-- Where the stream is registered and its write is pending, with a valid chain of which bytes are
-- left, and sendmsg takes no more than it is given: TryWriteLocked comes to its end, having sent some
-- number of the bytes that are left, from the first on and each once. Then the write is pending with
-- that many bytes less to go and no result is queued, or all bytes are sent and the result tells the
-- size of the chain, or the write has ended with one error.
pub try_write_locked-Sends :
    {K : Type 0} (sys : Kernel K) (p : ℕ) (s : LinuxAsyncEngine K)
    → TakesWhatIsGiven sys
    → IsWriting (s.streams p)
    → find_stream_locked p s ≡ some p
    → let (ok, t) = try_write_locked sys p s in (ok ≡ true) × Sends p (s.streams p) s t
unfolding try_write_locked write_owned
try_write_locked-Sends {K = K} sys p s law w e =
    tried (not (s.streams p).write_pending) (find_stream_locked p s) (ap not w.pending) e
  where
    tried :
        (b : Bool) (o : Option ℕ)
        → b ≡ false
        → o ≡ some p
        → let r : Bool × LinuxAsyncEngine K = if b then (true, s) else write_owned sys p o s in
          (r.0 ≡ true) × Sends p (s.streams p) s r.1
    tried true o h k = cc
    tried false none h k = cc
    tried false (some q) h k =
        subst
          (λ o.
            let r : Bool × LinuxAsyncEngine K = write_owned sys p o s in
            (r.0 ≡ true) × Sends p (s.streams p) s r.1)
          (sym k)
          (
            refl,
            write_rounds-Sends sys law (suc ((s.streams p).write_size - (s.streams p).write_offset))
                p s w (omega arith),
          )
