-- ===== src/Async/LinuxStream/Armed/Update.antt =====
-- UpdateInterestLocked of Async/AsyncStreamLinux.cpp arms a stream that waits.
use syncme.Prelude.{
  ℕ, ◌≡◌, refl, sym, ap, ◌∙◌, arith, Bool, true, false, not, ◌&&◌, ◌||◌, Option, none, some, inr,
  if◌then◌else◌,
}
use syncme.Async.TlsStream.{error}
use syncme.Async.LinuxStream.{
  Kernel, LinuxAsyncStream, LinuxAsyncEngine, put, lookup, handle, make_event, find_stream_locked,
  queue_result_locked, signal_stop_event, find_handle,
}
use syncme.Async.LinuxStream.Transfer.{
  end_read, end_write, arm, update_interest_locked, interest_set,
}
use syncme.Async.LinuxStream.Quiet.{Quiet, ended-Quiet}
use syncme.Async.LinuxStream.Armed.{
  IsWired, Quiet-IsWired, handle-Quiet, exempt-IsWired, kernel-IsWired,
}

module _ {K : Type 0} where
  -- Where no stream is registered for the descriptor of `p`, there is none to arm.
  pub unowned-IsWired :
      (s : LinuxAsyncEngine K) (p : ℕ)
      → IsWired s (some p)
      → find_stream_locked p s ≡ none
      → IsWired s none
  unfolding find_stream_locked
  unowned-IsWired s p w e =
      exempt-IsWired s p w (λ fd a b. absurd (clash (handle p s) b e (w.owned p fd a b)))
    where
      clash :
          (h : Option ℕ) {fd : ℕ}
          → h ≡ some fd
          → find_handle h s.entries ≡ none
          → lookup fd s.entries ≡ some p
          → ⊥
      clash none a b c = cc
      clash (some fd) a b c = cc

  armed-IsWired :
      (s : LinuxAsyncEngine K) (p : ℕ) (h : Option ℕ)
      → h ≡ handle p s
      → (s.streams p).removing ≡ false
      → IsWired s (some p)
      → IsWired (arm h (make_event (s.streams p)) s) none
  armed-IsWired s p none e r w = exempt-IsWired s p w (λ fd a b. absurd cc)
  armed-IsWired s p (some fd) e r w =
      exempt-IsWired (arm (some fd) (make_event (s.streams p)) s) p
        (record {
          unique = w.unique;
          unmade = w.unmade;
          owned = w.owned;
          armed = λ q fd' n a b.
              ground (arith, w.armed q fd' n a b, w.owned q fd' a b, w.owned p fd r (sym e));
        })
        (λ fd' a b. ground arith)

  pub find_stream_locked-Quiet :
      (s t : LinuxAsyncEngine K) (p : ℕ)
      → Quiet s t
      → find_stream_locked p t ≡ find_stream_locked p s
  unfolding find_stream_locked
  find_stream_locked-Quiet s t p q =
      ap (λ m. find_handle (handle p t) m) q.entries
      ∙ ap (λ h. find_handle h s.entries) (handle-Quiet s t p q)

module _ {K : Type 0} (sys : Kernel K) where
  interest_set-IsWired :
      (p : ℕ) (owner answer : Option ℕ) (s : LinuxAsyncEngine K)
      → owner ≡ find_stream_locked p s
      → (s.streams p).removing ≡ false
      → IsWired s (some p)
      → IsWired (interest_set sys p (make_event (s.streams p)) owner answer s).1 none
  unfolding interest_set signal_stop_event
  interest_set-IsWired p owner none s e r w = armed-IsWired s p (handle p s) refl r w
  interest_set-IsWired p none (some errno) s e r w = unowned-IsWired s p w (sym e)
  interest_set-IsWired p (some owner) (some errno) s e r w =
      let stream : LinuxAsyncStream = end_write (end_read (s.streams p)) in
      let s' : LinuxAsyncEngine K = queue_result_locked owner error none 0 errno (put p stream s) in
      kernel-IsWired _ s' none (
        exempt-IsWired s' p
          (Quiet-IsWired s s' (some p)
            (ended-Quiet p owner stream error none 0 errno s refl refl (λ h. cc) (λ h. cc)) w)
          (λ fd a b. inr ((λ h. ground arith), λ h. ground arith)))

  pub update_interest_locked-IsWired :
      (p : ℕ) (s : LinuxAsyncEngine K)
      → IsWired s (some p)
      → IsWired (update_interest_locked sys p s).1 none
  unfolding update_interest_locked find_stream_locked
  update_interest_locked-IsWired p s w =
      choose
        ((s.streams p).removing
          || (not (s.streams p).read_pending && not (s.streams p).write_pending))
        refl
    where
      choose :
          (b : Bool)
          → ((s.streams p).removing
              || (not (s.streams p).read_pending && not (s.streams p).write_pending))
            ≡ b
          → IsWired
              (if b
                then (true, s)
                else interest_set sys p
                    (make_event (s.streams p))
                    (find_stream_locked p s)
                    (sys.ctl_mod s.kernel (handle p s) (make_event (s.streams p))).0
                    (record s {
                      kernel = (sys.ctl_mod s.kernel (handle p s) (make_event (s.streams p))).1;
                    })).1
              none
      choose true e = exempt-IsWired s p w (λ fd a b. ground arith)
      choose false e =
          let (answer, k) = sys.ctl_mod s.kernel (handle p s) (make_event (s.streams p)) in
          interest_set-IsWired p (find_stream_locked p s) answer (record s { kernel = k }) refl
            (ground arith) (kernel-IsWired k s (some p) w)

  -- After a transfer that was tried, or was refused since the stream is not registered.
  pub tried-IsWired :
      (p : ℕ) (s : LinuxAsyncEngine K) (tried : Bool × LinuxAsyncEngine K)
      → Quiet s tried.1
      → (tried.0 ≡ false → find_stream_locked p s ≡ none)
      → IsWired s (some p)
      → IsWired (if tried.0 then update_interest_locked sys p tried.1 else (false, tried.1)).1 none
  tried-IsWired p s (true, t) q h w =
      update_interest_locked-IsWired p t (Quiet-IsWired s t (some p) q w)
  tried-IsWired p s (false, t) q h w =
      unowned-IsWired t p (Quiet-IsWired s t (some p) q w)
        (find_stream_locked-Quiet s t p q ∙ h refl)
