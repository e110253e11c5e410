-- ===== src/Async/LinuxStream/Answers/Events.antt =====
-- StartRead, StartWrite and the transfers of ProcessEpollEvent in Async/AsyncStreamLinux.cpp answer
-- what they end.
use syncme.Prelude.{
  ℕ, ◌≡◌, refl, sym, ◌∙◌, arith, Bool, true, false, not, ◌&&◌, ◌||◌, Option, none, some,
  if◌then◌else◌, ◌==◌,
}
use syncme.Async.BufferChain.{BufferChain, is_empty, size}
use syncme.Async.TlsStream.{read_closed}
use syncme.Async.LinuxStream.{
  EpollEvent, Kernel, LinuxAsyncStream, LinuxAsyncEngine, put, find_handle, handle,
  find_stream_locked, queue_result_locked,
}
use syncme.Async.LinuxStream.Transfer.{try_read_locked, try_write_locked, update_interest_locked}
use syncme.Async.LinuxStream.Calls.{
  start_read, start_write, read_ready, write_ready, hung_up, transfer,
}
use syncme.Async.LinuxStream.Quiet.{Quiet}
use syncme.Async.LinuxStream.Quiet.Transfer.{try_read_locked-Quiet, try_write_locked-Quiet}
use syncme.Async.LinuxStream.Armed.{IsWired, except-IsWired}
use syncme.Async.LinuxStream.Armed.Update.{find_stream_locked-Quiet}
use syncme.Async.LinuxStream.Armed.Events.{put-IsWired, read_ready-Quiet, write_ready-Quiet}
use syncme.Async.LinuxStream.Answers.{
  Answers, Answers-trans, Answers-refl, if-Answers, if-Answers_engine,
}
use syncme.Async.LinuxStream.Answers.Transfer.{
  IsOwn, put-Answers, queue_result_locked-Answers, try_read_locked-Answers,
  try_write_locked-Answers, update_interest_locked-Answers,
}

module _ {K : Type 0} where
  pub IsWired-IsOwn :
      (q : ℕ) (s : LinuxAsyncEngine K) (but : Option ℕ)
      → IsWired s but
      → (s.streams q).removing ≡ false
      → IsOwn q s
  unfolding find_stream_locked
  IsWired-IsOwn q s but w kept o = found (handle q s) refl
    where
      found : (h : Option ℕ) → handle q s ≡ h → find_handle h s.entries ≡ some o → o ≡ q
      found none e m = cc
      found (some fd) e m = ground (arith, w.owned q fd kept e)

  pub Quiet-IsOwn : (q : ℕ) (s t : LinuxAsyncEngine K) → Quiet s t → IsOwn q s → IsOwn q t
  Quiet-IsOwn q s t h own o e = own o (sym (find_stream_locked-Quiet s t q h) ∙ e)

module _ {K : Type 0} (sys : Kernel K) (p : ℕ) where
  -- A call that starts a transfer, tries it and updates the interest.
  started-Answers :
      (q : ℕ) (b : Bool) (s t : LinuxAsyncEngine K) (tried : Bool × LinuxAsyncEngine K)
      → Answers p s t
      → (b ≡ false → Answers p t tried.1)
      → (b ≡ false → IsOwn q tried.1)
      → Answers p s
          (if b
            then (false, s)
            else if tried.0
            then update_interest_locked sys q tried.1
            else (false, tried.1)).1
  started-Answers q true s t tried h k own = Answers-refl p s
  started-Answers q false s t tried h k own = Answers-trans p s t _ h (
      Answers-trans p t tried.1 _ (k refl) (
        if-Answers p tried.1 tried.0 (update_interest_locked sys q tried.1) (false, tried.1)
          (update_interest_locked-Answers sys p q tried.1 (λ e. own refl))
          (Answers-refl p tried.1)))

  pub start_read-Answers :
      (q : ℕ) (buffer : Option ℕ) (s : LinuxAsyncEngine K)
      → IsWired s none
      → Answers p s (start_read sys q buffer s).1
  unfolding start_read
  start_read-Answers q none s w = Answers-refl p s
  start_read-Answers q (some n) s w =
      let stream : LinuxAsyncStream = s.streams q in
      let t : LinuxAsyncEngine K =
        put q (record stream { read_buffer = some n; read_pending = true }) s in
      let guard : Bool =
        (n == 0) || (stream.removing || (stream.read_pending || stream.read_closed)) in
      let kept : guard ≡ false → (t.streams q).removing ≡ false = λ e. ground arith in
      let own : guard ≡ false → IsOwn q t = λ e.
        IsWired-IsOwn q t (some q) (put-IsWired q _ s refl refl (except-IsWired s (some q) w))
          (kept e) in
      started-Answers q guard s t (try_read_locked sys q t)
        (put-Answers p q _ s (λ e. refl) (λ e. e))
        (λ e. try_read_locked-Answers sys p q t (own e) (kept e))
        (λ e. Quiet-IsOwn q t (try_read_locked sys q t).1 (try_read_locked-Quiet sys q t) (own e))

  pub start_write-Answers :
      (q : ℕ) (buffers : BufferChain) (s : LinuxAsyncEngine K)
      → IsWired s none
      → Answers p s (start_write sys q buffers s).1
  unfolding start_write
  start_write-Answers q buffers s w =
      let stream : LinuxAsyncStream = s.streams q in
      let t : LinuxAsyncEngine K =
        put q
          (record stream {
            write_buffers = buffers;
            write_offset = 0;
            write_size = size buffers;
            write_pending = true;
          })
          s in
      let guard : Bool = is_empty buffers || (stream.removing || stream.write_pending) in
      let kept : guard ≡ false → (t.streams q).removing ≡ false = λ e. ground arith in
      let own : guard ≡ false → IsOwn q t = λ e.
        IsWired-IsOwn q t (some q) (put-IsWired q _ s refl refl (except-IsWired s (some q) w))
          (kept e) in
      started-Answers q guard s t (try_write_locked sys q t)
        (put-Answers p q _ s (λ e. e) (λ e. refl))
        (λ e. try_write_locked-Answers sys p q t (own e) (kept e))
        (λ e. Quiet-IsOwn q t (try_write_locked sys q t).1 (try_write_locked-Quiet sys q t) (own e))

  pub transfer-Answers :
      (q : ℕ) (ev : EpollEvent) (s : LinuxAsyncEngine K)
      → IsOwn q s
      → (s.streams q).removing ≡ false
      → Answers p s (transfer sys q ev s)
  unfolding transfer read_ready write_ready hung_up queue_result_locked
  transfer-Answers q ev s own kept =
      let t : LinuxAsyncEngine K = read_ready sys q ev s in
      let u : LinuxAsyncEngine K = write_ready sys q ev t in
      let a : Quiet s t = read_ready-Quiet sys q ev s in
      let b : Quiet t u = write_ready-Quiet sys q ev t in
      Answers-trans p s t _
        (if-Answers_engine p s
          ((s.streams q).read_pending && (ev.readable || (ev.rd_hup || ev.hup)))
          (try_read_locked sys q s).1 s (try_read_locked-Answers sys p q s own kept)
          (Answers-refl p s))
        (Answers-trans p t u _
          (if-Answers_engine p t ((t.streams q).write_pending && (ev.writable || ev.hup))
            (try_write_locked sys q t).1 t
            (try_write_locked-Answers sys p q t (Quiet-IsOwn q s t a own) (a.removing q ∙ kept))
            (Answers-refl p t))
          (if-Answers_engine p u
            (ev.hup && (not (u.streams q).read_pending && not (u.streams q).write_pending))
            (queue_result_locked q read_closed none 0 0 u) u
            (queue_result_locked-Answers p q read_closed none 0 0 u) (Answers-refl p u)))
