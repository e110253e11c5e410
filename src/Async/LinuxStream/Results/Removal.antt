-- ===== src/Async/LinuxStream/Results/Removal.antt =====
-- Remove and EPOLLERR of Async/AsyncStreamLinux.cpp: a stream that ends gets no results any more.
use syncme.Prelude.{
  ℕ, ◌≡◌, ◌<◌, refl, sym, subst, arith, Bool, true, false, Option, none, some, List, ◌++◌,
  if◌then◌else◌,
}
use syncme.Async.LinuxStream.{Kernel, EpollEvent, Result, LinuxAsyncEngine, lookup}
use syncme.Async.LinuxStream.Calls.{
  is_handle, remove_entry, stream_failed, process_entry, process_epoll_event,
}
use syncme.Async.LinuxStream.Runs.{remove, entry_of, Call, call_remove, call_event, perform, run}
use syncme.Async.LinuxStream.Results.Run.{AreNotFor, perform-Extends, run-removing}

-- The calls that end a stream: a Remove that returns true, and EPOLLERR on its descriptor.
pub data Ends {K : Type 0} (sys : Kernel K) (p : ℕ) (s : LinuxAsyncEngine K) : Call → Type 0 where
  removed : (remove sys p s).0 ≡ true → Ends sys p s (call_remove p)
  failed :
      (ev : EpollEvent)
      → ev.err ≡ true
      → is_handle s.stop_event ev.fd ≡ false
      → lookup ev.fd s.entries ≡ some p
      → Ends sys p s (call_event ev)

module _ {K : Type 0} (sys : Kernel K) (p : ℕ) where
  remove_entry-removing :
      (entry : Option ℕ) (s : LinuxAsyncEngine K)
      → (remove_entry sys p entry s).0 ≡ true
      → ((remove_entry sys p entry s).1.streams p).removing ≡ true
  unfolding remove_entry
  remove_entry-removing none s e = cc
  remove_entry-removing (some fd) s e = ground arith

  stream_failed-removing :
      (s : LinuxAsyncEngine K) → ((stream_failed sys p s).streams p).removing ≡ true
  unfolding stream_failed
  stream_failed-removing s = ground arith

  -- What process_entry chooses between; a stream that was being removed stays so.
  chosen :
      (b c : Bool) (s t u : LinuxAsyncEngine K)
      → (s.streams p).removing ≡ b
      → c ≡ true
      → (t.streams p).removing ≡ true
      → ((if b then s else if c then t else u).streams p).removing ≡ true
  chosen true c s t u e k h = e
  chosen false true s t u e k h = h
  chosen false false s t u e k h = cc

  process_entry-removing :
      (entry : Option ℕ) (ev : EpollEvent) (s : LinuxAsyncEngine K)
      → entry ≡ some p
      → ev.err ≡ true
      → ((process_entry sys entry ev s).streams p).removing ≡ true
  unfolding process_entry
  process_entry-removing entry ev s e k =
      subst (λ o. ((process_entry sys o ev s).streams p).removing ≡ true) (sym e)
        (chosen (s.streams p).removing ev.err s (stream_failed sys p s) _ refl k
          (stream_failed-removing s))

  if-removing :
      (b : Bool) (s t : LinuxAsyncEngine K)
      → b ≡ false
      → (t.streams p).removing ≡ true
      → ((if b then s else t).streams p).removing ≡ true
  if-removing true s t e h = cc
  if-removing false s t e h = h

  perform-removing :
      (c : Call) (s : LinuxAsyncEngine K)
      → Ends sys p s c
      → ((perform sys c s).streams p).removing ≡ true
  unfolding perform remove process_epoll_event
  perform-removing c s (removed e) = remove_entry-removing (entry_of sys p s) s e
  perform-removing c s (failed ev e n l) =
      if-removing (is_handle s.stop_event ev.fd) _ _ n
        (process_entry-removing (lookup ev.fd s.entries) ev _ l e)

-- Once a Remove of a stream has returned true, or EPOLLERR was reported for its descriptor, the
-- stream is being removed after any further calls, and none of them queues a result for it.
pub run-ended :
    {K : Type 0} (sys : Kernel K) (s : LinuxAsyncEngine K) (p : ℕ) (c : Call) (cs : List Call)
    → p < s.made
    → Ends sys p s c
    → let ended = perform sys c s in
      let t = run sys cs ended in
      ((t.streams p).removing ≡ true)
      × ((rs : List Result) × (t.reported ≡ ended.reported ++ rs) × AreNotFor p rs)
run-ended sys s p c cs l e =
    run-removing sys (perform sys c s) p cs (omega (arith, l, (perform-Extends sys c s).made))
      (perform-removing sys p c s e)
