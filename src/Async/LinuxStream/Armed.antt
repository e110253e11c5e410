-- ===== src/Async/LinuxStream/Armed.antt =====
-- In Async/AsyncStreamLinux.cpp, what epoll is asked to report, and the operations that wait for it.
pub mod Update
pub mod Events
pub mod Registry
pub mod Run
use syncme.Prelude.{
  ℕ, zero, suc, ◌+◌, ◌≡◌, ◌≢◌, ◌≤◌, refl, sym, ap, ◌∙◌, arith, Bool, true, false, not, ◌&&◌, ◌||◌,
  Option, none, some, List, [], ◌∷◌, ◌++◌, ◌⊎◌, inl, inr, if◌then◌else◌, ◌==◌, subst, ℕ_discrete,
}
use syncme.Async.LinuxStream.{
  Interest, Kernel, LinuxAsyncStream, Result, LinuxAsyncEngine, put, lookup, erase, find_item,
  handle, find_stream_locked, queue_result_locked,
}
use syncme.Async.LinuxStream.Transfer.{
  try_read_locked, try_write_locked, update_interest_locked, interest_set,
}
use syncme.Async.LinuxStream.Quiet.{Quiet}

abbrev pub IsUnique : List (ℕ × ℕ) → Type 0
IsUnique [] = Unit {0}
IsUnique ((k, v) ∷ m) = (lookup k m ≡ none) × IsUnique m

pub lookup-erase_self : (k : ℕ) (m : List (ℕ × ℕ)) → lookup k (erase k m) ≡ none
unfolding lookup erase
lookup-erase_self k [] = refl
lookup-erase_self k (e ∷ m) = ground (arith, lookup-erase_self k m)

pub lookup-erase_ne : (j k : ℕ) (m : List (ℕ × ℕ)) → j ≢ k → lookup j (erase k m) ≡ lookup j m
unfolding lookup erase
lookup-erase_ne j k [] h = refl
lookup-erase_ne j k (e ∷ m) h = ground (arith, lookup-erase_ne j k m h)

lookup-erase_absent : (j k : ℕ) (m : List (ℕ × ℕ)) → lookup j m ≡ none → lookup j (erase k m) ≡ none
unfolding lookup erase
lookup-erase_absent j k [] h = refl
lookup-erase_absent j k (e ∷ m) h = ground (arith, lookup-erase_absent j k m)

pub erase-IsUnique : (k : ℕ) (m : List (ℕ × ℕ)) → IsUnique m → IsUnique (erase k m)
unfolding lookup erase
erase-IsUnique k [] h = tt
erase-IsUnique k (e ∷ m) h = ground (arith, erase-IsUnique k m h.1, lookup-erase_absent e.0 k m h.0)

pub lookup-find_item :
    (p k : ℕ) (m : List (ℕ × ℕ)) → IsUnique m → find_item p m ≡ some k → lookup k m ≡ some p
unfolding lookup find_item
lookup-find_item p k [] h e = cc
lookup-find_item p k (x ∷ m) h e = ground (arith, lookup-find_item p k m h.1)

module _ {K : Type 0} where
  -- A stream that waits for its descriptor is armed for it, or an event of it is to be processed.
  abbrev pub IsArmed : LinuxAsyncEngine K → ℕ → ℕ → Type 0
  IsArmed s p fd =
      (s.in_flight fd ≡ true)
      ⊎ (((s.streams p).read_pending ≡ true → (s.armed fd).read ≡ true)
          × ((s.streams p).write_pending ≡ true → (s.armed fd).write ≡ true))

  -- Each stream that is not being removed is the one registered for its descriptor; all of them,
  -- save perhaps `but`, are armed.
  pub record IsWired (s : LinuxAsyncEngine K) (but : Option ℕ) : Type 0 where
    pub unique : IsUnique s.entries
    pub unmade : (p : ℕ) → s.made ≤ p → (s.streams p).removing ≡ true
    pub owned :
        (p fd : ℕ)
        → (s.streams p).removing ≡ false
        → handle p s ≡ some fd
        → lookup fd s.entries ≡ some p
    pub armed :
        (p fd : ℕ)
        → but ≢ some p
        → (s.streams p).removing ≡ false
        → handle p s ≡ some fd
        → IsArmed s p fd

  pub handle-Quiet : (s t : LinuxAsyncEngine K) (p : ℕ) → Quiet s t → handle p t ≡ handle p s
  handle-Quiet s t p h = h.handles (t.streams p).skt ∙ ap (λ k. (s.sockets k).handle) (h.skt p)

  pub Quiet-IsWired :
      (s t : LinuxAsyncEngine K) (but : Option ℕ) → Quiet s t → IsWired s but → IsWired t but
  Quiet-IsWired s t but q w = record {
    unique = rw q.entries w.unique;
    unmade = λ p h. q.removing p ∙ w.unmade p (rw (sym q.made) h);
    owned = λ p fd a b.
        ap (lookup fd) q.entries
        ∙ w.owned p fd (sym (q.removing p) ∙ a) (sym (handle-Quiet s t p q) ∙ b);
    armed = λ p fd n a b.
        elim (w.armed p fd n (sym (q.removing p) ∙ a) (sym (handle-Quiet s t p q) ∙ b)) [
          | inl flying ↦ inl (ap (λ f. f fd) q.in_flight ∙ flying)
          | inr (r, v) ↦ inr (
            (λ e. ap (λ f. (f fd).read) q.armed ∙ r (q.reads p e)),
            λ e. ap (λ f. (f fd).write) q.armed ∙ v (q.writes p e),
          )
        ];
  }

  -- The exception may be left out where the stream has nothing to wait for.
  pub exempt-IsWired :
      (s : LinuxAsyncEngine K) (p : ℕ)
      → IsWired s (some p)
      → ((fd : ℕ) → (s.streams p).removing ≡ false → handle p s ≡ some fd → IsArmed s p fd)
      → IsWired s none
  exempt-IsWired s p w h = record {
    unique = w.unique;
    unmade = w.unmade;
    owned = w.owned;
    armed = λ q fd n a b. elim (ℕ_discrete p q) [
      | yes e ↦
          subst (λ m. IsArmed s m fd) e
            (h fd (ap (λ m. (s.streams m).removing) e ∙ a) (ap (λ m. handle m s) e ∙ b))
      | no d ↦ w.armed q fd (λ e. d (some_inj e)) a b
    ];
  }
    where
      some_inj : {a b : ℕ} → some a ≡ some b → a ≡ b
      some_inj e = cc

  pub kernel-IsWired :
      (k : K) (s : LinuxAsyncEngine K) (but : Option ℕ)
      → IsWired s but
      → IsWired (record s { kernel = k }) but
  kernel-IsWired k s but w = record {
    unique = w.unique;
    unmade = w.unmade;
    owned = w.owned;
    armed = w.armed;
  }

  pub except-IsWired : (s : LinuxAsyncEngine K) (but : Option ℕ) → IsWired s none → IsWired s but
  except-IsWired s but w = record {
    unique = w.unique;
    unmade = w.unmade;
    owned = w.owned;
    armed = λ p fd n a b. w.armed p fd (λ e. cc) a b;
  }

  pub if-IsWired :
      (b : Bool) (t u : LinuxAsyncEngine K) (but : Option ℕ)
      → IsWired t but
      → IsWired u but
      → IsWired (if b then t else u) but
  if-IsWired true t u but h k = h
  if-IsWired false t u but h k = k

  pub if-IsWired_result {ℓ} :
      {A : Type ℓ} (b : Bool) (t u : A × LinuxAsyncEngine K) (but : Option ℕ)
      → IsWired t.1 but
      → IsWired u.1 but
      → IsWired (if b then t else u).1 but
  if-IsWired_result true t u but h k = h
  if-IsWired_result false t u but h k = k
