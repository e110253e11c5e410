-- ===== src/Async/LinuxStream/Armed/Registry.antt =====
-- Add, Remove and RebindSocket of Async/AsyncStreamLinux.cpp leave the streams that wait armed.
use syncme.Prelude.{
  subst, ℕ, ◌≡◌, refl, sym, ap, ◌∙◌, arith, Bool, true, false, Option, none, some, if◌then◌else◌,
  ◌==◌,
}
use syncme.Async.LinuxStream.{
  Kernel, linux_async_stream, LinuxAsyncEngine, put, lookup, find_item, find_handle, handle,
  is_valid, set_non_blocking, set_flag, make_event,
}
use syncme.Async.LinuxStream.Calls.{add, add_entry, add_found, add_fd, remove_entry}
use syncme.Async.LinuxStream.Runs.{is_item, rebind_handles, rebind_socket, entry_of, remove}
use syncme.Async.LinuxStream.Armed.{
  IsUnique, erase-IsUnique, lookup-erase_ne, lookup-find_item, if-IsWired_result, IsWired,
  kernel-IsWired,
}

module _ {K : Type 0} (sys : Kernel K) where
  added-IsWired :
      (skt context fd : ℕ) (answer : Option ℕ) (s : LinuxAsyncEngine K)
      → (s.sockets skt).handle ≡ some fd
      → lookup fd s.entries ≡ none
      → IsWired s none
      → IsWired (add_entry sys skt context fd answer s).1 none
  unfolding add_entry lookup
  added-IsWired skt context fd (some errno) s h e w = w
  added-IsWired skt context fd none s h e w = record {
    unique = (e, w.unique);
    unmade = λ q k. ground (arith, w.unmade q);
    owned = λ q fd' r k. ground (arith, w.owned q fd');
    armed = λ q fd' n r k. ground (arith, w.armed q fd' (λ m. cc), w.owned q fd');
  }

  found-IsWired :
      (skt context fd : ℕ) (found : Option ℕ) (s : LinuxAsyncEngine K)
      → (s.sockets skt).handle ≡ some fd
      → lookup fd s.entries ≡ found
      → IsWired s none
      → IsWired (add_found sys skt context fd found s).1 none
  unfolding add_found
  found-IsWired skt context fd (some p) s h e w = w
  found-IsWired skt context fd none s h e w =
      let (answer, k) = sys.ctl_add s.kernel fd (make_event (linux_async_stream skt context)) in
      added-IsWired skt context fd answer (record s { kernel = k }) h e (kernel-IsWired k s none w)

  -- fcntl changes only the state of the system.
  pub set_non_blocking-kernel :
      (fd : ℕ) (s : LinuxAsyncEngine K)
      → (k : K) × ((set_non_blocking sys fd s).1 ≡ record s { kernel = k })
  unfolding set_non_blocking
  set_non_blocking-kernel fd s = flag (sys.get_nonblock s.kernel fd).0
    where
      flag :
          (o : Option Bool)
          → (k : K) × ((set_flag sys fd o
                (record s { kernel = (sys.get_nonblock s.kernel fd).1 })).1
              ≡ record s { kernel = k })
      flag none = (_, refl)
      flag (some true) = (_, refl)
      flag (some false) = (_, refl)

  add_fd-IsWired :
      (skt context : ℕ) (fd : Option ℕ) (s : LinuxAsyncEngine K)
      → (s.sockets skt).handle ≡ fd
      → IsWired s none
      → IsWired (add_fd sys skt context fd s).1 none
  unfolding add_fd
  add_fd-IsWired skt context none s h w = w
  add_fd-IsWired skt context (some fd) s h w =
      let (worked, t) = set_non_blocking sys fd s in
      let (k, e) = set_non_blocking-kernel fd s in
      let v : IsWired t none = subst (λ t. IsWired t none) (sym e) (kernel-IsWired k s none w) in
      if-IsWired_result worked (add_found sys skt context fd (lookup fd t.entries) t) (none, t) none
        (found-IsWired skt context fd (lookup fd t.entries) t
          (ap (λ t. (t.sockets skt).handle) e ∙ h) refl v)
        v

  pub add-IsWired :
      (skt : Option ℕ) (context : ℕ) (s : LinuxAsyncEngine K)
      → IsWired s none
      → IsWired (add sys skt context s).1 none
  unfolding add
  add-IsWired none context s w = w
  add-IsWired (some skt) context s w =
      if-IsWired_result (is_valid s) (add_fd sys skt context (s.sockets skt).handle s) (none, s)
        none (add_fd-IsWired skt context (s.sockets skt).handle s refl w) w

  entry_of-lookup :
      (p fd : ℕ) (s : LinuxAsyncEngine K)
      → IsUnique s.entries
      → entry_of sys p s ≡ some fd
      → lookup fd s.entries ≡ some p
  unfolding entry_of
  entry_of-lookup p fd s u e = registered (handle p s) e
    where
      item : (o : Option ℕ) → is_item p o ≡ true → o ≡ some p
      item none e = cc
      item (some q) e = ground arith

      registered :
          (h : Option ℕ)
          → (if is_item p (find_handle h s.entries) then h else find_item p s.entries) ≡ some fd
          → lookup fd s.entries ≡ some p
      registered none e = lookup-find_item p fd s.entries u e
      registered (some k) e =
          ground (arith, item (lookup k s.entries), lookup-find_item p fd s.entries u)

  remove_entry-IsWired :
      (p : ℕ) (o : Option ℕ) (s : LinuxAsyncEngine K)
      → ((fd : ℕ) → o ≡ some fd → lookup fd s.entries ≡ some p)
      → IsWired s none
      → IsWired (remove_entry sys p o s).1 none
  unfolding remove_entry
  remove_entry-IsWired p none s h w = w
  remove_entry-IsWired p (some fd) s h w = record {
    unique = erase-IsUnique fd s.entries w.unique;
    unmade = λ q k. ground (arith, w.unmade q k);
    owned = λ q fd' r k. ground (arith, w.owned q fd', lookup-erase_ne fd' fd s.entries, h fd refl);
    armed = λ q fd' n r k. ground (arith, w.armed q fd' n);
  }

  pub remove-IsWired :
      (p : ℕ) (s : LinuxAsyncEngine K) → IsWired s none → IsWired (remove sys p s).1 none
  unfolding remove
  remove-IsWired p s w =
      remove_entry-IsWired p (entry_of sys p s) s (λ fd. entry_of-lookup p fd s w.unique) w

  rebind_handles-IsWired :
      (p skt : ℕ) (old new : Option ℕ) (s : LinuxAsyncEngine K)
      → handle p s ≡ old
      → (s.sockets skt).handle ≡ new
      → IsWired s none
      → IsWired (rebind_handles p skt old new s).1 none
  unfolding rebind_handles
  rebind_handles-IsWired p skt none new s a b w = w
  rebind_handles-IsWired p skt (some old) none s a b w = w
  rebind_handles-IsWired p skt (some old) (some new) s a b w =
      if-IsWired_result ((s.streams p).skt == skt) (true, s)
        (if old == new
          then (if is_item p (lookup old s.entries) then (true, rebound) else (false, s))
          else (false, s))
        none w (choose (old == new) refl)
    where
      rebound : LinuxAsyncEngine K
      rebound = put p (record (s.streams p) { skt = skt }) s

      wired : old ≡ new → IsWired rebound none
      wired e = record {
        unique = w.unique;
        unmade = λ q k. ground (arith, w.unmade q k);
        owned = λ q fd r k. ground (arith, w.owned q fd);
        armed = λ q fd n r k. ground (arith, w.armed q fd n);
      }

      chosen : Bool → Bool × LinuxAsyncEngine K
      chosen c =
          if c
          then (if is_item p (lookup old s.entries) then (true, rebound) else (false, s))
          else (false, s)

      choose : (c : Bool) → (old == new) ≡ c → IsWired (chosen c).1 none
      choose true e =
          if-IsWired_result (is_item p (lookup old s.entries)) (true, rebound) (false, s) none
            (wired (ground arith)) w
      choose false e = w

  pub rebind_socket-IsWired :
      (p : ℕ) (skt : Option ℕ) (s : LinuxAsyncEngine K)
      → IsWired s none
      → IsWired (rebind_socket p skt s).1 none
  unfolding rebind_socket
  rebind_socket-IsWired p none s w = w
  rebind_socket-IsWired p (some skt) s w =
      rebind_handles-IsWired p skt (handle p s) (s.sockets skt).handle s refl refl w
