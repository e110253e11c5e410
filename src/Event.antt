-- ===== src/Event.antt =====
-- lib/source/Event/Event.cpp and Event/API.cpp: events, and the handles that share one.
-- An `Event` object of the source is a handle (a number) with its Closing flag; the handles made
-- by Duplicate share an EventState. The lock makes each operation one step. The intrusive list of
-- waits is the list of its nodes, and calls of `Complete` and of the condition variable are output.
pub mod Tokens
pub mod Starvation
pub mod Broadcast
pub mod WaitContext
mod Tests
use syncme.Prelude.{
  ℕ, zero, suc, ◌+◌, ◌%◌, ◌^◌, ◌≡◌, Bool, true, false, not, ◌&&◌, ◌||◌, Option, none, some, List,
  [], ◌∷◌, ◌++◌, ltb, leb, ◌==◌, if◌then◌else◌, map,
}

-- EventWaitNode: which one it is, its Owner and its Cookie.
pub record EventWaitNode : Type 0 where
  pub id : ℕ
  pub owner : ℕ
  pub cookie : ℕ

-- EventState, with the handles on it that are closing and the counters that make handles and
-- cookies.
pub record EventState : Type 0 where
  pub notification : Bool
  pub signalled : Bool
  pub waits : List EventWaitNode
  pub closing : List ℕ
  pub next_handle : ℕ
  pub next_cookie : ℕ

-- One call of `Complete`: the node's, with its two arguments.
pub record Completion : Type 0 where
  pub node : ℕ
  pub cookie : ℕ
  pub failed : Bool

-- notify_one and notify_all of the condition variable.
pub data Wakeup : Type 0 where
  nobody one everybody : Wakeup

pub record Output : Type 0 where
  pub completions : List Completion
  pub wakeup : Wakeup

abbrev pub silent : Output
silent = record { completions = []; wakeup = nobody }

-- The constructor: the event and its first handle, number 0.
pub event : Bool → Bool → EventState
event notification signalled = record {
  notification = notification;
  signalled = signalled;
  waits = [];
  closing = [];
  next_handle = 1;
  next_cookie = 1;
}

abbrev pub contains : List ℕ → ℕ → Bool
contains [] h = false
contains (x ∷ xs) h = (x == h) || contains xs h

-- GetClosing
unfoldable pub get_closing : EventState → ℕ → Bool
get_closing s h = contains s.closing h

-- Duplicate: a new handle on the same event, unless this one is closing.
unfoldable pub duplicate : EventState → ℕ → Option ℕ × EventState
unfolding get_closing
duplicate s h =
    if get_closing s h
    then (none, s)
    else (some s.next_handle, record s { next_handle = s.next_handle + 1 })

abbrev pub complete : Bool → EventWaitNode → Completion
complete failed n = record { node = n.id; cookie = n.cookie; failed = failed }

-- The loop of OnCloseHandle: the nodes of the handle, and those of the others.
abbrev pub owned_by : ℕ → List EventWaitNode → List EventWaitNode
owned_by h [] = []
owned_by h (n ∷ ns) = if n.owner == h then n ∷ owned_by h ns else owned_by h ns

abbrev pub not_owned_by : ℕ → List EventWaitNode → List EventWaitNode
not_owned_by h [] = []
not_owned_by h (n ∷ ns) = if n.owner == h then not_owned_by h ns else n ∷ not_owned_by h ns

unfoldable pub on_close_handle : EventState → ℕ → Output × EventState
unfolding get_closing
on_close_handle s h = if get_closing s h then (silent, s) else (
  record { completions = map (complete true) (owned_by h s.waits); wakeup = everybody },
  record s { closing = h ∷ s.closing; waits = not_owned_by h s.waits },
)

set_synchronization : EventState → List EventWaitNode → Output × EventState
set_synchronization s [] =
    (record { completions = []; wakeup = one }, record s { signalled = true })
set_synchronization s (n ∷ ns) = (
  record { completions = complete false n ∷ []; wakeup = nobody },
  record s { signalled = false },
)

unfoldable pub set_event : EventState → Output × EventState
unfolding set_synchronization
set_event s =
    if s.notification
    then (
      record { completions = map (complete false) s.waits; wakeup = everybody },
      record s { signalled = true },
    )
    else set_synchronization s s.waits

unfoldable pub reset_event : EventState → EventState
reset_event s = record s { signalled = false }

unfoldable pub is_signalled : EventState → ℕ → Bool
unfolding get_closing
is_signalled s h = get_closing s h || s.signalled

-- Wait, from the moment when its condition holds or its time is over to its return: a wait that
-- does not block and a `wait_for` that ends return what the condition is then.
unfoldable pub wait_return : EventState → ℕ → Bool × EventState
unfolding is_signalled
wait_return s h =
    let f : Bool = is_signalled s h in
    if f && (not (get_closing s h) && (s.signalled && not s.notification))
    then (f, record s { signalled = false })
    else (f, s)

pub data WaitResult : Type 0 where
  object : ℕ → WaitResult
  timeout failed : WaitResult

-- WaitForSingleObject at that moment
unfoldable pub wait_for_single_object : EventState → ℕ → WaitResult × EventState
unfolding wait_return
wait_for_single_object s h =
    let (f, s') = wait_return s h in
    (if get_closing s' h then failed else if f then object 0 else timeout, s')

-- RegisterWait of a node that is in no list.
unfoldable pub register_wait : EventState → ℕ → ℕ → Output × EventState
unfolding get_closing
register_wait s h node =
    let n : EventWaitNode = record { id = node; owner = h; cookie = s.next_cookie } in
    let s' : EventState = record s { next_cookie = (s.next_cookie + 1) % 2 ^ 32 } in
    if get_closing s h
    then (record { completions = complete true n ∷ []; wakeup = nobody }, s')
    else if s.signalled
    then (
      record { completions = complete false n ∷ []; wakeup = nobody },
      record s' { waits = s.waits ++ n ∷ []; signalled = s.notification },
    )
    else (silent, record s' { waits = s.waits ++ n ∷ [] })

-- UnregisterWait: a node is found by its Owner, and leaves the list.
pub is_registered : ℕ → ℕ → List EventWaitNode → Bool
is_registered h node [] = false
is_registered h node (n ∷ ns) = (n.id == node && n.owner == h) || is_registered h node ns

pub unlink : ℕ → ℕ → List EventWaitNode → List EventWaitNode
unlink h node [] = []
unlink h node (n ∷ ns) = if n.id == node && n.owner == h then ns else n ∷ unlink h node ns

unfoldable pub unregister_wait : EventState → ℕ → ℕ → Bool × EventState
unfolding is_registered unlink
unregister_wait s h node =
    if is_registered h node s.waits
    then (true, record s { waits = unlink h node s.waits })
    else (false, s)
