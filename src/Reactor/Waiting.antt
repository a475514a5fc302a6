-- ===== src/Reactor/Waiting.antt =====
-- reactor/mod.rs: `wait`, its buffer, and what it reports.
use coreshift_lowlevel.Prelude.{ℕ, ◌≤◌, ◌≡◌, ◌≢◌, ◌⊎◌, List, [], ◌∷◌, pos, true, length}
use coreshift_lowlevel.Os.{Answer, IsFailure, EpollEvent}
use coreshift_lowlevel.Error.{Result, ok, err, syscall}
use coreshift_lowlevel.Fd.{eintr}
use coreshift_lowlevel.Reactor.{Reactor, Event, EventsBuf}

-- The events stored lie within the room of the vector, as `set_len` demands.
abbrev pub IsRoomy : EventsBuf → Type 0
IsRoomy buf = length buf.items ≤ buf.capacity

-- A descriptor in error is reported ready in both directions.
abbrev pub ErrorsAreReady : List Event → Type 0
ErrorsAreReady [] = Unit
ErrorsAreReady (ev ∷ evs) =
    (ev.error ≡ true → (ev.readable ≡ true) × (ev.writable ≡ true)) × ErrorsAreReady evs

-- The tokens of the events, as the kernel gave them.
abbrev pub tokens : List Event → List ℕ
tokens [] = []
tokens (ev ∷ evs) = ev.token.val ∷ tokens evs

abbrev pub user_data : List EpollEvent → List ℕ
user_data [] = []
user_data (ev ∷ evs) = ev.u64 ∷ user_data evs

-- What `wait` gives back after a call that ended with this answer.
abbrev pub Gives : ℕ → Answer → Result ℕ → List Event → Type 0
Gives max_events a (ok n) evs =
    (length evs ≡ n)
    × (n ≤ max_events)
    × (((a.ret ≡ pos n) × (tokens evs ≡ user_data a.ready))
        ⊎ (IsFailure a.ret × (a.errno ≡ eintr) × (n ≡ 0)))
Gives max_events a (err e) evs =
    IsFailure a.ret × (a.errno ≢ eintr) × (e ≡ syscall (pos a.errno) "epoll_wait") × (evs ≡ [])

pub record Waited (reactor : Reactor) (max_events : ℕ) (out : Reactor × List Event × Result ℕ)
    (a : Answer) : Type 0 where
  pub roomy : IsRoomy out.0.events_buf
  pub ready : ErrorsAreReady out.1
  pub gives : Gives max_events a out.2 out.1
  pub same_epfd : out.0.epfd ≡ reactor.epfd
  pub same_counter : out.0.next_token ≡ reactor.next_token
