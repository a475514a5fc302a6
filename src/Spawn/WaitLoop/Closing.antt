-- ===== src/Spawn/WaitLoop/Closing.antt =====
-- spawn/mod.rs: the descriptors while the events of a round are handed out.
pub mod Looping
use coreshift_lowlevel.Prelude.{
  ℕ, ◌+◌, ◌≡◌, refl, sym, ap, List, [], ◌∷◌, ◌++◌, ℤ, Bool, true, false, Option, none, some, arith,
  ◌==◌, take, if◌then◌else◌,
}
use coreshift_lowlevel.Os.{
  Call, Io, pure, ◌>>=◌, ◌>>◌, perform, epoll_wait, read, kill, elapsed, posix_spawn, Round,
  continue, break, loop, last_os_error,
}
use coreshift_lowlevel.Os.Steps.{Steps, Steps-perform, Steps-last_os_error, Strides-perform}
use coreshift_lowlevel.Os.Balance.{
  IsNeutral, is_fd, held_ok, Balanced, Balanced-bind, Balanced-then, Balanced-from, Balanced-done,
  Balanced-match, Balanced-option, Balanced-if, Balanced-Steps,
}
use coreshift_lowlevel.Os.Balance.Loops.{
  held_round, BalancedRound, Balanced-loop, Round-leave, Round-pure, Round-after, Round-called,
}
use coreshift_lowlevel.Error.{Result, ok, err}
use coreshift_lowlevel.Reactor
use coreshift_lowlevel.Reactor.{Reactor, Event, as_i32, ensure_room, waited}
use coreshift_lowlevel.Reactor.Closing.{
  held_reactor, held_waited, Neutral-del, Balanced-drop_reactor,
}
use coreshift_lowlevel.Io.Drain.{
  DrainState, FdSlot, take_all_slots, push_slot, is_done, stdout_matches, stderr_matches,
  stdin_matches, drop_stdout, drop_stderr, drop_stdin, handle_stdout_ready, handle_stderr_ready,
  handle_stdin_writable,
}
use coreshift_lowlevel.Io.Drain.Closing.{
  held_slot, held_drain, Balanced-drop_slot, Balanced-drop_stdout, Balanced-drop_stderr,
  Balanced-drop_stdin,
}
use coreshift_lowlevel.Fd.Closing.{Balanced-drop_fd}
use coreshift_lowlevel.System.Exec.{CancelPolicy, ProcessGroup}
use coreshift_lowlevel.Spawn.Process
use coreshift_lowlevel.Spawn.Process.{ExitStatus, StatusMacros}
use coreshift_lowlevel.Spawn.WaitLoop.{
  WaitState, Watch, Leaving, Output, KillState, quietly, handle_event, handle_events, del_slots,
  finish, pump, wait_round, wait_timeout, max_events, close_up, wait_loop, final_status,
  poll_status, check_deadline,
}
use coreshift_lowlevel.Spawn.WaitLoop.Still.{
  IsStill, Still-write_to_fd, Still-wait_step, Still-poll_status, Still-final_status,
}
use coreshift_lowlevel.Spawn.WaitLoop.Frames.{Steps-read_from_fd}
use coreshift_lowlevel.Spawn.WaitLoop.Keeping.{Steps-check_deadline}

pub still : (c : Call) → IsStill c → IsNeutral c
still (kill pid sig) h = absurd h
still (read fd count) h = absurd h
still elapsed h = absurd h
still (posix_spawn exe argv envp) h = absurd h
still _ h = h

module _ {x : ℕ} where
  Balanced-quietly :
      {n : ℕ} {m : Io DrainState} {held : DrainState → ℕ}
      → Balanced x n m held
      → Balanced x n (quietly m) (λ p. held p.0)
  Balanced-quietly p = Balanced-bind p (λ d. Balanced-done refl)

  -- What follows a transfer.
  served :
      (d : DrainState) (r : Result Bool) (k : ℕ) {drop_it : Io DrainState}
      → Balanced x (held_drain x d + k) drop_it (λ d'. held_drain x d' + k)
      → Balanced {A = DrainState × Result (Unit {0})} x
          (held_drain x d + k)
          (elim r [
            | err e ↦ pure (d, err e)
            | ok eof ↦ if eof then (drop_it >>= λ d'. pure (d', ok tt)) else pure (d, ok tt)
          ])
          (λ p. held_drain x p.0 + k)
  served d (err e) k p = Balanced-done refl
  served d (ok true) k p = Balanced-bind p (λ d'. Balanced-done refl)
  served d (ok false) k p = Balanced-done refl

  stdout_ready_balances :
      (d : DrainState) (reactor : Reactor) (k : ℕ)
      → Balanced x (held_drain x d + k) (handle_stdout_ready d reactor) (λ p. held_drain x p.0 + k)
  unfolding handle_stdout_ready
  stdout_ready_balances d reactor k =
      Balanced-option d.stdout_slot
        (λ slot.
          Balanced-bind
            (Balanced-Steps (held_drain x d + k)
              (Steps-read_from_fd (λ _ _. tt) d.buffer slot.fd true d.early_exit))
            (λ p.
              served (record d { buffer = p.0 }) p.1 k
                (Balanced-drop_stdout (record d { buffer = p.0 }) reactor k)))
        (Balanced-done refl)

  stderr_ready_balances :
      (d : DrainState) (reactor : Reactor) (k : ℕ)
      → Balanced x (held_drain x d + k) (handle_stderr_ready d reactor) (λ p. held_drain x p.0 + k)
  unfolding handle_stderr_ready
  stderr_ready_balances d reactor k =
      Balanced-option d.stderr_slot
        (λ slot.
          Balanced-bind
            (Balanced-Steps (held_drain x d + k)
              (Steps-read_from_fd (λ _ _. tt) d.buffer slot.fd false d.early_exit))
            (λ p.
              served (record d { buffer = p.0 }) p.1 k
                (Balanced-drop_stderr (record d { buffer = p.0 }) reactor k)))
        (Balanced-done refl)

  stdin_writable_balances :
      (d : DrainState) (reactor : Reactor) (k : ℕ)
      → Balanced x
          (held_drain x d + k)
          (handle_stdin_writable d reactor)
          (λ p. held_drain x p.0 + k)
  unfolding handle_stdin_writable
  stdin_writable_balances d reactor k =
      Balanced-option d.stdin_slot
        (λ slot.
          Balanced-bind
            (Balanced-Steps (held_drain x d + k) (Still-write_to_fd still d.writer slot.fd))
            (λ p.
              served (record d { writer = p.0 }) p.1 k
                (Balanced-drop_stdin (record d { writer = p.0 }) reactor k)))
        (Balanced-done refl)

  handle_event_balances :
      (reactor : Reactor) (d : DrainState) (ev : Event) (k : ℕ)
      → Balanced x (held_drain x d + k) (handle_event reactor d ev) (λ p. held_drain x p.0 + k)
  unfolding handle_event
  handle_event_balances reactor d ev k =
      Balanced-if (stdout_matches d ev.token)
        (Balanced-if ev.readable (stdout_ready_balances d reactor k)
          (Balanced-if ev.error (Balanced-quietly (Balanced-drop_stdout d reactor k)) idle))
        (Balanced-if (stderr_matches d ev.token)
          (Balanced-if ev.readable (stderr_ready_balances d reactor k)
            (Balanced-if ev.error (Balanced-quietly (Balanced-drop_stderr d reactor k)) idle))
          (Balanced-if (stdin_matches d ev.token)
            (Balanced-if ev.writable (stdin_writable_balances d reactor k)
              (Balanced-if ev.error (Balanced-quietly (Balanced-drop_stdin d reactor k)) idle))
            idle))
    where
      idle :
          Balanced {A = DrainState × Result (Unit {0})} x
            (held_drain x d + k)
            (pure (d, ok tt))
            (λ p. held_drain x p.0 + k)
      idle = Balanced-done refl

  pub handle_events_balance :
      (reactor : Reactor) (d : DrainState) (evs : List Event) (k : ℕ)
      → Balanced x (held_drain x d + k) (handle_events reactor d evs) (λ p. held_drain x p.0 + k)
  unfolding handle_events
  handle_events_balance reactor d [] k = Balanced-done refl
  handle_events_balance reactor d (ev ∷ evs) k =
      Balanced-bind (handle_event_balances reactor d ev k) (λ p.
        Balanced-match (λ _. held_drain x p.0 + k) p.1
          (λ _. handle_events_balance reactor p.0 evs k) (λ e. Balanced-done refl))
