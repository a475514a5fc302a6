-- ===== src/Spawn/WaitLoop/Plain.antt =====
-- spawn/mod.rs: the calls of the parts of `wait_loop` that neither read nor signal.
use coreshift_lowlevel.Prelude.{
  ℤ, pos, negsuc, List, [], ◌∷◌, Bool, true, false, Option, none, some, if◌then◌else◌,
}
use coreshift_lowlevel.Os.{Io, Call, posix_spawn, elapsed, kill, read, close, pure, ◌>>=◌, ◌>>◌}
use coreshift_lowlevel.Os.Steps.{
  Steps, Strides, Steps-pure, Steps-perform, Steps-bind, Steps-result, Steps-option, Steps-int,
}
use coreshift_lowlevel.Error.{Result, ok, err}
use coreshift_lowlevel.Fd.{Fd, drop_fd}
use coreshift_lowlevel.Reactor
use coreshift_lowlevel.Reactor.{Reactor, Event, as_i32, close_epfd, drop_old, drop_reactor}
use coreshift_lowlevel.Io.Writer.{WriterState, write_to_fd}
use coreshift_lowlevel.Io.Drain.{
  take_all_slots, DrainState, FdSlot, drop_slot, remove_slot, drop_stdout, drop_stderr, drop_stdin,
  handle_stdin_writable,
}
use coreshift_lowlevel.Spawn.Process.{Process, ExitStatus, StatusMacros, wait_step}
use coreshift_lowlevel.Spawn.WaitLoop.{
  finish, WaitState, del_slots, quietly, Watch, Leaving, poll_status, final_status, max_events,
}
use coreshift_lowlevel.Spawn.WaitLoop.Still.{
  IsStill, Still-write_to_fd, Still-del, Still-wait, Still-wait_step, Still-poll_status,
  Still-final_status,
}

-- Every call but `read`, `kill`, the clock and `posix_spawn`.
abbrev pub IsPlain : Call → Type 0
IsPlain (kill pid sig) = ⊥
IsPlain (read fd count) = ⊥
IsPlain elapsed = ⊥
IsPlain (posix_spawn exe argv envp) = ⊥
IsPlain _ = Unit

Still-Plain : (c : Call) → IsStill c → IsPlain c
Still-Plain (kill pid sig) h = absurd h
Still-Plain (read fd count) h = absurd h
Still-Plain elapsed h = absurd h
Still-Plain (posix_spawn exe argv envp) h = absurd h
Still-Plain _ h = tt

module _ {P : Call → Type 0} (plain : (c : Call) → IsPlain c → P c) where
  pub Plain-del : (reactor : Reactor) (fd : Fd) → Steps P (Reactor.del reactor fd)
  Plain-del reactor fd = Still-del (λ c h. plain c (Still-Plain c h)) reactor fd

  pub Plain-write_to_fd : (w : WriterState) (fd : Fd) → Steps P (write_to_fd w fd)
  Plain-write_to_fd w fd = Still-write_to_fd (λ c h. plain c (Still-Plain c h)) w fd

  pub Plain-wait :
      (reactor : Reactor) (timeout : ℤ) → Strides P (Reactor.wait reactor max_events timeout)
  Plain-wait reactor timeout = Still-wait (λ c h. plain c (Still-Plain c h)) reactor timeout

  pub Plain-wait_step : (libc : StatusMacros) (p : Process) → Steps P (wait_step libc p)
  Plain-wait_step libc p = Still-wait_step (λ c h. plain c (Still-Plain c h)) libc p

  pub Plain-poll_status :
      (libc : StatusMacros) (w : Watch) (status_raw : Option ExitStatus)
      → Steps P (poll_status libc w status_raw)
  Plain-poll_status libc w status_raw =
      Still-poll_status (λ c h. plain c (Still-Plain c h)) libc w status_raw

  pub Plain-final_status :
      (libc : StatusMacros) (w : Watch) (status_raw : Option ExitStatus)
      → Steps P (final_status libc w status_raw)
  Plain-final_status libc w status_raw =
      Still-final_status (λ c h. plain c (Still-Plain c h)) libc w status_raw

  pub Plain-drop_fd : (fd : Fd) → Steps P (drop_fd fd)
  unfolding drop_fd
  Plain-drop_fd fd =
      Steps-int fd.raw_fd
        (λ n.
          Steps-bind (Steps-perform (close fd.raw_fd) (plain (close fd.raw_fd) tt))
            (λ _. Steps-pure))
        (λ n. Steps-pure)

  pub Plain-drop_slot : (slot : Option FdSlot) → Steps P (drop_slot slot)
  Plain-drop_slot none = Steps-pure
  Plain-drop_slot (some slot) = Plain-drop_fd slot.fd

  pub Plain-remove_slot :
      (slot : Option FdSlot) (reactor : Reactor) → Steps P (remove_slot slot reactor)
  unfolding remove_slot
  Plain-remove_slot none reactor = Steps-pure
  Plain-remove_slot (some slot) reactor =
      Steps-bind (Plain-del reactor slot.fd) (λ _. Plain-drop_fd slot.fd)

  pub Plain-drop_stdout : (d : DrainState) (reactor : Reactor) → Steps P (drop_stdout d reactor)
  unfolding drop_stdout
  Plain-drop_stdout d reactor =
      Steps-bind (Plain-remove_slot d.stdout_slot reactor) (λ _. Steps-pure)

  pub Plain-drop_stderr : (d : DrainState) (reactor : Reactor) → Steps P (drop_stderr d reactor)
  unfolding drop_stderr
  Plain-drop_stderr d reactor =
      Steps-bind (Plain-remove_slot d.stderr_slot reactor) (λ _. Steps-pure)

  pub Plain-drop_stdin : (d : DrainState) (reactor : Reactor) → Steps P (drop_stdin d reactor)
  unfolding drop_stdin
  Plain-drop_stdin d reactor = Steps-bind (Plain-remove_slot d.stdin_slot reactor) (λ _. Steps-pure)

  -- What follows a transfer: an error goes on, and a pipe that is at its end is dropped.

  pub ended_or_not :
      (d : DrainState) (r : Result Bool) {drop_it : Io DrainState}
      → Steps P drop_it
      → Steps {A = DrainState × Result (Unit {0})} P (elim r [
        | err e ↦ pure (d, err e)
        | ok eof ↦ if eof then (drop_it >>= λ d'. pure (d', ok tt)) else pure (d, ok tt)
      ])
  ended_or_not d (err e) h = Steps-pure
  ended_or_not d (ok true) h = Steps-bind h (λ d'. Steps-pure)
  ended_or_not d (ok false) h = Steps-pure

  pub Plain-handle_stdin_writable :
      (d : DrainState) (reactor : Reactor) → Steps P (handle_stdin_writable d reactor)
  unfolding handle_stdin_writable
  Plain-handle_stdin_writable d reactor =
      Steps-option d.stdin_slot
        (λ slot. Steps-bind (Plain-write_to_fd d.writer slot.fd) (λ p.
          ended_or_not (record d { writer = p.0 }) p.1
            (Plain-drop_stdin (record d { writer = p.0 }) reactor)))
        Steps-pure

  pub Plain-quietly : {m : Io DrainState} → Steps P m → Steps P (quietly m)
  Plain-quietly h = Steps-bind h (λ d. Steps-pure)

  pub Plain-del_slots :
      (reactor : Reactor) (slots : List FdSlot) → Steps P (del_slots reactor slots)
  unfolding del_slots
  Plain-del_slots reactor [] = Steps-pure
  Plain-del_slots reactor (slot ∷ slots) =
      Steps-bind (Steps-bind (Plain-del reactor slot.fd) (λ _. Plain-drop_fd slot.fd))
        (λ _. Plain-del_slots reactor slots)

  pub Plain-close_epfd : (epfd : ℤ) → Steps P (close_epfd epfd)
  unfolding close_epfd
  Plain-close_epfd (pos n) =
      Steps-bind (Steps-perform (close (pos n)) (plain (close (pos n)) tt)) (λ _. Steps-pure)
  Plain-close_epfd (negsuc n) = Steps-pure

  pub Plain-drop_old : (fd : Option Fd) → Steps P (drop_old fd)
  Plain-drop_old none = Steps-pure
  Plain-drop_old (some fd) = Plain-drop_fd fd

  pub Plain-drop_reactor : (reactor : Reactor) → Steps P (drop_reactor reactor)
  unfolding drop_reactor
  Plain-drop_reactor reactor =
      Steps-bind (Plain-close_epfd reactor.epfd) (λ _. Plain-drop_old reactor.signal_fd)

  pub Plain-pipes :
      (out : Leaving)
      → Steps P (
          drop_reactor out.1
          >> drop_slot out.0.stdout_slot
          >> drop_slot out.0.stderr_slot
          >> drop_slot out.0.stdin_slot)
  Plain-pipes out =
      Steps-bind
        (Steps-bind (Steps-bind (Plain-drop_reactor out.1) (λ _. Plain-drop_slot out.0.stdout_slot))
          (λ _. Plain-drop_slot out.0.stderr_slot))
        (λ _. Plain-drop_slot out.0.stdin_slot)

  pub Plain-finish : (libc : StatusMacros) (w : Watch) (st : WaitState) → Steps P (finish libc w st)
  unfolding finish
  Plain-finish libc w st = Steps-bind (Plain-final_status libc w st.status_raw) (λ r.
      Steps-result r
        (λ status.
          Steps-bind (Plain-del_slots st.reactor (take_all_slots st.drain).1) (λ _. Steps-pure))
        (λ e. Steps-pure))
