-- ===== src/Spawn/WaitLoop/Still.antt =====
-- spawn/mod.rs: the calls of the parts of `wait_loop` that move no input and close nothing.
use coreshift_lowlevel.Prelude.{
  ℕ, ℤ, List, true, Option, none, some, ◌-◌, min, take, drop, ltb, length,
}
use coreshift_lowlevel.Os.{
  Call, elapsed, kill, read, write, close, closedir, pipe2, open_fd_dir, epoll_create1,
  inotify_init1, signalfd, posix_spawn, epoll_ctl_del, epoll_wait, waitpid, pure, loop,
}
use coreshift_lowlevel.Os.Steps.{
  Steps, Strides, Turns, Steps-pure, Steps-perform, Steps-last_os_error, Steps-retrying, Steps-bind,
  Steps-option, Strides-perform, Strides-retrying, Strides-bind, Turns-Strides, Turns-leave,
  Steps-loop, Turns-if,
}
use coreshift_lowlevel.Error.{ok}
use coreshift_lowlevel.Fd.{Fd, raw, write_raw, write_slice, io_round}
use coreshift_lowlevel.Reactor
use coreshift_lowlevel.Reactor.{Reactor, Event, as_i32, close_epfd, drop_old, drop_reactor}
use coreshift_lowlevel.Io.Writer.{WriterState, write_round, write_to_fd, write_chunk, written}
use coreshift_lowlevel.Spawn.Process.{
  Process, ExitStatus, StatusMacros, wait_step, wait_blocking, step_round, blocking_round, wnohang,
}
use coreshift_lowlevel.Spawn.WaitLoop.{Watch, poll_status, final_status, max_events}

-- Every call but `read`, `kill`, the clock, and those that open or close a descriptor.
abbrev pub IsStill : Call → Type 0
IsStill (kill pid sig) = ⊥
IsStill (read fd count) = ⊥
IsStill elapsed = ⊥
IsStill (posix_spawn exe argv envp) = ⊥
IsStill (close fd) = ⊥
IsStill (closedir fd) = ⊥
IsStill (pipe2 flags) = ⊥
IsStill open_fd_dir = ⊥
IsStill (epoll_create1 flags) = ⊥
IsStill (inotify_init1 flags) = ⊥
IsStill (signalfd fd mask flags) = ⊥
IsStill _ = Unit

module _ {P : Call → Type 0} (quiet : (c : Call) → IsStill c → P c) where
  pub Still-write_slice : (fd : Fd) (buf : List ℕ) → Strides P (write_slice fd buf)
  unfolding write_slice write_raw
  Still-write_slice fd buf =
      Strides-bind
        (Strides-retrying (write (raw fd) buf) (io_round "write") (quiet (write (raw fd) buf) tt))
        (λ r. Steps-pure)

  pub Still-del : (reactor : Reactor) (fd : Fd) → Steps P (Reactor.del reactor fd)
  unfolding Reactor.del
  Still-del reactor fd =
      Steps-bind
        (Steps-perform (epoll_ctl_del reactor.epfd (raw fd))
          (quiet (epoll_ctl_del reactor.epfd (raw fd)) tt))
        (λ _. Steps-pure)

  pub Still-write_round : (fd : Fd) (buf : List ℕ) (off : ℕ) → Turns P (write_round fd buf off)
  unfolding write_round
  Still-write_round fd buf off =
      Turns-if (ltb off (length buf))
        (Turns-Strides (
          Strides-bind
            (Still-write_slice fd (take (min (length buf - off) write_chunk) (drop off buf)))
            (λ r. Steps-pure {a = written buf off r})))
        (Turns-leave {a = (record { buf = none; off = off }, ok true)})

  pub Still-write_to_fd : (w : WriterState) (fd : Fd) → Steps P (write_to_fd w fd)
  unfolding write_to_fd
  Still-write_to_fd w fd =
      Steps-option w.buf {f = λ buf. loop (write_round fd buf) w.off} {m = pure (w, ok true)}
        (λ buf. Steps-loop w.off (Still-write_round fd buf)) Steps-pure

  pub Still-wait :
      (reactor : Reactor) (timeout : ℤ) → Strides P (Reactor.wait reactor max_events timeout)
  unfolding Reactor.wait
  Still-wait reactor timeout =
      Strides-bind
        (Strides-perform (epoll_wait reactor.epfd (as_i32 max_events) timeout)
          (quiet (epoll_wait reactor.epfd (as_i32 max_events) timeout) tt))
        (λ a. Steps-bind Steps-last_os_error (λ e. Steps-pure))

  pub Still-wait_step : (libc : StatusMacros) (p : Process) → Steps P (wait_step libc p)
  unfolding wait_step
  Still-wait_step libc p =
      Steps-retrying (waitpid p.pid wnohang) (step_round libc) (quiet (waitpid p.pid wnohang) tt)

  pub Still-wait_blocking : (libc : StatusMacros) (p : Process) → Steps P (wait_blocking libc p)
  unfolding wait_blocking
  Still-wait_blocking libc p =
      Steps-retrying (waitpid p.pid 0) (blocking_round libc) (quiet (waitpid p.pid 0) tt)

  pub Still-poll_status :
      (libc : StatusMacros) (w : Watch) (status_raw : Option ExitStatus)
      → Steps P (poll_status libc w status_raw)
  unfolding poll_status
  Still-poll_status libc w none = Still-wait_step libc w.process
  Still-poll_status libc w (some status) = Steps-pure

  pub Still-final_status :
      (libc : StatusMacros) (w : Watch) (status_raw : Option ExitStatus)
      → Steps P (final_status libc w status_raw)
  unfolding final_status
  Still-final_status libc w none = Still-wait_blocking libc w.process
  Still-final_status libc w (some status) = Steps-pure
