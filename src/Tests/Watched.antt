-- ===== src/Tests/Watched.antt =====
-- Examples of the theorems on the process that is watched.
use coreshift_lowlevel.Prelude.{
  arith, ℕ, ◌*◌, ◌≡◌, refl, List, [], ◌∷◌, pos, negsuc, true, false, none, some, ◌==◌,
}
use coreshift_lowlevel.Os.{
  waitpid, Outcome, returned, waiting, ended, out_of_fuel, Happened, Call, Answer, Post, elapsed,
}
use coreshift_lowlevel.Reactor.{Reactor}
use coreshift_lowlevel.Io.Drain.{is_done, DrainState}
use coreshift_lowlevel.Fd.{Decided, Hangs}
use coreshift_lowlevel.Spawn.Process.Waiting.{
  StepTells, BlockingTells, wait_step_retries, wait_blocking_retries,
}
use coreshift_lowlevel.Spawn.WaitLoop.Enforcement.{Enforced, check_deadline_enforces}
use coreshift_lowlevel.Io.Drain.{register_with_reactor}
use coreshift_lowlevel.Io.Drain.Tokens.{Registered, register_with_reactor-Distinct}
use coreshift_lowlevel.System.Exec.{CancelPolicy, ProcessGroup}
use coreshift_lowlevel.Spawn.Process.{StatusMacros, wnohang, wait_step, wait_blocking}
use coreshift_lowlevel.Spawn.WaitLoop.{Watch, KillState, check_deadline, wait_loop}
use coreshift_lowlevel.Spawn.WaitLoop.Signals.{signals}
use coreshift_lowlevel.Spawn.WaitLoop.Deadline.{Stays}
use coreshift_lowlevel.Spawn.WaitLoop.Escalation.{watching, Promised, wait_loop_escalates}
use coreshift_lowlevel.Spawn.WaitLoop.Unattended.{looks, wait_loop_unattended}
use coreshift_lowlevel.Prelude.{suc, ◌≤◌}
use coreshift_lowlevel.Tests.Kernel.{busy, plain, nothing, world}

-- The macros of Linux.
abbrev pub libc : StatusMacros
libc = record {
  wifexited = λ n. elim n [ pos k ↦ k == 0 | negsuc k ↦ false ];
  wexitstatus = λ n. pos 0;
  wifsignaled = λ n. true;
  wtermsig = λ n. n;
}

abbrev pub drain : DrainState
drain = record {
  stdout_slot = some (record { token = some (record { val = 1 }); fd = record { raw_fd = pos 5 } });
  stderr_slot = none;
  stdin_slot = none;
  buffer = record { stdout = []; stderr = []; limit = 10 };
  writer = record { buf = none; off = 0 };
  early_exit = none;
}

abbrev pub reactor : Reactor
reactor = record {
  epfd = pos 3;
  next_token = 2;
  events_buf = record { items = []; capacity = 0 };
  signal_fd = none;
  sigchld_token = none;
  inotify_token = none;
}

abbrev pub group : ProcessGroup
group = record { leader = none; isolated = false }

abbrev watch : Watch
watch = watching (pos 42) (some 100) 200 CancelPolicy.graceful group

-- The clock shows this many milliseconds, and nothing else happens.
abbrev at_ms : ℕ → Call → Answer
at_ms n elapsed = record (plain (pos 0) 0) { nanos = n * 1000000 }
at_ms n c = nothing c

-- The process runs on: past the deadline it is asked to end, and later made to.
abbrev stubborn : List (Call → Answer)
stubborn =
    nothing
    ∷ at_ms 50
    ∷ nothing
    ∷ nothing
    ∷ at_ms 150
    ∷ nothing
    ∷ nothing
    ∷ nothing
    ∷ at_ms 400
    ∷ nothing
    ∷ nothing
    ∷ nothing
    ∷ []

wait_loop_escalates_example :
    Post
      (Promised libc (watching (pos 42) (some 100) 200 CancelPolicy.graceful group) [])
      (Stays (watching (pos 42) (some 100) 200 CancelPolicy.graceful group) (signals []))
      (wait_loop libc
        (pos 42)
        drain
        reactor
        (some 100)
        200
        CancelPolicy.graceful
        group
        (world stubborn))
wait_loop_escalates_example =
    wait_loop_escalates libc (pos 42) drain reactor (some 100) 200 CancelPolicy.graceful group
      (world stubborn)

-- The signals of that run, with the nanoseconds that the clock had shown.
abbrev log_of : {A : Type 0} → Outcome A → List Happened
log_of (returned a s) = s.log
log_of (waiting s) = s.log
log_of (ended s) = s.log
log_of out_of_fuel = []

stubborn_log :
    signals (
      log_of (
        wait_loop libc
          (pos 42)
          drain
          reactor
          (some 100)
          200
          CancelPolicy.graceful
          group
          (world stubborn)))
    ≡ record { target = pos 42; number = 15; nanos = 150000000 }
      ∷ record { target = pos 42; number = 9; nanos = 400000000 }
      ∷ []
unfolding signals wait_loop
stubborn_log = refl

check_deadline_enforces_example :
    Post
      (Enforced watch 100 KillState.none false (world stubborn))
      (λ _. Unit)
      (check_deadline watch KillState.none false (world stubborn))
check_deadline_enforces_example =
    check_deadline_enforces watch 100 KillState.none false (world stubborn) refl

wait_step_retries_example :
    Post
      (Decided (waitpid (pos 42) wnohang) (StepTells libc) (world busy))
      (Hangs (waitpid (pos 42) wnohang) (world busy))
      (wait_step libc (record { pid = pos 42 }) (world busy))
wait_step_retries_example = wait_step_retries libc (record { pid = pos 42 }) (world busy)

wait_blocking_retries_example :
    Post
      (Decided (waitpid (pos 42) 0) (BlockingTells libc) (world busy))
      (Hangs (waitpid (pos 42) 0) (world busy))
      (wait_blocking libc (record { pid = pos 42 }) (world busy))
wait_blocking_retries_example = wait_blocking_retries libc (record { pid = pos 42 }) (world busy)

register_with_reactor-Distinct_example :
    Post
      (λ out _. Registered out.0 out.2)
      (λ _. Unit)
      (register_with_reactor drain reactor (world stubborn))
register_with_reactor-Distinct_example =
    register_with_reactor-Distinct drain reactor (world stubborn) (omega arith)

-- A process of which nothing is captured.
abbrev closed : DrainState
closed = record drain { stdout_slot = none }

wait_loop_unattended_example :
    Post
      (λ r s'. looks s'.log ≤ suc (looks []))
      (λ s'. looks s'.log ≤ suc (looks []))
      (wait_loop libc
        (pos 42)
        closed
        reactor
        (some 100)
        200
        CancelPolicy.kill
        group
        (world stubborn))
unfolding is_done
wait_loop_unattended_example =
    wait_loop_unattended libc (pos 42) closed reactor (some 100) 200 CancelPolicy.kill group
      (world stubborn) refl
