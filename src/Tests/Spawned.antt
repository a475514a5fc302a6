-- ===== src/Tests/Spawned.antt =====
-- Examples of the theorems on the start of a process.
use coreshift_lowlevel.Prelude.{
  ℕ, zero, suc, arith, ◌+◌, ◌≡◌, refl, [], ◌∷◌, ℤ, pos, true, false, none, some, replicate,
}
use coreshift_lowlevel.Os.{Sys, Call, fork, epoll_wait, dup2, close_range, Post, Outcome, returned}
use coreshift_lowlevel.Os.Balance.{opened, closed}
use coreshift_lowlevel.Error.{Result, ok}
use coreshift_lowlevel.System.Exec.{CancelPolicy, dynamic}
use coreshift_lowlevel.Spawn.Options.{SpawnOptions, SpawnBackend, auto, linux}
use coreshift_lowlevel.Spawn.WaitLoop.{Output}
use coreshift_lowlevel.Spawn.Start.{spawn, spawn_start}
use coreshift_lowlevel.Spawn.Start.Closing.{held_running, spawn_closes, spawn_start_hands_over}
use coreshift_lowlevel.Spawn.Pipes.{Pipes}
use coreshift_lowlevel.Os.Traces.{Grown}
use coreshift_lowlevel.Spawn.Start.Isolation.{IsElsewhere, spawn_start_isolates}
use coreshift_lowlevel.Spawn.Wiring.{Table}
use coreshift_lowlevel.Spawn.Posix.{posix_with}
use coreshift_lowlevel.Spawn.Posix.Plans.{OnOk, plan_of}
use coreshift_lowlevel.Spawn.Posix.Asking.{IsAsked, posix_with_asks}
use coreshift_lowlevel.Spawn.Fork.{child}
use coreshift_lowlevel.Spawn.Fork.Child.{Grants, IsGranting, Promised, child_lem}
use coreshift_lowlevel.Tests.Kernel.{
  nothing, plain, world, starting, starting-Fits, replicate-IsHonest,
}
use coreshift_lowlevel.Tests.Watched.{libc}

-- A program whose output is captured.
abbrev pub options : SpawnOptions
options = record {
  ctx = record { argv = dynamic ((b'a' ∷ []) ∷ []); envp = none; cwd = none };
  stdin = none;
  capture_stdout = true;
  capture_stderr = false;
  wait = true;
  pgroup = record { leader = none; isolated = false };
  max_output = 10;
  timeout_ms = none;
  kill_grace_ms = 0;
  cancel = CancelPolicy.none;
  backend = auto;
  early_exit = none;
}

abbrev pub started : Sys
started = world (replicate 40 starting)

spawn_start_hands_over_example :
    Post
      (λ r s'. opened 5 s'.log + closed 5 [] ≡ opened 5 [] + closed 5 s'.log + held_running 5 r)
      (λ _. Unit)
      (spawn_start linux options started)
spawn_start_hands_over_example =
    spawn_start_hands_over linux options 5 started (replicate-IsHonest 40 starting starting-Fits)

spawn_closes_example :
    Post
      (λ r s'. opened 6 s'.log + closed 6 [] ≡ opened 6 [] + closed 6 s'.log)
      (λ _. Unit)
      (spawn libc linux options started)
spawn_closes_example =
    spawn_closes libc linux options 6 started (replicate-IsHonest 40 starting starting-Fits)

abbrev pid_of : Outcome (Result Output) → ℤ × ℕ × ℕ
pid_of (returned (ok out) s) = (out.pid, opened 5 s.log, closed 5 s.log)
pid_of _ = (pos 0, 0, 0)

spawned_pid : pid_of (spawn libc linux options started) ≡ (pos 42, 1, 1)
unfolding spawn opened closed
spawned_pid = refl

-- In a session of its own, although `posix_spawn` is preferred.
abbrev isolated : SpawnOptions
isolated = record options {
  pgroup = record { leader = none; isolated = true };
  backend = SpawnBackend.posix_spawn;
}

spawn_start_isolates_example :
    Post
      (λ _ s'. Grown IsElsewhere [] s'.log)
      (λ s'. Grown IsElsewhere [] s'.log)
      (spawn_start linux isolated started)
spawn_start_isolates_example = spawn_start_isolates linux isolated started refl

-- The pipe of the standard output.
abbrev pub stdout_pipe : Pipes
stdout_pipe = record {
  stdin_r = none;
  stdin_w = none;
  stdout_r = some (record { raw_fd = pos 5 });
  stdout_w = some (record { raw_fd = pos 6 });
  stderr_r = none;
  stderr_w = none;
}

-- The parent's table: what is open under a number has this number.
abbrev identity : Table
identity n = some n

posix_with_asks_example :
    Post
      (λ r s'. OnOk (λ _. IsAsked identity stdout_pipe options.pgroup) r (plan_of identity s'.log))
      (λ _. Unit)
      (posix_with stdout_pipe options (b'a' ∷ []) started)
posix_with_asks_example =
    posix_with_asks identity stdout_pipe options (b'a' ∷ []) started
      (refl, refl, refl, refl, refl, refl) (refl, refl, refl, refl, refl, refl)

-- The child of a fork, with a kernel that grants all but the program.
abbrev born : Sys
born = record {
  script = replicate 20 nothing;
  log = record { call = fork; answer = plain (pos 0) 0 } ∷ [];
  errno = 0;
}

nothing-Grants : (c : Call) → Grants c (nothing c)
nothing-Grants (epoll_wait ep room timeout) = tt
nothing-Grants (dup2 fd target) = tt
nothing-Grants (close_range lo hi) = tt
nothing-Grants _ = tt

replicate-IsGranting : (n : ℕ) → IsGranting (replicate n nothing)
replicate-IsGranting zero = tt
replicate-IsGranting (suc n) = (nothing-Grants, replicate-IsGranting n)

child_lem_example :
    Post {A = Unit {0}}
      (λ _ _. ⊥)
      (λ s'. Promised identity stdout_pipe options (b'a' ∷ []) 9 s'.log)
      (child stdout_pipe options (b'a' ∷ []) born)
child_lem_example =
    child_lem identity stdout_pipe options (b'a' ∷ []) 9 [] (plain (pos 0) 0) born refl
      (replicate-IsGranting 20) (refl, refl, refl, refl, refl, refl) (omega arith) (omega arith)
