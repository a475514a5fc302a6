-- ===== src/Spawn/Fork/Closing.antt =====
-- spawn/mod.rs: the descriptors of the parent in `spawn_fork_internal`, and the end of the child.
use coreshift_lowlevel.Prelude.{
  ℕ, zero, suc, ◌+◌, refl, ℤ, pos, negsuc, minus_one, Bool, true, false, Option, none, some, arith,
}
use coreshift_lowlevel.Os.{
  ended, Io, pure, ◌>>◌, Call, dup2, close_range, setsid, chdir, setpgid, sigprocmask,
  signal_default, execve, exit, fork,
}
use coreshift_lowlevel.Os.Steps.{Steps, Steps-pure, Steps-perform, Steps-bind, Steps-syscall_ret}
use coreshift_lowlevel.Os.Endings.{Ends, Ends-bind, Ends-now, Steps-Ends, Balanced-Ends}
use coreshift_lowlevel.Os.Balance.{
  held_ok, Balanced, Balanced-bind, Balanced-then, Balanced-try, Balanced-from, Balanced-done,
  Balanced-Steps,
}
use coreshift_lowlevel.Fd.{Fd}
use coreshift_lowlevel.Fd.Closing.{Balanced-syscall_ret}
use coreshift_lowlevel.Io.Drain.Closing.{held_drain}
use coreshift_lowlevel.System.Exec.{Bytes, argv_of, get_argv_ptrs, get_envp_ptrs}
use coreshift_lowlevel.System.Signals.{unblock_all, reset_default, sigpipe, sig_setmask, empty_set}
use coreshift_lowlevel.Spawn.Options.{SpawnOptions}
use coreshift_lowlevel.Spawn.Pipes.{Pipes, close_range_fast, uint_top}
use coreshift_lowlevel.Spawn.Pipes.Closing.{
  held_pipes, Balanced-close_all, Balanced-new_pipes, Steps-close_all,
}
use coreshift_lowlevel.Spawn.Posix.Closing.{Balanced-keep_ends, Balanced-with_exe}
use coreshift_lowlevel.Spawn.WaitLoop.Plain.{IsPlain}
use coreshift_lowlevel.Spawn.Fork.{
  exit_now, dup_end, new_session, change_dir, join_group, execute, child, parent, no_pipes, forked,
  fork_with, spawn_fork_internal,
}

module _ {P : Call → Type 0} (plain : (c : Call) → IsPlain c → P c) where
  Ends-exit_now : {A : Type 0} (code : ℕ) → Ends {A = A} P (exit_now code)
  unfolding exit_now
  Ends-exit_now code = Ends-bind (Steps-perform (exit code) (plain (exit code) tt)) (λ _. Ends-now)

  Steps-dup_end : (used other : Option Fd) (target : ℤ) → Steps P (dup_end used other target)
  unfolding dup_end
  Steps-dup_end (some u) (some o) target =
      Steps-bind (Steps-perform (dup2 u.raw_fd target) (plain (dup2 u.raw_fd target) tt))
        (λ _. Steps-pure)
  Steps-dup_end none other target = Steps-pure
  Steps-dup_end (some u) none target = Steps-pure

  Steps-new_session : (isolated : Bool) → Steps P (new_session isolated)
  unfolding new_session
  Steps-new_session true = Steps-bind (Steps-perform setsid (plain setsid tt)) (λ _. Steps-pure)
  Steps-new_session false = Steps-pure

  Steps-join_group : (leader : Option ℤ) → Steps P (join_group leader)
  unfolding join_group
  Steps-join_group none = Steps-pure
  Steps-join_group (some pg) =
      Steps-bind (Steps-perform (setpgid (pos 0) pg) (plain (setpgid (pos 0) pg) tt))
        (λ _. Steps-pure)

  Ends-execute :
      {A : Type 0} (opts : SpawnOptions) (exe : Bytes) → Ends {A = A} P (execute opts exe)
  unfolding execute
  Ends-execute {A} opts exe =
      Ends-bind
        (Steps-perform (execve exe (get_argv_ptrs opts.ctx) (get_envp_ptrs opts.ctx))
          (plain (execve exe (get_argv_ptrs opts.ctx) (get_envp_ptrs opts.ctx)) tt))
        (λ r. done r.ret)
    where
      done :
          (ret : ℤ) → Ends {A = A} P (elim ret [ pos n ↦ (λ s. ended s) | negsuc n ↦ exit_now 127 ])
      done (pos n) = Ends-now
      done (negsuc n) = Ends-exit_now 127

  Steps-change_dir : (cwd : Option Bytes) → Steps P (change_dir cwd)
  unfolding change_dir
  Steps-change_dir none = Steps-pure
  Steps-change_dir (some cwd) =
      Steps-bind (Steps-perform (chdir cwd) (plain (chdir cwd) tt)) (λ r. entered r.ret)
    where
      entered :
          (ret : ℤ)
          → Steps {A = Unit {0}} P (elim ret [
            | pos n ↦ elim n [ zero ↦ pure tt | suc k ↦ exit_now 127 ]
            | negsuc n ↦ exit_now 127
          ])
      entered (pos zero) = Steps-pure
      entered (pos (suc n)) = Steps-Ends (Ends-exit_now 127)
      entered (negsuc n) = Steps-Ends (Ends-exit_now 127)

  Steps-unblock_all : Steps P unblock_all
  unfolding unblock_all
  Steps-unblock_all =
      Steps-bind
        (Steps-perform (sigprocmask sig_setmask empty_set)
          (plain (sigprocmask sig_setmask empty_set) tt))
        (λ r. Steps-syscall_ret r.ret "sigprocmask")

  Steps-reset_default : (sig : ℕ) → Steps P (reset_default sig)
  unfolding reset_default
  Steps-reset_default sig =
      Steps-bind (Steps-perform (signal_default sig) (plain (signal_default sig) tt))
        (λ _. Steps-pure)

  Steps-close_range_fast : Steps P (close_range_fast none)
  unfolding close_range_fast
  Steps-close_range_fast =
      Steps-bind (Steps-perform (close_range 3 uint_top) (plain (close_range 3 uint_top) tt))
        (λ _. Steps-pure)

  -- Some steps and then others.
  sequenced : {A B : Type 0} {m : Io A} {m' : Io B} → Steps P m → Steps P m' → Steps P (m >> m')
  sequenced p q = Steps-bind p (λ _. q)

  pub Ends-child :
      {A : Type 0} (pipes : Pipes) (opts : SpawnOptions) (exe : Bytes)
      → Ends {A = A} P (child pipes opts exe)
  unfolding child
  Ends-child pipes opts exe =
      let wired =
        sequenced
          (sequenced (Steps-dup_end pipes.stdin_r pipes.stdin_w (pos 0))
            (Steps-dup_end pipes.stdout_w pipes.stdout_r (pos 1)))
          (Steps-dup_end pipes.stderr_w pipes.stderr_r (pos 2)) in
      let closed =
        sequenced (sequenced wired (Steps-close_all plain pipes)) Steps-close_range_fast in
      let placed =
        sequenced
          (sequenced (sequenced closed (Steps-new_session opts.pgroup.isolated))
            (Steps-change_dir opts.ctx.cwd))
          (Steps-join_group opts.pgroup.leader) in
      Ends-bind (sequenced (sequenced placed Steps-unblock_all) (Steps-reset_default sigpipe))
        (λ _. Ends-execute opts exe)

module _ {x : ℕ} where
  parent_balances :
      (pid : ℤ) (pipes : Pipes) (opts : SpawnOptions) (k : ℕ)
      → Balanced x
          (held_pipes x pipes + k)
          (parent pid pipes opts)
          (held_ok (λ p. held_drain x p.1 + k) k)
  unfolding parent
  parent_balances pid pipes opts k =
      Balanced-try (Balanced-keep_ends pipes opts k) (λ drain. Balanced-done refl)

  forked_balances :
      (ret : ℤ) (pipes : Pipes) (opts : SpawnOptions) (exe : Bytes) (k : ℕ)
      → Balanced x
          (held_pipes x pipes + k)
          (forked ret pipes opts exe)
          (held_ok (λ p. held_drain x p.1 + k) k)
  unfolding forked
  forked_balances (negsuc n) pipes opts exe k =
      Balanced-try
        (Balanced-then (Balanced-close_all pipes k) (Balanced-syscall_ret minus_one "fork" k))
        (λ _. Balanced-from (omega arith) (parent_balances (negsuc n) no_pipes opts k))
  forked_balances (pos zero) pipes opts exe k =
      Balanced-Ends (Ends-child {P = λ _. Unit} (λ _ _. tt) pipes opts exe)
  forked_balances (pos (suc n)) pipes opts exe k = parent_balances (pos (suc n)) pipes opts k

  pub spawn_fork_internal_balances :
      (opts : SpawnOptions) (k : ℕ)
      → Balanced x k (spawn_fork_internal opts) (held_ok (λ p. held_drain x p.1 + k) k)
  unfolding spawn_fork_internal fork_with
  spawn_fork_internal_balances opts k =
      Balanced-try (Balanced-new_pipes opts.stdin opts.capture_stdout opts.capture_stderr k)
        (λ pipes. Balanced-with_exe pipes (argv_of opts.ctx.argv) (λ exe.
          Balanced-bind (Balanced-Steps (held_pipes x pipes + k) (Steps-perform fork tt))
            (λ a. forked_balances a.ret pipes opts exe k)))
