-- ===== src/Spawn/Fork.antt =====
-- spawn/mod.rs: `spawn_fork_internal`, which starts a process with `fork` and `execve`.
pub mod Closing
pub mod Tables
pub mod Child
pub mod Calls
use coreshift_lowlevel.Prelude.{
  ℕ, zero, suc, ℤ, pos, negsuc, minus_one, Bool, true, false, Option, none, some,
}
use coreshift_lowlevel.Os.{
  ended, Io, pure, ◌>>=◌, ◌>>◌, perform, dup2, fork, setsid, chdir, setpgid, execve, exit,
}
use coreshift_lowlevel.Error.{Result, ok, syscall_ret, ◌>>?◌}
use coreshift_lowlevel.Fd.{Fd}
use coreshift_lowlevel.Io.Drain.{DrainState}
use coreshift_lowlevel.System.Exec.{Bytes, argv_of, get_argv_ptrs, get_envp_ptrs}
use coreshift_lowlevel.System.Signals.{unblock_all, reset_default, sigpipe}
use coreshift_lowlevel.Spawn.Options.{SpawnOptions}
use coreshift_lowlevel.Spawn.Pipes
use coreshift_lowlevel.Spawn.Pipes.{Pipes, close_all, close_range_fast}
use coreshift_lowlevel.Spawn.Posix.{keep_ends, with_exe}

-- `_exit`, which does not come back.
unfoldable pub exit_now : {A : Type 0} → ℕ → Io A
unfolding perform
exit_now code = perform (exit code) >>= λ _ s. ended s

-- The used end of a pipe takes the standard descriptor's place; the result is not looked at.
unfoldable pub dup_end : Option Fd → Option Fd → ℤ → Io (Unit {0})
unfolding perform
dup_end (some used) (some other) target = perform (dup2 used.raw_fd target) >> pure tt
dup_end _ _ target = pure tt

unfoldable pub new_session : Bool → Io (Unit {0})
unfolding perform
new_session true = perform setsid >> pure tt
new_session false = pure tt

-- Where the directory cannot be entered, the child ends.
unfoldable pub change_dir : Option Bytes → Io (Unit {0})
unfolding perform exit_now
change_dir none = pure tt
change_dir (some cwd) = do
  r ← perform (chdir cwd)
  elim r.ret [ pos zero ↦ pure tt | pos (suc n) ↦ exit_now 127 | negsuc n ↦ exit_now 127 ]

unfoldable pub join_group : Option ℤ → Io (Unit {0})
unfolding perform
join_group none = pure tt
join_group (some pg) = perform (setpgid (pos 0) pg) >> pure tt

-- `execve` comes back only where it fails.
unfoldable pub execute : {A : Type 0} → SpawnOptions → Bytes → Io A
unfolding perform get_argv_ptrs get_envp_ptrs exit_now
execute opts exe = do
  r ← perform (execve exe (get_argv_ptrs opts.ctx) (get_envp_ptrs opts.ctx))
  elim r.ret [ pos n ↦ (λ s. ended s) | negsuc n ↦ exit_now 127 ]

unfoldable pub child : {A : Type 0} → Pipes → SpawnOptions → Bytes → Io A
unfolding dup_end close_all close_range_fast new_session change_dir join_group unblock_all
    reset_default execute
child pipes opts exe =
    dup_end pipes.stdin_r pipes.stdin_w (pos 0)
    >> dup_end pipes.stdout_w pipes.stdout_r (pos 1)
    >> dup_end pipes.stderr_w pipes.stderr_r (pos 2)
    >> close_all pipes
    >> close_range_fast none
    >> new_session opts.pgroup.isolated
    >> change_dir opts.ctx.cwd
    >> join_group opts.pgroup.leader
    >> unblock_all
    >> reset_default sigpipe
    >> execute opts exe

-- Pipes whose ends were all taken.
abbrev pub no_pipes : Pipes
no_pipes = record {
  stdin_r = none;
  stdin_w = none;
  stdout_r = none;
  stdout_w = none;
  stderr_r = none;
  stderr_w = none;
}

unfoldable pub parent : ℤ → Pipes → SpawnOptions → Io (Result (ℤ × DrainState))
unfolding keep_ends
parent pid pipes opts = keep_ends pipes opts >>? λ drain. pure (ok (pid, drain))

-- What follows `fork`, by the pid that it returned.
unfoldable pub forked : ℤ → Pipes → SpawnOptions → Bytes → Io (Result (ℤ × DrainState))
unfolding close_all syscall_ret child parent
forked (negsuc n) pipes opts exe =
    close_all pipes >> syscall_ret minus_one "fork" >>? λ _. parent (negsuc n) no_pipes opts
forked (pos zero) pipes opts exe = child pipes opts exe
forked (pos (suc n)) pipes opts exe = parent (pos (suc n)) pipes opts

unfoldable pub fork_with : Pipes → SpawnOptions → Bytes → Io (Result (ℤ × DrainState))
unfolding perform forked
fork_with pipes opts exe = do a ← perform fork; forked a.ret pipes opts exe

unfoldable pub spawn_fork_internal : SpawnOptions → Io (Result (ℤ × DrainState))
unfolding Pipes.new with_exe fork_with
spawn_fork_internal opts = Pipes.new opts.stdin opts.capture_stdout opts.capture_stderr >>? λ pipes.
    with_exe pipes (argv_of opts.ctx.argv) (fork_with pipes opts)
