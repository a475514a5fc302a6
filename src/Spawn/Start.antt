-- ===== src/Spawn/Start.antt =====
-- spawn/mod.rs: `spawn_start` and `spawn`, from the options to the output of a process.
pub mod Closing
pub mod Isolation
use coreshift_lowlevel.Prelude.{ℤ, pos, false, none, if◌then◌else◌}
use coreshift_lowlevel.Os.{Io, pure, ◌>>=◌, ◌>>◌}
use coreshift_lowlevel.Error.{Result, ok, err, sys, ◌>>?◌}
use coreshift_lowlevel.Fd.{einval}
use coreshift_lowlevel.Reactor
use coreshift_lowlevel.Reactor.{Reactor, drop_reactor}
use coreshift_lowlevel.Io.Drain.{DrainState, into_parts, register_with_reactor, drop_slot}
use coreshift_lowlevel.Spawn.Process
use coreshift_lowlevel.Spawn.Process.{Process, StatusMacros}
use coreshift_lowlevel.Spawn.Options.{SpawnOptions, Platform, Backend, resolve_backend, refuses}
use coreshift_lowlevel.Spawn.Posix.{spawn_posix_internal}
use coreshift_lowlevel.Spawn.Fork.{spawn_fork_internal}
use coreshift_lowlevel.Spawn.WaitLoop.{Output, wait_loop}

pub record RunningProcess : Type 0 where
  pub process : Process
  pub drain : DrainState

unfoldable pub start_with : Backend → SpawnOptions → Io (Result (ℤ × DrainState))
unfolding spawn_posix_internal spawn_fork_internal
start_with Backend.posix_spawn opts = spawn_posix_internal opts
start_with Backend.fork opts = spawn_fork_internal opts

unfoldable pub spawn_start : Platform → SpawnOptions → Io (Result RunningProcess)
unfolding refuses sys resolve_backend start_with Process.new
spawn_start platform opts =
    if refuses opts
    then pure (err (sys (pos einval) "background I/O capture not supported (wait must be true)"))
    else (start_with (resolve_backend platform opts) opts >>? λ (pid, drain).
        pure (ok (record { process = Process.new pid; drain = drain })))

abbrev pub drop_drain : DrainState → Io (Unit {0})
drop_drain d = drop_slot d.stdout_slot >> drop_slot d.stderr_slot >> drop_slot d.stdin_slot

-- The output of a process that is not waited for.
unfoldable pub leave : ℤ → DrainState → Reactor → Io (Result Output)
unfolding into_parts drop_reactor
leave pid drain reactor = do
  let (stdout, stderr) = into_parts drain
  drop_drain drain
  drop_reactor reactor
  pure (
      ok (record { pid = pid; status = none; stdout = stdout; stderr = stderr; timed_out = false }))

unfoldable pub watch : StatusMacros → SpawnOptions → ℤ → DrainState → Reactor → Io (Result Output)
unfolding leave wait_loop
watch libc opts pid drain reactor =
    if opts.wait
    then wait_loop libc pid drain reactor opts.timeout_ms opts.kill_grace_ms opts.cancel opts.pgroup
    else leave pid drain reactor

-- `?` drops what there is, the drain before the reactor.
unfoldable pub run_started :
    StatusMacros → SpawnOptions → Reactor → RunningProcess → Io (Result Output)
unfolding register_with_reactor drop_reactor watch
run_started libc opts reactor running = do
  (drain, reactor', r) ← register_with_reactor running.drain reactor
  elim r [
    | err e ↦ drop_drain drain >> drop_reactor reactor' >> pure (err e)
    | ok _ ↦ watch libc opts running.process.pid drain reactor'
  ]

unfoldable pub spawn : StatusMacros → Platform → SpawnOptions → Io (Result Output)
unfolding Reactor.new spawn_start drop_reactor run_started
spawn libc platform opts = Reactor.new >>? λ reactor. do
  r ← spawn_start platform opts
  elim r [
    | err e ↦ drop_reactor reactor >> pure (err e)
    | ok running ↦ run_started libc opts reactor running
  ]
