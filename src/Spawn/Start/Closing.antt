-- ===== src/Spawn/Start/Closing.antt =====
-- spawn/mod.rs: the descriptors of `spawn_start` and `spawn`.
use coreshift_lowlevel.Prelude.{ℕ, ◌+◌, ◌≡◌, refl, ℤ, arith}
use coreshift_lowlevel.Os.{Sys, Post, Post-mono, IsHonest}
use coreshift_lowlevel.Os.Balance.{
  opened, closed, held_ok, Settled, Balanced, Balanced-bind, Balanced-then, Balanced-try,
  Balanced-case, Balanced-if, Balanced-match, Balanced-from, Balanced-done, Balanced-any,
}
use coreshift_lowlevel.Error.{Result, ok, err}
use coreshift_lowlevel.Reactor.{Reactor}
use coreshift_lowlevel.Reactor.Closing.{held_reactor, Balanced-new_reactor, Balanced-drop_reactor}
use coreshift_lowlevel.Io.Drain.{DrainState}
use coreshift_lowlevel.Io.Drain.Closing.{
  held_slot, held_drain, Balanced-drop_slot, Balanced-register,
}
use coreshift_lowlevel.Spawn.Process.{StatusMacros}
use coreshift_lowlevel.Spawn.Options.{SpawnOptions, Platform, Backend, refuses, resolve_backend}
use coreshift_lowlevel.Spawn.Posix.Closing.{spawn_posix_internal_balances}
use coreshift_lowlevel.Spawn.Fork.Closing.{spawn_fork_internal_balances}
use coreshift_lowlevel.Spawn.WaitLoop.{Output}
use coreshift_lowlevel.Spawn.WaitLoop.Closing.Looping.{Balanced-wait_loop}
use coreshift_lowlevel.Spawn.Start.{
  RunningProcess, start_with, spawn_start, drop_drain, leave, watch, run_started, spawn,
}

-- What a result holds of a descriptor: the pipes of the running process, or nothing.
abbrev pub held_running : ℕ → Result RunningProcess → ℕ
held_running x (ok running) = held_drain x running.drain
held_running x (err e) = 0

module _ {x : ℕ} where
  start_with_balances :
      (backend : Backend) (opts : SpawnOptions) (k : ℕ)
      → Balanced x k (start_with backend opts) (held_ok (λ p. held_drain x p.1 + k) k)
  unfolding start_with
  start_with_balances Backend.posix_spawn opts k = spawn_posix_internal_balances opts k
  start_with_balances Backend.fork opts k = spawn_fork_internal_balances opts k

  spawn_start_balances :
      (platform : Platform) (opts : SpawnOptions) (k : ℕ)
      → Balanced x k
          (spawn_start platform opts)
          (held_ok (λ running. held_drain x running.drain + k) k)
  unfolding spawn_start
  spawn_start_balances platform opts k = Balanced-if (refuses opts) (Balanced-done refl) (
      Balanced-try (start_with_balances (resolve_backend platform opts) opts k)
        (λ p. Balanced-done refl))

  Balanced-drop_drain :
      (d : DrainState) (k : ℕ) → Balanced x (held_drain x d + k) (drop_drain d) (λ _. k)
  Balanced-drop_drain d k =
      let e = held_slot x d.stderr_slot in
      let i = held_slot x d.stdin_slot in
      Balanced-then
        (Balanced-then
          (Balanced-from (omega arith) (Balanced-drop_slot d.stdout_slot (e + (i + k))))
          (Balanced-drop_slot d.stderr_slot (i + k)))
        (Balanced-drop_slot d.stdin_slot k)

  leave_balances :
      (pid : ℤ) (d : DrainState) (reactor : Reactor) (k : ℕ)
      → Balanced x (held_drain x d + (held_reactor x reactor + k)) (leave pid d reactor) (λ _. k)
  unfolding leave
  leave_balances pid d reactor k =
      Balanced-then (Balanced-drop_drain d (held_reactor x reactor + k))
        (Balanced-then (Balanced-drop_reactor reactor k) (Balanced-done refl))

  watch_balances :
      (libc : StatusMacros) (opts : SpawnOptions) (pid : ℤ) (d : DrainState) (reactor : Reactor)
      (k : ℕ)
      → Balanced x
          (held_drain x d + (held_reactor x reactor + k))
          (watch libc opts pid d reactor)
          (λ _. k)
  unfolding watch
  watch_balances libc opts pid d reactor k =
      Balanced-if opts.wait
        (Balanced-wait_loop libc pid d reactor opts.timeout_ms opts.kill_grace_ms opts.cancel
          opts.pgroup k)
        (leave_balances pid d reactor k)

  run_started_balances :
      (libc : StatusMacros) (opts : SpawnOptions) (reactor : Reactor) (running : RunningProcess)
      (k : ℕ)
      → Balanced x
          (held_drain x running.drain + (held_reactor x reactor + k))
          (run_started libc opts reactor running)
          (λ _. k)
  unfolding run_started
  run_started_balances libc opts reactor running k =
      Balanced-bind (Balanced-register running.drain reactor k) (λ p.
        Balanced-match (λ _. held_drain x p.0 + (held_reactor x p.1 + k)) p.2
          (λ _. watch_balances libc opts running.process.pid p.0 p.1 k)
          (λ e.
            Balanced-then
              (Balanced-then (Balanced-drop_drain p.0 (held_reactor x p.1 + k))
                (Balanced-drop_reactor p.1 k))
              (Balanced-done refl)))

  spawn_balances :
      (libc : StatusMacros) (platform : Platform) (opts : SpawnOptions) (k : ℕ)
      → Balanced x k (spawn libc platform opts) (held_ok (λ _. k) k)
  unfolding spawn
  spawn_balances libc platform opts k = Balanced-try (Balanced-new_reactor k) (λ reactor.
      Balanced-case (spawn_start_balances platform opts (held_reactor x reactor + k))
        (λ running. Balanced-any (run_started_balances libc opts reactor running k))
        (λ e. Balanced-then (Balanced-drop_reactor reactor k) (Balanced-done refl)))

started_holds :
    (x : ℕ) (r : Result RunningProcess)
    → held_ok (λ running. held_drain x running.drain + 0) 0 r ≡ held_running x r
started_holds x (ok running) = omega arith
started_holds x (err e) = refl

-- With an honest kernel, where `spawn_start` returns in the parent, a descriptor was opened as often as
-- it was closed and is held by the pipes of the running process together. With an error nothing is held. It
-- always returns, ends with its process or waits in a call.
pub spawn_start_hands_over :
    (platform : Platform) (opts : SpawnOptions) (x : ℕ) (s : Sys)
    → IsHonest s.script
    → Post
        (λ r s'.
          opened x s'.log + closed x s.log ≡ opened x s.log + closed x s'.log + held_running x r)
        (λ _. Unit)
        (spawn_start platform opts s)
spawn_start_hands_over platform opts x s h =
    Post-mono (λ r. Settled x 0 s (held_ok (λ running. held_drain x running.drain + 0) 0 r))
      (λ r s'.
        opened x s'.log + closed x s.log ≡ opened x s.log + closed x s'.log + held_running x r)
      (λ _. Unit) (λ _. Unit) (spawn_start platform opts s)
      (λ r s' g. omega (arith, g.0, started_holds x r)) (λ _ _. tt)
      ((spawn_start_balances platform opts 0).run s h)

-- With an honest kernel, where `spawn` returns in the parent, with an output or an error, every descriptor
-- that `pipe2`, `open` or `epoll_create1` opened meanwhile was closed exactly as often. It always returns,
-- ends with its process or waits in a call.
pub spawn_closes :
    (libc : StatusMacros) (platform : Platform) (opts : SpawnOptions) (x : ℕ) (s : Sys)
    → IsHonest s.script
    → Post
        (λ r s'. opened x s'.log + closed x s.log ≡ opened x s.log + closed x s'.log)
        (λ _. Unit)
        (spawn libc platform opts s)
spawn_closes libc platform opts x s h =
    Post-mono (λ r. Settled x 0 s (held_ok (λ _. 0) 0 r))
      (λ r s'. opened x s'.log + closed x s.log ≡ opened x s.log + closed x s'.log) (λ _. Unit)
      (λ _. Unit) (spawn libc platform opts s) (λ r s' g. even r s' g.0) (λ _ _. tt)
      ((spawn_balances libc platform opts 0).run s h)
  where
    even :
        (r : Result Output) (s' : Sys)
        → opened x s'.log + closed x s.log + 0
          ≡ opened x s.log + closed x s'.log + held_ok (λ _. 0) 0 r
        → opened x s'.log + closed x s.log ≡ opened x s.log + closed x s'.log
    even (ok out) s' e = omega (arith, e)
    even (err e') s' e = omega (arith, e)
