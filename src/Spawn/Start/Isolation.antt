-- ===== src/Spawn/Start/Isolation.antt =====
-- spawn/mod.rs: which backend serves the options that only the fork backend sets up.
use coreshift_lowlevel.Prelude.{◌≡◌, refl, true, ◌||◌, is_some, subst, sym}
use coreshift_lowlevel.Os.{Call, Sys, Post, Post-mono, posix_spawn}
use coreshift_lowlevel.Os.Traces.{Grown}
use coreshift_lowlevel.Os.Steps.{
  Steps, Later, After, Steps-pure, Steps-bind, Steps-result, Steps-if,
}
use coreshift_lowlevel.Spawn.WaitLoop.Plain.{IsPlain}
use coreshift_lowlevel.Spawn.Options.{
  SpawnOptions, Platform, Backend, refuses, resolve_backend, force_fork,
}
use coreshift_lowlevel.Spawn.Fork.Calls.{Steps-spawn_fork_internal}
use coreshift_lowlevel.Spawn.Start.{start_with, spawn_start}

-- Every call but `posix_spawn`.
abbrev pub IsElsewhere : Call → Type 0
IsElsewhere (posix_spawn exe argv envp) = ⊥
IsElsewhere _ = Unit

resolve_backend-forced :
    (platform : Platform) (opts : SpawnOptions)
    → (opts.pgroup.isolated || is_some opts.ctx.cwd) ≡ true
    → resolve_backend platform opts ≡ Backend.fork
unfolding resolve_backend force_fork
resolve_backend-forced platform opts h = rw h refl

elsewhere : (c : Call) → IsPlain c → IsElsewhere c
elsewhere (posix_spawn exe argv envp) h = absurd h
elsewhere _ h = tt

Steps-start :
    (platform : Platform) (opts : SpawnOptions)
    → (opts.pgroup.isolated || is_some opts.ctx.cwd) ≡ true
    → Steps IsElsewhere (spawn_start platform opts)
unfolding spawn_start start_with
Steps-start platform opts h = Steps-if (refuses opts) Steps-pure (
    Steps-bind
      (subst (λ b. Steps IsElsewhere (start_with b opts))
        (sym (resolve_backend-forced platform opts h)) (Steps-spawn_fork_internal elsewhere opts))
      (λ r. Steps-result r (λ p. Steps-pure) (λ e. Steps-pure)))

-- Where the options ask for a session of its own or for a directory, which only the fork backend sets
-- up, `spawn_start` never calls `posix_spawn`, whatever the platform and the preferred backend. It
-- always returns, ends with its process or waits in a call.
pub spawn_start_isolates :
    (platform : Platform) (opts : SpawnOptions) (s : Sys)
    → (opts.pgroup.isolated || is_some opts.ctx.cwd) ≡ true
    → Post
        (λ _ s'. Grown IsElsewhere s.log s'.log)
        (λ s'. Grown IsElsewhere s.log s'.log)
        (spawn_start platform opts s)
spawn_start_isolates platform opts s h =
    Post-mono (λ _. Later IsElsewhere s) (λ _ s'. Grown IsElsewhere s.log s'.log)
      (After IsElsewhere s) (λ s'. Grown IsElsewhere s.log s'.log) (spawn_start platform opts s)
      (λ _ s' g. g.0) (λ _ g. g) ((Steps-start platform opts h).run s)
