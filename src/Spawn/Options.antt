-- ===== src/Spawn/Options.antt =====
-- spawn/mod.rs: `SpawnOptions`, its builder, and the choice of a backend.
use coreshift_lowlevel.Prelude.{
  ℕ, ◌*◌, List, Bool, true, false, Option, none, some, ◌||◌, is_some, ltb, if◌then◌else◌,
}
use coreshift_lowlevel.Error.{Result, ok}
use coreshift_lowlevel.Text.{parse_u32}
use coreshift_lowlevel.Io.Buffer.{EarlyExit}
use coreshift_lowlevel.System.Exec
use coreshift_lowlevel.System.Exec.{ExecContext, CancelPolicy, ProcessGroup, Bytes, ◌>>=?◌}

pub data SpawnBackend : Type 0 where
  auto posix_spawn fork : SpawnBackend

pub data Backend : Type 0 where
  posix_spawn fork : Backend

pub record SpawnOptions : Type 0 where
  pub ctx : ExecContext
  pub stdin : Option Bytes
  pub capture_stdout : Bool
  pub capture_stderr : Bool
  pub wait : Bool
  pub pgroup : ProcessGroup
  pub max_output : ℕ
  pub timeout_ms : Option ℕ
  pub kill_grace_ms : ℕ
  pub cancel : CancelPolicy
  pub backend : SpawnBackend
  pub early_exit : EarlyExit

pub record SpawnOptionsBuilder : Type 0 where
  pub argv : List Bytes
  pub env : Option (List Bytes)
  pub cwd : Option Bytes
  pub stdin : Option Bytes
  pub capture_stdout : Bool
  pub capture_stderr : Bool
  pub wait : Bool
  pub pgroup : ProcessGroup
  pub max_output : ℕ
  pub timeout_ms : Option ℕ
  pub kill_grace_ms : ℕ
  pub cancel : CancelPolicy
  pub backend : SpawnBackend
  pub early_exit : EarlyExit

unfoldable pub new : List Bytes → SpawnOptionsBuilder
new argv = record {
  argv = argv;
  env = none;
  cwd = none;
  stdin = none;
  capture_stdout = false;
  capture_stderr = false;
  wait = true;
  pgroup = record { leader = none; isolated = false };
  max_output = 1024 * 1024;
  timeout_ms = none;
  kill_grace_ms = 2000;
  cancel = CancelPolicy.kill;
  backend = auto;
  early_exit = none;
}

-- The setters, each under its field's name.
unfoldable pub with_env : List Bytes → SpawnOptionsBuilder → SpawnOptionsBuilder
with_env env b = record b { env = some env }

unfoldable pub with_cwd : Bytes → SpawnOptionsBuilder → SpawnOptionsBuilder
with_cwd cwd b = record b { cwd = some cwd }

unfoldable pub with_stdin : Bytes → SpawnOptionsBuilder → SpawnOptionsBuilder
with_stdin bytes b = record b { stdin = some bytes }

unfoldable pub with_capture_stdout : SpawnOptionsBuilder → SpawnOptionsBuilder
with_capture_stdout b = record b { capture_stdout = true }

unfoldable pub with_capture_stderr : SpawnOptionsBuilder → SpawnOptionsBuilder
with_capture_stderr b = record b { capture_stderr = true }

unfoldable pub with_wait : Bool → SpawnOptionsBuilder → SpawnOptionsBuilder
with_wait wait b = record b { wait = wait }

unfoldable pub with_pgroup : ProcessGroup → SpawnOptionsBuilder → SpawnOptionsBuilder
with_pgroup pgroup b = record b { pgroup = pgroup }

unfoldable pub with_max_output : ℕ → SpawnOptionsBuilder → SpawnOptionsBuilder
with_max_output max b = record b { max_output = max }

unfoldable pub with_timeout_ms : ℕ → SpawnOptionsBuilder → SpawnOptionsBuilder
with_timeout_ms ms b = record b { timeout_ms = some ms }

unfoldable pub with_kill_grace_ms : ℕ → SpawnOptionsBuilder → SpawnOptionsBuilder
with_kill_grace_ms ms b = record b { kill_grace_ms = ms }

unfoldable pub with_cancel : CancelPolicy → SpawnOptionsBuilder → SpawnOptionsBuilder
with_cancel policy b = record b { cancel = policy }

unfoldable pub with_backend : SpawnBackend → SpawnOptionsBuilder → SpawnOptionsBuilder
with_backend backend b = record b { backend = backend }

unfoldable pub with_early_exit : (List ℕ → Bool) → SpawnOptionsBuilder → SpawnOptionsBuilder
with_early_exit callback b = record b { early_exit = some callback }

unfoldable pub build : SpawnOptionsBuilder → Result SpawnOptions
unfolding Exec.new
build b = Exec.new b.argv b.env b.cwd >>=? λ ctx. ok (record {
  ctx = ctx;
  stdin = b.stdin;
  capture_stdout = b.capture_stdout;
  capture_stderr = b.capture_stderr;
  wait = b.wait;
  pgroup = b.pgroup;
  max_output = b.max_output;
  timeout_ms = b.timeout_ms;
  kill_grace_ms = b.kill_grace_ms;
  cancel = b.cancel;
  backend = b.backend;
  early_exit = b.early_exit;
})

-- The target; on Android with what the property `ro.build.version.sdk` holds.
pub data Platform : Type 0 where
  linux : Platform
  android : Bytes → Platform

-- An API level that cannot be read leaves the default.
unfoldable pub select_backend : Platform → Backend
unfolding parse_u32
select_backend linux = Backend.posix_spawn
select_backend (android value) = elim (parse_u32 value) [
  | some api ↦ if ltb api 32 then Backend.fork else Backend.posix_spawn
  | none ↦ Backend.posix_spawn
]

unfoldable pub force_fork : SpawnOptions → Bool
force_fork opts = opts.pgroup.isolated || is_some opts.ctx.cwd

abbrev pub chosen : Platform → SpawnBackend → Backend
chosen platform auto = select_backend platform
chosen platform SpawnBackend.posix_spawn = Backend.posix_spawn
chosen platform SpawnBackend.fork = Backend.fork

unfoldable pub resolve_backend : Platform → SpawnOptions → Backend
unfolding force_fork select_backend
resolve_backend platform opts =
    if force_fork opts then Backend.fork else chosen platform opts.backend

-- The test at the start of `spawn_start`.
unfoldable pub refuses : SpawnOptions → Bool
refuses opts = elim opts.wait [
  | true ↦ false
  | false ↦ is_some opts.stdin || opts.capture_stdout || opts.capture_stderr
]
