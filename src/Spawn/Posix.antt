-- ===== src/Spawn/Posix.antt =====
-- spawn/mod.rs: `spawn_posix_internal`, which starts a process with `posix_spawn`.
pub mod Closing
pub mod Tables
pub mod Plans
pub mod Actions
pub mod Asking
pub mod Strays
use coreshift_lowlevel.Prelude.{
  ℕ, List, [], ◌∷◌, ◌++◌, ℤ, pos, negsuc, Bool, true, false, not, Option, none, some, String, ◌&&◌,
  ltb, eq_int, if◌then◌else◌, bit_or,
}
use coreshift_lowlevel.Os.{
  ended, Io, pure, ◌>>=◌, ◌>>◌, perform, Round, continue, break, loop, Call, close,
  file_actions_init, file_actions_adddup2, file_actions_addclose, file_actions_destroy, attr_init,
  attr_setpgroup, attr_setflags, attr_setsigmask, attr_setsigdefault, attr_destroy, posix_spawn,
  open_fd_dir, fdopendir, readdir, closedir,
}
use coreshift_lowlevel.Error.{Result, ok, err, posix_ret, ◌>>?◌}
use coreshift_lowlevel.Text.{parse_i32}
use coreshift_lowlevel.Fd.{Fd, drop_fd}
use coreshift_lowlevel.Io.Drain
use coreshift_lowlevel.Io.Drain.{DrainState, drop_opt}
use coreshift_lowlevel.System.Exec.{Bytes, ProcessGroup, argv_of, get_argv_ptrs, get_envp_ptrs}
use coreshift_lowlevel.System.Signals.{empty_set, set_with, sigpipe}
use coreshift_lowlevel.Spawn.Options.{SpawnOptions}
use coreshift_lowlevel.Spawn.Pipes
use coreshift_lowlevel.Spawn.Pipes.{Pipes, close_all}

abbrev pub posix_spawn_setpgroup : ℕ
posix_spawn_setpgroup = 2

abbrev pub posix_spawn_setsigdef : ℕ
posix_spawn_setsigdef = 4

abbrev pub posix_spawn_setsigmask : ℕ
posix_spawn_setsigmask = 8

-- A panic: the thread ends.
abbrev pub panic : {A : Type 0} → Io A
panic s = ended s

-- A call whose error closes the pipes.
unfoldable pub or_close : Pipes → Call → String → Io (Result (Unit {0}))
unfolding perform posix_ret close_all
or_close pipes c op = do
  a ← perform c
  elim (posix_ret a.ret op) [ ok _ ↦ pure (ok tt) | err e ↦ close_all pipes >> pure (err e) ]

-- A guard: its call is made when the rest is over, error or not.
abbrev pub guarded : {A : Type 0} → Call → Io (Result A) → Io (Result A)
guarded c m = do r ← m; perform c; pure r

-- The actions of one stream: the used end takes the standard descriptor's place, then both are closed.
unfoldable pub wire :
    Pipes → Option Fd → Option Fd → ℤ → String → String → String → Io (Result (Unit {0}))
unfolding or_close
wire pipes (some used) (some other) target dup_op close_op other_op =
    or_close pipes (file_actions_adddup2 used.raw_fd target) dup_op >>? λ _.
    or_close pipes (file_actions_addclose used.raw_fd) close_op >>? λ _.
    or_close pipes (file_actions_addclose other.raw_fd) other_op
wire pipes _ _ target dup_op close_op other_op = pure (ok tt)

unfoldable pub wire_all : Pipes → Io (Result (Unit {0}))
unfolding wire
wire_all pipes =
    wire pipes pipes.stdin_r pipes.stdin_w (pos 0) "dup2 stdin" "close stdin pipe"
      "close stdin write pipe"
    >>? λ _.
        wire pipes pipes.stdout_w pipes.stdout_r (pos 1) "dup2 stdout" "close stdout pipe"
          "close stdout read pipe"
        >>? λ _.
            wire pipes pipes.stderr_w pipes.stderr_r (pos 2) "dup2 stderr" "close stderr pipe"
              "close stderr read pipe"

abbrev pub push_raw : List ℤ → Option Fd → List ℤ
push_raw fds none = fds
push_raw fds (some fd) = fds ++ (fd.raw_fd ∷ [])

unfoldable pub handled_fds : Pipes → List ℤ
handled_fds pipes =
    push_raw
      (push_raw
        (push_raw (push_raw (push_raw (push_raw [] pipes.stdin_r) pipes.stdin_w) pipes.stdout_r)
          pipes.stdout_w)
        pipes.stderr_r)
      pipes.stderr_w

-- `Vec::contains`
unfoldable pub contains_fd : List ℤ → ℤ → Bool
contains_fd [] fd = false
contains_fd (g ∷ fds) fd = if eq_int g fd then true else contains_fd fds fd

abbrev pub above_two : ℤ → Bool
above_two (pos n) = ltb 2 n
above_two (negsuc n) = false

unfoldable pub is_stray : List ℤ → ℤ → ℤ → Bool
unfolding contains_fd
is_stray handled dir_fd fd =
    above_two fd && (not (eq_int fd dir_fd) && not (contains_fd handled fd))

-- The descriptor that an entry of the directory names, if it is to be closed. A name that is no
-- UTF-8 is no number either.
unfoldable pub stray_of : List ℤ → ℤ → Bytes → Option ℤ
unfolding parse_i32 is_stray
stray_of handled dir_fd name = elim (parse_i32 name) [
  | none ↦ none
  | some fd ↦ if is_stray handled dir_fd fd then some fd else none
]

unfoldable pub scan_round : List ℤ → ℤ → Unit {0} → Io (Round (Unit {0}) (Unit {0}))
unfolding perform stray_of
scan_round handled dir_fd _ = do
  entry ← perform (readdir dir_fd)
  elim entry.name [
    | none ↦ pure (break tt)
    | some name ↦ elim (stray_of handled dir_fd name) [
      | none ↦ pure (continue tt)
      | some fd ↦ perform (file_actions_addclose fd) >> pure (continue tt)
    ]
  ]

abbrev pub is_null : ℤ → Bool
is_null p = eq_int p (pos 0)

-- The open directory is read to its end.
unfoldable pub scan_dir : List ℤ → ℤ → Io (Unit {0})
unfolding perform loop scan_round
scan_dir handled (negsuc n) = pure tt
scan_dir handled (pos n) = do
  dir ← perform (fdopendir (pos n))
  (if is_null dir.ret
      then perform (close (pos n)) >> pure tt
      else loop (scan_round handled (pos n)) tt >> perform (closedir (pos n)) >> pure tt)

unfoldable pub close_strays : Pipes → Io (Unit {0})
unfolding perform handled_fds scan_dir
close_strays pipes = do dir_fd ← perform open_fd_dir; scan_dir (handled_fds pipes) dir_fd.ret

-- The flags, with the group set where there is a leader.
unfoldable pub set_group : Pipes → Option ℤ → Io (Result ℕ)
unfolding or_close
set_group pipes none = pure (ok 0)
set_group pipes (some pg) = or_close pipes (attr_setpgroup pg) "setpgroup" >>? λ _.
    pure (ok (bit_or 0 posix_spawn_setpgroup))

unfoldable pub set_attributes : Pipes → ProcessGroup → Io (Result (Unit {0}))
unfolding or_close set_group empty_set set_with
set_attributes pipes pgroup = set_group pipes pgroup.leader >>? λ flags.
    or_close pipes
      (attr_setflags (bit_or flags (bit_or posix_spawn_setsigmask posix_spawn_setsigdef)))
      "setflags"
    >>? λ _. or_close pipes (attr_setsigmask empty_set) "setsigmask" >>? λ _.
        or_close pipes (attr_setsigdefault (set_with (sigpipe ∷ []))) "setsigdefault"

-- `pipes.stdin_w.take().filter(|_| opts.stdin.is_some())`
abbrev pub filter_stdin : Option Fd → Option Bytes → Io (Option Fd)
filter_stdin stdin_w none = drop_opt stdin_w >> pure none
filter_stdin stdin_w (some bytes) = pure stdin_w

-- The parent's part once the process is there: the child's ends go, the others belong to the drain.
unfoldable pub keep_ends : Pipes → SpawnOptions → Io (Result DrainState)
unfolding drop_fd Drain.new
keep_ends pipes opts = do
  drop_opt pipes.stdin_r
  drop_opt pipes.stdout_w
  drop_opt pipes.stderr_w
  stdin_w ← filter_stdin pipes.stdin_w opts.stdin
  Drain.new stdin_w opts.stdin pipes.stdout_r pipes.stderr_r opts.max_output opts.early_exit

unfoldable pub launch : Pipes → SpawnOptions → Bytes → Io (Result (ℤ × DrainState))
unfolding perform posix_ret get_argv_ptrs get_envp_ptrs close_all keep_ends
launch pipes opts exe = do
  a ← perform (posix_spawn exe (get_argv_ptrs opts.ctx) (get_envp_ptrs opts.ctx))
  elim (posix_ret a.ret "posix_spawn") [
    | err e ↦ close_all pipes >> pure (err e)
    | ok _ ↦ keep_ends pipes opts >>? λ drain. pure (ok (a.pid, drain))
  ]

unfoldable pub posix_with : Pipes → SpawnOptions → Bytes → Io (Result (ℤ × DrainState))
unfolding or_close wire_all close_strays set_attributes launch
posix_with pipes opts exe = or_close pipes file_actions_init "file_actions_init" >>? λ _.
    guarded file_actions_destroy (
      wire_all pipes >>? λ _. do
        close_strays pipes
        or_close pipes attr_init "attr_init" >>? λ _.
            guarded attr_destroy (set_attributes pipes opts.pgroup >>? λ _. launch pipes opts exe))

-- The first argument, which names the program; without one the index panics, which closes the
-- pipes.
unfoldable pub with_exe : {A : Type 0} → Pipes → List Bytes → (Bytes → Io A) → Io A
unfolding close_all
with_exe pipes [] f = close_all pipes >> panic
with_exe pipes (exe ∷ args) f = f exe

unfoldable pub spawn_posix_internal : SpawnOptions → Io (Result (ℤ × DrainState))
unfolding Pipes.new with_exe posix_with
spawn_posix_internal opts =
    Pipes.new opts.stdin opts.capture_stdout opts.capture_stderr >>? λ pipes.
    with_exe pipes (argv_of opts.ctx.argv) (posix_with pipes opts)
