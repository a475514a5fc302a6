-- ===== src/Spawn/Pipes.antt =====
-- spawn/mod.rs: the pipes of a new process, `Pipes`, and `close_range_fast`.
pub mod Closing
use coreshift_lowlevel.Prelude.{
  ℕ, ◌+◌, ◌-◌, max, ℤ, Bool, true, false, Option, none, some, is_some, bit_or,
}
use coreshift_lowlevel.Os.{Io, pure, ◌>>=◌, ◌>>◌, perform, pipe2, close_range}
use coreshift_lowlevel.Error.{Result, ok, err, syscall_ret, ◌>>?◌}
use coreshift_lowlevel.Fd
use coreshift_lowlevel.Fd.{Fd, drop_fd, o_nonblock}
use coreshift_lowlevel.Reactor.{cloexec}
use coreshift_lowlevel.Io.Drain.{drop_opt}
use coreshift_lowlevel.System.Exec.{Bytes}

-- The second descriptor is made with the first at hand, which goes with an error of the second.
unfoldable pub both_ends : ℤ × ℤ → Io (Result (Fd × Fd))
unfolding Fd.new drop_fd
both_ends (first, second) = Fd.new first "pipe2" >>? λ r. do
  w ← Fd.new second "pipe2"
  elim w [ ok w ↦ pure (ok (r, w)) | err e ↦ drop_fd r >> pure (err e) ]

unfoldable pub make_pipe : Io (Result (Fd × Fd))
unfolding perform syscall_ret both_ends
make_pipe = do
  a ← perform (pipe2 (bit_or cloexec o_nonblock))
  syscall_ret a.ret "pipe2" >>? λ _. both_ends a.fds

pub record Pipes : Type 0 where
  pub stdin_r : Option Fd
  pub stdin_w : Option Fd
  pub stdout_r : Option Fd
  pub stdout_w : Option Fd
  pub stderr_r : Option Fd
  pub stderr_w : Option Fd

-- The two ends of a pipe that is asked for.
unfoldable pub pipe_if : Bool → Io (Result (Option Fd × Option Fd))
unfolding make_pipe
pipe_if false = pure (ok (none, none))
pipe_if true = make_pipe >>? λ (r, w). pure (ok (some r, some w))

-- The ends that were made before an error go out of scope, the last declared first.
abbrev pub drop_pair : Option Fd × Option Fd → Io (Unit {0})
drop_pair (r, w) = drop_opt w >> drop_opt r

unfoldable pub new : Option Bytes → Bool → Bool → Io (Result Pipes)
unfolding pipe_if drop_fd
new in_buf out err_too = pipe_if (is_some in_buf) >>? λ stdin. do
  o ← pipe_if out
  elim o [
    | err e ↦ drop_pair stdin >> pure (err e)
    | ok stdout ↦ do
      x ← pipe_if err_too
      elim x [
        | err e ↦ drop_pair stdout >> drop_pair stdin >> pure (err e)
        | ok stderr ↦ pure (
            ok (record {
              stdin_r = stdin.0;
              stdin_w = stdin.1;
              stdout_r = stdout.0;
              stdout_w = stdout.1;
              stderr_r = stderr.0;
              stderr_w = stderr.1;
            }))
      ]
  ]

-- Afterwards no end is left.
unfoldable pub close_all : Pipes → Io (Unit {0})
unfolding drop_fd
close_all pipes =
    drop_opt pipes.stdin_r
    >> drop_opt pipes.stdin_w
    >> drop_opt pipes.stdout_r
    >> drop_opt pipes.stdout_w
    >> drop_opt pipes.stderr_r
    >> drop_opt pipes.stderr_w

abbrev pub uint_top : ℕ
uint_top = 4294967295

-- The descriptor to keep is no less than 0.
unfoldable pub close_range_fast : Option ℕ → Io (Unit {0})
unfolding perform
close_range_fast none = perform (close_range 3 uint_top) >> pure tt
close_range_fast (some fd) =
    perform (close_range 3 (max (fd - 1) 2)) >> perform (close_range (fd + 1) uint_top) >> pure tt
