-- ===== src/Spawn/Fork/Calls.antt =====
-- spawn/mod.rs: every call that `spawn_fork_internal` makes, in the parent and in the child.
use coreshift_lowlevel.Prelude.{
  zero, suc, ℤ, pos, negsuc, minus_one, List, [], ◌∷◌, Bool, true, false, Option, none, some,
  String, is_some,
}
use coreshift_lowlevel.Os.{Call, Io, fork, pipe2, close, fcntl_getfl, fcntl_setfl}
use coreshift_lowlevel.Os.Steps.{
  Steps, Steps-pure, Steps-perform, Steps-bind, Steps-result, Steps-syscall_ret,
  Steps-last_os_error,
}
use coreshift_lowlevel.Os.Endings.{Ends-now, Steps-Ends}
use coreshift_lowlevel.Error.{Result, ◌>>?◌}
use coreshift_lowlevel.Fd
use coreshift_lowlevel.Fd.{Fd, o_nonblock}
use coreshift_lowlevel.Io.Drain.{drop_opt}
use coreshift_lowlevel.Io.Drain.Making.{Steps-drop_opt, Steps-new_drain}
use coreshift_lowlevel.System.Exec.{Bytes, argv_of}
use coreshift_lowlevel.Spawn.Options.{SpawnOptions}
use coreshift_lowlevel.Spawn.Pipes
use coreshift_lowlevel.Spawn.Pipes.{Pipes, both_ends, make_pipe, pipe_if, drop_pair}
use coreshift_lowlevel.Spawn.Pipes.Closing.{Steps-close_all}
use coreshift_lowlevel.Spawn.Posix.{keep_ends, filter_stdin, with_exe}
use coreshift_lowlevel.Spawn.WaitLoop.Plain.{IsPlain, Plain-drop_fd}
use coreshift_lowlevel.Spawn.Fork.{parent, no_pipes, forked, fork_with, spawn_fork_internal}
use coreshift_lowlevel.Spawn.Fork.Closing.{Ends-child}

module _ {P : Call → Type 0} (plain : (c : Call) → IsPlain c → P c) where
  -- The operator `?`.
  Steps-try :
      {A B : Type 0} {m : Io (Result A)} {f : A → Io (Result B)}
      → Steps P m
      → ((a : A) → Steps P (f a))
      → Steps P (m >>? f)
  Steps-try h k = Steps-bind h (λ r. Steps-result r k (λ e. Steps-pure))

  Steps-new_fd : (fd : ℤ) (op : String) → Steps P (Fd.new fd op)
  unfolding Fd.new
  Steps-new_fd (pos n) op = Steps-pure
  Steps-new_fd (negsuc n) op = Steps-bind Steps-last_os_error (λ e. Steps-pure)

  drop : (fd : Option Fd) → Steps P (drop_opt fd)
  drop fd =
      Steps-drop_opt (λ x. plain (close x) tt) (λ x. plain (fcntl_getfl x) tt)
        (λ x flags. plain (fcntl_setfl x flags) tt) fd

  Steps-both_ends : (fds : ℤ × ℤ) → Steps P (both_ends fds)
  unfolding both_ends
  Steps-both_ends (first, second) = Steps-try (Steps-new_fd first "pipe2") (λ r.
      Steps-bind (Steps-new_fd second "pipe2") (λ w.
        Steps-result w (λ _. Steps-pure)
          (λ e. Steps-bind (Plain-drop_fd plain r) (λ _. Steps-pure))))

  Steps-make_pipe : Steps P make_pipe
  unfolding make_pipe
  Steps-make_pipe =
      Steps-bind (Steps-perform (pipe2 _) (plain (pipe2 _) tt))
        (λ a. Steps-try (Steps-syscall_ret a.ret "pipe2") (λ _. Steps-both_ends a.fds))

  Steps-pipe_if : (wanted : Bool) → Steps P (pipe_if wanted)
  unfolding pipe_if
  Steps-pipe_if false = Steps-pure
  Steps-pipe_if true = Steps-try Steps-make_pipe (λ p. Steps-pure)

  Steps-drop_pair : (p : Option Fd × Option Fd) → Steps P (drop_pair p)
  Steps-drop_pair (r, w) = Steps-bind (drop w) (λ _. drop r)

  Steps-new_pipes :
      (in_buf : Option Bytes) (out err_too : Bool) → Steps P (Pipes.new in_buf out err_too)
  unfolding Pipes.new
  Steps-new_pipes in_buf out err_too = Steps-try (Steps-pipe_if (is_some in_buf)) (λ i.
      Steps-bind (Steps-pipe_if out) (λ o.
        Steps-result o
          (λ stdout. Steps-bind (Steps-pipe_if err_too) (λ x.
            Steps-result x (λ stderr. Steps-pure)
              (λ e.
                Steps-bind (Steps-bind (Steps-drop_pair stdout) (λ _. Steps-drop_pair i))
                  (λ _. Steps-pure))))
          (λ e. Steps-bind (Steps-drop_pair i) (λ _. Steps-pure))))

  filtered : (stdin_w : Option Fd) (stdin : Option Bytes) → Steps P (filter_stdin stdin_w stdin)
  filtered stdin_w none = Steps-bind (drop stdin_w) (λ _. Steps-pure)
  filtered stdin_w (some bytes) = Steps-pure

  Steps-keep_ends : (p : Pipes) (opts : SpawnOptions) → Steps P (keep_ends p opts)
  unfolding keep_ends
  Steps-keep_ends p opts = Steps-bind (drop p.stdin_r) (λ _. Steps-bind (drop p.stdout_w) (λ _.
      Steps-bind (drop p.stderr_w) (λ _. Steps-bind (filtered p.stdin_w opts.stdin) (λ stdin_w.
        Steps-new_drain (λ x. plain (close x) tt) (λ x. plain (fcntl_getfl x) tt)
          (λ x flags. plain (fcntl_setfl x flags) tt) stdin_w opts.stdin p.stdout_r p.stderr_r
          opts.max_output opts.early_exit))))

  Steps-parent : (pid : ℤ) (p : Pipes) (opts : SpawnOptions) → Steps P (parent pid p opts)
  unfolding parent
  Steps-parent pid p opts = Steps-try (Steps-keep_ends p opts) (λ drain. Steps-pure)

  Steps-forked :
      (ret : ℤ) (p : Pipes) (opts : SpawnOptions) (exe : Bytes) → Steps P (forked ret p opts exe)
  unfolding forked
  Steps-forked (negsuc n) p opts exe =
      Steps-try (Steps-bind (Steps-close_all plain p) (λ _. Steps-syscall_ret minus_one "fork"))
        (λ _. Steps-parent (negsuc n) no_pipes opts)
  Steps-forked (pos zero) p opts exe = Steps-Ends (Ends-child plain p opts exe)
  Steps-forked (pos (suc n)) p opts exe = Steps-parent (pos (suc n)) p opts

  Steps-with_exe :
      {A : Type 0} (p : Pipes) (args : List Bytes) {f : Bytes → Io A}
      → ((exe : Bytes) → Steps P (f exe))
      → Steps P (with_exe p args f)
  unfolding with_exe
  Steps-with_exe p [] h = Steps-bind (Steps-close_all plain p) (λ _. Steps-Ends Ends-now)
  Steps-with_exe p (exe ∷ args) h = h exe

  pub Steps-spawn_fork_internal : (opts : SpawnOptions) → Steps P (spawn_fork_internal opts)
  unfolding spawn_fork_internal fork_with
  Steps-spawn_fork_internal opts =
      Steps-try (Steps-new_pipes opts.stdin opts.capture_stdout opts.capture_stderr) (λ p.
        Steps-with_exe p (argv_of opts.ctx.argv) (λ exe.
          Steps-bind (Steps-perform fork (plain fork tt)) (λ a. Steps-forked a.ret p opts exe)))
