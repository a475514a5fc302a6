-- ===== src/Spawn/Pipes/Closing.antt =====
-- spawn/mod.rs: the descriptors of `Pipes`.
use coreshift_lowlevel.Prelude.{
  ℕ, zero, suc, ◌+◌, refl, ℤ, pos, negsuc, Bool, true, false, Option, none, some, is_some, arith,
  bit_or,
}
use coreshift_lowlevel.Os.{last_os_error, pipe2, FitsPipe, Call}
use coreshift_lowlevel.Os.Steps.{Steps, Steps-pure, Steps-bind}
use coreshift_lowlevel.Os.Balance.{
  opened_pair, held_ok, Balanced, Balanced-then, Balanced-try, Balanced-case, Balanced-call,
  Balanced-from, Balanced-done,
}
use coreshift_lowlevel.Error.{syscall_ret, ◌>>?◌}
use coreshift_lowlevel.Fd
use coreshift_lowlevel.Fd.{Fd, o_nonblock}
use coreshift_lowlevel.Fd.Closing.{held_fd, held_opt}
use coreshift_lowlevel.Reactor.{cloexec}
use coreshift_lowlevel.Io.Drain.{drop_opt}
use coreshift_lowlevel.Io.Drain.Closing.{Balanced-drop_opt, drop_opts}
use coreshift_lowlevel.System.Exec.{Bytes}
use coreshift_lowlevel.Spawn.WaitLoop.Plain.{IsPlain, Plain-drop_fd}
use coreshift_lowlevel.Spawn.Pipes
use coreshift_lowlevel.Spawn.Pipes.{Pipes, both_ends, make_pipe, pipe_if, drop_pair, close_all}

module _ (x : ℕ) where
  abbrev pub held_pair : Option Fd × Option Fd → ℕ
  held_pair (r, w) = held_opt x r + held_opt x w

  abbrev pub held_pipes : Pipes → ℕ
  held_pipes p =
      held_opt x p.stdin_r
      + (held_opt x p.stdin_w
          + (held_opt x p.stdout_r
              + (held_opt x p.stdout_w + (held_opt x p.stderr_r + held_opt x p.stderr_w))))

module _ {x : ℕ} where
  both_ends_balance :
      (ret : ℤ) (fds : ℤ × ℤ) (n : ℕ)
      → FitsPipe ret fds
      → Balanced x
          (opened_pair x ret fds + n)
          (syscall_ret ret "pipe2" >>? λ _. both_ends fds)
          (held_ok (λ p. held_fd x p.0 + held_fd x p.1 + n) n)
  unfolding syscall_ret last_os_error both_ends Fd.new
  both_ends_balance (pos m) (pos r, pos w) n h = Balanced-done refl
  both_ends_balance (pos m) (negsuc r, w) n h = absurd h.0
  both_ends_balance (pos m) (pos r, negsuc w) n h = absurd h.1
  both_ends_balance (negsuc zero) fds n h = record { run = λ s g. (omega arith, omega arith, g) }
  both_ends_balance (negsuc (suc m)) fds n h = absurd (omega (arith, h))

  make_pipe_balances :
      (n : ℕ) → Balanced x n make_pipe (held_ok (λ p. held_fd x p.0 + held_fd x p.1 + n) n)
  unfolding make_pipe
  make_pipe_balances n =
      Balanced-call (pipe2 (bit_or cloexec o_nonblock)) refl
        (λ a h. both_ends_balance a.ret a.fds n h)

  pipe_if_balances :
      (wanted : Bool) (n : ℕ) → Balanced x n (pipe_if wanted) (held_ok (λ p. held_pair x p + n) n)
  unfolding pipe_if
  pipe_if_balances false n = Balanced-done (omega arith)
  pipe_if_balances true n = Balanced-try (make_pipe_balances n) (λ p. Balanced-done refl)

  Balanced-drop_pair :
      (p : Option Fd × Option Fd) (k : ℕ) → Balanced x (held_pair x p + k) (drop_pair p) (λ _. k)
  Balanced-drop_pair (r, w) k =
      Balanced-from (omega arith)
        (Balanced-then (Balanced-drop_opt w (held_opt x r + k)) (Balanced-drop_opt r k))

  -- What is opened is in the pipes, or closed where there is an error.
  pub Balanced-new_pipes :
      (in_buf : Option Bytes) (out err_too : Bool) (k : ℕ)
      → Balanced x k (Pipes.new in_buf out err_too) (held_ok (λ p. held_pipes x p + k) k)
  unfolding Pipes.new
  Balanced-new_pipes in_buf out err_too k = Balanced-try (pipe_if_balances (is_some in_buf) k) (λ i.
      Balanced-case (pipe_if_balances out (held_pair x i + k))
        (λ o.
          Balanced-case (pipe_if_balances err_too (held_pair x o + (held_pair x i + k)))
            (λ e. Balanced-done (omega arith))
            (λ e.
              Balanced-then
                (Balanced-then (Balanced-drop_pair o (held_pair x i + k)) (Balanced-drop_pair i k))
                (Balanced-done refl)))
        (λ e. Balanced-then (Balanced-drop_pair i k) (Balanced-done refl)))

  pub Balanced-close_all :
      (p : Pipes) (k : ℕ) → Balanced x (held_pipes x p + k) (close_all p) (λ _. k)
  unfolding close_all
  Balanced-close_all p k = Balanced-from (omega arith) (
      Balanced-then
        (Balanced-then
          (Balanced-then
            (drop_opts p.stdin_r p.stdin_w p.stdout_r
              (held_opt x p.stdout_w + (held_opt x p.stderr_r + (held_opt x p.stderr_w + k))))
            (Balanced-drop_opt p.stdout_w (held_opt x p.stderr_r + (held_opt x p.stderr_w + k))))
          (Balanced-drop_opt p.stderr_r (held_opt x p.stderr_w + k)))
        (Balanced-drop_opt p.stderr_w k))

module _ {P : Call → Type 0} (plain : (c : Call) → IsPlain c → P c) where
  Steps-drop_opt : (fd : Option Fd) → Steps P (drop_opt fd)
  Steps-drop_opt none = Steps-pure
  Steps-drop_opt (some fd) = Plain-drop_fd plain fd

  pub Steps-close_all : (p : Pipes) → Steps P (close_all p)
  unfolding close_all
  Steps-close_all p =
      Steps-bind
        (Steps-bind
          (Steps-bind
            (Steps-bind (Steps-bind (Steps-drop_opt p.stdin_r) (λ _. Steps-drop_opt p.stdin_w))
              (λ _. Steps-drop_opt p.stdout_r))
            (λ _. Steps-drop_opt p.stdout_w))
          (λ _. Steps-drop_opt p.stderr_r))
        (λ _. Steps-drop_opt p.stderr_w)
