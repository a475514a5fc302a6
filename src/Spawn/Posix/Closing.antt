-- ===== src/Spawn/Posix/Closing.antt =====
-- spawn/mod.rs: the descriptors of the parent in `spawn_posix_internal`.
use coreshift_lowlevel.Prelude.{
  ℕ, ◌+◌, refl, List, [], ◌∷◌, ℤ, pos, negsuc, Option, none, some, arith, String,
}
use coreshift_lowlevel.Os.{
  Io, pure, ◌>>◌, perform, Call, Round, continue, break, closedir, readdir, fdopendir, open_fd_dir,
  file_actions_init, file_actions_adddup2, file_actions_addclose, file_actions_destroy, attr_init,
  attr_setpgroup, attr_setflags, attr_setsigmask, attr_setsigdefault, attr_destroy, posix_spawn,
}
use coreshift_lowlevel.Os.Steps.{
  Steps, Turns, Steps-pure, Steps-perform, Strides-perform, Steps-bind, Strides-bind, Turns-Strides,
  Steps-loop,
}
use coreshift_lowlevel.Os.Balance.{
  IsNeutral, is_fd, held_ok, Balanced, Balanced-bind, Balanced-then, Balanced-try, Balanced-call,
  Balanced-from, Balanced-done, Balanced-perform, Balanced-match, Balanced-if, Balanced-Steps,
}
use coreshift_lowlevel.Os.Endings.{Ends-bind, Ends-now, Balanced-Ends}
use coreshift_lowlevel.Error.{Result, posix_ret}
use coreshift_lowlevel.Fd.{Fd}
use coreshift_lowlevel.Fd.Closing.{held_opt, Balanced-close}
use coreshift_lowlevel.Io.Drain.Closing.{held_drain, Balanced-drop_opt, Balanced-new_drain}
use coreshift_lowlevel.System.Exec.{Bytes, ProcessGroup, argv_of, get_argv_ptrs, get_envp_ptrs}
use coreshift_lowlevel.System.Signals.{empty_set}
use coreshift_lowlevel.Spawn.Options.{SpawnOptions}
use coreshift_lowlevel.Spawn.Pipes.{Pipes}
use coreshift_lowlevel.Spawn.Pipes.Closing.{
  held_pipes, Balanced-close_all, Balanced-new_pipes, Steps-close_all,
}
use coreshift_lowlevel.Spawn.Posix.{
  or_close, guarded, wire, wire_all, handled_fds, stray_of, scan_round, scan_dir, is_null,
  close_strays, set_group, set_attributes, filter_stdin, keep_ends, launch, posix_with, with_exe,
  spawn_posix_internal,
}

-- The scan of the open descriptors only adds actions.
Neutral-scan_round :
    (handled : List ℤ) (dir_fd : ℤ) (u : Unit {0}) → Turns IsNeutral (scan_round handled dir_fd u)
unfolding scan_round
Neutral-scan_round handled dir_fd u =
    Turns-Strides (Strides-bind (Strides-perform (readdir dir_fd) tt) (λ entry. named entry.name))
  where
    closing :
        (o : Option ℤ)
        → Steps {A = Round (Unit {0}) (Unit {0})} IsNeutral (elim o [
          | none ↦ pure (continue tt)
          | some fd ↦ perform (file_actions_addclose fd) >> pure (continue tt)
        ])
    closing none = Steps-pure
    closing (some fd) = Steps-bind (Steps-perform (file_actions_addclose fd) tt) (λ _. Steps-pure)

    named :
        (o : Option Bytes)
        → Steps {A = Round (Unit {0}) (Unit {0})} IsNeutral (elim o [
          | none ↦ pure (break tt)
          | some name ↦ elim (stray_of handled dir_fd name) [
            | none ↦ pure (continue tt)
            | some fd ↦ perform (file_actions_addclose fd) >> pure (continue tt)
          ]
        ])
    named none = Steps-pure
    named (some name) = closing (stray_of handled dir_fd name)

module _ {x : ℕ} where
  -- A neutral call whose error closes the pipes.
  or_close_balances :
      (pipes : Pipes) (c : Call) (op : String) (k : ℕ)
      → IsNeutral c
      → Balanced x
          (held_pipes x pipes + k)
          (or_close pipes c op)
          (held_ok (λ _. held_pipes x pipes + k) k)
  unfolding or_close
  or_close_balances pipes c op k neutral =
      Balanced-bind (Balanced-Steps (held_pipes x pipes + k) (Steps-perform c neutral)) (λ a.
        Balanced-match (λ _. held_pipes x pipes + k) (posix_ret a.ret op) (λ _. Balanced-done refl)
          (λ e. Balanced-then (Balanced-close_all pipes k) (Balanced-done refl)))

  Balanced-guarded :
      {A : Type 0} {n : ℕ} {m : Io (Result A)} {held : Result A → ℕ} (c : Call)
      → IsNeutral c
      → Balanced x n m held
      → Balanced x n (guarded c m) held
  Balanced-guarded {A} {n} {m} {held} c neutral p =
      Balanced-bind p (λ r.
        Balanced-then (Balanced-Steps (held r) (Steps-perform c neutral)) (Balanced-done refl))

  wire_balances :
      (pipes : Pipes) (used other : Option Fd) (target : ℤ) (a b c : String) (k : ℕ)
      → Balanced x
          (held_pipes x pipes + k)
          (wire pipes used other target a b c)
          (held_ok (λ _. held_pipes x pipes + k) k)
  unfolding wire
  wire_balances pipes (some u) (some o) target a b c k =
      Balanced-try (or_close_balances pipes (file_actions_adddup2 u.raw_fd target) a k tt) (λ _.
        Balanced-try (or_close_balances pipes (file_actions_addclose u.raw_fd) b k tt)
          (λ _. or_close_balances pipes (file_actions_addclose o.raw_fd) c k tt))
  wire_balances pipes none other target a b c k = Balanced-done refl
  wire_balances pipes (some u) none target a b c k = Balanced-done refl

  wire_all_balances :
      (pipes : Pipes) (k : ℕ)
      → Balanced x
          (held_pipes x pipes + k)
          (wire_all pipes)
          (held_ok (λ _. held_pipes x pipes + k) k)
  unfolding wire_all
  wire_all_balances pipes k =
      Balanced-try (wire_balances pipes pipes.stdin_r pipes.stdin_w (pos 0) _ _ _ k) (λ _.
        Balanced-try (wire_balances pipes pipes.stdout_w pipes.stdout_r (pos 1) _ _ _ k)
          (λ _. wire_balances pipes pipes.stderr_w pipes.stderr_r (pos 2) _ _ _ k))

  -- The descriptor of the directory is closed, by itself or with its stream.
  scan_dir_balances :
      (handled : List ℤ) (fd : ℤ) (k : ℕ)
      → Balanced x (is_fd x fd + k) (scan_dir handled fd) (λ _. k)
  unfolding scan_dir
  scan_dir_balances handled (negsuc n) k = Balanced-done (omega arith)
  scan_dir_balances handled (pos n) k =
      Balanced-bind (Balanced-Steps (is_fd x (pos n) + k) (Steps-perform (fdopendir (pos n)) tt))
        (λ dir.
          Balanced-if (is_null dir.ret)
            (Balanced-then (Balanced-close (pos n) k) (Balanced-done refl))
            (Balanced-then
              (Balanced-then
                (Balanced-Steps (is_fd x (pos n) + k)
                  (Steps-loop tt (Neutral-scan_round handled (pos n))))
                (Balanced-perform (closedir (pos n)) (λ a h. omega arith)))
              (Balanced-done refl)))

  close_strays_balances : (pipes : Pipes) (k : ℕ) → Balanced x k (close_strays pipes) (λ _. k)
  unfolding close_strays
  close_strays_balances pipes k =
      Balanced-call open_fd_dir refl (λ a h. scan_dir_balances (handled_fds pipes) a.ret k)

  set_group_balances :
      (pipes : Pipes) (leader : Option ℤ) (k : ℕ)
      → Balanced x
          (held_pipes x pipes + k)
          (set_group pipes leader)
          (held_ok (λ _. held_pipes x pipes + k) k)
  unfolding set_group
  set_group_balances pipes none k = Balanced-done refl
  set_group_balances pipes (some pg) k =
      Balanced-try (or_close_balances pipes (attr_setpgroup pg) "setpgroup" k tt)
        (λ _. Balanced-done refl)

  set_attributes_balances :
      (pipes : Pipes) (pgroup : ProcessGroup) (k : ℕ)
      → Balanced x
          (held_pipes x pipes + k)
          (set_attributes pipes pgroup)
          (held_ok (λ _. held_pipes x pipes + k) k)
  unfolding set_attributes
  set_attributes_balances pipes pgroup k =
      Balanced-try (set_group_balances pipes pgroup.leader k) (λ flags.
        Balanced-try (or_close_balances pipes (attr_setflags _) "setflags" k tt) (λ _.
          Balanced-try (or_close_balances pipes (attr_setsigmask empty_set) "setsigmask" k tt)
            (λ _. or_close_balances pipes (attr_setsigdefault _) "setsigdefault" k tt)))

  Balanced-filter_stdin :
      (stdin_w : Option Fd) (stdin : Option Bytes) (k : ℕ)
      → Balanced x (held_opt x stdin_w + k) (filter_stdin stdin_w stdin) (λ o. held_opt x o + k)
  Balanced-filter_stdin stdin_w none k =
      Balanced-then (Balanced-drop_opt stdin_w k) (Balanced-done (omega arith))
  Balanced-filter_stdin stdin_w (some bytes) k = Balanced-done refl

  -- The ends of the pipes are in the drain, or closed.
  pub Balanced-keep_ends :
      (pipes : Pipes) (opts : SpawnOptions) (k : ℕ)
      → Balanced x
          (held_pipes x pipes + k)
          (keep_ends pipes opts)
          (held_ok (λ d. held_drain x d + k) k)
  unfolding keep_ends
  Balanced-keep_ends pipes opts k =
      let r = held_opt x pipes.stdout_r + held_opt x pipes.stderr_r + k in
      Balanced-from (omega arith) (
        Balanced-then
          (Balanced-drop_opt pipes.stdin_r (
            held_opt x pipes.stdout_w
            + (held_opt x pipes.stderr_w + (held_opt x pipes.stdin_w + r))))
          (Balanced-then
            (Balanced-drop_opt pipes.stdout_w
              (held_opt x pipes.stderr_w + (held_opt x pipes.stdin_w + r)))
            (Balanced-then (Balanced-drop_opt pipes.stderr_w (held_opt x pipes.stdin_w + r)) (
              Balanced-bind (Balanced-filter_stdin pipes.stdin_w opts.stdin r) (λ stdin_w.
                Balanced-from (omega arith) (
                  Balanced-new_drain stdin_w opts.stdin pipes.stdout_r pipes.stderr_r
                    opts.max_output opts.early_exit k))))))

  launch_balances :
      (pipes : Pipes) (opts : SpawnOptions) (exe : Bytes) (k : ℕ)
      → Balanced x
          (held_pipes x pipes + k)
          (launch pipes opts exe)
          (held_ok (λ p. held_drain x p.1 + k) k)
  unfolding launch
  launch_balances pipes opts exe k =
      Balanced-bind
        (Balanced-Steps (held_pipes x pipes + k)
          (Steps-perform (posix_spawn exe (get_argv_ptrs opts.ctx) (get_envp_ptrs opts.ctx)) tt))
        (λ a.
          Balanced-match (λ _. held_pipes x pipes + k) (posix_ret a.ret "posix_spawn")
            (λ _. Balanced-try (Balanced-keep_ends pipes opts k) (λ drain. Balanced-done refl))
            (λ e. Balanced-then (Balanced-close_all pipes k) (Balanced-done refl)))

  posix_with_balances :
      (pipes : Pipes) (opts : SpawnOptions) (exe : Bytes) (k : ℕ)
      → Balanced x
          (held_pipes x pipes + k)
          (posix_with pipes opts exe)
          (held_ok (λ p. held_drain x p.1 + k) k)
  unfolding posix_with
  posix_with_balances pipes opts exe k =
      Balanced-try (or_close_balances pipes file_actions_init "file_actions_init" k tt) (λ _.
        Balanced-guarded file_actions_destroy tt (
          Balanced-try (wire_all_balances pipes k) (λ _.
            Balanced-then (close_strays_balances pipes (held_pipes x pipes + k)) (
              Balanced-try (or_close_balances pipes attr_init "attr_init" k tt) (λ _.
                Balanced-guarded attr_destroy tt (
                  Balanced-try (set_attributes_balances pipes opts.pgroup k)
                    (λ _. launch_balances pipes opts exe k)))))))

  -- The panic ends the thread, so nothing is said of it but that the program does not return.
  pub Balanced-with_exe :
      {A : Type 0} {n : ℕ} {f : Bytes → Io A} {held : A → ℕ} (pipes : Pipes) (args : List Bytes)
      → ((exe : Bytes) → Balanced x n (f exe) held)
      → Balanced x n (with_exe pipes args f) held
  unfolding with_exe
  Balanced-with_exe {A} {n} {f} {held} pipes [] p =
      Balanced-Ends (Ends-bind (Steps-close_all (λ _ _. tt) pipes) (λ _. Ends-now {P = λ _. Unit}))
  Balanced-with_exe {A} {n} {f} {held} pipes (exe ∷ args) p = p exe

  pub spawn_posix_internal_balances :
      (opts : SpawnOptions) (k : ℕ)
      → Balanced x k (spawn_posix_internal opts) (held_ok (λ p. held_drain x p.1 + k) k)
  unfolding spawn_posix_internal
  spawn_posix_internal_balances opts k =
      Balanced-try (Balanced-new_pipes opts.stdin opts.capture_stdout opts.capture_stderr k)
        (λ pipes.
          Balanced-with_exe pipes (argv_of opts.ctx.argv)
            (λ exe. posix_with_balances pipes opts exe k))
