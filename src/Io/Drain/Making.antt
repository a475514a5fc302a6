-- ===== src/Io/Drain/Making.antt =====
-- io/drain.rs: the calls by which a `DrainState` is made.
use coreshift_lowlevel.Prelude.{ℕ, List, ℤ, Option, none, some}
use coreshift_lowlevel.Os.{Call, Io, ◌>>◌, close, fcntl_getfl, fcntl_setfl}
use coreshift_lowlevel.Os.Steps.{
  Steps, Steps-pure, Steps-perform, Steps-bind, Steps-result, Steps-int, Steps-syscall_ret,
}
use coreshift_lowlevel.Fd.{Fd, drop_fd, set_nonblock}
use coreshift_lowlevel.Io.Buffer.{EarlyExit}
use coreshift_lowlevel.Io.Drain
use coreshift_lowlevel.Io.Drain.{DrainState, drop_opt, nonblock_opt, kept, unkept}

module _ {P : Call → Type 0} (closes : (fd : ℤ) → P (close fd))
    (gets : (fd : ℤ) → P (fcntl_getfl fd))
    (sets : (fd : ℤ) (flags : ℕ) → P (fcntl_setfl fd flags)) where
  pub Steps-drop_opt : (fd : Option Fd) → Steps P (drop_opt fd)
  unfolding drop_fd
  Steps-drop_opt none = Steps-pure
  Steps-drop_opt (some fd) =
      Steps-int fd.raw_fd
        (λ n. Steps-bind (Steps-perform (close fd.raw_fd) (closes fd.raw_fd)) (λ _. Steps-pure))
        (λ n. Steps-pure)

  Steps-nonblock_opt : (fd : Option Fd) → Steps P (nonblock_opt fd)
  unfolding set_nonblock
  Steps-nonblock_opt none = Steps-pure
  Steps-nonblock_opt (some fd) =
      Steps-bind (Steps-perform (fcntl_getfl fd.raw_fd) (gets fd.raw_fd)) (λ flags.
        Steps-bind (Steps-syscall_ret flags.ret "fcntl(F_GETFL)") (λ r.
          Steps-result r
            (λ _.
              Steps-bind (Steps-perform (fcntl_setfl fd.raw_fd _) (sets fd.raw_fd _))
                (λ r'. Steps-syscall_ret r'.ret "fcntl(F_SETFL)"))
            (λ e. Steps-pure)))

  drops :
      {A : Type 0} (a b c : Option Fd) {m : Io A}
      → Steps P m
      → Steps P (drop_opt a >> drop_opt b >> drop_opt c >> m)
  drops a b c h =
      Steps-bind
        (Steps-bind (Steps-bind (Steps-drop_opt a) (λ _. Steps-drop_opt b)) (λ _. Steps-drop_opt c))
        (λ _. h)

  drops_four :
      {A : Type 0} (a b c d : Option Fd) {m : Io A}
      → Steps P m
      → Steps P (drop_opt a >> drop_opt b >> drop_opt c >> drop_opt d >> m)
  drops_four a b c d h =
      Steps-bind
        (Steps-bind
          (Steps-bind (Steps-bind (Steps-drop_opt a) (λ _. Steps-drop_opt b))
            (λ _. Steps-drop_opt c))
          (λ _. Steps-drop_opt d))
        (λ _. h)

  pub Steps-new_drain :
      (stdin_fd : Option Fd) (stdin_buf : Option (List ℕ)) (stdout_fd stderr_fd : Option Fd)
      (limit : ℕ) (early_exit : EarlyExit)
      → Steps P (Drain.new stdin_fd stdin_buf stdout_fd stderr_fd limit early_exit)
  unfolding Drain.new
  Steps-new_drain stdin_fd stdin_buf stdout_fd stderr_fd limit early_exit =
      let kept_fd = kept stdin_fd stdin_buf in
      let unkept_fd = unkept stdin_fd stdin_buf in
      Steps-bind (Steps-nonblock_opt kept_fd) (λ r.
        Steps-result r
          (λ _. Steps-bind (Steps-nonblock_opt stdout_fd) (λ r'.
            Steps-result r'
              (λ _. Steps-bind (Steps-nonblock_opt stderr_fd) (λ r''.
                Steps-result r'' (λ _. Steps-bind (Steps-drop_opt unkept_fd) (λ _. Steps-pure))
                  (λ e. drops_four stdout_fd kept_fd stderr_fd unkept_fd Steps-pure)))
              (λ e. drops_four kept_fd stderr_fd stdout_fd unkept_fd Steps-pure)))
          (λ e. drops stderr_fd stdout_fd stdin_fd Steps-pure))
