-- ===== src/Fd/Closing.antt =====
-- reactor/mod.rs: the descriptors that are held, and dropping them.
use coreshift_lowlevel.Prelude.{ℕ, ◌+◌, refl, ℤ, pos, negsuc, Option, none, some, arith, String}
use coreshift_lowlevel.Os.{close, fcntl_getfl, fcntl_setfl, perform}
use coreshift_lowlevel.Os.Steps.{
  Steps, Steps-pure, Steps-perform, Steps-bind, Steps-result, Steps-syscall_ret,
}
use coreshift_lowlevel.Os.Balance.{
  IsNeutral, is_fd, held_ok, Balanced, Balanced-pure, Balanced-bind, Balanced-perform, Balanced-eq,
  Balanced-any, Balanced-Steps,
}
use coreshift_lowlevel.Error.{syscall_ret}
use coreshift_lowlevel.Fd.Defs.{Fd, drop_fd, set_nonblock}

module _ (x : ℕ) where
  abbrev pub held_fd : Fd → ℕ
  held_fd fd = is_fd x fd.raw_fd

  abbrev pub held_opt : Option Fd → ℕ
  held_opt none = 0
  held_opt (some fd) = is_fd x fd.raw_fd

-- The two calls of `set_nonblock` open and close nothing.
Neutral-set_nonblock : (fd : Fd) → Steps IsNeutral (set_nonblock fd)
unfolding set_nonblock
Neutral-set_nonblock fd = Steps-bind (Steps-perform (fcntl_getfl fd.raw_fd) tt) (λ flags.
    Steps-bind (Steps-syscall_ret flags.ret "fcntl(F_GETFL)") (λ r.
      Steps-result r
        (λ _.
          Steps-bind (Steps-perform (fcntl_setfl fd.raw_fd _) tt)
            (λ r'. Steps-syscall_ret r'.ret "fcntl(F_SETFL)"))
        (λ e. Steps-pure)))

module _ {x : ℕ} where
  pub Balanced-close : (fd : ℤ) (k : ℕ) → Balanced x (is_fd x fd + k) (perform (close fd)) (λ _. k)
  Balanced-close fd k = Balanced-perform (close fd) (λ a h. omega arith)

  Balanced-drop_raw :
      (fd : ℤ) (k : ℕ) → Balanced x (is_fd x fd + k) (drop_fd (record { raw_fd = fd })) (λ _. k)
  unfolding drop_fd
  Balanced-drop_raw (pos n) k = Balanced-bind (Balanced-close (pos n) k) (λ _. Balanced-pure)
  Balanced-drop_raw (negsuc n) k =
      Balanced-eq (omega arith) (λ _. refl) (Balanced-pure {held = λ _. k})

  pub Balanced-drop_fd : (fd : Fd) (k : ℕ) → Balanced x (held_fd x fd + k) (drop_fd fd) (λ _. k)
  Balanced-drop_fd fd k = Balanced-drop_raw fd.raw_fd k

  pub Balanced-set_nonblock : (fd : Fd) (n : ℕ) → Balanced x n (set_nonblock fd) (λ _. n)
  Balanced-set_nonblock fd n = Balanced-Steps n (Neutral-set_nonblock fd)

  pub Balanced-syscall_ret :
      (ret : ℤ) (op : String) (n : ℕ) → Balanced x n (syscall_ret ret op) (held_ok (λ _. n) n)
  Balanced-syscall_ret ret op n = Balanced-any (Balanced-Steps n (Steps-syscall_ret ret op))
