-- ===== src/Error.antt =====
-- spawn/mod.rs: `SysError` and the helpers that turn a C return value into a `Result`.
use coreshift_lowlevel.Prelude.{Option, some, String, ℤ, pos, minus_one, eq_int, if◌then◌else◌}
use coreshift_lowlevel.Os.{Io, pure, ◌>>=◌, last_os_error}

pub data SysError : Type 0 where
  syscall : ℤ → String → SysError

pub data Result (A : Type 0) : Type 0 where
  ok : A → Result A
  err : SysError → Result A

unfoldable pub sys : ℤ → String → SysError
sys code op = syscall code op

unfoldable pub raw_os_error : SysError → Option ℤ
raw_os_error (syscall code op) = some code

-- The pattern `let SysError::Syscall { code, .. } = &e`.
abbrev pub code_of : SysError → ℤ
code_of (syscall code op) = code

unfoldable pub syscall_ret : ℤ → String → Io (Result (Unit {0}))
unfolding sys last_os_error
syscall_ret ret op =
    if eq_int ret minus_one
    then (do code ← last_os_error; pure (err (sys (pos code) op)))
    else pure (ok tt)

unfoldable pub posix_ret : ℤ → String → Result (Unit {0})
unfolding sys
posix_ret ret op = if eq_int ret (pos 0) then ok tt else err (sys ret op)

-- The operator `?`, where no state of the caller is given up by the early return.
infixl 5 ◌>>?◌
abbrev pub ◌>>?◌ : {A B : Type 0} → Io (Result A) → (A → Io (Result B)) → Io (Result B)
m >>? f = m >>= λ r. elim r [ ok a ↦ f a | err e ↦ pure (err e) ]
