-- ===== src/System/Procfs.antt =====
-- sys/mod.rs: probes of paths, and the files of /proc.
use coreshift_lowlevel.Prelude.{
  ℕ, zero, suc, ◌+◌, ◌/◌, ◌%◌, List, [], ◌∷◌, ◌++◌, ℤ, pos, negsuc, Bool, false, none, some, String,
  ltb, eq_int, if◌then◌else◌,
}
use coreshift_lowlevel.Os.{Io, pure, ◌>>=◌, perform, access, lstat, stat}
use coreshift_lowlevel.Error.{Result, ok, err, sys, syscall_ret, ◌>>?◌}
use coreshift_lowlevel.Text.{c_string}
use coreshift_lowlevel.Fd.{einval}
use coreshift_lowlevel.System.Exec.{Bytes}

unfoldable pub path_exists : Bytes → Io Bool
unfolding c_string perform
path_exists path = elim (c_string path) [
  | some c ↦ do r ← perform (access c); pure (eq_int r.ret (pos 0))
  | none ↦ pure false
]

unfoldable pub path_lstat_exists : Bytes → Io Bool
unfolding c_string perform
path_lstat_exists path = elim (c_string path) [
  | some c ↦ do r ← perform (lstat c); pure (eq_int r.ret (pos 0))
  | none ↦ pure false
]

unfoldable pub stat_uid : Bytes → String → Io (Result ℕ)
unfolding c_string sys perform syscall_ret
stat_uid path op = elim (c_string path) [
  | none ↦ pure (err (sys (pos einval) op))
  | some c ↦ do a ← perform (stat c); syscall_ret a.ret op >>? λ _. pure (ok a.uid)
]

unfoldable pub path_uid : Bytes → Io (Result ℕ)
unfolding stat_uid
path_uid path = stat_uid path "stat"

-- The digits of a number, before what is written already.
unfoldable pub digits : ℕ → ℕ → List ℕ → List ℕ
digits zero n done = done
digits (suc fuel) n done =
    let more = digits fuel (n / 10) ((b'0' + n % 10) ∷ done) in
    if ltb n 10 then (b'0' + n) ∷ done else more

-- `{}` of `format!`, for an `i32`, which has ten digits at most.
unfoldable pub show_int : ℤ → List ℕ
unfolding digits
show_int (pos n) = digits 10 n []
show_int (negsuc n) = b'-' ∷ digits 10 (suc n) []

-- `/proc/`
abbrev pub proc_dir : List ℕ
proc_dir = b'/' ∷ b'p' ∷ b'r' ∷ b'o' ∷ b'c' ∷ b'/' ∷ []

unfoldable pub proc_uid : ℤ → Io (Result ℕ)
unfolding show_int stat_uid
proc_uid pid = stat_uid (proc_dir ++ show_int pid) "stat"
