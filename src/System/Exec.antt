-- ===== src/System/Exec.antt =====
-- sys/mod.rs: `ExecContext`, the validated arguments of a new process, and the types that go with it.
pub mod Validation
use coreshift_lowlevel.Prelude.{
  ℕ, List, [], ◌∷◌, ◌++◌, map, ℤ, pos, Bool, true, false, Option, some, String, if◌then◌else◌,
}
use coreshift_lowlevel.Error.{Result, ok, err, sys}
use coreshift_lowlevel.Text.{c_string}
use coreshift_lowlevel.Fd.{einval}

pub data CancelPolicy : Type 0 where
  none graceful kill : CancelPolicy

pub record ProcessGroup : Type 0 where
  pub leader : Option ℤ
  pub isolated : Bool

abbrev pub Bytes : Type 0
Bytes = List ℕ

pub data ExecArgv : Type 0 where
  dynamic : List Bytes → ExecArgv

pub record ExecContext : Type 0 where
  pub argv : ExecArgv
  pub envp : Option (List Bytes)
  pub cwd : Option Bytes

abbrev pub argv_of : ExecArgv → List Bytes
argv_of (dynamic v) = v

-- The operator `?` and the mapping of a value.
infixl 5 ◌>>=?◌
abbrev pub ◌>>=?◌ : {A B : Type 0} → Result A → (A → Result B) → Result B
ok a >>=? f = f a
err e >>=? f = err e

-- `CString::new(s).map_err(…)`
unfoldable pub checked : String → Bytes → Result Bytes
unfolding sys c_string
checked op s = elim (c_string s) [ Option.none ↦ err (sys (pos einval) op) | some c ↦ ok c ]

-- `.map(…).collect::<Result<_, _>>()`: the first error stops it.
unfoldable pub collect : String → List Bytes → Result (List Bytes)
unfolding checked
collect op [] = ok []
collect op (s ∷ rest) = let cs = collect op rest in checked op s >>=? λ c. cs >>=? λ r. ok (c ∷ r)

abbrev pub collect_opt : String → Option (List Bytes) → Result (Option (List Bytes))
collect_opt op Option.none = ok Option.none
collect_opt op (some vars) = collect op vars >>=? λ r. ok (some r)

abbrev pub checked_opt : String → Option Bytes → Result (Option Bytes)
checked_opt op Option.none = ok Option.none
checked_opt op (some c) = checked op c >>=? λ r. ok (some r)

abbrev pub is_empty {ℓ} : {A : Type ℓ} → List A → Bool
is_empty [] = true
is_empty (x ∷ xs) = false

unfoldable pub new : List Bytes → Option (List Bytes) → Option Bytes → Result ExecContext
unfolding sys collect
new argv env cwd =
    if is_empty argv
    then err (sys (pos einval) "exec argv empty")
    else (collect "exec argv contains nul" argv >>=? λ c_argv.
        collect_opt "exec env contains nul" env >>=? λ c_envp.
        checked_opt "exec cwd contains nul" cwd >>=? λ c_cwd.
        ok (record { argv = dynamic c_argv; envp = c_envp; cwd = c_cwd }))

-- A pointer is null or leads to the bytes of a string.
abbrev pub Pointer : Type 0
Pointer = Option Bytes

unfoldable pub pointers : List Bytes → List Pointer
pointers [] = Option.none ∷ []
pointers (s ∷ rest) = some s ∷ pointers rest

unfoldable pub get_argv_ptrs : ExecContext → List Pointer
unfolding pointers
get_argv_ptrs ctx = pointers (argv_of ctx.argv)

unfoldable pub get_envp_ptrs : ExecContext → Option (List Pointer)
unfolding pointers
get_envp_ptrs ctx = elim ctx.envp [ Option.none ↦ Option.none | some vars ↦ some (pointers vars) ]
