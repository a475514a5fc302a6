-- ===== src/System/Exec/Validation.antt =====
-- sys/mod.rs: the validation in `ExecContext::new`.
use coreshift_lowlevel.Prelude.{
  ◌≡◌, ◌≢◌, refl, sym, ◌∙◌, ap, ◌↔◌, ◌⊎◌, inl, inr, List, [], ◌∷◌, map, ◌++◌, pos, false, Option,
  none, some, arith, String, Bool-cases,
}
use coreshift_lowlevel.Error.{Result, ok, err, syscall}
use coreshift_lowlevel.Text.{contains_nul}
use coreshift_lowlevel.Fd.{einval}
use coreshift_lowlevel.System.Exec.{
  Bytes, ExecContext, dynamic, checked, collect, collect_opt, checked_opt, new, get_argv_ptrs,
  pointers,
}

-- No byte is NUL.
abbrev pub Clean : Bytes → Type 0
Clean [] = Unit
Clean (b ∷ bs) = (b ≢ 0) × Clean bs

abbrev pub AllClean : List Bytes → Type 0
AllClean [] = Unit
AllClean (s ∷ rest) = Clean s × AllClean rest

abbrev pub CleanOpt : Option Bytes → Type 0
CleanOpt none = Unit
CleanOpt (some s) = Clean s

abbrev pub AllCleanOpt : Option (List Bytes) → Type 0
AllCleanOpt none = Unit
AllCleanOpt (some vars) = AllClean vars

contains_nul_iff : (s : Bytes) → (contains_nul s ≡ false) ↔ Clean s
unfolding contains_nul
contains_nul_iff [] = (λ _. tt, λ _. refl)
contains_nul_iff (b ∷ bs) = ground (arith, contains_nul_iff bs)

-- A result that is the input where it is valid, and else EINVAL under this name.
abbrev pub Decides : {A : Type 0} → String → Type 0 → A → Result A → Type 0
Decides op Valid a r = (Valid × (r ≡ ok a)) ⊎ ((¬ Valid) × (r ≡ err (syscall (pos einval) op)))

checked-Decides : (op : String) (s : Bytes) → Decides op (Clean s) s (checked op s)
unfolding checked
checked-Decides op s = elim (Bool-cases (contains_nul s)) [
  | inl dirty ↦ inr (λ c. cc (sym dirty ∙ (contains_nul_iff s).1 c), rw (dirty, checked))
  | inr fine ↦ inl ((contains_nul_iff s).0 fine, rw (fine, checked))
]

collect-Decides : (op : String) (v : List Bytes) → Decides op (AllClean v) v (collect op v)
unfolding collect
collect-Decides op [] = inl (tt, refl)
collect-Decides op (s ∷ rest) = elim (checked-Decides op s) [
  | inr (dirty, e) ↦ inr (λ c. dirty c.0, rw e)
  | inl (clean, e) ↦ elim (collect-Decides op rest) [
    | inr (dirty, e') ↦ inr (λ c. dirty c.1, rw (e, e'))
    | inl (clean', e') ↦ inl ((clean, clean'), rw (e, e'))
  ]
]

collect_opt-Decides :
    (op : String) (v : Option (List Bytes)) → Decides op (AllCleanOpt v) v (collect_opt op v)
collect_opt-Decides op none = inl (tt, refl)
collect_opt-Decides op (some v) = elim (collect-Decides op v) [
  | inr (dirty, e) ↦ inr (dirty, rw e)
  | inl (clean, e) ↦ inl (clean, rw e)
]

checked_opt-Decides :
    (op : String) (v : Option Bytes) → Decides op (CleanOpt v) v (checked_opt op v)
checked_opt-Decides op none = inl (tt, refl)
checked_opt-Decides op (some v) = elim (checked-Decides op v) [
  | inr (dirty, e) ↦ inr (dirty, rw e)
  | inl (clean, e) ↦ inl (clean, rw e)
]

pointers-map : (v : List Bytes) → pointers v ≡ map some v ++ (none ∷ [])
unfolding pointers
pointers-map [] = refl
pointers-map (s ∷ rest) = ap (λ t. some s ∷ t) (pointers-map rest)

-- What C can carry: some argument, and no NUL byte in any string.
abbrev pub IsValid : List Bytes → Option (List Bytes) → Option Bytes → Type 0
IsValid argv env cwd = (argv ≢ []) × AllClean argv × AllCleanOpt env × CleanOpt cwd

-- `ExecContext::new` accepts exactly a non-empty argument list in which, as in the environment and the
-- working directory where these are given, no string has a NUL byte. It then keeps all strings as they
-- are; the pointer array made of the arguments has one entry for each, in order, and a null behind them.
-- Everything else is refused with EINVAL.
pub new_decides :
    (argv : List Bytes) (env : Option (List Bytes)) (cwd : Option Bytes)
    → (IsValid argv env cwd
        × ((ctx : ExecContext) × (new argv env cwd ≡ ok ctx)
            × (ctx ≡ record { argv = dynamic argv; envp = env; cwd = cwd })
            × (get_argv_ptrs ctx ≡ map some argv ++ (none ∷ []))))
      ⊎ ((¬ IsValid argv env cwd)
          × ((op : String) × (new argv env cwd ≡ err (syscall (pos einval) op))))
unfolding new get_argv_ptrs
new_decides [] env cwd = inr (λ v. v.0 refl, ("exec argv empty", refl))
new_decides (a ∷ rest) env cwd = elim (collect-Decides "exec argv contains nul" (a ∷ rest)) [
  | inr (dirty, e) ↦ inr (λ v. dirty v.1, ("exec argv contains nul", rw e))
  | inl (clean, e) ↦ elim (collect_opt-Decides "exec env contains nul" env) [
    | inr (dirty, e') ↦ inr (λ v. dirty v.2, ("exec env contains nul", rw (e, e')))
    | inl (clean', e') ↦ elim (checked_opt-Decides "exec cwd contains nul" cwd) [
      | inr (dirty, e'') ↦ inr (λ v. dirty v.3, ("exec cwd contains nul", rw (e, e', e'')))
      | inl (clean'', e'') ↦ inl (
        (λ z. cc, clean, clean', clean''),
        (
          record { argv = dynamic (a ∷ rest); envp = env; cwd = cwd },
          rw (e, e', e''),
          refl,
          pointers-map (a ∷ rest),
        ),
      )
    ]
  ]
]
