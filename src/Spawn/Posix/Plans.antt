-- ===== src/Spawn/Posix/Plans.antt =====
-- spawn/mod.rs: what the parent asks of `posix_spawn`, as its log tells.
use coreshift_lowlevel.Prelude.{
  ℕ, ◌≤◌, ◌≡◌, refl, sym, ◌∙◌, subst, List, [], ◌∷◌, ℤ, pos, Option, none, some, eq_int,
  if◌then◌else◌, arith, length,
}
use coreshift_lowlevel.Os.{
  Call, Answer, Sys, Happened, Io, pure, ◌>>=◌, perform, Post, Post-mono, Post-bind, Performed,
  Stopped, perform_lem, file_actions_init, file_actions_adddup2, file_actions_addclose, attr_init,
  attr_setpgroup, attr_setflags, attr_setsigmask, attr_setsigdefault,
}
use coreshift_lowlevel.Os.Steps.{Steps, Later, After}
use coreshift_lowlevel.Os.Traces.{Grown, same, grow}
use coreshift_lowlevel.Error.{Result, ok, err, ◌>>?◌}
use coreshift_lowlevel.Spawn.Wiring.{Table, duplicate, shut}

-- The file actions, applied to the parent's table, and the attributes.
pub record Plan : Type 0 where
  pub table : Table
  pub flags : ℕ
  pub group : Option ℤ
  pub mask : Option (List ℕ)
  pub default : Option (List ℕ)

abbrev pub if_zero : ℤ → Plan → Plan → Plan
if_zero ret v w = if eq_int ret (pos 0) then v else w

-- A call that returned so, on a plan whose process starts with the table t.
abbrev pub plan : Table → Call → ℤ → Plan → Plan
plan t file_actions_init ret w = record w { table = t }
plan t (file_actions_adddup2 fd target) ret w =
    if_zero ret (record w { table = duplicate fd target w.table }) w
plan t (file_actions_addclose fd) ret w = if_zero ret (record w { table = shut fd w.table }) w
plan t attr_init ret w = record w { flags = 0; group = none; mask = none; default = none }
plan t (attr_setpgroup pg) ret w = if_zero ret (record w { group = some pg }) w
plan t (attr_setflags flags) ret w = if_zero ret (record w { flags = flags }) w
plan t (attr_setsigmask set) ret w = if_zero ret (record w { mask = some set }) w
plan t (attr_setsigdefault set) ret w = if_zero ret (record w { default = some set }) w
plan t _ ret w = w

-- The plan of a log, the newest call first.
unfoldable pub plan_of : Table → List Happened → Plan
plan_of t [] = record { table = t; flags = 0; group = none; mask = none; default = none }
plan_of t (h ∷ log) = plan t h.call h.answer.ret (plan_of t log)

-- Calls that change no plan.
abbrev pub IsIdle : Call → Type 0
IsIdle file_actions_init = ⊥
IsIdle (file_actions_adddup2 fd target) = ⊥
IsIdle (file_actions_addclose fd) = ⊥
IsIdle attr_init = ⊥
IsIdle (attr_setpgroup pg) = ⊥
IsIdle (attr_setflags flags) = ⊥
IsIdle (attr_setsigmask set) = ⊥
IsIdle (attr_setsigdefault set) = ⊥
IsIdle _ = Unit

idle : (t : Table) (c : Call) (ret : ℤ) (w : Plan) → IsIdle c → plan t c ret w ≡ w
idle t file_actions_init ret w h = absurd h
idle t (file_actions_adddup2 fd target) ret w h = absurd h
idle t (file_actions_addclose fd) ret w h = absurd h
idle t attr_init ret w h = absurd h
idle t (attr_setpgroup pg) ret w h = absurd h
idle t (attr_setflags flags) ret w h = absurd h
idle t (attr_setsigmask set) ret w h = absurd h
idle t (attr_setsigdefault set) ret w h = absurd h
idle t _ ret w h = refl

Grown-plan_of : (t : Table) {a b : List Happened} → Grown IsIdle a b → plan_of t b ≡ plan_of t a
unfolding plan_of
Grown-plan_of t same = refl
Grown-plan_of t (grow {later = l} h p g) =
    idle t h.call h.answer.ret (plan_of t l) p ∙ Grown-plan_of t g

-- What is promised of a value.
abbrev pub OnOk : {A : Type 0} → (A → Plan → Type 0) → Result A → Plan → Type 0
OnOk Q (ok a) w = Q a w
OnOk Q (err e) w = Unit

abbrev Free : Sys → Type 0
Free _ = Unit

module _ (t : Table) where
  abbrev pub Planned : {A : Type 0} → (A → Plan → Type 0) → ℕ → A → Sys → Type 0
  Planned Q n a s = Q a (plan_of t s.log) × (length s.script ≤ n)

  -- From a plan of which U holds, with a result and a plan of which Q holds.
  pub record Planning {A : Type 0} (U : Plan → Type 0) (m : Io A) (Q : A → Plan → Type 0)
      : Type 0 where
    pub run : (s : Sys) → U (plan_of t s.log) → Post (Planned Q (length s.script)) Free (m s)

  pub Planning-pure : {A : Type 0} {a : A} {Q : A → Plan → Type 0} → Planning (Q a) (pure a) Q
  Planning-pure = record { run = λ s u. (u, omega arith) }

  pub Planning-bind :
      {A B : Type 0} {U : Plan → Type 0} {m : Io A} {f : A → Io B} {Q : A → Plan → Type 0}
      {R : B → Plan → Type 0}
      → Planning U m Q
      → ((a : A) → Planning (Q a) (f a) R)
      → Planning U (m >>= f) R
  Planning-bind {A} {B} {U} {m} {f} {Q} {R} h k = record {
    run = λ s u.
        Post-bind (Planned Q (length s.script)) (Planned R (length s.script)) Free m f s (h.run s u)
          (λ a s' q.
            Post-mono (Planned R (length s'.script)) (Planned R (length s.script)) Free Free
              (f a s') (λ b s'' r. (r.0, omega (arith, q.1, r.1))) (λ _ _. tt) ((k a).run s' q.0));
  }

  pub Planning-from :
      {A : Type 0} {U U' : Plan → Type 0} {m : Io A} {Q : A → Plan → Type 0}
      → ((w : Plan) → U' w → U w)
      → Planning U m Q
      → Planning U' m Q
  Planning-from f h = record { run = λ s u. h.run s (f (plan_of t s.log) u) }

  pub Planning-to :
      {A : Type 0} {U : Plan → Type 0} {m : Io A} {Q Q' : A → Plan → Type 0}
      → ((a : A) (w : Plan) → Q a w → Q' a w)
      → Planning U m Q
      → Planning U m Q'
  Planning-to {A} {U} {m} {Q} {Q'} f h = record {
    run = λ s u.
        Post-mono (Planned Q (length s.script)) (Planned Q' (length s.script)) Free Free (m s)
          (λ a s' q. (f a (plan_of t s'.log) q.0, q.1)) (λ _ _. tt) (h.run s u);
  }

  pub Planning-perform :
      (c : Call) {U : Plan → Type 0} {Q : Answer → Plan → Type 0}
      → ((w : Plan) (a : Answer) → U w → Q a (plan t c a.ret w))
      → Planning U (perform c) Q
  unfolding plan_of
  Planning-perform c {U} {Q} f = record {
    run = λ s u.
        Post-mono (Performed c s) (Planned Q (length s.script)) (Stopped s) Free (perform c s)
          (λ a s' p. (
            subst (λ l. Q a (plan_of t l)) (sym p.log) (f (plan_of t s.log) a u),
            omega (arith, p.used),
          ))
          (λ _ _. tt) (perform_lem c s);
  }

  pub Planning-idle :
      {A : Type 0} {U : Plan → Type 0} {m : Io A} → Steps IsIdle m → Planning U m (λ _. U)
  Planning-idle {A} {U} {m} h = record {
    run = λ s u.
        Post-mono (λ _. Later IsIdle s) (Planned (λ _. U) (length s.script)) (After IsIdle s) Free
          (m s) (λ a s' g. (subst U (sym (Grown-plan_of t g.0)) u, g.1)) (λ _ _. tt) (h.run s);
  }

  -- Nothing is promised.
  pub Planning-any :
      {A : Type 0} {U : Plan → Type 0} {m : Io A} → Steps (λ _. Unit) m → Planning U m (λ _ _. Unit)
  Planning-any {A} {U} {m} h = record {
    run = λ s u.
        Post-mono (λ _. Later (λ _. Unit) s) (Planned (λ _ _. Unit) (length s.script))
          (After (λ _. Unit) s) Free (m s) (λ a s' g. (tt, g.1)) (λ _ _. tt) (h.run s);
  }

  pub Planning-try :
      {A B : Type 0} {U : Plan → Type 0} {m : Io (Result A)} {f : A → Io (Result B)}
      {Q : A → Plan → Type 0} {R : B → Plan → Type 0}
      → Planning U m (OnOk Q)
      → ((a : A) → Planning (Q a) (f a) (OnOk R))
      → Planning U (m >>? f) (OnOk R)
  Planning-try {A} {B} {U} {m} {f} {Q} {R} h k = Planning-bind h go
    where
      go :
          (r : Result A)
          → Planning
              (OnOk Q r)
              (elim r as (λ _. Io (Result B)) [ ok a ↦ f a | err e ↦ pure (err e) ])
              (OnOk R)
      go (ok a) = k a
      go (err e) = Planning-pure
