-- ===== src/Os/Endings.antt =====
-- Programs that do not return: they end with their process, or wait in a call.
use coreshift_lowlevel.Os.Calls.{Call, Sys}
use coreshift_lowlevel.Os.Programs.{Io, ended, ◌>>=◌}
use coreshift_lowlevel.Os.Rules.{Post, Post-mono, Post-bind}
use coreshift_lowlevel.Os.Traces.{same, Grown-trans}
use coreshift_lowlevel.Os.Steps.{Steps, Later, After}
use coreshift_lowlevel.Os.Balance.{Balanced, Settled}
use coreshift_lowlevel.Prelude.{ℕ}

-- A program that makes calls of the kind P and never returns.
pub record Ends {A : Type 0} (P : Call → Type 0) (m : Io A) : Type 0 where
  pub run : (s : Sys) → Post (λ _ _. ⊥) (After P s) (m s)

module _ {P : Call → Type 0} where
  pub Ends-now : {A : Type 0} → Ends {A = A} P (λ s. ended s)
  Ends-now = record { run = λ s. same }

  pub Ends-bind :
      {A B : Type 0} {m : Io A} {f : A → Io B}
      → Steps P m
      → ((a : A) → Ends P (f a))
      → Ends P (m >>= f)
  Ends-bind {A} {B} {m} {f} p k = record {
    run = λ s.
        Post-bind (λ _. Later P s) (λ _ _. ⊥) (After P s) m f s (p.run s)
          (λ a s' g.
            Post-mono (λ _ _. ⊥) (λ _ _. ⊥) (After P s') (After P s) (f a s') (λ _ _ h. h)
              (λ s'' g'. Grown-trans P g.0 g') ((k a).run s'));
  }

  pub Steps-Ends : {A : Type 0} {m : Io A} → Ends P m → Steps P m
  Steps-Ends {A} {m} p = record {
    run = λ s.
        Post-mono (λ _ _. ⊥) (λ _. Later P s) (After P s) (After P s) (m s) (λ _ _ e. absurd e)
          (λ _ g. g) (p.run s);
  }

  -- What never returns keeps every balance.
  pub Balanced-Ends :
      {A : Type 0} {x n : ℕ} {m : Io A} {held : A → ℕ} → Ends P m → Balanced x n m held
  Balanced-Ends {A} {x} {n} {m} {held} p = record {
    run = λ s h.
        Post-mono (λ _ _. ⊥) (λ a. Settled x n s (held a)) (After P s) (λ _. Unit) (m s)
          (λ _ _ e. absurd e) (λ _ _. tt) (p.run s);
  }
