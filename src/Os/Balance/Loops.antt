-- ===== src/Os/Balance/Loops.antt =====
-- Loops of programs that keep the descriptors in balance.
use coreshift_lowlevel.Prelude.{ℕ, refl, Bool, true, false, arith, length, if◌then◌else◌}
use coreshift_lowlevel.Os.Calls.{Sys}
use coreshift_lowlevel.Os.Programs.{Io, pure, ◌>>=◌, Round, continue, break, loop}
use coreshift_lowlevel.Os.Rules.{Post, Post-mono, Post-bind, Post-loop, RoundPost}
use coreshift_lowlevel.Os.Honest.{IsHonest}
use coreshift_lowlevel.Os.Steps.{Steps, Sooner}
use coreshift_lowlevel.Os.Balance.{
  Settled, Free, IsNeutral, Grown-neutral, Balanced, Balanced-Steps,
}

-- What a round holds, and a program that is a round.
abbrev pub held_round : {S A : Type 0} → (S → ℕ) → (A → ℕ) → Round S A → ℕ
held_round held kept (continue z) = held z
held_round held kept (break a) = kept a

abbrev pub Rounded : {S A : Type 0} → ℕ → ℕ → Sys → (S → ℕ) → (A → ℕ) → Round S A → Sys → Type 0
Rounded x n s held kept =
    RoundPost (λ z. Settled x n s (held z)) (λ a. Settled x n s (kept a)) (length s.script)

pub record BalancedRound {S A : Type 0} (x n : ℕ) (m : Io (Round S A)) (held : S → ℕ) (kept : A → ℕ)
    : Type 0 where
  pub run : (s : Sys) → IsHonest s.script → Post (Rounded x n s held kept) Free (m s)

module _ {x : ℕ} where
  -- A round of a loop, which has made a call where it goes on.
  pub Balanced-loop :
      {S A : Type 0} (body : S → Io (Round S A)) (held : S → ℕ) (kept : A → ℕ)
      → ((y : S) → BalancedRound x (held y) (body y) held kept)
      → (y : S) → Balanced x (held y) (loop body y) kept
  Balanced-loop {S} {A} body held kept p y = record {
    run = λ s h.
        Post-loop body (λ z. Settled x (held y) s (held z)) (λ a. Settled x (held y) s (kept a))
          Free
          (λ z w g.
            Post-mono (Rounded x (held z) w held kept)
              (RoundPost (λ z'. Settled x (held y) s (held z')) (λ a. Settled x (held y) s (kept a))
                (length w.script))
              Free Free (body z w) (rounded s z w g) (λ _ _. tt) ((p z).run w g.2))
          y s (refl, omega arith, h);
  }
    where
      rounded :
          (s : Sys) (z : S) (w : Sys)
          → Settled x (held y) s (held z) w
          → (r : Round S A) (w' : Sys) → Rounded x (held z) w held kept r w'
          → RoundPost
              (λ z'. Settled x (held y) s (held z'))
              (λ a. Settled x (held y) s (kept a))
              (length w.script)
              r
              w'
      rounded s z w g (continue z') w' g' =
          ((omega (arith, g.0, g'.0.0), omega (arith, g.1, g'.0.1), g'.0.2), g'.1)
      rounded s z w g (break a) w' g' = (omega (arith, g.0, g'.0), omega (arith, g.1, g'.1), g'.2)

  -- A round that leaves the loop.
  pub Round-leave :
      {S A : Type 0} {n : ℕ} {m : Io A} {held : S → ℕ} {kept : A → ℕ}
      → Balanced x n m kept
      → BalancedRound x n (m >>= λ a. pure (break a)) held kept
  Round-leave {S} {A} {n} {m} {held} {kept} p = record {
    run = λ s h.
        Post-bind (λ a. Settled x n s (kept a)) (Rounded x n s held kept) Free m
          (λ a. pure (break a)) s (p.run s h) (λ a s' g. g);
  }

  pub Round-pure :
      {S A : Type 0} {a : A} {held : S → ℕ} {kept : A → ℕ}
      → BalancedRound x (kept a) (pure (break a)) held kept
  Round-pure = record { run = λ s h. (refl, omega arith, h) }

  pub Round-if :
      {S A : Type 0} (b : Bool) {n : ℕ} {m m' : Io (Round S A)} {held : S → ℕ} {kept : A → ℕ}
      → BalancedRound x n m held kept
      → BalancedRound x n m' held kept
      → BalancedRound x n (if b then m else m') held kept
  Round-if true p q = p
  Round-if false p q = q

  -- Neutral steps before a round.
  pub Round-after :
      {B S A : Type 0} {n : ℕ} {m : Io B} {f : B → Io (Round S A)} {held : S → ℕ} {kept : A → ℕ}
      → Steps IsNeutral m
      → ((b : B) → BalancedRound x n (f b) held kept)
      → BalancedRound x n (m >>= f) held kept
  Round-after {B} {S} {A} {n} {m} {f} {held} {kept} p k = record {
    run = λ s h.
        Post-bind (λ _. Settled x n s n) (Rounded x n s held kept) Free m f s
          ((Balanced-Steps n p).run s h)
          (λ b s' g.
            Post-mono (Rounded x n s' held kept) (Rounded x n s held kept) Free Free (f b s')
              (later s s' g) (λ _ _. tt) ((k b).run s' g.2));
  }
    where
      later :
          (s s' : Sys)
          → Settled x n s n s'
          → (r : Round S A) (w : Sys) → Rounded x n s' held kept r w
          → Rounded x n s held kept r w
      later s s' g (continue z) w g' = (
        (omega (arith, g.0, g'.0.0), omega (arith, g.1, g'.0.1), g'.0.2),
        omega (arith, g.1, g'.1),
      )
      later s s' g (break a) w g' = (omega (arith, g.0, g'.0), omega (arith, g.1, g'.1), g'.2)

  -- Neutral calls, one at least, and what follows them are a round, however it ends.
  pub Round-called :
      {B S A : Type 0} {n : ℕ} {f : B → Io (Round S A)} {held : S → ℕ} {kept : A → ℕ} (m : Io B)
      (Q : B → Type 0)
      → ((s : Sys) → Post (λ b s'. Sooner IsNeutral s s' × Q b) Free (m s))
      → ((b : B) → Q b → Balanced x n (f b) (held_round held kept))
      → BalancedRound x n (m >>= f) held kept
  Round-called {B} {S} {A} {n} {f} {held} {kept} m Q p k = record {
    run = λ s h.
        Post-bind (λ b s'. Sooner IsNeutral s s' × Q b) (Rounded x n s held kept) Free m f s (p s)
          (λ b s' g.
            Post-mono (λ r. Settled x n s' (held_round held kept r)) (Rounded x n s held kept) Free
              Free (f b s') (later s s' g.0) (λ _ _. tt) ((k b g.1).run s' (g.0.2 h)));
  }
    where
      later :
          (s s' : Sys)
          → Sooner IsNeutral s s'
          → (r : Round S A) (w : Sys) → Settled x n s' (held_round held kept r) w
          → Rounded x n s held kept r w
      later s s' g (continue z) w g' =
          let e = Grown-neutral x g.0 in
          ((omega (arith, g'.0, e), omega (arith, g.1, g'.1), g'.2), omega (arith, g.1, g'.1))
      later s s' g (break a) w g' =
          let e = Grown-neutral x g.0 in (omega (arith, g'.0, e), omega (arith, g.1, g'.1), g'.2)
