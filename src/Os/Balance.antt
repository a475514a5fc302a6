-- ===== src/Os/Balance.antt =====
-- How often a log opens and closes a descriptor, and programs that keep the two in balance.
pub mod Loops
use coreshift_lowlevel.Prelude.{
  ℕ, Option, none, some, ◌+◌, ◌≤◌, ◌≡◌, refl, ap, Bool, true, false, List, [], ◌∷◌, ℤ, pos, negsuc,
  ◌==◌, if◌then◌else◌, arith, length,
}
use coreshift_lowlevel.Error.{Result, ok, err, SysError, ◌>>?◌}
use coreshift_lowlevel.Os.Calls.{
  Call, Answer, Sys, Happened, close, closedir, pipe2, open_fd_dir, epoll_create1, inotify_init1,
  signalfd,
}
use coreshift_lowlevel.Os.Programs.{Io, pure, ◌>>=◌, perform, Round, continue, break, loop}
use coreshift_lowlevel.Os.Rules.{
  Post, Post-mono, Post-bind, Post-loop, RoundPost, Performed, Stopped, perform_lem,
}
use coreshift_lowlevel.Os.Honest.{Fits, IsHonest}
use coreshift_lowlevel.Os.Traces.{Grown, same, grow}
use coreshift_lowlevel.Os.Steps.{Steps, Later, After, Sooner}

-- 1 where the number is the descriptor x.
abbrev pub is_fd : ℕ → ℤ → ℕ
is_fd x (pos n) = if n == x then 1 else 0
is_fd x (negsuc n) = 0

-- `pipe2` opens two descriptors where it succeeds.
abbrev pub opened_pair : ℕ → ℤ → ℤ × ℤ → ℕ
opened_pair x (pos n) (r, w) = is_fd x r + is_fd x w
opened_pair x (negsuc n) fds = 0

-- `signalfd` opens a descriptor where it is given none.
abbrev pub opens : ℕ → Call → Answer → ℕ
opens x (pipe2 flags) a = opened_pair x a.ret a.fds
opens x open_fd_dir a = is_fd x a.ret
opens x (epoll_create1 flags) a = is_fd x a.ret
opens x (inotify_init1 flags) a = is_fd x a.ret
opens x (signalfd (negsuc n) mask flags) a = is_fd x a.ret
opens x _ a = 0

-- The stream of a directory owns the descriptor that it was made of.
abbrev pub closes : ℕ → Call → ℕ
closes x (close fd) = is_fd x fd
closes x (closedir fd) = is_fd x fd
closes x _ = 0

unfoldable pub opened : ℕ → List Happened → ℕ
opened x [] = 0
opened x (h ∷ log) = opens x h.call h.answer + opened x log

unfoldable pub closed : ℕ → List Happened → ℕ
closed x [] = 0
closed x (h ∷ log) = closes x h.call + closed x log

-- Calls that open and close nothing.
abbrev pub IsNeutral : Call → Type 0
IsNeutral (close fd) = ⊥
IsNeutral (closedir fd) = ⊥
IsNeutral (pipe2 flags) = ⊥
IsNeutral open_fd_dir = ⊥
IsNeutral (epoll_create1 flags) = ⊥
IsNeutral (inotify_init1 flags) = ⊥
IsNeutral (signalfd fd mask flags) = ⊥
IsNeutral _ = Unit

-- From a world in which x is held n times to one in which it is held m times, by calls that make up
-- the difference.
abbrev pub Moved : ℕ → ℕ → Sys → ℕ → Sys → Type 0
Moved x n s m s' = opened x s'.log + closed x s.log + n ≡ opened x s.log + closed x s'.log + m

abbrev pub Settled : ℕ → ℕ → Sys → ℕ → Sys → Type 0
Settled x n s m s' = Moved x n s m s' × (length s'.script ≤ length s.script) × IsHonest s'.script

abbrev Free : Sys → Type 0
Free _ = Unit

-- A program that starts with x held n times, and ends with it held as often as its result says.
pub record Balanced {A : Type 0} (x n : ℕ) (m : Io A) (held : A → ℕ) : Type 0 where
  pub run : (s : Sys) → IsHonest s.script → Post (λ a. Settled x n s (held a)) Free (m s)

neutral : (x : ℕ) (c : Call) (a : Answer) → IsNeutral c → opens x c a + closes x c ≡ 0
neutral x (close fd) a h = absurd h
neutral x (closedir fd) a h = absurd h
neutral x (pipe2 flags) a h = absurd h
neutral x open_fd_dir a h = absurd h
neutral x (epoll_create1 flags) a h = absurd h
neutral x (inotify_init1 flags) a h = absurd h
neutral x (signalfd fd mask flags) a h = absurd h
neutral x _ a h = refl

Grown-neutral :
    (x : ℕ) {a b : List Happened}
    → Grown IsNeutral a b
    → (opened x b ≡ opened x a) × (closed x b ≡ closed x a)
unfolding opened closed
Grown-neutral x same = (refl, refl)
Grown-neutral x (grow h p g) =
    let rest = Grown-neutral x g in
    let e = neutral x h.call h.answer p in (omega (arith, rest, e), omega (arith, rest, e))

abbrev pub held_ok : {A : Type 0} → (A → ℕ) → ℕ → Result A → ℕ
held_ok held n (ok a) = held a
held_ok held n (err e) = n

module _ {x : ℕ} where
  pub Balanced-pure : {A : Type 0} {a : A} {held : A → ℕ} → Balanced x (held a) (pure a) held
  Balanced-pure = record { run = λ s h. (refl, omega arith, h) }

  pub Balanced-bind :
      {A B : Type 0} {n : ℕ} {m : Io A} {f : A → Io B} {held : A → ℕ} {kept : B → ℕ}
      → Balanced x n m held
      → ((a : A) → Balanced x (held a) (f a) kept)
      → Balanced x n (m >>= f) kept
  Balanced-bind {A} {B} {n} {m} {f} {held} {kept} p k = record {
    run = λ s h.
        Post-bind (λ a. Settled x n s (held a)) (λ b. Settled x n s (kept b)) Free m f s (p.run s h)
          (λ a s' g.
            Post-mono (λ b. Settled x (held a) s' (kept b)) (λ b. Settled x n s (kept b)) Free Free
              (f a s') (λ b s'' g'. (omega (arith, g.0, g'.0), omega (arith, g.1, g'.1), g'.2))
              (λ _ _. tt) ((k a).run s' g.2));
  }

  pub Balanced-then :
      {A B : Type 0} {n k : ℕ} {m : Io A} {m' : Io B} {kept : B → ℕ}
      → Balanced x n m (λ _. k)
      → Balanced x k m' kept
      → Balanced x n (m >>= λ _. m') kept
  Balanced-then p q = Balanced-bind p (λ _. q)

  -- What else is held stays so.
  pub Balanced-frame :
      {A : Type 0} {n : ℕ} {m : Io A} {held : A → ℕ} (k : ℕ)
      → Balanced x n m held
      → Balanced x (n + k) m (λ a. held a + k)
  Balanced-frame {A} {n} {m} {held} k p = record {
    run = λ s h.
        Post-mono (λ a. Settled x n s (held a)) (λ a. Settled x (n + k) s (held a + k)) Free Free
          (m s) (λ a s' g. (omega (arith, g.0), g.1, g.2)) (λ _ _. tt) (p.run s h);
  }

  pub Balanced-eq :
      {A : Type 0} {n n' : ℕ} {m : Io A} {held held' : A → ℕ}
      → n ≡ n'
      → ((a : A) → held a ≡ held' a)
      → Balanced x n m held
      → Balanced x n' m held'
  Balanced-eq {A} {n} {n'} {m} {held} {held'} e e' p = record {
    run = λ s h.
        Post-mono (λ a. Settled x n s (held a)) (λ a. Settled x n' s (held' a)) Free Free (m s)
          (λ a s' g. (omega (arith, g.0, e, e' a), g.1, g.2)) (λ _ _. tt) (p.run s h);
  }

  pub Balanced-Steps : {A : Type 0} {m : Io A} (n : ℕ) → Steps IsNeutral m → Balanced x n m (λ _. n)
  Balanced-Steps {A} {m} n p = record {
    run = λ s h.
        Post-mono (λ _. Later IsNeutral s) (λ _. Settled x n s n) (After IsNeutral s) Free (m s)
          (λ a s' g. (let e = Grown-neutral x g.0 in omega (arith, e), g.1, g.2 h)) (λ _ _. tt)
          (p.run s);
  }

  -- One call, by what it opens and closes.
  pub Balanced-perform :
      (c : Call) {n : ℕ} {held : Answer → ℕ}
      → ((a : Answer) → Fits c a → opens x c a + n ≡ closes x c + held a)
      → Balanced x n (perform c) held
  unfolding opened closed
  Balanced-perform c {n} {held} e = record {
    run = λ s h.
        Post-mono (Performed c s) (λ a. Settled x n s (held a)) (λ _. Free s) Free (perform c s)
          (λ a s' p. (
            omega (arith, ap (opened x) p.log, ap (closed x) p.log, e a (p.honest h).0),
            omega (arith, p.used),
            (p.honest h).1,
          ))
          (λ _ _. tt)
          (Post-mono (Performed c s) (Performed c s) _ (λ _. Free s) (perform c s) (λ a s' p. p)
            (λ _ _. tt) (perform_lem c s));
  }

  -- A call that closes nothing, and what follows it, which may rely on the kernel's honesty.
  pub Balanced-call :
      {B : Type 0} (c : Call) {n : ℕ} {f : Answer → Io B} {kept : B → ℕ}
      → closes x c ≡ 0
      → ((a : Answer) → Fits c a → Balanced x (opens x c a + n) (f a) kept)
      → Balanced x n (perform c >>= f) kept
  unfolding opened closed
  Balanced-call {B} c {n} {f} {kept} none_closed k = record {
    run = λ s h.
        Post-bind (Performed c s) (λ b. Settled x n s (kept b)) Free (perform c) f s
          (Post-mono (Performed c s) (Performed c s) (Stopped s) Free (perform c s) (λ _ _ p. p)
            (λ _ _. tt) (perform_lem c s))
          (λ a s' p.
            Post-mono (λ b. Settled x (opens x c a + n) s' (kept b)) (λ b. Settled x n s (kept b))
              Free Free (f a s')
              (λ b s'' g. (
                omega (arith, ap (opened x) p.log, ap (closed x) p.log, none_closed, g.0),
                omega (arith, p.used, g.1),
                g.2,
              ))
              (λ _ _. tt) ((k a (p.honest h).0).run s' (p.honest h).1));
  }

  pub Balanced-if :
      {A : Type 0} (b : Bool) {n : ℕ} {m m' : Io A} {held : A → ℕ}
      → Balanced x n m held
      → Balanced x n m' held
      → Balanced x n (if b then m else m') held
  Balanced-if true p q = p
  Balanced-if false p q = q

  -- The start, and a result, held as often by an equation.
  pub Balanced-from :
      {A : Type 0} {n n' : ℕ} {m : Io A} {held : A → ℕ}
      → n' ≡ n
      → Balanced x n m held
      → Balanced x n' m held
  Balanced-from {A} {n} {n'} {m} {held} e p = Balanced-eq (omega (arith, e)) (λ a. refl) p

  pub Balanced-done :
      {A : Type 0} {n : ℕ} {a : A} {held : A → ℕ} → n ≡ held a → Balanced x n (pure a) held
  Balanced-done {A} {n} {a} {held} e = Balanced-from e (Balanced-pure {held = held})

  pub Balanced-option :
      {A B : Type 0} {n : ℕ} (o : Option A) {f : A → Io B} {m : Io B} {kept : B → ℕ}
      → ((a : A) → Balanced x n (f a) kept)
      → Balanced x n m kept
      → Balanced x n (elim o [ some a ↦ f a | none ↦ m ]) kept
  Balanced-option (some a) p q = p a
  Balanced-option none p q = q

  -- A result that is matched on.
  pub Balanced-match :
      {A B : Type 0} (n : Result A → ℕ) (r : Result A) {f : A → Io B} {g : SysError → Io B}
      {kept : B → ℕ}
      → ((a : A) → Balanced x (n (ok a)) (f a) kept)
      → ((e : SysError) → Balanced x (n (err e)) (g e) kept)
      → Balanced x (n r) (elim r [ ok a ↦ f a | err e ↦ g e ]) kept
  Balanced-match n (ok a) p q = p a
  Balanced-match n (err e) p q = q e

  pub Balanced-case :
      {A B : Type 0} {n : ℕ} {m : Io (Result A)} {held : Result A → ℕ} {f : A → Io B}
      {g : SysError → Io B} {kept : B → ℕ}
      → Balanced x n m held
      → ((a : A) → Balanced x (held (ok a)) (f a) kept)
      → ((e : SysError) → Balanced x (held (err e)) (g e) kept)
      → Balanced x n (m >>= λ r. elim r [ ok a ↦ f a | err e ↦ g e ]) kept
  Balanced-case {A} {B} {n} {m} {held} p f g = Balanced-bind p (λ r. Balanced-match held r f g)

  -- An error holds as much as a value does.
  pub Balanced-any :
      {A : Type 0} {n k : ℕ} {m : Io (Result A)}
      → Balanced x n m (λ _. k)
      → Balanced x n m (held_ok (λ _. k) k)
  Balanced-any {A} {n} {k} p = Balanced-eq refl same p
    where
      same : (r : Result A) → k ≡ held_ok (λ _. k) k r
      same (ok a) = refl
      same (err e) = refl

  -- The operator `?`: an error holds nothing.
  pub Balanced-try :
      {A B : Type 0} {n : ℕ} {m : Io (Result A)} {f : A → Io (Result B)} {held : A → ℕ}
      {kept : B → ℕ} {k : ℕ}
      → Balanced x n m (held_ok held k)
      → ((a : A) → Balanced x (held a) (f a) (held_ok kept k))
      → Balanced x n (m >>? f) (held_ok kept k)
  Balanced-try {A} {B} {n} {m} {f} {held} {kept} {k} p q = Balanced-bind p go
    where
      go :
          (r : Result A)
          → Balanced x
              (held_ok held k r)
              (elim r as (λ _. Io (Result B)) [ ok a ↦ f a | err e ↦ pure (err e) ])
              (held_ok kept k)
      go (ok a) = q a
      go (err e) = Balanced-pure
