-- ===== src/Os/Rules.antt =====
-- Total correctness of programs: a statement about the result where the program returns, and
-- about the world where it waits in a call. Running out of fuel satisfies none.
use coreshift_lowlevel.Prelude.{
  ℕ, zero, suc, ◌≤◌, ◌<◌, ◌≡◌, refl, sym, ◌∙◌, ap, subst, List, [], ◌∷◌, arith, length,
}
use coreshift_lowlevel.Os.Calls.{Call, Answer, Sys, Happened}
use coreshift_lowlevel.Os.Programs.{
  Outcome, returned, waiting, ended, out_of_fuel, Io, ◌>>=◌, perform, Round, continue, break,
  loop_fuel, loop, attempt, retrying, answer_to, pure, last_os_error,
}
use coreshift_lowlevel.Os.Honest.{Fits, IsHonest}

module _ {A : Type 0} where
  abbrev pub Post : (A → Sys → Type 0) → (Sys → Type 0) → Outcome A → Type 0
  Post Q R (returned a s) = Q a s
  Post Q R (waiting s) = R s
  Post Q R (ended s) = R s
  Post Q R out_of_fuel = ⊥

  pub Post-mono :
      (Q Q' : A → Sys → Type 0) (R R' : Sys → Type 0) (o : Outcome A)
      → ((a : A) (s : Sys) → Q a s → Q' a s)
      → ((s : Sys) → R s → R' s)
      → Post Q R o
      → Post Q' R' o
  Post-mono Q Q' R R' (returned a s) f g h = f a s h
  Post-mono Q Q' R R' (waiting s) f g h = g s h
  Post-mono Q Q' R R' (ended s) f g h = g s h
  Post-mono Q Q' R R' out_of_fuel f g h = h

pub Post-both :
    {A : Type 0} (Q Q' : A → Sys → Type 0) (R R' : Sys → Type 0) (o : Outcome A)
    → Post Q R o
    → Post Q' R' o
    → Post (λ a s. Q a s × Q' a s) (λ s. R s × R' s) o
Post-both Q Q' R R' (returned a s) h k = (h, k)
Post-both Q Q' R R' (waiting s) h k = (h, k)
Post-both Q Q' R R' (ended s) h k = (h, k)
Post-both Q Q' R R' out_of_fuel h k = h

pub Post-bind :
    {A B : Type 0} (P : A → Sys → Type 0) (Q : B → Sys → Type 0) (R : Sys → Type 0) (m : Io A)
    (f : A → Io B) (s : Sys)
    → Post P R (m s)
    → ((a : A) (s' : Sys) → P a s' → Post Q R (f a s'))
    → Post Q R ((m >>= f) s)
Post-bind P Q R m f s h k = go (m s) h
  where
    go :
        (o : Outcome _)
        → Post P R o
        → Post Q R (elim o [
          | returned a s' ↦ f a s'
          | waiting s' ↦ waiting s'
          | ended s' ↦ ended s'
          | out_of_fuel ↦ out_of_fuel
        ])
    go (returned a s') h = k a s' h
    go (waiting s') h = h
    go (ended s') h = h
    go out_of_fuel h = h

module _ {S A : Type 0} (I : S → Sys → Type 0) (Q : A → Sys → Type 0) where
  abbrev pub RoundPost : ℕ → Round S A → Sys → Type 0
  RoundPost n (continue x) s = I x s × (length s.script < n)
  RoundPost n (break a) s = Q a s

-- The same where the first part stands in brackets.
pub Post-bind_assoc :
    {A B C : Type 0} (P : A → Sys → Type 0) (Q : C → Sys → Type 0) (R : Sys → Type 0) (m : Io A)
    (f : A → Io B) (g : B → Io C) (s : Sys)
    → Post P R (m s)
    → ((a : A) (s' : Sys) → P a s' → Post Q R ((f a >>= g) s'))
    → Post Q R (((m >>= f) >>= g) s)
Post-bind_assoc {A} {B} {C} P Q R m f g s h k = go (m s) h
  where
    go :
        (o : Outcome A)
        → Post P R o
        → Post Q R
            (elim (elim o as (λ _. Outcome B) [
              | returned a s' ↦ f a s'
              | waiting s' ↦ waiting s'
              | ended s' ↦ ended s'
              | out_of_fuel ↦ out_of_fuel
            ])
              as (λ _. Outcome C) [
                | returned b s' ↦ g b s'
                | waiting s' ↦ waiting s'
                | ended s' ↦ ended s'
                | out_of_fuel ↦ out_of_fuel
              ])
    go (returned a s') h = k a s' h
    go (waiting s') h = h
    go (ended s') h = h
    go out_of_fuel h = h

-- The invariant of a loop, and that each round that goes on has used up an answer.
module _ {S A : Type 0} (body : S → Io (Round S A)) (I : S → Sys → Type 0) (Q : A → Sys → Type 0)
    (R : Sys → Type 0) where
  Post-loop_fuel :
      ((x : S) (s : Sys) → I x s → Post (RoundPost I Q (length s.script)) R (body x s))
      → (fuel : ℕ) (x : S) (s : Sys) → length s.script < fuel
      → I x s
      → Post Q R (loop_fuel body fuel x s)
  unfolding loop_fuel
  Post-loop_fuel step zero x s lt h = absurd (omega arith)
  Post-loop_fuel step (suc fuel) x s lt h =
      go (body x s) (λ x' s' i lt'. Post-loop_fuel step fuel x' s' (omega arith) i) (step x s h)
    where
      go :
          (o : Outcome (Round S A))
          → ((x' : S) (s' : Sys)
              → I x' s'
              → length s'.script < length s.script
              → Post Q R (loop_fuel body fuel x' s'))
          → Post (RoundPost I Q (length s.script)) R o
          → Post Q R (elim o [
            | returned r s' ↦ elim r [
              | continue x' ↦ loop_fuel body fuel x' s'
              | break a ↦ returned a s'
            ]
            | waiting s' ↦ waiting s'
            | ended s' ↦ ended s'
            | out_of_fuel ↦ out_of_fuel
          ])
      go (returned (continue x') s') next h = next x' s' h.0 h.1
      go (returned (break a) s') next h = h
      go (waiting s') next h = h
      go (ended s') next h = h
      go out_of_fuel next h = h

  pub Post-loop :
      ((x : S) (s : Sys) → I x s → Post (RoundPost I Q (length s.script)) R (body x s))
      → (x : S) (s : Sys) → I x s
      → Post Q R (loop body x s)
  unfolding loop
  Post-loop step x s h = Post-loop_fuel step (suc (length s.script)) x s (omega arith) h

abbrev pub logged : Call → (Call → Answer) → List (Call → Answer) → Sys → Sys
logged c f rest s = record s {
  script = rest;
  log = record { call = c; answer = f c } ∷ s.log;
  errno = (f c).errno;
}

Post-answer_to :
    (Q : Answer → Sys → Type 0) (R : Sys → Type 0) (c : Call) (script : List (Call → Answer))
    (s : Sys)
    → ((f : Call → Answer) (rest : List (Call → Answer))
        → script ≡ f ∷ rest
        → Q (f c) (logged c f rest s))
    → (script ≡ [] → R s)
    → Post Q R (answer_to c script s)
unfolding answer_to
Post-answer_to Q R c [] s h w = w refl
Post-answer_to Q R c (f ∷ rest) s h w = h f rest refl

pub Post-perform :
    (Q : Answer → Sys → Type 0) (R : Sys → Type 0) (c : Call) (s : Sys)
    → ((f : Call → Answer) (rest : List (Call → Answer))
        → s.script ≡ f ∷ rest
        → Q (f c) (logged c f rest s))
    → (s.script ≡ [] → R s)
    → Post Q R (perform c s)
unfolding perform
Post-perform Q R c s = Post-answer_to Q R c s.script s

-- What one call does.
pub record Performed (c : Call) (s : Sys) (a : Answer) (s' : Sys) : Type 0 where
  pub log : s'.log ≡ record { call = c; answer = a } ∷ s.log
  pub errno : s'.errno ≡ a.errno
  pub used : length s'.script < length s.script
  pub honest : IsHonest s.script → Fits c a × IsHonest s'.script

-- The program stops in a call when the script has run out.
abbrev pub Stopped : Sys → Sys → Type 0
Stopped s s' = (s' ≡ s) × (s.script ≡ [])

logged-Performed :
    (c : Call) (s : Sys) (f : Call → Answer) (rest : List (Call → Answer))
    → s.script ≡ f ∷ rest
    → Performed c s (f c) (logged c f rest s)
logged-Performed c s f rest e = record {
  log = refl;
  errno = refl;
  used = let n = ap (length {A = Call → Answer}) e in omega arith;
  honest = λ h. let h' : IsHonest (f ∷ rest) = subst IsHonest e h in (h'.0 c, h'.1);
}

pub perform_lem : (c : Call) (s : Sys) → Post (Performed c s) (Stopped s) (perform c s)
perform_lem c s =
    Post-perform (Performed c s) (Stopped s) c s (logged-Performed c s) (λ e. (refl, e))

-- The calls whose answers were not accepted, on top of an older log.
pub data Retried {A : Type 0} (c : Call) (decide : Answer → ℕ → Round (Unit {0}) A)
    (log : List Happened) : List Happened → Type 0 where
  at_once : Retried c decide log log
  again :
      {later : List Happened} (a : Answer)
      → decide a a.errno ≡ continue tt
      → Retried c decide log later
      → Retried c decide log (record { call = c; answer = a } ∷ later)

-- How `retrying` ends: the first answer that decides is the last in the log.
pub record Answered {A : Type 0} (c : Call) (decide : Answer → ℕ → Round (Unit {0}) A) (s : Sys)
    (r : A) (s' : Sys) : Type 0 where
  pub last : Answer
  pub before : List Happened
  pub retried : Retried c decide s.log before
  pub log : s'.log ≡ record { call = c; answer = last } ∷ before
  pub result : decide last last.errno ≡ break r
  pub errno : s'.errno ≡ last.errno
  pub used : length s'.script < length s.script
  pub honest : IsHonest s.script → Fits c last × IsHonest s'.script

-- The world where the call has not come back.
pub record Blocked {A : Type 0} (c : Call) (decide : Answer → ℕ → Round (Unit {0}) A) (s s' : Sys)
    : Type 0 where
  pub retried : Retried c decide s.log s'.log
  pub used_up : s'.script ≡ []

module _ {A : Type 0} (c : Call) (decide : Answer → ℕ → Round (Unit {0}) A) (s : Sys) where
  abbrev Going : Unit {0} → Sys → Type 0
  Going _ w =
      Retried c decide s.log w.log
      × (length w.script ≤ length s.script)
      × (IsHonest s.script → IsHonest w.script)

  going :
      (w w' : Sys) (a : Answer)
      → Going tt w
      → Performed c w a w'
      → (r : Round (Unit {0}) A) → decide a w'.errno ≡ r
      → RoundPost Going (Answered c decide s) (length w.script) r w'
  going w w' a g p (continue x) e = (
    (
      subst (Retried c decide s.log) (sym p.log) (again a (ap (decide a) (sym p.errno) ∙ e) g.0),
      omega arith,
      λ h. (p.honest (g.2 h)).1,
    ),
    p.used,
  )
  going w w' a g p (break r) e = record {
    last = a;
    before = w.log;
    retried = g.0;
    log = p.log;
    result = ap (decide a) (sym p.errno) ∙ e;
    errno = p.errno;
    used = omega (arith, p.used);
    honest = λ h. p.honest (g.2 h);
  }

  pub retrying_lem : Post (Answered c decide s) (Blocked c decide s) (retrying c decide s)
  unfolding retrying last_os_error
  retrying_lem =
      Post-loop (attempt c decide) Going (Answered c decide s) (Blocked c decide s)
        (λ x w g.
          Post-bind (Performed c w) (RoundPost Going (Answered c decide s) (length w.script))
            (Blocked c decide s) (perform c) (λ a. last_os_error >>= λ e. pure (decide a e)) w
            (Post-mono (Performed c w) (Performed c w) (Stopped w) (Blocked c decide s)
              (perform c w) (λ a w' p. p)
              (λ w' p. record {
                retried = subst (λ v. Retried c decide s.log v.log) (sym p.0) g.0;
                used_up = subst (λ v. v.script ≡ []) (sym p.0) p.1;
              })
              (perform_lem c w))
            (λ a w' p. going w w' a g p (decide a w'.errno) refl))
        tt s (at_once, omega arith, λ h. h)
