-- ===== src/Os/Steps.antt =====
-- Programs whose calls are all of one kind: the frame of every statement about a log.
use coreshift_lowlevel.Prelude.{
  ℕ, ◌≤◌, ◌<◌, sym, subst, List, Bool, true, false, arith, length, if◌then◌else◌,
}
use coreshift_lowlevel.Prelude.{ℤ, pos, negsuc, minus_one, eq_int, String, Option, some, none}
use coreshift_lowlevel.Error.{Result, ok, err, SysError, syscall_ret}
use coreshift_lowlevel.Os.Calls.{Call, Answer, Sys, Happened}
use coreshift_lowlevel.Os.Programs.{
  Io, pure, ◌>>=◌, perform, last_os_error, Round, continue, break, loop, retrying,
}
use coreshift_lowlevel.Os.Rules.{
  Post, Post-mono, Post-bind, Post-loop, RoundPost, Performed, Stopped, perform_lem, Answered,
  Blocked, Retried, at_once, again, retrying_lem,
}
use coreshift_lowlevel.Os.Honest.{IsHonest}
use coreshift_lowlevel.Os.Traces.{Grown, same, grow, Grown-trans}

-- The world after calls of the kind P, with no answer given back, or with one used at least.
abbrev pub Later : (Call → Type 0) → Sys → Sys → Type 0
Later P s s' =
    Grown P s.log s'.log
    × (length s'.script ≤ length s.script)
    × (IsHonest s.script → IsHonest s'.script)

abbrev pub Sooner : (Call → Type 0) → Sys → Sys → Type 0
Sooner P s s' =
    Grown P s.log s'.log
    × (length s'.script < length s.script)
    × (IsHonest s.script → IsHonest s'.script)

abbrev pub After : (Call → Type 0) → Sys → Sys → Type 0
After P s s' = Grown P s.log s'.log

pub record Steps {A : Type 0} (P : Call → Type 0) (m : Io A) : Type 0 where
  pub run : (s : Sys) → Post (λ _. Later P s) (After P s) (m s)

pub record Strides {A : Type 0} (P : Call → Type 0) (m : Io A) : Type 0 where
  pub run : (s : Sys) → Post (λ _. Sooner P s) (After P s) (m s)

-- One round of a loop: one that goes on has made a call.
abbrev pub Turned : {S A : Type 0} → (Call → Type 0) → Sys → Round S A → Sys → Type 0
Turned P s (continue x) s' = Sooner P s s'
Turned P s (break a) s' = Later P s s'

pub record Turns {S A : Type 0} (P : Call → Type 0) (m : Io (Round S A)) : Type 0 where
  pub run : (s : Sys) → Post (Turned P s) (After P s) (m s)

module _ {P : Call → Type 0} where
  pub Steps-pure : {A : Type 0} {a : A} → Steps P (pure a)
  Steps-pure = record { run = λ s. (same, omega arith, λ h. h) }

  pub Strides-Steps : {A : Type 0} {m : Io A} → Strides P m → Steps P m
  Strides-Steps {A} {m} h = record {
    run = λ s.
        Post-mono (λ _. Sooner P s) (λ _. Later P s) (After P s) (After P s) (m s)
          (λ a s' g. (g.0, omega arith, g.2)) (λ s' g. g) (h.run s);
  }

  pub Strides-perform : (c : Call) → P c → Strides P (perform c)
  Strides-perform c p = record {
    run = λ s.
        Post-mono (Performed c s) (λ _. Sooner P s) (Stopped s) (After P s) (perform c s)
          (λ a s' d.
            (subst (Grown P s.log) (sym d.log) (grow _ p same), d.used, λ h. (d.honest h).1))
          (λ s' e. subst (λ w. Grown P s.log w.log) (sym e.0) same) (perform_lem c s);
  }

  pub Steps-perform : (c : Call) → P c → Steps P (perform c)
  Steps-perform c p = Strides-Steps (Strides-perform c p)

  pub Steps-last_os_error : Steps P last_os_error
  unfolding last_os_error
  Steps-last_os_error = record { run = λ s. (same, omega arith, λ h. h) }

  Retried-Grown :
      {A : Type 0} (c : Call) (decide : Answer → ℕ → Round (Unit {0}) A) {log later : List Happened}
      → P c
      → Retried c decide log later
      → Grown P log later
  Retried-Grown c decide p at_once = same
  Retried-Grown c decide p (again a e r) = grow _ p (Retried-Grown c decide p r)

  pub Strides-retrying :
      {A : Type 0} (c : Call) (decide : Answer → ℕ → Round (Unit {0}) A)
      → P c
      → Strides P (retrying c decide)
  Strides-retrying {A} c decide p = record {
    run = λ s.
        Post-mono (Answered c decide s) (λ _. Sooner P s) (Blocked c decide s) (After P s)
          (retrying c decide s)
          (λ a s' d. (
            subst (Grown P s.log) (sym d.log) (grow _ p (Retried-Grown c decide p d.retried)),
            d.used,
            λ h. (d.honest h).1,
          ))
          (λ s' b. Retried-Grown c decide p b.retried) (retrying_lem c decide s);
  }

  pub Steps-retrying :
      {A : Type 0} (c : Call) (decide : Answer → ℕ → Round (Unit {0}) A)
      → P c
      → Steps P (retrying c decide)
  Steps-retrying c decide p = Strides-Steps (Strides-retrying c decide p)

  pub Steps-bind :
      {A B : Type 0} {m : Io A} {f : A → Io B}
      → Steps P m
      → ((a : A) → Steps P (f a))
      → Steps P (m >>= f)
  Steps-bind {A} {B} {m} {f} h k = record {
    run = λ s.
        Post-bind (λ _. Later P s) (λ _. Later P s) (After P s) m f s (h.run s)
          (λ a s' g.
            Post-mono (λ _. Later P s') (λ _. Later P s) (After P s') (After P s) (f a s')
              (λ b s'' g'. (Grown-trans P g.0 g'.0, omega (arith, g.1, g'.1), λ h. g'.2 (g.2 h)))
              (λ s'' g'. Grown-trans P g.0 g') ((k a).run s'));
  }

  pub Strides-bind :
      {A B : Type 0} {m : Io A} {f : A → Io B}
      → Strides P m
      → ((a : A) → Steps P (f a))
      → Strides P (m >>= f)
  Strides-bind {A} {B} {m} {f} h k = record {
    run = λ s.
        Post-bind (λ _. Sooner P s) (λ _. Sooner P s) (After P s) m f s (h.run s)
          (λ a s' g.
            Post-mono (λ _. Later P s') (λ _. Sooner P s) (After P s') (After P s) (f a s')
              (λ b s'' g'. (Grown-trans P g.0 g'.0, omega (arith, g.1, g'.1), λ h. g'.2 (g.2 h)))
              (λ s'' g'. Grown-trans P g.0 g') ((k a).run s'));
  }

  strode : {S A : Type 0} (s : Sys) (r : Round S A) (s' : Sys) → Sooner P s s' → Turned P s r s'
  strode s (continue x) s' g = g
  strode s (break a) s' g = (g.0, omega arith, g.2)

  pub Turns-Strides : {S A : Type 0} {m : Io (Round S A)} → Strides P m → Turns P m
  Turns-Strides {S} {A} {m} h = record {
    run = λ s.
        Post-mono (λ _. Sooner P s) (Turned P s) (After P s) (After P s) (m s) (strode s)
          (λ s' g. g) (h.run s);
  }

  pub Turns-leave : {S A : Type 0} {a : A} → Turns {S = S} P (pure (break a))
  Turns-leave = record { run = λ s. (same, omega arith, λ h. h) }

  turned :
      {S A : Type 0} (s s' : Sys)
      → Later P s s'
      → (r : Round S A) (s'' : Sys) → Turned P s' r s''
      → Turned P s r s''
  turned s s' g (continue x) s'' g' =
      (Grown-trans P g.0 g'.0, omega (arith, g.1, g'.1), λ h. g'.2 (g.2 h))
  turned s s' g (break a) s'' g' =
      (Grown-trans P g.0 g'.0, omega (arith, g.1, g'.1), λ h. g'.2 (g.2 h))

  -- After steps, a turn.
  pub Turns-bind :
      {B S A : Type 0} {m : Io B} {f : B → Io (Round S A)}
      → Steps P m
      → ((b : B) → Turns P (f b))
      → Turns P (m >>= f)
  Turns-bind {B} {S} {A} {m} {f} h k = record {
    run = λ s.
        Post-bind (λ _. Later P s) (Turned P s) (After P s) m f s (h.run s)
          (λ b s' g.
            Post-mono (Turned P s') (Turned P s) (After P s') (After P s) (f b s') (turned s s' g)
              (λ s'' g'. Grown-trans P g.0 g') ((k b).run s'));
  }

  rounded :
      {S A : Type 0} (s w : Sys)
      → Later P s w
      → (r : Round S A) (w' : Sys) → Turned P w r w'
      → RoundPost (λ _. Later P s) (λ _. Later P s) (length w.script) r w'
  rounded s w g (continue y) w' g' =
      ((Grown-trans P g.0 g'.0, omega (arith, g.1, g'.1), λ h. g'.2 (g.2 h)), g'.1)
  rounded s w g (break a) w' g' =
      (Grown-trans P g.0 g'.0, omega (arith, g.1, g'.1), λ h. g'.2 (g.2 h))

  pub Steps-loop :
      {S A : Type 0} {body : S → Io (Round S A)} (x : S)
      → ((y : S) → Turns P (body y))
      → Steps P (loop body x)
  Steps-loop {S} {A} {body} x h = record {
    run = λ s.
        Post-loop body (λ _. Later P s) (λ _. Later P s) (After P s)
          (λ y w g.
            Post-mono (Turned P w) (RoundPost (λ _. Later P s) (λ _. Later P s) (length w.script))
              (After P w) (After P s) (body y w) (rounded s w g) (λ w' g'. Grown-trans P g.0 g')
              ((h y).run w))
          x s (same, omega arith, λ h. h);
  }

  pub Steps-if :
      {A : Type 0} (b : Bool) {m n : Io A} → Steps P m → Steps P n → Steps P (if b then m else n)
  Steps-if true h k = h
  Steps-if false h k = k

  pub Turns-if :
      {S A : Type 0} (b : Bool) {m n : Io (Round S A)}
      → Turns P m
      → Turns P n
      → Turns P (if b then m else n)
  Turns-if true h k = h
  Turns-if false h k = k

  -- The `match` on a result, and on an option.
  pub Steps-result :
      {A B : Type 0} (r : Result A) {f : A → Io B} {g : SysError → Io B}
      → ((a : A) → Steps P (f a))
      → ((e : SysError) → Steps P (g e))
      → Steps P (elim r [ ok a ↦ f a | err e ↦ g e ])
  Steps-result (ok a) h k = h a
  Steps-result (err e) h k = k e

  pub Turns-result :
      {A S B : Type 0} (r : Result A) {f : A → Io (Round S B)} {g : SysError → Io (Round S B)}
      → ((a : A) → Turns P (f a))
      → ((e : SysError) → Turns P (g e))
      → Turns P (elim r [ ok a ↦ f a | err e ↦ g e ])
  Turns-result (ok a) h k = h a
  Turns-result (err e) h k = k e

  pub Steps-option :
      {A B : Type 0} (o : Option A) {f : A → Io B} {m : Io B}
      → ((a : A) → Steps P (f a))
      → Steps P m
      → Steps P (elim o [ some a ↦ f a | none ↦ m ])
  Steps-option (some a) h k = h a
  Steps-option none h k = k

  pub Steps-int :
      {B : Type 0} (n : ℤ) {f g : ℕ → Io B}
      → ((k : ℕ) → Steps P (f k))
      → ((k : ℕ) → Steps P (g k))
      → Steps P (elim n [ pos k ↦ f k | negsuc k ↦ g k ])
  Steps-int (pos k) h k' = h k
  Steps-int (negsuc k) h k' = k' k

  pub Steps-syscall_ret : (ret : ℤ) (op : String) → Steps P (syscall_ret ret op)
  unfolding syscall_ret
  Steps-syscall_ret ret op =
      Steps-if (eq_int ret minus_one) (Steps-bind Steps-last_os_error (λ e. Steps-pure)) Steps-pure

pub ruleset steps = (
  Steps-pure, Steps-perform, Steps-last_os_error, Steps-retrying, Steps-bind, Steps-if,
  Steps-result, Steps-option, Steps-int,
)
