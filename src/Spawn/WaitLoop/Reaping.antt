-- ===== src/Spawn/WaitLoop/Reaping.antt =====
-- spawn/mod.rs: where the status comes from that `wait_loop` reports.
pub mod Looping
use coreshift_lowlevel.Prelude.{
  ℕ, ◌≤◌, ◌<◌, ◌≡◌, refl, sym, subst, List, [], ◌∷◌, ◌++◌, map, ◌⊎◌, inl, inr, ℤ, Bool, Option,
  none, some, arith, length, take, Bool-cases, if◌then◌else◌,
}
use coreshift_lowlevel.Os.{
  Call, Sys, Happened, Answer, Io, pure, ◌>>=◌, Round, continue, break, loop, Post, Post-bind,
  Post-mono, Post-loop, RoundPost, waitpid,
}
use coreshift_lowlevel.Os.Steps.{Steps, Later, Sooner, After}
use coreshift_lowlevel.Os.Traces.{
  Grown, same, grow, Grown-trans, Grown-mono, Since, now, Since-Grown,
}
use coreshift_lowlevel.Error.{Result, ok, err}
use coreshift_lowlevel.Fd.{Decided, Hangs, logged_as}
use coreshift_lowlevel.Reactor
use coreshift_lowlevel.Reactor.{Reactor, Event}
use coreshift_lowlevel.Io.Drain.{DrainState, is_done, take_all_slots, into_parts}
use coreshift_lowlevel.Spawn.Process.{ExitStatus, StatusMacros, wait_step, wait_blocking, wnohang}
use coreshift_lowlevel.Spawn.Process.Waiting.{
  StepTells, BlockingTells, wait_step_retries, wait_blocking_retries,
}
use coreshift_lowlevel.Spawn.WaitLoop.{
  KillState, Watch, WaitState, Output, Leaving, del_slots, finish, pump, poll_status, final_status,
  wait_timeout, wait_round, close_up, max_events, handle_events,
}
use coreshift_lowlevel.Spawn.WaitLoop.Frames.{IsQuiet, Quiet-handle_events}
use coreshift_lowlevel.Spawn.WaitLoop.Keeping.{Steps-check_deadline}
use coreshift_lowlevel.Spawn.WaitLoop.Plain.{Plain-wait, Plain-del_slots, Plain-pipes}

abbrev pub Any : Call → Type 0
Any _ = Unit

abbrev pub Free : Sys → Type 0
Free _ = Unit

-- A `waitpid` for the process whose answer stands for this status.
abbrev pub IsReap : StatusMacros → ℤ → ExitStatus → Happened → Type 0
IsReap libc pid status h =
    ((h.call ≡ waitpid pid wnohang) × StepTells libc (ok (some status)) h.answer)
    ⊎ ((h.call ≡ waitpid pid 0) × BlockingTells libc (ok status) h.answer)

-- The status of an output is what `waitpid` told of the process since the log was `past`.
abbrev pub HasReaped : StatusMacros → ℤ → List Happened → Result Output → Sys → Type 0
HasReaped libc pid past (ok out) s =
    (status : ExitStatus) × (out.status ≡ some status) × Since (IsReap libc pid status) past s.log
HasReaped libc pid past (err e) s = Unit

-- Under a last call are the interrupted ones, and what was there before.
under_last :
    (c : Call) (xs : List Answer) (past log : List Happened)
    → Grown Any past log
    → Grown Any past (map (logged_as c) xs ++ log)
under_last c [] past log g = g
under_last c (x ∷ xs) past log g = grow (logged_as c x) tt (under_last c xs past log g)

pub Quiet-Any : {A : Type 0} {m : Io A} → Steps IsQuiet m → Steps Any m
Quiet-Any {A} {m} h = record {
  run = λ s.
      Post-mono (λ _. Later IsQuiet s) (λ _. Later Any s) (After IsQuiet s) (After Any s) (m s)
        (λ _ s' g. (Grown-mono IsQuiet Any (λ _ _. tt) g.0, g.1, g.2))
        (λ s' g. Grown-mono IsQuiet Any (λ _ _. tt) g) (h.run s);
}

module _ (libc : StatusMacros) (w : Watch) (past : List Happened) where
  -- A status that is known was told since.
  abbrev pub Known : Option ExitStatus → Sys → Type 0
  Known none s = Grown Any past s.log
  Known (some status) s = Since (IsReap libc w.process.pid status) past s.log

  pub Known-Grown :
      (o : Option ExitStatus) (s s' : Sys) → Grown Any s.log s'.log → Known o s → Known o s'
  Known-Grown none s s' g k = Grown-trans Any k g
  Known-Grown (some status) s s' g k = Since-Grown (IsReap libc w.process.pid status) k g

  abbrev pub Told : Result (Option ExitStatus) → Sys → Type 0
  Told (ok o) s = Known o s
  Told (err e) s = Unit

  abbrev pub Finally : Result ExitStatus → Sys → Type 0
  Finally (ok status) s = Known (some status) s
  Finally (err e) s = Unit

  -- What follows a part that knows no more than before.
  pub after_steps :
      {A B : Type 0} {m : Io A} (f : A → Io B) (Q : B → Sys → Type 0) (o : Option ExitStatus)
      (s : Sys)
      → Steps Any m
      → Known o s
      → ((a : A) (s' : Sys)
          → Known o s'
          → length s'.script ≤ length s.script
          → Post Q Free (f a s'))
      → Post Q Free ((m >>= f) s)
  after_steps {A} {B} {m} f Q o s steps k next =
      Post-bind (λ _. Later Any s) Q Free m f s
        (Post-mono (λ _. Later Any s) (λ _. Later Any s) (After Any s) Free (m s) (λ _ _ g. g)
          (λ _ _. tt) (steps.run s))
        (λ a s' g. next a s' (Known-Grown o s s' g.0 k) g.1)

  stepped :
      (s : Sys) (r : Result (Option ExitStatus)) (s' : Sys)
      → Decided (waitpid w.process.pid wnohang) (StepTells libc) s r s'
      → Grown Any past s.log
      → Told r s'
  stepped s (err e) s' d g = tt
  stepped s (ok none) s' d g =
      subst (Grown Any past) (sym d.log)
        (grow _ tt (under_last (waitpid w.process.pid wnohang) d.interrupted past s.log g))
  stepped s (ok (some status)) s' d g =
      subst (Since (IsReap libc w.process.pid status) past) (sym d.log) (
        now _ (inl (refl, d.tells))
          (under_last (waitpid w.process.pid wnohang) d.interrupted past s.log g))

  blocked :
      (s : Sys) (r : Result ExitStatus) (s' : Sys)
      → Decided (waitpid w.process.pid 0) (BlockingTells libc) s r s'
      → Grown Any past s.log
      → Finally r s'
  blocked s (err e) s' d g = tt
  blocked s (ok status) s' d g = subst (Since (IsReap libc w.process.pid status) past) (sym d.log) (
      now _ (inr (refl, d.tells)) (under_last (waitpid w.process.pid 0) d.interrupted past s.log g))

  abbrev pub Polled : Sys → Result (Option ExitStatus) → Sys → Type 0
  Polled s r s' = Told r s' × (length s'.script ≤ length s.script)

  pub step_told :
      (s : Sys) → Grown Any past s.log → Post (Polled s) Free (wait_step libc w.process s)
  step_told s g =
      Post-mono (Decided (waitpid w.process.pid wnohang) (StepTells libc) s) (Polled s)
        (Hangs (waitpid w.process.pid wnohang) s) Free (wait_step libc w.process s)
        (λ r s' d. (stepped s r s' d g, omega (arith, d.used))) (λ _ _. tt)
        (wait_step_retries libc w.process s)

  pub poll_told :
      (o : Option ExitStatus) (s : Sys) → Known o s → Post (Polled s) Free (poll_status libc w o s)
  unfolding poll_status
  poll_told (some status) s k = (k, omega arith)
  poll_told none s k = step_told s k

  pub final_told :
      (o : Option ExitStatus) (s : Sys) → Known o s → Post Finally Free (final_status libc w o s)
  unfolding final_status
  final_told (some status) s k = k
  final_told none s k =
      Post-mono (Decided (waitpid w.process.pid 0) (BlockingTells libc) s) Finally
        (Hangs (waitpid w.process.pid 0) s) Free (wait_blocking libc w.process s)
        (λ r s' d. blocked s r s' d k) (λ _ _. tt) (wait_blocking_retries libc w.process s)
