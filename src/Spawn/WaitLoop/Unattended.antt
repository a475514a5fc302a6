-- ===== src/Spawn/WaitLoop/Unattended.antt =====
-- spawn/mod.rs: `wait_loop` where no pipe is open.
use coreshift_lowlevel.Prelude.{
  ℕ, suc, ◌-◌, ◌*◌, ◌/◌, ◌≤◌, ◌≡◌, refl, sym, ap, ◌∙◌, subst, List, [], ◌∷◌, ℤ, minus_one, Bool,
  true, Option, none, some, arith, length, leb, if◌then◌else◌,
}
use coreshift_lowlevel.Os.{
  Call, Sys, Happened, elapsed, Io, pure, ◌>>=◌, perform, Round, break, loop, Post, Post-bind,
  Post-mono, Post-loop, RoundPost, Performed, Stopped, perform_lem,
}
use coreshift_lowlevel.Os.Steps.{Steps, Later, After, Steps-if, Steps-bind, Steps-pure}
use coreshift_lowlevel.Os.Traces.{Grown, same, grow}
use coreshift_lowlevel.Error.{Result, ok, err}
use coreshift_lowlevel.Reactor.{Reactor}
use coreshift_lowlevel.Io.Drain.{DrainState, is_done}
use coreshift_lowlevel.System.Exec.{CancelPolicy, ProcessGroup}
use coreshift_lowlevel.Spawn.Process
use coreshift_lowlevel.Spawn.Process.{ExitStatus, StatusMacros, wait_step}
use coreshift_lowlevel.Spawn.WaitLoop.{
  KillState, Watch, WaitState, Leaving, check_deadline, finish, pump, wait_timeout, wait_round,
  close_up, wait_loop, nanos_per_ms,
}
use coreshift_lowlevel.Spawn.WaitLoop.Plain.{
  IsPlain, Plain-wait_step, Plain-poll_status, Plain-finish, Plain-pipes,
}
use coreshift_lowlevel.Spawn.WaitLoop.Deadline.{at_time}
use coreshift_lowlevel.Spawn.WaitLoop.Keeping.{Steps-escalate}
use coreshift_lowlevel.Spawn.WaitLoop.Escalation.{watching, begun}

-- Every call but a look at the clock.
abbrev IsTimeless : Call → Type 0
IsTimeless elapsed = ⊥
IsTimeless _ = Unit

timeless : (c : Call) → IsPlain c → IsTimeless c
timeless elapsed h = h
timeless _ h = tt

abbrev is_look : Call → ℕ → ℕ
is_look elapsed n = suc n
is_look _ n = n

-- How often a log looks at the clock.
unfoldable pub looks : List Happened → ℕ
looks [] = 0
looks (h ∷ log) = is_look h.call (looks log)

Timeless-is_look : (c : Call) (n : ℕ) → IsTimeless c → is_look c n ≡ n
Timeless-is_look elapsed n h = absurd h
Timeless-is_look _ n h = refl

looks-Grown : {a b : List Happened} → Grown IsTimeless a b → looks b ≡ looks a
unfolding looks
looks-Grown same = refl
looks-Grown (grow {later = l} h p g) = Timeless-is_look h.call (looks l) p ∙ looks-Grown g

-- At most so many looks.
abbrev Within : ℕ → Sys → Type 0
Within n s = looks s.log ≤ n

-- A part that does not look at the clock, and what follows it.
after_timeless :
    {A B : Type 0} {m : Io A} (f : A → Io B) (Q : B → Sys → Type 0) (n : ℕ) (s : Sys)
    → Steps IsTimeless m
    → Within n s
    → ((a : A) (s' : Sys) → Within n s' → Post Q (Within n) (f a s'))
    → Post Q (Within n) ((m >>= f) s)
after_timeless {A} {B} {m} f Q n s steps h next =
    Post-bind (λ _. Later IsTimeless s) Q (Within n) m f s
      (Post-mono (λ _. Later IsTimeless s) (λ _. Later IsTimeless s) (After IsTimeless s) (Within n)
        (m s) (λ a s' g. g) (λ s' g. omega (arith, h, looks-Grown g)) (steps.run s))
      (λ a s' g. next a s' (omega (arith, h, looks-Grown g.0)))

ends_timeless :
    {A : Type 0} (m : Io A) (n : ℕ) (s : Sys)
    → Steps IsTimeless m
    → Within n s
    → Post (λ _. Within n) (Within n) (m s)
ends_timeless m n s steps h =
    Post-mono (λ _. Later IsTimeless s) (λ _. Within n) (After IsTimeless s) (Within n) (m s)
      (λ a s' g. omega (arith, h, looks-Grown g.0)) (λ s' g. omega (arith, h, looks-Grown g))
      (steps.run s)

Timeless-at_time :
    (w : Watch) (state : KillState) (timed_out : Bool) (ms now : ℕ)
    → Steps IsTimeless (at_time w state timed_out ms now)
Timeless-at_time w state timed_out ms now =
    Steps-if (leb (ms * nanos_per_ms) now)
      (Steps-bind (Steps-escalate (λ _ _. tt) w ((now - ms * nanos_per_ms) / nanos_per_ms) state)
        (λ st. Steps-pure))
      Steps-pure

check_deadline_looks :
    (w : Watch) (state : KillState) (timed_out : Bool) (n : ℕ) (s : Sys)
    → Within n s
    → Post (λ _. Within (suc n)) (Within (suc n)) (check_deadline w state timed_out s)
unfolding check_deadline looks
check_deadline_looks w state timed_out n s h = go w.timeout_ms
  where
    go :
        (o : Option ℕ)
        → Post
            (λ _. Within (suc n))
            (Within (suc n))
            ((elim o as (λ _. Io (KillState × Bool × ℤ)) [
              | none ↦ pure (state, timed_out, minus_one)
              | some ms ↦ perform elapsed >>= λ a. at_time w state timed_out ms a.nanos
            ])
              s)
    go none = omega (arith, h)
    go (some ms) =
        Post-bind (Performed elapsed s) (λ _. Within (suc n)) (Within (suc n)) (perform elapsed)
          (λ a. at_time w state timed_out ms a.nanos) s
          (Post-mono (Performed elapsed s) (Performed elapsed s) (Stopped s) (Within (suc n))
            (perform elapsed s) (λ a s' p. p)
            (λ s' d. subst (Within (suc n)) (sym d.0) (omega (arith, h))) (perform_lem elapsed s))
          (λ a s' p.
            ends_timeless (at_time w state timed_out ms a.nanos) (suc n) s'
              (Timeless-at_time w state timed_out ms a.nanos) (omega (arith, h, ap looks p.log)))

module _ (libc : StatusMacros) (w : Watch) (n : ℕ) where
  -- The only round.
  abbrev Start : DrainState → WaitState → Sys → Type 0
  Start d st s = (st.drain ≡ d) × Within n s

  round_looks :
      (d : DrainState)
      → is_done d ≡ true
      → (st : WaitState) (s : Sys) → Start d st s
      → Post
          (RoundPost (Start d) (λ _. Within (suc n)) (length s.script))
          (Within (suc n))
          (wait_round libc w st s)
  unfolding wait_round
  round_looks d done st s (e, h) =
      Post-bind (λ _. Within (suc n)) (RoundPost (Start d) (λ _. Within (suc n)) (length s.script))
        (Within (suc n)) (check_deadline w st.state st.timed_out) _ s
        (check_deadline_looks w st.state st.timed_out n s h)
        (λ c s' h'.
          after_timeless _ (RoundPost (Start d) (λ _. Within (suc n)) (length s.script)) (suc n) s'
            (Plain-poll_status timeless libc w st.status_raw) h'
            (λ r s'' h''. polled c.0 c.1 c.2 r s'' h''))
    where
      polled :
          (state : KillState) (timed_out : Bool) (poll_timeout : ℤ) (r : Result (Option ExitStatus))
          (s' : Sys)
          → Within (suc n) s'
          → Post (RoundPost (Start d) (λ _. Within (suc n)) (length s.script)) (Within (suc n)) (
              (elim r as (λ _. Io (Round WaitState Leaving)) [
                | err x ↦ pure (break (st.drain, st.reactor, err x))
                | ok status_raw ↦
                    if is_done st.drain
                    then (finish libc w (record st {
                      state = state;
                      timed_out = timed_out;
                      status_raw = status_raw;
                    })
                        >>= λ out. pure (break out))
                    else pump
                        (record st {
                          state = state;
                          timed_out = timed_out;
                          status_raw = status_raw;
                        })
                        (wait_timeout status_raw poll_timeout)
              ])
                s')
      polled state timed_out t (err x) s' h' = h'
      polled state timed_out t (ok status_raw) s' h' =
          let st' : WaitState = record st {
            state = state;
            timed_out = timed_out;
            status_raw = status_raw;
          } in
          rw (subst (λ x. is_done x ≡ true) (sym e) done) (
            after_timeless (λ out. pure (break out))
              (RoundPost (Start d) (λ _. Within (suc n)) (length s.script)) (suc n) s'
              (Plain-finish timeless libc w st') h' (λ out s'' h''. h''))

-- Where no pipe is open, `wait_loop` looks at the clock once at most, whatever the timeout. It always
-- comes to an end of its own or waits in a call.
pub wait_loop_unattended :
    (libc : StatusMacros) (pid : ℤ) (drain : DrainState) (reactor : Reactor) (timeout_ms : Option ℕ)
    (kill_grace_ms : ℕ) (cancel : CancelPolicy) (pgroup : ProcessGroup) (s : Sys)
    → is_done drain ≡ true
    → Post
        (λ r s'. looks s'.log ≤ suc (looks s.log))
        (λ s'. looks s'.log ≤ suc (looks s.log))
        (wait_loop libc pid drain reactor timeout_ms kill_grace_ms cancel pgroup s)
unfolding wait_loop Process.new close_up
wait_loop_unattended libc pid drain reactor timeout_ms kill_grace_ms cancel pgroup s done =
    Post-bind (λ _. Within n) (λ _. Within (suc n)) (Within (suc n)) (wait_step libc w.process) _ s
      (Post-mono (λ _. Within n) (λ _. Within n) (Within n) (Within (suc n))
        (wait_step libc w.process s) (λ _ _ h. h) (λ _ h. omega (arith, h))
        (ends_timeless (wait_step libc w.process) n s (Plain-wait_step timeless libc w.process)
          (omega arith)))
      (λ r s' h.
        Post-bind (λ _. Within (suc n)) (λ _. Within (suc n)) (Within (suc n)) (looped r) close_up
          s' (entered r s' h)
          (λ out s'' h'.
            after_timeless _ (λ _. Within (suc n)) (suc n) s'' (Plain-pipes timeless out) h'
              (λ _ _ h''. h'')))
  where
    n : ℕ
    n = looks s.log

    w : Watch
    w = watching pid timeout_ms kill_grace_ms cancel pgroup

    looped : Result (Option ExitStatus) → Io Leaving
    looped (err e) = pure (drain, reactor, err e)
    looped (ok status_raw) = loop (wait_round libc w) (begun drain reactor status_raw)

    entered :
        (r : Result (Option ExitStatus)) (s' : Sys)
        → Within n s'
        → Post (λ _. Within (suc n)) (Within (suc n)) (looped r s')
    entered (err e) s' h = omega (arith, h)
    entered (ok status_raw) s' h =
        Post-loop (wait_round libc w) (Start libc w n drain) (λ _. Within (suc n)) (Within (suc n))
          (round_looks libc w n drain done) (begun drain reactor status_raw) s' (refl, h)
