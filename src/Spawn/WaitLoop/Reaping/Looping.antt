-- ===== src/Spawn/WaitLoop/Reaping/Looping.antt =====
-- spawn/mod.rs: the status in the rounds of `wait_loop` and at its end.
use coreshift_lowlevel.Prelude.{
  ℕ, ◌≤◌, ◌<◌, ◌≡◌, refl, subst, List, inl, inr, ℤ, Bool, Option, some, arith, length, take,
  Bool-cases, if◌then◌else◌,
}
use coreshift_lowlevel.Os.{
  Sys, Happened, Io, pure, ◌>>=◌, Round, continue, break, loop, Post, Post-bind, Post-mono,
  Post-loop, RoundPost,
}
use coreshift_lowlevel.Os.Steps.{Steps, Later, Sooner, After}
use coreshift_lowlevel.Os.Traces.{Grown, same}
use coreshift_lowlevel.Error.{Result, ok, err}
use coreshift_lowlevel.Reactor
use coreshift_lowlevel.Reactor.{Reactor, Event}
use coreshift_lowlevel.Io.Drain.{DrainState, is_done, take_all_slots, into_parts}
use coreshift_lowlevel.Spawn.Process.{ExitStatus, StatusMacros, wait_step}
use coreshift_lowlevel.Spawn.WaitLoop.{
  KillState, Watch, WaitState, Output, Leaving, del_slots, finish, pump, poll_status, final_status,
  wait_timeout, wait_round, close_up, max_events, handle_events,
}
use coreshift_lowlevel.Spawn.WaitLoop.Frames.{Quiet-handle_events}
use coreshift_lowlevel.Spawn.WaitLoop.Keeping.{Steps-check_deadline}
use coreshift_lowlevel.Spawn.WaitLoop.Plain.{Plain-wait, Plain-del_slots, Plain-pipes}
use coreshift_lowlevel.Spawn.WaitLoop.Reaping.{
  Any, Free, HasReaped, Quiet-Any, Known, Told, Finally, Polled, Known-Grown, after_steps,
  step_told, poll_told, final_told,
}

module _ (libc : StatusMacros) (w : Watch) (past : List Happened) where
  abbrev Reaped : Leaving → Sys → Type 0
  Reaped out s = HasReaped libc w.process.pid past out.2 s

  finish_reaps :
      (st : WaitState) (s : Sys)
      → Known libc w past st.status_raw s
      → Post Reaped Free (finish libc w st s)
  unfolding finish
  finish_reaps st s k =
      Post-bind (Finally libc w past) Reaped Free (final_status libc w st.status_raw) _ s
        (final_told libc w past st.status_raw s k) reaped
    where
      reaped :
          (r : Result ExitStatus) (s' : Sys)
          → Finally libc w past r s'
          → Post Reaped Free (
              (elim r as (λ _. Io Leaving) [
                | err e ↦ pure (st.drain, st.reactor, err e)
                | ok status ↦ del_slots st.reactor (take_all_slots st.drain).1 >>= λ _. pure (
                  (take_all_slots st.drain).0,
                  st.reactor,
                  ok (record {
                    pid = w.process.pid;
                    status = some status;
                    stdout = (into_parts (take_all_slots st.drain).0).0;
                    stderr = (into_parts (take_all_slots st.drain).0).1;
                    timed_out = st.timed_out;
                  }),
                )
              ])
                s')
      reaped (err e) s' f = tt
      reaped (ok status) s' f =
          after_steps libc w past _ Reaped (some status) s'
            (Plain-del_slots (λ _ _. tt) st.reactor (take_all_slots st.drain).1) f
            (λ _ s'' k' _. (status, refl, k'))

  abbrev Going : WaitState → Sys → Type 0
  Going st s = Known libc w past st.status_raw s

  abbrev Turned : ℕ → Round WaitState Leaving → Sys → Type 0
  Turned n = RoundPost Going Reaped n

  pump_reaps :
      (st : WaitState) (timeout : ℤ) (n : ℕ) (s : Sys)
      → length s.script ≤ n
      → Going st s
      → Post (Turned n) Free (pump st timeout s)
  unfolding pump
  pump_reaps st timeout n s le k =
      Post-bind (λ _. Sooner Any s) (Turned n) Free (Reactor.wait st.reactor max_events timeout) _ s
        (Post-mono (λ _. Sooner Any s) (λ _. Sooner Any s) (After Any s) Free
          (Reactor.wait st.reactor max_events timeout s) (λ _ _ g. g) (λ _ _. tt)
          ((Plain-wait (λ _ _. tt) st.reactor timeout).run s))
        (λ out s' g.
          handed out.0 out.1 out.2 s' (Known-Grown libc w past st.status_raw s s' g.0 k)
            (omega (arith, le, g.1)))
    where
      decided :
          (drain : DrainState) (reactor : Reactor) (r : Result (Unit {0})) (s' : Sys)
          → Going st s'
          → length s'.script < n
          → Turned n
              (elim r [
                | ok _ ↦ continue (record st { drain = drain; reactor = reactor })
                | err e ↦ break (drain, reactor, err e)
              ])
              s'
      decided drain reactor (ok _) s' k' lt = (k', lt)
      decided drain reactor (err e) s' k' lt = tt

      handed :
          (reactor : Reactor) (events : List Event) (r : Result ℕ) (s' : Sys)
          → Going st s'
          → length s'.script < n
          → Post (Turned n) Free (
              (elim r as (λ _. Io (Round WaitState Leaving)) [
                | err e ↦ pure (break (st.drain, reactor, err e))
                | ok nevents ↦ handle_events reactor st.drain (take nevents events) >>= λ p.
                    pure (elim p.1 [
                      | ok _ ↦ continue (record st { drain = p.0; reactor = reactor })
                      | err e ↦ break (p.0, reactor, err e)
                    ])
              ])
                s')
      handed reactor events (err e) s' k' lt = tt
      handed reactor events (ok m) s' k' lt =
          after_steps libc w past _ (Turned n) st.status_raw s'
            (Quiet-Any (Quiet-handle_events reactor st.drain (take m events))) k'
            (λ p s'' k'' le'. decided p.0 reactor p.1 s'' k'' (omega (arith, lt, le')))

  round_reaps :
      (st : WaitState) (s : Sys)
      → Going st s
      → Post (Turned (length s.script)) Free (wait_round libc w st s)
  unfolding wait_round
  round_reaps st s k =
      after_steps libc w past _ (Turned (length s.script)) st.status_raw s
        (Steps-check_deadline (λ _ _. tt) tt w st.state st.timed_out) k
        (λ c s' k' le.
          Post-bind (Polled libc w past s') (Turned (length s.script)) Free
            (poll_status libc w st.status_raw) _ s' (poll_told libc w past st.status_raw s' k')
            (λ r s'' t. polled c.0 c.1 c.2 r s'' t.0 (omega (arith, le, t.1))))
    where
      polled :
          (state : KillState) (timed_out : Bool) (poll_timeout : ℤ) (r : Result (Option ExitStatus))
          (s' : Sys)
          → Told libc w past r s'
          → length s'.script ≤ length s.script
          → Post (Turned (length s.script)) Free (
              (elim r as (λ _. Io (Round WaitState Leaving)) [
                | err e ↦ pure (break (st.drain, st.reactor, err e))
                | ok status_raw ↦
                    if is_done st.drain
                    then (finish libc w (record st {
                      state = state;
                      timed_out = timed_out;
                      status_raw = status_raw;
                    })
                        >>= λ out. pure (break out))
                    else pump
                        (record st {
                          state = state;
                          timed_out = timed_out;
                          status_raw = status_raw;
                        })
                        (wait_timeout status_raw poll_timeout)
              ])
                s')
      polled state timed_out t (err e) s' k' le = tt
      polled state timed_out t (ok status_raw) s' k' le =
          let st' : WaitState = record st {
            state = state;
            timed_out = timed_out;
            status_raw = status_raw;
          } in
          elim (Bool-cases (is_done st.drain)) [
            | inl done ↦ rw done (
                Post-bind Reaped (Turned (length s.script)) Free (finish libc w st')
                  (λ out. pure (break out)) s' (finish_reaps st' s' k') (λ out s'' f. f))
            | inr going ↦
                rw going (pump_reaps st' (wait_timeout status_raw t) (length s.script) s' le k')
          ]

  pub loop_reaps :
      (st : WaitState) (s : Sys) → Going st s → Post Reaped Free (loop (wait_round libc w) st s)
  loop_reaps st s k = Post-loop (wait_round libc w) Going Reaped Free round_reaps st s k

  HasReaped-Grown :
      (r : Result Output) (s s' : Sys)
      → Grown Any s.log s'.log
      → HasReaped libc w.process.pid past r s
      → HasReaped libc w.process.pid past r s'
  HasReaped-Grown (ok out) s s' g (status, e, k) =
      (status, e, Known-Grown libc w past (some status) s s' g k)
  HasReaped-Grown (err e) s s' g h = tt

  given_back :
      {m : Io (Unit {0})} (r : Result Output) (s : Sys)
      → Steps Any m
      → HasReaped libc w.process.pid past r s
      → Post (HasReaped libc w.process.pid past) Free ((m >>= λ _. pure r) s)
  given_back {m} r s steps h =
      Post-bind (λ _. Later Any s) (HasReaped libc w.process.pid past) Free m (λ _. pure r) s
        (Post-mono (λ _. Later Any s) (λ _. Later Any s) (After Any s) Free (m s) (λ _ _ g. g)
          (λ _ _. tt) (steps.run s))
        (λ _ s' g. HasReaped-Grown r s s' g.0 h)

  closed :
      (out : Leaving) (s : Sys)
      → Reaped out s
      → Post (HasReaped libc w.process.pid past) Free (close_up out s)
  unfolding close_up
  closed out s h = given_back out.2 s (Plain-pipes (λ _ _. tt) out) h

  -- The loop from its first look at the process, to the end of what it holds.
  pub started_reaps :
      (first : Result (Option ExitStatus) → Io Leaving) (s : Sys)
      → past ≡ s.log
      → ((r : Result (Option ExitStatus)) (s' : Sys)
          → Told libc w past r s'
          → Post Reaped Free (first r s'))
      → Post
          (HasReaped libc w.process.pid past)
          Free
          ((wait_step libc w.process >>= λ r. first r >>= close_up) s)
  started_reaps first s e h =
      Post-bind (Polled libc w past s) (HasReaped libc w.process.pid past) Free
        (wait_step libc w.process) _ s (step_told libc w past s (subst (Grown Any past) e same))
        (λ r s' t.
          Post-bind Reaped (HasReaped libc w.process.pid past) Free (first r) close_up s'
            (h r s' t.0) closed)
