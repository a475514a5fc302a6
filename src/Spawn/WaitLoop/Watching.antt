-- ===== src/Spawn/WaitLoop/Watching.antt =====
-- spawn/mod.rs: what `wait_loop` does as a whole.
use coreshift_lowlevel.Prelude.{
  ℕ, ◌≤◌, ◌<◌, ◌≡◌, refl, List, ℤ, Bool, Option, some, arith, length, if◌then◌else◌, Bool-cases,
  inl, inr, take,
}
use coreshift_lowlevel.Os.{
  Sys, Io, pure, ◌>>=◌, Round, continue, break, Post, Post-bind, Post-mono, RoundPost,
}
use coreshift_lowlevel.Os.Steps.{Steps, Later, Sooner, After}
use coreshift_lowlevel.Error.{Result, ok, err}
use coreshift_lowlevel.Reactor
use coreshift_lowlevel.Reactor.{Reactor, Event, drop_reactor}
use coreshift_lowlevel.Io.Drain.{DrainState, is_done, take_all_slots, into_parts}
use coreshift_lowlevel.Spawn.Process.{ExitStatus, StatusMacros}
use coreshift_lowlevel.Spawn.WaitLoop.{
  KillState, Watch, WaitState, Output, Leaving, del_slots, check_deadline, finish, pump,
  wait_timeout, wait_round, close_up, max_events, handle_events,
}
use coreshift_lowlevel.Spawn.WaitLoop.Frames.{quiet, IsQuiet, Quiet-handle_events}
use coreshift_lowlevel.Spawn.WaitLoop.Signals.{Signal, Standing, Standing-Grown}
use coreshift_lowlevel.Spawn.WaitLoop.Deadline.{Stays, Marked, Checked, check_deadline_lem}
use coreshift_lowlevel.Spawn.WaitLoop.Plain.{
  Plain-wait, Plain-poll_status, Plain-final_status, Plain-del_slots, Plain-pipes,
}

-- What a result says of the process and of the state in which the loop was left.
abbrev pub Reports : Watch → KillState → Result Output → Type 0
Reports w state (ok out) = (out.pid ≡ w.process.pid) × Marked state out.timed_out
Reports w state (err e) = Unit

module _ (libc : StatusMacros) (w : Watch) (before : List Signal) where
  abbrev Going : WaitState → Sys → Type 0
  Going st s = Standing w before st.state s × Marked st.state st.timed_out

  abbrev pub Finished : Leaving → Sys → Type 0
  Finished out s = (state : KillState) × Standing w before state s × Reports w state out.2

  -- A quiet part, and what follows it.
  pub after_quiet :
      {A B : Type 0} {m : Io A} (f : A → Io B) (Q : B → Sys → Type 0) (state : KillState) (s : Sys)
      → Steps IsQuiet m
      → Standing w before state s
      → ((a : A) (s' : Sys)
          → Standing w before state s'
          → length s'.script ≤ length s.script
          → Post Q (Stays w before) (f a s'))
      → Post Q (Stays w before) ((m >>= f) s)
  after_quiet {A} {B} {m} f Q state s steps h next =
      Post-bind (λ _. Later IsQuiet s) Q (Stays w before) m f s
        (Post-mono (λ _. Later IsQuiet s) (λ _. Later IsQuiet s) (After IsQuiet s) (Stays w before)
          (m s) (λ a s' g. g) (λ s' g. (state, Standing-Grown w before state s s' g h))
          (steps.run s))
        (λ a s' g. next a s' (Standing-Grown w before state s s' g.0 h) g.1)

  finish_lem :
      (st : WaitState) (s : Sys) → Going st s → Post Finished (Stays w before) (finish libc w st s)
  unfolding finish into_parts
  finish_lem st s (h, mark) =
      after_quiet _ Finished st.state s (Plain-final_status quiet libc w st.status_raw) h
        (λ r s' h' _. reaped r s' h')
    where
      reaped :
          (r : Result ExitStatus) (s' : Sys)
          → Standing w before st.state s'
          → Post Finished (Stays w before) (
              (elim r as (λ _. Io Leaving) [
                | err e ↦ pure (st.drain, st.reactor, err e)
                | ok status ↦ del_slots st.reactor (take_all_slots st.drain).1 >>= λ _. pure (
                  (take_all_slots st.drain).0,
                  st.reactor,
                  ok (record {
                    pid = w.process.pid;
                    status = some status;
                    stdout = (into_parts (take_all_slots st.drain).0).0;
                    stderr = (into_parts (take_all_slots st.drain).0).1;
                    timed_out = st.timed_out;
                  }),
                )
              ])
                s')
      reaped (err e) s' h' = (st.state, h', tt)
      reaped (ok status) s' h' =
          after_quiet _ Finished st.state s'
            (Plain-del_slots quiet st.reactor (take_all_slots st.drain).1) h'
            (λ _ s'' h'' _. (st.state, h'', (refl, mark)))

  -- A round that goes on keeps the state, and has used up an answer of the n.
  abbrev Rounded : ℕ → Round WaitState Leaving → Sys → Type 0
  Rounded n = RoundPost Going Finished n

  pump_lem :
      (st : WaitState) (timeout : ℤ) (n : ℕ) (s : Sys)
      → length s.script ≤ n
      → Going st s
      → Post (Rounded n) (Stays w before) (pump st timeout s)
  unfolding pump
  pump_lem st timeout n s le (h, mark) =
      Post-bind (λ _. Sooner IsQuiet s) (Rounded n) (Stays w before)
        (Reactor.wait st.reactor max_events timeout) _ s
        (Post-mono (λ _. Sooner IsQuiet s) (λ _. Sooner IsQuiet s) (After IsQuiet s)
          (Stays w before) (Reactor.wait st.reactor max_events timeout s) (λ a s' g. g)
          (λ s' g. (st.state, Standing-Grown w before st.state s s' g h))
          ((Plain-wait quiet st.reactor timeout).run s))
        (λ out s' g.
          handed out.0 out.1 out.2 s' (Standing-Grown w before st.state s s' g.0 h)
            (omega (arith, le, g.1)))
    where
      decided :
          (drain : DrainState) (reactor : Reactor) (r : Result (Unit {0})) (s' : Sys)
          → Standing w before st.state s'
          → length s'.script < n
          → Rounded n
              (elim r [
                | ok _ ↦ continue (record st { drain = drain; reactor = reactor })
                | err e ↦ break (drain, reactor, err e)
              ])
              s'
      decided drain reactor (ok _) s' h' lt = ((h', mark), lt)
      decided drain reactor (err e) s' h' lt = (st.state, h', tt)

      handed :
          (reactor : Reactor) (events : List Event) (r : Result ℕ) (s' : Sys)
          → Standing w before st.state s'
          → length s'.script < n
          → Post (Rounded n) (Stays w before) (
              (elim r as (λ _. Io (Round WaitState Leaving)) [
                | err e ↦ pure (break (st.drain, reactor, err e))
                | ok nevents ↦ handle_events reactor st.drain (take nevents events) >>= λ p.
                    pure (elim p.1 [
                      | ok _ ↦ continue (record st { drain = p.0; reactor = reactor })
                      | err e ↦ break (p.0, reactor, err e)
                    ])
              ])
                s')
      handed reactor events (err e) s' h' lt = (st.state, h', tt)
      handed reactor events (ok k) s' h' lt =
          after_quiet _ (Rounded n) st.state s'
            (Quiet-handle_events reactor st.drain (take k events)) h'
            (λ p s'' h'' le'. decided p.0 reactor p.1 s'' h'' (omega (arith, lt, le')))

  pub wait_round_lem :
      (st : WaitState) (s : Sys)
      → Going st s
      → Post (Rounded (length s.script)) (Stays w before) (wait_round libc w st s)
  unfolding wait_round
  wait_round_lem st s (h, mark) =
      Post-bind (Checked w before s) (Rounded (length s.script)) (Stays w before)
        (check_deadline w st.state st.timed_out) _ s
        (check_deadline_lem w before st.state st.timed_out s h mark)
        (λ c s' k.
          after_quiet _ (Rounded (length s.script)) c.0 s'
            (Plain-poll_status quiet libc w st.status_raw) k.0
            (λ r s'' h'' le. polled c.0 c.1 c.2 r s'' h'' k.1 (omega (arith, le, k.2))))
    where
      polled :
          (state : KillState) (timed_out : Bool) (poll_timeout : ℤ) (r : Result (Option ExitStatus))
          (s' : Sys)
          → Standing w before state s'
          → Marked state timed_out
          → length s'.script ≤ length s.script
          → Post (Rounded (length s.script)) (Stays w before) (
              (elim r as (λ _. Io (Round WaitState Leaving)) [
                | err e ↦ pure (break (st.drain, st.reactor, err e))
                | ok status_raw ↦
                    if is_done st.drain
                    then (finish libc w (record st {
                      state = state;
                      timed_out = timed_out;
                      status_raw = status_raw;
                    })
                        >>= λ out. pure (break out))
                    else pump
                        (record st {
                          state = state;
                          timed_out = timed_out;
                          status_raw = status_raw;
                        })
                        (wait_timeout status_raw poll_timeout)
              ])
                s')
      polled state timed_out t (err e) s' h' mark' le = (state, h', tt)
      polled state timed_out t (ok status_raw) s' h' mark' le =
          let st' : WaitState = record st {
            state = state;
            timed_out = timed_out;
            status_raw = status_raw;
          } in
          elim (Bool-cases (is_done st.drain)) [
            | inl done ↦ rw done (
                Post-bind Finished (Rounded (length s.script)) (Stays w before) (finish libc w st')
                  (λ out. pure (break out)) s' (finish_lem st' s' (h', mark')) (λ out s'' f. f))
            | inr going ↦
                rw going
                  (pump_lem st' (wait_timeout status_raw t) (length s.script) s' le (h', mark'))
          ]

  -- What is closed at the end changes nothing of it.
  pub closed :
      (out : Leaving) (s : Sys)
      → Finished out s
      → Post
          (λ r s'. (state : KillState) × Standing w before state s' × Reports w state r)
          (Stays w before)
          (close_up out s)
  unfolding close_up
  closed out s (state, h, r) =
      after_quiet _ (λ r s'. (state : KillState) × Standing w before state s' × Reports w state r)
        state s (Plain-pipes quiet out) h (λ _ s' h' _. (state, h', r))
