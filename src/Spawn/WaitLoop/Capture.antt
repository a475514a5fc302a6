-- ===== src/Spawn/WaitLoop/Capture.antt =====
-- spawn/mod.rs: the data that `wait_loop` returns.
use coreshift_lowlevel.Prelude.{
  ℕ, ◌≤◌, ◌<◌, ◌≡◌, ◌≢◌, refl, List, ℤ, Bool, Option, some, inl, inr, arith, length, take,
  if◌then◌else◌, Bool-cases,
}
use coreshift_lowlevel.Os.{
  Sys, Io, pure, ◌>>=◌, Round, continue, break, Post, Post-bind, Post-mono, RoundPost,
}
use coreshift_lowlevel.Os.Steps.{Sooner, After}
use coreshift_lowlevel.Error.{Result, ok, err}
use coreshift_lowlevel.Reactor
use coreshift_lowlevel.Reactor.{Reactor, Event}
use coreshift_lowlevel.Io.Buffer
use coreshift_lowlevel.Io.Buffer.Capture.{Captured}
use coreshift_lowlevel.Io.Drain.{DrainState, is_done, take_all_slots, into_parts}
use coreshift_lowlevel.Spawn.Process.{ExitStatus, StatusMacros}
use coreshift_lowlevel.Spawn.WaitLoop.{
  KillState, Watch, WaitState, Output, Leaving, finish, pump, wait_timeout, wait_round, del_slots,
  handle_events, max_events,
}
use coreshift_lowlevel.Spawn.WaitLoop.Plain.{
  Plain-wait, Plain-poll_status, Plain-final_status, Plain-del_slots,
}
use coreshift_lowlevel.Spawn.WaitLoop.Keeping.{
  IsNoRead, no_read, Kept, Kept-Later, Anything, after_plain, Steps-check_deadline,
}
use coreshift_lowlevel.Spawn.WaitLoop.Dispatch.{handle_events_keep}

-- An output holds the first `limit` bytes of what each of the two descriptors brought.
abbrev pub Holds : ℕ → ℤ → ℤ → List ℕ → List ℕ → Result Output → Sys → Type 0
Holds limit fo fe bo be (ok out) s =
    Captured limit fo bo out.stdout s.log × Captured limit fe be out.stderr s.log
Holds limit fo fe bo be (err e) s = Unit

-- The output has the data of the drain.
abbrev pub SameData : DrainState → Result Output → Type 0
SameData d (ok o) = (o.stdout ≡ d.buffer.stdout) × (o.stderr ≡ d.buffer.stderr)
SameData d (err e) = Unit

module _ (libc : StatusMacros) (w : Watch) (limit : ℕ) (fo fe : ℤ) (bo be : List ℕ)
    (apart : fo ≢ fe) where
  abbrev K : DrainState → Sys → Type 0
  K d s = Kept limit fo fe bo be d s

  -- What leaves the loop still has the data in its drain.
  abbrev pub LeftWith : Leaving → Sys → Type 0
  LeftWith out s = Kept limit fo fe bo be out.0 s × SameData out.0 out.2

  finish_keeps :
      (st : WaitState) (s : Sys) → K st.drain s → Post LeftWith Anything (finish libc w st s)
  unfolding finish take_all_slots into_parts Buffer.into_parts
  finish_keeps st s k =
      after_plain limit fo fe bo be _ LeftWith st.drain s
        (Plain-final_status no_read libc w st.status_raw) k (λ r s' k' _. reaped r s' k')
    where
      reaped :
          (r : Result ExitStatus) (s' : Sys)
          → K st.drain s'
          → Post LeftWith Anything (
              (elim r as (λ _. Io Leaving) [
                | err e ↦ pure (st.drain, st.reactor, err e)
                | ok status ↦ del_slots st.reactor (take_all_slots st.drain).1 >>= λ _. pure (
                  (take_all_slots st.drain).0,
                  st.reactor,
                  ok (record {
                    pid = w.process.pid;
                    status = some status;
                    stdout = (into_parts (take_all_slots st.drain).0).0;
                    stderr = (into_parts (take_all_slots st.drain).0).1;
                    timed_out = st.timed_out;
                  }),
                )
              ])
                s')
      reaped (err e) s' k' = (k', tt)
      reaped (ok status) s' k' =
          after_plain limit fo fe bo be _ LeftWith st.drain s'
            (Plain-del_slots no_read st.reactor (take_all_slots st.drain).1) k'
            (λ _ s'' k'' _. (
              record {
                stdout_is = tt;
                stderr_is = tt;
                limit_is = k''.limit_is;
                stdout = k''.stdout;
                stderr = k''.stderr;
                honest = k''.honest;
              },
              (refl, refl),
            ))

  abbrev Rounded : ℕ → Round WaitState Leaving → Sys → Type 0
  Rounded n = RoundPost (λ st s. K st.drain s) LeftWith n

  pump_keeps :
      (st : WaitState) (timeout : ℤ) (n : ℕ) (s : Sys)
      → length s.script ≤ n
      → K st.drain s
      → Post (Rounded n) Anything (pump st timeout s)
  unfolding pump
  pump_keeps st timeout n s le k =
      Post-bind (λ _. Sooner IsNoRead s) (Rounded n) Anything
        (Reactor.wait st.reactor max_events timeout) _ s
        (Post-mono (λ _. Sooner IsNoRead s) (λ _. Sooner IsNoRead s) (After IsNoRead s) Anything
          (Reactor.wait st.reactor max_events timeout s) (λ a s' g. g) (λ _ _. tt)
          ((Plain-wait no_read st.reactor timeout).run s))
        (λ out s' g.
          handed out.0 out.1 out.2 s'
            (Kept-Later limit fo fe bo be st.drain s s' (g.0, omega (arith, g.1), g.2) k)
            (omega (arith, le, g.1)))
    where
      decided :
          (drain : DrainState) (reactor : Reactor) (r : Result (Unit {0})) (s' : Sys)
          → K drain s'
          → length s'.script < n
          → Rounded n
              (elim r [
                | ok _ ↦ continue (record st { drain = drain; reactor = reactor })
                | err e ↦ break (drain, reactor, err e)
              ])
              s'
      decided drain reactor (ok _) s' k' lt = (k', lt)
      decided drain reactor (err e) s' k' lt = (k', tt)

      handed :
          (reactor : Reactor) (events : List Event) (r : Result ℕ) (s' : Sys)
          → K st.drain s'
          → length s'.script < n
          → Post (Rounded n) Anything (
              (elim r as (λ _. Io (Round WaitState Leaving)) [
                | err e ↦ pure (break (st.drain, reactor, err e))
                | ok nevents ↦ handle_events reactor st.drain (take nevents events) >>= λ p.
                    pure (elim p.1 [
                      | ok _ ↦ continue (record st { drain = p.0; reactor = reactor })
                      | err e ↦ break (p.0, reactor, err e)
                    ])
              ])
                s')
      handed reactor events (err e) s' k' lt = (k', tt)
      handed reactor events (ok m) s' k' lt =
          Post-bind
            (λ out s''. Kept limit fo fe bo be out.0 s'' × (length s''.script ≤ length s'.script))
            (Rounded n) Anything (handle_events reactor st.drain (take m events)) _ s'
            (handle_events_keep limit fo fe bo be apart reactor st.drain (take m events) s' k')
            (λ p s'' h. decided p.0 reactor p.1 s'' h.0 (omega (arith, lt, h.1)))

  pub wait_round_keeps :
      (st : WaitState) (s : Sys)
      → K st.drain s
      → Post (Rounded (length s.script)) Anything (wait_round libc w st s)
  unfolding wait_round
  wait_round_keeps st s k =
      after_plain limit fo fe bo be _ (Rounded (length s.script)) st.drain s
        (Steps-check_deadline (λ _ _. tt) tt w st.state st.timed_out) k
        (λ c s' k' le.
          after_plain limit fo fe bo be _ (Rounded (length s.script)) st.drain s'
            (Plain-poll_status no_read libc w st.status_raw) k'
            (λ r s'' k'' le'. polled c.0 c.1 c.2 r s'' k'' (omega (arith, le, le'))))
    where
      polled :
          (state : KillState) (timed_out : Bool) (poll_timeout : ℤ) (r : Result (Option ExitStatus))
          (s' : Sys)
          → K st.drain s'
          → length s'.script ≤ length s.script
          → Post (Rounded (length s.script)) Anything (
              (elim r as (λ _. Io (Round WaitState Leaving)) [
                | err e ↦ pure (break (st.drain, st.reactor, err e))
                | ok status_raw ↦
                    if is_done st.drain
                    then (finish libc w (record st {
                      state = state;
                      timed_out = timed_out;
                      status_raw = status_raw;
                    })
                        >>= λ out. pure (break out))
                    else pump
                        (record st {
                          state = state;
                          timed_out = timed_out;
                          status_raw = status_raw;
                        })
                        (wait_timeout status_raw poll_timeout)
              ])
                s')
      polled state timed_out t (err e) s' k' le = (k', tt)
      polled state timed_out t (ok status_raw) s' k' le =
          let st' : WaitState = record st {
            state = state;
            timed_out = timed_out;
            status_raw = status_raw;
          } in
          elim (Bool-cases (is_done st.drain)) [
            | inl done ↦ rw done (
                Post-bind LeftWith (Rounded (length s.script)) Anything (finish libc w st')
                  (λ out. pure (break out)) s' (finish_keeps st' s' k') (λ out s'' f. f))
            | inr going ↦
                rw going (pump_keeps st' (wait_timeout status_raw t) (length s.script) s' le k')
          ]
