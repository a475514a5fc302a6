-- ===== src/Spawn/WaitLoop/Escalation.antt =====
-- spawn/mod.rs: the promise of `wait_loop` on signals.
use coreshift_lowlevel.Prelude.{ℕ, refl, List, [], append-nil, sym, ℤ, false, Option}
use coreshift_lowlevel.Os.{
  Sys, Happened, Io, pure, loop, Post, Post-mono, Post-both, Post-bind, Post-loop,
}
use coreshift_lowlevel.Error.{Result, ok, err}
use coreshift_lowlevel.Reactor.{Reactor}
use coreshift_lowlevel.Io.Drain.{DrainState}
use coreshift_lowlevel.System.Exec.{CancelPolicy, ProcessGroup}
use coreshift_lowlevel.Spawn.Process
use coreshift_lowlevel.Spawn.Process.{ExitStatus, StatusMacros, wait_step}
use coreshift_lowlevel.Spawn.WaitLoop.{
  KillState, Watch, WaitState, Output, Leaving, wait_round, close_up, wait_loop,
}
use coreshift_lowlevel.Spawn.WaitLoop.Frames.{quiet}
use coreshift_lowlevel.Spawn.WaitLoop.Signals.{Signal, signals, Standing}
use coreshift_lowlevel.Spawn.WaitLoop.Deadline.{Stays}
use coreshift_lowlevel.Spawn.WaitLoop.Watching.{
  Reports, Finished, after_quiet, wait_round_lem, closed,
}
use coreshift_lowlevel.Spawn.WaitLoop.Reaping.{HasReaped, Told}
use coreshift_lowlevel.Spawn.WaitLoop.Reaping.Looping.{loop_reaps, started_reaps}
use coreshift_lowlevel.Spawn.WaitLoop.Plain.{Plain-wait_step}

-- The arguments of `wait_loop` as it keeps them.
abbrev pub watching : ℤ → Option ℕ → ℕ → CancelPolicy → ProcessGroup → Watch
watching pid timeout_ms kill_grace_ms cancel pgroup = record {
  process = record { pid = pid };
  timeout_ms = timeout_ms;
  kill_grace_ms = kill_grace_ms;
  cancel = cancel;
  pgroup = pgroup;
}

-- The variables at the start of the loop.
abbrev pub begun : DrainState → Reactor → Option ExitStatus → WaitState
begun drain reactor status_raw = record {
  status_raw = status_raw;
  state = KillState.none;
  timed_out = false;
  drain = drain;
  reactor = reactor;
}

-- What is left behind when `wait_loop` returns.
abbrev pub Signalled : Watch → List Signal → Result Output → Sys → Type 0
Signalled w before r s = (state : KillState) × Standing w before state s × Reports w state r

abbrev pub Promised : StatusMacros → Watch → List Happened → Result Output → Sys → Type 0
Promised libc w past r s = Signalled w (signals past) r s × HasReaped libc w.process.pid past r s

wait_loop_sends :
    (libc : StatusMacros) (pid : ℤ) (drain : DrainState) (reactor : Reactor) (timeout_ms : Option ℕ)
    (kill_grace_ms : ℕ) (cancel : CancelPolicy) (pgroup : ProcessGroup) (s : Sys)
    → Post
        (Signalled (watching pid timeout_ms kill_grace_ms cancel pgroup) (signals s.log))
        (Stays (watching pid timeout_ms kill_grace_ms cancel pgroup) (signals s.log))
        (wait_loop libc pid drain reactor timeout_ms kill_grace_ms cancel pgroup s)
unfolding wait_loop Process.new
wait_loop_sends libc pid drain reactor timeout_ms kill_grace_ms cancel pgroup s =
    after_quiet libc w before _ (Signalled w before) KillState.none s
      (Plain-wait_step quiet libc w.process) start
      (λ r s' h _.
        Post-bind (Finished libc w before) (Signalled w before) (Stays w before) (looped r) close_up
          s' (entered r s' h) (closed libc w before))
  where
    w : Watch
    w = watching pid timeout_ms kill_grace_ms cancel pgroup

    before : List Signal
    before = signals s.log

    start : Standing w before KillState.none s
    start = record { sent = []; logged = sym (append-nil before); allowed = refl }

    looped : Result (Option ExitStatus) → Io Leaving
    looped (err e) = pure (drain, reactor, err e)
    looped (ok status_raw) = loop (wait_round libc w) (begun drain reactor status_raw)

    entered :
        (r : Result (Option ExitStatus)) (s' : Sys)
        → Standing w before KillState.none s'
        → Post (Finished libc w before) (Stays w before) (looped r s')
    entered (err e) s' h = (KillState.none, h, tt)
    entered (ok status_raw) s' h =
        Post-loop (wait_round libc w) _ (Finished libc w before) (Stays w before)
          (wait_round_lem libc w before) (begun drain reactor status_raw) s' (h, tt)

wait_loop_reaps :
    (libc : StatusMacros) (pid : ℤ) (drain : DrainState) (reactor : Reactor) (timeout_ms : Option ℕ)
    (kill_grace_ms : ℕ) (cancel : CancelPolicy) (pgroup : ProcessGroup) (s : Sys)
    → Post
        (HasReaped libc pid s.log)
        (λ _. Unit)
        (wait_loop libc pid drain reactor timeout_ms kill_grace_ms cancel pgroup s)
unfolding wait_loop Process.new
wait_loop_reaps libc pid drain reactor timeout_ms kill_grace_ms cancel pgroup s =
    started_reaps libc w s.log looped s refl entered
  where
    w : Watch
    w = watching pid timeout_ms kill_grace_ms cancel pgroup

    looped : Result (Option ExitStatus) → Io Leaving
    looped (err e) = pure (drain, reactor, err e)
    looped (ok status_raw) = loop (wait_round libc w) (begun drain reactor status_raw)

    entered :
        (r : Result (Option ExitStatus)) (s' : Sys)
        → Told libc w s.log r s'
        → Post (λ out s'. HasReaped libc pid s.log out.2 s') (λ _. Unit) (looped r s')
    entered (err e) s' h = tt
    entered (ok status_raw) s' h = loop_reaps libc w s.log (begun drain reactor status_raw) s' h

-- `wait_loop` always comes to an end of its own or waits in a call. In either case it has sent no
-- signal but these: none without a timeout or with the policy `None`; at most one SIGKILL with
-- `Kill`; and with `Graceful` at most one SIGTERM and after it at most one SIGKILL. Each was sent to the
-- process or, where the options isolate it or name a leader, to the group of the process's own
-- number, when the clock had last shown a time at or past the deadline, and the SIGKILL after a
-- SIGTERM when the whole milliseconds past it exceeded the grace. An output has the process's pid,
-- the status that a `waitpid` of this call for the process told, and `timed_out` if a signal was sent.
pub wait_loop_escalates :
    (libc : StatusMacros) (pid : ℤ) (drain : DrainState) (reactor : Reactor) (timeout_ms : Option ℕ)
    (kill_grace_ms : ℕ) (cancel : CancelPolicy) (pgroup : ProcessGroup) (s : Sys)
    → Post
        (Promised libc (watching pid timeout_ms kill_grace_ms cancel pgroup) s.log)
        (Stays (watching pid timeout_ms kill_grace_ms cancel pgroup) (signals s.log))
        (wait_loop libc pid drain reactor timeout_ms kill_grace_ms cancel pgroup s)
wait_loop_escalates libc pid drain reactor timeout_ms kill_grace_ms cancel pgroup s =
    let w = watching pid timeout_ms kill_grace_ms cancel pgroup in
    let out = wait_loop libc pid drain reactor timeout_ms kill_grace_ms cancel pgroup s in
    Post-mono _ (Promised libc w s.log) (λ s'. Stays w (signals s.log) s' × Unit)
      (Stays w (signals s.log)) out (λ _ _ h. h) (λ _ h. h.0)
      (Post-both (Signalled w (signals s.log)) (HasReaped libc pid s.log) (Stays w (signals s.log))
        (λ _. Unit) out
        (wait_loop_sends libc pid drain reactor timeout_ms kill_grace_ms cancel pgroup s)
        (wait_loop_reaps libc pid drain reactor timeout_ms kill_grace_ms cancel pgroup s))
