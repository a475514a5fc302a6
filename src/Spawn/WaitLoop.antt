-- ===== src/Spawn/WaitLoop.antt =====
-- spawn/mod.rs: `wait_loop`, the loop that watches a process.
pub mod Still
pub mod Plain
pub mod Frames
pub mod Signals
pub mod Deadline
pub mod Watching
pub mod Reaping
pub mod Escalation
pub mod Enforcement
pub mod Keeping
pub mod Handling
pub mod Dispatch
pub mod Capture
pub mod Delivery
pub mod Unattended
pub mod Closing
use coreshift_lowlevel.Prelude.{
  ℕ, ◌-◌, ◌*◌, ◌/◌, min, List, [], ◌∷◌, ℤ, pos, negsuc, minus_one, Bool, true, false, Option, some,
  is_some, ltb, leb, ◌==◌, ◌||◌, if◌then◌else◌, take,
}
use coreshift_lowlevel.Os.{Io, pure, ◌>>=◌, ◌>>◌, perform, Round, continue, break, loop, elapsed}
use coreshift_lowlevel.Error.{Result, ok, err}
use coreshift_lowlevel.Fd.{drop_fd}
use coreshift_lowlevel.Reactor
use coreshift_lowlevel.Reactor.{Reactor, Event, drop_reactor}
use coreshift_lowlevel.Io.Drain.{
  DrainState, FdSlot, is_done, take_all_slots, into_parts, stdout_matches, stderr_matches,
  stdin_matches, drop_stdout, drop_stderr, drop_stdin, handle_stdout_ready, handle_stderr_ready,
  handle_stdin_writable, drop_slot,
}
use coreshift_lowlevel.System.Exec.{CancelPolicy, ProcessGroup, Bytes}
use coreshift_lowlevel.Spawn.Process
use coreshift_lowlevel.Spawn.Process.{
  ExitStatus, Process, StatusMacros, wait_step, wait_blocking, kill_process, kill_pgroup, sigkill,
  sigterm,
}

pub record Output : Type 0 where
  pub pid : ℤ
  pub status : Option ExitStatus
  pub stdout : Bytes
  pub stderr : Bytes
  pub timed_out : Bool

pub data KillState : Type 0 where
  none term_sent kill_sent : KillState

-- What stays the same in the loop: its arguments, and the process made of the first.
pub record Watch : Type 0 where
  pub process : Process
  pub timeout_ms : Option ℕ
  pub kill_grace_ms : ℕ
  pub cancel : CancelPolicy
  pub pgroup : ProcessGroup

-- The variables that the loop changes.
pub record WaitState : Type 0 where
  pub status_raw : Option ExitStatus
  pub state : KillState
  pub timed_out : Bool
  pub drain : DrainState
  pub reactor : Reactor

abbrev pub nanos_per_ms : ℕ
nanos_per_ms = 1000000

abbrev pub target_is_group : ProcessGroup → Bool
target_is_group g = g.isolated || is_some g.leader

unfoldable pub send : Watch → ℕ → Io (Result (Unit {0}))
unfolding kill_process kill_pgroup
send w sig =
    if target_is_group w.pgroup then kill_pgroup w.process sig else kill_process w.process sig

-- The first signal, by the policy; a SIGTERM that fails counts as the end of it.
abbrev pub after_term : Result (Unit {0}) → KillState
after_term (ok _) = KillState.term_sent
after_term (err e) = KillState.kill_sent

unfoldable pub first_signal : Watch → CancelPolicy → Io KillState
unfolding send
first_signal w CancelPolicy.graceful = do r ← send w sigterm; pure (after_term r)
first_signal w CancelPolicy.kill = send w sigkill >> pure KillState.kill_sent
first_signal w CancelPolicy.none = pure KillState.none

-- The `match` on the state, past the deadline by this many milliseconds.
unfoldable pub escalate : Watch → ℕ → KillState → Io KillState
unfolding first_signal send
escalate w elapsed_over KillState.none = first_signal w w.cancel
escalate w elapsed_over KillState.term_sent =
    if ltb w.kill_grace_ms elapsed_over
    then send w sigkill >> pure KillState.kill_sent
    else pure KillState.term_sent
escalate w elapsed_over KillState.kill_sent = pure KillState.kill_sent

abbrev pub i32_max : ℕ
i32_max = 2147483647

-- The part of a round that looks at the clock: the new state, `timed_out` and the poll timeout.
unfoldable pub check_deadline : Watch → KillState → Bool → Io (KillState × Bool × ℤ)
unfolding perform escalate
check_deadline w state timed_out = elim w.timeout_ms [
  | Option.none ↦ pure (state, timed_out, minus_one)
  | some ms ↦ do
    a ← perform elapsed
    let dl = ms * nanos_per_ms
    (if leb dl a.nanos
        then (do
          state' ← escalate w ((a.nanos - dl) / nanos_per_ms) state
          pure (state', true, pos 100))
        else pure (state, timed_out, pos (min ((dl - a.nanos) / nanos_per_ms) i32_max)))
]

-- The process is asked for only until its status is known.
unfoldable pub poll_status :
    StatusMacros → Watch → Option ExitStatus → Io (Result (Option ExitStatus))
unfolding wait_step
poll_status libc w (some status) = pure (ok (some status))
poll_status libc w Option.none = wait_step libc w.process

unfoldable pub final_status : StatusMacros → Watch → Option ExitStatus → Io (Result ExitStatus)
unfolding wait_blocking
final_status libc w (some status) = pure (ok status)
final_status libc w Option.none = wait_blocking libc w.process

unfoldable pub del_slots : Reactor → List FdSlot → Io (Unit {0})
unfolding Reactor.del drop_fd
del_slots reactor [] = pure tt
del_slots reactor (slot ∷ slots) =
    let rest = del_slots reactor slots in Reactor.del reactor slot.fd >> drop_fd slot.fd >> rest

-- `timeout` of a round: 1 ms at most once the process has ended.
abbrev pub wait_timeout : Option ExitStatus → ℤ → ℤ
wait_timeout Option.none t = t
wait_timeout (some status) (negsuc n) = if n == 0 then pos 1 else negsuc n
wait_timeout (some status) (pos n) = if ltb 1 n then pos 1 else pos n

abbrev pub quietly : Io DrainState → Io (DrainState × Result (Unit {0}))
quietly m = do d ← m; pure (d, ok tt)

-- One event goes to the pipe whose token it carries.
unfoldable pub handle_event : Reactor → DrainState → Event → Io (DrainState × Result (Unit {0}))
unfolding stdout_matches stderr_matches stdin_matches handle_stdout_ready handle_stderr_ready
    handle_stdin_writable drop_stdout drop_stderr drop_stdin
handle_event reactor d ev =
    if stdout_matches d ev.token
    then (if ev.readable
        then handle_stdout_ready d reactor
        else if ev.error
        then quietly (drop_stdout d reactor)
        else pure (d, ok tt))
    else if stderr_matches d ev.token
    then (if ev.readable
        then handle_stderr_ready d reactor
        else if ev.error
        then quietly (drop_stderr d reactor)
        else pure (d, ok tt))
    else if stdin_matches d ev.token
    then (if ev.writable
        then handle_stdin_writable d reactor
        else if ev.error
        then quietly (drop_stdin d reactor)
        else pure (d, ok tt))
    else pure (d, ok tt)

-- An error leaves the events behind it.
unfoldable pub handle_events :
    Reactor → DrainState → List Event → Io (DrainState × Result (Unit {0}))
unfolding handle_event
handle_events reactor d [] = pure (d, ok tt)
handle_events reactor d (ev ∷ evs) = do
  (d', r) ← handle_event reactor d ev
  elim r [ ok _ ↦ handle_events reactor d' evs | err e ↦ pure (d', err e) ]

-- What leaves the loop: the drain and the reactor, which are dropped, and the result.
abbrev pub Leaving : Type 0
Leaving = DrainState × Reactor × Result Output

abbrev pub max_events : ℕ
max_events = 64

-- The end of the loop: the process is waited for, and the buffers are taken out.
unfoldable pub finish : StatusMacros → Watch → WaitState → Io Leaving
unfolding final_status del_slots take_all_slots into_parts
finish libc w st = do
  r ← final_status libc w st.status_raw
  elim r [
    | err e ↦ pure (st.drain, st.reactor, err e)
    | ok status ↦ do
      let (drain, slots) = take_all_slots st.drain
      del_slots st.reactor slots
      let (stdout, stderr) = into_parts drain
      pure (
        drain,
        st.reactor,
        ok (record {
          pid = w.process.pid;
          status = some status;
          stdout = stdout;
          stderr = stderr;
          timed_out = st.timed_out;
        }),
      )
  ]

-- The events of a round are waited for and handed out.
unfoldable pub pump : WaitState → ℤ → Io (Round WaitState Leaving)
unfolding Reactor.wait handle_events
pump st timeout = do
  (reactor, events, r) ← Reactor.wait st.reactor max_events timeout
  elim r [
    | err e ↦ pure (break (st.drain, reactor, err e))
    | ok nevents ↦ do
      (drain, r') ← handle_events reactor st.drain (take nevents events)
      pure (elim r' [
        | ok _ ↦ continue (record st { drain = drain; reactor = reactor })
        | err e ↦ break (drain, reactor, err e)
      ])
  ]

unfoldable pub wait_round : StatusMacros → Watch → WaitState → Io (Round WaitState Leaving)
unfolding check_deadline poll_status is_done finish pump
wait_round libc w st = do
  (state, timed_out, poll_timeout) ← check_deadline w st.state st.timed_out
  r ← poll_status libc w st.status_raw
  elim r [
    | err e ↦ pure (break (st.drain, st.reactor, err e))
    | ok status_raw ↦
        let st' = record st { state = state; timed_out = timed_out; status_raw = status_raw } in
        if is_done st.drain
        then (do out ← finish libc w st'; pure (break out))
        else pump st' (wait_timeout status_raw poll_timeout)
  ]

-- The reactor and the pipes that are left are dropped.
unfoldable pub close_up : Leaving → Io (Result Output)
unfolding drop_reactor
close_up (drain, reactor, r) =
    drop_reactor reactor
    >> drop_slot drain.stdout_slot
    >> drop_slot drain.stderr_slot
    >> drop_slot drain.stdin_slot
    >> pure r

unfoldable pub wait_loop :
    StatusMacros
    → ℤ
    → DrainState
    → Reactor
    → Option ℕ
    → ℕ
    → CancelPolicy
    → ProcessGroup
    → Io (Result Output)
unfolding Process.new wait_step loop wait_round close_up
wait_loop libc pid drain reactor timeout_ms kill_grace_ms cancel pgroup = do
  let w : Watch = record {
    process = Process.new pid;
    timeout_ms = timeout_ms;
    kill_grace_ms = kill_grace_ms;
    cancel = cancel;
    pgroup = pgroup;
  }
  r ← wait_step libc w.process
  out ← elim r [
    | err e ↦ pure (drain, reactor, err e)
    | ok status_raw ↦ loop (wait_round libc w) (record {
      status_raw = status_raw;
      state = KillState.none;
      timed_out = false;
      drain = drain;
      reactor = reactor;
    })
  ]
  close_up out
