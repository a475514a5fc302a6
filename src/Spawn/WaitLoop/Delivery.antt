-- ===== src/Spawn/WaitLoop/Delivery.antt =====
-- spawn/mod.rs: the promise of `wait_loop` on the output of the process.
use coreshift_lowlevel.Prelude.{ℕ, ◌≢◌, refl, sym, subst, List, ℤ, Option}
use coreshift_lowlevel.Os.{Sys, Io, pure, loop, Post, Post-bind, Post-loop, IsHonest}
use coreshift_lowlevel.Error.{Result, ok, err}
use coreshift_lowlevel.Reactor.{Reactor}
use coreshift_lowlevel.Io.Buffer.Capture.{Captured}
use coreshift_lowlevel.Io.Drain.{DrainState}
use coreshift_lowlevel.System.Exec.{CancelPolicy, ProcessGroup}
use coreshift_lowlevel.Spawn.Process
use coreshift_lowlevel.Spawn.Process.{ExitStatus, StatusMacros}
use coreshift_lowlevel.Spawn.WaitLoop.{Watch, Output, Leaving, wait_round, close_up, wait_loop}
use coreshift_lowlevel.Spawn.WaitLoop.Plain.{Plain-wait_step, Plain-pipes}
use coreshift_lowlevel.Spawn.WaitLoop.Keeping.{no_read, Kept, SlotIs, Anything, after_plain}
use coreshift_lowlevel.Spawn.WaitLoop.Capture.{Holds, SameData, LeftWith, wait_round_keeps}
use coreshift_lowlevel.Spawn.WaitLoop.Escalation.{watching, begun}

-- `wait_loop` returns the first `limit` bytes of all that the descriptor of the standard output brought, and
-- the same of the standard error, each in its own buffer, or it returns an error. It always comes
-- to an end of its own or waits in a call. The two descriptors differ, the buffers hold that much at the
-- start, and the kernel is honest.
pub wait_loop_captures :
    (libc : StatusMacros) (pid : ℤ) (drain : DrainState) (reactor : Reactor) (timeout_ms : Option ℕ)
    (kill_grace_ms : ℕ) (cancel : CancelPolicy) (pgroup : ProcessGroup) (s : Sys) (fo fe : ℤ)
    (bo be : List ℕ)
    → fo ≢ fe
    → SlotIs fo drain.stdout_slot
    → SlotIs fe drain.stderr_slot
    → Captured drain.buffer.limit fo bo drain.buffer.stdout s.log
    → Captured drain.buffer.limit fe be drain.buffer.stderr s.log
    → IsHonest s.script
    → Post
        (Holds drain.buffer.limit fo fe bo be)
        (λ _. Unit)
        (wait_loop libc pid drain reactor timeout_ms kill_grace_ms cancel pgroup s)
unfolding wait_loop Process.new close_up
wait_loop_captures libc pid drain reactor timeout_ms kill_grace_ms cancel pgroup s fo fe bo be apart
      so se co ce h =
    after_plain limit fo fe bo be _ (Holds limit fo fe bo be) drain s
      (Plain-wait_step no_read libc w.process)
      (record {
        stdout_is = so;
        stderr_is = se;
        limit_is = refl;
        stdout = co;
        stderr = ce;
        honest = h;
      })
      (λ r s' k _.
        Post-bind (LeftWith libc w limit fo fe bo be apart) (Holds limit fo fe bo be) Anything
          (looped r) close_up s' (entered r s' k)
          (λ out s'' l. closed out.0 out.1 out.2 s'' l.0 l.1))
  where
    w : Watch
    w = watching pid timeout_ms kill_grace_ms cancel pgroup

    limit : ℕ
    limit = drain.buffer.limit

    looped : Result (Option ExitStatus) → Io Leaving
    looped (err e) = pure (drain, reactor, err e)
    looped (ok status_raw) = loop (wait_round libc w) (begun drain reactor status_raw)

    entered :
        (r : Result (Option ExitStatus)) (s' : Sys)
        → Kept limit fo fe bo be drain s'
        → Post (LeftWith libc w limit fo fe bo be apart) Anything (looped r s')
    entered (err e) s' k = (k, tt)
    entered (ok status_raw) s' k =
        Post-loop (wait_round libc w) (λ st s''. Kept limit fo fe bo be st.drain s'')
          (LeftWith libc w limit fo fe bo be apart) Anything
          (wait_round_keeps libc w limit fo fe bo be apart) (begun drain reactor status_raw) s' k

    closed :
        (d : DrainState) (reactor' : Reactor) (r : Result Output) (s' : Sys)
        → Kept limit fo fe bo be d s'
        → SameData d r
        → Post (Holds limit fo fe bo be) Anything (close_up (d, reactor', r) s')
    closed d reactor' (err e) s' k e' =
        after_plain limit fo fe bo be _ (Holds limit fo fe bo be) d s'
          (Plain-pipes no_read (d, reactor', err e)) k (λ _ _ _ _. tt)
    closed d reactor' (ok out) s' k e =
        after_plain limit fo fe bo be _ (Holds limit fo fe bo be) d s'
          (Plain-pipes no_read (d, reactor', ok out)) k
          (λ _ s'' k' _. (
            subst (λ t. Captured limit fo bo t s''.log) (sym e.0) k'.stdout,
            subst (λ t. Captured limit fe be t s''.log) (sym e.1) k'.stderr,
          ))
