-- ===== src/Spawn/Process/Waiting.antt =====
-- spawn/mod.rs: what `wait_step` and `wait_blocking` say of the process.
use coreshift_lowlevel.Prelude.{ℕ, ◌≡◌, ◌≢◌, pos, Option, none, some, String, arith}
use coreshift_lowlevel.Os.{IsFailure, Answer, Sys, Post, continue, break, waitpid}
use coreshift_lowlevel.Error.{Result, ok, err, syscall}
use coreshift_lowlevel.Fd.{Decided, Hangs, IsInterrupted, deciding_lem, eintr}
use coreshift_lowlevel.Spawn.Process.{
  ExitStatus, Process, StatusMacros, decode_status, step_round, wait_step, blocking_round,
  wait_blocking, wnohang,
}

module _ (libc : StatusMacros) where
  abbrev pub Failed : String → Answer → Type 0
  Failed op a = IsFailure a.ret × (a.errno ≢ eintr)

  -- What a result of `wait_step` says of the answer that it was made from.
  abbrev pub StepTells : Result (Option ExitStatus) → Answer → Type 0
  StepTells (ok none) a = a.ret ≡ pos 0
  StepTells (ok (some status)) a =
      (n : ℕ) × (a.ret ≡ pos n) × (n ≢ 0) × (status ≡ decode_status libc a.status)
  StepTells (err e) a =
      IsFailure a.ret × (a.errno ≢ eintr) × (e ≡ syscall (pos a.errno) "waitpid_step")

  abbrev pub BlockingTells : Result ExitStatus → Answer → Type 0
  BlockingTells (ok status) a = (n : ℕ) × (a.ret ≡ pos n) × (status ≡ decode_status libc a.status)
  BlockingTells (err e) a =
      IsFailure a.ret × (a.errno ≢ eintr) × (e ≡ syscall (pos a.errno) "waitpid_blocking")

  step_round-continue : (a : Answer) → step_round libc a a.errno ≡ continue tt → IsInterrupted a
  unfolding step_round
  step_round-continue a h = ground arith

  step_round-break :
      (a : Answer) (r : Result (Option ExitStatus))
      → step_round libc a a.errno ≡ break r
      → StepTells r a
  unfolding step_round
  step_round-break a (ok none) h = ground arith
  step_round-break a (ok (some status)) h = ground arith
  step_round-break a (err e) h = ground arith

  blocking_round-continue :
      (a : Answer) → blocking_round libc a a.errno ≡ continue tt → IsInterrupted a
  unfolding blocking_round
  blocking_round-continue a h = ground arith

  blocking_round-break :
      (a : Answer) (r : Result ExitStatus)
      → blocking_round libc a a.errno ≡ break r
      → BlockingTells r a
  unfolding blocking_round
  blocking_round-break a (ok status) h = ground arith
  blocking_round-break a (err e) h = ground arith

-- `wait_step` repeats `waitpid` with WNOHANG only after EINTR. It returns by the first other answer:
-- no status for 0, the decoded status for any other number, and an error with the code of a
-- failure; else it waits in `waitpid`.
pub wait_step_retries :
    (libc : StatusMacros) (p : Process) (s : Sys)
    → Post
        (Decided (waitpid p.pid wnohang) (StepTells libc) s)
        (Hangs (waitpid p.pid wnohang) s)
        (wait_step libc p s)
unfolding wait_step
wait_step_retries libc p =
    deciding_lem (waitpid p.pid wnohang) (step_round libc) (StepTells libc)
      (step_round-continue libc) (step_round-break libc)

-- `wait_blocking` repeats `waitpid` only after EINTR. It returns by the first other answer: the decoded
-- status, or an error with the code of a failure; else it waits in `waitpid`.
pub wait_blocking_retries :
    (libc : StatusMacros) (p : Process) (s : Sys)
    → Post
        (Decided (waitpid p.pid 0) (BlockingTells libc) s)
        (Hangs (waitpid p.pid 0) s)
        (wait_blocking libc p s)
unfolding wait_blocking
wait_blocking_retries libc p =
    deciding_lem (waitpid p.pid 0) (blocking_round libc) (BlockingTells libc)
      (blocking_round-continue libc) (blocking_round-break libc)
