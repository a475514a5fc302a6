-- ===== src/Spawn/Process.antt =====
-- spawn/mod.rs: `ExitStatus` and `Process`.
pub mod Waiting
use coreshift_lowlevel.Prelude.{
  ℕ, ℤ, pos, negsuc, minus_one, neg, Bool, Option, none, some, ◌==◌, if◌then◌else◌,
}
use coreshift_lowlevel.Os.{
  Io, pure, ◌>>=◌, perform, last_os_error, retrying, Round, continue, break, Answer, waitpid, kill,
}
use coreshift_lowlevel.Error.{Result, ok, err, sys, syscall_ret}
use coreshift_lowlevel.Fd.{eintr, esrch}

-- The constants of libc for Linux.
abbrev pub wnohang : ℕ
wnohang = 1

abbrev pub sigkill : ℕ
sigkill = 9

abbrev pub sigterm : ℕ
sigterm = 15

pub data ExitStatus : Type 0 where
  exited : ℤ → ExitStatus
  signaled : ℤ → ExitStatus

-- The macros of libc that take a wait status apart.
pub record StatusMacros : Type 0 where
  pub wifexited : ℤ → Bool
  pub wexitstatus : ℤ → ℤ
  pub wifsignaled : ℤ → Bool
  pub wtermsig : ℤ → ℤ

pub record Process : Type 0 where
  pub pid : ℤ

unfoldable pub new : ℤ → Process
new pid = record { pid = pid }

unfoldable pub decode_status : StatusMacros → ℤ → ExitStatus
decode_status libc status =
    if libc.wifexited status
    then exited (libc.wexitstatus status)
    else if libc.wifsignaled status
    then signaled (libc.wtermsig status)
    else exited minus_one

unfoldable pub step_round :
    StatusMacros → Answer → ℕ → Round (Unit {0}) (Result (Option ExitStatus))
unfolding sys decode_status
step_round libc a e = elim a.ret [
  | pos n ↦ if n == 0 then break (ok none) else break (ok (some (decode_status libc a.status)))
  | negsuc n ↦ if e == eintr then continue tt else break (err (sys (pos e) "waitpid_step"))
]

unfoldable pub wait_step : StatusMacros → Process → Io (Result (Option ExitStatus))
unfolding retrying step_round
wait_step libc p = retrying (waitpid p.pid wnohang) (step_round libc)

unfoldable pub blocking_round : StatusMacros → Answer → ℕ → Round (Unit {0}) (Result ExitStatus)
unfolding sys decode_status
blocking_round libc a e = elim a.ret [
  | pos n ↦ break (ok (decode_status libc a.status))
  | negsuc n ↦ if e == eintr then continue tt else break (err (sys (pos e) "waitpid_blocking"))
]

unfoldable pub wait_blocking : StatusMacros → Process → Io (Result ExitStatus)
unfolding retrying blocking_round
wait_blocking libc p = retrying (waitpid p.pid 0) (blocking_round libc)

-- `Process::kill`; a process that is gone is no error.
unfoldable pub kill_process : Process → ℕ → Io (Result (Unit {0}))
unfolding perform last_os_error syscall_ret
kill_process p sig = do
  r ← perform (kill p.pid sig)
  e ← last_os_error
  elim r.ret [
    | pos n ↦ pure (ok tt)
    | negsuc n ↦ if e == esrch then pure (ok tt) else syscall_ret minus_one "kill"
  ]

unfoldable pub kill_pgroup : Process → ℕ → Io (Result (Unit {0}))
unfolding perform last_os_error syscall_ret
kill_pgroup p sig = do
  r ← perform (kill (neg p.pid) sig)
  e ← last_os_error
  elim r.ret [
    | pos n ↦ pure (ok tt)
    | negsuc n ↦ if e == esrch then pure (ok tt) else syscall_ret minus_one "kill_pgroup"
  ]
