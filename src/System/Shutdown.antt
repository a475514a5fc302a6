-- ===== src/System/Shutdown.antt =====
-- sys/mod.rs: the shutdown flag, and the handlers of SIGINT and SIGTERM that set it.
pub mod Handlers
use coreshift_lowlevel.Prelude.{
  ℕ, ℤ, pos, minus_one, Bool, true, Option, none, some, String, ◌==◌, eq_int, if◌then◌else◌,
}
use coreshift_lowlevel.Os.{
  Io, pure, ◌>>=◌, perform, last_os_error, sigaction, Handler, shutdown_handler,
}
use coreshift_lowlevel.Error.{SysError, Result, ok, err, sys, ◌>>?◌}

-- The constants of libc for Linux.
abbrev pub sigint : ℕ
sigint = 2

abbrev pub sigterm : ℕ
sigterm = 15

-- The flags of the program, by their addresses.
abbrev pub Flags : Type 0
Flags = ℕ → Bool

-- The signal handler, where the static pointer leads to a flag or is null.
unfoldable pub shutdown_signal_handler : Option ℕ → Flags → Flags
shutdown_signal_handler none flags = flags
shutdown_signal_handler (some flag) flags = λ f. if f == flag then true else flags f

unfoldable pub shutdown_requested : Flags → ℕ → Bool
shutdown_requested flags flag = flags flag

unfoldable pub sigaction_op : ℕ → String
sigaction_op sig =
    if sig == sigint
    then "sigaction(SIGINT)"
    else if sig == sigterm
    then "sigaction(SIGTERM)"
    else "sigaction"

unfoldable pub last_sigaction_error : ℕ → Io SysError
unfolding last_os_error sys sigaction_op
last_sigaction_error sig = do code ← last_os_error; pure (sys (pos code) (sigaction_op sig))

unfoldable pub install_signal_handler : ℕ → Io (Result Handler)
unfolding perform last_sigaction_error
install_signal_handler sig = do
  a ← perform (sigaction sig shutdown_handler)
  (if eq_int a.ret minus_one
      then (do e ← last_sigaction_error sig; pure (err e))
      else pure (ok a.old_action))

unfoldable pub restore_signal_handler : ℕ → Handler → Io (Result (Unit {0}))
unfolding perform last_sigaction_error
restore_signal_handler sig old_action = do
  a ← perform (sigaction sig old_action)
  (if eq_int a.ret minus_one then (do e ← last_sigaction_error sig; pure (err e)) else pure (ok tt))

-- The static pointer is handed in and comes back.
unfoldable pub install_shutdown_flag : ℕ → Option ℕ → Io (Option ℕ × Result (Unit {0}))
unfolding install_signal_handler restore_signal_handler
install_shutdown_flag flag published = do
  first ← install_signal_handler sigint
  elim first [
    | err e ↦ pure (published, err e)
    | ok old_sigint ↦ do
      second ← install_signal_handler sigterm
      elim second [
        | ok _ ↦ pure (some flag, ok tt)
        | err e ↦ do
          back ← restore_signal_handler sigint old_sigint
          pure (published, elim back [ ok _ ↦ err e | err e' ↦ err e' ])
      ]
  ]
