-- ===== src/System/Signals.antt =====
-- sys/mod.rs: `SignalRuntime`, sets of signals and the calls that take them.
use coreshift_lowlevel.Prelude.{ℕ, List, [], ◌∷◌, ◌++◌}
use coreshift_lowlevel.Os.{Io, pure, ◌>>=◌, ◌>>◌, perform, sigprocmask, signal_default}
use coreshift_lowlevel.Error.{Result, syscall_ret}

-- The constants of libc for Linux.
abbrev pub sig_setmask : ℕ
sig_setmask = 2

abbrev pub sigpipe : ℕ
sigpipe = 13

-- A `sigset_t` is the list of its signals.
unfoldable pub empty_set : List ℕ
empty_set = []

abbrev pub add_signals : List ℕ → List ℕ → List ℕ
add_signals set [] = set
add_signals set (sig ∷ signals) = add_signals (set ++ (sig ∷ [])) signals

unfoldable pub set_with : List ℕ → List ℕ
set_with signals = add_signals [] signals

unfoldable pub unblock_all : Io (Result (Unit {0}))
unfolding perform empty_set syscall_ret
unblock_all = do r ← perform (sigprocmask sig_setmask empty_set); syscall_ret r.ret "sigprocmask"

unfoldable pub reset_default : ℕ → Io (Unit {0})
unfolding perform
reset_default sig = perform (signal_default sig) >> pure tt
