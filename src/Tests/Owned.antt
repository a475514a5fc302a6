-- ===== src/Tests/Owned.antt =====
-- Examples of the theorems on descriptors that are owned and that are left over.
use coreshift_lowlevel.Prelude.{ℕ, ◌+◌, ◌≡◌, refl, [], ◌∷◌, replicate}
use coreshift_lowlevel.Os.{Sys, IsHonest, Post, Outcome, returned}
use coreshift_lowlevel.Os.Balance.{opened, closed}
use coreshift_lowlevel.Error.{Result}
use coreshift_lowlevel.Reactor.{Reactor, setup_inotify, setup_signalfd, drop_reactor}
use coreshift_lowlevel.Reactor.Closing.{held_reactor}
use coreshift_lowlevel.Reactor.Closing.Setup.{held_result, reactor_owns}
use coreshift_lowlevel.Tests.Kernel.{
  fails, fails-Fits, starting, starting-Fits, replicate-IsHonest, world,
}
use coreshift_lowlevel.Tests.Watched.{reactor}
use coreshift_lowlevel.Tests.Spawned.{stdout_pipe}
use coreshift_lowlevel.Tests.Kernel.{plain}
use coreshift_lowlevel.Os.{Call, Answer}
use coreshift_lowlevel.Prelude.{pos, List, some}
use coreshift_lowlevel.Spawn.Posix.{handled_fds, scan_dir}
use coreshift_lowlevel.Spawn.Posix.Strays.{asked, listed, if_so, is_left_over}
use coreshift_lowlevel.Prelude.{◌⊎◌}
use coreshift_lowlevel.Spawn.Posix.Strays.Ended.{ReadOut, Unopened}
use coreshift_lowlevel.Spawn.Posix.Strays.Asked.{scan_dir_asks}

-- The third call, the registration of a signal descriptor, fails.
abbrev full : Sys
full = world (starting ∷ starting ∷ fails 28 ∷ replicate 10 starting)

full-IsHonest : IsHonest full.script
full-IsHonest =
    (starting-Fits, (starting-Fits, (fails-Fits 28, replicate-IsHonest 10 starting starting-Fits)))

reactor_owns_example :
    Post
      (λ p s'.
        opened 8 s'.log + closed 8 [] + held_reactor 8 reactor
        ≡ opened 8 [] + closed 8 s'.log + held_reactor 8 p.0)
      (λ _. Unit)
      (setup_signalfd reactor full)
    × Post
        (λ p s'.
          opened 8 s'.log + closed 8 [] + held_reactor 8 reactor
          ≡ opened 8 [] + closed 8 s'.log + (held_result 8 p.1 + held_reactor 8 p.0))
        (λ _. Unit)
        (setup_inotify reactor full)
    × Post
        (λ _ s'.
          opened 8 s'.log + closed 8 [] + held_reactor 8 reactor ≡ opened 8 [] + closed 8 s'.log)
        (λ _. Unit)
        (drop_reactor reactor full)
reactor_owns_example = reactor_owns reactor 8 full full-IsHonest

abbrev counts_of : Outcome (Reactor × Result (Unit {0})) → ℕ × ℕ
counts_of (returned r s) = (opened 8 s.log, closed 8 s.log)
counts_of _ = (0, 0)

closed_again : counts_of (setup_signalfd reactor full) ≡ (1, 1)
unfolding setup_signalfd opened closed
closed_again = refl

-- The directory lists an end of the pipe, then a descriptor of somebody else.
abbrev entry : List ℕ → Call → Answer
entry name c = record (plain (pos 1) 0) { name = some name }

abbrev crowded : Sys
crowded =
    world (
      starting ∷ entry (b'6' ∷ []) ∷ entry (b'1' ∷ b'2' ∷ []) ∷ starting ∷ starting ∷ starting ∷ [])

scan_dir_asks_example :
    Post
      (λ _ s'.
        (ReadOut 7 s'.log ⊎ Unopened 7 s'.log)
        × (asked 12 s'.log + if_so (is_left_over 12 7 stdout_pipe) (listed 12 [])
            ≡ asked 12 [] + if_so (is_left_over 12 7 stdout_pipe) (listed 12 s'.log)))
      (λ _. Unit)
      (scan_dir (handled_fds stdout_pipe) (pos 7) crowded)
scan_dir_asks_example = scan_dir_asks stdout_pipe 7 12 crowded

abbrev asked_of : Outcome (Unit {0}) → ℕ × ℕ × ℕ
asked_of (returned _ s) = (asked 6 s.log, asked 12 s.log, listed 6 s.log)
asked_of _ = (0, 0, 0)

asked_once : asked_of (scan_dir (handled_fds stdout_pipe) (pos 7) crowded) ≡ (0, 1, 1)
unfolding scan_dir asked listed handled_fds
asked_once = refl
