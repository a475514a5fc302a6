-- ===== src/Tests/Delivered.antt =====
-- An example of the theorem on the output of the process.
use coreshift_lowlevel.Prelude.{ℕ, ◌≡◌, refl, List, [], ◌∷◌, pos, none}
use coreshift_lowlevel.Os.{Post, Outcome, returned}
use coreshift_lowlevel.Os.Traces.{delivered}
use coreshift_lowlevel.Error.{Result, ok}
use coreshift_lowlevel.System.Exec.{CancelPolicy}
use coreshift_lowlevel.Spawn.WaitLoop.{wait_loop, Output}
use coreshift_lowlevel.Spawn.WaitLoop.Capture.{Holds}
use coreshift_lowlevel.Spawn.WaitLoop.Delivery.{wait_loop_captures}
use coreshift_lowlevel.Tests.Kernel.{world, one_line, one_line-IsHonest}
use coreshift_lowlevel.Tests.Watched.{libc, drain, reactor, group}

wait_loop_captures_example :
    Post
      (Holds 10 (pos 5) (pos 6) [] [])
      (λ _. Unit)
      (wait_loop libc (pos 42) drain reactor none 0 CancelPolicy.none group (world one_line))
unfolding delivered
wait_loop_captures_example =
    wait_loop_captures libc (pos 42) drain reactor none 0 CancelPolicy.none group (world one_line)
      (pos 5) (pos 6) [] [] (λ e. absurd cc) refl tt
      (record { seen = []; arrived = refl; kept = refl })
      (record { seen = []; arrived = refl; kept = refl }) one_line-IsHonest

abbrev output_of : Outcome (Result Output) → List ℕ
output_of (returned (ok out) s) = out.stdout
output_of _ = []

one_line_output :
    output_of
      (wait_loop libc (pos 42) drain reactor none 0 CancelPolicy.none group (world one_line))
    ≡ 7 ∷ []
unfolding wait_loop
one_line_output = refl
