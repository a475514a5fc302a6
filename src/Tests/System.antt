-- ===== src/Tests/System.antt =====
-- Examples of the theorems on signals and on the files of /proc.
use coreshift_lowlevel.Prelude.{arith, ◌≡◌, refl, List, [], ◌∷◌, none}
use coreshift_lowlevel.Os.{Call, Answer, foreign_handler, Post}
use coreshift_lowlevel.System.Shutdown.{install_shutdown_flag}
use coreshift_lowlevel.System.Shutdown.Handlers.{Placed, handler_of, install_shutdown_flag_lem}
use coreshift_lowlevel.System.ProcStatus.{
  strip_prefix, Chars, lines, status_of, parse_proc_status, IoResult,
}
use coreshift_lowlevel.System.ProcStatus.Fields.{count, by_fields, parse_proc_status-by_fields}
use coreshift_lowlevel.Tests.Kernel.{world, nothing, fails}

-- SIGINT's handler is replaced, SIGTERM's cannot be, and the first is restored.
abbrev half_way : List (Call → Answer)
half_way = nothing ∷ fails 22 ∷ nothing ∷ []

install_shutdown_flag_lem_example :
    Post
      (Placed (λ sig. foreign_handler 0) 1 none (world half_way))
      (λ _. Unit)
      (install_shutdown_flag 1 none (world half_way))
unfolding handler_of
install_shutdown_flag_lem_example =
    install_shutdown_flag_lem (λ sig. foreign_handler 0) 1 none (world half_way) refl

-- "Name:\ta\nUid:\t7\t7\n"
small_status :
    parse_proc_status (
      b'N' ∷ b'a' ∷ b'm' ∷ b'e' ∷ b':' ∷ 9 ∷ b'a' ∷ 10 ∷ b'U' ∷ b'i' ∷ b'd' ∷ b':' ∷ 9 ∷ b'7' ∷ 9
      ∷ b'7' ∷ 10 ∷ [])
    ≡ IoResult.ok (record { name = b'a' ∷ []; uid = 7 })
unfolding parse_proc_status
small_status = refl

-- "Uid:\t7\t7\nName:\ta\n"
abbrev turned_status : Chars
turned_status =
    b'U' ∷ b'i' ∷ b'd' ∷ b':' ∷ 9 ∷ b'7' ∷ 9 ∷ b'7' ∷ 10 ∷ b'N' ∷ b'a' ∷ b'm' ∷ b'e' ∷ b':' ∷ 9
    ∷ b'a' ∷ 10 ∷ []

parse_proc_status-by_fields_example :
    parse_proc_status turned_status ≡ status_of (by_fields (lines turned_status))
unfolding count lines strip_prefix
parse_proc_status-by_fields_example =
    parse_proc_status-by_fields turned_status (omega arith) (omega arith)
