-- ===== src/Spawn/Posix/Strays.antt =====
-- spawn/mod.rs: which descriptors the scan of the directory of descriptors has closed.
pub mod Scanning
pub mod Ended
pub mod Asked
use coreshift_lowlevel.Prelude.{
  ℕ, ◌+◌, ◌≡◌, ◌<◌, subst, refl, sym, ◌∙◌, ap, List, [], ◌∷◌, ◌++◌, ℤ, pos, negsuc, Bool, true,
  false, not, Option, none, some, ◌&&◌, ◌||◌, ◌==◌, ltb, eq_int, if◌then◌else◌, arith, length,
  Bool-cases, inl, inr,
}
use coreshift_lowlevel.Os.{
  Call, Answer, Sys, Happened, Io, pure, ◌>>=◌, ◌>>◌, perform, loop, Round, continue, break, Post,
  Post-mono, Post-bind, Post-loop, RoundPost, Performed, Stopped, perform_lem,
  file_actions_addclose, readdir, fdopendir, closedir, close,
}
use coreshift_lowlevel.Os.Balance.{is_fd}
use coreshift_lowlevel.Fd.{Fd}
use coreshift_lowlevel.Text.{parse_i32}
use coreshift_lowlevel.System.Exec.{Bytes}
use coreshift_lowlevel.Spawn.Pipes.{Pipes}
use coreshift_lowlevel.Spawn.Posix.{
  push_raw, handled_fds, contains_fd, above_two, is_stray, stray_of, scan_round, scan_dir, is_null,
}

-- 1 where the number read is the descriptor n.
abbrev pub hit : ℕ → Option ℤ → ℕ
hit n none = 0
hit n (some fd) = is_fd n fd

abbrev pub names : ℕ → Option Bytes → ℕ
names n none = 0
names n (some name) = hit n (parse_i32 name)

abbrev pub asks : ℕ → Call → ℕ
asks n (file_actions_addclose fd) = is_fd n fd
asks n _ = 0

abbrev pub lists : ℕ → Call → Answer → ℕ
lists n (readdir fd) a = names n a.name
lists n _ a = 0

-- How often a log asks for a descriptor to be closed in the process.
unfoldable pub asked : ℕ → List Happened → ℕ
asked n [] = 0
asked n (h ∷ log) = asks n h.call + asked n log

-- How often an entry of a directory named it.
unfoldable pub listed : ℕ → List Happened → ℕ
listed n [] = 0
listed n (h ∷ log) = lists n h.call h.answer + listed n log

abbrev pub is_opt : ℤ → Option Fd → Bool
is_opt fd none = false
is_opt fd (some g) = eq_int g.raw_fd fd

-- A descriptor that the process is not to have: no standard stream, neither the directory nor an end
-- of a pipe, which are closed in other ways.
abbrev pub is_left_over : ℕ → ℕ → Pipes → Bool
is_left_over n d p =
    ltb 2 n
    && (not (eq_int (pos n) (pos d))
        && not (
            ((((is_opt (pos n) p.stdin_r || is_opt (pos n) p.stdin_w) || is_opt (pos n) p.stdout_r)
                || is_opt (pos n) p.stdout_w)
              || is_opt (pos n) p.stderr_r)
            || is_opt (pos n) p.stderr_w))

abbrev pub if_so : Bool → ℕ → ℕ
if_so b k = if b then k else 0
