-- ===== src/Tests/Kernel.antt =====
-- Small kernels for the examples: what they answer, and that they are honest.
use coreshift_lowlevel.Prelude.{
  ℕ, zero, suc, refl, List, [], ◌∷◌, ℤ, pos, negsuc, minus_one, none, arith, replicate,
}
use coreshift_lowlevel.Os.{
  Call, Answer, Sys, read, write, epoll_wait, pipe2, epoll_create1, inotify_init1, signalfd,
  open_fd_dir, fdopendir, posix_spawn, fork, waitpid, foreign_handler, Fits, IsHonest,
}

-- An answer with a returned number and nothing else.
abbrev pub plain : ℤ → ℕ → Answer
plain ret errno = record {
  ret = ret;
  errno = errno;
  bytes = [];
  fds = (pos 0, pos 0);
  pid = pos 0;
  uid = 0;
  name = none;
  ready = [];
  status = pos 0;
  nanos = 0;
  old_action = foreign_handler 0;
}

-- Every call fails with this code.
abbrev pub fails : ℕ → Call → Answer
fails code c = plain minus_one code

-- One byte is read or taken, where there is room for one.
abbrev pub one_byte : Call → Answer
one_byte (read fd (suc n)) = record (plain (pos 1) 0) { bytes = 7 ∷ [] }
one_byte (write fd (b ∷ bs)) = plain (pos 1) 0
one_byte (epoll_wait ep room timeout) = plain minus_one 4
one_byte _ = plain (pos 0) 0

-- Every call succeeds with nothing.
abbrev pub nothing : Call → Answer
nothing (epoll_wait ep room timeout) = plain minus_one 4
nothing _ = plain (pos 0) 0

pub fails-Fits : (code : ℕ) (c : Call) → Fits c (fails code c)
fails-Fits code (epoll_wait ep (pos n) timeout) = tt
fails-Fits code (epoll_wait ep (negsuc n) timeout) = tt
fails-Fits code (pipe2 flags) = refl
fails-Fits code _ = tt

pub one_byte-Fits : (c : Call) → Fits c (one_byte c)
one_byte-Fits (read fd zero) = (omega arith, refl)
one_byte-Fits (read fd (suc n)) = (omega arith, refl)
one_byte-Fits (write fd []) = omega arith
one_byte-Fits (write fd (b ∷ bs)) = omega arith
one_byte-Fits (epoll_wait ep (pos n) timeout) = tt
one_byte-Fits (epoll_wait ep (negsuc n) timeout) = tt
one_byte-Fits (pipe2 flags) = (tt, tt)
one_byte-Fits _ = tt

pub nothing-Fits : (c : Call) → Fits c (nothing c)
nothing-Fits (read fd n) = (omega arith, refl)
nothing-Fits (write fd bs) = omega arith
nothing-Fits (epoll_wait ep (pos n) timeout) = tt
nothing-Fits (epoll_wait ep (negsuc n) timeout) = tt
nothing-Fits (pipe2 flags) = (tt, tt)
nothing-Fits _ = tt

abbrev pub world : List (Call → Answer) → Sys
world script = record { script = script; log = []; errno = 0 }

-- Interrupted once, then a byte, then EAGAIN.
abbrev pub busy : List (Call → Answer)
busy = fails 4 ∷ one_byte ∷ fails 11 ∷ []

pub busy-IsHonest : IsHonest busy
busy-IsHonest = (fails-Fits 4, (one_byte-Fits, (fails-Fits 11, tt)))

-- The pipe with token 1 has something to read.
abbrev pub comes : Call → Answer
comes (epoll_wait ep (pos (suc n)) timeout) = record (plain (pos 1) 0) {
  ready = record { events = 1; u64 = 1 } ∷ [];
}
comes (epoll_wait ep room timeout) = plain minus_one 4
comes _ = plain (pos 0) 0

pub comes-Fits : (c : Call) → Fits c (comes c)
comes-Fits (read fd n) = (omega arith, refl)
comes-Fits (write fd bs) = omega arith
comes-Fits (epoll_wait ep (pos zero) timeout) = tt
comes-Fits (epoll_wait ep (pos (suc n)) timeout) = (refl, omega arith)
comes-Fits (epoll_wait ep (negsuc n) timeout) = tt
comes-Fits (pipe2 flags) = (tt, tt)
comes-Fits _ = tt

-- A process that writes one byte and ends.
abbrev pub one_line : List (Call → Answer)
one_line =
    nothing ∷ nothing ∷ comes ∷ one_byte ∷ nothing ∷ nothing ∷ nothing ∷ nothing ∷ nothing ∷ nothing
    ∷ []

pub one_line-IsHonest : IsHonest one_line
one_line-IsHonest = (
  nothing-Fits,
  (
    nothing-Fits,
    (
      comes-Fits,
      (
        one_byte-Fits,
        (
          nothing-Fits,
          (nothing-Fits, (nothing-Fits, (nothing-Fits, (nothing-Fits, (nothing-Fits, tt))))),
        ),
      ),
    ),
  ),
)

-- A kernel that starts the process 42, which closes its output at once; descriptors are given out as
-- 4 for the reactor, 5 and 6 for a pipe, 7 for the directory, 8 for signals, 9 for inotify.
abbrev pub starting : Call → Answer
starting (epoll_create1 flags) = plain (pos 4) 0
starting (signalfd fd mask flags) = plain (pos 8) 0
starting (inotify_init1 flags) = plain (pos 9) 0
starting (pipe2 flags) = record (plain (pos 0) 0) { fds = (pos 5, pos 6) }
starting open_fd_dir = plain (pos 7) 0
starting (fdopendir fd) = plain (pos 1) 0
starting (posix_spawn exe argv envp) = record (plain (pos 0) 0) { pid = pos 42 }
starting fork = plain (pos 42) 0
starting (waitpid pid options) = plain (pos 42) 0
starting c = comes c

pub starting-Fits : (c : Call) → Fits c (starting c)
starting-Fits (read fd n) = (omega arith, refl)
starting-Fits (write fd bs) = omega arith
starting-Fits (epoll_wait ep (pos zero) timeout) = tt
starting-Fits (epoll_wait ep (pos (suc n)) timeout) = (refl, omega arith)
starting-Fits (epoll_wait ep (negsuc n) timeout) = tt
starting-Fits (pipe2 flags) = (tt, tt)
starting-Fits _ = tt

pub replicate-IsHonest :
    (n : ℕ) (f : Call → Answer) → ((c : Call) → Fits c (f c)) → IsHonest (replicate n f)
replicate-IsHonest zero f h = tt
replicate-IsHonest (suc n) f h = (h, replicate-IsHonest n f h)
