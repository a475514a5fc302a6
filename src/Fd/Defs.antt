-- ===== src/Fd/Defs.antt =====
-- reactor/mod.rs: the descriptor `Fd`, its `EINTR` loops, and the errors that they tell apart.
use coreshift_lowlevel.Prelude.{
  ℕ, List, [], ◌++◌, ℤ, pos, negsuc, Option, none, some, String, ◌==◌, if◌then◌else◌, ◌||◌, length,
  drop, bit_or,
}
use coreshift_lowlevel.Os.{
  Io, pure, ◌>>=◌, ◌>>◌, perform, last_os_error, retrying, Round, continue, break, Answer, read,
  write, close, dup2, fcntl_getfl, fcntl_setfl, fcntl_getfd, fcntl_setfd,
}
use coreshift_lowlevel.Error.{Result, ok, err, sys, syscall_ret, ◌>>?◌}

-- The constants of libc for Linux.
abbrev pub eintr : ℕ
eintr = 4

abbrev pub eagain : ℕ
eagain = 11

abbrev pub ewouldblock : ℕ
ewouldblock = 11

abbrev pub epipe : ℕ
epipe = 32

abbrev pub einval : ℕ
einval = 22

abbrev pub esrch : ℕ
esrch = 3

abbrev pub o_nonblock : ℕ
o_nonblock = 2048

abbrev pub fd_cloexec : ℕ
fd_cloexec = 1

-- A descriptor that its owner closes when it is dropped.
pub record Fd : Type 0 where
  pub raw_fd : ℤ

unfoldable pub new : ℤ → String → Io (Result Fd)
unfolding last_os_error sys
new (negsuc n) op = do code ← last_os_error; pure (err (sys (pos code) op))
new (pos n) op = pure (ok (record { raw_fd = pos n }))

abbrev pub raw : Fd → ℤ
raw fd = fd.raw_fd

dup2_round : Answer → ℕ → Round (Unit {0}) (Result (Unit {0}))
unfolding sys
dup2_round a e = elim a.ret [
  | pos n ↦ break (ok tt)
  | negsuc n ↦
      if e == eintr then continue tt else break (if n == 0 then err (sys (pos e) "dup2") else ok tt)
]

-- `Fd::dup2`
unfoldable pub dup2_to : Fd → ℤ → Io (Result (Unit {0}))
unfolding retrying dup2_round
dup2_to fd target = retrying (dup2 fd.raw_fd target) dup2_round

flags_of : ℤ → ℕ
flags_of (pos n) = n
flags_of (negsuc n) = 0

unfoldable pub set_nonblock : Fd → Io (Result (Unit {0}))
unfolding perform syscall_ret flags_of
set_nonblock fd = do
  flags ← perform (fcntl_getfl fd.raw_fd)
  syscall_ret flags.ret "fcntl(F_GETFL)" >>? λ _. do
    r ← perform (fcntl_setfl fd.raw_fd (bit_or (flags_of flags.ret) o_nonblock))
    syscall_ret r.ret "fcntl(F_SETFL)"

unfoldable pub set_cloexec : Fd → Io (Result (Unit {0}))
unfolding perform syscall_ret flags_of
set_cloexec fd = do
  flags ← perform (fcntl_getfd fd.raw_fd)
  syscall_ret flags.ret "fcntl(F_GETFD)" >>? λ _. do
    r ← perform (fcntl_setfd fd.raw_fd (bit_or (flags_of flags.ret) fd_cloexec))
    syscall_ret r.ret "fcntl(F_SETFD)"

-- One round of the loops in `read_raw` and `write_raw`, which differ in the error's name.
unfoldable pub io_round : String → Answer → ℕ → Round (Unit {0}) (Result (Option (ℕ × List ℕ)))
unfolding sys
io_round op a e = elim a.ret [
  | pos n ↦ break (ok (some (n, a.bytes)))
  | negsuc n ↦
      if e == eintr
      then continue tt
      else if e == eagain || e == ewouldblock
      then break (ok none)
      else break (err (sys (pos e) op))
]

-- The bytes that the kernel stored come back beside their number.
unfoldable pub read_raw : Fd → ℕ → Io (Result (Option (ℕ × List ℕ)))
unfolding retrying io_round
read_raw fd count = retrying (read fd.raw_fd count) (io_round "read")

-- `write` stores nothing, so what stands beside the number is of no account.
unfoldable pub write_raw : Fd → List ℕ → Io (Result (Option (ℕ × List ℕ)))
unfolding retrying io_round
write_raw fd given = retrying (write fd.raw_fd given) (io_round "write")

-- A buffer after the kernel has stored bytes at its start.
abbrev pub store : List ℕ → List ℕ → List ℕ
store bytes buf = bytes ++ drop (length bytes) buf

abbrev pub stored : List ℕ → Result (Option (ℕ × List ℕ)) → Result (Option ℕ) × List ℕ
stored buf (ok (some (n, bytes))) = (ok (some n), store bytes buf)
stored buf (ok none) = (ok none, buf)
stored buf (err e) = (err e, buf)

-- The slice is handed in, and comes back as the call left it.
unfoldable pub read_slice : Fd → List ℕ → Io (Result (Option ℕ) × List ℕ)
unfolding read_raw
read_slice fd buf = do r ← read_raw fd (length buf); pure (stored buf r)

unfoldable pub write_slice : Fd → List ℕ → Io (Result (Option ℕ))
unfolding write_raw
write_slice fd buf = do r ← write_raw fd buf; pure (stored [] r).0

-- `impl Drop for Fd`
unfoldable pub drop_fd : Fd → Io (Unit {0})
unfolding perform
drop_fd fd = elim fd.raw_fd [ pos n ↦ perform (close fd.raw_fd) >> pure tt | negsuc n ↦ pure tt ]
