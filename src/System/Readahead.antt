-- ===== src/System/Readahead.antt =====
-- sys/mod.rs: `readahead`.
pub mod Range
use coreshift_lowlevel.Prelude.{ℕ, min, ℤ, pos, minus_one, eq_int, ltb, ◌==◌, if◌then◌else◌}
use coreshift_lowlevel.Os.{Answer, Io, pure, Round, continue, break, retrying, readahead}
use coreshift_lowlevel.Error.{Result, ok, err, sys}
use coreshift_lowlevel.Fd.{Fd, raw, eintr, einval}

-- `libc::off64_t::MAX`
abbrev pub off64_max : ℕ
off64_max = 9223372036854775807

-- `libc::c_uint::MAX`
abbrev pub uint_max : ℕ
uint_max = 4294967295

unfoldable pub readahead_round : Answer → ℕ → Round (Unit {0}) (Result (Unit {0}))
unfolding sys
readahead_round a code =
    if eq_int a.ret minus_one
    then (if code == eintr then continue tt else break (err (sys (pos code) "readahead")))
    else break (ok tt)

-- `fd`, `offset` and `len` as the caller gives them.
unfoldable pub readahead_raw : ℤ → ℕ → ℕ → Io (Result (Unit {0}))
unfolding sys retrying readahead_round
readahead_raw fd offset len =
    if ltb off64_max offset
    then pure (err (sys (pos einval) "readahead"))
    else retrying (readahead fd offset (min len uint_max)) readahead_round

unfoldable pub readahead_fd : Fd → ℕ → ℕ → Io (Result (Unit {0}))
unfolding readahead_raw
readahead_fd fd offset len = readahead_raw (raw fd) offset len
