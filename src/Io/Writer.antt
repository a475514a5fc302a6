-- ===== src/Io/Writer.antt =====
-- io/writer.rs: `WriterState`.
pub mod Progress
use coreshift_lowlevel.Prelude.{
  ℕ, ◌+◌, ◌-◌, min, List, Bool, true, false, Option, none, some, pos, length, take, drop,
  if◌then◌else◌, ltb, eq_int,
}
use coreshift_lowlevel.Os.{Io, pure, ◌>>=◌, Round, continue, break, loop}
use coreshift_lowlevel.Error.{Result, ok, err, code_of}
use coreshift_lowlevel.Fd.{Fd, write_slice, epipe}

abbrev pub write_chunk : ℕ
write_chunk = 65536

pub record WriterState : Type 0 where
  pub buf : Option (List ℕ)
  pub off : ℕ

unfoldable pub new : Option (List ℕ) → WriterState
new buf = record { buf = buf; off = 0 }

abbrev pub Write : Type 0
Write = Round ℕ (WriterState × Result Bool)

-- The `match` on what one `write` has taken; the rounds change only `off`.
unfoldable pub written : List ℕ → ℕ → Result (Option ℕ) → Write
written buf off (ok (some n)) =
    if ltb 0 n then continue (off + n) else break (record { buf = none; off = off }, ok true)
written buf off (ok none) = break (record { buf = some buf; off = off }, ok false)
written buf off (err e) =
    if eq_int (code_of e) (pos epipe)
    then break (record { buf = none; off = off }, ok true)
    else break (record { buf = none; off = off }, err e)

-- One round of the `while`, and what follows it.
unfoldable pub write_round : Fd → List ℕ → ℕ → Io Write
unfolding write_slice written
write_round fd buf off =
    let remaining = length buf - off in
    let chunk = min remaining write_chunk in
    if ltb off (length buf)
    then (do r ← write_slice fd (take chunk (drop off buf)); pure (written buf off r))
    else pure (break (record { buf = none; off = off }, ok true))

unfoldable pub write_to_fd : WriterState → Fd → Io (WriterState × Result Bool)
unfolding loop write_round
write_to_fd w fd = elim w.buf [
  | some buf ↦ loop (write_round fd buf) w.off
  | none ↦ pure (w, ok true)
]
