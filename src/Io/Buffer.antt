-- ===== src/Io/Buffer.antt =====
-- io/buffer.rs: `BufferState`.
pub mod Capture
use coreshift_lowlevel.Prelude.{
  ℕ, ◌+◌, ◌-◌, min, List, [], ◌++◌, Bool, true, false, Option, none, some, length, take, drop,
  replicate, if◌then◌else◌, ltb, ◌==◌, ◌&&◌,
}
use coreshift_lowlevel.Os.{Io, pure, ◌>>=◌, Round, continue, break, loop}
use coreshift_lowlevel.Error.{Result, ok, err}
use coreshift_lowlevel.Fd.{Fd, read_slice}

abbrev pub read_chunk : ℕ
read_chunk = 65536

abbrev pub drop_chunk : ℕ
drop_chunk = 8192

pub record BufferState : Type 0 where
  pub stdout : List ℕ
  pub stderr : List ℕ
  pub limit : ℕ

unfoldable pub new : ℕ → BufferState
new limit = record { stdout = []; stderr = []; limit = limit }

-- `impl FnMut(&[u8]) -> bool`, as the plain function that `SpawnDrain` has.
abbrev pub EarlyExit : Type 0
EarlyExit = Option (List ℕ → Bool)

-- `Vec::resize` with zeros.
abbrev pub resize : ℕ → List ℕ → List ℕ
resize n xs = take n xs ++ replicate (n - length xs) 0

-- `is_stdout && let Some(f) = early_exit && f(chunk)`
abbrev pub exits : Bool → EarlyExit → List ℕ → Bool
exits is_stdout none chunk = false
exits is_stdout (some f) chunk = is_stdout && f chunk

abbrev pub Read : Type 0
Read = Round (List ℕ) (List ℕ × Result Bool)

-- The `match` past the limit: what was read is discarded.
unfoldable pub discarded : List ℕ → Result (Option ℕ) → Read
discarded dest (ok (some n)) = if ltb 0 n then continue dest else break (dest, ok true)
discarded dest (ok none) = break (dest, ok false)
discarded dest (err e) = break (dest, err e)

-- The `match` below the limit, on `dest` with the slice behind `len` filled in.
unfoldable pub appended : Bool → EarlyExit → ℕ → List ℕ → Result (Option ℕ) → Read
appended is_stdout early_exit len dest (ok (some n)) =
    if ltb 0 n
    then (let dest' = take (len + n) dest in
        if exits is_stdout early_exit (take n (drop len dest'))
        then break (dest', ok true)
        else continue dest')
    else break (take len dest, ok true)
appended is_stdout early_exit len dest (ok none) = break (take len dest, ok false)
appended is_stdout early_exit len dest (err e) = break (take len dest, err e)

-- One round of the `loop`.
unfoldable pub read_round : ℕ → Fd → Bool → EarlyExit → List ℕ → Io Read
unfolding read_slice discarded appended
read_round limit fd is_stdout early_exit dest =
    let len = length dest in
    let remaining_limit = limit - len in
    let to_read = min remaining_limit read_chunk in
    let resized = resize (len + to_read) dest in
    if remaining_limit == 0
    then (do (r, _) ← read_slice fd (replicate drop_chunk 0); pure (discarded dest r))
    else (do
      (r, slice) ← read_slice fd (drop len resized)
      pure (appended is_stdout early_exit len (take len resized ++ slice) r))

abbrev pub stream : Bool → BufferState → List ℕ
stream true b = b.stdout
stream false b = b.stderr

-- `dest` is a reference to one of the two vectors.
abbrev pub set_stream : Bool → List ℕ → BufferState → BufferState
set_stream true dest b = record b { stdout = dest }
set_stream false dest b = record b { stderr = dest }

unfoldable pub read_from_fd : BufferState → Fd → Bool → EarlyExit → Io (BufferState × Result Bool)
unfolding loop read_round
read_from_fd b fd is_stdout early_exit = do
  (dest, r) ← loop (read_round b.limit fd is_stdout early_exit) (stream is_stdout b)
  pure (set_stream is_stdout dest b, r)

unfoldable pub into_parts : BufferState → List ℕ × List ℕ
into_parts b = (b.stdout, b.stderr)
