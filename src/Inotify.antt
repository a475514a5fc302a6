-- ===== src/Inotify.antt =====
-- inotify.rs: watches, and the packed stream of events.
pub mod Draining
pub mod Decoding
use coreshift_lowlevel.Prelude.{
  ℕ, zero, suc, ◌+◌, ◌-◌, ◌*◌, List, [], ◌∷◌, ◌++◌, ℤ, pos, negsuc, Bool, true, false, Option, none,
  some, String, leb, ltb, ◌==◌, if◌then◌else◌, length, take, drop, replicate,
}
use coreshift_lowlevel.Os.{
  Io, pure, ◌>>=◌, perform, last_os_error, Round, continue, break, loop, inotify_add_watch,
}
use coreshift_lowlevel.Error.{Result, ok, err, sys}
use coreshift_lowlevel.Text.{c_string, from_utf8_lossy}
use coreshift_lowlevel.Fd.{Fd, einval, read_slice}

-- A name is a list of code points.
pub record InotifyEvent : Type 0 where
  pub wd : ℤ
  pub mask : ℕ
  pub name : Option (List ℕ)

-- The constants of libc for Linux.
abbrev pub in_modify : ℕ
in_modify = 0x2

unfoldable pub add_watch : Fd → List ℕ → ℕ → Io (Result ℤ)
unfolding perform last_os_error sys c_string
add_watch fd path mask = elim (c_string path) [
  | none ↦ pure (err (sys (pos einval) "inotify path contains nul"))
  | some c_path ↦ do
    a ← perform (inotify_add_watch fd.raw_fd c_path mask)
    e ← last_os_error
    pure (elim a.ret [ pos wd ↦ ok (pos wd) | negsuc n ↦ err (sys (pos e) "inotify_add_watch") ])
]

-- The number whose bytes these are, the lowest first.
abbrev pub le_bytes : List ℕ → ℕ
le_bytes [] = 0
le_bytes (b ∷ bs) = b + 256 * le_bytes bs

-- The 32-bit word at a position of the buffer.
abbrev pub u32_at : List ℕ → ℕ → ℕ
u32_at buf i = le_bytes (take 4 (drop i buf))

-- The word as an `i32`.
abbrev pub as_i32 : ℕ → ℤ
as_i32 n = if ltb n 2147483648 then pos n else negsuc (4294967295 - n)

-- `size_of::<libc::inotify_event>()`: wd, mask, cookie and len.
abbrev pub base : ℕ
base = 16

-- `split(|&b| b == 0).next()`: the bytes before the first NUL.
unfoldable pub until_nul : List ℕ → List ℕ
until_nul [] = []
until_nul (b ∷ bs) = let rest = until_nul bs in if b == 0 then [] else b ∷ rest

-- The event whose header stands at `offset`.
unfoldable pub event_at : List ℕ → ℕ → InotifyEvent
unfolding until_nul from_utf8_lossy
event_at buf offset =
    let len = u32_at buf (offset + 12) in
    record {
      wd = as_i32 (u32_at buf offset);
      mask = u32_at buf (offset + 4);
      name =
          if ltb 0 len
          then some (from_utf8_lossy (until_nul (take len (drop (offset + base) buf))))
          else none;
    }

-- The `while`, with fuel; `none` means that the fuel ran out.
unfoldable pub decode_loop : ℕ → List ℕ → ℕ → List InotifyEvent → Option (List InotifyEvent)
unfolding event_at
decode_loop zero buf offset events = none
decode_loop (suc fuel) buf offset events =
    let size = base + u32_at buf (offset + 12) in
    let rest = decode_loop fuel buf (offset + size) (events ++ (event_at buf offset ∷ [])) in
    if leb (offset + base) (length buf)
    then (if ltb (length buf) (offset + size) then some events else rest)
    else some events

abbrev pub or_empty : Option (List InotifyEvent) → List InotifyEvent
or_empty none = []
or_empty (some events) = events

-- Each event takes bytes, so the length is fuel enough.
unfoldable pub decode_events : List ℕ → List InotifyEvent
unfolding decode_loop
decode_events buf = or_empty (decode_loop (suc (length buf)) buf 0 [])

abbrev pub ReadState : Type 0
ReadState = List InotifyEvent × List ℕ

unfoldable pub read_events_round :
    Fd → ReadState → Io (Round ReadState (Result (List InotifyEvent)))
unfolding read_slice decode_events
read_events_round fd (all_events, buf) = do
  (r, buf') ← read_slice fd buf
  pure (elim r [
    | ok o ↦ elim o [
      | some n ↦
          if n == 0
          then break (ok all_events)
          else continue (all_events ++ decode_events (take n buf'), buf')
      | none ↦ break (ok all_events)
    ]
    | err e ↦ break (err e)
  ])

unfoldable pub read_events : Fd → Io (Result (List InotifyEvent))
unfolding loop read_events_round
read_events fd = loop (read_events_round fd) ([], replicate 4096 0)
