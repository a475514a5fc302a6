-- ===== src/Io/Drain.antt =====
-- io/drain.rs: `DrainState`, which owns the pipes of one process.
pub mod Tokens
pub mod Closing
pub mod Making
use coreshift_lowlevel.Prelude.{
  ℕ, List, [], ◌∷◌, ◌++◌, Bool, true, false, Option, none, some, ◌==◌, ◌&&◌, is_none, if◌then◌else◌,
}
use coreshift_lowlevel.Os.{Io, pure, ◌>>=◌, ◌>>◌}
use coreshift_lowlevel.Error.{Result, ok, err}
use coreshift_lowlevel.Fd.{Fd, set_nonblock, drop_fd}
use coreshift_lowlevel.Reactor
use coreshift_lowlevel.Reactor.{Reactor, Token}
use coreshift_lowlevel.Io.Buffer
use coreshift_lowlevel.Io.Buffer.{BufferState, EarlyExit, read_from_fd}
use coreshift_lowlevel.Io.Writer
use coreshift_lowlevel.Io.Writer.{WriterState, write_to_fd}

pub record FdSlot : Type 0 where
  pub token : Option Token
  pub fd : Fd

pub record DrainState : Type 0 where
  pub stdout_slot : Option FdSlot
  pub stderr_slot : Option FdSlot
  pub stdin_slot : Option FdSlot
  pub buffer : BufferState
  pub writer : WriterState
  pub early_exit : EarlyExit

abbrev pub unregistered : Option Fd → Option FdSlot
unregistered none = none
unregistered (some fd) = some (record { token = none; fd = fd })

-- An optional descriptor goes out of scope.
abbrev pub drop_opt : Option Fd → Io (Unit {0})
drop_opt none = pure tt
drop_opt (some fd) = drop_fd fd

abbrev pub drop_slot : Option FdSlot → Io (Unit {0})
drop_slot none = pure tt
drop_slot (some slot) = drop_fd slot.fd

abbrev pub nonblock_opt : Option Fd → Io (Result (Unit {0}))
nonblock_opt none = pure (ok tt)
nonblock_opt (some fd) = set_nonblock fd

-- The input pipe is kept only with a buffer to write; without one it is dropped at the end.
abbrev pub kept : Option Fd → Option (List ℕ) → Option Fd
kept stdin_fd none = none
kept stdin_fd (some buf) = stdin_fd

abbrev pub unkept : Option Fd → Option (List ℕ) → Option Fd
unkept stdin_fd none = stdin_fd
unkept stdin_fd (some buf) = none

-- Every `?` drops the slots made so far, and the arguments that were not moved into one.
unfoldable pub new :
    Option Fd → Option (List ℕ) → Option Fd → Option Fd → ℕ → EarlyExit → Io (Result DrainState)
unfolding set_nonblock drop_fd Buffer.new Writer.new
new stdin_fd stdin_buf stdout_fd stderr_fd limit early_exit = do
  r₁ ← nonblock_opt (kept stdin_fd stdin_buf)
  elim r₁ [
    | err e ↦ drop_opt stderr_fd >> drop_opt stdout_fd >> drop_opt stdin_fd >> pure (err e)
    | ok _ ↦ do
      r₂ ← nonblock_opt stdout_fd
      elim r₂ [
        | err e ↦
            drop_opt (kept stdin_fd stdin_buf)
            >> drop_opt stderr_fd
            >> drop_opt stdout_fd
            >> drop_opt (unkept stdin_fd stdin_buf)
            >> pure (err e)
        | ok _ ↦ do
          r₃ ← nonblock_opt stderr_fd
          elim r₃ [
            | err e ↦
                drop_opt stdout_fd
                >> drop_opt (kept stdin_fd stdin_buf)
                >> drop_opt stderr_fd
                >> drop_opt (unkept stdin_fd stdin_buf)
                >> pure (err e)
            | ok _ ↦
                drop_opt (unkept stdin_fd stdin_buf)
                >> pure (
                    ok (record {
                      stdout_slot = unregistered stdout_fd;
                      stderr_slot = unregistered stderr_fd;
                      stdin_slot = unregistered (kept stdin_fd stdin_buf);
                      buffer = Buffer.new limit;
                      writer = Writer.new stdin_buf;
                      early_exit = early_exit;
                    }))
          ]
      ]
  ]

unfoldable pub is_done : DrainState → Bool
is_done d = is_none d.stdin_slot && is_none d.stdout_slot && is_none d.stderr_slot

unfoldable pub write_stdin : DrainState → Io (DrainState × Result Bool)
unfolding write_to_fd drop_fd
write_stdin d = elim d.stdin_slot [
  | none ↦ pure (d, ok true)
  | some slot ↦ do
    (writer, r) ← write_to_fd d.writer slot.fd
    let d' = record d { writer = writer }
    elim r [
      | err e ↦ pure (d', err e)
      | ok done ↦
          if done
          then drop_fd slot.fd >> pure (record d' { stdin_slot = none }, ok true)
          else pure (d', ok false)
    ]
]

abbrev pub slot_of : Bool → DrainState → Option FdSlot
slot_of true d = d.stdout_slot
slot_of false d = d.stderr_slot

abbrev pub clear_slot : Bool → DrainState → DrainState
clear_slot true d = record d { stdout_slot = none }
clear_slot false d = record d { stderr_slot = none }

unfoldable pub read_fd : DrainState → Bool → Io (DrainState × Result Bool)
unfolding read_from_fd drop_fd
read_fd d is_stdout = elim (slot_of is_stdout d) [
  | none ↦ pure (d, ok true)
  | some slot ↦ do
    (buffer, r) ← read_from_fd d.buffer slot.fd is_stdout d.early_exit
    let d' = record d { buffer = buffer }
    elim r [
      | err e ↦ pure (d', err e)
      | ok eof ↦
          if eof
          then drop_fd slot.fd >> pure (clear_slot is_stdout d', ok true)
          else pure (d', ok false)
    ]
]

abbrev pub push_slot : List FdSlot → Option FdSlot → List FdSlot
push_slot slots none = slots
push_slot slots (some slot) = slots ++ (slot ∷ [])

unfoldable pub take_all_slots : DrainState → DrainState × List FdSlot
take_all_slots d = (
  record d { stdin_slot = none; stdout_slot = none; stderr_slot = none },
  push_slot (push_slot (push_slot [] d.stdin_slot) d.stdout_slot) d.stderr_slot,
)

-- One slot is registered; where that fails it was taken out already, and is dropped.
unfoldable pub register_slot :
    Option FdSlot → Reactor → Bool → Bool → Io (Option FdSlot × Reactor × Result (Unit {0}))
unfolding Reactor.add drop_fd
register_slot none reactor readable writable = pure (none, reactor, ok tt)
register_slot (some slot) reactor readable writable = do
  (reactor', r) ← Reactor.add reactor slot.fd readable writable
  elim r [
    | ok token ↦ pure (some (record slot { token = some token }), reactor', ok tt)
    | err e ↦ drop_fd slot.fd >> pure (none, reactor', err e)
  ]

unfoldable pub register_with_reactor :
    DrainState → Reactor → Io (DrainState × Reactor × Result (Unit {0}))
unfolding register_slot
register_with_reactor d reactor = do
  (stdin_slot, reactor₁, r₁) ← register_slot d.stdin_slot reactor false true
  let d₁ = record d { stdin_slot = stdin_slot }
  elim r₁ [
    | err e ↦ pure (d₁, reactor₁, err e)
    | ok _ ↦ do
      (stdout_slot, reactor₂, r₂) ← register_slot d.stdout_slot reactor₁ true false
      let d₂ = record d₁ { stdout_slot = stdout_slot }
      elim r₂ [
        | err e ↦ pure (d₂, reactor₂, err e)
        | ok _ ↦ do
          (stderr_slot, reactor₃, r₃) ← register_slot d.stderr_slot reactor₂ true false
          pure (record d₂ { stderr_slot = stderr_slot }, reactor₃, r₃)
      ]
  ]

abbrev pub token_is : Option Token → Token → Bool
token_is none t = false
token_is (some u) t = u.val == t.val

unfoldable pub slot_matches : Option FdSlot → Token → Bool
slot_matches none t = false
slot_matches (some slot) t = token_is slot.token t

unfoldable pub stdout_matches : DrainState → Token → Bool
unfolding slot_matches
stdout_matches d t = slot_matches d.stdout_slot t

unfoldable pub stderr_matches : DrainState → Token → Bool
unfolding slot_matches
stderr_matches d t = slot_matches d.stderr_slot t

unfoldable pub stdin_matches : DrainState → Token → Bool
unfolding slot_matches
stdin_matches d t = slot_matches d.stdin_slot t

-- A slot that was taken is taken off the reactor, and dropped.
unfoldable pub remove_slot : Option FdSlot → Reactor → Io (Unit {0})
unfolding Reactor.del drop_fd
remove_slot none reactor = pure tt
remove_slot (some slot) reactor = Reactor.del reactor slot.fd >> drop_fd slot.fd

unfoldable pub drop_stdout : DrainState → Reactor → Io DrainState
unfolding remove_slot
drop_stdout d reactor = remove_slot d.stdout_slot reactor >> pure (record d { stdout_slot = none })

unfoldable pub drop_stderr : DrainState → Reactor → Io DrainState
unfolding remove_slot
drop_stderr d reactor = remove_slot d.stderr_slot reactor >> pure (record d { stderr_slot = none })

unfoldable pub drop_stdin : DrainState → Reactor → Io DrainState
unfolding remove_slot
drop_stdin d reactor =
    remove_slot d.stdin_slot reactor
    >> pure (record d { stdin_slot = none; writer = record { buf = none; off = d.writer.off } })

unfoldable pub handle_stdout_ready : DrainState → Reactor → Io (DrainState × Result (Unit {0}))
unfolding read_from_fd drop_stdout
handle_stdout_ready d reactor = elim d.stdout_slot [
  | none ↦ pure (d, ok tt)
  | some slot ↦ do
    (buffer, r) ← read_from_fd d.buffer slot.fd true d.early_exit
    let d' = record d { buffer = buffer }
    elim r [
      | err e ↦ pure (d', err e)
      | ok eof ↦
          if eof then (do d'' ← drop_stdout d' reactor; pure (d'', ok tt)) else pure (d', ok tt)
    ]
]

unfoldable pub handle_stderr_ready : DrainState → Reactor → Io (DrainState × Result (Unit {0}))
unfolding read_from_fd drop_stderr
handle_stderr_ready d reactor = elim d.stderr_slot [
  | none ↦ pure (d, ok tt)
  | some slot ↦ do
    (buffer, r) ← read_from_fd d.buffer slot.fd false d.early_exit
    let d' = record d { buffer = buffer }
    elim r [
      | err e ↦ pure (d', err e)
      | ok eof ↦
          if eof then (do d'' ← drop_stderr d' reactor; pure (d'', ok tt)) else pure (d', ok tt)
    ]
]

unfoldable pub handle_stdin_writable : DrainState → Reactor → Io (DrainState × Result (Unit {0}))
unfolding write_to_fd drop_stdin
handle_stdin_writable d reactor = elim d.stdin_slot [
  | none ↦ pure (d, ok tt)
  | some slot ↦ do
    (writer, r) ← write_to_fd d.writer slot.fd
    let d' = record d { writer = writer }
    elim r [
      | err e ↦ pure (d', err e)
      | ok done ↦
          if done then (do d'' ← drop_stdin d' reactor; pure (d'', ok tt)) else pure (d', ok tt)
    ]
]

unfoldable pub into_parts : DrainState → List ℕ × List ℕ
unfolding Buffer.into_parts
into_parts d = Buffer.into_parts d.buffer
