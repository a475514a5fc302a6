-- ===== src/Spawn/WaitLoop/Frames.antt =====
-- spawn/mod.rs: the calls of the parts of `wait_loop` that move data.
use coreshift_lowlevel.Prelude.{
  ℕ, ℤ, List, [], ◌∷◌, Bool, true, false, Option, ◌+◌, ◌-◌, ◌++◌, min, take, drop, replicate, ◌==◌,
  length,
}
use coreshift_lowlevel.Os.{Call, kill, read, pure, ◌>>=◌, Round}
use coreshift_lowlevel.Os.Steps.{
  Steps, Strides, Turns, Steps-pure, Steps-bind, Steps-if, Steps-result, Steps-option,
  Strides-retrying, Strides-bind, Turns-Strides, Steps-loop, Turns-if,
}
use coreshift_lowlevel.Error.{Result, ok}
use coreshift_lowlevel.Fd.{Fd, raw, read_raw, read_slice, io_round}
use coreshift_lowlevel.Reactor.{Reactor, Event}
use coreshift_lowlevel.Io.Buffer.{
  EarlyExit, BufferState, read_round, read_from_fd, discarded, appended, resize, read_chunk,
  drop_chunk, stream,
}
use coreshift_lowlevel.Io.Drain.{
  DrainState, handle_stdout_ready, handle_stderr_ready, stdout_matches, stderr_matches,
  stdin_matches,
}
use coreshift_lowlevel.Spawn.WaitLoop.{handle_event, handle_events}
use coreshift_lowlevel.Spawn.WaitLoop.Plain.{
  IsPlain, ended_or_not, Plain-drop_stdout, Plain-drop_stderr, Plain-drop_stdin,
  Plain-handle_stdin_writable, Plain-quietly,
}

-- Every call but `kill`.
abbrev pub IsQuiet : Call → Type 0
IsQuiet (kill pid sig) = ⊥
IsQuiet _ = Unit

pub quiet : (c : Call) → IsPlain c → IsQuiet c
quiet (kill pid sig) h = h
quiet _ h = tt

-- The calls that read a stream.
module _ {P : Call → Type 0} (reads : (fd : ℤ) (count : ℕ) → P (read fd count)) where
  Steps-read_slice : (fd : Fd) (buf : List ℕ) → Strides P (read_slice fd buf)
  unfolding read_slice read_raw
  Steps-read_slice fd buf =
      Strides-bind
        (Strides-retrying (read (raw fd) (length buf)) (io_round "read")
          (reads (raw fd) (length buf)))
        (λ r. Steps-pure)

  after_read :
      {S A : Type 0} (fd : Fd) (buf : List ℕ) (f : Result (Option ℕ) × List ℕ → Round S A)
      → Turns P (read_slice fd buf >>= λ p. pure (f p))
  after_read fd buf f = Turns-Strides (Strides-bind (Steps-read_slice fd buf) (λ p. Steps-pure))

  Steps-read_round :
      (limit : ℕ) (fd : Fd) (is_stdout : Bool) (early_exit : EarlyExit) (dest : List ℕ)
      → Turns P (read_round limit fd is_stdout early_exit dest)
  unfolding read_round
  Steps-read_round limit fd is_stdout early_exit dest =
      let len = length dest in
      let resized = resize (len + min (limit - len) read_chunk) dest in
      Turns-if (limit - len == 0) (after_read fd (replicate drop_chunk 0) (λ p. discarded dest p.0))
        (after_read fd (drop len resized)
          (λ p. appended is_stdout early_exit len (take len resized ++ p.1) p.0))

  pub Steps-read_from_fd :
      (b : BufferState) (fd : Fd) (is_stdout : Bool) (early_exit : EarlyExit)
      → Steps P (read_from_fd b fd is_stdout early_exit)
  unfolding read_from_fd
  Steps-read_from_fd b fd is_stdout early_exit =
      Steps-bind
        (Steps-loop (stream is_stdout b) (Steps-read_round b.limit fd is_stdout early_exit))
        (λ p. Steps-pure)

Quiet-handle_stdout_ready :
    (d : DrainState) (reactor : Reactor) → Steps IsQuiet (handle_stdout_ready d reactor)
unfolding handle_stdout_ready
Quiet-handle_stdout_ready d reactor =
    Steps-option d.stdout_slot
      (λ slot. Steps-bind (Steps-read_from_fd (λ _ _. tt) d.buffer slot.fd true d.early_exit) (λ p.
        ended_or_not quiet (record d { buffer = p.0 }) p.1
          (Plain-drop_stdout quiet (record d { buffer = p.0 }) reactor)))
      Steps-pure

Quiet-handle_stderr_ready :
    (d : DrainState) (reactor : Reactor) → Steps IsQuiet (handle_stderr_ready d reactor)
unfolding handle_stderr_ready
Quiet-handle_stderr_ready d reactor =
    Steps-option d.stderr_slot
      (λ slot. Steps-bind (Steps-read_from_fd (λ _ _. tt) d.buffer slot.fd false d.early_exit) (λ p.
        ended_or_not quiet (record d { buffer = p.0 }) p.1
          (Plain-drop_stderr quiet (record d { buffer = p.0 }) reactor)))
      Steps-pure

Quiet-handle_event :
    (reactor : Reactor) (d : DrainState) (ev : Event) → Steps IsQuiet (handle_event reactor d ev)
unfolding handle_event
Quiet-handle_event reactor d ev =
    let idle : Steps IsQuiet (pure (d, ok tt)) = Steps-pure in
    Steps-if (stdout_matches d ev.token)
      (Steps-if ev.readable (Quiet-handle_stdout_ready d reactor)
        (Steps-if ev.error (Plain-quietly quiet (Plain-drop_stdout quiet d reactor)) idle))
      (Steps-if (stderr_matches d ev.token)
        (Steps-if ev.readable (Quiet-handle_stderr_ready d reactor)
          (Steps-if ev.error (Plain-quietly quiet (Plain-drop_stderr quiet d reactor)) idle))
        (Steps-if (stdin_matches d ev.token)
          (Steps-if ev.writable (Plain-handle_stdin_writable quiet d reactor)
            (Steps-if ev.error (Plain-quietly quiet (Plain-drop_stdin quiet d reactor)) idle))
          idle))

pub Quiet-handle_events :
    (reactor : Reactor) (d : DrainState) (evs : List Event)
    → Steps IsQuiet (handle_events reactor d evs)
unfolding handle_events
Quiet-handle_events reactor d [] = Steps-pure
Quiet-handle_events reactor d (ev ∷ evs) =
    Steps-bind (Quiet-handle_event reactor d ev)
      (λ p. Steps-result p.1 (λ _. Quiet-handle_events reactor p.0 evs) (λ e. Steps-pure))
