-- ===== src/Spawn/WaitLoop/Handling.antt =====
-- spawn/mod.rs and io/drain.rs: the data of the process in the handlers of the three pipes.
use coreshift_lowlevel.Prelude.{
  ℕ, ◌≤◌, ◌≢◌, sym, subst, List, ℤ, Bool, true, false, Option, none, some, arith, length,
  if◌then◌else◌,
}
use coreshift_lowlevel.Os.{Sys, Io, pure, ◌>>=◌, Post, Post-bind, Post-mono}
use coreshift_lowlevel.Os.Traces.{Grown}
use coreshift_lowlevel.Error.{Result, ok, err}
use coreshift_lowlevel.Fd.{raw}
use coreshift_lowlevel.Reactor.{Reactor}
use coreshift_lowlevel.Io.Buffer.{read_from_fd}
use coreshift_lowlevel.Io.Buffer.Capture.{IsRead, Captured}
use coreshift_lowlevel.Io.Buffer.Capture.Rounds.{ReadOut, read_from_fd_captures}
use coreshift_lowlevel.Io.Writer.{write_to_fd}
use coreshift_lowlevel.Io.Drain.{
  DrainState, FdSlot, drop_stdout, drop_stderr, drop_stdin, handle_stdout_ready,
  handle_stderr_ready, handle_stdin_writable,
}
use coreshift_lowlevel.Spawn.WaitLoop.{quietly}
use coreshift_lowlevel.Spawn.WaitLoop.Plain.{Plain-remove_slot, Plain-write_to_fd}
use coreshift_lowlevel.Spawn.WaitLoop.Keeping.{
  no_read, Kept, SlotIs, Anything, after_plain, stdout_read_keeps, stderr_read_keeps,
}

module _ (limit : ℕ) (fo fe : ℤ) (bo be : List ℕ) (apart : fo ≢ fe) where
  abbrev K : DrainState → Sys → Type 0
  K d s = Kept limit fo fe bo be d s

  -- What a part leaves that was begun in s₀.
  abbrev pub Handled : Sys → DrainState × Result (Unit {0}) → Sys → Type 0
  Handled s₀ out s = Kept limit fo fe bo be out.0 s × (length s.script ≤ length s₀.script)

  abbrev Dropped : Sys → DrainState → Sys → Type 0
  Dropped s₀ d s = K d s × (length s.script ≤ length s₀.script)

  pub drop_stdout_keeps :
      (d : DrainState) (reactor : Reactor) (s : Sys)
      → K d s
      → Post (Dropped s) Anything (drop_stdout d reactor s)
  unfolding drop_stdout
  drop_stdout_keeps d reactor s k =
      after_plain limit fo fe bo be (λ _. pure (record d { stdout_slot = none })) (Dropped s) d s
        (Plain-remove_slot no_read d.stdout_slot reactor) k
        (λ _ s' k' le. (
          record {
            stdout_is = tt;
            stderr_is = k'.stderr_is;
            limit_is = k'.limit_is;
            stdout = k'.stdout;
            stderr = k'.stderr;
            honest = k'.honest;
          },
          le,
        ))

  pub drop_stderr_keeps :
      (d : DrainState) (reactor : Reactor) (s : Sys)
      → K d s
      → Post (Dropped s) Anything (drop_stderr d reactor s)
  unfolding drop_stderr
  drop_stderr_keeps d reactor s k =
      after_plain limit fo fe bo be (λ _. pure (record d { stderr_slot = none })) (Dropped s) d s
        (Plain-remove_slot no_read d.stderr_slot reactor) k
        (λ _ s' k' le. (
          record {
            stdout_is = k'.stdout_is;
            stderr_is = tt;
            limit_is = k'.limit_is;
            stdout = k'.stdout;
            stderr = k'.stderr;
            honest = k'.honest;
          },
          le,
        ))

  pub drop_stdin_keeps :
      (d : DrainState) (reactor : Reactor) (s : Sys)
      → K d s
      → Post (Dropped s) Anything (drop_stdin d reactor s)
  unfolding drop_stdin
  drop_stdin_keeps d reactor s k =
      after_plain limit fo fe bo be _ (Dropped s) d s
        (Plain-remove_slot no_read d.stdin_slot reactor) k
        (λ _ s' k' le. (
          record {
            stdout_is = k'.stdout_is;
            stderr_is = k'.stderr_is;
            limit_is = k'.limit_is;
            stdout = k'.stdout;
            stderr = k'.stderr;
            honest = k'.honest;
          },
          le,
        ))

  -- A pipe that is dropped, with no error.
  pub quietly_keeps :
      (m : Io DrainState) (s₀ s : Sys)
      → length s.script ≤ length s₀.script
      → Post (Dropped s) Anything (m s)
      → Post (Handled s₀) Anything (quietly m s)
  quietly_keeps m s₀ s le p =
      Post-bind (Dropped s) (Handled s₀) Anything m (λ d. pure (d, ok tt)) s p
        (λ d s' k. (k.0, omega (arith, k.1, le)))

  -- What follows a transfer.
  served :
      (d : DrainState) (r : Result Bool) (drop_it : Io DrainState) (s₀ s : Sys)
      → length s.script ≤ length s₀.script
      → K d s
      → Post (Dropped s) Anything (drop_it s)
      → Post (Handled s₀) Anything (
          (elim r as (λ _. Io (DrainState × Result (Unit {0}))) [
            | err e ↦ pure (d, err e)
            | ok eof ↦ if eof then (drop_it >>= λ d'. pure (d', ok tt)) else pure (d, ok tt)
          ])
            s)
  served d (err e) drop_it s₀ s le k p = (k, le)
  served d (ok false) drop_it s₀ s le k p = (k, le)
  served d (ok true) drop_it s₀ s le k p = quietly_keeps drop_it s₀ s le p

  pub stdout_ready_keeps :
      (d : DrainState) (reactor : Reactor) (s : Sys)
      → K d s
      → Post (Handled s) Anything (handle_stdout_ready d reactor s)
  unfolding handle_stdout_ready
  stdout_ready_keeps d reactor s k = go d.stdout_slot k.stdout_is
    where
      go :
          (slot : Option FdSlot)
          → SlotIs fo slot
          → Post (Handled s) Anything (
              (elim slot as (λ _. Io (DrainState × Result (Unit {0}))) [
                | none ↦ pure (d, ok tt)
                | some x ↦ read_from_fd d.buffer x.fd true d.early_exit >>= λ p.
                    elim p.1 as (λ _. Io (DrainState × Result (Unit {0}))) [
                      | err e ↦ pure (record d { buffer = p.0 }, err e)
                      | ok eof ↦
                          if eof
                          then (drop_stdout (record d { buffer = p.0 }) reactor >>= λ d'.
                              pure (d', ok tt))
                          else pure (record d { buffer = p.0 }, ok tt)
                    ]
              ])
                s)
      go none e = (k, omega arith)
      go (some x) e =
          Post-bind (ReadOut d.buffer x.fd true d.early_exit bo s) (Handled s) Anything
            (read_from_fd d.buffer x.fd true d.early_exit) _ s
            (Post-mono (ReadOut d.buffer x.fd true d.early_exit bo s)
              (ReadOut d.buffer x.fd true d.early_exit bo s)
              (λ s'. Grown (IsRead (raw x.fd)) s.log s'.log) Anything
              (read_from_fd d.buffer x.fd true d.early_exit s) (λ _ _ o. o) (λ _ _. tt)
              (read_from_fd_captures d.buffer x.fd true d.early_exit bo s
                (subst (λ g. Captured d.buffer.limit g bo d.buffer.stdout s.log) (sym e)
                  (subst (λ n. Captured n fo bo d.buffer.stdout s.log) (sym k.limit_is) k.stdout))
                k.honest))
            (λ p s' o.
              let k' = stdout_read_keeps limit fo fe bo be apart d x.fd p.0 p.1 s s' k e o in
              served (record d { buffer = p.0 }) p.1
                (drop_stdout (record d { buffer = p.0 }) reactor) s s' (omega (arith, o.used)) k'
                (drop_stdout_keeps (record d { buffer = p.0 }) reactor s' k'))

  pub stderr_ready_keeps :
      (d : DrainState) (reactor : Reactor) (s : Sys)
      → K d s
      → Post (Handled s) Anything (handle_stderr_ready d reactor s)
  unfolding handle_stderr_ready
  stderr_ready_keeps d reactor s k = go d.stderr_slot k.stderr_is
    where
      go :
          (slot : Option FdSlot)
          → SlotIs fe slot
          → Post (Handled s) Anything (
              (elim slot as (λ _. Io (DrainState × Result (Unit {0}))) [
                | none ↦ pure (d, ok tt)
                | some x ↦ read_from_fd d.buffer x.fd false d.early_exit >>= λ p.
                    elim p.1 as (λ _. Io (DrainState × Result (Unit {0}))) [
                      | err e ↦ pure (record d { buffer = p.0 }, err e)
                      | ok eof ↦
                          if eof
                          then (drop_stderr (record d { buffer = p.0 }) reactor >>= λ d'.
                              pure (d', ok tt))
                          else pure (record d { buffer = p.0 }, ok tt)
                    ]
              ])
                s)
      go none e = (k, omega arith)
      go (some x) e =
          Post-bind (ReadOut d.buffer x.fd false d.early_exit be s) (Handled s) Anything
            (read_from_fd d.buffer x.fd false d.early_exit) _ s
            (Post-mono (ReadOut d.buffer x.fd false d.early_exit be s)
              (ReadOut d.buffer x.fd false d.early_exit be s)
              (λ s'. Grown (IsRead (raw x.fd)) s.log s'.log) Anything
              (read_from_fd d.buffer x.fd false d.early_exit s) (λ _ _ o. o) (λ _ _. tt)
              (read_from_fd_captures d.buffer x.fd false d.early_exit be s
                (subst (λ g. Captured d.buffer.limit g be d.buffer.stderr s.log) (sym e)
                  (subst (λ n. Captured n fe be d.buffer.stderr s.log) (sym k.limit_is) k.stderr))
                k.honest))
            (λ p s' o.
              let k' = stderr_read_keeps limit fo fe bo be apart d x.fd p.0 p.1 s s' k e o in
              served (record d { buffer = p.0 }) p.1
                (drop_stderr (record d { buffer = p.0 }) reactor) s s' (omega (arith, o.used)) k'
                (drop_stderr_keeps (record d { buffer = p.0 }) reactor s' k'))

  pub stdin_writable_keeps :
      (d : DrainState) (reactor : Reactor) (s : Sys)
      → K d s
      → Post (Handled s) Anything (handle_stdin_writable d reactor s)
  unfolding handle_stdin_writable
  stdin_writable_keeps d reactor s k = go d.stdin_slot
    where
      go :
          (slot : Option FdSlot)
          → Post (Handled s) Anything (
              (elim slot as (λ _. Io (DrainState × Result (Unit {0}))) [
                | none ↦ pure (d, ok tt)
                | some x ↦ write_to_fd d.writer x.fd >>= λ p.
                    elim p.1 as (λ _. Io (DrainState × Result (Unit {0}))) [
                      | err e ↦ pure (record d { writer = p.0 }, err e)
                      | ok done ↦
                          if done
                          then (drop_stdin (record d { writer = p.0 }) reactor >>= λ d'.
                              pure (d', ok tt))
                          else pure (record d { writer = p.0 }, ok tt)
                    ]
              ])
                s)
      go none = (k, omega arith)
      go (some x) =
          after_plain limit fo fe bo be _ (Handled s) d s (Plain-write_to_fd no_read d.writer x.fd)
            k
            (λ p s' k' le.
              let d' : DrainState = record d { writer = p.0 } in
              let k'' : K d' s' = record {
                stdout_is = k'.stdout_is;
                stderr_is = k'.stderr_is;
                limit_is = k'.limit_is;
                stdout = k'.stdout;
                stderr = k'.stderr;
                honest = k'.honest;
              } in
              served d' p.1 (drop_stdin d' reactor) s s' le k''
                (drop_stdin_keeps d' reactor s' k''))
