-- ===== src/Fd/Retry.antt =====
-- reactor/mod.rs: the EINTR loops of `read_raw` and `write_raw`.
use coreshift_lowlevel.Prelude.{
  ℕ, ◌≡◌, ◌≢◌, refl, ◌∙◌, ap, List, [], ◌∷◌, ◌++◌, map, pos, Option, none, some, arith, ◌<◌, length,
  String,
}
use coreshift_lowlevel.Os.{
  IsFailure, Call, Answer, Sys, Happened, Post, Post-mono, retrying, retrying_lem, Retried, at_once,
  again, Answered, Blocked, IsHonest, Fits, Round, continue, break, read, write,
}
use coreshift_lowlevel.Error.{Result, ok, err, syscall}
use coreshift_lowlevel.Fd.Defs.{Fd, raw, read_raw, write_raw, io_round, eintr, eagain}

-- An answer that says EINTR.
abbrev pub IsInterrupted : Answer → Type 0
IsInterrupted a = IsFailure a.ret × (a.errno ≡ eintr)

abbrev pub AllInterrupted : List Answer → Type 0
AllInterrupted [] = Unit
AllInterrupted (a ∷ rest) = IsInterrupted a × AllInterrupted rest

-- What a result says of the answer that it was made from.
abbrev pub Tells : String → Result (Option (ℕ × List ℕ)) → Answer → Type 0
Tells op (ok (some (n, bytes))) a = (a.ret ≡ pos n) × (a.bytes ≡ bytes)
Tells op (ok none) a = IsFailure a.ret × (a.errno ≡ eagain)
Tells op (err e) a =
    IsFailure a.ret × (a.errno ≢ eintr) × (a.errno ≢ eagain) × (e ≡ syscall (pos a.errno) op)

abbrev pub logged_as : Call → Answer → Happened
logged_as c a = record { call = c; answer = a }

-- The call was made until it was not interrupted, and the result tells the last answer.
pub record Decided {A : Type 0} (c : Call) (T : A → Answer → Type 0) (s : Sys) (r : A) (s' : Sys)
    : Type 0 where
  pub last : Answer
  pub interrupted : List Answer
  pub all_interrupted : AllInterrupted interrupted
  pub log : s'.log ≡ logged_as c last ∷ map (logged_as c) interrupted ++ s.log
  pub tells : T r last
  pub used : length s'.script < length s.script
  pub honest : IsHonest s.script → Fits c last × IsHonest s'.script

abbrev pub Ends : Call → String → Sys → Result (Option (ℕ × List ℕ)) → Sys → Type 0
Ends c op = Decided c (Tells op)

pub record Hangs (c : Call) (s s' : Sys) : Type 0 where
  pub interrupted : List Answer
  pub all_interrupted : AllInterrupted interrupted
  pub log : s'.log ≡ map (logged_as c) interrupted ++ s.log
  pub used_up : s'.script ≡ []

io_round-continue :
    (op : String) (a : Answer) → io_round op a a.errno ≡ continue tt → IsInterrupted a
unfolding io_round
io_round-continue op a h = ground arith

io_round-break :
    (op : String) (a : Answer) (r : Result (Option (ℕ × List ℕ)))
    → io_round op a a.errno ≡ break r
    → Tells op r a
unfolding io_round
io_round-break op a (ok (some (n, bytes))) h = ground arith
io_round-break op a (ok none) h = ground arith
io_round-break op a (err e) h = ground arith

-- A call that is repeated only when it was interrupted.
module _ {A : Type 0} (c : Call) (decide : Answer → ℕ → Round (Unit {0}) A)
    (T : A → Answer → Type 0)
    (only : (a : Answer) → decide a a.errno ≡ continue tt → IsInterrupted a)
    (tells : (a : Answer) (r : A) → decide a a.errno ≡ break r → T r a) where
  interruptions :
      {log later : List Happened}
      → Retried c decide log later
      → (xs : List Answer) × AllInterrupted xs × (later ≡ map (logged_as c) xs ++ log)
  interruptions at_once = ([], tt, refl)
  interruptions (again a e r) =
      let (xs, all, eq) = interruptions r in
      (a ∷ xs, (only a e, all), ap (λ l. logged_as c a ∷ l) eq)

  Answered-Decided : (s : Sys) (r : A) (s' : Sys) → Answered c decide s r s' → Decided c T s r s'
  Answered-Decided s r s' d =
      let (xs, all, eq) = interruptions d.retried in
      record {
        last = d.last;
        interrupted = xs;
        all_interrupted = all;
        log = d.log ∙ ap (λ l. logged_as c d.last ∷ l) eq;
        tells = tells d.last r d.result;
        used = d.used;
        honest = d.honest;
      }

  Blocked-Hangs : (s s' : Sys) → Blocked c decide s s' → Hangs c s s'
  Blocked-Hangs s s' b =
      let (xs, all, eq) = interruptions b.retried in
      record { interrupted = xs; all_interrupted = all; log = eq; used_up = b.used_up }

  pub deciding_lem : (s : Sys) → Post (Decided c T s) (Hangs c s) (retrying c decide s)
  deciding_lem s =
      Post-mono (Answered c decide s) (Decided c T s) (Blocked c decide s) (Hangs c s)
        (retrying c decide s) (Answered-Decided s) (Blocked-Hangs s) (retrying_lem c decide s)

io_loop_lem :
    (c : Call) (op : String) (s : Sys) → Post (Ends c op s) (Hangs c s) (retrying c (io_round op) s)
io_loop_lem c op =
    deciding_lem c (io_round op) (Tells op) (io_round-continue op) (io_round-break op)

-- `read_raw` repeats `read` only after EINTR. It returns by the first other answer: its number and
-- bytes, `Ok(None)` exactly for EAGAIN, and an error with any other code; else it waits in `read`.
pub read_raw_retries :
    (fd : Fd) (count : ℕ) (s : Sys)
    → Post
        (Ends (read (raw fd) count) "read" s)
        (Hangs (read (raw fd) count) s)
        (read_raw fd count s)
unfolding read_raw
read_raw_retries fd count s = io_loop_lem (read (raw fd) count) "read" s

-- The same of `write_raw` and `write`.
pub write_raw_retries :
    (fd : Fd) (given : List ℕ) (s : Sys)
    → Post
        (Ends (write (raw fd) given) "write" s)
        (Hangs (write (raw fd) given) s)
        (write_raw fd given s)
unfolding write_raw
write_raw_retries fd given s = io_loop_lem (write (raw fd) given) "write" s
