-- ===== src/Io/Buffer/Capture.antt =====
-- io/buffer.rs: what `read_from_fd` captures, and what its result says.
pub mod Rounds
use coreshift_lowlevel.Prelude.{
  ℕ, suc, ◌+◌, ◌-◌, ◌≤◌, ◌<◌, ◌≡◌, ◌≢◌, refl, sym, ◌∙◌, ap, subst, min, ◌⊎◌, inl, inr, List, [],
  ◌∷◌, ◌++◌, append_assoc, append-nil, ℤ, pos, Bool, true, false, Option, none, some, arith, length,
  take, drop, replicate, if◌then◌else◌, ltb, ◌==◌, eq_int, Bool-cases, length-append, length-take,
  length-drop, length-replicate, take_all, take-append_le, take-append_add, drop-append_add, ==_iff,
  ltb→lt,
}
use coreshift_lowlevel.Os.{
  IsFailure, Sys, Call, Answer, Happened, Io, pure, ◌>>=◌, Post, Post-bind, Post-mono, Post-loop,
  RoundPost, Round, continue, break, loop, IsHonest, read,
}
use coreshift_lowlevel.Os.Traces.{delivered, Grown, Grown-trans, Grown-mono, same}
use coreshift_lowlevel.Error.{SysError, Result, ok, err, syscall}
use coreshift_lowlevel.Fd.{
  Fd, raw, read_raw, read_slice, stored, store, IsSized, Tells, Newest, Newest-map, SliceRead,
  read_slice_lem, ReadEffect, ReadHangs, read_raw_lem, data_of, eagain, eintr, eq_int_refl,
}
use coreshift_lowlevel.Io.Buffer.{
  BufferState, EarlyExit, resize, exits, Read, discarded, appended, read_round, read_chunk,
  drop_chunk, read_from_fd, stream, set_stream,
}

-- The calls that `read_from_fd` makes.
abbrev pub IsRead : ℤ → Call → Type 0
IsRead fd (read g count) = g ≡ fd
IsRead fd _ = ⊥

-- The buffer holds the first `limit` bytes of all that the descriptor brought after `before`.
pub record Captured (limit : ℕ) (fd : ℤ) (before dest : List ℕ) (log : List Happened) : Type 0 where
  pub seen : List ℕ
  pub arrived : delivered fd log ≡ before ++ seen
  pub kept : dest ≡ take limit seen

-- What a result of `read_from_fd` says of the newest call or of the buffer.
abbrev pub Reports : Fd → Bool → EarlyExit → List ℕ → Result Bool → List Happened → Type 0
Reports fd is_stdout early_exit dest (ok true) log =
    ((count : ℕ) × Newest (read (raw fd) count) (λ a. a.ret ≡ pos 0) log)
    ⊎ ((older chunk : List ℕ) × (dest ≡ older ++ chunk) × (exits is_stdout early_exit chunk ≡ true))
Reports fd is_stdout early_exit dest (ok false) log =
    (count : ℕ) × Newest (read (raw fd) count) (λ a. IsFailure a.ret × (a.errno ≡ eagain)) log
Reports fd is_stdout early_exit dest (err e) log =
    (count : ℕ) × Newest (read (raw fd) count)
      (λ a.
        IsFailure a.ret
        × (a.errno ≢ eintr)
        × (a.errno ≢ eagain)
        × (e ≡ syscall (pos a.errno) "read"))
      log

module _ (limit : ℕ) (fd : Fd) (before : List ℕ) where
  -- Past the limit the bytes are dropped, and the buffer is still the first `limit` bytes.
  pub Captured-full :
      (dest more : List ℕ) (log log' : List Happened)
      → limit ≤ length dest
      → delivered (raw fd) log' ≡ delivered (raw fd) log ++ more
      → Captured limit (raw fd) before dest log
      → Captured limit (raw fd) before dest log'
  Captured-full dest more log log' full new c = record {
    seen = c.seen ++ more;
    arrived = new ∙ ap (λ t. t ++ more) c.arrived ∙ append_assoc before c.seen more;
    kept =
        c.kept
        ∙ sym (
            take-append_le limit c.seen more
              (omega (arith, ap (length {A = ℕ}) c.kept, length-take limit c.seen)));
  }

  -- Nothing new, nothing kept.
  pub Captured-same :
      (dest : List ℕ) (log log' : List Happened)
      → delivered (raw fd) log' ≡ delivered (raw fd) log ++ []
      → Captured limit (raw fd) before dest log
      → Captured limit (raw fd) before dest log'
  Captured-same dest log log' new c = record {
    seen = c.seen;
    arrived = new ∙ append-nil (delivered (raw fd) log) ∙ c.arrived;
    kept = c.kept;
  }

  -- Below it they are all kept.
  pub Captured-room :
      (dest more : List ℕ) (log log' : List Happened)
      → length dest < limit
      → length more ≤ limit - length dest
      → delivered (raw fd) log' ≡ delivered (raw fd) log ++ more
      → Captured limit (raw fd) before dest log
      → Captured limit (raw fd) before (dest ++ more) log'
  Captured-room dest more log log' room fits new c =
      let all : dest ≡ c.seen =
        c.kept
        ∙ take_all limit c.seen
            (omega (arith, ap (length {A = ℕ}) c.kept, length-take limit c.seen)) in
      record {
        seen = c.seen ++ more;
        arrived = new ∙ ap (λ t. t ++ more) c.arrived ∙ append_assoc before c.seen more;
        kept =
            ap (λ t. t ++ more) all
            ∙ sym (
                take_all limit (c.seen ++ more)
                  (omega (arith, length-append c.seen more, ap (length {A = ℕ}) all)));
      }
