-- ===== src/Io/Writer/Progress.antt =====
-- io/writer.rs: what `write_to_fd` has sent, and what its result says.
use coreshift_lowlevel.Prelude.{
  ℕ, ◌+◌, ◌-◌, ◌≤◌, ◌≡◌, ◌≢◌, refl, sym, ◌∙◌, ap, subst, min, ◌⊎◌, inl, inr, List, [], ◌++◌,
  append_assoc, append-nil, ℤ, pos, Bool, true, false, Option, none, some, arith, length, take,
  drop, if◌then◌else◌, ltb, eq_int, ==_iff, Bool-cases, length-take, take-add, take-take_le,
}
use coreshift_lowlevel.Os.{
  IsFailure, Sys, Call, Answer, Happened, pure, Post, Post-bind, Post-mono, Post-loop, RoundPost,
  IsHonest, write,
}
use coreshift_lowlevel.Os.Traces.{sent, Grown, Grown-trans, Grown-mono, same}
use coreshift_lowlevel.Error.{SysError, Result, ok, err, syscall, code_of}
use coreshift_lowlevel.Fd.{
  Fd, raw, write_slice, stored, Tells, Newest, Newest-map, WriteEffect, WriteHangs, SliceWritten,
  write_slice_lem, count_of, eagain, eintr, epipe, eq_int_refl,
}
use coreshift_lowlevel.Io.Writer.{WriterState, written, write_round, write_chunk, write_to_fd}

-- The calls that `write_to_fd` makes.
abbrev pub IsWrite : ℤ → Call → Type 0
IsWrite fd (write g given) = g ≡ fd
IsWrite fd _ = ⊥

-- The newest call was a write to this descriptor.
abbrev pub NewestWrite : Fd → (Answer → Type 0) → List Happened → Type 0
NewestWrite fd P log = (given : List ℕ) × Newest (write (raw fd) given) P log

-- Exactly the first `off` bytes of the buffer went to the descriptor after `before`.
pub record Progress (fd : ℤ) (before buf : List ℕ) (off : ℕ) (log : List Happened) : Type 0 where
  pub went : sent fd log ≡ before ++ take off buf
  pub within : off ≤ length buf

-- What a result of `write_to_fd` says of the writer and of the newest call.
abbrev pub Reports : Fd → List ℕ → WriterState → Result Bool → List Happened → Type 0
Reports fd buf w (ok true) log =
    (w.buf ≡ none)
    × ((w.off ≡ length buf)
        ⊎ (NewestWrite fd (λ a. a.ret ≡ pos 0) log)
        ⊎ (NewestWrite fd (λ a. IsFailure a.ret × (a.errno ≡ epipe)) log))
Reports fd buf w (ok false) log =
    (w.buf ≡ some buf) × NewestWrite fd (λ a. IsFailure a.ret × (a.errno ≡ eagain)) log
Reports fd buf w (err e) log =
    (w.buf ≡ none)
    × NewestWrite fd
        (λ a.
          IsFailure a.ret
          × (a.errno ≢ eintr)
          × (a.errno ≢ eagain)
          × (a.errno ≢ epipe)
          × (e ≡ syscall (pos a.errno) "write"))
        log

-- Sending the next bytes of the buffer.
Progress-more :
    (fd : ℤ) (before buf : List ℕ) (off n k : ℕ) (log log' : List Happened)
    → n ≤ k
    → k ≤ length buf - off
    → sent fd log' ≡ sent fd log ++ take n (take k (drop off buf))
    → Progress fd before buf off log
    → Progress fd before buf (off + n) log'
Progress-more fd before buf off n k log log' le room new p = record {
  went =
      new
      ∙ ap (λ t. t ++ take n (take k (drop off buf))) p.went
      ∙ append_assoc before (take off buf) (take n (take k (drop off buf)))
      ∙ ap (λ t. before ++ (take off buf ++ t)) (take-take_le n k (drop off buf) le)
      ∙ ap (λ t. before ++ t) (sym (take-add off n buf));
  within = omega (arith, p.within);
}

Progress-same :
    (fd : ℤ) (before buf : List ℕ) (off : ℕ) (log log' : List Happened)
    → sent fd log' ≡ sent fd log ++ []
    → Progress fd before buf off log
    → Progress fd before buf off log'
Progress-same fd before buf off log log' new p = record {
  went = new ∙ append-nil (sent fd log) ∙ p.went;
  within = p.within;
}

-- The comparison with EPIPE reads the code that `write` left in `errno`.
broken_pipe :
    (x : SysError) (a : Answer)
    → Tells "write" (err x) a
    → eq_int (code_of x) (pos epipe) ≡ true
    → a.errno ≡ epipe
broken_pipe x a h e =
    (==_iff a.errno epipe).0 (subst (λ y. eq_int (code_of y) (pos epipe) ≡ true) h.3 e)

other_error :
    (x : SysError) (a : Answer)
    → Tells "write" (err x) a
    → eq_int (code_of x) (pos epipe) ≡ false
    → a.errno ≢ epipe
other_error x a h e alike = cc (
    sym ((==_iff a.errno epipe).1 alike)
    ∙ subst (λ y. eq_int (code_of y) (pos epipe) ≡ false) h.3 e)

module _ (fd : Fd) (before buf : List ℕ) (from : ℕ) (s₀ : Sys) where
  abbrev Going : ℕ → Sys → Type 0
  Going off s =
      Progress (raw fd) before buf off s.log
      × IsHonest s.script
      × Grown (IsWrite (raw fd)) s₀.log s.log
      × (from ≤ off)
      × (length s.script ≤ length s₀.script)

  -- How `write_to_fd` leaves the writer and the world.
  pub record WrittenOut (out : WriterState × Result Bool) (s : Sys) : Type 0 where
    pub progress : Progress (raw fd) before buf out.0.off s.log
    pub honest : IsHonest s.script
    pub grown : Grown (IsWrite (raw fd)) s₀.log s.log
    pub forward : from ≤ out.0.off
    pub used : length s.script ≤ length s₀.script
    pub reports : Reports fd buf out.0 out.1 s.log

  -- While a write hangs, what went is still a start of the buffer, no shorter than before.
  abbrev pub Hung : Sys → Type 0
  Hung s =
      Grown (IsWrite (raw fd)) s₀.log s.log
      × ((off : ℕ) × Progress (raw fd) before buf off s.log × (from ≤ off))

  more_writes :
      (given : List ℕ) (w w' : Sys)
      → Grown (λ c. c ≡ write (raw fd) given) w.log w'.log
      → Grown (IsWrite (raw fd)) s₀.log w.log
      → Grown (IsWrite (raw fd)) s₀.log w'.log
  more_writes given w w' e g = Grown-trans (IsWrite (raw fd)) g (
      Grown-mono (λ c. c ≡ write (raw fd) given) (IsWrite (raw fd))
        (λ c p. subst (IsWrite (raw fd)) (sym p) refl) e)

  fd_went :
      (given : List ℕ) (r : Result (Option (ℕ × List ℕ))) (w w' : Sys)
      → WriteEffect (raw fd) given w r w'
      → sent (raw fd) w'.log ≡ sent (raw fd) w.log ++ take (count_of r) given
  fd_went given r w w' e =
      e.went (raw fd)
      ∙ ap (λ (b : Bool). sent (raw fd) w.log ++ (if b then take (count_of r) given else []))
          (eq_int_refl (raw fd))

  -- The writer after one more write, with the loop left.
  leave :
      (given : List ℕ) (w w' : Sys) (r : Result (Option (ℕ × List ℕ))) (off : ℕ)
      → Going off w
      → WriteEffect (raw fd) given w r w'
      → Progress (raw fd) before buf off w'.log
      → (left : Option (List ℕ)) (result : Result Bool)
      → Reports fd buf (record { buf = left; off = off }) result w'.log
      → WrittenOut (record { buf = left; off = off }, result) w'
  leave given w w' r off g e p left result rep = record {
    progress = p;
    honest = (e.honest g.1).1;
    grown = more_writes given w w' e.grown g.2;
    forward = g.3;
    used = omega (arith, e.used, g.4);
    reports = rep;
  }

  written-round :
      (off k : ℕ) (w w' : Sys) (r : Result (Option (ℕ × List ℕ)))
      → Going off w
      → k ≤ length buf - off
      → WriteEffect (raw fd) (take k (drop off buf)) w r w'
      → RoundPost Going WrittenOut (length w.script) (written buf off (stored [] r).0) w'
  unfolding written
  written-round off k w w' (ok (some (n, bytes))) g room e =
      let given = take k (drop off buf) in
      let few : n ≤ length given = (e.honest g.1).0 in
      let p =
        Progress-more (raw fd) before buf off n k w.log w'.log
          (omega (arith, length-take k (drop off buf))) room
          (fd_went given (ok (some (n, bytes))) w w' e) g.0 in
      elim (Bool-cases (ltb 0 n)) [
        | inl more ↦ rw more (
          (
            p,
            (e.honest g.1).1,
            more_writes given w w' e.grown g.2,
            omega arith,
            omega (arith, e.used),
          ),
          e.used,
        )
        | inr nothing ↦ rw nothing (
            let z : 0 ≡ n = ground (arith, nothing) in
            leave given w w' (ok (some (n, bytes))) off g e
              (Progress-same (raw fd) before buf off w.log w'.log
                (fd_went given (ok (some (n, bytes))) w w' e
                  ∙ ap (λ t. sent (raw fd) w.log ++ take t given) (sym z))
                g.0)
              none (ok true)
              (refl, inr (inl (given, Newest-map _ _ (λ a h. h.0 ∙ ap pos (sym z)) e.newest))))
      ]
  written-round off k w w' (ok none) g room e =
      let given = take k (drop off buf) in
      leave given w w' (ok none) off g e
        (Progress-same (raw fd) before buf off w.log w'.log (fd_went given (ok none) w w' e) g.0)
        (some buf) (ok false) (refl, (given, e.newest))
  written-round off k w w' (err x) g room e =
      let given = take k (drop off buf) in
      let p =
        Progress-same (raw fd) before buf off w.log w'.log (fd_went given (err x) w w' e) g.0 in
      elim (Bool-cases (eq_int (code_of x) (pos epipe))) [
        | inl broken ↦ rw broken (
            leave given w w' (err x) off g e p none (ok true) (
              refl,
              inr (inr (given, Newest-map _ _ (λ a h. (h.0, broken_pipe x a h broken)) e.newest)),
            ))
        | inr other ↦ rw other (
            leave given w w' (err x) off g e p none (err x) (
              refl,
              (
                given,
                Newest-map _ _ (λ a h. (h.0, h.1, h.2, other_error x a h other, h.3)) e.newest,
              ),
            ))
      ]

  write_round_lem :
      (off : ℕ) (w : Sys)
      → Going off w
      → Post (RoundPost Going WrittenOut (length w.script)) Hung (write_round fd buf off w)
  unfolding write_round
  write_round_lem off w g =
      let k = min (length buf - off) write_chunk in
      let given = take k (drop off buf) in
      elim (Bool-cases (ltb off (length buf))) [
        | inl more ↦ rw more (
            Post-bind (SliceWritten (raw fd) given w) (RoundPost Going WrittenOut (length w.script))
              Hung (write_slice fd given) (λ r. pure (written buf off r)) w
              (Post-mono (SliceWritten (raw fd) given w) (SliceWritten (raw fd) given w)
                (WriteHangs (raw fd) given w) Hung (write_slice fd given w) (λ p w' h. h)
                (λ w' h. (
                  more_writes given w w' h.grown g.2,
                  (off, record { went = h.went (raw fd) ∙ g.0.went; within = g.0.within }, g.3),
                ))
                (write_slice_lem fd given w))
              (λ p w' h.
                subst (λ q. RoundPost Going WrittenOut (length w.script) (written buf off q) w')
                  (sym h.counted_as) (written-round off k w w' h.result g (omega arith) h.effect)))
        | inr done ↦ rw done (record {
          progress = g.0;
          honest = g.1;
          grown = g.2;
          forward = g.3;
          used = g.4;
          reports = (refl, inl (ground (arith, done, g.0.within)));
        })
      ]

-- Writing to the input of a process: when it returns, what went to the descriptor is exactly the
-- first `off` bytes of the buffer, in order and without repetition, and `off` has not gone back.
-- `Ok(true)` means that the whole buffer was sent, or `write` took nothing, or the pipe is broken,
-- and the buffer is released; `Ok(false)` is EAGAIN and keeps the buffer; any other error is returned
-- and releases it. It returns or waits in a call, and then a start of the buffer went, no shorter
-- than at first. The kernel is honest.
pub write_to_fd_sends :
    (w : WriterState) (buf : List ℕ) (fd : Fd) (before : List ℕ) (s : Sys)
    → w.buf ≡ some buf
    → Progress (raw fd) before buf w.off s.log
    → IsHonest s.script
    → Post (WrittenOut fd before buf w.off s) (Hung fd before buf w.off s) (write_to_fd w fd s)
unfolding write_to_fd
write_to_fd_sends w buf fd before s e p h =
    rw (e, write_to_fd)
      (Post-loop (write_round fd buf) (Going fd before buf w.off s)
        (WrittenOut fd before buf w.off s) (Hung fd before buf w.off s)
        (write_round_lem fd before buf w.off s) w.off s (p, h, same, omega arith, omega arith))
