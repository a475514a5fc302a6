-- ===== src/Io/Buffer/Capture/Rounds.antt =====
-- io/buffer.rs: one round of the loop in `read_from_fd`, and the whole of it.
use coreshift_lowlevel.Prelude.{
  ℕ, ◌+◌, ◌-◌, ◌≤◌, ◌<◌, ◌≡◌, refl, sym, ◌∙◌, ap, subst, min, inl, inr, List, [], ◌∷◌, ◌++◌, pos,
  Bool, true, false, not, Option, none, some, arith, length, take, drop, replicate, if◌then◌else◌,
  ltb, ◌==◌, Bool-cases, length-append, length-drop, length-replicate, take_all, take-append_le,
  take-append_add,
}
use coreshift_lowlevel.Os.{
  Sys, Happened, Io, pure, ◌>>=◌, Post, Post-bind, Post-mono, Post-loop, RoundPost, continue, break,
  loop, IsHonest, read,
}
use coreshift_lowlevel.Os.Traces.{delivered, Grown, Grown-trans, Grown-mono, same}
use coreshift_lowlevel.Error.{Result, ok, err}
use coreshift_lowlevel.Fd.{
  Fd, raw, read_slice, stored, Tells, Newest, Newest-map, SliceRead, read_slice_lem, ReadEffect,
  ReadHangs, data_of, eq_int_refl,
}
use coreshift_lowlevel.Io.Buffer.Capture.{
  IsRead, Captured, Reports, Captured-full, Captured-room, Captured-same,
}
use coreshift_lowlevel.Io.Buffer.{
  BufferState, EarlyExit, resize, exits, Read, discarded, appended, read_round, read_chunk,
  drop_chunk, read_from_fd, stream, set_stream,
}

-- The vector while the slice behind its old length is lent out.
take-resize : (dest : List ℕ) (k : ℕ) → take (length dest) (resize (length dest + k) dest) ≡ dest
take-resize dest k =
    rw (take_all (length dest + k) dest (omega arith)) (
      take-append_le (length dest) dest _ (omega arith) ∙ take_all (length dest) dest (omega arith))

length-slice :
    (dest : List ℕ) (k : ℕ) → length (drop (length dest) (resize (length dest + k) dest)) ≡ k
length-slice dest k =
    rw (take_all (length dest + k) dest (omega arith), length-drop, length-append, length-replicate)
      (omega arith)

take-append_self : (xs ys : List ℕ) → take (length xs) (xs ++ ys) ≡ xs
take-append_self xs ys =
    take-append_le (length xs) xs ys (omega arith) ∙ take_all (length xs) xs (omega arith)

-- The new length cuts the slice down to what was stored.
take-stored :
    (dest bytes rest : List ℕ) (n : ℕ)
    → length bytes ≡ n
    → take (length dest + n) (dest ++ (bytes ++ rest)) ≡ dest ++ bytes
take-stored dest bytes rest n e =
    take-append_add n dest (bytes ++ rest)
    ∙ ap (λ t. dest ++ t)
        (subst (λ m. take m (bytes ++ rest) ≡ bytes) e (take-append_self bytes rest))

drop-append_self : (xs ys : List ℕ) → drop (length xs) (xs ++ ys) ≡ ys
drop-append_self [] ys = refl
drop-append_self (x ∷ xs) ys = drop-append_self xs ys

-- What `appended` does once the kernel has stored n bytes.
appended-some :
    (is_stdout : Bool) (early_exit : EarlyExit) (dest bytes rest : List ℕ) (n : ℕ)
    → length bytes ≡ n
    → appended is_stdout early_exit (length dest) (dest ++ (bytes ++ rest)) (ok (some n)) ≡ (
        if ltb 0 n
        then (if exits is_stdout early_exit bytes
            then break (dest ++ bytes, ok true)
            else continue (dest ++ bytes))
        else break (dest, ok true))
unfolding appended
appended-some is_stdout early_exit dest bytes rest n e = rw (
  take-stored dest bytes rest n e,
  take-append_self dest (bytes ++ rest),
  drop-append_self dest bytes,
  take_all n bytes (omega arith),
)

module _ (limit : ℕ) (fd : Fd) (is_stdout : Bool) (early_exit : EarlyExit) (before : List ℕ)
    (s₀ : Sys) where
  abbrev Going : List ℕ → Sys → Type 0
  Going dest s =
      Captured limit (raw fd) before dest s.log
      × IsHonest s.script
      × Grown (IsRead (raw fd)) s₀.log s.log
      × (length s.script ≤ length s₀.script)

  abbrev Left : List ℕ × Result Bool → Sys → Type 0
  Left (dest, r) s =
      Captured limit (raw fd) before dest s.log
      × IsHonest s.script
      × Grown (IsRead (raw fd)) s₀.log s.log
      × (length s.script < length s₀.script)
      × Reports fd is_stdout early_exit dest r s.log

  abbrev Hung : Sys → Type 0
  Hung s = Grown (IsRead (raw fd)) s₀.log s.log

  fd_arrived :
      (count : ℕ) (r : Result (Option (ℕ × List ℕ))) (w w' : Sys)
      → ReadEffect (raw fd) count w r w'
      → delivered (raw fd) w'.log ≡ delivered (raw fd) w.log ++ data_of r
  fd_arrived count r w w' e =
      e.arrived (raw fd)
      ∙ ap (λ (b : Bool). delivered (raw fd) w.log ++ (if b then data_of r else []))
          (eq_int_refl (raw fd))

  more_reads :
      (count : ℕ) (r : Result (Option (ℕ × List ℕ))) (w w' : Sys)
      → ReadEffect (raw fd) count w r w'
      → Grown (IsRead (raw fd)) s₀.log w.log
      → Grown (IsRead (raw fd)) s₀.log w'.log
  more_reads count r w w' e g = Grown-trans (IsRead (raw fd)) g (
      Grown-mono (λ c. c ≡ read (raw fd) count) (IsRead (raw fd))
        (λ c p. subst (IsRead (raw fd)) (sym p) refl) e.grown)

  -- The world after one more read that left the buffer with what is captured.
  module _ (count : ℕ) (w w' : Sys) (r : Result (Option (ℕ × List ℕ)))
      (e : ReadEffect (raw fd) count w r w') where
    keep_on :
        (old dest : List ℕ)
        → Going old w
        → Captured limit (raw fd) before dest w'.log
        → Going dest w' × (length w'.script < length w.script)
    keep_on old dest g c =
        ((c, (e.honest g.1).1, more_reads count r w w' e g.2, omega (arith, e.used)), e.used)

    leave :
        (old dest : List ℕ) (result : Result Bool)
        → Going old w
        → Captured limit (raw fd) before dest w'.log
        → Reports fd is_stdout early_exit dest result w'.log
        → Left (dest, result) w'
    leave old dest result g c p =
        (c, (e.honest g.1).1, more_reads count r w w' e g.2, omega (arith, e.used), p)

  end_of_file :
      (count n : ℕ) (bytes dest : List ℕ) (log : List Happened)
      → ltb 0 n ≡ false
      → Newest (read (raw fd) count) (Tells "read" (ok (some (n, bytes)))) log
      → Reports fd is_stdout early_exit dest (ok true) log
  end_of_file count n bytes dest log z t =
      inl (count, Newest-map _ _ (λ a h. h.0 ∙ ap pos (ground (arith, z))) t)

  discarded-round :
      (dest buf : List ℕ) (count : ℕ) (w w' : Sys) (r : Result (Option (ℕ × List ℕ)))
      → Going dest w
      → limit ≤ length dest
      → ReadEffect (raw fd) count w r w'
      → RoundPost Going Left (length w.script) (discarded dest (stored buf r).0) w'
  unfolding discarded
  discarded-round dest buf count w w' (ok (some (n, bytes))) g full e =
      let r : Result (Option (ℕ × List ℕ)) = ok (some (n, bytes)) in
      let c =
        Captured-full limit fd before dest (data_of r) w.log w'.log full (fd_arrived count r w w' e)
          g.0 in
      elim (Bool-cases (ltb 0 n)) [
        | inl more ↦ rw more (keep_on count w w' r e dest dest g c)
        | inr none_left ↦ rw none_left (
            leave count w w' r e dest dest (ok true) g c
              (end_of_file count n bytes dest w'.log none_left e.newest))
      ]
  discarded-round dest buf count w w' (ok none) g full e =
      let c =
        Captured-same limit fd before dest w.log w'.log (fd_arrived count (ok none) w w' e) g.0 in
      leave count w w' (ok none) e dest dest (ok false) g c (count, e.newest)
  discarded-round dest buf count w w' (err x) g full e =
      let c =
        Captured-same limit fd before dest w.log w'.log (fd_arrived count (err x) w w' e) g.0 in
      leave count w w' (err x) e dest dest (err x) g c (count, e.newest)

  appended-round :
      (dest buf : List ℕ) (count : ℕ) (w w' : Sys) (r : Result (Option (ℕ × List ℕ)))
      → Going dest w
      → length dest < limit
      → count ≤ limit - length dest
      → ReadEffect (raw fd) count w r w'
      → RoundPost Going Left
          (length w.script)
          (appended is_stdout early_exit (length dest) (dest ++ (stored buf r).1) (stored buf r).0)
          w'
  unfolding appended
  appended-round dest buf count w w' (ok (some (n, bytes))) g room fits e =
      let r : Result (Option (ℕ × List ℕ)) = ok (some (n, bytes)) in
      let sized : (n ≤ count) × (length bytes ≡ n) = (e.honest g.1).0 in
      let all : take n bytes ≡ bytes = take_all n bytes (omega arith) in
      let c =
        Captured-room limit fd before dest bytes w.log w'.log room (omega arith)
          (fd_arrived count r w w' e ∙ ap (λ t. delivered (raw fd) w.log ++ t) all) g.0 in
      let c₀ = λ (z : 0 ≡ n).
        Captured-same limit fd before dest w.log w'.log
          (fd_arrived count r w w' e ∙ ap (λ t. delivered (raw fd) w.log ++ take t bytes) (sym z))
          g.0 in
      rw (appended-some is_stdout early_exit dest bytes (drop (length bytes) buf) n sized.1)
        (elim (Bool-cases (ltb 0 n)) [
          | inl more ↦ elim (Bool-cases (exits is_stdout early_exit bytes)) [
            | inl early ↦
                rw (more, early)
                  (leave count w w' r e dest (dest ++ bytes) (ok true) g c
                    (inr (dest, bytes, refl, early)))
            | inr late ↦ rw (more, late) (keep_on count w w' r e dest (dest ++ bytes) g c)
          ]
          | inr none_left ↦ rw none_left (
              leave count w w' r e dest dest (ok true) g (c₀ (ground (arith, none_left)))
                (end_of_file count n bytes dest w'.log none_left e.newest))
        ])
  appended-round dest buf count w w' (ok none) g room fits e =
      let c =
        Captured-same limit fd before dest w.log w'.log (fd_arrived count (ok none) w w' e) g.0 in
      rw (take-append_self dest buf)
        (leave count w w' (ok none) e dest dest (ok false) g c (count, e.newest))
  appended-round dest buf count w w' (err x) g room fits e =
      let c =
        Captured-same limit fd before dest w.log w'.log (fd_arrived count (err x) w w' e) g.0 in
      rw (take-append_self dest buf)
        (leave count w w' (err x) e dest dest (err x) g c (count, e.newest))

  read_round_lem :
      (dest : List ℕ) (w : Sys)
      → Going dest w
      → Post
          (RoundPost Going Left (length w.script))
          Hung
          (read_round limit fd is_stdout early_exit dest w)
  unfolding read_round
  read_round_lem dest w g =
      let to_read = min (limit - length dest) read_chunk in
      let resized = resize (length dest + to_read) dest in
      elim (Bool-cases ((limit - length dest) == 0)) [
        | inl full ↦ rw full (
            after (replicate drop_chunk 0) (λ p w'. pure (discarded dest p.0) w')
              (λ w' r e.
                discarded-round dest (replicate drop_chunk 0)
                  (length {A = ℕ} (replicate drop_chunk 0)) w w' r g (ground (arith, full)) e))
        | inr room ↦ rw room (
            after (drop (length dest) resized)
              (λ p w'.
                pure
                  (appended is_stdout early_exit (length dest) (take (length dest) resized ++ p.1)
                    p.0)
                  w')
              (λ w' r e. rw (take-resize dest to_read) (
                appended-round dest (drop (length dest) resized)
                  (length (drop (length dest) resized)) w w' r g (ground (arith, room))
                  (omega (arith, length-slice dest to_read)) e)))
      ]
    where
      after :
          (buf : List ℕ) (k : Result (Option ℕ) × List ℕ → Io Read)
          → ((w' : Sys) (r : Result (Option (ℕ × List ℕ)))
              → ReadEffect (raw fd) (length buf) w r w'
              → Post (RoundPost Going Left (length w.script)) Hung (k (stored buf r) w'))
          → Post (RoundPost Going Left (length w.script)) Hung ((read_slice fd buf >>= k) w)
      after buf k h =
          Post-bind (SliceRead (raw fd) buf w) (RoundPost Going Left (length w.script)) Hung
            (read_slice fd buf) k w
            (Post-mono (SliceRead (raw fd) buf w) (SliceRead (raw fd) buf w)
              (ReadHangs (raw fd) (length buf) w) Hung (read_slice fd buf w) (λ p w' h. h)
              (λ w' h. Grown-trans (IsRead (raw fd)) g.2 (
                Grown-mono (λ c. c ≡ read (raw fd) (length buf)) (IsRead (raw fd))
                  (λ c p. subst (IsRead (raw fd)) (sym p) refl) h.grown))
              (read_slice_lem fd buf w))
            (λ p w' h'.
              subst (λ q. Post (RoundPost Going Left (length w.script)) Hung (k q w'))
                (sym h'.slice) (h w' h'.result h'.effect))

-- How `read_from_fd` leaves the buffers and the world.
pub record ReadOut (b : BufferState) (fd : Fd) (is_stdout : Bool) (early_exit : EarlyExit)
    (before : List ℕ) (s : Sys) (out : BufferState × Result Bool) (s' : Sys) : Type 0 where
  pub captured : Captured b.limit (raw fd) before (stream is_stdout out.0) s'.log
  pub other : stream (not is_stdout) out.0 ≡ stream (not is_stdout) b
  pub limit : out.0.limit ≡ b.limit
  pub reports : Reports fd is_stdout early_exit (stream is_stdout out.0) out.1 s'.log
  pub grown : Grown (IsRead (raw fd)) s.log s'.log
  pub used : length s'.script < length s.script
  pub honest : IsHonest s'.script

Left-ReadOut :
    (b : BufferState) (fd : Fd) (is_stdout : Bool) (early_exit : EarlyExit) (before : List ℕ)
    (s : Sys) (p : List ℕ × Result Bool) (s' : Sys)
    → Left b.limit fd is_stdout early_exit before s p s'
    → ReadOut b fd is_stdout early_exit before s (set_stream is_stdout p.0 b, p.1) s'
Left-ReadOut b fd true early_exit before s p s' l = record {
  captured = l.0;
  other = refl;
  limit = refl;
  reports = l.4;
  grown = l.2;
  used = l.3;
  honest = l.1;
}
Left-ReadOut b fd false early_exit before s p s' l = record {
  captured = l.0;
  other = refl;
  limit = refl;
  reports = l.4;
  grown = l.2;
  used = l.3;
  honest = l.1;
}

-- When reading a stream of a process returns, its buffer is the first `limit` bytes of all that the
-- descriptor brought, the other buffer and the limit are untouched, and the result tells why the loop
-- was left: `Ok(true)` at the end of the stream or by the callback, `Ok(false)` at EAGAIN, `Err` by any
-- other error. It returns or waits in a call, and has only read from the descriptor. The kernel is
-- honest, and the buffer was such a start before.
pub read_from_fd_captures :
    (b : BufferState) (fd : Fd) (is_stdout : Bool) (early_exit : EarlyExit) (before : List ℕ)
    (s : Sys)
    → Captured b.limit (raw fd) before (stream is_stdout b) s.log
    → IsHonest s.script
    → Post
        (ReadOut b fd is_stdout early_exit before s)
        (λ s'. Grown (IsRead (raw fd)) s.log s'.log)
        (read_from_fd b fd is_stdout early_exit s)
unfolding read_from_fd
read_from_fd_captures b fd is_stdout early_exit before s c h =
    Post-bind (Left b.limit fd is_stdout early_exit before s)
      (ReadOut b fd is_stdout early_exit before s) (Hung b.limit fd is_stdout early_exit before s)
      (loop (read_round b.limit fd is_stdout early_exit) (stream is_stdout b))
      (λ p. pure (set_stream is_stdout p.0 b, p.1)) s
      (Post-loop (read_round b.limit fd is_stdout early_exit)
        (Going b.limit fd is_stdout early_exit before s)
        (Left b.limit fd is_stdout early_exit before s)
        (Hung b.limit fd is_stdout early_exit before s)
        (read_round_lem b.limit fd is_stdout early_exit before s) (stream is_stdout b) s
        (c, h, same, omega arith))
      (λ p s' l. Left-ReadOut b fd is_stdout early_exit before s p s' l)
