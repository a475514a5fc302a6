-- ===== src/System/Readahead/Range.antt =====
-- sys/mod.rs: what `readahead` asks of the kernel, and what it refuses.
use coreshift_lowlevel.Prelude.{
  ℕ, ◌≤◌, ◌<◌, ◌≡◌, ◌≢◌, refl, sym, subst, ◌⊎◌, inl, inr, min, ℤ, pos, minus_one, eq_int,
  eq_int_iff, true, false, Bool-cases, ltb, ltb→lt, ◌==◌, ==_iff, arith,
}
use coreshift_lowlevel.Os.{IsFailure, Answer, Sys, Post, returned, continue, break, readahead}
use coreshift_lowlevel.Error.{Result, ok, err, syscall}
use coreshift_lowlevel.Fd.{Decided, Hangs, IsInterrupted, deciding_lem, eintr, einval}
use coreshift_lowlevel.System.Readahead.{off64_max, uint_max, readahead_round, readahead_raw}

-- What a result says of the answer that it was made from.
abbrev pub RangeTells : Result (Unit {0}) → Answer → Type 0
RangeTells (ok _) a = a.ret ≢ minus_one
RangeTells (err e) a =
    (a.ret ≡ minus_one) × (a.errno ≢ eintr) × (e ≡ syscall (pos a.errno) "readahead")

readahead_round-continue : (a : Answer) → readahead_round a a.errno ≡ continue tt → IsInterrupted a
unfolding readahead_round
readahead_round-continue a h = elim (Bool-cases (eq_int a.ret minus_one)) [
  | inr fine ↦ absurd (cc)
  | inl failed ↦ elim (Bool-cases (a.errno == eintr)) [
    | inl again ↦ (
      subst IsFailure (sym ((eq_int_iff a.ret minus_one).0 failed)) tt,
      (==_iff a.errno eintr).0 again,
    )
    | inr other ↦ absurd (cc)
  ]
]

readahead_round-break :
    (a : Answer) (r : Result (Unit {0})) → readahead_round a a.errno ≡ break r → RangeTells r a
unfolding readahead_round
readahead_round-break a r h =
    go (Bool-cases (eq_int a.ret minus_one)) (Bool-cases (a.errno == eintr)) r h
  where
    go :
        (eq_int a.ret minus_one ≡ true) ⊎ (eq_int a.ret minus_one ≡ false)
        → (a.errno == eintr ≡ true) ⊎ (a.errno == eintr ≡ false)
        → (r : Result (Unit {0})) → readahead_round a a.errno ≡ break r
        → RangeTells r a
    go t u r h = ground arith

-- `readahead_raw` refuses an offset that is no `off64_t` with EINVAL, and makes no call. For any other offset
-- it asks for the bytes there, but for at most 2^32 - 1, repeats the call only after EINTR, and returns
-- by the first other answer: `Ok`, or an error with the code of a failure; else it waits in the call.
pub readahead_raw_bounds :
    (fd : ℤ) (offset len : ℕ) (s : Sys)
    → ((off64_max < offset)
        × (readahead_raw fd offset len s ≡ returned (err (syscall (pos einval) "readahead")) s))
      ⊎ ((offset ≤ off64_max)
          × Post
              (Decided (readahead fd offset (min len uint_max)) RangeTells s)
              (Hangs (readahead fd offset (min len uint_max)) s)
              (readahead_raw fd offset len s))
unfolding readahead_raw
readahead_raw_bounds fd offset len s = elim (Bool-cases (ltb off64_max offset)) [
  | inl big ↦ inl (ltb→lt off64_max offset big, rw big refl)
  | inr fits ↦ inr (
    ground (arith, fits),
    rw fits (
        deciding_lem (readahead fd offset (min len uint_max)) readahead_round RangeTells
          readahead_round-continue readahead_round-break s),
  )
]
