-- ===== src/Spawn/Posix/Strays/Asked.antt =====
-- spawn/mod.rs: what the scan of the directory of descriptors finds.
use coreshift_lowlevel.Prelude.{
  ℕ, ◌⊎◌, ◌+◌, ◌≡◌, subst, refl, sym, ◌∙◌, ap, List, [], ◌∷◌, ◌++◌, ℤ, pos, negsuc, Bool, true,
  false, Option, none, some, ◌||◌, ◌==◌, eq_int, if◌then◌else◌, arith, Bool-cases, inl, inr,
}
use coreshift_lowlevel.Os.{Call, Answer, Sys, Happened, Post, Post-mono, Post-both, readdir}
use coreshift_lowlevel.Fd.{Fd}
use coreshift_lowlevel.Text.{parse_i32}
use coreshift_lowlevel.System.Exec.{Bytes}
use coreshift_lowlevel.Spawn.Pipes.{Pipes}
use coreshift_lowlevel.Spawn.Posix.{
  push_raw, handled_fds, contains_fd, is_stray, stray_of, scan_dir,
}
use coreshift_lowlevel.Spawn.Posix.Strays.{
  hit, names, lists, asked, listed, is_opt, is_left_over, if_so,
}
use coreshift_lowlevel.Spawn.Posix.Strays.Scanning.{stray_in, dues, due, Even, Fair-scan_dir}
use coreshift_lowlevel.Spawn.Posix.Strays.Ended.{ReadOut, Unopened, scan_dir_ends}

if_so_none : (b : Bool) → if_so b 0 ≡ 0
if_so_none true = refl
if_so_none false = refl

-- The number that a name was read as is handed on where it is stray.
module _ (n : ℕ) (handled : List ℤ) (d : ℤ) where
  hit_kept :
      (m : ℕ) (b c : Bool)
      → is_stray handled d (pos m) ≡ b
      → (m == n) ≡ c
      → hit n (if b then some (pos m) else none)
        ≡ if_so (is_stray handled d (pos n)) (if c then 1 else 0)
  hit_kept m true true e h =
      let m_is : m ≡ n = ground arith in
      let stray : is_stray handled d (pos n) ≡ true =
        subst (λ k. is_stray handled d (pos k) ≡ true) m_is e in
      rw (h, stray) refl
  hit_kept m false true e h =
      let m_is : m ≡ n = ground arith in
      let stray : is_stray handled d (pos n) ≡ false =
        subst (λ k. is_stray handled d (pos k) ≡ false) m_is e in
      rw stray refl
  hit_kept m true false e h = rw h (sym (if_so_none _))
  hit_kept m false false e h = sym (if_so_none _)

  hit_negative :
      (m : ℕ)
      → hit n (if is_stray handled d (negsuc m) then some (negsuc m) else none)
        ≡ if_so (is_stray handled d (pos n)) 0
  unfolding is_stray
  hit_negative m = sym (if_so_none _)

  hit-parsed :
      (o : Option ℤ)
      → hit n (elim o as (λ _. Option ℤ) [
        | none ↦ none
        | some fd ↦ if is_stray handled d fd then some fd else none
      ])
        ≡ if_so (is_stray handled d (pos n)) (hit n o)
  hit-parsed none = sym (if_so_none _)
  hit-parsed (some (negsuc m)) = hit_negative m
  hit-parsed (some (pos m)) = hit_kept m (is_stray handled d (pos m)) (m == n) refl refl

  stray_in-names :
      (o : Option Bytes) → stray_in n handled d o ≡ if_so (is_stray handled d (pos n)) (names n o)
  unfolding stray_of
  stray_in-names none = sym (if_so_none _)
  stray_in-names (some name) = hit-parsed (parse_i32 name)

  dues-lists :
      (c : Call) (a : Answer)
      → dues n handled d c a ≡ if_so (is_stray handled d (pos n)) (lists n c a)
  dues-lists (readdir fd) a = stray_in-names a.name
  dues-lists _ a = sym (if_so_none _)

  if_so_sum : (b : Bool) (i j : ℕ) → if_so b i + if_so b j ≡ if_so b (i + j)
  if_so_sum true i j = refl
  if_so_sum false i j = refl

  due-listed :
      (log : List Happened)
      → due n handled d log ≡ if_so (is_stray handled d (pos n)) (listed n log)
  unfolding due listed
  due-listed [] = sym (if_so_none _)
  due-listed (h ∷ log) =
      let e = dues-lists h.call h.answer in
      let rest = due-listed log in
      let s = if_so_sum (is_stray handled d (pos n)) (lists n h.call h.answer) (listed n log) in
      omega (arith, e, rest, s)

contains_fd-snoc :
    (fds : List ℤ) (g fd : ℤ)
    → contains_fd (fds ++ (g ∷ [])) fd ≡ (contains_fd fds fd || eq_int g fd)
unfolding contains_fd
contains_fd-snoc [] g fd = elim (Bool-cases (eq_int g fd)) [ inl t ↦ rw t refl | inr f ↦ rw f refl ]
contains_fd-snoc (x ∷ fds) g fd = elim (Bool-cases (eq_int x fd)) [
  | inl t ↦ rw t refl
  | inr f ↦ rw f (contains_fd-snoc fds g fd)
]

contains_fd-push_raw :
    (fds : List ℤ) (o : Option Fd) (fd : ℤ)
    → contains_fd (push_raw fds o) fd ≡ (contains_fd fds fd || is_opt fd o)
contains_fd-push_raw fds none fd = elim (Bool-cases (contains_fd fds fd)) [
  | inl t ↦ rw t refl
  | inr f ↦ rw f refl
]
contains_fd-push_raw fds (some g) fd = contains_fd-snoc fds g.raw_fd fd

is_stray-handled_fds :
    (n d : ℕ) (p : Pipes) → is_stray (handled_fds p) (pos d) (pos n) ≡ is_left_over n d p
unfolding is_stray handled_fds contains_fd
is_stray-handled_fds n d p =
    rw
      (
        contains_fd-push_raw _ p.stderr_w (pos n),
        contains_fd-push_raw _ p.stderr_r (pos n),
        contains_fd-push_raw _ p.stdout_w (pos n),
        contains_fd-push_raw _ p.stdout_r (pos n),
        contains_fd-push_raw _ p.stdin_w (pos n),
        contains_fd-push_raw [] p.stdin_r (pos n),
      )
      refl

-- Where the scan of the directory of descriptors d returns, it has read the directory until there was
-- no further entry and closed it, or `fdopendir` made no stream of d, which was closed. It asked for a
-- descriptor n to be closed in the process as often as an entry named n, where n is above 2, is not d
-- and is no end of a pipe, and not at all otherwise. It returns, ends with its process or waits in a
-- call.
pub scan_dir_asks :
    (p : Pipes) (d n : ℕ) (s : Sys)
    → Post
        (λ _ s'.
          (ReadOut d s'.log ⊎ Unopened d s'.log)
          × (asked n s'.log + if_so (is_left_over n d p) (listed n s.log)
              ≡ asked n s.log + if_so (is_left_over n d p) (listed n s'.log)))
        (λ _. Unit)
        (scan_dir (handled_fds p) (pos d) s)
scan_dir_asks p d n s =
    Post-mono (λ _ s'. (ReadOut d s'.log ⊎ Unopened d s'.log) × Even n (handled_fds p) (pos d) s s')
      _ (λ _. Unit × Unit) (λ _. Unit) (scan_dir (handled_fds p) (pos d) s)
      (λ _ s' e. (e.0, counted s' e.1)) (λ _ _. tt)
      (Post-both _ _ _ _ (scan_dir (handled_fds p) (pos d) s) (scan_dir_ends (handled_fds p) d s)
        ((Fair-scan_dir n (handled_fds p) d).run s))
  where
    told :
        (log : List Happened)
        → due n (handled_fds p) (pos d) log ≡ if_so (is_left_over n d p) (listed n log)
    told log =
        due-listed n (handled_fds p) (pos d) log
        ∙ ap (λ b. if_so b (listed n log)) (is_stray-handled_fds n d p)

    counted :
        (s' : Sys)
        → Even n (handled_fds p) (pos d) s s'
        → asked n s'.log + if_so (is_left_over n d p) (listed n s.log)
          ≡ asked n s.log + if_so (is_left_over n d p) (listed n s'.log)
    counted s' e = omega (arith, e, told s.log, told s'.log)
