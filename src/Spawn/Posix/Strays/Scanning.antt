-- ===== src/Spawn/Posix/Strays/Scanning.antt =====
-- spawn/mod.rs: the scan of the directory of descriptors asks for what it finds.
use coreshift_lowlevel.Prelude.{
  ℕ, ◌+◌, ◌≡◌, ◌<◌, refl, ap, List, [], ◌∷◌, ℤ, pos, Bool, true, false, Option, none, some,
  if◌then◌else◌, arith, length,
}
use coreshift_lowlevel.Os.{
  Call, Answer, Sys, Happened, Io, pure, ◌>>=◌, ◌>>◌, perform, loop, Round, continue, break, Post,
  Post-mono, Post-bind, Post-loop, RoundPost, Performed, Stopped, perform_lem,
  file_actions_addclose, readdir, fdopendir, closedir, close,
}
use coreshift_lowlevel.System.Exec.{Bytes}
use coreshift_lowlevel.Spawn.Posix.{stray_of, scan_round, scan_dir, is_null}
use coreshift_lowlevel.Spawn.Posix.Strays.{hit, asks, asked}

-- The scan as the handled descriptors and the directory's own make it.
module _ (n : ℕ) (handled : List ℤ) (d : ℤ) where
  abbrev pub stray_in : Option Bytes → ℕ
  stray_in none = 0
  stray_in (some name) = hit n (stray_of handled d name)

  abbrev pub dues : Call → Answer → ℕ
  dues (readdir fd) a = stray_in a.name
  dues _ a = 0

  unfoldable pub due : List Happened → ℕ
  due [] = 0
  due (h ∷ log) = dues h.call h.answer + due log

  abbrev pub Even : Sys → Sys → Type 0
  Even s s' = asked n s'.log + due s.log ≡ asked n s.log + due s'.log

  abbrev pub Free : Sys → Type 0
  Free _ = Unit

  abbrev Moved : Call → Sys → Answer → Sys → Type 0
  Moved c s a s' =
      (asked n s'.log ≡ asks n c + asked n s.log)
      × (due s'.log ≡ dues c a + due s.log)
      × (length s'.script < length s.script)

  perform-Moved : (c : Call) (s : Sys) → Post (Moved c s) Free (perform c s)
  unfolding asked due
  perform-Moved c s =
      Post-mono (Performed c s) (Moved c s) (Stopped s) Free (perform c s)
        (λ a s' p. (ap (asked n) p.log, ap due p.log, p.used)) (λ _ _. tt) (perform_lem c s)

  pub record Fair {A : Type 0} (m : Io A) : Type 0 where
    pub run : (s : Sys) → Post (λ _. Even s) Free (m s)

  Fair-pure : {A : Type 0} {a : A} → Fair (pure a)
  Fair-pure = record { run = λ s. refl }

  Fair-bind :
      {A B : Type 0} {m : Io A} {f : A → Io B} → Fair m → ((a : A) → Fair (f a)) → Fair (m >>= f)
  Fair-bind {A} {B} {m} {f} h k = record {
    run = λ s.
        Post-bind (λ _. Even s) (λ _. Even s) Free m f s (h.run s)
          (λ a s' e.
            Post-mono (λ _. Even s') (λ _. Even s) Free Free (f a s')
              (λ b s'' e'. omega (arith, e, e')) (λ _ _. tt) ((k a).run s'));
  }

  Fair-perform : (c : Call) → asks n c ≡ 0 → ((a : Answer) → dues c a ≡ 0) → Fair (perform c)
  Fair-perform c e f = record {
    run = λ s.
        Post-mono (Moved c s) (λ _. Even s) Free Free (perform c s)
          (λ a s' g. omega (arith, g.0, g.1, e, f a)) (λ _ _. tt) (perform-Moved c s);
  }

  abbrev AsDue : Sys → ℕ → Round (Unit {0}) (Unit {0}) → Sys → Type 0
  AsDue s0 k = RoundPost (λ _. Even s0) (λ _. Even s0) k

  -- What follows a name: it is due, and is asked for.
  after_name :
      (s0 s' : Sys) (k : ℕ) (o : Option ℤ)
      → asked n s'.log + due s0.log + hit n o ≡ asked n s0.log + due s'.log
      → length s'.script < k
      → Post (AsDue s0 k) Free (
          elim o as (λ _. Io (Round (Unit {0}) (Unit {0}))) [
            | none ↦ pure (continue tt)
            | some fd ↦ perform (file_actions_addclose fd) >> pure (continue tt)
          ]
            s')
  after_name s0 s' k none e lt = (omega (arith, e), lt)
  after_name s0 s' k (some fd) e lt =
      Post-bind (Moved (file_actions_addclose fd) s') (AsDue s0 k) Free
        (perform (file_actions_addclose fd)) (λ _. pure (continue tt)) s'
        (perform-Moved (file_actions_addclose fd) s')
        (λ a s'' g. (omega (arith, e, g.0, g.1), omega (arith, lt, g.2)))

  after_entry :
      (s0 s' : Sys) (k : ℕ) (o : Option Bytes)
      → asked n s'.log + due s0.log + stray_in o ≡ asked n s0.log + due s'.log
      → length s'.script < k
      → Post (AsDue s0 k) Free (
          elim o as (λ _. Io (Round (Unit {0}) (Unit {0}))) [
            | none ↦ pure (break tt)
            | some name ↦
                elim (stray_of handled d name) as (λ _. Io (Round (Unit {0}) (Unit {0}))) [
                  | none ↦ pure (continue tt)
                  | some fd ↦ perform (file_actions_addclose fd) >> pure (continue tt)
                ]
          ]
            s')
  after_entry s0 s' k none e lt = omega (arith, e)
  after_entry s0 s' k (some name) e lt = after_name s0 s' k (stray_of handled d name) e lt

  scan_round-Even :
      (s0 s : Sys) → Even s0 s → Post (AsDue s0 (length s.script)) Free (scan_round handled d tt s)
  unfolding scan_round
  scan_round-Even s0 s e =
      Post-bind (Moved (readdir d) s) (AsDue s0 (length s.script)) Free (perform (readdir d)) _ s
        (perform-Moved (readdir d) s)
        (λ a s' g. after_entry s0 s' (length s.script) a.name (omega (arith, e, g.0, g.1)) g.2)

  Fair-scan : Fair (loop (scan_round handled d) tt)
  Fair-scan = record {
    run = λ s.
        Post-loop (scan_round handled d) (λ _. Even s) (λ _. Even s) Free
          (λ _ s' e. scan_round-Even s s' e) tt s refl;
  }

module _ (n : ℕ) (handled : List ℤ) where
  pub Fair-scan_dir : (d : ℕ) → Fair n handled (pos d) (scan_dir handled (pos d))
  unfolding scan_dir
  Fair-scan_dir d =
      Fair-bind n handled (pos d)
        (Fair-perform n handled (pos d) (fdopendir (pos d)) refl (λ a. refl))
        (λ dir. go (is_null dir.ret))
    where
      go :
          (b : Bool)
          → Fair n handled (pos d) (
              if b
              then perform (close (pos d)) >> pure tt
              else loop (scan_round handled (pos d)) tt >> perform (closedir (pos d)) >> pure tt)
      go true =
          Fair-bind n handled (pos d)
            (Fair-perform n handled (pos d) (close (pos d)) refl (λ a. refl))
            (λ _. Fair-pure n handled (pos d))
      go false =
          Fair-bind n handled (pos d)
            (Fair-bind n handled (pos d) (Fair-scan n handled (pos d))
              (λ _. Fair-perform n handled (pos d) (closedir (pos d)) refl (λ a. refl)))
            (λ _. Fair-pure n handled (pos d))
