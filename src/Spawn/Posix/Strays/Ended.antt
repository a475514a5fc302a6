-- ===== src/Spawn/Posix/Strays/Ended.antt =====
-- spawn/mod.rs: the scan of the directory of descriptors goes on to the end of the directory.
use coreshift_lowlevel.Prelude.{
  ℕ, ◌≡◌, ◌<◌, ◌⊎◌, refl, ◌∙◌, ap, arith, List, ◌∷◌, ℤ, pos, Bool, true, false, Option, none, some,
  inl, inr, eq_int_iff, if◌then◌else◌, length,
}
use coreshift_lowlevel.Os.{
  Call, Answer, Sys, Happened, Io, pure, ◌>>◌, perform, loop, Round, continue, break, Post,
  Post-mono, Post-bind, Post-loop, RoundPost, Performed, Stopped, perform_lem,
  file_actions_addclose, readdir, fdopendir, closedir, close,
}
use coreshift_lowlevel.Fd.{Newest}
use coreshift_lowlevel.System.Exec.{Bytes}
use coreshift_lowlevel.Spawn.Posix.{stray_of, scan_round, scan_dir, is_null}

abbrev pub called : Call → Answer → Happened
called c a = record { call = c; answer = a }

-- The directory d was closed just after an entry was asked for and there was none.
pub record ReadOut (d : ℕ) (log : List Happened) : Type 0 where
  pub closing : Answer
  pub last : Answer
  pub older : List Happened
  pub newest : log ≡ called (closedir (pos d)) closing ∷ called (readdir (pos d)) last ∷ older
  pub no_entry : last.name ≡ none

-- No stream was made of the descriptor d, which was closed.
pub record Unopened (d : ℕ) (log : List Happened) : Type 0 where
  pub closing : Answer
  pub refused : Answer
  pub older : List Happened
  pub newest : log ≡ called (close (pos d)) closing ∷ called (fdopendir (pos d)) refused ∷ older
  pub is_refused : refused.ret ≡ pos 0

abbrev Free : Sys → Type 0
Free _ = Unit

performs : (c : Call) (s : Sys) → Post (Performed c s) Free (perform c s)
performs c s =
    Post-mono (Performed c s) (Performed c s) (Stopped s) Free (perform c s) (λ _ _ p. p)
      (λ _ _. tt) (perform_lem c s)

module _ (handled : List ℤ) (d : ℤ) where
  abbrev NoEntry : Unit {0} → Sys → Type 0
  NoEntry _ s = Newest (readdir d) (λ a. a.name ≡ none) s.log

  abbrev Turned : ℕ → Round (Unit {0}) (Unit {0}) → Sys → Type 0
  Turned k = RoundPost (λ _. Free) NoEntry k

  after_name :
      (s : Sys) (k : ℕ) (o : Option ℤ)
      → length s.script < k
      → Post (Turned k) Free (
          elim o as (λ _. Io (Round (Unit {0}) (Unit {0}))) [
            | none ↦ pure (continue tt)
            | some fd ↦ perform (file_actions_addclose fd) >> pure (continue tt)
          ]
            s)
  after_name s k none lt = (tt, lt)
  after_name s k (some fd) lt =
      Post-bind (Performed (file_actions_addclose fd) s) (Turned k) Free
        (perform (file_actions_addclose fd)) (λ _. pure (continue tt)) s
        (performs (file_actions_addclose fd) s) (λ a s' p. (tt, omega (arith, lt, p.used)))

  after_entry :
      (s s' : Sys) (a : Answer) (o : Option Bytes)
      → a.name ≡ o
      → Performed (readdir d) s a s'
      → Post (Turned (length s.script)) Free (
          elim o as (λ _. Io (Round (Unit {0}) (Unit {0}))) [
            | none ↦ pure (break tt)
            | some name ↦
                elim (stray_of handled d name) as (λ _. Io (Round (Unit {0}) (Unit {0}))) [
                  | none ↦ pure (continue tt)
                  | some fd ↦ perform (file_actions_addclose fd) >> pure (continue tt)
                ]
          ]
            s')
  after_entry s s' a none e p = record { answer = a; older = s.log; newest = p.log; holds = e }
  after_entry s s' a (some name) e p =
      after_name s' (length s.script) (stray_of handled d name) p.used

  scan_round_ends : (s : Sys) → Post (Turned (length s.script)) Free (scan_round handled d tt s)
  unfolding scan_round
  scan_round_ends s =
      Post-bind (Performed (readdir d) s) (Turned (length s.script)) Free (perform (readdir d)) _ s
        (performs (readdir d) s) (λ a s' p. after_entry s s' a a.name refl p)

  scan_ends : (s : Sys) → Post NoEntry Free (loop (scan_round handled d) tt s)
  scan_ends s =
      Post-loop (scan_round handled d) (λ _. Free) NoEntry Free (λ _ s' _. scan_round_ends s') tt s
        tt

module _ (handled : List ℤ) (d : ℕ) where
  abbrev Over : Unit {0} → Sys → Type 0
  Over _ s = ReadOut d s.log ⊎ Unopened d s.log

  read_out :
      (s s' : Sys) (a : Answer)
      → Newest (readdir (pos d)) (λ a. a.name ≡ none) s.log
      → Performed (closedir (pos d)) s a s'
      → ReadOut d s'.log
  read_out s s' a n p = record {
    closing = a;
    last = n.answer;
    older = n.older;
    newest = p.log ∙ ap (λ l. called (closedir (pos d)) a ∷ l) n.newest;
    no_entry = n.holds;
  }

  unopened :
      (s s' s'' : Sys) (b a : Answer)
      → Performed (fdopendir (pos d)) s b s'
      → is_null b.ret ≡ true
      → Performed (close (pos d)) s' a s''
      → Unopened d s''.log
  unopened s s' s'' b a q e p = record {
    closing = a;
    refused = b;
    older = s.log;
    newest = p.log ∙ ap (λ l. called (close (pos d)) a ∷ l) q.log;
    is_refused = (eq_int_iff b.ret (pos 0)).0 e;
  }

  after_open :
      (s s' : Sys) (b : Answer) (null : Bool)
      → is_null b.ret ≡ null
      → Performed (fdopendir (pos d)) s b s'
      → Post Over Free (
          (if null
              then perform (close (pos d)) >> pure tt
              else loop (scan_round handled (pos d)) tt >> perform (closedir (pos d)) >> pure tt)
            s')
  after_open s s' b true e q =
      Post-bind (Performed (close (pos d)) s') Over Free (perform (close (pos d))) (λ _. pure tt) s'
        (performs (close (pos d)) s') (λ a s'' p. inr (unopened s s' s'' b a q e p))
  after_open s s' b false e q =
      Post-bind (λ _ w. ReadOut d w.log) Over Free
        (loop (scan_round handled (pos d)) tt >> perform (closedir (pos d))) (λ _. pure tt) s'
        (Post-bind (NoEntry handled (pos d)) (λ _ w. ReadOut d w.log) Free
          (loop (scan_round handled (pos d)) tt) (λ _. perform (closedir (pos d))) s'
          (scan_ends handled (pos d) s')
          (λ _ w n.
            Post-mono (Performed (closedir (pos d)) w) (λ _ w'. ReadOut d w'.log) Free Free
              (perform (closedir (pos d)) w) (λ a w' p. read_out w w' a n p) (λ _ _. tt)
              (performs (closedir (pos d)) w)))
        (λ _ w r. inl r)

  pub scan_dir_ends : (s : Sys) → Post Over Free (scan_dir handled (pos d) s)
  unfolding scan_dir
  scan_dir_ends s =
      Post-bind (Performed (fdopendir (pos d)) s) Over Free (perform (fdopendir (pos d))) _ s
        (performs (fdopendir (pos d)) s) (λ b s' q. after_open s s' b (is_null b.ret) refl q)
