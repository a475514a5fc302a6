-- ===== src/Spawn/Posix/Actions.antt =====
-- spawn/mod.rs: the process that `spawn_posix_internal` asks for.
use coreshift_lowlevel.Prelude.{
  ℕ, ◌≤◌, ◌<◌, ◌≡◌, refl, sym, ap, subst, List, ℤ, pos, negsuc, Bool, true, false, Option, none,
  some, String, eq_int, eq_int_iff, if◌then◌else◌, Bool-cases, inl, inr, ◌⊎◌, arith, length,
}
use coreshift_lowlevel.Os.{
  Call, Answer, Sys, Io, pure, ◌>>◌, perform, Round, continue, break, Post, Post-bind, Post-mono,
  Post-loop, RoundPost, Performed, Stopped, perform_lem, loop, close, closedir, readdir, fdopendir,
  open_fd_dir, file_actions_adddup2, file_actions_addclose,
}
use coreshift_lowlevel.Os.Steps.{Steps-pure, Steps-perform, Steps-bind}
use coreshift_lowlevel.Error.{Result, ok, err, posix_ret, sys}
use coreshift_lowlevel.Text.{parse_i32}
use coreshift_lowlevel.Fd.{Fd}
use coreshift_lowlevel.System.Exec.{Bytes}
use coreshift_lowlevel.Spawn.Pipes.{Pipes, close_all}
use coreshift_lowlevel.Spawn.Pipes.Closing.{Steps-close_all}
use coreshift_lowlevel.Spawn.Wiring.{Table, duplicate, shut, IsWired, IsAbove}
use coreshift_lowlevel.Spawn.Posix.{
  or_close, guarded, wire, wire_all, handled_fds, stray_of, is_stray, scan_round, scan_dir, is_null,
  above_two, close_strays,
}
use coreshift_lowlevel.Spawn.Posix.Tables.{
  IsApart, wire_table, wire_tables, wire_tables-IsWired, IsWired-shut,
}
use coreshift_lowlevel.Spawn.Posix.Plans.{
  Plan, plan, plan_of, IsIdle, OnOk, Planned, Planning, Planning-pure, Planning-bind, Planning-to,
  Planning-perform, Planning-idle, Planning-any, Planning-try,
}

abbrev Given : Bool → Type 0 → Type 0
Given true A = A
Given false A = Unit

module _ (t : Table) (p : Pipes) where
  pub Planning-or_close :
      (c : Call) (op : String) {U V : Plan → Type 0}
      → ((w : Plan) → U w → V (plan t c (pos 0) w))
      → Planning t U (or_close p c op) (OnOk (λ _. V))
  unfolding or_close posix_ret
  Planning-or_close c op {U} {V} f =
      Planning-bind t
        (Planning-perform t c {Q = λ a w. Given (eq_int a.ret (pos 0)) (V w)}
          (λ w a u. given a w u (Bool-cases (eq_int a.ret (pos 0)))))
        (λ a. go a (eq_int a.ret (pos 0)))
    where
      given :
          (a : Answer) (w : Plan)
          → U w
          → (eq_int a.ret (pos 0) ≡ true) ⊎ (eq_int a.ret (pos 0) ≡ false)
          → Given (eq_int a.ret (pos 0)) (V (plan t c a.ret w))
      given a w u (inl e) = rw ((eq_int_iff a.ret (pos 0)).0 e) (f w u)
      given a w u (inr e) = rw e tt

      go :
          (a : Answer) (b : Bool)
          → Planning t
              (λ w. Given b (V w))
              (elim (if b then ok tt else err (sys a.ret op)) as (λ _. Io (Result (Unit {0}))) [
                | ok _ ↦ pure (ok tt)
                | err e ↦ close_all p >> pure (err e)
              ])
              (OnOk (λ _. V))
      go a true = Planning-pure t
      go a false =
          Planning-bind t (Planning-any t (Steps-close_all (λ _ _. tt) p)) (λ _. Planning-pure t)

  pub Planning-guarded :
      {A : Type 0} {U : Plan → Type 0} {m : Io (Result A)} {Q : Result A → Plan → Type 0} (c : Call)
      → IsIdle c
      → Planning t U m Q
      → Planning t U (guarded c m) Q
  Planning-guarded {A} {U} {m} {Q} c h k =
      Planning-bind t k (λ r.
        Planning-bind t (Planning-idle t {U = Q r} (Steps-perform c h)) (λ _. Planning-pure t))

  Planning-wire :
      (used other : Option Fd) (n : ℕ) (a b c : String) (u : Table)
      → Planning t
          (λ w. w.table ≡ u)
          (wire p used other (pos n) a b c)
          (OnOk (λ _ w. w.table ≡ wire_table used other n u))
  unfolding wire
  Planning-wire (some x) (some y) n a b c u =
      let v = duplicate x.raw_fd (pos n) u in
      Planning-try t
        (Planning-or_close (file_actions_adddup2 x.raw_fd (pos n)) a {V = λ w. w.table ≡ v}
          (λ w e. ap (duplicate x.raw_fd (pos n)) e))
        (λ _.
          Planning-try t
            (Planning-or_close (file_actions_addclose x.raw_fd) b
              {V = λ w. w.table ≡ shut x.raw_fd v} (λ w e. ap (shut x.raw_fd) e))
            (λ _.
              Planning-or_close (file_actions_addclose y.raw_fd) c (λ w e. ap (shut y.raw_fd) e)))
  Planning-wire (some x) none n a b c u = Planning-pure t
  Planning-wire none other n a b c u = Planning-pure t

  pub Planning-wire_all :
      (IsAbove p)
      → IsApart p
      → Planning t (λ w. w.table ≡ t) (wire_all p) (OnOk (λ _ w. IsWired t p w.table))
  unfolding wire_all
  Planning-wire_all above apart =
      Planning-try t
        (Planning-wire p.stdin_r p.stdin_w 0 "dup2 stdin" "close stdin pipe"
          "close stdin write pipe" t)
        (λ _.
          Planning-try t
            (Planning-wire p.stdout_w p.stdout_r 1 "dup2 stdout" "close stdout pipe"
              "close stdout read pipe" (wire_table p.stdin_r p.stdin_w 0 t))
            (λ _. Planning-to t wired (
              Planning-wire p.stderr_w p.stderr_r 2 "dup2 stderr" "close stderr pipe"
                "close stderr read pipe"
                (wire_table p.stdout_w p.stdout_r 1 (wire_table p.stdin_r p.stdin_w 0 t)))))
    where
      wired :
          (r : Result (Unit {0})) (w : Plan)
          → OnOk (λ _ w'. w'.table ≡ wire_tables p t) r w
          → OnOk (λ _ w'. IsWired t p w'.table) r w
      wired (ok _) w e = subst (IsWired t p) (sym e) (wire_tables-IsWired p t above apart)
      wired (err _) w e = tt

  abbrev pub W : Plan → Type 0
  W w = IsWired t p w.table

  -- A stray descriptor is above 2.
  stray_above :
      (handled : List ℤ) (dir_fd : ℤ) (fd : ℤ)
      → is_stray handled dir_fd fd ≡ true
      → above_two fd ≡ true
  unfolding is_stray
  stray_above handled dir_fd fd h = ground arith

  kept_if :
      (fd : ℤ) (ret : ℤ) (w : Plan)
      → above_two fd ≡ true
      → W w
      → W (plan t (file_actions_addclose fd) ret w)
  kept_if fd ret w h i = elim (Bool-cases (eq_int ret (pos 0))) [
    | inl e ↦ rw e (IsWired-shut t p fd w.table h i)
    | inr e ↦ rw e i
  ]

  Strays : List ℤ → ℤ → Option ℤ → Type 0
  Strays handled dir_fd none = Unit
  Strays handled dir_fd (some fd) = above_two fd ≡ true

  stray_of_above :
      (handled : List ℤ) (dir_fd : ℤ) (name : Bytes)
      → Strays handled dir_fd (stray_of handled dir_fd name)
  unfolding stray_of Strays
  stray_of_above handled dir_fd name = go (parse_i32 name)
    where
      chosen :
          (fd : ℤ)
          → (b : Bool) → is_stray handled dir_fd fd ≡ b
          → Strays handled dir_fd (if b then some fd else none)
      chosen fd true e = stray_above handled dir_fd fd e
      chosen fd false e = tt

      go :
          (o : Option ℤ)
          → Strays handled dir_fd (elim o as (λ _. Option ℤ) [
            | none ↦ none
            | some fd ↦ if is_stray handled dir_fd fd then some fd else none
          ])
      go none = tt
      go (some fd) = chosen fd (is_stray handled dir_fd fd) refl

  -- The scan, begun with at most n answers in the script.
  Kept : ℕ → Sys → Type 0
  Kept n s = W (plan_of t s.log) × (length s.script ≤ n)

  -- One entry of the directory.
  scan_round_keeps :
      (handled : List ℤ) (dir_fd : ℤ) (n : ℕ) (u : Unit {0}) (s : Sys)
      → Kept n s
      → Post
          (RoundPost {S = Unit {0}} {A = Unit {0}} (λ _. Kept n) (λ _. Kept n) (length s.script))
          (λ _. Unit)
          (scan_round handled dir_fd u s)
  unfolding scan_round plan_of Kept Strays
  scan_round_keeps handled dir_fd n u s h =
      Post-bind (Performed (readdir dir_fd) s)
        (RoundPost (λ _. Kept n) (λ _. Kept n) (length s.script)) (λ _. Unit)
        (perform (readdir dir_fd)) _ s
        (Post-mono (Performed (readdir dir_fd) s) (Performed (readdir dir_fd) s) (Stopped s)
          (λ _. Unit) (perform (readdir dir_fd) s) (λ _ _ d. d) (λ _ _. tt)
          (perform_lem (readdir dir_fd) s))
        (λ a s' d.
          named a.name s' (subst (λ l. W (plan_of t l)) (sym d.log) h.0) (omega (arith, d.used)))
    where
      Left : Sys → Type 0
      Left s' = W (plan_of t s'.log) × (length s'.script < length s.script)

      stray :
          (o : Option ℤ) (s' : Sys)
          → Strays handled dir_fd o
          → W (plan_of t s'.log)
          → length s'.script < length s.script
          → Post
              (RoundPost {S = Unit {0}} {A = Unit {0}}
                (λ _. Kept n)
                (λ _. Kept n)
                (length s.script))
              (λ _. Unit)
              ((elim o as (λ _. Io (Round (Unit {0}) (Unit {0}))) [
                | none ↦ pure (continue tt)
                | some fd ↦ perform (file_actions_addclose fd) >> pure (continue tt)
              ])
                s')
      stray none s' x w lt = ((w, omega (arith, h.1, lt)), lt)
      stray (some fd) s' x w lt =
          Post-bind (λ _. Left) (RoundPost (λ _. Kept n) (λ _. Kept n) (length s.script))
            (λ _. Unit) (perform (file_actions_addclose fd)) _ s'
            (Post-mono (Planned t (λ _. W) (length s'.script)) (λ _. Left) (λ _. Unit) (λ _. Unit)
              (perform (file_actions_addclose fd) s') (λ a s'' q. (q.0, omega (arith, q.1, lt)))
              (λ _ _. tt)
              ((Planning-perform t (file_actions_addclose fd) {U = W} {Q = λ _. W}
                  (λ w' a i. kept_if fd a.ret w' x i)).run
                s' w))
            (λ a s'' q. ((q.0, omega (arith, h.1, q.1)), q.1))

      named :
          (o : Option Bytes) (s' : Sys)
          → W (plan_of t s'.log)
          → length s'.script < length s.script
          → Post
              (RoundPost {S = Unit {0}} {A = Unit {0}}
                (λ _. Kept n)
                (λ _. Kept n)
                (length s.script))
              (λ _. Unit)
              ((elim o as (λ _. Io (Round (Unit {0}) (Unit {0}))) [
                | none ↦ pure (break tt)
                | some name ↦ elim (stray_of handled dir_fd name) [
                  | none ↦ pure (continue tt)
                  | some fd ↦ perform (file_actions_addclose fd) >> pure (continue tt)
                ]
              ])
                s')
      named none s' w lt = (w, omega (arith, h.1, lt))
      named (some name) s' w lt =
          stray (stray_of handled dir_fd name) s' (stray_of_above handled dir_fd name) w lt

  Planning-scan_dir : (handled : List ℤ) (fd : ℤ) → Planning t W (scan_dir handled fd) (λ _. W)
  unfolding scan_dir Kept
  Planning-scan_dir handled (negsuc k) = Planning-pure t
  Planning-scan_dir handled (pos k) =
      Planning-bind t (Planning-idle t {U = W} (Steps-perform (fdopendir (pos k)) tt))
        (λ dir. go (is_null dir.ret))
    where
      scanned : Planning t W (loop (scan_round handled (pos k)) tt) (λ _. W)
      scanned = record {
        run = λ s w.
            Post-loop (scan_round handled (pos k)) (λ _. Kept (length s.script))
              (λ _. Kept (length s.script)) (λ _. Unit)
              (λ u s' h. scan_round_keeps handled (pos k) (length s.script) u s' h) tt s
              (w, omega arith);
      }

      go :
          (b : Bool)
          → Planning t W
              (if b
                then perform (close (pos k)) >> pure tt
                else loop (scan_round handled (pos k)) tt >> perform (closedir (pos k)) >> pure tt)
              (λ _. W)
      go true = Planning-idle t (Steps-bind (Steps-perform (close (pos k)) tt) (λ _. Steps-pure))
      go false =
          Planning-bind t
            (Planning-bind t scanned (λ _. Planning-idle t (Steps-perform (closedir (pos k)) tt)))
            (λ _. Planning-pure t)

  pub Planning-close_strays : Planning t W (close_strays p) (λ _. W)
  unfolding close_strays
  Planning-close_strays =
      Planning-bind t (Planning-idle t {U = W} (Steps-perform open_fd_dir tt))
        (λ dir_fd. Planning-scan_dir (handled_fds p) dir_fd.ret)
