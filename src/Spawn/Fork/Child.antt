-- ===== src/Spawn/Fork/Child.antt =====
-- spawn/mod.rs: the child of `spawn_fork_internal`, up to its program.
use coreshift_lowlevel.Prelude.{
  ℕ, zero, suc, ◌≤◌, ◌≡◌, refl, sym, ◌∙◌, ap, subst, List, [], ◌∷◌, ℤ, pos, negsuc, Bool, true,
  false, Option, none, some, eq_int, minus_one, if◌then◌else◌,
}
use coreshift_lowlevel.Os.{
  Call, Answer, Sys, Happened, Io, pure, ended, ◌>>=◌, ◌>>◌, perform, Post, Post-bind, Post-perform,
  dup2, close, close_range, execve, exit, fork, IsOpen, setsid, chdir, setpgid, sigprocmask,
  signal_default, last_os_error,
}
use coreshift_lowlevel.Error.{syscall_ret, ok, err, sys}
use coreshift_lowlevel.Fd.{Fd, drop_fd}
use coreshift_lowlevel.Io.Drain.{drop_opt}
use coreshift_lowlevel.System.Exec.{Bytes, get_argv_ptrs, get_envp_ptrs}
use coreshift_lowlevel.System.Signals.{unblock_all, reset_default, sigpipe, sig_setmask, empty_set}
use coreshift_lowlevel.Spawn.Options.{SpawnOptions}
use coreshift_lowlevel.Spawn.Pipes.{Pipes, close_all, close_range_fast, uint_top}
use coreshift_lowlevel.Spawn.Wiring.{
  Table, duplicate, shut, shut_range, IsWired, IsAbove, shut_range_in,
}
use coreshift_lowlevel.Spawn.Fork.Tables.{
  dup_table, shut_opt, dup_tables, shut_all, child_table, child_table-IsWired,
}
use coreshift_lowlevel.Spawn.Fork.{
  exit_now, dup_end, new_session, change_dir, join_group, execute, child,
}

-- A kernel that grants `dup2` and `close_range`.
abbrev pub Grants : Call → Answer → Type 0
Grants (dup2 fd target) a = IsOpen a.ret
Grants (close_range lo hi) a = IsOpen a.ret
Grants _ a = Unit

abbrev pub IsGranting : List (Call → Answer) → Type 0
IsGranting [] = Unit
IsGranting (f ∷ rest) = ((c : Call) → Grants c (f c)) × IsGranting rest

-- What a call that returned so does to the table of its process; `fork` begins with the parent's.
abbrev pub if_granted : ℤ → Table → Table → Table
if_granted (pos n) v u = v
if_granted (negsuc n) v u = u

abbrev pub effect : Table → Call → ℤ → Table → Table
effect t fork ret u = t
effect t (dup2 fd target) ret u = if_granted ret (duplicate fd target u) u
effect t (close fd) ret u = shut fd u
effect t (close_range lo hi) ret u = if_granted ret (shut_range lo hi u) u
effect t _ ret u = u

-- The table of the newest process of a log, which forked from one with the table t.
unfoldable pub table_of : Table → List Happened → Table
table_of t [] = t
table_of t (h ∷ log) = effect t h.call h.answer.ret (table_of t log)

-- Where the newest call ends the process: what is promised of it.
abbrev pub AtEnd : Table → Pipes → SpawnOptions → Bytes → ℕ → Call → List Happened → Type 0
AtEnd t p opts exe n (execve path argv envp) log =
    (path ≡ exe)
    × (argv ≡ get_argv_ptrs opts.ctx)
    × (envp ≡ get_envp_ptrs opts.ctx)
    × IsWired t p (table_of t log)
    × (table_of t log n ≡ none)
AtEnd t p opts exe n (exit code) log = code ≡ 127
AtEnd t p opts exe n _ log = Unit

abbrev pub Promised : Table → Pipes → SpawnOptions → Bytes → ℕ → List Happened → Type 0
Promised t p opts exe n [] = Unit
Promised t p opts exe n (h ∷ log) = AtEnd t p opts exe n h.call log

abbrev preparing : Pipes → SpawnOptions → Io (Unit {0})
preparing p opts =
    dup_end p.stdin_r p.stdin_w (pos 0)
    >> dup_end p.stdout_w p.stdout_r (pos 1)
    >> dup_end p.stderr_w p.stderr_r (pos 2)
    >> close_all p
    >> close_range_fast none
    >> new_session opts.pgroup.isolated
    >> change_dir opts.ctx.cwd
    >> join_group opts.pgroup.leader
    >> unblock_all
    >> reset_default sigpipe

module _ (t : Table) (p : Pipes) (opts : SpawnOptions) (exe : Bytes) (n : ℕ) where
  abbrev P : Sys → Type 0
  P s = Promised t p opts exe n s.log

  -- A world whose table is u, and which has made no call that ends it.
  abbrev J : Table → Sys → Type 0
  J u s = IsGranting s.script × (table_of t s.log ≡ u) × P s

  -- A part of the child that takes its table from u to v.
  record Turning {A : Type 0} (u v : Table) (m : Io A) : Type 0 where
    run : (s : Sys) → J u s → Post (λ _. J v) P (m s)

  Turning-pure : {A : Type 0} {a : A} {u : Table} → Turning u u (pure a)
  Turning-pure = record { run = λ s j. j }

  Turning-bind :
      {A B : Type 0} {u v w : Table} {m : Io A} {f : A → Io B}
      → Turning u v m
      → ((a : A) → Turning v w (f a))
      → Turning u w (m >>= f)
  Turning-bind {A} {B} {u} {v} {w} {m} {f} h k = record {
    run = λ s j. Post-bind (λ _. J v) (λ _. J w) P m f s (h.run s j) (λ a s' j'. (k a).run s' j');
  }

  Turning-then :
      {A B : Type 0} {u v w : Table} {m : Io A} {m' : Io B}
      → Turning u v m
      → Turning v w m'
      → Turning u w (m >> m')
  Turning-then h k = Turning-bind h (λ _. k)

  Turning-perform :
      (c : Call) {u v : Table}
      → ((log : List Happened) → AtEnd t p opts exe n c log)
      → ((a : Answer) → Grants c a → effect t c a.ret u ≡ v)
      → Turning u v (perform c)
  unfolding table_of
  Turning-perform c {u} {v} free e = record {
    run = λ s j.
        Post-perform (λ _. J v) P c s
          (λ f rest q.
            let g : IsGranting (f ∷ rest) = subst IsGranting q j.0 in
            (g.1, ap (effect t c (f c).ret) j.1 ∙ e (f c) (g.0 c), free s.log))
          (λ _. j.2);
  }

  granted : (ret : ℤ) (v u : Table) → IsOpen ret → if_granted ret v u ≡ v
  granted (pos k) v u h = refl
  granted (negsuc k) v u h = absurd h

  Turning-dup_end :
      (used other : Option Fd) (k : ℕ) {u : Table}
      → Turning u (dup_table used other k u) (dup_end used other (pos k))
  unfolding dup_end
  Turning-dup_end (some used) (some other) k {u} =
      Turning-then
        (Turning-perform (dup2 used.raw_fd (pos k)) (λ log. tt)
          (λ a h. granted a.ret (duplicate used.raw_fd (pos k) u) u h))
        Turning-pure
  Turning-dup_end (some used) none k = Turning-pure
  Turning-dup_end none other k = Turning-pure

  Turning-drop_raw : (fd : ℤ) {u : Table} → Turning u (shut fd u) (drop_fd (record { raw_fd = fd }))
  unfolding drop_fd
  Turning-drop_raw (pos k) =
      Turning-then (Turning-perform (close (pos k)) (λ log. tt) (λ a h. refl)) Turning-pure
  Turning-drop_raw (negsuc k) = Turning-pure

  Turning-drop_opt : (fd : Option Fd) {u : Table} → Turning u (shut_opt fd u) (drop_opt fd)
  Turning-drop_opt none = Turning-pure
  Turning-drop_opt (some fd) = Turning-drop_raw fd.raw_fd

  Turning-close_all : {u : Table} → Turning u (shut_all p u) (close_all p)
  unfolding close_all
  Turning-close_all =
      Turning-then
        (Turning-then
          (Turning-then
            (Turning-then (Turning-then (Turning-drop_opt p.stdin_r) (Turning-drop_opt p.stdin_w))
              (Turning-drop_opt p.stdout_r))
            (Turning-drop_opt p.stdout_w))
          (Turning-drop_opt p.stderr_r))
        (Turning-drop_opt p.stderr_w)

  Turning-close_range : {u : Table} → Turning u (shut_range 3 uint_top u) (close_range_fast none)
  unfolding close_range_fast
  Turning-close_range {u} =
      Turning-then
        (Turning-perform (close_range 3 uint_top) (λ log. tt)
          (λ a h. granted a.ret (shut_range 3 uint_top u) u h))
        Turning-pure

  Turning-new_session : (isolated : Bool) {u : Table} → Turning u u (new_session isolated)
  unfolding new_session
  Turning-new_session true =
      Turning-then (Turning-perform setsid (λ log. tt) (λ a h. refl)) Turning-pure
  Turning-new_session false = Turning-pure

  Turning-join_group : (leader : Option ℤ) {u : Table} → Turning u u (join_group leader)
  unfolding join_group
  Turning-join_group none = Turning-pure
  Turning-join_group (some pg) =
      Turning-then (Turning-perform (setpgid (pos 0) pg) (λ log. tt) (λ a h. refl)) Turning-pure

  -- `_exit` with the code 127.
  exit_keeps : {A : Type 0} (Q : A → Sys → Type 0) (s : Sys) → P s → Post Q P (exit_now 127 s)
  unfolding exit_now
  exit_keeps {A} Q s h =
      Post-bind (λ _. P) Q P (perform (exit 127)) _ s
        (Post-perform (λ _. P) P (exit 127) s (λ f rest q. refl) (λ _. h)) (λ a s' h'. h')

  Turning-change_dir : (cwd : Option Bytes) {u : Table} → Turning u u (change_dir cwd)
  unfolding change_dir
  Turning-change_dir none = Turning-pure
  Turning-change_dir (some cwd) {u} =
      Turning-bind (Turning-perform (chdir cwd) (λ log. tt) (λ a h. refl)) (λ r. entered r.ret)
    where
      entered :
          (ret : ℤ)
          → Turning {A = Unit {0}} u u (elim ret [
            | pos k ↦ elim k [ zero ↦ pure tt | suc i ↦ exit_now 127 ]
            | negsuc k ↦ exit_now 127
          ])
      entered (pos zero) = Turning-pure
      entered (pos (suc k)) = record { run = λ s j. exit_keeps (λ _. J u) s j.2 }
      entered (negsuc k) = record { run = λ s j. exit_keeps (λ _. J u) s j.2 }

  Turning-syscall_ret : (ret : ℤ) {u : Table} → Turning u u (syscall_ret ret "sigprocmask")
  unfolding syscall_ret last_os_error
  Turning-syscall_ret ret {u} = go (eq_int ret minus_one)
    where
      go :
          (b : Bool)
          → Turning u u (
              if b
              then (last_os_error >>= λ code. pure (err (sys (pos code) "sigprocmask")))
              else pure (ok tt))
      go true = record { run = λ s j. j }
      go false = Turning-pure

  Turning-unblock_all : {u : Table} → Turning u u unblock_all
  unfolding unblock_all
  Turning-unblock_all =
      Turning-bind (Turning-perform (sigprocmask sig_setmask empty_set) (λ log. tt) (λ a h. refl))
        (λ r. Turning-syscall_ret r.ret)

  Turning-reset_default : {u : Table} → Turning u u (reset_default sigpipe)
  unfolding reset_default
  Turning-reset_default =
      Turning-then (Turning-perform (signal_default sigpipe) (λ log. tt) (λ a h. refl)) Turning-pure

  -- What the child does before its program takes over.
  prepared : Turning t (child_table p t) (preparing p opts)
  prepared =
      let dups =
        Turning-then
          (Turning-then (Turning-dup_end p.stdin_r p.stdin_w 0)
            (Turning-dup_end p.stdout_w p.stdout_r 1))
          (Turning-dup_end p.stderr_w p.stderr_r 2) in
      let closed = Turning-then (Turning-then dups Turning-close_all) Turning-close_range in
      let placed =
        Turning-then
          (Turning-then (Turning-then closed (Turning-new_session opts.pgroup.isolated))
            (Turning-change_dir opts.ctx.cwd))
          (Turning-join_group opts.pgroup.leader) in
      Turning-then (Turning-then placed Turning-unblock_all) Turning-reset_default

  executes :
      (A : Type 0) (u : Table) (s : Sys)
      → IsWired t p u
      → u n ≡ none
      → J u s
      → Post {A = A} (λ _ _. ⊥) P (execute opts exe s)
  unfolding execute
  executes A u s wired free j =
      Post-bind (λ _. P) (λ _ _. ⊥) P
        (perform (execve exe (get_argv_ptrs opts.ctx) (get_envp_ptrs opts.ctx))) _ s
        (Post-perform (λ _. P) P (execve exe (get_argv_ptrs opts.ctx) (get_envp_ptrs opts.ctx)) s
          (λ f rest q.
            (refl, refl, refl, subst (IsWired t p) (sym j.1) wired, ap (λ w. w n) j.1 ∙ free))
          (λ _. j.2))
        (λ a s' h. done a.ret s' h)
    where
      done :
          (ret : ℤ) (s' : Sys)
          → P s'
          → Post {A = A}
              (λ _ _. ⊥)
              P
              ((elim ret as (λ _. Io A) [ pos k ↦ (λ w. ended w) | negsuc k ↦ exit_now 127 ]) s')
      done (pos k) s' h = h
      done (negsuc k) s' h = exit_keeps (λ _ _. ⊥) s' h

-- The child of a `fork` never returns. Where it runs its program, this is the one that was asked for, with
-- its arguments and its environment; 0, 1 and 2 are the ends of the pipes that were asked for, and what
-- they were for the streams that were not, and no end of a pipe and no descriptor n from 3 up is open;
-- where it exit_keeps, it is with the code 127. The ends of the pipes are above 2, and the kernel grants `dup2`
-- and `close_range`.
pub child_lem :
    (t : Table) (p : Pipes) (opts : SpawnOptions) (exe : Bytes) (n : ℕ) (older : List Happened)
    (returned_zero : Answer) (s : Sys)
    → s.log ≡ record { call = fork; answer = returned_zero } ∷ older
    → IsGranting s.script
    → IsAbove p
    → 3 ≤ n
    → n ≤ uint_top
    → Post {A = Unit {0}} (λ _ _. ⊥) (λ s'. Promised t p opts exe n s'.log) (child p opts exe s)
unfolding child table_of
child_lem t p opts exe n older returned_zero s e granting apart lo hi =
    Post-bind (λ _. J t p opts exe n (child_table p t)) (λ _ _. ⊥) (P t p opts exe n)
      (preparing p opts) (λ _. execute {A = Unit {0}} opts exe) s
      ((prepared t p opts exe n).run s
        (granting, ap (table_of t) e, subst (Promised t p opts exe n) (sym e) tt))
      (λ a s' j.
        executes t p opts exe n (Unit {0}) (child_table p t) s' (child_table-IsWired p t apart)
          (shut_range_in 3 uint_top n (shut_all p (dup_tables p t)) lo hi) j)
