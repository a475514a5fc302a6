-- ===== src/Spawn/Posix/Asking.antt =====
-- spawn/mod.rs: the process that `spawn_posix_internal` asks for, from the actions to `posix_spawn`.
use coreshift_lowlevel.Prelude.{
  ℕ, ◌≡◌, refl, ap, ◌∙◌, [], ◌∷◌, ℤ, Option, none, some, bit_or, length,
}
use coreshift_lowlevel.Os.{
  Answer, Sys, Io, pure, ◌>>◌, Post, Post-mono, file_actions_init, file_actions_destroy, attr_init,
  attr_setpgroup, attr_setflags, attr_setsigmask, attr_setsigdefault, attr_destroy, posix_spawn,
}
use coreshift_lowlevel.Os.Steps.{Steps, Steps-pure, Steps-perform, Steps-bind}
use coreshift_lowlevel.Error.{Result, ok, err, posix_ret, ◌>>?◌}
use coreshift_lowlevel.Fd.{Fd}
use coreshift_lowlevel.Io.Drain.{DrainState, drop_opt}
use coreshift_lowlevel.Io.Drain.Making.{Steps-drop_opt, Steps-new_drain}
use coreshift_lowlevel.System.Exec.{Bytes, ProcessGroup, get_argv_ptrs, get_envp_ptrs}
use coreshift_lowlevel.System.Signals.{empty_set, set_with, sigpipe}
use coreshift_lowlevel.Spawn.Options.{SpawnOptions}
use coreshift_lowlevel.Spawn.Pipes.{Pipes, close_all}
use coreshift_lowlevel.Spawn.Pipes.Closing.{Steps-close_all}
use coreshift_lowlevel.Spawn.Wiring.{Table, IsWired, IsAbove}
use coreshift_lowlevel.Spawn.Posix.{
  or_close, guarded, set_group, set_attributes, filter_stdin, keep_ends, launch, posix_with,
  posix_spawn_setsigmask, posix_spawn_setsigdef, posix_spawn_setpgroup,
}
use coreshift_lowlevel.Spawn.Posix.Tables.{IsApart}
use coreshift_lowlevel.Spawn.Posix.Plans.{
  Plan, plan_of, IsIdle, OnOk, Planned, Planning, Planning-pure, Planning-bind, Planning-from,
  Planning-idle, Planning-any, Planning-try,
}
use coreshift_lowlevel.Spawn.Posix.Actions.{
  W, Planning-or_close, Planning-guarded, Planning-wire_all, Planning-close_strays,
}

-- The flag for a group is set where there is one.
abbrev pub group_flags : Option ℤ → ℕ
group_flags none = 0
group_flags (some pg) = bit_or 0 posix_spawn_setpgroup

-- The plan is what the options ask for.
pub record IsAsked (t : Table) (p : Pipes) (pgroup : ProcessGroup) (w : Plan) : Type 0 where
  pub wired : IsWired t p w.table
  pub group : w.group ≡ pgroup.leader
  pub flags :
      w.flags
      ≡ bit_or (group_flags pgroup.leader) (bit_or posix_spawn_setsigmask posix_spawn_setsigdef)
  pub mask : w.mask ≡ some []
  pub default : w.default ≡ some (sigpipe ∷ [])

Idle-keep_ends : (p : Pipes) (opts : SpawnOptions) → Steps IsIdle (keep_ends p opts)
unfolding keep_ends
Idle-keep_ends p opts = Steps-bind (drop p.stdin_r) (λ _. Steps-bind (drop p.stdout_w) (λ _.
    Steps-bind (drop p.stderr_w) (λ _. Steps-bind (filtered opts.stdin) (λ stdin_w.
      Steps-new_drain (λ _. tt) (λ _. tt) (λ _ _. tt) stdin_w opts.stdin p.stdout_r p.stderr_r
        opts.max_output opts.early_exit))))
  where
    drop : (fd : Option Fd) → Steps IsIdle (drop_opt fd)
    drop fd = Steps-drop_opt (λ _. tt) (λ _. tt) (λ _ _. tt) fd

    filtered : (stdin : Option Bytes) → Steps IsIdle (filter_stdin p.stdin_w stdin)
    filtered none = Steps-bind (drop p.stdin_w) (λ _. Steps-pure)
    filtered (some bytes) = Steps-pure

module _ (t : Table) (p : Pipes) where
  Planning-set_group :
      (leader : Option ℤ)
      → Planning t
          (λ w. IsWired t p w.table × (w.group ≡ none))
          (set_group p leader)
          (OnOk
            (λ flags w. IsWired t p w.table × (w.group ≡ leader) × (flags ≡ group_flags leader)))
  unfolding set_group
  Planning-set_group none = Planning-from t (λ w h. (h.0, h.1, refl)) (Planning-pure t)
  Planning-set_group (some pg) =
      Planning-try t
        (Planning-or_close t p (attr_setpgroup pg) "setpgroup"
          {V = λ w. IsWired t p w.table × (w.group ≡ some pg)} (λ w h. (h.0, refl)))
        (λ _. Planning-from t (λ w h. (h.0, h.1, refl)) (Planning-pure t))

  Planning-set_attributes :
      (pgroup : ProcessGroup)
      → Planning t
          (λ w. IsWired t p w.table × (w.group ≡ none))
          (set_attributes p pgroup)
          (OnOk (λ _. IsAsked t p pgroup))
  unfolding set_attributes empty_set set_with
  Planning-set_attributes pgroup = Planning-try t (Planning-set_group pgroup.leader) (λ flags.
      let asked = bit_or flags (bit_or posix_spawn_setsigmask posix_spawn_setsigdef) in
      Planning-try t
        (Planning-or_close t p (attr_setflags asked) "setflags"
          {V = λ w.
            IsWired t p w.table
            × (w.group ≡ pgroup.leader)
            × (flags ≡ group_flags pgroup.leader)
            × (w.flags ≡ asked)}
          (λ w h. (h.0, h.1, h.2, refl)))
        (λ _.
          Planning-try t
            (Planning-or_close t p (attr_setsigmask []) "setsigmask"
              {V = λ w.
                IsWired t p w.table
                × (w.group ≡ pgroup.leader)
                × (flags ≡ group_flags pgroup.leader)
                × (w.flags ≡ asked)
                × (w.mask ≡ some [])}
              (λ w h. (h.0, h.1, h.2, h.3, refl)))
            (λ _. Planning-or_close t p (attr_setsigdefault (sigpipe ∷ [])) "setsigdefault" (λ w h.
              record {
                wired = h.0;
                group = h.1;
                flags =
                    h.3
                    ∙ ap (λ k. bit_or k (bit_or posix_spawn_setsigmask posix_spawn_setsigdef)) h.2;
                mask = h.4;
                default = refl;
              }))))

  Planning-launch :
      (opts : SpawnOptions) (exe : Bytes) (pgroup : ProcessGroup)
      → Planning t (IsAsked t p pgroup) (launch p opts exe) (OnOk (λ _. IsAsked t p pgroup))
  unfolding launch
  Planning-launch opts exe pgroup =
      Planning-bind t
        (Planning-idle t {U = IsAsked t p pgroup}
          (Steps-perform (posix_spawn exe (get_argv_ptrs opts.ctx) (get_envp_ptrs opts.ctx)) tt))
        (λ a. go a (posix_ret a.ret "posix_spawn"))
    where
      go :
          (a : Answer) (r : Result (Unit {0}))
          → Planning t
              (IsAsked t p pgroup)
              (elim r as (λ _. Io (Result (ℤ × DrainState))) [
                | err e ↦ close_all p >> pure (err e)
                | ok _ ↦ keep_ends p opts >>? λ drain. pure (ok (a.pid, drain))
              ])
              (OnOk (λ _. IsAsked t p pgroup))
      go a (err e) =
          Planning-bind t (Planning-any t (Steps-close_all (λ _ _. tt) p)) (λ _. Planning-pure t)
      go a (ok _) = Planning-bind t (Planning-idle t (Idle-keep_ends p opts)) (λ r. ended a r)
        where
          ended :
              (a : Answer) (r : Result DrainState)
              → Planning t
                  (IsAsked t p pgroup)
                  (elim r as (λ _. Io (Result (ℤ × DrainState))) [
                    | ok drain ↦ pure (ok (a.pid, drain))
                    | err e ↦ pure (err e)
                  ])
                  (OnOk (λ _. IsAsked t p pgroup))
          ended a (ok drain) = Planning-pure t
          ended a (err e) = Planning-from t (λ _ _. tt) (Planning-pure t)

-- Where the call of `posix_spawn` and what follows it succeed, the file actions make 0, 1 and 2 of the
-- process the ends of the pipes that were asked for, and leave what the parent has there for the streams
-- that were not, and close both ends of every pipe; the attributes put it into the leader's group where
-- there is a leader, block no signal and reset SIGPIPE. It always returns, or waits in a call. The ends of
-- the pipes are above 2, and those that the process uses differ from the ends before them.
pub posix_with_asks :
    (t : Table) (p : Pipes) (opts : SpawnOptions) (exe : Bytes) (s : Sys)
    → IsAbove p
    → IsApart p
    → Post
        (λ r s'. OnOk (λ _. IsAsked t p opts.pgroup) r (plan_of t s'.log))
        (λ _. Unit)
        (posix_with p opts exe s)
unfolding posix_with
posix_with_asks t p opts exe s above apart =
    Post-mono (Planned t (OnOk (λ _. IsAsked t p opts.pgroup)) (length s.script))
      (λ r s'. OnOk (λ _. IsAsked t p opts.pgroup) r (plan_of t s'.log)) (λ _. Unit) (λ _. Unit)
      (posix_with p opts exe s) (λ r s' q. q.0) (λ _ _. tt) (planned.run s tt)
  where
    attributed :
        Planning t
          (W t p)
          (or_close p attr_init "attr_init" >>? λ _.
            guarded attr_destroy (set_attributes p opts.pgroup >>? λ _. launch p opts exe))
          (OnOk (λ _. IsAsked t p opts.pgroup))
    attributed =
        Planning-try t
          (Planning-or_close t p attr_init "attr_init"
            {V = λ w. IsWired t p w.table × (w.group ≡ none)} (λ w h. (h, refl)))
          (λ _. Planning-guarded t p attr_destroy tt (
            Planning-try t (Planning-set_attributes t p opts.pgroup)
              (λ _. Planning-launch t p opts exe opts.pgroup)))

    planned : Planning t (λ _. Unit) (posix_with p opts exe) (OnOk (λ _. IsAsked t p opts.pgroup))
    planned =
        Planning-try t
          (Planning-or_close t p file_actions_init "file_actions_init" {V = λ w. w.table ≡ t}
            (λ w h. refl))
          (λ _. Planning-guarded t p file_actions_destroy tt (
            Planning-try t (Planning-wire_all t p above apart)
              (λ _. Planning-bind t (Planning-close_strays t p) (λ _. attributed))))
