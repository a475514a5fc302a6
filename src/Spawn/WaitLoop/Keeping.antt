-- ===== src/Spawn/WaitLoop/Keeping.antt =====
-- spawn/mod.rs: the data of the process while its pipes are served.
use coreshift_lowlevel.Prelude.{
  ◌*◌, ◌-◌, ◌/◌, ℕ, ◌≤◌, ◌≡◌, ◌≢◌, refl, sym, ◌∙◌, subst, List, [], ℤ, Bool, true, false, Option,
  none, some, inl, inr, length, eq_int, eq_int_iff, Bool-cases, minus_one, neg, ltb, leb, ◌==◌,
}
use coreshift_lowlevel.Os.{
  perform, Call, Answer, Sys, Happened, read, kill, elapsed, Io, pure, ◌>>=◌, Post, Post-bind,
  Post-mono, IsHonest,
}
use coreshift_lowlevel.Os.Steps.{
  Steps, Later, After, Steps-pure, Steps-perform, Steps-bind, Steps-if, Steps-int,
  Steps-last_os_error, Steps-syscall_ret,
}
use coreshift_lowlevel.Os.Traces.{Grown, Grown-mono, delivered-Grown, got}
use coreshift_lowlevel.Error.{Result}
use coreshift_lowlevel.Fd.{Fd, raw, esrch}
use coreshift_lowlevel.Io.Buffer.{BufferState}
use coreshift_lowlevel.Io.Buffer.Capture.{Captured, IsRead}
use coreshift_lowlevel.Io.Buffer.Capture.Rounds.{ReadOut}
use coreshift_lowlevel.Io.Drain.{DrainState, FdSlot}
use coreshift_lowlevel.System.Exec.{CancelPolicy}
use coreshift_lowlevel.Spawn.Process.{kill_process, kill_pgroup, sigkill, sigterm}
use coreshift_lowlevel.Spawn.WaitLoop.{
  Watch, KillState, target_is_group, send, first_signal, escalate, check_deadline, nanos_per_ms,
}
use coreshift_lowlevel.Spawn.WaitLoop.Plain.{IsPlain}
use coreshift_lowlevel.Spawn.WaitLoop.Deadline.{at_time}

-- Every call but `read`.
abbrev pub IsNoRead : Call → Type 0
IsNoRead (read fd count) = ⊥
IsNoRead _ = Unit

pub no_read : (c : Call) → IsPlain c → IsNoRead c
no_read (read fd count) h = h
no_read _ h = tt

-- Every call but `read` of this descriptor.
abbrev IsOther : ℤ → Call → Type 0
IsOther fd (read g count) = g ≢ fd
IsOther fd _ = Unit

no_read-IsOther : (fd : ℤ) (c : Call) → IsNoRead c → IsOther fd c
no_read-IsOther fd (read g count) h = absurd h
no_read-IsOther fd _ h = tt

read-IsOther : (fd g : ℤ) → g ≢ fd → (c : Call) → IsRead g c → IsOther fd c
read-IsOther fd g apart (read k count) h = λ e. apart (sym h ∙ e)
read-IsOther fd g apart _ h = tt

IsOther-got : (fd : ℤ) (c : Call) (x : Answer) → IsOther fd c → got fd c x ≡ []
IsOther-got fd (read g count) x h = elim (Bool-cases (eq_int fd g)) [
  | inl e ↦ absurd (h (sym ((eq_int_iff fd g).0 e)))
  | inr e ↦ rw e refl
]
IsOther-got fd _ x h = refl

Captured-Other :
    (limit : ℕ) (fd : ℤ) (before dest : List ℕ) {a b : List Happened}
    → Grown (IsOther fd) a b
    → Captured limit fd before dest a
    → Captured limit fd before dest b
Captured-Other limit fd before dest g c = record {
  seen = c.seen;
  arrived = delivered-Grown (IsOther fd) fd (IsOther-got fd) g ∙ c.arrived;
  kept = c.kept;
}

-- A slot that is there has this descriptor.
abbrev pub SlotIs : ℤ → Option FdSlot → Type 0
SlotIs fd none = Unit
SlotIs fd (some slot) = raw slot.fd ≡ fd

-- Both buffers hold the first `limit` bytes of what their descriptors brought.
pub record Kept (limit : ℕ) (fo fe : ℤ) (bo be : List ℕ) (d : DrainState) (s : Sys) : Type 0 where
  pub stdout_is : SlotIs fo d.stdout_slot
  pub stderr_is : SlotIs fe d.stderr_slot
  pub limit_is : d.buffer.limit ≡ limit
  pub stdout : Captured limit fo bo d.buffer.stdout s.log
  pub stderr : Captured limit fe be d.buffer.stderr s.log
  pub honest : IsHonest s.script

abbrev pub Anything : Sys → Type 0
Anything _ = Unit

module _ (limit : ℕ) (fo fe : ℤ) (bo be : List ℕ) where
  pub Kept-Later :
      (d : DrainState) (s s' : Sys)
      → Later IsNoRead s s'
      → Kept limit fo fe bo be d s
      → Kept limit fo fe bo be d s'
  Kept-Later d s s' g k = record {
    stdout_is = k.stdout_is;
    stderr_is = k.stderr_is;
    limit_is = k.limit_is;
    stdout =
        Captured-Other limit fo bo d.buffer.stdout
          (Grown-mono IsNoRead (IsOther fo) (no_read-IsOther fo) g.0) k.stdout;
    stderr =
        Captured-Other limit fe be d.buffer.stderr
          (Grown-mono IsNoRead (IsOther fe) (no_read-IsOther fe) g.0) k.stderr;
    honest = g.2 k.honest;
  }

  -- A part that does not read, and what follows it.
  pub after_plain :
      {A B : Type 0} {m : Io A} (f : A → Io B) (Q : B → Sys → Type 0) (d : DrainState) (s : Sys)
      → Steps IsNoRead m
      → Kept limit fo fe bo be d s
      → ((a : A) (s' : Sys)
          → Kept limit fo fe bo be d s'
          → length s'.script ≤ length s.script
          → Post Q Anything (f a s'))
      → Post Q Anything ((m >>= f) s)
  after_plain {A} {B} {m} f Q d s steps k next =
      Post-bind (λ _. Later IsNoRead s) Q Anything m f s
        (Post-mono (λ _. Later IsNoRead s) (λ _. Later IsNoRead s) (After IsNoRead s) Anything (m s)
          (λ a s' g. g) (λ _ _. tt) (steps.run s))
        (λ a s' g. next a s' (Kept-Later d s s' g k) g.1)

  -- After a stream was read, the buffers are kept.
  pub stdout_read_keeps :
      (apart : fo ≢ fe) (d : DrainState) (fd : Fd) (b : BufferState) (r : Result Bool) (s s' : Sys)
      → Kept limit fo fe bo be d s
      → raw fd ≡ fo
      → ReadOut d.buffer fd true d.early_exit bo s (b, r) s'
      → Kept limit fo fe bo be (record d { buffer = b }) s'
  stdout_read_keeps apart d fd b r s s' k e o = record {
    stdout_is = k.stdout_is;
    stderr_is = k.stderr_is;
    limit_is = o.limit ∙ k.limit_is;
    stdout =
        subst (λ g. Captured limit g bo b.stdout s'.log) e
          (subst (λ n. Captured n (raw fd) bo b.stdout s'.log) k.limit_is o.captured);
    stderr =
        subst (λ t. Captured limit fe be t s'.log) (sym o.other)
          (Captured-Other limit fe be d.buffer.stderr
            (Grown-mono (IsRead (raw fd)) (IsOther fe)
              (read-IsOther fe (raw fd) (λ q. apart (sym e ∙ q))) o.grown)
            k.stderr);
    honest = o.honest;
  }

  pub stderr_read_keeps :
      (apart : fo ≢ fe) (d : DrainState) (fd : Fd) (b : BufferState) (r : Result Bool) (s s' : Sys)
      → Kept limit fo fe bo be d s
      → raw fd ≡ fe
      → ReadOut d.buffer fd false d.early_exit be s (b, r) s'
      → Kept limit fo fe bo be (record d { buffer = b }) s'
  stderr_read_keeps apart d fd b r s s' k e o = record {
    stdout_is = k.stdout_is;
    stderr_is = k.stderr_is;
    limit_is = o.limit ∙ k.limit_is;
    stderr =
        subst (λ g. Captured limit g be b.stderr s'.log) e
          (subst (λ n. Captured n (raw fd) be b.stderr s'.log) k.limit_is o.captured);
    stdout =
        subst (λ t. Captured limit fo bo t s'.log) (sym o.other)
          (Captured-Other limit fo bo d.buffer.stdout
            (Grown-mono (IsRead (raw fd)) (IsOther fo)
              (read-IsOther fo (raw fd) (λ q. apart (sym q ∙ e))) o.grown)
            k.stdout);
    honest = o.honest;
  }

-- The calls that send a signal, and the look at the clock.
module _ {P : Call → Type 0} (kills : (pid : ℤ) (sig : ℕ) → P (kill pid sig)) where
  Steps-send : (w : Watch) (sig : ℕ) → Steps P (send w sig)
  unfolding send kill_pgroup kill_process
  Steps-send w sig =
      Steps-if (target_is_group w.pgroup)
        (Steps-bind (Steps-perform (kill (neg w.process.pid) sig) (kills (neg w.process.pid) sig))
          (λ r. Steps-bind Steps-last_os_error (λ e.
            Steps-int r.ret (λ n. Steps-pure)
              (λ n. Steps-if (e == esrch) Steps-pure (Steps-syscall_ret minus_one "kill_pgroup")))))
        (Steps-bind (Steps-perform (kill w.process.pid sig) (kills w.process.pid sig)) (λ r.
          Steps-bind Steps-last_os_error (λ e.
            Steps-int r.ret (λ n. Steps-pure)
              (λ n. Steps-if (e == esrch) Steps-pure (Steps-syscall_ret minus_one "kill")))))

  Steps-first_signal : (w : Watch) (c : CancelPolicy) → Steps P (first_signal w c)
  unfolding first_signal
  Steps-first_signal w CancelPolicy.graceful = Steps-bind (Steps-send w sigterm) (λ r. Steps-pure)
  Steps-first_signal w CancelPolicy.kill = Steps-bind (Steps-send w sigkill) (λ r. Steps-pure)
  Steps-first_signal w CancelPolicy.none = Steps-pure

  pub Steps-escalate : (w : Watch) (over : ℕ) (state : KillState) → Steps P (escalate w over state)
  unfolding escalate
  Steps-escalate w over KillState.none = Steps-first_signal w w.cancel
  Steps-escalate w over KillState.term_sent =
      Steps-if (ltb w.kill_grace_ms over) (Steps-bind (Steps-send w sigkill) (λ r. Steps-pure))
        Steps-pure
  Steps-escalate w over KillState.kill_sent = Steps-pure

  pub Steps-check_deadline :
      (clock : P elapsed) (w : Watch) (state : KillState) (timed_out : Bool)
      → Steps P (check_deadline w state timed_out)
  unfolding check_deadline
  Steps-check_deadline clock w state timed_out = go w.timeout_ms
    where
      go :
          (o : Option ℕ)
          → Steps {A = KillState × Bool × ℤ} P (elim o [
            | none ↦ pure (state, timed_out, minus_one)
            | some ms ↦ perform elapsed >>= λ a. at_time w state timed_out ms a.nanos
          ])
      go none = Steps-pure
      go (some ms) = Steps-bind (Steps-perform elapsed clock) (λ a.
          Steps-if (leb (ms * nanos_per_ms) a.nanos)
            (Steps-bind (Steps-escalate w ((a.nanos - ms * nanos_per_ms) / nanos_per_ms) state)
              (λ st. Steps-pure))
            Steps-pure)
