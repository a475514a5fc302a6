-- ===== src/Spawn/WaitLoop/Signals.antt =====
-- spawn/mod.rs: the signals that `wait_loop` sends, when, and to whom.
use coreshift_lowlevel.Prelude.{
  ℕ, ◌-◌, ◌*◌, ◌/◌, ◌≤◌, ◌<◌, ◌≡◌, ◌≢◌, refl, sym, subst, ◌∙◌, ap, arith, List, [], ◌∷◌, ◌++◌,
  append-nil, ℤ, pos, negsuc, neg, minus_one, String, some, ◌⊎◌, inl, inr, length, ◌==◌, Bool-cases,
  if◌then◌else◌,
}
use coreshift_lowlevel.Os.{
  Call, Answer, Sys, Happened, kill, elapsed, Io, pure, ◌>>=◌, perform, last_os_error, Post,
  Post-bind, Post-mono, Performed, Stopped, perform_lem, IsFailure,
}
use coreshift_lowlevel.Os.Traces.{Grown, same, grow}
use coreshift_lowlevel.Error.{Result, ok, err, syscall_ret}
use coreshift_lowlevel.Fd.{esrch}
use coreshift_lowlevel.System.Exec.{CancelPolicy}
use coreshift_lowlevel.Spawn.Process.{kill_process, kill_pgroup, sigkill, sigterm}
use coreshift_lowlevel.Spawn.WaitLoop.{KillState, Watch, target_is_group, send, nanos_per_ms}
use coreshift_lowlevel.Spawn.WaitLoop.Frames.{IsQuiet}

-- A signal that was sent, and the last time that the clock had shown before.
pub record Signal : Type 0 where
  pub target : ℤ
  pub number : ℕ
  pub nanos : ℕ

abbrev pub reading : Call → Answer → ℕ → ℕ
reading elapsed a n = a.nanos
reading _ a n = n

unfoldable pub latest : List Happened → ℕ
latest [] = 0
latest (h ∷ log) = reading h.call h.answer (latest log)

abbrev pub signal_of : Call → ℕ → List Signal
signal_of (kill pid sig) n = record { target = pid; number = sig; nanos = n } ∷ []
signal_of _ n = []

-- All signals of a log, oldest first.
unfoldable pub signals : List Happened → List Signal
unfolding latest
signals [] = []
signals (h ∷ log) = signals log ++ signal_of h.call (latest log)

Quiet-signal_of : (c : Call) (n : ℕ) → IsQuiet c → signal_of c n ≡ []
Quiet-signal_of (kill pid sig) n h = absurd h
Quiet-signal_of _ n h = refl

pub signals-Grown : {a b : List Happened} → Grown IsQuiet a b → signals b ≡ signals a
unfolding signals
signals-Grown same = refl
signals-Grown (grow {later = l} h p g) =
    ap (λ t. signals l ++ t) (Quiet-signal_of h.call (latest l) p)
    ∙ append-nil (signals l)
    ∙ signals-Grown g

-- The process, or the group of its own number.
abbrev pub target_of : Watch → ℤ
target_of w = if target_is_group w.pgroup then neg w.process.pid else w.process.pid

-- A signal at or past the deadline, to the process watched.
pub record IsDue (w : Watch) (number : ℕ) (s : Signal) : Type 0 where
  pub ms : ℕ
  pub has_timeout : w.timeout_ms ≡ some ms
  pub to_process : s.target ≡ target_of w
  pub is_number : s.number ≡ number
  pub past : ms * nanos_per_ms ≤ s.nanos

-- The same with the time of grace over.
pub record IsOverdue (w : Watch) (s : Signal) : Type 0 where
  pub due : IsDue w sigkill s
  pub deadline : ℕ
  pub has_timeout : w.timeout_ms ≡ some deadline
  pub no_grace : w.kill_grace_ms < (s.nanos - deadline * nanos_per_ms) / nanos_per_ms

-- The signals that a state stands for.
abbrev pub Sent : Watch → KillState → List Signal → Type 0
Sent w KillState.none xs = xs ≡ []
Sent w KillState.term_sent xs =
    (s : Signal) × (xs ≡ s ∷ []) × (w.cancel ≡ CancelPolicy.graceful) × IsDue w sigterm s
Sent w KillState.kill_sent xs =
    ((s : Signal) × (xs ≡ s ∷ []) × (w.cancel ≡ CancelPolicy.graceful) × IsDue w sigterm s)
    ⊎ ((s : Signal) × (xs ≡ s ∷ []) × (w.cancel ≡ CancelPolicy.kill) × IsDue w sigkill s)
    ⊎ ((s t : Signal) × (xs ≡ s ∷ t ∷ [])
        × (w.cancel ≡ CancelPolicy.graceful)
        × IsDue w sigterm s
        × IsOverdue w t)

-- The log has these signals behind the ones from before.
pub record Standing (w : Watch) (before : List Signal) (state : KillState) (s : Sys) : Type 0 where
  pub sent : List Signal
  pub logged : signals s.log ≡ before ++ sent
  pub allowed : Sent w state sent

pub Standing-Grown :
    (w : Watch) (before : List Signal) (state : KillState) (s s' : Sys)
    → Grown IsQuiet s.log s'.log
    → Standing w before state s
    → Standing w before state s'
Standing-Grown w before state s s' g h = record {
  sent = h.sent;
  logged = signals-Grown g ∙ h.logged;
  allowed = h.allowed;
}

-- What a result of `kill` or `kill_pgroup` says of the answer: a process that is gone is no error.
abbrev pub KillTells : Result (Unit {0}) → Answer → Type 0
KillTells (ok _) a = ((n : ℕ) × (a.ret ≡ pos n)) ⊎ (IsFailure a.ret × (a.errno ≡ esrch))
KillTells (err e) a = IsFailure a.ret × (a.errno ≢ esrch)

-- One signal, and the answer to it.
pub record Killed (target : ℤ) (sig : ℕ) (s : Sys) (r : Result (Unit {0})) (s' : Sys) : Type 0 where
  pub answer : Answer
  pub log : s'.log ≡ record { call = kill target sig; answer = answer } ∷ s.log
  pub used : length s'.script < length s.script
  pub tells : KillTells r answer

abbrev after_kill : String → Answer → ℕ → Io (Result (Unit {0}))
after_kill op a e = elim a.ret [
  | pos n ↦ pure (ok tt)
  | negsuc n ↦ if e == esrch then pure (ok tt) else syscall_ret minus_one op
]

-- What follows a `kill` makes no call.
after_kill_lem :
    (target : ℤ) (sig : ℕ) (op : String) (s s' : Sys) (a : Answer)
    → Performed (kill target sig) s a s'
    → Post (Killed target sig s) (λ w. w ≡ s) (after_kill op a s'.errno s')
unfolding last_os_error syscall_ret
after_kill_lem target sig op s s' a p = by_ret a.ret refl
  where
    by_ret :
        (ret : ℤ)
        → a.ret ≡ ret
        → Post
            (Killed target sig s)
            (λ w. w ≡ s)
            (elim ret as (λ _. Io (Result (Unit {0}))) [
              | pos n ↦ pure (ok tt)
              | negsuc n ↦ if s'.errno == esrch then pure (ok tt) else syscall_ret minus_one op
            ]
              s')
    by_ret (pos n) e = record { answer = a; log = p.log; used = p.used; tells = inl (n, e) }
    by_ret (negsuc n) e =
        let failed : IsFailure a.ret = subst IsFailure (sym e) tt in
        elim (Bool-cases (s'.errno == esrch)) [
          | inl gone ↦ rw gone (record {
            answer = a;
            log = p.log;
            used = p.used;
            tells = inr (failed, ground (arith, gone, p.errno));
          })
          | inr other ↦ rw other (record {
            answer = a;
            log = p.log;
            used = p.used;
            tells = (failed, ground (arith, other, p.errno));
          })
        ]

kill_lem :
    (target : ℤ) (sig : ℕ) (op : String) (s : Sys)
    → Post
        (Killed target sig s)
        (λ s'. s' ≡ s)
        ((perform (kill target sig) >>= λ r. last_os_error >>= λ e. after_kill op r e) s)
unfolding last_os_error
kill_lem target sig op s =
    Post-bind (Performed (kill target sig) s) (Killed target sig s) (λ s'. s' ≡ s)
      (perform (kill target sig)) _ s
      (Post-mono (Performed (kill target sig) s) (Performed (kill target sig) s) (Stopped s)
        (λ s'. s' ≡ s) (perform (kill target sig) s) (λ a s' p. p) (λ s' e. e.0)
        (perform_lem (kill target sig) s))
      (λ a s' p. after_kill_lem target sig op s s' a p)

pub send_lem :
    (w : Watch) (sig : ℕ) (s : Sys)
    → Post (Killed (target_of w) sig s) (λ s'. s' ≡ s) (send w sig s)
unfolding send kill_pgroup kill_process
send_lem w sig s = elim (Bool-cases (target_is_group w.pgroup)) [
  | inl e ↦ rw e (kill_lem (neg w.process.pid) sig "kill_pgroup" s)
  | inr e ↦ rw e (kill_lem w.process.pid sig "kill" s)
]
