-- ===== src/Spawn/WaitLoop/Enforcement.antt =====
-- spawn/mod.rs: `wait_loop` and its deadline, at one look at the clock.
use coreshift_lowlevel.Prelude.{
  ℕ, ◌-◌, ◌*◌, ◌/◌, ◌≤◌, ◌<◌, ◌≡◌, ◌⊎◌, ◌≢◌, refl, sym, ◌∙◌, ap, subst, List, [], ◌∷◌, ◌++◌, ltb→lt,
  ℤ, pos, minus_one, Bool, true, none, some, inl, inr, arith, ltb, leb, min, Bool-cases, leb→le,
  append-nil,
}
use coreshift_lowlevel.Os.{
  IsFailure, Happened, kill, Answer, Sys, elapsed, Io, pure, ◌>>=◌, perform, Post, Post-bind,
  Post-mono, Performed, Stopped, perform_lem,
}
use coreshift_lowlevel.Error.{Result, ok, err}
use coreshift_lowlevel.System.Exec.{CancelPolicy}
use coreshift_lowlevel.Spawn.Process.{sigkill, sigterm}
use coreshift_lowlevel.Spawn.WaitLoop.{
  KillState, Watch, send, after_term, first_signal, escalate, check_deadline, nanos_per_ms, i32_max,
}
use coreshift_lowlevel.Spawn.WaitLoop.Signals.{
  Signal, latest, signals, target_of, KillTells, Killed, send_lem,
}
use coreshift_lowlevel.Fd.{Newest, esrch}
use coreshift_lowlevel.Spawn.WaitLoop.Deadline.{at_time, signals-Killed}

-- The answer to the newest signal.
abbrev pub NewestKill : Watch → ℕ → (Answer → Type 0) → List Happened → Type 0
NewestKill w sig P log = Newest (kill (target_of w) sig) P log

abbrev pub signal_now : Watch → ℕ → ℕ → Signal
signal_now w sig now = record { target = target_of w; number = sig; nanos = now }

-- The first signal by the policy. After a SIGTERM that fails, but for a process that is gone, there
-- is no further signal to come.
abbrev pub FirstSent : Watch → CancelPolicy → ℕ → KillState → List Signal → List Happened → Type 0
FirstSent w CancelPolicy.none now state' sent log = (sent ≡ []) × (state' ≡ KillState.none)
FirstSent w CancelPolicy.kill now state' sent log =
    (sent ≡ signal_now w sigkill now ∷ []) × (state' ≡ KillState.kill_sent)
FirstSent w CancelPolicy.graceful now state' sent log =
    (sent ≡ signal_now w sigterm now ∷ [])
    × (((state' ≡ KillState.term_sent) × NewestKill w sigterm (KillTells (ok tt)) log)
        ⊎ ((state' ≡ KillState.kill_sent)
            × NewestKill w sigterm (λ a. IsFailure a.ret × (a.errno ≢ esrch)) log))

-- What a state past the deadline by so many milliseconds has sent, and the state after it.
abbrev pub NextSent : Watch → ℕ → ℕ → KillState → KillState → List Signal → List Happened → Type 0
NextSent w over now KillState.none state' sent log = FirstSent w w.cancel now state' sent log
NextSent w over now KillState.term_sent state' sent log =
    ((w.kill_grace_ms < over)
      × (sent ≡ signal_now w sigkill now ∷ [])
      × (state' ≡ KillState.kill_sent))
    ⊎ ((over ≤ w.kill_grace_ms) × (sent ≡ []) × (state' ≡ KillState.term_sent))
NextSent w over now KillState.kill_sent state' sent log =
    (sent ≡ []) × (state' ≡ KillState.kill_sent)

abbrev pub over_by : ℕ → List Happened → ℕ
over_by ms log = (latest log - ms * nanos_per_ms) / nanos_per_ms

-- Whole milliseconds are no more than the time.
whole_ms : (x y : ℕ) → x ≤ y → min (x / nanos_per_ms) i32_max * nanos_per_ms ≤ y
whole_ms x y h = omega arith

-- What one look at the clock has decided, by the time that it showed.
abbrev pub Enforced : Watch → ℕ → KillState → Bool → Sys → KillState × Bool × ℤ → Sys → Type 0
Enforced w ms state timed_out s out s' =
    ((ms * nanos_per_ms ≤ latest s'.log)
      × (out.1 ≡ true)
      × (out.2 ≡ pos 100)
      × ((sent : List Signal) × (signals s'.log ≡ signals s.log ++ sent)
          × NextSent w (over_by ms s'.log) (latest s'.log) state out.0 sent s'.log))
    ⊎ ((latest s'.log < ms * nanos_per_ms)
        × (out.0 ≡ state)
        × (out.1 ≡ timed_out)
        × (signals s'.log ≡ signals s.log)
        × ((t : ℕ) × (out.2 ≡ pos t) × (t * nanos_per_ms ≤ ms * nanos_per_ms - latest s'.log)))

module _ (w : Watch) (s : Sys) where
  -- The clock is not read again, and the log has these signals more.
  abbrev Acted : (KillState → List Signal → List Happened → Type 0) → KillState → Sys → Type 0
  Acted P state' s' =
      (latest s'.log ≡ latest s.log)
      × ((sent : List Signal) × (signals s'.log ≡ signals s.log ++ sent) × P state' sent s'.log)

  abbrev Anything : Sys → Type 0
  Anything _ = Unit

  idle :
      (P : KillState → List Signal → List Happened → Type 0) (state : KillState)
      → P state [] s.log
      → Acted P state s
  idle P state h = (refl, ([], sym (append-nil (signals s.log)), h))

  after_send :
      (P : KillState → List Signal → List Happened → Type 0) (sig : ℕ)
      (f : Result (Unit {0}) → KillState)
      → ((r : Result (Unit {0})) (log : List Happened)
          → NewestKill w sig (KillTells r) log
          → P (f r) (signal_now w sig (latest s.log) ∷ []) log)
      → Post (Acted P) Anything ((send w sig >>= λ r. pure (f r)) s)
  unfolding latest
  after_send P sig f h =
      Post-bind (Killed (target_of w) sig s) (Acted P) Anything (send w sig) (λ r. pure (f r)) s
        (Post-mono (Killed (target_of w) sig s) (Killed (target_of w) sig s) (λ s'. s' ≡ s) Anything
          (send w sig s) (λ _ s' k. k) (λ _ _. tt) (send_lem w sig s))
        (λ r s' k. (
          ap latest k.log,
          (
            signal_now w sig (latest s.log) ∷ [],
            signals-Killed (target_of w) sig s r s' k,
            h r s'.log
                (record { answer = k.answer; older = s.log; newest = k.log; holds = k.tells }),
          ),
        ))

  term_told :
      (r : Result (Unit {0})) (log : List Happened)
      → NewestKill w sigterm (KillTells r) log
      → FirstSent w CancelPolicy.graceful
          (latest s.log)
          (after_term r)
          (signal_now w sigterm (latest s.log) ∷ [])
          log
  term_told (ok _) log n = (refl, inl (refl, n))
  term_told (err e) log n = (refl, inr (refl, n))

  first_signal_acts :
      (cancel : CancelPolicy)
      → Post (Acted (FirstSent w cancel (latest s.log))) Anything (first_signal w cancel s)
  unfolding first_signal
  first_signal_acts CancelPolicy.none =
      idle (FirstSent w CancelPolicy.none (latest s.log)) KillState.none (refl, refl)
  first_signal_acts CancelPolicy.kill =
      after_send (FirstSent w CancelPolicy.kill (latest s.log)) sigkill (λ _. KillState.kill_sent)
        (λ r log n. (refl, refl))
  first_signal_acts CancelPolicy.graceful =
      after_send (FirstSent w CancelPolicy.graceful (latest s.log)) sigterm after_term term_told

  escalate_acts :
      (over : ℕ) (state : KillState)
      → Post (Acted (NextSent w over (latest s.log) state)) Anything (escalate w over state s)
  unfolding escalate
  escalate_acts over KillState.none = first_signal_acts w.cancel
  escalate_acts over KillState.kill_sent =
      idle (NextSent w over (latest s.log) KillState.kill_sent) KillState.kill_sent (refl, refl)
  escalate_acts over KillState.term_sent = elim (Bool-cases (ltb w.kill_grace_ms over)) [
    | inr e ↦ rw e (
        idle (NextSent w over (latest s.log) KillState.term_sent) KillState.term_sent
          (inr (ground (arith, e), refl, refl)))
    | inl e ↦ rw e (
        after_send (NextSent w over (latest s.log) KillState.term_sent) sigkill
          (λ _. KillState.kill_sent) (λ r log n. inl (ltb→lt w.kill_grace_ms over e, refl, refl)))
  ]

-- Where there is a timeout, `check_deadline` looks at the clock. At or past the deadline it sets
-- `timed_out`, gives a wait of 100 ms, and sends, to the process or the group of its number: in the
-- first state nothing with the policy `None`, one SIGKILL with `Kill`, one SIGTERM with `Graceful`;
-- after a SIGTERM one SIGKILL where the whole milliseconds past the deadline exceed the grace, and
-- nothing before; after a SIGKILL nothing. The state is the one that stands for it, a SIGTERM that
-- failed, but for a process that is gone, being taken as the last signal. Before the deadline it
-- changes nothing, sends nothing, and gives a wait that ends at the deadline or before. It returns
-- or waits in a call.
pub check_deadline_enforces :
    (w : Watch) (ms : ℕ) (state : KillState) (timed_out : Bool) (s : Sys)
    → w.timeout_ms ≡ some ms
    → Post (Enforced w ms state timed_out s) (λ _. Unit) (check_deadline w state timed_out s)
unfolding check_deadline latest signals
check_deadline_enforces w ms state timed_out s e =
    subst
      (λ t.
        Post (Enforced w ms state timed_out s) (λ _. Unit)
          ((elim t as (λ _. Io (KillState × Bool × ℤ)) [
            | none ↦ pure (state, timed_out, minus_one)
            | some k ↦ perform elapsed >>= λ a. at_time w state timed_out k a.nanos
          ])
            s))
      (sym e)
      (Post-bind (Performed elapsed s) (Enforced w ms state timed_out s) (λ _. Unit)
        (perform elapsed) (λ a. at_time w state timed_out ms a.nanos) s
        (Post-mono (Performed elapsed s) (Performed elapsed s) (Stopped s) (λ _. Unit)
          (perform elapsed s) (λ a s' p. p) (λ _ _. tt) (perform_lem elapsed s))
        (λ a s' p. at_time_enforces a s' p))
  where
    at_time_enforces :
        (a : Answer) (s' : Sys)
        → Performed elapsed s a s'
        → Post
            (Enforced w ms state timed_out s)
            (λ _. Unit)
            (at_time w state timed_out ms a.nanos s')
    at_time_enforces a s' p =
        let now : latest s'.log ≡ a.nanos = ap latest p.log in
        let over = (a.nanos - ms * nanos_per_ms) / nanos_per_ms in
        elim (Bool-cases (leb (ms * nanos_per_ms) a.nanos)) [
          | inl late ↦ rw late (
              Post-bind (Acted w s' (NextSent w over (latest s'.log) state))
                (Enforced w ms state timed_out s) (λ _. Unit) (escalate w over state) _ s'
                (escalate_acts w s' over state)
                (λ state' s'' k. inl (
                  omega (arith, now, k.0, leb→le (ms * nanos_per_ms) a.nanos late),
                  refl,
                  refl,
                  (
                    k.1.0,
                    k.1.1 ∙ ap (λ t. t ++ k.1.0) (ap signals p.log ∙ append-nil (signals s.log)),
                    subst
                        (λ n.
                          NextSent w ((n - ms * nanos_per_ms) / nanos_per_ms) n state state' k.1.0
                            s''.log)
                        (sym k.0)
                        (subst
                          (λ n.
                            NextSent w ((n - ms * nanos_per_ms) / nanos_per_ms) (latest s'.log)
                              state state' k.1.0 s''.log)
                          (sym now) k.1.2),
                  ),
                )))
          | inr early ↦ rw early (
              inr (
                ground (arith, now, early),
                refl,
                refl,
                ap signals p.log ∙ append-nil (signals s.log),
                (
                  min ((ms * nanos_per_ms - a.nanos) / nanos_per_ms) i32_max,
                  refl,
                  whole_ms (ms * nanos_per_ms - a.nanos) (ms * nanos_per_ms - latest s'.log)
                      (omega (arith, now)),
                ),
              ))
        ]
