-- ===== src/Spawn/WaitLoop/Deadline.antt =====
-- spawn/mod.rs: the part of a round of `wait_loop` that looks at the clock.
use coreshift_lowlevel.Prelude.{
  ℕ, ◌-◌, ◌*◌, ◌/◌, ◌≤◌, ◌≡◌, refl, sym, ◌∙◌, ap, subst, List, [], ◌∷◌, ◌++◌, append_assoc, ℤ, pos,
  minus_one, Bool, true, Option, none, some, inl, inr, arith, length, ltb, leb, Bool-cases,
  if◌then◌else◌, min, ltb→lt, leb→le,
}
use coreshift_lowlevel.Os.{
  Answer, Sys, elapsed, Io, pure, ◌>>=◌, perform, Post, Post-bind, Post-mono, Performed, Stopped,
  perform_lem,
}
use coreshift_lowlevel.Os.Traces.{Grown, same, grow}
use coreshift_lowlevel.Error.{Result, ok, err}
use coreshift_lowlevel.System.Exec.{CancelPolicy}
use coreshift_lowlevel.Spawn.Process.{sigkill, sigterm}
use coreshift_lowlevel.Spawn.WaitLoop.{
  KillState, Watch, send, after_term, first_signal, escalate, check_deadline, nanos_per_ms, i32_max,
}
use coreshift_lowlevel.Spawn.WaitLoop.Frames.{IsQuiet}
use coreshift_lowlevel.Spawn.WaitLoop.Signals.{
  Signal, latest, signals, target_of, IsDue, Sent, Standing, Standing-Grown, Killed, send_lem,
}

-- A world in which the clock has just shown a time past the deadline.
record IsLate (w : Watch) (ms : ℕ) (s : Sys) : Type 0 where
  has_timeout : w.timeout_ms ≡ some ms
  past : ms * nanos_per_ms ≤ latest s.log

-- The signal that would be sent now.
abbrev fresh : Watch → ℕ → Sys → Signal
fresh w sig s = record { target = target_of w; number = sig; nanos = latest s.log }

due : (w : Watch) (ms : ℕ) (s : Sys) (sig : ℕ) → IsLate w ms s → IsDue w sig (fresh w sig s)
due w ms s sig l = record {
  ms = ms;
  has_timeout = l.has_timeout;
  to_process = refl;
  is_number = refl;
  past = l.past;
}

pub signals-Killed :
    (target : ℤ) (sig : ℕ) (s : Sys) (r : Result (Unit {0})) (s' : Sys)
    → Killed target sig s r s'
    → signals s'.log
      ≡ signals s.log ++ (record { target = target; number = sig; nanos = latest s.log } ∷ [])
unfolding signals
signals-Killed target sig s r s' k = ap signals k.log

-- What a part of the loop leaves: the state that it returns stands, and the script did not grow.
abbrev pub Left : Watch → List Signal → Sys → KillState → Sys → Type 0
Left w before s state s' = Standing w before state s' × (length s'.script ≤ length s.script)

abbrev pub Stays : Watch → List Signal → Sys → Type 0
Stays w before s = (state : KillState) × Standing w before state s

module _ (w : Watch) (before : List Signal) (ms : ℕ) (s : Sys) (late : IsLate w ms s) where
  stands_still :
      (state : KillState) → Standing w before state s → (s' : Sys) → s' ≡ s → Stays w before s'
  stands_still state h s' e = subst (Stays w before) (sym e) (state, h)

  -- One more signal.
  one_more :
      (sig : ℕ) (state state' : KillState) (h : Standing w before state s)
      → Sent w state' (h.sent ++ (fresh w sig s ∷ []))
      → (r : Result (Unit {0})) (s' : Sys) → Killed (target_of w) sig s r s'
      → Left w before s state' s'
  one_more sig state state' h a r s' k = (
    record {
      sent = h.sent ++ (fresh w sig s ∷ []);
      logged =
          signals-Killed (target_of w) sig s r s' k
          ∙ ap (λ t. t ++ (fresh w sig s ∷ [])) h.logged
          ∙ append_assoc before h.sent (fresh w sig s ∷ []);
      allowed = a;
    },
    omega (arith, k.used),
  )

  after_send :
      (sig : ℕ) (state : KillState) (f : Result (Unit {0}) → Io KillState)
      → Standing w before state s
      → ((r : Result (Unit {0})) (s' : Sys)
          → Killed (target_of w) sig s r s'
          → Post (Left w before s) (Stays w before) (f r s'))
      → Post (Left w before s) (Stays w before) ((send w sig >>= f) s)
  after_send sig state f h next =
      Post-bind (Killed (target_of w) sig s) (Left w before s) (Stays w before) (send w sig) f s
        (Post-mono (Killed (target_of w) sig s) (Killed (target_of w) sig s) (λ s'. s' ≡ s)
          (Stays w before) (send w sig s) (λ _ s' k. k) (stands_still state h) (send_lem w sig s))
        next

  asked :
      (h : Standing w before KillState.none s)
      → w.cancel ≡ CancelPolicy.graceful
      → (r : Result (Unit {0})) (s' : Sys) → Killed (target_of w) sigterm s r s'
      → Left w before s (after_term r) s'
  asked h e (ok u) s' k =
      one_more sigterm KillState.none KillState.term_sent h
        (
          fresh w sigterm s,
          ap (λ t. t ++ (fresh w sigterm s ∷ [])) h.allowed,
          e,
          due w ms s sigterm late,
        )
        (ok u) s' k
  asked h e (err x) s' k =
      one_more sigterm KillState.none KillState.kill_sent h
        (inl (
          fresh w sigterm s,
          ap (λ t. t ++ (fresh w sigterm s ∷ [])) h.allowed,
          e,
          due w ms s sigterm late,
        ))
        (err x) s' k

  first_signal_lem :
      (cancel : CancelPolicy)
      → w.cancel ≡ cancel
      → Standing w before KillState.none s
      → Post (Left w before s) (Stays w before) (first_signal w cancel s)
  unfolding first_signal
  first_signal_lem CancelPolicy.none e h = (h, omega arith)
  first_signal_lem CancelPolicy.kill e h =
      after_send sigkill KillState.none (λ _. pure KillState.kill_sent) h
        (one_more sigkill KillState.none KillState.kill_sent h (
          inr (
            inl (
              fresh w sigkill s,
              ap (λ t. t ++ (fresh w sigkill s ∷ [])) h.allowed,
              e,
              due w ms s sigkill late,
            ))))
  first_signal_lem CancelPolicy.graceful e h =
      after_send sigterm KillState.none (λ r. pure (after_term r)) h (asked h e)

  -- `elapsed_over` is the whole milliseconds since the deadline.
  escalate_lem :
      (state : KillState)
      → Standing w before state s
      → Post
          (Left w before s)
          (Stays w before)
          (escalate w ((latest s.log - ms * nanos_per_ms) / nanos_per_ms) state s)
  unfolding escalate
  escalate_lem KillState.none h = first_signal_lem w.cancel refl h
  escalate_lem KillState.kill_sent h = (h, omega arith)
  escalate_lem KillState.term_sent h =
      let over = (latest s.log - ms * nanos_per_ms) / nanos_per_ms in
      elim (Bool-cases (ltb w.kill_grace_ms over)) [
        | inr e ↦ rw e (h, omega arith)
        | inl e ↦
            let (first, one, graceful, asked_first) = h.allowed in
            rw e (
              after_send sigkill KillState.term_sent (λ _. pure KillState.kill_sent) h
                (one_more sigkill KillState.term_sent KillState.kill_sent h (
                  inr (
                    inr (
                      first,
                      fresh w sigkill s,
                      ap (λ t. t ++ (fresh w sigkill s ∷ [])) one,
                      graceful,
                      asked_first,
                      record {
                        due = due w ms s sigkill late;
                        deadline = ms;
                        has_timeout = late.has_timeout;
                        no_grace = ltb→lt w.kill_grace_ms over e;
                      },
                    )))))
      ]

-- `timed_out` is set once a signal was sent.
abbrev pub Marked : KillState → Bool → Type 0
Marked KillState.none t = Unit
Marked KillState.term_sent t = t ≡ true
Marked KillState.kill_sent t = t ≡ true

Marked-true : (state : KillState) → Marked state true
Marked-true KillState.none = tt
Marked-true KillState.term_sent = refl
Marked-true KillState.kill_sent = refl

abbrev pub Checked : Watch → List Signal → Sys → KillState × Bool × ℤ → Sys → Type 0
Checked w before s out s' =
    Standing w before out.0 s' × Marked out.0 out.1 × (length s'.script ≤ length s.script)

-- The rest of that part, with the time that the clock has shown.
abbrev pub at_time : Watch → KillState → Bool → ℕ → ℕ → Io (KillState × Bool × ℤ)
at_time w state timed_out ms now =
    let dl = ms * nanos_per_ms in
    if leb dl now
    then (escalate w ((now - dl) / nanos_per_ms) state >>= λ state'. pure (state', true, pos 100))
    else pure (state, timed_out, pos (min ((dl - now) / nanos_per_ms) i32_max))

at_time_lem :
    (w : Watch) (before : List Signal) (state : KillState) (timed_out : Bool) (ms : ℕ) (a : Answer)
    (s s' : Sys)
    → w.timeout_ms ≡ some ms
    → Performed elapsed s a s'
    → Standing w before state s
    → Marked state timed_out
    → Post (Checked w before s) (Stays w before) (at_time w state timed_out ms a.nanos s')
unfolding latest
at_time_lem w before state timed_out ms a s s' e p h mark =
    let stands =
      Standing-Grown w before state s s' (subst (Grown IsQuiet s.log) (sym p.log) (grow _ tt same))
        h in
    elim (Bool-cases (leb (ms * nanos_per_ms) a.nanos)) [
      | inr early ↦ rw early (stands, mark, omega (arith, p.used))
      | inl late ↦
          let now : latest s'.log ≡ a.nanos = ap latest p.log in
          let lateness : IsLate w ms s' = record {
            has_timeout = e;
            past =
                subst (λ n. ms * nanos_per_ms ≤ n) (sym now)
                  (leb→le (ms * nanos_per_ms) a.nanos late);
          } in
          rw late (
            Post-bind (Left w before s') (Checked w before s) (Stays w before)
              (escalate w ((a.nanos - ms * nanos_per_ms) / nanos_per_ms) state)
              (λ state'. pure (state', true, pos 100)) s'
              (subst
                (λ n.
                  Post (Left w before s') (Stays w before)
                    (escalate w ((n - ms * nanos_per_ms) / nanos_per_ms) state s'))
                now (escalate_lem w before ms s' lateness state stands))
              (λ state' s'' l. (l.0, Marked-true state', omega (arith, p.used, l.1))))
    ]

pub check_deadline_lem :
    (w : Watch) (before : List Signal) (state : KillState) (timed_out : Bool) (s : Sys)
    → Standing w before state s
    → Marked state timed_out
    → Post (Checked w before s) (Stays w before) (check_deadline w state timed_out s)
unfolding check_deadline
check_deadline_lem w before state timed_out s h mark = go w.timeout_ms refl
  where
    go :
        (timeout : Option ℕ)
        → w.timeout_ms ≡ timeout
        → Post (Checked w before s) (Stays w before) (
            (elim timeout as (λ _. Io (KillState × Bool × ℤ)) [
              | none ↦ pure (state, timed_out, minus_one)
              | some ms ↦ perform elapsed >>= λ a. at_time w state timed_out ms a.nanos
            ])
              s)
    go none e = (h, mark, omega arith)
    go (some ms) e =
        Post-bind (Performed elapsed s) (Checked w before s) (Stays w before) (perform elapsed)
          (λ a. at_time w state timed_out ms a.nanos) s
          (Post-mono (Performed elapsed s) (Performed elapsed s) (Stopped s) (Stays w before)
            (perform elapsed s) (λ a s' p. p) (λ s' d. subst (Stays w before) (sym d.0) (state, h))
            (perform_lem elapsed s))
          (λ a s' p. at_time_lem w before state timed_out ms a s s' e p h mark)
