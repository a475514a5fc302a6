-- ===== src/System/Shutdown/Handlers.antt =====
-- sys/mod.rs: the handlers that are in place around `install_shutdown_flag`.
use coreshift_lowlevel.Prelude.{
  ℕ, ℤ, pos, minus_one, Bool, true, false, Option, some, ◌≡◌, refl, ◌⊎◌, inl, inr, List, [], ◌∷◌,
  ◌==◌, eq_int, if◌then◌else◌, arith, Bool-cases, ap, ◌∙◌, subst,
}
use coreshift_lowlevel.Os.{
  Call, Answer, Sys, Happened, Handler, shutdown_handler, sigaction, Io, pure, ◌>>=◌, perform, Post,
  Post-bind, Post-perform, last_os_error,
}
use coreshift_lowlevel.Error.{SysError, Result, ok, err, sys}
use coreshift_lowlevel.System.Shutdown.{
  sigint, sigterm, sigaction_op, install_signal_handler, restore_signal_handler,
  last_sigaction_error, install_shutdown_flag,
}

-- The handler of a signal after a call that succeeded.
abbrev pub set_by : ℕ → Call → ℤ → Handler → Handler
set_by sig (sigaction k handler) ret before =
    if sig == k then (if eq_int ret minus_one then before else handler) else before
set_by sig _ ret before = before

-- The handler of a signal after a log, with what was there before it.
unfoldable pub handler_of : (ℕ → Handler) → List Happened → ℕ → Handler
handler_of table [] sig = table sig
handler_of table (h ∷ log) sig = set_by sig h.call h.answer.ret (handler_of table log sig)

-- The next call, if it is this one, reports this handler as the old one.
abbrev pub Reports : Call → List (Call → Answer) → Handler → Type 0
Reports c [] handler = Unit
Reports c (f ∷ rest) handler = (f c).old_action ≡ handler

-- How the handlers and the static pointer stand afterwards.
abbrev pub Placed : (ℕ → Handler) → ℕ → Option ℕ → Sys → Option ℕ × Result (Unit {0}) → Sys → Type 0
Placed table flag published s (now, ok _) s' =
    (now ≡ some flag)
    × (handler_of table s'.log sigint ≡ shutdown_handler)
    × (handler_of table s'.log sigterm ≡ shutdown_handler)
Placed table flag published s (now, err e) s' =
    (now ≡ published)
    × (handler_of table s'.log sigterm ≡ handler_of table s.log sigterm)
    × ((handler_of table s'.log sigint ≡ handler_of table s.log sigint)
        ⊎ ((handler_of table s'.log sigint ≡ shutdown_handler)
            × (e ≡ sys (pos s'.errno) (sigaction_op sigint))))

abbrev Free : Sys → Type 0
Free _ = Unit

-- One call of `sigaction` that is done, and what was made of its answer.
record Set (A : Type 0) (value : Answer → A) (sig : ℕ) (handler : Handler) (s : Sys) (r : Result A)
    (s' : Sys) : Type 0 where
  last : Answer
  log : s'.log ≡ record { call = sigaction sig handler; answer = last } ∷ s.log
  outcome :
      ((eq_int last.ret minus_one ≡ false) × (r ≡ ok (value last)))
      ⊎ ((eq_int last.ret minus_one ≡ true) × (r ≡ err (sys (pos s'.errno) (sigaction_op sig))))
  reported : (h : Handler) → Reports (sigaction sig handler) s.script h → last.old_action ≡ h

Post-set :
    (A : Type 0) (value : Answer → A) (sig : ℕ) (handler : Handler) (s : Sys)
    → Post (Set A value sig handler s) Free (
        (perform (sigaction sig handler) >>= λ a.
        if eq_int a.ret minus_one
        then (last_sigaction_error sig >>= λ e. pure (err e))
        else pure (ok (value a)))
          s)
unfolding last_sigaction_error last_os_error
Post-set A value sig handler s =
    Post-bind
      (λ a s'.
        (s'.log ≡ record { call = c; answer = a } ∷ s.log)
        × ((h : Handler) → Reports c s.script h → a.old_action ≡ h))
      (Set A value sig handler s) Free (perform c) _ s
      (Post-perform _ Free c s (λ f rest e. (refl, λ h p. subst (λ script. Reports c script h) e p))
        (λ _. tt))
      (λ a s' p. decided a s' p.0 p.1 (Bool-cases (eq_int a.ret minus_one)))
  where
    c : Call
    c = sigaction sig handler

    decided :
        (a : Answer) (s' : Sys)
        → s'.log ≡ record { call = c; answer = a } ∷ s.log
        → ((h : Handler) → Reports c s.script h → a.old_action ≡ h)
        → (eq_int a.ret minus_one ≡ true) ⊎ (eq_int a.ret minus_one ≡ false)
        → Post (Set A value sig handler s) Free (
            (if eq_int a.ret minus_one
                then (last_sigaction_error sig >>= λ e. pure (err e))
                else pure (ok (value a)))
              s')
    decided a s' l q (inl t) =
        rw t (record { last = a; log = l; outcome = inr (t, refl); reported = q })
    decided a s' l q (inr f) =
        rw f (record { last = a; log = l; outcome = inl (f, refl); reported = q })

-- The handler of a signal after one more call of `sigaction`.
handler_after :
    (table : ℕ → Handler) (sig k : ℕ) (handler : Handler) (a : Answer) (s s' : Sys)
    → s'.log ≡ record { call = sigaction k handler; answer = a } ∷ s.log
    → handler_of table s'.log sig
      ≡ set_by sig (sigaction k handler) a.ret (handler_of table s.log sig)
unfolding handler_of
handler_after table sig k handler a s s' e = ap (λ l. handler_of table l sig) e

abbrev installed_old : Answer → Handler
installed_old a = a.old_action

abbrev no_value : Answer → Unit {0}
no_value a = tt

-- A call that failed changed nothing; one that succeeded put its handler in place.
set_failed :
    {A : Type 0} (table : ℕ → Handler) (value : Answer → A) (sig k : ℕ) (handler : Handler)
    (e : SysError) (s s' : Sys)
    → Set A value k handler s (err e) s'
    → (handler_of table s'.log sig ≡ handler_of table s.log sig)
      × (e ≡ sys (pos s'.errno) (sigaction_op k))
set_failed table value sig k handler e s s' p = elim p.outcome [
  | inl o ↦ absurd (cc o.1)
  | inr o ↦ (
    handler_after table sig k handler p.last s s' p.log
        ∙ kept (sig == k) (eq_int p.last.ret minus_one) (handler_of table s.log sig) handler o.0,
    cc o.1,
  )
]
  where
    kept :
        (b t : Bool) (before after : Handler)
        → t ≡ true
        → (if b then (if t then before else after) else before) ≡ before
    kept b t before after h = ground arith

set_done :
    {A : Type 0} (table : ℕ → Handler) (value : Answer → A) (sig k : ℕ) (handler : Handler) (v : A)
    (s s' : Sys)
    → Set A value k handler s (ok v) s'
    → handler_of table s'.log sig ≡ (if sig == k then handler else handler_of table s.log sig)
set_done table value sig k handler v s s' p = elim p.outcome [
  | inl o ↦
      handler_after table sig k handler p.last s s' p.log
      ∙ set (sig == k) (eq_int p.last.ret minus_one) (handler_of table s.log sig) handler o.0
  | inr o ↦ absurd (cc o.1)
]
  where
    set :
        (b t : Bool) (before after : Handler)
        → t ≡ false
        → (if b then (if t then before else after) else before) ≡ (if b then after else before)
    set b t before after h = ground arith

-- The old handler that is given back is the one that was in place.
set_old :
    (handler before : Handler) (v : Handler) (k : ℕ) (s s' : Sys)
    → Reports (sigaction k handler) s.script before
    → Set Handler installed_old k handler s (ok v) s'
    → v ≡ before
set_old handler before v k s s' r p = elim p.outcome [
  | inl o ↦ cc (o.1, p.reported before r)
  | inr o ↦ absurd (cc o.1)
]

-- `install_shutdown_flag` publishes the flag and has both signals handled, or it returns an error, and then
-- neither the published flag nor the handler of SIGTERM has changed, and the handler of SIGINT is
-- back, or its restoration failed and it is this error that is returned. It returns or waits in a call. The
-- kernel reports the handler of SIGINT that is in place.
pub install_shutdown_flag_lem :
    (table : ℕ → Handler) (flag : ℕ) (published : Option ℕ) (s : Sys)
    → Reports (sigaction sigint shutdown_handler) s.script (handler_of table s.log sigint)
    → Post (Placed table flag published s) Free (install_shutdown_flag flag published s)
unfolding install_shutdown_flag install_signal_handler restore_signal_handler
install_shutdown_flag_lem table flag published s reports =
    Post-bind (Set Handler installed_old sigint shutdown_handler s) (Placed table flag published s)
      Free (install_signal_handler sigint) _ s
      (Post-set Handler installed_old sigint shutdown_handler s) first_done
  where
    sigterm_kept :
        (e : SysError) (old : Handler) (s₁ s₂ : Sys)
        → Set Handler installed_old sigint shutdown_handler s (ok old) s₁
        → Set Handler installed_old sigterm shutdown_handler s₁ (err e) s₂
        → handler_of table s₂.log sigterm ≡ handler_of table s.log sigterm
    sigterm_kept e old s₁ s₂ p q =
        (set_failed table installed_old sigterm sigterm shutdown_handler e s₁ s₂ q).0
        ∙ set_done table installed_old sigterm sigint shutdown_handler old s s₁ p

    restored :
        (e : SysError) (old : Handler) (s₁ s₂ : Sys)
        → old ≡ handler_of table s.log sigint
        → Set Handler installed_old sigint shutdown_handler s (ok old) s₁
        → Set Handler installed_old sigterm shutdown_handler s₁ (err e) s₂
        → (back : Result (Unit {0})) (s₃ : Sys) → Set (Unit {0}) no_value sigint old s₂ back s₃
        → Post
            (Placed table flag published s)
            Free
            (pure (published, elim back [ ok _ ↦ err e | err e' ↦ err e' ]) s₃)
    restored e old s₁ s₂ o p q (ok tt) s₃ r = (
      refl,
      set_done table no_value sigterm sigint old tt s₂ s₃ r ∙ sigterm_kept e old s₁ s₂ p q,
      inl (set_done table no_value sigint sigint old tt s₂ s₃ r ∙ o),
    )
    restored e old s₁ s₂ o p q (err e') s₃ r = (
      refl,
      (set_failed table no_value sigterm sigint old e' s₂ s₃ r).0 ∙ sigterm_kept e old s₁ s₂ p q,
      inr (
        (set_failed table no_value sigint sigint old e' s₂ s₃ r).0
            ∙ (set_failed table installed_old sigint sigterm shutdown_handler e s₁ s₂ q).0
            ∙ set_done table installed_old sigint sigint shutdown_handler old s s₁ p,
        (set_failed table no_value sigint sigint old e' s₂ s₃ r).1,
      ),
    )

    second_done :
        (old : Handler) (s₁ : Sys)
        → Set Handler installed_old sigint shutdown_handler s (ok old) s₁
        → (r : Result Handler) (s₂ : Sys)
        → Set Handler installed_old sigterm shutdown_handler s₁ r s₂
        → Post (Placed table flag published s) Free (
            (elim r as (λ _. Io (Option ℕ × Result (Unit {0}))) [
              | ok _ ↦ pure (some flag, ok tt)
              | err e ↦ restore_signal_handler sigint old >>= λ back.
                  pure (published, elim back [ ok _ ↦ err e | err e' ↦ err e' ])
            ])
              s₂)
    second_done old s₁ p (ok v) s₂ q = (
      refl,
      set_done table installed_old sigint sigterm shutdown_handler v s₁ s₂ q
          ∙ set_done table installed_old sigint sigint shutdown_handler old s s₁ p,
      set_done table installed_old sigterm sigterm shutdown_handler v s₁ s₂ q,
    )
    second_done old s₁ p (err e) s₂ q =
        Post-bind (Set (Unit {0}) no_value sigint old s₂) (Placed table flag published s) Free
          (restore_signal_handler sigint old) _ s₂ (Post-set (Unit {0}) no_value sigint old s₂)
          (restored e old s₁ s₂
            (set_old shutdown_handler (handler_of table s.log sigint) old sigint s s₁ reports p) p
            q)

    first_done :
        (r : Result Handler) (s₁ : Sys)
        → Set Handler installed_old sigint shutdown_handler s r s₁
        → Post (Placed table flag published s) Free (
            (elim r as (λ _. Io (Option ℕ × Result (Unit {0}))) [
              | err e ↦ pure (published, err e)
              | ok old ↦ install_signal_handler sigterm >>= λ second.
                  elim second as (λ _. Io (Option ℕ × Result (Unit {0}))) [
                    | ok _ ↦ pure (some flag, ok tt)
                    | err e ↦ restore_signal_handler sigint old >>= λ back.
                        pure (published, elim back [ ok _ ↦ err e | err e' ↦ err e' ])
                  ]
            ])
              s₁)
    first_done (err e) s₁ p = (
      refl,
      (set_failed table installed_old sigterm sigint shutdown_handler e s s₁ p).0,
      inl (set_failed table installed_old sigint sigint shutdown_handler e s s₁ p).0,
    )
    first_done (ok old) s₁ p =
        Post-bind (Set Handler installed_old sigterm shutdown_handler s₁)
          (Placed table flag published s) Free (install_signal_handler sigterm) _ s₁
          (Post-set Handler installed_old sigterm shutdown_handler s₁) (second_done old s₁ p)
