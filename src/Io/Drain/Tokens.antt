-- ===== src/Io/Drain/Tokens.antt =====
-- io/drain.rs: the tokens that `register_with_reactor` gives.
use coreshift_lowlevel.Prelude.{
  ℕ, ◌+◌, ◌%◌, ◌≤◌, ◌<◌, ◌≡◌, refl, ap, subst, ◌⊎◌, inl, inr, Bool, true, false, Option, none, some,
  arith, ◌&&◌, Bool-cases, ==_iff,
}
use coreshift_lowlevel.Os.{
  Call, close, Sys, Io, pure, ◌>>=◌, ◌>>◌, Post, Post-bind, Post-mono, Stopped,
}
use coreshift_lowlevel.Os.Steps.{
  Steps, Later, After, Steps-int, Steps-bind, Steps-perform, Steps-pure,
}
use coreshift_lowlevel.Error.{Result, ok, err}
use coreshift_lowlevel.Fd.{Fd, drop_fd}
use coreshift_lowlevel.Reactor
use coreshift_lowlevel.Reactor.{Reactor, Token, two_64}
use coreshift_lowlevel.Reactor.Registering.{Added, add_lem, token_of}
use coreshift_lowlevel.Io.Drain.{
  DrainState, FdSlot, register_slot, register_with_reactor, slot_matches, token_is, stdout_matches,
  stderr_matches, stdin_matches,
}

-- A slot that is there has a token between two values of the reactor's counter.
abbrev pub InRange : ℕ → ℕ → Option FdSlot → Type 0
InRange lo hi none = Unit
InRange lo hi (some slot) = (v : ℕ) × (slot.token ≡ some (record { val = v })) × (lo ≤ v) × (v < hi)

-- What registering one slot does, where it succeeds.
abbrev SlotTells : Reactor → Option FdSlot → Reactor → Result (Unit {0}) → Type 0
SlotTells reactor slot reactor' (ok _) =
    (reactor.next_token ≤ reactor'.next_token)
    × (reactor'.next_token ≤ reactor.next_token + 1)
    × InRange reactor.next_token reactor'.next_token slot
SlotTells reactor slot reactor' (err e) = Unit

abbrev Anything : Sys → Type 0
Anything _ = Unit

InRange-matches :
    (lo hi : ℕ) (slot : Option FdSlot) (t : Token)
    → InRange lo hi slot
    → slot_matches slot t ≡ true
    → (lo ≤ t.val) × (t.val < hi)
unfolding slot_matches
InRange-matches lo hi none t h m = absurd cc
InRange-matches lo hi (some slot) t (v, e, ge, lt) m =
    let same : v ≡ t.val = (==_iff v t.val).0 (subst (λ o. token_is o t ≡ true) e m) in
    (omega (arith, same, ge), omega (arith, same, lt))

abbrev AnyCall : Call → Type 0
AnyCall _ = Unit

Steps-drop_fd : (fd : Fd) → Steps AnyCall (drop_fd fd)
unfolding drop_fd
Steps-drop_fd fd =
    Steps-int fd.raw_fd (λ n. Steps-bind (Steps-perform (close fd.raw_fd) tt) (λ _. Steps-pure))
      (λ n. Steps-pure)

register_slot_lem :
    (slot : Option FdSlot) (reactor : Reactor) (readable writable : Bool) (s : Sys)
    → reactor.next_token + 1 < two_64
    → Post
        (λ out _. SlotTells reactor out.0 out.1 out.2)
        Anything
        (register_slot slot reactor readable writable s)
unfolding register_slot
register_slot_lem none reactor readable writable s small = (omega arith, omega arith, tt)
register_slot_lem (some slot) reactor readable writable s small =
    Post-bind (Added reactor slot.fd readable writable s)
      (λ out _. SlotTells reactor out.0 out.1 out.2) Anything
      (Reactor.add reactor slot.fd readable writable) _ s
      (Post-mono (Added reactor slot.fd readable writable s)
        (Added reactor slot.fd readable writable s) (Stopped s) Anything
        (Reactor.add reactor slot.fd readable writable s) (λ a s' p. p) (λ _ _. tt)
        (add_lem reactor slot.fd readable writable s))
      (λ out s' a. decided out.0 out.1 s' a)
  where
    decided :
        (reactor' : Reactor) (r : Result Token) (s' : Sys)
        → Added reactor slot.fd readable writable s (reactor', r) s'
        → Post
            (λ out _. SlotTells reactor out.0 out.1 out.2)
            Anything
            ((elim r as (λ _. Io (Option FdSlot × Reactor × Result (Unit {0}))) [
              | ok token ↦ pure (some (record slot { token = some token }), reactor', ok tt)
              | err e ↦ drop_fd slot.fd >> pure (none, reactor', err e)
            ])
              s')
    decided reactor' (ok token) s' a =
        let counter : reactor'.next_token ≡ (reactor.next_token + 1) % two_64 =
          ap (λ x. x.next_token) a.counted in
        let given : ok token ≡ ok (token_of reactor) = elim a.result [
          | inl (fine, e) ↦ e
          | inr (failed, e) ↦ absurd cc
        ] in
        (
          omega (arith, counter, small),
          omega (arith, counter, small),
          (reactor.next_token, ap token_in given, omega arith, omega (arith, counter, small)),
        )
      where
        token_in : Result Token → Option Token
        token_in (ok t) = some t
        token_in (err e) = none
    decided reactor' (err e) s' a =
        Post-bind (λ _. Later AnyCall s') (λ out _. SlotTells reactor out.0 out.1 out.2) Anything
          (drop_fd slot.fd) _ s'
          (Post-mono (λ _. Later AnyCall s') (λ _. Later AnyCall s') (After AnyCall s') Anything
            (drop_fd slot.fd s') (λ _ _ g. g) (λ _ _. tt) ((Steps-drop_fd slot.fd).run s'))
          (λ _ _ _. tt)

-- At most one of three.
abbrev pub AtMostOne : Bool → Bool → Bool → Type 0
AtMostOne a b c = ((a && b) ≡ false) × ((a && c) ≡ false) × ((b && c) ≡ false)

-- No two slots have the same token.
abbrev pub Distinct : DrainState → Type 0
Distinct d = (t : Token) → AtMostOne (stdout_matches d t) (stderr_matches d t) (stdin_matches d t)

apart :
    (a b c e : ℕ) (x y : Option FdSlot) (t : Token)
    → InRange a b x
    → InRange c e y
    → (b ≤ c) ⊎ (e ≤ a)
    → (slot_matches x t && slot_matches y t) ≡ false
apart a b c e x y t hx hy o = elim (Bool-cases (slot_matches x t)) [
  | inr other ↦ rw other refl
  | inl hit ↦ elim (Bool-cases (slot_matches y t)) [
    | inr other ↦ rw (hit, other) refl
    | inl hit' ↦ absurd (go (InRange-matches a b x t hx hit) (InRange-matches c e y t hy hit') o)
  ]
]
  where
    go : (a ≤ t.val) × (t.val < b) → (c ≤ t.val) × (t.val < e) → (b ≤ c) ⊎ (e ≤ a) → ⊥
    go p q o = omega (arith, p.0, p.1, q.0, q.1)

-- Where registering succeeds.
abbrev pub Registered : DrainState → Result (Unit {0}) → Type 0
Registered d (ok _) = Distinct d
Registered d (err e) = Unit

-- Where `register_with_reactor` succeeds, an event's token belongs to at most one of the three pipes.
-- The reactor's counter is not about to wrap. It always returns or waits in a call.
pub register_with_reactor-Distinct :
    (d : DrainState) (reactor : Reactor) (s : Sys)
    → reactor.next_token + 3 < two_64
    → Post (λ out _. Registered out.0 out.2) (λ _. Unit) (register_with_reactor d reactor s)
unfolding register_with_reactor stdout_matches stderr_matches stdin_matches
register_with_reactor-Distinct d reactor s small =
    Post-bind (λ out _. SlotTells reactor out.0 out.1 out.2) (λ out _. Registered out.0 out.2)
      Anything (register_slot d.stdin_slot reactor false true) _ s
      (register_slot_lem d.stdin_slot reactor false true s (omega arith))
      (λ out s' h. first out.0 out.1 out.2 s' h)
  where
    third :
        (stdin stdout stderr : Option FdSlot) (r₁ r₂ : Reactor) (r₃ : Reactor)
        (r : Result (Unit {0}))
        → SlotTells reactor stdin r₁ (ok tt)
        → SlotTells r₁ stdout r₂ (ok tt)
        → SlotTells r₂ stderr r₃ r
        → Registered (record d { stdin_slot = stdin; stdout_slot = stdout; stderr_slot = stderr }) r
    third stdin stdout stderr r₁ r₂ r₃ (err e) h₁ h₂ h₃ = tt
    third stdin stdout stderr r₁ r₂ r₃ (ok _) h₁ h₂ h₃ = λ t. (
      apart r₁.next_token r₂.next_token r₂.next_token r₃.next_token stdout stderr t h₂.2 h₃.2
          (inl (omega arith)),
      apart r₁.next_token r₂.next_token reactor.next_token r₁.next_token stdout stdin t h₂.2 h₁.2
          (inr (omega arith)),
      apart r₂.next_token r₃.next_token reactor.next_token r₁.next_token stderr stdin t h₃.2 h₁.2
          (inr (omega (arith, h₂.0))),
    )

    second :
        (stdin stdout : Option FdSlot) (r₁ r₂ : Reactor) (r : Result (Unit {0})) (s' : Sys)
        → SlotTells reactor stdin r₁ (ok tt)
        → SlotTells r₁ stdout r₂ r
        → Post
            (λ out _. Registered out.0 out.2)
            Anything
            ((elim r as (λ _. Io (DrainState × Reactor × Result (Unit {0}))) [
              | err e ↦ pure (record d { stdin_slot = stdin; stdout_slot = stdout }, r₂, err e)
              | ok _ ↦ register_slot d.stderr_slot r₂ true false >>= λ out. pure (
                record d { stdin_slot = stdin; stdout_slot = stdout; stderr_slot = out.0 },
                out.1,
                out.2,
              )
            ])
              s')
    second stdin stdout r₁ r₂ (err e) s' h₁ h₂ = tt
    second stdin stdout r₁ r₂ (ok _) s' h₁ h₂ =
        Post-bind (λ out _. SlotTells r₂ out.0 out.1 out.2) (λ out _. Registered out.0 out.2)
          Anything (register_slot d.stderr_slot r₂ true false) _ s'
          (register_slot_lem d.stderr_slot r₂ true false s' (omega (arith, h₁.1, h₂.1)))
          (λ out s'' h₃. third stdin stdout out.0 r₁ r₂ out.1 out.2 h₁ h₂ h₃)

    first :
        (stdin : Option FdSlot) (r₁ : Reactor) (r : Result (Unit {0})) (s' : Sys)
        → SlotTells reactor stdin r₁ r
        → Post
            (λ out _. Registered out.0 out.2)
            Anything
            ((elim r as (λ _. Io (DrainState × Reactor × Result (Unit {0}))) [
              | err e ↦ pure (record d { stdin_slot = stdin }, r₁, err e)
              | ok _ ↦ register_slot d.stdout_slot r₁ true false >>= λ out.
                  elim out.2 as (λ _. Io (DrainState × Reactor × Result (Unit {0}))) [
                    | err e ↦
                        pure (record d { stdin_slot = stdin; stdout_slot = out.0 }, out.1, err e)
                    | ok _ ↦ register_slot d.stderr_slot out.1 true false >>= λ p. pure (
                      record d { stdin_slot = stdin; stdout_slot = out.0; stderr_slot = p.0 },
                      p.1,
                      p.2,
                    )
                  ]
            ])
              s')
    first stdin r₁ (err e) s' h₁ = tt
    first stdin r₁ (ok _) s' h₁ =
        Post-bind (λ out _. SlotTells r₁ out.0 out.1 out.2) (λ out _. Registered out.0 out.2)
          Anything (register_slot d.stdout_slot r₁ true false) _ s'
          (register_slot_lem d.stdout_slot r₁ true false s' (omega (arith, h₁.1)))
          (λ out s'' h₂. second stdin out.0 r₁ out.1 out.2 s'' h₁ h₂)
