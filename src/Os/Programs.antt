-- ===== src/Os/Programs.antt =====
-- Programs that call the kernel.
use coreshift_lowlevel.Prelude.{ℕ, zero, suc, List, [], ◌∷◌, length}
use coreshift_lowlevel.Os.Calls.{Call, Answer, Sys}

-- A program returns, or waits in a call that has not come back, or has ended with its process.
pub data Outcome (A : Type 0) : Type 0 where
  returned : A → Sys → Outcome A
  waiting : Sys → Outcome A
  ended : Sys → Outcome A
  out_of_fuel : Outcome A

abbrev pub Io : Type 0 → Type 0
Io A = Sys → Outcome A

abbrev pub pure : {A : Type 0} → A → Io A
pure a s = returned a s

infixl 5 ◌>>=◌ ◌>>◌
abbrev pub ◌>>=◌ : {A B : Type 0} → Io A → (A → Io B) → Io B
◌>>=◌ m f s = elim (m s) [
  | returned a s' ↦ f a s'
  | waiting s' ↦ waiting s'
  | ended s' ↦ ended s'
  | out_of_fuel ↦ out_of_fuel
]

abbrev pub ◌>>◌ : {A B : Type 0} → Io A → Io B → Io B
m >> k = m >>= λ _. k

unfoldable pub answer_to : Call → List (Call → Answer) → Sys → Outcome Answer
answer_to c [] s = waiting s
answer_to c (f ∷ rest) s = returned (f c) (record s {
  script = rest;
  log = record { call = c; answer = f c } ∷ s.log;
  errno = (f c).errno;
})

-- One call into the kernel.
unfoldable pub perform : Call → Io Answer
unfolding answer_to
perform c s = answer_to c s.script s

-- `io::Error::last_os_error().raw_os_error().unwrap_or(0)`
unfoldable pub last_os_error : Io ℕ
last_os_error s = returned s.errno s

-- One round of a Rust `loop`: go on with a new state, or leave it.
pub data Round (S A : Type 0) : Type 0 where
  continue : S → Round S A
  break : A → Round S A

module _ {S A : Type 0} (body : S → Io (Round S A)) where
  unfoldable pub loop_fuel : ℕ → S → Io A
  loop_fuel zero x s = out_of_fuel
  loop_fuel (suc fuel) x s = elim (body x s) [
    | returned r s' ↦ elim r [ continue x' ↦ loop_fuel fuel x' s' | break a ↦ returned a s' ]
    | waiting s' ↦ waiting s'
    | ended s' ↦ ended s'
    | out_of_fuel ↦ out_of_fuel
  ]

  -- A `loop` whose every round makes a call: a script of n answers allows n rounds and one more.
  unfoldable pub loop : S → Io A
  unfolding loop_fuel
  loop x s = loop_fuel (suc (length s.script)) x s

-- A call that is made again until its answer decides: the shape of every `EINTR` loop.
abbrev pub attempt :
    {A : Type 0} → Call → (Answer → ℕ → Round (Unit {0}) A) → Unit {0} → Io (Round (Unit {0}) A)
attempt c decide _ = do a ← perform c; e ← last_os_error; pure (decide a e)

unfoldable pub retrying : {A : Type 0} → Call → (Answer → ℕ → Round (Unit {0}) A) → Io A
unfolding last_os_error
retrying c decide = loop (attempt c decide) tt
