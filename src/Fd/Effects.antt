-- ===== src/Fd/Effects.antt =====
-- reactor/mod.rs: what `read_raw` and `write_raw` add to the data that went through the descriptors.
use coreshift_lowlevel.Prelude.{
  ℕ, String, ◌≡◌, refl, sym, ◌∙◌, ap, ap₂, subst, List, [], ◌∷◌, ◌++◌, append-nil, map, ℤ, pos,
  negsuc, Option, none, some, ◌<◌, ◌≤◌, length, Bool, true, false, eq_int, eq_int_iff, take,
  if◌then◌else◌,
}
use coreshift_lowlevel.Os.{
  IsFailure, Call, Answer, Sys, Happened, Post, Post-mono, Post-bind, pure, IsHonest, Fits, Returns,
  read, write,
}
use coreshift_lowlevel.Os.Traces.{delivered, put, arrivals, sent, counted, Grown, same, grow}
use coreshift_lowlevel.Error.{Result, ok, err}
use coreshift_lowlevel.Fd.Defs.{Fd, raw, read_raw, write_raw, read_slice, write_slice, stored}
use coreshift_lowlevel.Fd.Retry.{
  AllInterrupted, Tells, Ends, Hangs, logged_as, read_raw_retries, write_raw_retries,
}

-- The newest call, and what holds of its answer.
pub record Newest (c : Call) (P : Answer → Type 0) (log : List Happened) : Type 0 where
  pub answer : Answer
  pub older : List Happened
  pub newest : log ≡ logged_as c answer ∷ older
  pub holds : P answer

pub Newest-map :
    {c : Call} (P Q : Answer → Type 0) {log : List Happened}
    → ((a : Answer) → P a → Q a)
    → Newest c P log
    → Newest c Q log
Newest-map P Q f n = record {
  answer = n.answer;
  older = n.older;
  newest = n.newest;
  holds = f n.answer n.holds;
}

-- The bytes that a result of `read_raw` stands for.
abbrev pub data_of : Result (Option (ℕ × List ℕ)) → List ℕ
data_of (ok (some (n, bytes))) = take n bytes
data_of (ok none) = []
data_of (err e) = []

-- The number that a result of `write_raw` stands for.
abbrev pub count_of : Result (Option (ℕ × List ℕ)) → ℕ
count_of (ok (some (n, bytes))) = n
count_of (ok none) = 0
count_of (err e) = 0

-- The numbers that an honest kernel returns.
abbrev pub IsSized : ℕ → Result (Option (ℕ × List ℕ)) → Type 0
IsSized count (ok (some (n, bytes))) = (n ≤ count) × (length bytes ≡ n)
IsSized count (ok none) = Unit
IsSized count (err e) = Unit

abbrev pub IsTaken : ℕ → Result (Option (ℕ × List ℕ)) → Type 0
IsTaken count (ok (some (n, bytes))) = n ≤ count
IsTaken count (ok none) = Unit
IsTaken count (err e) = Unit

interrupted-Grown :
    (c : Call) (xs : List Answer) (log : List Happened)
    → Grown (λ d. d ≡ c) log (map (logged_as c) xs ++ log)
interrupted-Grown c [] log = same
interrupted-Grown c (x ∷ xs) log = grow (logged_as c x) refl (interrupted-Grown c xs log)

counted_failure {ℓ} : {A : Type ℓ} (r : ℤ) (xs : List A) → IsFailure r → counted r xs ≡ []
counted_failure (pos n) xs h = absurd h
counted_failure (negsuc n) xs h = refl

if_same {ℓ} : {A : Type ℓ} (b : Bool) (x : A) → (if b then x else x) ≡ x
if_same true x = refl
if_same false x = refl

pub eq_int_refl : (a : ℤ) → eq_int a a ≡ true
eq_int_refl a = (eq_int_iff a a).1 refl

-- A call that brings nothing leaves the delivered bytes.
delivered-interrupted :
    (g fd : ℤ) (count : ℕ) (xs : List Answer) (log : List Happened)
    → AllInterrupted xs
    → delivered g (map (logged_as (read fd count)) xs ++ log) ≡ delivered g log
unfolding delivered
delivered-interrupted g fd count [] log h = refl
delivered-interrupted g fd count (x ∷ xs) log h = rw (counted_failure x.ret x.bytes h.0.0) (
    rw if_same (
      append-nil (delivered g (map (logged_as (read fd count)) xs ++ log))
      ∙ delivered-interrupted g fd count xs log h.1))

arrivals-interrupted :
    (g fd : ℤ) (count : ℕ) (xs : List Answer) (log : List Happened)
    → AllInterrupted xs
    → arrivals g (map (logged_as (read fd count)) xs ++ log) ≡ arrivals g log
unfolding arrivals
arrivals-interrupted g fd count [] log h = refl
arrivals-interrupted g fd count (x ∷ xs) log h =
    rw (counted_failure x.ret x.bytes h.0.0)
      (rw if_same (arrivals-interrupted g fd count xs log h.1))

sent-interrupted :
    (g fd : ℤ) (given : List ℕ) (xs : List Answer) (log : List Happened)
    → AllInterrupted xs
    → sent g (map (logged_as (write fd given)) xs ++ log) ≡ sent g log
unfolding sent
sent-interrupted g fd given [] log h = refl
sent-interrupted g fd given (x ∷ xs) log h = rw (counted_failure x.ret given h.0.0) (
    rw if_same (
      append-nil (sent g (map (logged_as (write fd given)) xs ++ log))
      ∙ sent-interrupted g fd given xs log h.1))

Tells-data :
    (op : String) (r : Result (Option (ℕ × List ℕ))) (a : Answer)
    → Tells op r a
    → counted a.ret a.bytes ≡ data_of r
Tells-data op (ok (some (n, bytes))) a h = rw (h.0, h.1)
Tells-data op (ok none) a h = counted_failure a.ret a.bytes h.0
Tells-data op (err e) a h = counted_failure a.ret a.bytes h.0

Tells-count :
    (op : String) (r : Result (Option (ℕ × List ℕ))) (a : Answer) (given : List ℕ)
    → Tells op r a
    → counted a.ret given ≡ take (count_of r) given
Tells-count op (ok (some (n, bytes))) a given h = rw h.0
Tells-count op (ok none) a given h = counted_failure a.ret given h.0
Tells-count op (err e) a given h = counted_failure a.ret given h.0

Tells-IsSized :
    (op : String) (fd : ℤ) (count : ℕ) (r : Result (Option (ℕ × List ℕ))) (a : Answer)
    → Tells op r a
    → Fits (read fd count) a
    → IsSized count r
Tells-IsSized op fd count (ok (some (n, bytes))) a h f =
    let f' : (n ≤ count) × (length a.bytes ≡ n) =
      subst (λ x. Returns x (λ m. (m ≤ count) × (length a.bytes ≡ m))) h.0 f in
    (f'.0, ap length (sym h.1) ∙ f'.1)
Tells-IsSized op fd count (ok none) a h f = tt
Tells-IsSized op fd count (err e) a h f = tt

Tells-IsTaken :
    (op : String) (fd : ℤ) (given : List ℕ) (r : Result (Option (ℕ × List ℕ))) (a : Answer)
    → Tells op r a
    → Fits (write fd given) a
    → IsTaken (length given) r
Tells-IsTaken op fd given (ok (some (n, bytes))) a h f =
    subst (λ x. Returns x (λ m. m ≤ length given)) h.0 f
Tells-IsTaken op fd given (ok none) a h f = tt
Tells-IsTaken op fd given (err e) a h f = tt

-- What `read_raw` has done when it returns.
pub record ReadEffect (fd : ℤ) (count : ℕ) (s : Sys) (r : Result (Option (ℕ × List ℕ))) (s' : Sys)
    : Type 0 where
  pub arrived :
      (g : ℤ) → delivered g s'.log ≡ delivered g s.log ++ (if eq_int g fd then data_of r else [])
  pub chunk :
      (g : ℤ) → arrivals g s'.log ≡ put (if eq_int g fd then data_of r else []) (arrivals g s.log)
  pub grown : Grown (λ c. c ≡ read fd count) s.log s'.log
  pub used : length s'.script < length s.script
  pub honest : IsHonest s.script → IsSized count r × IsHonest s'.script
  pub newest : Newest (read fd count) (Tells "read" r) s'.log

-- What `write_raw` has done when it returns.
pub record WriteEffect (fd : ℤ) (given : List ℕ) (s : Sys) (r : Result (Option (ℕ × List ℕ)))
    (s' : Sys) : Type 0 where
  pub went :
      (g : ℤ)
      → sent g s'.log ≡ sent g s.log ++ (if eq_int g fd then take (count_of r) given else [])
  pub grown : Grown (λ c. c ≡ write fd given) s.log s'.log
  pub used : length s'.script < length s.script
  pub honest : IsHonest s.script → IsTaken (length given) r × IsHonest s'.script
  pub newest : Newest (write fd given) (Tells "write" r) s'.log

Ends-Newest :
    (c : Call) (op : String) (s : Sys) (r : Result (Option (ℕ × List ℕ))) (s' : Sys)
    → Ends c op s r s'
    → Newest c (Tells op r) s'.log
Ends-Newest c op s r s' d = record {
  answer = d.last;
  older = map (logged_as c) d.interrupted ++ s.log;
  newest = d.log;
  holds = d.tells;
}

Ends-Grown :
    (c : Call) (op : String) (s : Sys) (r : Result (Option (ℕ × List ℕ))) (s' : Sys)
    → Ends c op s r s'
    → Grown (λ x. x ≡ c) s.log s'.log
Ends-Grown c op s r s' d =
    subst (Grown (λ x. x ≡ c) s.log) (sym d.log)
      (grow (logged_as c d.last) refl (interrupted-Grown c d.interrupted s.log))

Ends-ReadEffect :
    (fd : ℤ) (count : ℕ) (s : Sys) (r : Result (Option (ℕ × List ℕ))) (s' : Sys)
    → Ends (read fd count) "read" s r s'
    → ReadEffect fd count s r s'
unfolding delivered arrivals
Ends-ReadEffect fd count s r s' d = record {
  arrived = λ g.
      ap (delivered g) d.log
      ∙ ap₂ ◌++◌ (delivered-interrupted g fd count d.interrupted s.log d.all_interrupted)
          (ap (λ x. if eq_int g fd then x else []) (Tells-data "read" r d.last d.tells));
  chunk = λ g.
      ap (arrivals g) d.log
      ∙ ap₂ put (ap (λ x. if eq_int g fd then x else []) (Tells-data "read" r d.last d.tells))
          (arrivals-interrupted g fd count d.interrupted s.log d.all_interrupted);
  grown = Ends-Grown (read fd count) "read" s r s' d;
  used = d.used;
  honest = λ h. (Tells-IsSized "read" fd count r d.last d.tells (d.honest h).0, (d.honest h).1);
  newest = Ends-Newest (read fd count) "read" s r s' d;
}

Ends-WriteEffect :
    (fd : ℤ) (given : List ℕ) (s : Sys) (r : Result (Option (ℕ × List ℕ))) (s' : Sys)
    → Ends (write fd given) "write" s r s'
    → WriteEffect fd given s r s'
unfolding sent
Ends-WriteEffect fd given s r s' d = record {
  went = λ g.
      ap (sent g) d.log
      ∙ ap₂ ◌++◌ (sent-interrupted g fd given d.interrupted s.log d.all_interrupted)
          (ap (λ x. if eq_int g fd then x else []) (Tells-count "write" r d.last given d.tells));
  grown = Ends-Grown (write fd given) "write" s r s' d;
  used = d.used;
  honest = λ h. (Tells-IsTaken "write" fd given r d.last d.tells (d.honest h).0, (d.honest h).1);
  newest = Ends-Newest (write fd given) "write" s r s' d;
}

-- What is known while a read hangs: nothing has arrived.
pub record ReadHangs (fd : ℤ) (count : ℕ) (s s' : Sys) : Type 0 where
  pub arrived : (g : ℤ) → delivered g s'.log ≡ delivered g s.log
  pub grown : Grown (λ c. c ≡ read fd count) s.log s'.log

pub record WriteHangs (fd : ℤ) (given : List ℕ) (s s' : Sys) : Type 0 where
  pub went : (g : ℤ) → sent g s'.log ≡ sent g s.log
  pub grown : Grown (λ c. c ≡ write fd given) s.log s'.log

pub read_raw_lem :
    (fd : Fd) (count : ℕ) (s : Sys)
    → Post (ReadEffect (raw fd) count s) (ReadHangs (raw fd) count s) (read_raw fd count s)
read_raw_lem fd count s =
    Post-mono (Ends (read (raw fd) count) "read" s) (ReadEffect (raw fd) count s)
      (Hangs (read (raw fd) count) s) (ReadHangs (raw fd) count s) (read_raw fd count s)
      (Ends-ReadEffect (raw fd) count s)
      (λ s' h. record {
        arrived = λ g.
            ap (delivered g) h.log
            ∙ delivered-interrupted g (raw fd) count h.interrupted s.log h.all_interrupted;
        grown =
            subst (Grown (λ x. x ≡ read (raw fd) count) s.log) (sym h.log)
              (interrupted-Grown (read (raw fd) count) h.interrupted s.log);
      })
      (read_raw_retries fd count s)

pub write_raw_lem :
    (fd : Fd) (given : List ℕ) (s : Sys)
    → Post (WriteEffect (raw fd) given s) (WriteHangs (raw fd) given s) (write_raw fd given s)
write_raw_lem fd given s =
    Post-mono (Ends (write (raw fd) given) "write" s) (WriteEffect (raw fd) given s)
      (Hangs (write (raw fd) given) s) (WriteHangs (raw fd) given s) (write_raw fd given s)
      (Ends-WriteEffect (raw fd) given s)
      (λ s' h. record {
        went = λ g.
            ap (sent g) h.log
            ∙ sent-interrupted g (raw fd) given h.interrupted s.log h.all_interrupted;
        grown =
            subst (Grown (λ x. x ≡ write (raw fd) given) s.log) (sym h.log)
              (interrupted-Grown (write (raw fd) given) h.interrupted s.log);
      })
      (write_raw_retries fd given s)

-- `read_slice` reads at most as many bytes as the slice has, and puts them at its start.
pub record SliceRead (fd : ℤ) (buf : List ℕ) (s : Sys) (p : Result (Option ℕ) × List ℕ) (s' : Sys)
    : Type 0 where
  pub result : Result (Option (ℕ × List ℕ))
  pub effect : ReadEffect fd (length buf) s result s'
  pub slice : p ≡ stored buf result

pub read_slice_lem :
    (fd : Fd) (buf : List ℕ) (s : Sys)
    → Post (SliceRead (raw fd) buf s) (ReadHangs (raw fd) (length buf) s) (read_slice fd buf s)
unfolding read_slice
read_slice_lem fd buf s =
    Post-bind (ReadEffect (raw fd) (length buf) s) (SliceRead (raw fd) buf s)
      (ReadHangs (raw fd) (length buf) s) (read_raw fd (length buf)) (λ r. pure (stored buf r)) s
      (read_raw_lem fd (length buf) s) (λ r s' e. record { result = r; effect = e; slice = refl })

pub record SliceWritten (fd : ℤ) (buf : List ℕ) (s : Sys) (p : Result (Option ℕ)) (s' : Sys)
    : Type 0 where
  pub result : Result (Option (ℕ × List ℕ))
  pub effect : WriteEffect fd buf s result s'
  pub counted_as : p ≡ (stored [] result).0

pub write_slice_lem :
    (fd : Fd) (buf : List ℕ) (s : Sys)
    → Post (SliceWritten (raw fd) buf s) (WriteHangs (raw fd) buf s) (write_slice fd buf s)
unfolding write_slice
write_slice_lem fd buf s =
    Post-bind (WriteEffect (raw fd) buf s) (SliceWritten (raw fd) buf s) (WriteHangs (raw fd) buf s)
      (write_raw fd buf) (λ r. pure (stored [] r).0) s (write_raw_lem fd buf s)
      (λ r s' e. record { result = r; effect = e; counted_as = refl })
