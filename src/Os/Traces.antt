-- ===== src/Os/Traces.antt =====
-- What a log says of the data that went through a descriptor.
use coreshift_lowlevel.Prelude.{
  ℕ, ◌≡◌, refl, ◌∙◌, ap, List, [], ◌∷◌, ◌++◌, append-nil, ℤ, pos, negsuc, eq_int, if◌then◌else◌,
  take,
}
use coreshift_lowlevel.Os.Calls.{Call, Answer, Happened, read, write}

-- The first n items, where n is what the call returned.
abbrev pub counted {ℓ} : {A : Type ℓ} → ℤ → List A → List A
counted (pos n) xs = take n xs
counted (negsuc n) xs = []

abbrev pub got : ℤ → Call → Answer → List ℕ
got fd (read g count) a = if eq_int fd g then counted a.ret a.bytes else []
got fd _ a = []

abbrev pub gave : ℤ → Call → Answer → List ℕ
gave fd (write g given) a = if eq_int fd g then counted a.ret given else []
gave fd _ a = []

-- All bytes that `read` has brought from a descriptor, oldest first.
unfoldable pub delivered : ℤ → List Happened → List ℕ
delivered fd [] = []
delivered fd (h ∷ log) = delivered fd log ++ got fd h.call h.answer

-- One more piece, where there is something in it.
abbrev pub put : List ℕ → List (List ℕ) → List (List ℕ)
put [] chunks = chunks
put (b ∷ bs) chunks = (b ∷ bs) ∷ chunks

-- What each `read` from a descriptor brought, where it brought something, the newest first.
unfoldable pub arrivals : ℤ → List Happened → List (List ℕ)
arrivals fd [] = []
arrivals fd (h ∷ log) = put (got fd h.call h.answer) (arrivals fd log)

-- All bytes that `write` has taken for a descriptor, oldest first.
unfoldable pub sent : ℤ → List Happened → List ℕ
sent fd [] = []
sent fd (h ∷ log) = sent fd log ++ gave fd h.call h.answer

-- A log that grew by calls of one kind.
pub data Grown (P : Call → Type 0) (log : List Happened) : List Happened → Type 0 where
  same : Grown P log log
  grow :
      {later : List Happened} (h : Happened)
      → P h.call
      → Grown P log later
      → Grown P log (h ∷ later)

pub Grown-trans :
    (P : Call → Type 0) {a b c : List Happened} → Grown P a b → Grown P b c → Grown P a c
Grown-trans P g same = g
Grown-trans P g (grow h p k) = grow h p (Grown-trans P g k)

pub Grown-mono :
    (P Q : Call → Type 0) {a b : List Happened}
    → ((c : Call) → P c → Q c)
    → Grown P a b
    → Grown Q a b
Grown-mono P Q f same = same
Grown-mono P Q f (grow h p k) = grow h (f h.call p) (Grown-mono P Q f k)

-- Of what was logged on top of an older log, one entry is of the kind P.
pub data Since (P : Happened → Type 0) (log : List Happened) : List Happened → Type 0 where
  now :
      {later : List Happened} (h : Happened)
      → P h
      → Grown (λ _. Unit) log later
      → Since P log (h ∷ later)
  before : {later : List Happened} (h : Happened) → Since P log later → Since P log (h ∷ later)

pub Since-Grown :
    (P : Happened → Type 0) {a b c : List Happened}
    → Since P a b
    → Grown (λ _. Unit) b c
    → Since P a c
Since-Grown P g same = g
Since-Grown P g (grow h u k) = before h (Since-Grown P g k)

pub delivered-Grown :
    (P : Call → Type 0) (fd : ℤ) {a b : List Happened}
    → ((c : Call) (x : Answer) → P c → got fd c x ≡ [])
    → Grown P a b
    → delivered fd b ≡ delivered fd a
unfolding delivered
delivered-Grown P fd f same = refl
delivered-Grown P fd {a} f (grow {later = l} h p k) =
    ap (λ t. delivered fd l ++ t) (f h.call h.answer p)
    ∙ append-nil (delivered fd l)
    ∙ delivered-Grown P fd f k

pub sent-Grown :
    (P : Call → Type 0) (fd : ℤ) {a b : List Happened}
    → ((c : Call) (x : Answer) → P c → gave fd c x ≡ [])
    → Grown P a b
    → sent fd b ≡ sent fd a
unfolding sent
sent-Grown P fd f same = refl
sent-Grown P fd {a} f (grow {later = l} h p k) =
    ap (λ t. sent fd l ++ t) (f h.call h.answer p) ∙ append-nil (sent fd l) ∙ sent-Grown P fd f k
