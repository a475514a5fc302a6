-- ===== src/Os/Honest.antt =====
-- What the crate relies on of the kernel: the documented results of `read`, `write`, `epoll_wait` and
-- `pipe2`.
use coreshift_lowlevel.Prelude.{ℕ, ◌≤◌, ◌≡◌, List, [], ◌∷◌, ℤ, pos, negsuc, length}
use coreshift_lowlevel.Os.Calls.{Call, Answer, read, write, epoll_wait, pipe2}

-- A returned number n, where there is one.
abbrev pub Returns : ℤ → (ℕ → Type 0) → Type 0
Returns (pos n) P = P n
Returns (negsuc _) P = Unit

-- A failure, which every call reports by -1.
abbrev pub IsFailure : ℤ → Type 0
IsFailure (pos n) = ⊥
IsFailure (negsuc n) = Unit

-- `epoll_wait` stores at most as many events as there is room for, and fails without room.
abbrev pub FitsRoom : ℤ → Answer → Type 0
FitsRoom (pos room) a = Returns a.ret (λ n. (length a.ready ≡ n) × (n ≤ room))
FitsRoom (negsuc _) a = IsFailure a.ret

-- A number that is no descriptor is below 0.
abbrev pub IsOpen : ℤ → Type 0
IsOpen (pos n) = Unit
IsOpen (negsuc n) = ⊥

-- `pipe2` returns 0 with two descriptors, or -1.
abbrev pub FitsPipe : ℤ → ℤ × ℤ → Type 0
FitsPipe (pos n) (r, w) = IsOpen r × IsOpen w
FitsPipe (negsuc n) fds = n ≡ 0

-- `read` returns how many bytes it stored, at most as many as it was asked for; `write` returns
-- how many it took, at most as many as it was given.
abbrev pub Fits : Call → Answer → Type 0
Fits (read fd count) a = Returns a.ret (λ n. (n ≤ count) × (length a.bytes ≡ n))
Fits (write fd given) a = Returns a.ret (λ n. n ≤ length given)
Fits (epoll_wait ep room timeout) a = FitsRoom room a
Fits (pipe2 flags) a = FitsPipe a.ret a.fds
Fits _ a = Unit

abbrev pub IsHonest : List (Call → Answer) → Type 0
IsHonest [] = Unit
IsHonest (f ∷ rest) = ((c : Call) → Fits c (f c)) × IsHonest rest
