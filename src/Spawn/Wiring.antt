-- ===== src/Spawn/Wiring.antt =====
-- spawn/mod.rs: the descriptors of a new process, as its program finds them.
use coreshift_lowlevel.Prelude.{
  ℕ, suc, ◌≤◌, ◌≡◌, refl, ℤ, pos, negsuc, Bool, true, false, ◌&&◌, Option, none, some, ◌==◌, leb,
  if◌then◌else◌, arith,
}
use coreshift_lowlevel.Fd.{Fd}
use coreshift_lowlevel.Spawn.Pipes.{Pipes}
use coreshift_lowlevel.Spawn.Posix.{above_two}

-- What is open under each number, by the number of the open file.
abbrev pub Table : Type 0
Table = ℕ → Option ℕ

abbrev pub open_at : ℤ → Table → Option ℕ
open_at (pos n) t = t n
open_at (negsuc n) t = none

abbrev pub put : ℤ → Option ℕ → Table → Table
put (pos n) file t = λ m. if m == n then file else t m
put (negsuc n) file t = t

-- `dup2`, and closing.
abbrev pub duplicate : ℤ → ℤ → Table → Table
duplicate fd target t = put target (open_at fd t) t

abbrev pub shut : ℤ → Table → Table
shut fd t = put fd none t

abbrev pub shut_range : ℕ → ℕ → Table → Table
shut_range lo hi t = λ m. if leb lo m && leb m hi then none else t m

-- What a stream is to be: the used end of its pipe, or what it was.
abbrev pub wanted : Option Fd → Option Fd → ℕ → Table → Option ℕ
wanted (some used) (some other) n t = open_at used.raw_fd t
wanted (some used) none n t = t n
wanted none other n t = t n

-- Neither end of a pipe is open under its old number.
abbrev pub Gone : Option Fd → Option Fd → Table → Type 0
Gone (some used) (some other) t = (open_at used.raw_fd t ≡ none) × (open_at other.raw_fd t ≡ none)
Gone (some used) none t = Unit
Gone none other t = Unit

pub record IsWired (t : Table) (p : Pipes) (u : Table) : Type 0 where
  pub stdin_is : u 0 ≡ wanted p.stdin_r p.stdin_w 0 t
  pub stdout_is : u 1 ≡ wanted p.stdout_w p.stdout_r 1 t
  pub stderr_is : u 2 ≡ wanted p.stderr_w p.stderr_r 2 t
  pub stdin_gone : Gone p.stdin_r p.stdin_w u
  pub stdout_gone : Gone p.stdout_w p.stdout_r u
  pub stderr_gone : Gone p.stderr_w p.stderr_r u

-- No end of a pipe is a standard stream's descriptor.
abbrev pub above : Option Fd → Bool
above none = true
above (some fd) = above_two fd.raw_fd

abbrev pub IsAbove : Pipes → Type 0
IsAbove p =
    (above p.stdin_r ≡ true)
    × (above p.stdin_w ≡ true)
    × (above p.stdout_r ≡ true)
    × (above p.stdout_w ≡ true)
    × (above p.stderr_r ≡ true)
    × (above p.stderr_w ≡ true)

pub put_other :
    (fd : ℤ) (file : Option ℕ) (t : Table) (n : ℕ)
    → above_two fd ≡ true
    → n ≤ 2
    → put fd file t n ≡ t n
put_other (pos m) file t n h le = ground arith
put_other (negsuc m) file t n h le = refl

-- What is closed stays closed where something is closed, or a low number is set.
pub shut_kept : (fd g : ℤ) (t : Table) → open_at g t ≡ none → open_at g (shut fd t) ≡ none
shut_kept (pos n) (pos m) t h = ground arith
shut_kept (pos n) (negsuc m) t h = refl
shut_kept (negsuc n) g t h = h

pub shut_same : (fd : ℤ) (t : Table) → open_at fd (shut fd t) ≡ none
shut_same (pos n) t = ground arith
shut_same (negsuc n) t = refl

pub put_low :
    (n : ℕ) (file : Option ℕ) (g : ℤ) (t : Table)
    → n ≤ 2
    → above_two g ≡ true
    → open_at g (put (pos n) file t) ≡ open_at g t
put_low n file (pos m) t le h = ground arith
put_low n file (negsuc m) t le h = refl

pub put_same : (n : ℕ) (file : Option ℕ) (t : Table) → put (pos n) file t n ≡ file
put_same n file t = ground arith

pub put_apart :
    (n m : ℕ) (file : Option ℕ) (t : Table) → (m == n) ≡ false → put (pos n) file t m ≡ t m
put_apart n m file t h = ground arith

pub shut_range_in : (lo hi m : ℕ) (t : Table) → lo ≤ m → m ≤ hi → shut_range lo hi t m ≡ none
shut_range_in lo hi m t h k = ground arith

pub shut_range_below : (lo hi m : ℕ) (t : Table) → suc m ≤ lo → shut_range lo hi t m ≡ t m
shut_range_below lo hi m t h = ground arith

pub range_kept :
    (lo hi : ℕ) (g : ℤ) (t : Table) → open_at g t ≡ none → open_at g (shut_range lo hi t) ≡ none
range_kept lo hi (pos m) t h = ground arith
range_kept lo hi (negsuc m) t h = refl
