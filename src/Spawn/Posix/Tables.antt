-- ===== src/Spawn/Posix/Tables.antt =====
-- spawn/mod.rs: the descriptors that the file actions of `spawn_posix_internal` leave to the program.
use coreshift_lowlevel.Prelude.{
  ℕ, ◌≤◌, ◌≡◌, refl, ◌∙◌, ℤ, pos, negsuc, Bool, true, false, Option, none, some, ◌==◌, arith,
  eq_int, not,
}
use coreshift_lowlevel.Fd.{Fd}
use coreshift_lowlevel.Spawn.Pipes.{Pipes}
use coreshift_lowlevel.Spawn.Posix.{above_two}
use coreshift_lowlevel.Spawn.Wiring.{
  Table, open_at, duplicate, shut, wanted, Gone, IsWired, above, IsAbove, put_other, shut_kept,
  shut_same, put_low, put_same, put_apart,
}

-- Two ends have different numbers.
abbrev pub apart : Option Fd → Option Fd → Bool
apart none b = true
apart (some a) none = true
apart (some a) (some b) = not (eq_int a.raw_fd b.raw_fd)

-- The end that a stream of the process uses is none of the ends wired before it.
abbrev pub IsApart : Pipes → Type 0
IsApart p =
    (apart p.stdout_w p.stdin_r ≡ true)
    × (apart p.stdout_w p.stdin_w ≡ true)
    × (apart p.stderr_w p.stdin_r ≡ true)
    × (apart p.stderr_w p.stdin_w ≡ true)
    × (apart p.stderr_w p.stdout_w ≡ true)
    × (apart p.stderr_w p.stdout_r ≡ true)

-- The table after the three actions of one stream, and of all.
abbrev pub wire_table : Option Fd → Option Fd → ℕ → Table → Table
wire_table (some used) (some other) n t =
    shut other.raw_fd (shut used.raw_fd (duplicate used.raw_fd (pos n) t))
wire_table (some used) none n t = t
wire_table none other n t = t

abbrev pub wire_tables : Pipes → Table → Table
wire_tables p t =
    wire_table p.stderr_w p.stderr_r 2
      (wire_table p.stdout_w p.stdout_r 1 (wire_table p.stdin_r p.stdin_w 0 t))

wire_own :
    (used other : Option Fd) (n : ℕ) (t : Table)
    → above used ≡ true
    → above other ≡ true
    → n ≤ 2
    → wire_table used other n t n ≡ wanted used other n t
wire_own (some u) (some o) n t h k le =
    put_other o.raw_fd none _ n k le
    ∙ put_other u.raw_fd none _ n h le
    ∙ put_same n (open_at u.raw_fd t) t
wire_own (some u) none n t h k le = refl
wire_own none other n t h k le = refl

wire_apart :
    (used other : Option Fd) (n m : ℕ) (t : Table)
    → above used ≡ true
    → above other ≡ true
    → m ≤ 2
    → (m == n) ≡ false
    → wire_table used other n t m ≡ t m
wire_apart (some u) (some o) n m t h k le e =
    put_other o.raw_fd none _ m k le
    ∙ put_other u.raw_fd none _ m h le
    ∙ put_apart n m (open_at u.raw_fd t) t e
wire_apart (some u) none n m t h k le e = refl
wire_apart none other n m t h k le e = refl

shut_apart : (g fd : ℤ) (t : Table) → not (eq_int g fd) ≡ true → open_at g (shut fd t) ≡ open_at g t
shut_apart (pos n) (pos m) t h = ground arith
shut_apart (negsuc n) fd t h = refl
shut_apart (pos n) (negsuc m) t h = refl

-- What a stream is to be does not change with another stream's actions.
wanted_wire :
    (used other a b : Option Fd) (m n : ℕ) (t : Table)
    → above used ≡ true
    → above a ≡ true
    → above b ≡ true
    → n ≤ 2
    → m ≤ 2
    → (m == n) ≡ false
    → apart used a ≡ true
    → apart used b ≡ true
    → wanted used other m (wire_table a b n t) ≡ wanted used other m t
wanted_wire (some u) (some o) (some a) (some b) m n t h ha hb le le' e p q =
    shut_apart u.raw_fd b.raw_fd _ q
    ∙ shut_apart u.raw_fd a.raw_fd _ p
    ∙ put_low n (open_at a.raw_fd t) u.raw_fd t le h
wanted_wire (some u) (some o) (some a) none m n t h ha hb le le' e p q = refl
wanted_wire (some u) (some o) none b m n t h ha hb le le' e p q = refl
wanted_wire (some u) none a b m n t h ha hb le le' e p q = wire_apart a b n m t ha hb le' e
wanted_wire none other a b m n t h ha hb le le' e p q = wire_apart a b n m t ha hb le' e

Gone-own :
    (used other : Option Fd) (n : ℕ) (t : Table) → Gone used other (wire_table used other n t)
Gone-own (some u) (some o) n t =
    (shut_kept o.raw_fd u.raw_fd _ (shut_same u.raw_fd _), shut_same o.raw_fd _)
Gone-own (some u) none n t = tt
Gone-own none other n t = tt

gone_wire :
    (a b : Option Fd) (n : ℕ) (g : ℤ) (t : Table)
    → n ≤ 2
    → above_two g ≡ true
    → open_at g t ≡ none
    → open_at g (wire_table a b n t) ≡ none
gone_wire (some a) (some b) n g t le h e =
    shut_kept b.raw_fd g _ (shut_kept a.raw_fd g _ (put_low n (open_at a.raw_fd t) g t le h ∙ e))
gone_wire (some a) none n g t le h e = e
gone_wire none b n g t le h e = e

Gone-wire :
    (c d a b : Option Fd) (n : ℕ) (t : Table)
    → n ≤ 2
    → above c ≡ true
    → above d ≡ true
    → Gone c d t
    → Gone c d (wire_table a b n t)
Gone-wire (some c) (some d) a b n t le hc hd g =
    (gone_wire a b n c.raw_fd t le hc g.0, gone_wire a b n d.raw_fd t le hd g.1)
Gone-wire (some c) none a b n t le hc hd g = tt
Gone-wire none d a b n t le hc hd g = tt

pub wire_tables-IsWired :
    (p : Pipes) (t : Table) → IsAbove p → IsApart p → IsWired t p (wire_tables p t)
wire_tables-IsWired p t (ir, iw, or, ow, er, ew) (a, b, c, d, e, f) = record {
  stdin_is =
      wire_apart p.stderr_w p.stderr_r 2 0 _ ew er (omega arith) refl
      ∙ wire_apart p.stdout_w p.stdout_r 1 0 _ ow or (omega arith) refl
      ∙ wire_own p.stdin_r p.stdin_w 0 t ir iw (omega arith);
  stdout_is =
      wire_apart p.stderr_w p.stderr_r 2 1 _ ew er (omega arith) refl
      ∙ wire_own p.stdout_w p.stdout_r 1 _ ow or (omega arith)
      ∙ wanted_wire p.stdout_w p.stdout_r p.stdin_r p.stdin_w 1 0 t ow ir iw (omega arith)
          (omega arith) refl a b;
  stderr_is =
      wire_own p.stderr_w p.stderr_r 2 _ ew er (omega arith)
      ∙ wanted_wire p.stderr_w p.stderr_r p.stdout_w p.stdout_r 2 1 _ ew ow or (omega arith)
          (omega arith) refl e f
      ∙ wanted_wire p.stderr_w p.stderr_r p.stdin_r p.stdin_w 2 0 t ew ir iw (omega arith)
          (omega arith) refl c d;
  stdin_gone = Gone-wire p.stdin_r p.stdin_w p.stderr_w p.stderr_r 2 _ (omega arith) ir iw (
      Gone-wire p.stdin_r p.stdin_w p.stdout_w p.stdout_r 1 _ (omega arith) ir iw
        (Gone-own p.stdin_r p.stdin_w 0 t));
  stdout_gone =
      Gone-wire p.stdout_w p.stdout_r p.stderr_w p.stderr_r 2 _ (omega arith) ow or
        (Gone-own p.stdout_w p.stdout_r 1 _);
  stderr_gone = Gone-own p.stderr_w p.stderr_r 2 _;
}

Gone-shut : (c d : Option Fd) (fd : ℤ) (t : Table) → Gone c d t → Gone c d (shut fd t)
Gone-shut (some c) (some d) fd t g = (shut_kept fd c.raw_fd t g.0, shut_kept fd d.raw_fd t g.1)
Gone-shut (some c) none fd t g = tt
Gone-shut none d fd t g = tt

-- Closing what is above 2 leaves the streams as they are.
pub IsWired-shut :
    (t : Table) (p : Pipes) (fd : ℤ) (u : Table)
    → above_two fd ≡ true
    → IsWired t p u
    → IsWired t p (shut fd u)
IsWired-shut t p fd u h w = record {
  stdin_is = put_other fd none u 0 h (omega arith) ∙ w.stdin_is;
  stdout_is = put_other fd none u 1 h (omega arith) ∙ w.stdout_is;
  stderr_is = put_other fd none u 2 h (omega arith) ∙ w.stderr_is;
  stdin_gone = Gone-shut p.stdin_r p.stdin_w fd u w.stdin_gone;
  stdout_gone = Gone-shut p.stdout_w p.stdout_r fd u w.stdout_gone;
  stderr_gone = Gone-shut p.stderr_w p.stderr_r fd u w.stderr_gone;
}
