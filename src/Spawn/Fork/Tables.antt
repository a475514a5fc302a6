-- ===== src/Spawn/Fork/Tables.antt =====
-- spawn/mod.rs: the descriptors that the child of `spawn_fork_internal` hands to its program.
use coreshift_lowlevel.Prelude.{
  ℕ, ◌≤◌, ◌≡◌, refl, ◌∙◌, ℤ, pos, true, false, Option, none, some, ◌==◌, arith,
}
use coreshift_lowlevel.Fd.{Fd}
use coreshift_lowlevel.Spawn.Pipes.{Pipes, uint_top}
use coreshift_lowlevel.Spawn.Posix.{above_two}
use coreshift_lowlevel.Spawn.Wiring.{
  Table, open_at, duplicate, shut, shut_range, wanted, Gone, IsWired, above, IsAbove, put_other,
  shut_kept, shut_same, put_low, put_same, put_apart, shut_range_below, range_kept,
}

-- The table after the child's `dup2` for one stream, and after an end went.
abbrev pub dup_table : Option Fd → Option Fd → ℕ → Table → Table
dup_table (some used) (some other) n t = duplicate used.raw_fd (pos n) t
dup_table (some used) none n t = t
dup_table none other n t = t

abbrev pub shut_opt : Option Fd → Table → Table
shut_opt none t = t
shut_opt (some fd) t = shut fd.raw_fd t

abbrev pub dup_tables : Pipes → Table → Table
dup_tables p t =
    dup_table p.stderr_w p.stderr_r 2
      (dup_table p.stdout_w p.stdout_r 1 (dup_table p.stdin_r p.stdin_w 0 t))

abbrev pub shut_all : Pipes → Table → Table
shut_all p t = shut_opt p.stderr_w (
    shut_opt p.stderr_r
      (shut_opt p.stdout_w (shut_opt p.stdout_r (shut_opt p.stdin_w (shut_opt p.stdin_r t)))))

abbrev pub child_table : Pipes → Table → Table
child_table p t = shut_range 3 uint_top (shut_all p (dup_tables p t))

dup_own :
    (used other : Option Fd) (n : ℕ) (t : Table)
    → dup_table used other n t n ≡ wanted used other n t
dup_own (some used) (some other) n t = put_same n (open_at used.raw_fd t) t
dup_own (some used) none n t = refl
dup_own none other n t = refl

dup_apart :
    (used other : Option Fd) (n m : ℕ) (t : Table)
    → (m == n) ≡ false
    → dup_table used other n t m ≡ t m
dup_apart (some used) (some other) n m t h = put_apart n m (open_at used.raw_fd t) t h
dup_apart (some used) none n m t h = refl
dup_apart none other n m t h = refl

dup_above :
    (used other : Option Fd) (n : ℕ) (g : ℤ) (t : Table)
    → n ≤ 2
    → above_two g ≡ true
    → open_at g (dup_table used other n t) ≡ open_at g t
dup_above (some used) (some other) n g t le h = put_low n (open_at used.raw_fd t) g t le h
dup_above (some used) none n g t le h = refl
dup_above none other n g t le h = refl

-- What a stream is to be does not change with another stream's `dup2`.
wanted_dup :
    (used other a b : Option Fd) (m n : ℕ) (t : Table)
    → above used ≡ true
    → n ≤ 2
    → (m == n) ≡ false
    → wanted used other m (dup_table a b n t) ≡ wanted used other m t
wanted_dup (some used) (some other) a b m n t h le apart = dup_above a b n used.raw_fd t le h
wanted_dup (some used) none a b m n t h le apart = dup_apart a b n m t apart
wanted_dup none other a b m n t h le apart = dup_apart a b n m t apart

shut_opt_low :
    (fd : Option Fd) (t : Table) (m : ℕ) → above fd ≡ true → m ≤ 2 → shut_opt fd t m ≡ t m
shut_opt_low none t m h le = refl
shut_opt_low (some fd) t m h le = put_other fd.raw_fd none t m h le

shut_opt_kept :
    (fd : Option Fd) (g : ℤ) (t : Table) → open_at g t ≡ none → open_at g (shut_opt fd t) ≡ none
shut_opt_kept none g t h = h
shut_opt_kept (some fd) g t h = shut_kept fd.raw_fd g t h

shut_all_low : (p : Pipes) (t : Table) (m : ℕ) → IsAbove p → m ≤ 2 → shut_all p t m ≡ t m
shut_all_low p t m (a, b, c, d, e, f) le =
    shut_opt_low p.stderr_w _ m f le
    ∙ shut_opt_low p.stderr_r _ m e le
    ∙ shut_opt_low p.stdout_w _ m d le
    ∙ shut_opt_low p.stdout_r _ m c le
    ∙ shut_opt_low p.stdin_w _ m b le
    ∙ shut_opt_low p.stdin_r _ m a le

child_low :
    (p : Pipes) (t : Table) (m : ℕ) → IsAbove p → m ≤ 2 → child_table p t m ≡ dup_tables p t m
child_low p t m h le =
    shut_range_below 3 uint_top m (shut_all p (dup_tables p t)) (omega (arith, le))
    ∙ shut_all_low p (dup_tables p t) m h le

-- An end that was shut, and then others.
Closed : Option Fd → Table → Type 0
Closed none t = Unit
Closed (some fd) t = open_at fd.raw_fd t ≡ none

Closed-shut : (fd : Option Fd) (t : Table) → Closed fd (shut_opt fd t)
unfolding Closed
Closed-shut none t = tt
Closed-shut (some fd) t = shut_same fd.raw_fd t

Closed-kept : (fd g : Option Fd) (t : Table) → Closed g t → Closed g (shut_opt fd t)
unfolding Closed
Closed-kept fd none t h = tt
Closed-kept fd (some g) t h = shut_opt_kept fd g.raw_fd t h

Closed-range : (fd : Option Fd) (t : Table) → Closed fd t → Closed fd (shut_range 3 uint_top t)
unfolding Closed
Closed-range none t h = tt
Closed-range (some fd) t h = range_kept 3 uint_top fd.raw_fd t h

Closed-Gone :
    (used other : Option Fd) (t : Table) → Closed used t → Closed other t → Gone used other t
unfolding Closed
Closed-Gone (some used) (some other) t h k = (h, k)
Closed-Gone (some used) none t h k = tt
Closed-Gone none other t h k = tt

-- The child's program finds its streams where they are wanted, and no end of a pipe.
pub child_table-IsWired : (p : Pipes) (t : Table) → IsAbove p → IsWired t p (child_table p t)
child_table-IsWired p t h = record {
  stdin_is =
      child_low p t 0 h (omega arith)
      ∙ dup_apart p.stderr_w p.stderr_r 2 0 _ refl
      ∙ dup_apart p.stdout_w p.stdout_r 1 0 _ refl
      ∙ dup_own p.stdin_r p.stdin_w 0 t;
  stdout_is =
      child_low p t 1 h (omega arith)
      ∙ dup_apart p.stderr_w p.stderr_r 2 1 _ refl
      ∙ dup_own p.stdout_w p.stdout_r 1 (dup_table p.stdin_r p.stdin_w 0 t)
      ∙ wanted_dup p.stdout_w p.stdout_r p.stdin_r p.stdin_w 1 0 t h.3 (omega arith) refl;
  stderr_is =
      child_low p t 2 h (omega arith)
      ∙ dup_own p.stderr_w p.stderr_r 2 _
      ∙ wanted_dup p.stderr_w p.stderr_r p.stdout_w p.stdout_r 2 1 _ h.5 (omega arith) refl
      ∙ wanted_dup p.stderr_w p.stderr_r p.stdin_r p.stdin_w 2 0 t h.5 (omega arith) refl;
  stdin_gone =
      Closed-Gone p.stdin_r p.stdin_w _ (Closed-range p.stdin_r _ in_r)
        (Closed-range p.stdin_w _ in_w);
  stdout_gone =
      Closed-Gone p.stdout_w p.stdout_r _ (Closed-range p.stdout_w _ out_w)
        (Closed-range p.stdout_r _ out_r);
  stderr_gone =
      Closed-Gone p.stderr_w p.stderr_r _ (Closed-range p.stderr_w _ (Closed-shut p.stderr_w _)) (
        Closed-range p.stderr_r _ (Closed-kept p.stderr_w p.stderr_r _ (Closed-shut p.stderr_r _)));
}
  where
    out_w : Closed p.stdout_w (shut_all p (dup_tables p t))
    out_w =
        Closed-kept p.stderr_w p.stdout_w _
          (Closed-kept p.stderr_r p.stdout_w _ (Closed-shut p.stdout_w _))

    out_r : Closed p.stdout_r (shut_all p (dup_tables p t))
    out_r = Closed-kept p.stderr_w p.stdout_r _ (
        Closed-kept p.stderr_r p.stdout_r _
          (Closed-kept p.stdout_w p.stdout_r _ (Closed-shut p.stdout_r _)))

    in_w : Closed p.stdin_w (shut_all p (dup_tables p t))
    in_w = Closed-kept p.stderr_w p.stdin_w _ (
        Closed-kept p.stderr_r p.stdin_w _ (
          Closed-kept p.stdout_w p.stdin_w _
            (Closed-kept p.stdout_r p.stdin_w _ (Closed-shut p.stdin_w _))))

    in_r : Closed p.stdin_r (shut_all p (dup_tables p t))
    in_r = Closed-kept p.stderr_w p.stdin_r _ (
        Closed-kept p.stderr_r p.stdin_r _ (
          Closed-kept p.stdout_w p.stdin_r _ (
            Closed-kept p.stdout_r p.stdin_r _
              (Closed-kept p.stdin_w p.stdin_r _ (Closed-shut p.stdin_r _)))))
