-- ===== src/System/ProcStatus/Fields.antt =====
-- sys/mod.rs: `parse_proc_status`, against the fields of the file.
use coreshift_lowlevel.Prelude.{
  ℕ, ◌+◌, ◌≤◌, ◌≡◌, refl, sym, ap, ap₂, ◌∙◌, List, [], ◌∷◌, Option, none, some, arith,
  if◌then◌else◌,
}
use coreshift_lowlevel.System.ProcStatus.{
  Chars, strip_prefix, trim, first_word, parsed, name_label, uid_label, read_line, read_lines,
  complete, status_of, parse_proc_status, lines,
}

-- What the first line with this label has behind it, if any.
abbrev or_later : Option Chars → Option Chars → Option Chars
or_later none later = later
or_later (some rest) later = some rest

unfoldable pub field : Chars → List Chars → Option Chars
field label [] = none
field label (line ∷ rest) = or_later (strip_prefix label line) (field label rest)

-- How many lines have a label.
abbrev one_if : Option Chars → ℕ
one_if none = 0
one_if (some rest) = 1

unfoldable pub count : Chars → List Chars → ℕ
count label [] = 0
count label (line ∷ rest) = one_if (strip_prefix label line) + count label rest

abbrev pub trimmed : Option Chars → Option Chars
trimmed none = none
trimmed (some rest) = some (trim rest)

abbrev pub uid_of : Option Chars → Option ℕ
uid_of none = none
uid_of (some rest) = parsed (first_word rest)

-- The name and the number by their labels.
pub by_fields : List Chars → Option Chars × Option ℕ
by_fields ls = (trimmed (field name_label ls), uid_of (field uid_label ls))

abbrev or_else : {A : Type 0} → Option A → Option A → Option A
or_else none b = b
or_else (some a) b = some a

-- A field that was found has no further line.
abbrev Found : {A : Type 0} → Option A → ℕ → Type 0
Found none n = n ≤ 1
Found (some a) n = n ≡ 0

not_both :
    (line rest : Chars)
    → strip_prefix name_label line ≡ some rest
    → strip_prefix uid_label line ≡ none
unfolding strip_prefix
not_both [] rest e = refl
not_both (c ∷ cs) rest e = ground arith

field_none : (label : Chars) (ls : List Chars) → count label ls ≡ 0 → field label ls ≡ none
unfolding count field
field_none label [] e = refl
field_none label (line ∷ rest) e = go (field_none label rest) (strip_prefix label line) e
  where
    go :
        (count label rest ≡ 0 → field label rest ≡ none)
        → (o : Option Chars) → one_if o + count label rest ≡ 0
        → or_later o (field label rest) ≡ none
    go ih none e = ih (omega (arith, e))
    go ih (some r) e = absurd (omega (arith, e))

or_else-none : {A : Type 0} (o : Option A) → or_else o none ≡ o
or_else-none none = refl
or_else-none (some a) = refl

Found-none : {A : Type 0} (o : Option A) (n : ℕ) → n ≡ 0 → Found o n
Found-none none n e = omega (arith, e)
Found-none (some a) n e = e

abbrev merged : Option Chars → Option ℕ → List Chars → Option Chars × Option ℕ
merged n u ls = (or_else n (trimmed (field name_label ls)), or_else u (uid_of (field uid_label ls)))

-- One line, with what its labels make of it.
abbrev taken : Option Chars → Option Chars → Option Chars × Option ℕ → Option Chars × Option ℕ
taken a b (n, u) = elim a [
  | some rest ↦ (some (trim rest), u)
  | none ↦ elim b [ some rest ↦ (n, parsed (first_word rest)) | none ↦ (n, u) ]
]

-- The statement for the lines behind one.
abbrev Reads : List Chars → Type 0
Reads rest =
    (n : Option Chars) (u : Option ℕ)
    → Found n (count name_label rest)
    → Found u (count uid_label rest)
    → read_lines rest (n, u) ≡ merged n u rest

-- The line with the number was read, so that no other has it.
number_read :
    (rest : List Chars)
    → Reads rest
    → (n : Option Chars) (v : Option ℕ) → Found n (count name_label rest)
    → count uid_label rest ≡ 0
    → (if complete (n, v) then (n, v) else read_lines rest (n, v))
      ≡ (or_else n (trimmed (field name_label rest)), v)
number_read rest ih (some x) (some y) hn hu = refl
number_read rest ih none (some y) hn hu = ih none (some y) hn hu
number_read rest ih (some x) none hn hu =
    ih (some x) none hn (omega (arith, hu))
    ∙ ap (λ o. (some x, uid_of o)) (field_none uid_label rest hu)
number_read rest ih none none hn hu =
    ih none none hn (omega (arith, hu))
    ∙ ap (λ o. (trimmed (field name_label rest), uid_of o)) (field_none uid_label rest hu)

read_lines_fields :
    (ls : List Chars) (n : Option Chars) (u : Option ℕ)
    → Found n (count name_label ls)
    → Found u (count uid_label ls)
    → read_lines ls (n, u) ≡ merged n u ls
unfolding read_lines read_line count field
read_lines_fields [] n u hn hu = ap₂ (λ a b. (a, b)) (sym (or_else-none n)) (sym (or_else-none u))
read_lines_fields (line ∷ rest) n u hn hu =
    go (read_lines_fields rest) (strip_prefix name_label line) (strip_prefix uid_label line)
      (not_both line) n u hn hu
  where
    go :
        Reads rest
        → (a b : Option Chars) → ((r : Chars) → a ≡ some r → b ≡ none)
        → (n : Option Chars) (u : Option ℕ) → Found n (one_if a + count name_label rest)
        → Found u (one_if b + count uid_label rest)
        → (if complete (taken a b (n, u))
            then taken a b (n, u)
            else read_lines rest (taken a b (n, u)))
          ≡ (
            or_else n (trimmed (or_later a (field name_label rest))),
            or_else u (uid_of (or_later b (field uid_label rest))),
          )
    go ih (some r) (some q) one n u hn hu = absurd (cc (one r refl))
    go ih (some r) none one (some x) u hn hu = absurd (omega (arith, hn))
    go ih (some r) none one none (some y) hn hu = refl
    go ih (some r) none one none none hn hu =
        ih (some (trim r)) none (omega (arith, hn)) (omega (arith, hu))
    go ih none (some q) one n (some y) hn hu = absurd (omega (arith, hu))
    go ih none (some q) one none none hn hu =
        number_read rest ih none (parsed (first_word q)) (omega (arith, hn)) (omega (arith, hu))
    go ih none (some q) one (some x) none hn hu =
        number_read rest ih (some x) (parsed (first_word q)) (omega (arith, hn)) (omega (arith, hu))
    go ih none none one (some x) (some y) hn hu = refl
    go ih none none one (some x) none hn hu =
        ih (some x) none (omega (arith, hn)) (omega (arith, hu))
    go ih none none one none (some y) hn hu =
        ih none (some y) (omega (arith, hn)) (omega (arith, hu))
    go ih none none one none none hn hu = ih none none (omega (arith, hn)) (omega (arith, hu))

-- Where no label is on two lines, `parse_proc_status` gives the trimmed text of the line with the name
-- and the number in the first word of the line with the uid, wherever the two lines stand, or
-- InvalidData where one is missing or the word is no number.
pub parse_proc_status-by_fields :
    (content : Chars)
    → count name_label (lines content) ≤ 1
    → count uid_label (lines content) ≤ 1
    → parse_proc_status content ≡ status_of (by_fields (lines content))
unfolding parse_proc_status by_fields
parse_proc_status-by_fields content hn hu =
    ap status_of (read_lines_fields (lines content) none none hn hu)
