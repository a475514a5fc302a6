-- ===== src/System/ProcStatus.antt =====
-- sys/mod.rs: the files /proc/<pid>/status and /proc/<pid>/cmdline. The text of a file is the list of its
-- characters; the file system is a parameter.
pub mod Fields
use coreshift_lowlevel.Prelude.{
  ℕ, List, [], ◌∷◌, ◌++◌, map, ℤ, Bool, true, false, Option, none, some, ◌==◌, ◌||◌, ◌&&◌, is_some,
  if◌then◌else◌,
}
use coreshift_lowlevel.Text.{from_utf8_lossy, parse_u32, between}
use coreshift_lowlevel.System.Procfs.{show_int, proc_dir}

abbrev pub Chars : Type 0
Chars = List ℕ

pub record ProcStatus : Type 0 where
  pub name : Chars
  pub uid : ℕ

-- `std::io::Error`: of the file system, or of the kind `InvalidData`.
pub data IoError : Type 0 where
  os_error : ℕ → IoError
  invalid_data : IoError

pub data IoResult (A : Type 0) : Type 0 where
  ok : A → IoResult A
  err : IoError → IoResult A

-- `char::is_whitespace`
unfoldable pub is_whitespace : ℕ → Bool
is_whitespace c =
    between 9 13 c
    || c == 32
    || c == 0x85
    || c == 0xa0
    || c == 0x1680
    || between 0x2000 0x200a c
    || c == 0x2028
    || c == 0x2029
    || c == 0x202f
    || c == 0x205f
    || c == 0x3000

-- `str::trim_start_matches`, and `str::trim_end_matches`, of the characters that pass a test.
unfoldable pub trim_start_by : (ℕ → Bool) → Chars → Chars
trim_start_by test [] = []
trim_start_by test (c ∷ rest) = if test c then trim_start_by test rest else c ∷ rest

abbrev pub before_end : (ℕ → Bool) → ℕ → Chars → Chars
before_end test c [] = if test c then [] else c ∷ []
before_end test c (d ∷ rest) = c ∷ d ∷ rest

unfoldable pub trim_end_by : (ℕ → Bool) → Chars → Chars
trim_end_by test [] = []
trim_end_by test (c ∷ rest) = before_end test c (trim_end_by test rest)

-- `str::trim`
unfoldable pub trim : Chars → Chars
unfolding trim_start_by trim_end_by is_whitespace
trim s = trim_end_by is_whitespace (trim_start_by is_whitespace s)

unfoldable pub take_word : Chars → Chars
unfolding is_whitespace
take_word [] = []
take_word (c ∷ rest) = if is_whitespace c then [] else c ∷ take_word rest

abbrev pub word_at : Chars → Option Chars
word_at [] = none
word_at (c ∷ rest) = some (take_word (c ∷ rest))

-- `str::split_whitespace().next()`
unfoldable pub first_word : Chars → Option Chars
unfolding trim_start_by take_word is_whitespace
first_word s = word_at (trim_start_by is_whitespace s)

-- `str::strip_prefix`
unfoldable pub strip_prefix : Chars → Chars → Option Chars
strip_prefix [] s = some s
strip_prefix (p ∷ ps) [] = none
strip_prefix (p ∷ ps) (c ∷ cs) = if p == c then strip_prefix ps cs else none

-- A line without the carriage return before its line feed.
unfoldable pub strip_cr : Chars → Chars
strip_cr [] = []
strip_cr (c ∷ []) = if c == b'\r' then [] else c ∷ []
strip_cr (c ∷ d ∷ rest) = c ∷ strip_cr (d ∷ rest)

-- What stands after the last line feed is a line where it is not empty.
abbrev pub last_line : Chars → List Chars
last_line [] = []
last_line (c ∷ rest) = (c ∷ rest) ∷ []

-- `str::lines`, with what is read of the current line.
unfoldable pub lines_from : Chars → Chars → List Chars
unfolding strip_cr
lines_from line [] = last_line line
lines_from line (c ∷ cs) = elim (c == b'\n') [
  | true ↦ strip_cr line ∷ lines_from [] cs
  | false ↦ lines_from (line ++ (c ∷ [])) cs
]

unfoldable pub lines : Chars → List Chars
unfolding lines_from
lines content = lines_from [] content

-- `Name:` and `Uid:`
abbrev pub name_label : Chars
name_label = b'N' ∷ b'a' ∷ b'm' ∷ b'e' ∷ b':' ∷ []

abbrev pub uid_label : Chars
uid_label = b'U' ∷ b'i' ∷ b'd' ∷ b':' ∷ []

abbrev pub parsed : Option Chars → Option ℕ
parsed none = none
parsed (some word) = parse_u32 word

-- What one line makes of the name and the number found so far.
unfoldable pub read_line : Chars → Option Chars × Option ℕ → Option Chars × Option ℕ
unfolding strip_prefix trim first_word parse_u32
read_line line (name, uid) = elim (strip_prefix name_label line) [
  | some rest ↦ (some (trim rest), uid)
  | none ↦ elim (strip_prefix uid_label line) [
    | some rest ↦ (name, parsed (first_word rest))
    | none ↦ (name, uid)
  ]
]

abbrev pub complete : Option Chars × Option ℕ → Bool
complete (name, uid) = is_some name && is_some uid

-- The lines are read until both are found.
unfoldable pub read_lines : List Chars → Option Chars × Option ℕ → Option Chars × Option ℕ
unfolding read_line
read_lines [] found = found
read_lines (line ∷ rest) found =
    let found' = read_line line found in if complete found' then found' else read_lines rest found'

abbrev pub status_of : Option Chars × Option ℕ → IoResult ProcStatus
status_of (some name, some uid) = ok (record { name = name; uid = uid })
status_of (some name, none) = err invalid_data
status_of (none, uid) = err invalid_data

unfoldable pub parse_proc_status : Chars → IoResult ProcStatus
unfolding lines read_lines
parse_proc_status content = status_of (read_lines (lines content) (none, none))

abbrev pub status_file : Chars
status_file = b'/' ∷ b's' ∷ b't' ∷ b'a' ∷ b't' ∷ b'u' ∷ b's' ∷ []

abbrev pub cmdline_file : Chars
cmdline_file = b'/' ∷ b'c' ∷ b'm' ∷ b'd' ∷ b'l' ∷ b'i' ∷ b'n' ∷ b'e' ∷ []

-- The standard library's reading of a whole file: as text, and as bytes.
pub record Files : Type 0 where
  pub read_to_string : Chars → IoResult Chars
  pub read : Chars → IoResult (List ℕ)

unfoldable pub read_proc_status : Files → ℤ → IoResult ProcStatus
unfolding show_int parse_proc_status
read_proc_status fs pid = elim (fs.read_to_string ((proc_dir ++ show_int pid) ++ status_file)) [
  | ok content ↦ parse_proc_status content
  | err e ↦ err e
]

abbrev pub is_nul : ℕ → Bool
is_nul c = c == 0

abbrev pub spaced : ℕ → ℕ
spaced c = if c == 0 then b' ' else c

-- The text of a command line: no NUL at the end, and a space for every other.
unfoldable pub cmdline_text : List ℕ → Chars
unfolding from_utf8_lossy trim_end_by
cmdline_text bytes = map spaced (trim_end_by is_nul (from_utf8_lossy bytes))

unfoldable pub read_proc_cmdline : Files → ℤ → IoResult Chars
unfolding show_int cmdline_text
read_proc_cmdline fs pid = elim (fs.read ((proc_dir ++ show_int pid) ++ cmdline_file)) [
  | ok bytes ↦ ok (cmdline_text bytes)
  | err e ↦ err e
]
