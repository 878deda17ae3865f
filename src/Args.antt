-- ===== src/Args.antt =====
-- The tests of the command line: pro/src/util.c, whose functions the other programs have copies of.
pub mod Programs
pub mod Listening
pub mod UserName
mod Tests
use cmpe156_network_programm.Prelude.{
  ℕ, zero, suc, Bool, true, false, Option, none, some, Result, ok, fault, indeterminate, ◌>>=◌, ℤ,
  pos, negsuc, length,
}
use cmpe156_network_programm.Libc.Str.{Bytes, codes}
use cmpe156_network_programm.Libc.Number.{atoi}

-- What regcomp and regexec give for a pattern and a text: the pattern is not compiled, the text
-- matches or not, or the search fails.
pub data Regex : Type 0 where
  not_compiled matched no_match failed_search : Regex

abbrev pub ip_pattern : Bytes
ip_pattern = codes "^([0-9]{1,3}\\.|\\*\\.){3}([0-9]{1,3}|\\*){1}$"

abbrev pub name_pattern : Bytes
name_pattern = codes "^[a-zA-Z0-9]*$"

-- `result > 0`
abbrev pub is_positive : ℤ → Bool
is_positive (pos zero) = false
is_positive (pos (suc n)) = true
is_positive (negsuc n) = false

-- The result of inet_pton is looked at unless the text does not match.
unfoldable pub is_valid_ip : (Bytes → Bytes → Regex) → (Bytes → ℤ) → Bytes → Bool
is_valid_ip regex inet_pton ipaddr = elim (regex ip_pattern ipaddr) [
  | not_compiled ↦ false
  | no_match ↦ false
  | matched ↦ is_positive (inet_pton ipaddr)
  | failed_search ↦ is_positive (inet_pton ipaddr)
]

-- Any number but 0.
abbrev pub is_nonzero : ℤ → Bool
is_nonzero (pos zero) = false
is_nonzero (pos (suc n)) = true
is_nonzero (negsuc n) = true

unfoldable pub is_valid_port : Bytes → Result Bool
is_valid_port port = atoi port >>= λ p. ok (is_nonzero p)

unfoldable pub is_number : Bytes → Result Bool
is_number connectnum = atoi connectnum >>= λ p. ok (is_nonzero p)

-- Whether access finds the file among the files of the directory.
unfoldable pub has_file : (Bytes → Option Bytes) → Bytes → Bool
has_file files fname = elim (files fname) [ none ↦ false | some content ↦ true ]

-- The result of stat is not looked at: for a file that is not there the size has no value.
unfoldable pub file_length : (Bytes → Option Bytes) → Bytes → Result ℕ
file_length files filename = elim (files filename) [
  | none ↦ fault indeterminate
  | some content ↦ ok (length content)
]

-- No result: failHandler has ended the program.
unfoldable pub is_only_letters_or_numbers : (Bytes → Bytes → Regex) → Bytes → Option Bool
is_only_letters_or_numbers regex name = elim (regex name_pattern name) [
  | not_compiled ↦ none
  | matched ↦ some true
  | no_match ↦ some false
  | failed_search ↦ none
]
