-- ===== src/Libc/Scan.antt =====
-- The conversion %s of sscanf, on a C string: spaces are passed over, and the word behind them is
-- written with its NUL.
use cmpe156_network_programm.Prelude.{
  ℕ, not, ◌&&◌, ◌≡◌, ◌≢◌, ◌<◌, refl, Bool, true, false, [], ◌∷◌, ◌++◌, arith, Result, ok, fault,
  out_of_bounds, length, ltb, lt→ltb, if◌then◌else◌,
}
use cmpe156_network_programm.Libc.Str.{Bytes, All}
use cmpe156_network_programm.Libc.Number.{is_space}

unfoldable pub skip_spaces : Bytes → Bytes
skip_spaces [] = []
skip_spaces (c ∷ s) = let rest = skip_spaces s in if is_space c then rest else c ∷ s

-- The bytes up to a space or the end, and what is left.
unfoldable pub word : Bytes → Bytes × Bytes
word [] = ([], [])
word (c ∷ s) = let rest = word s in if is_space c then ([], c ∷ s) else (c ∷ rest.0, rest.1)

-- One %s into a zeroed array of `size` bytes. Where the text ends before a word, the array stays
-- zeroed, as do those of the later conversions.
unfoldable pub scan_s : ℕ → Bytes → Result (Bytes × Bytes)
scan_s size s =
    let (w, rest) = word (skip_spaces s) in
    if ltb (length w) size then ok (w, rest) else fault out_of_bounds

abbrev pub IsInk : ℕ → Type 0
IsInk c = is_space c ≡ false

-- A word of a text: not empty, with no space in it.
abbrev pub IsWord : Bytes → Type 0
IsWord w = (w ≢ []) × All IsInk w

abbrev all_ink : Bytes → Bool
all_ink [] = true
all_ink (c ∷ s) = not (is_space c) && all_ink s

abbrev pub is_word : Bytes → Bool
is_word [] = false
is_word (c ∷ s) = all_ink (c ∷ s)

all_ink-IsInk : (s : Bytes) → all_ink s ≡ true → All IsInk s
all_ink-IsInk [] e = tt
all_ink-IsInk (c ∷ s) e = (ground arith, all_ink-IsInk s (ground arith))

pub is_word-IsWord : (s : Bytes) → is_word s ≡ true → IsWord s
is_word-IsWord [] e = ground arith
is_word-IsWord (c ∷ s) e = ((λ f. cc), all_ink-IsInk (c ∷ s) e)

skip_spaces-word : (w rest : Bytes) → IsWord w → skip_spaces (w ++ rest) ≡ w ++ rest
unfolding skip_spaces
skip_spaces-word [] rest h = absurd (h.0 refl)
skip_spaces-word (c ∷ w) rest h = rw h.1.0 refl

-- What stands behind a word: nothing, or a space first.
abbrev pub StartsSpace : Bytes → Type 0
StartsSpace [] = Unit
StartsSpace (c ∷ s) = is_space c ≡ true

word-append : (w rest : Bytes) → All IsInk w → StartsSpace rest → word (w ++ rest) ≡ (w, rest)
unfolding word
word-append [] [] h r = refl
word-append [] (c ∷ rest) h r = rw r refl
word-append (c ∷ w) rest h r = rw (h.0, word-append w rest h.1 r) refl

skip_spaces-append :
    (gap s : Bytes) → All (λ c. is_space c ≡ true) gap → skip_spaces (gap ++ s) ≡ skip_spaces s
unfolding skip_spaces
skip_spaces-append [] s h = refl
skip_spaces-append (c ∷ gap) s h = rw h.0 (skip_spaces-append gap s h.1)

-- Behind spaces, a word that fits is read, and the text goes on behind it.
pub scan_s-word :
    (size : ℕ) (gap w rest : Bytes)
    → All (λ c. is_space c ≡ true) gap
    → IsWord w
    → length w < size
    → StartsSpace rest
    → scan_s size (gap ++ (w ++ rest)) ≡ ok (w, rest)
unfolding scan_s
scan_s-word size gap w rest g h f r =
    rw
      (
        skip_spaces-append gap (w ++ rest) g,
        skip_spaces-word w rest h,
        word-append w rest h.1 r,
        lt→ltb (length w) size f,
      )
      refl

-- Spaces alone hold no word.
pub scan_s_none :
    (size : ℕ) (gap : Bytes)
    → All (λ c. is_space c ≡ true) gap
    → 0 < size
    → scan_s size gap ≡ ok ([], [])
unfolding scan_s skip_spaces word
scan_s_none size [] g f = rw (lt→ltb 0 size f) refl
scan_s_none size (c ∷ gap) g f = rw g.0 (scan_s_none size gap g.1 f)
