-- ===== src/Libc/Str.antt =====
-- <string.h>: strlen, strcmp, strcpy. A C string is the list of its bytes before the NUL;
-- a `char *` that may be NULL is an option of one.
use Prim.Native.Char.{code}
use Prim.Native.String.{String}
use cmpe156_network_programm.Prelude.{
  zero, suc, ap, ℕ, ◌<◌, ◌≡◌, ◌≢◌, ◌↔◌, refl, Bool, true, false, not, ◌&&◌, List, [], ◌∷◌, ◌++◌,
  Option, some, arith, ◌==◌, ltb, if◌then◌else◌, length, Result, ok, fault, out_of_bounds, deref,
  ◌>>=◌, replicate,
}

abbrev pub Bytes : Type 0
Bytes = List ℕ

-- The bytes of an ASCII literal.
abbrev pub codes : String → Bytes
codes String.[] = []
codes (String.◌∷◌ c s) = code c ∷ codes s

abbrev pub All {ℓ κ} : {A : Type ℓ} → (A → Type κ) → List A → Type κ
All P [] = Unit
All P (x ∷ xs) = P x × All P xs

-- strcmp(s, t) == 0, both pointers valid
unfoldable pub str_eq : Bytes → Bytes → Bool
str_eq [] [] = true
str_eq [] (d ∷ t) = false
str_eq (c ∷ s) [] = false
str_eq (c ∷ s) (d ∷ t) = c == d && str_eq s t

-- strcmp(s, t) == 0: either pointer may be NULL
unfoldable pub strcmp_eq : Option Bytes → Option Bytes → Result Bool
strcmp_eq p q = deref p >>= λ s. deref q >>= λ t. ok (str_eq s t)

-- strcpy into an array of `size` bytes: the text and its NUL have to fit.
unfoldable pub strcpy : ℕ → Option Bytes → Result Bytes
strcpy size p = deref p >>= λ s. if ltb (length s) size then ok s else fault out_of_bounds

pub str_eq_sound : (s t : Bytes) → str_eq s t ≡ true → s ≡ t
unfolding str_eq
str_eq_sound [] [] h = refl
str_eq_sound [] (d ∷ t) h = ground arith
str_eq_sound (c ∷ s) [] h = ground arith
str_eq_sound (c ∷ s) (d ∷ t) h = ground (arith, str_eq_sound s t)

pub str_eq_refl : (s : Bytes) → str_eq s s ≡ true
unfolding str_eq
str_eq_refl [] = refl
str_eq_refl (c ∷ s) = ground (arith, str_eq_refl s)

pub str_eq_ne : (s t : Bytes) → s ≢ t → str_eq s t ≡ false
str_eq_ne s t h = ground (arith, str_eq_sound s t)

pub str_eq_iff : (s t : Bytes) → (str_eq s t ≡ true) ↔ (s ≡ t)
str_eq_iff s t = (str_eq_sound s t, λ e. ground (arith, str_eq_refl s))

pub strcpy_fits : (size : ℕ) (s : Bytes) → length s < size → strcpy size (some s) ≡ ok s
unfolding strcpy
strcpy_fits size s h = ground arith

-- A message as it stands in a zeroed buffer of `size` bytes, which it does not fill.
abbrev pub in_buffer : ℕ → Bytes → Bytes
in_buffer spare s = s ++ replicate spare 0

-- The C string at the start of a buffer; with no NUL the reader leaves the buffer.
unfoldable pub c_string : Bytes → Result Bytes
c_string [] = fault out_of_bounds
c_string (c ∷ s) = let rest = c_string s in if c == 0 then ok [] else (rest >>= λ t. ok (c ∷ t))

-- No byte of a text is the NUL.
abbrev pub NoNul : Bytes → Type 0
NoNul = All (λ c. c ≢ 0)

abbrev pub no_nul : Bytes → Bool
no_nul [] = true
no_nul (c ∷ s) = not (c == 0) && no_nul s

pub no_nul-NoNul : (s : Bytes) → no_nul s ≡ true → NoNul s
no_nul-NoNul [] e = tt
no_nul-NoNul (c ∷ s) e = (ground arith, no_nul-NoNul s (ground arith))

pub NoNul-append : (s t : Bytes) → NoNul s → NoNul t → NoNul (s ++ t)
NoNul-append [] t hs ht = ht
NoNul-append (c ∷ s) t hs ht = (hs.0, NoNul-append s t hs.1 ht)

pub c_string-text : (s rest : Bytes) → NoNul s → c_string (s ++ 0 ∷ rest) ≡ ok s
unfolding c_string
c_string-text [] rest h = refl
c_string-text (c ∷ s) rest h = ground (arith, c_string-text s rest h.1)

-- The zeros behind a text that leaves room for one.
pub zeros : (k m : ℕ) → k ≡ suc m → replicate {A = ℕ} k 0 ≡ 0 ∷ replicate m 0
zeros zero m e = absurd (omega arith)
zeros (suc k) m e = ap (λ n. 0 ∷ replicate n 0) (omega arith)

-- The parts of a text without a NUL hold none.
pub NoNul-parts : (s t : Bytes) → NoNul (s ++ t) → NoNul s × NoNul t
NoNul-parts [] t h = (tt, h)
NoNul-parts (c ∷ s) t h = let (a, b) = NoNul-parts s t h.1 in ((h.0, a), b)
