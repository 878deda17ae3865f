-- ===== src/Libc/Number.antt =====
-- The decimal texts of numbers: the conversion %d, and atoi.
use cmpe156_network_programm.Prelude.{
  ℕ, zero, suc, ◌+◌, ◌-◌, ◌*◌, ◌/◌, ◌%◌, ◌^◌, ◌≤◌, ◌<◌, ◌≡◌, ◌≢◌, refl, Bool, ◌&&◌, ◌||◌, [], ◌∷◌,
  length, arith, ◌==◌, leb, ltb, if◌then◌else◌, Result, ok, fault, int_range, ℤ, pos, negsuc,
}
use native.Mathlib.Nat.{pow-suc}
use cmpe156_network_programm.Libc.Str.{Bytes, All}
use cmpe156_network_programm.Libc.Tok.{IsPlain}

-- The digits of a number below 10 ^ fuel, in front of a text.
unfoldable pub digits : ℕ → ℕ → Bytes → Bytes
digits zero n out = out
digits (suc f) n out =
    let more = digits f (n / 10) ((b'0' + n % 10) ∷ out) in
    if ltb n 10 then (b'0' + n) ∷ out else more

-- %d of an `int` that is not negative, and of one that is. A number has fewer digits than its
-- successor has units.
unfoldable pub decimal : ℕ → Bytes
unfolding digits
decimal n = digits (suc n) n []

unfoldable pub format_d : ℤ → Bytes
unfolding decimal
format_d (pos n) = decimal n
format_d (negsuc n) = b'-' ∷ decimal (suc n)

abbrev pub is_digit : ℕ → Bool
is_digit c = leb b'0' c && leb c b'9'

abbrev pub is_space : ℕ → Bool
is_space c = c == b' ' || leb 9 c && leb c 13

-- The value of the digits in front, behind a number.
unfoldable pub scan : Bytes → ℕ → ℕ
scan [] n = n
scan (c ∷ s) n = let rest = scan s (n * 10 + (c - b'0')) in if is_digit c then rest else n

-- Outside the range of the result the C standard leaves atoi and atol undefined. `size` is one more
-- than the greatest value.
abbrev pub int_min_size : ℕ
int_min_size = 2 ^ 31

abbrev pub long_min_size : ℕ
long_min_size = 2 ^ 63

positive : ℕ → ℕ → Result ℤ
positive size n = if ltb n size then ok (pos n) else fault int_range

negative : ℕ → ℕ → Result ℤ
negative size zero = ok (pos 0)
negative size (suc n) = if ltb n size then ok (negsuc n) else fault int_range

-- Past the spaces, a sign and the digits.
number_in : ℕ → Bytes → Result ℤ
unfolding positive negative scan
number_in size [] = ok (pos 0)
number_in size (c ∷ s) =
    let rest = number_in size s in
    if is_space c
    then rest
    else if c == b'-'
    then negative size (scan s 0)
    else if c == b'+'
    then positive size (scan s 0)
    else positive size (scan (c ∷ s) 0)

unfoldable pub atoi : Bytes → Result ℤ
unfolding number_in
atoi s = number_in int_min_size s

unfoldable pub atol : Bytes → Result ℤ
unfolding number_in
atol s = number_in long_min_size s

-- Reading the digits of a number gives the number, and goes on behind them.
scan-digits : (f n : ℕ) (out : Bytes) → n < f → scan (digits f n out) 0 ≡ scan out n
unfolding digits scan
scan-digits zero n out h = elim h [ ]
scan-digits (suc f) n out h = ground (arith, scan-digits f (n / 10) ((b'0' + n % 10) ∷ out))

pub scan-decimal : (n : ℕ) → scan (decimal n) 0 ≡ n
unfolding decimal scan
scan-decimal n = scan-digits (suc n) n [] (omega arith)

-- A number below 10 ^ k, for a positive k, has at most k digits.
length-digits :
    (f k n : ℕ) (out : Bytes)
    → n < f
    → n < 10 ^ suc k
    → length (digits f n out) ≤ suc k + length out
unfolding digits
length-digits zero k n out h b = elim h [ ]
length-digits (suc f) zero n out h b = ground arith
length-digits (suc f) (suc k) n out h b =
    ground (arith, pow-suc 10 (suc k), length-digits f k (n / 10) ((b'0' + n % 10) ∷ out))

pub length-decimal : (k n : ℕ) → n < 10 ^ suc k → length (decimal n) ≤ suc k
unfolding decimal
length-decimal k n b = omega (arith, length-digits (suc n) k n [] (omega arith) b)

-- Every byte of a print is a digit.
abbrev pub IsDigit : ℕ → Type 0
IsDigit c = (b'0' ≤ c) × (c ≤ b'9')

digits-All : (f n : ℕ) (out : Bytes) → All IsDigit out → All IsDigit (digits f n out)
unfolding digits
digits-All zero n out h = h
digits-All (suc f) n out h = ground (arith, digits-All f (n / 10) ((b'0' + n % 10) ∷ out))

pub decimal-All : (n : ℕ) → All IsDigit (decimal n)
unfolding decimal
decimal-All n = digits-All (suc n) n [] tt

digits-ne-nil : (f n : ℕ) (out : Bytes) → out ≢ [] → digits f n out ≢ []
unfolding digits
digits-ne-nil zero n out h = h
digits-ne-nil (suc f) n out h = ground (arith, digits-ne-nil f (n / 10) ((b'0' + n % 10) ∷ out))

pub decimal-ne-nil : (n : ℕ) → decimal n ≢ []
unfolding decimal digits
decimal-ne-nil n = ground (arith, digits-ne-nil n (n / 10) ((b'0' + n % 10) ∷ []))

number_in-digits :
    (size : ℕ) (t : Bytes) → t ≢ [] → All IsDigit t → number_in size t ≡ positive size (scan t 0)
unfolding number_in
number_in-digits size [] h a = absurd (h refl)
number_in-digits size (c ∷ t) h a = ground arith

-- The values of a signed type of a size.
abbrev IsIn : ℕ → ℤ → Type 0
IsIn size (pos n) = n < size
IsIn size (negsuc n) = n < size

abbrev pub IsInt : ℤ → Type 0
IsInt = IsIn int_min_size

abbrev pub IsLong : ℤ → Type 0
IsLong = IsIn long_min_size

number_in-format_d : (size : ℕ) (z : ℤ) → IsIn size z → number_in size (format_d z) ≡ ok z
unfolding format_d positive
number_in-format_d size (pos n) h =
    ground
      (arith, number_in-digits size (decimal n) (decimal-ne-nil n) (decimal-All n), scan-decimal n)
number_in-format_d size (negsuc n) h = unfold number_in in ground (arith, scan-decimal (suc n))

-- atoi undoes %d on every `int`, and atol %ld on every `long`.
pub atoi-format_d : (z : ℤ) → IsInt z → atoi (format_d z) ≡ ok z
unfolding atoi
atoi-format_d = number_in-format_d int_min_size

pub atol-format_d : (z : ℤ) → IsLong z → atol (format_d z) ≡ ok z
unfolding atol
atol-format_d = number_in-format_d long_min_size

-- The bytes of a print hold neither a NUL nor a colon.
digits-IsPlain : (t : Bytes) → All IsDigit t → All (IsPlain b':') t
digits-IsPlain [] a = tt
digits-IsPlain (c ∷ t) a = ((omega arith, omega arith), digits-IsPlain t a.1)

pub format_d-All : (z : ℤ) → All (IsPlain b':') (format_d z)
unfolding format_d
format_d-All (pos n) = digits-IsPlain (decimal n) (decimal-All n)
format_d-All (negsuc n) =
    ((omega arith, omega arith), digits-IsPlain (decimal (suc n)) (decimal-All (suc n)))

pub format_d-ne-nil : (z : ℤ) → format_d z ≢ []
unfolding format_d
format_d-ne-nil (pos n) = decimal-ne-nil n
format_d-ne-nil (negsuc n) = λ e. cc
