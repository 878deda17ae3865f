-- ===== src/Libc/Find.antt =====
-- strstr, on C strings.
use cmpe156_network_programm.Prelude.{
  ◌≡◌, ◌≢◌, refl, ℕ, Bool, true, false, [], ◌∷◌, ◌++◌, Option, none, some, arith, ◌&&◌, ◌==◌,
  if◌then◌else◌,
}
use cmpe156_network_programm.Libc.Str.{Bytes, All}

-- The bytes of `p` stand at the start.
unfoldable pub starts : Bytes → Bytes → Bool
starts [] s = true
starts (p ∷ ps) [] = false
starts (p ∷ ps) (c ∷ s) = p == c && starts ps s

-- The text from the first place at which `p`, which is not empty, stands.
unfoldable pub strstr : Bytes → Bytes → Option Bytes
strstr [] p = none
strstr (c ∷ s) p = let later = strstr s p in if starts p (c ∷ s) then some (c ∷ s) else later

-- A byte is searched behind those that differ from it.
pub strstr-byte_absent : (d : ℕ) (s : Bytes) → All (λ c. c ≢ d) s → strstr s (d ∷ []) ≡ none
unfolding strstr starts
strstr-byte_absent d [] h = refl
strstr-byte_absent d (c ∷ s) h =
    let differs : (d == c) ≡ false = ground arith in rw differs (strstr-byte_absent d s h.1)

pub strstr-byte :
    (d : ℕ) (s rest : Bytes)
    → All (λ c. c ≢ d) s
    → strstr (s ++ d ∷ rest) (d ∷ []) ≡ some (d ∷ rest)
unfolding strstr starts
strstr-byte d [] rest h = ground arith
strstr-byte d (c ∷ s) rest h =
    let differs : (d == c) ≡ false = ground arith in rw differs (strstr-byte d s rest h.1)
