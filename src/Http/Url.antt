-- ===== src/Http/Url.antt =====
-- The texts of the URLs that hw1/hw1.c takes apart.
use cmpe156_network_programm.Prelude.{
  ℕ, ◌+◌, ◌≡◌, ◌≢◌, ◌<◌, ◌≤◌, refl, Bool, true, false, [], ◌∷◌, ◌++◌, arith, ◌⊎◌, none, some, ok,
  length, Bool-cases, inl, inr, le→ltb,
}
use cmpe156_network_programm.Libc.Str.{Bytes, All, codes, NoNul, strcpy_fits}
use cmpe156_network_programm.Libc.Tok.{IsPlain, strtok, strtok-plain}
use cmpe156_network_programm.Libc.Find.{strstr, starts}
use cmpe156_network_programm.Http.{without_scheme, split_url, parse_url}

-- The letters of a host's name, and of a target: no NUL, no slash in a host, no colon at all.
abbrev pub IsHostByte : ℕ → Type 0
IsHostByte c = (c ≢ 0) × (c ≢ b'/') × (c ≢ b':')

abbrev pub IsTargetByte : ℕ → Type 0
IsTargetByte c = (c ≢ 0) × (c ≢ b':')

-- A host with its first letter, and a target that is not empty and does not start with a slash.
pub record IsPlace (host target : Bytes) : Type 0 where
  pub host_plain : All IsHostByte host
  pub host_there : host ≢ []
  pub host_fits : length host < 512
  pub target_plain : All IsTargetByte target
  pub target_there : target ≢ []
  pub target_fits : length target < 3584
  pub fits : length host + length target < 4080

abbrev pub host_url : Bytes → Bytes → Bytes
host_url host target = host ++ b'/' ∷ target

-- A host in front of a delimiter.
pub strtok_host :
    (d : ℕ) (host rest : Bytes)
    → d ≢ 0
    → host ≢ []
    → All (IsPlain d) host
    → strtok (d ∷ []) (host ++ d ∷ rest) ≡ ok (some host, rest)
strtok_host d [] rest hd e h = absurd (e refl)
strtok_host d (c ∷ host) rest hd e h = strtok-plain d c host rest hd h

-- What a text starts with has only bytes of that text.
starts-All : (d : ℕ) (p s : Bytes) → starts p s ≡ true → All (λ c. c ≢ d) s → All (λ c. c ≢ d) p
unfolding starts
starts-All d [] s e h = tt
starts-All d (b ∷ p) [] e h = ground arith
starts-All d (b ∷ p) (c ∷ s) e h = (ground arith, starts-All d p s (ground arith) h.1)

-- A text without a colon holds no scheme.
strstr_scheme : (s : Bytes) → All (λ c. c ≢ b':') s → strstr s (codes "http://") ≡ none
unfolding strstr
strstr_scheme [] h = refl
strstr_scheme (c ∷ s) h = elim (Bool-cases (starts (codes "http://") (c ∷ s))) [
  | inl e ↦ absurd ((starts-All b':' (codes "http://") (c ∷ s) e h).1.1.1.1.0 refl)
  | inr e ↦ rw e (strstr_scheme s h.1)
]

-- A URL with the scheme or without.
abbrev pub scheme : Bool → Bytes
scheme true = codes "http://"
scheme false = []

pub without_scheme_there : (s : Bytes) → without_scheme (codes "http://" ++ s) ≡ s
unfolding strstr starts
without_scheme_there s = refl

pub without_scheme_plain :
    (b : Bool) (s : Bytes) → All (λ c. c ≢ b':') s → without_scheme (scheme b ++ s) ≡ s
unfolding strstr starts
without_scheme_plain true s h = refl
without_scheme_plain false s h = rw (strstr_scheme s h) refl

pub host-IsPlain :
    (d : ℕ) (s : Bytes) → (d ≡ b'/') ⊎ (d ≡ b':') → All IsHostByte s → All (IsPlain d) s
host-IsPlain d [] e h = tt
host-IsPlain d (c ∷ s) e h = ((h.0.0, λ f. ground arith), host-IsPlain d s e h.1)

pub host-absent :
    (d : ℕ) (s : Bytes) → (d ≡ b'/') ⊎ (d ≡ b':') → All IsHostByte s → All (λ c. c ≢ d) s
host-absent d [] e h = tt
host-absent d (c ∷ s) e h = ((λ f. ground arith), host-absent d s e h.1)

pub target-absent : (s : Bytes) → All IsTargetByte s → All (λ c. c ≢ b':') s
target-absent [] h = tt
target-absent (c ∷ s) h = (h.0.1, target-absent s h.1)

pub target-NoNul : (s : Bytes) → All IsTargetByte s → NoNul s
target-NoNul [] h = tt
target-NoNul (c ∷ s) h = (h.0.0, target-NoNul s h.1)

pub absent-append :
    (d : ℕ) (s t : Bytes) → All (λ c. c ≢ d) s → All (λ c. c ≢ d) t → All (λ c. c ≢ d) (s ++ t)
absent-append d [] t h k = k
absent-append d (c ∷ s) t h k = (h.0, absent-append d s t h.1 k)

-- A text that leaves room for the scheme is copied without it.
pub parse_url-split_url :
    (b : Bool) (text : Bytes)
    → length text < 4089
    → without_scheme (scheme b ++ text) ≡ text
    → parse_url (scheme b ++ text) ≡ split_url text
unfolding parse_url
parse_url-split_url b text f e =
    rw
      (
        le→ltb 4096 (length (scheme b ++ text)) (fits b),
        e,
        strcpy_fits 4096 text (omega (arith, f)),
      )
      refl
  where
    fits : (b : Bool) → length (scheme b ++ text) ≤ 4096
    fits true = omega (arith, f)
    fits false = omega (arith, f)
