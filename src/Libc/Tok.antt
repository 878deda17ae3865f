-- ===== src/Libc/Tok.antt =====
-- strtok. The text is the memory from the saved pointer to the end of the buffer, so a scan that
-- meets no NUL and no delimiter runs out of the buffer.
use cmpe156_network_programm.Prelude.{
  ℕ, ◌≡◌, ◌≢◌, refl, Bool, false, ◌||◌, [], ◌∷◌, ◌++◌, Option, none, some, arith, ◌==◌,
  if◌then◌else◌, Result, ok, fault, out_of_bounds, ◌>>=◌,
}
use cmpe156_network_programm.Libc.Str.{Bytes, All, NoNul}

abbrev pub is_delim : Bytes → ℕ → Bool
is_delim [] c = false
is_delim (d ∷ ds) c = c == d || is_delim ds c

-- Past the delimiters: the rest of memory.
unfoldable pub skip : Bytes → Bytes → Result Bytes
skip ds [] = fault out_of_bounds
skip ds (c ∷ s) =
    let rest = skip ds s in
    if c == 0 then ok (c ∷ s) else if is_delim ds c then rest else ok (c ∷ s)

-- The bytes up to a delimiter, which is passed over, or up to the NUL, which is not.
unfoldable pub span : Bytes → Bytes → Result (Bytes × Bytes)
span ds [] = fault out_of_bounds
span ds (c ∷ s) =
    let rest = span ds s in
    if c == 0
    then ok ([], c ∷ s)
    else if is_delim ds c
    then ok ([], s)
    else rest >>= λ (t, r). ok (c ∷ t, r)

-- What begins at a byte that is no delimiter.
token : Bytes → Bytes → Result (Option Bytes × Bytes)
token ds [] = fault out_of_bounds
token ds (c ∷ s) = if c == 0 then ok (none, c ∷ s) else span ds (c ∷ s) >>= λ (t, r). ok (some t, r)

-- The token, or NULL, and the saved pointer's new rest.
unfoldable pub strtok : Bytes → Bytes → Result (Option Bytes × Bytes)
unfolding token
strtok ds s = skip ds s >>= token ds

-- A byte of a field: neither the NUL nor the delimiter.
abbrev pub IsPlain : ℕ → ℕ → Type 0
IsPlain d c = (c ≢ 0) × (c ≢ d)

pub span-plain :
    (d : ℕ) (t rest : Bytes)
    → d ≢ 0
    → All (IsPlain d) t
    → span (d ∷ []) (t ++ d ∷ rest) ≡ ok (t, rest)
unfolding span
span-plain d [] rest hd h = ground arith
span-plain d (c ∷ t) rest hd h = ground (arith, span-plain d t rest hd)

-- A field in front of a delimiter is the next token.
pub strtok-plain :
    (d c : ℕ) (t rest : Bytes)
    → d ≢ 0
    → All (IsPlain d) (c ∷ t)
    → strtok (d ∷ []) ((c ∷ t) ++ d ∷ rest) ≡ ok (some (c ∷ t), rest)
unfolding strtok token skip
strtok-plain d c t rest hd h = ground (arith, span-plain d (c ∷ t) rest hd h)

-- At the NUL the answer is NULL.
pub strtok_at_end : (ds rest : Bytes) → strtok ds (0 ∷ rest) ≡ ok (none, 0 ∷ rest)
unfolding strtok token skip
strtok_at_end ds rest = refl

-- A delimiter in front makes no empty token.
pub strtok-skip : (d : ℕ) (rest : Bytes) → d ≢ 0 → strtok (d ∷ []) (d ∷ rest) ≡ strtok (d ∷ []) rest
unfolding strtok skip
strtok-skip d rest h = ground arith

-- Without delimiters the token is the rest of the text.
span_all : (s rest : Bytes) → NoNul s → span [] (s ++ 0 ∷ rest) ≡ ok (s, 0 ∷ rest)
unfolding span
span_all [] rest h = refl
span_all (c ∷ s) rest h = ground (arith, span_all s rest h.1)

pub strtok_all :
    (s rest : Bytes) → s ≢ [] → NoNul s → strtok [] (s ++ 0 ∷ rest) ≡ ok (some s, 0 ∷ rest)
unfolding strtok token skip
strtok_all [] rest e h = absurd (e refl)
strtok_all (c ∷ s) rest e h = ground (arith, span_all (c ∷ s) rest h)

span_last :
    (d : ℕ) (t rest : Bytes) → All (IsPlain d) t → span (d ∷ []) (t ++ 0 ∷ rest) ≡ ok (t, 0 ∷ rest)
unfolding span
span_last d [] rest h = ground arith
span_last d (c ∷ t) rest h = ground (arith, span_last d t rest h.1)

-- A field in front of the NUL is the last token.
pub strtok_last :
    (d : ℕ) (t rest : Bytes)
    → t ≢ []
    → All (IsPlain d) t
    → strtok (d ∷ []) (t ++ 0 ∷ rest) ≡ ok (some t, 0 ∷ rest)
unfolding strtok token skip
strtok_last d [] rest e h = absurd (e refl)
strtok_last d (c ∷ t) rest e h = ground (arith, span_last d (c ∷ t) rest h)

pub strtok_field :
    (d : ℕ) (t rest : Bytes)
    → d ≢ 0
    → t ≢ []
    → All (IsPlain d) t
    → strtok (d ∷ []) (t ++ d ∷ rest) ≡ ok (some t, rest)
strtok_field d [] rest hd e h = absurd (e refl)
strtok_field d (c ∷ t) rest hd e h = strtok-plain d c t rest hd h
