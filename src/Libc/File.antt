-- ===== src/Libc/File.antt =====
-- fgets, on what is left of a file.
use cmpe156_network_programm.Prelude.{
  ℕ, zero, suc, ◌≡◌, ◌≤◌, refl, ap, Bool, true, false, [], ◌∷◌, ◌++◌, arith, length, length-append,
  ◌==◌, if◌then◌else◌, Bool-cases, inl, inr,
}
use cmpe156_network_programm.Libc.Str.{Bytes}

-- fgets: up to `room` bytes, no further than a line's end; what is left; whether it met the end of
-- the file.
unfoldable pub fgets : ℕ → Bytes → Bytes × Bytes × Bool
fgets zero s = ([], s, false)
fgets (suc room) [] = ([], [], true)
fgets (suc room) (c ∷ s) =
    let (line, rest, at_end) = fgets room s in
    if c == 10 then (c ∷ [], s, false) else (c ∷ line, rest, at_end)

-- What is read and what is left are the file.
pub fgets-append : (room : ℕ) (s : Bytes) → (fgets room s).0 ++ (fgets room s).1 ≡ s
unfolding fgets
fgets-append zero s = refl
fgets-append (suc room) [] = refl
fgets-append (suc room) (c ∷ s) = elim (Bool-cases (c == 10)) [
  | inl ends ↦ rw ends refl
  | inr more ↦ rw more (ap (λ t. c ∷ t) (fgets-append room s))
]

-- From a file that is not at its end something is read.
pub fgets-there :
    (room c : ℕ) (s : Bytes) → (d : ℕ) × (t : Bytes) × ((fgets (suc room) (c ∷ s)).0 ≡ d ∷ t)
unfolding fgets
fgets-there room c s = elim (Bool-cases (c == 10)) [
  | inl ends ↦ rw ends (c, [], refl)
  | inr more ↦ rw more (c, (fgets room s).0, refl)
]

pub fgets-length : (room c : ℕ) (s : Bytes) → length (fgets (suc room) (c ∷ s)).1 ≤ length s
fgets-length room c s =
    let got = (fgets (suc room) (c ∷ s)).0 in
    let rest = (fgets (suc room) (c ∷ s)).1 in
    let (d, t, e) = fgets-there room c s in
    let all : length (got ++ rest) ≡ suc (length s) = ap length (fgets-append (suc room) (c ∷ s)) in
    let some_read : length got ≡ suc (length t) = ap length e in
    omega (arith, all, some_read, length-append got rest)

-- No more than the room is read.
pub fgets_room : (room : ℕ) (s : Bytes) → length (fgets room s).0 ≤ room
unfolding fgets
fgets_room zero s = omega arith
fgets_room (suc room) [] = omega arith
fgets_room (suc room) (c ∷ s) = elim (Bool-cases (c == 10)) [
  | inl ends ↦ rw ends (omega arith)
  | inr more ↦ rw more (omega (arith, fgets_room room s))
]
