-- ===== src/Prelude/Faults.antt =====
-- Results of C code that may do what the language leaves undefined, and C's signed integers.
use Prim.Native.Nat.{ℕ, zero, suc, ◌<◌}
use mathlib.Core.Path.{◌≡◌, refl}
use mathlib.Core.List.{List, [], ◌∷◌}
use mathlib.Core.Option.{Option, none, some}
use native.Mathlib.Omega.{arith}
use cmpe156_network_programm.Prelude.Lists.{get_elem?, set, length}

-- What goes wrong: a read through NULL, an access outside an object, a read of memory that was
-- never written, a value outside its type; and a loop that outlasts the fuel of its model.
pub data Fault : Type 0 where
  null_pointer out_of_bounds indeterminate int_range out_of_fuel : Fault

pub data Result {ℓ} (A : Type ℓ) : Type ℓ where
  ok : A → Result A
  fault : Fault → Result A

-- What follows a fault does not run.
infixl 5 ◌>>=◌
abbrev pub ◌>>=◌ {ℓ κ} : {A : Type ℓ} {B : Type κ} (r : Result A) (next : A → Result B) → Result B
fault e >>= next = fault e
ok a >>= next = next a

-- The first part of a chain that succeeds has a value, on which the rest succeeds.
pub bind-eq-ok {ℓ κ} :
    {A : Type ℓ} {B : Type κ} (first : Result A) (next : A → Result B) {last : B}
    → (first >>= next) ≡ ok last
    → (value : A) × (first ≡ ok value) × (next value ≡ ok last)
bind-eq-ok (fault e) next run = cc
bind-eq-ok (ok value) next run = (value, refl, run)

-- Following a pointer.
abbrev pub deref {ℓ} : {A : Type ℓ} → Option A → Result A
deref none = fault null_pointer
deref (some a) = ok a

-- Reading and writing an element of an allocated block.
abbrev pub in_block {ℓ} : {A : Type ℓ} → Option A → Result A
in_block none = fault out_of_bounds
in_block (some a) = ok a

abbrev pub load {ℓ} : {A : Type ℓ} → List A → ℕ → Result A
load xs i = in_block (get_elem? xs i)

abbrev pub store {ℓ} : {A : Type ℓ} → List A → ℕ → A → Result (List A)
store [] i v = fault out_of_bounds
store (x ∷ xs) zero v = ok (v ∷ xs)
store (x ∷ xs) (suc i) v = store xs i v >>= λ r. ok (x ∷ r)

pub store-eq-set {ℓ} :
    {A : Type ℓ} (xs : List A) (i : ℕ) (v : A) → i < length xs → store xs i v ≡ ok (set xs i v)
store-eq-set [] i v h = elim h [ ]
store-eq-set (x ∷ xs) zero v h = refl
store-eq-set (x ∷ xs) (suc i) v h = ground (arith, store-eq-set xs i v)

-- C's `int` and `long`: `negsuc n` is -(n + 1).
pub data ℤ : Type 0 where
  pos : ℕ → ℤ
  negsuc : ℕ → ℤ
