-- ===== src/DynArray.antt =====
-- The growing arrays of pointers: `client_list_t` of pro/src/dynamicarray.c, and with the same code
-- `client_name_list_t` there and `server_list_t` of HW4/mydatastructure.c.
pub mod Cells
pub mod Refine
use cmpe156_network_programm.Prelude.{
  ℕ, zero, suc, ◌+◌, ◌-◌, ◌≡◌, Bool, ◌||◌, List, [], ◌∷◌, ◌++◌, Option, none, some, ◌==◌, leb, ltb,
  if◌then◌else◌, Result, ok, fault, out_of_bounds, indeterminate, ◌>>=◌, load, store, replicate, ℤ,
  pos, negsuc,
}

-- A cell of the array: never written since realloc gave it, NULL, or a pointer to a value.
pub data Cell {ℓ} (A : Type ℓ) : Type ℓ where
  unset null : Cell A
  ref : A → Cell A

-- `size` and `occupied` are the fields; the length of `array` is what was allocated.
pub record DynArray {ℓ} (A : Type ℓ) : Type ℓ where
  pub array : List (Cell A)
  pub occupied : ℕ
  pub size : ℕ

abbrev pub add_size : ℕ
add_size = 5

-- The pointer that a cell holds.
abbrev pub pointer {ℓ} : {A : Type ℓ} → Cell A → Result (Option A)
pointer unset = fault indeterminate
pointer null = ok none
pointer (ref x) = ok (some x)

module _ {ℓ} {A : Type ℓ} where
  unfoldable pub init_array : DynArray A
  init_array = record { array = replicate add_size null; occupied = 0; size = add_size }

  -- realloc, when the array is full
  unfoldable pub grow : DynArray A → DynArray A
  grow a =
      if a.size == a.occupied
      then record a { array = a.array ++ replicate add_size unset; size = add_size + a.size }
      else a

  unfoldable pub add_item : DynArray A → A → Result (DynArray A)
  add_item a item = do
    let b = grow a
    cells ← store b.array b.occupied (ref item)
    ok (record b { array = cells; occupied = b.occupied + 1 })

  -- A negative index passes the test of the bound.
  unfoldable pub get_item : DynArray A → ℤ → Result (Option A)
  get_item a (pos idx) = if leb a.occupied idx then ok none else load a.array idx >>= λ c. pointer c
  get_item a (negsuc idx) = fault out_of_bounds

  -- `for (t = idx; t < occupied - 1; t++) array[t] = array[t + 1]`, by the rounds left
  unfoldable pub shift : ℕ → ℕ → List (Cell A) → Result (List (Cell A))
  shift zero t cells = ok cells
  shift (suc n) t cells =
      load cells (t + 1) >>= λ c. store cells t c >>= λ cells'. shift n (t + 1) cells'

  unfoldable pub remove_item : DynArray A → ℤ → Result (DynArray A)
  remove_item a (pos idx) =
      if leb a.occupied idx
      then ok a
      else shift (a.occupied - 1 - idx) idx a.array >>= λ cells.
          ok (record a { array = cells; occupied = a.occupied - 1 })
  remove_item a (negsuc idx) = ok a

  unfoldable pub pop_item : DynArray A → ℤ → Result (Option A × DynArray A)
  pop_item a (pos idx) =
      if leb a.occupied idx
      then ok (none, a)
      else get_item a (pos idx) >>= λ n. remove_item a (pos idx) >>= λ b. ok (n, b)
  pop_item a (negsuc idx) = ok (none, a)
