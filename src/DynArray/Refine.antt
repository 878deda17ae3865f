-- ===== src/DynArray/Refine.antt =====
-- The list of the values that an array holds, and the operations on it.
use cmpe156_network_programm.Prelude.{
  ℕ, suc, ◌+◌, ◌-◌, ◌≡◌, ◌≤◌, refl, sym, ap, List, [], ◌∷◌, ◌++◌, append_assoc, append-nil, arith,
  none, some, ok, length, length-append, replicate, map, pos,
}
use cmpe156_network_programm.DynArray.{
  Cell, unset, null, ref, DynArray, add_size, init_array, grow, add_item, get_item, remove_item,
  pop_item,
}
use cmpe156_network_programm.DynArray.Cells.{load-append, store-append, shift_lem}

-- The first `occupied` cells point to the values of the list, and `size` is what was allocated.
pub record Holds {ℓ} {A : Type ℓ} (a : DynArray A) (xs : List A) : Type ℓ where
  pub spare : List (Cell A)
  pub cells : a.array ≡ map ref xs ++ spare
  pub counted : a.occupied ≡ length xs
  pub allocated : a.size ≡ length xs + length spare

module _ {ℓ} {A : Type ℓ} where
  pub length-refs : (xs : List A) → length (map ref xs) ≡ length xs
  length-refs [] = refl
  length-refs (x ∷ xs) = ap suc (length-refs xs)

  pub refs-append : (xs ys : List A) → map ref (xs ++ ys) ≡ map ref xs ++ map ref ys
  refs-append [] ys = refl
  refs-append (x ∷ xs) ys = ap (λ l. ref x ∷ l) (refs-append xs ys)

  -- A new array holds nothing.
  pub init_array-Holds : Holds (init_array {A = A}) []
  unfolding init_array
  init_array-Holds = record {
    spare = replicate add_size null;
    cells = refl;
    counted = refl;
    allocated = refl;
  }

  -- After `grow` there is a cell behind the values.
  grow-room :
      (a : DynArray A) (xs : List A) (spare : List (Cell A))
      → a.array ≡ map ref xs ++ spare
      → a.occupied ≡ length xs
      → a.size ≡ length xs + length spare
      → (c : Cell A) × (rest : List (Cell A)) × ((grow a).array ≡ map ref xs ++ c ∷ rest)
        × ((grow a).occupied ≡ length xs)
        × ((grow a).size ≡ length xs + suc (length rest))
  unfolding grow
  grow-room a xs [] hc ho hs = (
    unset,
    replicate 4 unset,
    ground (arith, append-nil (map ref xs)),
    ground arith,
    ground arith,
  )
  grow-room a xs (c ∷ rest) hc ho hs = (c, rest, ground arith, ground arith, ground arith)

  -- Adding to an array that holds a list, full or not, never leaves the block and gives an array
  -- that holds the list with the value behind it.
  pub add_item-Holds :
      (a : DynArray A) (xs : List A) (x : A)
      → Holds a xs
      → (b : DynArray A) × (add_item a x ≡ ok b) × Holds b (xs ++ x ∷ [])
  unfolding add_item
  add_item-Holds a xs x h =
      let (c, rest, hc, ho, hs) = grow-room a xs h.spare h.cells h.counted h.allocated in
      (
        record (grow a) { array = map ref xs ++ ref x ∷ rest; occupied = (grow a).occupied + 1 },
        ground (
          arith,
          hc,
          ho,
          store-append (map ref xs) c rest (length xs) (ref x) (sym (length-refs xs)),
        ),
        record {
          spare = rest;
          cells = rw (refs-append xs (x ∷ []), append_assoc (map ref xs) (ref x ∷ []) rest);
          counted = omega (arith, length-append xs (x ∷ []), ho);
          allocated = omega (arith, length-append xs (x ∷ []), hs);
        },
      )

  -- An index below the count reads its value.
  pub get_item-Holds :
      (a : DynArray A) (xs : List A) (x : A) (ys : List A) (i : ℕ)
      → Holds a (xs ++ x ∷ ys)
      → i ≡ length xs
      → get_item a (pos i) ≡ ok (some x)
  unfolding get_item
  get_item-Holds a xs x ys i h hi = ground (
    arith,
    length-append xs (x ∷ ys),
    refs-append xs (x ∷ ys),
    append_assoc (map ref xs) (map ref (x ∷ ys)) h.spare,
    load-append (map ref xs) (ref x) (map ref ys ++ h.spare) i,
    length-refs xs,
  )

  -- An index from the count on reads NULL.
  pub get_item_past :
      (a : DynArray A) (xs : List A) (i : ℕ)
      → Holds a xs
      → length xs ≤ i
      → get_item a (pos i) ≡ ok none
  unfolding get_item
  get_item_past a xs i h hi = ground arith

  -- Removing at an index below the count never leaves the block and gives an array that holds
  -- the list without that value.
  pub remove_item-Holds :
      (a : DynArray A) (xs : List A) (x : A) (ys : List A) (i : ℕ)
      → Holds a (xs ++ x ∷ ys)
      → i ≡ length xs
      → (b : DynArray A) × (remove_item a (pos i) ≡ ok b) × Holds b (xs ++ ys)
  unfolding remove_item
  remove_item-Holds a xs x ys i h hi =
      let (d, e) =
        shift_lem (map ref ys) (map ref xs) (ref x) h.spare (a.occupied - 1 - i) i
          (omega (arith, length-append xs (x ∷ ys), length-refs ys, h.counted))
          (omega (arith, length-refs xs)) in
      (
        record a { array = map ref xs ++ (map ref ys ++ d ∷ h.spare); occupied = a.occupied - 1 },
        ground (
          arith,
          e,
          length-append xs (x ∷ ys),
          refs-append xs (x ∷ ys),
          append_assoc (map ref xs) (map ref (x ∷ ys)) h.spare,
        ),
        record {
          spare = d ∷ h.spare;
          cells = rw (refs-append xs ys, append_assoc (map ref xs) (map ref ys) (d ∷ h.spare));
          counted = omega (arith, length-append xs (x ∷ ys), length-append xs ys, h.counted);
          allocated = omega (arith, length-append xs (x ∷ ys), length-append xs ys, h.allocated);
        },
      )

  -- An index past the end changes nothing.
  pub remove_item_past :
      (a : DynArray A) (xs : List A) (i : ℕ)
      → Holds a xs
      → length xs ≤ i
      → remove_item a (pos i) ≡ ok a
  unfolding remove_item
  remove_item_past a xs i h hi = ground arith

  -- Popping at an index below the count gives the value there and an array that holds the list
  -- without it.
  pub pop_item-Holds :
      (a : DynArray A) (xs : List A) (x : A) (ys : List A) (i : ℕ)
      → Holds a (xs ++ x ∷ ys)
      → i ≡ length xs
      → (b : DynArray A) × (pop_item a (pos i) ≡ ok (some x, b)) × Holds b (xs ++ ys)
  unfolding pop_item
  pop_item-Holds a xs x ys i h hi =
      let (b, e, hb) = remove_item-Holds a xs x ys i h hi in
      (
        b,
        ground (arith, e, get_item-Holds a xs x ys i h hi, length-append xs (x ∷ ys), h.counted),
        hb,
      )
