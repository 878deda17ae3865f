-- ===== src/DynArray/Cells.antt =====
-- Reads, writes and the shifting loop of the arrays, at a position of a list in parts.
use cmpe156_network_programm.Prelude.{
  ℕ, zero, suc, ◌+◌, ◌≤◌, ◌≡◌, refl, List, [], ◌∷◌, ◌++◌, append_assoc, arith, ok, fault,
  out_of_bounds, load, store, length, length-append,
}
use cmpe156_network_programm.DynArray.{Cell, shift}

module _ {ℓ} {A : Type ℓ} where
  pub load-append :
      (xs : List A) (x : A) (ys : List A) (i : ℕ) → i ≡ length xs → load (xs ++ x ∷ ys) i ≡ ok x
  load-append [] x ys zero h = refl
  load-append [] x ys (suc i) h = absurd (omega arith)
  load-append (y ∷ xs) x ys zero h = absurd (omega arith)
  load-append (y ∷ xs) x ys (suc i) h = load-append xs x ys i (omega arith)

  pub store-append :
      (xs : List A) (x : A) (ys : List A) (i : ℕ) (v : A)
      → i ≡ length xs
      → store (xs ++ x ∷ ys) i v ≡ ok (xs ++ v ∷ ys)
  store-append [] x ys zero v h = refl
  store-append [] x ys (suc i) v h = absurd (omega arith)
  store-append (y ∷ xs) x ys zero v h = absurd (omega arith)
  store-append (y ∷ xs) x ys (suc i) v h = ground (arith, store-append xs x ys i v)

  pub store_past :
      (xs : List A) (i : ℕ) (v : A) → length xs ≤ i → store xs i v ≡ fault out_of_bounds
  store_past [] i v h = refl
  store_past (x ∷ xs) zero v h = absurd (omega arith)
  store_past (x ∷ xs) (suc i) v h = ground (arith, store_past xs i v)

  pub load_next :
      (xs : List A) (x y : A) (ys : List A) (i : ℕ)
      → i ≡ length xs
      → load (xs ++ x ∷ y ∷ ys) (i + 1) ≡ ok y
  load_next [] x y ys i h = ground arith
  load_next (z ∷ xs) x y ys zero h = absurd (omega arith)
  load_next (z ∷ xs) x y ys (suc i) h = ground (arith, load_next xs x y ys i)

-- The loop moves the cells behind a position down by one, and leaves the last in place.
pub shift_lem {ℓ} :
    {A : Type ℓ} (mid : List (Cell A)) (pre : List (Cell A)) (c : Cell A) (post : List (Cell A))
    (n t : ℕ)
    → n ≡ length mid
    → t ≡ length pre
    → (d : Cell A) × (shift n t (pre ++ c ∷ (mid ++ post)) ≡ ok (pre ++ (mid ++ d ∷ post)))
unfolding shift
shift_lem [] pre c post zero t hn ht = (c, refl)
shift_lem [] pre c post (suc n) t hn ht = absurd (omega arith)
shift_lem (m ∷ mid) pre c post zero t hn ht = absurd (omega arith)
shift_lem (m ∷ mid) pre c post (suc n) t hn ht =
    let (d, e) =
      shift_lem mid (pre ++ m ∷ []) m post n (t + 1) (omega arith)
        (omega (arith, length-append pre (m ∷ []))) in
    (
      d,
      rw (load_next pre c m (mid ++ post) t ht, store-append pre c (m ∷ (mid ++ post)) t m ht)
          (rw
            (
              append_assoc pre (m ∷ []) (m ∷ (mid ++ post)),
              append_assoc pre (m ∷ []) (mid ++ d ∷ post),
            )
            at e),
    )
