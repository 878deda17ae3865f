-- ===== src/Chat/Lists/Names.antt =====
-- hasNameItem and removeNameItem against the list of names.
use cmpe156_network_programm.Prelude.{
  ℕ, suc, ◌+◌, ◌≡◌, refl, ◌⊎◌, inl, inr, Bool, true, false, ◌||◌, List, [], ◌∷◌, ◌++◌, append_assoc,
  arith, none, some, Result, ok, fault, null_pointer, ◌>>=◌, length, length-append, map, ℤ, pos,
  negsuc, if◌then◌else◌, Bool-cases,
}
use cmpe156_network_programm.Libc.Str.{Bytes, str_eq, strcmp_eq}
use cmpe156_network_programm.DynArray.{ref}
use cmpe156_network_programm.DynArray.Cells.{load-append}
use cmpe156_network_programm.DynArray.Refine.{Holds, refs-append, length-refs, remove_item-Holds}
use cmpe156_network_programm.DynArray.{remove_item}
use cmpe156_network_programm.Chat.Lists.{
  NameList, name_at, has_from, has_name_item, last_match, remove_found, remove_name_item,
}

unfoldable pub mem_name : Bytes → List Bytes → Bool
mem_name n [] = false
mem_name n (x ∷ xs) = str_eq n x || mem_name n xs

-- The list without the last entry of a name.
unfoldable pub remove_last : Bytes → List Bytes → List Bytes
unfolding mem_name
remove_last n [] = []
remove_last n (x ∷ xs) =
    let rest = remove_last n xs in
    if mem_name n xs then x ∷ rest else if str_eq n x then xs else x ∷ xs

name_at-Holds :
    (a : NameList) (pre : List Bytes) (x : Bytes) (post : List Bytes) (i : ℕ)
    → Holds a (pre ++ x ∷ post)
    → i ≡ length pre
    → name_at a i ≡ ok (some x)
name_at-Holds a pre x post i h e = ground (
  arith,
  h.cells,
  refs-append pre (x ∷ post),
  append_assoc (map ref pre) (map ref (x ∷ post)) h.spare,
  load-append (map ref pre) (ref x) (map ref post ++ h.spare) i,
  length-refs pre,
)

has_from-mem_name :
    (a : NameList) (n : Bytes) (pre suf : List Bytes) (i : ℕ)
    → Holds a (pre ++ suf)
    → i ≡ length pre
    → has_from (length suf) i a (some n) ≡ ok (mem_name n suf)
unfolding has_from mem_name strcmp_eq
has_from-mem_name a n pre [] i h e = refl
has_from-mem_name a n pre (x ∷ xs) i h e =
    let later =
      has_from-mem_name a n (pre ++ x ∷ []) xs (i + 1) (rw (append_assoc pre (x ∷ []) xs) h)
        (omega (arith, length-append pre (x ∷ []))) in
    ground (arith, name_at-Holds a pre x xs i h e, later)

-- On an array that holds the names, hasNameItem decides whether the name is among them.
pub has_name_item-mem_name :
    (a : NameList) (n : Bytes) (ns : List Bytes)
    → Holds a ns
    → has_name_item a (some n) ≡ ok (mem_name n ns)
unfolding has_name_item
has_name_item-mem_name a n ns h = simp h.counted (has_from-mem_name a n [] ns 0 h refl)

-- A search for the name at NULL follows the pointer, unless there is nothing to compare it with.
pub has_name_item_null :
    (a : NameList) (ns : List Bytes)
    → Holds a ns
    → (has_name_item a none ≡ ok false) ⊎ (has_name_item a none ≡ fault null_pointer)
unfolding has_name_item has_from strcmp_eq
has_name_item_null a [] h = inl (simp h.counted refl)
has_name_item_null a (x ∷ xs) h =
    inr (simp h.counted (ground (arith, name_at-Holds a [] x xs 0 h refl)))

-- The search of removeNameItem keeps its index, or ends at the last entry of the name.
data LastSearch (n : Bytes) (ns : List Bytes) (i : ℕ) (idx : ℤ) (r : Result ℤ) : Type 0 where
  missing : mem_name n ns ≡ false → remove_last n ns ≡ ns → r ≡ ok idx → LastSearch n ns i idx r
  found :
      (pre : List Bytes) (x : Bytes) (post : List Bytes)
      → mem_name n ns ≡ true
      → ns ≡ pre ++ x ∷ post
      → remove_last n ns ≡ pre ++ post
      → r ≡ ok (pos (i + length pre))
      → LastSearch n ns i idx r

LastSearch-cons :
    (n x : Bytes) (xs : List Bytes) (i : ℕ) (idx : ℤ) (r : Result ℤ)
    → LastSearch n xs (i + 1) (if str_eq n x then pos i else idx) r
    → LastSearch n (x ∷ xs) i idx r
unfolding remove_last mem_name
LastSearch-cons n x xs i idx r (missing m e q) = elim (Bool-cases (str_eq n x)) [
  | inl hit ↦ found [] x xs (ground arith) refl (ground arith) (ground arith)
  | inr miss ↦ missing (ground arith) (ground arith) (ground arith)
]
LastSearch-cons n x xs i idx r (found pre y post m e t q) =
    found (x ∷ pre) y post (ground arith) (ground arith) (ground arith) (ground arith)

last_round :
    (a : NameList) (n x : Bytes) (k i : ℕ) (idx : ℤ)
    → name_at a i ≡ ok (some x)
    → last_match (suc k) i idx a (some n)
      ≡ last_match k (i + 1) (if str_eq n x then pos i else idx) a (some n)
unfolding last_match strcmp_eq
last_round a n x k i idx h = ground (arith, h)

last_match-LastSearch :
    (a : NameList) (n : Bytes) (pre suf : List Bytes) (i : ℕ) (idx : ℤ)
    → Holds a (pre ++ suf)
    → i ≡ length pre
    → LastSearch n suf i idx (last_match (length suf) i idx a (some n))
last_match-LastSearch a n pre [] i idx h e =
    missing (unfold mem_name in refl) (unfold remove_last in refl) (unfold last_match in refl)
last_match-LastSearch a n pre (x ∷ xs) i idx h e =
    let later =
      last_match-LastSearch a n (pre ++ x ∷ []) xs (i + 1) (if str_eq n x then pos i else idx)
        (rw (append_assoc pre (x ∷ []) xs) h) (omega (arith, length-append pre (x ∷ []))) in
    rw (last_round a n x (length xs) i idx (name_at-Holds a pre x xs i h e))
      (LastSearch-cons n x xs i idx _ later)

remove_found-remove_item :
    (a : NameList) (pre : List Bytes) (x : Bytes) (post : List Bytes)
    → Holds a (pre ++ x ∷ post)
    → remove_found a (pos (length pre)) ≡ remove_item a (pos (length pre))
unfolding remove_found remove_item
remove_found-remove_item a pre x post h = ground (arith, h.counted, length-append pre (x ∷ post))

-- On an array that holds the names, removeNameItem takes out the last entry of the name, if
-- there is one, without a fault.
pub remove_name_item-Holds :
    (a : NameList) (n : Bytes) (ns : List Bytes)
    → Holds a ns
    → (b : NameList) × (remove_name_item a (some n) ≡ ok b) × Holds b (remove_last n ns)
unfolding remove_name_item
remove_name_item-Holds a n ns h =
    go (last_match a.occupied 0 (negsuc 0) a (some n))
      (simp h.counted (last_match-LastSearch a n [] ns 0 (negsuc 0) h refl))
  where
    go :
        (r : Result ℤ)
        → LastSearch n ns 0 (negsuc 0) r
        → (b : NameList) × ((r >>= remove_found a) ≡ ok b) × Holds b (remove_last n ns)
    go r (missing m e q) = (a, rw q refl, rw e h)
    go r (found pre x post m e t q) =
        let (b, d, hb) = remove_item-Holds a pre x post (length pre) (rw e at h) refl in
        (b, ground (arith, q, remove_found-remove_item a pre x post (rw e at h), d), rw t hb)
