-- ===== src/Proxy/Filter.antt =====
-- The filter against the words of the file of the sites.
use cmpe156_network_programm.Prelude.{
  ℕ, zero, suc, ◌+◌, ◌≡◌, ◌<◌, refl, sym, ap, Bool, false, ◌||◌, List, [], ◌∷◌, ◌++◌, append_assoc,
  append-nil, arith, some, ok, length, length-append, map, pos,
}
use cmpe156_network_programm.Libc.Str.{Bytes, All, str_eq, strcpy_fits, strcmp_eq}
use cmpe156_network_programm.DynArray.{Cell, unset, null, ref}
use cmpe156_network_programm.DynArray.Cells.{store-append, load-append}
use cmpe156_network_programm.DynArray.Refine.{refs-append, length-refs}
use cmpe156_network_programm.Proxy.{
  ForbiddenSites, init_sites_array, realloc, add_site_item, get_site_item, add_sites,
  forbidden_from, is_forbidden,
}

-- The first cells point to the names, and the count is theirs.
pub record Lists (a : ForbiddenSites) (xs : List Bytes) : Type 0 where
  pub spare : List (Cell Bytes)
  pub cells : a.sites_array ≡ map ref xs ++ spare
  pub counted : a.occupied ≡ length xs

realloc_room :
    (k : ℕ) (xs : List Bytes) (spare : List (Cell Bytes))
    → k ≡ length xs + 1
    → (c : Cell Bytes) × (realloc k (map ref xs ++ spare) ≡ map ref xs ++ c ∷ [])
unfolding realloc
realloc_room zero xs spare e = absurd (omega arith)
realloc_room (suc zero) [] [] e = (unset, refl)
realloc_room (suc zero) [] (c ∷ spare) e = (c, refl)
realloc_room (suc (suc k)) [] spare e = absurd (omega arith)
realloc_room (suc k) (x ∷ xs) spare e =
    let (c, d) = realloc_room k xs spare (omega arith) in (c, ap (λ l. ref x ∷ l) d)

-- The names fit their 128 bytes.
abbrev pub FitsSite : Bytes → Type 0
FitsSite n = length n < 128

add_site_item-Lists :
    (a : ForbiddenSites) (xs : List Bytes) (n : Bytes)
    → Lists a xs
    → FitsSite n
    → (b : ForbiddenSites) × (add_site_item a n ≡ ok b) × Lists b (xs ++ n ∷ [])
unfolding add_site_item
add_site_item-Lists a xs n h f =
    let (c, e) = realloc_room (length xs + 1) xs h.spare refl in
    (
      record { sites_array = map ref xs ++ ref n ∷ []; occupied = a.occupied + 1 },
      rw
          (
            strcpy_fits 128 n f,
            h.counted,
            h.cells,
            e,
            store-append (map ref xs) c [] (length xs) (ref n) (sym (length-refs xs)),
          )
          refl,
      record {
        spare = [];
        cells = rw (refs-append xs (n ∷ []), append-nil (map ref xs ++ ref n ∷ [])) refl;
        counted = omega (arith, h.counted, length-append xs (n ∷ []));
      },
    )

add_sites-Lists :
    (a : ForbiddenSites) (xs ns : List Bytes)
    → Lists a xs
    → All FitsSite ns
    → (b : ForbiddenSites) × (add_sites a ns ≡ ok b) × Lists b (xs ++ ns)
unfolding add_sites
add_sites-Lists a xs [] h f = (a, refl, rw append-nil h)
add_sites-Lists a xs (n ∷ ns) h f =
    let (b, e, hb) = add_site_item-Lists a xs n h f.0 in
    let (d, e2, hd) = add_sites-Lists b (xs ++ n ∷ []) ns hb f.1 in
    (d, rw e e2, rw (append_assoc xs (n ∷ []) ns) at hd)

unfoldable pub mem_site : Bytes → List Bytes → Bool
mem_site n [] = false
mem_site n (x ∷ xs) = str_eq n x || mem_site n xs

get_site_item-Lists :
    (a : ForbiddenSites) (pre : List Bytes) (x : Bytes) (post : List Bytes) (i : ℕ)
    → Lists a (pre ++ x ∷ post)
    → i ≡ length pre
    → get_site_item a (pos i) ≡ ok (some x)
unfolding get_site_item
get_site_item-Lists a pre x post i h e = ground (
  arith,
  length-append pre (x ∷ post),
  refs-append pre (x ∷ post),
  append_assoc (map ref pre) (map ref (x ∷ post)) h.spare,
  load-append (map ref pre) (ref x) (map ref post ++ h.spare) i,
  length-refs pre,
)

forbidden_from-mem_site :
    (a : ForbiddenSites) (n : Bytes) (pre suf : List Bytes) (i : ℕ)
    → Lists a (pre ++ suf)
    → i ≡ length pre
    → forbidden_from (length suf) i a n ≡ ok (mem_site n suf)
unfolding forbidden_from mem_site strcmp_eq
forbidden_from-mem_site a n pre [] i h e = refl
forbidden_from-mem_site a n pre (x ∷ xs) i h e =
    let later =
      forbidden_from-mem_site a n (pre ++ x ∷ []) xs (i + 1) (rw (append_assoc pre (x ∷ []) xs) h)
        (omega (arith, length-append pre (x ∷ []))) in
    ground (arith, get_site_item-Lists a pre x xs i h e, later)

-- On an array that holds the sites, the filter decides whether the host is one of them.
pub is_forbidden-Lists :
    (a : ForbiddenSites) (xs : List Bytes) (host : Bytes)
    → Lists a xs
    → is_forbidden a host ≡ ok (mem_site host xs)
unfolding is_forbidden
is_forbidden-Lists a xs host h = simp h.counted (forbidden_from-mem_site a host [] xs 0 h refl)

-- When every word of the sites' file is below 128 bytes, the array takes them all without a
-- fault, and the filter then decides whether the host is one of them.
pub is_forbidden-mem_site :
    (urls : List Bytes) (host : Bytes)
    → All FitsSite urls
    → (sites : ForbiddenSites) × (add_sites init_sites_array urls ≡ ok sites)
      × (is_forbidden sites host ≡ ok (mem_site host urls))
unfolding init_sites_array
is_forbidden-mem_site urls host f =
    let (b, e, h) =
      add_sites-Lists (record { sites_array = null ∷ []; occupied = 0 }) [] urls
        (record { spare = null ∷ []; cells = refl; counted = refl }) f in
    (b, e, is_forbidden-Lists b urls host h)
