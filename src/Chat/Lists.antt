-- ===== src/Chat/Lists.antt =====
-- The two lists of pro/src/dynamicarray.c: waiting clients, and the names in use.
pub mod Find
pub mod Print
pub mod Names
use cmpe156_network_programm.Prelude.{
  ℕ, zero, suc, ◌+◌, ◌-◌, ◌*◌, ◌≡◌, ◌≢◌, ◌≤◌, ◌<◌, refl, sym, ap, ◌∙◌, subst, ◌⊎◌, inl, inr, Bool,
  true, false, ◌&&◌, ◌||◌, not, List, [], ◌∷◌, ◌++◌, append_assoc, append-nil, arith, Option, none,
  some, Result, ok, fault, Fault, null_pointer, out_of_bounds, ◌>>=◌, deref, load, store, length,
  length-append, length-replicate, replicate, map, ℤ, pos, negsuc, ◌==◌, leb, ltb, if◌then◌else◌,
  Bool-cases, Option-cases, lt→leb, le→leb, ==_iff,
}
use cmpe156_network_programm.Libc.Str.{Bytes, codes, strcmp_eq, strcpy}
use cmpe156_network_programm.DynArray.{
  DynArray, pointer, init_array, add_item, get_item, shift, add_size,
}

-- client_t; ip is never NULL in the entries that the server makes.
pub record Client : Type 0 where
  pub client : Bytes
  pub ip : Bytes
  pub port : ℤ

abbrev pub ClientList : Type 0
ClientList = DynArray Client

abbrev pub NameList : Type 0
NameList = DynArray Bytes

-- The loop of findItem, by the rounds left. `name` may be NULL.
unfoldable pub find_from : ℕ → ℕ → ClientList → Option Bytes → Result ℤ
find_from zero i a name = ok (negsuc 0)
find_from (suc n) i a name =
    let rest = find_from n (i + 1) a name in
    get_item a (pos i) >>= λ item.
    deref item >>= λ c. strcmp_eq (some c.client) name >>= λ hit. if hit then ok (pos i) else rest

unfoldable pub find_item : ClientList → Option Bytes → Result ℤ
find_item a name = find_from a.occupied 0 a name

-- strcat into an array of `size` bytes
unfoldable pub strcat : ℕ → Bytes → Bytes → Result Bytes
strcat size s t = if ltb (length s + length t) size then ok (s ++ t) else fault out_of_bounds

-- The loop of printList: the text so far, `t_len` and `temp_size`.
unfoldable pub print_from : ℕ → ℕ → ClientList → Bytes → ℕ → ℕ → Result (Bytes × ℕ × ℕ)
print_from zero i a temp t_len temp_size = ok (temp, t_len, temp_size)
print_from (suc n) i a temp t_len temp_size = get_item a (pos i) >>= λ item. deref item >>= λ c.
    let len = t_len + length c.client + 1 in
    let size = if ltb temp_size len then temp_size * 2 else temp_size in
    strcat size temp c.client >>= λ named.
    strcat size named (b':' ∷ []) >>= λ ended. print_from n (i + 1) a ended len size

-- The text, and what goes through `bufsize`.
unfoldable pub print_list : ClientList → Result (Bytes × ℕ)
print_list a = print_from a.occupied 0 a (b'l' ∷ b':' ∷ []) 2 1024 >>= λ (temp, t_len, temp_size).
    strcat temp_size temp (b':' ∷ []) >>= λ text. ok (text, t_len + 1)

unfoldable pub init_name_array : NameList
unfolding init_array
init_name_array = init_array

unfoldable pub add_name_item : NameList → Bytes → Result NameList
add_name_item a n = add_item a n

-- `*(a->array + i)`
abbrev pub name_at : NameList → ℕ → Result (Option Bytes)
name_at a i = load a.array i >>= λ c. pointer c

unfoldable pub has_from : ℕ → ℕ → NameList → Option Bytes → Result Bool
has_from zero i a n = ok false
has_from (suc k) i a n =
    let rest = has_from k (i + 1) a n in
    name_at a i >>= λ item. strcmp_eq n item >>= λ hit. if hit then ok true else rest

unfoldable pub has_name_item : NameList → Option Bytes → Result Bool
has_name_item a n = has_from a.occupied 0 a n

-- The search of removeNameItem goes on after a hit, so the last one counts.
unfoldable pub last_match : ℕ → ℕ → ℤ → NameList → Option Bytes → Result ℤ
last_match zero i idx a n = ok idx
last_match (suc k) i idx a n = name_at a i >>= λ item.
    strcmp_eq n item >>= λ hit. last_match k (i + 1) (if hit then pos i else idx) a n

-- What removeNameItem does at the index found; -1 is the only negative one.
unfoldable pub remove_found : NameList → ℤ → Result NameList
remove_found a (negsuc idx) = ok a
remove_found a (pos idx) = shift (a.occupied - 1 - idx) idx a.array >>= λ cells.
    ok (record a { array = cells; occupied = a.occupied - 1 })

unfoldable pub remove_name_item : NameList → Option Bytes → Result NameList
unfolding remove_found
remove_name_item a n = last_match a.occupied 0 (negsuc 0) a n >>= remove_found a
