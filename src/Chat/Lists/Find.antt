-- ===== src/Chat/Lists/Find.antt =====
-- findItem against the list of the waiting clients.
use cmpe156_network_programm.Prelude.{
  ℕ, suc, ◌+◌, ◌≡◌, refl, inl, inr, false, List, [], ◌∷◌, ◌++◌, append_assoc, arith, Option, none,
  some, Result, ok, length, length-append, ℤ, pos, negsuc, if◌then◌else◌, Bool-cases,
}
use cmpe156_network_programm.Libc.Str.{Bytes, str_eq, strcmp_eq}
use cmpe156_network_programm.DynArray.{get_item}
use cmpe156_network_programm.DynArray.Refine.{Holds, get_item-Holds}
use cmpe156_network_programm.Chat.Lists.{Client, ClientList, find_from, find_item}

-- The first client of a name, and the others in order.
unfoldable pub take_client : Bytes → List Client → Option (Client × List Client)
take_client n [] = none
take_client n (c ∷ cs) =
    let rest = take_client n cs in
    if str_eq c.client n
    then some (c, cs)
    else elim rest [ none ↦ none | some (d, ds) ↦ some (d, c ∷ ds) ]

-- A search either finds nobody, or splits the list at the first client of the name.
pub data Search (n : Bytes) (cs : List Client) (i : ℕ) (r : Result ℤ) : Type 0 where
  missing : take_client n cs ≡ none → r ≡ ok (negsuc 0) → Search n cs i r
  found :
      (pre : List Client) (c : Client) (post : List Client)
      → cs ≡ pre ++ c ∷ post
      → take_client n cs ≡ some (c, pre ++ post)
      → r ≡ ok (pos (i + length pre))
      → Search n cs i r

Search-cons :
    (n : Bytes) (c : Client) (cs : List Client) (i : ℕ) (r : Result ℤ)
    → str_eq c.client n ≡ false
    → Search n cs (i + 1) r
    → Search n (c ∷ cs) i r
unfolding take_client
Search-cons n c cs i r miss (missing e q) = missing (ground arith) q
Search-cons n c cs i r miss (found pre d post e t q) =
    found (c ∷ pre) d post (ground arith) (ground arith) (ground arith)

-- One round, at a client that is there.
find_round :
    (a : ClientList) (n : Bytes) (c : Client) (k i : ℕ)
    → get_item a (pos i) ≡ ok (some c)
    → find_from (suc k) i a (some n)
      ≡ (if str_eq c.client n then ok (pos i) else find_from k (i + 1) a (some n))
unfolding find_from strcmp_eq
find_round a n c k i h = ground (arith, h)

find_from-Search :
    (a : ClientList) (n : Bytes) (pre suf : List Client) (i : ℕ)
    → Holds a (pre ++ suf)
    → i ≡ length pre
    → Search n suf i (find_from (length suf) i a (some n))
find_from-Search a n pre [] i h e = missing (unfold take_client in refl) (unfold find_from in refl)
find_from-Search a n pre (c ∷ cs) i h e =
    let round = find_round a n c (length cs) i (get_item-Holds a pre c cs i h e) in
    let later =
      find_from-Search a n (pre ++ c ∷ []) cs (i + 1) (rw (append_assoc pre (c ∷ []) cs) h)
        (omega (arith, length-append pre (c ∷ []))) in
    elim (Bool-cases (str_eq c.client n)) [
      | inl hit ↦ found [] c cs refl (unfold take_client in ground arith) (ground (arith, round))
      | inr miss ↦ rw (round, miss) (Search-cons n c cs i _ miss later)
    ]

-- On an array that holds the clients, findItem gives the index of the first client of the name,
-- or -1 when there is none.
pub find_item-Search :
    (a : ClientList) (n : Bytes) (cs : List Client)
    → Holds a cs
    → Search n cs 0 (find_item a (some n))
unfolding find_item
find_item-Search a n cs h = simp h.counted (find_from-Search a n [] cs 0 h refl)
