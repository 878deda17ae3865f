-- ===== src/Transfer/Handshake.antt =====
-- Which servers take part: verify_address_available and query_file_exist of HW4/client.c.
use cmpe156_network_programm.Prelude.{
  ℕ, ◌+◌, ◌≡◌, refl, inl, inr, Bool, true, false, ◌&&◌, List, [], ◌∷◌, ◌++◌, append_assoc, arith,
  Option, none, some, Result, ok, fault, out_of_fuel, ◌>>=◌, length, length-append, map, pos, ltb,
  lt→ltb, le→ltb, if◌then◌else◌, Bool-cases,
}
use cmpe156_network_programm.Libc.Str.{Bytes, codes, str_eq, str_eq_refl}
use cmpe156_network_programm.DynArray.Refine.{Holds, get_item-Holds, remove_item-Holds}
use cmpe156_network_programm.Transfer.Pool.{
  Address, ServerList, Response, get_server_item, remove_server_item,
}

-- The loops run on what each recvfrom gives, nothing at a timeout. A round with no reply left to take is
-- still waiting.
unfoldable pub verify_from : List (Option Response) → ℕ → ServerList → Result ServerList
verify_from [] t a = if ltb t a.occupied then fault out_of_fuel else ok a
verify_from (none ∷ replies) t a =
    if ltb t a.occupied
    then (get_server_item a (pos t) >>= λ addr.
        remove_server_item a (pos t) >>= λ b. verify_from replies t b)
    else ok a
verify_from (some r ∷ replies) t a =
    let next = verify_from replies (t + 1) a in
    let again = verify_from replies t a in
    if ltb t a.occupied
    then (get_server_item a (pos t) >>= λ addr. if str_eq r.cmd (codes "HSK") then next else again)
    else ok a

unfoldable pub verify_address_available : List (Option Response) → ServerList → Result ServerList
verify_address_available replies a = verify_from replies 0 a

-- `t` stays 0: the loop ends at the first server that answers the question.
unfoldable pub query_from : List (Option Response) → Bytes → ServerList → Result (ServerList × ℕ)
query_from [] target_file a = if ltb 0 a.occupied then fault out_of_fuel else ok (a, 1)
query_from (none ∷ replies) target_file a =
    if ltb 0 a.occupied
    then (get_server_item a (pos 0) >>= λ addr.
        remove_server_item a (pos 0) >>= λ b. query_from replies target_file b)
    else ok (a, 1)
query_from (some r ∷ replies) target_file a =
    let again = query_from replies target_file a in
    if ltb 0 a.occupied
    then (get_server_item a (pos 0) >>= λ addr.
        if str_eq r.cmd (codes "CHK") && str_eq target_file r.file_content
        then ok (a, 0)
        else again)
    else ok (a, 1)

unfoldable pub query_file_exist :
    List (Option Response) → Bytes → ServerList → Result (ServerList × ℕ)
query_file_exist replies target_file a = query_from replies target_file a

-- The servers that answer, in their order.
unfoldable pub answering : (Address → Bool) → List Address → List Address
answering alive [] = []
answering alive (s ∷ ss) = let rest = answering alive ss in if alive s then s ∷ rest else rest

abbrev pub handshake : Response
handshake = record { cmd = codes "HSK"; content_is_end = pos 0; file_content = [] }

-- Each server answers its handshake, or never.
abbrev pub replies_of : (Address → Bool) → Address → Option Response
replies_of alive s = if alive s then some handshake else none

verify_round :
    (rs : List (Option Response)) (a : ServerList) (s : Address) (pre ss : List Address)
    → Holds a (pre ++ s ∷ ss)
    → verify_from (some handshake ∷ rs) (length pre) a ≡ verify_from rs (length pre + 1) a
unfolding verify_from get_server_item str_eq
verify_round rs a s pre ss h =
    rw
      (
        lt→ltb (length pre) a.occupied (omega (arith, h.counted, length-append pre (s ∷ ss))),
        get_item-Holds a pre s ss (length pre) h refl,
      )
      refl

verify_drop :
    (rs : List (Option Response)) (a b : ServerList) (s : Address) (pre ss : List Address)
    → Holds a (pre ++ s ∷ ss)
    → remove_server_item a (pos (length pre)) ≡ ok b
    → verify_from (none ∷ rs) (length pre) a ≡ verify_from rs (length pre) b
unfolding verify_from get_server_item
verify_drop rs a b s pre ss h e =
    rw
      (
        lt→ltb (length pre) a.occupied (omega (arith, h.counted, length-append pre (s ∷ ss))),
        get_item-Holds a pre s ss (length pre) h refl,
        e,
      )
      refl

verify_from-Holds :
    (alive : Address → Bool) (a : ServerList) (pre ss : List Address)
    → Holds a (pre ++ ss)
    → (b : ServerList) × (verify_from (map (replies_of alive) ss) (length pre) a ≡ ok b)
      × Holds b (pre ++ answering alive ss)
unfolding answering remove_server_item
verify_from-Holds alive a pre [] h =
    let past : ltb (length pre) a.occupied ≡ false =
      le→ltb (length pre) a.occupied (omega (arith, h.counted, length-append pre [])) in
    (a, unfold verify_from in rw past refl, h)
verify_from-Holds alive a pre (s ∷ ss) h = elim (Bool-cases (alive s)) [
  | inl up ↦
      let (b, e, hb) =
        verify_from-Holds alive a (pre ++ s ∷ []) ss (rw (append_assoc pre (s ∷ []) ss) h) in
      let place : length (pre ++ s ∷ []) ≡ length pre + 1 = length-append pre (s ∷ []) in
      (
        b,
        rw (up, verify_round (map (replies_of alive) ss) a s pre ss h) (rw place at e),
        rw up (rw (append_assoc pre (s ∷ []) (answering alive ss)) at hb),
      )
  | inr down ↦
      let (c, d, hc) = remove_item-Holds a pre s ss (length pre) h refl in
      let (b, e, hb) = verify_from-Holds alive c pre ss hc in
      (b, rw (down, verify_drop (map (replies_of alive) ss) a c s pre ss h d) e, rw down hb)
]

-- When each server of the list answers its handshake or never does, verify_address_available
-- ends without a fault and keeps exactly those that answer, in their order.
pub verify_address_available-Holds :
    (alive : Address → Bool) (a : ServerList) (ss : List Address)
    → Holds a ss
    → (b : ServerList) × (verify_address_available (map (replies_of alive) ss) a ≡ ok b)
      × Holds b (answering alive ss)
unfolding verify_address_available
verify_address_available-Holds alive a ss h = verify_from-Holds alive a [] ss h

-- The list from the first server on that answers.
unfoldable pub from_first : (Address → Bool) → List Address → List Address
from_first alive [] = []
from_first alive (s ∷ ss) = let rest = from_first alive ss in if alive s then s ∷ ss else rest

-- 0 when somebody is left, and 1 otherwise.
abbrev pub found_any : List Address → ℕ
found_any [] = 1
found_any (s ∷ ss) = 0

-- Each server answers with the name of the file, or never.
abbrev pub file_reply : (Address → Bool) → Bytes → Address → Option Response
file_reply alive file s =
    if alive s
    then some (record { cmd = codes "CHK"; content_is_end = pos 0; file_content = file })
    else none

-- When each server of the list answers with the name of the file or never does, query_file_exist
-- ends without a fault, drops the servers before the first that answers, and returns 0, or 1
-- when there is none.
pub query_file_exist-Holds :
    (alive : Address → Bool) (file : Bytes) (a : ServerList) (ss : List Address)
    → Holds a ss
    → (b : ServerList) × (query_file_exist (map (file_reply alive file) ss) file a
        ≡ ok (b, found_any (from_first alive ss)))
      × Holds b (from_first alive ss)
unfolding query_file_exist query_from from_first get_server_item remove_server_item
query_file_exist-Holds alive file a [] h =
    (a, rw (le→ltb 0 a.occupied (omega (arith, h.counted))) refl, h)
query_file_exist-Holds alive file a (s ∷ ss) h =
    let some_left : ltb 0 a.occupied ≡ true = lt→ltb 0 a.occupied (omega (arith, h.counted)) in
    let got = get_item-Holds a [] s ss 0 h refl in
    elim (Bool-cases (alive s)) [
      | inl up ↦ (a, rw (up, some_left, got, str_eq_refl file) (unfold str_eq in refl), rw up h)
      | inr down ↦
          let (c, d, hc) = remove_item-Holds a [] s ss 0 h refl in
          let (b, e, hb) = query_file_exist-Holds alive file c ss hc in
          (b, rw (down, some_left, got, d) e, rw down hb)
    ]
