-- ===== src/Chat/Lists/Print.antt =====
-- printList against the reply of the protocol, l:client1:client2::
use cmpe156_network_programm.Prelude.{
  ℕ, suc, ◌+◌, ◌≡◌, ◌≤◌, ◌<◌, refl, inl, inr, List, [], ◌∷◌, ◌++◌, append_assoc, append-nil, arith,
  some, ok, fault, out_of_bounds, length, length-append, pos, ltb, Bool-cases, ltb→lt,
}
use cmpe156_network_programm.Libc.Str.{Bytes}
use cmpe156_network_programm.DynArray.{get_item}
use cmpe156_network_programm.DynArray.Refine.{Holds, get_item-Holds}
use cmpe156_network_programm.Chat.Lists.{Client, ClientList, strcat, print_from, print_list}

-- Every name, with a colon behind it.
unfoldable pub fields : List Client → Bytes
fields [] = []
fields (c ∷ cs) = c.client ++ b':' ∷ fields cs

unfoldable pub list_reply : List Client → Bytes
list_reply cs = b'l' ∷ b':' ∷ (fields cs ++ b':' ∷ [])

pub length-fields :
    (c : Client) (cs : List Client)
    → length (fields (c ∷ cs)) ≡ length c.client + 1 + length (fields cs)
unfolding fields
length-fields c cs = omega (arith, length-append c.client (b':' ∷ fields cs))

fields-cons :
    (c : Client) (cs : List Client) (temp : Bytes)
    → temp ++ fields (c ∷ cs) ≡ ((temp ++ c.client) ++ b':' ∷ []) ++ fields cs
unfolding fields
fields-cons c cs temp = simp append_assoc

-- One round, at a client that is there.
print_round :
    (a : ClientList) (c : Client) (k i : ℕ) (temp : Bytes) (t_len size : ℕ)
    → get_item a (pos i) ≡ ok (some c)
    → t_len ≡ length temp
    → t_len + length c.client + 1 < size
    → print_from (suc k) i a temp t_len size
      ≡ print_from k (i + 1) a ((temp ++ c.client) ++ b':' ∷ []) (t_len + length c.client + 1) size
unfolding print_from strcat
print_round a c k i temp t_len size h e f = ground (arith, h, length-append temp c.client)

-- As long as the text stays short of the buffer, the loop appends the fields and keeps the buffer.
print_from-fields :
    (a : ClientList) (pre suf : List Client) (i : ℕ) (temp : Bytes) (t_len size : ℕ)
    → Holds a (pre ++ suf)
    → i ≡ length pre
    → t_len ≡ length temp
    → t_len + length (fields suf) < size
    → print_from (length suf) i a temp t_len size
      ≡ ok (temp ++ fields suf, t_len + length (fields suf), size)
print_from-fields a pre [] i temp t_len size h e l f =
    unfold print_from fields in ground (arith, append-nil temp)
print_from-fields a pre (c ∷ cs) i temp t_len size h e l f =
    let step = temp ++ c.client in
    let later =
      print_from-fields a (pre ++ c ∷ []) cs (i + 1) (step ++ b':' ∷ [])
        (t_len + length c.client + 1) size (rw (append_assoc pre (c ∷ []) cs) h)
        (omega (arith, length-append pre (c ∷ [])))
        (omega (arith, length-append step (b':' ∷ []), length-append temp c.client))
        (omega (arith, length-fields c cs)) in
    ground (
      arith,
      print_round a c (length cs) i temp t_len size (get_item-Holds a pre c cs i h e) l,
      later,
      length-fields c cs,
      fields-cons c cs temp,
    )

-- One round that fills the buffer to its last byte: the NUL no longer fits.
print_round_full :
    (a : ClientList) (c : Client) (k i : ℕ) (temp : Bytes) (t_len size : ℕ)
    → get_item a (pos i) ≡ ok (some c)
    → t_len ≡ length temp
    → t_len + length c.client + 1 ≡ size
    → print_from (suc k) i a temp t_len size ≡ fault out_of_bounds
unfolding print_from strcat
print_round_full a c k i temp t_len size h e f = ground (arith, h, length-append temp c.client)

print_from_full :
    (a : ClientList) (pre suf : List Client) (i : ℕ) (temp : Bytes) (t_len size : ℕ)
    → Holds a (pre ++ suf)
    → i ≡ length pre
    → t_len ≡ length temp
    → t_len < size
    → t_len + length (fields suf) ≡ size
    → print_from (length suf) i a temp t_len size ≡ fault out_of_bounds
print_from_full a pre [] i temp t_len size h e l lt f = unfold fields in absurd (omega arith)
print_from_full a pre (c ∷ cs) i temp t_len size h e l lt f =
    elim (Bool-cases (ltb (t_len + length c.client + 1) size)) [
      | inl more ↦
          let step = temp ++ c.client in
          let later =
            print_from_full a (pre ++ c ∷ []) cs (i + 1) (step ++ b':' ∷ [])
              (t_len + length c.client + 1) size (rw (append_assoc pre (c ∷ []) cs) h)
              (omega (arith, length-append pre (c ∷ [])))
              (omega (arith, length-append step (b':' ∷ []), length-append temp c.client))
              (ltb→lt _ _ more) (omega (arith, length-fields c cs)) in
          ground (
            arith,
            print_round a c (length cs) i temp t_len size (get_item-Holds a pre c cs i h e) l,
            later,
          )
      | inr last ↦
          print_round_full a c (length cs) i temp t_len size (get_item-Holds a pre c cs i h e) l
            (ground (arith, length-fields c cs))
    ]

-- On an array that holds the clients, while the reply is below 1024 bytes, printList gives the
-- protocol's reply and its length.
pub print_list-list_reply :
    (a : ClientList) (cs : List Client)
    → Holds a cs
    → length (list_reply cs) < 1024
    → print_list a ≡ ok (list_reply cs, length (list_reply cs))
unfolding print_list list_reply strcat
print_list-list_reply a cs h f =
    let sized = length-append (fields cs) (b':' ∷ []) in
    let loop =
      print_from-fields a [] cs 0 (b'l' ∷ b':' ∷ []) 2 1024 h refl refl (omega (arith, sized)) in
    simp h.counted (ground (arith, loop, sized))

-- On an array that holds clients whose reply has 1024 or 1025 bytes, printList writes past the
-- end of its buffer.
pub print_list_overflow :
    (a : ClientList) (cs : List Client)
    → Holds a cs
    → 1024 ≤ length (list_reply cs)
    → length (list_reply cs) ≤ 1025
    → print_list a ≡ fault out_of_bounds
unfolding print_list list_reply strcat
print_list_overflow a cs h lo hi =
    let sized = length-append (fields cs) (b':' ∷ []) in
    elim (Bool-cases (ltb (2 + length (fields cs)) 1024)) [
      | inl short ↦
          let loop =
            print_from-fields a [] cs 0 (b'l' ∷ b':' ∷ []) 2 1024 h refl refl (ltb→lt _ _ short) in
          simp h.counted (ground (arith, loop, sized))
      | inr full ↦
          let loop =
            print_from_full a [] cs 0 (b'l' ∷ b':' ∷ []) 2 1024 h refl refl (omega arith)
              (ground (arith, sized)) in
          simp h.counted (ground (arith, loop))
    ]
