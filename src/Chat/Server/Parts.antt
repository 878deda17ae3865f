-- ===== src/Chat/Server/Parts.antt =====
-- Each branch of the message loop against the room's answer.
use cmpe156_network_programm.Prelude.{
  ℕ, ◌≡◌, ◌≢◌, ◌<◌, refl, ap, inl, inr, List, [], ◌∷◌, ◌++◌, arith, some, ok, length, ℤ, pos,
  negsuc, Bool-cases, lt→ltb,
}
use cmpe156_network_programm.Prelude.{take}
use cmpe156_network_programm.Libc.Str.{Bytes, All, strcpy_fits}
use cmpe156_network_programm.Libc.Tok.{IsPlain, strtok, strtok-plain}
use cmpe156_network_programm.Libc.Number.{
  IsInt, format_d, format_d-All, format_d-ne-nil, atoi-format_d,
}
use cmpe156_network_programm.DynArray.Refine.{
  Holds, add_item-Holds, remove_item-Holds, pop_item-Holds,
}
use cmpe156_network_programm.Chat.Protocol.{sprintf}
use cmpe156_network_programm.Chat.Lists.{Client, ClientList, add_name_item, find_item}
use cmpe156_network_programm.Chat.Lists.Find.{Search, missing, found, find_item-Search}
use cmpe156_network_programm.Chat.Lists.Print.{list_reply, print_list-list_reply}
use cmpe156_network_programm.Chat.Lists.Names.{
  mem_name, has_name_item-mem_name, remove_name_item-Holds,
}
use cmpe156_network_programm.Chat.Server.{
  Server, colon, send_client, on_join, on_quit, on_connect, on_wait, on_list, on_leavewait,
  remove_if_found, connect_found,
}
use cmpe156_network_programm.Chat.Server.Room.{
  Room, join, quit, list, leavewait, wait, connect, answer, without, address, padded, IsName,
  FitsReply, Stands, Gives,
}

pub strtok-field :
    (n rest : Bytes)
    → n ≢ []
    → All (IsPlain b':') n
    → strtok colon (n ++ b':' ∷ rest) ≡ ok (some n, rest)
strtok-field [] rest h a = absurd (h refl)
strtok-field (c ∷ n) rest h a = strtok-plain b':' c n rest (omega arith) a

add_name_item-Holds :
    (s : Server) (r : Room) (n : Bytes)
    → Stands s r
    → (b : _) × (add_name_item s.client_names n ≡ ok b) × Holds b (r.names ++ n ∷ [])
unfolding add_name_item
add_name_item-Holds s r n h = add_item-Holds s.client_names r.names n h.names

-- JOIN: a name in use is turned away and the connection closed, any other is recorded.
pub on_join-Gives :
    (s : Server) (r : Room) (ip n rest : Bytes)
    → Stands s r
    → IsName n
    → Gives (on_join s (n ++ b':' ∷ rest)) (answer r ip (join n))
unfolding on_join answer
on_join-Gives s r ip n rest h (ne, plain, short) =
    let taken = has_name_item-mem_name s.client_names n r.names h.names in
    let field = strtok-field n rest ne plain in
    elim (Bool-cases (mem_name n r.names)) [
      | inl yes_in ↦ (s, ground (arith, taken, field), rw yes_in h)
      | inr not_in ↦
          let (b, e, hb) = add_name_item-Holds s r n h in
          (
            record s { client_names = b },
            ground (arith, taken, field, e, strcpy_fits 16 n short),
            rw not_in (record { waiting = h.waiting; names = hb }),
          )
    ]

-- Finding a client and removing it leaves the array without it.
find_remove :
    (a : ClientList) (cs : List Client) (n : Bytes)
    → Holds a cs
    → (idx : ℤ) × (b : ClientList) × (find_item a (some n) ≡ ok idx)
      × (remove_if_found a idx ≡ ok b)
      × Holds b (without n cs)
unfolding remove_if_found
find_remove a cs n h = go (find_item-Search a n cs h)
  where
    go :
        Search n cs 0 (find_item a (some n))
        → (idx : ℤ) × (b : ClientList) × (find_item a (some n) ≡ ok idx)
          × (remove_if_found a idx ≡ ok b)
          × Holds b (without n cs)
    go (missing t e) = (negsuc 0, a, e, refl, rw (t, without) h)
    go (found pre c post e t q) =
        let (b, d, hb) = remove_item-Holds a pre c post (length pre) (rw e at h) refl in
        (pos (length pre), b, ground (arith, q), d, rw (t, without) hb)

-- QUIT: the first waiting client of the name and the last entry of the name go.
pub on_quit-Gives :
    (s : Server) (r : Room) (ip n rest : Bytes)
    → Stands s r
    → IsName n
    → Gives (on_quit s (n ++ b':' ∷ rest)) (answer r ip (quit n))
unfolding on_quit answer
on_quit-Gives s r ip n rest h (ne, plain, short) =
    let (idx, cs, e1, e2, hc) = find_remove s.clients r.waiting n h.waiting in
    let (ns, e3, hn) = remove_name_item-Holds s.client_names n r.names h.names in
    (
      record { clients = cs; client_names = ns },
      ground (arith, strtok-field n rest ne plain, e1, e2, e3),
      record { waiting = hc; names = hn },
    )

-- LEAVEWAIT: the first waiting client of the name goes.
pub on_leavewait-Gives :
    (s : Server) (r : Room) (ip n rest : Bytes)
    → Stands s r
    → IsName n
    → Gives (on_leavewait s (n ++ b':' ∷ rest)) (answer r ip (leavewait n))
unfolding on_leavewait answer
on_leavewait-Gives s r ip n rest h (ne, plain, short) =
    let (idx, cs, e1, e2, hc) = find_remove s.clients r.waiting n h.waiting in
    (
      record s { clients = cs },
      ground (arith, strtok-field n rest ne plain, e1, e2),
      record { waiting = hc; names = h.names },
    )

-- WAIT: the client is entered with the address of its socket and the port it names.
pub on_wait-Gives :
    (s : Server) (r : Room) (ip n rest : Bytes) (port : ℤ)
    → Stands s r
    → IsName n
    → IsInt port
    → Gives (on_wait s ip (n ++ b':' ∷ (format_d port ++ b':' ∷ rest))) (answer r ip (wait n port))
unfolding on_wait answer
on_wait-Gives s r ip n rest port h (ne, plain, short) is_int =
    let c : Client = record { client = n; ip = ip; port = port } in
    let (b, e, hb) = add_item-Holds s.clients r.waiting c h.waiting in
    (
      record s { clients = b },
      ground (
        arith,
        strtok-field n (format_d port ++ b':' ∷ rest) ne plain,
        strtok-field (format_d port) rest (format_d-ne-nil port) (format_d-All port),
        atoi-format_d port is_int,
        strcpy_fits 16 n short,
        e,
      ),
      record { waiting = hb; names = h.names },
    )

take_all : (xs : Bytes) (y : ℕ) → take (length xs) (xs ++ y ∷ []) ≡ xs
take_all [] y = refl
take_all (x ∷ xs) y = ap (λ l. x ∷ l) (take_all xs y)

-- LIST: the reply holds every waiting client's name.
pub on_list-Gives :
    (s : Server) (r : Room) (ip n : Bytes)
    → Stands s r
    → length (list_reply r.waiting) < 1024
    → Gives (on_list s) (answer r ip (list n))
unfolding on_list answer
on_list-Gives s r ip n h fits = (
  s,
  ground (
    arith,
    print_list-list_reply s.clients r.waiting h.waiting fits,
    take_all (list_reply r.waiting) 0,
  ),
  h,
)

FitsReply-found :
    (pre : List Client) (c : Client) (post : List Client)
    → All FitsReply (pre ++ c ∷ post)
    → FitsReply c
FitsReply-found [] c post a = a.0
FitsReply-found (d ∷ pre) c post a = FitsReply-found pre c post a.1

send_client-padded : (c : Client) → FitsReply c → send_client c ≡ ok (padded (address c))
unfolding send_client sprintf
send_client-padded c h = rw (lt→ltb _ _ h)

-- CONNECT: the peer's address is sent and the peer waits no longer, or the reply says it is gone.
pub on_connect-Gives :
    (s : Server) (r : Room) (ip n peer rest : Bytes)
    → Stands s r
    → IsName n
    → IsName peer
    → All FitsReply r.waiting
    → Gives (on_connect s (n ++ b':' ∷ (peer ++ b':' ∷ rest))) (answer r ip (connect n peer))
unfolding on_connect connect_found answer
on_connect-Gives s r ip n peer rest h (ne, plain, short) (ne', plain', short') fits =
    go (find_item-Search s.clients peer r.waiting h.waiting)
  where
    go :
        Search peer r.waiting 0 (find_item s.clients (some peer))
        → Gives (on_connect s (n ++ b':' ∷ (peer ++ b':' ∷ rest))) (answer r ip (connect n peer))
    go (missing t e) = (
      s,
      ground (
        arith,
        strtok-field n (peer ++ b':' ∷ rest) ne plain,
        strtok-field peer rest ne' plain',
        e,
        t,
      ),
      rw (t, answer) h,
    )
    go (found pre c post e t q) =
        let (b, d, hb) =
          pop_item-Holds s.clients pre c post (length pre) (rw e at h.waiting) refl in
        let sent = send_client-padded c (FitsReply-found pre c post (rw e at fits)) in
        (
          record s { clients = b },
          ground (
            arith,
            strtok-field n (peer ++ b':' ∷ rest) ne plain,
            strtok-field peer rest ne' plain',
            q,
            t,
            d,
            sent,
          ),
          rw (t, answer) (record { waiting = hb; names = h.names }),
        )
