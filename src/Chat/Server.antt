-- ===== src/Chat/Server.antt =====
-- pro/src/server.c: one message of a client, and the loop of a client's thread.
pub mod Room
pub mod Parts
pub mod Refine
pub mod Unique
pub mod Race
pub mod Accept
use cmpe156_network_programm.Prelude.{
  ℕ, zero, suc, ◌+◌, ◌-◌, ◌*◌, ◌≡◌, ◌≢◌, ◌≤◌, ◌<◌, refl, sym, ap, ◌∙◌, subst, ◌⊎◌, inl, inr, Bool,
  true, false, ◌&&◌, ◌||◌, not, List, [], ◌∷◌, ◌++◌, append_assoc, append-nil, arith, Option, none,
  some, Result, ok, fault, Fault, null_pointer, out_of_bounds, ◌>>=◌, deref, load, store, length,
  length-append, length-replicate, replicate, map, ℤ, pos, negsuc, ◌==◌, leb, ltb, if◌then◌else◌,
  Bool-cases, Option-cases, lt→leb, le→leb, lt→ltb, le→ltb, ==_iff,
}
use cmpe156_network_programm.Libc.Str.{Bytes, codes, str_eq, strcpy}
use cmpe156_network_programm.Libc.Tok.{strtok}
use cmpe156_network_programm.Libc.Number.{atoi, format_d}
use cmpe156_network_programm.Prelude.{take}
use cmpe156_network_programm.DynArray.{init_array, add_item, remove_item, pop_item}
use cmpe156_network_programm.Chat.Lists.{
  Client, ClientList, NameList, find_item, print_list, init_name_array, add_name_item,
  has_name_item, remove_name_item,
}
use cmpe156_network_programm.Chat.Protocol.{sprintf, client_name_length, buffer_size}

-- The two globals. The locks are modelled by each message's being one step.
pub record Server : Type 0 where
  pub clients : ClientList
  pub client_names : NameList

-- What a message does: the new state, the blocks written to the client, and whether the thread
-- closes the connection and leaves its loop.
pub record Turn : Type 0 where
  pub server : Server
  pub written : List Bytes
  pub closed : Bool

unfoldable pub init_server : Server
init_server = record { clients = init_array; client_names = init_name_array }

abbrev pub colon : Bytes
colon = b':' ∷ []

-- CMD_CONFIRM_JOIN and CMD_REJECTION_JOIN, six bytes with the NUL; the reply that a peer is gone.
abbrev pub confirm_join : Bytes
confirm_join = b'a' ∷ b':' ∷ b'c' ∷ b':' ∷ b':' ∷ 0 ∷ []

abbrev pub rejection_join : Bytes
rejection_join = b'a' ∷ b':' ∷ b'r' ∷ b':' ∷ b':' ∷ 0 ∷ []

abbrev pub no_peer : Bytes
no_peer = b'c' ∷ b':' ∷ b':' ∷ 0 ∷ []

abbrev pub wrong_cmd_msg : Bytes
wrong_cmd_msg = codes "Undefined command!\n"

unfoldable pub send_client : Client → Result Bytes
send_client c =
    sprintf buffer_size
      (b'c' ∷ b':' ∷ (c.client ++ b':' ∷ (c.ip ++ b':' ∷ (format_d c.port ++ b':' ∷ []))))

unfoldable pub on_join : Server → Bytes → Result Turn
on_join s buf = strtok colon buf >>= λ (clientname, rest).
    has_name_item s.client_names clientname >>= λ taken.
    if taken
    then ok (record { server = s; written = rejection_join ∷ []; closed = true })
    else (strcpy client_name_length clientname >>= λ storename.
        add_name_item s.client_names storename >>= λ names. ok (record {
          server = record s { client_names = names };
          written = confirm_join ∷ [];
          closed = false;
        }))

-- `if (idx >= 0) removeItem(clients, idx)`
unfoldable pub remove_if_found : ClientList → ℤ → Result ClientList
remove_if_found a (pos idx) = remove_item a (pos idx)
remove_if_found a (negsuc idx) = ok a

unfoldable pub on_quit : Server → Bytes → Result Turn
on_quit s buf = strtok colon buf >>= λ (clientname, rest). find_item s.clients clientname >>= λ idx.
    remove_if_found s.clients idx >>= λ cs. remove_name_item s.client_names clientname >>= λ ns.
    ok (record { server = record { clients = cs; client_names = ns }; written = []; closed = true })

unfoldable pub connect_found : Server → ℤ → Result Turn
connect_found s (pos idx) = pop_item s.clients (pos idx) >>= λ (popped, cs). deref popped >>= λ c.
    send_client c >>= λ buf.
    ok (record { server = record s { clients = cs }; written = buf ∷ []; closed = false })
connect_found s (negsuc idx) = ok (record { server = s; written = no_peer ∷ []; closed = false })

unfoldable pub on_connect : Server → Bytes → Result Turn
on_connect s buf = strtok colon buf >>= λ (clientname, rest).
    strtok colon rest >>= λ (peername, rest').
    find_item s.clients peername >>= λ idx. connect_found s idx

-- `ip` is what get_client_ip copies from the socket's peer address.
unfoldable pub on_wait : Server → Bytes → Bytes → Result Turn
on_wait s ip buf = strtok colon buf >>= λ (clientname, rest).
    strtok colon rest >>= λ (port_str, rest'). deref port_str >>= λ digits. atoi digits >>= λ port.
    strcpy client_name_length clientname >>= λ name.
    add_item s.clients (record { client = name; ip = ip; port = port }) >>= λ cs.
    ok (record { server = record s { clients = cs }; written = []; closed = false })

unfoldable pub on_list : Server → Result Turn
on_list s = print_list s.clients >>= λ (listbuf, list_length).
    ok (record { server = s; written = take list_length (listbuf ++ 0 ∷ []) ∷ []; closed = false })

unfoldable pub on_leavewait : Server → Bytes → Result Turn
on_leavewait s buf = strtok colon buf >>= λ (clientname, rest).
    find_item s.clients clientname >>= λ idx. remove_if_found s.clients idx >>= λ cs.
    ok (record { server = record s { clients = cs }; written = []; closed = false })

unfoldable pub on_unknown : Server → Result Turn
on_unknown s = sprintf buffer_size wrong_cmd_msg >>= λ buf.
    ok (record { server = s; written = buf ∷ []; closed = false })

-- The comparisons of the command, in their order.
unfoldable pub dispatch : Server → Bytes → Bytes → Bytes → Result Turn
dispatch s ip command rest =
    if str_eq command (codes "a")
    then on_join s rest
    else if str_eq command (codes "q")
    then on_quit s rest
    else if str_eq command (codes "c")
    then on_connect s rest
    else if str_eq command (codes "w")
    then on_wait s ip rest
    else if str_eq command (codes "l")
    then on_list s
    else if str_eq command (codes "r")
    then on_leavewait s rest
    else on_unknown s

-- The body of the loop, on a buffer of 1024 bytes. The first strcmp follows the command's pointer.
unfoldable pub respond : Server → Bytes → Bytes → Result Turn
unfolding dispatch
respond s ip buf =
    strtok colon buf >>= λ (command, rest). deref command >>= λ c. dispatch s ip c rest

-- What read leaves in the zeroed buffer, from a chunk of at most 1024 bytes.
abbrev pub received : Bytes → Bytes
received chunk = chunk ++ replicate (buffer_size - length chunk) 0

-- The thread's loop, over what its reads return until one returns nothing.
unfoldable pub command_response : Bytes → List Bytes → Server → Result (Server × List Bytes)
command_response ip [] s = ok (s, [])
command_response ip (chunk ∷ chunks) s = respond s ip (received chunk) >>= λ t.
    let rest = command_response ip chunks t.server in
    if t.closed then ok (t.server, t.written) else (rest >>= λ (s', out). ok (s', t.written ++ out))
