-- ===== src/Chat/Server/Room.antt =====
-- What the server promises: a room of waiting clients and names, and a command's effect on it.
use cmpe156_network_programm.Prelude.{
  ◌-◌, ◌≡◌, ◌≢◌, ◌<◌, Bool, true, false, List, [], ◌∷◌, ◌++◌, none, some, Result, ok, length,
  replicate, ℤ, if◌then◌else◌,
}
use cmpe156_network_programm.Libc.Str.{Bytes, All}
use cmpe156_network_programm.Libc.Tok.{IsPlain}
use cmpe156_network_programm.Libc.Number.{IsInt, format_d}
use cmpe156_network_programm.DynArray.Refine.{Holds, init_array-Holds}
use cmpe156_network_programm.Chat.Lists.{Client, init_name_array}
use cmpe156_network_programm.Chat.Lists.Find.{take_client}
use cmpe156_network_programm.Chat.Lists.Print.{list_reply}
use cmpe156_network_programm.Chat.Lists.Names.{mem_name, remove_last}
use cmpe156_network_programm.Chat.Server.{
  Server, Turn, init_server, confirm_join, rejection_join, no_peer,
}

pub record Room : Type 0 where
  pub waiting : List Client
  pub names : List Bytes

pub data Command : Type 0 where
  join quit list leavewait : Bytes → Command
  wait : Bytes → ℤ → Command
  connect : Bytes → Bytes → Command

-- The room afterwards, the texts of the replies, and whether the connection is closed.
pub record Answer : Type 0 where
  pub room : Room
  pub replies : List Bytes
  pub closed : Bool

-- The list without the first client of a name.
abbrev pub without : Bytes → List Client → List Client
without n cs = elim (take_client n cs) [ none ↦ cs | some (c, ds) ↦ ds ]

-- The text of the reply that tells a client its peer's address.
abbrev pub address : Client → Bytes
address c = b'c' ∷ b':' ∷ (c.client ++ b':' ∷ (c.ip ++ b':' ∷ (format_d c.port ++ b':' ∷ [])))

-- A reply of a whole buffer, zeros behind the text.
abbrev pub padded : Bytes → Bytes
padded text = text ++ replicate (1024 - length text) 0

unfoldable pub answer : Room → Bytes → Command → Answer
answer r ip (join n) =
    if mem_name n r.names
    then record { room = r; replies = rejection_join ∷ []; closed = true }
    else record {
      room = record r { names = r.names ++ n ∷ [] };
      replies = confirm_join ∷ [];
      closed = false;
    }
answer r ip (quit n) = record {
  room = record { waiting = without n r.waiting; names = remove_last n r.names };
  replies = [];
  closed = true;
}
answer r ip (list n) = record { room = r; replies = list_reply r.waiting ∷ []; closed = false }
answer r ip (leavewait n) = record {
  room = record r { waiting = without n r.waiting };
  replies = [];
  closed = false;
}
answer r ip (wait n port) = record {
  room = record r { waiting = r.waiting ++ record { client = n; ip = ip; port = port } ∷ [] };
  replies = [];
  closed = false;
}
answer r ip (connect n peer) = elim (take_client peer r.waiting) [
  | none ↦ record { room = r; replies = no_peer ∷ []; closed = false }
  | some (c, cs) ↦ record {
    room = record r { waiting = cs };
    replies = padded (address c) ∷ [];
    closed = false;
  }
]

-- The text of a command.
unfoldable pub text : Command → Bytes
text (join n) = b'a' ∷ b':' ∷ (n ++ b':' ∷ [])
text (quit n) = b'q' ∷ b':' ∷ (n ++ b':' ∷ [])
text (list n) = b'l' ∷ b':' ∷ (n ++ b':' ∷ [])
text (leavewait n) = b'r' ∷ b':' ∷ (n ++ b':' ∷ [])
text (wait n port) = b'w' ∷ b':' ∷ (n ++ b':' ∷ (format_d port ++ b':' ∷ []))
text (connect n peer) = b'c' ∷ b':' ∷ (n ++ b':' ∷ (peer ++ b':' ∷ []))

-- A name that goes through the protocol: not empty, no colon, no NUL, and 15 bytes at most.
abbrev pub IsName : Bytes → Type 0
IsName n = (n ≢ []) × All (IsPlain b':') n × (length n < 16)

-- A client of the room: its name fits, and its address fits a reply.
abbrev pub FitsReply : Client → Type 0
FitsReply c = length (address c) < 1024

-- What a command and the room have to satisfy for the server to stay within its buffers.
abbrev pub IsProper : Room → Command → Type 0
IsProper r (join n) = IsName n
IsProper r (quit n) = IsName n
IsProper r (list n) = IsName n × (length (list_reply r.waiting) < 1024)
IsProper r (leavewait n) = IsName n
IsProper r (wait n port) = IsName n × IsInt port
IsProper r (connect n peer) = IsName n × IsName peer × All FitsReply r.waiting

-- The server's two arrays hold the room.
pub record Stands (s : Server) (r : Room) : Type 0 where
  pub waiting : Holds s.clients r.waiting
  pub names : Holds s.client_names r.names

-- A result that does what an answer says.
abbrev pub Gives : Result Turn → Answer → Type 0
Gives t a =
    (s : Server) × (t ≡ ok (record { server = s; written = a.replies; closed = a.closed }))
    × Stands s a.room

abbrev pub empty_room : Room
empty_room = record { waiting = []; names = [] }

-- The server starts with an empty room.
pub init_server-Stands : Stands init_server empty_room
unfolding init_server init_name_array
init_server-Stands = record { waiting = init_array-Holds; names = init_array-Holds }
