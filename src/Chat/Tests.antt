-- ===== src/Chat/Tests.antt =====
-- The chat's theorems at concrete inputs.
use cmpe156_network_programm.Prelude.{
  ◌≡◌, ◌<◌, refl, ap, List, [], ◌∷◌, ◌++◌, arith, some, ok, true, false, length, replicate, map, ℤ,
  pos,
}
use cmpe156_network_programm.Libc.Str.{Bytes, All, codes, str_eq, strcpy}
use cmpe156_network_programm.Libc.Tok.{IsPlain, strtok, skip, span}
use cmpe156_network_programm.Libc.Number.{IsInt, format_d}
use cmpe156_network_programm.DynArray.{null, ref}
use cmpe156_network_programm.DynArray.Refine.{Holds, init_array-Holds}
use cmpe156_network_programm.Chat.Lists.{Client, ClientList, NameList, init_name_array}
use cmpe156_network_programm.Chat.Lists.Find.{take_client}
use cmpe156_network_programm.Chat.Lists.Print.{fields, list_reply}
use cmpe156_network_programm.Chat.Lists.Names.{mem_name}
use cmpe156_network_programm.Chat.Protocol.{sprintf, format_wait_cmd}
use cmpe156_network_programm.Chat.Server.{Server, init_server, respond, received, command_response}
use cmpe156_network_programm.Chat.Server.Room.{
  Room, Command, join, quit, leavewait, wait, connect, answer, text, IsName, Stands, Gives,
  empty_room, init_server-Stands, padded, address, FitsReply,
}
use cmpe156_network_programm.Chat.Server.Refine.{
  answers, AllProper, message, command_response-answers,
}
use cmpe156_network_programm.Chat.Server.Unique.{Distinct, command_response-Distinct}
use cmpe156_network_programm.Chat.Server.Race.{reading, joined, Threads, Reach, join_race}
use cmpe156_network_programm.Chat.Wire.{format, respond-format}
use cmpe156_network_programm.Chat.Client.Replies.{call, connect_after_process, process_waiting_list}
use cmpe156_network_programm.Chat.Client.Peer.{IsEntry, connect_after_process-address}
use cmpe156_network_programm.Chat.Client.Shown.{shown, process_waiting_list-list_reply}
use cmpe156_network_programm.Chat.Client.Input.{
  Client as Peer, normal, waiting, Action, listen, write_server, Outcome, go, World, process_line,
  starts_command, command_line, allowed_command, should_command_work_with_state, do_command,
  int_handler, do_wait,
}
use cmpe156_network_programm.Chat.Client.Modes.{
  Moves, process_line-Moves, int_handler-normal, server_gets, farewell,
}

abbrev al : Bytes
al = 97 ∷ 108 ∷ []

abbrev bo : Bytes
bo = 98 ∷ 111 ∷ []

al-IsName : IsName al
al-IsName = (
  (λ e. absurd (omega (arith, ap length e))),
  ((omega arith, omega arith), ((omega arith, omega arith), tt)),
  omega arith,
)

bo-IsName : IsName bo
bo-IsName = (
  (λ e. absurd (omega (arith, ap length e))),
  ((omega arith, omega arith), ((omega arith, omega arith), tt)),
  omega arith,
)

abbrev home : Bytes
home = codes "1.2.3.4"

abbrev port : ℤ
port = pos 4000

-- A connection that joins, waits, and leaves.
abbrev visit : List Command
visit = join al ∷ wait al port ∷ leavewait al ∷ connect al bo ∷ quit al ∷ []

abbrev port-IsInt : IsInt port
port-IsInt = omega arith

visit-AllProper : AllProper empty_room home visit
unfolding answer mem_name take_client str_eq
visit-AllProper = (
  al-IsName,
  ((al-IsName, omega arith), (al-IsName, ((al-IsName, bo-IsName, tt), (al-IsName, tt)))),
)

command_response-answers_example :
    (s' : Server) × (command_response home (map message visit) init_server
      ≡ ok (s', (answers empty_room home visit).1))
    × Stands s' (answers empty_room home visit).0
command_response-answers_example =
    command_response-answers visit init_server empty_room home init_server-Stands visit-AllProper

four_digits : length (format_d port) < 8
unfolding format_d
four_digits = omega arith

respond-format_example :
    (buf : Bytes) × (format (wait al port) ≡ ok (buf, length buf))
    × Gives (respond init_server home (received buf)) (answer empty_room home (wait al port))
respond-format_example =
    respond-format init_server empty_room home (wait al port) init_server-Stands
      (al-IsName, port-IsInt) four_digits

command_response-Distinct_example :
    (s' : Server) × (r' : Room) × (out : List Bytes) × (command_response home
        (map message visit)
        init_server
      ≡ ok (s', out))
    × Stands s' r'
    × Distinct r'.names
command_response-Distinct_example =
    command_response-Distinct visit init_server empty_room home init_server-Stands tt
      visit-AllProper

-- Two threads wait for a message in an empty room.
abbrev two_threads : Threads
two_threads = record { names = init_name_array; phase = λ i. reading }

no_names : Holds init_name_array []
unfolding init_name_array
no_names = init_array-Holds

no_al : mem_name al [] ≡ false
unfolding mem_name
no_al = refl

join_race_example :
    (t : Threads) × Reach two_threads t
    × Holds t.names (([] ++ al ∷ []) ++ al ∷ [])
    × (t.phase 1 ≡ joined)
    × (t.phase 2 ≡ joined)
join_race_example = join_race two_threads [] al 1 2 no_names no_al refl refl (omega arith)

abbrev al_client : Client
al_client = record { client = al; ip = home; port = port }

abbrev bo_client : Client
bo_client = record { client = bo; ip = home; port = port }

short_list : length (list_reply (al_client ∷ bo_client ∷ [])) < 1024
unfolding list_reply fields
short_list = omega arith

process_waiting_list-list_reply_example :
    process_waiting_list (list_reply (al_client ∷ bo_client ∷ []) ∷ [])
    ≡ ok (shown (al_client ∷ bo_client ∷ []))
process_waiting_list-list_reply_example =
    process_waiting_list-list_reply (al_client ∷ bo_client ∷ []) [] (al-IsName, (bo-IsName, tt))
      short_list

home-IsPlain : All (IsPlain b':') home
home-IsPlain = (
  (omega arith, omega arith),
  (
    (omega arith, omega arith),
    (
      (omega arith, omega arith),
      (
        (omega arith, omega arith),
        (
          (omega arith, omega arith),
          ((omega arith, omega arith), ((omega arith, omega arith), tt)),
        ),
      ),
    ),
  ),
)

al_client-IsEntry : IsEntry al_client
al_client-IsEntry = record {
  name = al-IsName;
  ip_given = λ e. absurd (omega (arith, ap length e));
  ip_plain = home-IsPlain;
  port_fits = port-IsInt;
}

al_client-FitsReply : FitsReply al_client
unfolding format_d
al_client-FitsReply = omega arith

connect_after_process-address_example :
    connect_after_process (some (padded (address al_client))) ≡ ok (call (some al) (some home) port)
connect_after_process-address_example =
    connect_after_process-address al_client al_client-IsEntry al_client-FitsReply

abbrev peer : Peer
peer = record { my_name = al; my_state = normal; fromwait = false }

abbrev listening_world : World
listening_world = record { listening = some 4000; reads = []; peer_reached = true; talk_fd = pos 0 }

abbrev waits : Outcome
waits =
    go (record peer { my_state = waiting }) (listen ∷ write_server (message (wait al port)) ∷ [])

wait_line : process_line listening_world peer (some (codes "/wait")) ≡ ok waits
unfolding process_line starts_command command_line strtok skip span allowed_command
    should_command_work_with_state do_command str_eq do_wait format_wait_cmd strcpy format_d sprintf
    text
wait_line = refl

process_line-Moves_example : Moves normal waits
process_line-Moves_example =
    process_line-Moves listening_world peer (some (codes "/wait")) waits wait_line

abbrev waiting_peer : Peer
waiting_peer = record { my_name = al; my_state = waiting; fromwait = false }

int_handler-normal_example :
    (d : Peer) × (acts : List Action) × (int_handler waiting_peer ≡ ok (d, acts))
    × (d.my_state ≡ normal)
    × (server_gets acts ≡ farewell waiting al)
int_handler-normal_example = int_handler-normal waiting_peer

-- Two clients who wait, in an array of five cells.
abbrev two_clients : ClientList
two_clients = record {
  array = ref al_client ∷ ref bo_client ∷ null ∷ null ∷ null ∷ [];
  occupied = 2;
  size = 5;
}

two_clients-Holds : Holds two_clients (al_client ∷ bo_client ∷ [])
two_clients-Holds = record {
  spare = null ∷ null ∷ null ∷ [];
  cells = refl;
  counted = refl;
  allocated = refl;
}

-- A client whose name fills the reply.
abbrev long_client : Client
long_client = record { client = replicate 1020 97; ip = home; port = port }

abbrev long_list : ClientList
long_list = record {
  array = ref long_client ∷ null ∷ null ∷ null ∷ null ∷ [];
  occupied = 1;
  size = 5;
}

long_list-Holds : Holds long_list (long_client ∷ [])
long_list-Holds = record {
  spare = null ∷ null ∷ null ∷ null ∷ [];
  cells = refl;
  counted = refl;
  allocated = refl;
}

long_reply : length (list_reply (long_client ∷ [])) ≡ 1024
unfolding list_reply fields
long_reply = refl

abbrev two_names : NameList
two_names = record { array = ref al ∷ ref bo ∷ null ∷ null ∷ null ∷ []; occupied = 2; size = 5 }

two_names-Holds : Holds two_names (al ∷ bo ∷ [])
two_names-Holds = record {
  spare = null ∷ null ∷ null ∷ [];
  cells = refl;
  counted = refl;
  allocated = refl;
}
