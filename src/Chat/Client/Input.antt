-- ===== src/Chat/Client/Input.antt =====
-- The modes of the client: process_input, INThandler and the two receiving threads of
-- pro/src/client.c, should_command_work_with_state and send_msg_to_peer of pro/src/client_util.c.
use cmpe156_network_programm.Prelude.{
  ℕ, zero, suc, Bool, true, false, ◌||◌, not, List, [], ◌∷◌, ◌++◌, Option, none, some, Result, ok,
  ◌>>=◌, deref, ℤ, pos, negsuc, ◌==◌, if◌then◌else◌,
}
use Prim.Native.String.{String}
use cmpe156_network_programm.Libc.Str.{Bytes, codes, str_eq, c_string}
use cmpe156_network_programm.Libc.Tok.{strtok}
use cmpe156_network_programm.Chat.Protocol.{
  sprintf, buffer_size, format_wait_cmd, format_list_cmd, format_connect_cmd, format_quit_cmd,
  format_leavewait_cmd,
}
use cmpe156_network_programm.Chat.Client.Replies.{
  Dial, silent, no_such_client, call, connect_after_process, process_waiting_list,
}

-- client_state_t
pub data ClientState : Type 0 where
  normal waiting talking : ClientState

-- The globals of the client; the sockets are told apart by their variables.
pub record Client : Type 0 where
  pub my_name : Bytes
  pub my_state : ClientState
  pub fromwait : Bool

-- What the client does to its terminal and its sockets.
pub data Action : Type 0 where
  print : Bytes → Action
  show_list : Option (List (ℕ × Bytes)) → Action
  listen : Action
  write_server write_peer : Bytes → Action
  connect_peer : Option Bytes → Option Bytes → ℤ → Action
  close_server close_peer shutdown_peer shutdown_listener : Action

-- How a step ends: the client goes on, process_input returns, or failHandler ends the program.
pub data Outcome : Type 0 where
  go : Client → List Action → Outcome
  left : Client → List Action → Outcome
  failed : Outcome

abbrev pub is_command : Bytes → String → Bool
is_command cmd name = str_eq cmd (codes name)

unfoldable pub should_command_work_with_state : Bytes → ClientState → Bool
should_command_work_with_state cmd normal = true
should_command_work_with_state cmd talking =
    not (is_command cmd "/connect" || is_command cmd "/wait" || is_command cmd "/list")
should_command_work_with_state cmd waiting =
    not (is_command cmd "/connect" || is_command cmd "/wait" || is_command cmd "/list")

-- The environment of one line: the port that the kernel picks if listening works, what the server
-- answers in its reads, whether the address and the connection to a peer work, and the descriptor that
-- socket or accept has left in talk_fd.
pub record World : Type 0 where
  pub listening : Option ℕ
  pub reads : List Bytes
  pub peer_reached : Bool
  pub talk_fd : ℤ

abbrev pub state_not_match_msg : Bytes
state_not_match_msg = codes "Cound not handle this command in this state!\n"

-- /wait: the mode changes first, then the socket is made and the server told the port.
unfoldable pub do_wait : World → Client → Result Outcome
do_wait w c = elim w.listening [
  | none ↦ ok failed
  | some port ↦ format_wait_cmd c.my_name (pos port) >>= λ (buf, n).
      ok (go (record c { my_state = waiting }) (listen ∷ write_server buf ∷ []))
]

unfoldable pub do_list : World → Client → Result Outcome
do_list w c = format_list_cmd c.my_name >>= λ (buf, n).
    process_waiting_list w.reads >>= λ lines. ok (go c (write_server buf ∷ show_list lines ∷ []))

abbrev pub first_read : List Bytes → Option Bytes
first_read [] = none
first_read (r ∷ rs) = some r

-- What follows the answer to /connect; __connect_peer__ reads the address through its pointer.
unfoldable pub after_connect : World → Client → Bytes → Dial → Result Outcome
after_connect w c buf silent = ok (go c (write_server buf ∷ []))
after_connect w c buf no_such_client =
    ok (go c (write_server buf ∷ print (codes "This client is not available!\n") ∷ []))
after_connect w c buf (call name ip port) = deref ip >>= λ address. ok (
    if w.peer_reached
    then go (record c { my_state = talking; fromwait = true })
        (write_server buf ∷ connect_peer name ip port ∷ [])
    else failed)

-- The command is written, and the answer read.
unfoldable pub connect_to : World → Client → Bytes → Result Outcome
connect_to w c peer = format_connect_cmd c.my_name peer >>= λ (buf, n).
    connect_after_process (first_read w.reads) >>= λ dial. after_connect w c buf dial

-- The tests of the name behind the command's word.
unfoldable pub connect_named : World → Client → Option Bytes → Result Outcome
connect_named w c none =
    ok (go c (print (codes "Please enter the user name you want to talk with!\n") ∷ []))
connect_named w c (some peer) =
    if str_eq peer c.my_name
    then ok (go c (print (codes "Cannot connect with your self!\n") ∷ []))
    else connect_to w c peer

unfoldable pub do_connect : World → Client → Bytes → Result Outcome
do_connect w c rest = strtok [] rest >>= λ (peername, rest'). connect_named w c peername

abbrev pub closing : ClientState → List Action
closing normal = []
closing waiting = []
closing talking = close_peer ∷ []

unfoldable pub do_quit : Client → Result Outcome
do_quit c = format_quit_cmd c.my_name >>= λ (buf, n). ok (
    left (record c { fromwait = false })
      (write_server buf
        ∷ print (codes "Leaving chatting room! Bye...\n")
        ∷ close_server
        ∷ closing c.my_state))

-- A command that the mode allows, with what follows its word.
unfoldable pub do_command : World → Client → Bytes → Bytes → Result Outcome
do_command w c cmd rest =
    if is_command cmd "/wait"
    then do_wait w c
    else if is_command cmd "/list"
    then do_list w c
    else if is_command cmd "/connect"
    then do_connect w c rest
    else if is_command cmd "/quit"
    then do_quit c
    else ok (go c (print (codes "Undefined command!\n") ∷ []))

-- `peer_fd > 0`
unfoldable pub is_open : ℤ → Bool
is_open (pos zero) = false
is_open (pos (suc n)) = true
is_open (negsuc n) = false

-- send_msg_to_peer writes the text of a block of 1024 bytes.
unfoldable pub send_msg_to_peer : ℤ → Bytes → Bytes → Result (List Action)
send_msg_to_peer peer_fd msg my_name =
    sprintf buffer_size (my_name ++ b':' ∷ b' ' ∷ (msg ++ 10 ∷ [])) >>= λ block.
    c_string block >>= λ text. ok (if is_open peer_fd then write_peer text ∷ [] else [])

unfoldable pub do_message : World → Client → Bytes → ClientState → Result Outcome
do_message w c input talking = send_msg_to_peer w.talk_fd input c.my_name >>= λ acts. ok (go c acts)
do_message w c input normal =
    ok (go c (print (codes "Invalid input! Please input command or talk to someone!\n") ∷ []))
do_message w c input waiting =
    ok (go c (print (codes "Invalid input! Please input command or talk to someone!\n") ∷ []))

-- `'/' == input[0]`
unfoldable pub starts_command : Bytes → Bool
starts_command [] = false
starts_command (x ∷ s) = x == b'/'

-- The test of the mode.
unfoldable pub allowed_command : World → Client → Bytes → Bytes → Result Outcome
allowed_command w c cmd rest =
    if should_command_work_with_state cmd c.my_state
    then do_command w c cmd rest
    else ok (go c (print state_not_match_msg ∷ []))

-- A line that begins with a slash.
unfoldable pub command_line : World → Client → Bytes → Result Outcome
command_line w c input = strtok (codes " ") (input ++ 0 ∷ []) >>= λ (word, rest).
    deref word >>= λ cmd. allowed_command w c cmd rest

-- One round of process_input on what readline returns, NULL at the end of input.
unfoldable pub process_line : World → Client → Option Bytes → Result Outcome
process_line w c line = deref line >>= λ input.
    if starts_command input then command_line w c input else do_message w c input c.my_state

-- The prompt behind a hint.
abbrev pub prompt : Client → Bytes
prompt c = c.my_name ++ codes "> "

-- INThandler, by the mode that its two tests read, before it sets the mode to normal.
unfoldable pub interrupted : Client → ClientState → Result (Client × List Action)
interrupted c normal = ok (record c { my_state = normal }, [])
interrupted c talking = ok (
  record c { my_state = normal; fromwait = false },
  shutdown_peer ∷ print (codes "\nLeave chating state!\n" ++ prompt c) ∷ [],
)
interrupted c waiting = format_leavewait_cmd c.my_name >>= λ (buf, n). ok (
  record c { my_state = normal },
  write_server buf ∷ shutdown_listener ∷ print (codes "\nLeave waiting state!\n" ++ prompt c) ∷ [],
)

unfoldable pub int_handler : Client → Result (Client × List Action)
int_handler c = interrupted c c.my_state

-- The end of __peer_receive__, when the peer's connection reads nothing more.
unfoldable pub peer_left : Client → Client × List Action
peer_left c = (
  record c { my_state = normal },
  if c.fromwait then print (codes "\npeer chatter has left!\n" ++ prompt c) ∷ [] else [],
)

-- __listen_receive__ at the head of its loop: whether it goes on to select.
unfoldable pub keeps_listening : ClientState → Bool
keeps_listening normal = false
keeps_listening waiting = true
keeps_listening talking = true

-- What the thread does when select reports its socket: accept's result is not looked at, and
-- create_receive_thread sets the mode.
unfoldable pub listener_ready : Client → Client
listener_ready c = record c { my_state = talking; fromwait = true }
