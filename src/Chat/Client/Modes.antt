-- ===== src/Chat/Client/Modes.antt =====
-- The three modes of the client: which steps change them.
use cmpe156_network_programm.Prelude.{
  ℕ, ◌≡◌, refl, inl, inr, Bool, true, false, ◌&&◌, ◌||◌, List, [], ◌∷◌, ◌++◌, arith, Option, none,
  some, ok, ◌>>=◌, deref, length, if◌then◌else◌, Bool-cases, bind-eq-ok,
}
use cmpe156_network_programm.Libc.Str.{Bytes, codes, str_eq}
use cmpe156_network_programm.Libc.Tok.{strtok}
use cmpe156_network_programm.Chat.Protocol.{format_leavewait_cmd, format_connect_cmd}
use cmpe156_network_programm.Chat.Server.Room.{leavewait}
use cmpe156_network_programm.Chat.Server.Refine.{message}
use cmpe156_network_programm.Chat.Wire.{format, format-message}
use cmpe156_network_programm.Chat.Client.Replies.{
  Dial, silent, no_such_client, call, connect_after_process,
}
use cmpe156_network_programm.Chat.Client.Input.{
  first_read, prompt, shutdown_listener, command_line, allowed_command, state_not_match_msg, Client,
  ClientState, normal, waiting, talking, Action, print, listen, write_server, connect_peer, Outcome,
  go, left, failed, World, should_command_work_with_state, do_wait, do_list, connect_to,
  connect_named, do_connect, after_connect, do_quit, do_command, do_message, process_line,
  starts_command, send_msg_to_peer, int_handler, interrupted,
}

-- The mode after a step; a program that has ended keeps its last.
unfoldable pub mode_after : ClientState → Outcome → ClientState
mode_after m (go c acts) = c.my_state
mode_after m (left c acts) = c.my_state
mode_after m failed = m

dials_in : List Action → Bool
dials_in [] = false
dials_in (connect_peer name ip port ∷ acts) = true
dials_in (a ∷ acts) = dials_in acts

listens_in : List Action → Bool
listens_in [] = false
listens_in (listen ∷ acts) = true
listens_in (a ∷ acts) = listens_in acts

-- Whether a step connects to a peer, or opens the listening socket.
unfoldable pub dials : Outcome → Bool
unfolding dials_in
dials (go c acts) = dials_in acts
dials (left c acts) = dials_in acts
dials failed = false

unfoldable pub listens : Outcome → Bool
unfolding listens_in
listens (go c acts) = listens_in acts
listens (left c acts) = listens_in acts
listens failed = false

-- The mode that a line leads to, by what it did.
abbrev pub led_to : ClientState → Outcome → ClientState
led_to m o = if dials o then talking else if listens o then waiting else m

-- The mode in which the client opens sockets to a peer.
abbrev pub may_open : ClientState → Bool
may_open normal = true
may_open waiting = false
may_open talking = false

-- What a line does: the mode follows its sockets, and it opens none unless the mode is normal.
pub record Moves (m : ClientState) (o : Outcome) : Type 0 where
  pub follows : mode_after m o ≡ led_to m o
  pub guarded : (dials o || listens o) ≡ (may_open m && (dials o || listens o))

do_wait-mode :
    (w : World) (c : Client) (o : Outcome)
    → do_wait w c ≡ ok o
    → mode_after c.my_state o ≡ led_to c.my_state o
unfolding do_wait mode_after dials listens
do_wait-mode w c o e = ground arith

do_list-mode :
    (w : World) (c : Client) (o : Outcome)
    → do_list w c ≡ ok o
    → (mode_after c.my_state o ≡ c.my_state) × (dials o ≡ false) × (listens o ≡ false)
unfolding do_list mode_after dials listens
do_list-mode w c o e = ground arith

after_connect-mode :
    (w : World) (c : Client) (buf : Bytes) (d : Dial) (o : Outcome)
    → after_connect w c buf d ≡ ok o
    → (mode_after c.my_state o ≡ led_to c.my_state o)
unfolding after_connect mode_after dials listens
after_connect-mode w c buf silent o e = ground arith
after_connect-mode w c buf no_such_client o e = ground arith
after_connect-mode w c buf (call n ip p) o e = ground arith

connect_to-mode :
    (w : World) (c : Client) (peer : Bytes) (o : Outcome)
    → connect_to w c peer ≡ ok o
    → mode_after c.my_state o ≡ led_to c.my_state o
unfolding connect_to
connect_to-mode w c peer o e =
    let asked = connect_after_process (first_read w.reads) in
    let (b, e1, e2) =
      bind-eq-ok (format_connect_cmd c.my_name peer)
        (λ (b : Bytes × ℕ). asked >>= λ dial. after_connect w c b.0 dial) e in
    let (dial, e3, e4) = bind-eq-ok asked (after_connect w c b.0) e2 in
    after_connect-mode w c b.0 dial o e4

connect_named-mode :
    (w : World) (c : Client) (peer : Option Bytes) (o : Outcome)
    → connect_named w c peer ≡ ok o
    → mode_after c.my_state o ≡ led_to c.my_state o
unfolding connect_named mode_after dials listens
connect_named-mode w c none o e = ground arith
connect_named-mode w c (some peer) o e = elim (Bool-cases (str_eq peer c.my_name)) [
  | inl self ↦ ground arith
  | inr other ↦ connect_to-mode w c peer o (rw other at e)
]

do_connect-mode :
    (w : World) (c : Client) (rest : Bytes) (o : Outcome)
    → do_connect w c rest ≡ ok o
    → mode_after c.my_state o ≡ led_to c.my_state o
unfolding do_connect
do_connect-mode w c rest o e =
    let (p, e1, e2) =
      bind-eq-ok (strtok [] rest) (λ (p : Option Bytes × Bytes). connect_named w c p.0) e in
    connect_named-mode w c p.0 o e2

do_quit-mode :
    (c : Client) (o : Outcome)
    → do_quit c ≡ ok o
    → (mode_after c.my_state o ≡ c.my_state) × (dials o ≡ false) × (listens o ≡ false)
unfolding do_quit mode_after dials listens
do_quit-mode c o e = ground arith

do_message-mode :
    (w : World) (c : Client) (input : Bytes) (m : ClientState) (o : Outcome)
    → do_message w c input m ≡ ok o
    → (mode_after c.my_state o ≡ c.my_state) × (dials o ≡ false) × (listens o ≡ false)
unfolding do_message send_msg_to_peer mode_after dials listens
do_message-mode w c input normal o e = ground arith
do_message-mode w c input waiting o e = ground arith
do_message-mode w c input talking o e = ground arith

-- A step that leaves the mode and opens nothing.
abbrev IsQuiet : ClientState → Outcome → Type 0
IsQuiet m o = (mode_after m o ≡ m) × (dials o ≡ false) × (listens o ≡ false)

quiet : (m : ClientState) (o : Outcome) → IsQuiet m o → Moves m o
quiet m o (e, d, l) = record { follows = ground arith; guarded = closed m }
  where
    closed : (k : ClientState) → (dials o || listens o) ≡ (may_open k && (dials o || listens o))
    closed normal = refl
    closed waiting = ground arith
    closed talking = ground arith

-- What is left of the commands outside the normal mode.
busy_command :
    (w : World) (c : Client) (cmd rest : Bytes) (o : Outcome)
    → should_command_work_with_state cmd talking ≡ true
    → do_command w c cmd rest ≡ ok o
    → IsQuiet c.my_state o
unfolding do_command should_command_work_with_state mode_after dials listens
busy_command w c cmd rest o works e = ground (arith, do_quit-mode c o)

-- A command that the mode allows.
do_command-Moves :
    (w : World) (c : Client) (cmd rest : Bytes) (o : Outcome) (m : ClientState)
    → m ≡ c.my_state
    → should_command_work_with_state cmd m ≡ true
    → do_command w c cmd rest ≡ ok o
    → Moves m o
unfolding do_command should_command_work_with_state
do_command-Moves w c cmd rest o normal em works e = record {
  follows =
      unfold mode_after dials listens in
      ground (
        arith,
        do_wait-mode w c o,
        do_list-mode w c o,
        do_connect-mode w c rest o,
        do_quit-mode c o,
      );
  guarded = refl;
}
do_command-Moves w c cmd rest o waiting em works e =
    rw em (quiet c.my_state o (busy_command w c cmd rest o works e))
do_command-Moves w c cmd rest o talking em works e =
    rw em (quiet c.my_state o (busy_command w c cmd rest o works e))

refused-IsQuiet :
    (c : Client) (o : Outcome)
    → ok (go c (print state_not_match_msg ∷ [])) ≡ ok o
    → IsQuiet c.my_state o
unfolding mode_after dials listens
refused-IsQuiet c o e = ground arith

allowed_command-Moves :
    (w : World) (c : Client) (cmd rest : Bytes) (o : Outcome)
    → allowed_command w c cmd rest ≡ ok o
    → Moves c.my_state o
unfolding allowed_command
allowed_command-Moves w c cmd rest o e =
    elim (Bool-cases (should_command_work_with_state cmd c.my_state)) [
      | inl works ↦ do_command-Moves w c cmd rest o c.my_state refl works (rw works at e)
      | inr refused ↦ quiet c.my_state o (refused-IsQuiet c o (rw refused at e))
    ]

command_line-Moves :
    (w : World) (c : Client) (input : Bytes) (o : Outcome)
    → command_line w c input ≡ ok o
    → Moves c.my_state o
unfolding command_line
command_line-Moves w c input o e =
    let (p, e1, e2) =
      bind-eq-ok (strtok (codes " ") (input ++ 0 ∷ []))
        (λ (p : Option Bytes × Bytes). deref p.0 >>= λ cmd. allowed_command w c cmd p.1) e in
    let (cmd, e3, e4) = bind-eq-ok (deref p.0) (λ (cmd : Bytes). allowed_command w c cmd p.1) e2 in
    allowed_command-Moves w c cmd p.1 o e4

-- Whenever a line is processed without a fault, the client's mode afterwards is talking if the
-- line connected to a peer, else waiting if it opened the listening socket, else the mode
-- before; and it does the first two only from the normal mode.
pub process_line-Moves :
    (w : World) (c : Client) (line : Option Bytes) (o : Outcome)
    → process_line w c line ≡ ok o
    → Moves c.my_state o
unfolding process_line
process_line-Moves w c none o e = cc
process_line-Moves w c (some input) o e = elim (Bool-cases (starts_command input)) [
  | inl slash ↦ command_line-Moves w c input o (rw slash at e)
  | inr text ↦ quiet c.my_state o (do_message-mode w c input c.my_state o (rw text at e))
]

-- The blocks that actions write to the server.
unfoldable pub server_gets : List Action → List Bytes
server_gets [] = []
server_gets (write_server b ∷ acts) = b ∷ server_gets acts
server_gets (a ∷ acts) = server_gets acts

-- What ^C tells the server: a waiting client waits no longer.
unfoldable pub farewell : ClientState → Bytes → List Bytes
farewell normal n = []
farewell talking n = []
farewell waiting n = message (leavewait n) ∷ []

format_leavewait-message :
    (n : Bytes)
    → format_leavewait_cmd n ≡ ok (message (leavewait n), length (message (leavewait n)))
format_leavewait-message n = unfold format in format-message (leavewait n) tt

interrupted-normal :
    (c : Client) (m : ClientState)
    → (d : Client) × (acts : List Action) × (interrupted c m ≡ ok (d, acts))
      × (d.my_state ≡ normal)
      × (server_gets acts ≡ farewell m c.my_name)
unfolding interrupted server_gets farewell
interrupted-normal c normal = (_, _, refl, refl, refl)
interrupted-normal c talking = (_, _, refl, refl, refl)
interrupted-normal c waiting = (
  record c { my_state = normal },
  write_server (message (leavewait c.my_name))
      ∷ shutdown_listener
      ∷ print (codes "\nLeave waiting state!\n" ++ prompt c)
      ∷ [],
  rw (format_leavewait-message c.my_name) refl,
  refl,
  refl,
)

-- ^C always ends without a fault in the normal mode; a waiting client writes the leave-wait
-- command to the server, and any other client writes nothing to it.
pub int_handler-normal :
    (c : Client)
    → (d : Client) × (acts : List Action) × (int_handler c ≡ ok (d, acts))
      × (d.my_state ≡ normal)
      × (server_gets acts ≡ farewell c.my_state c.my_name)
unfolding int_handler
int_handler-normal c = interrupted-normal c c.my_state
