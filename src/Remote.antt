-- ===== src/Remote.antt =====
-- The remote executer of hw2: client.c, server.c and executer.c. What popen gives for a command is a
-- parameter: the text that the command prints, or nothing, where popen fails.
pub mod Output
mod Tests
use cmpe156_network_programm.Prelude.{
  ℕ, zero, suc, ◌≡◌, Bool, true, false, List, [], ◌∷◌, ◌++◌, Option, none, some, Result, ok, fault,
  out_of_bounds, out_of_fuel, ◌>>=◌, length, ltb, ◌==◌, not, if◌then◌else◌,
}
use cmpe156_network_programm.Libc.Str.{Bytes, codes, str_eq, c_string, strcpy}
use cmpe156_network_programm.Libc.File.{fgets}

-- my_socket_package; its length is 1 in every package.
pub record Package : Type 0 where
  pub is_end : ℕ
  pub message : Bytes

-- The loop of execute over what the command prints: a package for each fgets.
unfoldable pub send_lines : ℕ → Bytes → Result (List Package)
send_lines zero text = fault out_of_fuel
send_lines (suc fuel) [] = ok []
send_lines (suc fuel) (c ∷ text) =
    let (line, rest, at_end) = fgets 1023 (c ∷ text) in
    c_string (line ++ 0 ∷ []) >>= λ message.
    send_lines fuel rest >>= λ packages. ok (record { is_end = 0; message = message } ∷ packages)

-- redir has 1029 bytes. With nothing from popen the server's process ends.
unfoldable pub execute : (Bytes → Option Bytes) → Bytes → Result (Option (List Package))
execute popen cmd = strcpy 1029 (some (cmd ++ codes " 2>&1")) >>= λ redir. elim (popen redir) [
  | none ↦ ok none
  | some text ↦ send_lines (suc (length text)) text >>= λ packages.
      ok (some (packages ++ record { is_end = 1; message = [] } ∷ []))
]

-- cmd_buf, with the NUL behind what was read.
unfoldable pub read_command : Bytes → Result Bytes
read_command block =
    if ltb (length block) 1024 then c_string (block ++ 0 ∷ []) else fault out_of_bounds

-- What the client's loop over the packages prints.
unfoldable pub print_packages : List Package → Bytes
print_packages [] = []
print_packages (p ∷ ps) =
    let rest = print_packages ps in p.message ++ (if p.is_end == 0 then rest else [])

-- What becomes of a line of input: it is too long; nothing is sent of an empty line, and both sides
-- wait; the client ends; the server ends; the output is printed.
pub data Event : Type 0 where
  too_long blocked finished server_gone : Event
  printed : Bytes → Event

-- A round of the client's loop, with the server's round on what it sends.
unfoldable pub on_input : (Bytes → Option Bytes) → Bytes → Result Event
on_input popen [] = ok blocked
on_input popen (c ∷ input) =
    if ltb 1024 (length (c ∷ input))
    then ok too_long
    else (read_command (c ∷ input) >>= λ cmd.
        if str_eq cmd (codes "exit")
        then ok finished
        else (execute popen cmd >>= λ sent.
            ok (elim sent [
              | none ↦ server_gone
              | some packages ↦ printed (print_packages packages)
            ])))

abbrev pub goes_on : Event → Bool
goes_on too_long = true
goes_on blocked = false
goes_on finished = false
goes_on server_gone = false
goes_on (printed text) = true

unfoldable pub session : (Bytes → Option Bytes) → List Bytes → Result (List Event)
session popen [] = ok []
session popen (input ∷ inputs) = on_input popen input >>= λ event.
    let rest = session popen inputs in
    if goes_on event then (rest >>= λ events. ok (event ∷ events)) else ok (event ∷ [])
