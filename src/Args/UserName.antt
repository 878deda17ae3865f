-- ===== src/Args/UserName.antt =====
-- What the name of a chat client's command line is for the server.
use cmpe156_network_programm.Prelude.{
  ℕ, ◌≡◌, ◌≤◌, ◌<◌, ◌⊎◌, [], ◌∷◌, arith, ok, fault, null_pointer, ℤ, length,
}
use cmpe156_network_programm.Libc.Str.{Bytes, All}
use cmpe156_network_programm.Libc.Tok.{IsPlain}
use cmpe156_network_programm.Chat.Protocol.{check_user_name_length}
use cmpe156_network_programm.Chat.Server.{Server}
use cmpe156_network_programm.Chat.Server.Room.{Room, join, answer, Stands, Gives}
use cmpe156_network_programm.Chat.Server.{respond, received}
use cmpe156_network_programm.Chat.Wire.{format, respond-format, join_empty_faults}
use cmpe156_network_programm.Args.{Regex, matched, is_only_letters_or_numbers, name_pattern}
use cmpe156_network_programm.Args.Programs.{accepted, client_check_param, check_user_name}

abbrev pub IsLetterOrNumber : ℕ → Type 0
IsLetterOrNumber c =
    ((b'0' ≤ c) × (c ≤ b'9')) ⊎ ((b'A' ≤ c) × (c ≤ b'Z')) ⊎ ((b'a' ≤ c) × (c ≤ b'z'))

letters-IsPlain : (name : Bytes) → All IsLetterOrNumber name → All (IsPlain b':') name
letters-IsPlain [] a = tt
letters-IsPlain (c ∷ name) a = ((omega (arith, a.0), omega (arith, a.0)), letters-IsPlain name a.1)

check_user_name-accepted :
    (regex : Bytes → Bytes → Regex) (name : Bytes)
    → check_user_name regex name ≡ ok accepted
    → (length name < 16) × (regex name_pattern name ≡ matched)
unfolding check_user_name check_user_name_length is_only_letters_or_numbers
check_user_name-accepted regex name e = ground arith

client_check_param-name :
    (regex : Bytes → Bytes → Regex) (inet_pton : Bytes → ℤ) (program ip port name : Bytes)
    → client_check_param regex inet_pton (program ∷ ip ∷ port ∷ name ∷ []) ≡ ok accepted
    → check_user_name regex name ≡ ok accepted
unfolding client_check_param
client_check_param-name regex inet_pton program ip port name e = ground arith

-- What the server does with a JOIN: it follows NULL on an empty name, and does what the room
-- answers on any other.
abbrev pub Joins : Server → Room → Bytes → Bytes → Bytes → Type 0
Joins s r from [] buf = respond s from (received buf) ≡ fault null_pointer
Joins s r from (c ∷ name) buf =
    Gives (respond s from (received buf)) (answer r from (join (c ∷ name)))

join-Joins :
    (s : Server) (r : Room) (from name : Bytes)
    → Stands s r
    → All IsLetterOrNumber name
    → length name < 16
    → (buf : Bytes) × (format (join name) ≡ ok (buf, length buf)) × Joins s r from name buf
join-Joins s r from [] h a f = join_empty_faults s r from h
join-Joins s r from (c ∷ name) h a f =
    respond-format s r from (join (c ∷ name)) h ((λ e. cc), letters-IsPlain (c ∷ name) a, f) tt

-- Suppose that the regex library matches the user name's pattern with letters and digits only.
-- When the chat client's check_param accepts its arguments, the JOIN of the name is formatted,
-- and a server whose arrays hold a room follows NULL on it if the name is empty, and otherwise
-- does and writes what the room answers to the JOIN.
pub client_check_param-Joins :
    (regex : Bytes → Bytes → Regex) (inet_pton : Bytes → ℤ) (program ip port name from : Bytes)
    (s : Server) (r : Room)
    → ((t : Bytes) → regex name_pattern t ≡ matched → All IsLetterOrNumber t)
    → Stands s r
    → client_check_param regex inet_pton (program ∷ ip ∷ port ∷ name ∷ []) ≡ ok accepted
    → (buf : Bytes) × (format (join name) ≡ ok (buf, length buf)) × Joins s r from name buf
client_check_param-Joins regex inet_pton program ip port name from s r whole h e =
    let named = client_check_param-name regex inet_pton program ip port name e in
    let (short, matching) = check_user_name-accepted regex name named in
    join-Joins s r from name h (whole name matching) short
