-- ===== src/Args/Tests.antt =====
-- Examples of the tests of the command lines.
use cmpe156_network_programm.Prelude.{
  ℕ, zero, suc, Option, ◌⊎◌, ◌≡◌, ◌<◌, refl, Bool, true, ◌&&◌, ◌||◌, [], ◌∷◌, some, none, arith, ok,
  ℤ, pos, length, leb, if◌then◌else◌,
}
use cmpe156_network_programm.Libc.Str.{Bytes, codes, All, str_eq, strcpy}
use cmpe156_network_programm.Libc.Number.{format_d, atoi}
use cmpe156_network_programm.Chat.Protocol.{check_user_name_length}
use cmpe156_network_programm.Chat.Server.{init_server}
use cmpe156_network_programm.Chat.Server.Room.{empty_room, join}
use cmpe156_network_programm.Chat.Server.Room.{init_server-Stands}
use cmpe156_network_programm.Chat.Wire.{format}
use cmpe156_network_programm.Args.{
  Regex, matched, no_match, name_pattern, is_valid_ip, is_number, is_only_letters_or_numbers,
  is_valid_port, has_file,
}
use cmpe156_network_programm.Args.Programs.{
  accepted, refused, client_check_param, check_user_name, tool_options, tool_option,
  server_check_param, download_check_param,
}
use cmpe156_network_programm.Args.Listening.{
  IsBind, turned_down, listening, listening_port, WrapsTo, listening_port-WrapsTo,
}
use cmpe156_network_programm.Args.UserName.{IsLetterOrNumber, Joins, client_check_param-Joins}

abbrev is_letter_or_number : ℕ → Bool
is_letter_or_number c =
    leb b'0' c && leb c b'9' || leb b'A' c && leb c b'Z' || leb b'a' c && leb c b'z'

abbrev all_letters : Bytes → Bool
all_letters [] = true
all_letters (c ∷ t) = is_letter_or_number c && all_letters t

-- The two patterns, the one of an address taken to match.
abbrev two_patterns : Bytes → Bytes → Regex
two_patterns p t =
    if str_eq p name_pattern then (if all_letters t then matched else no_match) else matched

abbrev dotted : Bytes → ℤ
dotted t = pos 1

all_letters-All : (t : Bytes) → all_letters t ≡ true → All IsLetterOrNumber t
all_letters-All [] e = tt
all_letters-All (c ∷ t) e = (ground arith, all_letters-All t (ground arith))

two_patterns-whole : (t : Bytes) → two_patterns name_pattern t ≡ matched → All IsLetterOrNumber t
unfolding str_eq
two_patterns-whole t e = all_letters-All t (ground arith)

abbrev joe : Bytes
joe = codes "Joe7"

client_check_param-Joins_example :
    (buf : Bytes) × (format (join joe) ≡ ok (buf, length buf))
    × Joins init_server empty_room (codes "1.2.3.4") joe buf
unfolding client_check_param check_user_name check_user_name_length is_only_letters_or_numbers
    is_valid_ip is_number atoi str_eq
client_check_param-Joins_example =
    client_check_param-Joins two_patterns dotted (codes "./client") (codes "1.2.3.4") (codes "4000")
      joe (codes "1.2.3.4") init_server empty_room two_patterns-whole init_server-Stands refl

-- A system that grants every port, and gives 40000 for port 0.
abbrev grant : ℕ → Option ℕ
grant zero = some 40000
grant (suc n) = some (suc n)

grant-IsBind : IsBind grant
grant-IsBind zero q h e = absurd (omega arith)
grant-IsBind (suc p) q h e = ground arith

listening_port-WrapsTo_example :
    (listening_port grant (codes "./server" ∷ format_d (pos 65616) ∷ []) ≡ ok (listening 80))
    × (((80 < 65536) × WrapsTo (pos 65616) 80) ⊎ (WrapsTo (pos 65616) 0 × (grant 0 ≡ some 80)))
listening_port-WrapsTo_example =
    listening_port-WrapsTo grant (codes "./server") (pos 65616) 80 grant-IsBind (omega arith) refl
      refl

-- 65616 stands for port 80, 65536 for a port that the system picks, and a word without digits for no
-- port.
wrapped_port : listening_port grant (codes "./server" ∷ codes "65616" ∷ []) ≡ ok (listening 80)
unfolding listening_port server_check_param is_valid_port atoi
wrapped_port = refl

picked_port : listening_port grant (codes "./server" ∷ codes "65536" ∷ []) ≡ ok (listening 40000)
unfolding listening_port server_check_param is_valid_port atoi
picked_port = refl

no_port :
    listening_port grant (codes "./server" ∷ codes "http" ∷ [])
    ≡ ok (turned_down (codes "Please use legal port number!"))
unfolding listening_port server_check_param is_valid_port atoi
no_port = refl

head_request :
    tool_options two_patterns dotted
      (codes "./myweb" ∷ codes "1.2.3.4" ∷ codes "host" ∷ codes "-h" ∷ [])
    ≡ ok (accepted, codes "1.2.3.4", true)
unfolding tool_options tool_option str_eq is_valid_ip strcpy
head_request = refl

no_info :
    download_check_param (λ f. none) (codes "./client" ∷ codes "info" ∷ codes "4" ∷ codes "f" ∷ [])
    ≡ ok (refused (codes "Please input correct server-info.txt!"))
unfolding download_check_param has_file
no_info = refl
