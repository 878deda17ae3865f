-- ===== src/Chat/Protocol.antt =====
-- pro/src/myprotocol.c: the commands that a client sends, as the memory blocks that hold them.
use cmpe156_network_programm.Prelude.{
  ℕ, ◌+◌, ◌-◌, Bool, true, false, [], ◌∷◌, ◌++◌, some, Result, ok, fault, out_of_bounds, ◌>>=◌,
  length, replicate, ℤ, ltb, if◌then◌else◌,
}
use cmpe156_network_programm.Libc.Str.{Bytes, strcpy}
use cmpe156_network_programm.Libc.Number.{format_d}

-- CLIENT_NAME_LENGTH, BUFFER_SIZE and SERVER_BUFF_SIZE
abbrev pub client_name_length : ℕ
client_name_length = 16

abbrev pub buffer_size : ℕ
buffer_size = 1024

-- A zeroed block of `size` bytes into which sprintf wrote a text, its NUL included.
unfoldable pub sprintf : ℕ → Bytes → Result Bytes
sprintf size text =
    if ltb (length text) size
    then ok (text ++ replicate (size - length text) 0)
    else fault out_of_bounds

-- The block, and what goes through `cmd_length`.
format_named : ℕ → Bytes → Result (Bytes × ℕ)
format_named letter my_name =
    let cmd_length = length my_name + 4 in
    sprintf cmd_length (letter ∷ b':' ∷ (my_name ++ b':' ∷ [])) >>= λ buf. ok (buf, cmd_length)

unfoldable pub format_join_cmd : Bytes → Result (Bytes × ℕ)
unfolding format_named
format_join_cmd = format_named b'a'

unfoldable pub format_wait_cmd : Bytes → ℤ → Result (Bytes × ℕ)
format_wait_cmd my_name port = strcpy 8 (some (format_d port)) >>= λ port_s.
    let cmd_length = length my_name + length port_s + 5 in
    sprintf cmd_length (b'w' ∷ b':' ∷ (my_name ++ b':' ∷ (port_s ++ b':' ∷ []))) >>= λ buf.
    ok (buf, cmd_length)

unfoldable pub format_quit_cmd : Bytes → Result (Bytes × ℕ)
unfolding format_named
format_quit_cmd = format_named b'q'

unfoldable pub format_list_cmd : Bytes → Result (Bytes × ℕ)
unfolding format_named
format_list_cmd = format_named b'l'

unfoldable pub format_connect_cmd : Bytes → Bytes → Result (Bytes × ℕ)
format_connect_cmd my_name peer_name =
    let cmd_length = length my_name + length peer_name + 5 in
    sprintf cmd_length (b'c' ∷ b':' ∷ (my_name ++ b':' ∷ (peer_name ++ b':' ∷ []))) >>= λ buf.
    ok (buf, cmd_length)

unfoldable pub format_leavewait_cmd : Bytes → Result (Bytes × ℕ)
unfolding format_named
format_leavewait_cmd = format_named b'r'

unfoldable pub check_user_name_length : Bytes → Bool
check_user_name_length name = if ltb (client_name_length - 1) (length name) then false else true
