-- ===== src/Chat/Client/Replies.antt =====
-- What the client reads from the server: check_name_conflict, process_waiting_list and
-- print_waiting_list of pro/src/client_util.c, connect_after_process of pro/src/client.c.
use cmpe156_network_programm.Prelude.{
  ℕ, zero, suc, ◌+◌, ◌-◌, Bool, false, ◌&&◌, ◌||◌, List, [], ◌∷◌, ◌++◌, Option, none, some, Result,
  ok, fault, out_of_bounds, ◌>>=◌, deref, load, length, replicate, ℤ, pos, negsuc, ◌==◌, ltb,
  if◌then◌else◌,
}
use cmpe156_network_programm.Prelude.{take, drop, ◌^◌, ◌%◌}
use cmpe156_network_programm.Libc.Str.{Bytes, codes, str_eq, c_string}
use cmpe156_network_programm.Libc.Tok.{strtok}
use cmpe156_network_programm.Libc.Number.{atoi}
use cmpe156_network_programm.Chat.Protocol.{sprintf, buffer_size, client_name_length}

-- A zeroed buffer of 1024 bytes after one read.
abbrev pub read_buffer : Bytes → Bytes
read_buffer chunk = chunk ++ replicate (buffer_size - length chunk) 0

-- What goes to the server, and the result: 1, 0 or -1. The reply is what read returns, if it
-- returns anything.
unfoldable pub check_name_conflict : Bytes → Option Bytes → Result (Bytes × ℤ)
check_name_conflict my_name reply =
    sprintf buffer_size (b'a' ∷ b':' ∷ (my_name ++ b':' ∷ [])) >>= λ buf. elim reply [
      | none ↦ ok (buf, negsuc 0)
      | some chunk ↦ c_string (read_buffer chunk) >>= λ text. ok (
        buf,
        if str_eq text (codes "a:c::")
            then pos 1
            else if str_eq text (codes "a:r::")
            then pos 0
            else negsuc 0,
      )
    ]

-- strncpy of `n` bytes into `name`, sixteen zeroed bytes, and its use as a string.
unfoldable pub copy_name : Bytes → ℕ → ℕ → Result Bytes
copy_name list i n =
    if ltb n client_name_length then ok (take n (drop i list)) else fault out_of_bounds

-- The loop of print_waiting_list by the rounds left, over the memory from `list` on; each line is
-- its number and the name.
unfoldable pub print_waiting : ℕ → Bytes → ℕ → ℕ → ℕ → Result (List (ℕ × Bytes))
print_waiting zero list i j idx = ok []
print_waiting (suc k) list i j idx =
    let ended = print_waiting k list (j + 1) (j + 1) (idx + 1) in
    let longer = print_waiting k list i (j + 1) idx in
    load list j >>= λ c.
    if c == b':'
    then (copy_name list i (j - i) >>= λ name. ended >>= λ lines. ok ((idx, name) ∷ lines))
    else longer

-- `strlen(list) - 1` is computed in size_t. The memory is the text, its NUL and `spare` zeros.
unfoldable pub print_waiting_list : Bytes → ℕ → Result (List (ℕ × Bytes))
print_waiting_list list spare =
    let bound = (length list + 2 ^ 64 - 1) % 2 ^ 64 in
    print_waiting (bound - 3) (list ++ replicate (suc spare) 0) 2 3 1

-- strstr(s, "::") finds something
unfoldable pub starts_end : Bytes → Bool
starts_end [] = false
starts_end (x ∷ []) = false
starts_end (x ∷ y ∷ t) = x == b':' && y == b':'

unfoldable pub has_end : Bytes → Bool
unfolding starts_end
has_end [] = false
has_end (c ∷ s) = starts_end (c ∷ s) || has_end s

-- The reads of process_waiting_list, after `idx` of them: the text collected, or none when the
-- first says that nobody waits. `buf[rt] = 0` needs a byte behind what was read.
unfoldable pub collect_list : List Bytes → ℕ → Bytes → Result (Option Bytes)
collect_list [] idx whole = ok (some whole)
collect_list (chunk ∷ chunks) idx whole =
    let later = λ (buf : Bytes). collect_list chunks (idx + 1) (whole ++ buf) in
    if ltb (length chunk) buffer_size
    then (c_string (chunk ++ 0 ∷ []) >>= λ buf.
        if str_eq buf (codes "l::") && idx == 0
        then ok none
        else if has_end buf
        then ok (some (whole ++ buf))
        else later buf)
    else fault out_of_bounds

-- The lines shown, or none for the hint that nobody waits. The list stands in a zeroed block of
-- 1024 bytes for each read.
unfoldable pub process_waiting_list : List Bytes → Result (Option (List (ℕ × Bytes)))
process_waiting_list chunks = collect_list chunks 0 [] >>= λ whole. elim whole [
  | none ↦ ok none
  | some list ↦ print_waiting_list list (buffer_size - 1 - length list) >>= λ lines. ok (some lines)
]

-- The reply to a CONNECT: nothing read, a peer that is gone, or whom to call where.
pub data Dial : Type 0 where
  silent no_such_client : Dial
  call : Option Bytes → Option Bytes → ℤ → Dial

-- On the buffer that the read filled.
unfoldable pub connect_after_process_text : Bytes → Result Dial
connect_after_process_text buf = c_string buf >>= λ text.
    if str_eq text (codes "c::")
    then ok no_such_client
    else (strtok (b':' ∷ []) buf >>= λ (command, s1). strtok (b':' ∷ []) s1 >>= λ (peer_name, s2).
        strtok (b':' ∷ []) s2 >>= λ (peer_ip, s3). strtok (b':' ∷ []) s3 >>= λ (peer_port, s4).
        deref peer_port >>= λ port. atoi port >>= λ p. ok (call peer_name peer_ip p))

unfoldable pub connect_after_process : Option Bytes → Result Dial
connect_after_process none = ok silent
connect_after_process (some chunk) = connect_after_process_text (read_buffer chunk)
