-- ===== src/Transfer/Tcp.antt =====
-- main of HW3/client.c: the connections, the question for the file, and the download or the farewell.
pub mod Run
use cmpe156_network_programm.Prelude.{
  ℕ, suc, ◌-◌, ◌≡◌, Bool, true, false, List, [], ◌∷◌, ◌++◌, Option, none, some, Result, ok, ◌>>=◌,
  ◌==◌, ltb, length, replicate, if◌then◌else◌, ℤ, pos, negsuc,
}
use cmpe156_network_programm.Libc.Str.{Bytes, codes}
use cmpe156_network_programm.Transfer.Stream.{is_last}
use cmpe156_network_programm.Transfer.Session.{
  Reply, checked, part, Served, closed, exited, client_check_file, serve,
}
use cmpe156_network_programm.Transfer.Servers.{Tail}
use cmpe156_network_programm.Transfer.Table.{connect_from, valid_conn, download_file}

abbrev pub max_sock_size : ℕ
max_sock_size = 1024

-- `sockets` behind the loop of connections: `{-1}` sets the first cell only, and the others to 0.
unfoldable pub sockets_of : List ℤ → List ℤ
sockets_of [] = negsuc 0 ∷ replicate (max_sock_size - 1) (pos 0)
sockets_of (s ∷ tried) = (s ∷ tried) ++ replicate (max_sock_size - length (s ∷ tried)) (pos 0)

-- How main ends: by failHandler, with what download_file leaves in result.txt, with the descriptors to
-- which BYE is written before they are closed, or without a package that it knows.
pub data Finished : Type 0 where
  failed : Bytes → Finished
  downloaded : Option Bytes → Finished
  dismissed : List ℤ → Finished
  unanswered : Finished

-- `sockets[socketidx] >= 0`
unfoldable pub dismiss : List ℤ → List ℤ
dismiss [] = []
dismiss (pos s ∷ socks) = pos s ∷ dismiss socks
dismiss (negsuc s ∷ socks) = dismiss socks

abbrev first_reply : List Reply → Option Reply
first_reply [] = none
first_reply (r ∷ rs) = some r

-- What the server at the other end has written when it has read the package.
abbrev pub reply_of : Served → Option Reply
reply_of (closed rs) = first_reply rs
reply_of (exited rs) = first_reply rs

unfoldable pub check_file : (Bytes → Option Bytes) → Bytes → Result (Option Reply)
check_file files target_file = client_check_file target_file >>= λ write_buf.
    serve files (write_buf ∷ []) >>= λ s. ok (reply_of s)

-- The answer, on the sockets; `file` is what the servers send parts of.
unfoldable pub on_reply : Option ℕ → Bytes → Bytes → List ℤ → Bytes → Option Reply → Result Finished
on_reply room behind_buf file tried target_file none = ok unanswered
on_reply room behind_buf file tried target_file (some (part packages)) = ok unanswered
on_reply room behind_buf file tried target_file (some (checked have_file_flag file_length)) =
    let sockets = sockets_of tried in
    if is_last have_file_flag
    then (download_file room behind_buf file sockets target_file file_length (valid_conn tried)
        >>= λ result. ok (downloaded result))
    else ok (dismissed (dismiss sockets))

-- main up to clean_server_info. `room` is what the unset `name` of download_single_part holds,
-- `behind_buf` the unused bytes behind combine_file's buffer, `tail` the end of read_server_info's list,
-- `outcomes` what build_connection gives for each server, `files` the servers' directory.
unfoldable pub main_client :
    Option ℕ → Bytes → (Bytes → Option Bytes) → Bytes → ℕ → Tail → List ℤ → Bytes → Result Finished
main_client room behind_buf files file max_num tail outcomes target_file =
    let valid_ips = length outcomes in
    let connection_num = if ltb max_num valid_ips then max_num else valid_ips in
    connect_from tail max_sock_size connection_num outcomes >>= λ tried.
    if valid_conn tried == 0
    then ok (failed (codes "No valid connection!"))
    else (check_file files target_file >>= λ reply.
        on_reply room behind_buf file tried target_file reply)
