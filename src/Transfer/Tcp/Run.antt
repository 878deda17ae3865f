-- ===== src/Transfer/Tcp/Run.antt =====
-- A whole run of HW3/client.c's main.
use cmpe156_network_programm.Prelude.{
  ℕ, zero, suc, ◌-◌, ◌≡◌, ◌<◌, refl, ap, ◌∙◌, false, List, [], ◌∷◌, ◌++◌, arith, Option, none, some,
  Result, ok, fault, indeterminate, ◌>>=◌, ◌==◌, ltb, length, replicate, if◌then◌else◌, ℤ, pos,
  negsuc,
}
use cmpe156_network_programm.Libc.Str.{Bytes, All, NoNul, str_eq, strcpy_fits}
use cmpe156_network_programm.Transfer.Ranges.{jobs_of}
use cmpe156_network_programm.Transfer.Stream.{is_last}
use cmpe156_network_programm.Transfer.Session.{
  Reply, checked, client_check_file, serve, server_response_check_file,
}
use cmpe156_network_programm.Transfer.Table.{connect_from, valid_conn}
use cmpe156_network_programm.Transfer.Table.Equal.{IsOutcome, sockets_array}
use cmpe156_network_programm.Transfer.Table.Whole.{
  HasRoom, IsSendableJob, download_file-whole, download_file_unset,
}
use cmpe156_network_programm.Transfer.Combine.Parts.{copied}
use cmpe156_network_programm.Transfer.Servers.{Tail}
use cmpe156_network_programm.Transfer.Tcp.{
  max_sock_size, sockets_of, downloaded, dismissed, dismiss, check_file, on_reply, main_client,
}

-- What main's loop over the servers gives.
abbrev pub tried_of : ℕ → Tail → List ℤ → Result (List ℤ)
tried_of max_num tail outcomes =
    connect_from tail max_sock_size
      (if ltb max_num (length outcomes) then max_num else length outcomes) outcomes

-- A file that is there or not, as its server reports it.
abbrev pub reported : Option Bytes → Reply
reported none = checked (negsuc 0) 0
reported (some file) = checked (pos 1) (length file)

server_response-reported :
    (files : Bytes → Option Bytes) (name : Bytes) (found : Option Bytes)
    → files name ≡ found
    → server_response_check_file files name ≡ reported found
unfolding server_response_check_file
server_response-reported files name none e = rw (server_response_check_file, e) refl
server_response-reported files name (some file) e = rw (server_response_check_file, e) refl

check_file-reported :
    (files : Bytes → Option Bytes) (name : Bytes) (found : Option Bytes)
    → length name < 1024
    → files name ≡ found
    → check_file files name ≡ ok (some (reported found))
unfolding check_file client_check_file serve str_eq
check_file-reported files name found short e =
    rw (strcpy_fits 1024 name short, server_response-reported files name found e) refl

main_client-on_reply :
    (room : Option ℕ) (behind_buf : Bytes) (files : Bytes → Option Bytes) (file : Bytes)
    (max_num : ℕ) (tail : Tail) (outcomes tried : List ℤ) (name : Bytes) (found : Option Bytes)
    → tried_of max_num tail outcomes ≡ ok tried
    → 0 < valid_conn tried
    → length name < 1024
    → files name ≡ found
    → main_client room behind_buf files file max_num tail outcomes name
      ≡ on_reply room behind_buf file tried name (some (reported found))
unfolding main_client
main_client-on_reply room behind_buf files file max_num tail outcomes tried name found run there
      short e =
    let some_valid : (valid_conn tried == 0) ≡ false = ground arith in
    rw (run, some_valid, check_file-reported files name found short e) refl

sockets_of-array :
    (tried : List ℤ)
    → 0 < valid_conn tried
    → sockets_of tried ≡ sockets_array tried (max_sock_size - length tried)
unfolding sockets_of valid_conn
sockets_of-array [] h = absurd (omega arith)
sockets_of-array (s ∷ tried) h = refl

downloaded-copied :
    (behind_buf file : Bytes)
    → ((copied behind_buf file >>= λ s. ok (some s)) >>= λ result. ok (downloaded result))
      ≡ (copied behind_buf file >>= λ s. ok (downloaded (some s)))
downloaded-copied behind_buf [] = refl
downloaded-copied [] (c ∷ file) = refl
downloaded-copied (b ∷ behind_buf) (c ∷ file) = refl

-- Let the servers have the file without NUL bytes, its name be below 1024 bytes, main's loop
-- over the servers end without a fault and make at least one connection, none of them on
-- descriptor 0, and each part be below 1024 bytes or not one more than a multiple of 1023. Then main asks for the file and starts the
-- threads, which read the pointer name of download_single_part, to which nothing was ever
-- assigned. Where that happens to point to an array with room for the names of the parts' files,
-- result.txt is the file if it is empty or a byte behind the buffer of combine_file is unused, and
-- otherwise combine_file writes behind its buffer.
pub main_client-whole :
    (room : ℕ) (behind_buf : Bytes) (files : Bytes → Option Bytes) (max_num : ℕ) (tail : Tail)
    (outcomes tried : List ℤ) (name file : Bytes)
    → tried_of max_num tail outcomes ≡ ok tried
    → All IsOutcome tried
    → 0 < valid_conn tried
    → HasRoom room (valid_conn tried)
    → length name < 1024
    → files name ≡ some file
    → NoNul file
    → All IsSendableJob (jobs_of (valid_conn tried) name (length file))
    → (main_client none behind_buf files file max_num tail outcomes name ≡ fault indeterminate)
      × (main_client (some room) behind_buf files file max_num tail outcomes name
          ≡ (copied behind_buf file >>= λ s. ok (downloaded (some s))))
unfolding on_reply is_last
main_client-whole room behind_buf files max_num tail outcomes tried name file run a there big short
      found nn s =
    let untried = max_sock_size - length tried in
    (
      main_client-on_reply none behind_buf files file max_num tail outcomes tried name (some file)
            run there short found
          ∙ rw
              (
                sockets_of-array tried there,
                download_file_unset behind_buf tried untried file name a there nn s,
              )
              refl,
      main_client-on_reply (some room) behind_buf files file max_num tail outcomes tried name
            (some file) run there short found
          ∙ rw
              (
                sockets_of-array tried there,
                download_file-whole room behind_buf tried untried file name a there big nn s,
              )
              (downloaded-copied behind_buf file),
    )

-- The connections that are there.
unfoldable pub connected : List ℤ → List ℤ
connected [] = []
connected (negsuc s ∷ tried) = connected tried
connected (pos s ∷ tried) = pos s ∷ connected tried

dismiss-zeros : (k : ℕ) → dismiss (replicate k (pos 0)) ≡ replicate k (pos 0)
unfolding dismiss
dismiss-zeros zero = refl
dismiss-zeros (suc k) = ap (λ l. pos 0 ∷ l) (dismiss-zeros k)

dismiss-array :
    (tried : List ℤ) (k : ℕ)
    → dismiss (sockets_array tried k) ≡ connected tried ++ replicate k (pos 0)
unfolding dismiss connected
dismiss-array [] k = dismiss-zeros k
dismiss-array (pos s ∷ tried) k = ap (λ l. pos s ∷ l) (dismiss-array tried k)
dismiss-array (negsuc s ∷ tried) k = dismiss-array tried k

-- When the servers do not have the file, its name is below 1024 bytes, and main's loop over the
-- servers ends without a fault and makes at least one connection, main writes BYE to every
-- connection and closes it, and does the same to descriptor 0 once for every cell of sockets
-- behind the tried ones.
pub main_client_missing :
    (room : Option ℕ) (behind_buf : Bytes) (files : Bytes → Option Bytes) (max_num : ℕ)
    (tail : Tail) (outcomes tried : List ℤ) (name file : Bytes)
    → tried_of max_num tail outcomes ≡ ok tried
    → 0 < valid_conn tried
    → length name < 1024
    → files name ≡ none
    → main_client room behind_buf files file max_num tail outcomes name
      ≡ ok (dismissed (connected tried ++ replicate (max_sock_size - length tried) (pos 0)))
unfolding on_reply is_last
main_client_missing room behind_buf files max_num tail outcomes tried name file run there short
      lacks =
    main_client-on_reply room behind_buf files file max_num tail outcomes tried name none run there
      short lacks
    ∙ ap (λ l. ok (dismissed l))
        (ap dismiss (sockets_of-array tried there)
          ∙ dismiss-array tried (max_sock_size - length tried))
