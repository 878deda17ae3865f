-- ===== src/Transfer/Session.antt =====
-- A connection of the TCP downloader: the requests and the file check of HW3/mysocket.c, and the inner
-- loop of HW3/server.c.
use cmpe156_network_programm.Prelude.{
  ℕ, ◌+◌, ◌-◌, ◌≡◌, ◌≤◌, ◌<◌, refl, List, [], ◌∷◌, arith, Option, none, some, Result, ok, fault,
  indeterminate, lt→ltb, ◌>>=◌, ℤ, pos, negsuc, length, take, drop, if◌then◌else◌,
}
use cmpe156_network_programm.Libc.Str.{Bytes, NoNul, codes, str_eq, strcpy, strcpy_fits}
use cmpe156_network_programm.Transfer.Stream.{
  ServerPackage, buffer_size, server_upload_file, output_name, print_name, download_single_part,
}
use cmpe156_network_programm.Transfer.Ranges.{start_of}
use cmpe156_network_programm.Transfer.Table.{behind}
use cmpe156_network_programm.Transfer.Stream.Delivery.{IsSendable, server_upload_file-download}

-- struct client_package
pub record ClientPackage : Type 0 where
  pub cmd : Bytes
  pub file_name : Bytes
  pub start_prt : ℤ
  pub end_prt : ℤ

unfoldable pub client_check_file : Bytes → Result ClientPackage
client_check_file filename = strcpy buffer_size (some filename) >>= λ name.
    ok (record { cmd = codes "CHK"; file_name = name; start_prt = pos 0; end_prt = pos 0 })

unfoldable pub client_request_file : Bytes → ℤ → ℤ → Result ClientPackage
client_request_file filename start last = strcpy buffer_size (some filename) >>= λ name.
    ok (record { cmd = codes "DWN"; file_name = name; start_prt = start; end_prt = last })

-- What the server writes for a request: have_file_flag and file_length, or the packages of a part.
pub data Reply : Type 0 where
  checked : ℤ → ℕ → Reply
  part : List ServerPackage → Reply

-- The connection is served to its end, or the server's process ends with it.
pub data Served : Type 0 where
  closed exited : List Reply → Served

abbrev pub after : Reply → Served → Served
after r (closed rs) = closed (r ∷ rs)
after r (exited rs) = exited (r ∷ rs)

-- `files` is the directory: the content of each file that is there.
unfoldable pub server_response_check_file : (Bytes → Option Bytes) → Bytes → Reply
server_response_check_file files filename = elim (files filename) [
  | none ↦ checked (negsuc 0) 0
  | some file ↦ checked (pos 1) (length file)
]

-- The loop over the packages that the server reads. A part of a file that is not there ends the
-- process; `end` is the last byte's position, -1 for an empty part.
unfoldable pub serve : (Bytes → Option Bytes) → List ClientPackage → Result Served
serve files [] = ok (closed [])
serve files (p ∷ ps) =
    let rest = serve files ps in
    if str_eq p.cmd (codes "BYE")
    then ok (closed [])
    else if str_eq p.cmd (codes "CHK")
    then (rest >>= λ s. ok (after (server_response_check_file files p.file_name) s))
    else if str_eq p.cmd (codes "DWN")
    then elim (files p.file_name) [
      | none ↦ ok (exited [])
      | some file ↦
          server_upload_file file (start_of p.start_prt) (behind p.end_prt) >>= λ packages.
          rest >>= λ s. ok (after (part packages) s)
    ]
    else rest

check_there :
    (files : Bytes → Option Bytes) (name file : Bytes)
    → files name ≡ some file
    → server_response_check_file files name ≡ checked (pos 1) (length file)
unfolding server_response_check_file
check_there files name file there = rw (server_response_check_file, there) refl

-- For a name below 1024 bytes of a file without NUL bytes that is there, and a part of it that
-- ends inside it and is below 1024 bytes or not one more than a multiple of 1023, the client's
-- two requests are formatted, and the server answers them with the file's length and packages.
-- download_single_part on those reads its pointer name, to which nothing was ever assigned; where
-- that happens to point to an array with room for the name of the part's file, it writes the
-- part.
pub serve-download :
    (files : Bytes → Option Bytes) (name file : Bytes) (start last room : ℕ) (file_part : ℤ)
    → length name < 1024
    → length (output_name file_part) < room
    → files name ≡ some file
    → NoNul file
    → start ≤ last
    → last < length file
    → IsSendable (last + 1 - start)
    → (check : ClientPackage) × (request : ClientPackage) × (packages : List ServerPackage)
      × (client_check_file name ≡ ok check)
      × (client_request_file name (pos start) (pos last) ≡ ok request)
      × (serve files (check ∷ request ∷ [])
          ≡ ok (closed (checked (pos 1) (length file) ∷ part packages ∷ [])))
      × (download_single_part none file_part packages ≡ fault indeterminate)
      × (download_single_part (some room) file_part packages
          ≡ ok (take (last + 1 - start) (drop start file)))
unfolding client_check_file client_request_file serve str_eq download_single_part print_name
serve-download files name file start last room file_part short big there nn lo fits s =
    let (ps, e, d) =
      server_upload_file-download file start (last + 1) nn (omega arith) (omega arith) s in
    let copied = strcpy_fits 1024 name short in
    (
      record { cmd = codes "CHK"; file_name = name; start_prt = pos 0; end_prt = pos 0 },
      record { cmd = codes "DWN"; file_name = name; start_prt = pos start; end_prt = pos last },
      ps,
      rw copied refl,
      rw copied refl,
      rw (there, e, check_there files name file there) refl,
      refl,
      rw (lt→ltb (length (output_name file_part)) room big, d) refl,
    )
