-- ===== src/Transfer/Table.antt =====
-- The table of parts of HW3/client.c: the connections of main, thread_param_array in download_file, and
-- thread_download.
pub mod Equal
pub mod Whole
use cmpe156_network_programm.Prelude.{
  ℕ, zero, suc, ◌+◌, ◌-◌, ◌*◌, ◌/◌, ◌≡◌, Bool, true, false, List, [], ◌∷◌, ◌++◌, Option, none, some,
  Result, ok, fault, indeterminate, ◌>>=◌, ◌==◌, if◌then◌else◌, ℤ, pos, negsuc,
}
use cmpe156_network_programm.Libc.Str.{Bytes}
use cmpe156_network_programm.Transfer.Ranges.{before, start_of}
use cmpe156_network_programm.Transfer.Stream.{server_upload_file, download_single_part}
use cmpe156_network_programm.Transfer.Combine.{combine_from}
use cmpe156_network_programm.Transfer.Servers.{Tail, unset, unwritten}

-- The loop's test behind the last server, with `room` cells and `connection_num` connections left:
-- `cur->next != NULL` reads a pointer that was never set, or build_connection a node that was never
-- written.
unfoldable pub connect_behind : Tail → ℕ → ℕ → Result (List ℤ)
connect_behind unset room connection_num = fault indeterminate
connect_behind unwritten zero connection_num = ok []
connect_behind unwritten (suc room) zero = ok []
connect_behind unwritten (suc room) (suc n) = fault indeterminate

-- main's loop over the servers: what build_connection gives for each, up to `connection_num`
-- connections in an array of `room` cells. The result is what is written into `sockets`.
unfoldable pub connect_from : Tail → ℕ → ℕ → List ℤ → Result (List ℤ)
connect_from tail room connection_num [] = connect_behind tail room connection_num
connect_from tail zero connection_num (sock ∷ servers) = ok []
connect_from tail (suc room) zero (sock ∷ servers) = ok []
connect_from tail (suc room) (suc n) (pos s ∷ servers) =
    connect_from tail room n servers >>= λ tried. ok (pos s ∷ tried)
connect_from tail (suc room) (suc n) (negsuc s ∷ servers) =
    connect_from tail room (suc n) servers >>= λ tried. ok (negsuc s ∷ tried)

-- valid_conn
unfoldable pub valid_conn : List ℤ → ℕ
valid_conn [] = 0
valid_conn (pos s ∷ socks) = suc (valid_conn socks)
valid_conn (negsuc s ∷ socks) = valid_conn socks

-- struct thread_param
pub record ThreadParam : Type 0 where
  pub thread_id : ℕ
  pub socketfd : ℤ
  pub filename : Bytes
  pub file_part : ℤ
  pub file_start : ℤ
  pub file_end : ℤ

-- The loop of download_file from index `i` on, `valid_part` parts being given.
unfoldable pub fill_from : ℕ → ℕ → List ℤ → Bytes → ℕ → ℕ → ℕ → List ThreadParam
fill_from i valid_part [] filename filesize threadsnum single = []
fill_from i valid_part (negsuc s ∷ socks) filename filesize threadsnum single =
    record {
      thread_id = i;
      socketfd = negsuc s;
      filename = filename;
      file_part = negsuc 0;
      file_start = negsuc 0;
      file_end = negsuc 0;
    }
    ∷ fill_from (i + 1) valid_part socks filename filesize threadsnum single
fill_from i valid_part (pos s ∷ socks) filename filesize threadsnum single =
    record {
      thread_id = i;
      socketfd = pos s;
      filename = filename;
      file_part = pos valid_part;
      file_start = pos (valid_part * single);
      file_end =
          if valid_part == threadsnum - 1
          then before filesize
          else before ((valid_part + 1) * single);
    }
    ∷ fill_from (i + 1) (valid_part + 1) socks filename filesize threadsnum single

unfoldable pub thread_params : List ℤ → Bytes → ℕ → ℕ → List ThreadParam
thread_params sockets filename filesize threadsnum =
    fill_from 0 0 sockets filename filesize threadsnum (filesize / threadsnum)

-- One past the last byte. The last byte is at -1 where a part is empty.
abbrev pub behind : ℤ → ℕ
behind (pos n) = n + 1
behind (negsuc n) = 0

-- `socketfd <= 0`
abbrev pub is_active : ℤ → Bool
is_active (pos zero) = false
is_active (pos (suc s)) = true
is_active (negsuc s) = false

-- A thread, whose server has the file: the number of the file that it writes, and its content.
-- `room` is what `name` of download_single_part holds.
unfoldable pub thread_download : Option ℕ → Bytes → ThreadParam → Result (Option (ℤ × Bytes))
thread_download room file p =
    if is_active p.socketfd
    then (server_upload_file file (start_of p.file_start) (behind p.file_end) >>= λ packages.
        download_single_part room p.file_part packages >>= λ content.
        ok (some (p.file_part, content)))
    else ok none

-- The files that the threads write.
unfoldable pub run_threads : Option ℕ → Bytes → List ThreadParam → Result (List (ℤ × Bytes))
run_threads room file [] = ok []
run_threads room file (p ∷ ps) = thread_download room file p >>= λ written.
    run_threads room file ps >>= λ outputs.
    ok (elim written [ none ↦ outputs | some o ↦ o ∷ outputs ])

-- fopen of "output.i"
unfoldable pub open_output : ℕ → List (ℤ × Bytes) → Option Bytes
open_output i [] = none
open_output i ((negsuc n, content) ∷ outputs) = open_output i outputs
open_output i ((pos n, content) ∷ outputs) =
    let later = open_output i outputs in if n == i then some content else later

-- What combine_file leaves in result.txt; `behind` are the unused bytes behind its buffer.
unfoldable pub combine_file : Bytes → ℕ → List (ℤ × Bytes) → Result (Option Bytes)
combine_file behind totalsize outputs = combine_from behind totalsize 0 (λ i. open_output i outputs)

-- What download_file leaves in result.txt.
unfoldable pub download_file :
    Option ℕ → Bytes → Bytes → List ℤ → Bytes → ℕ → ℕ → Result (Option Bytes)
download_file room behind_buf file sockets filename filesize threadsnum =
    run_threads room file (thread_params sockets filename filesize threadsnum) >>= λ outputs.
    combine_file behind_buf threadsnum outputs
