-- ===== src/Transfer/Tests.antt =====
-- The file transfer's theorems at concrete inputs.
use cmpe156_network_programm.Prelude.{
  indeterminate, ℕ, ◌+◌, ◌-◌, ◌≡◌, refl, inr, zero, suc, List, [], ◌∷◌, take, drop, arith, none,
  some, ok, fault, out_of_bounds, length, length-replicate, replicate, pos,
}
use cmpe156_network_programm.Libc.Str.{Bytes, NoNul, codes}
use cmpe156_network_programm.DynArray.{null, ref}
use cmpe156_network_programm.DynArray.Refine.{Holds}
use cmpe156_network_programm.Transfer.Jobs.{Job, JobList, add_job_item}
use cmpe156_network_programm.Transfer.Stream.{ServerPackage, download_single_part}
use cmpe156_network_programm.Transfer.Pool.{
  Address, ServerList, Response, udp_download_file, Pool, fetching, testing, choosing, ended,
  advance, record_job,
}
use cmpe156_network_programm.Transfer.Pool.Interleave.{Threads, Steps, none_run, further, run}
use cmpe156_network_programm.Transfer.Pool.Stranded.{stranded}
use cmpe156_network_programm.Transfer.Datagram.{upload_part}
use cmpe156_network_programm.Transfer.Datagram.Delivery.{upload_part_overread}
use cmpe156_network_programm.Transfer.Stream.{is_last}
use cmpe156_network_programm.Libc.Str.{str_eq}
use cmpe156_network_programm.Prelude.{Bool, map, ◌==◌}
use cmpe156_network_programm.Transfer.Handshake.{
  verify_address_available, replies_of, answering, verify_address_available-Holds,
}
use cmpe156_network_programm.Prelude.{Option}
use cmpe156_network_programm.Libc.Number.{format_d}
use cmpe156_network_programm.Transfer.Session.{
  ClientPackage, client_check_file, client_request_file, serve, closed, checked, part,
  serve-download,
}

abbrev file : Bytes
file = codes "0123456789"

abbrev name : Bytes
name = codes "f"

abbrev job_a : Job
job_a = record { job_id = 0; file_name = name; file_start = pos 0; file_end = pos 4 }

abbrev job_b : Job
job_b = record { job_id = 1; file_name = name; file_start = pos 5; file_end = pos 9 }

abbrev long_file : Bytes
long_file = replicate 2047 b'x'

replicate-NoNul : (n : ℕ) → NoNul (replicate n b'x')
replicate-NoNul zero = tt
replicate-NoNul (suc n) = (omega arith, replicate-NoNul n)

long_file_size : length long_file ≡ 2047
long_file_size = length-replicate {A = ℕ} 2047 b'x'

upload_part_overread_example : upload_part long_file 5 2000 ≡ fault out_of_bounds
upload_part_overread_example =
    upload_part_overread long_file 5 2000 (replicate-NoNul 2047) (omega arith)
      (omega (arith, long_file_size))

-- A thread that downloads the only job.
abbrev server_a : Address
server_a = record { ip = codes "1.2.3.4"; port = 9000 }

abbrev no_servers : ServerList
no_servers = record { array = null ∷ null ∷ []; occupied = 0; size = 2 }

abbrev no_jobs : JobList
no_jobs = record { array = null ∷ []; occupied = 0; size = 1 }

abbrev done_job : JobList
done_job = record { array = ref job_a ∷ []; occupied = 1; size = 1 }

abbrev pool_before : Pool
pool_before = record { server_info_list = no_servers; chunk_jobs = no_jobs; done_jobs = no_jobs }

abbrev pool_after : Pool
pool_after = record { server_info_list = no_servers; chunk_jobs = no_jobs; done_jobs = done_job }

no_servers-Holds : Holds no_servers []
no_servers-Holds = record {
  spare = null ∷ null ∷ [];
  cells = refl;
  counted = refl;
  allocated = refl;
}

no_jobs-Holds : Holds no_jobs []
no_jobs-Holds = record { spare = null ∷ []; cells = refl; counted = refl; allocated = refl }

abbrev threads_before : Threads
threads_before = record { pool = pool_before; workers = fetching server_a job_a ∷ [] }

abbrev threads_after : Threads
threads_after = record { pool = pool_after; workers = testing server_a (some 0) ∷ [] }

abbrev last_response : Response
last_response = record { cmd = codes "DWN"; content_is_end = pos 1; file_content = codes "01234" }

download_step : Steps threads_before threads_after
unfolding advance record_job udp_download_file str_eq is_last add_job_item
download_step = further none_run (
    run [] (fetching server_a job_a) [] (last_response ∷ []) pool_after (testing server_a (some 0))
      refl refl refl refl)

stranded_example :
    (t : Threads) × Steps
      (record {
        pool = pool_before;
        workers = choosing server_a none ∷ fetching server_a job_a ∷ [];
      })
      t
    × (t.workers ≡ ended ∷ ended ∷ [])
    × Holds t.pool.chunk_jobs (job_a ∷ [])
stranded_example =
    stranded pool_before [] server_a server_a none job_a no_servers-Holds no_jobs-Holds
      (omega arith)

abbrev server_b : Address
server_b = record { ip = codes "5.6.7.8"; port = 9001 }

abbrev two_servers : ServerList
two_servers = record { array = ref server_a ∷ ref server_b ∷ null ∷ []; occupied = 2; size = 3 }

two_servers-Holds : Holds two_servers (server_a ∷ server_b ∷ [])
two_servers-Holds = record { spare = null ∷ []; cells = refl; counted = refl; allocated = refl }

-- The second server is up.
abbrev second_up : Address → Bool
second_up s = s.port == 9001

verify_address_available-Holds_example :
    (b : ServerList) × (verify_address_available
        (map (replies_of second_up) (server_a ∷ server_b ∷ []))
        two_servers
      ≡ ok b)
    × Holds b (answering second_up (server_a ∷ server_b ∷ []))
verify_address_available-Holds_example =
    verify_address_available-Holds second_up two_servers (server_a ∷ server_b ∷ [])
      two_servers-Holds

-- A directory of one file.
abbrev directory : Bytes → Option Bytes
directory n = some long_file

serve-download_example :
    (check : ClientPackage) × (request : ClientPackage) × (packages : List ServerPackage)
    × (client_check_file name ≡ ok check)
    × (client_request_file name (pos 0) (pos 1999) ≡ ok request)
    × (serve directory (check ∷ request ∷ [])
        ≡ ok (closed (checked (pos 1) (length long_file) ∷ part packages ∷ [])))
    × (download_single_part none (pos 3) packages ≡ fault indeterminate)
    × (download_single_part (some 15) (pos 3) packages
        ≡ ok (take (1999 + 1 - 0) (drop 0 long_file)))
unfolding format_d
serve-download_example =
    serve-download directory name long_file 0 1999 15 (pos 3) (omega arith) (omega arith) refl
      (replicate-NoNul 2047) (omega arith) (omega (arith, long_file_size)) (inr (omega arith))
