-- ===== src/Transfer/UdpTests.antt =====
-- The theorems on a whole download over UDP at concrete inputs.
use cmpe156_network_programm.Prelude.{
  ℕ, ◌-◌, map, List, [], ◌∷◌, ◌++◌, ◌≡◌, arith, refl, Option, none, some, ok, fault, out_of_bounds,
  pos, length, inl, replicate, if◌then◌else◌,
}
use cmpe156_network_programm.Libc.Str.{Bytes, codes, str_eq, strcpy, c_string, no_nul-NoNul, All}
use cmpe156_network_programm.DynArray.{ref, null, get_item, remove_item, shift}
use cmpe156_network_programm.DynArray.Refine.{Holds}
use cmpe156_network_programm.Transfer.Jobs.{
  Job, JobList, add_job_item, init_job_array, pop_job_item, get_job_item, remove_job_item,
}
use cmpe156_network_programm.Transfer.Stream.{is_last}
use cmpe156_network_programm.Transfer.Datagram.{upload_part, upload, datagram}
use cmpe156_network_programm.Transfer.Ranges.{
  jobs_of, jobs_from, job_of, create_jobs_list, create_from,
}
use cmpe156_network_programm.Libc.Number.{format_d, digits, decimal, atol}
use cmpe156_network_programm.Libc.Tok.{strtok, skip, span}
use cmpe156_network_programm.Transfer.Pool.{
  Address, ServerList, Worker, starting, testing, choosing, fetching, Response, advance,
  take_server, get_server_item, remove_server_item, take_job, record_job, udp_download_file,
}
use cmpe156_network_programm.Transfer.Pool.Interleave.{Threads}
use cmpe156_network_programm.Transfer.Requests.{
  exists_request, handle_request, request_buf, on_check, on_download, download_request,
}
use cmpe156_network_programm.Transfer.Udp.{
  Temp, Download, Move, Moves, run, no_move, further, start_download, combinefile, save,
  create_worker_list, answer_job, run_upload,
}
use cmpe156_network_programm.Transfer.Udp.Parts.{FitsDatagram, HasFile}
use cmpe156_network_programm.Transfer.Udp.Reply.{exists_reply}
use cmpe156_network_programm.Transfer.Udp.Started.{combinefile-whole}
use cmpe156_network_programm.Transfer.Udp.Missing.{start_download_missing}

abbrev hello : Bytes
hello = codes "hello"

abbrev f : Bytes
f = codes "f"

abbrev hello_files : Bytes → Option Bytes
hello_files name = if str_eq name f then some hello else none

f-HasFile : HasFile hello_files f hello
unfolding str_eq
f-HasFile = record {
  found = refl;
  named = record { plain = ((omega arith, omega arith), tt); there = λ e. cc; fits = omega arith };
  plain = no_nul-NoNul hello refl;
  bounded = omega arith;
}

abbrev server_a : Address
server_a = record { ip = codes "1.2.3.4"; port = 9000 }

abbrev one_server : ServerList
one_server = record { array = ref server_a ∷ null ∷ []; occupied = 1; size = 2 }

one_server-Holds : Holds one_server (server_a ∷ [])
one_server-Holds = record { spare = null ∷ []; cells = refl; counted = refl; allocated = refl }

-- Both parts, of 2 and of 3 bytes.
two_parts : All FitsDatagram (jobs_of 2 f 5)
unfolding jobs_from job_of format_d
two_parts = (
  record { long = omega arith; short = omega arith; request = omega arith },
  (record { long = omega arith; short = omega arith; request = omega arith }, tt),
)

abbrev job_0 : Job
job_0 = record { job_id = 0; file_name = f; file_start = pos 0; file_end = pos 1 }

abbrev job_1 : Job
job_1 = record { job_id = 1; file_name = f; file_start = pos 2; file_end = pos 4 }

abbrev no_temp : Temp
no_temp = λ i. none

abbrev jobs : List Job → JobList
jobs js = record {
  array = map ref js ++ replicate (2 - length js) null;
  occupied = length js;
  size = 2;
}

abbrev last_part : Bytes → List Response
last_part t = record { cmd = codes "DWN"; content_is_end = pos 1; file_content = t } ∷ []

-- The first of two workers downloads both parts. What is removed stays in its array, behind the others.
abbrev state : ℕ → ℕ → List Job → Worker → Temp → Download
state servers chunks dones w temp = record {
  threads = record {
    pool = record {
      server_info_list = record { array = ref server_a ∷ null ∷ []; occupied = servers; size = 2 };
      chunk_jobs = record { array = ref job_0 ∷ ref job_1 ∷ []; occupied = chunks; size = 2 };
      done_jobs = jobs dones;
    };
    workers = w ∷ starting ∷ [];
  };
  temp = temp;
}

abbrev state_0 : Download
state_0 = state 1 2 [] starting no_temp

abbrev state_1 : Download
state_1 = state 0 2 [] (testing server_a none) (save state_0.temp starting [])

abbrev state_2 : Download
state_2 = state 0 2 [] (choosing server_a none) (save state_1.temp (testing server_a none) [])

abbrev state_3 : Download
state_3 = state 0 1 [] (fetching server_a job_1) (save state_2.temp (choosing server_a none) [])

abbrev state_4 : Download
state_4 =
    state 0 1 (job_1 ∷ []) (testing server_a (some 0))
      (save state_3.temp (fetching server_a job_1) (last_part (codes "llo")))

abbrev state_5 : Download
state_5 =
    state 0 1 (job_1 ∷ []) (choosing server_a (some 0))
      (save state_4.temp (testing server_a (some 0)) [])

abbrev state_6 : Download
state_6 =
    state 0 0 (job_1 ∷ []) (fetching server_a job_0)
      (save state_5.temp (choosing server_a (some 0)) [])

abbrev state_7 : Download
state_7 =
    state 0 0 (job_1 ∷ job_0 ∷ []) (testing server_a (some 0))
      (save state_6.temp (fetching server_a job_0) (last_part (codes "he")))

Move-0 : Move hello_files state_0 state_1
unfolding advance take_server get_server_item remove_server_item get_item remove_item shift
Move-0 =
    run [] starting (starting ∷ []) [] state_1.threads refl refl tt (testing server_a none) refl
      refl refl

Move-1 : Move hello_files state_1 state_2
unfolding advance
Move-1 =
    run [] (testing server_a none) (starting ∷ []) [] state_2.threads refl refl tt
      (choosing server_a none) refl refl refl

Move-2 : Move hello_files state_2 state_3
unfolding advance take_job pop_job_item get_job_item remove_job_item get_item remove_item shift
Move-2 =
    run [] (choosing server_a none) (starting ∷ []) [] state_3.threads refl refl tt
      (fetching server_a job_1) refl refl refl

Move-3 : Move hello_files state_3 state_4
unfolding advance record_job udp_download_file add_job_item str_eq is_last answer_job
    download_request request_buf format_d decimal digits handle_request strtok skip span on_download
    atol strcpy run_upload upload_part upload datagram c_string
Move-3 =
    run [] (fetching server_a job_1) (starting ∷ []) (last_part (codes "llo")) state_4.threads refl
      refl (last_part (codes "llo"), refl, inl refl) (testing server_a (some 0)) refl refl refl

Move-4 : Move hello_files state_4 state_5
unfolding advance
Move-4 =
    run [] (testing server_a (some 0)) (starting ∷ []) [] state_5.threads refl refl tt
      (choosing server_a (some 0)) refl refl refl

Move-5 : Move hello_files state_5 state_6
unfolding advance take_job pop_job_item get_job_item remove_job_item get_item remove_item shift
Move-5 =
    run [] (choosing server_a (some 0)) (starting ∷ []) [] state_6.threads refl refl tt
      (fetching server_a job_0) refl refl refl

Move-6 : Move hello_files state_6 state_7
unfolding advance record_job udp_download_file add_job_item str_eq is_last answer_job
    download_request request_buf format_d decimal digits handle_request strtok skip span on_download
    atol strcpy run_upload upload_part upload datagram c_string
Move-6 =
    run [] (fetching server_a job_0) (starting ∷ []) (last_part (codes "he")) state_7.threads refl
      refl (last_part (codes "he"), refl, inl refl) (testing server_a (some 0)) refl refl refl

both_done : Moves hello_files state_0 state_7
both_done =
    further
      (further
        (further (further (further (further (further no_move Move-0) Move-1) Move-2) Move-3) Move-4)
        Move-5)
      Move-6

abbrev question : Bytes
question = codes "CHK f" ++ replicate 1019 0

start_download_missing_example :
    (start : Threads) × (start_download 2 f (exists_reply f none) one_server ≡ ok (some start))
    × Holds start.pool.chunk_jobs (jobs_of 2 f 0)
unfolding exists_request request_buf handle_request strtok skip span str_eq on_check strcpy
start_download_missing_example =
    start_download_missing (λ name. none) 2 f question (exists_reply f none) one_server refl
      f-HasFile.named (omega arith) refl refl

combinefile-whole_example :
    (combinefile [] 2 state_7.temp ≡ fault out_of_bounds)
    × (combinefile (0 ∷ []) 2 state_7.temp ≡ ok (some hello))
unfolding exists_request request_buf handle_request strtok skip span str_eq on_check strcpy
    start_download create_jobs_list create_from add_job_item init_job_array job_of
    create_worker_list
combinefile-whole_example =
    combinefile-whole hello_files 2 f hello question (exists_reply f (some hello)) one_server
      (server_a ∷ []) state_0.threads no_temp state_7 0 [] f-HasFile (omega arith) two_parts
      one_server-Holds refl refl refl both_done refl
