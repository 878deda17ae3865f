-- ===== src/Transfer/Udp.antt =====
-- A whole download of HW4/client.c: what main does behind query_file_exist, the workers with the files
-- temp.i that they write, and combinefile.
pub mod Parts
pub mod Ids
pub mod Saving
pub mod Whole
pub mod Reply
pub mod Started
pub mod Missing
use cmpe156_network_programm.Prelude.{
  ℕ, zero, suc, ◌+◌, ◌≡◌, ◌⊎◌, Bool, true, false, List, [], ◌∷◌, ◌++◌, Option, none, some, Result,
  ok, ◌>>=◌, replicate, ltb, ◌==◌, if◌then◌else◌, ℤ, pos, negsuc,
}
use cmpe156_network_programm.Libc.Str.{Bytes, codes, str_eq}
use cmpe156_network_programm.Transfer.Combine.{combine_from}
use cmpe156_network_programm.Transfer.Jobs.{Job, JobList, init_job_array}
use cmpe156_network_programm.Transfer.Ranges.{start_of, create_jobs_list}
use cmpe156_network_programm.Transfer.Datagram.{upload_part}
use cmpe156_network_programm.Transfer.Requests.{
  download_request, ServerReply, Handled, answered, upload_thread, ignored, handle_request,
}
use cmpe156_network_programm.Transfer.Pool.{
  ServerList, Response, udp_download_file, Worker, starting, ended, testing, choosing, leaving,
  fetching, advance,
}
use cmpe156_network_programm.Transfer.Pool.Sections.{reads_unset}
use cmpe156_network_programm.Transfer.Pool.Interleave.{Threads}

abbrev pub max_worker : ℕ
max_worker = 100

-- The workers, all at their start.
unfoldable pub create_worker_list : ℕ → List Worker
create_worker_list worker_size = replicate worker_size starting

-- `if(read_buf->have_file_flag)`
abbrev pub is_set : ℤ → Bool
is_set (pos zero) = false
is_set (pos (suc n)) = true
is_set (negsuc n) = true

-- main, on the reply that query_file_exist leaves in read_buf: the lists and the workers, or nothing to
-- download. `chunk_num` is not negative.
unfoldable pub start_download : ℕ → Bytes → ServerReply → ServerList → Result (Option Threads)
start_download chunk_num target_file read_buf servers =
    let worker_size = if ltb max_worker chunk_num then max_worker else chunk_num in
    if str_eq read_buf.cmd (codes "CHK")
    then (if is_set read_buf.have_file_flag
        then (create_jobs_list chunk_num target_file read_buf.file_length >>= λ jobs. ok (
            some (record {
              pool = record {
                server_info_list = servers;
                chunk_jobs = jobs;
                done_jobs = init_job_array chunk_num;
              };
              workers = create_worker_list worker_size;
            })))
        else ok none)
    else ok none

-- The files temp.i.
abbrev pub Temp : Type 0
Temp = ℕ → Option Bytes

-- A download opens its part's file with "w+", and writes it.
unfoldable pub save : Temp → Worker → List Response → Temp
save temp starting rs = temp
save temp ended rs = temp
save temp (testing addr ret) rs = temp
save temp (choosing addr ret) rs = temp
save temp (leaving addr ret) rs = temp
save temp (fetching addr job) rs =
    λ i. if job.job_id == i then some (udp_download_file rs).0 else temp i

-- The last byte of a part; before the file's start it is behind no byte.
abbrev pub last_of : ℤ → ℕ
last_of (pos n) = n
last_of (negsuc n) = 0

-- The thread that the server starts; without the file failHandler ends the server. The part does not
-- start before the file.
unfoldable pub run_upload : (Bytes → Option Bytes) → Handled → Result (List Response)
run_upload files (answered reply) = ok []
run_upload files ignored = ok []
run_upload files (upload_thread name start last) = elim (files name) [
  | none ↦ ok []
  | some file ↦ upload_part file (start_of start) (last_of last)
]

-- All that a server sends for a job.
unfoldable pub answer_job : (Bytes → Option Bytes) → Job → Result (List Response)
answer_job files job = download_request job >>= λ block.
    handle_request files block >>= λ handled. run_upload files handled

-- What reaches a thread: the server's answer, or nothing until the timeout.
abbrev pub Serves : (Bytes → Option Bytes) → Worker → List Response → Type 0
Serves files starting rs = Unit
Serves files ended rs = Unit
Serves files (testing addr ret) rs = Unit
Serves files (choosing addr ret) rs = Unit
Serves files (leaving addr ret) rs = Unit
Serves files (fetching addr job) rs =
    (sent : List Response) × (answer_job files job ≡ ok sent) × ((rs ≡ sent) ⊎ (rs ≡ []))

-- The threads and the files.
pub record Download : Type 0 where
  pub threads : Threads
  pub temp : Temp

-- Any thread runs its next section, which may download from a server.
pub data Move (files : Bytes → Option Bytes) (s t : Download) : Type 0 where
  run :
      (before : List Worker) (w : Worker) (after : List Worker) (rs : List Response)
      (next : Threads)
      → s.threads.workers ≡ before ++ w ∷ after
      → reads_unset w ≡ false
      → Serves files w rs
      → (w' : Worker) → advance s.threads.pool w rs ≡ ok (next.pool, w')
      → next.workers ≡ before ++ w' ∷ after
      → t ≡ record { threads = next; temp = save s.temp w rs }
      → Move files s t

pub data Moves (files : Bytes → Option Bytes) (s : Download) : Download → Type 0 where
  no_move : Moves files s s
  further : {t u : Download} → Moves files s t → Move files t u → Moves files s u

-- What combinefile leaves in result.txt; `behind` are the unused bytes behind its buffer.
unfoldable pub combinefile : Bytes → ℕ → Temp → Result (Option Bytes)
combinefile behind chunk_num temp = combine_from behind chunk_num 0 temp
