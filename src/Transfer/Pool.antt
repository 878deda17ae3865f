-- ===== src/Transfer/Pool.antt =====
-- The worker threads of HW4/client.c, thread_download and udp_download_file, over the list of servers
-- and the two lists of jobs; and server_list_t of HW4/mydatastructure.c.
pub mod Known
pub mod Conserve
pub mod Sections
pub mod Interleave
pub mod Stranded
use cmpe156_network_programm.Prelude.{
  ℕ, ◌+◌, ◌-◌, ◌≡◌, List, [], ◌∷◌, ◌++◌, Bool, Option, none, some, Result, ok, fault, indeterminate,
  ◌>>=◌, deref, ℤ, pos, ◌==◌, if◌then◌else◌,
}
use cmpe156_network_programm.Libc.Str.{Bytes, codes, str_eq}
use cmpe156_network_programm.DynArray.{DynArray, init_array, add_item, get_item, remove_item}
use cmpe156_network_programm.Transfer.Jobs.{Job, JobList, add_job_item, pop_job_item}
use cmpe156_network_programm.Transfer.Stream.{is_last}

-- struct sockaddr_in
pub record Address : Type 0 where
  pub ip : Bytes
  pub port : ℕ

abbrev pub ServerList : Type 0
ServerList = DynArray Address

unfoldable pub init_server_list_array : ServerList
init_server_list_array = init_array

unfoldable pub add_server_item : ServerList → Address → Result ServerList
add_server_item a n = add_item a n

unfoldable pub get_server_item : ServerList → ℤ → Result (Option Address)
get_server_item a idx = get_item a idx

unfoldable pub remove_server_item : ServerList → ℤ → Result ServerList
remove_server_item a idx = remove_item a idx

-- The fields of server_response_t that a download uses.
pub record Response : Type 0 where
  pub cmd : Bytes
  pub content_is_end : ℤ
  pub file_content : Bytes

-- The loop of udp_download_file, over what recvfrom returns until it times out: the bytes of the
-- part's file, and the result.
unfoldable pub udp_download_file : List Response → Bytes × ℕ
udp_download_file [] = ([], 1)
udp_download_file (r ∷ rs) =
    let rest = udp_download_file rs in
    if str_eq r.cmd (codes "DWN")
    then (if is_last r.content_is_end
        then (r.file_content, 0)
        else (r.file_content ++ rest.0, rest.1))
    else rest

-- The globals of the threads.
pub record Pool : Type 0 where
  pub server_info_list : ServerList
  pub chunk_jobs : JobList
  pub done_jobs : JobList

-- Where a thread stands: before it has a server, at the test of its loop, before it takes a job, with a
-- job, behind its loop, and at its end. The option is its variable `ret`.
pub data Worker : Type 0 where
  starting ended : Worker
  testing choosing leaving : Address → Option ℕ → Worker
  fetching : Address → Job → Worker

-- The last server of the list, or the thread waits.
unfoldable pub take_server : Pool → Result (Pool × Worker)
take_server p =
    let last = pos (p.server_info_list.occupied - 1) in
    if p.server_info_list.occupied == 0
    then ok (p, starting)
    else (get_server_item p.server_info_list last >>= λ addr.
        remove_server_item p.server_info_list last >>= λ servers.
        deref addr >>= λ a. ok (record p { server_info_list = servers }, testing a none))

-- The server goes back to the list.
unfoldable pub release_server : Pool → Address → Result (Pool × Worker)
release_server p addr = add_server_item p.server_info_list addr >>= λ servers.
    ok (record p { server_info_list = servers }, ended)

unfoldable pub take_job : Pool → Address → Result (Pool × Worker)
take_job p addr =
    if p.chunk_jobs.occupied == 0
    then release_server p addr
    else (pop_job_item p.chunk_jobs >>= λ (job, jobs).
        deref job >>= λ j. ok (record p { chunk_jobs = jobs }, fetching addr j))

-- By the download's result: the job is done, or it goes back.
unfoldable pub record_job : Pool → Address → Job → ℕ → Result (Pool × Worker)
record_job p addr job ret =
    if ret == 0
    then (add_job_item p.done_jobs job >>= λ jobs.
        ok (record p { done_jobs = jobs }, testing addr (some ret)))
    else if ret == 1
    then (add_job_item p.chunk_jobs job >>= λ jobs.
        ok (record p { chunk_jobs = jobs }, leaving addr (some ret)))
    else ok (p, testing addr (some ret))

unfoldable pub leave_with : Pool → Address → ℕ → Result (Pool × Worker)
leave_with p addr ret = if ret == 1 then ok (p, ended) else release_server p addr

-- One section of thread_download. `rs` is what the server sends, if the section downloads.
unfoldable pub advance : Pool → Worker → List Response → Result (Pool × Worker)
advance p starting rs = take_server p
advance p (testing addr ret) rs =
    if p.done_jobs.occupied == p.done_jobs.size
    then ok (p, leaving addr ret)
    else ok (p, choosing addr ret)
advance p (choosing addr ret) rs = take_job p addr
advance p (fetching addr job) rs = record_job p addr job (udp_download_file rs).1
advance p (leaving addr none) rs = fault indeterminate
advance p (leaving addr (some ret)) rs = leave_with p addr ret
advance p ended rs = ok (p, ended)
