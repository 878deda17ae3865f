-- ===== src/Transfer/Udp/Started.antt =====
-- The start of a download of HW4/client.c from servers that have the file, and its end.
use cmpe156_network_programm.Prelude.{
  ℕ, zero, suc, ◌+◌, ◌/◌, ◌≡◌, ◌<◌, refl, sym, ap, ◌∙◌, subst, List, [], ◌∷◌, arith, Option, none,
  some, ok, fault, out_of_bounds, ◌>>=◌, length, replicate, ltb, if◌then◌else◌,
}
use cmpe156_network_programm.Libc.Str.{Bytes, All}
use cmpe156_network_programm.DynArray.Refine.{Holds}
use cmpe156_network_programm.Transfer.Combine.Parts.{copied}
use cmpe156_network_programm.Transfer.Table.Whole.{job_of-IsWithin}
use cmpe156_network_programm.Transfer.Jobs.{Job, JobList, init_job_array, init_job_array-Holds}
use cmpe156_network_programm.Transfer.Ranges.{
  create_jobs_list, create_jobs_list-combined, jobs_of, jobs_from, job_of,
}
use cmpe156_network_programm.Transfer.Pool.{Address, ServerList, Worker, starting}
use cmpe156_network_programm.Transfer.Pool.Known.{All-IsOf}
use cmpe156_network_programm.Transfer.Pool.Conserve.{times, held_by, held, Keeps}
use cmpe156_network_programm.Transfer.Pool.Interleave.{Threads}
use cmpe156_network_programm.Transfer.Udp.{Temp, Download, Moves, combinefile}
use cmpe156_network_programm.Transfer.Udp.Parts.{FitsDatagram, HasFile}
use cmpe156_network_programm.Transfer.Udp.Saving.{Saved}
use cmpe156_network_programm.Transfer.Udp.Ids.{length-jobs_from}
use cmpe156_network_programm.Transfer.Udp.Whole.{Moves-IsSaving, full-combined}
use cmpe156_network_programm.Transfer.Udp.{start_download, create_worker_list, max_worker}
use cmpe156_network_programm.Transfer.Requests.{
  ServerReply, answered, exists_request, handle_request,
}
use cmpe156_network_programm.Transfer.Udp.Reply.{exists_reply, reply-exists}
use cmpe156_network_programm.Transfer.Ranges.{create_from}
use cmpe156_network_programm.Transfer.Jobs.{add_job_item}
use cmpe156_network_programm.Prelude.{bind-eq-ok}
use cmpe156_network_programm.Libc.Str.{str_eq}

replicate-held : (k : ℕ) → held (replicate k starting) ≡ []
unfolding held held_by
replicate-held zero = refl
replicate-held (suc k) = replicate-held k

-- Where main starts the workers.
abbrev pub started : ℕ → ServerList → JobList → List Worker → Threads
started n servers jobs workers = record {
  pool = record { server_info_list = servers; chunk_jobs = jobs; done_jobs = init_job_array n };
  workers = workers;
}

started-Keeps :
    (n k : ℕ) (name file : Bytes) (servers : ServerList) (ss : List Address) (jobs : JobList)
    → Holds servers ss
    → Holds jobs (jobs_of n name (length file))
    → jobs.size ≡ n
    → Keeps
        (jobs_of n name (length file))
        (started n servers jobs (replicate k starting)).pool
        (held (replicate k starting))
unfolding times
started-Keeps n k name file servers ss jobs hs hj size = rw (replicate-held k) (record {
  servers = ss;
  chunks = jobs_of n name (length file);
  dones = [];
  servers_held = hs;
  chunks_held = hj;
  dones_held = init_job_array-Holds n;
  chunk_size = size ∙ sym (length-jobs_from n 0 n name (length file) (length file / n));
  done_size =
      unfold init_job_array in sym (length-jobs_from n 0 n name (length file) (length file / n));
  total = omega arith;
  chunks_known = All-IsOf (jobs_of n name (length file));
  dones_known = tt;
  taken_known = tt;
  kept = λ i. omega arith;
})

add_job_item-size : (a b : JobList) (j : Job) → add_job_item a j ≡ ok b → b.size ≡ a.size
unfolding add_job_item
add_job_item-size a b j e = ground arith

create_from-size :
    (k i n : ℕ) (name : Bytes) (total single : ℕ) (a b : JobList)
    → create_from k i n name total single a ≡ ok b
    → b.size ≡ a.size
unfolding create_from
create_from-size zero i n name total single a b e = ground arith
create_from-size (suc k) i n name total single a b e =
    let (c, d, more) =
      bind-eq-ok (add_job_item a (job_of n name total single i))
        (λ jobs. create_from k (i + 1) n name total single jobs) e in
    create_from-size k (i + 1) n name total single c b more
    ∙ add_job_item-size a c (job_of n name total single i) d

-- The bytes that a reply promises, none for a file that is not there.
abbrev pub promised_bytes : Option Bytes → Bytes
promised_bytes (some file) = file
promised_bytes none = []

-- At most 100 workers.
abbrev workers_for : ℕ → ℕ
workers_for n = if ltb max_worker n then max_worker else n

start_download-made :
    (n : ℕ) (name : Bytes) (found : Option Bytes) (servers : ServerList) (jobs : JobList)
    → create_jobs_list n name (length (promised_bytes found)) ≡ ok jobs
    → start_download n name (exists_reply name found) servers
      ≡ ok (some (started n servers jobs (replicate (workers_for n) starting)))
unfolding start_download create_worker_list str_eq
start_download-made n name (some file) servers jobs made = rw made refl
start_download-made n name none servers jobs made = rw made refl

-- What main starts, whether the file is there or not.
pub start_download-exists :
    (n : ℕ) (name : Bytes) (found : Option Bytes) (servers : ServerList)
    → 0 < n
    → (jobs : JobList) × (k : ℕ) × (start_download n name (exists_reply name found) servers
        ≡ ok (some (started n servers jobs (replicate k starting))))
      × Holds jobs (jobs_of n name (length (promised_bytes found)))
      × (jobs.size ≡ n)
unfolding create_jobs_list
start_download-exists n name found servers positive =
    let file = promised_bytes found in
    let (jobs, made, hj, whole) = create_jobs_list-combined n file name positive in
    let size =
      create_from-size n 0 n name (length file) (length file / n) (init_job_array n) jobs made in
    (
      jobs,
      workers_for n,
      start_download-made n name found servers jobs made,
      hj,
      size ∙ unfold init_job_array in refl,
    )

init_job_array-occupied : (n : ℕ) → (init_job_array n).occupied ≡ 0
unfolding init_job_array
init_job_array-occupied n = refl

All_empty {ℓ} : (P : Job → Type ℓ) (js : List Job) → length js ≡ 0 → All P js
All_empty P [] e = tt
All_empty P (j ∷ js) e = absurd (omega arith)

-- The file is not empty, since its first part is not.
file_there :
    (n : ℕ) (name file : Bytes)
    → 0 < n
    → All FitsDatagram (jobs_of n name (length file))
    → 0 < length file
unfolding jobs_from job_of
file_there zero name file positive fits = absurd (omega arith)
file_there (suc n) name file positive fits =
    let w = job_of-IsWithin (suc n) name (length file) 0 (omega arith) in
    omega (arith, w.inside, fits.0.long)

copied_fits :
    (b : ℕ) (behind_buf s : Bytes) → (copied (b ∷ behind_buf) s >>= λ t. ok (some t)) ≡ ok (some s)
copied_fits b behind_buf [] = refl
copied_fits b behind_buf (c ∷ s) = refl

copied_outside :
    (s : Bytes) → 0 < length s → (copied [] s >>= λ t. ok (some t)) ≡ fault out_of_bounds
copied_outside [] h = absurd (omega arith)
copied_outside (c ∷ s) h = refl

-- Let a server have the file under a name without spaces, without NUL bytes and below 10 ^ 18
-- bytes, let the count of parts be positive, each part be of 2 to 1023 bytes and its request fit
-- the buffer. When the client has asked for the file, read the reply and started its workers,
-- then whatever was in the files temp.i before, however the workers' sections interleave and
-- whichever answers are lost, as long as none reads its result before a download has set it:
-- once the list of done jobs is full, combinefile writes behind its buffer of one byte if no byte
-- there is unused, and exactly the file into result.txt if one is.
pub combinefile-whole :
    (files : Bytes → Option Bytes) (n : ℕ) (name file block : Bytes) (reply : ServerReply)
    (servers : ServerList) (ss : List Address) (start : Threads) (temp : Temp) (t : Download)
    (b : ℕ) (behind_buf : Bytes)
    → HasFile files name file
    → 0 < n
    → All FitsDatagram (jobs_of n name (length file))
    → Holds servers ss
    → exists_request name ≡ ok block
    → handle_request files block ≡ ok (answered reply)
    → start_download n name reply servers ≡ ok (some start)
    → Moves files (record { threads = start; temp = temp }) t
    → t.threads.pool.done_jobs.occupied ≡ t.threads.pool.done_jobs.size
    → (combinefile [] n t.temp ≡ fault out_of_bounds)
      × (combinefile (b ∷ behind_buf) n t.temp ≡ ok (some file))
combinefile-whole files n name file block reply servers ss start temp t b behind_buf f positive fits
      hs made handled begun moves full =
    let replied = reply-exists files name block reply f.named made handled in
    let (jobs, k, first, hj, size) = start_download-exists n name (some file) servers positive in
    let promised_reply : reply ≡ exists_reply name (some file) =
      replied ∙ ap (exists_reply name) f.found in
    let again = ap (λ r. start_download n name r servers) promised_reply in
    let is : start ≡ started n servers jobs (replicate k starting) =
      let both : ok (some start) ≡ ok (some (started n servers jobs (replicate k starting))) =
        sym begun ∙ again ∙ first in
      cc in
    let keeps = started-Keeps n k name file servers ss jobs hs hj size in
    let first_state =
      subst (λ s. Keeps (jobs_of n name (length file)) s.pool (held s.workers)) (sym is) keeps in
    let none_done : start.pool.done_jobs.occupied ≡ 0 =
      ap (λ s. s.pool.done_jobs.occupied) is ∙ init_job_array-occupied n in
    let saved =
      All_empty (Saved file temp) first_state.dones
        (omega (arith, none_done, first_state.dones_held.counted)) in
    let is_saving =
      Moves-IsSaving files n name file f fits (record { threads = start; temp = temp }) t moves
        (record { keeps = first_state; saved = saved }) in
    (
      full-combined files n name file f fits [] t positive is_saving full
          ∙ copied_outside file (file_there n name file positive fits),
      full-combined files n name file f fits (b ∷ behind_buf) t positive is_saving full
          ∙ copied_fits b behind_buf file,
    )
