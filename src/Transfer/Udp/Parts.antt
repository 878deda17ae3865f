-- ===== src/Transfer/Udp/Parts.antt =====
-- What a server sends for one of the jobs of a download.
use cmpe156_network_programm.Prelude.{
  ℕ, ◌+◌, ◌-◌, ◌*◌, ◌/◌, ◌^◌, ◌≡◌, ◌≤◌, ◌<◌, refl, ap, sym, subst, ◌∙◌, arith, Option, some, List,
  ok, length, ℤ, pos, negsuc,
}
use cmpe156_network_programm.Libc.Str.{Bytes, NoNul}
use cmpe156_network_programm.Transfer.Jobs.{Job}
use cmpe156_network_programm.Transfer.Ranges.{start_of, bytes_of, job_of}
use cmpe156_network_programm.Transfer.Table.{behind}
use cmpe156_network_programm.Transfer.Table.Whole.{job_of-IsWithin}
use cmpe156_network_programm.Transfer.Pool.{Response, udp_download_file}
use cmpe156_network_programm.Transfer.Requests.{download_text, upload_thread}
use cmpe156_network_programm.Transfer.Datagram.{upload_part}
use cmpe156_network_programm.Transfer.Requests.Served.{IsName}
use cmpe156_network_programm.Transfer.Requests.Downloaded.{
  part_job, download_request-udp_download_file,
}
use cmpe156_network_programm.Transfer.Udp.{answer_job, run_upload}

-- A job whose part has 2 to 1023 bytes and whose request fits its buffer.
pub record FitsDatagram (j : Job) : Type 0 where
  pub long : start_of j.file_start + 2 ≤ behind j.file_end
  pub short : behind j.file_end ≤ start_of j.file_start + 1023
  pub request : length (download_text j) < 1024

last_lem : (e : ℤ) → 0 < behind e → e ≡ pos (behind e - 1)
last_lem (pos n) h = ap pos (omega arith)
last_lem (negsuc n) h = absurd (omega arith)

-- The server has the file.
pub record HasFile (files : Bytes → Option Bytes) (name file : Bytes) : Type 0 where
  pub found : files name ≡ some file
  pub named : IsName name
  pub plain : NoNul file
  pub bounded : length file < 10 ^ 18

run_upload_found :
    (files : Bytes → Option Bytes) (name file : Bytes) (start last : ℕ)
    → files name ≡ some file
    → run_upload files (upload_thread name (pos start) (pos last)) ≡ upload_part file start last
unfolding run_upload
run_upload_found files name file start last e = rw (run_upload, e) refl

part_job-answer :
    (files : Bytes → Option Bytes) (name file : Bytes) (id start last : ℕ)
    → HasFile files name file
    → FitsDatagram (part_job id name start last)
    → last < length file
    → (sent : List Response) × (answer_job files (part_job id name start last) ≡ ok sent)
      × (udp_download_file sent ≡ (bytes_of file (part_job id name start last), 0))
unfolding answer_job
part_job-answer files name file id start last f d inside =
    let (block, sent, made, handled, uploaded, written) =
      download_request-udp_download_file files id name file start last f.named f.plain
        (omega (arith, d.long)) (omega (arith, d.short)) inside f.bounded d.request in
    (
      sent,
      rw (made, handled) (run_upload_found files name file start last f.found ∙ uploaded),
      written,
    )

-- The server's answer to a job of the file's is received as the job's bytes.
pub answer_job-bytes :
    (files : Bytes → Option Bytes) (name file : Bytes) (n i : ℕ)
    → HasFile files name file
    → i < n
    → FitsDatagram (job_of n name (length file) (length file / n) i)
    → (sent : List Response) × (answer_job files (job_of n name (length file) (length file / n) i)
        ≡ ok sent)
      × (udp_download_file sent
          ≡ (bytes_of file (job_of n name (length file) (length file / n) i), 0))
answer_job-bytes files name file n i f below d =
    let j = job_of n name (length file) (length file / n) i in
    let w = job_of-IsWithin n name (length file) i below in
    let last = behind j.file_end - 1 in
    let as_part : j ≡ part_job i name (i * (length file / n)) last =
      unfold job_of in
      ap
        (λ e. record {
          job_id = i;
          file_name = name;
          file_start = pos (i * (length file / n));
          file_end = e;
        })
        (last_lem j.file_end (omega (arith, d.long))) in
    let (sent, e, written) =
      part_job-answer files name file i (i * (length file / n)) last f
        (subst FitsDatagram as_part d) (omega (arith, w.inside, d.long)) in
    (
      sent,
      ap (answer_job files) as_part ∙ e,
      written ∙ ap (λ k. (bytes_of file k, 0)) (sym as_part),
    )
