-- ===== src/Transfer/Table/Whole.antt =====
-- A whole download of HW3/client.c, from servers that run server_upload_file of HW3/mysocket.c.
use native.Mathlib.Nat.{mul-le-mul_right, mul-div-le}
use cmpe156_network_programm.Prelude.{
  ℕ, zero, suc, ◌+◌, ◌-◌, ◌*◌, ◌/◌, ◌≡◌, ◌<◌, ◌≤◌, refl, sym, ap, ◌∙◌, List, [], ◌∷◌, map, arith,
  none, some, ok, fault, indeterminate, lt→ltb, Option, ◌>>=◌, replicate, ◌==◌, inl, inr,
  Bool-cases, ℤ, pos, negsuc, length, take, drop,
}
use cmpe156_network_programm.Libc.Str.{Bytes, All, NoNul}
use cmpe156_network_programm.Transfer.Jobs.{Job}
use cmpe156_network_programm.Transfer.Ranges.{
  before, start_of, span_length, bytes_of, create_jobs_list-combined, jobs_from, jobs_of, job_of,
}
use cmpe156_network_programm.Transfer.Stream.{
  ServerPackage, server_upload_file, write_parts, output_name, print_name, download_single_part,
}
use cmpe156_network_programm.Transfer.Combine.{combine_from}
use cmpe156_network_programm.Transfer.Combine.Parts.{copied, combine_from-copied}
use cmpe156_network_programm.Transfer.Stream.Delivery.{IsSendable, server_upload_file-download}
use cmpe156_network_programm.Transfer.Table.{
  valid_conn, ThreadParam, fill_from, thread_params, behind, thread_download, run_threads,
  open_output, combine_file, download_file,
}
use cmpe156_network_programm.Transfer.Table.Equal.{IsOutcome, sockets_array}

-- A part of a length that server_upload_file can send.
abbrev pub IsSendableJob : Job → Type 0
IsSendableJob j = IsSendable (behind j.file_end - start_of j.file_start)

behind-before : (n : ℕ) → behind (before n) ≡ n
behind-before zero = refl
behind-before (suc n) = omega arith

span_length-behind : (s : ℕ) (e : ℤ) → span_length (pos s) e ≡ behind e - s
span_length-behind s (pos e) = refl
span_length-behind s (negsuc e) = omega arith

-- The bounds of a part lie in the file.
pub record IsWithin (total : ℕ) (j : Job) : Type 0 where
  pub ordered : start_of j.file_start ≤ behind j.file_end
  pub inside : behind j.file_end ≤ total

pub job_of-IsWithin :
    (n : ℕ) (name : Bytes) (total i : ℕ)
    → i < n
    → IsWithin total (job_of n name total (total / n) i)
unfolding job_of
job_of-IsWithin n name total i f =
    let single = total / n in
    let whole : n * single ≤ total = mul-div-le total n in
    let here : i * single ≤ n * single = mul-le-mul_right single (omega (arith, f)) in
    elim (Bool-cases (i == n - 1)) [
      | inl last ↦ record {
        ordered = rw (last, behind-before total) (omega (arith, here, whole));
        inside = rw (last, behind-before total) (omega arith);
      }
      | inr inner ↦
          let next : (i + 1) * single ≤ n * single = mul-le-mul_right single (omega (arith, f)) in
          record {
            ordered = rw (inner, behind-before ((i + 1) * single)) (omega arith);
            inside = rw (inner, behind-before ((i + 1) * single)) (omega (arith, next, whole));
          }
    ]

upload_job :
    (file name : Bytes) (n i : ℕ)
    → NoNul file
    → i < n
    → IsSendableJob (job_of n name (length file) (length file / n) i)
    → (ps : List ServerPackage) × (server_upload_file file
          (i * (length file / n))
          (behind (job_of n name (length file) (length file / n) i).file_end)
        ≡ ok ps)
      × (write_parts ps ≡ bytes_of file (job_of n name (length file) (length file / n) i))
unfolding bytes_of job_of
upload_job file name n i nn f s =
    let w = job_of-IsWithin n name (length file) i f in
    let j = job_of n name (length file) (length file / n) i in
    let (ps, e, d) =
      server_upload_file-download file (i * (length file / n)) (behind j.file_end) nn w.ordered
        w.inside s in
    (
      ps,
      e,
      d
          ∙ ap (λ k. take k (drop (i * (length file / n)) file))
              (sym (span_length-behind (i * (length file / n)) j.file_end)),
    )

-- A part's thread.
abbrev param_of : ℕ → ℕ → ℕ → Bytes → Bytes → ℕ → ThreadParam
param_of i x n file name v = record {
  thread_id = i;
  socketfd = pos (suc x);
  filename = name;
  file_part = pos v;
  file_start = pos (v * (length file / n));
  file_end = (job_of n name (length file) (length file / n) v).file_end;
}

-- The array that `name` points to takes the names of `n` parts' files.
abbrev pub HasRoom : ℕ → ℕ → Type 0
HasRoom room n = (v : ℕ) → v < n → length (output_name (pos v)) < room

thread_download-job :
    (room i x n : ℕ) (file name : Bytes) (v : ℕ)
    → HasRoom room n
    → NoNul file
    → v < n
    → IsSendableJob (job_of n name (length file) (length file / n) v)
    → thread_download (some room) file (param_of i x n file name v)
      ≡ ok (some (pos v, bytes_of file (job_of n name (length file) (length file / n) v)))
unfolding thread_download download_single_part print_name
thread_download-job room i x n file name v big nn f s =
    let (ps, e, d) = upload_job file name n v nn f s in
    rw (e, lt→ltb (length (output_name (pos v))) room (big v f), d) refl

-- Without a value in `name` a thread that downloads does not get to its file.
thread_download_unset :
    (i x n : ℕ) (file name : Bytes) (v : ℕ)
    → NoNul file
    → v < n
    → IsSendableJob (job_of n name (length file) (length file / n) v)
    → thread_download none file (param_of i x n file name v) ≡ fault indeterminate
unfolding thread_download download_single_part print_name
thread_download_unset i x n file name v nn f s =
    let (ps, e, d) = upload_job file name n v nn f s in rw e refl

abbrev outputs_of : Bytes → List Job → List (ℤ × Bytes)
outputs_of file js = map (λ j. (pos j.job_id, bytes_of file j)) js

run_threads_untried :
    (room : Option ℕ) (k i v : ℕ) (file name : Bytes) (total n single : ℕ)
    → run_threads room file (fill_from i v (replicate k (pos 0)) name total n single) ≡ ok []
unfolding run_threads fill_from thread_download
run_threads_untried room zero i v file name total n single = refl
run_threads_untried room (suc k) i v file name total n single =
    rw (run_threads_untried room k (i + 1) (v + 1) file name total n single) refl

run_threads-outputs :
    (room : ℕ) (tried : List ℤ) (k i v n : ℕ) (file name : Bytes)
    → HasRoom room n
    → NoNul file
    → All IsOutcome tried
    → v + valid_conn tried ≤ n
    → All IsSendableJob (jobs_from (valid_conn tried) v n name (length file) (length file / n))
    → run_threads
        (some room)
        file
        (fill_from i v (sockets_array tried k) name (length file) n (length file / n))
      ≡ ok (outputs_of file (jobs_from (valid_conn tried) v n name (length file) (length file / n)))
unfolding run_threads fill_from thread_download valid_conn jobs_from job_of
run_threads-outputs room [] k i v n file name big nn a f s =
    run_threads_untried (some room) k i v file name (length file) n (length file / n)
run_threads-outputs room (pos zero ∷ tried) k i v n file name big nn a f s = absurd (omega arith)
run_threads-outputs room (pos (suc x) ∷ tried) k i v n file name big nn a f s =
    ap
      (λ r. r >>= λ written.
        run_threads (some room) file
          (fill_from (i + 1) (v + 1) (sockets_array tried k) name (length file) n (length file / n))
        >>= λ outputs. ok (elim written [ none ↦ outputs | some o ↦ o ∷ outputs ]))
      (thread_download-job room i x n file name v big nn (omega arith) s.0)
    ∙ rw (run_threads-outputs room tried k (i + 1) (v + 1) n file name big nn a.1 (omega arith) s.1)
        refl
run_threads-outputs room (negsuc x ∷ tried) k i v n file name big nn a f s =
    rw (run_threads-outputs room tried k (i + 1) v n file name big nn a.1 f s) refl

run_threads_unset :
    (tried : List ℤ) (k i v n : ℕ) (file name : Bytes)
    → NoNul file
    → All IsOutcome tried
    → 0 < valid_conn tried
    → v + valid_conn tried ≤ n
    → All IsSendableJob (jobs_from (valid_conn tried) v n name (length file) (length file / n))
    → run_threads none file
        (fill_from i v (sockets_array tried k) name (length file) n (length file / n))
      ≡ fault indeterminate
unfolding run_threads fill_from thread_download valid_conn jobs_from job_of
run_threads_unset [] k i v n file name nn a there f s = absurd (omega arith)
run_threads_unset (pos zero ∷ tried) k i v n file name nn a there f s = absurd (omega arith)
run_threads_unset (pos (suc x) ∷ tried) k i v n file name nn a there f s =
    ap
      (λ r. r >>= λ written.
        run_threads none file
          (fill_from (i + 1) (v + 1) (sockets_array tried k) name (length file) n (length file / n))
        >>= λ outputs. ok (elim written [ none ↦ outputs | some o ↦ o ∷ outputs ]))
      (thread_download_unset i x n file name v nn (omega arith) s.0)
run_threads_unset (negsuc x ∷ tried) k i v n file name nn a there f s =
    rw (run_threads_unset tried k (i + 1) v n file name nn a.1 there f s) refl

-- The file of a part is among those that are written.
open_output-outputs :
    (file : Bytes) (k v n i : ℕ) (name : Bytes) (total single : ℕ)
    → v ≤ i
    → i < v + k
    → open_output i (outputs_of file (jobs_from k v n name total single))
      ≡ some (bytes_of file (job_of n name total single i))
unfolding open_output jobs_from job_of bytes_of
open_output-outputs file zero v n i name total single f g = absurd (omega arith)
open_output-outputs file (suc k) v n i name total single f g =
    let id : (job_of n name total single v).job_id ≡ v = unfold job_of in refl in
    elim (Bool-cases (v == i)) [
      | inl here ↦
          rw (id, here)
            (ap (λ m. some (bytes_of file (job_of n name total single m))) (ground arith))
      | inr differs ↦
          rw (id, differs)
            (open_output-outputs file k (v + 1) n i name total single (ground arith) (omega arith))
    ]

-- For connections of which at least one is there, to servers that have a file without NUL bytes,
-- when each part is below 1024 bytes or not one more than a multiple of 1023, and `name` points
-- to an array with room for the names of the parts' files, every part's file is there, and
-- combine_file makes of them what its buffer allows of the file.
pub download_file-whole :
    (room : ℕ) (behind_buf : Bytes) (tried : List ℤ) (untried : ℕ) (file name : Bytes)
    → All IsOutcome tried
    → 0 < valid_conn tried
    → HasRoom room (valid_conn tried)
    → NoNul file
    → All IsSendableJob (jobs_of (valid_conn tried) name (length file))
    → download_file
        (some room)
        behind_buf
        file
        (sockets_array tried untried)
        name
        (length file)
        (valid_conn tried)
      ≡ (copied behind_buf file >>= λ s. ok (some s))
unfolding download_file thread_params combine_file
download_file-whole room behind_buf tried untried file name a there big nn s =
    let n = valid_conn tried in
    let (jobs, made, held, whole) = create_jobs_list-combined n file name there in
    let outputs = outputs_of file (jobs_of n name (length file)) in
    ap (λ r. r >>= λ outputs. combine_from behind_buf n 0 (λ i. open_output i outputs))
      (run_threads-outputs room tried untried 0 0 n file name big nn a (omega arith) s)
    ∙ combine_from-copied behind_buf file name n (λ i. open_output i outputs) n 0
        (λ m b l.
          open_output-outputs file n 0 n m name (length file) (length file / n) (omega arith)
            (omega arith))
    ∙ ap (λ t. copied behind_buf t >>= λ s. ok (some s)) whole

-- Without a value in `name` the download does not get to its first file.
pub download_file_unset :
    (behind_buf : Bytes) (tried : List ℤ) (untried : ℕ) (file name : Bytes)
    → All IsOutcome tried
    → 0 < valid_conn tried
    → NoNul file
    → All IsSendableJob (jobs_of (valid_conn tried) name (length file))
    → download_file none behind_buf file
        (sockets_array tried untried)
        name
        (length file)
        (valid_conn tried)
      ≡ fault indeterminate
unfolding download_file thread_params
download_file_unset behind_buf tried untried file name a there nn s =
    rw (run_threads_unset tried untried 0 0 (valid_conn tried) file name nn a there (omega arith) s)
      refl
