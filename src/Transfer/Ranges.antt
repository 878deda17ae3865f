-- ===== src/Transfer/Ranges.antt =====
-- How a file is cut into parts: createJobsList of HW4/client.c, and the same bounds in
-- download_file of HW3/client.c.
use cmpe156_network_programm.Prelude.{
  ℕ, zero, suc, ◌+◌, ◌-◌, ◌*◌, ◌≡◌, ◌≤◌, ◌<◌, refl, ap, ◌∙◌, true, false, List, [], ◌∷◌, ◌++◌,
  append_assoc, append-nil, arith, Result, ok, ◌>>=◌, length, length-append, ℤ, pos, negsuc, ◌==◌,
  if◌then◌else◌,
}
use cmpe156_network_programm.Prelude.{take, drop, ◌/◌}
use cmpe156_network_programm.Libc.Str.{Bytes}
use cmpe156_network_programm.DynArray.Refine.{Holds}
use cmpe156_network_programm.Transfer.Jobs.{
  Job, JobList, init_job_array, init_job_array-Holds, add_job_item, add_job_item-Holds,
}

-- n - 1 as a `long`
abbrev pub before : ℕ → ℤ
before zero = negsuc 0
before (suc n) = pos n

-- The job of part `i` of `job_num`, where a part has `single_length` bytes and the last the rest.
unfoldable pub job_of : ℕ → Bytes → ℕ → ℕ → ℕ → Job
job_of job_num file_name total_size single_length i = record {
  job_id = i;
  file_name = file_name;
  file_start = pos (i * single_length);
  file_end = if i == job_num - 1 then before total_size else before ((i + 1) * single_length);
}

-- The loop, by the rounds left.
unfoldable pub create_from : ℕ → ℕ → ℕ → Bytes → ℕ → ℕ → JobList → Result JobList
create_from zero i job_num file_name total_size single_length jobs = ok jobs
create_from (suc k) i job_num file_name total_size single_length jobs =
    add_job_item jobs (job_of job_num file_name total_size single_length i) >>= λ jobs'.
    create_from k (i + 1) job_num file_name total_size single_length jobs'

-- The count is positive: the caller's isNumber has refused 0.
unfoldable pub create_jobs_list : ℕ → Bytes → ℕ → Result JobList
create_jobs_list job_num file_name total_size =
    create_from job_num 0 job_num file_name total_size (total_size / job_num)
      (init_job_array job_num)

-- The jobs from part `i` on, `k` of them.
unfoldable pub jobs_from : ℕ → ℕ → ℕ → Bytes → ℕ → ℕ → List Job
jobs_from zero i job_num file_name total_size single_length = []
jobs_from (suc k) i job_num file_name total_size single_length =
    job_of job_num file_name total_size single_length i
    ∷ jobs_from k (i + 1) job_num file_name total_size single_length

abbrev pub jobs_of : ℕ → Bytes → ℕ → List Job
jobs_of job_num file_name total_size =
    jobs_from job_num 0 job_num file_name total_size (total_size / job_num)

create_from-Holds :
    (k i job_num : ℕ) (file_name : Bytes) (total single : ℕ) (a : JobList) (js : List Job)
    → Holds a js
    → length js + k ≤ a.size
    → (b : JobList) × (create_from k i job_num file_name total single a ≡ ok b)
      × Holds b (js ++ jobs_from k i job_num file_name total single)
unfolding create_from jobs_from
create_from-Holds zero i job_num file_name total single a js h f = (a, refl, rw append-nil h)
create_from-Holds (suc k) i job_num file_name total single a js h f =
    let j = job_of job_num file_name total single i in
    let (b, e, hb, eb) = add_job_item-Holds a js j h (omega arith) in
    let (d, e2, hd) =
      create_from-Holds k (i + 1) job_num file_name total single b (js ++ j ∷ []) hb
        (omega (arith, length-append js (j ∷ []), eb)) in
    (
      d,
      rw e e2,
      rw (append_assoc js (j ∷ []) (jobs_from k (i + 1) job_num file_name total single)) at hd,
    )

-- The bytes of a file that a job asks for, both ends included.
abbrev pub span_length : ℤ → ℤ → ℕ
span_length (pos s) (pos e) = e + 1 - s
span_length (pos s) (negsuc e) = 0
span_length (negsuc s) e = 0

abbrev pub start_of : ℤ → ℕ
start_of (pos s) = s
start_of (negsuc s) = 0

unfoldable pub bytes_of : Bytes → Job → Bytes
bytes_of file j = take (span_length j.file_start j.file_end) (drop (start_of j.file_start) file)

unfoldable pub combined : Bytes → List Job → Bytes
combined file [] = []
combined file (j ∷ js) = bytes_of file j ++ combined file js

pub take-append-drop : (m : ℕ) (xs : Bytes) → take m xs ++ drop m xs ≡ xs
take-append-drop zero xs = refl
take-append-drop (suc m) [] = refl
take-append-drop (suc m) (x ∷ xs) = ap (λ l. x ∷ l) (take-append-drop m xs)

pub drop-drop : (n m k : ℕ) (xs : Bytes) → k ≡ n + m → drop k xs ≡ drop m (drop n xs)
drop-drop zero m k xs e = ap (λ j. drop j xs) (omega arith)
drop-drop (suc n) m zero xs e = absurd (omega arith)
drop-drop (suc n) zero (suc k) [] e = refl
drop-drop (suc n) (suc m) (suc k) [] e = refl
drop-drop (suc n) m (suc k) (x ∷ xs) e = drop-drop n m k xs (omega arith)

-- A piece and what is behind it.
pub take-drop_next :
    (n m k : ℕ) (file : Bytes) → k ≡ n + m → take m (drop n file) ++ drop k file ≡ drop n file
take-drop_next n m k file e = rw (drop-drop n m k file e) (take-append-drop m (drop n file))

pub length-drop : (n : ℕ) (xs : Bytes) → length (drop n xs) ≡ length xs - n
length-drop zero xs = omega arith
length-drop (suc n) [] = omega arith
length-drop (suc n) (x ∷ xs) = omega (arith, length-drop n xs)

pub take_whole : (n : ℕ) (xs : Bytes) → length xs ≤ n → take n xs ≡ xs
take_whole zero [] h = refl
take_whole zero (x ∷ xs) h = absurd (omega arith)
take_whole (suc n) [] h = refl
take_whole (suc n) (x ∷ xs) h = ap (λ l. x ∷ l) (take_whole n xs (omega arith))

span_length-before : (s e : ℕ) → span_length (pos s) (before e) ≡ e - s
span_length-before s zero = omega arith
span_length-before s (suc e) = omega arith

-- An inner part.
bytes_of_inner :
    (file name : Bytes) (n total single i : ℕ)
    → i + 1 < n
    → bytes_of file (job_of n name total single i) ≡ take single (drop (i * single) file)
unfolding bytes_of job_of
bytes_of_inner file name n total single i h =
    let inner : (i == n - 1) ≡ false = ground arith in
    let width : (i + 1) * single - i * single ≡ single = omega arith in
    rw (inner, span_length-before (i * single) ((i + 1) * single), width) refl

-- The last part.
bytes_of_last :
    (file name : Bytes) (n single i : ℕ)
    → i + 1 ≡ n
    → bytes_of file (job_of n name (length file) single i) ≡ drop (i * single) file
unfolding bytes_of job_of
bytes_of_last file name n single i h =
    let last : (i == n - 1) ≡ true = ground arith in
    rw (last, span_length-before (i * single) (length file))
      (take_whole (length file - i * single) (drop (i * single) file)
        (omega (arith, length-drop (i * single) file)))

combined-jobs_from :
    (k i n : ℕ) (file name : Bytes) (single : ℕ)
    → i + suc k ≡ n
    → combined file (jobs_from (suc k) i n name (length file) single) ≡ drop (i * single) file
unfolding jobs_from combined
combined-jobs_from zero i n file name single h =
    rw (append-nil (bytes_of file (job_of n name (length file) single i)))
      (bytes_of_last file name n single i (omega arith))
combined-jobs_from (suc k) i n file name single h =
    rw
      (
        bytes_of_inner file name n (length file) single i (omega arith),
        combined-jobs_from k (i + 1) n file name single (omega arith),
      )
      (take-drop_next (i * single) single ((i + 1) * single) file (omega arith))

-- For a positive count, createJobsList makes that many jobs without leaving its array, and the
-- bytes that they ask for, joined in the order of the job ids, are the file.
pub create_jobs_list-combined :
    (job_num : ℕ) (file name : Bytes)
    → 0 < job_num
    → (a : JobList) × (create_jobs_list job_num name (length file) ≡ ok a)
      × Holds a (jobs_of job_num name (length file))
      × (combined file (jobs_of job_num name (length file)) ≡ file)
unfolding create_jobs_list
create_jobs_list-combined zero file name h = absurd (omega arith)
create_jobs_list-combined (suc n) file name h =
    let single = length file / suc n in
    let (a, e, ha) =
      create_from-Holds (suc n) 0 (suc n) name (length file) single (init_job_array (suc n)) []
        (init_job_array-Holds (suc n)) (unfold init_job_array in omega arith) in
    (a, e, ha, combined-jobs_from n 0 (suc n) file name single (omega arith) ∙ first_part single)
  where
    first_part : (single : ℕ) → drop (0 * single) file ≡ file
    first_part single = let z : 0 * single ≡ 0 = omega arith in rw z refl
