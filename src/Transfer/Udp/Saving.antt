-- ===== src/Transfer/Udp/Saving.antt =====
-- What the threads of a download keep: the files of the jobs that are done.
use cmpe156_network_programm.Prelude.{
  ℕ, ◌≡◌, ◌≤◌, refl, sym, ap, ◌∙◌, subst, ◌⊎◌, inl, inr, true, false, List, [], ◌∷◌, ◌++◌, arith,
  some, none, ok, length, ◌==◌, map,
}
use cmpe156_network_programm.Libc.Str.{Bytes, All}
use cmpe156_network_programm.DynArray.{DynArray, Cell, ref}
use cmpe156_network_programm.DynArray.Refine.{Holds}
use cmpe156_network_programm.Transfer.Jobs.{Job, add_job_item, add_job_item-Holds}
use cmpe156_network_programm.Transfer.Ranges.{bytes_of}
use cmpe156_network_programm.Transfer.Pool.{
  Address, Pool, Response, Worker, starting, ended, testing, choosing, leaving, fetching, advance,
  take_server, take_job, release_server, record_job, leave_with, udp_download_file,
}
use cmpe156_network_programm.Transfer.Pool.Known.{All-join}
use cmpe156_network_programm.Transfer.Pool.Conserve.{times, held_by, Keeps}
use cmpe156_network_programm.Transfer.Udp.{Temp, save}

-- An array holds one list.
refs_same {ℓ} :
    {A : Type ℓ} (xs ys : List A) (p q : List (Cell A))
    → map ref xs ++ p ≡ map ref ys ++ q
    → length xs ≡ length ys
    → xs ≡ ys
refs_same [] [] p q e l = refl
refs_same [] (y ∷ ys) p q e l = absurd (omega arith)
refs_same (x ∷ xs) [] p q e l = absurd (omega arith)
refs_same (x ∷ xs) (y ∷ ys) p q e l =
    let rest : map ref xs ++ p ≡ map ref ys ++ q = cc in
    let same : xs ≡ ys = refs_same xs ys p q rest (omega arith) in cc

pub Holds-unique {ℓ} :
    {A : Type ℓ} (a : DynArray A) (xs ys : List A) → Holds a xs → Holds a ys → xs ≡ ys
Holds-unique a xs ys h k =
    refs_same xs ys h.spare k.spare (sym h.cells ∙ k.cells) (sym h.counted ∙ k.counted)

-- The job's file has the job's bytes.
abbrev pub Saved : Bytes → Temp → Job → Type 0
Saved file temp j = temp j.job_id ≡ some (bytes_of file j)

-- Another job's file is not touched.
pub save_other :
    (file : Bytes) (temp : Temp) (addr : Address) (job : Job) (rs : List Response) (js : List Job)
    → times job.job_id js ≡ 0
    → All (Saved file temp) js
    → All (Saved file (save temp (fetching addr job) rs)) js
unfolding save times
save_other file temp addr job rs [] e h = tt
save_other file temp addr job rs (j ∷ js) e h =
    let others : times job.job_id js ≡ 0 = ground arith in
    let differs : (job.job_id == j.job_id) ≡ false = ground arith in
    (rw differs h.0, save_other file temp addr job rs js others h.1)

-- No section but the end of a download changes the list of done jobs.
take_server-done :
    (p p' : Pool) (w' : Worker) → take_server p ≡ ok (p', w') → p'.done_jobs ≡ p.done_jobs
unfolding take_server
take_server-done p p' w' e = ground arith

release_server-done :
    (p p' : Pool) (addr : Address) (w' : Worker)
    → release_server p addr ≡ ok (p', w')
    → p'.done_jobs ≡ p.done_jobs
unfolding release_server
release_server-done p p' addr w' e = ground arith

take_job-done :
    (p p' : Pool) (addr : Address) (w' : Worker)
    → take_job p addr ≡ ok (p', w')
    → p'.done_jobs ≡ p.done_jobs
unfolding take_job
take_job-done p p' addr w' e = ground (arith, release_server-done p p' addr w')

record_job-back :
    (p p' : Pool) (addr : Address) (job : Job) (w' : Worker)
    → record_job p addr job 1 ≡ ok (p', w')
    → p'.done_jobs ≡ p.done_jobs
unfolding record_job
record_job-back p p' addr job w' e = ground arith

record_job-good :
    (p p' : Pool) (addr : Address) (job : Job) (w' : Worker)
    → record_job p addr job 0 ≡ ok (p', w')
    → add_job_item p.done_jobs job ≡ ok p'.done_jobs
unfolding record_job
record_job-good p p' addr job w' e = ground arith

leave_with-done :
    (p p' : Pool) (addr : Address) (ret : ℕ) (w' : Worker)
    → leave_with p addr ret ≡ ok (p', w')
    → p'.done_jobs ≡ p.done_jobs
unfolding leave_with
leave_with-done p p' addr ret w' e = ground (arith, release_server-done p p' addr w')

-- What a thread's download may give: nothing, or the job's bytes.
abbrev pub Delivers : Bytes → Worker → List Response → Type 0
Delivers file starting rs = Unit
Delivers file ended rs = Unit
Delivers file (testing addr ret) rs = Unit
Delivers file (choosing addr ret) rs = Unit
Delivers file (leaving addr ret) rs = Unit
Delivers file (fetching addr job) rs =
    ((udp_download_file rs).1 ≡ 1) ⊎ (udp_download_file rs ≡ (bytes_of file job, 0))

-- The threads' jobs have an id each, and a thread's job is among those that are taken.
pub record IsTaken (all taken : List Job) (w : Worker) : Type 0 where
  pub distinct : (i : ℕ) → times i all ≤ 1
  pub counted : (i : ℕ) → times i (held_by w) ≤ times i taken
  pub sized : length (held_by w) ≤ length taken

module _ (file : Bytes) (all taken taken' : List Job) (p p' : Pool) (k : Keeps all p taken)
    (k' : Keeps all p' taken') where
  unchanged :
      (temp : Temp)
      → p'.done_jobs ≡ p.done_jobs
      → All (Saved file temp) k.dones
      → All (Saved file temp) k'.dones
  unchanged temp e h =
      let same : k.dones ≡ k'.dones =
        Holds-unique p'.done_jobs k.dones k'.dones
          (subst (λ a. Holds a k.dones) (sym e) k.dones_held) k'.dones_held in
      subst (All (Saved file temp)) same h

  fetched :
      (temp : Temp) (addr : Address) (job : Job) (rs : List Response) (w' : Worker)
      → IsTaken all taken (fetching addr job)
      → udp_download_file rs ≡ (bytes_of file job, 0)
      → record_job p addr job (udp_download_file rs).1 ≡ ok (p', w')
      → All (Saved file (save temp (fetching addr job) rs)) k.dones
      → All (Saved file (save temp (fetching addr job) rs)) k'.dones
  unfolding held_by save
  fetched temp addr job rs w' t d e h =
      let added : add_job_item p.done_jobs job ≡ ok p'.done_jobs =
        record_job-good p p' addr job w' (rw d at e) in
      let (b, eb, hb, sized) =
        add_job_item-Holds p.done_jobs k.dones job k.dones_held
          (omega (arith, k.total, k.done_size, t.sized)) in
      let here : b ≡ p'.done_jobs = cc in
      let same : k.dones ++ job ∷ [] ≡ k'.dones =
        Holds-unique p'.done_jobs (k.dones ++ job ∷ []) k'.dones
          (subst (λ a. Holds a (k.dones ++ job ∷ [])) here hb) k'.dones_held in
      let own : (job.job_id == job.job_id) ≡ true = ground arith in
      let mine : Saved file (save temp (fetching addr job) rs) job =
        rw own (ap (λ r. some r.0) d) in
      subst (All (Saved file (save temp (fetching addr job) rs))) same
        (All-join (Saved file (save temp (fetching addr job) rs)) k.dones (job ∷ []) h (mine, tt))

  -- A section leaves the files of the done jobs complete.
  pub advance-Saved :
      (temp : Temp) (w w' : Worker) (rs : List Response)
      → IsTaken all taken w
      → Delivers file w rs
      → advance p w rs ≡ ok (p', w')
      → All (Saved file temp) k.dones
      → All (Saved file (save temp w rs)) k'.dones
  unfolding advance save held_by times
  advance-Saved temp starting w' rs t d e h = unchanged temp (take_server-done p p' w' e) h
  advance-Saved temp ended w' rs t d e h = unchanged temp (ground arith) h
  advance-Saved temp (testing addr ret) w' rs t d e h = unchanged temp (ground arith) h
  advance-Saved temp (choosing addr ret) w' rs t d e h =
      unchanged temp (take_job-done p p' addr w' e) h
  advance-Saved temp (leaving addr none) w' rs t d e h = cc
  advance-Saved temp (leaving addr (some ret)) w' rs t d e h =
      unchanged temp (leave_with-done p p' addr ret w' e) h
  advance-Saved temp (fetching addr job) w' rs t d e h =
      let apart : times job.job_id k.dones ≡ 0 =
        ground (arith, k.kept job.job_id, t.distinct job.job_id, t.counted job.job_id) in
      let before = save_other file temp addr job rs k.dones apart h in
      elim d [
        | inl down ↦
            unchanged (save temp (fetching addr job) rs)
              (record_job-back p p' addr job w' (rw down at e)) before
        | inr good ↦ fetched temp addr job rs w' t good e before
      ]
