-- ===== src/Transfer/Table/Equal.antt =====
-- The parts of HW3/client.c against the jobs of HW4/client.c.
use cmpe156_network_programm.Prelude.{
  ℕ, zero, suc, ◌+◌, ◌/◌, ◌≡◌, ◌<◌, refl, ap, List, [], ◌∷◌, ◌++◌, arith, ok, bind-eq-ok, subst,
  replicate, if◌then◌else◌, ℤ, pos, negsuc, length,
}
use cmpe156_network_programm.Libc.Str.{Bytes, All}
use cmpe156_network_programm.DynArray.Refine.{Holds}
use cmpe156_network_programm.Transfer.Jobs.{Job, JobList}
use cmpe156_network_programm.Transfer.Ranges.{
  start_of, create_jobs_list, create_jobs_list-combined, jobs_from, job_of,
}
use cmpe156_network_programm.Transfer.Servers.{Tail, unset, unwritten}
use cmpe156_network_programm.Transfer.Table.{
  valid_conn, ThreadParam, fill_from, thread_params, is_active, connect_from, connect_behind,
}

-- What build_connection gives: -1, or a socket, which is not 0 while the standard input is open.
abbrev pub IsOutcome : ℤ → Type 0
IsOutcome (pos s) = 0 < s
IsOutcome (negsuc s) = Unit

-- The cells of `sockets`, those behind the tried servers being 0.
abbrev pub sockets_array : List ℤ → ℕ → List ℤ
sockets_array tried untried = tried ++ replicate untried (pos 0)

-- What the threads that download ask for.
unfoldable pub active_jobs : List ThreadParam → List Job
active_jobs [] = []
active_jobs (p ∷ ps) =
    let rest = active_jobs ps in
    if is_active p.socketfd
    then record {
      job_id = start_of p.file_part;
      file_name = p.filename;
      file_start = p.file_start;
      file_end = p.file_end;
    }
      ∷ rest
    else rest

active_jobs_untried :
    (k i v : ℕ) (name : Bytes) (total n single : ℕ)
    → active_jobs (fill_from i v (replicate k (pos 0)) name total n single) ≡ []
unfolding active_jobs fill_from
active_jobs_untried zero i v name total n single = refl
active_jobs_untried (suc k) i v name total n single =
    active_jobs_untried k (i + 1) (v + 1) name total n single

active_jobs-jobs_from :
    (tried : List ℤ) (k i v : ℕ) (name : Bytes) (total n single : ℕ)
    → All IsOutcome tried
    → active_jobs (fill_from i v (sockets_array tried k) name total n single)
      ≡ jobs_from (valid_conn tried) v n name total single
unfolding active_jobs fill_from valid_conn jobs_from job_of
active_jobs-jobs_from [] k i v name total n single a = active_jobs_untried k i v name total n single
active_jobs-jobs_from (pos zero ∷ tried) k i v name total n single a = absurd (omega arith)
active_jobs-jobs_from (pos (suc s) ∷ tried) k i v name total n single a =
    ap (λ js. job_of n name total single v ∷ js)
      (active_jobs-jobs_from tried k (i + 1) (v + 1) name total n single a.1)
active_jobs-jobs_from (negsuc s ∷ tried) k i v name total n single a =
    active_jobs-jobs_from tried k (i + 1) v name total n single a.1

connect_from-All :
    (tail : Tail) (room n : ℕ) (servers tried : List ℤ)
    → All IsOutcome servers
    → connect_from tail room n servers ≡ ok tried
    → All IsOutcome tried
unfolding connect_from connect_behind
connect_from-All unset room n [] tried a e = cc
connect_from-All unwritten zero n [] [] a e = tt
connect_from-All unwritten zero n [] (t ∷ tried) a e = cc
connect_from-All unwritten (suc room) zero [] [] a e = tt
connect_from-All unwritten (suc room) zero [] (t ∷ tried) a e = cc
connect_from-All unwritten (suc room) (suc n) [] tried a e = cc
connect_from-All tail zero n (s ∷ servers) [] a e = tt
connect_from-All tail zero n (s ∷ servers) (t ∷ tried) a e = cc
connect_from-All tail (suc room) zero (s ∷ servers) [] a e = tt
connect_from-All tail (suc room) zero (s ∷ servers) (t ∷ tried) a e = cc
connect_from-All tail (suc room) (suc n) (pos s ∷ servers) tried a e =
    let (more, run, made) = bind-eq-ok (connect_from tail room n servers) (λ l. ok (pos s ∷ l)) e in
    let is : pos s ∷ more ≡ tried = cc in
    subst (All IsOutcome) is (a.0, connect_from-All tail room n servers more a.1 run)
connect_from-All tail (suc room) (suc n) (negsuc s ∷ servers) tried a e =
    let (more, run, made) =
      bind-eq-ok (connect_from tail room (suc n) servers) (λ l. ok (negsuc s ∷ l)) e in
    let is : negsuc s ∷ more ≡ tried = cc in
    subst (All IsOutcome) is (tt, connect_from-All tail room (suc n) servers more a.1 run)

-- When main's loop over the servers ends without a fault and makes at least one connection, none
-- of them on descriptor 0, the parts that the threads of HW3 ask for are the jobs that createJobsList of HW4 makes for as
-- many jobs, in the same order.
pub thread_params-create_jobs_list :
    (tail : Tail) (servers tried : List ℤ) (connection_num untried : ℕ) (file name : Bytes)
    → All IsOutcome servers
    → connect_from tail 1024 connection_num servers ≡ ok tried
    → 0 < valid_conn tried
    → (jobs : JobList) × (create_jobs_list (valid_conn tried) name (length file) ≡ ok jobs)
      × Holds jobs (
          active_jobs
            (thread_params (sockets_array tried untried) name (length file) (valid_conn tried)))
unfolding thread_params
thread_params-create_jobs_list tail servers tried connection_num untried file name a run
      some_there =
    let n = valid_conn tried in
    let (jobs, made, held, whole) = create_jobs_list-combined n file name some_there in
    (
      jobs,
      made,
      rw
          (active_jobs-jobs_from tried untried 0 0 name (length file) n (length file / n)
            (connect_from-All tail 1024 connection_num servers tried a run))
          held,
    )
