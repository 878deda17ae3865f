-- ===== src/Transfer/Pool/Stranded.antt =====
-- A job that no thread is left to take.
use cmpe156_network_programm.Prelude.{ℕ, ◌≡◌, ◌<◌, refl, List, [], ◌∷◌, arith, Option, some}
use cmpe156_network_programm.DynArray.Refine.{Holds, add_item-Holds}
use cmpe156_network_programm.Transfer.Jobs.{Job, add_job_item-Holds}
use cmpe156_network_programm.Transfer.Pool.{
  Address, Pool, choosing, fetching, leaving, ended, advance, take_job, record_job, leave_with,
  release_server, add_server_item, udp_download_file,
}
use cmpe156_network_programm.Transfer.Pool.Interleave.{Threads, Steps, none_run, further, run}

-- When one thread is about to take a job and the list is empty while another downloads the last
-- job, a timeout of that download leads to a state in which both threads have ended and the job
-- is still in the list, provided the list has room.
pub stranded :
    (p : Pool) (servers : List Address) (a b : Address) (ret : Option ℕ) (job : Job)
    → Holds p.server_info_list servers
    → Holds p.chunk_jobs []
    → 0 < p.chunk_jobs.size
    → (t : Threads) × Steps (record { pool = p; workers = choosing a ret ∷ fetching b job ∷ [] }) t
      × (t.workers ≡ ended ∷ ended ∷ [])
      × Holds t.pool.chunk_jobs (job ∷ [])
unfolding advance take_job record_job leave_with release_server add_server_item udp_download_file
stranded p servers a b ret job hs hc room =
    let (sl, es, hsl) = add_item-Holds p.server_info_list servers a hs in
    let (cl, ec, hcl, sized) = add_job_item-Holds p.chunk_jobs [] job hc room in
    let p1 = record p { server_info_list = sl } in
    let p2 = record p1 { chunk_jobs = cl } in
    (
      record { pool = p2; workers = ended ∷ ended ∷ [] },
      further
          (further
            (further none_run (
              run [] (choosing a ret) (fetching b job ∷ []) [] p1 ended refl refl
                (ground (arith, hc.counted, es)) refl))
            (run (ended ∷ []) (fetching b job) [] [] p2 (leaving b (some 1)) refl refl (rw ec refl)
              refl))
          (run (ended ∷ []) (leaving b (some 1)) [] [] p2 ended refl refl refl refl),
      refl,
      hcl,
    )
