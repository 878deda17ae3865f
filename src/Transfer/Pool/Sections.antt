-- ===== src/Transfer/Pool/Sections.antt =====
-- One section of a thread, and where the jobs are afterwards.
use cmpe156_network_programm.Prelude.{
  ◌≡◌, refl, ◌∙◌, ◌⊎◌, inl, inr, Bool, true, false, List, [], ◌∷◌, ◌++◌, arith, none, some, ok,
  length-append, ◌==◌, Bool-cases,
}
use cmpe156_network_programm.Transfer.Jobs.{Job, add_job_item-Holds}
use cmpe156_network_programm.Transfer.Pool.{
  Address, Response, udp_download_file, Pool, Worker, starting, ended, testing, choosing, leaving,
  fetching, record_job, leave_with, advance,
}
use cmpe156_network_programm.Transfer.Pool.Known.{IsOf, All-join}
use cmpe156_network_programm.Transfer.Pool.Conserve.{
  times-append, held_by, Keeps, Goes, take_server-Goes, release_server-Goes, take_job-Goes,
}

udp-result : (rs : List Response) → ((udp_download_file rs).1 ≡ 0) ⊎ ((udp_download_file rs).1 ≡ 1)
unfolding udp_download_file
udp-result [] = inr refl
udp-result (r ∷ rs) = ground (arith, udp-result rs)

-- A job that a thread holds leaves room for it in both lists.
record_done-Goes :
    (all : List Job) (p : Pool) (addr : Address) (job : Job) (other : List Job)
    → Keeps all p (job ∷ other)
    → Goes all other (record_job p addr job 0)
unfolding record_job held_by
record_done-Goes all p addr job other k =
    let (b, e, hb, eb) =
      add_job_item-Holds p.done_jobs k.dones job k.dones_held
        (omega (arith, k.total, k.done_size)) in
    (
      record p { done_jobs = b },
      testing addr (some 0),
      rw e refl,
      record {
        servers = k.servers;
        chunks = k.chunks;
        dones = k.dones ++ job ∷ [];
        servers_held = k.servers_held;
        chunks_held = k.chunks_held;
        dones_held = hb;
        chunk_size = k.chunk_size;
        done_size = eb ∙ k.done_size;
        total = omega (arith, k.total, length-append k.dones (job ∷ []));
        chunks_known = k.chunks_known;
        dones_known = All-join (IsOf all) k.dones (job ∷ []) k.dones_known (k.taken_known.0, tt);
        taken_known = k.taken_known.1;
        kept = λ i.
            omega
              (arith, k.kept i, times-append i k.dones (job ∷ []), times-append i (job ∷ []) other);
      },
    )

record_back-Goes :
    (all : List Job) (p : Pool) (addr : Address) (job : Job) (other : List Job)
    → Keeps all p (job ∷ other)
    → Goes all other (record_job p addr job 1)
unfolding record_job held_by
record_back-Goes all p addr job other k =
    let (b, e, hb, eb) =
      add_job_item-Holds p.chunk_jobs k.chunks job k.chunks_held
        (omega (arith, k.total, k.chunk_size)) in
    (
      record p { chunk_jobs = b },
      leaving addr (some 1),
      rw e refl,
      record {
        servers = k.servers;
        chunks = k.chunks ++ job ∷ [];
        dones = k.dones;
        servers_held = k.servers_held;
        chunks_held = hb;
        dones_held = k.dones_held;
        chunk_size = eb ∙ k.chunk_size;
        done_size = k.done_size;
        total = omega (arith, k.total, length-append k.chunks (job ∷ []));
        chunks_known = All-join (IsOf all) k.chunks (job ∷ []) k.chunks_known (k.taken_known.0, tt);
        dones_known = k.dones_known;
        taken_known = k.taken_known.1;
        kept = λ i.
            omega (
              arith,
              k.kept i,
              times-append i k.chunks (job ∷ []),
              times-append i (job ∷ []) other,
            );
      },
    )

-- The thread reads `ret` although no download has set it.
abbrev pub reads_unset : Worker → Bool
reads_unset starting = false
reads_unset ended = false
reads_unset (testing addr ret) = false
reads_unset (choosing addr ret) = false
reads_unset (fetching addr job) = false
reads_unset (leaving addr none) = true
reads_unset (leaving addr (some ret)) = false

-- Whatever a thread is at and its server sends, its next section keeps every job with the others',
-- and succeeds, unless it reads `ret` before a download has set it.
pub advance-Keeps :
    (all : List Job) (p : Pool) (w : Worker) (rs : List Response) (other : List Job)
    → Keeps all p (held_by w ++ other)
    → reads_unset w ≡ false
    → (p' : Pool) × (w' : Worker) × (advance p w rs ≡ ok (p', w'))
      × Keeps all p' (held_by w' ++ other)
unfolding advance held_by leave_with
advance-Keeps all p starting rs other k u = take_server-Goes all p other k
advance-Keeps all p (testing addr ret) rs other k u =
    elim (Bool-cases (p.done_jobs.occupied == p.done_jobs.size)) [
      | inl all_done ↦ (p, leaving addr ret, ground (arith, all_done), k)
      | inr more ↦ (p, choosing addr ret, ground (arith, more), k)
    ]
advance-Keeps all p (choosing addr ret) rs other k u = take_job-Goes all p addr other k
advance-Keeps all p (fetching addr job) rs other k u = elim (udp-result rs) [
  | inl good ↦ rw good (record_done-Goes all p addr job other k)
  | inr down ↦ rw down (record_back-Goes all p addr job other k)
]
advance-Keeps all p (leaving addr none) rs other k u = cc
advance-Keeps all p (leaving addr (some ret)) rs other k u = elim (Bool-cases (ret == 1)) [
  | inl down ↦ (p, ended, ground (arith, down), k)
  | inr alive ↦
      let (p', w', e, k') = release_server-Goes all p addr other k in
      (p', w', ground (arith, alive, e), k')
]
advance-Keeps all p ended rs other k u = (p, ended, refl, k)
