-- ===== src/Transfer/Pool/Conserve.antt =====
-- Where the jobs of the pool are, and the sections that move servers and jobs.
use cmpe156_network_programm.Prelude.{
  ℕ, suc, ◌+◌, ◌-◌, ◌≡◌, refl, ap, ◌∙◌, ◌⊎◌, inl, inr, List, [], ◌∷◌, ◌++◌, append-nil, arith, none,
  some, Result, ok, length, length-append, ◌==◌, if◌then◌else◌,
}
use cmpe156_network_programm.DynArray.Refine.{
  Holds, add_item-Holds, get_item-Holds, remove_item-Holds,
}
use cmpe156_network_programm.Transfer.Jobs.{Job, pop_job_item-Holds, pop_job_item-size}
use cmpe156_network_programm.Libc.Str.{All}
use cmpe156_network_programm.Transfer.Pool.Known.{IsOf, All-parts}
use cmpe156_network_programm.Transfer.Pool.{
  Address, Pool, Worker, starting, ended, testing, choosing, leaving, fetching, take_server,
  release_server, take_job, add_server_item, get_server_item, remove_server_item,
}

-- How many jobs of a list have an id.
unfoldable pub times : ℕ → List Job → ℕ
times i [] = 0
times i (j ∷ js) = let rest = times i js in if j.job_id == i then suc rest else rest

pub times-append : (i : ℕ) (xs ys : List Job) → times i (xs ++ ys) ≡ times i xs + times i ys
unfolding times
times-append i [] ys = omega arith
times-append i (x ∷ xs) ys = ground (arith, times-append i xs ys)

-- The job that a thread has taken and not yet put back.
unfoldable pub held_by : Worker → List Job
held_by starting = []
held_by ended = []
held_by (testing addr ret) = []
held_by (choosing addr ret) = []
held_by (leaving addr ret) = []
held_by (fetching addr job) = job ∷ []

unfoldable pub held : List Worker → List Job
held [] = []
held (w ∷ ws) = held_by w ++ held ws

-- Of the jobs `all`, every one is in exactly one of the lists or held by a thread.
pub record Keeps (all : List Job) (p : Pool) (taken : List Job) : Type 0 where
  pub servers : List Address
  pub chunks : List Job
  pub dones : List Job
  pub servers_held : Holds p.server_info_list servers
  pub chunks_held : Holds p.chunk_jobs chunks
  pub dones_held : Holds p.done_jobs dones
  pub chunk_size : p.chunk_jobs.size ≡ length all
  pub done_size : p.done_jobs.size ≡ length all
  pub total : length chunks + length dones + length taken ≡ length all
  pub chunks_known : All (IsOf all) chunks
  pub dones_known : All (IsOf all) dones
  pub taken_known : All (IsOf all) taken
  pub kept : (i : ℕ) → times i chunks + times i dones + times i taken ≡ times i all

Snoc-cases {ℓ} :
    {A : Type ℓ} (xs : List A) → (xs ≡ []) ⊎ ((ys : List A) × (y : A) × (xs ≡ ys ++ y ∷ []))
Snoc-cases [] = inl refl
Snoc-cases (x ∷ xs) = elim (Snoc-cases xs) [
  | inl e ↦ inr ([], x, ap (λ l. x ∷ l) e)
  | inr (ys, y, e) ↦ inr (x ∷ ys, y, ap (λ l. x ∷ l) e)
]

-- A section that succeeds, and keeps the jobs with those that the other threads hold.
abbrev pub Goes : List Job → List Job → Result (Pool × Worker) → Type 0
Goes all other r =
    (p' : Pool) × (w' : Worker) × (r ≡ ok (p', w')) × Keeps all p' (held_by w' ++ other)

pub take_server-Goes :
    (all : List Job) (p : Pool) (other : List Job)
    → Keeps all p other
    → Goes all other (take_server p)
unfolding take_server get_server_item remove_server_item held_by
take_server-Goes all p other k = elim (Snoc-cases k.servers) [
  | inl e ↦
      let none_left : p.server_info_list.occupied ≡ 0 = k.servers_held.counted ∙ ap length e in
      (p, starting, ground (arith, none_left), k)
  | inr (ys, y, e) ↦
      let h : Holds p.server_info_list (ys ++ y ∷ []) = rw e at k.servers_held in
      let at : p.server_info_list.occupied - 1 ≡ length ys =
        omega (arith, h.counted, length-append ys (y ∷ [])) in
      let (b, d, hb) =
        remove_item-Holds p.server_info_list ys y [] (p.server_info_list.occupied - 1) h at in
      let got = get_item-Holds p.server_info_list ys y [] (p.server_info_list.occupied - 1) h at in
      (
        record p { server_info_list = b },
        testing y none,
        ground (arith, h.counted, length-append ys (y ∷ []), got, d),
        record {
          servers = ys;
          chunks = k.chunks;
          dones = k.dones;
          servers_held = rw append-nil at hb;
          chunks_held = k.chunks_held;
          dones_held = k.dones_held;
          chunk_size = k.chunk_size;
          done_size = k.done_size;
          total = k.total;
          chunks_known = k.chunks_known;
          dones_known = k.dones_known;
          taken_known = k.taken_known;
          kept = k.kept;
        },
      )
]

pub release_server-Goes :
    (all : List Job) (p : Pool) (addr : Address) (other : List Job)
    → Keeps all p other
    → Goes all other (release_server p addr)
unfolding release_server add_server_item held_by
release_server-Goes all p addr other k =
    let (b, e, hb) = add_item-Holds p.server_info_list k.servers addr k.servers_held in
    (
      record p { server_info_list = b },
      ended,
      rw e refl,
      record {
        servers = k.servers ++ addr ∷ [];
        chunks = k.chunks;
        dones = k.dones;
        servers_held = hb;
        chunks_held = k.chunks_held;
        dones_held = k.dones_held;
        chunk_size = k.chunk_size;
        done_size = k.done_size;
        total = k.total;
        chunks_known = k.chunks_known;
        dones_known = k.dones_known;
        taken_known = k.taken_known;
        kept = k.kept;
      },
    )

pub take_job-Goes :
    (all : List Job) (p : Pool) (addr : Address) (other : List Job)
    → Keeps all p other
    → Goes all other (take_job p addr)
unfolding take_job held_by
take_job-Goes all p addr other k = elim (Snoc-cases k.chunks) [
  | inl e ↦
      let none_left : p.chunk_jobs.occupied ≡ 0 = k.chunks_held.counted ∙ ap length e in
      let (p', w', d, k') = release_server-Goes all p addr other k in
      (p', w', ground (arith, none_left, d), k')
  | inr (ys, y, e) ↦
      let h : Holds p.chunk_jobs (ys ++ y ∷ []) = rw e at k.chunks_held in
      let (b, d, hb) = pop_job_item-Holds p.chunk_jobs ys y h in
      let left = All-parts (IsOf all) ys (y ∷ []) (rw e at k.chunks_known) in
      let sized : length k.chunks ≡ length ys + 1 = ap length e ∙ length-append ys (y ∷ []) in
      (
        record p { chunk_jobs = b },
        fetching addr y,
        ground (arith, h.counted, length-append ys (y ∷ []), d),
        record {
          servers = k.servers;
          chunks = ys;
          dones = k.dones;
          servers_held = k.servers_held;
          chunks_held = hb;
          dones_held = k.dones_held;
          chunk_size = pop_job_item-size p.chunk_jobs b (some y) d ∙ k.chunk_size;
          done_size = k.done_size;
          total = omega (arith, k.total, sized);
          chunks_known = left.0;
          dones_known = k.dones_known;
          taken_known = (left.1.0, k.taken_known);
          kept = λ i. omega (
            arith,
            k.kept i,
            ap (times i) e,
            times-append i ys (y ∷ []),
            times-append i (y ∷ []) other,
          );
        },
      )
]
