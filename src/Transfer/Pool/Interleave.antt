-- ===== src/Transfer/Pool/Interleave.antt =====
-- The threads of the pool, interleaved.
use cmpe156_network_programm.Prelude.{
  ℕ, ◌≡◌, refl, sym, subst, false, List, [], ◌∷◌, ◌++◌, arith, ok, length, length-append,
}
use cmpe156_network_programm.DynArray.Refine.{Holds}
use cmpe156_network_programm.Transfer.Jobs.{Job}
use cmpe156_network_programm.Transfer.Pool.{Response, Pool, Worker, advance}
use cmpe156_network_programm.Libc.Str.{All}
use cmpe156_network_programm.Transfer.Pool.Known.{IsOf, All-join, All-parts}
use cmpe156_network_programm.Transfer.Pool.Conserve.{times, times-append, held_by, held, Keeps}
use cmpe156_network_programm.Transfer.Pool.Sections.{reads_unset, advance-Keeps}

-- The lists and the threads, numbered by their places.
pub record Threads : Type 0 where
  pub pool : Pool
  pub workers : List Worker

-- Any thread runs its next section.
pub data Step (s t : Threads) : Type 0 where
  run :
      (before : List Worker) (w : Worker) (after : List Worker) (rs : List Response) (p : Pool)
      (w' : Worker)
      → s.workers ≡ before ++ w ∷ after
      → reads_unset w ≡ false
      → advance s.pool w rs ≡ ok (p, w')
      → t ≡ record { pool = p; workers = before ++ w' ∷ after }
      → Step s t

pub data Steps (s : Threads) : Threads → Type 0 where
  none_run : Steps s s
  further : {t u : Threads} → Steps s t → Step t u → Steps s u

pub length-held :
    (before : List Worker) (w : Worker) (after : List Worker)
    → length (held (before ++ w ∷ after)) ≡ length (held_by w ++ (held before ++ held after))
unfolding held
length-held [] w after = refl
length-held (v ∷ before) w after = omega (
  arith,
  length-held before w after,
  length-append (held_by v) (held (before ++ w ∷ after)),
  length-append (held_by w) (held before ++ held after),
  length-append (held_by w) ((held_by v ++ held before) ++ held after),
  length-append (held_by v ++ held before) (held after),
  length-append (held_by v) (held before),
  length-append (held before) (held after),
)

pub times-held :
    (i : ℕ) (before : List Worker) (w : Worker) (after : List Worker)
    → times i (held (before ++ w ∷ after)) ≡ times i (held_by w ++ (held before ++ held after))
unfolding held
times-held i [] w after = refl
times-held i (v ∷ before) w after = omega (
  arith,
  times-held i before w after,
  times-append i (held_by v) (held (before ++ w ∷ after)),
  times-append i (held_by w) (held before ++ held after),
  times-append i (held_by w) ((held_by v ++ held before) ++ held after),
  times-append i (held_by v ++ held before) (held after),
  times-append i (held_by v) (held before),
  times-append i (held before) (held after),
)

-- What is known of the jobs that the threads hold, in either order.
pub All-held_front {ℓ} :
    (P : Job → Type ℓ) (before : List Worker) (w : Worker) (after : List Worker)
    → All P (held (before ++ w ∷ after))
    → All P (held_by w ++ (held before ++ held after))
unfolding held
All-held_front P [] w after h = h
All-held_front P (v ∷ before) w after h =
    let (here, others) = All-parts P (held_by v) (held (before ++ w ∷ after)) h in
    let rest =
      All-parts P (held_by w) (held before ++ held after)
        (All-held_front P before w after others) in
    let (front, back) = All-parts P (held before) (held after) rest.1 in
    All-join P (held_by w) ((held_by v ++ held before) ++ held after) rest.0 (
      All-join P (held_by v ++ held before) (held after)
        (All-join P (held_by v) (held before) here front) back)

All-held_back {ℓ} :
    (P : Job → Type ℓ) (before : List Worker) (w : Worker) (after : List Worker)
    → All P (held_by w ++ (held before ++ held after))
    → All P (held (before ++ w ∷ after))
unfolding held
All-held_back P [] w after h = h
All-held_back P (v ∷ before) w after h =
    let (own, others) = All-parts P (held_by w) ((held_by v ++ held before) ++ held after) h in
    let (fronts, back) = All-parts P (held_by v ++ held before) (held after) others in
    let (here, front) = All-parts P (held_by v) (held before) fronts in
    All-join P (held_by v) (held (before ++ w ∷ after)) here (
      All-held_back P before w after (
        All-join P (held_by w) (held before ++ held after) own
          (All-join P (held before) (held after) front back)))

-- The order of the jobs that the threads hold does not matter.
Keeps-reorder :
    (all : List Job) (p : Pool) (xs ys : List Job)
    → Keeps all p xs
    → length xs ≡ length ys
    → All (IsOf all) ys
    → ((i : ℕ) → times i xs ≡ times i ys)
    → Keeps all p ys
Keeps-reorder all p xs ys k e a f = record {
  servers = k.servers;
  chunks = k.chunks;
  dones = k.dones;
  servers_held = k.servers_held;
  chunks_held = k.chunks_held;
  dones_held = k.dones_held;
  chunk_size = k.chunk_size;
  done_size = k.done_size;
  total = omega (arith, k.total);
  chunks_known = k.chunks_known;
  dones_known = k.dones_known;
  taken_known = a;
  kept = λ i. omega (arith, k.kept i, f i);
}

pub section-Keeps :
    (all : List Job) (p : Pool) (before : List Worker) (w : Worker) (after : List Worker)
    (rs : List Response)
    → Keeps all p (held (before ++ w ∷ after))
    → reads_unset w ≡ false
    → (p' : Pool) × (w' : Worker) × (advance p w rs ≡ ok (p', w'))
      × Keeps all p' (held (before ++ w' ∷ after))
section-Keeps all p before w after rs k u =
    let others = held before ++ held after in
    let front =
      Keeps-reorder all p (held (before ++ w ∷ after)) (held_by w ++ others) k
        (length-held before w after) (All-held_front (IsOf all) before w after k.taken_known)
        (λ i. times-held i before w after) in
    let (p', w', e, k') = advance-Keeps all p w rs others front u in
    (
      p',
      w',
      e,
      Keeps-reorder all p' (held_by w' ++ others) (held (before ++ w' ∷ after)) k'
          (sym (length-held before w' after))
          (All-held_back (IsOf all) before w' after k'.taken_known)
          (λ i. sym (times-held i before w' after)),
    )

-- However the threads interleave, every job stays in one of the two lists or held by one thread.
pub Steps-Keeps :
    (all : List Job) {s t : Threads}
    → Steps s t
    → Keeps all s.pool (held s.workers)
    → Keeps all t.pool (held t.workers)
Steps-Keeps all none_run k = k
Steps-Keeps all (further {t} st (run before w after rs p w' at u e to)) k =
    let k1 = Steps-Keeps all st k in
    let (p2, w2, e2, k2) = section-Keeps all t.pool before w after rs (rw at at k1) u in
    let same : (p2, w2) ≡ (p, w') = cc in
    rw to (subst (λ (x : Pool × Worker). Keeps all x.0 (held (before ++ x.1 ∷ after))) same k2)

pub times-nil : (i : ℕ) (js : List Job) → length js ≡ 0 → times i js ≡ 0
unfolding times
times-nil i [] e = refl
times-nil i (j ∷ js) e = absurd (omega arith)

-- From a state that keeps the jobs, however the sections of the threads interleave, whenever the
-- list of done jobs is full, it holds every job as often as it was created.
pub done_jobs_complete :
    (all : List Job) (s t : Threads)
    → Keeps all s.pool (held s.workers)
    → Steps s t
    → t.pool.done_jobs.occupied ≡ t.pool.done_jobs.size
    → (ds : List Job) × Holds t.pool.done_jobs ds × ((i : ℕ) → times i ds ≡ times i all)
done_jobs_complete all s t k st full =
    let k1 = Steps-Keeps all st k in
    let counted = k1.dones_held.counted in
    (
      k1.dones,
      k1.dones_held,
      λ i. omega (
        arith,
        k1.kept i,
        times-nil i k1.chunks (omega (arith, k1.total, k1.done_size)),
        times-nil i (held t.workers) (omega (arith, k1.total, k1.done_size)),
      ),
    )
