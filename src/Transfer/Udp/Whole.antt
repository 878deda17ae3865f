-- ===== src/Transfer/Udp/Whole.antt =====
-- A download of HW4/client.c from servers that have the file.
use mathlib.Core.List.{Memᴰ}
use cmpe156_network_programm.Prelude.{
  ℕ, ◌/◌, ◌≡◌, ◌<◌, refl, sym, ap, ◌∙◌, subst, inl, inr, List, [], ◌∷◌, ◌++◌, arith, Option, some,
  ok, ◌>>=◌, length, length-append, ◌==◌, Bool-cases,
}
use cmpe156_network_programm.Libc.Str.{Bytes, All}
use cmpe156_network_programm.Transfer.Combine.Parts.{copied, combine_from-copied}
use cmpe156_network_programm.Transfer.Jobs.{Job}
use cmpe156_network_programm.Transfer.Ranges.{bytes_of, create_jobs_list-combined, jobs_of, job_of}
use cmpe156_network_programm.Transfer.Pool.{
  Address, Pool, Response, Worker, starting, ended, testing, choosing, leaving, fetching,
  udp_download_file,
}
use cmpe156_network_programm.Transfer.Pool.Known.{IsOf, All-parts}
use cmpe156_network_programm.Transfer.Pool.Conserve.{times, times-append, held_by, held, Keeps}
use cmpe156_network_programm.Transfer.Pool.Interleave.{
  times-held, length-held, times-nil, All-held_front, section-Keeps,
}
use cmpe156_network_programm.Transfer.Udp.{
  Temp, answer_job, Serves, Download, Move, Moves, run, no_move, further, combinefile,
}
use cmpe156_network_programm.Transfer.Udp.Parts.{FitsDatagram, HasFile, answer_job-bytes}
use cmpe156_network_programm.Transfer.Udp.Saving.{Saved, Delivers, IsTaken, advance-Saved}
use cmpe156_network_programm.Transfer.Udp.Ids.{
  times-jobs_from, times-jobs_from_once, Memᴰ-jobs_from, All-Memᴰ,
}

module _ (files : Bytes → Option Bytes) (n : ℕ) (name file : Bytes) (f : HasFile files name file)
    (fits : All FitsDatagram (jobs_of n name (length file))) where
  -- The jobs are in the lists or with a thread, and the files of the done ones are complete.
  pub record IsSaving (s : Download) : Type 0 where
    pub keeps : Keeps (jobs_of n name (length file)) s.threads.pool (held s.threads.workers)
    pub saved : All (Saved file s.temp) keeps.dones

  part-Delivers :
      (addr : Address) (job : Job) (rs : List Response)
      → Memᴰ job (jobs_of n name (length file))
      → Serves files (fetching addr job) rs
      → Delivers file (fetching addr job) rs
  part-Delivers addr job rs m (sent, e, got) =
      let part = Memᴰ-jobs_from job n 0 n name (length file) (length file / n) m in
      let d = All-Memᴰ FitsDatagram (jobs_of n name (length file)) job m fits in
      let (sent', e', written) =
        answer_job-bytes files name file n job.job_id f (omega (arith, part.below))
          (subst FitsDatagram part.made d) in
      let both : ok sent' ≡ ok sent = sym e' ∙ ap (answer_job files) (sym part.made) ∙ e in
      let same : sent' ≡ sent = cc in
      elim got [
        | inl whole ↦ inr (
            ap udp_download_file (whole ∙ sym same)
            ∙ written
            ∙ ap (λ j. (bytes_of file j, 0)) (sym part.made))
        | inr lost ↦ inl (rw lost (unfold udp_download_file in refl))
      ]

  worker-Delivers :
      (w : Worker) (rs : List Response)
      → All (IsOf (jobs_of n name (length file))) (held_by w)
      → Serves files w rs
      → Delivers file w rs
  unfolding held_by
  worker-Delivers starting rs a s = tt
  worker-Delivers ended rs a s = tt
  worker-Delivers (testing addr ret) rs a s = tt
  worker-Delivers (choosing addr ret) rs a s = tt
  worker-Delivers (leaving addr ret) rs a s = tt
  worker-Delivers (fetching addr job) rs a s = part-Delivers addr job rs a.0 s

  held-IsTaken :
      (before : List Worker) (w : Worker) (after : List Worker)
      → IsTaken (jobs_of n name (length file)) (held (before ++ w ∷ after)) w
  held-IsTaken before w after = record {
    distinct = λ i. times-jobs_from_once i n 0 n name (length file) (length file / n);
    counted = λ i. omega (
      arith,
      times-held i before w after,
      times-append i (held_by w) (held before ++ held after),
    );
    sized =
        omega (
          arith,
          length-held before w after,
          length-append (held_by w) (held before ++ held after),
        );
  }

  Move-IsSaving : (s t : Download) → Move files s t → IsSaving s → IsSaving t
  Move-IsSaving s t (run before w after rs next at u serves w' e to_workers to) g =
      let all = jobs_of n name (length file) in
      let (p2, w2, e2, k2) =
        section-Keeps all s.threads.pool before w after rs (rw at at g.keeps) u in
      let same : (p2, w2) ≡ (next.pool, w') = cc in
      let k3 : Keeps all next.pool (held (before ++ w' ∷ after)) =
        subst (λ (x : Pool × Worker). Keeps all x.0 (held (before ++ x.1 ∷ after))) same k2 in
      let k4 : Keeps all next.pool (held next.workers) =
        subst (λ ws. Keeps all next.pool (held ws)) (sym to_workers) k3 in
      let known =
        All-parts (IsOf all) (held_by w) (held before ++ held after)
          (All-held_front (IsOf all) before w after (rw at at g.keeps.taken_known)) in
      let taken : IsTaken all (held s.threads.workers) w =
        subst (λ ws. IsTaken all (held ws) w) (sym at) (held-IsTaken before w after) in
      subst IsSaving (sym to) (record {
        keeps = k4;
        saved =
            advance-Saved file all (held s.threads.workers) (held next.workers) s.threads.pool
              next.pool g.keeps k4 s.temp w w' rs taken (worker-Delivers w rs known.0 serves) e
              g.saved;
      })

  pub Moves-IsSaving : (s t : Download) → Moves files s t → IsSaving s → IsSaving t
  Moves-IsSaving s t no_move g = g
  Moves-IsSaving s t (further {t = u} before m) g =
      Move-IsSaving u t m (Moves-IsSaving s u before g)

  -- A done job of an id.
  part-Saved :
      (temp : Temp) (i : ℕ) (js : List Job)
      → times i js ≡ 1
      → All (IsOf (jobs_of n name (length file))) js
      → All (Saved file temp) js
      → temp i ≡ some (bytes_of file (job_of n name (length file) (length file / n) i))
  unfolding times
  part-Saved temp i [] e a h = absurd (omega arith)
  part-Saved temp i (j ∷ js) e a h = elim (Bool-cases (j.job_id == i)) [
    | inl here ↦
        let id : j.job_id ≡ i = ground arith in
        let part = Memᴰ-jobs_from j n 0 n name (length file) (length file / n) a.0 in
        let made = part.made ∙ ap (job_of n name (length file) (length file / n)) id in
        subst (λ k. temp k ≡ some (bytes_of file j)) id h.0 ∙ ap (λ k. some (bytes_of file k)) made
    | inr differs ↦ part-Saved temp i js (ground arith) a.1 h.1
  ]

  pub full-combined :
      (behind_buf : Bytes) (s : Download)
      → 0 < n
      → IsSaving s
      → s.threads.pool.done_jobs.occupied ≡ s.threads.pool.done_jobs.size
      → combinefile behind_buf n s.temp ≡ (copied behind_buf file >>= λ t. ok (some t))
  unfolding combinefile
  full-combined behind_buf s positive g full =
      let all = jobs_of n name (length file) in
      let k = g.keeps in
      let (jobs, made, hj, whole) = create_jobs_list-combined n file name positive in
      let complete : (i : ℕ) → times i k.dones ≡ times i all = λ i. omega (
        arith,
        k.kept i,
        times-nil i k.chunks (omega (arith, k.total, k.done_size, full, k.dones_held.counted)),
        times-nil i (held s.threads.workers)
            (omega (arith, k.total, k.done_size, full, k.dones_held.counted)),
      ) in
      combine_from-copied behind_buf file name n s.temp n 0 (λ m b l.
        part-Saved s.temp m k.dones
          (complete m
            ∙ times-jobs_from m n 0 n name (length file) (length file / n) (omega arith) b)
          k.dones_known g.saved)
      ∙ ap (λ t. copied behind_buf t >>= λ u. ok (some u)) whole
