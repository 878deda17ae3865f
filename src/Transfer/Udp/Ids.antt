-- ===== src/Transfer/Udp/Ids.antt =====
-- The jobs of a download and their ids.
use mathlib.Core.List.{Memᴰ}
use cmpe156_network_programm.Prelude.{
  ℕ, zero, suc, ◌+◌, ◌≡◌, ◌≤◌, ◌<◌, refl, sym, ap, ◌∙◌, subst, inl, inr, List, [], ◌∷◌, arith,
  length, ◌==◌, Bool-cases,
}
use cmpe156_network_programm.Libc.Str.{Bytes, All}
use cmpe156_network_programm.Transfer.Jobs.{Job}
use cmpe156_network_programm.Transfer.Ranges.{jobs_from, job_of}
use cmpe156_network_programm.Transfer.Pool.Conserve.{times}

-- The ids of the jobs.
times-jobs_from_below :
    (i k v n : ℕ) (name : Bytes) (total single : ℕ)
    → i < v
    → times i (jobs_from k v n name total single) ≡ 0
unfolding times jobs_from job_of
times-jobs_from_below i zero v n name total single f = refl
times-jobs_from_below i (suc k) v n name total single f =
    ground (arith, times-jobs_from_below i k (v + 1) n name total single)

pub times-jobs_from :
    (i k v n : ℕ) (name : Bytes) (total single : ℕ)
    → v ≤ i
    → i < v + k
    → times i (jobs_from k v n name total single) ≡ 1
unfolding times jobs_from job_of
times-jobs_from i zero v n name total single f g = absurd (omega arith)
times-jobs_from i (suc k) v n name total single f g = elim (Bool-cases (v == i)) [
  | inl here ↦
      rw here (ap suc (times-jobs_from_below i k (v + 1) n name total single (ground arith)))
  | inr differs ↦
      rw differs (times-jobs_from i k (v + 1) n name total single (ground arith) (omega arith))
]

pub times-jobs_from_once :
    (i k v n : ℕ) (name : Bytes) (total single : ℕ)
    → times i (jobs_from k v n name total single) ≤ 1
unfolding times jobs_from job_of
times-jobs_from_once i zero v n name total single = omega arith
times-jobs_from_once i (suc k) v n name total single = elim (Bool-cases (v == i)) [
  | inl here ↦
      rw here (omega (arith, times-jobs_from_below i k (v + 1) n name total single (ground arith)))
  | inr differs ↦ rw differs (times-jobs_from_once i k (v + 1) n name total single)
]

-- A job of the list, by its id.
pub record IsPart (n : ℕ) (name : Bytes) (total single bound : ℕ) (j : Job) : Type 0 where
  pub made : j ≡ job_of n name total single j.job_id
  pub below : j.job_id < bound

pub Memᴰ-jobs_from :
    (j : Job) (k v n : ℕ) (name : Bytes) (total single : ℕ)
    → Memᴰ j (jobs_from k v n name total single)
    → IsPart n name total single (v + k) j
unfolding jobs_from
Memᴰ-jobs_from j zero v n name total single m = elim m [ ]
Memᴰ-jobs_from j (suc k) v n name total single (Memᴰ.head e) =
    let id : j.job_id ≡ v = unfold job_of in ap (λ (x : Job). x.job_id) e in
    record { made = e ∙ ap (job_of n name total single) (sym id); below = omega (arith, id) }
Memᴰ-jobs_from j (suc k) v n name total single (Memᴰ.tail m) =
    let part = Memᴰ-jobs_from j k (v + 1) n name total single m in
    record { made = part.made; below = omega (arith, part.below) }

pub length-jobs_from :
    (k v n : ℕ) (name : Bytes) (total single : ℕ) → length (jobs_from k v n name total single) ≡ k
unfolding jobs_from
length-jobs_from zero v n name total single = refl
length-jobs_from (suc k) v n name total single =
    ap suc (length-jobs_from k (v + 1) n name total single)

pub All-Memᴰ {ℓ} : (P : Job → Type ℓ) (all : List Job) (j : Job) → Memᴰ j all → All P all → P j
All-Memᴰ P [] j m h = elim m [ ]
All-Memᴰ P (k ∷ all) j (Memᴰ.head e) h = subst P (sym e) h.0
All-Memᴰ P (k ∷ all) j (Memᴰ.tail m) h = All-Memᴰ P all j m h.1
