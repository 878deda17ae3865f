-- ===== src/Transfer/Combine/Parts.antt =====
-- What combine_file and combinefile make of the parts of a file.
use cmpe156_network_programm.Prelude.{
  ℕ, zero, suc, ◌+◌, ◌/◌, ◌≡◌, ◌<◌, refl, ap, [], ◌∷◌, ◌++◌, arith, Option, some, Result, ok, fault,
  out_of_bounds, ◌>>=◌, length,
}
use cmpe156_network_programm.Libc.Str.{Bytes}
use cmpe156_network_programm.Transfer.Ranges.{bytes_of, combined, jobs_from, job_of}
use cmpe156_network_programm.Transfer.Combine.{copy_part, in_front, combine_from}

-- A text that is copied through a buffer of one byte with the bytes `behind` it unused.
abbrev pub copied : Bytes → Bytes → Result Bytes
copied behind [] = ok []
copied [] (c ∷ s) = fault out_of_bounds
copied (b ∷ behind) (c ∷ s) = ok (c ∷ s)

copy_part-copied : (behind part : Bytes) → copy_part behind part ≡ copied behind part
unfolding copy_part
copy_part-copied behind [] = refl
copy_part-copied [] (c ∷ part) = refl
copy_part-copied (b ∷ behind) (c ∷ []) = refl
copy_part-copied (b ∷ behind) (c ∷ d ∷ part) =
    ap (λ r. r >>= λ bytes. ok (c ∷ bytes)) (copy_part-copied (b ∷ behind) (d ∷ part))

copied-append :
    (behind s t : Bytes)
    → (copied behind s >>= λ bytes.
        (copied behind t >>= λ rest. ok (some rest)) >>= λ more. ok (in_front bytes more))
      ≡ (copied behind (s ++ t) >>= λ rest. ok (some rest))
copied-append behind [] [] = refl
copied-append [] [] (d ∷ t) = refl
copied-append (b ∷ behind) [] (d ∷ t) = refl
copied-append [] (c ∷ s) t = refl
copied-append (b ∷ behind) (c ∷ s) [] = refl
copied-append (b ∷ behind) (c ∷ s) (d ∷ t) = refl

pub combine_from-copied :
    (behind file name : Bytes) (n : ℕ) (open_part : ℕ → Option Bytes) (k i : ℕ)
    → ((m : ℕ)
        → m < i + k
        → i < suc m
        → open_part m ≡ some (bytes_of file (job_of n name (length file) (length file / n) m)))
    → combine_from behind k i open_part ≡ (
        copied behind (combined file (jobs_from k i n name (length file) (length file / n)))
        >>= λ s. ok (some s))
unfolding combine_from combined jobs_from
combine_from-copied behind file name n open_part zero i h = refl
combine_from-copied behind file name n open_part (suc k) i h =
    let part = bytes_of file (job_of n name (length file) (length file / n) i) in
    rw
      (
        combine_from,
        h i (omega arith) (omega arith),
        copy_part-copied behind part,
        combine_from-copied behind file name n open_part k (i + 1)
            (λ m b l. h m (omega arith) (omega arith)),
      )
      (copied-append behind part
        (combined file (jobs_from k (i + 1) n name (length file) (length file / n))))
