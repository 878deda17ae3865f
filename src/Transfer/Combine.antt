-- ===== src/Transfer/Combine.antt =====
-- The loops of combine_file of HW3/client.c and combinefile of HW4/client.c, which are the same.
pub mod Parts
use cmpe156_network_programm.Prelude.{
  ℕ, zero, suc, ◌+◌, List, [], ◌∷◌, ◌++◌, Option, none, some, Result, ok, ◌>>=◌, load, store,
}
use cmpe156_network_programm.Libc.Str.{Bytes}

-- The loop over the bytes of one file. The memory at `buf` is its one byte and then `behind`, the bytes
-- behind it that nothing else uses: the language promises none. What is read has one byte, so
-- `buf[ret]` is the byte behind `buf`.
unfoldable pub copy_part : Bytes → Bytes → Result Bytes
copy_part behind [] = ok []
copy_part behind (c ∷ part) =
    let rest = copy_part behind part in
    store (c ∷ behind) 1 0 >>= λ buf. load buf 0 >>= λ byte. rest >>= λ bytes. ok (byte ∷ bytes)

abbrev pub in_front : Bytes → Option Bytes → Option Bytes
in_front bytes none = none
in_front bytes (some more) = some (bytes ++ more)

-- The loop over the parts' files from number `i` on, `k` of them; `open` is fopen of the file of a
-- number. If a file is not there the process ends.
unfoldable pub combine_from : Bytes → ℕ → ℕ → (ℕ → Option Bytes) → Result (Option Bytes)
combine_from behind zero i open_part = ok (some [])
combine_from behind (suc k) i open_part =
    let more = combine_from behind k (i + 1) open_part in
    elim (open_part i) [
      | none ↦ ok none
      | some part ↦ copy_part behind part >>= λ bytes. more >>= λ rest. ok (in_front bytes rest)
    ]
