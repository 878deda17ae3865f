-- ===== src/Transfer/Stream/Delivery.antt =====
-- The packages of one part, uploaded and read.
use cmpe156_network_programm.Prelude.{
  ℕ, zero, suc, ◌+◌, ◌-◌, ◌*◌, ◌≡◌, ◌≢◌, ◌≤◌, ◌<◌, refl, ap, ◌∙◌, ◌⊎◌, List, [], ◌∷◌, ◌++◌,
  append-nil, arith, ok, fault, out_of_bounds, ◌>>=◌, length, ℤ, pos, negsuc, lt→ltb, le→ltb,
}
use native.Mathlib.Decide.{dec_lt}
use cmpe156_network_programm.Prelude.{take, drop, ◌%◌}
use cmpe156_network_programm.Libc.Str.{Bytes, NoNul, c_string-text, codes, str_eq}
use cmpe156_network_programm.Transfer.Ranges.{length-drop, drop-drop}
use cmpe156_network_programm.Transfer.Stream.{
  ServerPackage, pack, upload_from, server_upload_file, is_last, write_parts,
}

pub length-take : (m : ℕ) (xs : Bytes) → m ≤ length xs → length (take m xs) ≡ m
length-take zero xs h = refl
length-take (suc m) [] h = absurd (omega arith)
length-take (suc m) (x ∷ xs) h = ap suc (length-take m xs (omega arith))

pub NoNul-take : (m : ℕ) (xs : Bytes) → NoNul xs → NoNul (take m xs)
NoNul-take zero xs h = tt
NoNul-take (suc m) [] h = tt
NoNul-take (suc m) (x ∷ xs) h = (h.0, NoNul-take m xs h.1)

pub NoNul-drop : (n : ℕ) (xs : Bytes) → NoNul xs → NoNul (drop n xs)
NoNul-drop zero xs h = h
NoNul-drop (suc n) [] h = tt
NoNul-drop (suc n) (x ∷ xs) h = NoNul-drop n xs h.1

take_add : (n m k : ℕ) (xs : Bytes) → k ≡ n + m → take n xs ++ take m (drop n xs) ≡ take k xs
take_add zero m k xs e = ap (λ j. take j xs) (omega arith)
take_add (suc n) m zero xs e = absurd (omega arith)
take_add (suc n) zero (suc k) [] e = refl
take_add (suc n) (suc m) (suc k) [] e = refl
take_add (suc n) m (suc k) (x ∷ xs) e = ap (λ l. x ∷ l) (take_add n m k xs (omega arith))

-- A block and what is behind it, up to `stop`.
take-drop_block :
    (cur stop : ℕ) (file : Bytes)
    → 1024 + cur < stop
    → take 1023 (drop cur file) ++ take (stop - (cur + 1023)) (drop (cur + 1023) file)
      ≡ take (stop - cur) (drop cur file)
take-drop_block cur stop file h =
    rw (drop-drop cur 1023 (cur + 1023) file refl)
      (take_add 1023 (stop - (cur + 1023)) (stop - cur) (drop cur file) (omega arith))

-- The package of a text short of 1024 bytes.
abbrev pub text_package : Bytes → ℤ → ServerPackage
text_package t is_end = record {
  cmd = codes "DWN";
  content_is_end = is_end;
  content_length = length t;
  file_content = t;
}

pub pack-package :
    (t : Bytes) (is_end : ℤ)
    → NoNul t
    → length t < 1024
    → pack t is_end ≡ ok (text_package t is_end)
unfolding pack
pack-package t is_end h f = ground (arith, c_string-text t [] h)

pack_overflow : (t : Bytes) (is_end : ℤ) → 1024 ≤ length t → pack t is_end ≡ fault out_of_bounds
unfolding pack
pack_overflow t is_end h = ground arith

-- One round of the loop, and its end.
upload_round :
    (fuel : ℕ) (file : Bytes) (cur stop : ℕ) (next : ℕ)
    → NoNul file
    → stop ≤ length file
    → 1024 + cur < stop
    → next ≡ cur + 1023
    → upload_from (suc fuel) file cur stop ≡ (
        upload_from fuel file next stop >>= λ ps.
        ok (text_package (take 1023 (drop cur file)) (negsuc 0) ∷ ps))
unfolding upload_from
upload_round fuel file cur stop next nn le lt e =
    let block = take 1023 (drop cur file) in
    let full : length block ≡ 1023 =
      length-take 1023 (drop cur file) (omega (arith, length-drop cur file)) in
    let at : cur + length block ≡ next = omega arith in
    rw
      (
        at,
        lt→ltb 1024 (stop - cur) (omega arith),
        pack-package block (negsuc 0) (NoNul-take 1023 (drop cur file) (NoNul-drop cur file nn))
            (omega arith),
      )
      refl

upload_last :
    (fuel : ℕ) (file : Bytes) (cur stop : ℕ)
    → stop ≤ 1024 + cur
    → upload_from (suc fuel) file cur stop
      ≡ (pack (take (stop - cur) (drop cur file)) (pos 1) >>= λ p. ok (p ∷ []))
unfolding upload_from
upload_last fuel file cur stop h = rw (le→ltb 1024 (stop - cur) (omega arith)) refl

download_round :
    (t : Bytes) (ps : List ServerPackage)
    → write_parts (text_package t (negsuc 0) ∷ ps) ≡ t ++ write_parts ps
unfolding write_parts is_last str_eq
download_round t ps = refl

download_last :
    (t : Bytes) (ps : List ServerPackage) → write_parts (text_package t (pos 1) ∷ ps) ≡ t
unfolding write_parts is_last str_eq
download_last t ps = append-nil t

-- A part whose last package does not have exactly 1024 bytes: the packages before it take 1023
-- each.
abbrev pub IsSendable : ℕ → Type 0
IsSendable n = (n < 1024) ⊎ (n % 1023 ≢ 1)

upload_from-download :
    (fuel : ℕ) (file : Bytes) (cur stop : ℕ) (later : List ServerPackage)
    → stop - cur < fuel
    → NoNul file
    → cur ≤ stop
    → stop ≤ length file
    → IsSendable (stop - cur)
    → (ps : List ServerPackage) × (upload_from fuel file cur stop ≡ ok ps)
      × (write_parts (ps ++ later) ≡ take (stop - cur) (drop cur file))
upload_from-download zero file cur stop later f nn le fits s = absurd (omega arith)
upload_from-download (suc fuel) file cur stop later f nn le fits s =
    elim (dec_lt (1024 + cur) stop) [
      | yes long ↦
          let (ps, e, d) =
            upload_from-download fuel file (cur + 1023) stop later (omega arith) nn (omega arith)
              fits (omega arith) in
          let block = take 1023 (drop cur file) in
          (
            text_package block (negsuc 0) ∷ ps,
            rw (upload_round fuel file cur stop (cur + 1023) nn fits long refl, e) refl,
            download_round block (ps ++ later)
                ∙ ap (λ t. block ++ t) d
                ∙ take-drop_block cur stop file long,
          )
      | no short ↦
          let block = take (stop - cur) (drop cur file) in
          let size : length block ≡ stop - cur =
            length-take (stop - cur) (drop cur file) (omega (arith, length-drop cur file)) in
          let e : pack block (pos 1) ≡ ok (text_package block (pos 1)) =
            pack-package block (pos 1)
              (NoNul-take (stop - cur) (drop cur file) (NoNul-drop cur file nn)) (omega arith) in
          (
            text_package block (pos 1) ∷ [],
            rw (upload_last fuel file cur stop (omega arith), e) refl,
            download_last block later,
          )
    ]

-- For a part of a file without NUL bytes that ends inside the file and is below 1024 bytes or
-- not one more than a multiple of 1023, the upload ends without a fault, and the loop of
-- download_single_part on its packages writes the part.
pub server_upload_file-download :
    (file : Bytes) (start stop : ℕ)
    → NoNul file
    → start ≤ stop
    → stop ≤ length file
    → IsSendable (stop - start)
    → (ps : List ServerPackage) × (server_upload_file file start stop ≡ ok ps)
      × (write_parts ps ≡ take (stop - start) (drop start file))
unfolding server_upload_file
server_upload_file-download file start stop nn le fits s =
    let (ps, e, d) =
      upload_from-download (suc (stop - start)) file start stop [] (omega arith) nn le fits s in
    (ps, e, rw (append-nil ps) at d)

-- Where exactly 1024 bytes are left for the last package, its NUL is written behind `data`.
upload_from_overflow :
    (k fuel : ℕ) (file : Bytes) (cur stop : ℕ)
    → k < fuel
    → NoNul file
    → stop ≤ length file
    → stop ≡ cur + (1023 * k + 1024)
    → upload_from fuel file cur stop ≡ fault out_of_bounds
upload_from_overflow k zero file cur stop f nn fits e = absurd (omega arith)
upload_from_overflow zero (suc fuel) file cur stop f nn fits e =
    let block = take (stop - cur) (drop cur file) in
    let full : length block ≡ stop - cur =
      length-take (stop - cur) (drop cur file) (omega (arith, length-drop cur file)) in
    rw (upload_last fuel file cur stop (omega arith), pack_overflow block (pos 1) (omega arith))
      refl
upload_from_overflow (suc k) (suc fuel) file cur stop f nn fits e =
    rw
      (
        upload_round fuel file cur stop (cur + 1023) nn fits (omega arith) refl,
        upload_from_overflow k fuel file (cur + 1023) stop (omega arith) nn fits (omega arith),
      )
      refl

-- For a part of 1024 + 1023 * k bytes that ends inside a file without NUL bytes,
-- server_upload_file writes a NUL one byte behind its block.
pub server_upload_file_overflow :
    (k start : ℕ) (file : Bytes)
    → NoNul file
    → start + (1023 * k + 1024) ≤ length file
    → server_upload_file file start (start + (1023 * k + 1024)) ≡ fault out_of_bounds
unfolding server_upload_file
server_upload_file_overflow k start file nn fits =
    upload_from_overflow k (suc (start + (1023 * k + 1024) - start)) file start
      (start + (1023 * k + 1024)) (omega arith) nn fits refl
