-- ===== src/Transfer/Stream.antt =====
-- One part of a file over TCP: server_upload_file of HW3/mysocket.c, and download_single_part of
-- HW3/client.c.
pub mod Delivery
pub mod Endless
use cmpe156_network_programm.Prelude.{
  ℕ, zero, suc, ◌+◌, ◌-◌, ◌*◌, ◌≡◌, ◌≢◌, ◌≤◌, ◌<◌, refl, sym, ap, ◌∙◌, subst, ◌⊎◌, inl, inr, Bool,
  true, false, ◌&&◌, ◌||◌, not, List, [], ◌∷◌, ◌++◌, append_assoc, append-nil, arith, Option, none,
  some, Result, ok, fault, Fault, null_pointer, out_of_bounds, out_of_fuel, indeterminate, ◌>>=◌,
  deref, load, store, length, length-append, length-replicate, replicate, map, ℤ, pos, negsuc, ◌==◌,
  leb, ltb, if◌then◌else◌, Bool-cases, bind-eq-ok, Option-cases, lt→leb, le→leb, lt→ltb, le→ltb,
  ==_iff,
}
use cmpe156_network_programm.Prelude.{take, drop, ◌%◌}
use cmpe156_network_programm.Libc.Number.{format_d}
use cmpe156_network_programm.Libc.Str.{
  Bytes, NoNul, NoNul-append, c_string, c_string-text, codes, str_eq,
}

-- The fields of server_package that a download uses.
pub record ServerPackage : Type 0 where
  pub cmd : Bytes
  pub content_is_end : ℤ
  pub content_length : ℕ
  pub file_content : Bytes

abbrev pub buffer_size : ℕ
buffer_size = 1024

-- fread of `count` bytes at a position
abbrev pub fread : Bytes → ℕ → ℕ → Bytes
fread file at count = take count (drop at file)

-- The block that was read gets a NUL at `data[rt]`, and its text goes into the package.
unfoldable pub pack : Bytes → ℤ → Result ServerPackage
pack block is_end =
    if ltb (length block) buffer_size
    then (c_string (block ++ 0 ∷ []) >>= λ text. ok (record {
      cmd = codes "DWN";
      content_is_end = is_end;
      content_length = length block;
      file_content = text;
    }))
    else fault out_of_bounds

-- The loop and the last package. `stop` is `end + 1`, so `end - cur > BUFFER_SIZE - 1` reads
-- `BUFFER_SIZE < stop - cur`. A file that ends early keeps the loop going for ever.
unfoldable pub upload_from : ℕ → Bytes → ℕ → ℕ → Result (List ServerPackage)
upload_from zero file cur stop = fault out_of_fuel
upload_from (suc fuel) file cur stop =
    let block = fread file cur (buffer_size - 1) in
    let more = upload_from fuel file (cur + length block) stop in
    if ltb buffer_size (stop - cur)
    then (pack block (negsuc 0) >>= λ p. more >>= λ ps. ok (p ∷ ps))
    else (pack (fread file cur (stop - cur)) (pos 1) >>= λ p. ok (p ∷ []))

-- Each round but the last sends 1023 bytes, so the bytes asked for bound the rounds.
unfoldable pub server_upload_file : Bytes → ℕ → ℕ → Result (List ServerPackage)
server_upload_file file start stop = upload_from (suc (stop - start)) file start stop

-- `content_is_end == 1`
unfoldable pub is_last : ℤ → Bool
is_last (pos n) = n == 1
is_last (negsuc n) = false

-- The loop of download_single_part: what it writes of the packages that it reads.
unfoldable pub write_parts : List ServerPackage → Bytes
write_parts [] = []
write_parts (p ∷ ps) =
    let rest = write_parts ps in
    if str_eq p.cmd (codes "DWN")
    then p.file_content ++ (if is_last p.content_is_end then [] else rest)
    else rest

abbrev pub output_name : ℤ → Bytes
output_name part = codes "output." ++ format_d part

-- sprintf through `name`, which is never set. `room` is what reading it gives: nothing, as the language
-- has it, or the size of the array to which what was left there happens to point.
unfoldable pub print_name : Option ℕ → ℤ → Result Bytes
print_name none part = fault indeterminate
print_name (some room) part =
    if ltb (length (output_name part)) room then ok (output_name part) else fault out_of_bounds

-- The content of the file "output.part", which fopen has emptied.
unfoldable pub download_single_part : Option ℕ → ℤ → List ServerPackage → Result Bytes
download_single_part room part packages = print_name room part >>= λ name. ok (write_parts packages)
