-- ===== src/Transfer/Datagram.antt =====
-- One part of a file over UDP: upload of HW4/server.c, which udp_download_file of HW4/client.c reads.
pub mod Delivery
use cmpe156_network_programm.Prelude.{
  ℕ, zero, suc, ◌+◌, ◌-◌, ◌≡◌, List, [], ◌∷◌, ◌++◌, Result, ok, fault, out_of_bounds, out_of_fuel,
  ◌>>=◌, length, ltb, if◌then◌else◌, ℤ, pos, replicate, take,
}
use cmpe156_network_programm.Libc.Str.{Bytes, c_string, codes}
use cmpe156_network_programm.Transfer.Stream.{buffer_size, fread}
use cmpe156_network_programm.Transfer.Pool.{Response}

-- `data` after fread: the block, and zeros up to 1024 bytes. strcpy reads it up to a NUL, behind its
-- end if there is none.
unfoldable pub datagram : Bytes → ℤ → Result Response
datagram block is_end = c_string (block ++ replicate (buffer_size - length block) 0) >>= λ text.
    ok (record { cmd = codes "DWN"; content_is_end = is_end; file_content = text })

-- The loop of upload, which sends to the client; `last` is the variable `end`. The bounds are not
-- negative.
unfoldable pub upload : ℕ → Bytes → ℕ → ℕ → Result (List Response)
upload zero file start last = fault out_of_fuel
upload (suc fuel) file start last =
    let end_temp = start + buffer_size - 1 in
    let more = upload fuel file (end_temp + 1) last in
    if ltb start last
    then (if ltb end_temp last
        then (datagram (fread file start (end_temp - start + 1)) (pos 0) >>= λ r.
            more >>= λ rs. ok (r ∷ rs))
        else (datagram (fread file start (last - start + 1)) (pos 1) >>= λ r. ok (r ∷ [])))
    else ok []

-- Each round moves the start by 1024.
unfoldable pub upload_part : Bytes → ℕ → ℕ → Result (List Response)
upload_part file start last = upload (suc (last - start)) file start last
