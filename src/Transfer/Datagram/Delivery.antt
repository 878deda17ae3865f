-- ===== src/Transfer/Datagram/Delivery.antt =====
-- Which parts arrive over UDP.
use cmpe156_network_programm.Prelude.{
  ℕ, suc, ◌+◌, ◌-◌, ◌≡◌, ◌≤◌, ◌<◌, refl, ◌∙◌, List, [], ◌∷◌, append-nil, arith, ok, fault,
  out_of_bounds, length, lt→ltb, le→ltb, ℤ, pos, replicate, take, drop,
}
use cmpe156_network_programm.Libc.Str.{Bytes, NoNul, c_string, c_string-text, codes, str_eq}
use cmpe156_network_programm.Transfer.Ranges.{length-drop}
use cmpe156_network_programm.Transfer.Stream.{is_last}
use cmpe156_network_programm.Transfer.Stream.Delivery.{length-take, NoNul-take, NoNul-drop}
use cmpe156_network_programm.Transfer.Pool.{Response, udp_download_file}
use cmpe156_network_programm.Transfer.Datagram.{datagram, upload, upload_part}

abbrev pub text_response : Bytes → ℤ → Response
text_response t is_end = record { cmd = codes "DWN"; content_is_end = is_end; file_content = t }

datagram_short :
    (t : Bytes) (is_end : ℤ)
    → NoNul t
    → length t < 1024
    → datagram t is_end ≡ ok (text_response t is_end)
unfolding datagram
datagram_short t is_end h f =
    let zeros : 1024 - length t ≡ suc (1023 - length t) = omega arith in
    rw (zeros, c_string-text t (replicate (1023 - length t) 0) h) refl

no_end : (t : Bytes) → NoNul t → c_string t ≡ fault out_of_bounds
unfolding c_string
no_end [] h = refl
no_end (c ∷ t) h = ground (arith, no_end t h.1)

datagram_full :
    (t : Bytes) (is_end : ℤ) → NoNul t → length t ≡ 1024 → datagram t is_end ≡ fault out_of_bounds
unfolding datagram
datagram_full t is_end h f =
    let no_zeros : 1024 - length t ≡ 0 = omega arith in rw (no_zeros, append-nil t, no_end t h) refl

-- For a part of 2 to 1023 bytes of a file without NUL bytes, upload sends datagrams on which
-- udp_download_file writes the part and reports that it is done.
pub upload_part-download :
    (file : Bytes) (start last : ℕ)
    → NoNul file
    → start < last
    → last < start + 1023
    → last < length file
    → (rs : List Response) × (upload_part file start last ≡ ok rs)
      × (udp_download_file rs ≡ (take (last - start + 1) (drop start file), 0))
unfolding upload_part upload udp_download_file str_eq is_last
upload_part-download file start last nn lo hi fits =
    let block = take (last - start + 1) (drop start file) in
    let size : length block ≡ last - start + 1 =
      length-take (last - start + 1) (drop start file) (omega (arith, length-drop start file)) in
    let sent : datagram block (pos 1) ≡ ok (text_response block (pos 1)) =
      datagram_short block (pos 1)
        (NoNul-take (last - start + 1) (drop start file) (NoNul-drop start file nn))
        (omega (arith, size)) in
    (
      text_response block (pos 1) ∷ [],
      rw (lt→ltb start last lo, le→ltb (start + 1024 - 1) last (omega arith), sent) refl,
      refl,
    )

full_block :
    (file : Bytes) (start n : ℕ) (is_end : ℤ)
    → NoNul file
    → n ≡ 1024
    → start + 1024 ≤ length file
    → datagram (take n (drop start file)) is_end ≡ fault out_of_bounds
full_block file start n is_end nn e fits =
    datagram_full (take n (drop start file)) is_end
      (NoNul-take n (drop start file) (NoNul-drop start file nn))
      (length-take n (drop start file) (omega (arith, length-drop start file, e)) ∙ e)

-- For a part of 1024 bytes or more of a file without NUL bytes, the copy of upload's first block
-- reads behind its buffer.
pub upload_part_overread :
    (file : Bytes) (start last : ℕ)
    → NoNul file
    → start + 1023 ≤ last
    → last < length file
    → upload_part file start last ≡ fault out_of_bounds
unfolding upload_part upload
upload_part_overread file start last nn lo fits =
    let whole = start + 1024 - 1 - start + 1 in
    let rest = last - start + 1 in
    ground (arith, full_block file start whole (pos 0) nn, full_block file start rest (pos 1) nn)

-- For a part of a single byte, upload sends nothing.
pub upload_part_single : (file : Bytes) (start : ℕ) → upload_part file start start ≡ ok []
unfolding upload_part upload
upload_part_single file start = rw (le→ltb start start (omega arith)) refl
