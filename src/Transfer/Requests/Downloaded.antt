-- ===== src/Transfer/Requests/Downloaded.antt =====
-- A part over UDP, from the request of HW4/client.c to the part's file.
use cmpe156_network_programm.Prelude.{
  ℕ, ◌+◌, ◌^◌, ◌≡◌, ◌<◌, ap, ◌∙◌, arith, Option, List, ok, length, pos, take, drop,
}
use cmpe156_network_programm.Libc.Str.{Bytes, NoNul}
use cmpe156_network_programm.Transfer.Jobs.{Job}
use cmpe156_network_programm.Transfer.Ranges.{bytes_of}
use cmpe156_network_programm.Transfer.Pool.{Response, udp_download_file}
use cmpe156_network_programm.Transfer.Datagram.{upload_part}
use cmpe156_network_programm.Transfer.Datagram.Delivery.{upload_part-download}
use cmpe156_network_programm.Transfer.Requests.{
  download_text, download_request, upload_thread, handle_request,
}
use cmpe156_network_programm.Transfer.Requests.Served.{
  IsName, part, handle_request-promised, print_request, promised,
}

abbrev pub part_job : ℕ → Bytes → ℕ → ℕ → Job
part_job id name start last = record {
  job_id = id;
  file_name = name;
  file_start = pos start;
  file_end = pos last;
}

-- For a part of 2 to 1023 bytes of a file without NUL bytes below 10 ^ 18 bytes, with a name
-- without spaces and a request that fits, the client's request is made, the server reads from it
-- the name and both ends of the part, the upload of that part runs without a fault, and
-- udp_download_file writes exactly the bytes of the part and reports that it is done.
pub download_request-udp_download_file :
    (files : Bytes → Option Bytes) (id : ℕ) (name file : Bytes) (start last : ℕ)
    → IsName name
    → NoNul file
    → start < last
    → last < start + 1023
    → last < length file
    → length file < 10 ^ 18
    → length (download_text (part_job id name start last)) < 1024
    → (block : Bytes) × (rs : List Response) × (download_request (part_job id name start last)
        ≡ ok block)
      × (handle_request files block ≡ ok (upload_thread name (pos start) (pos last)))
      × (upload_part file start last ≡ ok rs)
      × (udp_download_file rs ≡ (bytes_of file (part_job id name start last), 0))
unfolding print_request promised bytes_of
download_request-udp_download_file files id name file start last v nn lo hi fits long short =
    let (block, made, handled) =
      handle_request-promised files (part (part_job id name start last))
        (v, omega (arith, fits, long, lo), omega (arith, fits, long), short) in
    let (rs, sent, written) = upload_part-download file start last nn lo hi fits in
    (
      block,
      rs,
      made,
      handled,
      sent,
      written ∙ ap (λ n. (take n (drop start file), 0)) (omega (arith, lo)),
    )
