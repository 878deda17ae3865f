-- ===== src/Transfer/Requests.antt =====
-- The requests of HW4/client.c, and the loop of HW4/server.c that serves them.
pub mod Served
pub mod Downloaded
use cmpe156_network_programm.Prelude.{
  ℕ, ◌-◌, ◌≡◌, List, [], ◌∷◌, ◌++◌, Option, none, some, Result, ok, fault, out_of_bounds, deref,
  ◌>>=◌, length, replicate, ltb, if◌then◌else◌, ℤ, pos, negsuc,
}
use cmpe156_network_programm.Libc.Str.{Bytes, codes, str_eq, strcpy}
use cmpe156_network_programm.Libc.Number.{format_d, atol}
use cmpe156_network_programm.Libc.Tok.{strtok}
use cmpe156_network_programm.Transfer.Jobs.{Job}
use cmpe156_network_programm.Transfer.Stream.{buffer_size}

-- write_buf, which is sent as a whole.
unfoldable pub request_buf : Bytes → Result Bytes
request_buf text =
    if ltb (length text) buffer_size
    then ok (text ++ replicate (buffer_size - length text) 0)
    else fault out_of_bounds

-- The requests of verify_address_available, query_file_exist and udp_download_file.
unfoldable pub handshake_request : Result Bytes
handshake_request = request_buf (codes "HSK")

unfoldable pub exists_request : Bytes → Result Bytes
exists_request target_file = request_buf (codes "CHK" ++ b' ' ∷ target_file)

abbrev pub download_text : Job → Bytes
download_text job =
    codes "DWN"
    ++ b' ' ∷ (job.file_name ++ b' ' ∷ (format_d job.file_start ++ b' ' ∷ format_d job.file_end))

unfoldable pub download_request : Job → Result Bytes
download_request job = request_buf (download_text job)

-- server_response_t, as far as the loop writes it.
pub record ServerReply : Type 0 where
  pub cmd : Bytes
  pub have_file_flag : ℤ
  pub file_length : ℕ
  pub file_content : Bytes

-- What the loop does with a datagram: it answers, starts a thread that runs upload, or does nothing.
pub data Handled : Type 0 where
  answered : ServerReply → Handled
  upload_thread : Bytes → ℤ → ℤ → Handled
  ignored : Handled

-- `files` is the directory.
unfoldable pub on_check : (Bytes → Option Bytes) → Bytes → Result Handled
on_check files rest = strtok (codes " ") rest >>= λ (target_file, rest').
    strcpy buffer_size target_file >>= λ name. ok (
      answered (elim (files name) [
        | some file ↦ record {
          cmd = codes "CHK";
          have_file_flag = pos 1;
          file_length = length file;
          file_content = name;
        }
        | none ↦ record {
          cmd = codes "CHK";
          have_file_flag = negsuc 0;
          file_length = 0;
          file_content = name;
        }
      ]))

unfoldable pub on_handshake : Handled
on_handshake =
    answered
      (record { cmd = codes "HSK"; have_file_flag = pos 0; file_length = 0; file_content = [] })

unfoldable pub on_download : Bytes → Result Handled
on_download rest = strtok (codes " ") rest >>= λ (target_file, rest').
    strtok (codes " ") rest' >>= λ (first, rest''). deref first >>= λ first_text.
    atol first_text >>= λ start. strtok (codes " ") rest'' >>= λ (last, rest''').
    deref last >>= λ last_text. atol last_text >>= λ end.
    strcpy buffer_size target_file >>= λ name. ok (upload_thread name start end)

-- A round of the loop, on the memory of read_buf.
unfoldable pub handle_request : (Bytes → Option Bytes) → Bytes → Result Handled
handle_request files read_buf = strtok (codes " ") read_buf >>= λ (first, rest).
    deref first >>= λ cmd.
    if str_eq cmd (codes "CHK")
    then on_check files rest
    else if str_eq cmd (codes "HSK")
    then ok on_handshake
    else if str_eq cmd (codes "DWN")
    then on_download rest
    else ok ignored
