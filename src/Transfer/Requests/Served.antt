-- ===== src/Transfer/Requests/Served.antt =====
-- The server of HW4 on the requests as the client prints them.
use cmpe156_network_programm.Prelude.{
  suc, ◌-◌, ◌≡◌, ◌≢◌, ◌<◌, refl, ap, ◌∙◌, [], ◌∷◌, ◌++◌, append_assoc, arith, Option, none, some,
  Result, ok, length, replicate, lt→ltb, ℤ, pos, negsuc,
}
use cmpe156_network_programm.Libc.Str.{Bytes, All, codes, str_eq, strcpy_fits, zeros}
use cmpe156_network_programm.Libc.Number.{
  IsDigit, decimal-All, decimal, format_d, format_d-ne-nil, IsLong, atol-format_d,
}
use cmpe156_network_programm.Libc.Tok.{IsPlain, strtok_last, strtok_field}
use cmpe156_network_programm.Transfer.Jobs.{Job}
use cmpe156_network_programm.Transfer.Requests.{
  request_buf, handshake_request, exists_request, download_text, download_request, Handled,
  answered, upload_thread, on_check, on_handshake, on_download, handle_request,
}

-- What a client asks for.
pub data Request : Type 0 where
  alive : Request
  exists : Bytes → Request
  part : Job → Request

unfoldable pub print_request : Request → Result Bytes
print_request alive = handshake_request
print_request (exists name) = exists_request name
print_request (part job) = download_request job

-- A name without spaces.
pub record IsName (name : Bytes) : Type 0 where
  pub plain : All (IsPlain b' ') name
  pub there : name ≢ []
  pub fits : length name < 1020

abbrev pub IsProper : Request → Type 0
IsProper alive = Unit
IsProper (exists name) = IsName name
IsProper (part job) =
    IsName job.file_name
    × IsLong job.file_start
    × IsLong job.file_end
    × (length (download_text job) < 1024)

-- What the server promises.
unfoldable pub promised : (Bytes → Option Bytes) → Request → Handled
promised files alive =
    answered
      (record { cmd = codes "HSK"; have_file_flag = pos 0; file_length = 0; file_content = [] })
promised files (exists name) = answered (elim (files name) [
  | some file ↦ record {
    cmd = codes "CHK";
    have_file_flag = pos 1;
    file_length = length file;
    file_content = name;
  }
  | none ↦ record {
    cmd = codes "CHK";
    have_file_flag = negsuc 0;
    file_length = 0;
    file_content = name;
  }
])
promised files (part job) = upload_thread job.file_name job.file_start job.file_end

digits-IsWord : (t : Bytes) → All IsDigit t → All (IsPlain b' ') t
digits-IsWord [] a = tt
digits-IsWord (c ∷ t) a = ((omega arith, omega arith), digits-IsWord t a.1)

format_d-IsWord : (z : ℤ) → All (IsPlain b' ') (format_d z)
unfolding format_d
format_d-IsWord (pos n) = digits-IsWord (decimal n) (decimal-All n)
format_d-IsWord (negsuc n) =
    ((omega arith, omega arith), digits-IsWord (decimal (suc n)) (decimal-All (suc n)))

request_buf-text :
    (text : Bytes)
    → length text < 1024
    → request_buf text ≡ ok (text ++ 0 ∷ replicate (1023 - length text) 0)
unfolding request_buf
request_buf-text text f =
    rw
      (
        lt→ltb (length text) 1024 f,
        zeros (1024 - length text) (1023 - length text) (omega (arith, f)),
      )
      refl

on_check-promised :
    (files : Bytes → Option Bytes) (name more : Bytes)
    → IsName name
    → on_check files (name ++ 0 ∷ more) ≡ ok (promised files (exists name))
unfolding on_check promised
on_check-promised files name more v =
    rw (strtok_last b' ' name more v.there v.plain, strcpy_fits 1024 name (omega (arith, v.fits)))
      refl

on_download-promised :
    (files : Bytes → Option Bytes) (job : Job) (more : Bytes)
    → IsProper (part job)
    → on_download (
        job.file_name
        ++ b' ' ∷ (format_d job.file_start ++ b' ' ∷ (format_d job.file_end ++ 0 ∷ more)))
      ≡ ok (promised files (part job))
unfolding on_download promised
on_download-promised files job more v =
    let tail = format_d job.file_end ++ 0 ∷ more in
    rw
      (
        strtok_field b' ' job.file_name (format_d job.file_start ++ b' ' ∷ tail) (omega arith)
            v.0.there v.0.plain,
        strtok_field b' ' (format_d job.file_start) tail (omega arith)
            (format_d-ne-nil job.file_start) (format_d-IsWord job.file_start),
        atol-format_d job.file_start v.1,
        strtok_last b' ' (format_d job.file_end) more (format_d-ne-nil job.file_end)
            (format_d-IsWord job.file_end),
        atol-format_d job.file_end v.2,
        strcpy_fits 1024 job.file_name (omega (arith, v.0.fits)),
      )
      refl

-- For each of the client's requests (a handshake, a check for a file, or a part of a file) whose
-- name holds no space and whose text fits its buffer, the client's block is made, and the
-- server's loop, on that block, runs without a fault and answers the handshake, tells whether
-- the file is there and how long it is, or starts the upload of exactly that part.
pub handle_request-promised :
    (files : Bytes → Option Bytes) (r : Request)
    → IsProper r
    → (block : Bytes) × (print_request r ≡ ok block)
      × (handle_request files block ≡ ok (promised files r))
unfolding print_request handshake_request exists_request download_request handle_request str_eq
handle_request-promised files alive v =
    let more : Bytes = replicate (1023 - 3) 0 in
    (
      codes "HSK" ++ 0 ∷ more,
      request_buf-text (codes "HSK") (omega arith),
      rw
          (strtok_last b' ' (codes "HSK") more (λ e. cc)
            (
              (omega arith, omega arith),
              ((omega arith, omega arith), ((omega arith, omega arith), tt)),
            ))
          (unfold promised on_handshake in refl),
    )
handle_request-promised files (exists name) v =
    let text = codes "CHK" ++ b' ' ∷ name in
    let more : Bytes = replicate (1023 - length text) 0 in
    (
      text ++ 0 ∷ more,
      request_buf-text text (omega (arith, v.fits)),
      rw
          (strtok_field b' ' (codes "CHK") (name ++ 0 ∷ more) (omega arith) (λ e. cc)
            (
              (omega arith, omega arith),
              ((omega arith, omega arith), ((omega arith, omega arith), tt)),
            ))
          (on_check-promised files name more v),
    )
handle_request-promised files (part job) v =
    let text = download_text job in
    let more : Bytes = replicate (1023 - length text) 0 in
    (
      text ++ 0 ∷ more,
      request_buf-text text v.3,
      ap (handle_request files) (ap (λ t. codes "DWN" ++ b' ' ∷ t) (spread more))
          ∙ rw
              (strtok_field b' ' (codes "DWN") (behind more) (omega arith) (λ e. cc)
                (
                  (omega arith, omega arith),
                  ((omega arith, omega arith), ((omega arith, omega arith), tt)),
                ))
              (on_download-promised files job more (v.0, v.1, v.2, v.3)),
    )
  where
    behind : Bytes → Bytes
    behind more =
        job.file_name
        ++ b' ' ∷ (format_d job.file_start ++ b' ' ∷ (format_d job.file_end ++ 0 ∷ more))

    spread :
        (more : Bytes)
        → (job.file_name ++ b' ' ∷ (format_d job.file_start ++ b' ' ∷ format_d job.file_end))
            ++ 0 ∷ more
          ≡ behind more
    spread more = simp append_assoc
