-- ===== src/Transfer/RequestTests.antt =====
-- The theorems on the requests and on an endless upload at concrete inputs.
use cmpe156_network_programm.Prelude.{
  ◌≡◌, ◌<◌, arith, refl, Option, none, some, ok, fault, out_of_fuel, pos, length, if◌then◌else◌,
}
use cmpe156_network_programm.Libc.Str.{Bytes, codes, str_eq, no_nul-NoNul}
use cmpe156_network_programm.Libc.Number.{format_d, decimal, digits}
use cmpe156_network_programm.Transfer.Requests.Downloaded.{part_job}
use cmpe156_network_programm.Transfer.Jobs.{Job}
use cmpe156_network_programm.Transfer.Stream.{upload_from}
use cmpe156_network_programm.Transfer.Stream.Endless.{upload_from_endless}
use cmpe156_network_programm.Transfer.Requests.{handle_request, download_text}
use cmpe156_network_programm.Transfer.Requests.Served.{
  part, print_request, promised, IsName, handle_request-promised,
}

abbrev one_file : Bytes → Option Bytes
one_file name = if str_eq name (codes "f") then some (codes "hello") else none

abbrev some_job : Job
some_job = record { job_id = 0; file_name = codes "f"; file_start = pos 0; file_end = pos 4 }

f-IsName : IsName (codes "f")
f-IsName = record { plain = ((omega arith, omega arith), tt); there = λ e. cc; fits = omega arith }

some_job_fits : length (download_text some_job) < 1024
unfolding format_d decimal digits
some_job_fits = omega arith

handle_request-promised_example :
    (block : Bytes) × (print_request (part some_job) ≡ ok block)
    × (handle_request one_file block ≡ ok (promised one_file (part some_job)))
handle_request-promised_example =
    handle_request-promised one_file (part some_job)
      (f-IsName, omega arith, omega arith, some_job_fits)

upload_from_endless_example : upload_from 100 (codes "hello") 2 2000 ≡ fault out_of_fuel
upload_from_endless_example =
    upload_from_endless 100 (codes "hello") 2 2000 (no_nul-NoNul (codes "hello") refl) (omega arith)
      (omega arith)

abbrev part_text : Bytes
part_text = codes "hello world"

part_fits : length (download_text (part_job 0 (codes "f") 2 6)) < 1024
unfolding format_d decimal digits
part_fits = omega arith
