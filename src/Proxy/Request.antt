-- ===== src/Proxy/Request.antt =====
-- The checks of a request in thread_proxy of hw5/proxy.c: its first line, its headers, and the filter.
-- The request stands in full_buf as a C string.
pub mod Headers
pub mod Verdict
use cmpe156_network_programm.Prelude.{
  Option, none, ℕ, ◌+◌, ◌≡◌, Bool, true, false, not, ◌&&◌, ◌||◌, List, [], ◌∷◌, ◌++◌, some, Result,
  ok, fault, out_of_bounds, ◌>>=◌, length, ltb, ◌==◌, if◌then◌else◌,
}
use cmpe156_network_programm.Libc.Str.{Bytes, codes, str_eq, strcpy}
use cmpe156_network_programm.Libc.Scan.{scan_s}
use cmpe156_network_programm.Proxy.{ForbiddenSites, is_forbidden}

abbrev pub temp_size : ℕ
temp_size = 32

-- The text before the first '\r', if there is one, and the text from there on.
unfoldable pub split_cr : Bytes → Option (Bytes × Bytes)
split_cr [] = none
split_cr (c ∷ s) =
    let rest = split_cr s in
    if c == 13
    then some ([], c ∷ s)
    else elim rest [ none ↦ none | some (line, t) ↦ some (c ∷ line, t) ]

-- log_firstline, and what the second loop has before it. The line is copied without its NUL into 128
-- zeroed bytes and printed as a string.
unfoldable pub first_line : Bytes → Result (Bytes × Bytes)
first_line full_buf = elim (split_cr full_buf) [
  | none ↦ ok ([], [])
  | some (line, t) ↦ if ltb (length line) 128 then ok (line, t) else fault out_of_bounds
]

-- What the second loop finds: remote_server_host, checkflag and persistent_connect.
pub record Found : Type 0 where
  pub host : Bytes
  pub has_host : Bool
  pub persistent : Bool

-- A round at a '\r', on the text from there on.
unfoldable pub header_at : Bytes → Found → Result Found
header_at text f = scan_s temp_size text >>= λ (cmd1, rest).
    scan_s temp_size rest >>= λ (cmd2, rest').
    let keeps =
      f.persistent || str_eq cmd1 (codes "Proxy-Connection:") && str_eq cmd2 (codes "Keep-Alive") in
    if str_eq cmd1 (codes "Host:")
    then (strcpy 128 (some cmd2) >>= λ host.
        ok (record { host = host; has_host = true; persistent = keeps }))
    else ok (record f { persistent = keeps })

-- The second loop, over the text from `retn` on.
unfoldable pub headers : Bytes → Found → Result Found
headers [] f = ok f
headers (c ∷ s) f = (if c == 13 then header_at (c ∷ s) f else ok f) >>= headers s

-- A request that is answered with an error, by its code, or one that is forwarded; both with the
-- third word of the first line.
pub data Checked : Type 0 where
  refused : ℕ → Bytes → Checked
  accepted : Bytes → Found → Checked

-- The test for a host, and the filter.
unfoldable pub check_host : ForbiddenSites → Bytes → Found → Result Checked
check_host sites cmd3 f =
    if f.has_host
    then (is_forbidden sites f.host >>= λ hit.
        ok (if hit then refused 403 cmd3 else accepted cmd3 f))
    else ok (refused 400 cmd3)

unfoldable pub check_version : ForbiddenSites → Bytes → Bytes → Result Checked
check_version sites cmd3 rest =
    if not (str_eq cmd3 (codes "HTTP/1.1")) && not (str_eq cmd3 (codes "HTTP/1.0"))
    then ok (refused 400 cmd3)
    else (headers rest
          (record { host = []; has_host = false; persistent = str_eq cmd3 (codes "HTTP/1.1") })
        >>= check_host sites cmd3)

-- log_firstline, and what becomes of the request.
unfoldable pub check_request : ForbiddenSites → Bytes → Result (Bytes × Checked)
check_request sites full_buf = first_line full_buf >>= λ (line, rest).
    scan_s temp_size full_buf >>= λ (cmd1, s1). scan_s temp_size s1 >>= λ (cmd2, s2).
    scan_s temp_size s2 >>= λ (cmd3, s3).
    (if not (str_eq cmd1 (codes "GET")) && not (str_eq cmd1 (codes "HEAD"))
      then ok (refused 501 cmd3)
      else check_version sites cmd3 rest)
    >>= λ checked. ok (line, checked)
