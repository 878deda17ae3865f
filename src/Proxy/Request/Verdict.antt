-- ===== src/Proxy/Request/Verdict.antt =====
-- The checks of a whole request, as a browser prints it.
use cmpe156_network_programm.Prelude.{
  ◌≡◌, ◌<◌, refl, false, not, ◌&&◌, List, [], ◌∷◌, ◌++◌, append_assoc, arith, some, inl, inr, ok,
  length, length-append, lt→ltb, ◌==◌, if◌then◌else◌, Bool-cases,
}
use cmpe156_network_programm.Libc.Str.{Bytes, All, codes, str_eq}
use cmpe156_network_programm.Libc.Scan.{scan_s, IsWord, scan_s-word}
use cmpe156_network_programm.Proxy.{ForbiddenSites}
use cmpe156_network_programm.Proxy.Filter.{Lists, mem_site, is_forbidden-Lists}
use cmpe156_network_programm.Proxy.Request.{
  Found, temp_size, split_cr, first_line, Checked, refused, accepted, check_host, check_version,
  check_request,
}
use cmpe156_network_programm.Proxy.Request.Headers.{
  Header, IsHeader, IsNotCr, header_lines, heed_all, headers-heed_all, ink-IsNotCr, IsNotCr-append,
  StartsSpace-lines,
}

pub record BrowserRequest : Type 0 where
  pub method : Bytes
  pub url : Bytes
  pub version : Bytes
  pub headers : List Header

-- Three words and the headers, all within the proxy's arrays.
pub record IsRequest (r : BrowserRequest) : Type 0 where
  pub method : IsWord r.method
  pub method_fits : length r.method < temp_size
  pub url : IsWord r.url
  pub url_fits : length r.url < temp_size
  pub version : IsWord r.version
  pub version_fits : length r.version < temp_size
  pub headers : All IsHeader r.headers

unfoldable pub request_line : BrowserRequest → Bytes
request_line r = r.method ++ b' ' ∷ (r.url ++ b' ' ∷ r.version)

unfoldable pub request_text : BrowserRequest → Bytes
request_text r = request_line r ++ header_lines r.headers

-- What the headers say; HTTP/1.1 keeps the connection without being asked.
unfoldable pub found_in : BrowserRequest → Found
found_in r =
    heed_all r.headers
      (record { host = []; has_host = false; persistent = str_eq r.version (codes "HTTP/1.1") })

-- What the proxy promises for a request, with the forbidden sites `urls`.
unfoldable pub verdict : List Bytes → BrowserRequest → Checked
verdict urls r =
    if not (str_eq r.method (codes "GET")) && not (str_eq r.method (codes "HEAD"))
    then refused 501 r.version
    else if not (str_eq r.version (codes "HTTP/1.1")) && not (str_eq r.version (codes "HTTP/1.0"))
    then refused 400 r.version
    else if not (found_in r).has_host
    then refused 400 r.version
    else if mem_site (found_in r).host urls
    then refused 403 r.version
    else accepted r.version (found_in r)

split_cr-line :
    (line s : Bytes) → All IsNotCr line → split_cr (line ++ 13 ∷ s) ≡ some (line, 13 ∷ s)
unfolding split_cr
split_cr-line [] s h = refl
split_cr-line (c ∷ line) s h =
    let plain : (c == 13) ≡ false = ground arith in rw (plain, split_cr-line line s h.1) refl

request_line-IsNotCr : (r : BrowserRequest) → IsRequest r → All IsNotCr (request_line r)
unfolding request_line
request_line-IsNotCr r v =
    IsNotCr-append r.method (b' ' ∷ (r.url ++ b' ' ∷ r.version)) (ink-IsNotCr r.method v.method.1) (
      omega arith,
      IsNotCr-append r.url (b' ' ∷ r.version) (ink-IsNotCr r.url v.url.1)
          (omega arith, ink-IsNotCr r.version v.version.1),
    )

length-request_line : (r : BrowserRequest) → IsRequest r → length (request_line r) < 128
unfolding request_line
length-request_line r v = omega (
  arith,
  v.method_fits,
  v.url_fits,
  v.version_fits,
  length-append r.method (b' ' ∷ (r.url ++ b' ' ∷ r.version)),
  length-append r.url (b' ' ∷ r.version),
)

lines_start : (hs : List Header) → (s : Bytes) × (header_lines hs ≡ 13 ∷ s)
unfolding header_lines
lines_start [] = (_, refl)
lines_start (h ∷ hs) = (_, refl)

first_line-request :
    (r : BrowserRequest)
    → IsRequest r
    → first_line (request_text r) ≡ ok (request_line r, header_lines r.headers)
unfolding first_line request_text
first_line-request r v =
    let (s, e) = lines_start r.headers in
    rw
      (
        e,
        first_line,
        split_cr-line (request_line r) s (request_line-IsNotCr r v),
        lt→ltb (length (request_line r)) 128 (length-request_line r v),
      )
      refl

check_version-verdict :
    (sites : ForbiddenSites) (urls : List Bytes) (r : BrowserRequest)
    → Lists sites urls
    → IsRequest r
    → (not (str_eq r.method (codes "GET")) && not (str_eq r.method (codes "HEAD"))) ≡ false
    → check_version sites r.version (header_lines r.headers) ≡ ok (verdict urls r)
unfolding check_version check_host verdict found_in
check_version-verdict sites urls r h v m =
    let start : Found = record {
      host = [];
      has_host = false;
      persistent = str_eq r.version (codes "HTTP/1.1");
    } in
    rw
      (
        m,
        headers-heed_all r.headers start v.headers,
        is_forbidden-Lists sites urls (heed_all r.headers start).host h,
      )
      (ground arith)

check_method-verdict :
    (sites : ForbiddenSites) (urls : List Bytes) (r : BrowserRequest)
    → Lists sites urls
    → IsRequest r
    → (if not (str_eq r.method (codes "GET")) && not (str_eq r.method (codes "HEAD"))
        then ok (refused 501 r.version)
        else check_version sites r.version (header_lines r.headers))
      ≡ ok (verdict urls r)
check_method-verdict sites urls r h v =
    elim (Bool-cases
      (not (str_eq r.method (codes "GET")) && not (str_eq r.method (codes "HEAD")))) [
        | inl bad ↦ unfold verdict in rw bad refl
        | inr good ↦ rw good (check_version-verdict sites urls r h v good)
      ]

request_text-words :
    (r : BrowserRequest) (lines : Bytes)
    → lines ≡ header_lines r.headers
    → request_text r ≡ r.method ++ b' ' ∷ (r.url ++ b' ' ∷ (r.version ++ lines))
unfolding request_text request_line
request_text-words r lines e = rw e (simp append_assoc)

-- For a printed request whose three words and headers fit the proxy's arrays, the checks run
-- without a fault, take its first line for the log, and give the verdict that the proxy
-- promises: 501 for another method than GET or HEAD, 400 for another version than HTTP/1.1 or
-- HTTP/1.0 or without a Host header, 403 for a host on the list, and else that it is forwarded.
pub check_request-verdict :
    (sites : ForbiddenSites) (urls : List Bytes) (r : BrowserRequest)
    → Lists sites urls
    → IsRequest r
    → check_request sites (request_text r) ≡ ok (request_line r, verdict urls r)
unfolding check_request
check_request-verdict sites urls r h v =
    let lines = header_lines r.headers in
    let s1 = b' ' ∷ (r.url ++ b' ' ∷ (r.version ++ lines)) in
    let s2 = b' ' ∷ (r.version ++ lines) in
    let text : request_text r ≡ r.method ++ s1 = request_text-words r lines refl in
    let e1 : scan_s 32 (r.method ++ s1) ≡ ok (r.method, s1) =
      scan_s-word 32 [] r.method s1 tt v.method v.method_fits refl in
    let e2 : scan_s 32 s1 ≡ ok (r.url, s2) =
      scan_s-word 32 (b' ' ∷ []) r.url s2 (refl, tt) v.url v.url_fits refl in
    let e3 : scan_s 32 s2 ≡ ok (r.version, lines) =
      scan_s-word 32 (b' ' ∷ []) r.version lines (refl, tt) v.version v.version_fits
        (StartsSpace-lines r.headers) in
    rw (first_line-request r v, text, e1, e2, e3, check_method-verdict sites urls r h v) refl
