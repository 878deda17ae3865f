-- ===== src/Proxy/Thread/Forwarding.antt =====
-- What thread_proxy of hw5/proxy.c sends to the host: the browser's request with a further header.
use cmpe156_network_programm.Prelude.{
  ◌-◌, ◌≡◌, ◌<◌, refl, sym, ap, ◌∙◌, true, List, [], ◌∷◌, ◌++◌, append_assoc, arith, none, some, ok,
  ◌>>=◌, length, length-append, take, replicate, lt→ltb, if◌then◌else◌,
}
use cmpe156_network_programm.Libc.Str.{Bytes, codes, strcpy_fits}
use cmpe156_network_programm.Proxy.{ForbiddenSites}
use cmpe156_network_programm.Proxy.Filter.{Lists}
use cmpe156_network_programm.Proxy.Request.{Found, accepted}
use cmpe156_network_programm.Proxy.Request.Headers.{Header, crlf, header_text, header_lines}
use cmpe156_network_programm.Proxy.Request.Verdict.{
  BrowserRequest, IsRequest, request_line, request_text, found_in, verdict, check_request-verdict,
}
use cmpe156_network_programm.Proxy.Relay.{Action, connect_host, send_host, relay}
use cmpe156_network_programm.Proxy.Thread.Turns.{forward-connect_new}
use cmpe156_network_programm.Proxy.Thread.{
  World, Exchange, Link, again, stop, left, request_size, forward_line, forward_text, send_on,
  connect_new, answer_checked, handle,
}

-- The header that the proxy adds.
unfoldable pub forwarded_header : World → Header
forwarded_header w = record {
  name = codes "Forwarded:";
  value = codes "for=" ++ (w.client_ip ++ b';' ∷ []);
  more = codes " proto=http; by=" ++ w.proxy_ip;
}

unfoldable pub with_forwarded : World → BrowserRequest → BrowserRequest
with_forwarded w r = record r { headers = r.headers ++ forwarded_header w ∷ [] }

-- A text in the array that is sent as a whole.
unfoldable pub request_block : Bytes → Bytes
request_block s = s ++ replicate (request_size - length s) 0

-- The addresses fit the thread's arrays.
pub record IsWorld (w : World) : Type 0 where
  pub client_ip : length w.client_ip < 32
  pub proxy_ip : length w.proxy_ip < 32

-- The header lines up to the last line end.
abbrev body : List Header → Bytes
body [] = crlf
body (h ∷ hs) = crlf ++ (header_text h ++ body hs)

header_lines-body : (hs : List Header) → header_lines hs ≡ body hs ++ crlf
unfolding header_lines
header_lines-body [] = refl
header_lines-body (h ∷ hs) =
    ap (λ s. crlf ++ s)
      (ap (λ s. header_text h ++ s) (header_lines-body hs)
        ∙ sym (append_assoc (header_text h) (body hs) crlf))

header_lines-snoc :
    (hs : List Header) (h : Header)
    → header_lines (hs ++ h ∷ []) ≡ body hs ++ (header_text h ++ (crlf ++ crlf))
unfolding header_lines
header_lines-snoc [] h = refl
header_lines-snoc (g ∷ hs) h =
    ap (λ s. crlf ++ s)
      (ap (λ s. header_text g ++ s) (header_lines-snoc hs h)
        ∙ sym (append_assoc (header_text g) (body hs) (header_text h ++ (crlf ++ crlf))))

take_front : (s t : Bytes) → take (length s) (s ++ t) ≡ s
take_front [] t = refl
take_front (c ∷ s) t = ap (λ r. c ∷ r) (take_front s t)

cut_crlf : (s : Bytes) → take (length (s ++ crlf) - 2) (s ++ crlf) ≡ s
cut_crlf s = ap (λ n. take n (s ++ crlf)) (omega (arith, length-append s crlf)) ∙ take_front s crlf

forward_line-header :
    (w : World)
    → IsWorld w
    → forward_line w ≡ ok (header_text (forwarded_header w) ++ (crlf ++ crlf))
unfolding forward_line header_text forwarded_header
forward_line-header w v =
    let tail = codes "; proto=http; by=" ++ (w.proxy_ip ++ 13 ∷ 10 ∷ 13 ∷ 10 ∷ []) in
    strcpy_fits 128 (codes "Forwarded: for=" ++ (w.client_ip ++ tail)) (
      omega (
        arith,
        v.client_ip,
        v.proxy_ip,
        length-append w.client_ip tail,
        length-append w.proxy_ip (13 ∷ 10 ∷ 13 ∷ 10 ∷ []),
      ))
    ∙ ap ok (simp append_assoc)

-- The text of a request, cut before its last line end, goes on with that of the further header.
request_text-body :
    (r : BrowserRequest) → request_text r ≡ (request_line r ++ body r.headers) ++ crlf
unfolding request_text
request_text-body r =
    rw (header_lines-body r.headers) (sym (append_assoc (request_line r) (body r.headers) crlf))

request_text-with_forwarded :
    (w : World) (r : BrowserRequest)
    → (request_line r ++ body r.headers) ++ (header_text (forwarded_header w) ++ (crlf ++ crlf))
      ≡ request_text (with_forwarded w r)
unfolding request_text with_forwarded request_line
request_text-with_forwarded w r =
    append_assoc (request_line r) (body r.headers)
      (header_text (forwarded_header w) ++ (crlf ++ crlf))
    ∙ ap (λ s. request_line r ++ s) (sym (header_lines-snoc r.headers (forwarded_header w)))

forward_text-request_text :
    (w : World) (r : BrowserRequest)
    → length (request_text (with_forwarded w r)) < 2048
    → forward_text (request_text r) (header_text (forwarded_header w) ++ (crlf ++ crlf))
      ≡ ok (request_block (request_text (with_forwarded w r)))
unfolding forward_text request_block
forward_text-request_text w r f =
    rw
      (
        request_text-body r,
        cut_crlf (request_line r ++ body r.headers),
        request_text-with_forwarded w r,
        lt→ltb (length (request_text (with_forwarded w r))) 2048 f,
      )
      refl

-- The exchange that a request is sent in: the host is found, and it takes the request.
pub record IsOpen (x : Exchange) : Type 0 where
  pub resolves : x.resolves ≡ true
  pub connects : x.connects ≡ true
  pub host_takes : x.host_takes ≡ true

send_on-with_forwarded :
    (w : World) (link : Link) (host : Bytes) (before : List Action) (r : BrowserRequest) (f : Found)
    (x : Exchange)
    → IsWorld w
    → length (request_text (with_forwarded w r)) < 2048
    → x.host_takes ≡ true
    → send_on w link host before (request_line r) (request_text r) f x ≡ (
        relay (request_line r) link.log_responsecode x.chunks >>= λ (acts, code, done). ok (record {
          link = record { host_sock = some host; log_responsecode = code };
          actions =
              before ++ send_host host (request_block (request_text (with_forwarded w r))) ∷ acts;
          next = if done then (if f.persistent then again else stop) else left;
        }))
unfolding send_on
send_on-with_forwarded w link host before r f x v fits takes =
    rw (forward_line-header w v, forward_text-request_text w r fits) (simp takes)

connect_new-send_on :
    (w : World) (link : Link) (line cmd3 full : Bytes) (f : Found) (x : Exchange)
    → IsWorld w
    → x.resolves ≡ true
    → x.connects ≡ true
    → connect_new w link line cmd3 full f x
      ≡ send_on w link f.host (connect_host f.host ∷ []) line full f x
unfolding connect_new
connect_new-send_on w link line cmd3 full f x v known made =
    rw (forward_line-header w v) (simp (known, made))

-- On a thread that is not connected, a printed request that the verdict accepts, and that fits
-- with its further header, makes the thread connect to the request's host and send it the text
-- of the same request with the header Forwarded at its end, padded to 2048 bytes, in front of
-- the relay of the response, when the host is found and takes the request.
pub handle-with_forwarded :
    (w : World) (sites : ForbiddenSites) (urls : List Bytes) (link : Link) (r : BrowserRequest)
    (x : Exchange)
    → IsWorld w
    → Lists sites urls
    → IsRequest r
    → verdict urls r ≡ accepted r.version (found_in r)
    → link.host_sock ≡ none
    → length (request_text (with_forwarded w r)) < 2048
    → IsOpen x
    → handle w sites link (request_text r) x ≡ (
        relay (request_line r) link.log_responsecode x.chunks >>= λ (acts, code, done). ok (record {
          link = record { host_sock = some (found_in r).host; log_responsecode = code };
          actions =
              connect_host (found_in r).host
              ∷ send_host (found_in r).host (request_block (request_text (with_forwarded w r)))
              ∷ acts;
          next = if done then (if (found_in r).persistent then again else stop) else left;
        }))
unfolding handle answer_checked
handle-with_forwarded w sites urls link r x v ls q e apart f o =
    rw (check_request-verdict sites urls r ls q, e)
      (forward-connect_new w link (request_line r) r.version (request_text r) (found_in r) x apart
        ∙ connect_new-send_on w link (request_line r) r.version (request_text r) (found_in r) x v
            o.resolves o.connects
        ∙ send_on-with_forwarded w link (found_in r).host (connect_host (found_in r).host ∷ []) r
            (found_in r) x v f o.host_takes)
