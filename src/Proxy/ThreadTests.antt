-- ===== src/Proxy/ThreadTests.antt =====
-- The theorems on the proxy's thread at concrete inputs.
use cmpe156_network_programm.Prelude.{
  ◌≡◌, ◌-◌, replicate, ◌<◌, arith, refl, true, List, [], ◌∷◌, ◌++◌, none, some, ok, length, pos,
  if◌then◌else◌, ◌>>=◌,
}
use cmpe156_network_programm.Libc.Str.{Bytes, c_string, str_eq, strcpy, strcmp_eq, codes}
use cmpe156_network_programm.Libc.Scan.{scan_s, skip_spaces, word, is_word-IsWord}
use cmpe156_network_programm.Libc.Number.{atol}
use cmpe156_network_programm.DynArray.{ref}
use cmpe156_network_programm.Proxy.{get_site_item, ForbiddenSites, is_forbidden, forbidden_from}
use cmpe156_network_programm.Proxy.Filter.{Lists, mem_site}
use cmpe156_network_programm.Proxy.Request.{
  check_request, first_line, split_cr, check_version, headers, header_at, check_host, accepted,
}
use cmpe156_network_programm.Proxy.Request.Headers.{heed, heed_all, header_text, header_lines}
use cmpe156_network_programm.Proxy.Request.Verdict.{
  BrowserRequest, IsRequest, request_line, request_text, found_in, verdict, check_request-verdict,
}
use cmpe156_network_programm.Proxy.Relay.{
  relay_rest, send_browser, browser_buf, response_head, content_length, rescanned, Action,
  strip_prefix, behind_blank, close_browser, close_host, relay, log_line, connect_host, send_host,
}
use cmpe156_network_programm.Proxy.Relay.Count.{response_start, all_taken}
use cmpe156_network_programm.Proxy.Thread.{
  World, thread_from, append_chunk, answer_checked, forward, connect_new, send_on, forward_line,
  forward_text, Exchange, thread_proxy, handle, stop, again, left,
}
use cmpe156_network_programm.Proxy.Thread.OneHost.{ToOne, thread_proxy-ToOne}
use cmpe156_network_programm.Proxy.Thread.Forwarding.{
  forwarded_header, with_forwarded, request_block, handle-with_forwarded,
}
use cmpe156_network_programm.Proxy.RelayTests.{answer_status, server_header}

abbrev home_page : BrowserRequest
home_page = record {
  method = codes "GET";
  url = codes "/index.html";
  version = codes "HTTP/1.1";
  headers =
      record { name = codes "Host:"; value = codes "a.com"; more = [] }
      ∷ record { name = codes "Accept:"; value = codes "text/html,"; more = codes " */*" }
      ∷ [];
}

abbrev blocked : ForbiddenSites
blocked = record { sites_array = ref (codes "b.org") ∷ []; occupied = 1 }

blocked-Lists : Lists blocked (codes "b.org" ∷ [])
blocked-Lists = record { spare = []; cells = refl; counted = refl }

home_page-IsRequest : IsRequest home_page
home_page-IsRequest = record {
  method = is_word-IsWord (codes "GET") refl;
  method_fits = omega arith;
  url = is_word-IsWord (codes "/index.html") refl;
  url_fits = omega arith;
  version = is_word-IsWord (codes "HTTP/1.1") refl;
  version_fits = omega arith;
  headers = (
    record {
      name = is_word-IsWord (codes "Host:") refl;
      name_fits = omega arith;
      value = is_word-IsWord (codes "a.com") refl;
      value_fits = omega arith;
      more_apart = tt;
      more_plain = tt;
    },
    (
      record {
        name = is_word-IsWord (codes "Accept:") refl;
        name_fits = omega arith;
        value = is_word-IsWord (codes "text/html,") refl;
        value_fits = omega arith;
        more_apart = refl;
        more_plain = (omega arith, (omega arith, (omega arith, (omega arith, tt))));
      },
      tt,
    ),
  );
}

check_request-verdict_example :
    check_request blocked (request_text home_page)
    ≡ ok (request_line home_page, verdict (codes "b.org" ∷ []) home_page)
check_request-verdict_example =
    check_request-verdict blocked (codes "b.org" ∷ []) home_page blocked-Lists home_page-IsRequest

abbrev world : World
world = record {
  client_ip = codes "10.0.0.2";
  proxy_ip = codes "10.0.0.1";
  date = codes "Mon, 01 Jan 2019 00:00:00 UTC";
}

abbrev exchange : Exchange
exchange = record {
  resolves = true;
  connects = true;
  host_takes = true;
  chunks = all_taken (response_start answer_status (server_header ∷ []) ∷ codes "hello" ∷ []);
}

home_page_accepted :
    verdict (codes "b.org" ∷ []) home_page ≡ accepted (codes "HTTP/1.1") (found_in home_page)
unfolding verdict found_in heed_all heed mem_site str_eq
home_page_accepted = refl

home_page_fits : length (request_text (with_forwarded world home_page)) < 2048
unfolding request_text request_line header_lines header_text with_forwarded forwarded_header
home_page_fits = omega arith

handle-with_forwarded_example :
    handle world blocked
      (record { host_sock = none; log_responsecode = none })
      (request_text home_page)
      exchange
    ≡ (relay (request_line home_page) none exchange.chunks >>= λ (acts, code, done). ok (record {
      link = record { host_sock = some (found_in home_page).host; log_responsecode = code };
      actions =
          connect_host (found_in home_page).host
          ∷ send_host
              (found_in home_page).host
              (request_block (request_text (with_forwarded world home_page)))
          ∷ acts;
      next = if done then (if (found_in home_page).persistent then again else stop) else left;
    }))
handle-with_forwarded_example =
    handle-with_forwarded world blocked (codes "b.org" ∷ [])
      (record { host_sock = none; log_responsecode = none }) home_page exchange
      (record { client_ip = omega arith; proxy_ip = omega arith }) blocked-Lists home_page-IsRequest
      home_page_accepted refl home_page_fits
      (record { resolves = refl; connects = refl; host_takes = refl })

abbrev one_request : Bytes
one_request = codes "GET /x HTTP/1.0" ++ 13 ∷ 10 ∷ (codes "Host: a.com" ++ 13 ∷ 10 ∷ 13 ∷ 10 ∷ [])

abbrev one_answer : Bytes
one_answer =
    codes "HTTP/1.0 200 OK"
    ++ 13 ∷ 10 ∷ (codes "Content-Length: 2" ++ 13 ∷ 10 ∷ 13 ∷ 10 ∷ codes "hi")

abbrev one_read : List (Bytes × Exchange)
one_read =
    (
      one_request,
      record {
        resolves = true;
        connects = true;
        host_takes = true;
        chunks = (one_answer, true) ∷ [];
      },
    )
    ∷ []

abbrev one_forwarded : Bytes
one_forwarded =
    codes "GET /x HTTP/1.0"
    ++ 13
      ∷ 10
      ∷ (codes "Host: a.com"
          ++ 13
            ∷ 10
            ∷ (codes "Forwarded: for=10.0.0.2; proto=http; by=10.0.0.1" ++ 13 ∷ 10 ∷ 13 ∷ 10 ∷ []))

abbrev one_actions : List Action
one_actions =
    connect_host (codes "a.com")
    ∷ send_host (codes "a.com") (one_forwarded ++ replicate (2048 - length one_forwarded) 0)
    ∷ log_line (codes "GET /x HTTP/1.0") (codes "200") (pos 2)
    ∷ send_browser (browser_buf one_answer)
    ∷ close_browser
    ∷ close_host
    ∷ []

one_read_actions : thread_proxy world blocked one_read ≡ ok one_actions
unfolding thread_proxy thread_from append_chunk c_string behind_blank strip_prefix handle
    check_request first_line split_cr scan_s skip_spaces word str_eq check_version headers header_at
    strcpy check_host is_forbidden forbidden_from get_site_item strcmp_eq answer_checked forward
    connect_new send_on forward_line forward_text relay relay_rest response_head content_length
    rescanned atol
one_read_actions = refl

thread_proxy-ToOne_example : ToOne blocked one_actions
thread_proxy-ToOne_example = thread_proxy-ToOne world blocked one_read one_actions one_read_actions
