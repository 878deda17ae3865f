-- ===== src/Proxy/RelayTests.antt =====
-- The theorems on the proxy's relay at concrete inputs.
use cmpe156_network_programm.Prelude.{◌≡◌, arith, refl, true, [], ◌∷◌, ◌++◌, none, some, ok, pos}
use cmpe156_network_programm.Libc.Str.{Bytes, codes, no_nul-NoNul}
use cmpe156_network_programm.Libc.Scan.{is_word-IsWord}
use cmpe156_network_programm.Libc.Number.{format_d, decimal, digits}
use cmpe156_network_programm.Proxy.Request.Headers.{Header, header_text}
use cmpe156_network_programm.Proxy.Relay.{relay, log_line}
use cmpe156_network_programm.Proxy.Relay.Head.{Status, status_line, IsStatus, IsText}
use cmpe156_network_programm.Proxy.Relay.Length.{IsOther, size_header}
use cmpe156_network_programm.Proxy.Relay.Count.{
  sized_response, response_start, passed_on, all_taken, relay-declared, relay-counted,
}

abbrev pub answer_status : Status
answer_status = record {
  version = codes "HTTP/1.1";
  code = codes "200";
  reason = codes "OK";
  more = [];
}

answer_status-IsStatus : IsStatus answer_status
answer_status-IsStatus = record {
  version = is_word-IsWord (codes "HTTP/1.1") refl;
  version_fits = omega arith;
  code = is_word-IsWord (codes "200") refl;
  code_fits = omega arith;
  reason = is_word-IsWord (codes "OK") refl;
  reason_fits = omega arith;
  more_apart = tt;
  more_plain = tt;
}

abbrev pub server_header : Header
server_header = record { name = codes "Server:"; value = codes "small"; more = [] }

server_header-IsOther : IsOther server_header
server_header-IsOther = (
  record {
    name = is_word-IsWord (codes "Server:") refl;
    name_fits = omega arith;
    value = is_word-IsWord (codes "small") refl;
    value_fits = omega arith;
    more_apart = tt;
    more_plain = tt;
  },
  λ e. cc,
)

abbrev request_one : Bytes
request_one = codes "GET /index.html HTTP/1.1"

start-IsText : IsText (response_start answer_status (server_header ∷ []))
unfolding response_start status_line header_text
start-IsText = (no_nul-NoNul (response_start answer_status (server_header ∷ [])) refl, omega arith)

relay-counted_example :
    relay request_one none (
      all_taken
        (response_start answer_status (server_header ∷ []) ∷ codes "hello " ∷ codes "world" ∷ []))
    ≡ ok (
      passed_on (
            response_start answer_status (server_header ∷ []) ∷ codes "hello " ∷ codes "world" ∷ [])
          ++ log_line request_one (codes "200") (pos 11) ∷ [],
      some (codes "200"),
      true,
    )
relay-counted_example =
    relay-counted request_one none answer_status (server_header ∷ [])
      (codes "hello " ∷ codes "world" ∷ []) answer_status-IsStatus (server_header-IsOther, tt)
      start-IsText
      (
        (no_nul-NoNul (codes "hello ") refl, omega arith),
        ((no_nul-NoNul (codes "world") refl, omega arith), tt),
      )

abbrev page_text : Bytes
page_text = 13 ∷ 10 ∷ 13 ∷ 10 ∷ codes "hello world"

sized-IsText : IsText (sized_response answer_status (server_header ∷ []) 11 page_text)
unfolding sized_response status_line header_text size_header format_d decimal digits
sized-IsText = (
  no_nul-NoNul (sized_response answer_status (server_header ∷ []) 11 page_text) refl,
  omega arith,
)

relay-declared_example :
    relay request_one none
      (all_taken (sized_response answer_status (server_header ∷ []) 11 page_text ∷ []))
    ≡ ok (
      log_line request_one (codes "200") (pos 11)
          ∷ passed_on (sized_response answer_status (server_header ∷ []) 11 page_text ∷ []),
      some (codes "200"),
      true,
    )
relay-declared_example =
    relay-declared request_one none answer_status (server_header ∷ []) 11 page_text []
      answer_status-IsStatus (server_header-IsOther, tt) (omega arith) refl sized-IsText
