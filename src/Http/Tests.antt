-- ===== src/Http/Tests.antt =====
-- The theorems on the HTTP tool at concrete inputs.
use cmpe156_network_programm.Prelude.{
  List, ◌≡◌, arith, refl, true, false, [], ◌∷◌, ◌++◌, some, none, ok, pos,
}
use cmpe156_network_programm.Libc.Str.{All, codes, no_nul-NoNul}
use cmpe156_network_programm.Libc.Number.{atoi}
use cmpe156_network_programm.Proxy.Request.Verdict.{request_text}
use cmpe156_network_programm.Http.{request_of, starts_port}
use cmpe156_network_programm.Http.Url.{scheme, host_url}
use cmpe156_network_programm.Http.Sent.{tool_request, sent}
use cmpe156_network_programm.Http.Request.{request_of-tool_request}
use cmpe156_network_programm.Http.Port.{IsPorted, port_url, request_of_port}
use cmpe156_network_programm.Http.Body.{ends_head}
use cmpe156_network_programm.Http.Response.{
  Read, receive, printed, written, joined, IsText, receive-final_line,
}
use cmpe156_network_programm.Http.Body.Lines.{lines_text, final_line}

request_of-tool_request_example :
    request_of false (scheme true ++ host_url (codes "a.b") (codes "x/y"))
    ≡ ok (some (80, sent (request_text (tool_request false (codes "a.b") (codes "x/y")))))
request_of-tool_request_example =
    request_of-tool_request false true (codes "a.b") (codes "x/y") (record {
      host_plain = (
        (omega arith, omega arith, omega arith),
        ((omega arith, omega arith, omega arith), ((omega arith, omega arith, omega arith), tt)),
      );
      host_there = λ e. cc;
      host_fits = omega arith;
      target_plain = (
        (omega arith, omega arith),
        ((omega arith, omega arith), ((omega arith, omega arith), tt)),
      );
      target_there = λ e. cc;
      target_fits = omega arith;
      fits = omega arith;
    })

port_8080 : atoi (codes "8080/x") ≡ ok (pos 8080)
unfolding atoi
port_8080 = refl

a_b-IsPorted : IsPorted (codes "a.b") (codes "8080/x")
unfolding starts_port
a_b-IsPorted = record {
  host_plain = (
    (omega arith, omega arith, omega arith),
    ((omega arith, omega arith, omega arith), ((omega arith, omega arith, omega arith), tt)),
  );
  host_there = λ e. cc;
  host_fits = omega arith;
  behind_plain = no_nul-NoNul (codes "8080/x") refl;
  behind_port = refl;
  fits = omega arith;
}

request_of_port_example :
    (request_of false (codes "http://" ++ port_url (codes "a.b") (codes "8080/x"))
      ≡ ok (some (8080, sent (request_text (tool_request false (codes "a.b") [])))))
    × (request_of false (codes "http://" ++ port_url (codes "a.b") (b'8' ∷ [])) ≡ ok none)
request_of_port_example =
    request_of_port false (codes "a.b") (codes "8080/x") (pos 8080) b'8' a_b-IsPorted port_8080

status_ends_no_head : ends_head (79 ∷ 75 ∷ 13 ∷ 10 ∷ []) ≡ false
unfolding ends_head
status_ends_no_head = refl

-- The response in three reads.
abbrev three_reads : List Read
three_reads =
    record { text = 79 ∷ 75 ∷ 13 ∷ 10 ∷ []; finish = 5 }
    ∷ record { text = 13 ∷ 10 ∷ codes "hel"; finish = 6 }
    ∷ record { text = codes "lo" ++ 10 ∷ codes "you"; finish = 7 }
    ∷ []

three_reads-IsText : All (IsText 5) three_reads
three_reads-IsText = (
  record {
    there = λ e. cc;
    plain = no_nul-NoNul (79 ∷ 75 ∷ 13 ∷ 10 ∷ []) refl;
    later = omega arith;
  },
  (
    record {
      there = λ e. cc;
      plain = no_nul-NoNul (13 ∷ 10 ∷ codes "hel") refl;
      later = omega arith;
    },
    (
      record {
        there = λ e. cc;
        plain = no_nul-NoNul (codes "lo" ++ 10 ∷ codes "you") refl;
        later = omega arith;
      },
      tt,
    ),
  ),
)

receive-final_line_example :
    (receive true 5 three_reads ≡ ok (printed (joined three_reads)))
    × (receive false 5 three_reads
        ≡ ok (
            written (
              lines_text (codes "hello" ∷ [])
              ++ final_line (13 ∷ 10 ∷ []) (codes "hello" ∷ []) (codes "you"))))
receive-final_line_example =
    receive-final_line 5 three_reads ((79 ∷ 75 ∷ 13 ∷ []) ∷ []) (codes "hello" ∷ []) (codes "you")
      three_reads-IsText refl
      (
        (
          record { plain = (omega arith, (omega arith, (omega arith, tt))); fits = omega arith },
          status_ends_no_head,
        ),
        tt,
      )
      (
        record {
          plain = (omega arith, (omega arith, (omega arith, (omega arith, (omega arith, tt)))));
          fits = omega arith;
        },
        tt,
      )
      (record { plain = (omega arith, (omega arith, (omega arith, tt))); fits = omega arith })
