-- ===== src/Http/Sent.antt =====
-- The request that hw1/hw1.c sends, as a text.
use cmpe156_network_programm.Prelude.{
  ◌-◌, ◌≡◌, ◌<◌, ap, Bool, true, false, [], ◌∷◌, ◌++◌, append_assoc, append-nil, arith, ok, length,
  length-append, replicate, lt→ltb, if◌then◌else◌, ℤ,
}
use cmpe156_network_programm.Libc.Str.{Bytes, codes}
use cmpe156_network_programm.Proxy.Request.Headers.{header_text, header_lines}
use cmpe156_network_programm.Proxy.Request.Verdict.{BrowserRequest, request_line, request_text}
use cmpe156_network_programm.Http.{request_block}

-- The request of the tool, as the proxy's browsers print theirs.
unfoldable pub tool_request : Bool → Bytes → Bytes → BrowserRequest
tool_request need_head host target = record {
  method = if need_head then codes "HEAD" else codes "GET";
  url = b'/' ∷ target;
  version = codes "HTTP/1.1";
  headers = record { name = codes "Host:"; value = host; more = [] } ∷ [];
}

-- A text in the array that is sent as a whole.
abbrev pub sent : Bytes → Bytes
sent text = text ++ replicate (4128 - length text) 0

abbrev tail : Bytes → Bytes
tail host = codes " HTTP/1.1" ++ 13 ∷ 10 ∷ (codes "Host: " ++ (host ++ 13 ∷ 10 ∷ 13 ∷ 10 ∷ []))

text_pieces : Bool → Bytes → Bytes → Bytes
text_pieces need_head host target =
    (if need_head then codes "HEAD /" else codes "GET /") ++ (target ++ tail host)

text_pieces-request_text :
    (need_head : Bool) (host target : Bytes)
    → text_pieces need_head host target ≡ request_text (tool_request need_head host target)
unfolding text_pieces tool_request request_text request_line header_lines header_text
text_pieces-request_text true host target = simp (append_assoc, append-nil)
text_pieces-request_text false host target = simp (append_assoc, append-nil)

length-text_pieces :
    (need_head : Bool) (host target : Bytes)
    → length host < 512
    → length target < 3584
    → length (text_pieces need_head host target) < 4128
unfolding text_pieces
length-text_pieces true host target f g =
    omega
      (arith, f, g, length-append target (tail host), length-append host (13 ∷ 10 ∷ 13 ∷ 10 ∷ []))
length-text_pieces false host target f g =
    omega
      (arith, f, g, length-append target (tail host), length-append host (13 ∷ 10 ∷ 13 ∷ 10 ∷ []))

pub request_block-tool_request :
    (need_head : Bool) (host target : Bytes) (port : ℤ)
    → length host < 512
    → length target < 3584
    → request_block need_head (record { host = host; port = port; target = target })
      ≡ ok (sent (request_text (tool_request need_head host target)))
unfolding request_block text_pieces
request_block-tool_request need_head host target port f g =
    rw
      (lt→ltb (length (text_pieces need_head host target)) 4128
        (length-text_pieces need_head host target f g))
      (ap (λ s. ok (sent s)) (text_pieces-request_text need_head host target))
