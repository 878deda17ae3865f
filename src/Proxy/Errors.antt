-- ===== src/Proxy/Errors.antt =====
-- The proxy's own responses: proxyResponseError of hw5/proxy.c.
use cmpe156_network_programm.Prelude.{
  ℕ, ◌+◌, ◌-◌, ◌≡◌, ◌≤◌, ◌<◌, refl, List, [], ◌∷◌, ◌++◌, arith, Result, ok, length, length-append,
  length-replicate, lt→ltb, replicate, ◌==◌, if◌then◌else◌, pos,
}
use cmpe156_network_programm.Libc.Str.{Bytes, codes}
use cmpe156_network_programm.Libc.Number.{format_d, length-decimal}
use cmpe156_network_programm.Chat.Protocol.{sprintf, buffer_size}

-- `msg`, by the code.
unfoldable pub message_of : ℕ → Bytes
message_of code =
    if code == 403
    then codes "Forbidden"
    else if code == 501
    then codes "Not Implemented"
    else if code == 400
    then codes "Bad Request"
    else if code == 405
    then codes "Method Not Allowed"
    else codes "Bad Request"

abbrev pub line_end : Bytes
line_end = 13 ∷ 10 ∷ []

unfoldable pub join_texts : List Bytes → Bytes
join_texts [] = []
join_texts (t ∷ ts) = t ++ join_texts ts

-- The pieces of the format, in their order.
unfoldable pub error_pieces : ℕ → Bytes → Bytes → List Bytes
error_pieces code httpversion date =
    httpversion
    ∷ codes " "
    ∷ format_d (pos code)
    ∷ codes " "
    ∷ message_of code
    ∷ line_end
    ∷ codes "Content-Type: text/html; charset=UTF-8"
    ∷ line_end
    ∷ codes "Connection: close"
    ∷ line_end
    ∷ codes "Date: "
    ∷ date
    ∷ line_end
    ∷ line_end
    ∷ codes "<!DOCTYPE html>\n<html>\n<title>"
    ∷ format_d (pos code)
    ∷ codes " "
    ∷ message_of code
    ∷ codes "</title>\n<p>"
    ∷ format_d (pos code)
    ∷ codes " "
    ∷ message_of code
    ∷ codes "</p>\n</html>\n"
    ∷ []

-- The block that is written to the browser; `date` is what strftime gives.
unfoldable pub proxy_response_error : ℕ → Bytes → Bytes → Result Bytes
proxy_response_error code httpversion date =
    sprintf buffer_size (join_texts (error_pieces code httpversion date))

unfoldable pub total : List Bytes → ℕ
total [] = 0
total (t ∷ ts) = length t + total ts

length-join_texts : (ts : List Bytes) → length (join_texts ts) ≡ total ts
unfolding join_texts total
length-join_texts [] = refl
length-join_texts (t ∷ ts) = omega (arith, length-append t (join_texts ts), length-join_texts ts)

length-message_of : (code : ℕ) → length (message_of code) ≤ 18
unfolding message_of
length-message_of code = ground arith

length-format_d : (code : ℕ) → code < 1000 → length (format_d (pos code)) ≤ 3
unfolding format_d
length-format_d code h = length-decimal 2 code h

error_fits :
    (code : ℕ) (httpversion date : Bytes)
    → code < 1000
    → length httpversion < 32
    → length date < 50
    → total (error_pieces code httpversion date) < 1024
unfolding total error_pieces
error_fits code httpversion date h v d =
    omega (arith, length-message_of code, length-format_d code h)

-- For a code below 1000, a version below 32 bytes and a date below 50 bytes, the error response
-- fits the 1024 bytes of its buffer, and the whole buffer is written.
pub proxy_response_error_fits :
    (code : ℕ) (httpversion date : Bytes)
    → code < 1000
    → length httpversion < 32
    → length date < 50
    → (block : Bytes) × (proxy_response_error code httpversion date ≡ ok block)
      × (length block ≡ 1024)
unfolding proxy_response_error sprintf
proxy_response_error_fits code httpversion date h v d =
    let text = join_texts (error_pieces code httpversion date) in
    let short : length text < 1024 = omega (
      arith,
      length-join_texts (error_pieces code httpversion date),
      error_fits code httpversion date h v d,
    ) in
    (
      text ++ replicate (1024 - length text) 0,
      rw (lt→ltb (length text) 1024 short) refl,
      omega (
        arith,
        length-append text (replicate (1024 - length text) 0),
        length-replicate {A = ℕ} (1024 - length text) 0,
      ),
    )
