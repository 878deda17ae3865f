-- ===== src/Proxy/Relay/Count.antt =====
-- What thread_proxy of hw5/proxy.c logs and passes on of a response that comes in several reads.
use cmpe156_network_programm.Prelude.{
  ℕ, ◌+◌, ◌^◌, ◌≡◌, ◌≢◌, ◌<◌, refl, sym, ap, ◌∙◌, Bool, true, List, [], ◌∷◌, ◌++◌, map,
  append_assoc, arith, Option, none, some, ok, length, ℤ, pos,
}
use cmpe156_network_programm.Libc.Str.{Bytes, All}
use cmpe156_network_programm.Libc.Scan.{IsWord, StartsSpace}
use cmpe156_network_programm.Proxy.Request.Headers.{
  Header, IsHeader, IsNotCr, crlf, header_text, header_text-IsNotCr, ink-IsNotCr,
}
use cmpe156_network_programm.Proxy.Relay.{
  Action, log_line, send_browser, browser_buf, strip_prefix, blank, behind_blank, declared, counted,
  count_chunk, relay_rest, relay,
}
use cmpe156_network_programm.Proxy.Relay.Length.{
  IsOther, lines_before, StartsSpace-lines_before, content_length_none, size_header,
  content_length_some,
}
use cmpe156_network_programm.Proxy.Relay.Head.{
  Status, IsStatus, status_line, status_line-IsNotCr, IsText, c_string-browser_buf,
  response_head-status,
}

-- The first read of a response with its length, and of one without, which ends with the head.
unfoldable pub sized_response : Status → List Header → ℕ → Bytes → Bytes
sized_response s hs n rest =
    status_line s ++ lines_before hs (crlf ++ (header_text (size_header n) ++ rest))

unfoldable pub response_start : Status → List Header → Bytes
response_start s hs = status_line s ++ lines_before hs (crlf ++ crlf)

-- Every read is passed on in a block of its own.
abbrev pub passed_on : List Bytes → List Action
passed_on cs = map (λ chunk. send_browser (browser_buf chunk)) cs

abbrev pub all_taken : List Bytes → List (Bytes × Bool)
all_taken cs = map (λ chunk. (chunk, true)) cs

relay_rest-declared :
    (line code : Bytes) (n : ℤ) (cs : List Bytes)
    → relay_rest line code (declared n) (all_taken cs) ≡ ok (passed_on cs, true)
unfolding relay_rest count_chunk
relay_rest-declared line code n [] = refl
relay_rest-declared line code n (c ∷ cs) = rw (relay_rest-declared line code n cs) refl

abbrev pub total : List Bytes → ℕ
total [] = 0
total (c ∷ cs) = length c + total cs

relay_rest-counted :
    (line code : Bytes) (n : ℕ) (cs : List Bytes)
    → All IsText cs
    → relay_rest line code (counted n) (all_taken cs)
      ≡ ok (passed_on cs ++ log_line line code (pos (n + total cs)) ∷ [], true)
unfolding relay_rest count_chunk
relay_rest-counted line code n [] a =
    ap (λ m. ok (log_line line code (pos m) ∷ [], true)) (omega arith)
relay_rest-counted line code n (c ∷ cs) a =
    rw (c_string-browser_buf c a.0, relay_rest-counted line code (n + length c) cs a.1)
      (ap (λ m. ok (passed_on (c ∷ cs) ++ log_line line code (pos m) ∷ [], true)) (omega arith))

behind_blank_step :
    (c : ℕ) (s : Bytes) → strip_prefix blank (c ∷ s) ≡ none → behind_blank (c ∷ s) ≡ behind_blank s
unfolding behind_blank
behind_blank_step c s e = ap (λ o. elim o [ none ↦ behind_blank s | some t ↦ some t ]) e

strip_blank : (c : ℕ) (s : Bytes) → c ≢ 13 → strip_prefix blank (c ∷ s) ≡ none
unfolding strip_prefix
strip_blank c s h = ground arith

behind_blank-skip :
    (line rest : Bytes) → All IsNotCr line → behind_blank (line ++ rest) ≡ behind_blank rest
behind_blank-skip [] rest h = refl
behind_blank-skip (c ∷ line) rest h =
    behind_blank_step c (line ++ rest) (strip_blank c (line ++ rest) h.0)
    ∙ behind_blank-skip line rest h.1

-- A line end in front of a byte that is none starts no blank line.
behind_blank_line :
    (c : ℕ) (s : Bytes) → c ≢ 13 → behind_blank (crlf ++ c ∷ s) ≡ behind_blank (c ∷ s)
unfolding strip_prefix
behind_blank_line c s h =
    behind_blank_step 13 (10 ∷ c ∷ s) (ground arith)
    ∙ behind_blank_step 10 (c ∷ s) (strip_blank 10 (c ∷ s) (omega arith))

behind_blank_word :
    (w rest : Bytes) → IsWord w → behind_blank (crlf ++ (w ++ rest)) ≡ behind_blank (w ++ rest)
behind_blank_word [] rest h = absurd (h.0 refl)
behind_blank_word (c ∷ w) rest h = behind_blank_line c (w ++ rest) (ink-IsNotCr (c ∷ w) h.1).0

behind_blank-header :
    (h : Header) (rest : Bytes)
    → IsHeader h
    → behind_blank (crlf ++ (header_text h ++ rest)) ≡ behind_blank rest
unfolding header_text
behind_blank-header h rest v =
    let text : header_text h ++ rest ≡ h.name ++ (b' ' ∷ (h.value ++ h.more) ++ rest) =
      append_assoc h.name (b' ' ∷ (h.value ++ h.more)) rest in
    ap (λ s. behind_blank (crlf ++ s)) text
    ∙ behind_blank_word h.name (b' ' ∷ (h.value ++ h.more) ++ rest) v.name
    ∙ ap behind_blank (sym text)
    ∙ behind_blank-skip (header_text h) rest (header_text-IsNotCr h v)

behind_blank-lines :
    (hs : List Header) → All IsOther hs → behind_blank (lines_before hs (crlf ++ crlf)) ≡ some []
behind_blank-lines [] a = unfold behind_blank strip_prefix in refl
behind_blank-lines (h ∷ hs) a =
    behind_blank-header h (lines_before hs (crlf ++ crlf)) a.0.0 ∙ behind_blank-lines hs a.1

-- For a response whose head fits the proxy's arrays and has a Content-Length below 10 ^ 18, the
-- relay logs the response's code with that length and then passes each read on in a block,
-- whatever the later reads hold, as long as the browser takes the blocks.
pub relay-declared :
    (line : Bytes) (earlier : Option Bytes) (s : Status) (hs : List Header) (n : ℕ) (rest : Bytes)
    (cs : List Bytes)
    → IsStatus s
    → All IsOther hs
    → n < 10 ^ 18
    → StartsSpace rest
    → IsText (sized_response s hs n rest)
    → relay line earlier (all_taken (sized_response s hs n rest ∷ cs))
      ≡ ok (
        log_line line s.code (pos n) ∷ passed_on (sized_response s hs n rest ∷ cs),
        some s.code,
        true,
      )
unfolding relay sized_response
relay-declared line earlier s hs n rest cs v a f r t =
    let tail = lines_before hs (crlf ++ (header_text (size_header n) ++ rest)) in
    rw
      (
        response_head-status s tail (some (pos n)) v t
            (StartsSpace-lines_before hs (crlf ++ (header_text (size_header n) ++ rest)) refl)
            (content_length_some hs n rest [] [] a f r),
        relay_rest-declared line s.code (pos n) cs,
      )
      refl

-- For a response without a Content-Length whose first read is its head and whose later reads are
-- below 1024 bytes without a NUL, the relay passes each read on in a block and then logs the
-- response's code with the number of the bytes of the body, as long as the browser takes the
-- blocks.
pub relay-counted :
    (line : Bytes) (earlier : Option Bytes) (s : Status) (hs : List Header) (cs : List Bytes)
    → IsStatus s
    → All IsOther hs
    → IsText (response_start s hs)
    → All IsText cs
    → relay line earlier (all_taken (response_start s hs ∷ cs))
      ≡ ok (
        passed_on (response_start s hs ∷ cs) ++ log_line line s.code (pos (total cs)) ∷ [],
        some s.code,
        true,
      )
unfolding relay response_start
relay-counted line earlier s hs cs v a t ts =
    let tail = lines_before hs (crlf ++ crlf) in
    rw
      (
        response_head-status s tail none v t (StartsSpace-lines_before hs (crlf ++ crlf) refl)
            (content_length_none hs [] [] a (λ e. cc)),
        behind_blank-skip (status_line s) tail (status_line-IsNotCr s v),
        behind_blank-lines hs a,
        relay_rest-counted line s.code 0 cs ts,
      )
      (ap
        (λ n. ok (
          passed_on ((status_line s ++ tail) ∷ cs) ++ log_line line s.code (pos n) ∷ [],
          some s.code,
          true,
        ))
        (omega arith))
