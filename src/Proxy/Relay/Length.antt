-- ===== src/Proxy/Relay/Length.antt =====
-- The search for the length, in thread_proxy of hw5/proxy.c, on responses as a host prints them.
use cmpe156_network_programm.Prelude.{
  ℕ, ◌^◌, ◌≡◌, ◌≢◌, ◌<◌, refl, ◌∙◌, false, List, [], ◌∷◌, ◌++◌, arith, none, some, ok, ◌==◌, pos,
}
use cmpe156_network_programm.Libc.Str.{Bytes, All, codes, str_eq_ne, str_eq_refl}
use cmpe156_network_programm.Libc.Number.{
  IsDigit, decimal-All, decimal-ne-nil, length-decimal, atol-format_d, IsLong, decimal, format_d,
}
use cmpe156_network_programm.Libc.Scan.{IsInk, IsWord, is_word-IsWord, StartsSpace, scan_s_none}
use cmpe156_network_programm.Proxy.Request.Headers.{
  Header, IsHeader, IsNotCr, crlf, header_text, header_text-IsNotCr, scan_s-name, scan_s-value,
}
use cmpe156_network_programm.Proxy.Relay.{content_length, rescanned}

-- Bytes that are no '\r' are passed over.
pub content_length-skip :
    (line rest cmd1 cmd2 : Bytes)
    → All IsNotCr line
    → content_length (line ++ rest) cmd1 cmd2 ≡ content_length rest cmd1 cmd2
unfolding content_length
content_length-skip [] rest cmd1 cmd2 h = refl
content_length-skip (c ∷ line) rest cmd1 cmd2 h =
    let plain : (c == 13) ≡ false = ground arith in
    rw plain (content_length-skip line rest cmd1 cmd2 h.1)

rescanned-word : (old w : Bytes) → IsWord w → rescanned old w ≡ w
unfolding rescanned
rescanned-word old [] h = absurd (h.0 refl)
rescanned-word old (c ∷ w) h = refl

-- A header of another name is passed over; its words stay in the arrays.
content_length-header :
    (h : Header) (rest cmd1 cmd2 : Bytes)
    → IsHeader h
    → h.name ≢ codes "Content-Length:"
    → StartsSpace rest
    → content_length (crlf ++ (header_text h ++ rest)) cmd1 cmd2
      ≡ content_length rest h.name h.value
unfolding content_length
content_length-header h rest cmd1 cmd2 v other r =
    rw
      (
        scan_s-name h rest v,
        scan_s-value h rest v r,
        rescanned-word cmd1 h.name v.name,
        rescanned-word cmd2 h.value v.value,
        str_eq_ne h.name (codes "Content-Length:") other,
      )
      (content_length-skip (header_text h) rest h.name h.value (header_text-IsNotCr h v))

abbrev pub IsOther : Header → Type 0
IsOther h = IsHeader h × (h.name ≢ codes "Content-Length:")

-- The first lines of the headers.
abbrev pub lines_before : List Header → Bytes → Bytes
lines_before [] rest = rest
lines_before (h ∷ hs) rest = crlf ++ (header_text h ++ lines_before hs rest)

pub StartsSpace-lines_before :
    (hs : List Header) (rest : Bytes) → StartsSpace rest → StartsSpace (lines_before hs rest)
StartsSpace-lines_before [] rest r = r
StartsSpace-lines_before (h ∷ hs) rest r = refl

-- At the blank line, with nothing behind it, no word is read.
content_length_end :
    (cmd1 cmd2 : Bytes)
    → cmd1 ≢ codes "Content-Length:"
    → content_length (crlf ++ crlf) cmd1 cmd2 ≡ ok none
unfolding content_length rescanned
content_length_end cmd1 cmd2 other =
    rw
      (
        scan_s_none 32 (crlf ++ crlf) (refl, (refl, (refl, (refl, tt)))) (omega arith),
        scan_s_none 32 [] tt (omega arith),
        str_eq_ne cmd1 (codes "Content-Length:") other,
        scan_s_none 32 crlf (refl, (refl, tt)) (omega arith),
        scan_s_none 32 [] tt (omega arith),
        str_eq_ne cmd1 (codes "Content-Length:") other,
      )
      refl

-- Without the header, at the end of the head, no length is found.
pub content_length_none :
    (hs : List Header) (cmd1 cmd2 : Bytes)
    → All IsOther hs
    → cmd1 ≢ codes "Content-Length:"
    → content_length (lines_before hs (crlf ++ crlf)) cmd1 cmd2 ≡ ok none
content_length_none [] cmd1 cmd2 a other = content_length_end cmd1 cmd2 other
content_length_none (h ∷ hs) cmd1 cmd2 a other =
    content_length-header h (lines_before hs (crlf ++ crlf)) cmd1 cmd2 a.0.0 a.0.1
      (StartsSpace-lines_before hs (crlf ++ crlf) refl)
    ∙ content_length_none hs h.name h.value a.1 a.0.1

-- The header with a response's length.
unfoldable pub size_header : ℕ → Header
size_header n = record { name = codes "Content-Length:"; value = format_d (pos n); more = [] }

IsDigit-IsInk : (s : Bytes) → All IsDigit s → All IsInk s
IsDigit-IsInk [] a = tt
IsDigit-IsInk (c ∷ s) a = (ground arith, IsDigit-IsInk s a.1)

size_header-IsHeader : (n : ℕ) → n < 10 ^ 18 → IsHeader (size_header n)
unfolding size_header format_d
size_header-IsHeader n f = record {
  name = is_word-IsWord (codes "Content-Length:") refl;
  name_fits = omega arith;
  value = (decimal-ne-nil n, IsDigit-IsInk (decimal n) (decimal-All n));
  value_fits = omega (arith, length-decimal 17 n f);
  more_apart = tt;
  more_plain = tt;
}

size_header-IsLong : (n : ℕ) → n < 10 ^ 18 → IsLong (pos n)
size_header-IsLong n f = omega arith

content_length-size_header :
    (n : ℕ) (rest cmd1 cmd2 : Bytes)
    → n < 10 ^ 18
    → StartsSpace rest
    → content_length (crlf ++ (header_text (size_header n) ++ rest)) cmd1 cmd2 ≡ ok (some (pos n))
unfolding content_length
content_length-size_header n rest cmd1 cmd2 f r =
    let h = size_header n in
    let v : IsHeader h = size_header-IsHeader n f in
    rw
      (
        scan_s-name h rest v,
        scan_s-value h rest v r,
        rescanned-word cmd1 h.name v.name,
        rescanned-word cmd2 h.value v.value,
      )
      (unfold size_header in
        rw (str_eq_refl (codes "Content-Length:"), atol-format_d (pos n) (size_header-IsLong n f))
          refl)

pub content_length_some :
    (hs : List Header) (n : ℕ) (rest cmd1 cmd2 : Bytes)
    → All IsOther hs
    → n < 10 ^ 18
    → StartsSpace rest
    → content_length (lines_before hs (crlf ++ (header_text (size_header n) ++ rest))) cmd1 cmd2
      ≡ ok (some (pos n))
content_length_some [] n rest cmd1 cmd2 a f r = content_length-size_header n rest cmd1 cmd2 f r
content_length_some (h ∷ hs) n rest cmd1 cmd2 a f r =
    let tail = crlf ++ (header_text (size_header n) ++ rest) in
    content_length-header h (lines_before hs tail) cmd1 cmd2 a.0.0 a.0.1
      (StartsSpace-lines_before hs tail refl)
    ∙ content_length_some hs n rest h.name h.value a.1 f r
