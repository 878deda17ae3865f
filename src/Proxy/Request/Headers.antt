-- ===== src/Proxy/Request/Headers.antt =====
-- The loop over the headers, on headers as a browser prints them.
use cmpe156_network_programm.Prelude.{
  ℕ, ◌≡◌, ◌≢◌, ◌<◌, refl, ap, ◌∙◌, true, false, ◌&&◌, ◌||◌, List, [], ◌∷◌, ◌++◌, append_assoc,
  arith, some, ok, length, ◌==◌, if◌then◌else◌,
}
use cmpe156_network_programm.Libc.Str.{Bytes, All, codes, str_eq, strcpy, strcpy_fits}
use cmpe156_network_programm.Libc.Number.{is_space}
use cmpe156_network_programm.Libc.Scan.{
  scan_s, IsInk, IsWord, StartsSpace, scan_s-word, scan_s_none,
}
use cmpe156_network_programm.Proxy.Request.{Found, header_at, headers, temp_size}

-- A header: its name with the colon, the first word of its value, and what follows that on the line.
pub record Header : Type 0 where
  pub name : Bytes
  pub value : Bytes
  pub more : Bytes

abbrev pub crlf : Bytes
crlf = 13 ∷ 10 ∷ []

abbrev pub IsNotCr : ℕ → Type 0
IsNotCr c = c ≢ 13

-- The words fit the proxy's arrays of 32 bytes, and the rest of the line begins with a space, if there is any.
pub record IsHeader (h : Header) : Type 0 where
  pub name : IsWord h.name
  pub name_fits : length h.name < temp_size
  pub value : IsWord h.value
  pub value_fits : length h.value < temp_size
  pub more_apart : StartsSpace h.more
  pub more_plain : All IsNotCr h.more

unfoldable pub header_text : Header → Bytes
header_text h = h.name ++ b' ' ∷ (h.value ++ h.more)

-- The lines of the headers behind that of the request, each behind its line end, and the blank line.
unfoldable pub header_lines : List Header → Bytes
header_lines [] = crlf ++ crlf
header_lines (h ∷ hs) = crlf ++ (header_text h ++ header_lines hs)

-- What one header says.
unfoldable pub heed : Header → Found → Found
heed h f =
    let keeps =
      f.persistent
      || str_eq h.name (codes "Proxy-Connection:") && str_eq h.value (codes "Keep-Alive") in
    if str_eq h.name (codes "Host:")
    then record { host = h.value; has_host = true; persistent = keeps }
    else record f { persistent = keeps }

unfoldable pub heed_all : List Header → Found → Found
heed_all [] f = f
heed_all (h ∷ hs) f = heed_all hs (heed h f)

-- Bytes that are no '\r' are passed over.
headers-skip :
    (line rest : Bytes) (f : Found) → All IsNotCr line → headers (line ++ rest) f ≡ headers rest f
unfolding headers
headers-skip [] rest f h = refl
headers-skip (c ∷ line) rest f h =
    let plain : (c == 13) ≡ false = ground arith in rw plain (headers-skip line rest f h.1)

pub ink-IsNotCr : (w : Bytes) → All IsInk w → All IsNotCr w
ink-IsNotCr [] h = tt
ink-IsNotCr (c ∷ w) h = ((λ e. ground arith), ink-IsNotCr w h.1)

pub IsNotCr-append : (s t : Bytes) → All IsNotCr s → All IsNotCr t → All IsNotCr (s ++ t)
IsNotCr-append [] t h k = k
IsNotCr-append (c ∷ s) t h k = (h.0, IsNotCr-append s t h.1 k)

pub header_text-IsNotCr : (h : Header) → IsHeader h → All IsNotCr (header_text h)
unfolding header_text
header_text-IsNotCr h v =
    IsNotCr-append h.name (b' ' ∷ (h.value ++ h.more)) (ink-IsNotCr h.name v.name.1)
      (omega arith, IsNotCr-append h.value h.more (ink-IsNotCr h.value v.value.1) v.more_plain)

pub StartsSpace-append : (s t : Bytes) → StartsSpace s → StartsSpace t → StartsSpace (s ++ t)
StartsSpace-append [] t h k = k
StartsSpace-append (c ∷ s) t h k = h

-- What stands behind the name of a header.
abbrev pub behind_name : Header → Bytes → Bytes
behind_name h rest = b' ' ∷ ((h.value ++ h.more) ++ rest)

-- The two words that are read at the line end in front of a header.
pub scan_s-name :
    (h : Header) (rest : Bytes)
    → IsHeader h
    → scan_s temp_size (crlf ++ (header_text h ++ rest)) ≡ ok (h.name, behind_name h rest)
unfolding header_text
scan_s-name h rest v =
    ap (λ s. scan_s temp_size (crlf ++ s)) (append_assoc h.name (b' ' ∷ (h.value ++ h.more)) rest)
    ∙ scan_s-word 32 crlf h.name (behind_name h rest) (refl, (refl, tt)) v.name v.name_fits refl

pub scan_s-value :
    (h : Header) (rest : Bytes)
    → IsHeader h
    → StartsSpace rest
    → scan_s temp_size (behind_name h rest) ≡ ok (h.value, h.more ++ rest)
scan_s-value h rest v r =
    ap (λ s. scan_s temp_size (b' ' ∷ s)) (append_assoc h.value h.more rest)
    ∙ scan_s-word 32 (b' ' ∷ []) h.value (h.more ++ rest) (refl, tt) v.value v.value_fits
        (StartsSpace-append h.more rest v.more_apart r)

-- A header whose line the text goes on with is heeded.
header_at-heed :
    (h : Header) (rest : Bytes) (f : Found)
    → IsHeader h
    → StartsSpace rest
    → header_at (crlf ++ (header_text h ++ rest)) f ≡ ok (heed h f)
unfolding header_at heed
header_at-heed h rest f v r =
    let copied : strcpy 128 (some h.value) ≡ ok h.value =
      strcpy_fits 128 h.value (omega (arith, v.value_fits)) in
    rw (scan_s-name h rest v, scan_s-value h rest v r) (ground (arith, copied))

pub StartsSpace-lines : (hs : List Header) → StartsSpace (header_lines hs)
unfolding header_lines
StartsSpace-lines [] = refl
StartsSpace-lines (h ∷ hs) = refl

header_at_blank :
    (gap : Bytes) (f : Found) → All (λ c. is_space c ≡ true) gap → header_at gap f ≡ ok f
unfolding header_at str_eq
header_at_blank gap f h =
    rw (scan_s_none 32 gap h (omega arith), scan_s_none 32 [] tt (omega arith)) (ground arith)

headers_end : (f : Found) → headers (crlf ++ crlf) f ≡ ok f
unfolding headers
headers_end f =
    rw
      (
        header_at_blank (crlf ++ crlf) f (refl, (refl, (refl, (refl, tt)))),
        header_at_blank crlf f (refl, (refl, tt)),
      )
      refl

headers_first :
    (h : Header) (rest : Bytes) (f : Found)
    → IsHeader h
    → StartsSpace rest
    → headers (crlf ++ (header_text h ++ rest)) f ≡ headers rest (heed h f)
unfolding headers
headers_first h rest f v r =
    rw (header_at-heed h rest f v r)
      (headers-skip (header_text h) rest (heed h f) (header_text-IsNotCr h v))

-- Every header is heeded, in their order.
pub headers-heed_all :
    (hs : List Header) (f : Found)
    → All IsHeader hs
    → headers (header_lines hs) f ≡ ok (heed_all hs f)
unfolding header_lines heed_all
headers-heed_all [] f v = headers_end f
headers-heed_all (h ∷ hs) f v =
    headers_first h (header_lines hs) f v.0 (StartsSpace-lines hs)
    ∙ headers-heed_all hs (heed h f) v.1
