-- ===== src/Proxy/Sites.antt =====
-- The file of forbidden sites, as main of hw5/proxy.c reads it.
use cmpe156_network_programm.Prelude.{
  ℕ, zero, suc, ◌≡◌, ◌<◌, ◌≤◌, refl, ap, ◌∙◌, Bool, true, false, ◌||◌, List, [], ◌∷◌, ◌++◌,
  append_assoc, append-nil, arith, Option, none, some, Result, ok, fault, indeterminate,
  out_of_fuel, ◌>>=◌, length, length-append, if◌then◌else◌,
}
use cmpe156_network_programm.Libc.Str.{Bytes, All, str_eq}
use cmpe156_network_programm.Libc.Number.{is_space}
use cmpe156_network_programm.Libc.Scan.{scan_s, IsWord, scan_s-word, scan_s_none}
use cmpe156_network_programm.Proxy.{ForbiddenSites, init_sites_array, add_sites, is_forbidden}
use cmpe156_network_programm.Proxy.Filter.{FitsSite, mem_site, is_forbidden-mem_site}

-- `url` behind fscanf: what it was, when the file ends before a word.
unfoldable pub url_after : Option Bytes → Bytes → Option Bytes
url_after before [] = before
url_after before (c ∷ w) = some (c ∷ w)

-- feof: fscanf has met the end of the file when it has left nothing.
abbrev pub met_end : Bytes → Bool
met_end [] = true
met_end (c ∷ rest) = false

abbrev pub written : Option Bytes → Result Bytes
written none = fault indeterminate
written (some url) = ok url

-- The sites that the loop adds, in their order.
unfoldable pub read_urls : ℕ → Option Bytes → Bytes → Result (List Bytes)
read_urls zero before text = fault out_of_fuel
read_urls (suc fuel) before text = scan_s 128 text >>= λ (w, rest).
    written (url_after before w) >>= λ url.
    let more = read_urls fuel (some url) rest in
    if met_end rest then ok (url ∷ []) else (more >>= λ urls. ok (url ∷ urls))

-- Every round but the last reads a byte.
unfoldable pub load_sites : Bytes → Result ForbiddenSites
load_sites text =
    read_urls (suc (length text)) none text >>= λ urls. add_sites init_sites_array urls

-- A file with a site in each line.
abbrev pub sites_text : List Bytes → Bytes
sites_text [] = []
sites_text (w ∷ ws) = w ++ 10 ∷ sites_text ws

-- What stands behind the last line end: nothing, or one more site.
abbrev pub IsLast : Bytes → Type 0
IsLast [] = Unit
IsLast (c ∷ w) = IsWord (c ∷ w) × FitsSite (c ∷ w)

abbrev pub last_site : Bytes → List Bytes
last_site [] = []
last_site (c ∷ w) = (c ∷ w) ∷ []

abbrev pub IsSite : Bytes → Type 0
IsSite w = IsWord w × FitsSite w

-- The last site that is added: the one behind the last line end, or the last line's once more.
final_url : Bytes → List Bytes → Bytes → Bytes
final_url before [] [] = before
final_url before [] (c ∷ w) = c ∷ w
final_url before (w ∷ ws) last = final_url w ws last

read_urls-line :
    (fuel : ℕ) (before : Option Bytes) (gap w rest : Bytes)
    → All (λ c. is_space c ≡ true) gap
    → IsSite w
    → read_urls (suc fuel) before (gap ++ (w ++ 10 ∷ rest))
      ≡ (read_urls fuel (some w) (10 ∷ rest) >>= λ urls. ok (w ∷ urls))
unfolding read_urls url_after
read_urls-line fuel before gap [] rest g h = absurd (h.0.0 refl)
read_urls-line fuel before gap (c ∷ w) rest g h =
    rw (scan_s-word 128 gap (c ∷ w) (10 ∷ rest) g h.0 h.1 refl) refl

read_urls-lines :
    (fuel : ℕ) (before : Bytes) (ws : List Bytes) (last : Bytes)
    → length ws < fuel
    → All IsSite ws
    → IsLast last
    → read_urls fuel (some before) (10 ∷ (sites_text ws ++ last))
      ≡ ok (ws ++ final_url before ws last ∷ [])
unfolding read_urls url_after final_url
read_urls-lines zero before ws last f a l = absurd (omega arith)
read_urls-lines (suc fuel) before [] [] f a l =
    rw (scan_s_none 128 (10 ∷ []) (refl, tt) (omega arith)) refl
read_urls-lines (suc fuel) before [] (c ∷ w) f a l =
    let at_end : scan_s 128 (10 ∷ c ∷ w) ≡ ok (c ∷ w, []) =
      rw append-nil at (scan_s-word 128 (10 ∷ []) (c ∷ w) [] (refl, tt) l.0 l.1 tt) in
    rw at_end refl
read_urls-lines (suc fuel) before (w ∷ ws) last f a l =
    ap (λ s. read_urls (suc fuel) (some before) (10 ∷ s)) (append_assoc w (10 ∷ sites_text ws) last)
    ∙ read_urls-line fuel (some before) (10 ∷ []) w (sites_text ws ++ last) (refl, tt) a.0
    ∙ rw (read_urls-lines fuel w ws last (omega arith) a.1 l) refl

-- Adding the last line's site once more changes nothing.
mem_site-final_url :
    (host before : Bytes) (ws : List Bytes) (last : Bytes)
    → (str_eq host before || mem_site host (ws ++ final_url before ws last ∷ []))
      ≡ (str_eq host before || mem_site host (ws ++ last_site last))
unfolding mem_site final_url
mem_site-final_url host before [] [] = ground arith
mem_site-final_url host before [] (c ∷ w) = refl
mem_site-final_url host before (w ∷ ws) last =
    ap (λ b. str_eq host before || b) (mem_site-final_url host w ws last)

sites_fit :
    (before : Bytes) (ws : List Bytes) (last : Bytes)
    → IsSite before
    → All IsSite ws
    → IsLast last
    → All FitsSite (ws ++ final_url before ws last ∷ [])
unfolding final_url
sites_fit before [] [] b a l = (b.1, tt)
sites_fit before [] (c ∷ w) b a l = (l.1, tt)
sites_fit before (w ∷ ws) last b a l = (a.0.1, sites_fit w ws last a.0 a.1 l)

length-sites_text : (ws : List Bytes) → length ws ≤ length (sites_text ws)
length-sites_text [] = omega arith
length-sites_text (w ∷ ws) =
    omega (arith, length-sites_text ws, length-append w (10 ∷ sites_text ws))

-- For a file of sites with one or more lines that are words below 128 bytes, and behind the last
-- line end nothing or one more such word, the loop of main reads the file without a fault, and
-- the filter then decides whether the host is one of the words.
pub load_sites-mem_site :
    (w : Bytes) (ws : List Bytes) (last host : Bytes)
    → All IsSite (w ∷ ws)
    → IsLast last
    → (sites : ForbiddenSites) × (load_sites (sites_text (w ∷ ws) ++ last) ≡ ok sites)
      × (is_forbidden sites host ≡ ok (mem_site host ((w ∷ ws) ++ last_site last)))
unfolding load_sites mem_site
load_sites-mem_site w ws last host a l =
    let text = sites_text (w ∷ ws) ++ last in
    let urls = w ∷ (ws ++ final_url w ws last ∷ []) in
    let (sites, added, answer) =
      is_forbidden-mem_site urls host (a.0.1, sites_fit w ws last a.0 a.1 l) in
    let enough : length ws < length text = omega (
      arith,
      length-sites_text ws,
      length-append w (10 ∷ sites_text ws),
      length-append (sites_text (w ∷ ws)) last,
    ) in
    let read : read_urls (suc (length text)) none text ≡ ok urls =
      ap (read_urls (suc (length text)) none) (append_assoc w (10 ∷ sites_text ws) last)
      ∙ read_urls-line (length text) none [] w (sites_text ws ++ last) tt a.0
      ∙ rw (read_urls-lines (length text) w ws last enough a.1 l) refl in
    (sites, rw read added, answer ∙ ap (λ b. ok b) (mem_site-final_url host w ws last))
