-- ===== src/Proxy/Tests.antt =====
-- The proxy's theorems at concrete inputs.
use cmpe156_network_programm.Prelude.{◌≡◌, arith, List, [], ◌∷◌, ok}
use cmpe156_network_programm.Libc.Str.{Bytes, codes}
use cmpe156_network_programm.Proxy.{ForbiddenSites, is_forbidden}
use cmpe156_network_programm.Proxy.Filter.{mem_site}
use cmpe156_network_programm.Proxy.Sites.{
  load_sites, sites_text, last_site, IsSite, load_sites-mem_site,
}
use cmpe156_network_programm.Libc.Scan.{is_word-IsWord}
use cmpe156_network_programm.Libc.Str.{All}
use cmpe156_network_programm.Prelude.{◌++◌, refl}

abbrev two_sites : List Bytes
two_sites = codes "a.com" ∷ codes "b.org" ∷ []

two_sites-IsSite : All IsSite two_sites
two_sites-IsSite = (
  (is_word-IsWord (codes "a.com") refl, omega arith),
  ((is_word-IsWord (codes "b.org") refl, omega arith), tt),
)

load_sites-mem_site_example :
    (sites : ForbiddenSites) × (load_sites (sites_text two_sites ++ []) ≡ ok sites)
    × (is_forbidden sites (codes "b.org")
        ≡ ok (mem_site (codes "b.org") (two_sites ++ last_site [])))
load_sites-mem_site_example =
    load_sites-mem_site (codes "a.com") (codes "b.org" ∷ []) [] (codes "b.org") two_sites-IsSite tt
