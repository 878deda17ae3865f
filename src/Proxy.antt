-- ===== src/Proxy.antt =====
-- The proxy's forbidden sites: hw5/dynamicarray.c, and the filter of thread_proxy in hw5/proxy.c.
pub mod Filter
pub mod Sites
pub mod Errors
pub mod Ensures
pub mod Request
pub mod Relay
pub mod Thread
mod Tests
mod RelayTests
mod ThreadTests
use cmpe156_network_programm.Prelude.{
  ℕ, zero, suc, ◌+◌, ◌≡◌, Bool, true, false, List, [], ◌∷◌, ◌++◌, Option, none, some, Result, ok,
  ◌>>=◌, load, store, leb, if◌then◌else◌, ℤ, pos, negsuc, fault, out_of_bounds,
}
use cmpe156_network_programm.Libc.Str.{Bytes, strcpy, strcmp_eq}
use cmpe156_network_programm.DynArray.{Cell, unset, null, ref, pointer}

-- forbidden_sites_t; the block's length is what was allocated.
pub record ForbiddenSites : Type 0 where
  pub sites_array : List (Cell Bytes)
  pub occupied : ℕ

unfoldable pub init_sites_array : ForbiddenSites
init_sites_array = record { sites_array = null ∷ []; occupied = 0 }

-- realloc to `size` cells: what fits stays, and new cells are not written.
unfoldable pub realloc : ℕ → List (Cell Bytes) → List (Cell Bytes)
realloc zero cells = []
realloc (suc n) [] = unset ∷ realloc n []
realloc (suc n) (c ∷ cells) = c ∷ realloc n cells

-- The name is copied into 128 bytes.
unfoldable pub add_site_item : ForbiddenSites → Bytes → Result ForbiddenSites
add_site_item a n = strcpy 128 (some n) >>= λ item.
    store (realloc (a.occupied + 1) a.sites_array) a.occupied (ref item) >>= λ cells.
    ok (record { sites_array = cells; occupied = a.occupied + 1 })

-- A negative index passes the test of the bound.
unfoldable pub get_site_item : ForbiddenSites → ℤ → Result (Option Bytes)
get_site_item a (pos idx) =
    if leb a.occupied idx then ok none else load a.sites_array idx >>= λ c. pointer c
get_site_item a (negsuc idx) = fault out_of_bounds

-- The loop of main that reads the file of the sites, on the words that fscanf gives.
unfoldable pub add_sites : ForbiddenSites → List Bytes → Result ForbiddenSites
add_sites a [] = ok a
add_sites a (url ∷ urls) = add_site_item a url >>= λ b. add_sites b urls

-- The loop of the filter, by the rounds left.
unfoldable pub forbidden_from : ℕ → ℕ → ForbiddenSites → Bytes → Result Bool
forbidden_from zero i sites remote_server_host = ok false
forbidden_from (suc k) i sites remote_server_host =
    let rest = forbidden_from k (i + 1) sites remote_server_host in
    get_site_item sites (pos i) >>= λ item.
    strcmp_eq (some remote_server_host) item >>= λ hit. if hit then ok true else rest

unfoldable pub is_forbidden : ForbiddenSites → Bytes → Result Bool
is_forbidden sites remote_server_host = forbidden_from sites.occupied 0 sites remote_server_host
