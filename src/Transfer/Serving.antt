-- ===== src/Transfer/Serving.antt =====
-- The connections of HW3/server.c, one behind the other.
use cmpe156_network_programm.Prelude.{
  ℕ, ◌≡◌, refl, List, [], ◌∷◌, ◌++◌, Option, none, Result, ok, ◌>>=◌, pos,
}
use cmpe156_network_programm.Libc.Str.{Bytes, codes, str_eq}
use cmpe156_network_programm.Transfer.Session.{ClientPackage, Reply, closed, exited, serve}

-- main's loop over the connections that accept gives, as the packages that each of them reads: what is
-- written to each, up to the one that ends the process.
unfoldable pub serve_all :
    (Bytes → Option Bytes) → List (List ClientPackage) → Result (List (List Reply))
serve_all files [] = ok []
serve_all files (conn ∷ conns) =
    let rest = serve_all files conns in
    serve files conn >>= λ s. elim s [
      | closed replies ↦ rest >>= λ more. ok (replies ∷ more)
      | exited replies ↦ ok (replies ∷ [])
    ]

-- Connections that the server closes, and what it writes to them.
pub data Closes (files : Bytes → Option Bytes)
    : List (List ClientPackage) → List (List Reply) → Type 0 where
  no_more : Closes files [] []
  one_more :
      {conn : List ClientPackage} {replies : List Reply} {conns : List (List ClientPackage)}
      {out : List (List Reply)}
      → serve files conn ≡ ok (closed replies)
      → Closes files conns out
      → Closes files (conn ∷ conns) (replies ∷ out)

serve_all-Closes :
    (files : Bytes → Option Bytes) (before after : List (List ClientPackage))
    (out more : List (List Reply))
    → Closes files before out
    → serve_all files after ≡ ok more
    → serve_all files (before ++ after) ≡ ok (out ++ more)
unfolding serve_all
serve_all-Closes files [] after [] more no_more e = e
serve_all-Closes files [] after (replies ∷ out) more c e = elim c [ ]
serve_all-Closes files (conn ∷ before) after [] more c e = elim c [ ]
serve_all-Closes files (conn ∷ before) after (replies ∷ out) more (one_more s c) e =
    rw (serve_all, s, serve_all-Closes files before after out more c e) refl

exits :
    (files : Bytes → Option Bytes) (name : Bytes) (start last : ℕ) (rest : List ClientPackage)
    → files name ≡ none
    → serve files (
        record { cmd = codes "DWN"; file_name = name; start_prt = pos start; end_prt = pos last }
        ∷ rest)
      ≡ ok (exited [])
unfolding serve str_eq
exits files name start last rest lacks = rw (serve, lacks) refl

-- When the server has closed all connections before, a connection that asks for a part of a file
-- that is not there ends the server: it and every connection behind it get nothing.
pub serve_all_exits :
    (files : Bytes → Option Bytes) (name : Bytes) (start last : ℕ) (rest : List ClientPackage)
    (before after : List (List ClientPackage)) (out : List (List Reply))
    → files name ≡ none
    → Closes files before out
    → serve_all files (
        before
        ++ (record {
          cmd = codes "DWN";
          file_name = name;
          start_prt = pos start;
          end_prt = pos last;
        }
            ∷ rest)
          ∷ after)
      ≡ ok (out ++ [] ∷ [])
unfolding serve_all
serve_all_exits files name start last rest before after out lacks c =
    serve_all-Closes files before
      ((record { cmd = codes "DWN"; file_name = name; start_prt = pos start; end_prt = pos last }
          ∷ rest)
        ∷ after)
      out ([] ∷ []) c (rw (serve_all, exits files name start last rest lacks) refl)
