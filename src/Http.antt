-- ===== src/Http.antt =====
-- The request that hw1/hw1.c makes of its arguments, and the removal of the response's head.
pub mod Url
pub mod Sent
pub mod Request
pub mod Port
pub mod Body
pub mod Response
mod Tests
use cmpe156_network_programm.Prelude.{
  ℕ, ◌+◌, ◌-◌, ◌≡◌, Bool, true, false, ◌&&◌, List, [], ◌∷◌, ◌++◌, Option, none, some, Result, ok,
  fault, out_of_bounds, deref, ◌>>=◌, length, drop, replicate, ltb, if◌then◌else◌, ℤ, pos,
}
use cmpe156_network_programm.Libc.Str.{Bytes, codes, strcpy}
use cmpe156_network_programm.Libc.Number.{is_digit, atoi}
use cmpe156_network_programm.Args.Listening.{port_of}
use cmpe156_network_programm.Libc.Tok.{strtok}
use cmpe156_network_programm.Libc.Find.{strstr}

-- The variables host, port and target.
pub record Address : Type 0 where
  pub host : Bytes
  pub port : ℤ
  pub target : Bytes

-- Without a port. `temp` is the text in its 4096 bytes.
unfoldable pub split_target : Bytes → Bytes → Result Address
split_target text temp = elim (strstr text (codes "/")) [
  | none ↦
      strcpy 512 (some text) >>= λ host. ok (record { host = host; port = pos 80; target = [] })
  | some slash ↦ strtok (codes "/") temp >>= λ (first, temp'). strcpy 512 first >>= λ host.
      strtok [] temp' >>= λ (t, temp'').
      (elim t [ none ↦ ok [] | some s ↦ strcpy 3584 (some s) ]) >>= λ target.
      ok (record { host = host; port = pos 80; target = target })
]

-- Behind the first strtok: `temp` as a string is now the text up to the end of the token.
unfoldable pub split_rest : Bytes → Bytes → Result Address
split_rest host temp = elim (strstr host (codes "/")) [
  | none ↦ strtok [] temp >>= λ (p, temp'). deref p >>= λ digits.
      atoi digits >>= λ port. ok (record { host = host; port = port; target = [] })
  | some slash ↦ strtok (codes "/") temp >>= λ (p, temp'). deref p >>= λ digits.
      atoi digits >>= λ port. strtok [] temp' >>= λ (t, temp'').
      strcpy 3584 t >>= λ target. ok (record { host = host; port = port; target = target })
]

unfoldable pub split_port : Bytes → Result Address
split_port temp =
    strtok (codes ":") temp >>= λ (first, temp'). strcpy 512 first >>= λ host. split_rest host temp'

-- "Illegal port number!"
unfoldable pub starts_port : Bytes → Bool
starts_port (colon ∷ c ∷ d ∷ s) = is_digit c
starts_port (colon ∷ c ∷ []) = false
starts_port (colon ∷ []) = false
starts_port [] = false

-- The text of the URL as it is copied into `temp`.
abbrev pub without_scheme : Bytes → Bytes
without_scheme url = elim (strstr url (codes "http://")) [ none ↦ url | some s ↦ drop 7 url ]

-- The text in `temp`, whose other bytes are zero.
unfoldable pub split_url : Bytes → Result (Option Address)
split_url text =
    let temp = text ++ replicate (4096 - length text) 0 in
    elim (strstr text (codes ":")) [
      | none ↦ split_target text temp >>= λ a. ok (some a)
      | some is_port ↦
          let split = split_port temp in
          if starts_port is_port then (split >>= λ a. ok (some a)) else ok none
    ]

-- host, port and target, or nothing, where the program ends with a message.
unfoldable pub parse_url : Bytes → Result (Option Address)
parse_url url =
    if ltb 4096 (length url) then ok none else strcpy 4096 (some (without_scheme url)) >>= split_url

-- request, in 4128 bytes; all of them are written.
unfoldable pub request_block : Bool → Address → Result Bytes
request_block need_head a =
    let text =
      (if need_head then codes "HEAD /" else codes "GET /")
      ++ (a.target
          ++ (codes " HTTP/1.1"
              ++ 13 ∷ 10 ∷ (codes "Host: " ++ (a.host ++ 13 ∷ 10 ∷ 13 ∷ 10 ∷ [])))) in
    if ltb (length text) 4128
    then ok (text ++ replicate (4128 - length text) 0)
    else fault out_of_bounds

-- What is sent, and the port to which it is, of which htons keeps 16 bits.
unfoldable pub request_of : Bool → Bytes → Result (Option (ℕ × Bytes))
request_of need_head url = parse_url url >>= λ parsed. elim parsed [
  | none ↦ ok none
  | some a ↦ request_block need_head a >>= λ block. ok (some (port_of a.port, block))
]
