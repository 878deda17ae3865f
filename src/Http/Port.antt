-- ===== src/Http/Port.antt =====
-- The requests that hw1/hw1.c makes of URLs with a port.
use cmpe156_network_programm.Prelude.{
  ℕ, none, ◌+◌, ◌-◌, ◌≡◌, ◌≢◌, ◌<◌, refl, Bool, true, [], ◌∷◌, ◌++◌, append_assoc, arith, some, ok,
  length, length-append, replicate, inl, inr, ℤ,
}
use cmpe156_network_programm.Libc.Str.{zeros, Bytes, All, codes, NoNul, strcpy_fits}
use cmpe156_network_programm.Libc.Number.{atoi}
use cmpe156_network_programm.Args.Listening.{port_of}
use cmpe156_network_programm.Libc.Tok.{strtok_all}
use cmpe156_network_programm.Libc.Find.{strstr-byte, strstr-byte_absent}
use cmpe156_network_programm.Proxy.Request.Verdict.{request_text}
use cmpe156_network_programm.Http.{split_rest, split_port, starts_port, split_url, request_of}
use cmpe156_network_programm.Http.Url.{
  IsHostByte, strtok_host, without_scheme_there, host-IsPlain, host-absent, parse_url-split_url,
}
use cmpe156_network_programm.Http.Sent.{tool_request, sent, request_block-tool_request}

abbrev pub port_url : Bytes → Bytes → Bytes
port_url host behind = host ++ b':' ∷ behind

-- A host, and what stands behind the colon: a digit and more.
pub record IsPorted (host behind : Bytes) : Type 0 where
  pub host_plain : All IsHostByte host
  pub host_there : host ≢ []
  pub host_fits : length host < 512
  pub behind_plain : NoNul behind
  pub behind_port : starts_port (b':' ∷ behind) ≡ true
  pub fits : length host + length behind < 4080

behind_there : (behind : Bytes) → starts_port (b':' ∷ behind) ≡ true → behind ≢ []
unfolding starts_port
behind_there [] e f = ground arith
behind_there (c ∷ s) e f = cc

split_rest-host :
    (host behind rest : Bytes) (port : ℤ)
    → IsPorted host behind
    → atoi behind ≡ ok port
    → split_rest host (behind ++ 0 ∷ rest) ≡ ok (record { host = host; port = port; target = [] })
unfolding split_rest
split_rest-host host behind rest port v e =
    rw
      (
        split_rest,
        strstr-byte_absent b'/' host (host-absent b'/' host (inl refl) v.host_plain),
        strtok_all behind rest (behind_there behind v.behind_port) v.behind_plain,
        e,
      )
      refl

split_port-host :
    (host behind rest : Bytes) (port : ℤ)
    → IsPorted host behind
    → atoi behind ≡ ok port
    → split_port (port_url host behind ++ 0 ∷ rest)
      ≡ ok (record { host = host; port = port; target = [] })
unfolding split_port
split_port-host host behind rest port v e =
    rw
      (
        append_assoc host (b':' ∷ behind) (0 ∷ rest),
        strtok_host b':' host (behind ++ 0 ∷ rest) (omega arith) v.host_there
            (host-IsPlain b':' host (inr refl) v.host_plain),
        strcpy_fits 512 host v.host_fits,
      )
      (split_rest-host host behind rest port v e)

split_url-port :
    (host behind : Bytes) (port : ℤ)
    → IsPorted host behind
    → atoi behind ≡ ok port
    → split_url (port_url host behind)
      ≡ ok (some (record { host = host; port = port; target = [] }))
unfolding split_url
split_url-port host behind port v e =
    let text = port_url host behind in
    rw
      (
        split_url,
        strstr-byte b':' host behind (host-absent b':' host (inr refl) v.host_plain),
        v.behind_port,
        zeros (4096 - length text) (4095 - length text)
            (omega (arith, length-append host (b':' ∷ behind), v.fits)),
        split_port-host host behind (replicate (4095 - length text) 0) port v e,
      )
      refl

split_url_short :
    (host behind : Bytes) (digit : ℕ)
    → IsPorted host behind
    → split_url (port_url host (digit ∷ [])) ≡ ok none
unfolding split_url starts_port
split_url_short host behind digit v =
    rw
      (
        split_url,
        strstr-byte b':' host (digit ∷ []) (host-absent b':' host (inr refl) v.host_plain),
      )
      refl

-- For a URL with the scheme, a host that fits, and behind a colon a port of a digit and at least
-- one more byte, the tool sends to the low 16 bits of that port a request for the root, whatever
-- target stands behind the port; with a single byte behind the colon it sends nothing.
pub request_of_port :
    (need_head : Bool) (host behind : Bytes) (port : ℤ) (digit : ℕ)
    → IsPorted host behind
    → atoi behind ≡ ok port
    → (request_of need_head (codes "http://" ++ port_url host behind)
        ≡ ok (some (port_of port, sent (request_text (tool_request need_head host [])))))
      × (request_of need_head (codes "http://" ++ port_url host (digit ∷ [])) ≡ ok none)
unfolding request_of
request_of_port need_head host behind port digit v e = (
  rw
      (
        parse_url-split_url true (port_url host behind)
            (omega (arith, length-append host (b':' ∷ behind), v.fits))
            (without_scheme_there (port_url host behind)),
        split_url-port host behind port v e,
        request_block-tool_request need_head host [] port v.host_fits (omega arith),
      )
      refl,
  rw
      (
        parse_url-split_url true (port_url host (digit ∷ []))
            (omega (arith, length-append host (b':' ∷ digit ∷ []), v.host_fits))
            (without_scheme_there (port_url host (digit ∷ []))),
        split_url_short host behind digit v,
      )
      refl,
)
