-- ===== src/Http/Request.antt =====
-- The requests that hw1/hw1.c makes of URLs as they are printed.
use cmpe156_network_programm.Prelude.{
  suc, ◌+◌, ◌-◌, ◌≡◌, ◌≢◌, refl, ◌∙◌, Bool, ◌∷◌, ◌++◌, append_assoc, arith, some, ok, length,
  length-append, replicate, inl, inr, pos,
}
use cmpe156_network_programm.Libc.Str.{zeros, Bytes, All, strcpy_fits}
use cmpe156_network_programm.Libc.Tok.{strtok_all}
use cmpe156_network_programm.Libc.Find.{strstr-byte, strstr-byte_absent}
use cmpe156_network_programm.Proxy.Request.Verdict.{request_text}
use cmpe156_network_programm.Http.{split_target, split_url, parse_url, request_of}
use cmpe156_network_programm.Http.Url.{
  IsPlace, host_url, strtok_host, scheme, without_scheme_plain, host-IsPlain, host-absent,
  target-absent, target-NoNul, absent-append, parse_url-split_url,
}
use cmpe156_network_programm.Http.Sent.{tool_request, sent, request_block-tool_request}

split_target-host :
    (host target rest : Bytes)
    → IsPlace host target
    → split_target (host_url host target) (host_url host target ++ 0 ∷ rest)
      ≡ ok (record { host = host; port = pos 80; target = target })
unfolding split_target
split_target-host host target rest v =
    rw
      (
        split_target,
        strstr-byte b'/' host target (host-absent b'/' host (inl refl) v.host_plain),
        append_assoc host (b'/' ∷ target) (0 ∷ rest),
        strtok_host b'/' host (target ++ 0 ∷ rest) (omega arith) v.host_there
            (host-IsPlain b'/' host (inl refl) v.host_plain),
        strcpy_fits 512 host v.host_fits,
        strtok_all target rest v.target_there (target-NoNul target v.target_plain),
        strcpy_fits 3584 target v.target_fits,
      )
      refl

length-host_url :
    (host target : Bytes) → length (host_url host target) ≡ length host + suc (length target)
length-host_url host target = length-append host (b'/' ∷ target)

host_url-absent :
    (host target : Bytes) → IsPlace host target → All (λ c. c ≢ b':') (host_url host target)
host_url-absent host target v =
    absent-append b':' host (b'/' ∷ target) (host-absent b':' host (inr refl) v.host_plain)
      (omega arith, target-absent target v.target_plain)

split_url-host :
    (host target : Bytes)
    → IsPlace host target
    → split_url (host_url host target)
      ≡ ok (some (record { host = host; port = pos 80; target = target }))
unfolding split_url
split_url-host host target v =
    let text = host_url host target in
    rw
      (
        split_url,
        strstr-byte_absent b':' text (host_url-absent host target v),
        zeros (4096 - length text) (4095 - length text)
            (omega (arith, length-host_url host target, v.fits)),
        split_target-host host target (replicate (4095 - length text) 0) v,
      )
      refl

parse_url-host :
    (b : Bool) (host target : Bytes)
    → IsPlace host target
    → parse_url (scheme b ++ host_url host target)
      ≡ ok (some (record { host = host; port = pos 80; target = target }))
parse_url-host b host target v =
    parse_url-split_url b (host_url host target)
      (omega (arith, length-host_url host target, v.fits))
      (without_scheme_plain b (host_url host target) (host_url-absent host target v))
    ∙ split_url-host host target v

-- For a URL of a host and a target, with the scheme or without, whose texts fit their arrays and
-- hold no colon, with no slash in the host, the tool sends to port 80 the request of that host
-- and target, GET or HEAD as asked.
pub request_of-tool_request :
    (need_head b : Bool) (host target : Bytes)
    → IsPlace host target
    → request_of need_head (scheme b ++ host_url host target)
      ≡ ok (some (80, sent (request_text (tool_request need_head host target))))
unfolding request_of
request_of-tool_request need_head b host target v =
    rw
      (
        parse_url-host b host target v,
        request_block-tool_request need_head host target (pos 80) v.host_fits v.target_fits,
      )
      refl
