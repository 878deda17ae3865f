-- ===== src/Proxy/Relay/Targets.antt =====
-- The actions of relay, hw5/proxy.c: none sends to a host.
use cmpe156_network_programm.Prelude.{
  ◌≡◌, Bool, true, false, List, [], ◌∷◌, ◌++◌, Option, none, some,
}
use cmpe156_network_programm.Libc.Str.{Bytes, All}
use cmpe156_network_programm.Proxy.Ensures.{Ensures, Ensures-bind, Ensures-bind_from}
use cmpe156_network_programm.Proxy.Relay.{
  Action, log_line, respond, send_browser, connect_host, send_host, close_browser, close_host,
  relay, relay_rest, response_head, count_chunk, Size, declared, counted, log_before,
}

-- An action that sends to a host sends to this one.
abbrev pub GoesTo : Bytes → Action → Type 0
GoesTo host (send_host h block) = h ≡ host
GoesTo host (connect_host h) = h ≡ host
GoesTo host (log_line line code n) = Unit
GoesTo host (respond block) = Unit
GoesTo host (send_browser block) = Unit
GoesTo host close_browser = Unit
GoesTo host close_host = Unit

pub All-append :
    (host : Bytes) (xs ys : List Action)
    → All (GoesTo host) xs
    → All (GoesTo host) ys
    → All (GoesTo host) (xs ++ ys)
All-append host [] ys h k = k
All-append host (x ∷ xs) ys h k = (h.0, All-append host xs ys h.1 k)

relay_rest-GoesTo :
    (host line code : Bytes) (size : Size) (cs : List (Bytes × Bool))
    → Ensures (λ (r : List Action × Bool). All (GoesTo host) r.0) (relay_rest line code size cs)
unfolding relay_rest
relay_rest-GoesTo host line code (declared n) [] = tt
relay_rest-GoesTo host line code (counted n) [] = (tt, tt)
relay_rest-GoesTo host line code size ((chunk, true) ∷ cs) =
    Ensures-bind (λ (r : List Action × Bool). All (GoesTo host) r.0) (count_chunk chunk size) _
      λ size'.
        Ensures-bind_from (λ (r : List Action × Bool). All (GoesTo host) r.0)
          (λ (r : List Action × Bool). All (GoesTo host) r.0) (relay_rest line code size' cs) _
          (relay_rest-GoesTo host line code size' cs) λ r h. (tt, h)
relay_rest-GoesTo host line code size ((chunk, false) ∷ cs) =
    Ensures-bind (λ (r : List Action × Bool). All (GoesTo host) r.0) (count_chunk chunk size) _
      λ size'. (tt, (tt, tt))

log_before-GoesTo :
    (host line code : Bytes) (size : Size) → All (GoesTo host) (log_before line code size)
log_before-GoesTo host line code (declared n) = (tt, tt)
log_before-GoesTo host line code (counted n) = tt

abbrev pub Relayed : Bytes → List Action × Option Bytes × Bool → Type 0
Relayed host r = All (GoesTo host) r.0

pub relay-GoesTo :
    (host line : Bytes) (earlier : Option Bytes) (cs : List (Bytes × Bool))
    → Ensures (Relayed host) (relay line earlier cs)
unfolding relay
relay-GoesTo host line none [] = tt
relay-GoesTo host line (some code) [] = (tt, tt)
relay-GoesTo host line earlier ((chunk, true) ∷ cs) =
    Ensures-bind (Relayed host) (response_head chunk) _ λ (code, size).
      Ensures-bind_from (λ (r : List Action × Bool). All (GoesTo host) r.0) (Relayed host)
        (relay_rest line code size cs) _ (relay_rest-GoesTo host line code size cs)
        λ r h.
          All-append host (log_before line code size) _ (log_before-GoesTo host line code size)
            (tt, h)
relay-GoesTo host line earlier ((chunk, false) ∷ cs) =
    Ensures-bind (Relayed host) (response_head chunk) _ λ (code, size).
      All-append host (log_before line code size) _ (log_before-GoesTo host line code size)
        (tt, (tt, tt))
