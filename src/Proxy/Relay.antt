-- ===== src/Proxy/Relay.antt =====
-- The relay of a host's response to the browser, in thread_proxy of hw5/proxy.c.
pub mod Targets
pub mod Length
pub mod Head
pub mod Count
use cmpe156_network_programm.Prelude.{
  ℕ, ◌+◌, ◌-◌, ◌≡◌, Bool, true, false, List, [], ◌∷◌, ◌++◌, Option, none, some, Result, ok, fault,
  indeterminate, deref, ◌>>=◌, length, replicate, ◌==◌, if◌then◌else◌, ℤ, pos,
}
use cmpe156_network_programm.Libc.Str.{Bytes, codes, str_eq, c_string}
use cmpe156_network_programm.Libc.Number.{atol}
use cmpe156_network_programm.Libc.Scan.{scan_s}
use cmpe156_network_programm.Chat.Protocol.{buffer_size}
use cmpe156_network_programm.Proxy.Request.{temp_size}

-- What a thread does, in its order: a line of the log with its first line, code and length, and the
-- writes to its sockets. A host is named as the request that connected it did.
pub data Action : Type 0 where
  log_line : Bytes → Bytes → ℤ → Action
  respond send_browser connect_host : Bytes → Action
  send_host : Bytes → Bytes → Action
  close_browser close_host : Action

-- browser_buf after a read
abbrev pub browser_buf : Bytes → Bytes
browser_buf chunk = chunk ++ replicate (buffer_size - length chunk) 0

-- The text behind a prefix.
unfoldable pub strip_prefix : Bytes → Bytes → Option Bytes
strip_prefix [] s = some s
strip_prefix (p ∷ ps) [] = none
strip_prefix (p ∷ ps) (c ∷ s) = if p == c then strip_prefix ps s else none

abbrev pub blank : Bytes
blank = 13 ∷ 10 ∷ 13 ∷ 10 ∷ []

-- strstr(s, "\r\n\r\n"), past the four bytes
unfoldable pub behind_blank : Bytes → Option Bytes
behind_blank [] = none
behind_blank (c ∷ s) =
    let later = behind_blank s in
    elim (strip_prefix blank (c ∷ s)) [ none ↦ later | some t ↦ some t ]

-- What an array holds behind a %s that may have found no word: then it keeps what it had.
unfoldable pub rescanned : Bytes → Bytes → Bytes
rescanned old [] = old
rescanned old (c ∷ w) = c ∷ w

-- The loop that looks for the length, over the text from `retn` on, with cmd1 and cmd2 as the rounds
-- before have left them.
unfoldable pub content_length : Bytes → Bytes → Bytes → Result (Option ℤ)
content_length [] cmd1 cmd2 = ok none
content_length (c ∷ s) cmd1 cmd2 =
    if c == 13
    then (scan_s temp_size (c ∷ s) >>= λ (w1, rest). scan_s temp_size rest >>= λ (w2, rest').
        let name = rescanned cmd1 w1 in
        let value = rescanned cmd2 w2 in
        let later = content_length s name value in
        if str_eq name (codes "Content-Length:") then (atol value >>= λ n. ok (some n)) else later)
    else content_length s cmd1 cmd2

-- response_length with has_contentlength_flag: what the response says, or what is counted.
pub data Size : Type 0 where
  declared : ℤ → Size
  counted : ℕ → Size

-- The first read: log_responsecode, and the length. Without a blank line, strlen follows NULL.
unfoldable pub response_head : Bytes → Result (Bytes × Size)
response_head chunk = c_string (browser_buf chunk) >>= λ text.
    scan_s temp_size text >>= λ (cmd1, s1). scan_s 8 s1 >>= λ (log_responsecode, s2).
    scan_s temp_size s2 >>= λ (cmd3, s3). content_length text [] [] >>= λ found. elim found [
      | some n ↦ ok (log_responsecode, declared n)
      | none ↦ deref (behind_blank text) >>= λ body. ok (log_responsecode, counted (length body))
    ]

-- A later read.
unfoldable pub count_chunk : Bytes → Size → Result Size
count_chunk chunk (declared n) = ok (declared n)
count_chunk chunk (counted n) =
    c_string (browser_buf chunk) >>= λ text. ok (counted (n + length text))

-- A counted length is logged behind the loop, a declared one in front.
abbrev pub log_before : Bytes → Bytes → Size → List Action
log_before line code (declared n) = log_line line code n ∷ []
log_before line code (counted n) = []

abbrev pub log_behind : Bytes → Bytes → Size → List Action
log_behind line code (declared n) = []
log_behind line code (counted n) = log_line line code (pos n) ∷ []

-- The loop behind the first read, on what the reads give and whether the browser takes it; the flag
-- tells whether it ran to its end.
unfoldable pub relay_rest : Bytes → Bytes → Size → List (Bytes × Bool) → Result (List Action × Bool)
relay_rest line code size [] = ok (log_behind line code size, true)
relay_rest line code size ((chunk, taken) ∷ cs) = count_chunk chunk size >>= λ size'.
    let rest = relay_rest line code size' cs in
    if taken
    then (rest >>= λ (acts, done). ok (send_browser (browser_buf chunk) ∷ acts, done))
    else ok (close_browser ∷ close_host ∷ [], false)

-- The relay, with log_responsecode before it and behind it. If the host sends nothing, what is logged is
-- the code that an earlier response has left.
unfoldable pub relay :
    Bytes → Option Bytes → List (Bytes × Bool) → Result (List Action × Option Bytes × Bool)
relay line none [] = fault indeterminate
relay line (some code) [] = ok (log_line line code (pos 0) ∷ [], some code, true)
relay line earlier ((chunk, taken) ∷ cs) = response_head chunk >>= λ (code, size).
    let rest = relay_rest line code size cs in
    if taken
    then (rest >>= λ (acts, done).
        ok (log_before line code size ++ send_browser (browser_buf chunk) ∷ acts, some code, done))
    else ok (log_before line code size ++ close_browser ∷ close_host ∷ [], some code, false)
