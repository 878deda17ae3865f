-- ===== src/Proxy/Thread.antt =====
-- thread_proxy of hw5/proxy.c: the loop over what the browser sends.
pub mod Turns
pub mod OneHost
pub mod Forwarding
use cmpe156_network_programm.Prelude.{
  ℕ, ◌+◌, ◌-◌, ◌≡◌, Bool, true, false, List, [], ◌∷◌, ◌++◌, Option, none, some, Result, ok, fault,
  out_of_bounds, ◌>>=◌, length, take, replicate, ltb, ◌==◌, if◌then◌else◌, ℤ, pos,
}
use cmpe156_network_programm.Libc.Str.{Bytes, codes, c_string, strcpy}
use cmpe156_network_programm.Libc.Number.{format_d}
use cmpe156_network_programm.Proxy.{ForbiddenSites}
use cmpe156_network_programm.Proxy.Errors.{proxy_response_error}
use cmpe156_network_programm.Proxy.Request.{Found, Checked, refused, accepted, check_request}
use cmpe156_network_programm.Proxy.Relay.{
  Action, log_line, respond, send_browser, connect_host, send_host, close_browser, close_host,
  browser_buf, behind_blank, relay,
}

abbrev pub request_size : ℕ
request_size = 2048

-- What the system gives: the addresses of getclientIP and getlocalIP, and strftime's date.
pub record World : Type 0 where
  pub client_ip : Bytes
  pub proxy_ip : Bytes
  pub date : Bytes

-- The environment of one request: whether the host's name resolves, whether the connection to it is
-- made, whether it takes the request, and its response, read by read.
pub record Exchange : Type 0 where
  pub resolves : Bool
  pub connects : Bool
  pub host_takes : Bool
  pub chunks : List (Bytes × Bool)

-- The thread's variables that outlive a request: host_sock, as the host to which it is connected,
-- and log_responsecode.
pub record Link : Type 0 where
  pub host_sock : Option Bytes
  pub log_responsecode : Option Bytes

-- Whether the loop goes on, ends, is left by `return`, or the process ends.
pub data Next : Type 0 where
  again stop left failed : Next

pub record Turn : Type 0 where
  pub link : Link
  pub actions : List Action
  pub next : Next

-- The log's line and the response of an error; 403 leaves the loop.
unfoldable pub refuse : World → Link → Bytes → ℕ → Bytes → Result Turn
refuse w link line code cmd3 = proxy_response_error code cmd3 w.date >>= λ block. ok (record {
  link = link;
  actions = log_line line (format_d (pos code)) (pos 0) ∷ respond block ∷ [];
  next = if code == 403 then stop else again;
})

-- forwardstr, in 128 bytes
unfoldable pub forward_line : World → Result Bytes
forward_line w = strcpy 128 (
    some (
      codes "Forwarded: for="
      ++ (w.client_ip ++ (codes "; proto=http; by=" ++ (w.proxy_ip ++ 13 ∷ 10 ∷ 13 ∷ 10 ∷ [])))))

-- The line is copied over the last two bytes of the request; all of full_buf is written.
unfoldable pub forward_text : Bytes → Bytes → Result Bytes
forward_text full_buf forwardstr =
    let text = take (length full_buf - 2) full_buf ++ forwardstr in
    if ltb (length text) request_size
    then ok (text ++ replicate (request_size - length text) 0)
    else fault out_of_bounds

-- A request on its way to the host to which the thread is connected.
unfoldable pub send_on :
    World → Link → Bytes → List Action → Bytes → Bytes → Found → Exchange → Result Turn
send_on w link host before line full_buf f x = forward_line w >>= λ forwardstr.
    forward_text full_buf forwardstr >>= λ block.
    let relayed = relay line link.log_responsecode x.chunks in
    let connected = record link { host_sock = some host } in
    if x.host_takes
    then (relayed >>= λ (acts, code, done). ok (record {
      link = record connected { log_responsecode = code };
      actions = before ++ send_host host block ∷ acts;
      next = if done then (if f.persistent then again else stop) else left;
    }))
    else ok (record {
      link = connected;
      actions = before ++ close_browser ∷ close_host ∷ [];
      next = left;
    })

-- The first request that is accepted connects the thread to its host.
unfoldable pub connect_new : World → Link → Bytes → Bytes → Bytes → Found → Exchange → Result Turn
connect_new w link line cmd3 full_buf f x = forward_line w >>= λ forwardstr.
    if x.resolves
    then (if x.connects
        then send_on w link f.host (connect_host f.host ∷ []) line full_buf f x
        else ok (record { link = link; actions = []; next = failed }))
    else refuse w link line 400 cmd3

unfoldable pub forward : World → Link → Bytes → Bytes → Bytes → Found → Exchange → Result Turn
forward w link line cmd3 full_buf f x = elim link.host_sock [
  | some host ↦ send_on w link host [] line full_buf f x
  | none ↦ connect_new w link line cmd3 full_buf f x
]

unfoldable pub answer_checked : World → Link → Bytes → Bytes → Checked → Exchange → Result Turn
answer_checked w link full_buf line (refused code cmd3) x = refuse w link line code cmd3
answer_checked w link full_buf line (accepted cmd3 f) x = forward w link line cmd3 full_buf f x

-- A request that stands in full_buf up to its blank line.
unfoldable pub handle : World → ForbiddenSites → Link → Bytes → Exchange → Result Turn
handle w sites link full_buf x = check_request sites full_buf >>= λ (line, checked).
    answer_checked w link full_buf line checked x

-- strcat(full_buf, browser_buf)
unfoldable pub append_chunk : Bytes → Bytes → Result Bytes
append_chunk full_buf chunk = c_string (browser_buf chunk) >>= λ text.
    if ltb (length full_buf + length text) request_size
    then ok (full_buf ++ text)
    else fault out_of_bounds

-- The closes behind the loop.
abbrev pub closes : Link → List Action
closes link = elim link.host_sock [
  | none ↦ close_browser ∷ []
  | some host ↦ close_browser ∷ close_host ∷ []
]

abbrev pub follow : Turn → Result (List Action) → Result (List Action)
follow t rest = elim t.next [
  | again ↦ rest >>= λ acts. ok (t.actions ++ acts)
  | stop ↦ ok (t.actions ++ closes t.link)
  | left ↦ ok t.actions
  | failed ↦ ok t.actions
]

-- The loop, over the reads from the browser, each with the environment of the request that it may
-- complete; the reads end when the browser closes or the time is over.
unfoldable pub thread_from :
    World → ForbiddenSites → List (Bytes × Exchange) → Bytes → Link → Result (List Action)
thread_from w sites [] full_buf link = ok (closes link)
thread_from w sites ((chunk, x) ∷ reads) full_buf link = append_chunk full_buf chunk >>= λ text.
    elim (behind_blank text) [
      | none ↦ thread_from w sites reads text link
      | some body ↦
          handle w sites link text x >>= λ t. follow t (thread_from w sites reads [] t.link)
    ]

unfoldable pub thread_proxy :
    World → ForbiddenSites → List (Bytes × Exchange) → Result (List Action)
thread_proxy w sites reads =
    thread_from w sites reads [] (record { host_sock = none; log_responsecode = none })
