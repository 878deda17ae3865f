-- ===== src/Proxy/Thread/Turns.antt =====
-- To which host one turn of thread_proxy, hw5/proxy.c, sends.
use cmpe156_network_programm.Prelude.{
  subst, not, ◌&&◌, ℕ, ◌≡◌, ◌⊎◌, refl, sym, ap, Bool, true, false, List, [], ◌∷◌, none, some,
  Result, ok, fault, ◌>>=◌, if◌then◌else◌, inl, inr, Bool-cases,
}
use cmpe156_network_programm.Libc.Str.{Bytes, All, codes, str_eq}
use cmpe156_network_programm.Proxy.{ForbiddenSites, is_forbidden}
use cmpe156_network_programm.Proxy.Relay.Targets.{GoesTo, All-append, Relayed, relay-GoesTo}
use cmpe156_network_programm.Proxy.Ensures.{
  Ensures, Ensures-bind, Ensures-bind_from, Ensures-weaken, Ensures-if,
}
use cmpe156_network_programm.Libc.Scan.{scan_s}
use cmpe156_network_programm.Proxy.Errors.{proxy_response_error}
use cmpe156_network_programm.Proxy.Request.{
  Found, Checked, refused, accepted, check_request, check_host, check_version, headers, first_line,
  temp_size,
}
use cmpe156_network_programm.Proxy.Relay.{Action, connect_host, relay}
use cmpe156_network_programm.Proxy.Thread.{
  World, Exchange, Link, Turn, refuse, forward_line, forward_text, send_on, connect_new, forward,
  answer_checked, handle,
}

-- A turn of a thread that is connected, or gets connected, to the host.
pub record Stays (host : Bytes) (t : Turn) : Type 0 where
  pub acts : All (GoesTo host) t.actions
  pub link : t.link.host_sock ≡ some host

-- A turn that has connected to no host.
pub record Apart (t : Turn) : Type 0 where
  pub acts : (host : Bytes) → All (GoesTo host) t.actions
  pub link : t.link.host_sock ≡ none

pub send_on-Stays :
    (w : World) (link : Link) (host : Bytes) (before : List Action) (line full : Bytes) (f : Found)
    (x : Exchange)
    → All (GoesTo host) before
    → Ensures (Stays host) (send_on w link host before line full f x)
unfolding send_on
send_on-Stays w link host before line full f x h =
    Ensures-bind (Stays host) (forward_line w) _ λ fwd.
      Ensures-bind (Stays host) (forward_text full fwd) _ λ block. elim (Bool-cases x.host_takes) [
        | inl takes ↦ rw takes (
            Ensures-bind_from (Relayed host) (Stays host)
              (relay line link.log_responsecode x.chunks) _
              (relay-GoesTo host line link.log_responsecode x.chunks)
              λ r k. record { acts = All-append host before _ h (refl, k); link = refl })
        | inr gone ↦
            rw gone (record { acts = All-append host before _ h (tt, (tt, tt)); link = refl })
      ]

refuse-Stays :
    (host : Bytes) (w : World) (link : Link) (line : Bytes) (code : ℕ) (cmd3 : Bytes)
    → link.host_sock ≡ some host
    → Ensures (Stays host) (refuse w link line code cmd3)
unfolding refuse
refuse-Stays host w link line code cmd3 e =
    Ensures-bind (Stays host) (proxy_response_error code cmd3 w.date) _
      λ block. record { acts = (tt, (tt, tt)); link = e }

refuse-Apart :
    (w : World) (link : Link) (line : Bytes) (code : ℕ) (cmd3 : Bytes)
    → link.host_sock ≡ none
    → Ensures Apart (refuse w link line code cmd3)
unfolding refuse
refuse-Apart w link line code cmd3 e =
    Ensures-bind Apart (proxy_response_error code cmd3 w.date) _
      λ block. record { acts = λ host. (tt, (tt, tt)); link = e }

abbrev pub Settles : ForbiddenSites → Turn → Type 0
Settles sites t = Apart t ⊎ ((host : Bytes) × (is_forbidden sites host ≡ ok false) × Stays host t)

-- A checked request that is accepted is for a host that the filter lets through.
abbrev Allowed : ForbiddenSites → Checked → Type 0
Allowed sites (refused code cmd3) = Unit
Allowed sites (accepted cmd3 f) = is_forbidden sites f.host ≡ ok false

check_host-Allowed :
    (sites : ForbiddenSites) (cmd3 : Bytes) (f : Found)
    → Ensures (Allowed sites) (check_host sites cmd3 f)
unfolding check_host
check_host-Allowed sites cmd3 f = elim (Bool-cases f.has_host) [
  | inr lost ↦ simp lost tt
  | inl named ↦ simp named (go (is_forbidden sites f.host) refl)
]
  where
    go :
        (r : Result Bool)
        → is_forbidden sites f.host ≡ r
        → Ensures
            (Allowed sites)
            (r >>= λ hit. ok (if hit then refused 403 cmd3 else accepted cmd3 f))
    go (ok true) e = tt
    go (ok false) e = e
    go (fault x) e = tt

check_request-Allowed :
    (sites : ForbiddenSites) (full : Bytes)
    → Ensures (λ (r : Bytes × Checked). Allowed sites r.1) (check_request sites full)
unfolding check_request check_version
check_request-Allowed sites full = Ensures-bind P (first_line full) _ λ (line, rest).
    Ensures-bind P (scan_s temp_size full) _ λ (cmd1, s1).
      Ensures-bind P (scan_s temp_size s1) _ λ (cmd2, s2).
        Ensures-bind P (scan_s temp_size s2) _ λ (cmd3, s3).
          Ensures-bind_from (Allowed sites) P _ _ (checks cmd1 cmd3 rest) λ checked h. h
  where
    P : Bytes × Checked → Type 0
    P r = Allowed sites r.1

    checks :
        (cmd1 cmd3 rest : Bytes)
        → Ensures (Allowed sites) (
            if not (str_eq cmd1 (codes "GET")) && not (str_eq cmd1 (codes "HEAD"))
            then ok (refused 501 cmd3)
            else check_version sites cmd3 rest)
    checks cmd1 cmd3 rest =
        Ensures-if (Allowed sites)
          (not (str_eq cmd1 (codes "GET")) && not (str_eq cmd1 (codes "HEAD")))
          (ok (refused 501 cmd3)) (check_version sites cmd3 rest) tt
          (Ensures-if (Allowed sites)
            (not (str_eq cmd3 (codes "HTTP/1.1")) && not (str_eq cmd3 (codes "HTTP/1.0")))
            (ok (refused 400 cmd3))
            (headers rest (record {
              host = [];
              has_host = false;
              persistent = str_eq cmd3 (codes "HTTP/1.1");
            })
              >>= check_host sites cmd3)
            tt
            (Ensures-bind (Allowed sites)
              (headers rest (record {
                host = [];
                has_host = false;
                persistent = str_eq cmd3 (codes "HTTP/1.1");
              }))
              (check_host sites cmd3) (check_host-Allowed sites cmd3)))

connect_new-Settles :
    (sites : ForbiddenSites) (w : World) (link : Link) (line cmd3 full : Bytes) (f : Found)
    (x : Exchange)
    → link.host_sock ≡ none
    → is_forbidden sites f.host ≡ ok false
    → Ensures (Settles sites) (connect_new w link line cmd3 full f x)
unfolding connect_new send_on
connect_new-Settles sites w link line cmd3 full f x e free =
    Ensures-bind (Settles sites) (forward_line w) _ λ fwd. elim (Bool-cases x.resolves) [
      | inr lost ↦ rw lost (
          Ensures-weaken Apart (Settles sites) (refuse w link line 400 cmd3)
            (refuse-Apart w link line 400 cmd3 e) λ t p. inl p)
      | inl known ↦ elim (Bool-cases x.connects) [
        | inl made ↦
            rw (known, made)
              (Ensures-weaken (Stays f.host) (Settles sites)
                (send_on w link f.host (connect_host f.host ∷ []) line full f x)
                (send_on-Stays w link f.host (connect_host f.host ∷ []) line full f x (refl, tt))
                λ t p. inr (f.host, free, p))
        | inr dead ↦ rw (known, dead) (inl (record { acts = λ host. tt; link = e }))
      ]
    ]

pub handle-Stays :
    (host : Bytes) (w : World) (sites : ForbiddenSites) (link : Link) (full : Bytes) (x : Exchange)
    → link.host_sock ≡ some host
    → Ensures (Stays host) (handle w sites link full x)
unfolding handle send_on
handle-Stays host w sites link full x e =
    Ensures-bind (Stays host) (check_request sites full) _ λ (line, checked). answer line checked
  where
    answer :
        (line : Bytes) (checked : Checked)
        → Ensures (Stays host) (answer_checked w link full line checked x)
    answer line (refused code cmd3) =
        unfold answer_checked in refuse-Stays host w link line code cmd3 e
    answer line (accepted cmd3 f) =
        unfold answer_checked forward in rw e (send_on-Stays w link host [] line full f x tt)

pub forward-connect_new :
    (w : World) (link : Link) (line cmd3 full : Bytes) (f : Found) (x : Exchange)
    → link.host_sock ≡ none
    → forward w link line cmd3 full f x ≡ connect_new w link line cmd3 full f x
unfolding forward
forward-connect_new w link line cmd3 full f x e =
    ap
      (λ s. elim s [
        | some host ↦ send_on w link host [] line full f x
        | none ↦ connect_new w link line cmd3 full f x
      ])
      e

pub handle-Settles :
    (w : World) (sites : ForbiddenSites) (link : Link) (full : Bytes) (x : Exchange)
    → link.host_sock ≡ none
    → Ensures (Settles sites) (handle w sites link full x)
unfolding handle
handle-Settles w sites link full x e =
    Ensures-bind_from (λ (r : Bytes × Checked). Allowed sites r.1) (Settles sites)
      (check_request sites full) _ (check_request-Allowed sites full)
      λ (line, checked) h. answer line checked h
  where
    answer :
        (line : Bytes) (checked : Checked)
        → Allowed sites checked
        → Ensures (Settles sites) (answer_checked w link full line checked x)
    answer line (refused code cmd3) h =
        unfold answer_checked in
        Ensures-weaken Apart (Settles sites) (refuse w link line code cmd3)
          (refuse-Apart w link line code cmd3 e) (λ t p. inl p)
    answer line (accepted cmd3 f) h =
        unfold answer_checked in
        subst (Ensures (Settles sites)) (sym (forward-connect_new w link line cmd3 full f x e))
          (connect_new-Settles sites w link line cmd3 full f x e h)
