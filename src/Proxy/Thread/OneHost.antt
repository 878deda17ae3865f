-- ===== src/Proxy/Thread/OneHost.antt =====
-- To which host a thread of hw5/proxy.c forwards the requests of one browser.
use cmpe156_network_programm.Prelude.{
  ◌≡◌, ◌⊎◌, refl, false, List, [], ◌∷◌, none, some, Result, ok, Option-cases, inl, inr,
}
use cmpe156_network_programm.Libc.Str.{Bytes, All}
use cmpe156_network_programm.Proxy.{ForbiddenSites, is_forbidden}
use cmpe156_network_programm.Proxy.Relay.{Action, behind_blank}
use cmpe156_network_programm.Proxy.Thread.{
  World, Exchange, Link, Next, again, stop, left, failed, handle, append_chunk, closes, follow,
  thread_from, thread_proxy,
}
use cmpe156_network_programm.Proxy.Ensures.{
  Ensures, Ensures-bind, Ensures-bind_from, Ensures-weaken,
}
use cmpe156_network_programm.Proxy.Relay.Targets.{GoesTo, All-append}
use cmpe156_network_programm.Proxy.Thread.Turns.{Stays, Settles, handle-Stays, handle-Settles}

closes-GoesTo : (host : Bytes) (link : Link) → All (GoesTo host) (closes link)
closes-GoesTo host link = elim (Option-cases link.host_sock) [
  | inl e ↦ rw e (tt, tt)
  | inr (h, e) ↦ rw e (tt, (tt, tt))
]

-- The actions of a turn and of what follows it.
follow-GoesTo :
    (host : Bytes) (acts : List Action) (link : Link) (n : Next) (rest : Result (List Action))
    → All (GoesTo host) acts
    → Ensures (All (GoesTo host)) rest
    → Ensures (All (GoesTo host)) (follow (record { link = link; actions = acts; next = n }) rest)
follow-GoesTo host acts link again rest h k =
    Ensures-bind_from (All (GoesTo host)) (All (GoesTo host)) rest _ k
      λ more m. All-append host acts more h m
follow-GoesTo host acts link stop rest h k =
    All-append host acts (closes link) h (closes-GoesTo host link)
follow-GoesTo host acts link left rest h k = h
follow-GoesTo host acts link failed rest h k = h

thread_from-GoesTo :
    (host : Bytes) (w : World) (sites : ForbiddenSites) (reads : List (Bytes × Exchange))
    (full : Bytes) (link : Link)
    → link.host_sock ≡ some host
    → Ensures (All (GoesTo host)) (thread_from w sites reads full link)
unfolding thread_from
thread_from-GoesTo host w sites [] full link e = closes-GoesTo host link
thread_from-GoesTo host w sites ((chunk, x) ∷ reads) full link e =
    Ensures-bind (All (GoesTo host)) (append_chunk full chunk) _ λ text.
      elim (Option-cases (behind_blank text)) [
        | inl waiting ↦ rw waiting (thread_from-GoesTo host w sites reads text link e)
        | inr (body, found) ↦ rw found (
            Ensures-bind_from (Stays host) (All (GoesTo host)) (handle w sites link text x) _
              (handle-Stays host w sites link text x e)
              λ t s.
                follow-GoesTo host t.actions t.link t.next _ s.acts
                  (thread_from-GoesTo host w sites reads [] t.link s.link))
      ]

-- The actions of a thread that go to no host, or all to one that the filter lets through.
abbrev pub ToOne : ForbiddenSites → List Action → Type 0
ToOne sites acts =
    ((host : Bytes) → All (GoesTo host) acts)
    ⊎ ((host : Bytes) × (is_forbidden sites host ≡ ok false) × All (GoesTo host) acts)

follow-ToOne :
    (sites : ForbiddenSites) (acts : List Action) (link : Link) (n : Next)
    (rest : Result (List Action))
    → ((host : Bytes) → All (GoesTo host) acts)
    → Ensures (ToOne sites) rest
    → Ensures (ToOne sites) (follow (record { link = link; actions = acts; next = n }) rest)
follow-ToOne sites acts link again rest h k =
    Ensures-bind_from (ToOne sites) (ToOne sites) rest _ k λ more m. elim m [
      | inl nowhere ↦ inl λ host. All-append host acts more (h host) (nowhere host)
      | inr (host, free, all) ↦ inr (host, free, All-append host acts more (h host) all)
    ]
follow-ToOne sites acts link stop rest h k =
    inl λ host. All-append host acts (closes link) (h host) (closes-GoesTo host link)
follow-ToOne sites acts link left rest h k = inl h
follow-ToOne sites acts link failed rest h k = inl h

thread_from-ToOne :
    (w : World) (sites : ForbiddenSites) (reads : List (Bytes × Exchange)) (full : Bytes)
    (link : Link)
    → link.host_sock ≡ none
    → Ensures (ToOne sites) (thread_from w sites reads full link)
unfolding thread_from
thread_from-ToOne w sites [] full link e = inl λ host. closes-GoesTo host link
thread_from-ToOne w sites ((chunk, x) ∷ reads) full link e =
    Ensures-bind (ToOne sites) (append_chunk full chunk) _ λ text.
      elim (Option-cases (behind_blank text)) [
        | inl waiting ↦ rw waiting (thread_from-ToOne w sites reads text link e)
        | inr (body, found) ↦ rw found (
            Ensures-bind_from (Settles sites) (ToOne sites) (handle w sites link text x) _
              (handle-Settles w sites link text x e)
              λ t s. elim s [
                | inl p ↦
                    follow-ToOne sites t.actions t.link t.next _ p.acts
                      (thread_from-ToOne w sites reads [] t.link p.link)
                | inr (host, free, p) ↦
                    Ensures-weaken (All (GoesTo host)) (ToOne sites) _
                      (follow-GoesTo host t.actions t.link t.next _ p.acts
                        (thread_from-GoesTo host w sites reads [] t.link p.link))
                      λ acts k. inr (host, free, k)
              ])
      ]

-- Whatever a browser sends, when its thread runs without a fault, it sends requests and connects
-- to no host at all, or to a single one, and that one passes the filter.
pub thread_proxy-ToOne :
    (w : World) (sites : ForbiddenSites) (reads : List (Bytes × Exchange)) (acts : List Action)
    → thread_proxy w sites reads ≡ ok acts
    → ToOne sites acts
unfolding thread_proxy
thread_proxy-ToOne w sites reads acts e =
    rw e at (
      thread_from-ToOne w sites reads [] (record { host_sock = none; log_responsecode = none })
        refl)
