-- ===== src/Chat/Client/Peer.antt =====
-- A peer's address in the server's reply, as the client reads it.
use cmpe156_network_programm.Prelude.{
  ℕ, suc, ◌-◌, ◌≡◌, ◌≢◌, ◌<◌, refl, ap, ◌∙◌, false, [], ◌∷◌, ◌++◌, append_assoc, arith, some, ok,
  length, replicate,
}
use cmpe156_network_programm.Libc.Str.{
  Bytes, All, codes, str_eq, NoNul, NoNul-append, c_string-text,
}
use cmpe156_network_programm.Libc.Tok.{IsPlain, strtok-plain}
use cmpe156_network_programm.Libc.Number.{
  IsInt, format_d, format_d-All, format_d-ne-nil, atoi-format_d,
}
use cmpe156_network_programm.Chat.Lists.{Client}
use cmpe156_network_programm.Chat.Server.Room.{address, padded, IsName, FitsReply}
use cmpe156_network_programm.Chat.Server.Parts.{strtok-field}
use cmpe156_network_programm.Chat.Client.Replies.{
  read_buffer, call, connect_after_process, connect_after_process_text,
}

pub NoNul-plain : (d : ℕ) (s : Bytes) → All (IsPlain d) s → NoNul s
NoNul-plain d [] h = tt
NoNul-plain d (c ∷ s) h = (h.0.0, NoNul-plain d s h.1)

-- A client entry whose fields go through the protocol.
pub record IsEntry (c : Client) : Type 0 where
  pub name : IsName c.client
  pub ip_given : c.ip ≢ []
  pub ip_plain : All (IsPlain b':') c.ip
  pub port_fits : IsInt c.port

padded_zero : (t : Bytes) → length t < 1024 → (more : Bytes) × (padded t ≡ t ++ 0 ∷ more)
padded_zero t h =
    let k : 1024 - length t ≡ suc (1023 - length t) = omega arith in
    (replicate (1023 - length t) 0, rw k refl)

NoNul-address : (c : Client) → IsEntry c → NoNul (address c)
NoNul-address c e =
    let port =
      NoNul-append (format_d c.port) (b':' ∷ [])
        (NoNul-plain b':' (format_d c.port) (format_d-All c.port)) (omega arith) in
    let ip =
      NoNul-append c.ip (b':' ∷ (format_d c.port ++ b':' ∷ [])) (NoNul-plain b':' c.ip e.ip_plain)
        (omega arith, port) in
    (
      omega arith,
      (omega arith, NoNul-append c.client _ (NoNul-plain b':' c.client e.name.1) (omega arith, ip)),
    )

-- The text of an address is not the text that says nobody is there.
address-ne :
    (n s : Bytes)
    → n ≢ []
    → All (IsPlain b':') n
    → str_eq (b'c' ∷ b':' ∷ (n ++ s)) (codes "c::") ≡ false
unfolding str_eq
address-ne [] s h p = absurd (h refl)
address-ne (x ∷ n) s h p = ground arith

-- Four tokens of a reply, in front of its NUL.
address_tokens :
    (c : Client) (more : Bytes)
    → IsEntry c
    → address c ++ 0 ∷ more
      ≡ b'c' ∷ b':' ∷ (c.client ++ b':' ∷ (c.ip ++ b':' ∷ (format_d c.port ++ b':' ∷ 0 ∷ more)))
address_tokens c more e = simp append_assoc

dial_text :
    (c : Client) (more : Bytes)
    → IsEntry c
    → connect_after_process_text (address c ++ 0 ∷ more)
      ≡ ok (call (some c.client) (some c.ip) c.port)
unfolding connect_after_process_text
dial_text c more e = rw (c_string-text (address c) more (NoNul-address c e)) (
    rw (address_tokens c more e) (
      ground (
        arith,
        address-ne c.client (b':' ∷ (c.ip ++ b':' ∷ (format_d c.port ++ b':' ∷ []))) e.name.0
            e.name.1,
        strtok-plain b':' b'c' []
            (c.client ++ b':' ∷ (c.ip ++ b':' ∷ (format_d c.port ++ b':' ∷ 0 ∷ more))) (omega arith)
            ((omega arith, omega arith), tt),
        strtok-field c.client (c.ip ++ b':' ∷ (format_d c.port ++ b':' ∷ 0 ∷ more)) e.name.0
            e.name.1,
        strtok-field c.ip (format_d c.port ++ b':' ∷ 0 ∷ more) e.ip_given e.ip_plain,
        strtok-field (format_d c.port) (0 ∷ more) (format_d-ne-nil c.port) (format_d-All c.port),
        atoi-format_d c.port e.port_fits,
      )))

read_buffer_text :
    (t text more : Bytes) → t ≡ text ++ 0 ∷ more → (m : Bytes) × (read_buffer t ≡ text ++ 0 ∷ m)
read_buffer_text t text more e =
    let zeros = replicate (1024 - length t) 0 in
    (more ++ zeros, ap (λ u. u ++ zeros) e ∙ append_assoc text (0 ∷ more) zeros)

-- For a client that waits, with a proper name, address and port and a reply that fits, the block
-- that the server sends for a CONNECT makes connect_after_process call that client's name,
-- address and port.
pub connect_after_process-address :
    (c : Client)
    → IsEntry c
    → FitsReply c
    → connect_after_process (some (padded (address c)))
      ≡ ok (call (some c.client) (some c.ip) c.port)
unfolding connect_after_process
connect_after_process-address c e f =
    let (more, z) = padded_zero (address c) f in
    let (m, r) = read_buffer_text (padded (address c)) (address c) more z in
    ap connect_after_process_text r ∙ dial_text c m e
