-- ===== src/Args/Listening.antt =====
-- The port at which the chat server listens: check_param and the start of main in pro/src/server.c.
use cmpe156_network_programm.Prelude.{
  ℕ, zero, suc, sym, ap, ◌∙◌, subst, ◌⊎◌, inl, inr, ◌+◌, ◌-◌, ◌*◌, ◌/◌, ◌%◌, ◌^◌, ◌≡◌, ◌<◌, refl,
  true, List, [], ◌∷◌, Option, none, some, arith, Result, ok, ◌>>=◌, load, ℤ, pos, negsuc,
}
use cmpe156_network_programm.Libc.Str.{Bytes, codes}
use cmpe156_network_programm.Libc.Number.{atoi, format_d, IsInt, atoi-format_d}
use cmpe156_network_programm.Args.{is_nonzero, is_valid_port}
use cmpe156_network_programm.Args.Programs.{accepted, refused, server_check_param}

-- The conversion of an `int` to the 16 bits of htons.
abbrev pub port_of : ℤ → ℕ
port_of (pos n) = n % 2 ^ 16
port_of (negsuc n) = 2 ^ 16 - 1 - n % 2 ^ 16

-- How main comes to its loop over accept: the tests or a failing call end the program, or it listens
-- at a port.
pub data Listening : Type 0 where
  turned_down : Bytes → Listening
  listening : ℕ → Listening

-- `bind` is what bind and listen give for the port of the address: the port that is listened at, if
-- they succeed.
unfoldable pub listening_port : (ℕ → Option ℕ) → List Bytes → Result Listening
listening_port bind argv = server_check_param argv >>= λ checked. elim checked [
  | refused message ↦ ok (turned_down message)
  | accepted ↦ load argv 1 >>= λ port. atoi port >>= λ n. elim (bind (port_of n)) [
    | none ↦ ok (turned_down (codes "bind socket error!"))
    | some p ↦ ok (listening p)
  ]
]

-- bind takes the port that it is asked for; for port 0 the system picks a port.
abbrev pub IsBind : (ℕ → Option ℕ) → Type 0
IsBind bind = (p q : ℕ) → 0 < p → bind p ≡ some q → q ≡ p

-- A number and a port that differ by a multiple of 65536.
abbrev pub WrapsTo : ℤ → ℕ → Type 0
WrapsTo (pos n) p = (k : ℕ) × (n ≡ p + k * 65536)
WrapsTo (negsuc n) p = (k : ℕ) × (suc n + p ≡ k * 65536)

ℕ-cases : (n : ℕ) → (n ≡ 0) ⊎ (0 < n)
ℕ-cases zero = inl refl
ℕ-cases (suc n) = inr (omega arith)

port_of-WrapsTo : (z : ℤ) → (port_of z < 65536) × WrapsTo z (port_of z)
port_of-WrapsTo (pos n) = (omega arith, (n / 65536, omega arith))
port_of-WrapsTo (negsuc n) = (omega arith, (suc (n / 65536), omega arith))

-- Suppose that bind takes the port that it is asked for unless that is 0, and that bind and listen
-- succeed. For every int that is no multiple of 65536, in decimal as the only argument, the chat
-- server accepts it and listens at a port below 65536 that differs from the number by a multiple
-- of 65536. Every other int but 0 it accepts as well, asks for port 0, and listens at whatever port
-- the system picks.
pub listening_port-WrapsTo :
    (bind : ℕ → Option ℕ) (program : Bytes) (z : ℤ) (q : ℕ)
    → IsBind bind
    → IsInt z
    → is_nonzero z ≡ true
    → bind (port_of z) ≡ some q
    → (listening_port bind (program ∷ format_d z ∷ []) ≡ ok (listening q))
      × (((q < 65536) × WrapsTo z q) ⊎ (WrapsTo z 0 × (bind 0 ≡ some q)))
unfolding listening_port server_check_param is_valid_port
listening_port-WrapsTo bind program z q b h v bound =
    let (fits, wraps) = port_of-WrapsTo z in
    (
      rw (atoi-format_d z h, v, atoi-format_d z h, bound) refl,
      elim (ℕ-cases (port_of z)) [
        | inl none_asked ↦
            inr (subst (WrapsTo z) none_asked wraps, ap bind (sym none_asked) ∙ bound)
        | inr asked ↦
            let same : port_of z ≡ q = sym (b (port_of z) q asked bound) in
            inl (subst (λ p. p < 65536) same fits, subst (WrapsTo z) same wraps)
      ],
    )
