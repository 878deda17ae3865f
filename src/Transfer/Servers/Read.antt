-- ===== src/Transfer/Servers/Read.antt =====
-- The servers that HW3/client.c reads of a file as it is written.
use cmpe156_network_programm.Prelude.{
  ℕ, zero, suc, ◌≡◌, ◌<◌, refl, sym, ap, ap₂, ◌∙◌, Bool, true, false, ◌&&◌, List, [], ◌∷◌, ◌++◌,
  arith, Option, none, some, ok, fault, indeterminate, ◌>>=◌, length, length-append, if◌then◌else◌,
  Bool-cases, inl, inr, ℤ, pos, negsuc,
}
use cmpe156_network_programm.Libc.Str.{Bytes, All, str_eq, str_eq_refl, str_eq_sound, strcpy_fits}
use cmpe156_network_programm.Libc.Number.{IsInt, format_d, atoi-format_d, is_space}
use cmpe156_network_programm.Libc.Scan.{IsWord, StartsSpace, scan_s-word, scan_s_none}
use cmpe156_network_programm.Transfer.Servers.{
  ServerInfo, InfoList, unwritten, int_eq, kept, next_server, met_end, joined, read_from, dummy,
  read_server_info, clean_from, clean_server_info,
}

-- A server's line fits the arrays.
pub record IsServer (s : ServerInfo) : Type 0 where
  pub ip_word : IsWord s.ip
  pub ip_fits : length s.ip < 16
  pub port_int : IsInt s.port
  pub port_word : IsWord (format_d s.port)
  pub port_fits : length (format_d s.port) < 100

-- The lines behind the first, each behind the line end before it, and the last line end.
abbrev pub lines_behind : List ServerInfo → Bytes
lines_behind [] = 10 ∷ []
lines_behind (s ∷ ss) = 10 ∷ (s.ip ++ b' ' ∷ (format_d s.port ++ lines_behind ss))

abbrev pub server_file : ServerInfo → List ServerInfo → Bytes
server_file s ss = s.ip ++ b' ' ∷ (format_d s.port ++ lines_behind ss)

-- The servers without those that repeat the one before.
unfoldable pub without_repeats : ServerInfo → List ServerInfo → List ServerInfo
without_repeats before [] = []
without_repeats before (s ∷ ss) =
    let rest = without_repeats s ss in
    if int_eq s.port before.port && str_eq before.ip s.ip then rest else s ∷ rest

-- The list of those, with a node behind them that was never written.
abbrev pub read_list : List ServerInfo → InfoList
read_list ss = record { servers = ss; tail = unwritten }

int_eq_refl : (z : ℤ) → int_eq z z ≡ true
unfolding int_eq
int_eq_refl (pos n) = ground arith
int_eq_refl (negsuc n) = ground arith

pub kept-word : (before : Option Bytes) (w : Bytes) → IsWord w → kept before w ≡ some w
unfolding kept
kept-word before [] h = absurd (h.0 refl)
kept-word before (c ∷ w) h = refl

pub StartsSpace-lines_behind : (ss : List ServerInfo) → StartsSpace (lines_behind ss)
StartsSpace-lines_behind [] = refl
StartsSpace-lines_behind (s ∷ ss) = refl

pub lines_behind-met_end : (ss : List ServerInfo) → met_end (lines_behind ss) ≡ false
lines_behind-met_end [] = refl
lines_behind-met_end (s ∷ ss) = refl

abbrev entry_of : Bool → ServerInfo → List ServerInfo
entry_of true s = []
entry_of false s = s ∷ []

abbrev same : ServerInfo → ServerInfo → Bool
same cur s = int_eq s.port cur.port && str_eq cur.ip s.ip

int_eq_sound : (y z : ℤ) → int_eq y z ≡ true → y ≡ z
unfolding int_eq
int_eq_sound (pos m) (pos n) e = ap pos (ground arith)
int_eq_sound (pos m) (negsuc n) e = ground arith
int_eq_sound (negsuc m) (pos n) e = ground arith
int_eq_sound (negsuc m) (negsuc n) e = ap negsuc (ground arith)

same_sound : (cur s : ServerInfo) → same cur s ≡ true → cur ≡ s
same_sound cur s e =
    ap₂ (λ p i. record { port = p; ip = i }) (sym (int_eq_sound s.port cur.port (ground arith)))
      (str_eq_sound cur.ip s.ip (ground arith))

-- Behind a round `cur` is the server of its line.
next_server-entry :
    (cur s : ServerInfo)
    → IsServer s
    → next_server cur s.ip (format_d s.port) ≡ ok (entry_of (same cur s) s, s)
unfolding next_server
next_server-entry cur s v = elim (Bool-cases (same cur s)) [
  | inl e ↦ rw (atoi-format_d s.port v.port_int, e) (ap (λ c. ok ([], c)) (same_sound cur s e))
  | inr e ↦ rw (atoi-format_d s.port v.port_int, e, strcpy_fits 16 s.ip v.ip_fits) refl
]

-- A round that reads a line.
read_from-line :
    (fuel : ℕ) (gap : Bytes) (s : ServerInfo) (ss : List ServerInfo) (ip port : Option Bytes)
    (cur : ServerInfo)
    → All (λ c. is_space c ≡ true) gap
    → IsServer s
    → read_from (suc fuel) (gap ++ server_file s ss) ip port cur ≡ (
        read_from fuel (lines_behind ss) (some s.ip) (some (format_d s.port)) s >>= λ entries.
        ok (joined (entry_of (same cur s) s) entries))
unfolding read_from
read_from-line fuel gap s ss ip port cur g v =
    rw
      (
        scan_s-word 100 gap s.ip (b' ' ∷ (format_d s.port ++ lines_behind ss)) g v.ip_word
            (omega (arith, v.ip_fits)) refl,
        scan_s-word 100 (b' ' ∷ []) (format_d s.port) (lines_behind ss) (refl, tt) v.port_word
            v.port_fits (StartsSpace-lines_behind ss),
        kept-word ip s.ip v.ip_word,
        kept-word port (format_d s.port) v.port_word,
        next_server-entry cur s v,
        lines_behind-met_end ss,
      )
      refl

joined-without_repeats :
    (cur s : ServerInfo) (ss : List ServerInfo)
    → joined (entry_of (same cur s) s) (read_list (without_repeats s ss))
      ≡ read_list (without_repeats cur (s ∷ ss))
unfolding without_repeats
joined-without_repeats cur s ss = elim (Bool-cases (same cur s)) [
  | inl e ↦ rw e refl
  | inr e ↦ rw e refl
]

same_refl : (s : ServerInfo) → same s s ≡ true
same_refl s = rw (int_eq_refl s.port, str_eq_refl s.ip) refl

-- The last round meets the end of the file, and its arrays hold the last server.
read_from_end :
    (fuel : ℕ) (s : ServerInfo)
    → IsServer s
    → read_from (suc fuel) (10 ∷ []) (some s.ip) (some (format_d s.port)) s ≡ ok (read_list [])
unfolding read_from kept
read_from_end fuel s v =
    rw
      (
        scan_s_none 100 (10 ∷ []) (refl, tt) (omega arith),
        scan_s_none 100 [] tt (omega arith),
        next_server-entry s s v,
        same_refl s,
      )
      refl

read_from-lines :
    (fuel : ℕ) (s : ServerInfo) (ss : List ServerInfo)
    → IsServer s
    → All IsServer ss
    → length ss < fuel
    → read_from fuel (lines_behind ss) (some s.ip) (some (format_d s.port)) s
      ≡ ok (read_list (without_repeats s ss))
read_from-lines zero s ss v a f = absurd (omega arith)
read_from-lines (suc fuel) s [] v a f = read_from_end fuel s v ∙ unfold without_repeats in refl
read_from-lines (suc fuel) s (t ∷ ss) v a f =
    read_from-line fuel (10 ∷ []) t ss (some s.ip) (some (format_d s.port)) s (refl, tt) a.0
    ∙ rw (read_from-lines fuel t ss a.0 a.1 (omega arith)) (ap ok (joined-without_repeats s t ss))

pub length-lines_behind : (ss : List ServerInfo) → length ss < length (lines_behind ss)
length-lines_behind [] = omega arith
length-lines_behind (s ∷ ss) = omega (
  arith,
  length-lines_behind ss,
  length-append s.ip (b' ' ∷ (format_d s.port ++ lines_behind ss)),
  length-append (format_d s.port) (lines_behind ss),
)

clean_from_end : (ss : List ServerInfo) → clean_from ss unwritten ≡ fault indeterminate
unfolding clean_from
clean_from_end [] = refl
clean_from_end (s ∷ ss) = clean_from_end ss

-- On a file with a line for each of one or more servers whose address and port fit the arrays,
-- read_server_info ends without a fault, and the list behind the dummy has the servers in their
-- order, without those that repeat the line before, and then one more node, to which the last
-- server points and of which nothing was written. clean_server_info on that list reads memory
-- that was never written.
pub read_server_info-without_repeats :
    (s : ServerInfo) (ss : List ServerInfo)
    → IsServer s
    → All IsServer ss
    → (read_server_info (server_file s ss) ≡ ok (read_list (without_repeats dummy (s ∷ ss))))
      × (clean_server_info (read_list (without_repeats dummy (s ∷ ss))) ≡ fault indeterminate)
unfolding read_server_info clean_server_info
read_server_info-without_repeats s ss v a = (
  read_from-line (length (server_file s ss)) [] s ss none none dummy tt v
      ∙ rw
          (read_from-lines (length (server_file s ss)) s ss v a (
            omega (
              arith,
              length-lines_behind ss,
              length-append s.ip (b' ' ∷ (format_d s.port ++ lines_behind ss)),
              length-append (format_d s.port) (lines_behind ss),
            )))
          (ap ok (joined-without_repeats dummy s ss)),
  clean_from_end (without_repeats dummy (s ∷ ss)),
)
