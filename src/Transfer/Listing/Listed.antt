-- ===== src/Transfer/Listing/Listed.antt =====
-- The servers that HW4/client.c reads of a file as it is written.
use cmpe156_network_programm.Prelude.{
  ℕ, zero, suc, ◌≡◌, ◌<◌, refl, ap, ap₂, ◌∙◌, subst, inl, inr, Bool, true, ◌&&◌, List, [], ◌∷◌,
  ◌++◌, map, append_assoc, append-nil, arith, Option, none, some, Result, ok, fault, indeterminate,
  length, length-append, if◌then◌else◌, Bool-cases,
}
use cmpe156_network_programm.Libc.Str.{Bytes, All, str_eq, str_eq_refl, str_eq_sound}
use cmpe156_network_programm.Libc.Number.{format_d, atoi-format_d, is_space}
use cmpe156_network_programm.Libc.Scan.{scan_s-word, scan_s_none}
use cmpe156_network_programm.DynArray.Refine.{Holds, add_item-Holds, init_array-Holds}
use cmpe156_network_programm.Args.Listening.{port_of}
use cmpe156_network_programm.Transfer.Pool.{
  Address, ServerList, init_server_list_array, add_server_item,
}
use cmpe156_network_programm.Transfer.Servers.{ServerInfo, kept}
use cmpe156_network_programm.Transfer.Servers.Read.{
  IsServer, lines_behind, server_file, kept-word, StartsSpace-lines_behind, length-lines_behind,
}
use cmpe156_network_programm.Transfer.Listing.{
  Arrays, is_repeat, add_server, after_round, process_from, process_server_info,
}

abbrev pub address_of : ServerInfo → Address
address_of s = record { ip = s.ip; port = port_of s.port }

abbrev repeats : Bytes → Bytes → ServerInfo → Bool
repeats pre_ip pre_port s = str_eq pre_port (format_d s.port) && str_eq pre_ip s.ip

-- The servers without those that repeat the line before.
unfoldable pub listed : Bytes → Bytes → List ServerInfo → List ServerInfo
listed pre_ip pre_port [] = []
listed pre_ip pre_port (s ∷ ss) =
    let rest = listed s.ip (format_d s.port) ss in
    if repeats pre_ip pre_port s then rest else s ∷ rest

-- The arrays behind the round of a line.
abbrev arrays_of : ServerInfo → Arrays
arrays_of s = record {
  ip = some s.ip;
  port = some (format_d s.port);
  pre_ip = some s.ip;
  pre_port = some (format_d s.port);
}

abbrev pub IsListed : (Bytes → Bool) → ServerInfo → Type 0
IsListed inet_aton s = IsServer s × (inet_aton s.ip ≡ true)

is_repeat-written :
    (a : Arrays) (pre_ip pre_port : Bytes) (s : ServerInfo)
    → a.pre_ip ≡ some pre_ip
    → a.pre_port ≡ some pre_port
    → is_repeat a s.ip (format_d s.port) ≡ ok (repeats pre_ip pre_port s)
unfolding is_repeat
is_repeat-written a pre_ip pre_port s e f = ground (arith, e, f)

add_server-Holds :
    (inet_aton : Bytes → Bool) (a : ServerList) (xs : List Address) (s : ServerInfo)
    → IsListed inet_aton s
    → Holds a xs
    → (b : ServerList) × (add_server inet_aton a s.ip (format_d s.port) ≡ ok (some b))
      × Holds b (xs ++ address_of s ∷ [])
unfolding add_server add_server_item
add_server-Holds inet_aton a xs s v h =
    let (b, e, hb) = add_item-Holds a xs (address_of s) h in
    (b, rw (atoi-format_d s.port v.0.port_int, v.1, e) refl, hb)

after_round-lines_behind :
    (ss : List ServerInfo) (b : ServerList) (next : ServerList → Result (Option ServerList))
    → after_round (some b) (lines_behind ss) next ≡ next b
after_round-lines_behind [] b next = refl
after_round-lines_behind (s ∷ ss) b next = refl

same_arrays :
    (a : Arrays) (pre_ip pre_port : Bytes) (s : ServerInfo)
    → a.pre_ip ≡ some pre_ip
    → a.pre_port ≡ some pre_port
    → repeats pre_ip pre_port s ≡ true
    → record a { ip = some s.ip; port = some (format_d s.port) } ≡ arrays_of s
same_arrays a pre_ip pre_port s ei ep again =
    let same_ip : pre_ip ≡ s.ip = str_eq_sound pre_ip s.ip (ground arith) in
    let same_port : pre_port ≡ format_d s.port =
      str_eq_sound pre_port (format_d s.port) (ground arith) in
    ap₂ (λ i p. record { ip = some s.ip; port = some (format_d s.port); pre_ip = i; pre_port = p })
      (ei ∙ ap some same_ip) (ep ∙ ap some same_port)

-- A round that reads a line, and goes on behind it with the arrays of that line.
process_from-line :
    (inet_aton : Bytes → Bool) (fuel : ℕ) (gap : Bytes) (s : ServerInfo) (ss : List ServerInfo)
    (a : Arrays) (pre_ip pre_port : Bytes) (servers : ServerList) (xs : List Address)
    → All (λ c. is_space c ≡ true) gap
    → IsListed inet_aton s
    → a.pre_ip ≡ some pre_ip
    → a.pre_port ≡ some pre_port
    → Holds servers xs
    → (b : ServerList) × (process_from inet_aton (suc fuel) (gap ++ server_file s ss) a servers
        ≡ process_from inet_aton fuel (lines_behind ss) (arrays_of s) b)
      × Holds b (xs ++ map address_of (if repeats pre_ip pre_port s then [] else s ∷ []))
unfolding process_from
process_from-line inet_aton fuel gap s ss a pre_ip pre_port servers xs g v ei ep h =
    let first =
      scan_s-word 100 gap s.ip (b' ' ∷ (format_d s.port ++ lines_behind ss)) g v.0.ip_word
        (omega (arith, v.0.ip_fits)) refl in
    let second =
      scan_s-word 100 (b' ' ∷ []) (format_d s.port) (lines_behind ss) (refl, tt) v.0.port_word
        v.0.port_fits (StartsSpace-lines_behind ss) in
    let ip_text = kept-word a.ip s.ip v.0.ip_word in
    let port_text = kept-word a.port (format_d s.port) v.0.port_word in
    let test = is_repeat-written a pre_ip pre_port s ei ep in
    elim (Bool-cases (repeats pre_ip pre_port s)) [
      | inl again ↦ (
        servers,
        rw (first, second, ip_text, port_text, test, again)
            (after_round-lines_behind ss servers _
              ∙ ap (λ x. process_from inet_aton fuel (lines_behind ss) x servers)
                  (same_arrays a pre_ip pre_port s ei ep again)),
        rw (again, append-nil xs) h,
      )
      | inr fresh ↦
          let (b, e, hb) = add_server-Holds inet_aton servers xs s v h in
          (
            b,
            rw (first, second, ip_text, port_text, test, fresh, e)
                (after_round-lines_behind ss b _),
            rw fresh hb,
          )
    ]

repeats_refl : (s : ServerInfo) → repeats s.ip (format_d s.port) s ≡ true
repeats_refl s = rw (str_eq_refl (format_d s.port), str_eq_refl s.ip) refl

-- The last round meets the end of the file with the last line in its arrays.
process_from_end :
    (inet_aton : Bytes → Bool) (fuel : ℕ) (s : ServerInfo) (servers : ServerList)
    → process_from inet_aton (suc fuel) (10 ∷ []) (arrays_of s) servers ≡ ok (some servers)
unfolding process_from kept
process_from_end inet_aton fuel s servers =
    rw
      (
        scan_s_none 100 (10 ∷ []) (refl, tt) (omega arith),
        scan_s_none 100 [] tt (omega arith),
        is_repeat-written (arrays_of s) s.ip (format_d s.port) s refl refl,
        repeats_refl s,
      )
      refl

listed-next :
    (pre_ip pre_port : Bytes) (s : ServerInfo) (ss : List ServerInfo)
    → map address_of (if repeats pre_ip pre_port s then [] else s ∷ [])
        ++ map address_of (listed s.ip (format_d s.port) ss)
      ≡ map address_of (listed pre_ip pre_port (s ∷ ss))
unfolding listed
listed-next pre_ip pre_port s ss = elim (Bool-cases (repeats pre_ip pre_port s)) [
  | inl again ↦ rw again refl
  | inr fresh ↦ rw fresh refl
]

listed-Holds :
    (b : ServerList) (xs : List Address) (pre_ip pre_port : Bytes) (s : ServerInfo)
    (ss : List ServerInfo)
    → Holds b (
        (xs ++ map address_of (if repeats pre_ip pre_port s then [] else s ∷ []))
        ++ map address_of (listed s.ip (format_d s.port) ss))
    → Holds b (xs ++ map address_of (listed pre_ip pre_port (s ∷ ss)))
listed-Holds b xs pre_ip pre_port s ss h =
    let one = map address_of (if repeats pre_ip pre_port s then [] else s ∷ []) in
    let rest = map address_of (listed s.ip (format_d s.port) ss) in
    subst (Holds b)
      (append_assoc xs one rest ∙ ap (λ l. xs ++ l) (listed-next pre_ip pre_port s ss)) h

process_from-lines :
    (inet_aton : Bytes → Bool) (fuel : ℕ) (s : ServerInfo) (ss : List ServerInfo)
    (servers : ServerList) (xs : List Address)
    → All (IsListed inet_aton) ss
    → length ss < fuel
    → Holds servers xs
    → (b : ServerList) × (process_from inet_aton fuel (lines_behind ss) (arrays_of s) servers
        ≡ ok (some b))
      × Holds b (xs ++ map address_of (listed s.ip (format_d s.port) ss))
process_from-lines inet_aton zero s ss servers xs a f h = absurd (omega arith)
process_from-lines inet_aton (suc fuel) s [] servers xs a f h =
    (servers, process_from_end inet_aton fuel s servers, unfold listed in rw append-nil h)
process_from-lines inet_aton (suc fuel) s (t ∷ ss) servers xs a f h =
    let (b, e, hb) =
      process_from-line inet_aton fuel (10 ∷ []) t ss (arrays_of s) s.ip (format_d s.port) servers
        xs (refl, tt) a.0 refl refl h in
    let (d, e2, hd) =
      process_from-lines inet_aton fuel t ss b
        (xs ++ map address_of (if repeats s.ip (format_d s.port) t then [] else t ∷ [])) a.1
        (omega arith) hb in
    (d, e ∙ e2, listed-Holds d xs s.ip (format_d s.port) t ss hd)

-- Without texts in pre_ip and pre_port the first test reads what was never written.
process_server_info_unset :
    (inet_aton : Bytes → Bool) (s : ServerInfo) (ss : List ServerInfo)
    → IsServer s
    → process_server_info inet_aton none none (server_file s ss) ≡ fault indeterminate
unfolding process_server_info process_from is_repeat
process_server_info_unset inet_aton s ss v =
    rw
      (
        scan_s-word 100 [] s.ip (b' ' ∷ (format_d s.port ++ lines_behind ss)) tt v.ip_word
            (omega (arith, v.ip_fits)) refl,
        scan_s-word 100 (b' ' ∷ []) (format_d s.port) (lines_behind ss) (refl, tt) v.port_word
            v.port_fits (StartsSpace-lines_behind ss),
        kept-word none s.ip v.ip_word,
        kept-word none (format_d s.port) v.port_word,
      )
      refl

-- On a file with a line for each of one or more servers whose address and port fit the arrays
-- and whose address inet_aton accepts, process_server_info reads memory that was never written
-- when pre_ip and pre_port hold nothing; whatever texts they hold, it ends without a fault, and
-- the list holds the servers in their order, without those that repeat the line before.
pub process_server_info-listed :
    (inet_aton : Bytes → Bool) (pre_ip pre_port : Bytes) (s : ServerInfo) (ss : List ServerInfo)
    → IsListed inet_aton s
    → All (IsListed inet_aton) ss
    → (process_server_info inet_aton none none (server_file s ss) ≡ fault indeterminate)
      × (b : ServerList) × (process_server_info inet_aton
            (some pre_ip)
            (some pre_port)
            (server_file s ss)
          ≡ ok (some b))
      × Holds b (map address_of (listed pre_ip pre_port (s ∷ ss)))
unfolding process_server_info init_server_list_array
process_server_info-listed inet_aton pre_ip pre_port s ss v a =
    let fuel = length (server_file s ss) in
    let unset : Arrays = record {
      ip = none;
      port = none;
      pre_ip = some pre_ip;
      pre_port = some pre_port;
    } in
    let (b, e, hb) =
      process_from-line inet_aton fuel [] s ss unset pre_ip pre_port init_server_list_array [] tt v
        refl refl init_array-Holds in
    let enough : length ss < fuel = omega (
      arith,
      length-lines_behind ss,
      length-append s.ip (b' ' ∷ (format_d s.port ++ lines_behind ss)),
      length-append (format_d s.port) (lines_behind ss),
    ) in
    let (d, e2, hd) =
      process_from-lines inet_aton fuel s ss b
        (map address_of (if repeats pre_ip pre_port s then [] else s ∷ [])) a enough hb in
    (
      process_server_info_unset inet_aton s ss v.0,
      d,
      e ∙ e2,
      listed-Holds d [] pre_ip pre_port s ss hd,
    )
