-- ===== src/Transfer/Servers.antt =====
-- read_server_info of HW3/client.c, on the text of the file of servers, and clean_server_info.
pub mod Read
use cmpe156_network_programm.Prelude.{
  ℕ, zero, suc, ◌+◌, ◌≡◌, Bool, true, false, ◌&&◌, List, [], ◌∷◌, Option, none, some, Result, ok,
  fault, indeterminate, out_of_fuel, ◌>>=◌, length, ◌==◌, if◌then◌else◌, ℤ, pos, negsuc,
}
use cmpe156_network_programm.Libc.Str.{Bytes, codes, str_eq, strcpy}
use cmpe156_network_programm.Libc.Number.{atoi}
use cmpe156_network_programm.Libc.Scan.{scan_s}

-- server_info_t, as far as it is read; valid_flag is 0, and idx the place in the list.
pub record ServerInfo : Type 0 where
  pub port : ℤ
  pub ip : Bytes

unfoldable pub int_eq : ℤ → ℤ → Bool
int_eq (pos m) (pos n) = m == n
int_eq (pos m) (negsuc n) = false
int_eq (negsuc m) (pos n) = false
int_eq (negsuc m) (negsuc n) = m == n

-- An array behind a %s, which writes nothing where the file ends before a word.
unfoldable pub kept : Option Bytes → Bytes → Option Bytes
kept before [] = before
kept before (c ∷ w) = some (c ∷ w)

-- What strcmp and atoi read of an array.
abbrev pub written : Option Bytes → Result Bytes
written none = fault indeterminate
written (some s) = ok s

-- What main finds behind the last server: its `next`, which was never set, or the node that `next`
-- points to and of which nothing was written.
pub data Tail : Type 0 where
  unset unwritten : Tail

-- The servers behind the dummy, and the end of the list.
pub record InfoList : Type 0 where
  pub servers : List ServerInfo
  pub tail : Tail

-- Each round makes `cur->next` point to a new node first; a round that adds no server leaves it so.
abbrev pub tail_behind : List ServerInfo → Tail
tail_behind [] = unwritten
tail_behind (e ∷ es) = unset

-- A round: the entry that it adds, if there is one, and what `cur` points to behind it.
unfoldable pub next_server : ServerInfo → Bytes → Bytes → Result (List ServerInfo × ServerInfo)
next_server cur ip port_text = atoi port_text >>= λ port.
    let entry = strcpy 16 (some ip) >>= λ name.
    ok ((record { port = port; ip = name }) ∷ [], record { port = port; ip = name }) in
    if int_eq port cur.port && str_eq cur.ip ip then ok ([], cur) else entry

abbrev pub met_end : Bytes → Bool
met_end [] = true
met_end (c ∷ s) = false

abbrev pub joined : List ServerInfo → InfoList → InfoList
joined [] l = l
joined (e ∷ es) l =
    let more = joined es l in record { servers = e ∷ more.servers; tail = more.tail }

-- The loop until the end of the file is met; `ip` and `port` are the arrays.
unfoldable pub read_from : ℕ → Bytes → Option Bytes → Option Bytes → ServerInfo → Result InfoList
read_from zero file ip port cur = fault out_of_fuel
read_from (suc fuel) file ip port cur = scan_s 100 file >>= λ (w1, file1).
    scan_s 100 file1 >>= λ (w2, file2). written (kept ip w1) >>= λ ip_text.
    written (kept port w2) >>= λ port_text. next_server cur ip_text port_text >>= λ (added, cur').
    let more = read_from fuel file2 (some ip_text) (some port_text) cur' in
    if met_end file2
    then ok (record { servers = added; tail = tail_behind added })
    else (more >>= λ entries. ok (joined added entries))

-- The nodes behind some of the list.
unfoldable pub clean_from : List ServerInfo → Tail → Result (Unit {0})
clean_from (s ∷ ss) tail = clean_from ss tail
clean_from [] unset = fault indeterminate
clean_from [] unwritten = fault indeterminate

-- The dummy at the head of the list.
abbrev pub dummy : ServerInfo
dummy = record { port = negsuc 0; ip = codes "invalid" }

-- The list behind the dummy; total_lines is the number of its servers. Every round but the last reads a word.
unfoldable pub read_server_info : Bytes → Result InfoList
read_server_info file = read_from (suc (length file)) file none none dummy

-- clean_server_info reads the pointer of every node before it frees it, the last one's too.
unfoldable pub clean_server_info : InfoList → Result (Unit {0})
clean_server_info l = clean_from l.servers l.tail
