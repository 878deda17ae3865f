-- ===== src/Transfer/Listing.antt =====
-- process_server_info of HW4/client.c, on the text of the file of servers. What pre_ip and pre_port hold
-- before the first round is a parameter, since the code does not set them.
pub mod Listed
use cmpe156_network_programm.Prelude.{
  ℕ, zero, suc, ◌+◌, ◌-◌, ◌≡◌, ◌<◌, refl, sym, ap, ap₂, ◌∙◌, subst, inl, inr, Bool, true, false,
  ◌&&◌, List, [], ◌∷◌, ◌++◌, map, append_assoc, append-nil, arith, Option, none, some, Result, ok,
  fault, out_of_fuel, indeterminate, ◌>>=◌, length, length-append, if◌then◌else◌, Bool-cases, ℤ,
  pos,
}
use cmpe156_network_programm.Libc.Str.{Bytes, All, str_eq, str_eq_refl, str_eq_sound}
use cmpe156_network_programm.Libc.Number.{atoi, format_d, atoi-format_d, is_space}
use cmpe156_network_programm.Libc.Scan.{scan_s, scan_s-word, scan_s_none}
use cmpe156_network_programm.DynArray.Refine.{Holds, add_item-Holds, init_array-Holds}
use cmpe156_network_programm.Args.Listening.{port_of}
use cmpe156_network_programm.Transfer.Pool.{
  Address, ServerList, init_server_list_array, add_server_item,
}
use cmpe156_network_programm.Transfer.Servers.{ServerInfo, kept, written, met_end}
use cmpe156_network_programm.Transfer.Servers.Read.{
  IsServer, lines_behind, server_file, kept-word, StartsSpace-lines_behind, lines_behind-met_end,
  length-lines_behind,
}

-- The four arrays; those of which nothing has been written hold no text.
pub record Arrays : Type 0 where
  pub ip : Option Bytes
  pub port : Option Bytes
  pub pre_ip : Option Bytes
  pub pre_port : Option Bytes

-- The test for a line that repeats the one before.
unfoldable pub is_repeat : Arrays → Bytes → Bytes → Result Bool
is_repeat a ip port = written a.pre_port >>= λ p.
    if str_eq p port then (written a.pre_ip >>= λ i. ok (str_eq i ip)) else ok false

-- A new server; nothing when inet_aton refuses the address, which ends the program.
unfoldable pub add_server : (Bytes → Bool) → ServerList → Bytes → Bytes → Result (Option ServerList)
add_server inet_aton servers ip port = atoi port >>= λ n.
    if inet_aton ip
    then (add_server_item servers (record { ip = ip; port = port_of n }) >>= λ b. ok (some b))
    else ok none

-- What follows a round, unless the program or the file has ended.
abbrev pub after_round :
    Option ServerList
    → Bytes
    → (ServerList → Result (Option ServerList))
    → Result (Option ServerList)
after_round none rest next = ok none
after_round (some servers) [] next = ok (some servers)
after_round (some servers) (c ∷ rest) next = next servers

-- The loop until the end of the file is met.
unfoldable pub process_from :
    (Bytes → Bool) → ℕ → Bytes → Arrays → ServerList → Result (Option ServerList)
process_from inet_aton zero file a servers = fault out_of_fuel
process_from inet_aton (suc fuel) file a servers = scan_s 100 file >>= λ (w1, file1).
    scan_s 100 file1 >>= λ (w2, file2). written (kept a.ip w1) >>= λ ip.
    written (kept a.port w2) >>= λ port. is_repeat a ip port >>= λ again.
    let kept_arrays : Arrays = record a { ip = some ip; port = some port } in
    let new_arrays : Arrays = record {
      ip = some ip;
      port = some port;
      pre_ip = some ip;
      pre_port = some port;
    } in
    let same = process_from inet_aton fuel file2 kept_arrays in
    let more = process_from inet_aton fuel file2 new_arrays in
    if again
    then after_round (some servers) file2 same
    else (add_server inet_aton servers ip port >>= λ added. after_round added file2 more)

-- Every round but the last reads a word.
unfoldable pub process_server_info :
    (Bytes → Bool) → Option Bytes → Option Bytes → Bytes → Result (Option ServerList)
process_server_info inet_aton pre_ip pre_port file =
    process_from inet_aton (suc (length file)) file
      (record { ip = none; port = none; pre_ip = pre_ip; pre_port = pre_port })
      init_server_list_array
