-- ===== src/Transfer/ServerTests.antt =====
-- The theorem on the file of servers at a concrete input.
use cmpe156_network_programm.Prelude.{
  Bool, true, none, some, fault, indeterminate, map, ◌≡◌, refl, arith, [], ◌∷◌, ok, pos,
}
use cmpe156_network_programm.Libc.Str.{Bytes, codes}
use cmpe156_network_programm.DynArray.Refine.{Holds}
use cmpe156_network_programm.Transfer.Pool.{ServerList}
use cmpe156_network_programm.Transfer.Pool.{Address}
use cmpe156_network_programm.Libc.Str.{str_eq}
use cmpe156_network_programm.Transfer.Listing.{process_server_info}
use cmpe156_network_programm.Transfer.Listing.Listed.{
  address_of, listed, process_server_info-listed,
}
use cmpe156_network_programm.Libc.Number.{format_d, decimal, digits}
use cmpe156_network_programm.Libc.Scan.{is_word-IsWord}
use cmpe156_network_programm.Transfer.Servers.{
  ServerInfo, dummy, read_server_info, clean_server_info,
}
use cmpe156_network_programm.Transfer.Servers.Read.{
  IsServer, server_file, read_list, without_repeats, read_server_info-without_repeats,
}

abbrev near : ServerInfo
near = record { port = pos 9000; ip = codes "10.0.0.1" }

near-IsServer : IsServer near
unfolding format_d decimal digits
near-IsServer = record {
  ip_word = is_word-IsWord (codes "10.0.0.1") refl;
  ip_fits = omega arith;
  port_int = omega arith;
  port_word = is_word-IsWord (codes "9000") refl;
  port_fits = omega arith;
}

read_server_info-without_repeats_example :
    (read_server_info (server_file near (near ∷ []))
      ≡ ok (read_list (without_repeats dummy (near ∷ near ∷ []))))
    × (clean_server_info (read_list (without_repeats dummy (near ∷ near ∷ [])))
        ≡ fault indeterminate)
read_server_info-without_repeats_example =
    read_server_info-without_repeats near (near ∷ []) near-IsServer (near-IsServer, tt)

abbrev any_address : Bytes → Bool
any_address ip = true

process_server_info-listed_example :
    (process_server_info any_address none none (server_file near (near ∷ [])) ≡ fault indeterminate)
    × (b : ServerList) × (process_server_info any_address
          (some [])
          (some [])
          (server_file near (near ∷ []))
        ≡ ok (some b))
    × Holds b (map address_of (listed [] [] (near ∷ near ∷ [])))
process_server_info-listed_example =
    process_server_info-listed any_address [] [] near (near ∷ []) (near-IsServer, refl)
      ((near-IsServer, refl), tt)

abbrev far : ServerInfo
far = record { port = pos 9000; ip = codes "10.0.0.2" }

-- The nearer server does not answer.
abbrev far_only : Address → Bool
far_only a = str_eq a.ip (codes "10.0.0.2")
