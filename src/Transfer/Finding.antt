-- ===== src/Transfer/Finding.antt =====
-- The servers that take part in a download: main of HW4/client.c from process_server_info to the test of
-- query_file_exist's result.
use cmpe156_network_programm.Prelude.{
  ◌≡◌, Bool, List, [], ◌∷◌, Option, none, some, Result, ok, ◌>>=◌, map, ◌==◌, if◌then◌else◌,
}
use cmpe156_network_programm.Libc.Str.{Bytes, codes}
use cmpe156_network_programm.DynArray.Refine.{Holds}
use cmpe156_network_programm.Transfer.Pool.{Address, ServerList, Response}
use cmpe156_network_programm.Transfer.Handshake.{verify_address_available, query_file_exist}
use cmpe156_network_programm.Transfer.Servers.{ServerInfo}
use cmpe156_network_programm.Transfer.Listing.{process_server_info}
use cmpe156_network_programm.Transfer.Listing.Listed.{address_of, listed}

-- main goes on with its servers, or failHandler ends it.
pub data Found : Type 0 where
  servers_left : ServerList → Found
  ended_with : Bytes → Found

-- The list on which query_file_exist runs, and the test of its result.
unfoldable pub ask_servers : List (Option Response) → Bytes → ServerList → Result Found
ask_servers replies target_file a =
    let asked = query_file_exist replies target_file a >>= λ (b, ret). ok (
      if ret == 1
      then ended_with (codes "Can not verify file exsitance. All servers are dead.")
      else servers_left b) in
    if a.occupied == 0 then ok (ended_with (codes "no available server!")) else asked

-- `handshakes` and `answers` are what the recvfrom calls of the two loops give.
unfoldable pub find_servers :
    (Bytes → Bool)
    → Option Bytes
    → Option Bytes
    → Bytes
    → List (Option Response)
    → List (Option Response)
    → Bytes
    → Result Found
find_servers inet_aton pre_ip pre_port file handshakes answers target_file =
    process_server_info inet_aton pre_ip pre_port file >>= λ read. elim read [
      | none ↦ ok (ended_with (codes "init server port error!"))
      | some a ↦ verify_address_available handshakes a >>= λ b. ask_servers answers target_file b
    ]

-- What main finds, when `up` are the servers that shake hands and `left` those from the first that
-- answers the question.
pub data Finds : List Address → List Address → Result Found → Type 0 where
  no_server :
      {r : Result Found} → r ≡ ok (ended_with (codes "no available server!")) → Finds [] [] r
  all_dead :
      {u : Address} {up : List Address} {r : Result Found}
      → r ≡ ok (ended_with (codes "Can not verify file exsitance. All servers are dead."))
      → Finds (u ∷ up) [] r
  some_left :
      {u v : Address} {up left : List Address} {r : Result Found} (b : ServerList)
      → r ≡ ok (servers_left b)
      → Holds b (v ∷ left)
      → Finds (u ∷ up) (v ∷ left) r

-- The addresses of the file, and those of them that shake hands.
abbrev pub listed_addresses : Bytes → Bytes → ServerInfo → List ServerInfo → List Address
listed_addresses pre_ip pre_port s ss = map address_of (listed pre_ip pre_port (s ∷ ss))
