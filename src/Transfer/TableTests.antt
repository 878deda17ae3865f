-- ===== src/Transfer/TableTests.antt =====
-- The theorems on the table of parts at concrete inputs.
use cmpe156_network_programm.Prelude.{
  zero, suc, fault, indeterminate, ◌-◌, ◌++◌, replicate, Option, none, if◌then◌else◌, ◌≡◌, ◌<◌,
  arith, refl, List, [], ◌∷◌, ok, some, ℤ, pos, negsuc, inl, length,
}
use cmpe156_network_programm.Libc.Str.{Bytes, str_eq, All, codes, no_nul-NoNul}
use cmpe156_network_programm.DynArray.Refine.{Holds}
use cmpe156_network_programm.Transfer.Jobs.{JobList}
use cmpe156_network_programm.Transfer.Ranges.{create_jobs_list, jobs_from, jobs_of, job_of}
use cmpe156_network_programm.Transfer.Table.{
  connect_from, connect_behind, valid_conn, thread_params,
}
use cmpe156_network_programm.Transfer.Table.Equal.{
  sockets_array, active_jobs, thread_params-create_jobs_list,
}
use cmpe156_network_programm.Transfer.Table.Whole.{HasRoom, IsSendableJob}
use cmpe156_network_programm.Transfer.Servers.{unwritten}
use cmpe156_network_programm.Libc.Number.{format_d}
use cmpe156_network_programm.Transfer.Session.{ClientPackage, serve}
use cmpe156_network_programm.Transfer.Serving.{serve_all, no_more, one_more, serve_all_exits}
use cmpe156_network_programm.Transfer.Tcp.{main_client, downloaded, dismissed, max_sock_size}
use cmpe156_network_programm.Transfer.Tcp.Run.{connected, main_client-whole, main_client_missing}

abbrev three_servers : List ℤ
three_servers = pos 4 ∷ negsuc 0 ∷ pos 5 ∷ []

abbrev two_tried : List ℤ
two_tried = pos 4 ∷ negsuc 0 ∷ pos 5 ∷ []

two_there : 0 < valid_conn two_tried
unfolding valid_conn
two_there = omega arith

thread_params-create_jobs_list_example :
    (jobs : JobList) × (create_jobs_list
        (valid_conn two_tried)
        (codes "f")
        (length (codes "hello world"))
      ≡ ok jobs)
    × Holds jobs (
        active_jobs (
          thread_params
            (sockets_array two_tried 1021)
            (codes "f")
            (length (codes "hello world"))
            (valid_conn two_tried)))
unfolding connect_from connect_behind
thread_params-create_jobs_list_example =
    thread_params-create_jobs_list unwritten three_servers two_tried 2 1021 (codes "hello world")
      (codes "f") (omega arith, (tt, (omega arith, tt))) refl two_there

abbrev hello_world : Bytes → Option Bytes
hello_world name = if str_eq name (codes "f") then some (codes "hello world") else none

tried_parts :
    All IsSendableJob (jobs_of (valid_conn two_tried) (codes "f") (length (codes "hello world")))
unfolding valid_conn jobs_from job_of
tried_parts = (inl (omega arith), (inl (omega arith), tt))

two_names : HasRoom 12 (valid_conn two_tried)
unfolding valid_conn format_d
two_names zero h = omega arith
two_names (suc zero) h = omega arith
two_names (suc (suc v)) h = absurd (omega arith)

main_client-whole_example :
    (main_client none
        (0 ∷ [])
        hello_world
        (codes "hello world")
        2
        unwritten
        three_servers
        (codes "f")
      ≡ fault indeterminate)
    × (main_client
          (some 12)
          (0 ∷ [])
          hello_world
          (codes "hello world")
          2
          unwritten
          three_servers
          (codes "f")
        ≡ ok (downloaded (some (codes "hello world"))))
unfolding str_eq connect_from connect_behind
main_client-whole_example =
    main_client-whole 12 (0 ∷ []) hello_world 2 unwritten three_servers two_tried (codes "f")
      (codes "hello world") refl (omega arith, (tt, (omega arith, tt))) two_there two_names
      (omega arith) refl (no_nul-NoNul (codes "hello world") refl) tried_parts

main_client_missing_example :
    main_client none [] hello_world (codes "hello world") 2 unwritten three_servers (codes "g")
    ≡ ok (dismissed (connected two_tried ++ replicate (max_sock_size - length two_tried) (pos 0)))
unfolding str_eq connect_from connect_behind
main_client_missing_example =
    main_client_missing none [] hello_world 2 unwritten three_servers two_tried (codes "g")
      (codes "hello world") refl two_there (omega arith) refl

abbrev request : Bytes → ClientPackage
request name = record { cmd = codes "DWN"; file_name = name; start_prt = pos 0; end_prt = pos 3 }

-- A connection that says nothing, one that asks for a file that is not there, and one more.
serve_all_exits_example :
    serve_all hello_world ([] ∷ (request (codes "g") ∷ []) ∷ [] ∷ []) ≡ ok ([] ∷ [] ∷ [])
unfolding serve str_eq
serve_all_exits_example =
    serve_all_exits hello_world (codes "g") 0 3 [] ([] ∷ []) ([] ∷ []) ([] ∷ []) refl
      (one_more refl no_more)
