-- ===== src/Transfer/Udp/Missing.antt =====
-- A download of HW4/client.c of a file that the server does not have.
use cmpe156_network_programm.Prelude.{ℕ, ◌≡◌, ◌<◌, ap, ◌∙◌, Option, none, some, ok, replicate}
use cmpe156_network_programm.Libc.Str.{Bytes}
use cmpe156_network_programm.DynArray.Refine.{Holds}
use cmpe156_network_programm.Transfer.Ranges.{jobs_of}
use cmpe156_network_programm.Transfer.Pool.{ServerList, starting}
use cmpe156_network_programm.Transfer.Pool.Interleave.{Threads}
use cmpe156_network_programm.Transfer.Requests.{
  ServerReply, answered, exists_request, handle_request,
}
use cmpe156_network_programm.Transfer.Requests.Served.{IsName}
use cmpe156_network_programm.Transfer.Udp.{start_download}
use cmpe156_network_programm.Transfer.Udp.Reply.{exists_reply, reply-exists}
use cmpe156_network_programm.Transfer.Udp.Started.{started, start_download-exists}

-- When no server has the file and the count of parts is positive, the client, on the server's
-- reply to its question, starts a download all the same, with a job for each part of a file of 0
-- bytes.
pub start_download_missing :
    (files : Bytes → Option Bytes) (n : ℕ) (name block : Bytes) (reply : ServerReply)
    (servers : ServerList)
    → files name ≡ none
    → IsName name
    → 0 < n
    → exists_request name ≡ ok block
    → handle_request files block ≡ ok (answered reply)
    → (start : Threads) × (start_download n name reply servers ≡ ok (some start))
      × Holds start.pool.chunk_jobs (jobs_of n name 0)
start_download_missing files n name block reply servers lacks named positive made handled =
    let told : reply ≡ exists_reply name none =
      reply-exists files name block reply named made handled ∙ ap (exists_reply name) lacks in
    let (jobs, k, first, hj, size) = start_download-exists n name none servers positive in
    (
      started n servers jobs (replicate k starting),
      ap (λ r. start_download n name r servers) told ∙ first,
      hj,
    )
