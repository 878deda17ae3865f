-- ===== src/Transfer/Udp/Reply.antt =====
-- What the client of HW4/client.c reads when it asks for a file.
use cmpe156_network_programm.Prelude.{
  ◌≡◌, sym, Option, some, none, length, ap, ok, ◌∙◌, pos, negsuc,
}
use cmpe156_network_programm.Libc.Str.{Bytes, codes}
use cmpe156_network_programm.Transfer.Requests.{
  ServerReply, answered, exists_request, handle_request,
}
use cmpe156_network_programm.Transfer.Requests.Served.{
  IsName, exists, print_request, promised, handle_request-promised,
}

-- The reply to the question for a file.
abbrev pub exists_reply : Bytes → Option Bytes → ServerReply
exists_reply name found = elim found [
  | some file ↦ record {
    cmd = codes "CHK";
    have_file_flag = pos 1;
    file_length = length file;
    file_content = name;
  }
  | none ↦ record {
    cmd = codes "CHK";
    have_file_flag = negsuc 0;
    file_length = 0;
    file_content = name;
  }
]

-- The reply that the client reads.
pub reply-exists :
    (files : Bytes → Option Bytes) (name block : Bytes) (reply : ServerReply)
    → IsName name
    → exists_request name ≡ ok block
    → handle_request files block ≡ ok (answered reply)
    → reply ≡ exists_reply name (files name)
unfolding promised print_request
reply-exists files name block reply v made handled =
    let (block', made', handled') = handle_request-promised files (exists name) v in
    let same : block' ≡ block = cc in
    let both : ok (answered (exists_reply name (files name))) ≡ ok (answered reply) =
      sym handled' ∙ ap (handle_request files) same ∙ handled in
    cc
