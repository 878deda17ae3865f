-- ===== src/Chat/Server/Refine.antt =====
-- A whole message, and a whole connection, against the room's answers.
use cmpe156_network_programm.Prelude.{
  ℕ, ◌-◌, ◌≡◌, ◌≢◌, refl, inl, inr, List, [], ◌∷◌, ◌++◌, append_assoc, arith, ok, length, replicate,
  map, if◌then◌else◌, Bool-cases,
}
use cmpe156_network_programm.Libc.Str.{Bytes, str_eq}
use cmpe156_network_programm.Libc.Tok.{strtok-plain}
use cmpe156_network_programm.Libc.Number.{format_d}
use cmpe156_network_programm.Chat.Server.{Server, respond, dispatch, received, command_response}
use cmpe156_network_programm.Chat.Server.Room.{
  Room, Command, join, quit, list, leavewait, wait, connect, answer, text, IsProper, Stands, Gives,
}
use cmpe156_network_programm.Chat.Server.Parts.{
  on_join-Gives, on_quit-Gives, on_leavewait-Gives, on_wait-Gives, on_list-Gives, on_connect-Gives,
}

-- A command of one letter is dispatched with what stands behind its colon.
pub respond-dispatch :
    (s : Server) (ip rest : Bytes) (letter : ℕ)
    → letter ≢ 0
    → letter ≢ b':'
    → respond s ip (letter ∷ b':' ∷ rest) ≡ dispatch s ip (letter ∷ []) rest
unfolding respond
respond-dispatch s ip rest letter h k =
    ground (arith, strtok-plain b':' letter [] rest (omega arith) ((h, k), tt))

-- The server answers a proper command as the room does, whatever stands behind its NUL.
pub respond-answer :
    (s : Server) (r : Room) (ip more : Bytes) (c : Command)
    → Stands s r
    → IsProper r c
    → Gives (respond s ip (text c ++ 0 ∷ more)) (answer r ip c)
unfolding text dispatch str_eq
respond-answer s r ip more (join n) h p =
    rw
      (
        respond-dispatch s ip _ b'a' (omega arith) (omega arith),
        append_assoc n (b':' ∷ []) (0 ∷ more),
      )
      (on_join-Gives s r ip n (0 ∷ more) h p)
respond-answer s r ip more (quit n) h p =
    rw
      (
        respond-dispatch s ip _ b'q' (omega arith) (omega arith),
        append_assoc n (b':' ∷ []) (0 ∷ more),
      )
      (on_quit-Gives s r ip n (0 ∷ more) h p)
respond-answer s r ip more (list n) h p =
    rw (respond-dispatch s ip _ b'l' (omega arith) (omega arith)) (on_list-Gives s r ip n h p.1)
respond-answer s r ip more (leavewait n) h p =
    rw
      (
        respond-dispatch s ip _ b'r' (omega arith) (omega arith),
        append_assoc n (b':' ∷ []) (0 ∷ more),
      )
      (on_leavewait-Gives s r ip n (0 ∷ more) h p)
respond-answer s r ip more (wait n port) h p =
    rw
      (
        respond-dispatch s ip _ b'w' (omega arith) (omega arith),
        append_assoc n (b':' ∷ (format_d port ++ b':' ∷ [])) (0 ∷ more),
        append_assoc (format_d port) (b':' ∷ []) (0 ∷ more),
      )
      (on_wait-Gives s r ip n (0 ∷ more) port h p.0 p.1)
respond-answer s r ip more (connect n peer) h p =
    rw
      (
        respond-dispatch s ip _ b'c' (omega arith) (omega arith),
        append_assoc n (b':' ∷ (peer ++ b':' ∷ [])) (0 ∷ more),
        append_assoc peer (b':' ∷ []) (0 ∷ more),
      )
      (on_connect-Gives s r ip n peer (0 ∷ more) h p.0 p.1 p.2)

-- The answers to a connection's commands, up to the one that closes it.
unfoldable pub answers : Room → Bytes → List Command → Room × List Bytes
answers r ip [] = (r, [])
answers r ip (c ∷ cs) =
    let a = answer r ip c in
    let rest = answers a.room ip cs in
    if a.closed then (a.room, a.replies) else (rest.0, a.replies ++ rest.1)

-- Every command is proper in the room that it meets.
abbrev pub AllProper : Room → Bytes → List Command → Type 0
AllProper r ip [] = Unit
AllProper r ip (c ∷ cs) = IsProper r c × AllProper (answer r ip c).room ip cs

-- The command's text with its NUL, in a block of its own.
abbrev pub message : Command → Bytes
message c = text c ++ 0 ∷ []

-- For every list of proper commands, from a server that holds a room, the loop of
-- command_response runs without a fault, writes the replies that the abstract room gives, and
-- leaves a server that holds the room that is left.
pub command_response-answers :
    (cs : List Command) (s : Server) (r : Room) (ip : Bytes)
    → Stands s r
    → AllProper r ip cs
    → (s' : Server) × (command_response ip (map message cs) s ≡ ok (s', (answers r ip cs).1))
      × Stands s' (answers r ip cs).0
unfolding command_response answers
command_response-answers [] s r ip h p = (s, refl, h)
command_response-answers (c ∷ cs) s r ip h p =
    let more = replicate (1024 - length (message c)) 0 in
    let (s1, e, h1) = respond-answer s r ip more c h p.0 in
    let received_text : received (message c) ≡ text c ++ 0 ∷ more =
      append_assoc (text c) (0 ∷ []) more in
    let (s2, e2, h2) = command_response-answers cs s1 (answer r ip c).room ip h1 p.1 in
    elim (Bool-cases (answer r ip c).closed) [
      | inl shut ↦ (s1, ground (arith, received_text, e, shut), rw shut h1)
      | inr open_still ↦ (s2, ground (arith, received_text, e, open_still, e2), rw open_still h2)
    ]
