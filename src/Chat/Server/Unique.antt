-- ===== src/Chat/Server/Unique.antt =====
-- Distinctness of the names in use.
use cmpe156_network_programm.Prelude.{
  ◌≡◌, refl, inl, inr, false, List, [], ◌∷◌, ◌++◌, arith, ok, map, Bool-cases, Option-cases,
}
use cmpe156_network_programm.Libc.Str.{Bytes, str_eq, str_eq_iff}
use cmpe156_network_programm.Chat.Lists.Find.{take_client}
use cmpe156_network_programm.Chat.Lists.Names.{mem_name, remove_last}
use cmpe156_network_programm.Chat.Server.{Server, command_response}
use cmpe156_network_programm.Chat.Server.Room.{
  Room, Stands, Command, join, quit, list, leavewait, wait, connect, answer,
}
use cmpe156_network_programm.Chat.Server.Refine.{
  answers, AllProper, message, command_response-answers,
}

abbrev pub Distinct : List Bytes → Type 0
Distinct [] = Unit
Distinct (x ∷ xs) = (mem_name x xs ≡ false) × Distinct xs

mem_name-remove_last :
    (x n : Bytes) (xs : List Bytes) → mem_name x xs ≡ false → mem_name x (remove_last n xs) ≡ false
unfolding mem_name remove_last
mem_name-remove_last x n [] h = refl
mem_name-remove_last x n (y ∷ xs) h = ground (arith, mem_name-remove_last x n xs)

remove_last-Distinct : (n : Bytes) (xs : List Bytes) → Distinct xs → Distinct (remove_last n xs)
unfolding remove_last
remove_last-Distinct n [] h = tt
remove_last-Distinct n (x ∷ xs) h =
    ground (arith, remove_last-Distinct n xs h.1, mem_name-remove_last x n xs h.0)

mem_name-append :
    (x n : Bytes) (xs : List Bytes)
    → mem_name x xs ≡ false
    → str_eq x n ≡ false
    → mem_name x (xs ++ n ∷ []) ≡ false
unfolding mem_name
mem_name-append x n [] h k = ground arith
mem_name-append x n (y ∷ xs) h k = ground (arith, mem_name-append x n xs)

append-Distinct :
    (n : Bytes) (xs : List Bytes) → mem_name n xs ≡ false → Distinct xs → Distinct (xs ++ n ∷ [])
unfolding mem_name
append-Distinct n [] h d = (refl, tt)
append-Distinct n (x ∷ xs) h d =
    ground (arith, append-Distinct n xs, mem_name-append x n xs d.0, str_eq_iff x n, str_eq_iff n x)

-- Every answer keeps the names distinct: JOIN turns away a name in use, and nothing else adds one.
pub answer-Distinct :
    (r : Room) (ip : Bytes) (c : Command) → Distinct r.names → Distinct (answer r ip c).room.names
unfolding answer
answer-Distinct r ip (join n) d = elim (Bool-cases (mem_name n r.names)) [
  | inl taken ↦ rw taken d
  | inr free ↦ rw free (append-Distinct n r.names free d)
]
answer-Distinct r ip (quit n) d = remove_last-Distinct n r.names d
answer-Distinct r ip (list n) d = d
answer-Distinct r ip (leavewait n) d = d
answer-Distinct r ip (wait n port) d = d
answer-Distinct r ip (connect n peer) d = elim (Option-cases (take_client peer r.waiting)) [
  | inl gone ↦ rw (gone, answer) d
  | inr (p, e) ↦ rw (e, answer) d
]

-- So do the messages of a whole connection.
pub answers-Distinct :
    (cs : List Command) (r : Room) (ip : Bytes)
    → Distinct r.names
    → Distinct (answers r ip cs).0.names
unfolding answers
answers-Distinct [] r ip d = d
answers-Distinct (c ∷ cs) r ip d = ground (
  arith,
  answer-Distinct r ip c d,
  answers-Distinct cs (answer r ip c).room ip (answer-Distinct r ip c d),
)

-- A connection that sends proper commands and is served alone from a server whose names are
-- distinct is served without a fault and leaves a server whose names are distinct.
pub command_response-Distinct :
    (cs : List Command) (s : Server) (r : Room) (ip : Bytes)
    → Stands s r
    → Distinct r.names
    → AllProper r ip cs
    → (s' : Server) × (r' : Room) × (out : List Bytes) × (command_response ip (map message cs) s
        ≡ ok (s', out))
      × Stands s' r'
      × Distinct r'.names
command_response-Distinct cs s r ip h d p =
    let (s', e, h') = command_response-answers cs s r ip h p in
    (s', (answers r ip cs).0, (answers r ip cs).1, e, h', answers-Distinct cs r ip d)
