-- ===== src/Chat/Wire.antt =====
-- The blocks of pro/src/myprotocol.c on their way to the server.
use cmpe156_network_programm.Prelude.{
  ℕ, ◌+◌, ◌-◌, ◌≡◌, ◌<◌, refl, [], ◌∷◌, ◌++◌, append_assoc, arith, Result, ok, fault, null_pointer,
  ◌>>=◌, length, length-append, replicate, lt→ltb,
}
use cmpe156_network_programm.Libc.Str.{Bytes, str_eq, strcpy, strcpy_fits}
use cmpe156_network_programm.Libc.Tok.{strtok-skip, strtok_at_end}
use cmpe156_network_programm.Libc.Number.{format_d}
use cmpe156_network_programm.Chat.Lists.Names.{has_name_item_null}
use cmpe156_network_programm.Chat.Protocol.{
  sprintf, format_join_cmd, format_quit_cmd, format_list_cmd, format_leavewait_cmd, format_wait_cmd,
  format_connect_cmd,
}
use cmpe156_network_programm.Chat.Server.{Server, respond, received, on_join, dispatch}
use cmpe156_network_programm.Chat.Server.Room.{
  Room, Command, join, quit, list, leavewait, wait, connect, text, IsProper, Gives, answer, Stands,
}
use cmpe156_network_programm.Chat.Server.Refine.{message, respond-answer, respond-dispatch}

-- Which function writes which command.
unfoldable pub format : Command → Result (Bytes × ℕ)
format (join n) = format_join_cmd n
format (quit n) = format_quit_cmd n
format (list n) = format_list_cmd n
format (leavewait n) = format_leavewait_cmd n
format (wait n port) = format_wait_cmd n port
format (connect n peer) = format_connect_cmd n peer

-- A port that goes into `port_s`, eight bytes with the NUL.
abbrev pub HasShortPort : Command → Type 0
HasShortPort (wait n port) = length (format_d port) < 8
HasShortPort (join n) = Unit
HasShortPort (quit n) = Unit
HasShortPort (list n) = Unit
HasShortPort (leavewait n) = Unit
HasShortPort (connect n peer) = Unit

sprintf_exact : (size : ℕ) (t : Bytes) → size ≡ length t + 1 → sprintf size t ≡ ok (t ++ 0 ∷ [])
unfolding sprintf
sprintf_exact size t h =
    let one : size - length t ≡ 1 = omega arith in
    rw (lt→ltb (length t) size (omega arith), one) refl

length-named : (letter : ℕ) (n : Bytes) → length (letter ∷ b':' ∷ (n ++ b':' ∷ [])) ≡ length n + 3
length-named letter n = omega (arith, length-append n (b':' ∷ []))

length-pair :
    (letter : ℕ) (n m : Bytes)
    → length (letter ∷ b':' ∷ (n ++ b':' ∷ (m ++ b':' ∷ []))) ≡ length n + length m + 4
length-pair letter n m =
    omega (arith, length-append n (b':' ∷ (m ++ b':' ∷ [])), length-append m (b':' ∷ []))

block :
    (size : ℕ) (t : Bytes)
    → size ≡ length t + 1
    → ◌>>=◌ {B = Bytes × ℕ} (sprintf size t) (λ buf. ok (buf, size))
      ≡ ok (t ++ 0 ∷ [], length (t ++ 0 ∷ []))
block size t h = rw (sprintf_exact size t h) (ground (arith, length-append t (0 ∷ [])))

-- Each function gives the block of its command, one NUL behind the text, and the block's size.
pub format-message : (c : Command) → HasShortPort c → format c ≡ ok (message c, length (message c))
unfolding format text format_join_cmd format_quit_cmd format_list_cmd format_leavewait_cmd
    format_wait_cmd format_connect_cmd
format-message (join n) h = block _ _ (omega (arith, length-named b'a' n))
format-message (quit n) h = block _ _ (omega (arith, length-named b'q' n))
format-message (list n) h = block _ _ (omega (arith, length-named b'l' n))
format-message (leavewait n) h = block _ _ (omega (arith, length-named b'r' n))
format-message (wait n port) h =
    rw (strcpy_fits 8 (format_d port) h)
      (block _ _ (omega (arith, length-pair b'w' n (format_d port))))
format-message (connect n peer) h = block _ _ (omega (arith, length-pair b'c' n peer))

-- For a proper command whose port fits, the client's format function makes a block, and the
-- server, on reading that block, does to its lists and writes what the abstract room answers to
-- the command.
pub respond-format :
    (s : Server) (r : Room) (ip : Bytes) (c : Command)
    → Stands s r
    → IsProper r c
    → HasShortPort c
    → (buf : Bytes) × (format c ≡ ok (buf, length buf))
      × Gives (respond s ip (received buf)) (answer r ip c)
respond-format s r ip c h p q =
    let more = replicate (1024 - length (message c)) 0 in
    let whole : received (message c) ≡ text c ++ 0 ∷ more = append_assoc (text c) (0 ∷ []) more in
    (message c, format-message c q, rw whole (respond-answer s r ip more c h p))

on_join_empty :
    (s : Server) (r : Room) (more : Bytes)
    → Stands s r
    → on_join s (b':' ∷ 0 ∷ more) ≡ fault null_pointer
unfolding on_join strcpy
on_join_empty s r more h =
    rw (strtok-skip b':' (0 ∷ more) (omega arith), strtok_at_end (b':' ∷ []) more)
      (ground (arith, has_name_item_null s.client_names r.names h.names))

-- An empty name is formatted into a JOIN that makes the server read through NULL, whatever room
-- it holds.
pub join_empty_faults :
    (s : Server) (r : Room) (ip : Bytes)
    → Stands s r
    → (buf : Bytes) × (format (join []) ≡ ok (buf, length buf))
      × (respond s ip (received buf) ≡ fault null_pointer)
unfolding text dispatch str_eq
join_empty_faults s r ip h = (
  message (join []),
  format-message (join []) tt,
  rw (respond-dispatch s ip _ b'a' (omega arith) (omega arith)) (on_join_empty s r _ h),
)
