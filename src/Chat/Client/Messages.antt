-- ===== src/Chat/Client/Messages.antt =====
-- What __peer_receive__ of pro/src/client.c shows of the messages that send_msg_to_peer writes.
use cmpe156_network_programm.Prelude.{
  ℕ, ℤ, true, false, ◌≢◌, zero, suc, ◌-◌, ◌≡◌, ◌<◌, refl, ap, ◌∙◌, List, [], ◌∷◌, ◌++◌, arith,
  Option, none, some, Result, ok, fault, indeterminate, out_of_bounds, ◌>>=◌, length, length-append,
  replicate, ◌==◌, if◌then◌else◌, drop, map, lt→ltb,
}
use cmpe156_network_programm.Libc.Str.{Bytes, NoNul, c_string-text}
use cmpe156_network_programm.Chat.Protocol.{sprintf, buffer_size}
use cmpe156_network_programm.Chat.Client.Input.{write_peer, is_open, send_msg_to_peer}

-- The bytes of `buf`, each written or not.
abbrev pub Memory : Type 0
Memory = List (Option ℕ)

-- read puts what arrives at the start.
unfoldable pub read_into : Memory → Bytes → Memory
read_into buf arrived = map (λ c. some c) arrived ++ drop (length arrived) buf

-- The conversion %s of memory.
unfoldable pub text_at : Memory → Result Bytes
text_at [] = fault out_of_bounds
text_at (none ∷ m) = fault indeterminate
text_at (some c ∷ m) = let rest = text_at m in if c == 0 then ok [] else (rest >>= λ t. ok (c ∷ t))

-- The loop over what each read gives, up to the one that gives nothing: what is shown.
unfoldable pub peer_receive : Memory → List Bytes → Result (List Bytes)
peer_receive buf [] = ok []
peer_receive buf ([] ∷ reads) = ok []
peer_receive buf ((c ∷ cs) ∷ reads) =
    let now = read_into buf (c ∷ cs) in
    let rest = peer_receive now reads in text_at now >>= λ shown. rest >>= λ more. ok (shown ∷ more)

-- `buf` at the start of the thread: nothing has been written into it.
abbrev pub fresh : Memory
fresh = replicate buffer_size none

-- The thread on what its reads give.
unfoldable pub peer_thread : List Bytes → Result (List Bytes)
peer_thread reads = peer_receive fresh reads

text_at_fault :
    (t : Bytes) (m : Memory)
    → NoNul t
    → text_at m ≡ fault indeterminate
    → text_at (map (λ c. some c) t ++ m) ≡ fault indeterminate
unfolding text_at
text_at_fault [] m h e = e
text_at_fault (c ∷ t) m h e =
    let digit : (c == 0) ≡ false = ground arith in rw (digit, text_at_fault t m h.1 e) refl

drop-replicate :
    (k n : ℕ) → k < n → drop k (replicate {A = Option ℕ} n none) ≡ none ∷ replicate (n - k - 1) none
drop-replicate zero zero h = absurd (omega arith)
drop-replicate zero (suc n) h = ap (λ j. none ∷ replicate j none) (omega arith)
drop-replicate (suc k) zero h = absurd (omega arith)
drop-replicate (suc k) (suc n) h =
    drop-replicate k n (omega arith) ∙ ap (λ j. none ∷ replicate j none) (omega arith)

-- A message without a NUL that leaves room is read together with what was never written.
text_at-fresh :
    (t : Bytes) → NoNul t → length t < 1024 → text_at (read_into fresh t) ≡ fault indeterminate
unfolding read_into text_at
text_at-fresh t h f =
    rw (drop-replicate (length t) 1024 f)
      (text_at_fault t (none ∷ replicate (1024 - length t - 1) none) h refl)

peer_receive-fresh :
    (t : Bytes) (reads : List Bytes)
    → t ≢ []
    → NoNul t
    → length t < 1024
    → peer_receive fresh (t ∷ reads) ≡ fault indeterminate
unfolding peer_receive
peer_receive-fresh [] reads e h f = absurd (e refl)
peer_receive-fresh (c ∷ cs) reads e h f = rw (text_at-fresh (c ∷ cs) h f) refl

-- The text that goes to the peer.
abbrev pub peer_text : Bytes → Bytes → Bytes
peer_text my_name msg = my_name ++ b':' ∷ b' ' ∷ (msg ++ 10 ∷ [])

send_msg_to_peer-text :
    (peer_fd : ℤ) (my_name msg : Bytes)
    → is_open peer_fd ≡ true
    → NoNul (peer_text my_name msg)
    → length (peer_text my_name msg) < 1024
    → send_msg_to_peer peer_fd msg my_name ≡ ok (write_peer (peer_text my_name msg) ∷ [])
unfolding send_msg_to_peer sprintf
send_msg_to_peer-text peer_fd my_name msg opened h f =
    let t = peer_text my_name msg in
    let spare : 1024 - length t ≡ suc (1023 - length t) = omega arith in
    rw (lt→ltb (length t) 1024 f, spare, c_string-text t (replicate (1023 - length t) 0) h, opened)
      refl

-- For a name and a message without NUL bytes whose text is below 1024 bytes, send_msg_to_peer,
-- on a descriptor above 0, writes the text without a NUL, and the peer's thread, on it as the
-- first that it reads, reads memory that was never written.
pub peer_receive-send_msg_to_peer :
    (peer_fd : ℤ) (my_name msg : Bytes) (reads : List Bytes)
    → is_open peer_fd ≡ true
    → NoNul (peer_text my_name msg)
    → length (peer_text my_name msg) < 1024
    → (text : Bytes) × (send_msg_to_peer peer_fd msg my_name ≡ ok (write_peer text ∷ []))
      × (peer_thread (text ∷ reads) ≡ fault indeterminate)
unfolding peer_thread
peer_receive-send_msg_to_peer peer_fd my_name msg reads opened h f = (
  peer_text my_name msg,
  send_msg_to_peer-text peer_fd my_name msg opened h f,
  peer_receive-fresh (peer_text my_name msg) reads
      (λ e.
        absurd (omega (arith, ap length e, length-append my_name (b':' ∷ b' ' ∷ (msg ++ 10 ∷ [])))))
      h f,
)
