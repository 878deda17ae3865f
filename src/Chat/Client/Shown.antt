-- ===== src/Chat/Client/Shown.antt =====
-- process_waiting_list on a reply that one read brings.
use cmpe156_network_programm.Prelude.{
  ℕ, zero, suc, ◌+◌, ◌-◌, ◌≡◌, ◌≤◌, ◌<◌, refl, ap, ◌∙◌, false, List, [], ◌∷◌, ◌++◌, append_assoc,
  arith, Option, none, some, Result, ok, fault, out_of_bounds, ◌>>=◌, load, length, replicate,
}
use cmpe156_network_programm.Prelude.{◌^◌}
use cmpe156_network_programm.Libc.Str.{Bytes, All, codes, str_eq, c_string, c_string-text}
use cmpe156_network_programm.Chat.Lists.{Client}
use cmpe156_network_programm.Chat.Lists.Print.{fields, list_reply}
use cmpe156_network_programm.Chat.Client.Replies.{
  collect_list, process_waiting_list, print_waiting, print_waiting_list,
}
use cmpe156_network_programm.Chat.Client.Listing.{
  numbered, HasName, list_reply-has_end, NoNul-list_reply, reply-ne, print_waiting_list-list_reply,
}

-- What the user sees of a list: the hint for nobody, or the numbered lines.
unfoldable pub shown : List Client → Option (List (ℕ × Bytes))
shown [] = none
shown (c ∷ cs) = some (numbered 1 (c ∷ cs))

reply_of_somebody :
    (c : Client) (cs : List Client) → HasName c → str_eq (list_reply (c ∷ cs)) (codes "l::") ≡ false
unfolding list_reply fields
reply_of_somebody c cs h =
    ap (λ f. str_eq (b'l' ∷ b':' ∷ f) (codes "l::"))
      (append_assoc c.client (b':' ∷ fields cs) (b':' ∷ []))
    ∙ reply-ne c.client (b':' ∷ (fields cs ++ b':' ∷ [])) h

collect_reply :
    (c : Client) (cs : List Client) (rest : List Bytes)
    → All HasName (c ∷ cs)
    → length (list_reply (c ∷ cs)) < 1024
    → collect_list (list_reply (c ∷ cs) ∷ rest) 0 [] ≡ ok (some (list_reply (c ∷ cs)))
unfolding collect_list
collect_reply c cs rest h f = ground (
  arith,
  c_string-text (list_reply (c ∷ cs)) [] (NoNul-list_reply (c ∷ cs) h),
  reply_of_somebody c cs h.0,
  list_reply-has_end c cs,
)

-- For clients with proper names and a reply below 1024 bytes that is read in one piece,
-- process_waiting_list shows the clients' names, numbered from 1, or the hint when nobody waits.
pub process_waiting_list-list_reply :
    (cs : List Client) (rest : List Bytes)
    → All HasName cs
    → length (list_reply cs) < 1024
    → process_waiting_list (list_reply cs ∷ rest) ≡ ok (shown cs)
unfolding process_waiting_list shown
process_waiting_list-list_reply [] rest h f =
    unfold list_reply fields collect_list c_string str_eq in refl
process_waiting_list-list_reply (c ∷ cs) rest h f = ground (
  arith,
  collect_reply c cs rest h f,
  print_waiting_list-list_reply (c ∷ cs) (1024 - 1 - length (list_reply (c ∷ cs))) h (omega arith),
)

-- When the first read returns 1024 bytes or more, process_waiting_list writes a NUL behind its
-- buffer.
pub process_waiting_list_overflow :
    (chunk : Bytes) (rest : List Bytes)
    → 1024 ≤ length chunk
    → process_waiting_list (chunk ∷ rest) ≡ fault out_of_bounds
unfolding process_waiting_list collect_list
process_waiting_list_overflow chunk rest h = ground arith

load-zeros : (n j : ℕ) → j < n → load {A = ℕ} (replicate n 0) j ≡ ok 0
load-zeros zero j h = elim h [ ]
load-zeros (suc n) zero h = refl
load-zeros (suc n) (suc j) h = load-zeros n j (omega arith)

load-zeros_past : (n j : ℕ) → n ≤ j → load {A = ℕ} (replicate n 0) j ≡ fault out_of_bounds
load-zeros_past zero j h = refl
load-zeros_past (suc n) zero h = absurd (omega arith)
load-zeros_past (suc n) (suc j) h = load-zeros_past n j (omega arith)

-- The loop on a zeroed block runs through it and out of it.
zeros_loop :
    (n k i j idx : ℕ)
    → n < j + k
    → j ≤ n
    → print_waiting k (replicate n 0) i j idx ≡ fault out_of_bounds
unfolding print_waiting
zeros_loop n zero i j idx h g = absurd (omega arith)
zeros_loop n (suc k) i j idx h g =
    ground (arith, load-zeros n j, load-zeros_past n j, zeros_loop n k i (j + 1) idx)

-- Without any reply, as after the receive timeout, the client leaves its empty list.
process_waiting_list_silent : process_waiting_list [] ≡ fault out_of_bounds
unfolding process_waiting_list collect_list print_waiting_list
process_waiting_list_silent =
    ap (λ (r : Result (List (ℕ × Bytes))). r >>= λ lines. ok (some lines))
      (zeros_loop 1024 (2 ^ 64 - 4) 2 3 1 (omega arith) (omega arith))
