-- ===== src/Chat/Client/Listing.antt =====
-- The names of a list reply, as the client reads them.
use cmpe156_network_programm.Prelude.{
  ℕ, zero, suc, ◌+◌, ◌-◌, ◌≡◌, ◌≢◌, ◌<◌, refl, sym, ap, ◌∙◌, true, false, List, [], ◌∷◌, ◌++◌,
  append_assoc, append-nil, arith, ok, load, length, length-append, replicate, lt→ltb,
}
use cmpe156_network_programm.Prelude.{take, drop, ◌^◌}
use cmpe156_network_programm.Libc.Str.{Bytes, All, codes, str_eq, NoNul, NoNul-append}
use cmpe156_network_programm.Libc.Tok.{IsPlain}
use cmpe156_network_programm.DynArray.Cells.{load-append}
use cmpe156_network_programm.Chat.Lists.{Client}
use cmpe156_network_programm.Chat.Lists.Print.{fields, list_reply, length-fields}
use cmpe156_network_programm.Chat.Server.Room.{IsName}
use cmpe156_network_programm.Chat.Client.Replies.{
  copy_name, print_waiting, print_waiting_list, has_end,
}
use cmpe156_network_programm.Chat.Client.Peer.{NoNul-plain}

-- The lines that a list of clients makes, from a number on.
unfoldable pub numbered : ℕ → List Client → List (ℕ × Bytes)
numbered idx [] = []
numbered idx (c ∷ cs) = (idx, c.client) ∷ numbered (idx + 1) cs

abbrev pub HasName : Client → Type 0
HasName c = IsName c.client

take-drop-append :
    (q part s : Bytes) → take (length part) (drop (length q) (q ++ (part ++ s))) ≡ part
take-drop-append [] [] s = refl
take-drop-append [] (c ∷ part) s = ap (λ l. c ∷ l) (take-drop-append [] part s)
take-drop-append (x ∷ q) part s = take-drop-append q part s

-- One round on a byte of a name, and one on the colon behind it.
round_longer :
    (k : ℕ) (m : Bytes) (i j idx c : ℕ)
    → load m j ≡ ok c
    → c ≢ b':'
    → print_waiting (suc k) m i j idx ≡ print_waiting k m i (j + 1) idx
unfolding print_waiting
round_longer k m i j idx c h ne = ground (arith, h)

round_ended :
    (k : ℕ) (m : Bytes) (i j idx : ℕ) (name : Bytes) (lines : List (ℕ × Bytes))
    → load m j ≡ ok b':'
    → copy_name m i (j - i) ≡ ok name
    → print_waiting k m (j + 1) (j + 1) (idx + 1) ≡ ok lines
    → print_waiting (suc k) m i j idx ≡ ok ((idx, name) ∷ lines)
unfolding print_waiting
round_ended k m i j idx name lines h e f = ground (arith, h, e, f)

copy_part :
    (q part s : Bytes) (n : ℕ)
    → n ≡ length part
    → length part < 16
    → copy_name (q ++ (part ++ s)) (length q) n ≡ ok part
unfolding copy_name
copy_part q part s n e h = rw (e, lt→ltb _ _ h, take-drop-append q part s) refl

print_waiting_end : (m : Bytes) (j idx : ℕ) → print_waiting 0 m j j idx ≡ ok []
unfolding print_waiting
print_waiting_end m j idx = refl

-- The text from the next name on, when a name has ended.
fields_behind :
    (c : Client) (cs : List Client) (q part tail m : Bytes)
    → m ≡ q ++ (part ++ b':' ∷ (fields (c ∷ cs) ++ tail))
    → m ≡ (q ++ (part ++ b':' ∷ [])) ++ (c.client ++ b':' ∷ (fields cs ++ tail))
unfolding fields
fields_behind c cs q part tail m em = em ∙ simp append_assoc

-- The byte behind the part of a name that is passed.
load_here :
    (q part m s : Bytes) (y j : ℕ)
    → m ≡ q ++ (part ++ y ∷ s)
    → j ≡ length q + length part
    → load m j ≡ ok y
load_here q part m s y j em ej =
    rw (em, ← append_assoc q part (y ∷ s))
      (load-append (q ++ part) y s j (omega (arith, length-append q part)))

-- The loop inside a name: `part` of it is passed, `rest` and the other fields are to come.
print_waiting-numbered :
    (cs : List Client) (rest q part tail m : Bytes) (i j k idx : ℕ)
    → m ≡ q ++ (part ++ (rest ++ b':' ∷ (fields cs ++ tail)))
    → i ≡ length q
    → j ≡ length q + length part
    → k ≡ length rest + 1 + length (fields cs)
    → All (IsPlain b':') rest
    → length part + length rest < 16
    → All HasName cs
    → print_waiting k m i j idx ≡ ok ((idx, part ++ rest) ∷ numbered (idx + 1) cs)
unfolding numbered
print_waiting-numbered cs rest q part tail m i j zero idx em ei ej ek plain fits names =
    absurd (omega arith)
print_waiting-numbered [] [] q part tail m i j (suc k) idx em ei ej ek plain fits names =
    let last : print_waiting k m (j + 1) (j + 1) (idx + 1) ≡ ok [] =
      unfold fields in
      let e : k ≡ 0 = omega arith in rw e (print_waiting_end m (j + 1) (idx + 1)) in
    let name : copy_name m i (j - i) ≡ ok part =
      rw (em, ei) (copy_part q part _ (j - length q) (omega arith) (omega arith)) in
    rw append-nil (round_ended k m i j idx part [] (load_here q part m _ b':' j em ej) name last)
print_waiting-numbered (c ∷ cs) [] q part tail m i j (suc k) idx em ei ej ek plain fits names =
    let name : copy_name m i (j - i) ≡ ok part =
      rw (em, ei) (copy_part q part _ (j - length q) (omega arith) (omega arith)) in
    let shape = fields_behind c cs q part tail m em in
    let later =
      print_waiting-numbered cs c.client (q ++ (part ++ b':' ∷ [])) [] tail m (j + 1) (j + 1) k
        (idx + 1) shape
        (omega (arith, length-append q (part ++ b':' ∷ []), length-append part (b':' ∷ [])))
        (omega (arith, length-append q (part ++ b':' ∷ []), length-append part (b':' ∷ [])))
        (omega (arith, length-fields c cs)) names.0.1 (omega arith) names.1 in
    rw append-nil (round_ended k m i j idx part _ (load_here q part m _ b':' j em ej) name later)
print_waiting-numbered cs (x ∷ rest) q part tail m i j (suc k) idx em ei ej ek plain fits names =
    let later =
      print_waiting-numbered cs rest q (part ++ x ∷ []) tail m i (j + 1) k idx
        (rw (append_assoc part (x ∷ []) (rest ++ b':' ∷ (fields cs ++ tail))) em) ei
        (omega (arith, length-append part (x ∷ []))) (omega arith) plain.1
        (omega (arith, length-append part (x ∷ []))) names in
    round_longer k m i j idx x (load_here q part m _ x j em ej) plain.0.1
    ∙ (rw (append_assoc part (x ∷ []) rest) at later)

-- A reply with a client in it, its first name apart.
reply_shape :
    (x : ℕ) (t : Bytes) (c : Client) (cs : List Client) (zeros : Bytes)
    → x ∷ t ≡ c.client
    → list_reply (c ∷ cs) ++ zeros
      ≡ codes "l:" ++ ((x ∷ []) ++ (t ++ b':' ∷ (fields cs ++ b':' ∷ zeros)))
unfolding list_reply fields
reply_shape x t c cs zeros e = rw (← e) (simp append_assoc)

-- The loop over a whole reply.
print_waiting_reply :
    (n : Bytes) (c : Client) (cs : List Client) (zeros : Bytes) (k : ℕ)
    → n ≡ c.client
    → IsName n
    → All HasName cs
    → k + 1 ≡ length n + 1 + length (fields cs)
    → print_waiting k (list_reply (c ∷ cs) ++ zeros) 2 3 1 ≡ ok (numbered 1 (c ∷ cs))
print_waiting_reply [] c cs zeros k e name names h = absurd (name.0 refl)
print_waiting_reply (x ∷ t) c cs zeros k e name names h =
    let scan =
      print_waiting-numbered cs t (codes "l:") (x ∷ []) (b':' ∷ zeros)
        (list_reply (c ∷ cs) ++ zeros) 2 3 k 1 (reply_shape x t c cs zeros e) refl refl
        (omega arith) name.1.1 (omega arith) names in
    scan ∙ ap (λ n. ok ((1, n) ∷ numbered 2 cs)) e ∙ unfold numbered in refl

-- The client shows each waiting client of the reply once, in order, numbered from 1.
pub print_waiting_list-list_reply :
    (cs : List Client) (spare : ℕ)
    → All HasName cs
    → length (list_reply cs) < 2 ^ 64
    → print_waiting_list (list_reply cs) spare ≡ ok (numbered 1 cs)
unfolding print_waiting_list
print_waiting_list-list_reply [] spare names h =
    unfold list_reply fields numbered print_waiting in refl
print_waiting_list-list_reply (c ∷ cs) spare names h =
    let size = length-append (fields (c ∷ cs)) (b':' ∷ []) in
    print_waiting_reply c.client c cs (replicate (suc spare) 0) _ refl names.0 names.1
      (unfold list_reply in omega (arith, size, length-fields c cs))

pub has_end-append : (s : Bytes) → has_end (s ++ b':' ∷ b':' ∷ []) ≡ true
unfolding has_end
has_end-append [] = refl
has_end-append (c ∷ s) = ground (arith, has_end-append s)

-- The fields of somebody end in a colon.
fields-ends : (c : Client) (cs : List Client) → (t : Bytes) × (fields (c ∷ cs) ≡ t ++ b':' ∷ [])
unfolding fields
fields-ends c [] = (c.client, refl)
fields-ends c (d ∷ cs) =
    let (t, e) = fields-ends d cs in
    (c.client ++ b':' ∷ t, rw e (sym (append_assoc c.client (b':' ∷ t) (b':' ∷ []))))

pub list_reply-has_end : (c : Client) (cs : List Client) → has_end (list_reply (c ∷ cs)) ≡ true
unfolding list_reply
list_reply-has_end c cs =
    let (t, e) = fields-ends c cs in
    ap (λ f. has_end (b'l' ∷ b':' ∷ (f ++ b':' ∷ []))) e
    ∙ ap (λ f. has_end (b'l' ∷ b':' ∷ f)) (append_assoc t (b':' ∷ []) (b':' ∷ []))
    ∙ has_end-append (b'l' ∷ b':' ∷ t)

NoNul-fields : (cs : List Client) → All HasName cs → NoNul (fields cs)
unfolding fields
NoNul-fields [] h = tt
NoNul-fields (c ∷ cs) h =
    NoNul-append c.client (b':' ∷ fields cs) (NoNul-plain b':' c.client h.0.1)
      (omega arith, NoNul-fields cs h.1)

pub NoNul-list_reply : (cs : List Client) → All HasName cs → NoNul (list_reply cs)
unfolding list_reply
NoNul-list_reply cs h = (
  omega arith,
  (omega arith, NoNul-append (fields cs) (b':' ∷ []) (NoNul-fields cs h) (omega arith, tt)),
)

-- The reply of somebody waiting is not the text for nobody.
pub reply-ne : (n s : Bytes) → IsName n → str_eq (b'l' ∷ b':' ∷ (n ++ s)) (codes "l::") ≡ false
unfolding str_eq
reply-ne [] s h = absurd (h.0 refl)
reply-ne (x ∷ n) s h = ground arith
