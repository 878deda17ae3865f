-- ===== src/Chat/Server/Race.antt =====
-- The two halves of JOIN in pro/src/server.c: hasNameItem runs before client_names_lock is taken,
-- so other threads' steps fall between it and addNameItem.
use cmpe156_network_programm.Prelude.{
  ℕ, ◌≡◌, ◌≢◌, refl, ap, ◌∙◌, true, false, List, [], ◌∷◌, ◌++◌, arith, some, ok, ◌==◌,
  if◌then◌else◌,
}
use cmpe156_network_programm.Libc.Str.{Bytes}
use cmpe156_network_programm.DynArray.Refine.{Holds, add_item-Holds}
use cmpe156_network_programm.Chat.Lists.{NameList, has_name_item, add_name_item}
use cmpe156_network_programm.Chat.Lists.Names.{mem_name, has_name_item-mem_name}

-- Where a thread stands in its JOIN.
pub data Phase : Type 0 where
  reading joined rejected : Phase
  checked : Bytes → Phase

pub record Threads : Type 0 where
  pub names : NameList
  pub phase : ℕ → Phase

pub enter : (ℕ → Phase) → ℕ → Phase → ℕ → Phase
enter f i p j = if i == j then p else f j

-- One step of one thread: the check, on its two outcomes, and the locked section.
pub data Step (s t : Threads) : Type 0 where
  check :
      (i : ℕ) (n : Bytes)
      → s.phase i ≡ reading
      → has_name_item s.names (some n) ≡ ok false
      → t ≡ record s { phase = enter s.phase i (checked n) }
      → Step s t
  reject :
      (i : ℕ) (n : Bytes)
      → s.phase i ≡ reading
      → has_name_item s.names (some n) ≡ ok true
      → t ≡ record s { phase = enter s.phase i rejected }
      → Step s t
  add :
      (i : ℕ) (n : Bytes) (b : NameList)
      → s.phase i ≡ checked n
      → add_name_item s.names n ≡ ok b
      → t ≡ record { names = b; phase = enter s.phase i joined }
      → Step s t

pub data Reach (s : Threads) : Threads → Type 0 where
  here : Reach s s
  next : {t u : Threads} → Reach s t → Step t u → Reach s u

-- From any state in which a name is free and two threads are about to read a JOIN, steps of the
-- two threads lead to a state whose list holds the name twice at its end, and in which both
-- threads have confirmed it.
pub join_race :
    (s : Threads) (ns : List Bytes) (n : Bytes) (i j : ℕ)
    → Holds s.names ns
    → mem_name n ns ≡ false
    → s.phase i ≡ reading
    → s.phase j ≡ reading
    → i ≢ j
    → (t : Threads) × Reach s t
      × Holds t.names ((ns ++ n ∷ []) ++ n ∷ [])
      × (t.phase i ≡ joined)
      × (t.phase j ≡ joined)
unfolding enter add_name_item
join_race s ns n i j h free pi pj ne =
    let no_such : has_name_item s.names (some n) ≡ ok false =
      has_name_item-mem_name s.names n ns h ∙ ap ok free in
    let (b, eb, hb) = add_item-Holds s.names ns n h in
    let (c, ec, hc) = add_item-Holds b (ns ++ n ∷ []) n hb in
    let f1 = enter s.phase i (checked n) in
    let f2 = enter f1 j (checked n) in
    let f3 = enter f2 i joined in
    let f4 = enter f3 j joined in
    (
      record { names = c; phase = f4 },
      next
          (next
            (next (next here (check i n pi no_such refl)) (check j n (ground arith) no_such refl))
            (add i n b (ground arith) eb refl))
          (add j n c (ground arith) ec refl),
      hc,
      ground arith,
      ground arith,
    )
