-- ===== src/Transfer/Pool/Known.antt =====
-- Properties of every job of a list, as the lists of the pool grow and shrink.
use mathlib.Core.List.{Memᴰ}
use cmpe156_network_programm.Prelude.{refl, List, [], ◌∷◌, ◌++◌}
use cmpe156_network_programm.Libc.Str.{All}
use cmpe156_network_programm.Transfer.Jobs.{Job}

module _ {ℓ} (P : Job → Type ℓ) where
  pub All-join : (xs ys : List Job) → All P xs → All P ys → All P (xs ++ ys)
  All-join [] ys h k = k
  All-join (x ∷ xs) ys h k = (h.0, All-join xs ys h.1 k)

  pub All-parts : (xs ys : List Job) → All P (xs ++ ys) → All P xs × All P ys
  All-parts [] ys h = (tt, h)
  All-parts (x ∷ xs) ys h = let (front, back) = All-parts xs ys h.1 in ((h.0, front), back)

-- A job of the list.
abbrev pub IsOf : List Job → Job → Type 0
IsOf all j = Memᴰ j all

IsOf-further : (k : Job) (all js : List Job) → All (IsOf all) js → All (IsOf (k ∷ all)) js
IsOf-further k all [] h = tt
IsOf-further k all (j ∷ js) h = (Memᴰ.tail h.0, IsOf-further k all js h.1)

pub All-IsOf : (all : List Job) → All (IsOf all) all
All-IsOf [] = tt
All-IsOf (j ∷ all) = (Memᴰ.head refl, IsOf-further j all all (All-IsOf all))
