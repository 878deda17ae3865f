-- ===== src/Remote/Tests.antt =====
-- The theorem on the remote executer at a concrete input.
use cmpe156_network_programm.Prelude.{◌≡◌, refl, arith, [], ◌∷◌, ◌++◌, some, ok}
use cmpe156_network_programm.Libc.Str.{Bytes, codes, no_nul-NoNul}
use cmpe156_network_programm.Remote.{session}
use cmpe156_network_programm.Remote.Output.{IsCommand, promised, session-promised}

abbrev greeting : Bytes → Bytes
greeting c = codes "hello" ++ 10 ∷ codes "you"

ls-IsCommand : IsCommand greeting (codes "ls")
ls-IsCommand = record {
  there = λ e. cc;
  plain = no_nul-NoNul (codes "ls") refl;
  fits = omega arith;
  prints = no_nul-NoNul (greeting (codes "ls")) refl;
}

exit-IsCommand : IsCommand greeting (codes "exit")
exit-IsCommand = record {
  there = λ e. cc;
  plain = no_nul-NoNul (codes "exit") refl;
  fits = omega arith;
  prints = no_nul-NoNul (greeting (codes "exit")) refl;
}

session-promised_example :
    session (λ c. some (greeting c)) (codes "ls" ∷ codes "exit" ∷ [])
    ≡ ok (promised greeting (codes "ls" ∷ codes "exit" ∷ []))
session-promised_example =
    session-promised greeting (codes "ls" ∷ codes "exit" ∷ []) (ls-IsCommand, (exit-IsCommand, tt))
