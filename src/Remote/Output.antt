-- ===== src/Remote/Output.antt =====
-- What the client of hw2 prints.
use cmpe156_network_programm.Prelude.{
  ℕ, zero, suc, ◌≡◌, ◌≢◌, ◌<◌, refl, sym, ap, ◌∙◌, true, false, List, [], ◌∷◌, ◌++◌, append-nil,
  append_assoc, arith, some, ok, length, length-append, lt→ltb, le→ltb, if◌then◌else◌, Bool-cases,
  inl, inr,
}
use cmpe156_network_programm.Libc.Str.{
  Bytes, All, NoNul, NoNul-parts, codes, str_eq, c_string-text, strcpy_fits,
}
use cmpe156_network_programm.Libc.File.{fgets, fgets-append, fgets-length}
use cmpe156_network_programm.Remote.{
  Package, send_lines, execute, read_command, print_packages, Event, finished, printed, on_input,
  session,
}

send_lines-print_packages :
    (fuel : ℕ) (text : Bytes) (behind : List Package)
    → NoNul text
    → length text < fuel
    → (ps : List Package) × (send_lines fuel text ≡ ok ps)
      × (print_packages (ps ++ behind) ≡ text ++ print_packages behind)
unfolding send_lines print_packages
send_lines-print_packages zero text behind nn f = absurd (omega arith)
send_lines-print_packages (suc fuel) [] behind nn f = ([], refl, refl)
send_lines-print_packages (suc fuel) (c ∷ text) behind nn f =
    let line = (fgets 1023 (c ∷ text)).0 in
    let rest = (fgets 1023 (c ∷ text)).1 in
    let whole : line ++ rest ≡ c ∷ text = fgets-append 1023 (c ∷ text) in
    let (line_plain, rest_plain) = NoNul-parts line rest (rw whole nn) in
    let (ps, e, d) =
      send_lines-print_packages fuel rest behind rest_plain
        (omega (arith, f, fgets-length 1022 c text)) in
    (
      record { is_end = 0; message = line } ∷ ps,
      rw (c_string-text line [] line_plain, e) refl,
      ap (λ s. line ++ s) d
          ∙ sym (append_assoc line rest (print_packages behind))
          ∙ ap (λ s. s ++ print_packages behind) whole,
    )

-- A command's line, and what the client is promised for it when the command prints `output`.
pub record IsCommand (output : Bytes → Bytes) (input : Bytes) : Type 0 where
  pub there : input ≢ []
  pub plain : NoNul input
  pub fits : length input < 1024
  pub prints : NoNul (output (input ++ codes " 2>&1"))

unfoldable pub promised : (Bytes → Bytes) → List Bytes → List Event
promised output [] = []
promised output (input ∷ inputs) =
    let rest = promised output inputs in
    if str_eq input (codes "exit")
    then finished ∷ []
    else printed (output (input ++ codes " 2>&1")) ∷ rest

execute-output :
    (output : Bytes → Bytes) (input : Bytes)
    → IsCommand output input
    → (ps : List Package) × (execute (λ c. some (output c)) input ≡ ok (some ps))
      × (print_packages ps ≡ output (input ++ codes " 2>&1"))
unfolding execute print_packages
execute-output output input v =
    let redir = input ++ codes " 2>&1" in
    let ends : List Package = record { is_end = 1; message = [] } ∷ [] in
    let (ps, e, d) =
      send_lines-print_packages (suc (length (output redir))) (output redir) ends v.prints
        (omega arith) in
    (
      ps ++ ends,
      rw (strcpy_fits 1029 redir (omega (arith, v.fits, length-append input (codes " 2>&1"))), e)
          refl,
      d ∙ append-nil (output redir),
    )

read_command-input :
    (input : Bytes) → NoNul input → length input < 1024 → read_command input ≡ ok input
unfolding read_command
read_command-input input nn f = rw (lt→ltb (length input) 1024 f, c_string-text input [] nn) refl

on_input_exit :
    (output : Bytes → Bytes) (input : Bytes)
    → IsCommand output input
    → str_eq input (codes "exit") ≡ true
    → on_input (λ c. some (output c)) input ≡ ok finished
unfolding on_input
on_input_exit output [] v e = absurd (v.there refl)
on_input_exit output (c ∷ input) v e =
    rw
      (
        le→ltb 1024 (length (c ∷ input)) (omega (arith, v.fits)),
        read_command-input (c ∷ input) v.plain v.fits,
        e,
      )
      refl

on_input-output :
    (output : Bytes → Bytes) (input : Bytes)
    → IsCommand output input
    → str_eq input (codes "exit") ≡ false
    → on_input (λ c. some (output c)) input ≡ ok (printed (output (input ++ codes " 2>&1")))
unfolding on_input
on_input-output output [] v e = absurd (v.there refl)
on_input-output output (c ∷ input) v e =
    let (ps, made, shown) = execute-output output (c ∷ input) v in
    rw
      (
        le→ltb 1024 (length (c ∷ input)) (omega (arith, v.fits)),
        read_command-input (c ∷ input) v.plain v.fits,
        e,
        made,
        shown,
      )
      refl

-- Let every line of input be a command of 1 to 1023 bytes without a NUL, for which popen gives a
-- text without one. Then the rounds of the client and the server run without a fault, and the
-- client prints for each line what its command prints, whatever lines that has, up to the line
-- exit, which ends it.
pub session-promised :
    (output : Bytes → Bytes) (inputs : List Bytes)
    → All (IsCommand output) inputs
    → session (λ c. some (output c)) inputs ≡ ok (promised output inputs)
unfolding session promised
session-promised output [] a = refl
session-promised output (input ∷ inputs) a = elim (Bool-cases (str_eq input (codes "exit"))) [
  | inl e ↦ rw (e, on_input_exit output input a.0 e) refl
  | inr e ↦ rw (e, on_input-output output input a.0 e, session-promised output inputs a.1) refl
]
