-- ===== src/Http/Body.antt =====
-- The removal of the head of a response, in main of hw1/hw1.c.
pub mod Lines
use cmpe156_network_programm.Prelude.{
  ℕ, zero, suc, ◌+◌, ◌-◌, ◌≡◌, ◌≢◌, ◌<◌, ◌≤◌, refl, sym, ap, ◌∙◌, Bool, true, false, ◌&&◌, not,
  ◌||◌, List, [], ◌∷◌, ◌++◌, append_assoc, append-nil, arith, Option, none, some, Result, ok, fault,
  indeterminate, out_of_fuel, deref, ◌>>=◌, length, length-append, ltb, lt→ltb, le→ltb, ◌==◌,
  if◌then◌else◌,
}
use cmpe156_network_programm.Libc.Str.{Bytes, All}
use cmpe156_network_programm.Libc.File.{fgets}
use cmpe156_network_programm.Libc.Find.{strstr, starts}

-- The blank line.
unfoldable pub ends_head : Bytes → Bool
ends_head [] = false
ends_head (c ∷ line) =
    c == 13 && (elim (strstr (c ∷ line) (13 ∷ 10 ∷ [])) [ none ↦ false | some s ↦ true ])

-- A round after fgets, on the line that is in the array; with nothing read it is the line before.
unfoldable pub write_line : Bytes → Bool → Bytes × Bool
write_line line is_body = (if is_body then line else [], is_body || not is_body && ends_head line)

unfoldable pub read_line : Option Bytes → Bytes → Option Bytes
read_line before [] = before
read_line before (c ∷ line) = some (c ∷ line)

-- The rest of a round: what it writes, and what the rounds behind it do, if there are any.
unfoldable pub finish_round :
    Option Bytes → Bool → Bool → (Option Bytes → Bool → Result Bytes) → Result Bytes
finish_round none at_end is_body next = fault indeterminate
finish_round (some line) at_end is_body next =
    let (written, is_body') = write_line line is_body in
    let more = next (some line) is_body' in
    if at_end then ok written else (more >>= λ out. ok (written ++ out))

-- The loop while the end of the file has not been met: what it writes to output2.dat.
unfoldable pub copy_body : ℕ → Bytes → Option Bytes → Bool → Result Bytes
copy_body zero file before is_body = fault out_of_fuel
copy_body (suc fuel) file before is_body =
    let (got, rest, at_end) = fgets 4095 file in
    finish_round (read_line before got) at_end is_body (copy_body fuel rest)

-- Every round but the last reads a byte.
unfoldable pub remove_head : Bytes → Result Bytes
remove_head file = copy_body (suc (length file)) file none false
