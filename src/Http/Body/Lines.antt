-- ===== src/Http/Body/Lines.antt =====
-- The removal of the head, hw1/hw1.c, on a response in lines.
use cmpe156_network_programm.Prelude.{
  ℕ, zero, suc, ◌+◌, ◌≡◌, ◌≢◌, ◌<◌, ◌≤◌, refl, sym, ap, ◌∙◌, Bool, true, false, List, [], ◌∷◌, ◌++◌,
  append_assoc, arith, Option, none, some, ok, ◌>>=◌, length, length-append, ◌==◌,
}
use cmpe156_network_programm.Libc.File.{fgets}
use cmpe156_network_programm.Libc.Str.{Bytes, All}
use cmpe156_network_programm.Libc.Find.{strstr, starts}
use cmpe156_network_programm.Http.Body.{
  finish_round, ends_head, write_line, read_line, copy_body, remove_head,
}

-- A line of the head or of the body: no line end within it, and room for one behind it.
pub record IsLine (line : Bytes) : Type 0 where
  pub plain : All (λ c. c ≢ 10) line
  pub fits : length line < 4094

fgets-line :
    (room : ℕ) (line rest : Bytes)
    → All (λ c. c ≢ 10) line
    → length line < room
    → fgets room (line ++ 10 ∷ rest) ≡ (line ++ 10 ∷ [], rest, false)
unfolding fgets
fgets-line zero line rest h f = absurd (omega arith)
fgets-line (suc room) [] rest h f = refl
fgets-line (suc room) (c ∷ line) rest h f =
    let plain : (c == 10) ≡ false = ground arith in
    rw (plain, fgets-line room line rest h.1 (omega arith)) refl

fgets_last :
    (room : ℕ) (line : Bytes)
    → All (λ c. c ≢ 10) line
    → length line < room
    → fgets room line ≡ (line, [], true)
unfolding fgets
fgets_last zero line h f = absurd (omega arith)
fgets_last (suc room) [] h f = refl
fgets_last (suc room) (c ∷ line) h f =
    let plain : (c == 10) ≡ false = ground arith in
    rw (plain, fgets_last room line h.1 (omega arith)) refl

-- Lines with their ends.
abbrev pub lines_text : List Bytes → Bytes
lines_text [] = []
lines_text (line ∷ lines) = (line ++ 10 ∷ []) ++ lines_text lines

-- What the last round writes: what is behind the last line's end, or again the line before it.
abbrev pub final_line : Bytes → List Bytes → Bytes → Bytes
final_line before [] [] = before
final_line before [] (c ∷ last) = c ∷ last
final_line before (line ∷ lines) last = final_line (line ++ 10 ∷ []) lines last

read_line-line :
    (before : Option Bytes) (line : Bytes)
    → read_line before (line ++ 10 ∷ []) ≡ some (line ++ 10 ∷ [])
unfolding read_line
read_line-line before [] = refl
read_line-line before (c ∷ line) = refl

fgets-lines :
    (line rest : Bytes)
    → IsLine line
    → fgets 4095 ((line ++ 10 ∷ []) ++ rest) ≡ (line ++ 10 ∷ [], rest, false)
fgets-lines line rest v =
    ap (fgets 4095) (append_assoc line (10 ∷ []) rest)
    ∙ fgets-line 4095 line rest v.plain (omega (arith, v.fits))

-- A round that reads a whole line.
copy_body-line :
    (fuel : ℕ) (line rest : Bytes) (before : Option Bytes) (is_body : Bool)
    → IsLine line
    → copy_body (suc fuel) ((line ++ 10 ∷ []) ++ rest) before is_body ≡ (
        copy_body fuel rest (some (line ++ 10 ∷ [])) (write_line (line ++ 10 ∷ []) is_body).1
        >>= λ out. ok ((write_line (line ++ 10 ∷ []) is_body).0 ++ out))
unfolding copy_body finish_round
copy_body-line fuel line rest before is_body v =
    ap (λ r. finish_round (read_line before r.0) r.2 is_body (copy_body fuel r.1))
      (fgets-lines line rest v)
    ∙ ap (λ l. finish_round l false is_body (copy_body fuel rest)) (read_line-line before line)

-- The round that meets the end of the file.
copy_body_last :
    (fuel : ℕ) (last : Bytes) (before : Option Bytes) (is_body : Bool)
    → IsLine last
    → copy_body (suc fuel) last before is_body
      ≡ finish_round (read_line before last) true is_body (copy_body fuel [])
unfolding copy_body
copy_body_last fuel last before is_body v =
    ap (λ r. finish_round (read_line before r.0) r.2 is_body (copy_body fuel r.1))
      (fgets_last 4095 last v.plain (omega (arith, v.fits)))

copy_body-lines :
    (fuel : ℕ) (lines : List Bytes) (last before : Bytes)
    → All IsLine lines
    → IsLine last
    → length lines < fuel
    → copy_body fuel (lines_text lines ++ last) (some before) true
      ≡ ok (lines_text lines ++ final_line before lines last)
unfolding finish_round read_line write_line
copy_body-lines zero lines last before a v f = absurd (omega arith)
copy_body-lines (suc fuel) [] [] before a v f = copy_body_last fuel [] (some before) true v
copy_body-lines (suc fuel) [] (c ∷ last) before a v f =
    copy_body_last fuel (c ∷ last) (some before) true v
copy_body-lines (suc fuel) (line ∷ lines) last before a v f =
    let shown = line ++ 10 ∷ [] in
    ap (λ s. copy_body (suc fuel) s (some before) true) (append_assoc shown (lines_text lines) last)
    ∙ copy_body-line fuel line (lines_text lines ++ last) (some before) true a.0
    ∙ ap (λ r. r >>= λ out. ok (shown ++ out))
        (copy_body-lines fuel lines last shown a.1 v (omega arith))
    ∙ ap ok (sym (append_assoc shown (lines_text lines) (final_line shown lines last)))

-- The head's lines: none begins with the '\r' of the blank line.
abbrev pub IsHeadLine : Bytes → Type 0
IsHeadLine line = IsLine line × (ends_head (line ++ 10 ∷ []) ≡ false)

copy_body_blank :
    (fuel : ℕ) (rest : Bytes) (before : Option Bytes)
    → copy_body (suc fuel) (13 ∷ 10 ∷ rest) before false
      ≡ (copy_body fuel rest (some (13 ∷ 10 ∷ [])) true >>= λ out. ok out)
unfolding write_line ends_head strstr starts
copy_body_blank fuel rest before =
    copy_body-line fuel (13 ∷ []) rest before false
      (record { plain = (omega arith, tt); fits = omega arith })

copy_body_head :
    (fuel : ℕ) (head : List Bytes) (rest body : Bytes) (before : Option Bytes)
    → All IsHeadLine head
    → ((k : ℕ)
        → fuel ≤ k + suc (length head)
        → copy_body k rest (some (13 ∷ 10 ∷ [])) true ≡ ok body)
    → length head < fuel
    → copy_body fuel (lines_text head ++ 13 ∷ 10 ∷ rest) before false ≡ ok body
unfolding write_line
copy_body_head zero head rest body before a h f = absurd (omega arith)
copy_body_head (suc fuel) [] rest body before a h f =
    copy_body_blank fuel rest before ∙ rw (h fuel (omega arith)) refl
copy_body_head (suc fuel) (line ∷ head) rest body before a h f =
    let shown = line ++ 10 ∷ [] in
    ap (λ s. copy_body (suc fuel) s before false)
      (append_assoc shown (lines_text head) (13 ∷ 10 ∷ rest))
    ∙ copy_body-line fuel line (lines_text head ++ 13 ∷ 10 ∷ rest) before false a.0.0
    ∙ rw a.0.1 (
        ap (λ r. r >>= λ out. ok out)
          (copy_body_head fuel head rest body (some shown) a.1 (λ k g. h k (omega arith))
            (omega arith)))

length-lines_text : (lines : List Bytes) → length lines ≤ length (lines_text lines)
length-lines_text [] = omega arith
length-lines_text (line ∷ lines) = omega (
  arith,
  length-lines_text lines,
  length-append (line ++ 10 ∷ []) (lines_text lines),
  length-append line (10 ∷ []),
)

-- For a response whose lines fit fgets's array and whose head's lines do not begin with a
-- carriage return, the loop that removes the head ends without a fault and writes the lines of
-- the body and then what stands behind the last line end, or, when nothing does, the last line
-- once more.
pub remove_head-final_line :
    (head body : List Bytes) (last : Bytes)
    → All IsHeadLine head
    → All IsLine body
    → IsLine last
    → remove_head (lines_text head ++ 13 ∷ 10 ∷ (lines_text body ++ last))
      ≡ ok (lines_text body ++ final_line (13 ∷ 10 ∷ []) body last)
unfolding remove_head
remove_head-final_line head body last a b v =
    let rest = lines_text body ++ last in
    let file = lines_text head ++ 13 ∷ 10 ∷ rest in
    copy_body_head (suc (length file)) head rest
      (lines_text body ++ final_line (13 ∷ 10 ∷ []) body last) none a
      (λ k g. copy_body-lines k body last (13 ∷ 10 ∷ []) b v (
        omega (
          arith,
          g,
          length-append (lines_text head) (13 ∷ 10 ∷ rest),
          length-append (lines_text body) last,
          length-lines_text head,
          length-lines_text body,
        )))
      (omega (arith, length-append (lines_text head) (13 ∷ 10 ∷ rest), length-lines_text head))
