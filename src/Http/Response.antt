-- ===== src/Http/Response.antt =====
-- The response in main of hw1/hw1.c: the reads, printed or written to output.dat, and the removal of
-- the head.
use cmpe156_network_programm.Prelude.{
  ℕ, ◌+◌, ◌≡◌, ◌≢◌, ◌≤◌, refl, ap, ◌∙◌, Bool, true, false, List, [], ◌∷◌, ◌++◌, arith, Result, ok,
  ◌>>=◌, ltb, le→ltb, if◌then◌else◌,
}
use cmpe156_network_programm.Libc.Str.{Bytes, All, NoNul, c_string, c_string-text}
use cmpe156_network_programm.Http.Body.{remove_head}
use cmpe156_network_programm.Http.Body.Lines.{
  IsHeadLine, IsLine, lines_text, final_line, remove_head-final_line,
}

-- What a read gives, 1023 bytes at most, and the value of clock behind it.
pub record Read : Type 0 where
  pub text : Bytes
  pub finish : ℕ

-- The conversion %s of `buf`, with its NUL at buf[ret].
unfoldable pub shown : Bytes → Result Bytes
shown text = c_string (text ++ 0 ∷ [])

-- A round on what read gives; `stops` is the test of the clock.
unfoldable pub on_read : Bool → Bytes → Result Bytes → Result Bytes
on_read stops [] rest = ok []
on_read stops (c ∷ cs) rest =
    shown (c ∷ cs) >>= λ t. if stops then ok t else (rest >>= λ more. ok (t ++ more))

-- With the option -h: what is printed, until a read gives nothing.
unfoldable pub print_reads : List Read → Result Bytes
print_reads [] = ok []
print_reads (r ∷ rs) = on_read false r.text (print_reads rs)

-- What output.dat has. The loop ends when `start` is more than 240 behind `finish`: difftime gives its
-- first argument less its second.
unfoldable pub save_reads : ℕ → List Read → Result Bytes
save_reads start [] = ok []
save_reads start (r ∷ rs) = on_read (ltb (r.finish + 240) start) r.text (save_reads start rs)

-- What the user gets: the terminal's text, or output2.dat.
pub data Output : Type 0 where
  printed written : Bytes → Output

unfoldable pub receive : Bool → ℕ → List Read → Result Output
receive need_head start reads =
    if need_head
    then (print_reads reads >>= λ t. ok (printed t))
    else (save_reads start reads >>= λ file. remove_head file >>= λ body. ok (written body))

abbrev pub joined : List Read → Bytes
joined [] = []
joined (r ∷ rs) = r.text ++ joined rs

-- A read of some text without NUL bytes; the clock has not gone back.
pub record IsText (start : ℕ) (r : Read) : Type 0 where
  pub there : r.text ≢ []
  pub plain : NoNul r.text
  pub later : start ≤ r.finish

shown-text : (t : Bytes) → NoNul t → shown t ≡ ok t
unfolding shown
shown-text t h = c_string-text t [] h

on_read-text :
    (t : Bytes) (rest : Result Bytes) (more : Bytes)
    → t ≢ []
    → NoNul t
    → rest ≡ ok more
    → on_read false t rest ≡ ok (t ++ more)
unfolding on_read
on_read-text [] rest more h p e = absurd (h refl)
on_read-text (c ∷ cs) rest more h p e = rw (shown-text (c ∷ cs) p, e) refl

print_reads-joined :
    (start : ℕ) (reads : List Read)
    → All (IsText start) reads
    → print_reads reads ≡ ok (joined reads)
unfolding print_reads
print_reads-joined start [] a = refl
print_reads-joined start (r ∷ rs) a =
    on_read-text r.text (print_reads rs) (joined rs) a.0.there a.0.plain
      (print_reads-joined start rs a.1)

save_reads-joined :
    (start : ℕ) (reads : List Read)
    → All (IsText start) reads
    → save_reads start reads ≡ ok (joined reads)
unfolding save_reads
save_reads-joined start [] a = refl
save_reads-joined start (r ∷ rs) a =
    let in_time : ltb (r.finish + 240) start ≡ false =
      le→ltb (r.finish + 240) start (omega (arith, a.0.later)) in
    rw in_time (
      on_read-text r.text (save_reads start rs) (joined rs) a.0.there a.0.plain
        (save_reads-joined start rs a.1))

-- Let the reads of a response each give some text without NUL bytes while the clock does not go
-- back, and let the lines of the whole fit fgets's array and the head's lines not begin with a
-- carriage return. Then with -h exactly the response is printed, and otherwise output2.dat has
-- the lines of the body and then what stands behind the last line end, or, when nothing does,
-- the last line once more.
pub receive-final_line :
    (start : ℕ) (reads : List Read) (head body : List Bytes) (last : Bytes)
    → All (IsText start) reads
    → joined reads ≡ lines_text head ++ 13 ∷ 10 ∷ (lines_text body ++ last)
    → All IsHeadLine head
    → All IsLine body
    → IsLine last
    → (receive true start reads ≡ ok (printed (joined reads)))
      × (receive false start reads
          ≡ ok (written (lines_text body ++ final_line (13 ∷ 10 ∷ []) body last)))
unfolding receive
receive-final_line start reads head body last a e h b v = (
  rw (print_reads-joined start reads a) refl,
  rw
      (
        save_reads-joined start reads a,
        ap remove_head e ∙ remove_head-final_line head body last h b v,
      )
      refl,
)
