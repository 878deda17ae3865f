-- ===== src/Proxy/Relay/Head.antt =====
-- The head of a response in thread_proxy of hw5/proxy.c, as a host prints it.
use cmpe156_network_programm.Prelude.{
  ℕ, ◌-◌, zero, suc, deref, ◌≡◌, ◌<◌, refl, ap, ◌∙◌, [], ◌∷◌, ◌++◌, append_assoc, arith, Option,
  none, some, Result, ok, ◌>>=◌, length, replicate, ℤ,
}
use cmpe156_network_programm.Libc.Str.{Bytes, All, NoNul, c_string, c_string-text}
use cmpe156_network_programm.Libc.Scan.{scan_s, IsWord, StartsSpace, scan_s-word}
use cmpe156_network_programm.Proxy.Request.Headers.{
  IsNotCr, ink-IsNotCr, IsNotCr-append, StartsSpace-append,
}
use cmpe156_network_programm.Proxy.Relay.{
  browser_buf, behind_blank, content_length, Size, declared, counted, response_head,
}
use cmpe156_network_programm.Proxy.Relay.Length.{content_length-skip}

-- The first line of a response: its words, and what follows them.
pub record Status : Type 0 where
  pub version : Bytes
  pub code : Bytes
  pub reason : Bytes
  pub more : Bytes

pub record IsStatus (s : Status) : Type 0 where
  pub version : IsWord s.version
  pub version_fits : length s.version < 32
  pub code : IsWord s.code
  pub code_fits : length s.code < 8
  pub reason : IsWord s.reason
  pub reason_fits : length s.reason < 32
  pub more_apart : StartsSpace s.more
  pub more_plain : All IsNotCr s.more

unfoldable pub status_line : Status → Bytes
status_line s = s.version ++ b' ' ∷ (s.code ++ b' ' ∷ (s.reason ++ s.more))

pub status_line-IsNotCr : (s : Status) → IsStatus s → All IsNotCr (status_line s)
unfolding status_line
status_line-IsNotCr s v =
    IsNotCr-append s.version (b' ' ∷ (s.code ++ b' ' ∷ (s.reason ++ s.more)))
      (ink-IsNotCr s.version v.version.1)
      (
        omega arith,
        IsNotCr-append s.code (b' ' ∷ (s.reason ++ s.more)) (ink-IsNotCr s.code v.code.1) (
          omega arith,
          IsNotCr-append s.reason s.more (ink-IsNotCr s.reason v.reason.1) v.more_plain,
        ),
      )

-- A read that leaves room for a NUL, and holds none.
abbrev pub IsText : Bytes → Type 0
IsText chunk = NoNul chunk × (length chunk < 1024)

pub c_string-browser_buf : (chunk : Bytes) → IsText chunk → c_string (browser_buf chunk) ≡ ok chunk
c_string-browser_buf chunk t = go (1024 - length chunk) (omega (arith, t.1))
  where
    go : (k : ℕ) → 0 < k → c_string (chunk ++ replicate k 0) ≡ ok chunk
    go zero h = absurd (omega arith)
    go (suc k) h = c_string-text chunk (replicate k 0) t.0

-- The head of a response, whose length the search gives.
pub response_head-status :
    (s : Status) (tail : Bytes) (found : Option ℤ)
    → IsStatus s
    → IsText (status_line s ++ tail)
    → StartsSpace tail
    → content_length tail [] [] ≡ ok found
    → response_head (status_line s ++ tail)
      ≡ (elim found as (λ (f : Option ℤ). Result (Bytes × Size)) [
        | some n ↦ ok (s.code, declared n)
        | none ↦ deref (behind_blank (status_line s ++ tail)) >>= λ body.
            ok (s.code, counted (length body))
      ])
unfolding response_head
response_head-status s tail found v t a e =
    let s1 = b' ' ∷ (s.code ++ b' ' ∷ ((s.reason ++ s.more) ++ tail)) in
    let s2 = b' ' ∷ ((s.reason ++ s.more) ++ tail) in
    let text : status_line s ++ tail ≡ s.version ++ s1 = unfold status_line in simp append_assoc in
    let e1 : scan_s 32 (status_line s ++ tail) ≡ ok (s.version, s1) =
      ap (scan_s 32) text ∙ scan_s-word 32 [] s.version s1 tt v.version v.version_fits refl in
    let e2 : scan_s 8 s1 ≡ ok (s.code, s2) =
      scan_s-word 8 (b' ' ∷ []) s.code s2 (refl, tt) v.code v.code_fits refl in
    let e3 : scan_s 32 s2 ≡ ok (s.reason, s.more ++ tail) =
      ap (λ r. scan_s 32 (b' ' ∷ r)) (append_assoc s.reason s.more tail)
      ∙ scan_s-word 32 (b' ' ∷ []) s.reason (s.more ++ tail) (refl, tt) v.reason v.reason_fits
          (StartsSpace-append s.more tail v.more_apart a) in
    rw
      (
        c_string-browser_buf (status_line s ++ tail) t,
        e1,
        e2,
        e3,
        content_length-skip (status_line s) tail [] [] (status_line-IsNotCr s v),
        e,
      )
      refl
