-- ===== src/Transfer/Stream/Endless.antt =====
-- The loop of server_upload_file, HW3/mysocket.c, on a part that ends behind its file.
use cmpe156_network_programm.Prelude.{
  ℕ, zero, suc, ◌+◌, ◌-◌, ◌≡◌, ◌≤◌, ◌<◌, refl, [], ◌∷◌, arith, fault, out_of_fuel, length, negsuc,
  lt→ltb, take, drop,
}
use cmpe156_network_programm.Libc.Str.{Bytes, NoNul}
use cmpe156_network_programm.Transfer.Ranges.{length-drop}
use cmpe156_network_programm.Transfer.Stream.{upload_from}
use cmpe156_network_programm.Transfer.Stream.Delivery.{pack-package, NoNul-take, NoNul-drop}

length-take_both :
    (m n : ℕ) (xs : Bytes) → length xs ≤ n → (length (take m xs) ≤ m) × (length (take m xs) ≤ n)
length-take_both zero n xs h = (omega arith, omega arith)
length-take_both (suc m) n [] h = (omega arith, omega arith)
length-take_both (suc m) zero (x ∷ xs) h = absurd (omega arith)
length-take_both (suc m) (suc n) (x ∷ xs) h =
    let (a, b) = length-take_both m n xs (omega arith) in (omega arith, omega arith)

-- On a file without NUL bytes, from a position in it, when the part ends more than 1024 bytes
-- behind the end of the file, the loop of server_upload_file does not end: no number of rounds
-- is enough.
pub upload_from_endless :
    (fuel : ℕ) (file : Bytes) (cur stop : ℕ)
    → NoNul file
    → cur ≤ length file
    → length file + 1024 < stop
    → upload_from fuel file cur stop ≡ fault out_of_fuel
unfolding upload_from
upload_from_endless zero file cur stop nn inside over = refl
upload_from_endless (suc fuel) file cur stop nn inside over =
    let block = take 1023 (drop cur file) in
    let (small, within) =
      length-take_both 1023 (length file - cur) (drop cur file)
        (omega (arith, length-drop cur file)) in
    rw
      (
        lt→ltb 1024 (stop - cur) (omega (arith, inside, over)),
        pack-package block (negsuc 0) (NoNul-take 1023 (drop cur file) (NoNul-drop cur file nn))
            (omega (arith, small)),
        upload_from_endless fuel file (cur + length block) stop nn (omega (arith, inside, within))
            over,
      )
      refl
