-- ===== src/RunFile/Decimal.antt =====
-- `parse_int` on decimal numerals.
use dmg_md.Base.{
  ℕ, suc, ◌+◌, ◌*◌, ◌^◌, ◌<◌, ◌≡◌, refl, ap, true, false, List, [], ◌∷◌, map, ok, arith, AllBelow,
  lt→ltb,
}
use dmg_md.Base.Int.{pos, negsuc}
use dmg_md.RunFile.Text.{is_space}
use dmg_md.RunFile.Numbers.{
  c_str, skip_spaces, digit_of, Digits, read_digits, read_magnitude, strtol, is_nil, parse_int,
  strtol_of,
}
use dmg_md.RunFile.{Bytes, SourceLocation}

-- The text of the digits, and the number that they stand for after the number `v`.
abbrev pub numeral : List ℕ → Bytes
numeral = map λ d. d + 48

abbrev pub horner : ℕ → List ℕ → ℕ
horner v [] = v
horner v (d ∷ ds) = horner (v * 10 + d) ds

abbrev whole : ℕ → Digits
whole n = record { value = n; any = true; rest = [] }

digit_of-digit : (d : ℕ) → d < 10 → digit_of (d + 48) ≡ d
unfolding digit_of
digit_of-digit d lt = ground arith

read_digits-numeral :
    (v : ℕ) (ds : List ℕ)
    → AllBelow 10 ds
    → read_digits 10 v true (numeral ds) ≡ whole (horner v ds)
unfolding read_digits
read_digits-numeral v [] b = refl
read_digits-numeral v (d ∷ ds) (lt, b) =
    let is = digit_of-digit d lt in rw is (ground (arith, read_digits-numeral (v * 10 + d) ds b))

read_first :
    (d : ℕ) (ds : List ℕ)
    → d < 10
    → AllBelow 10 ds
    → read_digits 10 0 false (numeral (d ∷ ds)) ≡ whole (horner d ds)
unfolding read_digits
read_first d ds lt b =
    let is = digit_of-digit d lt in
    let start : 0 * 10 + d ≡ d = omega arith in
    rw (is, lt→ltb d 10 lt, start) (read_digits-numeral d ds b)

read_magnitude-numeral :
    (d : ℕ) (ds : List ℕ)
    → 0 < d
    → d < 10
    → AllBelow 10 ds
    → read_magnitude (numeral (d ∷ ds)) ≡ whole (horner d ds)
unfolding read_magnitude
read_magnitude-numeral d [] p lt b = ground (arith, read_first d [] lt b)
read_magnitude-numeral d (e ∷ []) p lt b = ground (arith, read_first d (e ∷ []) lt b)
read_magnitude-numeral d (e ∷ f ∷ ds) p lt b = ground (arith, read_first d (e ∷ f ∷ ds) lt b)

c_str-numeral : (ds : List ℕ) → c_str (numeral ds) ≡ numeral ds
unfolding c_str
c_str-numeral [] = refl
c_str-numeral (d ∷ ds) = ground (arith, c_str-numeral ds)

c_str-minus : (ds : List ℕ) → c_str (b'-' ∷ numeral ds) ≡ b'-' ∷ numeral ds
unfolding c_str
c_str-minus ds = ap (λ xs. b'-' ∷ xs) (c_str-numeral ds)

strtol-numeral :
    (d : ℕ) (ds : List ℕ)
    → 0 < d
    → d < 10
    → AllBelow 10 ds
    → strtol (numeral (d ∷ ds)) ≡ strtol_of false (whole (horner d ds))
unfolding strtol skip_spaces is_space
strtol-numeral d ds p lt b =
    ground (arith, ap (strtol_of false) (read_magnitude-numeral d ds p lt b))

strtol-minus :
    (d : ℕ) (ds : List ℕ)
    → 0 < d
    → d < 10
    → AllBelow 10 ds
    → strtol (b'-' ∷ numeral (d ∷ ds)) ≡ strtol_of true (whole (horner d ds))
unfolding strtol skip_spaces is_space
strtol-minus d ds p lt b = ap (strtol_of true) (read_magnitude-numeral d ds p lt b)

-- A decimal numeral with no leading zero that stands for a number below 2^31 is read as that
-- number, and with a minus sign in front as its negative.
pub parse_int-numeral :
    (d : ℕ) (ds : List ℕ) (n : ℕ) (at : SourceLocation)
    → 0 < d
    → AllBelow 10 (d ∷ ds)
    → horner d ds ≡ suc n
    → suc n < 2 ^ 31
    → (parse_int (numeral (d ∷ ds)) at ≡ ok (pos (suc n)))
      × (parse_int (b'-' ∷ numeral (d ∷ ds)) at ≡ ok (negsuc n))
unfolding parse_int is_nil
parse_int-numeral d ds n at p (lt, b) is small =
    let plain = strtol-numeral d ds p lt b in
    let minus = strtol-minus d ds p lt b in
    (
      rw (c_str-numeral (d ∷ ds), plain, is) (ground arith),
      rw (c_str-minus (d ∷ ds), minus, is) (ground arith),
    )
