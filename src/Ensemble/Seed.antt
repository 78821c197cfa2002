-- ===== src/Ensemble/Seed.antt =====
-- `parse_ensemble_seed`: a decimal number of 32 bits.
use dmg_md.Base.{
  ℕ, ◌+◌, ◌-◌, ◌*◌, ◌/◌, ◌%◌, ◌^◌, ◌≤◌, ◌<◌, ◌≡◌, refl, sym, ap, ◌∙◌, Bool, true, not, ◌&&◌, [],
  ◌∷◌, Option, none, some, Result, ok, err, ◌>>◌, throw_if, ltb, leb, arith, ◌↔◌, throw_if-eq-ok,
  ok-injective, ◌≢◌,
}
use dmg_md.RunFile.{Bytes}

pub data SeedError : Type 0 where
  no_digits not_a_digit too_large : SeedError

abbrev pub default_seed : ℕ
default_seed = 12345678

unfoldable pub is_digit : ℕ → Bool
is_digit c = leb b'0' c && leb c b'9'

-- The loop over the characters; `parsed` is a `std::uint32_t`.
unfoldable pub seed_digits : ℕ → Bytes → Result SeedError ℕ
seed_digits parsed [] = ok parsed
seed_digits parsed (c ∷ cs) = do
  throw_if (not (is_digit c)) not_a_digit
  let digit = c - b'0'
  throw_if (ltb ((2 ^ 32 - 1 - digit) / 10) parsed) too_large
  seed_digits ((parsed * 10 + digit) % 2 ^ 32) cs

-- A text ends at its first zero byte, so it has none.
unfoldable pub parse_ensemble_seed : Option Bytes → Result SeedError ℕ
parse_ensemble_seed none = ok default_seed
parse_ensemble_seed (some []) = err no_digits
parse_ensemble_seed (some (c ∷ cs)) = seed_digits 0 (c ∷ cs)

-- The number that the digits write, after `before`.
abbrev pub number_of : ℕ → Bytes → ℕ
number_of before [] = before
number_of before (c ∷ cs) = number_of (before * 10 + (c - b'0')) cs

abbrev pub all_digits : Bytes → Bool
all_digits [] = true
all_digits (c ∷ cs) = leb b'0' c && leb c b'9' && all_digits cs

number_of-le : (before : ℕ) (cs : Bytes) → before ≤ number_of before cs
number_of-le before [] = omega arith
number_of-le before (c ∷ cs) = omega (arith, number_of-le (before * 10 + (c - b'0')) cs)

-- The loop accepts what is written in digits and fits, with the number as its result.
seed_digits-number :
    (parsed : ℕ) (cs : Bytes) (n : ℕ)
    → parsed < 2 ^ 32
    → seed_digits parsed cs ≡ ok n
    → (all_digits cs ≡ true) × (number_of parsed cs ≡ n) × (n < 2 ^ 32)
unfolding seed_digits is_digit
seed_digits-number parsed [] n h e = let is : parsed ≡ n = ok-injective e in (refl, is, omega arith)
seed_digits-number parsed (c ∷ cs) n h e =
    let (digit, e1) = throw_if-eq-ok (not (is_digit c)) _ _ e in
    let (fits, e2) = throw_if-eq-ok (ltb ((2 ^ 32 - 1 - (c - b'0')) / 10) parsed) _ _ e1 in
    let one : leb b'0' c && leb c b'9' ≡ true = ground arith in
    let small : parsed * 10 + (c - b'0') < 2 ^ 32 = ground arith in
    let same : (parsed * 10 + (c - b'0')) % 2 ^ 32 ≡ parsed * 10 + (c - b'0') = ground arith in
    let rest =
      seed_digits-number (parsed * 10 + (c - b'0')) cs n small
        (sym (ap (λ p. seed_digits p cs) same) ∙ e2) in
    (ground arith, rest.1, rest.2)

number-seed_digits :
    (parsed : ℕ) (cs : Bytes)
    → all_digits cs ≡ true
    → number_of parsed cs < 2 ^ 32
    → seed_digits parsed cs ≡ ok (number_of parsed cs)
unfolding seed_digits is_digit
number-seed_digits parsed [] d h = refl
number-seed_digits parsed (c ∷ cs) d h =
    let next = parsed * 10 + (c - b'0') in
    let small : next < 2 ^ 32 = omega (arith, number_of-le next cs) in
    let same : next % 2 ^ 32 ≡ next = ground arith in
    let rest = number-seed_digits next cs (ground arith) h in
    let go : seed_digits (next % 2 ^ 32) cs ≡ ok (number_of next cs) =
      ap (λ p. seed_digits p cs) same ∙ rest in
    ground arith

-- A seed that is set is accepted exactly when it is a text of one or more decimal digits whose number
-- is below 2 ^ 32, and the result is that number: the loop never wraps around.
pub parse_ensemble_seed-number :
    (text : Bytes) (n : ℕ)
    → (parse_ensemble_seed (some text) ≡ ok n)
      ↔ ((text ≢ []) × (all_digits text ≡ true) × (number_of 0 text ≡ n) × (n < 2 ^ 32))
unfolding parse_ensemble_seed
parse_ensemble_seed-number [] n =
    ((λ e. absurd (cc)), (λ (some_text, _, _, _). absurd (some_text refl)))
parse_ensemble_seed-number (c ∷ cs) n = (
  (λ e.
      let some_text : (c ∷ cs) ≢ [] = λ h. cc in
      let (digits, is, small) = seed_digits-number 0 (c ∷ cs) n (omega arith) e in
      (some_text, digits, is, small)),
  (λ (_, d, is, small). number-seed_digits 0 (c ∷ cs) d (omega arith) ∙ ap ok is),
)
