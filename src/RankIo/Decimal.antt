-- ===== src/RankIo/Decimal.antt =====
-- The fuel of `to_string` is enough.
use dmg_md.Base.{
  ℕ, zero, suc, ◌+◌, ◌-◌, ◌*◌, ◌/◌, ◌%◌, ◌^◌, ◌<◌, ltb, [], ◌∷◌, ◌++◌, ◌≡◌, refl, arith, if_holds,
  ap, ◌∙◌, if◌then◌else◌,
}
use dmg_md.RunFile.{Bytes}
use dmg_md.Ensemble.Seed.{number_of}
use dmg_md.RankIo.Names.{decimal, to_string}

number_of_snoc :
    (n : ℕ) (a : Bytes) (c : ℕ) → number_of n (a ++ (c ∷ [])) ≡ number_of n a * 10 + (c - b'0')
number_of_snoc n [] c = refl
number_of_snoc n (b ∷ bs) c = number_of_snoc (n * 10 + (b - b'0')) bs c

-- A number below 10 to the power of the fuel is read back from its digits.
pub number_of-decimal : (fuel n : ℕ) → n < 10 ^ fuel → number_of 0 (decimal fuel n) ≡ n
unfolding decimal
number_of-decimal zero n h = omega arith
number_of-decimal (suc fuel) n h =
    let front = decimal fuel (n / 10) in
    let rest : n / 10 < 10 ^ fuel = omega arith in
    let read : number_of 0 (if ltb n 10 then [] else front) ≡ n / 10 =
      if_holds (λ f. number_of 0 f ≡ n / 10) (ltb n 10) [] front (λ one. ground arith)
        (λ more. number_of-decimal fuel (n / 10) rest) in
    number_of_snoc 0 (if ltb n 10 then [] else front) (b'0' + n % 10)
    ∙ ap (λ m. m * 10 + (b'0' + n % 10 - b'0')) read
    ∙ (omega arith)

-- So is an `int` that is not negative.
pub number_of-to_string : (n : ℕ) → n < 2 ^ 31 → number_of 0 (to_string n) ≡ n
unfolding to_string
number_of-to_string n h = number_of-decimal 10 n (omega arith)
