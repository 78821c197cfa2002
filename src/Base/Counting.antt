-- ===== src/Base/Counting.antt =====
-- Occurrences of a number in a list, sums over a range, and the pigeonhole principle: a list of
-- `n` numbers below `n`, none of them twice, holds each of them once.
use Prim.Native.Nat.{ℕ, zero, suc, ◌+◌, ◌≤◌, ◌<◌}
use mathlib.Core.Path.{◌≡◌, ap, refl}
use mathlib.Core.List.{List, [], ◌∷◌, ◌++◌}
use mathlib.Core.Option.{some}
use native.Mathlib.Omega.{arith}
use mathlib.Core.Logic.{inl, inr}
use dmg_md.Base.Tests.{◌==◌, if◌then◌else◌, ltb, Bool-cases}
use dmg_md.Base.Lists.{length, get_elem?, get_or, set, replicate}

abbrev pub count : ℕ → List ℕ → ℕ
count a [] = 0
count a (x ∷ xs) = let here = if x == a then 1 else 0 in here + count a xs

-- Every element is below `n`.
abbrev pub AllBelow : ℕ → List ℕ → Type 0
AllBelow n [] = Unit {0}
AllBelow n (x ∷ xs) = (x < n) × AllBelow n xs

-- f 0 + … + f (n - 1).
abbrev pub total : (ℕ → ℕ) → ℕ → ℕ
total f zero = 0
total f (suc n) = f n + total f n

pub count-append : (a : ℕ) (xs ys : List ℕ) → count a (xs ++ ys) ≡ count a xs + count a ys
count-append id [] more = ground arith
count-append id (other ∷ rest) more = let tail = count-append id rest more in ground (arith, tail)

total_zero : (n : ℕ) → total (λ _. 0) n ≡ 0
total_zero zero = refl
total_zero (suc n) = omega (arith, total_zero n)

pub total_add : (f g : ℕ → ℕ) (n : ℕ) → total (λ k. f k + g k) n ≡ total f n + total g n
total_add f g zero = refl
total_add f g (suc n) = omega (arith, total_add f g n)

pub total_mono : (f g : ℕ → ℕ) (n : ℕ) → ((k : ℕ) → k < n → f k ≤ g k) → total f n ≤ total g n
total_mono f g zero h = omega arith
total_mono f g (suc n) h =
    omega (arith, h n (omega arith), total_mono f g n (λ k lt. h k (omega arith)))

-- The indicator of one number sums to 1 past it, and to 0 up to it.
pub total_indicator :
    (x n : ℕ) → total (λ k. if x == k then 1 else 0) n ≡ (if ltb x n then 1 else 0)
total_indicator x zero = ground arith
total_indicator x (suc n) = ground (arith, total_indicator x n)

pub total-count : (n : ℕ) (xs : List ℕ) → AllBelow n xs → total (λ k. count k xs) n ≡ length xs
total-count n [] b = total_zero n
total-count n (x ∷ xs) b = ground (
  arith,
  total_add (λ k. if x == k then 1 else 0) (λ k. count k xs) n,
  total_indicator x n,
  total-count n xs b.1,
)

total_one : (n : ℕ) → total (λ _. 1) n ≡ n
total_one zero = refl
total_one (suc n) = omega (arith, total_one n)

pub pigeonhole :
    (f : ℕ → ℕ) (n : ℕ) → ((k : ℕ) → f k ≤ 1) → total f n ≡ n → (k : ℕ) → k < n → f k ≡ 1
pigeonhole f zero h e k lt = absurd (omega arith)
pigeonhole f (suc n) h e k lt =
    let below = total_mono f (λ _. 1) n (λ j _. h j) in
    let rest : total f n ≡ n = omega (arith, h n, below, total_one n) in
    ground (arith, h n, h k, pigeonhole f n h rest k)

-- A list of `n` numbers below `n` that repeats none holds each once.
pub count_full :
    (n : ℕ) (xs : List ℕ)
    → AllBelow n xs
    → length xs ≡ n
    → ((k : ℕ) → count k xs ≤ 1)
    → (k : ℕ) → k < n
    → count k xs ≡ 1
count_full n xs b e h = pigeonhole (λ k. count k xs) n h (omega (arith, total-count n xs b))

-- The flags of an array of `char` or `int`: entry `k` is set.
abbrev pub flag : List ℕ → ℕ → ℕ
flag seen k = get_or seen k 0

pub get_or-set :
    (xs : List ℕ) (i v k : ℕ)
    → i < length xs
    → get_or (set xs i v) k 0 ≡ (if i == k then v else get_or xs k 0)
get_or-set [] i v k h = absurd (omega arith)
get_or-set (x ∷ xs) zero v zero h = refl
get_or-set (x ∷ xs) zero v (suc k) h = ground arith
get_or-set (x ∷ xs) (suc i) v zero h = ground arith
get_or-set (x ∷ xs) (suc i) v (suc k) h = ground (arith, get_or-set xs i v k)

pub get_or-replicate : (n k : ℕ) → flag (replicate n 0) k ≡ 0
get_or-replicate zero k = refl
get_or-replicate (suc n) zero = refl
get_or-replicate (suc n) (suc k) = get_or-replicate n k

pub count_of_get_elem? : (xs : List ℕ) (i a : ℕ) → get_elem? xs i ≡ some a → 1 ≤ count a xs
count_of_get_elem? [] i a e = absurd (cc)
count_of_get_elem? (x ∷ xs) zero a e = ground arith
count_of_get_elem? (x ∷ xs) (suc i) a e = omega (arith, count_of_get_elem? xs i a e)

pub total-count-le : (n : ℕ) (xs : List ℕ) → total (λ k. count k xs) n ≤ length xs
total-count-le n [] = omega (arith, total_zero n)
total-count-le n (x ∷ xs) = ground (
  arith,
  total_add (λ k. if x == k then 1 else 0) (λ k. count k xs) n,
  total_indicator x n,
  total-count-le n xs,
)

pub total-ge : (f : ℕ → ℕ) (n : ℕ) → ((k : ℕ) → k < n → 1 ≤ f k) → n ≤ total f n
total-ge f zero h = omega arith
total-ge f (suc n) h = omega (arith, h n (omega arith), total-ge f n (λ k lt. h k (omega arith)))

-- If `n` values that are all positive add up to at most `n`, each is 1.
pub pigeonhole_ge :
    (f : ℕ → ℕ) (n : ℕ) → ((k : ℕ) → k < n → 1 ≤ f k) → total f n ≤ n → (k : ℕ) → k < n → f k ≡ 1
pigeonhole_ge f zero h e k lt = absurd (omega arith)
pigeonhole_ge f (suc n) h e k lt =
    let low = total-ge f n (λ j l. h j (omega arith)) in
    let rest : total f n ≤ n = omega (arith, h n (omega arith)) in
    ground (arith, h n (omega arith), pigeonhole_ge f n (λ j l. h j (omega arith)) rest k, low)

pub get_elem?-flag : (xs : List ℕ) (k : ℕ) → k < length xs → get_elem? xs k ≡ some (flag xs k)
get_elem?-flag [] k h = absurd (omega arith)
get_elem?-flag (x ∷ xs) zero h = refl
get_elem?-flag (x ∷ xs) (suc k) h = get_elem?-flag xs k (omega arith)

pub get_elem?-lt : (xs : List ℕ) (k a : ℕ) → get_elem? xs k ≡ some a → k < length xs
get_elem?-lt [] k a e = absurd (cc)
get_elem?-lt (x ∷ xs) zero a e = omega arith
get_elem?-lt (x ∷ xs) (suc k) a e = omega (arith, get_elem?-lt xs k a e)

-- Where a number occurs.
pub position :
    (a : ℕ) (xs : List ℕ) → 1 ≤ count a xs → (k : ℕ) × (get_elem? xs k ≡ some a) × (k < length xs)
position a [] h = absurd (omega arith)
position a (x ∷ xs) h = elim (Bool-cases (x == a)) [
  | inl e ↦ (0, ground arith, omega arith)
  | inr e ↦ let (k, at, lt) = position a xs (ground arith) in (suc k, at, omega arith)
]

pub total_first : (f : ℕ → ℕ) (n : ℕ) → total f (suc n) ≡ f 0 + total (λ k. f (suc k)) n
total_first f zero = omega arith
total_first f (suc n) = omega (arith, total_first f n)

pub total_cong : (f g : ℕ → ℕ) (n : ℕ) → ((k : ℕ) → k < n → f k ≡ g k) → total f n ≡ total g n
total_cong f g zero h = refl
total_cong f g (suc n) h =
    omega (arith, h n (omega arith), total_cong f g n (λ k lt. h k (omega arith)))

abbrev pub sum : List ℕ → ℕ
sum [] = 0
sum (x ∷ xs) = x + sum xs

pub sum-total : (xs : List ℕ) → sum xs ≡ total (flag xs) (length xs)
sum-total [] = refl
sum-total (x ∷ xs) = omega (arith, sum-total xs, total_first (flag (x ∷ xs)) (length xs))

pub AllBelow-get_elem? :
    (n : ℕ) (xs : List ℕ) (k a : ℕ) → AllBelow n xs → get_elem? xs k ≡ some a → a < n
AllBelow-get_elem? n [] k a b e = absurd (cc)
AllBelow-get_elem? n (x ∷ xs) zero a b e = ground arith
AllBelow-get_elem? n (x ∷ xs) (suc k) a b e = AllBelow-get_elem? n xs k a b.1 e

pub AllBelow-of_get_elem? :
    (n : ℕ) (xs : List ℕ) → ((k a : ℕ) → get_elem? xs k ≡ some a → a < n) → AllBelow n xs
AllBelow-of_get_elem? n [] h = tt
AllBelow-of_get_elem? n (x ∷ xs) h =
    (h 0 x refl, AllBelow-of_get_elem? n xs (λ k a e. h (suc k) a e))

pub flag_of_get_elem? : (xs : List ℕ) (k a : ℕ) → get_elem? xs k ≡ some a → flag xs k ≡ a
flag_of_get_elem? [] k a e = absurd (cc)
flag_of_get_elem? (x ∷ xs) zero a e = ground arith
flag_of_get_elem? (x ∷ xs) (suc k) a e = flag_of_get_elem? xs k a e

-- A sum with one term left out.
pub total_except :
    (f : ℕ → ℕ) (r n : ℕ)
    → total (λ k. if k == r then 0 else f k) n + (if ltb r n then f r else 0) ≡ total f n
total_except f r zero = ground arith
total_except f r (suc n) = elim (Bool-cases (n == r)) [
  | inl last ↦
      let is : n ≡ r = ground arith in
      let same : f n ≡ f r = ap f is in ground (arith, total_except f r n, same)
  | inr other ↦ ground (arith, total_except f r n)
]

-- Two functions of which one is nowhere larger, with the same sum, agree.
pub total_squeeze :
    (f g : ℕ → ℕ) (n : ℕ)
    → ((k : ℕ) → k < n → f k ≤ g k)
    → total f n ≡ total g n
    → (k : ℕ) → k < n
    → f k ≡ g k
total_squeeze f g zero h e k lt = absurd (omega arith)
total_squeeze f g (suc n) h e k lt =
    let below = total_mono f g n (λ j l. h j (omega arith)) in
    let here = h n (omega arith) in
    let rest : total f n ≡ total g n = omega arith in
    elim (Bool-cases (k == n)) [
      | inl last ↦ let is : k ≡ n = ground arith in rw is (omega arith)
      | inr other ↦ total_squeeze f g n (λ j l. h j (omega arith)) rest k (ground arith)
    ]
