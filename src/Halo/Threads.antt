-- ===== src/Halo/Threads.antt =====
-- What a launch leaves in an array, and the places of the items.
use native.Mathlib.Nat.{mul-add-div_right, div-eq_of_lt, mul-le-mul_right}
use dmg_md.Base.{
  ℕ, zero, suc, ◌+◌, ◌-◌, ◌*◌, ◌/◌, ◌<◌, ◌≤◌, ltb, ◌==◌, Bool, true, false, if◌then◌else◌, ◌≡◌,
  refl, arith, ap, sym, ◌∙◌, inl, inr, Bool-cases, leb, ◌^◌,
}
use dmg_md.Base.Int.{ℤ, pos, eqb_ℤ}
use dmg_md.Base.Machine.{int_of_size, int_of_size-small}
use dmg_md.Halo.Kernels.{is_idle, launched, store, run_threads, place_of}

same_place : (k : ℤ) → eqb_ℤ k k ≡ true
same_place k = ground arith

missed : {n i : ℕ} (t : Bool) → (t ≡ true → n ≡ i) → (n == i) ≡ false → t ≡ false
missed {n} {i} true h other = let same = h refl in ground arith
missed false h other = refl

module _ {V : Type 0} where
  -- A launch whose thread j below the bound writes value j to place j, and whose other threads nothing.
  module _ (thread : ℕ → (ℤ → V) → ℤ → V) (bound : ℕ) (place : ℕ → ℤ) (value : ℕ → V)
      (writes : (j : ℕ) (array : ℤ → V)
        → j < bound
        → thread j array ≡ store array (place j) (value j))
      (idles : (j : ℕ) (array : ℤ → V) → bound ≤ j → thread j array ≡ array) where
    pub run_threads-other :
        (n : ℕ) (array : ℤ → V) (k : ℤ)
        → ((j : ℕ) → j < bound → eqb_ℤ k (place j) ≡ false)
        → run_threads thread n array k ≡ array k
    unfolding run_threads store
    run_threads-other zero array k apart = refl
    run_threads-other (suc n) array k apart =
        let before = run_threads thread n array in
        let rest = run_threads-other n array k apart in
        elim (Bool-cases (ltb n bound)) [
          | inl below ↦
              ap (λ f. f k) (writes n before (ground arith))
              ∙ ap (λ t. if t then value n else before k) (apart n (ground arith))
              ∙ rest
          | inr above ↦ ap (λ f. f k) (idles n before (ground arith)) ∙ rest
        ]

    pub run_threads-place :
        (n : ℕ) (array : ℤ → V) (i : ℕ)
        → i < n
        → i < bound
        → ((j : ℕ) → j < bound → eqb_ℤ (place i) (place j) ≡ true → j ≡ i)
        → run_threads thread n array (place i) ≡ value i
    unfolding run_threads store
    run_threads-place zero array i below inside distinct = absurd (omega arith)
    run_threads-place (suc n) array i below inside distinct =
        let before = run_threads thread n array in
        elim (Bool-cases (n == i)) [
          | inl same ↦
              let last : n ≡ i = ground arith in
              let hit : eqb_ℤ (place i) (place n) ≡ true =
                ap (λ m. eqb_ℤ (place i) (place m)) last ∙ same_place (place i) in
              ap (λ f. f (place i)) (writes n before (ground arith))
              ∙ ap (λ t. if t then value n else before (place i)) hit
              ∙ ap value last
          | inr other ↦
              let rest = run_threads-place n array i (ground arith) inside distinct in
              elim (Bool-cases (ltb n bound)) [
                | inl acts ↦
                    let miss : eqb_ℤ (place i) (place n) ≡ false =
                      missed (eqb_ℤ (place i) (place n)) (distinct n (ground arith)) other in
                    ap (λ f. f (place i)) (writes n before (ground arith))
                    ∙ ap (λ t. if t then value n else before (place i)) miss
                    ∙ rest
                | inr idle ↦ ap (λ f. f (place i)) (idles n before (ground arith)) ∙ rest
              ]
        ]

-- The atom and the component of an item.
pub item_parts :
    (components a c : ℕ)
    → c < components
    → ((a * components + c) / components ≡ a)
      × (a * components + c - (a * components + c) / components * components ≡ c)
item_parts components a c h =
    let atom : (a * components + c) / components ≡ a =
      mul-add-div_right (omega arith) a c ∙ ap (λ r. a + r) (div-eq_of_lt h) ∙ (omega arith) in
    (atom, ap (λ q. a * components + c - q * components) atom ∙ (ground arith))

pub launched_covers : {n i : ℕ} → i < n → i < launched n
unfolding launched
launched_covers {n} {i} h = omega arith

pub item_below :
    (count components a c : ℕ)
    → a < count
    → c < components
    → a * components + c < count * components
item_below count components a c ha hc =
    let rows : suc a * components ≤ count * components = mul-le-mul_right components ha in
    omega arith

-- Where the array fits an `int`, the places of its components do.
pub place_below :
    (stride components c x : ℕ)
    → components * stride ≤ 2 ^ 31
    → c < components
    → x < stride
    → int_of_size (c * stride + x) ≡ pos (c * stride + x)
place_below stride components c x fits hc hx =
    let below = item_below components stride c x hc hx in
    int_of_size-small (c * stride + x) (omega arith)

pub place_of-eq :
    (slots : ℕ → ℕ) (stride components a c : ℕ)
    → components * stride ≤ 2 ^ 31
    → slots a < stride
    → c < components
    → place_of slots stride components (a * components + c) ≡ pos (c * stride + slots a)
unfolding place_of
place_of-eq slots stride components a c fits inside h =
    let (atom, component) = item_parts components a c h in
    let exact = place_below stride components c (slots a) fits h inside in cc

pub is_idle-eq :
    (count components item : ℕ)
    → count * components < 2 ^ 31
    → is_idle count components item ≡ leb (count * components) item
unfolding is_idle
is_idle-eq count components item fits =
    let exact = int_of_size-small (count * components) fits in ground arith

-- The row and the slot of a place.
pub split_place :
    (stride c c' x x' : ℕ)
    → x < stride
    → x' < stride
    → c * stride + x ≡ c' * stride + x'
    → (c ≡ c') × (x ≡ x')
split_place stride c c' x x' h h' same =
    let row : (c * stride + x) / stride ≡ c =
      mul-add-div_right (omega arith) c x ∙ ap (λ r. c + r) (div-eq_of_lt h) ∙ (omega arith) in
    let row' : (c' * stride + x') / stride ≡ c' =
      mul-add-div_right (omega arith) c' x' ∙ ap (λ r. c' + r) (div-eq_of_lt h') ∙ (omega arith) in
    let equal : c ≡ c' = sym row ∙ ap (λ p. p / stride) same ∙ row' in
    let rows : c * stride ≡ c' * stride = ap (λ r. r * stride) equal in (equal, omega arith)
