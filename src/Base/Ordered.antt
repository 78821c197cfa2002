-- ===== src/Base/Ordered.antt =====
-- Rising lists of numbers, and predicates on every element of a list.
use Prim.Native.Nat.{ℕ, suc, ◌≤◌, ◌<◌}
use mathlib.Core.Path.{◌≡◌, refl}
use mathlib.Core.List.{List, [], ◌∷◌, ◌++◌}
use native.Mathlib.Omega.{arith}
use dmg_md.Base.Counting.{count}

-- The numbers rise, from `lo` on.
abbrev pub AscendingFrom : ℕ → List ℕ → Type 0
AscendingFrom lo [] = Unit {0}
AscendingFrom lo (x ∷ xs) = (lo ≤ x) × AscendingFrom (suc x) xs

pub AscendingFrom-weaken :
    {lo hi : ℕ} (xs : List ℕ) → lo ≤ hi → AscendingFrom hi xs → AscendingFrom lo xs
AscendingFrom-weaken [] h a = tt
AscendingFrom-weaken (x ∷ xs) h a = (omega arith, a.1)

pub count_below : (k lo : ℕ) (xs : List ℕ) → AscendingFrom lo xs → k < lo → count k xs ≡ 0
count_below k lo [] a h = refl
count_below k lo (x ∷ xs) a h = ground (arith, count_below k (suc x) xs a.1)

pub count-AscendingFrom : (k lo : ℕ) (xs : List ℕ) → AscendingFrom lo xs → count k xs ≤ 1
count-AscendingFrom k lo [] a = omega arith
count-AscendingFrom k lo (x ∷ xs) a =
    ground (arith, count-AscendingFrom k (suc x) xs a.1, count_below k (suc x) xs a.1)

abbrev pub All {ℓ} : {A : Type ℓ} → (A → Type 0) → List A → Type 0
All P [] = Unit
All P (x ∷ xs) = P x × All P xs

module _ {ℓ} {A : Type ℓ} (P : A → Type 0) where
  pub All-append : (xs ys : List A) → All P xs → All P ys → All P (xs ++ ys)
  All-append [] ys p q = q
  All-append (x ∷ xs) ys p q = (p.0, All-append xs ys p.1 q)

  pub All-map : (Q : A → Type 0) (xs : List A) → ((a : A) → P a → Q a) → All P xs → All Q xs
  All-map Q [] h p = tt
  All-map Q (x ∷ xs) h p = (h x p.0, All-map Q xs h p.1)
