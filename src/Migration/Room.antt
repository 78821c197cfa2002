-- ===== src/Migration/Room.antt =====
-- The counters of a plan stay below 2^31 while the loop routes fewer atoms than that.
use dmg_md.Base.{
  ℕ, suc, ◌≤◌, ◌<◌, ◌^◌, ◌≡◌, refl, arith, length, get_or, read-set, read-replicate, if_holds, ◌==◌,
}
use dmg_md.Base.Int.{ℤ, pos, pos_part, eqb_ℤ, ◌+ℤ◌}
use dmg_md.Base.Machine.{int_succ}
use dmg_md.Migration.{MigrationPlan, route, empty_plan}

-- A counter between 0 and a bound.
pub IsUpTo : ℕ → ℤ → Type 0
IsUpTo m z = (z ≡ pos (pos_part z)) × (pos_part z ≤ m)

IsUpTo-suc : (m : ℕ) (z : ℤ) → IsUpTo m z → IsUpTo (suc m) z
unfolding IsUpTo
IsUpTo-suc m z (is, le) = (is, omega arith)

pub int_succ-IsUpTo :
    (m : ℕ) (z : ℤ)
    → suc m < 2 ^ 31
    → IsUpTo m z
    → (int_succ z ≡ z +ℤ pos 1) × IsUpTo (suc m) (int_succ z)
unfolding IsUpTo int_succ ◌+ℤ◌
int_succ-IsUpTo m z small (is, le) = (ground arith, (ground arith, ground arith))

-- Before the atom of a slot, the counters are at most the slot.
unfoldable pub HasRoom : ℕ → MigrationPlan → Type 0
HasRoom slot p =
    ((d : ℕ) → IsUpTo slot (get_or p.send_counts d (pos 0))) × IsUpTo slot p.staying_count

pub route-HasRoom :
    (r o slot : ℕ) (p : MigrationPlan)
    → suc slot < 2 ^ 31
    → o < length p.send_counts
    → HasRoom slot p
    → HasRoom (suc slot) (route (pos r) (pos o) slot p)
unfolding route HasRoom
route-HasRoom r o slot p small inside (sends, stays) =
    let one = int_succ (get_or p.send_counts o (pos 0)) in
    if_holds (HasRoom (suc slot)) (eqb_ℤ (pos o) (pos r)) _ _
      (λ h.
        (λ d. IsUpTo-suc slot _ (sends d), (int_succ-IsUpTo slot p.staying_count small stays).1))
      (λ h. (
        λ d. rw (read-set p.send_counts o one d (pos 0) inside) (
            if_holds (IsUpTo (suc slot)) (o == d) one (get_or p.send_counts d (pos 0))
              (λ e. (int_succ-IsUpTo slot _ small (sends o)).1) (λ e. IsUpTo-suc slot _ (sends d))),
        IsUpTo-suc slot _ stays,
      ))

pub empty-HasRoom : (n : ℕ) → HasRoom 0 (empty_plan n)
unfolding HasRoom IsUpTo
empty-HasRoom n = (λ d. rw (read-replicate n (pos 0) d) (refl, omega arith), (refl, omega arith))
