-- ===== src/Exchange/Sends.antt =====
-- The send lists of a built plan: rising owned slots, and whom they reach.
use dmg_md.Base.{
  ℕ, zero, suc, ◌+◌, ◌^◌, ◌<◌, ◌≡◌, refl, ap, ◌∙◌, Bool, true, false, List, [], ◌∷◌, ok, arith,
  length, if◌then◌else◌, get_or,
}
use dmg_md.Base.Int.{ℤ, pos, ltb_ℤ}
use dmg_md.Base.Machine.{int_of_size-small, size_of_int}
use dmg_md.Exchange.Recv.{occurs}
use dmg_md.Exchange.{flagged, check_sends}

send_step :
    (owned slot : ℕ) (previous : ℤ) (slots : List ℤ)
    → slot < owned
    → ltb_ℤ previous (pos slot) ≡ true
    → check_sends owned previous (pos slot ∷ slots) ≡ check_sends owned (pos slot) slots
unfolding check_sends size_of_int
send_step owned slot previous slots lt up = ground arith

-- The validation accepts the slots of a set of flags.
pub check_sends-flagged :
    (owned slot : ℕ) (previous : ℤ) (bs : List Bool)
    → owned < 2 ^ 31
    → slot + length bs ≡ owned
    → ltb_ℤ previous (pos slot) ≡ true
    → check_sends owned previous (flagged slot bs) ≡ ok tt
unfolding check_sends flagged
check_sends-flagged owned slot previous [] small e up = refl
check_sends-flagged owned slot previous (true ∷ bs) small e up =
    ap (λ k. check_sends owned previous (k ∷ flagged (suc slot) bs))
      (int_of_size-small slot (omega arith))
    ∙ send_step owned slot previous (flagged (suc slot) bs) (omega arith) up
    ∙ check_sends-flagged owned (suc slot) (pos slot) bs small (omega arith) (ground arith)
check_sends-flagged owned slot previous (false ∷ bs) small e up =
    check_sends-flagged owned (suc slot) previous bs small (omega arith) (ground arith)

abbrev pub flag_at : List Bool → ℕ → Bool
flag_at bs k = get_or bs k false

occurs_early :
    (bs : List Bool) (slot k : ℕ)
    → slot + length bs < 2 ^ 31
    → k < slot
    → occurs k (flagged slot bs) ≡ 0
unfolding flagged
occurs_early [] slot k small lt = refl
occurs_early (true ∷ bs) slot k small lt =
    ground (arith, int_of_size-small slot, occurs_early bs (suc slot) k)
occurs_early (false ∷ bs) slot k small lt = occurs_early bs (suc slot) k (omega arith) (omega arith)

-- A slot is listed once if its flag is set, and not at all otherwise.
pub occurs-flagged :
    (bs : List Bool) (slot k j : ℕ)
    → slot + length bs < 2 ^ 31
    → j ≡ slot + k
    → occurs j (flagged slot bs) ≡ (if flag_at bs k then 1 else 0)
unfolding flagged
occurs-flagged [] slot k j small e = refl
occurs-flagged (true ∷ bs) slot zero j small e =
    ground (arith, int_of_size-small slot, occurs_early bs (suc slot) j)
occurs-flagged (false ∷ bs) slot zero j small e =
    occurs_early bs (suc slot) j (omega arith) (omega arith)
occurs-flagged (true ∷ bs) slot (suc k) j small e =
    ground (arith, int_of_size-small slot, occurs-flagged bs (suc slot) k j)
occurs-flagged (false ∷ bs) slot (suc k) j small e =
    occurs-flagged bs (suc slot) k j (omega arith) (omega arith)
