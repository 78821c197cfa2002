-- ===== src/Migration/Checks.antt =====
-- The checks of `validate_migration_plan` on the lists that `route` makes.
use dmg_md.Base.{
  ℕ, suc, ◌+◌, ◌^◌, ◌<◌, ◌≤◌, ◌≡◌, ◌≢◌, refl, sym, ap, ◌∙◌, true, inl, inr, List, [], ◌∷◌, ok,
  arith, length, length-set, get_or, set, read-set, ◌==◌, if◌then◌else◌, Bool-cases, count,
  AllBelow, flag, total, total_first, total_cong, total-count, total_except,
}
use dmg_md.Base.Int.{ℤ, pos, negsuc, ltb_ℤ}
use dmg_md.Base.Machine.{int_of_size-small, size_of_int}
use dmg_md.Migration.{check_slots, check_destinations, is_empty}
use dmg_md.Migration.Route.{routed}

-- No slot of `d` is flagged yet.
abbrev pub Fresh : ℕ → ℕ → List ℕ → List ℕ → Type 0
Fresh d slot [] seen = Unit {0}
Fresh d slot (o ∷ os) seen = (o ≡ d → flag seen slot ≡ 0) × Fresh d (suc slot) os seen

Fresh-cong :
    (d slot : ℕ) (os seen seen' : List ℕ)
    → ((j : ℕ) → slot ≤ j → flag seen' j ≡ flag seen j)
    → Fresh d slot os seen
    → Fresh d slot os seen'
Fresh-cong d slot [] seen seen' same h = tt
Fresh-cong d slot (o ∷ os) seen seen' same h = (
  λ e. same slot (omega arith) ∙ h.0 e,
  Fresh-cong d (suc slot) os seen seen' (λ j le. same j (omega arith)) h.1,
)

-- What a pass over the slots of `d` gives: no error, and only flags of `d`'s own slots.
record Passed (owned d slot : ℕ) (os : List ℕ) (previous : ℤ) (seen : List ℕ) : Type 0 where
  after : List ℕ
  accepts : check_slots owned previous (routed d slot os) seen ≡ ok after
  after_len : length after ≡ length seen
  earlier : (j : ℕ) → j < slot → flag after j ≡ flag seen j
  others : (e : ℕ) → e ≢ d → Fresh e slot os seen → Fresh e slot os after

accept_slot :
    (owned slot : ℕ) (previous : ℤ) (out : List ℤ) (seen : List ℕ)
    → slot < owned
    → ltb_ℤ previous (pos slot) ≡ true
    → flag seen slot ≡ 0
    → check_slots owned previous (pos slot ∷ out) seen
      ≡ check_slots owned (pos slot) out (set seen slot 1)
unfolding check_slots size_of_int
accept_slot owned slot previous out seen lt up free = ground arith

Passed-mine :
    (owned d o slot : ℕ) (os : List ℕ) (previous : ℤ) (seen : List ℕ)
    → owned < 2 ^ 31
    → slot < owned
    → length seen ≡ owned
    → ltb_ℤ previous (pos slot) ≡ true
    → flag seen slot ≡ 0
    → o ≡ d
    → Passed owned d (suc slot) os (pos slot) (set seen slot 1)
    → Passed owned d slot (o ∷ os) previous seen
Passed-mine owned d o slot os previous seen small lt l up free mine rest =
    let seen1 = set seen slot 1 in
    let write = λ (j : ℕ). read-set seen slot 1 j 0 in
    record {
      after = rest.after;
      accepts = ground (
        arith,
        int_of_size-small slot,
        accept_slot owned slot previous (routed d (suc slot) os) seen lt up free,
        rest.accepts,
      );
      after_len = omega (arith, rest.after_len, length-set seen slot 1);
      earlier = λ j below. ground (arith, rest.earlier j, write j);
      others = λ e ne f. (
        λ is. absurd (ne (sym is ∙ mine)),
        rest.others e ne
            (Fresh-cong e (suc slot) os seen seen1 (λ j le. ground (arith, write j)) f.1),
      );
    }

check_slots-routed :
    (owned d : ℕ) (os : List ℕ) (slot : ℕ) (previous : ℤ) (seen : List ℕ)
    → owned < 2 ^ 31
    → slot + length os ≡ owned
    → length seen ≡ owned
    → ltb_ℤ previous (pos slot) ≡ true
    → Fresh d slot os seen
    → Passed owned d slot os previous seen
unfolding check_slots
check_slots-routed owned d [] slot previous seen small e l up h = record {
  after = seen;
  accepts = refl;
  after_len = refl;
  earlier = λ j lt. refl;
  others = λ e' ne f. tt;
}
check_slots-routed owned d (o ∷ os) slot previous seen small e l up h = elim (Bool-cases (o == d)) [
  | inl mine ↦
      let is : o ≡ d = ground arith in
      let fresh =
        Fresh-cong d (suc slot) os seen (set seen slot 1)
          (λ j le. ground (arith, read-set seen slot 1 j 0)) h.1 in
      Passed-mine owned d o slot os previous seen small (omega arith) l up (h.0 is) is (
        check_slots-routed owned d os (suc slot) (pos slot) (set seen slot 1) small (omega arith)
          (length-set seen slot 1 ∙ l) (ground arith) fresh)
  | inr other ↦
      let rest =
        check_slots-routed owned d os (suc slot) previous seen small (omega arith) l (ground arith)
          h.1 in
      record {
        after = rest.after;
        accepts = rw other rest.accepts;
        after_len = rest.after_len;
        earlier = λ j lt. rest.earlier j (omega arith);
        others = λ e' ne f. (λ is. rest.earlier slot (omega arith) ∙ f.0 is, rest.others e' ne f.1);
      }
]

-- What the routing sends to `d`: nothing to itself.
abbrev pub sent_to : ℕ → ℕ → List ℕ → List ℤ
sent_to r d os = if d == r then [] else routed d 0 os

abbrev pub sent_count : ℕ → List ℕ → ℕ → ℕ
sent_count r os d = if d == r then 0 else count d os

length-routed : (d slot : ℕ) (os : List ℕ) → length (routed d slot os) ≡ count d os
length-routed d slot [] = refl
length-routed d slot (o ∷ os) = ground (arith, length-routed d (suc slot) os)

destination_step :
    (owned r d t : ℕ) (x : ℤ) (out : List ℤ) (cs : List ℤ) (outs : List (List ℤ))
    (seen seen1 : List ℕ)
    → x ≡ pos (length out)
    → (d ≡ r → out ≡ [])
    → check_slots owned (negsuc 0) out seen ≡ ok seen1
    → check_destinations owned (pos r) d (x ∷ cs) (out ∷ outs) seen t
      ≡ check_destinations owned (pos r) (suc d) cs outs seen1 (t + length out)
unfolding check_destinations size_of_int is_empty
destination_step owned r d t x out cs outs seen seen1 e self passes = ground (arith, self)

-- The slots of the atoms that leave, from destination `d` on.
abbrev pub leaving : ℕ → List ℕ → ℕ → ℕ → ℕ
leaving r os d m = total (λ i. sent_count r os (d + i)) m

leaving_first :
    (r : ℕ) (os : List ℕ) (d m : ℕ)
    → leaving r os d (suc m) ≡ sent_count r os d + leaving r os (suc d) m
leaving_first r os d m =
    let here : d + 0 ≡ d = omega arith in
    total_first (λ i. sent_count r os (d + i)) m
    ∙ ap (λ k. sent_count r os k + total (λ i. sent_count r os (d + suc i)) m) here
    ∙ ap (λ k. sent_count r os d + k)
        (total_cong (λ i. sent_count r os (d + suc i)) (λ i. sent_count r os (suc d + i)) m
          (λ i lt. ap (sent_count r os) (omega arith)))

pub length-sent_to : (r d : ℕ) (os : List ℕ) → length (sent_to r d os) ≡ sent_count r os d
length-sent_to r d os = ground (arith, length-routed d 0 os)

-- The pass over one destination.
record Cleared (owned r d : ℕ) (os seen : List ℕ) : Type 0 where
  after : List ℕ
  accepts : check_slots owned (negsuc 0) (sent_to r d os) seen ≡ ok after
  after_len : length after ≡ owned
  fresh : (e : ℕ) → suc d ≤ e → Fresh e 0 os after

clear :
    (owned r d : ℕ) (os seen : List ℕ)
    → owned < 2 ^ 31
    → length os ≡ owned
    → length seen ≡ owned
    → ((e : ℕ) → d ≤ e → Fresh e 0 os seen)
    → Cleared owned r d os seen
unfolding check_slots
clear owned r d os seen small l ls f = elim (Bool-cases (d == r)) [
  | inl self ↦ record {
    after = seen;
    accepts = rw self refl;
    after_len = ls;
    fresh = λ e le. f e (omega arith);
  }
  | inr other ↦
      let pass =
        check_slots-routed owned d os 0 (negsuc 0) seen small (omega arith) ls refl
          (f d (omega arith)) in
      record {
        after = pass.after;
        accepts = rw other pass.accepts;
        after_len = pass.after_len ∙ ls;
        fresh = λ e le. pass.others e (omega arith) (f e (omega arith));
      }
]

pub check_destinations-routed :
    (owned r : ℕ) (os : List ℕ) (cs : List ℤ) (outs : List (List ℤ)) (d t : ℕ) (seen : List ℕ)
    → owned < 2 ^ 31
    → length os ≡ owned
    → length seen ≡ owned
    → length cs ≡ length outs
    → ((i j : ℕ) → j ≡ d + i → i < length outs → get_or cs i (pos 0) ≡ pos (sent_count r os j))
    → ((i j : ℕ) → j ≡ d + i → i < length outs → get_or outs i [] ≡ sent_to r j os)
    → ((e : ℕ) → d ≤ e → Fresh e 0 os seen)
    → check_destinations owned (pos r) d cs outs seen t ≡ ok (t + leaving r os d (length outs))
unfolding check_destinations
check_destinations-routed owned r os [] [] d t seen small l ls lc c o f = ap ok (omega arith)
check_destinations-routed owned r os [] (x ∷ outs) d t seen small l ls lc c o f =
    absurd (omega arith)
check_destinations-routed owned r os (x ∷ cs) [] d t seen small l ls lc c o f = absurd (omega arith)
check_destinations-routed owned r os (x ∷ cs) (out ∷ outs) d t seen small l ls lc c o f =
    let cleared = clear owned r d os seen small l ls f in
    let out_is : out ≡ sent_to r d os = o 0 d (omega arith) (omega arith) in
    let x_is : x ≡ pos (length out) =
      c 0 d (omega arith) (omega arith)
      ∙ ap pos (sym (length-sent_to r d os) ∙ ap length (sym out_is)) in
    destination_step owned r d t x out cs outs seen cleared.after x_is
      (λ self. out_is ∙ ground arith)
      (ap (λ k. check_slots owned (negsuc 0) k seen) out_is ∙ cleared.accepts)
    ∙ check_destinations-routed owned r os cs outs (suc d) (t + length out) cleared.after small l
        cleared.after_len (omega arith) (λ i j e lt. c (suc i) j (omega arith) (omega arith))
        (λ i j e lt. o (suc i) j (omega arith) (omega arith)) cleared.fresh
    ∙ ap ok
        (omega (arith, ap length out_is, length-sent_to r d os, leaving_first r os d (length outs)))

-- Together with the atoms that stay, the atoms that leave are all the atoms.
pub leaving_all :
    (r n : ℕ) (os : List ℕ) → AllBelow n os → r < n → leaving r os 0 n + count r os ≡ length os
leaving_all r n os b lt =
    let shifted =
      total_cong (λ i. sent_count r os (0 + i)) (sent_count r os) n
        (λ i l. ap (sent_count r os) (omega arith)) in
    ground (arith, shifted, total_except (λ k. count k os) r n, total-count n os b)
