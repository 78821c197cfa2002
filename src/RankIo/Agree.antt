-- ===== src/RankIo/Agree.antt =====
-- The constructor ends alike on all ranks.
use dmg_md.RankIo.Local.{set_isolation}
use Prim.Native.Nat.{bit_xor}
use Prim.Native.String.{String}
use dmg_md.Base.{
  ℕ, zero, suc, ◌*◌, ◌/◌, ◌%◌, ◌^◌, ◌<◌, ◌==◌, Bool, true, false, ◌&&◌, not, [], ◌∷◌, ◌++◌, Result,
  ok, err, ◌≡◌, refl, ◌↔◌, arith, ap, sym, ◌∙◌, if◌then◌else◌, if_holds,
}
use dmg_md.RunFile.{Bytes}
use dmg_md.RankIo.{System, Place, Process, is_empty_text}
use dmg_md.RankIo.Names.{is_hex_digit, all_hex, count_bytes, is_hex_token}
use dmg_md.RankIo.World.{
  Collectives, Failure, failed, hexadecimal, hex_digits, make_job_nonce, local_setup, joint_message,
  fail_together, conclude, nonce_at, construct_isolation, abandon, activated,
}

count_bytes_snoc : (a : Bytes) (c : ℕ) → count_bytes (a ++ (c ∷ [])) ≡ suc (count_bytes a)
unfolding count_bytes
count_bytes_snoc [] c = refl
count_bytes_snoc (b ∷ bs) c = ap suc (count_bytes_snoc bs c)

all_hex_snoc : (a : Bytes) (c : ℕ) → all_hex (a ++ (c ∷ [])) ≡ (all_hex a && is_hex_digit c)
unfolding all_hex
all_hex_snoc [] c = ground arith
all_hex_snoc (b ∷ bs) c = let rest = all_hex_snoc bs c in ground arith

hexadecimal-is_hex_digit : (d : ℕ) → d < 16 → is_hex_digit (hexadecimal d) ≡ true
unfolding is_hex_digit hexadecimal
hexadecimal-is_hex_digit d h = ground arith

hex_digits-all_hex :
    (n v : ℕ) → (count_bytes (hex_digits n v) ≡ n) × (all_hex (hex_digits n v) ≡ true)
unfolding hex_digits count_bytes all_hex
hex_digits-all_hex zero v = (refl, refl)
hex_digits-all_hex (suc n) v =
    let front = hex_digits n (v / 16) in
    let (count, hex) = hex_digits-all_hex n (v / 16) in
    let digit = hexadecimal-is_hex_digit (v % 16) (omega arith) in
    let longer = count_bytes_snoc front (hexadecimal (v % 16)) in
    let both = all_hex_snoc front (hexadecimal (v % 16)) in (ground arith, ground arith)

pub make_job_nonce-is_hex_token :
    (high steady : ℕ) → is_hex_token (make_job_nonce high steady) ≡ true
unfolding make_job_nonce is_hex_token
make_job_nonce-is_hex_token high steady =
    let (count, hex) = hex_digits-all_hex 16 (bit_xor (high % 2 ^ 64) (steady * 2 % 2 ^ 64)) in
    ground arith

is_empty-eq : (b : Bytes) → is_empty_text b ≡ true → b ≡ []
is_empty-eq [] h = refl
is_empty-eq (c ∷ cs) h = cc

same_tests : (a b : Bool) {P : Type 0} → (a ≡ true) ↔ P → (b ≡ true) ↔ P → a ≡ b
same_tests true true f g = refl
same_tests false false f g = refl
same_tests true false f g = sym (g.1 (f.0 refl))
same_tests false true f g = f.1 (g.0 refl)

if_first :
    {A B : Type 0} (t : Bool) (x y : A) (v w : B)
    → (if◌then◌else◌ {A = A × B} t (x, v) (y, w)).0 ≡ (if t then x else y)
if_first true x y v w = refl
if_first false x y v w = refl

-- The outcome of a test that all ranks see alike.
outcome : Bool → Bytes → Result Failure (Unit {0})
outcome passed text = if passed then ok tt else err (failed text)

outcome-eq-ok : (t : Bool) (text : Bytes) → (outcome t text ≡ ok tt) ↔ (t ≡ true)
unfolding outcome
outcome-eq-ok true text = (λ h. refl, λ h. refl)
outcome-eq-ok false text = (λ h. absurd (cc), λ h. absurd (cc))

module _ {Fs : Type 0} (os : System Fs) (mpi : Collectives) (world : ℕ) (place : ℕ → Place)
    (broadcasts : (texts : ℕ → Bytes) (r : ℕ) → mpi.broadcast_string texts r ≡ texts 0)
    (reduces : (flags : ℕ → Bool) (r : ℕ)
      → (mpi.allreduce_all_passed flags r ≡ true) ↔ ((k : ℕ) → k < world → flags k ≡ true)) where
  pub allreduce_same :
      (flags : ℕ → Bool) (r k : ℕ)
      → mpi.allreduce_all_passed flags r ≡ mpi.allreduce_all_passed flags k
  allreduce_same flags r k = same_tests _ _ (reduces flags r) (reduces flags k)

  pub fail_together_same :
      (phase : String) (errors : ℕ → Bytes) (r k : ℕ)
      → fail_together mpi world phase errors r ≡ fail_together mpi world phase errors k
  unfolding fail_together
  fail_together_same phase errors r k =
      let message = joint_message mpi world phase errors in
      broadcasts message r ∙ sym (broadcasts message k)

  -- What the constructor throws on rank r when a setup failed.
  thrown_text : (ℕ → Bytes × Process Fs) → ℕ → Bytes
  thrown_text setup r = fail_together mpi world "setup" (λ k. (abandon os (place k) (setup k)).0) r

  conclude-outcome :
      (setup : ℕ → Bytes × Process Fs) (r : ℕ)
      → (conclude os mpi world place setup r).0
        ≡ outcome
            (mpi.allreduce_all_passed (λ k. is_empty_text (setup k).0) r)
            (thrown_text setup r)
  unfolding conclude outcome thrown_text
  conclude-outcome setup r =
      if_first {B = Process Fs} (mpi.allreduce_all_passed (λ k. is_empty_text (setup k).0) r)
        (ok tt) (err (failed (thrown_text setup r))) (set_isolation (activated true) (setup r).1)
        (abandon os (place r) (setup r)).1

  conclude_same :
      (setup : ℕ → Bytes × Process Fs) (r k : ℕ)
      → (conclude os mpi world place setup r).0 ≡ (conclude os mpi world place setup k).0
  unfolding thrown_text
  conclude_same setup r k =
      let flags : ℕ → Bool = λ j. is_empty_text (setup j).0 in
      let texts : ℕ → Bytes = λ j. (abandon os (place j) (setup j)).0 in
      conclude-outcome setup r
      ∙ ap (λ t. outcome t (thrown_text setup r)) (allreduce_same flags r k)
      ∙ ap (outcome (mpi.allreduce_all_passed flags k)) (fail_together_same "setup" texts r k)
      ∙ sym (conclude-outcome setup k)

  conclude-eq-ok :
      (setup : ℕ → Bytes × Process Fs) (r : ℕ)
      → ((conclude os mpi world place setup r).0 ≡ ok tt) ↔ ((k : ℕ) → k < world → (setup k).0 ≡ [])
  conclude-eq-ok setup r =
      let flags : ℕ → Bool = λ j. is_empty_text (setup j).0 in
      let passed = outcome-eq-ok (mpi.allreduce_all_passed flags r) (thrown_text setup r) in
      let all_passed = reduces flags r in
      (
        λ h. λ k. λ below.
            is_empty-eq (setup k).0
              (all_passed.0 (passed.0 (sym (conclude-outcome setup r) ∙ h)) k below),
        λ h.
            conclude-outcome setup r
            ∙ passed.1 (all_passed.1 (λ k. λ below. ap is_empty_text (h k below))),
      )

  nonce_at-is_hex_token : (clocks : ℕ → ℕ × ℕ) (r : ℕ) → is_hex_token (nonce_at mpi clocks r) ≡ true
  unfolding nonce_at
  nonce_at-is_hex_token clocks r =
      ap is_hex_token
        (broadcasts (λ k. if k == 0 then make_job_nonce (clocks k).0 (clocks k).1 else []) r)
      ∙ make_job_nonce-is_hex_token (clocks 0).0 (clocks 0).1

  -- The setup of each rank, with the nonce that it received.
  unfoldable pub setup_of : (ℕ → ℕ × ℕ) → (ℕ → Process Fs) → ℕ → Bytes × Process Fs
  setup_of clocks s k = local_setup os (place k) (nonce_at mpi clocks k) (s k)

  construct_isolation-conclude :
      (clocks : ℕ → ℕ × ℕ) (s : ℕ → Process Fs) (r : ℕ)
      → 1 < world
      → construct_isolation os mpi world place clocks s r
        ≡ conclude os mpi world place (setup_of clocks s) r
  unfolding construct_isolation setup_of
  construct_isolation-conclude clocks s r many =
      let hex = nonce_at-is_hex_token clocks r in
      let wanted = conclude os mpi world place (setup_of clocks s) r in
      if_holds (λ p. p ≡ wanted) (world == 1) _ _ (λ one. absurd (ground arith))
        (λ several.
          if_holds (λ p. p ≡ wanted) (not (is_hex_token (nonce_at mpi clocks r))) _ _
            (λ bad. absurd (ground arith)) (λ good. refl))

  -- With several ranks, a broadcast of the text of rank 0 and a reduction that is true on a rank
  -- exactly if all ranks passed, the constructor ends alike on any two ranks, with the same text where
  -- it throws, and it returns exactly if the setup of every rank had no error.
  pub construct_isolation-together :
      (clocks : ℕ → ℕ × ℕ) (s : ℕ → Process Fs) (r k : ℕ)
      → 1 < world
      → ((construct_isolation os mpi world place clocks s r).0
          ≡ (construct_isolation os mpi world place clocks s k).0)
        × (((construct_isolation os mpi world place clocks s r).0 ≡ ok tt) ↔ (
            (j : ℕ) → j < world → (local_setup os (place j) (nonce_at mpi clocks j) (s j)).0 ≡ []))
  unfolding setup_of
  construct_isolation-together clocks s r k many =
      let setup = setup_of clocks s in
      let one = construct_isolation-conclude clocks s r many in
      let other = construct_isolation-conclude clocks s k many in
      let settled = conclude-eq-ok setup r in
      (
        ap (λ p. p.0) one ∙ conclude_same setup r k ∙ sym (ap (λ p. p.0) other),
        (λ h. settled.0 (sym (ap (λ p. p.0) one) ∙ h), λ h. ap (λ p. p.0) one ∙ settled.1 h),
      )
