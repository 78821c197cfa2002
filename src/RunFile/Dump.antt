-- ===== src/RunFile/Dump.antt =====
-- What holds of the intervals and of the dump_xyz commands that the parser accepts.
use dmg_md.Base.{
  ℕ, zero, suc, ◌≡◌, refl, Bool, true, false, not, ◌&&◌, ◌||◌, List, [], ◌∷◌, Option, none, some,
  Result, ok, err, ◌>>=◌, ◌>>◌, throw_if, arith, >>=-eq-ok, ok-injective, subst, throw_if-eq-ok,
}
use dmg_md.Base.Int.{ℤ, pos, ltb_ℤ}
use dmg_md.RunFile.Numbers.{parse_int, fits_int, parse_int-fits}
use dmg_md.RunFile.Commands.{
  fail_if, DumpState, DumpStep, group_option, precision_option, dump_option, dump_options,
  parse_dump_xyz, is_empty_name, no_quantities,
}
use dmg_md.RunFile.Parse.{parse_interval, parse_run}
use dmg_md.RunFile.{
  Bytes, SourceLocation, InputError, DumpXyzCommand, repeated_option, negative, not_positive,
  empty_filename, single,
}

-- A positive number of type `int`.
abbrev pub is_interval : ℤ → Bool
is_interval n = fits_int n && ltb_ℤ (pos 0) n

-- An `int` that is not negative.
abbrev pub is_index : ℤ → Bool
is_index n = fits_int n && not (ltb_ℤ n (pos 0))

-- A grouping method and a group go together.
abbrev pub is_grouping : Option ℤ → Option ℤ → Bool
is_grouping none none = true
is_grouping (some method) (some group) = is_index method && is_index group
is_grouping _ _ = false

abbrev pub good_dump : DumpXyzCommand → Bool
good_dump x =
    is_interval x.interval
    && not (is_empty_name x.filename)
    && is_grouping x.grouping_method x.group_id

pub parse_interval-good :
    (args : List Bytes) (at : SourceLocation) {n : ℤ}
    → parse_interval args at ≡ ok n
    → is_interval n ≡ true
unfolding parse_interval parse_int
parse_interval-good [] at e = cc
parse_interval-good (token ∷ []) at e = ground arith
parse_interval-good (token ∷ b ∷ rest) at e = cc

pub parse_run-good :
    (args : List Bytes) (at : SourceLocation) {n : ℤ} → parse_run args at ≡ ok n → fits_int n ≡ true
unfolding parse_run parse_int
parse_run-good [] at e = cc
parse_run-good (token ∷ []) at e = ground arith
parse_run-good (token ∷ b ∷ rest) at e = cc

-- Two numbers read one after the other, neither of them negative.
pair_step :
    {A : Type 0} (p q : Result InputError ℤ) (seen : Bool) (e0 e1 : InputError) (k : ℤ → ℤ → A)
    {s : A}
    → (throw_if seen e0
        >> (p >>= λ m. q >>= λ n. throw_if (ltb_ℤ m (pos 0) || ltb_ℤ n (pos 0)) e1 >> ok (k m n)))
      ≡ ok s
    → (m : ℤ) × (n : ℤ) × (p ≡ ok m)
      × (q ≡ ok n)
      × (ltb_ℤ m (pos 0) || ltb_ℤ n (pos 0)) ≡ false
      × (k m n ≡ s)
pair_step p q true e0 e1 k e = cc
pair_step (err x) q false e0 e1 k e = cc
pair_step (ok m) (err x) false e0 e1 k e = cc
pair_step (ok m) (ok n) false e0 e1 k e =
    let (signs, is) = throw_if-eq-ok (ltb_ℤ m (pos 0) || ltb_ℤ n (pos 0)) e1 (ok (k m n)) e in
    (m, n, refl, refl, signs, ok-injective is)

group_option-good :
    (at : SourceLocation) (rest : List Bytes) (st : DumpState) {s : DumpStep}
    → good_dump st.command ≡ true
    → group_option at rest st ≡ ok s
    → good_dump s.state.command ≡ true
unfolding group_option
group_option-good at [] st good e = ground arith
group_option-good at (a ∷ []) st good e = ground arith
group_option-good at (a ∷ b ∷ rest) st good e =
    let (m, n, first, second, signs, is) =
      pair_step (parse_int a at) (parse_int b at) st.group_seen
        (record { location = at; message = repeated_option })
        (record { location = at; message = negative })
        (λ m n. record {
          state = record st {
            command = record st.command { grouping_method = some m; group_id = some n };
            group_seen = true;
          };
          taken = 2;
        })
        e in
    let fits = parse_int-fits a at first in
    let fits' = parse_int-fits b at second in
    subst (λ (s : DumpStep). good_dump s.state.command ≡ true) is (ground arith)

precision_option-good :
    (at : SourceLocation) (rest : List Bytes) (st : DumpState) {s : DumpStep}
    → good_dump st.command ≡ true
    → precision_option at rest st ≡ ok s
    → good_dump s.state.command ≡ true
unfolding precision_option
precision_option-good at [] st good e = ground arith
precision_option-good at (a ∷ rest) st good e = ground arith

dump_option-good :
    (at : SourceLocation) (token : Bytes) (rest : List Bytes) (st : DumpState) {s : DumpStep}
    → good_dump st.command ≡ true
    → dump_option at token rest st ≡ ok s
    → good_dump s.state.command ≡ true
unfolding dump_option
dump_option-good at token rest st {s} good e = ground (
  arith,
  group_option-good at rest st {s = s} good,
  precision_option-good at rest st {s = s} good,
)

dump_options-good :
    (at : SourceLocation) (tokens : List Bytes) (taken : ℕ) (st : DumpState) {x : DumpXyzCommand}
    → good_dump st.command ≡ true
    → dump_options at tokens taken st ≡ ok x
    → good_dump x ≡ true
unfolding dump_options
dump_options-good at [] taken st good e = ground arith
dump_options-good at (token ∷ rest) (suc taken) st good e =
    dump_options-good at rest taken st good e
dump_options-good at (token ∷ rest) zero st good e =
    let (s, one, e1) =
      >>=-eq-ok (dump_option at token rest st) (λ s. dump_options at rest s.taken s.state) e in
    dump_options-good at rest s.taken s.state (dump_option-good at token rest st good one) e1

-- An accepted dump_xyz has a positive interval in the range of `int`, a filename that is not empty,
-- and either no group or a grouping method and a group that are not negative.
pub parse_dump_xyz-good :
    (args : List Bytes) (at : SourceLocation) {x : DumpXyzCommand}
    → parse_dump_xyz args at ≡ ok x
    → good_dump x ≡ true
unfolding parse_dump_xyz
parse_dump_xyz-good [] at e = cc
parse_dump_xyz-good (a ∷ []) at e = cc
parse_dump_xyz-good (a ∷ name ∷ options) at {x} e =
    let start : ℤ → DumpState = λ n. record {
      command = record {
        interval = n;
        filename = name;
        precision = single;
        grouping_method = none;
        group_id = none;
        quantities = no_quantities;
      };
      group_seen = false;
      precision_seen = false;
    } in
    let loop = λ (n : ℤ). dump_options at options 0 (start n) in
    let named = λ (n : ℤ). fail_if (is_empty_name name) at empty_filename >> loop n in
    let (n, read, e1) =
      >>=-eq-ok (parse_int a at) (λ n. fail_if (not (ltb_ℤ (pos 0) n)) at not_positive >> named n)
        e in
    let (above, e2) =
      throw_if-eq-ok (not (ltb_ℤ (pos 0) n)) (record { location = at; message = not_positive })
        (named n) e1 in
    let (some_name, e3) =
      throw_if-eq-ok (is_empty_name name) (record { location = at; message = empty_filename })
        (loop n) e2 in
    let fits = parse_int-fits a at read in
    let ready : good_dump (start n).command ≡ true = ground arith in
    dump_options-good at options 0 (start n) ready e3
