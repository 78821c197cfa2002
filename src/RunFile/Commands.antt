-- ===== src/RunFile/Commands.antt =====
-- `parse_dump_xyz` and `parse_command`: the tokens of a line as a command. A message of the code is
-- a `Complaint`, which keeps its kind.
use dmg_md.Base.{
  ℕ, zero, suc, Bool, true, false, not, ◌&&◌, ◌||◌, List, [], ◌∷◌, none, some, Result, ok, err,
  ◌>>=◌, ◌>>◌, throw_if, if◌then◌else◌,
}
use dmg_md.Base.Int.{pos, ltb_ℤ}
use dmg_md.RunFile.Text.{is_word, codes}
use dmg_md.RunFile.Numbers.{parse_int}
use dmg_md.RunFile.{
  Bytes, SourceLocation, InputError, Complaint, single, double_precision, DumpXyzQuantities,
  DumpXyzCommand, wrong_size, bad_option, repeated_option, missing_argument, not_positive, negative,
  empty_filename, unsupported,
}

abbrev pub fail : {A : Type 0} → SourceLocation → Complaint → Result InputError A
fail at message = err (record { location = at; message = message })

-- `if (bad) fail(source, message);`
abbrev pub fail_if : Bool → SourceLocation → Complaint → Result InputError (Unit {0})
fail_if bad at message = throw_if bad (record { location = at; message = message })

-- The variables of the loop over the options of dump_xyz.
pub record DumpState : Type 0 where
  pub command : DumpXyzCommand
  pub group_seen : Bool
  pub precision_seen : Bool

-- One round of the loop: the variables after it, and how many more tokens it took.
pub record DumpStep : Type 0 where
  pub state : DumpState
  pub taken : ℕ

unfoldable pub group_option : SourceLocation → List Bytes → DumpState → Result InputError DumpStep
group_option at (method ∷ group ∷ rest) st = do
  throw_if st.group_seen (record { location = at; message = repeated_option })
  grouping_method ← parse_int method at
  group_id ← parse_int group at
  fail_if (ltb_ℤ grouping_method (pos 0) || ltb_ℤ group_id (pos 0)) at negative
  ok (record {
    state = record st {
      command = record st.command {
        grouping_method = some grouping_method;
        group_id = some group_id;
      };
      group_seen = true;
    };
    taken = 2;
  })
group_option at _ st = do fail_if st.group_seen at repeated_option; fail at missing_argument

unfoldable pub precision_option :
    SourceLocation → List Bytes → DumpState → Result InputError DumpStep
precision_option at [] st = do
  fail_if st.precision_seen at repeated_option
  fail at missing_argument
precision_option at (name ∷ rest) st = do
  fail_if st.precision_seen at repeated_option
  fail_if (not (is_word name "single") && not (is_word name "double")) at bad_option
  ok (record {
    state = record st {
      command = record st.command {
        precision = if is_word name "single" then single else double_precision;
      };
      precision_seen = true;
    };
    taken = 1;
  })

abbrev pub with_quantities : DumpState → DumpXyzQuantities → Result InputError DumpStep
with_quantities st q =
    ok (record { state = record st { command = record st.command { quantities = q } }; taken = 0 })

unfoldable pub dump_option :
    SourceLocation → Bytes → List Bytes → DumpState → Result InputError DumpStep
dump_option at token rest st =
    let q = st.command.quantities in
    if is_word token "group"
    then group_option at rest st
    else if is_word token "precision"
    then precision_option at rest st
    else if is_word token "mass"
    then with_quantities st (record q { mass = true })
    else if is_word token "charge"
    then with_quantities st (record q { charge = true })
    else if is_word token "velocity"
    then with_quantities st (record q { velocity = true })
    else if is_word token "force"
    then with_quantities st (record q { force = true })
    else if is_word token "potential"
    then with_quantities st (record q { potential = true })
    else if is_word token "unwrapped_position"
    then with_quantities st (record q { unwrapped_position = true })
    else if is_word token "virial"
    then with_quantities st (record q { virial = true })
    else if is_word token "group_labels"
    then with_quantities st (record q { group_labels = true })
    else if is_word token "bec"
    then fail at (unsupported (codes "dump_xyz bec"))
    else fail at bad_option

-- The number counts the tokens that the last option took.
unfoldable pub dump_options :
    SourceLocation → List Bytes → ℕ → DumpState → Result InputError DumpXyzCommand
dump_options at [] taken st = ok st.command
dump_options at (token ∷ rest) (suc taken) st = dump_options at rest taken st
dump_options at (token ∷ rest) zero st = do
  step ← dump_option at token rest st
  dump_options at rest step.taken step.state

abbrev pub no_quantities : DumpXyzQuantities
no_quantities = record {
  mass = false;
  charge = false;
  velocity = false;
  force = false;
  potential = false;
  unwrapped_position = false;
  virial = false;
  group_labels = false;
}

unfoldable pub is_empty_name : Bytes → Bool
is_empty_name [] = true
is_empty_name (c ∷ cs) = false

unfoldable pub parse_dump_xyz : List Bytes → SourceLocation → Result InputError DumpXyzCommand
parse_dump_xyz (interval_token ∷ filename ∷ options) at = do
  interval ← parse_int interval_token at
  fail_if (not (ltb_ℤ (pos 0) interval)) at not_positive
  fail_if (is_empty_name filename) at empty_filename
  dump_options at options 0 (record {
    command = record {
      interval = interval;
      filename = filename;
      precision = single;
      grouping_method = none;
      group_id = none;
      quantities = no_quantities;
    };
    group_seen = false;
    precision_seen = false;
  })
parse_dump_xyz _ at = fail at wrong_size
