-- ===== src/Tests/Isolation.antt =====
-- Two ranks on a file system that grants every call.
use dmg_md.Ensemble.Seed.{is_digit, parse_ensemble_seed, seed_digits}
use dmg_md.RunFile.Preflight.{program_uses_npt}
use dmg_md.Ensemble.Environment.{
  needs_check, validate_ensemble_environment, AreAllowed, any_kind, options, seed_text,
  is_stochastic, validate_ensemble_environment-AreAllowed, is_stateful, check_environment,
  check_options, same_option, is_other, seed_if_stochastic, check_seed, seed_agrees, spelling,
  seed_result, assert_same_fingerprint, disagrees, fingerprint, requires,
}
use Prim.Native.String.{String}
use dmg_md.Base.Floats.{milli}
use dmg_md.RankIo.Local.{
  neighbor_file, pattern, parent_matches, scratch_named, rooted, keep_reason, after_enter,
  enter_scratch, after_open, create_file, after_mkdtemp, make_scratch, after_resolve,
  prepare_local_scratch, after_return, faulty, restore_cwd, deletable, after_remove,
  try_delete_scratch,
}
use dmg_md.Base.{
  ℕ, zero, suc, ◌<◌, Bool, true, false, ◌&&◌, [], ◌∷◌, none, some, ok, ◌≡◌, refl, ◌↔◌, ◌⊎◌, arith,
  get_or, List, Option,
}
use dmg_md.RunFile.{Bytes, Command, ensemble_command, nvt_bdp}
use dmg_md.RunFile.Text.{codes, same_bytes}
use dmg_md.RankIo.{FilePath, System, Place, Process, new_isolation, is_no_path}
use dmg_md.RankIo.Names.{
  to_string, rank_io_fault_requested, lexically_normal, path_string, strip_trailing_separators,
  decimal, separated, closed_parts, normal_parts, normal_step, backwards, fault_in, names_step,
  split_colon, file_name, parent_path, drop_empty, join, child, same_parts, same_path, is_hex_digit,
  all_hex, count_bytes, is_hex_token, has_prefix, name_matches, rank_io_diagnostic, append_note,
}
use dmg_md.RankIo.Safe.{AreSafe, IsFresh, inside}
use dmg_md.RankIo.World.{
  Collectives, construct_isolation, finish_isolation, local_setup, nonce_at, cleaned,
  make_job_nonce, hexadecimal, hex_digits, prefix_of, add_entry, add_entries, failure_text,
  joint_message, fail_together, reported, captured, capture_cwd, prepared, after_setup_restore,
  abandon, leave, clean, conclude,
}
use dmg_md.RankIo.Lives.{life, life-AreSafe, construct_isolation-Kept}
use dmg_md.RankIo.Agree.{construct_isolation-together}
use dmg_md.RankIo.Outside.{finish_isolation-outside, IsPrinted, warning_line}

abbrev home : FilePath
home = record { absolute = true; parts = codes "home" ∷ codes "job" ∷ [] }

abbrev tmp : FilePath
tmp = record { absolute = true; parts = codes "tmp" ∷ [] ∷ [] }

-- mkdtemp with the letters that it was given.
abbrev granting : System (Unit {0})
granting = record {
  current_path = λ fs. ok home;
  temp_directory_path = λ fs. ok tmp;
  mkdtemp = λ fs p. (ok p, fs);
  open_append = λ fs p. (ok tt, fs);
  change_directory = λ fs p. (ok tt, fs);
  is_plain_directory = λ fs p. true;
  remove_all = λ fs p. (ok tt, fs);
}

abbrev two_ranks : Collectives
two_ranks = record {
  broadcast_string = λ texts r. texts 0;
  gather_strings = λ texts r. texts 0 ∷ texts 1 ∷ [];
  allreduce_all_passed = λ flags r. flags 0 && flags 1;
}

abbrev standing : ℕ → Place
standing r = record { rank = r; hostname = codes "node"; fault = none }

-- The second rank fails to enter its directory.
abbrev failing : ℕ → Place
failing r = record { rank = r; hostname = codes "node"; fault = some (codes "1:chdir") }

abbrev idle : ℕ → Process (Unit {0})
idle r = record { fs = tt; calls = []; isolation = new_isolation }

abbrev clocks : ℕ → ℕ × ℕ
clocks r = (1, 0)

idle-IsFresh : (r : ℕ) → IsFresh (idle r)
unfolding IsFresh
idle-IsFresh r = (refl, refl, refl)

joined : (flags : ℕ → Bool) → flags 0 ≡ true → flags 1 ≡ true → (flags 0 && flags 1) ≡ true
joined flags a b = ground arith

both : (flags : ℕ → Bool) → (flags 0 && flags 1) ≡ true → (k : ℕ) → k < 2 → flags k ≡ true
both flags h zero below = ground arith
both flags h (suc zero) below = ground arith
both flags h (suc (suc k)) below = absurd (omega arith)

two_reduce :
    (flags : ℕ → Bool) (r : ℕ)
    → (two_ranks.allreduce_all_passed flags r ≡ true) ↔ ((k : ℕ) → k < 2 → flags k ≡ true)
two_reduce flags r =
    (λ h. both flags h, λ all. joined flags (all 0 (omega arith)) (all 1 (omega arith)))

two_gather :
    (texts : ℕ → Bytes) (k : ℕ) → k < 2 → get_or (two_ranks.gather_strings texts 0) k [] ≡ texts k
two_gather texts zero below = refl
two_gather texts (suc zero) below = refl
two_gather texts (suc (suc k)) below = absurd (omega arith)

to_string_test : to_string 1024 ≡ codes "1024"
unfolding to_string decimal
to_string_test = refl

normal_test :
    path_string (
      lexically_normal (record {
        absolute = true;
        parts = codes "a" ∷ codes "." ∷ codes "b" ∷ codes ".." ∷ codes "c" ∷ [];
      }))
    ≡ codes "/a/c"
unfolding path_string lexically_normal separated closed_parts normal_parts normal_step same_bytes
    backwards
normal_test = refl

fault_test : rank_io_fault_requested (failing 1) "chdir" ≡ true
unfolding rank_io_fault_requested fault_in names_step split_colon same_bytes to_string decimal
fault_test = refl

abbrev built : ℕ → Process (Unit {0})
built k = (construct_isolation granting two_ranks 2 standing clocks idle k).1

construct_test : (construct_isolation granting two_ranks 2 standing clocks idle 1).0 ≡ ok tt
unfolding decimal to_string split_colon names_step fault_in rank_io_fault_requested backwards
    drop_empty strip_trailing_separators join child is_hex_digit all_hex count_bytes is_hex_token
    neighbor_file pattern rooted after_enter enter_scratch after_open create_file after_mkdtemp
    make_scratch after_resolve prepare_local_scratch hexadecimal hex_digits make_job_nonce prefix_of
    nonce_at captured capture_cwd prepared local_setup conclude construct_isolation
construct_test = refl

life-AreSafe_example :
    let i = (life granting two_ranks 2 standing true clocks idle 1).isolation in
    AreSafe i.temp_root i.name_prefix (life granting two_ranks 2 standing true clocks idle 1).calls
life-AreSafe_example = life-AreSafe granting two_ranks 2 standing true clocks idle 1 idle-IsFresh

construct_isolation-together_example :
    ((construct_isolation granting two_ranks 2 failing clocks idle 1).0
      ≡ (construct_isolation granting two_ranks 2 failing clocks idle 0).0)
    × (((construct_isolation granting two_ranks 2 failing clocks idle 1).0 ≡ ok tt) ↔ (
        (j : ℕ)
        → j < 2
        → (local_setup granting (failing j) (nonce_at two_ranks clocks j) (idle j)).0 ≡ []))
construct_isolation-together_example =
    construct_isolation-together granting two_ranks 2 failing (λ texts r. refl) two_reduce clocks
      idle 1 0 (omega arith)

built_active : (j : ℕ) → (built j).isolation.active ≡ true
unfolding decimal to_string split_colon names_step fault_in rank_io_fault_requested backwards
    drop_empty strip_trailing_separators join child is_hex_digit all_hex count_bytes is_hex_token
    neighbor_file pattern rooted after_enter enter_scratch after_open create_file after_mkdtemp
    make_scratch after_resolve prepare_local_scratch hexadecimal hex_digits make_job_nonce prefix_of
    nonce_at captured capture_cwd prepared local_setup conclude construct_isolation
built_active j = refl

built_returns : (j : ℕ) → (finish_isolation granting two_ranks 2 standing built j).0 ≡ ok tt
unfolding decimal to_string split_colon names_step fault_in rank_io_fault_requested backwards
    file_name parent_path drop_empty strip_trailing_separators join child normal_step normal_parts
    closed_parts lexically_normal separated path_string same_parts same_path is_hex_digit all_hex
    count_bytes is_hex_token has_prefix name_matches rank_io_diagnostic append_note neighbor_file
    pattern parent_matches scratch_named rooted keep_reason after_enter enter_scratch after_open
    create_file after_mkdtemp make_scratch after_resolve prepare_local_scratch after_return faulty
    restore_cwd deletable after_remove try_delete_scratch hexadecimal hex_digits make_job_nonce
    prefix_of add_entry add_entries failure_text nonce_at joint_message fail_together reported
    captured capture_cwd prepared local_setup after_setup_restore abandon leave clean conclude
    construct_isolation finish_isolation same_bytes
built_returns j = refl

finish_isolation-outside_example :
    (inside (finish_isolation granting two_ranks 2 standing built 1).2.calls ≡ false)
    × ((is_no_path (finish_isolation granting two_ranks 2 standing built 1).2.isolation.scratch
          ≡ true)
        ⊎ IsPrinted
            (warning_line (cleaned granting standing built 1).0)
            (finish_isolation granting two_ranks 2 standing built 0).1)
finish_isolation-outside_example =
    finish_isolation-outside granting two_ranks 2 standing two_gather two_reduce built 1
      (omega arith) (omega arith) (λ j. refl)
      (λ j. construct_isolation-Kept granting two_ranks 2 standing clocks idle j (idle-IsFresh j))
      built_active built_returns

-- A program whose only command asks for stochastic velocity rescaling, and no variable set.
abbrev bdp_program : List (Command milli)
bdp_program =
    record {
      source = record { file = codes "run.in"; line = 1; text = codes "ensemble" };
      data_of = ensemble_command (record {
        kind = nvt_bdp;
        initial_temperature = 300000;
        final_temperature = 300000;
        temperature_coupling = 100000;
        target_pressure_gpa = 0;
        bulk_modulus_gpa = 0;
        pressure_coupling = 0;
      });
    }
    ∷ []

abbrev unset : ℕ → String → Option Bytes
unset r name = none

needs_check_test : needs_check milli bdp_program ≡ true
unfolding needs_check any_kind is_stateful
needs_check_test = refl

environment_test :
    validate_ensemble_environment
      (λ f. f 0)
      (λ f. f 0)
      two_ranks.broadcast_string
      two_ranks.allreduce_all_passed
      milli
      bdp_program
      unset
      1
    ≡ ok tt
unfolding validate_ensemble_environment needs_check any_kind is_stateful check_environment
    check_options options same_option program_uses_npt is_other seed_if_stochastic is_stochastic
    check_seed seed_agrees same_bytes spelling seed_result assert_same_fingerprint disagrees
    fingerprint requires is_digit parse_ensemble_seed seed_digits
environment_test = refl

validate_ensemble_environment-AreAllowed_example :
    AreAllowed (unset 1) options
    × (any_kind milli is_stochastic bdp_program ≡ true
        → (k : ℕ) → k < 2
        → seed_text unset k ≡ seed_text unset 0)
validate_ensemble_environment-AreAllowed_example =
    validate_ensemble_environment-AreAllowed (λ f. f 0) (λ f. f 0) two_ranks.broadcast_string
      two_ranks.allreduce_all_passed milli 2 bdp_program unset 1 (λ texts r. refl) two_reduce
      needs_check_test environment_test
