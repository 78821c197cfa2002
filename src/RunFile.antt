-- ===== src/RunFile.antt =====
-- src/run_parser.cpp and include/dmgmd/run_ir.hpp: the run file, from its text to a program of
-- commands, and the scan of the program before anything runs. A text is its bytes.
pub mod Preflight
pub mod Text
pub mod Numbers
pub mod Decimal
pub mod Commands
pub mod Parse
pub mod Dump
pub mod Accepted
pub mod Located
pub mod Tokens
pub mod Supported
use dmg_md.Base.{ℕ, Bool, List, Option}
use dmg_md.Base.Floats.{Floats}
use dmg_md.Base.Int.{ℤ}

abbrev pub Bytes : Type 0
Bytes = List ℕ

-- include/dmgmd/input_error.hpp
pub record SourceLocation : Type 0 where
  pub file : Bytes
  pub line : ℕ
  pub text : Bytes

-- `name` and `token` are the parts of a message that the code puts together.
pub data Complaint : Type 0 where
  not_an_integer not_a_real : Complaint
  wrong_size missing_type bad_option repeated_option missing_argument : Complaint
  not_positive negative too_small empty_filename too_many_tokens cannot_open : Complaint
  unsupported : Bytes → Complaint
  no_correct_velocity no_adaptive_step needs_time_step : Complaint

pub record InputError : Type 0 where
  pub location : SourceLocation
  pub message : Complaint

pub data EnsembleKind : Type 0 where
  nve nvt_ber nvt_nhc nvt_bdp npt_ber npt_scr : EnsembleKind

pub data OutputPrecision : Type 0 where
  single double_precision : OutputPrecision

pub record DumpXyzQuantities : Type 0 where
  pub mass : Bool
  pub charge : Bool
  pub velocity : Bool
  pub force : Bool
  pub potential : Bool
  pub unwrapped_position : Bool
  pub virial : Bool
  pub group_labels : Bool

pub record DumpXyzCommand : Type 0 where
  pub interval : ℤ
  pub filename : Bytes
  pub precision : OutputPrecision
  pub grouping_method : Option ℤ
  pub group_id : Option ℤ
  pub quantities : DumpXyzQuantities

module _ (F : Floats) where
  pub record VelocityCommand : Type 0 where
    pub temperature : F.Double
    pub seed : Option ℤ

  pub record TimeStepCommand : Type 0 where
    pub femtoseconds : F.Double
    pub maximum_distance_angstrom : Option F.Double

  pub record EnsembleCommand : Type 0 where
    pub kind : EnsembleKind
    pub initial_temperature : F.Double
    pub final_temperature : F.Double
    pub temperature_coupling : F.Double
    pub target_pressure_gpa : F.Double
    pub bulk_modulus_gpa : F.Double
    pub pressure_coupling : F.Double

  pub data CommandData : Type 0 where
    potential_command : Bytes → CommandData
    velocity_command : VelocityCommand → CommandData
    time_step_command : TimeStepCommand → CommandData
    ensemble_command : EnsembleCommand → CommandData
    correct_velocity_command : ℤ → Option ℤ → CommandData
    dump_thermo_command : ℤ → CommandData
    dump_xyz_command : DumpXyzCommand → CommandData
    dump_restart_command : ℤ → CommandData
    run_command : ℤ → CommandData

  pub record Command : Type 0 where
    pub source : SourceLocation
    pub data_of : CommandData
