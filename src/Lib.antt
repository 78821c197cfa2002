-- ===== src/Lib.antt =====
-- DMG-MD: molecular dynamics on several GPUs. One MPI rank drives one GPU. In the replicated mode
-- every rank stores all atoms, and `SpatialOwnership` says which rank is authoritative for which
-- slot. In the domain mode a rank stores the atoms of its slab along one axis of the box and ghosts
-- of the two neighbouring slabs: `build_local_layout` makes the local slots, `build_exchange_plan`
-- the send and receive lists of the two faces, `plan_migration` moves atoms that left the slab. The
-- validations `validate_exchange_plan` and `validate_migration_plan` guard the communication. What
-- to run is a file of commands, which `parse_run_file` reads and `validate_runtime_ensembles` scans
-- as a whole before anything starts.
--
-- Files, by the code that they model:
--   Base         numbers, lists, results, counting; `double` as an interface (Base/Floats).
--   Ownership    include/dmgmd/spatial_ownership.hpp: `construct` is the constructor, its loops are
--                `scan_owners`, `scan_ids`, `check_covered` and `collect_owned`. Ownership/Slab is
--                `slab_owner_of_fractional`.
--   Layout       include/dmgmd/domain_layout.hpp: the records of atoms and ghosts, `face_peer` and
--                `distance_to_slab` (Layout/Geometry), `build_local_layout`.
--   Exchange     include/dmgmd/domain_layout.hpp: `build_exchange_plan`, `validate_exchange_plan`.
--   Migration    include/dmgmd/domain_layout.hpp: `migration_owner`, `plan_migration`,
--                `validate_migration_plan`.
--   Gather       include/dmgmd/mpi_runtime.hpp: `validate_indexed_ownership_plan_host`, which guards
--                the collectives of the replicated mode; src/mpi_runtime.cu:
--                `assert_same_ownership_map` (Gather/Agreement).
--   RunFile      src/run_parser.cpp, include/dmgmd/run_ir.hpp, include/dmgmd/input_error.hpp: tokens
--                (RunFile/Tokens), integers by `strtol` (RunFile/Numbers), the commands
--                (RunFile/Commands, RunFile/Parse), `validate_runtime_ensembles` and
--                `program_uses_npt` (RunFile/Preflight).
--   Model        src/model_parser.cpp, include/dmgmd/model.hpp: `assignment` and `parse_properties`
--                (Model/Fields), the table of masses (Model/Masses), `read_atom` for the body of the
--                loop over the atom lines (Model/Atoms), `parse_model_file` and
--                `load_potential_metadata` (Model/Reader). A read of the token vector past its end,
--                which the code does not refuse, is the error `past_end`.
--   Partition    src/gpumd_compat/domain_partition.hpp: the modes (Partition/Modes), the ticket of a
--                force evaluation with one function per member (Partition/Ticket) and the protocol
--                that its flags encode (Partition/Phases), `partition_graph` (Partition/Graph).
--   Eligibility  include/dmgmd/domain_layout.hpp: `compute_domain_radii` (Eligibility/Radii), the
--                thickness of the box, and `evaluate_domain_eligibility` (Eligibility/Decision), with the
--                geometry of the box that they stand for (Eligibility/Cell);
--                `longest_box_axis` and `fractional_along_axis` of spatial_ownership.hpp.
--   Ensemble     src/ensemble_control.cpp: the seed (Ensemble/Seed), the constructor of the
--                controller (Ensemble/Control) and its hooks (Ensemble/Factors). The integrators that
--                it calls are the record `Replicas`. Ensemble/Shared is `ensemble_velocity_factor` of
--                src/runtime_internal.hpp, which gives the factor of rank 0 to every rank;
--                Ensemble/Environment is `validate_ensemble_environment` of the same file.
--   RankIo       src/runtime_internal.hpp: the class `RankIoIsolation`. The names and paths
--                (RankIo/Names), the steps of one process over the calls of the system
--                (RankIo/Local), the constructor, `finish` and the destructor on all ranks
--                (RankIo/World).
--   Halo         src/mpi_runtime.cu, include/dmgmd/mpi_runtime.hpp: the asynchronous exchange of the two
--                faces. `begin_p2p_indexed_device_soa` (Halo/Begin), `advance_halo` with `progress_halo`
--                and `finish_halo` (Halo/Advance) on the slot of the runtime; the counters and buffers
--                (Halo/Volume); the kernels of the streams (Halo/Kernels). What MPI and CUDA answer is
--                the record `Driver`, and `MpiLaws` is what MPI documents of its requests.
--   Tests        the theorems at concrete inputs.
--
-- How the code is read. An exception is the `err` of a `Result`, whose type lists what the component
-- throws. A loop is structural recursion over the list that it walks, with the variables that it
-- writes in a record; the only fuel is the 10 digits that the text of an `int` has at most
-- (RankIo/Names). A `std::size_t` is a number: the sizes here are lengths of
-- arrays; where the code narrows one to `int`, counts in an `int` or computes an index of a kernel in
-- `int`, the wrap-around is written out (Base/Machine).
-- `double` is the record `Floats` of a carrier and the operations that the code calls, with no laws;
-- the theorems that need laws take them as `SlabLaws`, `OrderLaws` or named hypotheses, and the
-- fixed-point numbers `milli` satisfy these. A binary search over sorted ids is the search that it computes.
-- A text is the list of its bytes. `strtol` is written out for base 0 and a `long` of 64 bits;
-- `strtod` is a parameter with no hypothesis, and so are `sqrt`, `nextafter` and the rounding to
-- `float`. A message of the parser is reduced to its kind.
--
-- A call of the operating system, of MPI or of CUDA is a field of a record (`System`, `Collectives`,
-- `Driver`) that answers as it likes; what a theorem needs of it is a hypothesis or `MpiLaws`.
--
-- Not modelled: the kernels of the forces and of the integration, and the MPI calls outside the halo
-- exchange and the agreement of the maps (src/mpi_runtime.cu, src/gpumd_compat); the host loops and
-- the writers of the two runtimes (src/runtime.cu, src/domain_runtime.cu), the control of the box
-- (src/box_control.cpp) and the main program.
pub mod Base
pub mod Ownership
pub mod Migration
pub mod Layout
pub mod Exchange
pub mod Gather
pub mod RunFile
pub mod Halo
pub mod Model
pub mod RankIo
pub mod Ensemble
pub mod Eligibility
pub mod Partition
mod Tests
