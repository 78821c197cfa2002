-- ===== src/Partition.antt =====
-- src/gpumd_compat/domain_partition.hpp: which atoms a rank may compute before its ghosts arrive, and
-- the ticket of one force evaluation.
pub mod Modes
pub mod Names
pub mod Ticket
pub mod Phases
pub mod Orders
pub mod Graph
pub mod Slots
pub mod Closed
