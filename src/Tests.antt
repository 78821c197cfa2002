-- ===== src/Tests.antt =====
-- The theorems at concrete inputs, and runs of the definitions.
mod Placement
mod Halo
mod Input
mod Reading
mod Forces
mod Slabs
mod Thermostat
mod Isolation
mod Faces
