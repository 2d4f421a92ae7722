-- ===== src/Scenarios.antt =====
-- Runs of the models on concrete inputs, and the theorems at such inputs.
mod Streams
mod Launches
mod Components
mod Sessions
mod Tasks
mod Traces
mod Compilations
mod Databases
mod Parcels
mod Jobs
mod Perfetto
mod Inodes
