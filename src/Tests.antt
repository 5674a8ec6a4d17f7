-- ===== src/Tests.antt =====
-- Runs of the model on a small concrete storage, and the theorems at concrete inputs.
pub mod Toy
mod Identifiers
mod Configs
mod Controllers
mod Creation
mod Nodes
mod ToyStorage
mod Startup
mod Sharing
