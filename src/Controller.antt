-- ===== src/Controller.antt =====
-- pkg/driver/controllerServer.go
pub mod Requests
pub mod Capability
pub mod Resolvers
pub mod Resolve
pub mod Share
pub mod SnapshotOnNs
pub mod NewVolume
pub mod Create
pub mod Delete
pub mod Page
pub mod Snapshots
pub mod Volumes
pub mod Fixed
pub mod Service
