-- ===== src/Node.antt =====
-- pkg/driver/nodeServer.go
pub mod Options
pub mod Server
pub mod Mount
pub mod Publish
pub mod Fixed
pub mod Service
