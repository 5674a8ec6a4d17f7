-- ===== src/Config.antt =====
-- pkg/config/config.go: the data, the validation of a config, its refreshing from a file or from a
-- secret, and the search for its file.
pub mod Data
pub mod Address
pub mod Validate
pub mod Refresh
pub mod Discovery
