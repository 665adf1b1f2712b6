-- ===== src/Testing.antt =====
-- testing/layer.py: the layer that starts a CrateDB server for tests.
pub mod Address
pub mod Download
pub mod Layer
pub mod Monitor
pub mod Settings
