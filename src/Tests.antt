-- ===== src/Tests.antt =====
-- The theorems at concrete inputs, and runs of the definitions.
pub mod Codec
pub mod Client
pub mod Commands
pub mod Startup
pub mod Logger
pub mod Manager
pub mod Session
