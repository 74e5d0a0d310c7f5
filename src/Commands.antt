-- ===== src/Commands.antt =====
-- python/python/glide/async_commands: what each method sends.
pub mod Options
pub mod Batch
pub mod Core
pub mod Standalone
pub mod Cluster
pub mod Transaction
pub mod Agreement
pub mod Queueing
pub mod SetGrammar
pub mod Expiry
