-- ===== src/Client.antt =====
-- python/python/glide/redis_client.py: the client.
pub mod Callbacks
pub mod Writer
pub mod State
pub mod Reader
pub mod Create
pub mod Slots
pub mod Futures
pub mod Invariant
pub mod Answers
pub mod Sending
pub mod History
pub mod Correlation
pub mod Closing
pub mod Faults
pub mod Session
