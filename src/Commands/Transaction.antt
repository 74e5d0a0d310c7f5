-- ===== src/Commands/Transaction.antt =====
-- python/python/glide/async_commands/transaction.py: a transaction collects commands, which `exec`
-- sends as one request. Each method returns the transaction as it leaves it.
mod Strings
mod Hashes
mod Lists
unfoldable pub use Strings.*
unfoldable pub use Hashes.*
unfoldable pub use Lists.*
