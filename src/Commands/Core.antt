-- ===== src/Commands/Core.antt =====
-- `CoreCommands` of python/python/glide/async_commands/core.py. `execute_command` stands for the
-- abstract `_execute_command`, which the client implements; what a method returns is what that
-- call returns. `str_float` is Python's `str` of a float.
mod Strings
mod Hashes
mod Lists
mod Keys
unfoldable pub use Strings.*
unfoldable pub use Hashes.*
unfoldable pub use Lists.*
unfoldable pub use Keys.*
