-- ===== src/Lib.antt =====
-- The Python client of GLIDE for Redis, python/python/glide.
--
-- A client of this wrapper does not speak to a server. It writes protobuf messages to a Unix
-- socket, behind which the Rust core (glide-core) does, and reads the core's answers from it. The
-- parts, and the files that model them:
--
--   python/python/glide/protobuf_codec.py   Codec: `ProtobufCodec`, with varints and messages
--       behind a varint of their length.
--   python/python/glide/redis_client.py     Stream: the two loops of `_reader_loop`, over the
--       chunks that are read, with what is done with one response as a parameter. Client.Callbacks:
--       `_available_futures`, `_available_callback_indexes` and the futures. Client.Writer:
--       `_write_or_buffer_request` and `_write_buffered_requests_to_socket`. Client.State:
--       `__init__`, `close`, `__del__`, `_execute_command`, `execute_transaction`. Client.Reader:
--       what `_reader_loop` does with a response, and the steps of `create`. Client.Create:
--       `create` as one run.
--   python/python/glide/exceptions.py       Exceptions, with `get_request_error_class` of the
--       client.
--   python/python/glide/routes.py           Routes.
--   python/python/glide/config.py           Config.
--   python/python/glide/async_commands      Commands.Options and Commands.Core (core.py),
--       Commands.Standalone, Commands.Cluster, Commands.Batch and Commands.Transaction
--       (transaction.py). A method has its name.
--   python/python/glide/logger.py           Logger: the class attributes `_instance` and
--       `logger_level`, and what the core is set to.
--   utils/cluster_manager.py                Manager, the script that starts and stops servers for
--       tests: Manager.Waiting (ports and waiting loops), Manager.Certificates, Manager.Servers
--       (`create_servers`), Manager.Linking (`create_cluster`, `create_standalone_replication`),
--       Manager.Stopping, Manager.Main. Functions have their names, and loops names of their own.
--   glide-core/src/protobuf                 Protocol: the messages, and `TRequest` of constants.py.
--
-- How they interact. A method of Commands makes the arguments of a command and gives them to
-- `execute_command`, a parameter there and a function of Client.State here. That takes a callback
-- index and makes a future (Client.Callbacks), puts the route into the request (Routes) and leaves
-- a task that writes it (Client.Writer, Codec). The core's response carries the index back; the
-- reader (Stream, Codec) cuts the bytes into responses and Client.Reader gives the future its
-- outcome, with a class of Exceptions. Common has the tests on numbers, lists, bits and the text of
-- an integer that all parts use.
--
-- State and time. A function takes the state and returns it. What asyncio runs between two awaits
-- is one function, and an interleaving is a sequence of such steps: the relations `Run`
-- (Client.Writer.Delivery), `Reached` (Client.History) and `Step` (Client.Session). The last is a
-- client with the core at the other end of its socket: calls, write tasks, the core's answers, of
-- any values that are no closing errors and decode and in messages that can be sent, to any calls
-- that it has not answered, in any order, and reads of any front of the bytes that are on their
-- way. It has no cancellation and no closing error, and the client is not closed; those are for
-- `Reached`. A future is shared by the client and the task that awaits it, so a `store` lists all
-- futures and the dictionary holds places in it. A Python list used as a stack is a list with its
-- end in front. The script of utils/cluster_manager.py is a sequence of actions on the state of the
-- system, each of which returns or raises (Manager.System); Manager.Ends says when an action ends,
-- and with what.
--
-- Bounds. The loops that have no structure to recurse on take a number of rounds: ten for a varint
-- (the shift passes 64), the value and one for its encoding (each round divides by 128), the bytes
-- read and one for the responses in them (each takes a byte). A value of its own, `stuck` or
-- `out_of_rounds`, says that the rounds ran out, and that it never comes is proved. A waiting loop
-- of the script takes a round for each microsecond of its timeout and one more, since a round that
-- goes on sleeps. The loop of `create_servers` takes the rounds that it is given: with the ports
-- given one for each server is enough, and without them it may go on for as long as others take its
-- ports.
--
-- Parameters. Protobuf's `ParseFromString` and `SerializeToString` are functions `parse` and
-- `serialize`, of which the theorems ask, message by message, that parsing gives the message back.
-- `value_from_pointer` of the Rust extension is a partial function. Python's `str` of a float and
-- the conversions of times are functions as well. For `create`, the listener, the connection,
-- `drain` and the bytes that come are a record `Surroundings`. The standard library under
-- utils/cluster_manager.py (time, files, processes, sockets, `random`) is a record `Os` of
-- operations, `set.pop` and `str.lower` are functions, and the theorems ask of them that the clock
-- never goes back, that `sleep` takes its time, that `set.pop` takes one element and that `randint`
-- keeps to its bounds. The bytes of the socket are the reader's input, and a failure of `drain` is
-- a step.
--
-- Not modelled: that protobuf refuses integers beyond 32 bits and texts that are not Unicode; that
-- a transaction keeps the list it was given and not a copy; what `wait_closed` and `Task.cancel`
-- raise; the lock of a transaction, which is never held across an await; Python values outside the
-- annotated types; in logger.py, how the core writes a line; in utils/cluster_manager.py, its own
-- logging, the parts of a message that vary, what `argparse` does, negative counts, white space and
-- digits beyond ASCII, and that `rglob` lists folders while the loop runs; the Rust core and the
-- wrappers in other languages.
pub mod Common
pub mod Codec
pub mod Stream
pub mod Exceptions
pub mod Protocol
pub mod Routes
pub mod Config
pub mod Client
pub mod Commands
pub mod Logger
pub mod Manager
pub mod Tests
