-- ===== src/Client/State.antt =====
-- `BaseRedisClient` itself. Each function is the code between two awaits. What the other side of the
-- socket and the FFI give are parameters: `value_from_pointer` (`none`: it raises) and the bytes
-- that are read.
use glide_for_redis.Common.{
  ℕ, Bool, true, false, Option, none, some, String, List, [], ◌∷◌, ◌++◌, if◌then◌else◌,
}
use glide_for_redis.Exceptions.{
  PyException, redis, attribute_error, Outcome, returned, raised, closing_error, new_error,
}
use glide_for_redis.Protocol.{
  RequestType, Command, RequestCommand, single_command, transaction, RedisRequest, empty_request,
  ConnectionRequest, TRequest, redis_request,
}
use glide_for_redis.Routes.{Route, set_protobuf_route}
use glide_for_redis.Config.{ClientConfiguration, create_a_protobuf_conn_request}
use glide_for_redis.Client.Callbacks.{
  dict_values, Callbacks, no_callbacks, get_future, get_callback_index, fail_pending,
}
use glide_for_redis.Client.Writer.{Writer, new_writer, write_or_buffer_request}

-- What a request resolves to: the constant `OK`, `None`, or a value of the core.
pub data TResult (V : Type 0) : Type 0 where
  ok_result : TResult V
  none_result : TResult V
  value : V → TResult V

-- `write_tasks` are the tasks of `_create_write_task` that have not started yet, oldest first.
-- `has_writer` says whether the attribute `_writer` has been set, `writer_open` whether it is open,
-- and `reader_running` whether there is a reader task that has not been cancelled.
pub record Client (V : Type 0) : Type 0 where
  pub callbacks : Callbacks (TResult V)
  pub writer : Writer
  pub write_tasks : List TRequest
  pub is_closed : Bool
  pub has_writer : Bool
  pub writer_open : Bool
  pub reader_running : Bool

-- The two client classes differ in the connection request.
pub data ClientKind : Type 0 where
  redis_client redis_cluster_client : ClientKind

unfoldable pub get_protobuf_conn_request :
    ClientKind → ClientConfiguration → Outcome ConnectionRequest
get_protobuf_conn_request redis_client config = create_a_protobuf_conn_request config false
get_protobuf_conn_request redis_cluster_client config = create_a_protobuf_conn_request config true

-- `ClosingError("" if err_message is None else err_message)`
abbrev pub closing : Option String → PyException
closing none = redis (new_error closing_error (some ""))
closing (some m) = redis (new_error closing_error (some m))

abbrev pub closed_error : PyException
closed_error = redis (
    new_error closing_error
      (some "Unable to execute requests; the client is closed. Please create a new client."))

module _ {V : Type 0} where
  -- `__init__`
  abbrev pub new_client : Client V
  new_client = record {
    callbacks = no_callbacks;
    writer = new_writer;
    write_tasks = [];
    is_closed = false;
    has_writer = false;
    writer_open = false;
    reader_running = false;
  }

  -- `__del__`: the reader task is cancelled.
  unfoldable pub del : Client V → Client V
  del self = record self { reader_running = false }

  -- `close`: without the attribute `_writer` it ends in an `AttributeError`.
  unfoldable pub close : Option String → Client V → Client V × Outcome (Unit {0})
  unfolding del fail_pending
  close err_message self =
      let refs = dict_values self.callbacks.available_futures in
      let store = fail_pending (closing err_message) refs self.callbacks.store in
      let failed_all = record self {
        is_closed = true;
        callbacks = record (self.callbacks) { store = store };
      } in
      if self.has_writer
      then (del (record failed_all { writer_open = false }), returned tt)
      else (failed_all, raised attribute_error)

  -- `_create_write_task`: the task starts at a later turn of the event loop.
  unfoldable pub create_write_task : TRequest → Client V → Client V
  create_write_task request self = record self { write_tasks = self.write_tasks ++ request ∷ [] }

  -- From the route on, with the callbacks without the index that was taken: the future is made and
  -- the write task created, up to `await response_future`. The future's place is returned.
  unfoldable pub route_and_send :
      Client V → Callbacks (TResult V) → Outcome RedisRequest → Client V × Outcome ℕ
  unfolding create_write_task get_future
  route_and_send self taken (raised e) = (record self { callbacks = taken }, raised e)
  route_and_send self taken (returned request) =
      let (callbacks, response_future) = get_future request.callback_idx taken in
      (
        create_write_task (redis_request request) (record self { callbacks = callbacks }),
        returned response_future,
      )

  -- What `_execute_command` and `execute_transaction` have in common. An invalid route raises when
  -- the index has been taken already.
  unfoldable pub send : RequestCommand → Option Route → Client V → Client V × Outcome ℕ
  unfolding route_and_send get_callback_index
  send command route self =
      if self.is_closed
      then (self, raised closed_error)
      else let (taken, callback_idx) = get_callback_index self.callbacks in
        let request = record empty_request {
          callback_idx = callback_idx;
          command = some command;
        } in
        route_and_send self taken (set_protobuf_route request route)

  unfoldable pub execute_command :
      RequestType → List String → Option Route → Client V → Client V × Outcome ℕ
  unfolding send
  execute_command request_type args route self =
      let command : Command = record { request_type = request_type; args_array = args } in
      send (single_command command) route self

  unfoldable pub execute_transaction : List Command → Option Route → Client V → Client V × Outcome ℕ
  unfolding send
  execute_transaction commands route self = send (transaction commands) route self

  -- The first turn of a write task.
  unfoldable pub start_write_task : (TRequest → List ℕ) → Client V → Client V
  start_write_task serialize self = elim self.write_tasks [
    | [] ↦ self
    | request ∷ rest ↦ record self {
      write_tasks = rest;
      writer = write_or_buffer_request serialize self.writer request;
    }
  ]
