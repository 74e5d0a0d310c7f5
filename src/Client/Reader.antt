-- ===== src/Client/Reader.antt =====
-- What `_reader_loop` does with one response and at the end of the stream, and the steps of
-- `create`, in python/python/glide/redis_client.py.
use Prim.Native.String.{◌++◌ as ◌<>◌}
use glide_for_redis.Common.{ℕ, true, Option, none, some, String, List, [], ◌∷◌}
use glide_for_redis.Common.Text.{pos, str}
use glide_for_redis.Exceptions.{
  PyException, redis, unicode_decode_error, Outcome, returned, raised, new_error,
  get_request_error_class, ◌>>=◌,
}
use glide_for_redis.Protocol.{
  TRequest, connection_request, ConnectionRequest, Response, ResponseValue, resp_pointer,
  constant_response, request_error,
}
use glide_for_redis.Stream.{Handled, carry_on, raises, Reading, reading, reader_loop}
use glide_for_redis.Client.Callbacks.{
  Future, result, failed, dict_get, dict_remove, get_future, set_future,
}
use glide_for_redis.Client.Writer.{write_or_buffer_request}
use glide_for_redis.Client.State.{TResult, ok_result, none_result, value, Client, closing, close}

module _ {V : Type 0} where
  -- `await self.close(err_msg)`, then `raise ClosingError(err_msg)`.
  unfoldable pub close_and_raise : String → Client V → Handled (Client V) PyException
  close_and_raise err_msg self =
      let (closed, done) = close (some err_msg) self in
      elim done [ returned _ ↦ raises closed (closing (some err_msg)) | raised e ↦ raises closed e ]

  -- An empty read.
  unfoldable pub on_eof : Client V → Handled (Client V) PyException
  unfolding close_and_raise
  on_eof self = close_and_raise "The communication layer was unexpectedly closed." self

abbrev pub unknown_index : ℕ → String
unknown_index i = "Client Error - closing due to unknown error. callback index:  " <> str (pos i)

module _ {V : Type 0} (value_from_pointer : ℕ → Option V) where
  -- The last branch: what the future is given, or the exception of `value_from_pointer`.
  -- A closing error does not come here.
  unfoldable pub future_of : Option ResponseValue → Outcome (Future (TResult V))
  future_of (some (request_error e)) =
      returned
        (failed (redis (new_error (get_request_error_class (some e.error_type)) (some e.message))))
  future_of (some (resp_pointer p)) = elim (value_from_pointer p) [
    | none ↦ raised unicode_decode_error
    | some v ↦ returned (result (value v))
  ]
  future_of (some constant_response) = returned (result ok_result)
  future_of (some (ResponseValue.closing_error m)) = returned (result none_result)
  future_of none = returned (result none_result)

  -- `res_future` has been popped, and its index goes back to the free ones.
  unfoldable pub complete : ℕ → ℕ → Option ResponseValue → Client V → Handled (Client V) PyException
  unfolding future_of set_future
  complete callback_idx res_future v self =
      let callbacks = record (self.callbacks) {
        available_callback_indexes = callback_idx ∷ self.callbacks.available_callback_indexes;
      } in
      elim (future_of v >>= λ f. set_future res_future f callbacks.store) [
        | raised e ↦ raises (record self { callbacks = callbacks }) e
        | returned store ↦ carry_on (record self { callbacks = record callbacks { store = store } })
      ]

  -- The tests on a response, the popped future and a closing error.
  unfoldable pub dispatch :
      ℕ → Option ℕ → Option ResponseValue → Client V → Handled (Client V) PyException
  unfolding complete close_and_raise
  dispatch callback_idx res_future (some (ResponseValue.closing_error m)) self =
      close_and_raise m self
  dispatch callback_idx none v self = close_and_raise (unknown_index callback_idx) self
  dispatch callback_idx (some res_future) v self = complete callback_idx res_future v self

  unfoldable pub handle_response : Client V → Response → Handled (Client V) PyException
  unfolding dispatch
  handle_response self response =
      let futures = self.callbacks.available_futures in
      let popped = record self {
        callbacks = record (self.callbacks) {
          available_futures = dict_remove response.callback_idx futures;
        };
      } in
      dispatch response.callback_idx (dict_get response.callback_idx futures) response.value popped

  -- `_reader_loop` over the chunks that it reads without a turn of another task in between.
  unfoldable pub client_reader_loop :
      (List ℕ → Option Response) → List (List ℕ) → Client V → Reading (Client V) PyException
  client_reader_loop parse chunks self =
      reader_loop parse handle_response on_eof chunks (reading self [])

-- The callback that `start_socket_listener_external` is given.
unfoldable pub init_callback : Option String → Option String → Outcome String
init_callback socket_path (some err) = raised (closing (some err))
init_callback none none =
    raised (closing (some "Socket initialization error: Missing valid socket path."))
init_callback (some path) none = returned path

module _ {V : Type 0} where
  -- `_create_uds_connection`, by what `open_unix_connection` did; `message` is the exception's text.
  unfoldable pub create_uds_connection :
      Outcome (Unit {0}) → String → Client V → Client V × Outcome (Unit {0})
  unfolding close
  create_uds_connection (returned _) message self =
      (record self { has_writer = true; writer_open = true }, returned tt)
  create_uds_connection (raised e) message self =
      let (closed, done) = close (some ("Failed to create UDS connection: " <> message)) self in
      elim done [ returned _ ↦ (closed, raised e) | raised e' ↦ (closed, raised e') ]

  -- The start of the reader task.
  unfoldable pub start_reader : Client V → Client V
  start_reader self = record self { reader_running = true }

  -- `_set_connection_configurations` up to its await: the request goes out under index 0, and is not
  -- handed to a task of its own.
  unfoldable pub set_connection_configurations :
      (TRequest → List ℕ) → ConnectionRequest → Client V → Client V × ℕ
  unfolding get_future
  set_connection_configurations serialize conn_request self =
      let (callbacks, response_future) = get_future 0 self.callbacks in
      (
        record self {
          callbacks = callbacks;
          writer = write_or_buffer_request serialize self.writer (connection_request conn_request);
        },
        response_future,
      )

  -- `if response_future.result() is not OK: raise ClosingError(...)`, with what the exception's text
  -- is made of.
  unfoldable pub connection_answer : (V → String) → TResult V → Outcome (Unit {0})
  connection_answer text ok_result = returned tt
  connection_answer text none_result = raised (closing none)
  connection_answer text (value v) = raised (closing (some (text v)))
