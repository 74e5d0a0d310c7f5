-- ===== src/Client/Create/Answer.antt =====
-- What `create` makes of the core's answer to the connection request.
use glide_for_redis.Common.{
  ℕ, zero, suc, Option-cases, ◌≡◌, refl, sym, ap, ◌∙◌, true, false, Option, none, some, String,
  List, [], ◌∷◌, append-nil, All, inl, inr, arith,
}
use glide_for_redis.Exceptions.{
  redis, new_error, get_request_error_class, Outcome, returned, raised,
}
use glide_for_redis.Protocol.{
  ConnectionRequest, TRequest, Response, ResponseValue, resp_pointer, constant_response,
  request_error,
}
use glide_for_redis.Config.{ClientConfiguration}
use glide_for_redis.Stream.Chunks.{concat, NonEmpty}
use glide_for_redis.Stream.Frames.{frames, IsSendable, nothing, handle_all, reader_loop-handle_all}
use glide_for_redis.Client.Writer.{write_loop, write_or_buffer_request}
use glide_for_redis.Client.Callbacks.{result, dict_get, dict_remove, get_future, fail_pending}
use glide_for_redis.Client.State.{
  ok_result, Client, ClientKind, get_protobuf_conn_request, closing, close,
}
use glide_for_redis.Client.Reader.{
  future_of, handle_response, on_eof, unknown_index, client_reader_loop, init_callback,
  create_uds_connection, start_reader, set_connection_configurations, connection_answer,
}
use glide_for_redis.Client.Answers.{answered}
use glide_for_redis.Client.History
use glide_for_redis.Client.History.{Reached, connected, configured_client}
use glide_for_redis.Client.Create.{
  Surroundings, Creation, waits, left, after_response, client_of, configure, create,
}

-- Up to the answer everything goes well: the listener has a path, the connection opens, and `drain`
-- ends.
abbrev pub served : String → List (List ℕ) → Surroundings
served path chunks = record {
  socket_path = some path;
  err = none;
  open_connection = returned tt;
  open_message = "";
  drain = returned tt;
  chunks = chunks;
}

-- How `create` has ended, `none` if it waits.
abbrev pub ending : {V : Type 0} → Creation V → Option (Outcome (Unit {0}))
ending waits = none
ending (left c o) = some o

module _ {V : Type 0} (value_from_pointer : ℕ → Option V) (text : V → String) where
  -- How `create` ends by the one response, `none` if it does not.
  unfoldable pub verdict_at_zero : Option ResponseValue → Option (Outcome (Unit {0}))
  verdict_at_zero (some constant_response) = some (returned tt)
  verdict_at_zero (some (request_error e)) =
      some
        (raised (redis (new_error (get_request_error_class (some e.error_type)) (some e.message))))
  verdict_at_zero (some (resp_pointer p)) = elim (value_from_pointer p) [
    | none ↦ none
    | some v ↦ some (raised (closing (some (text v))))
  ]
  verdict_at_zero (some (ResponseValue.closing_error m)) = none
  verdict_at_zero none = some (raised (closing none))

  unfoldable pub verdict : ℕ → Option ResponseValue → Option (Outcome (Unit {0}))
  unfolding verdict_at_zero
  verdict zero v = verdict_at_zero v
  verdict (suc i) (some (ResponseValue.closing_error m)) = some (raised (closing (some m)))
  verdict (suc i) v = some (raised (closing (some (unknown_index (suc i)))))

module _ {V : Type 0} (value_from_pointer : ℕ → Option V) (text : V → String)
    (parse : List ℕ → Option Response) (serialize_response : Response → List ℕ)
    (serialize : TRequest → List ℕ) where
  abbrev waiting : ConnectionRequest → Client V
  waiting request = configured_client value_from_pointer serialize request

  -- The client behind the write of the connection request.
  abbrev sent_off : ConnectionRequest → Client V → Client V
  sent_off request opened =
      let c = (set_connection_configurations serialize request opened).0 in
      record c { writer = write_loop serialize c.writer }

  configure-served :
      (o : Outcome ConnectionRequest) (request : ConnectionRequest) (path : String)
      (chunks : List (List ℕ)) (opened : Client V)
      → o ≡ returned request
      → configure value_from_pointer text parse serialize o (served path chunks) opened
        ≡ after_response text (set_connection_configurations serialize request opened).1 (
            client_of
              (sent_off request opened)
              (client_reader_loop value_from_pointer parse chunks (sent_off request opened)))
  unfolding configure
  configure-served o request path chunks opened e = rw (e, configure) refl

  create-served :
      (kind : ClientKind) (config : ClientConfiguration) (request : ConnectionRequest)
      (path : String) (chunks : List (List ℕ)) (r : Response)
      → get_protobuf_conn_request kind config ≡ returned request
      → IsSendable parse serialize_response r
      → All NonEmpty chunks
      → concat chunks ≡ frames parse serialize_response (r ∷ [])
      → create value_from_pointer text parse serialize kind config (served path chunks)
        ≡ after_response text 0 (
            client_of
              (waiting request)
              (handle_all (handle_response value_from_pointer) [] (waiting request) (r ∷ [])))
  unfolding create init_callback create_uds_connection set_connection_configurations
      client_reader_loop get_future start_reader
  create-served kind config request path chunks r e fits reads bytes =
      configure-served (get_protobuf_conn_request kind config) request path chunks _ e
      ∙ ap (λ x. after_response text 0 (client_of (waiting request) x))
          (reader_loop-handle_all parse serialize_response (handle_response value_from_pointer)
            on_eof (waiting request) (r ∷ []) [] chunks (fits, tt) (nothing refl) reads
            (bytes ∙ sym (append-nil (frames parse serialize_response (r ∷ [])))))

  -- The state of `create` after one response.
  abbrev after_one : ConnectionRequest → ℕ → Option ResponseValue → Creation V
  after_one request i v = after_response text 0 (
      client_of (waiting request) (
        handle_all (handle_response value_from_pointer) [] (waiting request)
          (record { callback_idx = i; value = v } ∷ [])))

  after_one-verdict :
      (request : ConnectionRequest) (i : ℕ) (v : Option ResponseValue)
      → ending (after_one request i v) ≡ verdict value_from_pointer text i v
  unfolding after_response handle_all handle_response verdict create_uds_connection
      set_connection_configurations get_future start_reader dict_get close fail_pending
      connection_answer dict_remove
  after_one-verdict request zero none = refl
  after_one-verdict request zero (some constant_response) = refl
  after_one-verdict request zero (some (request_error e)) = refl
  after_one-verdict request zero (some (ResponseValue.closing_error m)) = refl
  after_one-verdict request zero (some (resp_pointer p)) =
      elim (Option-cases (value_from_pointer p)) [
        | inl n ↦ rw (n, ending, verdict_at_zero, future_of) refl
        | inr (v, e) ↦ rw (e, ending, verdict_at_zero, future_of) refl
      ]
  after_one-verdict request (suc i) none = ground arith
  after_one-verdict request (suc i) (some constant_response) = ground arith
  after_one-verdict request (suc i) (some (request_error e)) = ground arith
  after_one-verdict request (suc i) (some (ResponseValue.closing_error m)) = ground arith
  after_one-verdict request (suc i) (some (resp_pointer p)) = ground arith

  -- When all goes well up to the answer, and the one response has come in any non-empty reads,
  -- `create` returns on a constant `OK` at index 0; raises the core's error on an error there, and a
  -- `ClosingError` on any other value; raises a `ClosingError` on a response at another index, with
  -- the text of the closing error if it is one; and waits for ever if the response at index 0 is a
  -- closing error or a value that does not decode.
  pub create-verdict :
      (kind : ClientKind) (config : ClientConfiguration) (request : ConnectionRequest)
      (path : String) (chunks : List (List ℕ)) (i : ℕ) (v : Option ResponseValue)
      → get_protobuf_conn_request kind config ≡ returned request
      → IsSendable parse serialize_response (record { callback_idx = i; value = v })
      → All NonEmpty chunks
      → concat chunks
        ≡ frames parse serialize_response (record { callback_idx = i; value = v } ∷ [])
      → ending (create value_from_pointer text parse serialize kind config (served path chunks))
        ≡ verdict value_from_pointer text i v
  create-verdict kind config request path chunks i v e fits reads bytes =
      ap ending (
        create-served kind config request path chunks (record { callback_idx = i; value = v }) e
          fits reads bytes)
      ∙ after_one-verdict request i v

  pub answered-Reached :
      (request : ConnectionRequest)
      → Reached value_from_pointer serialize
          (answered value_from_pointer 0 0 (result ok_result) (waiting request))
  unfolding create_uds_connection set_connection_configurations get_future start_reader
      handle_response dict_get dict_remove write_or_buffer_request
  answered-Reached request =
      History.answered (record { callback_idx = 0; value = some constant_response }) refl
        (History.drained refl (connected request))

  -- If that response is a constant `OK` at index 0, `create` returns an open client, one that the
  -- theorems on every later history speak of, with index 0 free, no call
  -- waiting, the writer's lock free and nothing buffered.
  pub create_connected :
      (kind : ClientKind) (config : ClientConfiguration) (request : ConnectionRequest)
      (path : String) (chunks : List (List ℕ))
      → get_protobuf_conn_request kind config ≡ returned request
      → IsSendable parse serialize_response
          (record { callback_idx = 0; value = some constant_response })
      → All NonEmpty chunks
      → concat chunks
        ≡ frames parse serialize_response
            (record { callback_idx = 0; value = some constant_response } ∷ [])
      → (c : Client V) × (create value_from_pointer text parse serialize kind config
            (served path chunks)
          ≡ left c (returned tt))
        × Reached value_from_pointer serialize c
        × (c.is_closed ≡ false)
        × (c.reader_running ≡ true)
        × (c.callbacks.available_futures ≡ [])
        × (c.callbacks.available_callback_indexes ≡ 0 ∷ [])
        × (c.writer.writer_lock ≡ false)
        × (c.writer.buffered_requests ≡ [])
  unfolding after_response handle_all handle_response create_uds_connection
      set_connection_configurations get_future start_reader dict_get connection_answer dict_remove
      write_loop write_or_buffer_request
  create_connected kind config request path chunks e fits reads bytes = (
    answered value_from_pointer 0 0 (result ok_result) (waiting request),
    create-served kind config request path chunks
        (record { callback_idx = 0; value = some constant_response }) e fits reads bytes,
    answered-Reached request,
    refl,
    refl,
    refl,
    refl,
    refl,
    refl,
  )
