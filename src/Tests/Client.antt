-- ===== src/Tests/Client.antt =====
-- Runs of the client. Values are numbers, and protobuf knows requests by their index alone.
use glide_for_redis.Common.{
  ◌++◌, ℕ, ◌≡◌, ◌≢◌, ◌⊎◌, refl, true, false, Option, none, some, List, [], ◌∷◌, get_elem?, All,
  ◌==◌, if◌then◌else◌, arith,
}
use glide_for_redis.Exceptions.{
  os_error, unicode_decode_error, attribute_error, invalid_state, invalid_route_type, returned,
  raised,
}
use glide_for_redis.Protocol.{
  resp_pointer, RequestType, RequestCommand, single_command, empty_request,
  empty_connection_request, TRequest, redis_request, connection_request, Response, ResponseValue,
  constant_response,
}
use glide_for_redis.Routes.{Route, other_route, all_nodes, set_protobuf_route}
use glide_for_redis.Codec.{encode_delimited}
use glide_for_redis.Stream.{Handled, carry_on, raises, reading, reader_loop}
use glide_for_redis.Stream.Chunks.{concat, NonEmpty}
use glide_for_redis.Client.Callbacks.{
  Future, result, failed, dict_get, dict_remove, dict_values, get_future, get_callback_index,
  is_pending,
}
use glide_for_redis.Client.Writer.{Writer, new_writer, write_or_buffer_request, write_loop}
use glide_for_redis.Client.Writer.Delivery.{
  stream, Run-stream, Run, start, submit, collect, turns, delivered,
}
use glide_for_redis.Client.State.{
  TResult, ok_result, Client, closing, closed_error, close, send, new_client,
}
use glide_for_redis.Client.Reader.{
  handle_response, create_uds_connection, start_reader, set_connection_configurations,
}
use glide_for_redis.Client.Slots.{occurrences}
use glide_for_redis.Client.Invariant.{IsSound}
use glide_for_redis.Client.Answers.{IsOutcome, freed, answered, handle_response_cases}
use glide_for_redis.Client.Sending.{next_index, taken, Sent, send_cases, send_in_flight}
use glide_for_redis.Client.Closing.{close_lem}
use glide_for_redis.Client.History.{Reached, connected, called, connected_client, Reached-IsSound}
use glide_for_redis.Client.History
use glide_for_redis.Client.Faults.{
  closing_error_strands, invalid_route_collides, create_uds_connection_masked,
}

abbrev serialize : TRequest → List ℕ
serialize (redis_request r) = r.callback_idx ∷ []
serialize (connection_request r) = []

abbrev parse : List ℕ → Option TRequest
parse [] = none
parse (i ∷ rest) = some (redis_request (record empty_request { callback_idx = i }))

abbrev value_from_pointer : ℕ → Option ℕ
value_from_pointer p = some p

abbrev request : ℕ → TRequest
request i = redis_request (record empty_request { callback_idx = i })

abbrev two_requests : List TRequest
two_requests = request 3 ∷ request 4 ∷ []

-- The second request comes while the first task waits for `drain`.
abbrev busy : Writer
busy =
    write_or_buffer_request serialize (write_or_buffer_request serialize new_writer (request 3))
      (request 4)

busy-Run : Run parse serialize false busy two_requests
busy-Run = submit (request 4) (submit (request 3) start)

Run-stream_example :
    busy.written ++ stream parse serialize busy.buffered_requests
    ≡ stream parse serialize two_requests
Run-stream_example = Run-stream parse serialize busy-Run

abbrev on_eof : List TRequest → Handled (List TRequest) (Unit {0})
on_eof got = raises got tt

abbrev pieces : List (List ℕ)
pieces = (1 ∷ 3 ∷ 1 ∷ []) ∷ (4 ∷ []) ∷ []

pieces-NonEmpty : All NonEmpty pieces
pieces-NonEmpty = ((λ e. cc), ((λ e. cc), tt))

bytes : concat pieces ≡ (turns parse serialize 2 busy).written
unfolding turns write_loop write_or_buffer_request encode_delimited
bytes = refl

delivered_example :
    reader_loop parse (collect parse serialize) on_eof pieces (reading [] [])
    ≡ reading two_requests []
delivered_example =
    delivered parse serialize busy pieces on_eof busy-Run
      ((ground arith, refl), ((ground arith, refl), tt)) pieces-NonEmpty bytes

abbrev ping : RequestCommand
ping = single_command (record { request_type = RequestType.ping; args_array = [] })

-- The connection request waits for its answer, and a call is made at once.
abbrev opened : Client ℕ
opened = connected_client value_from_pointer serialize empty_connection_request

abbrev waiting : Client ℕ
waiting = (send ping none opened).0

waiting-Reached : Reached value_from_pointer serialize waiting
waiting-Reached = called ping none (λ e. cc) (connected empty_connection_request)

abbrev connection_ok : Response
connection_ok = record { callback_idx = 0; value = some constant_response }

-- The connection is answered, the call is not.
abbrev answered_client : Client ℕ
answered_client = answered value_from_pointer 0 0 (result ok_result) waiting

answer : handle_response value_from_pointer waiting connection_ok ≡ carry_on answered_client
unfolding handle_response send get_callback_index get_future set_protobuf_route
    create_uds_connection start_reader set_connection_configurations dict_get
answer = refl

answered-Reached : Reached value_from_pointer serialize answered_client
answered-Reached = History.answered connection_ok answer waiting-Reached

answered-IsSound : IsSound answered_client.callbacks
answered-IsSound = Reached-IsSound value_from_pointer serialize answered_client answered-Reached

Reached-IsSound_example : IsSound answered_client.callbacks
Reached-IsSound_example =
    Reached-IsSound value_from_pointer serialize answered_client answered-Reached

waiting-IsSound : IsSound waiting.callbacks
waiting-IsSound = Reached-IsSound value_from_pointer serialize waiting waiting-Reached

first_in_flight : dict_get 0 waiting.callbacks.available_futures ≡ some 0
unfolding send get_callback_index get_future set_protobuf_route create_uds_connection start_reader
    set_connection_configurations dict_get
first_in_flight = refl

opened-IsSound : IsSound opened.callbacks
opened-IsSound =
    Reached-IsSound value_from_pointer serialize opened (connected empty_connection_request)

send_in_flight_example :
    (c' : Client ℕ) × (ref : ℕ) × (send ping none opened ≡ (c', returned ref))
    × Sent ping none opened c' ref
    × (dict_get (next_index opened) opened.callbacks.available_futures ≡ none)
    × ((j : ℕ)
        → dict_get j c'.callbacks.available_futures ≡ (
            if next_index opened == j
            then some ref
            else dict_get j opened.callbacks.available_futures))
    × (is_pending c'.callbacks.store ref ≡ true)
    × IsSound c'.callbacks
unfolding create_uds_connection set_connection_configurations start_reader
send_in_flight_example = send_in_flight ping none opened opened-IsSound refl (λ e. cc)

send_cases_example :
    ((opened.is_closed ≡ true) × (send ping none opened ≡ (opened, raised closed_error)))
    ⊎ ((opened.is_closed ≡ false)
        × (◌≡◌ {A = Option Route} none (some other_route))
        × (send ping none opened
            ≡ (record opened { callbacks = taken opened }, raised invalid_route_type)))
    ⊎ ((opened.is_closed ≡ false)
        × ((c' : Client ℕ) × (ref : ℕ) × (send ping none opened ≡ (c', returned ref))
            × Sent ping none opened c' ref))
send_cases_example = send_cases ping none opened

handle_response_cases_example :
    ((f : Future (TResult ℕ)) × IsOutcome value_from_pointer connection_ok.value f
      × (is_pending waiting.callbacks.store 0 ≡ true)
      × (handle_response value_from_pointer waiting connection_ok
          ≡ carry_on (answered value_from_pointer 0 0 f waiting)))
    ⊎ ((f : Future (TResult ℕ)) × IsOutcome value_from_pointer connection_ok.value f
        × (is_pending waiting.callbacks.store 0 ≡ false)
        × (handle_response value_from_pointer waiting connection_ok
            ≡ raises (freed value_from_pointer 0 waiting) invalid_state))
    ⊎ ((p : ℕ) × (connection_ok.value ≡ some (resp_pointer p))
        × (value_from_pointer p ≡ none)
        × (handle_response value_from_pointer waiting connection_ok
            ≡ raises (freed value_from_pointer 0 waiting) unicode_decode_error))
handle_response_cases_example =
    handle_response_cases value_from_pointer waiting connection_ok 0 first_in_flight refl

close_lem_example :
    ((r : ℕ)
      → get_elem? (close none waiting).0.callbacks.store r ≡ (
          if is_pending waiting.callbacks.store r
          then some (failed (closing none))
          else get_elem? waiting.callbacks.store r))
    × ((r : ℕ) → is_pending (close none waiting).0.callbacks.store r ≡ false)
    × ((command : RequestCommand) (route : Option Route)
        → send command route (close none waiting).0 ≡ ((close none waiting).0, raised closed_error))
close_lem_example = close_lem none waiting waiting-IsSound

closing_error_strands_example :
    (c' : Client ℕ) × (handle_response value_from_pointer waiting
        (record { callback_idx = 1; value = some (ResponseValue.closing_error "refused") })
      ≡ raises c' (closing (some "refused")))
    × (c'.is_closed ≡ true)
    × (c'.reader_running ≡ false)
    × (is_pending c'.callbacks.store 1 ≡ true)
    × (occurrences 1 (dict_values c'.callbacks.available_futures) ≡ 0)
unfolding send get_callback_index get_future set_protobuf_route create_uds_connection start_reader
    set_connection_configurations dict_get
closing_error_strands_example =
    closing_error_strands value_from_pointer waiting 1 1 "refused" waiting-IsSound refl refl refl

invalid_route_collides_example :
    (c' : Client ℕ) × (c'' : Client ℕ) × (old : ℕ) × (new : ℕ) × (send ping
        (some other_route)
        answered_client
      ≡ (c', raised invalid_route_type))
    × (dict_get (next_index c') c'.callbacks.available_futures ≡ some old)
    × (send ping (some all_nodes) c' ≡ (c'', returned new))
    × (dict_get (next_index c') c''.callbacks.available_futures ≡ some new)
    × (new ≢ old)
unfolding send get_callback_index get_future set_protobuf_route create_uds_connection start_reader
    set_connection_configurations dict_get dict_remove
invalid_route_collides_example =
    invalid_route_collides value_from_pointer ping ping (some all_nodes) answered_client 0
      answered-IsSound refl refl (ground arith) (λ e. cc)

create_uds_connection_masked_example :
    (c' : Client ℕ) × (create_uds_connection (raised (os_error "no socket")) "no socket" new_client
      ≡ (c', raised attribute_error))
    × (c'.is_closed ≡ true)
create_uds_connection_masked_example =
    create_uds_connection_masked value_from_pointer (os_error "no socket") "no socket" new_client
      refl
