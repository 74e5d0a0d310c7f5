-- ===== src/Tests/Startup.antt =====
-- Runs of `create`, and a call behind it. Values are numbers, and protobuf knows requests and
-- responses by their index alone.
use glide_for_redis.Common.{
  ℕ, ◌≡◌, refl, true, false, Option, none, some, String, List, [], ◌∷◌, get_elem?, All, ◌==◌,
  if◌then◌else◌, arith,
}
use glide_for_redis.Exceptions.{returned}
use glide_for_redis.Protocol.{
  RequestType, RequestCommand, single_command, ConnectionRequest, empty_connection_request,
  TRequest, redis_request, connection_request, Response, constant_response, resp_pointer,
}
use glide_for_redis.Config.{
  ClientConfiguration, cluster, ReadFrom, ProtocolVersion, base_request,
  create_a_protobuf_conn_request,
}
use glide_for_redis.Codec.{encode_delimited}
use glide_for_redis.Stream.{carry_on}
use glide_for_redis.Stream.Chunks.{concat, NonEmpty}
use glide_for_redis.Stream.Frames.{frames}
use glide_for_redis.Client.Callbacks.{result, dict_get, get_future, get_callback_index}
use glide_for_redis.Client.State.{
  TResult, ok_result, Client, redis_cluster_client, get_protobuf_conn_request, send,
}
use glide_for_redis.Client.Reader.{
  handle_response, create_uds_connection, start_reader, set_connection_configurations,
}
use glide_for_redis.Client.Answers.{answered}
use glide_for_redis.Client.History.{Reached, connected, connected_client}
use glide_for_redis.Client.Correlation.{
  Between, at_once, called, other_answered, answer_reaches_caller,
}
use glide_for_redis.Client.Create.{left, create}
use glide_for_redis.Client.Create.Answer.{served, ending, verdict, create-verdict, create_connected}
use glide_for_redis.Routes.{set_protobuf_route}

abbrev serialize : TRequest → List ℕ
serialize (redis_request r) = r.callback_idx ∷ []
serialize (connection_request r) = []

abbrev value_from_pointer : ℕ → Option ℕ
value_from_pointer p = some p

abbrev ping : RequestCommand
ping = single_command (record { request_type = RequestType.ping; args_array = [] })

abbrev opened : Client ℕ
opened = connected_client value_from_pointer serialize empty_connection_request

-- A call, then the answer to the connection request, then another call.
abbrev first : Client ℕ
first = (send ping none opened).0

abbrev connection_ok : Response
connection_ok = record { callback_idx = 0; value = some constant_response }

abbrev second : Client ℕ
second = answered value_from_pointer 0 0 (result ok_result) first

abbrev third : Client ℕ
third = (send ping none second).0

between : Between value_from_pointer serialize 1 1 first third
unfolding handle_response send get_callback_index get_future set_protobuf_route
    create_uds_connection start_reader set_connection_configurations dict_get
between = called ping none (λ e. cc) (other_answered connection_ok (ground arith) refl at_once)

answer_reaches_caller_example :
    (c : Client ℕ) × (handle_response value_from_pointer third
        (record { callback_idx = 1; value = some (resp_pointer 7) })
      ≡ carry_on c)
    × ((place : ℕ)
        → get_elem? c.callbacks.store place ≡ (
            if 1 == place
            then some (result (TResult.value 7))
            else get_elem? third.callbacks.store place))
unfolding handle_response send get_callback_index get_future set_protobuf_route
    create_uds_connection start_reader set_connection_configurations dict_get
answer_reaches_caller_example =
    answer_reaches_caller value_from_pointer serialize ping none opened first third 1
      (record { callback_idx = 1; value = some (resp_pointer 7) }) (result (TResult.value 7))
      (connected empty_connection_request) (λ e. cc) refl between refl refl refl

abbrev text : ℕ → String
text n = "value"

abbrev serialize_response : Response → List ℕ
serialize_response r = r.callback_idx ∷ []

abbrev parse : List ℕ → Option Response
parse (i ∷ []) = some (record { callback_idx = i; value = some constant_response })
parse _ = none

abbrev config : ClientConfiguration
config = cluster (record {
  addresses = [];
  use_tls = false;
  credentials = none;
  read_from = ReadFrom.primary;
  request_timeout = none;
  client_name = none;
  protocol = ProtocolVersion.version3;
})

abbrev request : ConnectionRequest
request =
    base_request
      (record {
        addresses = [];
        use_tls = false;
        credentials = none;
        read_from = ReadFrom.primary;
        request_timeout = none;
        client_name = none;
        protocol = ProtocolVersion.version3;
      })
      true

asked : get_protobuf_conn_request redis_cluster_client config ≡ returned request
unfolding get_protobuf_conn_request create_a_protobuf_conn_request
asked = refl

abbrev chunks : List (List ℕ)
chunks = (1 ∷ []) ∷ (0 ∷ []) ∷ []

chunks-NonEmpty : All NonEmpty chunks
chunks-NonEmpty = ((λ e. cc), ((λ e. cc), tt))

bytes : concat chunks ≡ frames parse serialize_response (connection_ok ∷ [])
unfolding encode_delimited
bytes = refl

create-verdict_example :
    ending (
      create value_from_pointer text parse serialize redis_cluster_client config
        (served "socket" chunks))
    ≡ some (returned tt)
unfolding verdict
create-verdict_example =
    create-verdict value_from_pointer text parse serialize_response serialize redis_cluster_client
      config request "socket" chunks 0 (some constant_response) asked (ground arith, refl)
      chunks-NonEmpty bytes

create_connected_example :
    (c : Client ℕ) × (create value_from_pointer text parse serialize redis_cluster_client config
        (served "socket" chunks)
      ≡ left c (returned tt))
    × Reached value_from_pointer serialize c
    × (c.is_closed ≡ false)
    × (c.reader_running ≡ true)
    × (c.callbacks.available_futures ≡ [])
    × (c.callbacks.available_callback_indexes ≡ 0 ∷ [])
    × (c.writer.writer_lock ≡ false)
    × (c.writer.buffered_requests ≡ [])
create_connected_example =
    create_connected value_from_pointer text parse serialize_response serialize redis_cluster_client
      config request "socket" chunks asked (ground arith, refl) chunks-NonEmpty bytes
