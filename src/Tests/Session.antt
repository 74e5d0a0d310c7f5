-- ===== src/Tests/Session.antt =====
-- A session with one call, of which protobuf knows the index alone.
use glide_for_redis.Common.{
  get_elem?, zero, suc, subst, ℕ, ◌≡◌, ◌⊎◌, refl, true, Option, none, some, List, [], ◌∷◌, ◌++◌,
  arith,
}
use glide_for_redis.Protocol.{
  RequestType, RequestCommand, single_command, RedisRequest, empty_request,
  empty_connection_request, TRequest, redis_request, connection_request, Response, ResponseValue,
  constant_response,
}
use glide_for_redis.Routes.{set_protobuf_route}
use glide_for_redis.Codec.{
  raised, partial_message, encode_delimited, decode_delimited, decode_varint_32,
}
use glide_for_redis.Stream.{Handled, raises, reading, on_read, read_messages, reader_loop}
use glide_for_redis.Client.Callbacks.{
  result, is_pending, get_future, get_callback_index, dict_get, dict_remove,
}
use glide_for_redis.Client.Writer.{write_loop, write_or_buffer_request}
use glide_for_redis.Client.Writer.Delivery.{stream, collect}
use glide_for_redis.Client.State.{ok_result, Client, send, start_write_task}
use glide_for_redis.Client.Reader.{
  handle_response, on_eof, create_uds_connection, start_reader, set_connection_configurations,
}
use glide_for_redis.Client.Answers.{IsOutcome, answered}
use glide_for_redis.Client.Sending.{Sent}
use glide_for_redis.Client.Session.{
  Session, IsGood, connected_session, Later, Happened, no_step, one_more, called, write_started,
  core_answers, client_reads,
}
use glide_for_redis.Client.Session.Invariant.{HasAnswer}
use glide_for_redis.Client.Session.Answers.{reader_goes_on, call-HasAnswer, all_calls_answered}
use glide_for_redis.Client.Session.Progress.{all_can_be_answered}
use glide_for_redis.Client.Session.Underway.{sent_requests}
use glide_for_redis.Client.Session.Requests.{to_come, core_reads_front, core_reads_requests}

abbrev ping : RequestCommand
ping = single_command (record { request_type = RequestType.ping; args_array = [] })

abbrev ping_at : ℕ → RedisRequest
ping_at i = record empty_request { callback_idx = i; command = some ping }

abbrev serialize : TRequest → List ℕ
serialize (redis_request r) = r.callback_idx ∷ []
serialize (connection_request r) = []

abbrev parse_request : List ℕ → Option TRequest
parse_request [] = some (connection_request empty_connection_request)
parse_request (i ∷ rest) = some (redis_request (ping_at i))

abbrev serialize_response : Response → List ℕ
serialize_response r = r.callback_idx ∷ []

abbrev parse : List ℕ → Option Response
parse (i ∷ []) = some (record { callback_idx = i; value = some constant_response })
parse _ = none

abbrev answer : ℕ → Option ResponseValue
answer place = some constant_response

abbrev value_from_pointer : ℕ → Option ℕ
value_from_pointer p = some p

abbrev Possible : Session ℕ → Type 0
Possible =
    Happened value_from_pointer parse serialize_response serialize answer empty_connection_request

abbrev Leads : Session ℕ → Session ℕ → Type 0
Leads = Later value_from_pointer parse serialize_response serialize answer

abbrev at_start : Session ℕ
at_start =
    connected_session value_from_pointer parse serialize_response serialize answer
      empty_connection_request

abbrev after_call : Client ℕ
after_call = (send ping none at_start.client).0

sent : Sent ping none at_start.client after_call 1
unfolding send get_callback_index get_future set_protobuf_route create_uds_connection start_reader
    set_connection_configurations
sent = record {
  request = ping_at 0;
  index = refl;
  content = refl;
  target = refl;
  after = refl;
  place = refl;
}

-- The call has gone out.
abbrev asked : Session ℕ
asked = record at_start {
  client = after_call;
  requests = none ∷ some (ping_at 0) ∷ [];
  unanswered = 1 ∷ [];
}

asked-Possible : Possible asked
unfolding send get_callback_index get_future set_protobuf_route create_uds_connection start_reader
    set_connection_configurations sent
asked-Possible = one_more (called ping none after_call 1 refl sent) no_step

-- Its task has started, and has written it.
abbrev written : Session ℕ
written = record asked { client = start_write_task serialize asked.client }

written-Possible : Possible written
unfolding start_write_task write_or_buffer_request write_loop send get_callback_index get_future
    set_protobuf_route create_uds_connection start_reader set_connection_configurations
written-Possible = one_more write_started asked-Possible

good : IsGood value_from_pointer parse serialize_response serialize answer 1 (ping_at 0)
unfolding IsOutcome
good = record { sendable = (ground arith, refl); outcome = result ok_result; decodes = refl }

-- The core has answered.
abbrev replied : Session ℕ
replied = record written { unanswered = []; inbound = 1 ∷ 0 ∷ [] }

replied-Possible : Possible replied
unfolding encode_delimited
replied-Possible = one_more (core_answers [] [] 1 (ping_at 0) refl refl good) written-Possible

reader_goes_on_example :
    (c : Client ℕ) × (left : List ℕ) × (on_read parse
        (handle_response value_from_pointer)
        on_eof
        replied.client
        []
        (1 ∷ [])
      ≡ reading c left)
reader_goes_on_example =
    reader_goes_on value_from_pointer parse serialize_response serialize answer
      empty_connection_request replied (1 ∷ []) (0 ∷ []) replied-Possible (λ e. cc) refl

call-HasAnswer_example :
    (is_pending replied.client.callbacks.store 1 ≡ true)
    ⊎ HasAnswer value_from_pointer answer replied.client.callbacks 1
call-HasAnswer_example =
    call-HasAnswer value_from_pointer parse serialize_response serialize answer
      empty_connection_request replied 1 (ping_at 0) replied-Possible refl

-- The client has read the answer, all of it at once.
abbrev finished : Session ℕ
finished = record replied {
  client = answered value_from_pointer 0 1 (result ok_result) replied.client;
  remaining = [];
  inbound = [];
}

finished-Possible : Possible finished
unfolding on_read read_messages decode_delimited decode_varint_32 handle_response dict_get
    dict_remove start_write_task send set_connection_configurations start_reader
    create_uds_connection get_future get_callback_index set_protobuf_route write_loop
    write_or_buffer_request
finished-Possible =
    one_more (client_reads (1 ∷ 0 ∷ []) [] finished.client [] (λ e. cc) refl refl) replied-Possible

all_calls_answered_example : HasAnswer value_from_pointer answer finished.client.callbacks 1
all_calls_answered_example =
    all_calls_answered value_from_pointer parse serialize_response serialize answer
      empty_connection_request finished 1 (ping_at 0) finished-Possible refl refl refl

on_end : List TRequest → Handled (List TRequest) Unit
on_end got = raises got tt

core_reads_front_example :
    (got : List TRequest) × (others : List TRequest) × (left : List ℕ) × (reader_loop parse_request
        (collect parse_request serialize)
        on_end
        ((0 ∷ []) ∷ (1 ∷ []) ∷ [])
        (reading [] [])
      ≡ reading got left)
    × (connection_request empty_connection_request ∷ sent_requests written.requests ≡ got ++ others)
    × (decode_delimited parse_request left 0 ≡ raised partial_message)
    × (left
          ++ (0 ∷ []
              ++ to_come value_from_pointer parse serialize_response parse_request serialize answer
                  written)
        ≡ stream parse_request serialize others)
unfolding start_write_task send set_connection_configurations start_reader create_uds_connection
    get_future get_callback_index set_protobuf_route write_loop write_or_buffer_request
    encode_delimited
core_reads_front_example =
    core_reads_front value_from_pointer parse serialize_response parse_request serialize answer
      empty_connection_request written ((0 ∷ []) ∷ (1 ∷ []) ∷ []) (0 ∷ []) on_end written-Possible
      ((ground arith, refl), ((ground arith, refl), tt)) ((λ e. cc), ((λ e. cc), tt)) refl

core_reads_requests_example :
    reader_loop parse_request
      (collect parse_request serialize)
      on_end
      ((0 ∷ []) ∷ (1 ∷ 0 ∷ []) ∷ [])
      (reading [] [])
    ≡ reading (connection_request empty_connection_request ∷ sent_requests written.requests) []
unfolding start_write_task send set_connection_configurations start_reader create_uds_connection
    get_future get_callback_index set_protobuf_route write_loop write_or_buffer_request
    encode_delimited
core_reads_requests_example =
    core_reads_requests value_from_pointer parse serialize_response parse_request serialize answer
      empty_connection_request written ((0 ∷ []) ∷ (1 ∷ 0 ∷ []) ∷ []) on_end written-Possible refl
      refl ((ground arith, refl), ((ground arith, refl), tt)) ((λ e. cc), ((λ e. cc), tt)) refl

all_fine :
    (place : ℕ) (q : RedisRequest)
    → get_elem? asked.requests place ≡ some (some q)
    → IsGood value_from_pointer parse serialize_response serialize answer place q
all_fine zero q e = cc
all_fine (suc zero) q e =
    subst (IsGood value_from_pointer parse serialize_response serialize answer 1) (cc e) good
all_fine (suc (suc place)) q e = cc

all_can_be_answered_example :
    (c : Client ℕ) × (s' : Session ℕ) × Leads asked (record asked { client = c })
    × (c.write_tasks ≡ [])
    × (c.writer.buffered_requests ≡ [])
    × Leads (record asked { client = c }) s'
    × (s'.requests ≡ asked.requests)
    × ((place : ℕ) (q : RedisRequest)
        → get_elem? asked.requests place ≡ some (some q)
        → HasAnswer value_from_pointer answer s'.client.callbacks place)
unfolding send set_connection_configurations start_reader create_uds_connection set_protobuf_route
    write_or_buffer_request
all_can_be_answered_example =
    all_can_be_answered value_from_pointer parse serialize_response serialize answer
      empty_connection_request asked asked-Possible (λ free. refl) all_fine
