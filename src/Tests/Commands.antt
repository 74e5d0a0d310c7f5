-- ===== src/Tests/Commands.antt =====
-- Runs of the configuration, the routes and the commands. Times are numbers of milliseconds.
use mathlib.Core.Option
use glide_for_redis.Common.{
  ℕ, ◌/◌, ◌≡◌, ◌⊎◌, refl, true, false, Option, none, some, String, List, [], ◌∷◌, map,
}
use glide_for_redis.Common.Text.{pos, negsuc, str}
use glide_for_redis.Exceptions.{
  redis_error, closing_error, request_error, get_request_error_class, IsSubclass,
  get_request_error_class-IsSubclass, returned, raised, assertion_error, invalid_route_type,
}
use glide_for_redis.Protocol.{
  Command, RedisRequest, empty_request, ConnectionRequest, RequestErrorType,
}
use glide_for_redis.Routes.{
  Route, slot_key, replica_slot, other_route, read_route, set_protobuf_route,
  set_protobuf_route_lem,
}
use glide_for_redis.Config.{
  prefers_replica, version2, BaseClientConfiguration, RedisClientConfiguration, standalone, cluster,
  create_a_protobuf_conn_request,
}
use glide_for_redis.Config.ReadBack.{
  read_base, read_configuration, given, base_given, standalone_read_back, cluster_read_back,
}
use glide_for_redis.Commands.Options.{
  only_if_exists, sec, millsec, Times, int, ExpirySet, set_expiry_type_and_value,
}
use glide_for_redis.Commands.Batch.{BaseTransaction, new_transaction, clear}
use glide_for_redis.Commands.Standalone
use glide_for_redis.Commands.Cluster
use glide_for_redis.Commands.Agreement.{ping, Call, server, set, get, issue}
use glide_for_redis.Commands.Queueing.{as_command, queue_all, exec-queue_all}
use glide_for_redis.Commands.SetGrammar.{read_set, set_args, options, valued, read_set-set_args}
use glide_for_redis.Commands.Expiry.{expiry, read_set-nonzero, set_expiry_zero}

abbrev base : BaseClientConfiguration
base = record {
  addresses = record { host = "localhost"; port = 6379 } ∷ [];
  use_tls = true;
  credentials = some (record { password = "secret"; username = none });
  read_from = prefers_replica;
  request_timeout = some 250;
  client_name = some "";
  protocol = version2;
}

abbrev configuration : RedisClientConfiguration
configuration = record {
  base = base;
  reconnect_strategy = some (record { num_of_retries = 3; factor = 100; exponent_base = 2 });
  database_id = some 1;
}

standalone_read_back_example :
    (r : ConnectionRequest) × (create_a_protobuf_conn_request (standalone configuration) false
      ≡ returned r)
    × (read_configuration r ≡ given configuration)
    × (r.cluster_mode_enabled ≡ false)
    × (create_a_protobuf_conn_request (standalone configuration) true ≡ raised assertion_error)
standalone_read_back_example = standalone_read_back configuration

cluster_read_back_example :
    (r : ConnectionRequest) × (create_a_protobuf_conn_request (cluster base) true ≡ returned r)
    × (read_base r ≡ base_given base)
    × (r.cluster_mode_enabled ≡ true)
    × (r.connection_retry_strategy ≡ none)
    × (r.database_id ≡ 0)
cluster_read_back_example = cluster_read_back base true

abbrev route : Option Route
route = some (slot_key replica_slot "user:1")

set_protobuf_route_lem_example :
    ((sent : RedisRequest) × (set_protobuf_route empty_request route ≡ returned sent)
      × (Option.map read_route sent.route ≡ route)
      × (sent.callback_idx ≡ 0)
      × (sent.command ≡ none))
    ⊎ ((route ≡ some other_route)
        × (set_protobuf_route empty_request route ≡ raised invalid_route_type))
set_protobuf_route_lem_example = set_protobuf_route_lem empty_request route refl

get_request_error_class-IsSubclass_example :
    IsSubclass (get_request_error_class (some RequestErrorType.timeout)) request_error
    × IsSubclass (get_request_error_class (some RequestErrorType.timeout)) redis_error
    × ¬ IsSubclass (get_request_error_class (some RequestErrorType.timeout)) closing_error
get_request_error_class-IsSubclass_example =
    get_request_error_class-IsSubclass (some RequestErrorType.timeout)

-- Floats, of which these calls have none, are texts.
abbrev float_text : String → String
float_text f = f

abbrev calls : List (Call String)
calls = set "k" "v" (some only_if_exists) none true ∷ get "k" ∷ server (ping none) ∷ []

abbrev used : BaseTransaction
used = queue_all float_text new_transaction (get "before" ∷ [])

-- What a client is asked to send.
abbrev Sending : Type 0
Sending = List Command × Option Route

abbrev send_all : List Command → Option Route → Sending
send_all commands to = (commands, to)

exec-queue_all_example :
    (Standalone.exec send_all (queue_all float_text (clear used) calls)
      ≡ send_all (map (issue float_text as_command) calls) none)
    × (Cluster.exec send_all (queue_all float_text new_transaction calls) route
        ≡ send_all (map (issue float_text as_command) calls) route)
exec-queue_all_example = exec-queue_all float_text send_all used calls route

abbrev times : Times
times = record {
  Timedelta = ℕ;
  Datetime = ℕ;
  int_total_seconds = λ t. pos (t / 1000);
  int_total_seconds_1000 = λ t. pos t;
  int_timestamp = λ t. pos (t / 1000);
  int_timestamp_1000 = λ t. pos t;
}

read_set-set_args_example :
    read_set (set_args "k" "v" (some only_if_exists) (some (expiry millsec (some "250"))) true)
    ≡ some ("k", "v", options (some only_if_exists) true (some (expiry millsec (some "250"))))
read_set-set_args_example =
    read_set-set_args "k" "v" (some only_if_exists) (some (expiry millsec (some "250"))) true
      (valued millsec "250" (λ e. cc))

read_set-nonzero_example :
    (e : ExpirySet) × (set_expiry_type_and_value times sec (int (pos 60)) ≡ returned e)
    × (read_set (set_args "k" "v" none (some e) false)
        ≡ some ("k", "v", options none false (some (expiry sec (some (str (pos 60)))))))
read_set-nonzero_example = read_set-nonzero times sec (pos 60) "k" "v" none false (λ e. cc) refl

set_expiry_zero_example :
    (e : ExpirySet) × (set_expiry_type_and_value times sec (int (pos 0)) ≡ returned e)
    × (read_set (set_args "k" "v" none (some e) false) ≡ none)
set_expiry_zero_example = set_expiry_zero times sec "k" "v" none false (λ e. cc)

sixty : str (pos 60) ≡ "60"
unfolding str
sixty = refl

minus_twelve : str (negsuc 11) ≡ "-12"
unfolding str
minus_twelve = refl
