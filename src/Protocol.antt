-- ===== src/Protocol.antt =====
-- The protobuf messages of glide-core/src/protobuf/redis_request.proto and response.proto, as far
-- as the Python wrapper sets or reads them: `args_vec_pointer` and `ScriptInvocation` are left out.
-- A `oneof` is a data type, and an unset one is `none`.
use glide_for_redis.Common.{ℕ, Bool, false, Option, none, String, List, []}
use glide_for_redis.Common.Text.{ℤ}

pub data RequestType : Type 0 where
  invalid_request custom_command get_string set_string ping info del select config_get config_set
        config_reset_stat config_rewrite client_get_name client_get_redir client_id client_info
        client_kill client_list client_no_evict client_no_touch client_pause client_reply
        client_set_info client_set_name client_unblock client_unpause expire hash_set hash_get
        hash_del hash_exists mget mset incr incr_by decr incr_by_float decr_by hash_get_all
        hash_mset hash_mget hash_incr_by hash_incr_by_float lpush lpop rpush rpop llen lrem lrange
        ltrim sadd srem smembers scard pexpire_at pexpire expire_at exists unlink ttl zadd zrem
        zrange zcard zcount zincr_by :
      RequestType

pub record Command : Type 0 where
  pub request_type : RequestType
  pub args_array : List String

pub data RequestCommand : Type 0 where
  single_command : Command → RequestCommand
  transaction : List Command → RequestCommand

pub data SimpleRoutes : Type 0 where
  all_nodes all_primaries random : SimpleRoutes

pub data SlotTypes : Type 0 where
  primary replica : SlotTypes

pub data Routes : Type 0 where
  simple_routes : SimpleRoutes → Routes
  slot_key_route : SlotTypes → String → Routes
  slot_id_route : SlotTypes → ℤ → Routes

pub record RedisRequest : Type 0 where
  pub callback_idx : ℕ
  pub command : Option RequestCommand
  pub route : Option Routes

-- `RedisRequest()`
abbrev pub empty_request : RedisRequest
empty_request = record { callback_idx = 0; command = none; route = none }

pub data RequestErrorType : Type 0 where
  unspecified exec_abort timeout disconnect : RequestErrorType

pub record RequestErrorMessage : Type 0 where
  pub error_type : RequestErrorType
  pub message : String

-- `constant_response` has the one value OK.
pub data ResponseValue : Type 0 where
  resp_pointer : ℕ → ResponseValue
  constant_response : ResponseValue
  request_error : RequestErrorMessage → ResponseValue
  closing_error : String → ResponseValue

pub record Response : Type 0 where
  pub callback_idx : ℕ
  pub value : Option ResponseValue

-- glide-core/src/protobuf/connection_request.proto. A scalar that is not set reads as 0 or "".
pub record AddressInfo : Type 0 where
  pub host : String
  pub port : ℕ

pub data ReadFromValue : Type 0 where
  from_primary prefer_replica lowest_latency az_affinity : ReadFromValue

pub data TlsMode : Type 0 where
  no_tls secure_tls insecure_tls : TlsMode

pub data ProtocolValue : Type 0 where
  resp3 resp2 : ProtocolValue

pub record AuthenticationInfo : Type 0 where
  pub password : String
  pub username : String

pub record ConnectionRetryStrategy : Type 0 where
  pub number_of_retries : ℕ
  pub factor : ℕ
  pub exponent_base : ℕ

pub record ConnectionRequest : Type 0 where
  pub addresses : List AddressInfo
  pub tls_mode : TlsMode
  pub cluster_mode_enabled : Bool
  pub request_timeout : ℕ
  pub read_from : ReadFromValue
  pub connection_retry_strategy : Option ConnectionRetryStrategy
  pub authentication_info : Option AuthenticationInfo
  pub database_id : ℕ
  pub protocol : ProtocolValue
  pub client_name : String

-- `ConnectionRequest()`
abbrev pub empty_connection_request : ConnectionRequest
empty_connection_request = record {
  addresses = [];
  tls_mode = no_tls;
  cluster_mode_enabled = false;
  request_timeout = 0;
  read_from = from_primary;
  connection_retry_strategy = none;
  authentication_info = none;
  database_id = 0;
  protocol = resp3;
  client_name = "";
}

-- `TRequest` of python/python/glide/constants.py.
pub data TRequest : Type 0 where
  redis_request : RedisRequest → TRequest
  connection_request : ConnectionRequest → TRequest
