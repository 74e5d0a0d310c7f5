-- ===== src/Config.antt =====
-- python/python/glide/config.py: the client's configuration and the message made of it.
-- An integer is a natural number; that protobuf refuses one beyond 32 bits is not modelled.
pub mod ReadBack
use text.Mathlib.Text.{◌==◌ as ◌=$=◌}
use glide_for_redis.Common.{
  ℕ, Bool, true, false, Option, none, some, String, List, [], ◌∷◌, ◌++◌, ◌==◌, if◌then◌else◌,
}
use glide_for_redis.Exceptions.{Outcome, returned, raised, assertion_error, ◌>>=◌}
use glide_for_redis.Protocol.{
  AddressInfo, ReadFromValue, from_primary, prefer_replica, TlsMode, no_tls, secure_tls,
  ProtocolValue, AuthenticationInfo, ConnectionRetryStrategy, ConnectionRequest,
  empty_connection_request,
}

pub record NodeAddress : Type 0 where
  pub host : String
  pub port : ℕ

pub data ReadFrom : Type 0 where
  primary prefers_replica : ReadFrom

pub data ProtocolVersion : Type 0 where
  version2 version3 : ProtocolVersion

pub record BackoffStrategy : Type 0 where
  pub num_of_retries : ℕ
  pub factor : ℕ
  pub exponent_base : ℕ

pub record RedisCredentials : Type 0 where
  pub password : String
  pub username : Option String

pub record BaseClientConfiguration : Type 0 where
  pub addresses : List NodeAddress
  pub use_tls : Bool
  pub credentials : Option RedisCredentials
  pub read_from : ReadFrom
  pub request_timeout : Option ℕ
  pub client_name : Option String
  pub protocol : ProtocolVersion

pub record RedisClientConfiguration : Type 0 where
  pub base : BaseClientConfiguration
  pub open base use *
  pub reconnect_strategy : Option BackoffStrategy
  pub database_id : Option ℕ

-- An object of one of the two classes that users make.
pub data ClientConfiguration : Type 0 where
  standalone : RedisClientConfiguration → ClientConfiguration
  cluster : BaseClientConfiguration → ClientConfiguration

-- The `value` of each member.
abbrev pub read_from_value : ReadFrom → ReadFromValue
read_from_value primary = from_primary
read_from_value prefers_replica = prefer_replica

abbrev pub protocol_value : ProtocolVersion → ProtocolValue
protocol_value version2 = ProtocolValue.resp2
protocol_value version3 = ProtocolValue.resp3

-- Whether an optional number or text is true under `if`, and then the value.
abbrev pub truthy_number : Option ℕ → ℕ → ℕ
truthy_number none unset = unset
truthy_number (some n) unset = if n == 0 then unset else n

abbrev pub truthy_text : Option String → String → String
truthy_text none unset = unset
truthy_text (some t) unset = if t =$= "" then unset else t

pub add_addresses : List AddressInfo → List NodeAddress → List AddressInfo
add_addresses added [] = added
add_addresses added (a ∷ rest) =
    add_addresses (added ++ record { host = a.host; port = a.port } ∷ []) rest

abbrev pub authentication : Option RedisCredentials → Option AuthenticationInfo
authentication none = none
authentication (some c) =
    some (record { password = c.password; username = truthy_text c.username "" })

pub base_request : BaseClientConfiguration → Bool → ConnectionRequest
unfolding add_addresses
base_request self cluster_mode = record empty_connection_request {
  addresses = add_addresses [] self.addresses;
  tls_mode = if self.use_tls then secure_tls else no_tls;
  read_from = read_from_value self.read_from;
  request_timeout = truthy_number self.request_timeout 0;
  cluster_mode_enabled = if cluster_mode then true else false;
  authentication_info = authentication self.credentials;
  client_name = truthy_text self.client_name "";
  protocol = protocol_value self.protocol;
}

abbrev pub retry_strategy : Option BackoffStrategy → Option ConnectionRetryStrategy
retry_strategy none = none
retry_strategy (some s) = some (record {
  number_of_retries = s.num_of_retries;
  factor = s.factor;
  exponent_base = s.exponent_base;
})

-- `assert cluster_mode is False`, and the base class's message with two fields more.
pub standalone_request : RedisClientConfiguration → Bool → Outcome ConnectionRequest
unfolding base_request
standalone_request self true = raised assertion_error
standalone_request self false = returned (record (base_request self.base false) {
  connection_retry_strategy = retry_strategy self.reconnect_strategy;
  database_id = truthy_number self.database_id 0;
})

-- `config._create_a_protobuf_conn_request(cluster_mode)`, by the class of the object.
unfoldable pub create_a_protobuf_conn_request :
    ClientConfiguration → Bool → Outcome ConnectionRequest
unfolding standalone_request base_request
create_a_protobuf_conn_request (standalone c) cluster_mode = standalone_request c cluster_mode
create_a_protobuf_conn_request (cluster c) cluster_mode = returned (base_request c cluster_mode)
