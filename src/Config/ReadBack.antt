-- ===== src/Config/ReadBack.antt =====
-- The configuration as the core reads it from the message.
use mathlib.Core.Option
use mathlib.Core.List.{map-append}
use text.Mathlib.TextEquality.{eq_iff}
use text.Mathlib.Text.{◌==◌ as ◌=$=◌}
use glide_for_redis.Common.{
  ℕ, ◌≡◌, refl, ap, sym, ◌∙◌, Bool, true, false, Option, none, some, String, List, [], ◌∷◌, ◌++◌,
  ◌==◌, map, append_assoc, append-nil, if◌then◌else◌, arith,
}
use glide_for_redis.Exceptions.{returned, raised, assertion_error}
use glide_for_redis.Protocol.{
  AddressInfo, ReadFromValue, prefer_replica, TlsMode, no_tls, secure_tls, ProtocolValue,
  AuthenticationInfo, ConnectionRetryStrategy, ConnectionRequest,
}
use glide_for_redis.Config.{
  NodeAddress, ReadFrom, primary, prefers_replica, ProtocolVersion, version2, version3,
  BackoffStrategy, RedisCredentials, BaseClientConfiguration, RedisClientConfiguration, standalone,
  cluster, read_from_value, protocol_value, truthy_number, truthy_text, add_addresses,
  authentication, retry_strategy, base_request, create_a_protobuf_conn_request,
}

-- An unset number or text is the same as 0 or the empty one.
abbrev pub number_or_none : ℕ → Option ℕ
number_or_none n = if n == 0 then none else some n

abbrev pub text_or_none : String → Option String
text_or_none t = if t =$= "" then none else some t

abbrev pub read_credentials : AuthenticationInfo → RedisCredentials
read_credentials a = record { password = a.password; username = text_or_none a.username }

abbrev pub read_strategy : ConnectionRetryStrategy → BackoffStrategy
read_strategy s = record {
  num_of_retries = s.number_of_retries;
  factor = s.factor;
  exponent_base = s.exponent_base;
}

abbrev pub read_read_from : ReadFromValue → ReadFrom
read_read_from prefer_replica = prefers_replica
read_read_from _ = primary

abbrev pub is_secure : TlsMode → Bool
is_secure secure_tls = true
is_secure _ = false

abbrev pub read_protocol : ProtocolValue → ProtocolVersion
read_protocol ProtocolValue.resp2 = version2
read_protocol ProtocolValue.resp3 = version3

abbrev pub read_address : AddressInfo → NodeAddress
read_address a = record { host = a.host; port = a.port }

abbrev pub read_base : ConnectionRequest → BaseClientConfiguration
read_base r = record {
  addresses = map read_address r.addresses;
  use_tls = is_secure r.tls_mode;
  credentials = Option.map read_credentials r.authentication_info;
  read_from = read_read_from r.read_from;
  request_timeout = number_or_none r.request_timeout;
  client_name = text_or_none r.client_name;
  protocol = read_protocol r.protocol;
}

abbrev pub read_configuration : ConnectionRequest → RedisClientConfiguration
read_configuration r = record {
  base = read_base r;
  reconnect_strategy = Option.map read_strategy r.connection_retry_strategy;
  database_id = number_or_none r.database_id;
}

-- What the message cannot tell apart: 0 or the empty text, and an option that was not given.
abbrev pub number_given : Option ℕ → Option ℕ
number_given none = none
number_given (some n) = number_or_none n

abbrev pub text_given : Option String → Option String
text_given none = none
text_given (some t) = text_or_none t

abbrev pub credentials_given : RedisCredentials → RedisCredentials
credentials_given c = record c { username = text_given c.username }

abbrev pub base_given : BaseClientConfiguration → BaseClientConfiguration
base_given c = record c {
  credentials = Option.map credentials_given c.credentials;
  request_timeout = number_given c.request_timeout;
  client_name = text_given c.client_name;
}

abbrev pub given : RedisClientConfiguration → RedisClientConfiguration
given c = record c { base = base_given c.base; database_id = number_given c.database_id }

read-add_addresses :
    (added : List AddressInfo) (rest : List NodeAddress)
    → map read_address (add_addresses added rest) ≡ map read_address added ++ rest
unfolding add_addresses
read-add_addresses added [] = sym (append-nil _)
read-add_addresses added (a ∷ rest) =
    read-add_addresses (added ++ record { host = a.host; port = a.port } ∷ []) rest
    ∙ rw (map-append read_address added (record { host = a.host; port = a.port } ∷ []))
        (append_assoc (map read_address added) (a ∷ []) rest)

text_read : (t : Option String) → text_or_none (truthy_text t "") ≡ text_given t
text_read none = refl
text_read (some t) = ground (arith, eq_iff t "")

number_read : (n : Option ℕ) → number_or_none (truthy_number n 0) ≡ number_given n
number_read none = refl
number_read (some n) = ground arith

credentials_read :
    (c : Option RedisCredentials)
    → Option.map read_credentials (authentication c) ≡ Option.map credentials_given c
credentials_read none = refl
credentials_read (some c) =
    ap {B = Option RedisCredentials} (λ (u : Option String). some (record c { username = u }))
      (text_read c.username)

strategy_read : (s : Option BackoffStrategy) → Option.map read_strategy (retry_strategy s) ≡ s
strategy_read none = refl
strategy_read (some s) = refl

tls_read : (b : Bool) → is_secure (if b then secure_tls else no_tls) ≡ b
tls_read true = refl
tls_read false = refl

read_from_read : (r : ReadFrom) → read_read_from (read_from_value r) ≡ r
read_from_read primary = refl
read_from_read prefers_replica = refl

protocol_read : (p : ProtocolVersion) → read_protocol (protocol_value p) ≡ p
protocol_read version2 = refl
protocol_read version3 = refl

base_read :
    (c : BaseClientConfiguration) (mode : Bool) → read_base (base_request c mode) ≡ base_given c
unfolding base_request
base_read c mode i = record {
  addresses = read-add_addresses [] c.addresses i;
  use_tls = tls_read c.use_tls i;
  credentials = credentials_read c.credentials i;
  read_from = read_from_read c.read_from i;
  request_timeout = number_read c.request_timeout i;
  client_name = text_read c.client_name i;
  protocol = protocol_read c.protocol i;
}

-- A standalone configuration makes a message only without cluster mode, and raises
-- `AssertionError` with it. The message says that cluster mode is off, and every field of the
-- configuration can be read back from it, up to options given as 0 or as the empty text, which
-- read as not given.
pub standalone_read_back :
    (c : RedisClientConfiguration)
    → (r : ConnectionRequest) × (create_a_protobuf_conn_request (standalone c) false ≡ returned r)
      × (read_configuration r ≡ given c)
      × (r.cluster_mode_enabled ≡ false)
      × (create_a_protobuf_conn_request (standalone c) true ≡ raised assertion_error)
unfolding create_a_protobuf_conn_request
standalone_read_back c = (_, refl, whole, refl, refl)
  where
    whole :
        read_configuration (record (base_request c.base false) {
          connection_retry_strategy = retry_strategy c.reconnect_strategy;
          database_id = truthy_number c.database_id 0;
        })
        ≡ given c
    whole i = record {
      base = base_read c.base false i;
      reconnect_strategy = strategy_read c.reconnect_strategy i;
      database_id = number_read c.database_id i;
    }

-- A cluster configuration makes a message that says the cluster mode it was asked for, and from
-- which its fields can be read back in the same way; it asks for no retry strategy and no database.
pub cluster_read_back :
    (c : BaseClientConfiguration) (mode : Bool)
    → (r : ConnectionRequest) × (create_a_protobuf_conn_request (cluster c) mode ≡ returned r)
      × (read_base r ≡ base_given c)
      × (r.cluster_mode_enabled ≡ mode)
      × (r.connection_retry_strategy ≡ none)
      × (r.database_id ≡ 0)
unfolding create_a_protobuf_conn_request
cluster_read_back c true = (_, refl, base_read c true, refl, refl, refl)
cluster_read_back c false = (_, refl, base_read c false, refl, refl, refl)
