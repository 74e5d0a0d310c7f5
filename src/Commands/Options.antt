-- ===== src/Commands/Options.antt =====
-- The option classes of python/python/glide/async_commands/core.py.
-- `timedelta` and `datetime` are parameters, with the floating-point expressions that turn them
-- into integers.
use glide_for_redis.Common.{
  Bool, true, false, Option, none, some, String, List, [], ◌∷◌, if◌then◌else◌,
}
use glide_for_redis.Common.Text.{ℤ, is_zero, str}
use glide_for_redis.Exceptions.{Outcome, returned, raised, value_error}

pub data ConditionalSet : Type 0 where
  only_if_exists only_if_does_not_exist : ConditionalSet

pub data ExpiryType : Type 0 where
  sec millsec unix_sec unix_millsec keep_ttl : ExpiryType

pub data InfoSection : Type 0 where
  server clients memory persistence stats replication cpu command_stats latency_stats sentinel
        cluster modules keyspace error_stats all default everything :
      InfoSection

-- The `value` of each member.
unfoldable pub info_section_value : InfoSection → String
info_section_value server = "server"
info_section_value clients = "clients"
info_section_value memory = "memory"
info_section_value persistence = "persistence"
info_section_value stats = "stats"
info_section_value replication = "replication"
info_section_value cpu = "cpu"
info_section_value command_stats = "commandstats"
info_section_value latency_stats = "latencystats"
info_section_value sentinel = "sentinel"
info_section_value cluster = "cluster"
info_section_value modules = "modules"
info_section_value keyspace = "keyspace"
info_section_value error_stats = "errorstats"
info_section_value all = "all"
info_section_value default = "default"
info_section_value everything = "everything"

pub data ExpireOptions : Type 0 where
  has_no_expiry has_existing_expiry : ExpireOptions
  new_expiry_greater_than_current new_expiry_less_than_current : ExpireOptions

unfoldable pub expire_option_value : ExpireOptions → String
expire_option_value has_no_expiry = "NX"
expire_option_value has_existing_expiry = "XX"
expire_option_value new_expiry_greater_than_current = "GT"
expire_option_value new_expiry_less_than_current = "LT"

-- The library's times, each by the integers that the code makes of it: `int(t.total_seconds())`,
-- `int(t.total_seconds() * 1000)`, `int(t.timestamp())` and `int(t.timestamp() * 1000)`.
pub record Times : Type 1 where
  pub Timedelta : Type 0
  pub Datetime : Type 0
  pub int_total_seconds : Timedelta → ℤ
  pub int_total_seconds_1000 : Timedelta → ℤ
  pub int_timestamp : Datetime → ℤ
  pub int_timestamp_1000 : Datetime → ℤ

-- `Union[int, datetime, timedelta, None]`
pub data ExpiryValue (T : Times) : Type 0 where
  int : ℤ → ExpiryValue T
  datetime : T.Datetime → ExpiryValue T
  timedelta : T.Timedelta → ExpiryValue T
  no_value : ExpiryValue T

-- An `ExpirySet`, with the attributes that its methods read.
pub record ExpirySet : Type 0 where
  pub expiry_type : ExpiryType
  pub cmd_arg : String
  pub value : Option String

unfoldable pub expiry_arg : ExpiryType → String
expiry_arg sec = "EX"
expiry_arg millsec = "PX"
expiry_arg unix_sec = "EXAT"
expiry_arg unix_millsec = "PXAT"
expiry_arg keep_ttl = "KEEPTTL"

module _ (T : Times) where
  -- `isinstance(value, get_args(expiry_type.value[1]))`
  unfoldable pub is_admitted : ExpiryType → ExpiryValue T → Bool
  is_admitted keep_ttl no_value = true
  is_admitted keep_ttl v = false
  is_admitted t (int n) = true
  is_admitted sec (timedelta d) = true
  is_admitted millsec (timedelta d) = true
  is_admitted unix_sec (datetime d) = true
  is_admitted unix_millsec (datetime d) = true
  is_admitted _ _ = false

  -- Times become integers, and the other values stay.
  unfoldable pub convert : ExpiryType → ExpiryValue T → ExpiryValue T
  convert sec (timedelta d) = int (T.int_total_seconds d)
  convert millsec (timedelta d) = int (T.int_total_seconds_1000 d)
  convert unix_sec (datetime d) = int (T.int_timestamp d)
  convert unix_millsec (datetime d) = int (T.int_timestamp_1000 d)
  convert t v = v

  -- `str(value) if value else None`. Of the values that are admitted only integers and `None` are
  -- left after `convert`, so that the last two clauses are not reached.
  unfoldable pub str_or_none : ExpiryValue T → Option String
  str_or_none (int n) = if is_zero n then none else some (str n)
  str_or_none no_value = none
  str_or_none (datetime d) = none
  str_or_none (timedelta d) = none

  -- `ExpirySet.__init__`, which is `set_expiry_type_and_value`.
  unfoldable pub set_expiry_type_and_value : ExpiryType → ExpiryValue T → Outcome ExpirySet
  unfolding is_admitted convert expiry_arg str_or_none
  set_expiry_type_and_value t v =
      if is_admitted t v
      then returned
          (record { expiry_type = t; cmd_arg = expiry_arg t; value = str_or_none (convert t v) })
      else raised value_error

unfoldable pub get_cmd_args : ExpirySet → List String
get_cmd_args e = elim e.value [ none ↦ e.cmd_arg ∷ [] | some v ↦ e.cmd_arg ∷ v ∷ [] ]
