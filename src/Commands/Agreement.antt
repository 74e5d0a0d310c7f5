-- ===== src/Commands/Agreement.antt =====
-- What a client sends for a call against what a transaction queues for it.
use glide_for_redis.Common.{Bool, Option, none, some, String, List}
use glide_for_redis.Common.Text.{ℤ}
use glide_for_redis.Protocol.{RequestType}
use glide_for_redis.Routes.{Route}
use glide_for_redis.Commands.Options.{ConditionalSet, ExpirySet, ExpireOptions, InfoSection}
use glide_for_redis.Commands.Core
use glide_for_redis.Commands.Standalone
use glide_for_redis.Commands.Cluster
use glide_for_redis.Commands.Transaction
use glide_for_redis.Commands.Batch.{BaseTransaction, append_command}

-- A call of a method that the standalone and the cluster client have, the latter with a route.
pub data ServerCall : Type 0 where
  custom_command : List String → ServerCall
  info : Option (List InfoSection) → ServerCall
  config_resetstat : ServerCall
  config_rewrite : ServerCall
  client_id : ServerCall
  ping : Option String → ServerCall
  config_get : List String → ServerCall
  config_set : List (String × String) → ServerCall
  client_getname : ServerCall

-- A call of a method that the standalone client and a transaction both have. The clients spell
-- the transaction's `lpop` and `rpop` with a count as methods of their own, `lpop_count` and
-- `rpop_count`; a count that is given to the client's own `rpop` is not read, and is no call here.
pub data Call (F : Type 0) : Type 0 where
  server : ServerCall → Call F
  select : ℤ → Call F
  set : String → String → Option ConditionalSet → Option ExpirySet → Bool → Call F
  get : String → Call F
  delete : List String → Call F
  incr : String → Call F
  incrby : String → ℤ → Call F
  incrbyfloat : String → F → Call F
  mset : List (String × String) → Call F
  mget : List String → Call F
  decr : String → Call F
  decrby : String → ℤ → Call F
  hset : String → List (String × String) → Call F
  hget : String → String → Call F
  hincrby : String → String → ℤ → Call F
  hincrbyfloat : String → String → F → Call F
  hexists : String → String → Call F
  hgetall : String → Call F
  hmget : String → List String → Call F
  hdel : String → List String → Call F
  sadd : String → List String → Call F
  srem : String → List String → Call F
  smembers : String → Call F
  scard : String → Call F
  lpush : String → List String → Call F
  lpop : String → Call F
  lpop_count : String → ℤ → Call F
  lrange : String → ℤ → ℤ → Call F
  rpush : String → List String → Call F
  rpop : String → Call F
  rpop_count : String → ℤ → Call F
  ltrim : String → ℤ → ℤ → Call F
  lrem : String → ℤ → String → Call F
  llen : String → Call F
  exists : List String → Call F
  unlink : List String → Call F
  expire : String → ℤ → Option ExpireOptions → Call F
  expireat : String → ℤ → Option ExpireOptions → Call F
  pexpire : String → ℤ → Option ExpireOptions → Call F
  pexpireat : String → ℤ → Option ExpireOptions → Call F
  ttl : String → Call F

module _ {R : Type 0} (execute_command : RequestType → List String → Option Route → R) where
  unfoldable pub issue_server : ServerCall → R
  unfolding Standalone.custom_command Standalone.info Standalone.config_resetstat
      Standalone.config_rewrite Standalone.client_id Standalone.ping Standalone.config_get
      Standalone.config_set Standalone.client_getname
  issue_server (custom_command args) = Standalone.custom_command execute_command args
  issue_server (info s) = Standalone.info execute_command s
  issue_server config_resetstat = Standalone.config_resetstat execute_command
  issue_server config_rewrite = Standalone.config_rewrite execute_command
  issue_server client_id = Standalone.client_id execute_command
  issue_server (ping m) = Standalone.ping execute_command m
  issue_server (config_get ps) = Standalone.config_get execute_command ps
  issue_server (config_set m) = Standalone.config_set execute_command m
  issue_server client_getname = Standalone.client_getname execute_command

  unfoldable pub issue_cluster : ServerCall → Option Route → R
  unfolding Cluster.custom_command Cluster.info Cluster.config_resetstat Cluster.config_rewrite
      Cluster.client_id Cluster.ping Cluster.config_get Cluster.config_set Cluster.client_getname
  issue_cluster (custom_command args) route = Cluster.custom_command execute_command args route
  issue_cluster (info s) route = Cluster.info execute_command s route
  issue_cluster config_resetstat route = Cluster.config_resetstat execute_command route
  issue_cluster config_rewrite route = Cluster.config_rewrite execute_command route
  issue_cluster client_id route = Cluster.client_id execute_command route
  issue_cluster (ping m) route = Cluster.ping execute_command m route
  issue_cluster (config_get ps) route = Cluster.config_get execute_command ps route
  issue_cluster (config_set m) route = Cluster.config_set execute_command m route
  issue_cluster client_getname route = Cluster.client_getname execute_command route

module _ {R F : Type 0} (str_float : F → String)
    (execute_command : RequestType → List String → Option Route → R) where
  unfoldable pub issue : Call F → R
  unfolding issue_server Standalone.select Core.decr Core.decrby Core.delete Core.exists Core.expire
      Core.expireat Core.get Core.hdel Core.hexists Core.hget Core.hgetall Core.hincrby
      Core.hincrbyfloat Core.hmget Core.hset Core.incr Core.incrby Core.incrbyfloat Core.llen
      Core.lpop Core.lpop_count Core.lpush Core.lrange Core.lrem Core.ltrim Core.mget Core.mset
      Core.pexpire Core.pexpireat Core.rpop Core.rpop_count Core.rpush Core.sadd Core.scard Core.set
      Core.smembers Core.srem Core.ttl Core.unlink
  issue (server c) = issue_server execute_command c
  issue (select i) = Standalone.select execute_command i
  issue (set k v c e o) = Core.set str_float execute_command k v c e o
  issue (get k) = Core.get str_float execute_command k
  issue (delete ks) = Core.delete str_float execute_command ks
  issue (incr k) = Core.incr str_float execute_command k
  issue (incrby k n) = Core.incrby str_float execute_command k n
  issue (incrbyfloat k x) = Core.incrbyfloat str_float execute_command k x
  issue (mset m) = Core.mset str_float execute_command m
  issue (mget ks) = Core.mget str_float execute_command ks
  issue (decr k) = Core.decr str_float execute_command k
  issue (decrby k n) = Core.decrby str_float execute_command k n
  issue (hset k m) = Core.hset str_float execute_command k m
  issue (hget k f) = Core.hget str_float execute_command k f
  issue (hincrby k f n) = Core.hincrby str_float execute_command k f n
  issue (hincrbyfloat k f x) = Core.hincrbyfloat str_float execute_command k f x
  issue (hexists k f) = Core.hexists str_float execute_command k f
  issue (hgetall k) = Core.hgetall str_float execute_command k
  issue (hmget k fs) = Core.hmget str_float execute_command k fs
  issue (hdel k fs) = Core.hdel str_float execute_command k fs
  issue (sadd k ms) = Core.sadd str_float execute_command k ms
  issue (srem k ms) = Core.srem str_float execute_command k ms
  issue (smembers k) = Core.smembers str_float execute_command k
  issue (scard k) = Core.scard str_float execute_command k
  issue (lpush k es) = Core.lpush execute_command k es
  issue (lpop k) = Core.lpop execute_command k
  issue (lpop_count k n) = Core.lpop_count execute_command k n
  issue (lrange k i j) = Core.lrange execute_command k i j
  issue (rpush k es) = Core.rpush execute_command k es
  issue (rpop k) = Core.rpop execute_command k none
  issue (rpop_count k n) = Core.rpop_count execute_command k n
  issue (ltrim k i j) = Core.ltrim execute_command k i j
  issue (lrem k n e) = Core.lrem execute_command k n e
  issue (llen k) = Core.llen execute_command k
  issue (exists ks) = Core.exists execute_command ks
  issue (unlink ks) = Core.unlink execute_command ks
  issue (expire k n o) = Core.expire execute_command k n o
  issue (expireat k n o) = Core.expireat execute_command k n o
  issue (pexpire k n o) = Core.pexpire execute_command k n o
  issue (pexpireat k n o) = Core.pexpireat execute_command k n o
  issue (ttl k) = Core.ttl execute_command k

-- What the transaction does on the same call.
unfoldable pub queue_server : BaseTransaction → ServerCall → BaseTransaction
unfolding append_command Transaction.custom_command Transaction.info Transaction.config_resetstat
    Transaction.config_rewrite Transaction.client_id Transaction.ping Transaction.config_get
    Transaction.config_set Transaction.client_getname
queue_server self (custom_command args) = Transaction.custom_command self args
queue_server self (info s) = Transaction.info self s
queue_server self config_resetstat = Transaction.config_resetstat self
queue_server self config_rewrite = Transaction.config_rewrite self
queue_server self client_id = Transaction.client_id self
queue_server self (ping m) = Transaction.ping self m
queue_server self (config_get ps) = Transaction.config_get self ps
queue_server self (config_set m) = Transaction.config_set self m
queue_server self client_getname = Transaction.client_getname self

module _ {F : Type 0} (str_float : F → String) where
  unfoldable pub queue : BaseTransaction → Call F → BaseTransaction
  unfolding queue_server Transaction.decr Transaction.decrby Transaction.delete Transaction.exists
      Transaction.expire Transaction.expireat Transaction.get Transaction.hdel Transaction.hexists
      Transaction.hget Transaction.hgetall Transaction.hincrby Transaction.hincrbyfloat
      Transaction.hmget Transaction.hset Transaction.incr Transaction.incrby Transaction.incrbyfloat
      Transaction.llen Transaction.lpop Transaction.lpush Transaction.lrange Transaction.lrem
      Transaction.ltrim Transaction.mget Transaction.mset Transaction.pexpire Transaction.pexpireat
      Transaction.rpop Transaction.rpush Transaction.sadd Transaction.scard Transaction.select
      Transaction.set Transaction.smembers Transaction.srem Transaction.ttl Transaction.unlink
  queue self (server c) = queue_server self c
  queue self (select i) = Transaction.select self i
  queue self (set k v c e o) = Transaction.set self k v c e o
  queue self (get k) = Transaction.get self k
  queue self (delete ks) = Transaction.delete self ks
  queue self (incr k) = Transaction.incr self k
  queue self (incrby k n) = Transaction.incrby self k n
  queue self (incrbyfloat k x) = Transaction.incrbyfloat str_float self k x
  queue self (mset m) = Transaction.mset self m
  queue self (mget ks) = Transaction.mget self ks
  queue self (decr k) = Transaction.decr self k
  queue self (decrby k n) = Transaction.decrby self k n
  queue self (hset k m) = Transaction.hset self k m
  queue self (hget k f) = Transaction.hget self k f
  queue self (hincrby k f n) = Transaction.hincrby self k f n
  queue self (hincrbyfloat k f x) = Transaction.hincrbyfloat str_float self k f x
  queue self (hexists k f) = Transaction.hexists self k f
  queue self (hgetall k) = Transaction.hgetall self k
  queue self (hmget k fs) = Transaction.hmget self k fs
  queue self (hdel k fs) = Transaction.hdel self k fs
  queue self (sadd k ms) = Transaction.sadd self k ms
  queue self (srem k ms) = Transaction.srem self k ms
  queue self (smembers k) = Transaction.smembers self k
  queue self (scard k) = Transaction.scard self k
  queue self (lpush k es) = Transaction.lpush self k es
  queue self (lpop k) = Transaction.lpop self k none
  queue self (lpop_count k n) = Transaction.lpop self k (some n)
  queue self (lrange k i j) = Transaction.lrange self k i j
  queue self (rpush k es) = Transaction.rpush self k es
  queue self (rpop k) = Transaction.rpop self k none
  queue self (rpop_count k n) = Transaction.rpop self k (some n)
  queue self (ltrim k i j) = Transaction.ltrim self k i j
  queue self (lrem k n e) = Transaction.lrem self k n e
  queue self (llen k) = Transaction.llen self k
  queue self (exists ks) = Transaction.exists self ks
  queue self (unlink ks) = Transaction.unlink self ks
  queue self (expire k n o) = Transaction.expire self k n o
  queue self (expireat k n o) = Transaction.expireat self k n o
  queue self (pexpire k n o) = Transaction.pexpire self k n o
  queue self (pexpireat k n o) = Transaction.pexpireat self k n o
  queue self (ttl k) = Transaction.ttl self k
