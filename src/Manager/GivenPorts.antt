-- ===== src/Manager/GivenPorts.antt =====
-- The ports of the servers that `create_servers` of utils/cluster_manager.py returns.
use Prim.Native.String.{◌++◌ as ◌<>◌}
use glide_for_redis.Common.{
  ℕ, zero, suc, ◌+◌, ◌*◌, ◌≤◌, ◌≡◌, refl, ap, false, some, String, List, [], ◌∷◌, ◌++◌, All, length,
  drop, get_elem?, ◌==◌, if◌then◌else◌, arith,
}
use glide_for_redis.Client.Slots.{occurrences}
use glide_for_redis.Manager.System.{Os, on_option, seconds, tell, when◌then◌else◌}
use glide_for_redis.Manager.Ends.{
  SteadyClock, Ends, pure-Ends, throw-Ends, >>=-Ends, >>-Ends, when-Ends, weaken-Ends, tell-IsQuick,
  ask-IsQuick,
}
use glide_for_redis.Manager.Total.{
  run-IsTotal, wait_for_server-IsTotal, is_address_already_in_use-IsTotal,
}
use glide_for_redis.Manager.TotalActions.{remove_folder-IsTotal}
use glide_for_redis.Manager.TotalServers.{tls_args_of-IsTotal}
use glide_for_redis.Manager.Counting.{PopsOne}
use glide_for_redis.Manager.Waiting.{RedisServer}
use glide_for_redis.Manager.Servers.{
  Started, Setup, SetPop, port_or_free, port_at, start_redis_server, start_all, check_all,
  create_servers,
}

-- The ports of servers, and of servers with their folders.
abbrev pub ports_of : List RedisServer → List ℕ
ports_of [] = []
ports_of (server ∷ servers) = server.port ∷ ports_of servers

abbrev pub started_ports : List Started → List ℕ
started_ports [] = []
started_ports (started ∷ l) = started.0.port ∷ started_ports l

-- `set.pop` takes one element out, leaves the others, and takes no time back.
pub record PopsThere {W : Type 0} {os : Os W} (clock : SteadyClock os) (set_pop : SetPop W)
    : Type 0 where
  pub one : PopsOne clock set_pop
  pub there :
      (k : ℕ) (x : Started) (xs : List Started) (w : W)
      → occurrences k (started_ports ((set_pop x xs w).0.0 ∷ (set_pop x xs w).0.1))
        ≡ occurrences k (started_ports (x ∷ xs))

ports-append :
    (k : ℕ) (l : List RedisServer) (server : RedisServer)
    → occurrences k (ports_of (l ++ server ∷ []))
      ≡ occurrences k (ports_of l) + (if server.port == k then 1 else 0)
ports-append k [] server = omega arith
ports-append k (x ∷ l) server = omega (arith, ports-append k l server)

drop_next :
    (i : ℕ) (xs : List ℕ) (x : ℕ) (back : List ℕ) → drop i xs ≡ x ∷ back → drop (i + 1) xs ≡ back
drop_next zero [] x back e = cc
drop_next zero (y ∷ xs) x back e = ground (arith, e)
drop_next (suc i) [] x back e = cc
drop_next (suc i) (y ∷ xs) x back e = ground (arith, drop_next i xs x back e)

drop_here :
    (i : ℕ) (xs : List ℕ) (x : ℕ) (back : List ℕ) → drop i xs ≡ x ∷ back → get_elem? xs i ≡ some x
drop_here zero [] x back e = cc
drop_here zero (y ∷ xs) x back e = cc
drop_here (suc i) [] x back e = cc
drop_here (suc i) (y ∷ xs) x back e = drop_here i xs x back e

module _ {W : Type 0} {os : Os W} (clock : SteadyClock os) where
  port_or_free-Ends :
      (port : ℕ) (w : W)
      → (port == 0) ≡ false
      → Ends clock (λ p _. p ≡ port) (port_or_free os (some port)) w
  unfolding port_or_free when◌then◌else◌
  port_or_free-Ends port w nonzero = rw nonzero (pure-Ends clock port w refl)

  start_redis_server-Ends :
      (s : Setup) (tls_args : List String) (port : ℕ) (w : W)
      → (port == 0) ≡ false
      → Ends clock
          (λ started _. started.0.port ≡ port)
          (start_redis_server os s tls_args (some port))
          w
  unfolding start_redis_server
  start_redis_server-Ends s tls_args port w nonzero =
      >>=-Ends clock _ _ w (port_or_free-Ends port w nonzero) (λ chosen w1 _ same.
        >>-Ends clock _ _ w1 (ask-IsQuick clock _ (clock.mkdir_exist_ok _)) (λ w2 _.
          >>=-Ends clock _ _ w2 ((run-IsTotal clock _ _).ends w2) (λ (p, outputs) w3 _ _.
            >>=-Ends clock _ _ w3 (tell-IsQuick clock _ (clock.returncode p) w3) (λ code w4 _ _.
              when-Ends clock _ _ _ w4 (pure-Ends clock _ w4 same) (throw-Ends clock _ w4)))))

  port_at-Ends :
      (ports : List ℕ) (i p : ℕ) (w : W)
      → get_elem? ports i ≡ some p
      → Ends clock (λ port _. port ≡ some p) (port_at os (some ports) i) w
  unfolding port_at on_option
  port_at-Ends [] i p w e = cc
  port_at-Ends (x ∷ xs) i p w e = rw e (pure-Ends clock (some p) w refl)

  start_all-ports :
      (s : Setup) (tls_args : List String) (ports rest : List ℕ) (left i : ℕ) (l : List Started)
      (w : W)
      → drop i ports ≡ rest
      → left ≡ length rest
      → All (λ port. (port == 0) ≡ false) rest
      → Ends clock
          (λ started _.
            (length started ≡ left + length l)
            × ((k : ℕ)
                → occurrences k (started_ports started)
                  ≡ occurrences k rest + occurrences k (started_ports l)))
          (start_all os s tls_args (some ports) left i l)
          w
  unfolding start_all
  start_all-ports s tls_args ports [] zero i l w at n nonzero =
      pure-Ends clock l w (omega arith, λ k. omega arith)
  start_all-ports s tls_args ports (p ∷ rest) zero i l w at n nonzero = absurd (omega (arith, n))
  start_all-ports s tls_args ports [] (suc left) i l w at n nonzero = absurd (omega (arith, n))
  start_all-ports s tls_args ports (p ∷ rest) (suc left) i l w at n nonzero =
      >>=-Ends clock _ _ w (port_at-Ends ports i p w (drop_here i ports p rest at))
        (λ port w1 _ same.
          >>=-Ends clock {P = λ started _. started.0.port ≡ p} _ _ w1
            (rw same (start_redis_server-Ends s tls_args p w1 nonzero.0))
            (λ server w2 _ its.
              weaken-Ends clock _ w2
                (start_all-ports s tls_args ports rest left (i + 1) (server ∷ l) w2
                  (drop_next i ports p rest at) (omega (arith, n)) nonzero.1)
                (λ a w3 (size, counted). (
                  omega (arith, size),
                  λ k.
                      omega (arith, counted k, ap {B = ℕ} (λ (q : ℕ). if q == k then 1 else 0) its),
                ))))

  module _ {set_pop : SetPop W} (pops : PopsThere clock set_pop) where
    -- What is taken from the set, and the ports that are left with it.
    abbrev Popped : Started → List Started → Started × List Started → W → Type 0
    Popped x xs p w =
        (length p.1 ≡ length xs)
        × ((k : ℕ)
            → occurrences k (started_ports (p.0 ∷ p.1)) ≡ occurrences k (started_ports (x ∷ xs)))

    pop-there :
        (x : Started) (xs : List Started) (w : W) → Ends clock (Popped x xs) (tell (set_pop x xs)) w
    unfolding tell
    pop-there x xs w = record {
      later = pops.one.later x xs w;
      good = (pops.one.length-rest x xs w, λ k. pops.there k x xs w);
    }

    check_all-ports :
        (s : Setup) (tls_args : List String) (ports : List ℕ) (rounds : ℕ) (todo : List Started)
        (ready_servers : List RedisServer) (w : W)
        → length todo ≤ rounds
        → Ends clock
            (λ servers _.
              (k : ℕ)
              → occurrences k (ports_of servers)
                ≡ occurrences k (started_ports todo) + occurrences k (ports_of ready_servers))
            (check_all os set_pop s tls_args (some ports) rounds todo ready_servers)
            w
    unfolding check_all on_option
    check_all-ports s tls_args ports rounds [] ready w h =
        pure-Ends clock ready w (λ k. omega arith)
    check_all-ports s tls_args ports zero (x ∷ xs) ready w h = absurd (omega (arith, h))
    check_all-ports s tls_args ports (suc rounds) (x ∷ xs) ready w h =
        >>=-Ends clock _ _ w (pop-there x xs w) (λ ((server, folder), rest) w1 _ (one, kept).
          >>=-Ends clock _ _ w1
            ((is_address_already_in_use-IsTotal clock (folder <> "/redis.log") (seconds 5)).ends w1)
            (λ taken w2 _ _.
              when-Ends clock taken _ _ w2
                (>>-Ends clock _ _ w2 (remove_folder-IsTotal clock folder).ends
                  (λ w3 _. throw-Ends clock _ w3))
                (>>=-Ends clock _ _ w2
                  ((wait_for_server-IsTotal clock s.paths server s.tls (seconds 10)).ends w2)
                  (λ up w3 _ _.
                    when-Ends clock up _ _ w3
                      (weaken-Ends clock _ w3
                        (check_all-ports s tls_args ports rounds rest (ready ++ server ∷ []) w3
                          (omega (arith, one, h)))
                        (λ l w4 e k. omega (arith, e k, kept k, ports-append k ready server)))
                      (throw-Ends clock _ w3)))))

    -- Under a steady clock `create_servers` with the ports given, one for each node and none of them 0,
    -- ends whatever the servers and the system do, with TLS or without: it raises, or the servers that
    -- it returns have exactly these ports, each as often as it was given.
    pub create_servers_ports :
        (s : Setup) (shard_count replica_count : ℕ) (ports : List ℕ) (rounds : ℕ) (w : W)
        → shard_count * (1 + replica_count) ≡ length ports
        → All (λ port. (port == 0) ≡ false) ports
        → length ports ≤ rounds
        → Ends clock
            (λ servers _. (k : ℕ) → occurrences k (ports_of servers) ≡ occurrences k ports)
            (create_servers os set_pop s shard_count replica_count (some ports) rounds)
            w
    unfolding create_servers
    create_servers_ports s shard_count replica_count ports rounds w size nonzero enough =
        >>=-Ends clock _ _ w ((tls_args_of-IsTotal clock s replica_count).ends w)
          (λ tls_args w1 _ _.
            >>=-Ends clock _ _ w1
              (start_all-ports s tls_args ports ports _ 0 [] w1 refl size nonzero)
              (λ l w2 _ (started, counted).
                weaken-Ends clock _ w2
                  (check_all-ports s tls_args ports rounds l [] w2
                    (omega (arith, started, size, enough)))
                  (λ servers w3 e k. omega (arith, e k, counted k))))
