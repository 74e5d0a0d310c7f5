-- ===== src/Manager/Counting.antt =====
-- How many servers `create_servers` of utils/cluster_manager.py returns.
use Prim.Native.String.{◌++◌ as ◌<>◌}
use glide_for_redis.Common.{
  length-append, ℕ, zero, suc, ◌+◌, ◌*◌, ◌≤◌, ◌≡◌, Option, some, String, List, [], ◌∷◌, ◌++◌,
  length, arith,
}
use glide_for_redis.Manager.System.{on_option, Os, seconds, tell}
use glide_for_redis.Manager.Ends.{
  SteadyClock, Ends, pure-Ends, throw-Ends, >>=-Ends, >>-Ends, when-Ends, weaken-Ends,
}
use glide_for_redis.Manager.Total.{wait_for_server-IsTotal, is_address_already_in_use-IsTotal}
use glide_for_redis.Manager.TotalActions.{remove_folder-IsTotal}
use glide_for_redis.Manager.TotalServers.{
  port_at-IsTotal, start_redis_server-IsTotal, tls_args_of-IsTotal,
}
use glide_for_redis.Manager.Waiting.{RedisServer}
use glide_for_redis.Manager.Servers.{Started, Setup, SetPop, start_all, check_all, create_servers}

-- `set.pop` takes one element out, and no time back.
pub record PopsOne {W : Type 0} {os : Os W} (clock : SteadyClock os) (set_pop : SetPop W)
    : Type 0 where
  pub length-rest :
      (x : Started) (xs : List Started) (w : W) → length (set_pop x xs w).0.1 ≡ length xs
  pub later : (x : Started) (xs : List Started) (w : W) → clock.now w ≤ clock.now (set_pop x xs w).1

module _ {W : Type 0} {os : Os W} (clock : SteadyClock os) where
  start_all-Ends :
      (s : Setup) (tls_args : List String) (ports : Option (List ℕ)) (left i : ℕ)
      (servers_to_check : List Started) (w : W)
      → Ends clock
          (λ l _. length l ≡ left + length servers_to_check)
          (start_all os s tls_args ports left i servers_to_check)
          w
  unfolding start_all
  start_all-Ends s tls_args ports zero i l w = pure-Ends clock l w (omega arith)
  start_all-Ends s tls_args ports (suc left) i l w =
      >>=-Ends clock _ _ w ((port_at-IsTotal clock ports i).ends w) (λ port w1 _ _.
        >>=-Ends clock _ _ w1 ((start_redis_server-IsTotal clock s tls_args port).ends w1)
          (λ server w2 _ _.
            weaken-Ends clock _ w2 (start_all-Ends s tls_args ports left (i + 1) (server ∷ l) w2)
              (λ all w3 h. omega (arith, h))))

  module _ {set_pop : SetPop W} (pops : PopsOne clock set_pop) where
    -- The popped element and the rest.
    pop-Ends :
        (x : Started) (xs : List Started) (w : W)
        → Ends clock (λ p _. length p.1 ≡ length xs) (tell (set_pop x xs)) w
    unfolding tell
    pop-Ends x xs w = record { later = pops.later x xs w; good = pops.length-rest x xs w }

    check_all-Ends :
        (s : Setup) (tls_args : List String) (ports : List ℕ) (rounds : ℕ) (todo : List Started)
        (ready_servers : List RedisServer) (w : W)
        → length todo ≤ rounds
        → Ends clock
            (λ l _. length l ≡ length todo + length ready_servers)
            (check_all os set_pop s tls_args (some ports) rounds todo ready_servers)
            w
    unfolding check_all on_option
    check_all-Ends s tls_args ports rounds [] ready w h = pure-Ends clock ready w (omega arith)
    check_all-Ends s tls_args ports zero (x ∷ xs) ready w h = absurd (omega (arith, h))
    check_all-Ends s tls_args ports (suc rounds) (x ∷ xs) ready w h =
        >>=-Ends clock _ _ w (pop-Ends x xs w) (λ ((server, folder), rest) w1 _ one.
          >>=-Ends clock _ _ w1
            ((is_address_already_in_use-IsTotal clock (folder <> "/redis.log") (seconds 5)).ends w1)
            (λ taken w2 _ _.
              when-Ends clock taken _ _ w2
                (>>-Ends clock _ _ w2 (remove_folder-IsTotal clock folder).ends
                  (λ w3 _. throw-Ends clock _ w3))
                (>>=-Ends clock _ _ w2
                  ((wait_for_server-IsTotal clock s.paths server s.tls (seconds 10)).ends w2)
                  (λ up w3 _ _.
                    when-Ends clock up _ _ w3
                      (weaken-Ends clock _ w3
                        (check_all-Ends s tls_args ports rounds rest (ready ++ server ∷ []) w3
                          (omega (arith, one, h)))
                        (λ l w4 e. omega (arith, e, one, length-append ready (server ∷ []))))
                      (throw-Ends clock _ w3)))))

    -- `create_servers`, with the ports given, ends: it raises, or returns as many servers as the cluster
    -- has nodes, when the clock is steady and the loop may take a round for each node.
    pub create_servers_lem :
        (s : Setup) (shard_count replica_count : ℕ) (ports : List ℕ) (rounds : ℕ) (w : W)
        → shard_count * (1 + replica_count) ≤ rounds
        → Ends clock
            (λ servers _. length servers ≡ shard_count * (1 + replica_count))
            (create_servers os set_pop s shard_count replica_count (some ports) rounds)
            w
    unfolding create_servers
    create_servers_lem s shard_count replica_count ports rounds w h =
        >>=-Ends clock _ _ w ((tls_args_of-IsTotal clock s replica_count).ends w)
          (λ tls_args w1 _ _.
            >>=-Ends clock _ _ w1 (start_all-Ends s tls_args (some ports) _ 0 [] w1)
              (λ l w2 _ started.
                weaken-Ends clock _ w2
                  (check_all-Ends s tls_args ports rounds l [] w2 (omega (arith, started, h)))
                  (λ servers w3 e. omega (arith, e, started))))
