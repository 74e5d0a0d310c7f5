-- ===== src/Manager/Ports.antt =====
-- Which port `next_free_port` of utils/cluster_manager.py returns.
use glide_for_redis.Common.{ℕ, ◌+◌, ◌*◌, ◌≤◌, ◌≡◌, Option, none, some, arith}
use glide_for_redis.Manager.System.{Fault, Os, gives, tell, pure, throw, ◌>>◌, done, on_option}
use glide_for_redis.Manager.Ends.{
  SteadyClock, Ends, pure-Ends, throw-Ends, >>=-Ends, try-Ends, ask_gives-Ends, tell-IsQuick,
}
use glide_for_redis.Manager.Ends.Loops.{Found, poll-Ends, sleep-Ends}
use glide_for_redis.Manager.Waiting.{next_free_port}

-- A port of the range that a socket could be bound to.
abbrev pub IsFree : {W : Type 0} → Os W → ℕ → ℕ → ℕ → Type 0
IsFree {W = W} os min_port max_port port =
    (min_port ≤ port) × (port ≤ max_port) × ((w : W) × ((os.bind port w).0 ≡ gives tt))

module _ {W : Type 0} {os : Os W} (clock : SteadyClock os) (min_port max_port : ℕ)
    (randint : (w : W)
      → (min_port ≤ (os.randint min_port max_port w).0)
        × ((os.randint min_port max_port w).0 ≤ max_port)) where
  randint-Ends :
      (w : W)
      → Ends clock
          (λ port _. (min_port ≤ port) × (port ≤ max_port))
          (tell (os.randint min_port max_port))
          w
  unfolding tell
  randint-Ends w = record { later = clock.randint min_port max_port w; good = randint w }

  Found-Ends :
      (e : Fault) (o : Option ℕ) (w : W)
      → Found clock (IsFree os min_port max_port) o
      → Ends clock
          (λ port _. IsFree os min_port max_port port)
          (on_option o (λ port. pure port) (throw e))
          w
  unfolding on_option
  Found-Ends e none w h = throw-Ends clock e w
  Found-Ends e (some port) w h = pure-Ends clock port w h

  -- `next_free_port` ends: it raises, or it returns a port of the range, both ends included, that a
  -- socket could be bound to; when the clock is steady and `randint` keeps to the bounds it is given.
  pub next_free_port_lem :
      (timeout : ℕ) (w : W)
      → Ends clock
          (λ port _. IsFree os min_port max_port port)
          (next_free_port os min_port max_port timeout)
          w
  unfolding next_free_port ◌>>◌
  next_free_port_lem timeout w =
      >>=-Ends clock _ _ w
        (poll-Ends clock (IsFree os min_port max_port) timeout _
          (λ w1. >>=-Ends clock _ _ w1 (randint-Ends w1) (λ port w2 t (low, high).
            try-Ends clock _ _ _ w2
              (>>=-Ends clock _ _ w2 (ask_gives-Ends clock (os.bind port) w2 (clock.bind port w2))
                (λ _ w3 _ bound.
                  >>=-Ends clock _ _ w3 (tell-IsQuick clock _ clock.close_socket w3)
                    (λ _ w4 _ _. pure-Ends clock (done port) w4 (low, high, (w2, bound)))))
              (λ e w3 t'.
                >>=-Ends clock _ _ w3 (tell-IsQuick clock _ (clock.randint 0 9) w3) (λ d w4 t'' _.
                  sleep-Ends clock (d * 100 + 10000) tt w1 w4 (omega arith)
                    (omega (arith, t, t', t''))))))
          w)
        (λ o w' _ found. Found-Ends _ o w' found)
