-- ===== src/Manager/Ends/Loops.antt =====
-- When a loop under a deadline of utils/cluster_manager.py ends, and with what.
use glide_for_redis.Common.{ℕ, zero, suc, ◌+◌, ◌≤◌, ◌<◌, ◌≡◌, Option, none, some, ltb, arith}
use glide_for_redis.Manager.System.{
  Action, pure, tell, ◌>>=◌, ◌>>◌, Os, Round, again, done, while_before, within, poll,
}
use glide_for_redis.Manager.Ends.{SteadyClock, Ends, pure-Ends, >>=-Ends, if-Ends_by}

module _ {W : Type 0} {os : Os W} (clock : SteadyClock os) where
  -- A round that goes on has taken time, and one that returns meets `P`.
  abbrev pub Took : {S A : Type 0} → (A → Type 0) → W → Round S A → W → Type 0
  Took P w (again s) w' = clock.now w < clock.now w'
  Took P w (done a) w' = P a

  -- What a loop returned, if it did.
  abbrev pub Found : {A : Type 0} → (A → Type 0) → Option A → Type 0
  Found P none = Unit {0}
  Found P (some a) = P a

  -- What a reading of the clock gives.
  time-Ends : (w : W) → Ends clock (λ t _. t ≡ clock.now w) (tell os.time) w
  unfolding tell
  time-Ends w = record { later = clock.time w; good = clock.time-now w }

  module _ {S A : Type 0} (P : A → Type 0) where
    next_round :
        (next : S → Action W (Option A)) (r : Round S A) (w1 w2 : W)
        → Took P w1 r w2
        → ((s : S) → clock.now w1 < clock.now w2 → Ends clock (λ o _. Found P o) (next s) w2)
        → Ends clock (λ o _. Found P o) (elim r [ done a ↦ pure (some a) | again s ↦ next s ]) w2
    next_round next (done a) w1 w2 took k = pure-Ends clock (some a) w2 took
    next_round next (again s) w1 w2 took k = k s took

    -- A loop under a deadline ends if its rounds do, when it may take a round for each microsecond
    -- that is left and one more.
    while_before-Ends :
        (rounds deadline : ℕ) (body : S → Action W (Round S A))
        → ((s : S) (w : W) → Ends clock (Took P w) (body s) w)
        → (s : S) (w : W) → deadline < clock.now w + rounds
        → 0 < rounds
        → Ends clock (λ o _. Found P o) (while_before os rounds deadline body s) w
    unfolding while_before
    while_before-Ends zero deadline body h s w e p = absurd (ground (arith, p))
    while_before-Ends (suc rounds) deadline body h s w e p =
        >>=-Ends clock (tell os.time) _ w (time-Ends w) (λ t w1 later t_now.
          if-Ends_by clock (ltb t deadline) _ _ w1
            (λ early. >>=-Ends clock (body s) _ w1 (h s w1) (λ r w2 later' took.
              next_round (while_before os rounds deadline body) r w1 w2 took (λ s' longer.
                while_before-Ends rounds deadline body h s' w2
                  (ground (arith, later, t_now, longer, e)) (ground (arith, early, t_now, e)))))
            (λ _. pure-Ends clock none w1 tt))

    pub within-Ends :
        (timeout : ℕ) (body : S → Action W (Round S A))
        → ((s : S) (w : W) → Ends clock (Took P w) (body s) w)
        → (s : S) (w : W) → Ends clock (λ o _. Found P o) (within os timeout body s) w
    unfolding within
    within-Ends timeout body h s w =
        >>=-Ends clock (tell os.time) _ w (time-Ends w) (λ t w1 later t_now.
          while_before-Ends (timeout + 1) (t + timeout) body h s w1 (ground (arith, later, t_now))
            (ground arith))

  pub poll-Ends :
      {A : Type 0} (P : A → Type 0) (timeout : ℕ) (body : Action W (Round (Unit {0}) A))
      → ((w : W) → Ends clock (Took P w) body w)
      → (w : W) → Ends clock (λ o _. Found P o) (poll os timeout body) w
  unfolding poll
  poll-Ends P timeout body h w = within-Ends P timeout (λ _. body) (λ _ w'. h w') tt w

  -- The end of a round that goes on: it sleeps.
  pub sleep-Ends :
      {S A : Type 0} {P : A → Type 0} (d : ℕ) (s : S) (w w' : W)
      → 0 < d
      → clock.now w ≤ clock.now w'
      → Ends clock (Took {S = S} {A = A} P w) (tell (os.sleep d) >> pure (again s)) w'
  unfolding ◌>>◌ ◌>>=◌ tell pure
  sleep-Ends d s w w' h t = record {
    later = omega (arith, clock.sleep d w');
    good = omega (arith, clock.sleep d w', h, t);
  }
