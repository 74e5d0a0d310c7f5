-- ===== src/Manager/Ends/Automatic.antt =====
-- The statements and the loops of utils/cluster_manager.py that end, for `search`.
use glide_for_redis.Common.{
  ℕ, ◌≤◌, ◌≡◌, Bool, true, false, Option, none, some, ltb, if◌then◌else◌, arith,
}
use glide_for_redis.Manager.System.{
  Fault, Reply, Result, return, raise, out_of_rounds, Action, pure, throw, ask, tell, ◌>>=◌, ◌>>◌,
  try_except, Os, Round, again, done, within, poll, when◌then◌else◌, on_option,
}
use glide_for_redis.Manager.Ends.{
  SteadyClock, Good, Ends, pure-Ends, throw-Ends, >>=-Ends, >>-Ends, try-Ends, weaken-Ends,
  tell-IsQuick, ask-IsQuick,
}
use glide_for_redis.Manager.Ends.Loops.{Took, poll-Ends, within-Ends, sleep-Ends}

module _ {W : Type 0} {os : Os W} (clock : SteadyClock os) where
  -- The same, for `search`: a statement that ends wherever it starts, and a round of a loop that ends
  -- and takes time if it goes on.
  pub record IsTotal {A : Type 0} (m : Action W A) : Type 0 where
    pub ends : (w : W) → Ends clock (λ _ _. Unit {0}) m w

  pub record IsRound {S A : Type 0} (m : Action W (Round S A)) : Type 0 where
    pub ends : (w : W) → Ends clock (Took clock (λ _. Unit {0}) w) m w

  module _ {A : Type 0} where
    pub pure-IsTotal : (a : A) → IsTotal (pure a)
    pure-IsTotal a = record { ends = λ w. pure-Ends clock a w tt }

    pub throw-IsTotal : (e : Fault) → IsTotal (throw {A = A} e)
    throw-IsTotal e = record { ends = throw-Ends clock e }

    pub tell-IsTotal :
        (op : W → A × W) → ((w : W) → clock.now w ≤ clock.now (op w).1) → IsTotal (tell op)
    tell-IsTotal op h = record { ends = tell-IsQuick clock op h }

    pub ask-IsTotal :
        (op : W → Reply A × W) → ((w : W) → clock.now w ≤ clock.now (op w).1) → IsTotal (ask op)
    ask-IsTotal op h = record { ends = ask-IsQuick clock op h }

    pub when-IsTotal :
        (b : Bool) (m n : Action W A) → IsTotal m → IsTotal n → IsTotal (when b then m else n)
    unfolding when◌then◌else◌
    when-IsTotal true m n h k = h
    when-IsTotal false m n h k = k

    pub try-IsTotal :
        (is_caught : Fault → Bool) (body : Action W A) (handler : Fault → Action W A)
        → IsTotal body
        → ((e : Fault) → IsTotal (handler e))
        → IsTotal (try_except is_caught body handler)
    try-IsTotal is_caught body handler h k = record {
      ends = λ w. try-Ends clock is_caught body handler w (h.ends w) (λ e w' _. (k e).ends w');
    }

    pub poll-IsTotal :
        (timeout : ℕ) (body : Action W (Round (Unit {0}) A))
        → IsRound body
        → IsTotal (poll os timeout body)
    poll-IsTotal timeout body h = record {
      ends = λ w.
          weaken-Ends clock _ w (poll-Ends clock (λ _. Unit {0}) timeout body h.ends w)
            (λ o w' _. tt);
    }

  module _ {A B : Type 0} where
    pub >>=-IsTotal :
        (m : Action W A) (f : A → Action W B)
        → IsTotal m
        → ((a : A) → IsTotal (f a))
        → IsTotal (m >>= f)
    >>=-IsTotal m f h k = record {
      ends = λ w. >>=-Ends clock m f w (h.ends w) (λ a w' _ _. (k a).ends w');
    }

    pub option-IsTotal :
        (o : Option A) (f : A → Action W B) (n : Action W B)
        → ((a : A) → IsTotal (f a))
        → IsTotal n
        → IsTotal (on_option o f n)
    unfolding on_option
    option-IsTotal (some a) f n h k = h a
    option-IsTotal none f n h k = k

    pub >>-IsTotal : (m : Action W A) (n : Action W B) → IsTotal m → IsTotal n → IsTotal (m >> n)
    >>-IsTotal m n h k = record { ends = λ w. >>-Ends clock m n w h.ends (λ w' _. k.ends w') }

  module _ {S A : Type 0} where
    -- Time that has passed before counts, too.
    longer :
        (m : Action W (Round S A)) (w w' : W)
        → clock.now w ≤ clock.now w'
        → Ends clock (Took clock (λ _. Unit {0}) w') m w'
        → Ends clock (Took clock (λ _. Unit {0}) w) m w'
    longer m w w' t e = record { later = e.later; good = widen (m w').0 (m w').1 e.good }
      where
        widen :
            (r : Result (Round S A)) (v : W)
            → Good clock (Took clock (λ _. Unit {0}) w') (r, v)
            → Good clock (Took clock (λ _. Unit {0}) w) (r, v)
        widen (return (again s)) v g = omega (arith, g, t)
        widen (return (done a)) v g = tt
        widen (raise e) v g = tt
        widen out_of_rounds v g = g

    pub done-IsRound : (a : A) → IsRound {S = S} (pure (done a))
    done-IsRound a = record { ends = λ w. pure-Ends clock (done a) w tt }

    pub sleep-IsRound :
        (d : ℕ) (s : S) → ltb 0 d ≡ true → IsRound {A = A} (tell (os.sleep d) >> pure (again s))
    sleep-IsRound d s h = record {
      ends = λ w. sleep-Ends clock d s w w (ground (arith, h)) (omega arith);
    }

    pub when-IsRound :
        (b : Bool) (m n : Action W (Round S A))
        → IsRound m
        → IsRound n
        → IsRound (when b then m else n)
    unfolding when◌then◌else◌
    when-IsRound true m n h k = h
    when-IsRound false m n h k = k

    pub try-IsRound :
        (is_caught : Fault → Bool) (body : Action W (Round S A))
        (handler : Fault → Action W (Round S A))
        → IsRound body
        → ((e : Fault) → IsRound (handler e))
        → IsRound (try_except is_caught body handler)
    try-IsRound is_caught body handler h k = record {
      ends = λ w.
          try-Ends clock is_caught body handler w (h.ends w)
            (λ e w' t. longer (handler e) w w' t ((k e).ends w'));
    }

    pub >>=-IsRound :
        {B : Type 0} (m : Action W B) (f : B → Action W (Round S A))
        → IsTotal m
        → ((b : B) → IsRound (f b))
        → IsRound (m >>= f)
    >>=-IsRound m f h k = record {
      ends = λ w. >>=-Ends clock m f w (h.ends w) (λ b w' t _. longer (f b) w w' t ((k b).ends w'));
    }

    pub >>-IsRound :
        {B : Type 0} (m : Action W B) (n : Action W (Round S A))
        → IsTotal m
        → IsRound n
        → IsRound (m >> n)
    >>-IsRound m n h k = record {
      ends = λ w. >>-Ends clock m n w h.ends (λ w' t. longer n w w' t (k.ends w'));
    }

    pub within-IsTotal :
        (timeout : ℕ) (body : S → Action W (Round S A)) (s : S)
        → ((s' : S) → IsRound (body s'))
        → IsTotal (within os timeout body s)
    within-IsTotal timeout body s h = record {
      ends = λ w.
          weaken-Ends clock _ w
            (within-Ends clock (λ _. Unit {0}) timeout body (λ s' w'. (h s').ends w') s w)
            (λ o w' _. tt);
    }
