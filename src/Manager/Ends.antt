-- ===== src/Manager/Ends.antt =====
-- When a statement of utils/cluster_manager.py ends, and with what.
pub mod Loops
pub mod Automatic
use glide_for_redis.Common.{
  ℕ, zero, suc, ◌+◌, ◌≤◌, ◌<◌, ◌≡◌, ◌≢◌, refl, sym, ap, subst, ◌∙◌, Bool, true, false, Option, none,
  some, String, List, ltb, if◌then◌else◌, Bool-cases, ◌⊎◌, inl, inr, arith,
}
use glide_for_redis.Manager.System.{
  Fault, Reply, gives, fails, Result, return, raise, out_of_rounds, Action, pure, throw, stuck, ask,
  tell, result_of, go_on, ◌>>=◌, ◌>>◌, handle, try_except, Os, Round, again, done, while_before,
  within, poll, when◌then◌else◌, on_option,
}

-- The clock never goes back, whatever is called, and `sleep` takes the time that it is given.
pub record SteadyClock {W : Type 0} (os : Os W) : Type 0 where
  pub now : W → ℕ
  pub time-now : (w : W) → (os.time w).0 ≡ now w
  pub time : (w : W) → now w ≤ now (os.time w).1
  pub sleep : (d : ℕ) (w : W) → now w + d ≤ now (os.sleep d w).1
  pub randint : (a b : ℕ) (w : W) → now w ≤ now (os.randint a b w).1
  pub choice : (l : List String) (w : W) → now w ≤ now (os.choice l w).1
  pub time_str : (w : W) → now w ≤ now (os.time_str w).1
  pub path_exists : (p : String) (w : W) → now w ≤ now (os.path_exists p w).1
  pub is_dir : (p : String) (w : W) → now w ≤ now (os.is_dir p w).1
  pub abspath : (p : String) (w : W) → now w ≤ now (os.abspath p w).1
  pub days_since_modified : (p : String) (w : W) → now w ≤ now (os.days_since_modified p w).1
  pub mkdir : (p : String) (w : W) → now w ≤ now (os.mkdir p w).1
  pub mkdir_exist_ok : (p : String) (w : W) → now w ≤ now (os.mkdir_exist_ok p w).1
  pub read_text : (p : String) (w : W) → now w ≤ now (os.read_text p w).1
  pub write_text : (p t : String) (w : W) → now w ≤ now (os.write_text p t w).1
  pub open_log : (p : String) (w : W) → now w ≤ now (os.open_log p w).1
  pub rglob : (p : String) (w : W) → now w ≤ now (os.rglob p w).1
  pub scandir : (p : String) (w : W) → now w ≤ now (os.scandir p w).1
  pub listdir : (p : String) (w : W) → now w ≤ now (os.listdir p w).1
  pub popen : (args : List String) (i : Option ℕ) (w : W) → now w ≤ now (os.popen args i w).1
  pub communicate : (p t : ℕ) (w : W) → now w ≤ now (os.communicate p t w).1
  pub returncode : (p : ℕ) (w : W) → now w ≤ now (os.returncode p w).1
  pub bind : (port : ℕ) (w : W) → now w ≤ now (os.bind port w).1
  pub close_socket : (w : W) → now w ≤ now (os.close_socket w).1
  pub print : (t : String) (w : W) → now w ≤ now (os.print t w).1

module _ {W : Type 0} {os : Os W} (clock : SteadyClock os) where
  -- A return that meets `Q`, or an exception; a loop whose rounds ran out is no end.
  abbrev pub Good : {A : Type 0} → (A → W → Type 0) → Result A × W → Type 0
  Good Q (return a, w) = Q a w
  Good Q (raise e, w) = Unit {0}
  Good Q (out_of_rounds, w) = ⊥

  pub record Ends {A : Type 0} (Q : A → W → Type 0) (m : Action W A) (w : W) : Type 0 where
    pub later : clock.now w ≤ clock.now (m w).1
    pub good : Good Q (m w)

  -- Ends, whatever it returns.
  abbrev pub IsQuick : {A : Type 0} → Action W A → Type 0
  IsQuick m = (w : W) → Ends (λ _ _. Unit {0}) m w

  pub pure-Ends : {A : Type 0} {Q : A → W → Type 0} (a : A) (w : W) → Q a w → Ends Q (pure a) w
  unfolding pure
  pure-Ends a w q = record { later = omega arith; good = q }

  pub throw-Ends :
      {A : Type 0} {Q : A → W → Type 0} (e : Fault) (w : W) → Ends Q (throw {A = A} e) w
  unfolding throw
  throw-Ends e w = record { later = omega arith; good = tt }

  pub tell-IsQuick :
      {A : Type 0} (op : W → A × W)
      → ((w : W) → clock.now w ≤ clock.now (op w).1)
      → IsQuick (tell op)
  unfolding tell
  tell-IsQuick op h w = record { later = h w; good = tt }

  pub ask-IsQuick :
      {A : Type 0} (op : W → Reply A × W)
      → ((w : W) → clock.now w ≤ clock.now (op w).1)
      → IsQuick (ask op)
  unfolding ask
  ask-IsQuick op h w = record { later = h w; good = answered (op w).0 (op w).1 }
    where
      answered :
          {A : Type 0} (r : Reply A) (after : W) → Good (λ _ _. Unit {0}) (result_of r, after)
      answered (gives a) after = tt
      answered (fails e) after = tt

  go_on-Ends :
      {A B : Type 0} (P : A → W → Type 0) (Q : B → W → Type 0) (r : Result A) (f : A → Action W B)
      (w w' : W)
      → clock.now w ≤ clock.now w'
      → Good P (r, w')
      → ((a : A) → P a w' → Ends Q (f a) w')
      → (clock.now w ≤ clock.now (go_on r f w').1) × Good Q (go_on r f w')
  unfolding throw
  go_on-Ends P Q (return a) f w w' t p k = let e = k a p in (omega (arith, t, e.later), e.good)
  go_on-Ends P Q (raise e) f w w' t p k = (t, tt)
  go_on-Ends P Q out_of_rounds f w w' t p k = absurd p

  pub >>=-Ends :
      {A B : Type 0} {P : A → W → Type 0} {Q : B → W → Type 0} (m : Action W A) (f : A → Action W B)
      (w : W)
      → Ends P m w
      → ((a : A) (w' : W) → clock.now w ≤ clock.now w' → P a w' → Ends Q (f a) w')
      → Ends Q (m >>= f) w
  unfolding ◌>>=◌
  >>=-Ends {P = P} {Q = Q} m f w e k =
      let (later, good) =
        go_on-Ends P Q (m w).0 f w (m w).1 e.later e.good (λ a p. k a (m w).1 e.later p) in
      record { later = later; good = good }

  pub >>-Ends :
      {A B : Type 0} {Q : B → W → Type 0} (m : Action W A) (n : Action W B) (w : W)
      → IsQuick m
      → ((w' : W) → clock.now w ≤ clock.now w' → Ends Q n w')
      → Ends Q (m >> n) w
  unfolding ◌>>◌
  >>-Ends m n w e k = >>=-Ends m (λ _. n) w (e w) (λ a w' t _. k w' t)

  pub if-Ends :
      {A : Type 0} {Q : A → W → Type 0} (b : Bool) (m n : Action W A) (w : W)
      → Ends Q m w
      → Ends Q n w
      → Ends Q (if b then m else n) w
  if-Ends true m n w h k = h
  if-Ends false m n w h k = k

  pub if-Ends_by :
      {A : Type 0} {Q : A → W → Type 0} (b : Bool) (m n : Action W A) (w : W)
      → (b ≡ true → Ends Q m w)
      → (b ≡ false → Ends Q n w)
      → Ends Q (if b then m else n) w
  if-Ends_by true m n w h k = h refl
  if-Ends_by false m n w h k = k refl

  pub when-Ends :
      {A : Type 0} {Q : A → W → Type 0} (b : Bool) (m n : Action W A) (w : W)
      → Ends Q m w
      → Ends Q n w
      → Ends Q (when b then m else n) w
  unfolding when◌then◌else◌
  when-Ends true m n w h k = h
  when-Ends false m n w h k = k

  pub Ends-NotStuck :
      {A : Type 0} {Q : A → W → Type 0} {m : Action W A} {w : W}
      → Ends Q m w
      → (m w).0 ≢ out_of_rounds
  Ends-NotStuck {Q = Q} {m = m} {w = w} e h = subst (λ r. Good Q (r, (m w).1)) h e.good

  pub weaken-Ends :
      {A : Type 0} {P Q : A → W → Type 0} (m : Action W A) (w : W)
      → Ends P m w
      → ((a : A) (w' : W) → P a w' → Q a w')
      → Ends Q m w
  weaken-Ends {P = P} {Q = Q} m w e k = record {
    later = e.later;
    good = widen (m w).0 (m w).1 e.good;
  }
    where
      widen : (r : Result _) (v : W) → Good P (r, v) → Good Q (r, v)
      widen (return a) v g = k a v g
      widen (raise f) v g = tt
      widen out_of_rounds v g = g

  handle-Ends :
      {A : Type 0} (Q : A → W → Type 0) (is_caught : Fault → Bool) (r : Result A)
      (handler : Fault → Action W A) (w w' : W)
      → clock.now w ≤ clock.now w'
      → Good Q (r, w')
      → ((e : Fault) → Ends Q (handler e) w')
      → (clock.now w ≤ clock.now (handle is_caught r handler w').1)
        × Good Q (handle is_caught r handler w')
  unfolding throw pure
  handle-Ends Q is_caught (return a) handler w w' t q k = (t, q)
  handle-Ends Q is_caught out_of_rounds handler w w' t q k = absurd q
  handle-Ends Q is_caught (raise e) handler w w' t q k = elim (Bool-cases (is_caught e)) [
    | inl h ↦ rw h (let x = k e in (omega (arith, t, x.later), x.good))
    | inr h ↦ rw h (t, tt)
  ]

  pub try-Ends :
      {A : Type 0} {Q : A → W → Type 0} (is_caught : Fault → Bool) (body : Action W A)
      (handler : Fault → Action W A) (w : W)
      → Ends Q body w
      → ((e : Fault) (w' : W) → clock.now w ≤ clock.now w' → Ends Q (handler e) w')
      → Ends Q (try_except is_caught body handler) w
  unfolding try_except
  try-Ends {Q = Q} is_caught body handler w h k =
      let (later, good) =
        handle-Ends Q is_caught (body w).0 handler w (body w).1 h.later h.good
          (λ e. k e (body w).1 h.later) in
      record { later = later; good = good }

  -- What a call that fails or gives something gave.
  pub ask_gives-Ends :
      {A : Type 0} (op : W → Reply A × W) (w : W)
      → clock.now w ≤ clock.now (op w).1
      → Ends (λ a _. (op w).0 ≡ gives a) (ask op) w
  unfolding ask
  ask_gives-Ends op w h = record { later = h; good = answered (op w).0 refl }
    where
      answered :
          (r : Reply _) → (op w).0 ≡ r → Good (λ a _. (op w).0 ≡ gives a) (result_of r, (op w).1)
      answered (gives a) e = e
      answered (fails f) e = tt
