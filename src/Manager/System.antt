-- ===== src/Manager/System.antt =====
-- What utils/cluster_manager.py asks of the system, and statements that ask and may raise. Times
-- are in microseconds.
use glide_for_redis.Common.{
  ℕ, zero, suc, ◌+◌, ◌*◌, Bool, true, false, Option, none, some, String, List, ltb, if◌then◌else◌,
}
use glide_for_redis.Common.Text.{ℤ}

-- `exception` is `raise Exception(...)`, and `usage` the exit of `parser.error`.
pub data Fault : Type 0 where
  os_error file_exists timeout_expired value_error : Fault
  not_a_directory : String → Fault
  exception : String → Fault
  usage : String → Fault

-- What a library call gives.
pub data Reply (A : Type 0) : Type 0 where
  gives : A → Reply A
  fails : Fault → Reply A

-- `out_of_rounds` is no state of the program: the bound on the rounds of a loop ran out.
pub data Result (A : Type 0) : Type 0 where
  return : A → Result A
  raise : Fault → Result A
  out_of_rounds : Result A

abbrev pub Action : Type 0 → Type 0 → Type 0
Action W A = W → Result A × W

abbrev pub result_of : {A : Type 0} → Reply A → Result A
result_of (gives a) = return a
result_of (fails e) = raise e

module _ {W A : Type 0} where
  unfoldable pub pure : A → Action W A
  pure a w = (return a, w)

  unfoldable pub throw : Fault → Action W A
  throw e w = (raise e, w)

  unfoldable pub stuck : Action W A
  stuck w = (out_of_rounds, w)

  unfoldable pub ask : (W → Reply A × W) → Action W A
  ask op w = let (reply, after) = op w in (result_of reply, after)

  -- A call that cannot fail.
  unfoldable pub tell : (W → A × W) → Action W A
  tell op w = let (a, after) = op w in (return a, after)

module _ {W A B : Type 0} where
  abbrev pub go_on : Result A → (A → Action W B) → Action W B
  go_on (return a) f = f a
  go_on (raise e) f = throw e
  go_on out_of_rounds f = stuck

  infixl 5 ◌>>=◌ ◌>>◌
  unfoldable pub ◌>>=◌ : Action W A → (A → Action W B) → Action W B
  (m >>= f) w = let (result, after) = m w in go_on result f after

  unfoldable pub ◌>>◌ : Action W A → Action W B → Action W B
  unfolding ◌>>=◌
  m >> n = m >>= λ _. n

-- Statements under a test, and by whether there is a value. They stay shut in proofs, where the
-- lemmas of `Manager.Ends` are about them.
module _ {W A : Type 0} where
  infix 1 when◌then◌else◌
  unfoldable pub when◌then◌else◌ : Bool → Action W A → Action W A → Action W A
  when true then m else n = m
  when false then m else n = n

  unfoldable pub on_option : {B : Type 0} → Option B → (B → Action W A) → Action W A → Action W A
  on_option (some b) f n = f b
  on_option none f n = n

-- `except`, with the faults that the handler is for.
module _ {W A : Type 0} where
  abbrev pub handle : (Fault → Bool) → Result A → (Fault → Action W A) → Action W A
  handle is_caught (raise e) handler = if is_caught e then handler e else throw e
  handle is_caught (return a) handler = pure a
  handle is_caught out_of_rounds handler = stuck

  unfoldable pub try_except : (Fault → Bool) → Action W A → (Fault → Action W A) → Action W A
  try_except is_caught body handler w =
      let (result, after) = body w in handle is_caught result handler after

abbrev pub is_timeout : Fault → Bool
is_timeout timeout_expired = true
is_timeout _ = false

abbrev pub is_os_error : Fault → Bool
is_os_error os_error = true
is_os_error file_exists = true
is_os_error _ = false

-- The calls of the standard library, over the state of the system.
-- A process is a number that `popen` gives; `communicate` takes it with a timeout and gives what it
-- wrote to its two outputs. `days_since_modified` is the difference of the two times that
-- `check_if_tls_cert_is_valid` reads, in days. `pop` takes an element out of a list that stands for
-- a set. Of `rglob` the paths are listed before the loop over them starts.
pub record Os (W : Type 0) : Type 1 where
  pub time : W → ℕ × W
  pub sleep : ℕ → W → Unit {0} × W
  pub randint : ℕ → ℕ → W → ℕ × W
  pub choice : List String → W → String × W
  pub time_str : W → String × W
  pub path_exists : String → W → Bool × W
  pub is_dir : String → W → Bool × W
  pub abspath : String → W → String × W
  pub days_since_modified : String → W → Reply ℤ × W
  pub mkdir : String → W → Reply (Unit {0}) × W
  pub mkdir_exist_ok : String → W → Reply (Unit {0}) × W
  pub read_text : String → W → Reply String × W
  pub write_text : String → String → W → Reply (Unit {0}) × W
  pub open_log : String → W → Reply (Unit {0}) × W
  pub rglob : String → W → Reply (List String) × W
  pub scandir : String → W → Reply (List (String × Bool)) × W
  pub listdir : String → W → Reply (List String) × W
  pub popen : List String → Option ℕ → W → Reply ℕ × W
  pub communicate : ℕ → ℕ → W → Reply (String × String) × W
  pub returncode : ℕ → W → ℤ × W
  pub bind : ℕ → W → Reply (Unit {0}) × W
  pub close_socket : W → Unit {0} × W
  pub print : String → W → Unit {0} × W

abbrev pub seconds : ℕ → ℕ
seconds n = n * 1000000

-- What a round of a loop comes to: `return` in it, or the next round.
pub data Round (S A : Type 0) : Type 0 where
  again : S → Round S A
  done : A → Round S A

module _ {W S A : Type 0} (os : Os W) where
  -- `while time.time() < deadline`, over the variables that the body changes. Every round that goes
  -- on takes a microsecond at least.
  unfoldable pub while_before : ℕ → ℕ → (S → Action W (Round S A)) → S → Action W (Option A)
  unfolding ◌>>=◌ tell pure stuck
  while_before zero deadline body s = stuck
  while_before (suc rounds) deadline body s = do
    now ← tell os.time
    if ltb now deadline
        then (body s >>= λ r. elim r [
          | done a ↦ pure (some a)
          | again s' ↦ while_before rounds deadline body s'
        ])
        else pure none

  -- `timeout_start = time.time()`, and the loop up to `timeout_start + timeout`.
  unfoldable pub within : ℕ → (S → Action W (Round S A)) → S → Action W (Option A)
  unfolding while_before ◌>>=◌ tell
  within timeout body s = do
    timeout_start ← tell os.time
    while_before (timeout + 1) (timeout_start + timeout) body s

module _ {W A : Type 0} (os : Os W) where
  -- Such a loop without variables.
  unfoldable pub poll : ℕ → Action W (Round (Unit {0}) A) → Action W (Option A)
  unfolding within
  poll timeout body = within os timeout (λ _. body) tt
