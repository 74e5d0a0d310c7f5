-- ===== src/Exceptions.antt =====
-- python/python/glide/exceptions.py, and the other exceptions that the wrapper raises or lets pass.
use glide_for_redis.Common.{
  Option, none, some, String, ◌≡◌, ◌≢◌, ◌∙◌, ap, arith, refl, if◌then◌else◌,
}
use glide_for_redis.Protocol.{RequestErrorType, unspecified, exec_abort, timeout, disconnect}
use text.Mathlib.Text.{◌==◌}

pub data ErrorClass : Type 0 where
  redis_error closing_error request_error timeout_error exec_abort_error connection_error :
      ErrorClass

-- The base class of each class, `none` for `RedisError`.
pub base_class : ErrorClass → Option ErrorClass
base_class redis_error = none
base_class closing_error = some redis_error
base_class request_error = some redis_error
base_class timeout_error = some request_error
base_class exec_abort_error = some request_error
base_class connection_error = some request_error

pub record RedisError : Type 0 where
  pub error_class : ErrorClass
  pub message : String

-- `RedisError.__init__`: `message or "No error message provided"`.
unfoldable pub new_error : ErrorClass → Option String → RedisError
new_error c none = record { error_class = c; message = "No error message provided" }
new_error c (some m) = record {
  error_class = c;
  message = if m == "" then "No error message provided" else m;
}

unfoldable pub name : RedisError → String
name e = elim e.error_class [
  | redis_error ↦ "RedisError"
  | closing_error ↦ "ClosingError"
  | request_error ↦ "RequestError"
  | timeout_error ↦ "TimeoutError"
  | exec_abort_error ↦ "ExecAbortError"
  | connection_error ↦ "ConnectionError"
]

-- What leaves a call of the wrapper. `os_error` and `asyncio_timeout_error` are what opening the
-- connection and `drain` raise.
pub data PyException : Type 0 where
  redis : RedisError → PyException
  value_error attribute_error assertion_error invalid_state : PyException
  unicode_decode_error : PyException
  os_error : String → PyException
  asyncio_timeout_error : PyException
  invalid_route_type : PyException

pub data Outcome {ℓ} (A : Type ℓ) : Type ℓ where
  returned : A → Outcome A
  raised : PyException → Outcome A

infixl 5 ◌>>=◌
abbrev pub ◌>>=◌ {ℓ κ} : {A : Type ℓ} {B : Type κ} → Outcome A → (A → Outcome B) → Outcome B
returned a >>= f = f a
raised e >>= f = raised e

-- `get_request_error_class` of python/python/glide/redis_client.py.
unfoldable pub get_request_error_class : Option RequestErrorType → ErrorClass
get_request_error_class (some disconnect) = connection_error
get_request_error_class (some exec_abort) = exec_abort_error
get_request_error_class (some timeout) = timeout_error
get_request_error_class (some unspecified) = request_error
get_request_error_class none = request_error

-- A class and the classes that it is derived from: what `except` takes it for.
pub data IsSubclass (c : ErrorClass) : ErrorClass → Type 0 where
  itself : IsSubclass c c
  derived : {d e : ErrorClass} → IsSubclass c d → base_class d ≡ some e → IsSubclass c e

not-base-closing : (c : ErrorClass) → base_class c ≢ some closing_error
unfolding base_class
not-base-closing redis_error e = cc
not-base-closing _ e = ground arith

not-IsSubclass-closing :
    {c d : ErrorClass} → IsSubclass c d → d ≡ closing_error → c ≢ closing_error → ⊥
not-IsSubclass-closing itself e h = h e
not-IsSubclass-closing (derived {d = d} {e = e'} s b) e h = not-base-closing d (b ∙ ap some e)

IsSubclass-request :
    (c : ErrorClass)
    → base_class c ≡ some request_error
    → c ≢ closing_error
    → IsSubclass c request_error × IsSubclass c redis_error × ¬ IsSubclass c closing_error
unfolding base_class
IsSubclass-request c b h =
    (derived itself b, derived (derived itself b) refl, λ s. not-IsSubclass-closing s refl h)

-- Whatever error the core reports for a request, `except RequestError` catches it, and so does
-- `except RedisError`, while `except ClosingError` does not.
pub get_request_error_class-IsSubclass :
    (t : Option RequestErrorType)
    → IsSubclass (get_request_error_class t) request_error
      × IsSubclass (get_request_error_class t) redis_error
      × ¬ IsSubclass (get_request_error_class t) closing_error
unfolding get_request_error_class base_class
get_request_error_class-IsSubclass (some disconnect) =
    IsSubclass-request connection_error refl (λ e. cc)
get_request_error_class-IsSubclass (some exec_abort) =
    IsSubclass-request exec_abort_error refl (λ e. cc)
get_request_error_class-IsSubclass (some timeout) = IsSubclass-request timeout_error refl (λ e. cc)
get_request_error_class-IsSubclass (some unspecified) =
    (itself, derived itself refl, λ s. not-IsSubclass-closing s refl (λ e. cc))
get_request_error_class-IsSubclass none =
    (itself, derived itself refl, λ s. not-IsSubclass-closing s refl (λ e. cc))
