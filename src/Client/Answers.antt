-- ===== src/Client/Answers.antt =====
-- The branches of `_reader_loop` for a response to a request in flight.
use glide_for_redis.Common.{
  ℕ, ◌≡◌, refl, ◌∙◌, Bool, true, false, Option, none, some, ◌∷◌, set, arith, ◌⊎◌, inl, inr,
  Bool-cases, Option-cases, ap,
}
use glide_for_redis.Exceptions.{
  PyException, redis, new_error, get_request_error_class, unicode_decode_error, invalid_state,
  returned, raised,
}
use glide_for_redis.Protocol.{
  Response, ResponseValue, resp_pointer, constant_response, request_error,
}
use glide_for_redis.Stream.{carry_on, raises}
use glide_for_redis.Client.Callbacks.{
  Future, result, failed, dict_get, dict_remove, is_pending, set_future,
}
use glide_for_redis.Client.State.{TResult, ok_result, none_result, value, Client}
use glide_for_redis.Client.Invariant.{Outcome-cases}
use glide_for_redis.Client.Reader.{future_of, complete, dispatch, handle_response}

abbrev pub is_closing : Option ResponseValue → Bool
is_closing (some (ResponseValue.closing_error m)) = true
is_closing _ = false

module _ {V : Type 0} (value_from_pointer : ℕ → Option V) where
  -- What a caller is to get by a response that is not a closing error: None without a value, OK on
  -- the constant, the value behind a pointer that decodes, and the core's error as an exception.
  unfoldable pub IsOutcome : Option ResponseValue → Future (TResult V) → Type 0
  IsOutcome none f = f ≡ result none_result
  IsOutcome (some constant_response) f = f ≡ result ok_result
  IsOutcome (some (resp_pointer p)) f =
      (v : V) × (value_from_pointer p ≡ some v) × (f ≡ result (value v))
  IsOutcome (some (request_error e)) f =
      f ≡ failed (redis (new_error (get_request_error_class (some e.error_type)) (some e.message)))
  IsOutcome (some (ResponseValue.closing_error m)) f = ⊥

  -- The index of a response is free again.
  abbrev pub freed : ℕ → Client V → Client V
  freed i c = record c {
    callbacks = record (c.callbacks) {
      available_futures = dict_remove i c.callbacks.available_futures;
      available_callback_indexes = i ∷ c.callbacks.available_callback_indexes;
    };
  }

  -- The future at `ref` has its outcome, too.
  abbrev pub answered : ℕ → ℕ → Future (TResult V) → Client V → Client V
  answered i ref f c = record c {
    callbacks = record {
      available_futures = dict_remove i c.callbacks.available_futures;
      available_callback_indexes = i ∷ c.callbacks.available_callback_indexes;
      store = set c.callbacks.store ref f;
    };
  }

  dispatch-complete :
      (i ref : ℕ) (v : Option ResponseValue) (c : Client V)
      → is_closing v ≡ false
      → dispatch value_from_pointer i (some ref) v c ≡ complete value_from_pointer i ref v c
  unfolding dispatch
  dispatch-complete i ref none c h = refl
  dispatch-complete i ref (some (resp_pointer p)) c h = refl
  dispatch-complete i ref (some constant_response) c h = refl
  dispatch-complete i ref (some (request_error e)) c h = refl
  dispatch-complete i ref (some (ResponseValue.closing_error m)) c h = absurd (ground (arith, h))

  handle_response-complete :
      (c : Client V) (r : Response) (ref : ℕ)
      → dict_get r.callback_idx c.callbacks.available_futures ≡ some ref
      → is_closing r.value ≡ false
      → handle_response value_from_pointer c r
        ≡ complete value_from_pointer r.callback_idx ref r.value (record c {
          callbacks = record (c.callbacks) {
            available_futures = dict_remove r.callback_idx c.callbacks.available_futures;
          };
        })
  unfolding handle_response
  handle_response-complete c r ref h k =
      rw (h, handle_response) (dispatch-complete r.callback_idx ref r.value _ k)

  -- By what `future_of` makes of the value.
  pub handle_response-future_of :
      (c : Client V) (r : Response) (ref : ℕ)
      → dict_get r.callback_idx c.callbacks.available_futures ≡ some ref
      → is_closing r.value ≡ false
      → ((f : Future (TResult V)) × (future_of value_from_pointer r.value ≡ returned f)
          × (is_pending c.callbacks.store ref ≡ true)
          × (handle_response value_from_pointer c r ≡ carry_on (answered r.callback_idx ref f c)))
        ⊎ ((f : Future (TResult V)) × (future_of value_from_pointer r.value ≡ returned f)
            × (is_pending c.callbacks.store ref ≡ false)
            × (handle_response value_from_pointer c r
                ≡ raises (freed r.callback_idx c) invalid_state))
        ⊎ ((e : PyException) × (future_of value_from_pointer r.value ≡ raised e)
            × (handle_response value_from_pointer c r ≡ raises (freed r.callback_idx c) e))
  unfolding complete set_future
  handle_response-future_of c r ref h k =
      let step = handle_response-complete c r ref h k in
      elim (Outcome-cases (future_of value_from_pointer r.value)) [
        | inl (e, a) ↦ inr (inr (e, a, step ∙ rw (a, complete) refl))
        | inr (f, a) ↦ elim (Bool-cases (is_pending c.callbacks.store ref)) [
          | inl p ↦ inl (f, a, p, step ∙ rw (a, p, complete) refl)
          | inr n ↦ inr (inl (f, a, n, step ∙ rw (a, n, complete) refl))
        ]
      ]

  IsOutcome-future_of :
      (v : Option ResponseValue) (f : Future (TResult V))
      → is_closing v ≡ false
      → future_of value_from_pointer v ≡ returned f
      → IsOutcome v f
  unfolding future_of IsOutcome
  IsOutcome-future_of none f h e = cc
  IsOutcome-future_of (some constant_response) f h e = cc
  IsOutcome-future_of (some (request_error m)) f h e = cc
  IsOutcome-future_of (some (ResponseValue.closing_error m)) f h e = cc
  IsOutcome-future_of (some (resp_pointer p)) f h e = elim (Option-cases (value_from_pointer p)) [
    | inl n ↦ absurd (ground (arith, n, e))
    | inr (v, k) ↦ (v, k, ground (arith, k, e))
  ]

  pub future_of-IsOutcome :
      (v : Option ResponseValue) (f : Future (TResult V))
      → IsOutcome v f
      → (future_of value_from_pointer v ≡ returned f) × (is_closing v ≡ false)
  unfolding future_of IsOutcome
  future_of-IsOutcome none f h = (cc, refl)
  future_of-IsOutcome (some constant_response) f h = (cc, refl)
  future_of-IsOutcome (some (request_error m)) f h = (cc, refl)
  future_of-IsOutcome (some (ResponseValue.closing_error m)) f h = absurd h
  future_of-IsOutcome (some (resp_pointer p)) f (v, k, e) = (rw (k, future_of) cc, refl)

  undecoded :
      (v : Option ResponseValue) (e : PyException)
      → future_of value_from_pointer v ≡ raised e
      → (e ≡ unicode_decode_error)
        × ((p : ℕ) × (v ≡ some (resp_pointer p)) × (value_from_pointer p ≡ none))
  unfolding future_of
  undecoded none e h = cc
  undecoded (some constant_response) e h = cc
  undecoded (some (request_error m)) e h = cc
  undecoded (some (ResponseValue.closing_error m)) e h = cc
  undecoded (some (resp_pointer p)) e h = elim (Option-cases (value_from_pointer p)) [
    | inl n ↦ (ground (arith, n, h), (p, refl, n))
    | inr (v, k) ↦ absurd (ground (arith, k, h))
  ]

  -- A response to a request in flight that is not a closing error: if its value decodes and the
  -- future is pending, the future is given the outcome (the value behind the pointer, OK, None, or the
  -- error as an exception of its class with its message) and the reader goes on; if the value decodes
  -- and the future is done, the reader ends with an `InvalidStateError`; and if the value does not
  -- decode, the reader ends with a UnicodeDecodeError. In each case the index is free again, and no other
  -- future changes.
  pub handle_response_cases :
      (c : Client V) (r : Response) (ref : ℕ)
      → dict_get r.callback_idx c.callbacks.available_futures ≡ some ref
      → is_closing r.value ≡ false
      → ((f : Future (TResult V)) × IsOutcome r.value f
          × (is_pending c.callbacks.store ref ≡ true)
          × (handle_response value_from_pointer c r ≡ carry_on (answered r.callback_idx ref f c)))
        ⊎ ((f : Future (TResult V)) × IsOutcome r.value f
            × (is_pending c.callbacks.store ref ≡ false)
            × (handle_response value_from_pointer c r
                ≡ raises (freed r.callback_idx c) invalid_state))
        ⊎ ((p : ℕ) × (r.value ≡ some (resp_pointer p))
            × (value_from_pointer p ≡ none)
            × (handle_response value_from_pointer c r
                ≡ raises (freed r.callback_idx c) unicode_decode_error))
  handle_response_cases c r ref h k = elim (handle_response-future_of c r ref h k) [
    | inl (f, a, p, e) ↦ inl (f, IsOutcome-future_of r.value f k a, p, e)
    | inr (inl (f, a, n, e)) ↦ inr (inl (f, IsOutcome-future_of r.value f k a, n, e))
    | inr (inr (x, a, e)) ↦
        let (kind, (p, at, n)) = undecoded r.value x a in
        inr (inr (p, at, n, e ∙ ap (λ y. raises (freed r.callback_idx c) y) kind))
  ]
