-- ===== src/Client/Invariant.antt =====
-- What holds of a client after any history of requests, responses and cancellations.
use glide_for_redis.Common.{
  ℕ, ◌≡◌, ◌≢◌, refl, sym, subst, true, Option, none, some, String, List, ◌∷◌, set, Bool-cases, ◌⊎◌,
  inl, inr, arith,
}
use glide_for_redis.Exceptions.{PyException, Outcome, returned, raised}
use glide_for_redis.Protocol.{
  Response, ResponseValue, resp_pointer, constant_response, request_error,
}
use glide_for_redis.Stream.{carry_on}
use glide_for_redis.Client.Callbacks.{
  Future, dict_get, dict_remove, Callbacks, is_pending, set_future,
}
use glide_for_redis.Client.State.{TResult, Client, close}
use glide_for_redis.Client.Reader.{
  future_of, close_and_raise, complete, dispatch, handle_response, unknown_index,
}
use glide_for_redis.Client.Slots.{Slots, release-Slots}
use glide_for_redis.Client.Futures.{is_done, Tracked, complete-Tracked}

pub record IsSound {V : Type 0} (c : Callbacks V) : Type 0 where
  pub slots : Slots c
  pub tracked : Tracked c

pub Outcome-cases {ℓ} :
    {A : Type ℓ} (o : Outcome A)
    → ((e : PyException) × (o ≡ raised e)) ⊎ ((a : A) × (o ≡ returned a))
Outcome-cases (raised e) = inl (e, refl)
Outcome-cases (returned a) = inr (a, refl)

module _ {V : Type 0} (value_from_pointer : ℕ → Option V) where
  pub future_of-is_done :
      (v : Option ResponseValue) (f : Future (TResult V))
      → future_of value_from_pointer v ≡ returned f
      → is_done f ≡ true
  unfolding future_of
  future_of-is_done v f h = ground arith

  -- What a response that the reader goes on after has found and done.
  pub record Completed (c : Client V) (r : Response) (c' : Client V) : Type 0 where
    pub res_future : ℕ
    pub outcome : Future (TResult V)
    pub in_flight : dict_get r.callback_idx c.callbacks.available_futures ≡ some res_future
    pub answer : future_of value_from_pointer r.value ≡ returned outcome
    pub was_pending : is_pending c.callbacks.store res_future ≡ true
    pub after : c' ≡ record c {
      callbacks = record {
        available_futures = dict_remove r.callback_idx c.callbacks.available_futures;
        available_callback_indexes = r.callback_idx ∷ c.callbacks.available_callback_indexes;
        store = set c.callbacks.store res_future outcome;
      };
    }

  not_carry_on : (m : String) (c c' : Client V) → close_and_raise m c ≢ carry_on c'
  unfolding close_and_raise close
  not_carry_on m c c' h = ground arith

  complete-carry_on :
      (i ref : ℕ) (v : Option ResponseValue) (c c' : Client V)
      → complete value_from_pointer i ref v c ≡ carry_on c'
      → (f : Future (TResult V)) × (future_of value_from_pointer v ≡ returned f)
        × (is_pending c.callbacks.store ref ≡ true)
        × (c' ≡ record c {
          callbacks = record (c.callbacks) {
            available_callback_indexes = i ∷ c.callbacks.available_callback_indexes;
            store = set c.callbacks.store ref f;
          };
        })
  unfolding complete set_future
  complete-carry_on i ref v c c' h = elim (Outcome-cases (future_of value_from_pointer v)) [
    | inl (e, k) ↦ ground arith
    | inr (f, k) ↦ elim (Bool-cases (is_pending c.callbacks.store ref)) [
      | inl p ↦ (f, k, p, ground arith)
      | inr n ↦ absurd (ground arith)
    ]
  ]

  dispatch-carry_on :
      (i : ℕ) (o : Option ℕ) (v : Option ResponseValue) (c c' : Client V)
      → dispatch value_from_pointer i o v c ≡ carry_on c'
      → (ref : ℕ) × (o ≡ some ref) × (complete value_from_pointer i ref v c ≡ carry_on c')
  unfolding dispatch
  dispatch-carry_on i o (some (ResponseValue.closing_error m)) c c' h =
      absurd (not_carry_on m c c' h)
  dispatch-carry_on i none none c c' h = absurd (not_carry_on (unknown_index i) c c' h)
  dispatch-carry_on i none (some (resp_pointer p)) c c' h =
      absurd (not_carry_on (unknown_index i) c c' h)
  dispatch-carry_on i none (some constant_response) c c' h =
      absurd (not_carry_on (unknown_index i) c c' h)
  dispatch-carry_on i none (some (request_error e)) c c' h =
      absurd (not_carry_on (unknown_index i) c c' h)
  dispatch-carry_on i (some ref) none c c' h = (ref, refl, h)
  dispatch-carry_on i (some ref) (some (resp_pointer p)) c c' h = (ref, refl, h)
  dispatch-carry_on i (some ref) (some constant_response) c c' h = (ref, refl, h)
  dispatch-carry_on i (some ref) (some (request_error e)) c c' h = (ref, refl, h)

  -- Whenever the reader goes on after a response, the response was for a request in flight whose
  -- future was pending; that future now has the outcome of the response, the index is free again,
  -- and the rest of the client is as it was.
  pub handle_response-Completed :
      (c : Client V) (r : Response) (c' : Client V)
      → handle_response value_from_pointer c r ≡ carry_on c'
      → Completed c r c'
  unfolding handle_response
  handle_response-Completed c r c' h =
      let (ref, e, k) = dispatch-carry_on r.callback_idx _ r.value _ c' h in
      let (f, a, p, after) = complete-carry_on r.callback_idx ref r.value _ c' k in
      record {
        res_future = ref;
        outcome = f;
        in_flight = e;
        answer = a;
        was_pending = p;
        after = after;
      }

  pub Completed-IsSound :
      (c : Client V) (r : Response) (c' : Client V)
      → Completed c r c'
      → IsSound c.callbacks
      → IsSound c'.callbacks
  Completed-IsSound c r c' d s =
      let store : List (Future (TResult V)) = set c.callbacks.store d.res_future d.outcome in
      let indexes : List ℕ = r.callback_idx ∷ c.callbacks.available_callback_indexes in
      subst (λ (x : Client V). IsSound x.callbacks) (sym d.after)
        (record {
          slots = release-Slots c.callbacks r.callback_idx d.res_future store s.slots d.in_flight;
          tracked =
              complete-Tracked r.callback_idx d.res_future c.callbacks indexes d.outcome d.in_flight
                (future_of-is_done r.value d.outcome d.answer) s.tracked;
        })
