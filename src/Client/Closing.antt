-- ===== src/Client/Closing.antt =====
-- `close`: what becomes of the requests in flight and of later calls.
use glide_for_redis.Common.{
  ℕ, ◌≡◌, refl, sym, ap, subst, ◌∙◌, true, false, Option, some, String, List, [], ◌∷◌, length,
  get_elem?, set, length-set, if◌then◌else◌, Bool-cases, ◌⊎◌, inl, inr, arith,
}
use glide_for_redis.Exceptions.{PyException, attribute_error, returned, raised}
use glide_for_redis.Protocol.{RequestCommand}
use glide_for_redis.Routes.{Route}
use glide_for_redis.Client.Callbacks.{
  Future, failed, dict_values, Callbacks, is_pending, fail_pending,
}
use glide_for_redis.Client.State.{TResult, Client, closing, closed_error, close, del, send}
use glide_for_redis.Client.Slots.{store-Slots}
use glide_for_redis.Client.Futures.{fail_pending_lem, Tracked}
use glide_for_redis.Client.Invariant.{IsSound}

module _ {V : Type 0} where
  length-fail_pending :
      (e : PyException) (refs : List ℕ) (store : List (Future V))
      → length (fail_pending e refs store) ≡ length store
  unfolding fail_pending
  length-fail_pending e [] store = refl
  length-fail_pending e (ref ∷ refs) store = ground (
    arith,
    length-fail_pending e refs (set store ref (failed e)),
    length-fail_pending e refs store,
    length-set store ref (failed e),
  )

  -- On sound callbacks the loop reaches every pending future.
  fail_all :
      (e : PyException) (c : Callbacks V)
      → Tracked c
      → (r : ℕ)
      → get_elem? (fail_pending e (dict_values c.available_futures) c.store) r
        ≡ (if is_pending c.store r then some (failed e) else get_elem? c.store r)
  fail_all e c t r = elim (Bool-cases (is_pending c.store r)) [
    | inl p ↦
        ground
          (arith, p, t.covered r p, fail_pending_lem e (dict_values c.available_futures) c.store r)
    | inr n ↦ ground (arith, n, fail_pending_lem e (dict_values c.available_futures) c.store r)
  ]

  none_pending :
      (e : PyException) (c : Callbacks V)
      → Tracked c
      → (r : ℕ) → is_pending (fail_pending e (dict_values c.available_futures) c.store) r ≡ false
  none_pending e c t r = elim (Bool-cases (is_pending c.store r)) [
    | inl p ↦ ground (arith, p, fail_all e c t r)
    | inr n ↦ ground (arith, n, fail_all e c t r)
  ]

module _ {V : Type 0} where
  pub close-callbacks :
      (err_message : Option String) (c : Client V)
      → (close err_message c).0.callbacks ≡ record (c.callbacks) {
        store =
            fail_pending
              (closing err_message)
              (dict_values c.callbacks.available_futures)
              c.callbacks.store;
      }
  unfolding close del
  close-callbacks err_message c = elim (Bool-cases c.has_writer) [
    | inl e ↦ rw (e, close) refl
    | inr e ↦ rw (e, close) refl
  ]

  close-is_closed :
      (err_message : Option String) (c : Client V) → (close err_message c).0.is_closed ≡ true
  unfolding close del
  close-is_closed err_message c = elim (Bool-cases c.has_writer) [
    | inl e ↦ rw (e, close) refl
    | inr e ↦ rw (e, close) refl
  ]

  pub close-IsSound :
      (err_message : Option String) (c : Client V)
      → IsSound c.callbacks
      → IsSound (close err_message c).0.callbacks
  close-IsSound err_message c s =
      let e = closing err_message in
      let refs = dict_values c.callbacks.available_futures in
      subst IsSound (sym (close-callbacks err_message c)) (record {
        slots = store-Slots c.callbacks _ s.slots;
        tracked = record {
          valid = λ r h.
              ground (arith, s.tracked.valid r h, length-fail_pending e refs c.callbacks.store);
          once = s.tracked.once;
          covered = λ r h. absurd (ground (arith, h, none_pending e c.callbacks s.tracked r));
        };
      })

  -- After `close` on a client with sound callbacks, every future that was pending has failed with a
  -- `ClosingError` of the message given, none is pending, every other future is as it was, and each
  -- later call raises the error of a closed client and changes nothing.
  pub close_lem :
      (err_message : Option String) (c : Client V)
      → IsSound c.callbacks
      → ((r : ℕ)
          → get_elem? (close err_message c).0.callbacks.store r ≡ (
              if is_pending c.callbacks.store r
              then some (failed (closing err_message))
              else get_elem? c.callbacks.store r))
        × ((r : ℕ) → is_pending (close err_message c).0.callbacks.store r ≡ false)
        × ((command : RequestCommand) (route : Option Route)
            → send command route (close err_message c).0
              ≡ ((close err_message c).0, raised closed_error))
  unfolding send
  close_lem err_message c s =
      let e = closing err_message in
      let store = ap (λ (k : Callbacks (TResult V)). k.store) (close-callbacks err_message c) in
      (
        λ r. ap (λ l. get_elem? l r) store ∙ fail_all e c.callbacks s.tracked r,
        λ r. ap (λ l. is_pending l r) store ∙ none_pending e c.callbacks s.tracked r,
        λ command route. rw (close-is_closed err_message c, send) refl,
      )

  -- `close` gives the socket back and stops the reader, and does it only if there is a writer;
  -- without one it ends in an `AttributeError`, when the client is closed already.
  pub close_resources :
      (err_message : Option String) (c : Client V)
      → ((close err_message c).0.is_closed ≡ true)
        × ((c.has_writer ≡ true)
              × ((close err_message c).1 ≡ returned tt)
              × ((close err_message c).0.writer_open ≡ false)
              × ((close err_message c).0.reader_running ≡ false)
            ⊎ (c.has_writer ≡ false)
              × ((close err_message c).1 ≡ raised attribute_error)
              × ((close err_message c).0.writer_open ≡ c.writer_open)
              × ((close err_message c).0.reader_running ≡ c.reader_running))
  unfolding close del
  close_resources err_message c = elim (Bool-cases c.has_writer) [
    | inl e ↦ rw (e, close) (refl, inl (refl, refl, refl, refl))
    | inr e ↦ rw (e, close) (refl, inr (refl, refl, refl, refl))
  ]
