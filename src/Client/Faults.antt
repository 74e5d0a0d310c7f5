-- ===== src/Client/Faults.antt =====
-- Where the code of redis_client.py loses track of a request.
use Prim.Native.String.{◌++◌ as ◌<>◌}
use glide_for_redis.Common.{
  ℕ, ◌<◌, ◌≡◌, ◌≢◌, refl, sym, ap, ◌∙◌, true, false, ◌&&◌, Option, some, String, [], ◌∷◌, length,
  get_elem?, ltb, ◌==◌, if◌then◌else◌, Bool-cases, inl, inr, arith,
}
use glide_for_redis.Exceptions.{PyException, attribute_error, invalid_route_type, returned, raised}
use glide_for_redis.Protocol.{RequestCommand, ResponseValue}
use glide_for_redis.Routes.{Route, other_route, set_protobuf_route}
use glide_for_redis.Stream.{raises}
use glide_for_redis.Client.Callbacks.{
  failed, Dict, dict_get, dict_remove, dict_keys, dict_values, Callbacks, get_future,
  get_callback_index, is_pending, fail_pending,
}
use glide_for_redis.Client.State.{TResult, Client, closing, close, send, route_and_send}
use glide_for_redis.Client.Reader.{
  close_and_raise, dispatch, handle_response, create_uds_connection,
}
use glide_for_redis.Client.Slots.{Slots, occurrences, index_new}
use glide_for_redis.Client.Futures.{
  Tracked, values-dict_remove, fail_pending_lem, dict_get-dict_set,
}
use glide_for_redis.Client.Invariant.{IsSound}
use glide_for_redis.Client.Closing.{close-callbacks, close_resources}
use glide_for_redis.Client.Sending.{next_index, taken, send_cases}

dict_get-present :
    (k : ℕ) (d : Dict) → 0 < occurrences k (dict_keys d) → (ref : ℕ) × (dict_get k d ≡ some ref)
unfolding dict_get
dict_get-present k [] h = absurd (ground (arith, h))
dict_get-present k ((i, r) ∷ d) h = elim (Bool-cases (i == k)) [
  | inl e ↦ (r, ground (arith, e))
  | inr e ↦
      let (ref, g) = dict_get-present k d (ground (arith, h, e)) in (ref, ground (arith, e, g))
]

dict_get-values :
    (k ref : ℕ) (d : Dict) → dict_get k d ≡ some ref → 0 < occurrences ref (dict_values d)
unfolding dict_get
dict_get-values k ref [] h = absurd (ground (arith, h))
dict_get-values k ref ((i, r) ∷ d) h = ground (arith, h, dict_get-values k ref d)

module _ {V : Type 0} where
  -- A future that has been popped is out of the loop's reach.
  popped_not_failed :
      (e : PyException) (i ref : ℕ) (c : Callbacks V)
      → Tracked c
      → dict_get i c.available_futures ≡ some ref
      → (occurrences ref (dict_values (dict_remove i c.available_futures)) ≡ 0)
        × ((r : ℕ)
            → get_elem? (fail_pending e (dict_values (dict_remove i c.available_futures)) c.store) r
              ≡ (if is_pending c.store r
                    && ltb 0 (occurrences r (dict_values (dict_remove i c.available_futures)))
                  then some (failed e)
                  else get_elem? c.store r))
  popped_not_failed e i ref c t h = (
    ground (arith, t.once ref, values-dict_remove ref i ref c.available_futures h),
    λ r. fail_pending_lem e (dict_values (dict_remove i c.available_futures)) c.store r,
  )

module _ {V : Type 0} (value_from_pointer : ℕ → Option V) where
  -- The client when the response's future has been popped.
  abbrev popped : ℕ → Client V → Client V
  popped i c = record c {
    callbacks = record (c.callbacks) {
      available_futures = dict_remove i c.callbacks.available_futures;
    };
  }

  close-writer :
      (m : Option String) (c : Client V)
      → c.has_writer ≡ true
      → ((close m c).1 ≡ returned tt) × ((close m c).0.reader_running ≡ false)
  close-writer m c h = elim (close_resources m c).1 [
    | inl (_, done, _, stopped) ↦ (done, stopped)
    | inr (no_writer, _, _, _) ↦ absurd (ground (arith, h, no_writer))
  ]

  close_and_raise-writer :
      (m : String) (c : Client V)
      → c.has_writer ≡ true
      → close_and_raise m c ≡ raises (close (some m) c).0 (closing (some m))
  unfolding close_and_raise
  close_and_raise-writer m c h = rw ((close-writer (some m) c h).0, close_and_raise) refl

  closing_response :
      (c : Client V) (i : ℕ) (m : String)
      → c.has_writer ≡ true
      → handle_response value_from_pointer c
          (record { callback_idx = i; value = some (ResponseValue.closing_error m) })
        ≡ raises (close (some m) (popped i c)).0 (closing (some m))
  unfolding handle_response dispatch
  closing_response c i m h = close_and_raise-writer m (popped i c) h

  stays_pending :
      (c : Client V) (i ref : ℕ) (m : Option String)
      → Tracked c.callbacks
      → dict_get i c.callbacks.available_futures ≡ some ref
      → get_elem? (close m (popped i c)).0.callbacks.store ref ≡ get_elem? c.callbacks.store ref
  stays_pending c i ref m t h =
      let (gone, kept) = popped_not_failed (closing m) i ref c.callbacks t h in
      ap (λ (k : Callbacks (TResult V)). get_elem? k.store ref) (close-callbacks m (popped i c))
      ∙ ground (arith, gone, kept ref)

  -- A closing error that carries the index of a request in flight: the client closes and the reader
  -- ends, but that request's own future, which has been popped, is neither failed nor in the
  -- dictionary. It stays pending.
  pub closing_error_strands :
      (c : Client V) (i ref : ℕ) (m : String)
      → IsSound c.callbacks
      → c.has_writer ≡ true
      → dict_get i c.callbacks.available_futures ≡ some ref
      → is_pending c.callbacks.store ref ≡ true
      → (c' : Client V) × (handle_response value_from_pointer c
            (record { callback_idx = i; value = some (ResponseValue.closing_error m) })
          ≡ raises c' (closing (some m)))
        × (c'.is_closed ≡ true)
        × (c'.reader_running ≡ false)
        × (is_pending c'.callbacks.store ref ≡ true)
        × (occurrences ref (dict_values c'.callbacks.available_futures) ≡ 0)
  closing_error_strands c i ref m s w h p =
      let (gone, kept) = popped_not_failed (closing (some m)) i ref c.callbacks s.tracked h in
      (
        (close (some m) (popped i c)).0,
        closing_response c i m w,
        (close_resources (some m) (popped i c)).0,
        (close-writer (some m) (popped i c) w).1,
        ground (arith, p, stays_pending c i ref (some m) s.tracked h),
        ap (λ (k : Callbacks (TResult V)). occurrences ref (dict_values k.available_futures))
              (close-callbacks (some m) (popped i c))
            ∙ gone,
      )

  -- What the exception of a call with a route of another class leaves behind, when `i` is the free
  -- index that it took: nothing but the loss of `i`.
  abbrev leaked : Client V → Client V
  leaked c = record c { callbacks = record (c.callbacks) { available_callback_indexes = [] } }

  next_index-leaked : (c : Client V) → next_index (leaked c) ≡ length c.callbacks.available_futures
  next_index-leaked c =
      ap (λ (p : Callbacks (TResult V) × ℕ). p.1) (index_new (leaked c).callbacks refl)

  leaked-send :
      (command : RequestCommand) (c : Client V) (i : ℕ)
      → c.is_closed ≡ false
      → c.callbacks.available_callback_indexes ≡ i ∷ []
      → send command (some other_route) c ≡ (leaked c, raised invalid_route_type)
  unfolding send route_and_send set_protobuf_route get_callback_index
  leaked-send command c i o free = rw (o, free, send, get_callback_index) refl

  key_in_use :
      (c : Callbacks (TResult V)) (i : ℕ)
      → Slots c
      → c.available_callback_indexes ≡ i ∷ []
      → i ≢ length c.available_futures
      → 0 < occurrences (length c.available_futures) (dict_keys c.available_futures)
  key_in_use c i s free other = ground (arith, s.once (length c.available_futures))

  new_entry :
      (k : ℕ) (c : Callbacks (TResult V))
      → dict_get k (get_future k c).0.available_futures ≡ some (get_future k c).1
  unfolding get_future
  new_entry k c = ground (arith, dict_get-dict_set k k (length c.store) c.available_futures)

  leaked-place :
      (c : Client V)
      → (get_future (next_index (leaked c)) (taken (leaked c))).1 ≡ length c.callbacks.store
  unfolding get_future get_callback_index
  leaked-place c = refl

  -- A call with a route of another class raises when it has already taken a free index, which is
  -- lost. If that was the last free one, and not the highest of all, the next call that goes out
  -- takes an index that is in use: its future takes the place of one that another call awaits.
  pub invalid_route_collides :
      (command command' : RequestCommand) (route' : Option Route) (c : Client V) (i : ℕ)
      → IsSound c.callbacks
      → c.is_closed ≡ false
      → c.callbacks.available_callback_indexes ≡ i ∷ []
      → i ≢ length c.callbacks.available_futures
      → route' ≢ some other_route
      → (c' : Client V) × (c'' : Client V) × (old : ℕ) × (new : ℕ) × (send command
            (some other_route)
            c
          ≡ (c', raised invalid_route_type))
        × (dict_get (next_index c') c'.callbacks.available_futures ≡ some old)
        × (send command' route' c' ≡ (c'', returned new))
        × (dict_get (next_index c') c''.callbacks.available_futures ≡ some new)
        × (new ≢ old)
  invalid_route_collides command command' route' c i s o free other known =
      let n : ℕ = length c.callbacks.available_futures in
      let k : ℕ = next_index (leaked c) in
      let (old, used) =
        dict_get-present n c.callbacks.available_futures
          (key_in_use c.callbacks i s.slots free other) in
      let exists = s.tracked.valid old (dict_get-values n old c.callbacks.available_futures used) in
      elim (send_cases command' route' (leaked c)) [
        | inl (shut, e) ↦ absurd (ground (arith, shut, o))
        | inr (inl (_, bad, e)) ↦ absurd (known bad)
        | inr (inr (_, (c'', new, e, sent))) ↦ (
          leaked c,
          c'',
          old,
          new,
          leaked-send command c i o free,
          ap (λ k. dict_get k c.callbacks.available_futures) (next_index-leaked c) ∙ used,
          e,
          ap (λ (x : Client V). dict_get k x.callbacks.available_futures) sent.after
              ∙ new_entry k (taken (leaked c))
              ∙ ap some (sym sent.place),
          λ same. ground (arith, same, sent.place, leaked-place c, exists),
        )
      ]

  close-no_writer :
      (m : Option String) (c : Client V)
      → c.has_writer ≡ false
      → (close m c).1 ≡ raised attribute_error
  close-no_writer m c h = elim (close_resources m c).1 [
    | inl (writer, _, _, _) ↦ absurd (ground (arith, h, writer))
    | inr (_, done, _, _) ↦ done
  ]

  -- Without a writer, as in `create`, a failed connection closes the client and ends in the
  -- `AttributeError` of `close` instead of the exception of the connection.
  pub create_uds_connection_masked :
      (e : PyException) (message : String) (c : Client V)
      → c.has_writer ≡ false
      → (c' : Client V) × (create_uds_connection (raised e) message c
          ≡ (c', raised attribute_error))
        × (c'.is_closed ≡ true)
  unfolding create_uds_connection
  create_uds_connection_masked e message c h =
      let failed_message : String = "Failed to create UDS connection: " <> message in
      (
        (close (some failed_message) c).0,
        rw (close-no_writer (some failed_message) c h, create_uds_connection) refl,
        (close_resources (some failed_message) c).0,
      )
