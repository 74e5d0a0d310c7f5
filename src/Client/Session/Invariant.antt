-- ===== src/Client/Session/Invariant.antt =====
-- What holds of the futures of a client at any moment of a session.
use glide_for_redis.Common.{
  ℕ, ◌<◌, ◌≡◌, ◌≢◌, sym, ap, subst, ◌∙◌, true, false, Option, none, some, List, [], ◌∷◌, ◌++◌,
  length, length-append, length-set, get_elem?, get_elem?-snoc, get_elem?-snoc_ne, ◌==◌,
  if◌then◌else◌, Bool-cases, ◌⊎◌, inl, inr, arith,
}
use glide_for_redis.Exceptions.{returned}
use glide_for_redis.Protocol.{RequestCommand, RedisRequest, ResponseValue}
use glide_for_redis.Routes.{Route}
use glide_for_redis.Stream.{carry_on}
use glide_for_redis.Client.Callbacks.{
  Future, pending, Dict, dict_get, Callbacks, get_future, is_pending,
}
use glide_for_redis.Client.State.{TResult, Client}
use glide_for_redis.Client.Reader.{future_of, handle_response}
use glide_for_redis.Client.Slots.{acquire-Slots, dict_get-none_of, occurrences, occurrences-append}
use glide_for_redis.Client.Futures.{
  dict_get-dict_set, is_pending-append, is_pending-set, get_elem?-set_pending,
}
use glide_for_redis.Client.Invariant.{
  IsSound, Completed-IsSound, handle_response-Completed, future_of-is_done,
}
use glide_for_redis.Client.Answers.{
  IsOutcome, future_of-IsOutcome, answered, handle_response-future_of,
}
use glide_for_redis.Client.Sending.{
  taken-futures, next_index, taken, taken-store, Sent, Sent-IsSound,
}
use glide_for_redis.Client.Correlation.{same_return, dict_get-dict_remove}

module _ {V : Type 0} (value_from_pointer : ℕ → Option V) (answer : ℕ → Option ResponseValue) where
  -- The future at `place` has what its call is answered with.
  abbrev pub HasAnswer : Callbacks (TResult V) → ℕ → Type 0
  HasAnswer k place =
      (f : Future (TResult V)) × (get_elem? k.store place ≡ some f)
      × IsOutcome value_from_pointer (answer place) f

  -- `places` are those of the pending futures, each once. The future of a request is pending and in
  -- the dictionary under the request's index, or it has its answer.
  pub record Books (k : Callbacks (TResult V)) (requests : List (Option RedisRequest))
      (places : List ℕ) : Type 0 where
    pub sound : IsSound k
    pub sized : length requests ≡ length k.store
    pub counted : (p : ℕ) → occurrences p places ≡ (if is_pending k.store p then 1 else 0)
    pub keyed :
        (p : ℕ) (q : RedisRequest)
        → get_elem? requests p ≡ some (some q)
        → is_pending k.store p ≡ true
        → dict_get q.callback_idx k.available_futures ≡ some p
    pub settled :
        (p : ℕ) (q : RedisRequest)
        → get_elem? requests p ≡ some (some q)
        → is_pending k.store p ≡ false
        → HasAnswer k p

  -- The order of the places does not matter.
  pub recount :
      (k : Callbacks (TResult V)) (requests : List (Option RedisRequest)) (places others : List ℕ)
      → ((p : ℕ) → occurrences p others ≡ occurrences p places)
      → Books k requests places
      → Books k requests others
  recount k requests places others same b = record {
    sound = b.sound;
    sized = b.sized;
    counted = λ p. same p ∙ b.counted p;
    keyed = b.keyed;
    settled = b.settled;
  }

  -- The next response is for the call at `p`.
  module _ (c : Client V) (requests : List (Option RedisRequest)) (p : ℕ) (q : RedisRequest)
      (places : List ℕ) (b : Books c.callbacks requests (p ∷ places))
      (at : get_elem? requests p ≡ some (some q)) (f : Future (TResult V))
      (its : IsOutcome value_from_pointer (answer p) f) where
    decodes : future_of value_from_pointer (answer p) ≡ returned f
    decodes = (future_of-IsOutcome value_from_pointer (answer p) f its).0

    abbrev next : Client V
    next = answered value_from_pointer q.callback_idx p f c

    p-pending : is_pending c.callbacks.store p ≡ true
    p-pending = ground (arith, b.counted p)

    pending_after :
        (r : ℕ)
        → is_pending next.callbacks.store r
          ≡ (if p == r then false else is_pending c.callbacks.store r)
    pending_after r =
        is_pending-set c.callbacks.store p r f
          (future_of-is_done value_from_pointer (answer p) f decodes)

    pub handled :
        handle_response value_from_pointer c
          (record { callback_idx = q.callback_idx; value = answer p })
        ≡ carry_on next
    handled =
        elim (handle_response-future_of value_from_pointer c
          (record { callback_idx = q.callback_idx; value = answer p }) p (b.keyed p q at p-pending)
          (future_of-IsOutcome value_from_pointer (answer p) f its).1) [
            | inl (f', a, waits, e) ↦
                e
                ∙ ap (λ g. carry_on (answered value_from_pointer q.callback_idx p g c))
                    (same_return (sym a ∙ decodes))
            | inr (inl (f', a, n, e)) ↦ absurd (ground (arith, n, p-pending))
            | inr (inr (x, a, e)) ↦ absurd (ground (arith, sym a ∙ decodes))
          ]

    still_pending :
        (r : ℕ)
        → is_pending next.callbacks.store r ≡ true
        → (p ≢ r) × (is_pending c.callbacks.store r ≡ true)
    still_pending r waits =
        (ground (arith, waits, pending_after r), ground (arith, waits, pending_after r))

    other_index :
        (r : ℕ) (q' : RedisRequest)
        → p ≢ r
        → dict_get q'.callback_idx c.callbacks.available_futures ≡ some r
        → q.callback_idx ≢ q'.callback_idx
    other_index r q' differ there e = differ (
        ground (
          arith,
          sym (b.keyed p q at p-pending)
              ∙ ap (λ i. dict_get i c.callbacks.available_futures) e
              ∙ there,
        ))

    pub handled-Books : Books next.callbacks requests places
    handled-Books = record {
      sound =
          Completed-IsSound value_from_pointer c _ next
            (handle_response-Completed value_from_pointer c _ next handled) b.sound;
      sized = b.sized ∙ sym (length-set c.callbacks.store p f);
      counted = λ r. ground (arith, b.counted r, pending_after r);
      keyed = λ r q' at' waits.
          let (differ, before) = still_pending r waits in
          let there = b.keyed r q' at' before in
          dict_get-dict_remove q'.callback_idx q.callback_idx c.callbacks.available_futures
            (other_index r q' differ there)
          ∙ there;
      settled = λ r q' at' done. elim (Bool-cases (p == r)) [
        | inl same ↦ (
          f,
          ground (arith, same, get_elem?-set_pending c.callbacks.store p r f p-pending),
          subst (λ x. IsOutcome value_from_pointer (answer x) f) (ground (arith, same)) its,
        )
        | inr other ↦
            let (g, there, its) =
              b.settled r q' at' (ground (arith, other, done, pending_after r)) in
            (
              g,
              ground (arith, other, there, get_elem?-set_pending c.callbacks.store p r f p-pending),
              its,
            )
      ];
    }

  -- A call that goes out.
  module _ (command : RequestCommand) (route : Option Route) (c c' : Client V) (ref : ℕ)
      (sent : Sent command route c c' ref) (requests : List (Option RedisRequest)) (places : List ℕ)
      (b : Books c.callbacks requests places) where
    new_store : c'.callbacks.store ≡ c.callbacks.store ++ pending ∷ []
    unfolding get_future
    new_store =
        ap (λ (x : Client V). x.callbacks.store) sent.after
        ∙ ap (λ (l : List (Future (TResult V))). l ++ pending ∷ []) (taken-store c)

    new_place : ref ≡ length c.callbacks.store
    unfolding get_future
    new_place = sent.place ∙ ap (λ (l : List (Future (TResult V))). length l) (taken-store c)

    fresh : dict_get (next_index c) c.callbacks.available_futures ≡ none
    fresh =
        subst (λ d. dict_get (next_index c) d ≡ none) (taken-futures c)
          (dict_get-none_of (next_index c) (taken c).available_futures
            (acquire-Slots c.callbacks b.sound.slots).0)

    new_futures :
        (j : ℕ)
        → dict_get j c'.callbacks.available_futures
          ≡ (if next_index c == j then some ref else dict_get j c.callbacks.available_futures)
    unfolding get_future
    new_futures j =
        let with = λ (r : ℕ) (d : Dict). if next_index c == j then some r else dict_get j d in
        ap (λ (x : Client V). dict_get j x.callbacks.available_futures) sent.after
        ∙ dict_get-dict_set j (next_index c) _ (taken c).available_futures
        ∙ ap (λ (r : ℕ). with r (taken c).available_futures) (sym sent.place)
        ∙ ap (λ (d : Dict). with ref d) (taken-futures c)

    in_range : (r : ℕ) → is_pending c.callbacks.store r ≡ true → r < length c.callbacks.store
    in_range r h = b.sound.tracked.valid r (b.sound.tracked.covered r h)

    pending_now :
        (r : ℕ)
        → is_pending c'.callbacks.store r
          ≡ (if r == length c.callbacks.store then true else is_pending c.callbacks.store r)
    pending_now r = ap (λ l. is_pending l r) new_store ∙ is_pending-append c.callbacks.store r

    new_size : length (requests ++ some sent.request ∷ []) ≡ length c'.callbacks.store
    new_size = omega (
      arith,
      b.sized,
      ap (λ (l : List (Future (TResult V))). length l) new_store,
      length-append requests (some sent.request ∷ []),
      length-append c.callbacks.store (pending ∷ []),
    )

    -- A request is that of the call, or was there.
    request_cases :
        (r : ℕ) (q : RedisRequest)
        → get_elem? (requests ++ some sent.request ∷ []) r ≡ some (some q)
        → ((r ≡ length c.callbacks.store) × (some sent.request ≡ some q))
          ⊎ ((r ≢ length c.callbacks.store) × (get_elem? requests r ≡ some (some q)))
    request_cases r q at = elim (Bool-cases (r == length requests)) [
      | inl new ↦ inl (
        ground (arith, new, b.sized),
        ground (arith, new, at, get_elem?-snoc requests (some sent.request) r),
      )
      | inr old ↦ inr (
        ground (arith, old, b.sized),
        ground (arith, old, at, get_elem?-snoc requests (some sent.request) r),
      )
    ]

    own_index : (q : RedisRequest) → some sent.request ≡ some q → q.callback_idx ≡ next_index c
    own_index q e = ground (arith, e, sent.index)

    other_index_of :
        (q : RedisRequest) (r : ℕ)
        → dict_get q.callback_idx c.callbacks.available_futures ≡ some r
        → next_index c ≢ q.callback_idx
    other_index_of q r there e =
        absurd
          (ground (arith, sym fresh ∙ ap (λ i. dict_get i c.callbacks.available_futures) e ∙ there))

    new_key :
        (r : ℕ) (q : RedisRequest)
        → get_elem? (requests ++ some sent.request ∷ []) r ≡ some (some q)
        → is_pending c'.callbacks.store r ≡ true
        → dict_get q.callback_idx c'.callbacks.available_futures ≡ some r
    new_key r q at waits = elim (request_cases r q at) [
      | inl (here, own) ↦
          ground (arith, here, new_place, own_index q own, new_futures q.callback_idx)
      | inr (differ, before) ↦
          let there = b.keyed r q before (ground (arith, differ, waits, pending_now r)) in
          ground (arith, there, other_index_of q r there, new_futures q.callback_idx)
    ]

    new_settled :
        (r : ℕ) (q : RedisRequest)
        → get_elem? (requests ++ some sent.request ∷ []) r ≡ some (some q)
        → is_pending c'.callbacks.store r ≡ false
        → HasAnswer c'.callbacks r
    new_settled r q at done = elim (request_cases r q at) [
      | inl (here, own) ↦ absurd (ground (arith, here, done, pending_now r))
      | inr (differ, before) ↦
          let (f, there, its) =
            b.settled r q before (ground (arith, differ, done, pending_now r)) in
          (
            f,
            ap (λ (l : List (Future (TResult V))). get_elem? l r) new_store
                ∙ get_elem?-snoc_ne c.callbacks.store pending r differ
                ∙ there,
            its,
          )
    ]

    pub called-Books : Books c'.callbacks (requests ++ some sent.request ∷ []) (places ++ ref ∷ [])
    called-Books = record {
      sound = Sent-IsSound command route c c' ref sent b.sound;
      sized = new_size;
      counted = λ r. ground (
        arith,
        b.counted r,
        pending_now r,
        new_place,
        in_range r,
        occurrences-append r places (ref ∷ []),
      );
      keyed = new_key;
      settled = new_settled;
    }
