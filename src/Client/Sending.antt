-- ===== src/Client/Sending.antt =====
-- What a call does to the client before it awaits its future.
use mathlib.Core.Option
use glide_for_redis.Common.{
  ℕ, ◌≡◌, ◌≢◌, refl, sym, ap, subst, ◌∙◌, Bool, true, false, Option, none, some, [], ◌∷◌, ◌++◌,
  length, ◌==◌, if◌then◌else◌, Bool-cases, List-cases, ◌⊎◌, inl, inr, arith,
}
use glide_for_redis.Exceptions.{invalid_route_type, Outcome, returned, raised}
use glide_for_redis.Protocol.{RequestCommand, RedisRequest, empty_request, redis_request}
use glide_for_redis.Routes.{
  Route, other_route, read_route, set_protobuf_route, set_protobuf_route_lem,
}
use glide_for_redis.Client.Callbacks.{
  Dict, dict_get, Callbacks, get_future, get_callback_index, is_pending,
}
use glide_for_redis.Client.State.{TResult, Client, closed_error, send, route_and_send}
use glide_for_redis.Client.Slots.{acquire-Slots, index_new, index_free, dict_get-none_of}
use glide_for_redis.Client.Futures.{
  dict_get-dict_set, get_future-Tracked, Tracked, is_pending-append,
}
use glide_for_redis.Client.Invariant.{IsSound}

module _ {V : Type 0} where
  -- The index that the next request gets, and what is left of the free ones.
  abbrev pub next_index : Client V → ℕ
  next_index c = (get_callback_index c.callbacks).1

  abbrev pub taken : Client V → Callbacks (TResult V)
  taken c = (get_callback_index c.callbacks).0

  -- A request that went out: its message stands at the end of the write tasks and carries the
  -- command, the route and an index, under which the dictionary has a new future.
  pub record Sent (command : RequestCommand) (route : Option Route) (c c' : Client V) (ref : ℕ)
      : Type 0 where
    pub request : RedisRequest
    pub index : request.callback_idx ≡ next_index c
    pub content : request.command ≡ some command
    pub target : Option.map read_route request.route ≡ route
    pub after : c' ≡ record c {
      callbacks = (get_future (next_index c) (taken c)).0;
      write_tasks = c.write_tasks ++ redis_request request ∷ [];
    }
    pub place : ref ≡ (get_future (next_index c) (taken c)).1

  abbrev pub draft : RequestCommand → Client V → RedisRequest
  draft command c = record empty_request { callback_idx = next_index c; command = some command }

  send_by :
      {b : Bool} {o : Outcome RedisRequest} (command : RequestCommand) (route : Option Route)
      (c : Client V)
      → c.is_closed ≡ b
      → set_protobuf_route (draft command c) route ≡ o
      → send command route c
        ≡ (if b then (c, raised closed_error) else route_and_send c (taken c) o)
  unfolding send
  send_by {b} {o} command route c e r i =
      if e i then (c, raised closed_error) else route_and_send c (taken c) (r i)

  send_routed :
      (command : RequestCommand) (route : Option Route) (c : Client V) (request : RedisRequest)
      → c.is_closed ≡ false
      → set_protobuf_route (draft command c) route ≡ returned request
      → request.callback_idx ≡ next_index c
      → send command route c ≡ (
        record c {
          callbacks = (get_future (next_index c) (taken c)).0;
          write_tasks = c.write_tasks ++ redis_request request ∷ [];
        },
        returned (get_future (next_index c) (taken c)).1,
      )
  unfolding route_and_send
  send_routed command route c request e r i =
      send_by command route c e r
      ∙ ap
          (λ (k : ℕ). (
            record c {
              callbacks = (get_future k (taken c)).0;
              write_tasks = c.write_tasks ++ redis_request request ∷ [];
            },
            returned (get_future k (taken c)).1,
          ))
          i

  -- The outcomes of a call: on a closed client it raises and changes nothing; with a route of
  -- another class it raises and has used up an index; and otherwise its request goes out.
  pub send_cases :
      (command : RequestCommand) (route : Option Route) (c : Client V)
      → ((c.is_closed ≡ true) × (send command route c ≡ (c, raised closed_error)))
        ⊎ ((c.is_closed ≡ false)
            × (route ≡ some other_route)
            × (send command route c
                ≡ (record c { callbacks = taken c }, raised invalid_route_type)))
        ⊎ ((c.is_closed ≡ false)
            × ((c' : Client V) × (ref : ℕ) × (send command route c ≡ (c', returned ref))
                × Sent command route c c' ref))
  unfolding route_and_send
  send_cases command route c = elim (Bool-cases c.is_closed) [
    | inl closed ↦ inl (closed, send_by command route c closed refl)
    | inr open_ ↦ elim (set_protobuf_route_lem (draft command c) route refl) [
      | inl (request, r, t, i, k) ↦ inr (
          inr (
            open_,
            (
              _,
              _,
              send_routed command route c request open_ r i,
              record {
                request = request;
                index = i;
                content = k;
                target = t;
                after = refl;
                place = refl;
              },
            ),
          ))
      | inr (o, r) ↦ inr (inl (open_, o, send_by command route c open_ r))
    ]
  ]

  pub taken-futures : (c : Client V) → (taken c).available_futures ≡ c.callbacks.available_futures
  taken-futures c = elim (List-cases c.callbacks.available_callback_indexes) [
    | inl e ↦ ap (λ p. p.0.available_futures) (index_new c.callbacks e)
    | inr (i, rest, e) ↦ ap (λ p. p.0.available_futures) (index_free c.callbacks i rest e)
  ]

  pub taken-store : (c : Client V) → (taken c).store ≡ c.callbacks.store
  taken-store c = elim (List-cases c.callbacks.available_callback_indexes) [
    | inl e ↦ ap (λ p. p.0.store) (index_new c.callbacks e)
    | inr (i, rest, e) ↦ ap (λ p. p.0.store) (index_free c.callbacks i rest e)
  ]

  taken-Tracked : (c : Client V) → Tracked c.callbacks → Tracked (taken c)
  taken-Tracked c t = elim (List-cases c.callbacks.available_callback_indexes) [
    | inl e ↦ subst (λ p. Tracked p.0) (sym (index_new c.callbacks e)) t
    | inr (i, rest, e) ↦
        subst (λ p. Tracked p.0) (sym (index_free c.callbacks i rest e))
          (record { valid = t.valid; once = t.once; covered = t.covered })
  ]

  pub Sent-IsSound :
      (command : RequestCommand) (route : Option Route) (c c' : Client V) (ref : ℕ)
      → Sent command route c c' ref
      → IsSound c.callbacks
      → IsSound c'.callbacks
  Sent-IsSound command route c c' ref sent s =
      let (fresh, slots) = acquire-Slots c.callbacks s.slots in
      subst (λ (x : Client V). IsSound x.callbacks) (sym sent.after)
        (record {
          slots = slots;
          tracked = get_future-Tracked (next_index c) (taken c) fresh (taken-Tracked c s.tracked);
        })

  new_future :
      (i : ℕ) (c : Callbacks (TResult V))
      → (is_pending (get_future i c).0.store (get_future i c).1 ≡ true)
        × ((j : ℕ)
            → dict_get j (get_future i c).0.available_futures
              ≡ (if i == j then some (get_future i c).1 else dict_get j c.available_futures))
  unfolding get_future
  new_future i c = (
    ground (arith, is_pending-append c.store (length c.store)),
    λ j. dict_get-dict_set j i (length c.store) c.available_futures,
  )

  -- On an open client whose callbacks are sound, a call with no route or one of a known class goes
  -- out. Its index was not in use; it is in use now, for a new pending future, which is the one that
  -- the call awaits; every other index has the future that it had; and the callbacks stay sound.
  pub send_in_flight :
      (command : RequestCommand) (route : Option Route) (c : Client V)
      → IsSound c.callbacks
      → c.is_closed ≡ false
      → route ≢ some other_route
      → (c' : Client V) × (ref : ℕ) × (send command route c ≡ (c', returned ref))
        × Sent command route c c' ref
        × (dict_get (next_index c) c.callbacks.available_futures ≡ none)
        × ((j : ℕ)
            → dict_get j c'.callbacks.available_futures
              ≡ (if next_index c == j then some ref else dict_get j c.callbacks.available_futures))
        × (is_pending c'.callbacks.store ref ≡ true)
        × IsSound c'.callbacks
  send_in_flight command route c s o known = elim (send_cases command route c) [
    | inl (closed, e) ↦ absurd (ground (arith, closed))
    | inr (inl (_, bad, e)) ↦ absurd (known bad)
    | inr (inr (_, (c', ref, e, sent))) ↦
        let (fresh, slots) = acquire-Slots c.callbacks s.slots in
        let (waits, keys) = new_future (next_index c) (taken c) in
        let with =
          λ (r : ℕ) (d : Dict) (j : ℕ). if next_index c == j then some r else dict_get j d in
        (
          c',
          ref,
          e,
          sent,
          subst (λ d. dict_get (next_index c) d ≡ none) (taken-futures c)
              (dict_get-none_of (next_index c) (taken c).available_futures fresh),
          λ j.
              ap (λ (x : Client V). dict_get j x.callbacks.available_futures) sent.after
              ∙ keys j
              ∙ ap (λ (r : ℕ). with r (taken c).available_futures j) (sym sent.place)
              ∙ ap (λ (d : Dict). with ref d j) (taken-futures c),
          ap (λ (x : Client V). is_pending x.callbacks.store ref) sent.after
              ∙ ap (is_pending (get_future (next_index c) (taken c)).0.store) sent.place
              ∙ waits,
          Sent-IsSound command route c c' ref sent s,
        )
  ]
