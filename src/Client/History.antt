-- ===== src/Client/History.antt =====
-- The clients that `create` and any later interleaving of the tasks of redis_client.py lead to, as
-- long as every route is valid and no exception ends the reader.
use glide_for_redis.Common.{
  ℕ, ◌≡◌, ◌≢◌, refl, sym, subst, true, Option, some, String, List, Bool-cases, List-cases, inl, inr,
  arith,
}
use glide_for_redis.Exceptions.{returned}
use glide_for_redis.Protocol.{RequestCommand, ConnectionRequest, TRequest, Response}
use glide_for_redis.Routes.{Route, other_route}
use glide_for_redis.Stream.{carry_on}
use glide_for_redis.Client.Callbacks.{Callbacks, no_callbacks, is_pending, cancel}
use glide_for_redis.Client.Writer.{write_loop, drain_failed}
use glide_for_redis.Client.State.{TResult, Client, new_client, close, send, start_write_task}
use glide_for_redis.Client.Reader.{
  create_uds_connection, start_reader, set_connection_configurations, handle_response,
}
use glide_for_redis.Client.Slots.{Slots, get_future-Slots, store-Slots}
use glide_for_redis.Client.Futures.{Tracked, get_future-Tracked, cancel-Tracked}
use glide_for_redis.Client.Invariant.{IsSound, handle_response-Completed, Completed-IsSound}
use glide_for_redis.Client.Closing.{close-IsSound}
use glide_for_redis.Client.Sending.{Sent-IsSound, send_cases}

module _ {V : Type 0} (value_from_pointer : ℕ → Option V) (serialize : TRequest → List ℕ) where
  -- `create` once the socket is connected, up to the await of the connection's answer.
  abbrev pub connected_client : ConnectionRequest → Client V
  connected_client request =
      let (opened, _) = create_uds_connection (returned tt) "" new_client in
      (set_connection_configurations serialize request (start_reader opened)).0

  -- The client when its writer is done with the connection request.
  abbrev pub configured_client : ConnectionRequest → Client V
  configured_client request =
      let c = connected_client request in record c { writer = write_loop serialize c.writer }

  -- One step of one task; a response that ends the reader is none. A cancelled call leaves its future behind, in the dictionary.
  pub data Reached : Client V → Type 0 where
    connected : (request : ConnectionRequest) → Reached (connected_client request)
    called :
        {c : Client V} (command : RequestCommand) (route : Option Route)
        → route ≢ some other_route
        → Reached c
        → Reached (send command route c).0
    cancelled_call :
        {c : Client V} (ref : ℕ)
        → Reached c
        → Reached (record c { callbacks = cancel ref c.callbacks })
    write_started : {c : Client V} → Reached c → Reached (start_write_task serialize c)
    drained :
        {c : Client V}
        → c.writer.writer_lock ≡ true
        → Reached c
        → Reached (record c { writer = write_loop serialize c.writer })
    drain_raised :
        {c : Client V}
        → c.writer.writer_lock ≡ true
        → Reached c
        → Reached (record c { writer = drain_failed c.writer })
    answered :
        {c c' : Client V} (response : Response)
        → handle_response value_from_pointer c response ≡ carry_on c'
        → Reached c
        → Reached c'
    closed :
        {c : Client V} (err_message : Option String) → Reached c → Reached (close err_message c).0

  no_callbacks-Tracked : Tracked (no_callbacks {V = TResult V})
  no_callbacks-Tracked = record {
    valid = λ r h. ground (arith, h);
    once = λ r. ground arith;
    covered = λ r h. ground (arith, h);
  }

  -- Index 0 of the connection request comes before every index that is handed out.
  connected-IsSound : (request : ConnectionRequest) → IsSound (connected_client request).callbacks
  unfolding create_uds_connection start_reader set_connection_configurations
  connected-IsSound request = record {
    slots = get_future-Slots 0 no_callbacks refl (λ k. ground arith);
    tracked = get_future-Tracked 0 no_callbacks refl no_callbacks-Tracked;
  }

  cancel-Slots : (ref : ℕ) (c : Callbacks (TResult V)) → Slots c → Slots (cancel ref c)
  unfolding cancel
  cancel-Slots ref c s = elim (Bool-cases (is_pending c.store ref)) [
    | inl p ↦ rw (p, cancel) (store-Slots c _ s)
    | inr n ↦ rw (n, cancel) s
  ]

  pub cancel-IsSound : (ref : ℕ) (c : Callbacks (TResult V)) → IsSound c → IsSound (cancel ref c)
  cancel-IsSound ref c s = record {
    slots = cancel-Slots ref c s.slots;
    tracked = cancel-Tracked ref c s.tracked;
  }

  pub send-IsSound :
      (command : RequestCommand) (route : Option Route) (c : Client V)
      → route ≢ some other_route
      → IsSound c.callbacks
      → IsSound (send command route c).0.callbacks
  send-IsSound command route c known s = elim (send_cases command route c) [
    | inl (shut, e) ↦ subst (λ p. IsSound p.0.callbacks) (sym e) s
    | inr (inl (_, bad, e)) ↦ absurd (known bad)
    | inr (inr (_, (c', ref, e, sent))) ↦
        subst (λ p. IsSound p.0.callbacks) (sym e) (Sent-IsSound command route c c' ref sent s)
  ]

  pub start_write_task-callbacks :
      (c : Client V) → (start_write_task serialize c).callbacks ≡ c.callbacks
  unfolding start_write_task
  start_write_task-callbacks c = elim (List-cases c.write_tasks) [
    | inl e ↦ rw (e, start_write_task) refl
    | inr (r, rest, e) ↦ rw (e, start_write_task) refl
  ]

  -- In every client that is reached without a response that ends the reader, the callback indexes
  -- and the futures are in order: the free indexes and those in use are together 0, 1, … up to their
  -- number, each once; every future in the dictionary exists and is in it under one index; and no
  -- pending future is missing from it.
  pub Reached-IsSound : (c : Client V) → Reached c → IsSound c.callbacks
  Reached-IsSound c (connected request) = connected-IsSound request
  Reached-IsSound c (called command route known h) =
      send-IsSound command route _ known (Reached-IsSound _ h)
  Reached-IsSound c (cancelled_call ref h) = cancel-IsSound ref _ (Reached-IsSound _ h)
  Reached-IsSound c (write_started h) =
      subst IsSound (sym (start_write_task-callbacks _)) (Reached-IsSound _ h)
  Reached-IsSound c (drained _ h) = Reached-IsSound _ h
  Reached-IsSound c (drain_raised _ h) = Reached-IsSound _ h
  Reached-IsSound c (answered response e h) =
      Completed-IsSound value_from_pointer _ response c
        (handle_response-Completed value_from_pointer _ response c e) (Reached-IsSound _ h)
  Reached-IsSound c (closed err_message h) = close-IsSound err_message _ (Reached-IsSound _ h)
