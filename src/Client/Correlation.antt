-- ===== src/Client/Correlation.antt =====
-- A call and its answer, with whatever other calls and answers come between.
use glide_for_redis.Common.{
  ℕ, ◌≤◌, ◌≡◌, ◌≢◌, refl, sym, ap, subst, ◌∙◌, true, false, Option, none, some, List, [], ◌∷◌,
  get_elem?, set, ◌==◌, if◌then◌else◌, Bool-cases, inl, inr, arith,
}
use glide_for_redis.Exceptions.{returned, raised}
use glide_for_redis.Protocol.{RequestCommand, TRequest, Response}
use glide_for_redis.Routes.{Route, other_route}
use glide_for_redis.Stream.{carry_on}
use glide_for_redis.Client.Callbacks.{
  Future, Dict, dict_get, dict_remove, dict_values, Callbacks, get_future, is_pending, cancel,
  cancelled,
}
use glide_for_redis.Client.Writer.{write_loop, drain_failed}
use glide_for_redis.Client.State.{TResult, Client, send, start_write_task}
use glide_for_redis.Client.Reader.{future_of, handle_response}
use glide_for_redis.Client.Slots.{occurrences}
use glide_for_redis.Client.Futures.{
  Tracked, is_pending-append, is_pending-set, get_elem?-set_pending,
}
use glide_for_redis.Client.Invariant.{
  IsSound, Completed, handle_response-Completed, Completed-IsSound, future_of-is_done,
}
use glide_for_redis.Client.Answers.{is_closing, answered, handle_response-future_of}
use glide_for_redis.Client.Sending.{
  next_index, taken, taken-store, Sent, send_cases, send_in_flight,
}
use glide_for_redis.Client.History.{
  Reached, Reached-IsSound, cancel-IsSound, start_write_task-callbacks,
}

pub dict_get-dict_remove :
    (i k : ℕ) (d : Dict) → k ≢ i → dict_get i (dict_remove k d) ≡ dict_get i d
unfolding dict_get dict_remove
dict_get-dict_remove i k [] h = refl
dict_get-dict_remove i k ((j, r) ∷ d) h = ground (arith, h, dict_get-dict_remove i k d)

values-one : (k ref : ℕ) (d : Dict) → dict_get k d ≡ some ref → 1 ≤ occurrences ref (dict_values d)
unfolding dict_get
values-one k ref [] h = absurd (ground (arith, h))
values-one k ref ((i, r) ∷ d) h = ground (arith, h, values-one k ref d)

-- A future under two indexes is in the dictionary twice.
values-two :
    (i k ref : ℕ) (d : Dict)
    → k ≢ i
    → dict_get i d ≡ some ref
    → dict_get k d ≡ some ref
    → 2 ≤ occurrences ref (dict_values d)
unfolding dict_get
values-two i k ref [] h a b = absurd (ground (arith, a))
values-two i k ref ((j, r) ∷ d) h a b =
    ground (arith, h, a, b, values-two i k ref d, values-one i ref d, values-one k ref d)

pub same_return {ℓ} : {A : Type ℓ} {a b : A} → returned a ≡ returned b → a ≡ b
same_return {a = a} e = ap (λ o. elim o [ returned x ↦ x | raised _ ↦ a ]) e

module _ {V : Type 0} (value_from_pointer : ℕ → Option V) (serialize : TRequest → List ℕ) where
  -- What other tasks can do to a client while the call at index `i` waits for the future at `ref`:
  -- everything but answer that index, cancel that call, close the client or end the reader.
  pub data Between (i ref : ℕ) (start : Client V) : Client V → Type 0 where
    at_once : Between i ref start start
    called :
        {c : Client V} (command : RequestCommand) (route : Option Route)
        → route ≢ some other_route
        → Between i ref start c
        → Between i ref start (send command route c).0
    cancelled_call :
        {c : Client V} (other : ℕ)
        → other ≢ ref
        → Between i ref start c
        → Between i ref start (record c { callbacks = cancel other c.callbacks })
    write_started :
        {c : Client V} → Between i ref start c → Between i ref start (start_write_task serialize c)
    drained :
        {c : Client V}
        → c.writer.writer_lock ≡ true
        → Between i ref start c
        → Between i ref start (record c { writer = write_loop serialize c.writer })
    drain_raised :
        {c : Client V}
        → c.writer.writer_lock ≡ true
        → Between i ref start c
        → Between i ref start (record c { writer = drain_failed c.writer })
    other_answered :
        {c c' : Client V} (response : Response)
        → response.callback_idx ≢ i
        → handle_response value_from_pointer c response ≡ carry_on c'
        → Between i ref start c
        → Between i ref start c'

  -- The call still waits.
  record Waits (i ref : ℕ) (k : Callbacks (TResult V)) : Type 0 where
    sound : IsSound k
    in_flight : dict_get i k.available_futures ≡ some ref
    waiting : is_pending k.store ref ≡ true

  pending-get_future :
      (j ref : ℕ) (k : Callbacks (TResult V))
      → is_pending k.store ref ≡ true
      → is_pending (get_future j k).0.store ref ≡ true
  unfolding get_future
  pending-get_future j ref k h = ground (arith, h, is_pending-append k.store ref)

  Sent-Waits :
      (i ref : ℕ) (command : RequestCommand) (route : Option Route) (c c' : Client V) (new : ℕ)
      → Sent command route c c' new
      → dict_get i c'.callbacks.available_futures ≡ dict_get i c.callbacks.available_futures
      → IsSound c'.callbacks
      → Waits i ref c.callbacks
      → Waits i ref c'.callbacks
  Sent-Waits i ref command route c c' new sent same s w = record {
    sound = s;
    in_flight = same ∙ w.in_flight;
    waiting =
        ap (λ (x : Client V). is_pending x.callbacks.store ref) sent.after
        ∙ pending-get_future (next_index c) ref (taken c)
            (ap (λ l. is_pending l ref) (taken-store c) ∙ w.waiting);
  }

  other_key : (n i ref : ℕ) (d : Dict) → dict_get n d ≡ none → dict_get i d ≡ some ref → n ≢ i
  other_key n i ref d a b e = absurd (ground (arith, sym a ∙ ap (λ k. dict_get k d) e ∙ b))

  send-Waits :
      (i ref : ℕ) (command : RequestCommand) (route : Option Route) (c : Client V)
      → route ≢ some other_route
      → Waits i ref c.callbacks
      → Waits i ref (send command route c).0.callbacks
  send-Waits i ref command route c known w = elim (send_cases command route c) [
    | inl (shut, e) ↦ subst (λ p. Waits i ref p.0.callbacks) (sym e) w
    | inr (inl (_, bad, e)) ↦ absurd (known bad)
    | inr (inr (open_, _)) ↦
        let (c', new, e, sent, free, keys, _, s) =
          send_in_flight command route c w.sound open_ known in
        subst (λ p. Waits i ref p.0.callbacks) (sym e)
          (Sent-Waits i ref command route c c' new sent
            (ground (
              arith,
              keys i,
              w.in_flight,
              other_key (next_index c) i ref c.callbacks.available_futures free,
            ))
            s w)
  ]

  cancel-Waits :
      (i ref other : ℕ) (k : Callbacks (TResult V))
      → other ≢ ref
      → Waits i ref k
      → Waits i ref (cancel other k)
  unfolding cancel
  cancel-Waits i ref other k h w = elim (Bool-cases (is_pending k.store other)) [
    | inl p ↦ record {
      sound = cancel-IsSound value_from_pointer serialize other k w.sound;
      in_flight = rw (p, cancel) w.in_flight;
      waiting =
          rw (p, cancel)
            (ground (arith, h, w.waiting, is_pending-set k.store other ref cancelled refl));
    }
    | inr n ↦ rw (n, cancel) w
  ]

  other_future :
      (i k ref other : ℕ) (c : Callbacks (TResult V))
      → k ≢ i
      → Tracked c
      → dict_get i c.available_futures ≡ some ref
      → dict_get k c.available_futures ≡ some other
      → other ≢ ref
  other_future i k ref other c h t a b e =
      ground (arith, t.once ref, values-two i k ref c.available_futures h a (b ∙ ap some e))

  Completed-Waits :
      (i ref : ℕ) (r : Response) (c c' : Client V)
      → r.callback_idx ≢ i
      → Completed value_from_pointer c r c'
      → Waits i ref c.callbacks
      → Waits i ref c'.callbacks
  Completed-Waits i ref r c c' h d w = record {
    sound = Completed-IsSound value_from_pointer c r c' d w.sound;
    in_flight =
        ap (λ (x : Client V). dict_get i x.callbacks.available_futures) d.after
        ∙ dict_get-dict_remove i r.callback_idx c.callbacks.available_futures h
        ∙ w.in_flight;
    waiting =
        ap (λ (x : Client V). is_pending x.callbacks.store ref) d.after
        ∙ ground (
          arith,
          w.waiting,
          other_future i r.callback_idx ref d.res_future c.callbacks h w.sound.tracked w.in_flight
              d.in_flight,
          is_pending-set c.callbacks.store d.res_future ref d.outcome
              (future_of-is_done value_from_pointer r.value d.outcome d.answer),
        );
  }

  Between-Waits :
      (i ref : ℕ) (c c' : Client V)
      → Waits i ref c.callbacks
      → Between i ref c c'
      → Waits i ref c'.callbacks
  Between-Waits i ref c c' w at_once = w
  Between-Waits i ref c c' w (called command route known b) =
      send-Waits i ref command route _ known (Between-Waits i ref c _ w b)
  Between-Waits i ref c c' w (cancelled_call other h b) =
      cancel-Waits i ref other _ h (Between-Waits i ref c _ w b)
  Between-Waits i ref c c' w (write_started b) =
      subst (Waits i ref) (sym (start_write_task-callbacks value_from_pointer serialize _))
        (Between-Waits i ref c _ w b)
  Between-Waits i ref c c' w (drained _ b) = Between-Waits i ref c _ w b
  Between-Waits i ref c c' w (drain_raised _ b) = Between-Waits i ref c _ w b
  Between-Waits i ref c c' w (other_answered r h e b) =
      Completed-Waits i ref r _ c' h (handle_response-Completed value_from_pointer _ r c' e)
        (Between-Waits i ref c _ w b)

  call-Waits :
      (command : RequestCommand) (route : Option Route) (c c1 : Client V) (ref : ℕ)
      → IsSound c.callbacks
      → route ≢ some other_route
      → send command route c ≡ (c1, returned ref)
      → Waits (next_index c) ref c1.callbacks
  call-Waits command route c c1 ref s known e = elim (send_cases command route c) [
    | inl (shut, k) ↦ absurd (ground (arith, sym k ∙ e))
    | inr (inl (_, bad, k)) ↦ absurd (known bad)
    | inr (inr (open_, _)) ↦
        let (c', new, k, _, _, keys, waits, sound) = send_in_flight command route c s open_ known in
        let same = sym k ∙ e in
        subst (λ (x : Client V). Waits (next_index c) ref x.callbacks) (ap (λ p. p.0) same)
          (subst (λ r. Waits (next_index c) r c'.callbacks) (same_return (ap (λ p. p.1) same))
            (record {
              sound = sound;
              in_flight = ground (arith, keys (next_index c));
              waiting = waits;
            }))
  ]

  -- On a client that `create` and the tasks lead to, a call that has gone out waits for the future at
  -- `ref`. Whatever other tasks then do, as long as no response for its index has come, the call has
  -- not been cancelled, and neither `close` nor an exception has ended the client, the next response
  -- with its index gives this future its outcome,
  -- and no other.
  pub answer_reaches_caller :
      (command : RequestCommand) (route : Option Route) (c c1 c2 : Client V) (ref : ℕ)
      (r : Response) (f : Future (TResult V))
      → Reached value_from_pointer serialize c
      → route ≢ some other_route
      → send command route c ≡ (c1, returned ref)
      → Between (next_index c) ref c1 c2
      → r.callback_idx ≡ next_index c
      → is_closing r.value ≡ false
      → future_of value_from_pointer r.value ≡ returned f
      → (c3 : Client V) × (handle_response value_from_pointer c2 r ≡ carry_on c3)
        × ((place : ℕ)
            → get_elem? c3.callbacks.store place
              ≡ (if ref == place then some f else get_elem? c2.callbacks.store place))
  answer_reaches_caller command route c c1 c2 ref r f reached known sent between i plain value =
      let s = Reached-IsSound value_from_pointer serialize c reached in
      let w =
        Between-Waits (next_index c) ref c1 c2 (call-Waits command route c c1 ref s known sent)
          between in
      elim (handle_response-future_of value_from_pointer c2 r ref
        (ap (λ k. dict_get k c2.callbacks.available_futures) i ∙ w.in_flight) plain) [
          | inl (f', a, p, e) ↦ (
            answered value_from_pointer r.callback_idx ref f' c2,
            e,
            λ place.
                ap (λ g. get_elem? (set c2.callbacks.store ref g) place)
                  (same_return (sym a ∙ value))
                ∙ get_elem?-set_pending c2.callbacks.store ref place f p,
          )
          | inr (inl (f', a, n, e)) ↦ absurd (ground (arith, n, w.waiting))
          | inr (inr (x, a, e)) ↦ absurd (ground (arith, sym a ∙ value))
        ]
