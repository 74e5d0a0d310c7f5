-- ===== src/Client/Session/Progress.antt =====
-- That a session can always go on until every call has its answer.
use glide_for_redis.Common.{
  ◌≢◌, ℕ, ◌≡◌, refl, sym, ap, subst, ◌∙◌, false, Option, some, List, [], ◌∷◌, append-nil, All,
  get_elem?, List-cases, Bool-cases, inl, inr, arith,
}
use glide_for_redis.Protocol.{RedisRequest, ConnectionRequest, TRequest, Response, ResponseValue}
use glide_for_redis.Stream.Chunks.{NonEmpty}
use glide_for_redis.Client.Writer.{
  Writer, write_loop, write_buffered_requests_to_socket, write_or_buffer_request,
}
use glide_for_redis.Client.State.{send, Client, start_write_task}
use glide_for_redis.Client.Session
use glide_for_redis.Client.Session.{
  Session, Step, Later, no_step, one_more, Happened, IsGood, connected_session,
}
use glide_for_redis.Client.Session.Invariant.{HasAnswer}
use glide_for_redis.Client.Session.Steps.{read_on}
use glide_for_redis.Client.Session.Answers.{Sound, Later-Holds, Happened-Holds, all_calls_answered}
use glide_for_redis.Client.Session.Asked.{HasRequest, Asked, Later-Asked}
use glide_for_redis.Routes.{Route, other_route}
use glide_for_redis.Client.Sending.{send_cases}
use glide_for_redis.Protocol.{RequestCommand}
use glide_for_redis.Exceptions.{Outcome}

module _ {V : Type 0} (value_from_pointer : ℕ → Option V) (parse : List ℕ → Option Response)
    (serialize_response : Response → List ℕ) (serialize : TRequest → List ℕ)
    (answer : ℕ → Option ResponseValue) where
  abbrev Next : Session V → Session V → Type 0
  Next = Step value_from_pointer parse serialize_response serialize answer

  abbrev Leads : Session V → Session V → Type 0
  Leads = Later value_from_pointer parse serialize_response serialize answer

  abbrev IsFine : ℕ → RedisRequest → Type 0
  IsFine = IsGood value_from_pointer parse serialize_response serialize answer

  abbrev Holding : Session V → Type 0
  Holding = Sound value_from_pointer parse serialize_response serialize answer

  Later-trans : {s t u : Session V} → Leads s t → Leads t u → Leads s u
  Later-trans first no_step = first
  Later-trans first (one_more step before) = one_more step (Later-trans first before)

  -- On an open client, every call with no route or one of a known class is a step of the session.
  call-Step :
      (s : Session V) (command : RequestCommand) (route : Option Route)
      → s.client.is_closed ≡ false
      → route ≢ some other_route
      → (t : Session V) × Next s t × (t.client ≡ (send command route s.client).0)
  call-Step s command route is_open known = elim (send_cases command route s.client) [
    | inl (closed, e) ↦ cc (is_open, closed)
    | inr (inl (_, bad, e)) ↦ absurd (known bad)
    | inr (inr (_, (c, ref, e, sent))) ↦ (
      _,
      Session.called command route c ref e sent,
      ap (λ (x : Client V × Outcome ℕ). x.0) (sym e),
    )
  ]

  -- Nobody leaves a request behind: if the lock is free, the buffer is empty.
  abbrev pub IsTended : Session V → Type 0
  IsTended s = s.client.writer.writer_lock ≡ false → s.client.writer.buffered_requests ≡ []

  -- What the writer can do, callbacks and answers apart.
  record Written (s : Session V) : Type 0 where
    client : Client V
    leads : Leads s (record s { client = client })
    started : client.write_tasks ≡ []
    emptied : client.writer.buffered_requests ≡ []

  write_loop-buffered : (w : Writer) → (write_loop serialize w).buffered_requests ≡ []
  unfolding write_loop write_buffered_requests_to_socket
  write_loop-buffered w = elim (List-cases w.buffered_requests) [
    | inl e ↦ ground (arith, e)
    | inr (x, xs, e) ↦ ground (arith, e)
  ]

  write-IsTended :
      (w : Writer) (r : TRequest)
      → (write_or_buffer_request serialize w r).writer_lock ≡ false
      → (write_or_buffer_request serialize w r).buffered_requests ≡ []
  unfolding write_or_buffer_request
  write-IsTended w r free = elim (Bool-cases w.writer_lock) [
    | inl e ↦ cc (e, free)
    | inr e ↦ rw (e, write_or_buffer_request, write_loop-buffered _) refl
  ]

  flush : (s : Session V) → s.client.write_tasks ≡ [] → IsTended s → Written s
  flush s e tended = elim (Bool-cases s.client.writer.writer_lock) [
    | inl lock ↦ record {
      client = record (s.client) { writer = write_loop serialize s.client.writer };
      leads = one_more (Session.drained lock) no_step;
      started = e;
      emptied = write_loop-buffered s.client.writer;
    }
    | inr free ↦ record { client = s.client; leads = no_step; started = e; emptied = tended free }
  ]

  start_write_task-cons :
      (r : TRequest) (rest : List TRequest) (c : Client V)
      → c.write_tasks ≡ r ∷ rest
      → start_write_task serialize c
        ≡ record c { write_tasks = rest; writer = write_or_buffer_request serialize c.writer r }
  unfolding start_write_task
  start_write_task-cons r rest c e = rw (e, start_write_task) refl

  -- All write tasks start, and then the task that holds the lock writes.
  start_each :
      (tasks : List TRequest) (s : Session V)
      → s.client.write_tasks ≡ tasks
      → IsTended s
      → Written s
  start_each [] s e tended = flush s e tended
  start_each (r ∷ rest) s e tended =
      let next = start_write_task-cons r rest s.client e in
      let w =
        start_each rest (record s { client = start_write_task serialize s.client })
          (ap (λ (c : Client V). c.write_tasks) next)
          (subst (λ (c : Client V). c.writer.writer_lock ≡ false → c.writer.buffered_requests ≡ [])
            (sym next) (write-IsTended s.client.writer r)) in
      record {
        client = w.client;
        leads = Later-trans (one_more Session.write_started no_step) w.leads;
        started = w.started;
        emptied = w.emptied;
      }

  -- The core answers what it has not answered.
  record Served (s : Session V) : Type 0 where
    inbound : List ℕ
    leads : Leads s (record s { unanswered = []; inbound = inbound })

  answer_each :
      (places : List ℕ) (s : Session V)
      → s.unanswered ≡ places
      → All (HasRequest s.requests) places
      → ((place : ℕ) (q : RedisRequest)
          → get_elem? s.requests place ≡ some (some q)
          → IsFine place q)
      → Served s
  answer_each [] s e h fine = record {
    inbound = s.inbound;
    leads = subst (λ (l : List ℕ). Leads s (record s { unanswered = l })) e no_step;
  }
  answer_each (place ∷ places) s e ((q, at), hs) fine =
      let step = Session.core_answers [] places place q e at (fine place q at) in
      let rest = answer_each places _ refl hs fine in
      record { inbound = rest.inbound; leads = Later-trans (one_more step no_step) rest.leads }

  -- The client reads all that is on its way, at once.
  record Received (s : Session V) : Type 0 where
    client : Client V
    remaining : List ℕ
    leads : Leads s (record s { client = client; remaining = remaining; inbound = [] })

  read_inbound : (s : Session V) → Holding s → Received s
  read_inbound s h = elim (List-cases s.inbound) [
    | inl e ↦ record {
      client = s.client;
      remaining = s.remaining;
      leads = subst (λ (l : List ℕ). Leads s (record s { inbound = l })) e no_step;
    }
    | inr (b, bs, e) ↦
        let all = e ∙ sym (append-nil (b ∷ bs)) in
        let full : NonEmpty (b ∷ bs) = λ f. cc f in
        let r =
          read_on value_from_pointer parse serialize_response serialize answer s (b ∷ bs) [] full
            all h in
        record {
          client = r.client;
          remaining = r.left;
          leads =
              one_more (Session.client_reads (b ∷ bs) [] r.client r.left full all r.reads) no_step;
        }
  ]

  connected-Asked :
      (request : ConnectionRequest)
      → Asked
          (connected_session value_from_pointer parse serialize_response serialize answer request)
  connected-Asked request = tt

  -- Any session can go on until every call has its answer, first on the client's side alone and then
  -- with the core: the write tasks start and the buffer is written, and then the core answers every
  -- call and the client reads the answers, so that each call gets the outcome of its own answer. The writer's lock must be held or its buffer empty, as they are while `drain` does not fail,
  -- and the answers to the calls must be sendable, no closing errors, and have values that decode.
  pub all_can_be_answered :
      (request : ConnectionRequest) (s : Session V)
      → Happened value_from_pointer parse serialize_response serialize answer request s
      → IsTended s
      → ((place : ℕ) (q : RedisRequest)
          → get_elem? s.requests place ≡ some (some q)
          → IsFine place q)
      → (c : Client V) × (s' : Session V) × Leads s (record s { client = c })
        × (c.write_tasks ≡ [])
        × (c.writer.buffered_requests ≡ [])
        × Leads (record s { client = c }) s'
        × (s'.requests ≡ s.requests)
        × ((place : ℕ) (q : RedisRequest)
            → get_elem? s.requests place ≡ some (some q)
            → HasAnswer value_from_pointer answer s'.client.callbacks place)
  all_can_be_answered request s happened tended fine =
      let w = start_each s.client.write_tasks s refl tended in
      let s1 : Session V = record s { client = w.client } in
      let start =
        Happened-Holds value_from_pointer parse serialize_response serialize answer request s
          happened in
      let asked =
        Later-Asked value_from_pointer parse serialize_response serialize answer happened
          (Happened-Holds value_from_pointer parse serialize_response serialize answer request _
            no_step)
          (connected-Asked request) in
      let v = answer_each s.unanswered s1 refl asked fine in
      let s2 : Session V = record s1 { unanswered = []; inbound = v.inbound } in
      let to_s2 = Later-trans w.leads v.leads in
      let r =
        read_inbound s2
          (Later-Holds value_from_pointer parse serialize_response serialize answer to_s2 start) in
      let s3 : Session V = record s2 { client = r.client; remaining = r.remaining; inbound = [] } in
      (
        w.client,
        s3,
        w.leads,
        w.started,
        w.emptied,
        Later-trans v.leads r.leads,
        refl,
        λ place q at.
            all_calls_answered value_from_pointer parse serialize_response serialize answer request
              s3 place q (Later-trans happened (Later-trans to_s2 r.leads)) refl refl at,
      )
