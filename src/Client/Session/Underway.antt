-- ===== src/Client/Session/Underway.antt =====
-- Where the requests of a session are: submitted to the writer, or in tasks that have not started.
use glide_for_redis.Common.{
  ℕ, ◌≡◌, refl, sym, ap, subst, ◌∙◌, Bool, true, false, Option, none, some, List, [], ◌∷◌, ◌++◌,
  append_assoc, List-cases, inl, inr,
}
use glide_for_redis.Protocol.{
  RedisRequest, ConnectionRequest, TRequest, redis_request, connection_request, Response,
  ResponseValue, RequestCommand,
}
use glide_for_redis.Routes.{Route}
use glide_for_redis.Stream.{reading, on_read}
use glide_for_redis.Client.Callbacks.{get_future}
use glide_for_redis.Client.Writer.{write_or_buffer_request}
use glide_for_redis.Client.Writer.Delivery.{Run, start, submit, drained, fail}
use glide_for_redis.Client.State.{Client, start_write_task}
use glide_for_redis.Client.Reader.{
  create_uds_connection, start_reader, set_connection_configurations, handle_response, on_eof,
}
use glide_for_redis.Client.Sending.{Sent}
use glide_for_redis.Client.Session
use glide_for_redis.Client.Session.{Session, Happened}
use glide_for_redis.Client.Session.Steps.{ReadOn, read_on}
use glide_for_redis.Client.Session.Answers.{Sound, Happened-Holds}

-- The requests of the calls, in the order of the calls.
abbrev pub sent_requests : List (Option RedisRequest) → List TRequest
sent_requests [] = []
sent_requests (none ∷ requests) = sent_requests requests
sent_requests (some q ∷ requests) = redis_request q ∷ sent_requests requests

sent_requests-snoc :
    (requests : List (Option RedisRequest)) (q : RedisRequest)
    → sent_requests (requests ++ some q ∷ []) ≡ sent_requests requests ++ redis_request q ∷ []
sent_requests-snoc [] q = refl
sent_requests-snoc (none ∷ requests) q = sent_requests-snoc requests q
sent_requests-snoc (some r ∷ requests) q =
    ap (◌∷◌ (redis_request r)) (sent_requests-snoc requests q)

module _ {V : Type 0} (value_from_pointer : ℕ → Option V) (parse : List ℕ → Option Response)
    (serialize_response : Response → List ℕ) (parse_request : List ℕ → Option TRequest)
    (serialize : TRequest → List ℕ) (answer : ℕ → Option ResponseValue) where
  -- The requests that have been submitted to the writer, and those whose tasks have not started.
  pub record Underway (request : ConnectionRequest) (s : Session V) : Type 0 where
    pub submitted : List TRequest
    pub failed : Bool
    pub run : Run parse_request serialize failed s.client.writer submitted
    pub in_order :
        submitted ++ s.client.write_tasks ≡ connection_request request ∷ sent_requests s.requests

  connected-Underway :
      (request : ConnectionRequest)
      → Underway request (
          Session.connected_session value_from_pointer parse serialize_response serialize answer
            request)
  unfolding create_uds_connection set_connection_configurations get_future start_reader
      write_or_buffer_request
  connected-Underway request = record {
    submitted = connection_request request ∷ [];
    failed = false;
    run = drained refl (submit (connection_request request) start);
    in_order = refl;
  }

  -- The callbacks do not matter, nor what has been read.
  same_writer :
      (request : ConnectionRequest) (s s' : Session V)
      → s'.client.writer ≡ s.client.writer
      → s'.client.write_tasks ≡ s.client.write_tasks
      → s'.requests ≡ s.requests
      → Underway request s
      → Underway request s'
  same_writer request s s' e f g u = record {
    submitted = u.submitted;
    failed = u.failed;
    run = subst (λ w. Run parse_request serialize u.failed w u.submitted) (sym e) u.run;
    in_order =
        ap (◌++◌ u.submitted) f
        ∙ u.in_order
        ∙ ap (λ l. connection_request request ∷ sent_requests l) (sym g);
  }

  called-Underway :
      (request : ConnectionRequest) (s : Session V) (command : RequestCommand)
      (route : Option Route) (c : Client V) (ref : ℕ) (sent : Sent command route s.client c ref)
      (unanswered : List ℕ)
      → Underway request s
      → Underway request (record s {
        client = c;
        requests = s.requests ++ some sent.request ∷ [];
        unanswered = unanswered;
      })
  called-Underway request s command route c ref sent unanswered u = record {
    submitted = u.submitted;
    failed = u.failed;
    run =
        subst (λ w. Run parse_request serialize u.failed w u.submitted)
          (sym (ap (λ (x : Client V). x.writer) sent.after)) u.run;
    in_order =
        ap (λ (x : Client V). u.submitted ++ x.write_tasks) sent.after
        ∙ sym (append_assoc u.submitted s.client.write_tasks (redis_request sent.request ∷ []))
        ∙ ap (λ (l : List TRequest). l ++ redis_request sent.request ∷ []) u.in_order
        ∙ ap (◌∷◌ (connection_request request)) (sym (sent_requests-snoc s.requests sent.request));
  }

  started-Underway :
      (request : ConnectionRequest) (s : Session V)
      → Underway request s
      → Underway request (record s { client = start_write_task serialize s.client })
  unfolding start_write_task
  started-Underway request s u = elim (List-cases s.client.write_tasks) [
    | inl e ↦ rw (e, start_write_task) u
    | inr (r, rest, e) ↦
        rw (e, start_write_task)
          (record {
            submitted = u.submitted ++ r ∷ [];
            failed = u.failed;
            run = submit r u.run;
            in_order =
                append_assoc u.submitted (r ∷ []) rest ∙ ap (◌++◌ u.submitted) (sym e) ∙ u.in_order;
          })
  ]

  read_keeps :
      (s : Session V) (chunk rest : List ℕ) (c : Client V) (left : List ℕ)
      → on_read parse (handle_response value_from_pointer) on_eof s.client s.remaining chunk
        ≡ reading c left
      → ReadOn value_from_pointer parse serialize_response serialize answer s chunk rest
      → c ≡ record (s.client) { callbacks = c.callbacks }
  read_keeps s chunk rest c left reads r =
      subst (λ (x : Client V). x ≡ record (s.client) { callbacks = x.callbacks })
        (ap (λ x. elim x [ reading c' l ↦ c' | _ ↦ c ]) (sym r.reads ∙ reads)) r.kept

  Step-Underway :
      (request : ConnectionRequest) {s t : Session V}
      → Session.Step value_from_pointer parse serialize_response serialize answer s t
      → Sound value_from_pointer parse serialize_response serialize answer s
      → Underway request s
      → Underway request t
  Step-Underway request (Session.called command route c ref e sent) h u =
      called-Underway request _ command route c ref sent _ u
  Step-Underway request Session.write_started h u = started-Underway request _ u
  Step-Underway request (Session.drained lock) h u = record {
    submitted = u.submitted;
    failed = u.failed;
    run = drained lock u.run;
    in_order = u.in_order;
  }
  Step-Underway request (Session.drain_raised lock) h u = record {
    submitted = u.submitted;
    failed = true;
    run = fail lock u.run;
    in_order = u.in_order;
  }
  Step-Underway request (Session.core_answers front back place q e at good) h u =
      same_writer request _ _ refl refl refl u
  Step-Underway request (Session.client_reads chunk rest c left full e reads) h u =
      let kept = read_keeps _ chunk rest c left reads (
        read_on value_from_pointer parse serialize_response serialize answer _ chunk rest full e
          h) in
      same_writer request _ _ (ap (λ (x : Client V). x.writer) kept)
        (ap (λ (x : Client V). x.write_tasks) kept) refl u

  pub Happened-Underway :
      (request : ConnectionRequest) (s : Session V)
      → Happened value_from_pointer parse serialize_response serialize answer request s
      → Underway request s
  Happened-Underway request _ Session.no_step = connected-Underway request
  Happened-Underway request _ (Session.one_more step before) =
      Step-Underway request step
        (Happened-Holds value_from_pointer parse serialize_response serialize answer request _
          before)
        (Happened-Underway request _ before)
