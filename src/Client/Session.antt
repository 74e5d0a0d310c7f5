-- ===== src/Client/Session.antt =====
-- A client with the core at the other end of its socket: calls, the bytes of the answers, and the
-- reads that these are cut into, in any order.
pub mod Invariant
pub mod Replies
pub mod Steps
pub mod Answers
pub mod Underway
pub mod Requests
pub mod Asked
pub mod Progress
use glide_for_redis.Common.{ℕ, ◌≡◌, true, false, Option, none, some, List, [], ◌∷◌, ◌++◌, get_elem?}
use glide_for_redis.Exceptions.{returned}
use glide_for_redis.Protocol.{
  RequestCommand, RedisRequest, ConnectionRequest, TRequest, Response, ResponseValue,
}
use glide_for_redis.Routes.{Route}
use glide_for_redis.Codec.Delimited.{frame}
use glide_for_redis.Stream.{reading, on_read}
use glide_for_redis.Stream.Chunks.{NonEmpty}
use glide_for_redis.Stream.Frames.{IsSendable}
use glide_for_redis.Client.Callbacks.{Future, result}
use glide_for_redis.Client.Writer.{write_loop, drain_failed}
use glide_for_redis.Client.State.{TResult, ok_result, Client, send, start_write_task}
use glide_for_redis.Client.Reader.{handle_response, on_eof}
use glide_for_redis.Client.Answers.{IsOutcome, answered}
use glide_for_redis.Client.Sending.{Sent}
use glide_for_redis.Client.History.{configured_client}

-- `remaining` are the bytes that the reader keeps from one read to the next, `inbound` those that
-- the core has sent and that are not read yet. `requests` has the request of the future at each
-- place of the store, none for the connection request's; `unanswered` are the places of the calls
-- that the core has not answered.
pub record Session (V : Type 0) : Type 0 where
  pub client : Client V
  pub remaining : List ℕ
  pub inbound : List ℕ
  pub requests : List (Option RedisRequest)
  pub unanswered : List ℕ

-- `answer` is what the core answers the call with whose future is at a place of the store. Each call
-- has a place of its own, so that the same request may be answered differently each time.
module _ {V : Type 0} (value_from_pointer : ℕ → Option V) (parse : List ℕ → Option Response)
    (serialize_response : Response → List ℕ) (serialize : TRequest → List ℕ)
    (answer : ℕ → Option ResponseValue) where
  abbrev pub reply : ℕ → RedisRequest → Response
  reply place q = record { callback_idx = q.callback_idx; value = answer place }

  -- An answer that is not a closing error, that can be sent, and of which the value decodes.
  pub record IsGood (place : ℕ) (q : RedisRequest) : Type 0 where
    pub sendable : IsSendable parse serialize_response (reply place q)
    pub outcome : Future (TResult V)
    pub decodes : IsOutcome value_from_pointer (answer place) outcome

  -- `create` has returned.
  abbrev pub connected_session : ConnectionRequest → Session V
  connected_session request = record {
    client =
        answered value_from_pointer 0 0 (result ok_result)
          (configured_client value_from_pointer serialize request);
    remaining = [];
    inbound = [];
    requests = none ∷ [];
    unanswered = [];
  }

  -- One step. A call that returns has sent the request that `sent` names. The core may answer any call that it has not answered, in any order; that it has to
  -- have read the request first is not asked for. No call is cancelled, and the client is not closed.
  pub data Step : Session V → Session V → Type 0 where
    called :
        {s : Session V} (command : RequestCommand) (route : Option Route) (c : Client V) (ref : ℕ)
        → send command route s.client ≡ (c, returned ref)
        → (sent : Sent command route s.client c ref)
        → Step s (record s {
          client = c;
          requests = s.requests ++ some sent.request ∷ [];
          unanswered = s.unanswered ++ ref ∷ [];
        })
    write_started :
        {s : Session V} → Step s (record s { client = start_write_task serialize s.client })
    drained :
        {s : Session V}
        → s.client.writer.writer_lock ≡ true
        → Step s (record s {
          client = record (s.client) { writer = write_loop serialize s.client.writer };
        })
    drain_raised :
        {s : Session V}
        → s.client.writer.writer_lock ≡ true
        → Step s (record s { client = record (s.client) { writer = drain_failed s.client.writer } })
    core_answers :
        {s : Session V} (before after : List ℕ) (place : ℕ) (q : RedisRequest)
        → s.unanswered ≡ before ++ place ∷ after
        → get_elem? s.requests place ≡ some (some q)
        → IsGood place q
        → Step s (record s {
          unanswered = before ++ after;
          inbound = s.inbound ++ frame parse serialize_response (reply place q);
        })
    client_reads :
        {s : Session V} (chunk rest : List ℕ) (c : Client V) (left : List ℕ)
        → NonEmpty chunk
        → s.inbound ≡ chunk ++ rest
        → on_read parse (handle_response value_from_pointer) on_eof s.client s.remaining chunk
          ≡ reading c left
        → Step s (record s { client = c; remaining = left; inbound = rest })

  -- What a session can come to.
  pub data Later (s : Session V) : Session V → Type 0 where
    no_step : Later s s
    one_more : {t u : Session V} → Step t u → Later s t → Later s u

  -- What can have happened since `create` returned, with its connection request.
  abbrev pub Happened : ConnectionRequest → Session V → Type 0
  Happened request = Later (connected_session request)
