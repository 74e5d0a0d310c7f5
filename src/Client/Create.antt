-- ===== src/Client/Create.antt =====
-- `create` as a whole, in python/python/glide/redis_client.py.
pub mod Answer
use glide_for_redis.Common.{ℕ, Option, none, some, String, List, get_elem?}
use glide_for_redis.Exceptions.{PyException, Outcome, returned, raised}
use glide_for_redis.Protocol.{ConnectionRequest, TRequest, Response}
use glide_for_redis.Config.{ClientConfiguration}
use glide_for_redis.Stream.{Handled, Reading, reading, ended, undecodable, out_of_rounds}
use glide_for_redis.Client.Callbacks.{Future, pending, result, failed, cancelled}
use glide_for_redis.Client.Writer.{write_loop, drain_failed}
use glide_for_redis.Client.State.{
  TResult, Client, ClientKind, get_protobuf_conn_request, new_client,
}
use glide_for_redis.Client.Reader.{
  client_reader_loop, init_callback, create_uds_connection, start_reader,
  set_connection_configurations, connection_answer,
}

-- What the surroundings of `create` do, in the order in which it meets them: what the listener calls
-- `init_callback` with, what `open_unix_connection` does and the text of its exception, what `drain`
-- does, and the chunks that the reader gets until the connection request is answered.
pub record Surroundings : Type 0 where
  pub socket_path : Option String
  pub err : Option String
  pub open_connection : Outcome (Unit {0})
  pub open_message : String
  pub drain : Outcome (Unit {0})
  pub chunks : List (List ℕ)

-- Where `create` stands then: it still waits, or it has returned or raised and the client is left
-- like this.
pub data Creation (V : Type 0) : Type 0 where
  waits : Creation V
  left : Client V → Outcome (Unit {0}) → Creation V

module _ {V : Type 0} (text : V → String) where
  -- `await response_future`, the result, and the test on it. The cancellation of a future is that
  -- of the task itself, which does not come to this.
  unfoldable pub after_response : ℕ → Client V → Creation V
  after_response response_future self = elim (get_elem? self.callbacks.store response_future) [
    | none ↦ waits
    | some pending ↦ waits
    | some cancelled ↦ waits
    | some (failed e) ↦ left self (raised e)
    | some (result v) ↦ left self (connection_answer text v)
  ]

-- The client when the reader has come to its next read or to its end, whatever ended it.
-- `out_of_rounds` is not reached, and stands for a client that still waits.
abbrev pub client_of : {V E : Type 0} → Client V → Reading (Client V) E → Client V
client_of before (reading c _) = c
client_of before (ended c _) = c
client_of before (undecodable c _) = c
client_of before out_of_rounds = before

module _ {V : Type 0} (value_from_pointer : ℕ → Option V) (text : V → String)
    (parse : List ℕ → Option Response) (serialize : TRequest → List ℕ) where
  -- `await self._set_connection_configurations()`, with the reader task started. When `drain` is
  -- over, the loop of `_write_or_buffer_request` finds the buffer empty, since nobody else has the
  -- client yet, and releases the lock.
  unfoldable pub configure : Outcome ConnectionRequest → Surroundings → Client V → Creation V
  unfolding after_response set_connection_configurations write_loop
  configure (raised e) s self = left self (raised e)
  configure (returned request) s self =
      let (written, response_future) = set_connection_configurations serialize request self in
      elim s.drain [
        | raised e ↦ left (record written { writer = drain_failed written.writer }) (raised e)
        | returned _ ↦
            let unlocked = record written { writer = write_loop serialize written.writer } in
            after_response text response_future
              (client_of unlocked (client_reader_loop value_from_pointer parse s.chunks unlocked))
      ]

  -- `create`. An exception of `init_callback` stays with the listener that calls it (it is dropped
  -- in python/src/lib.rs), so that `init_future` is never set.
  unfoldable pub create : ClientKind → ClientConfiguration → Surroundings → Creation V
  unfolding configure create_uds_connection
  create kind config s = elim (init_callback s.socket_path s.err) [
    | raised e ↦ waits
    | returned path ↦
        let (opened, done) = create_uds_connection s.open_connection s.open_message new_client in
        elim done [
          | raised e ↦ left opened (raised e)
          | returned _ ↦ configure (get_protobuf_conn_request kind config) s (start_reader opened)
        ]
  ]
