-- ===== src/Client/Session/Requests.antt =====
-- What the core reads of the requests of a session.
use glide_for_redis.Common.{
  ℕ, ◌≡◌, refl, sym, ap, subst, ◌∙◌, Option, List, [], ◌∷◌, ◌++◌, append-nil, append_assoc, All,
}
use glide_for_redis.Protocol.{
  ConnectionRequest, TRequest, connection_request, Response, ResponseValue,
}
use glide_for_redis.Stream.{Handled, reading, reader_loop}
use glide_for_redis.Stream.Chunks.{concat, NonEmpty}
use glide_for_redis.Stream.Frames.{
  IsPartial-decode, IsSendable, frames-append, nothing, reader_loop-handle_all,
}
use glide_for_redis.Stream.Cuts.{frames-Cut}
use glide_for_redis.Client.Writer.Delivery.{stream, Run-stream, collect, handle_all-collect}
use glide_for_redis.Client.Session.{Session, Happened}
use glide_for_redis.Client.Session.Replies.{All-front}
use glide_for_redis.Client.Session.Underway.{sent_requests, Underway, Happened-Underway}
use glide_for_redis.Codec.{raised, partial_message, decode_delimited}

module _ {V : Type 0} (value_from_pointer : ℕ → Option V) (parse : List ℕ → Option Response)
    (serialize_response : Response → List ℕ) (parse_request : List ℕ → Option TRequest)
    (serialize : TRequest → List ℕ) (answer : ℕ → Option ResponseValue) where
  -- All requests, on the socket or on their way to it.
  all_requests :
      (request : ConnectionRequest) (s : Session V)
      → Underway value_from_pointer parse serialize_response parse_request serialize answer request
          s
      → stream parse_request serialize (connection_request request ∷ sent_requests s.requests)
        ≡ s.client.writer.written
          ++ stream parse_request serialize
              (s.client.writer.buffered_requests ++ s.client.write_tasks)
  all_requests request s u =
      ap (stream parse_request serialize) (sym u.in_order)
      ∙ frames-append parse_request serialize u.submitted s.client.write_tasks
      ∙ ap (λ (l : List ℕ). l ++ stream parse_request serialize s.client.write_tasks)
          (sym (Run-stream parse_request serialize u.run))
      ∙ append_assoc s.client.writer.written _ _
      ∙ ap (◌++◌ s.client.writer.written) (
          sym (
            frames-append parse_request serialize s.client.writer.buffered_requests
              s.client.write_tasks))

  all_written :
      (request : ConnectionRequest) (s : Session V)
      → s.client.write_tasks ≡ []
      → s.client.writer.buffered_requests ≡ []
      → Underway value_from_pointer parse serialize_response parse_request serialize answer request
          s
      → s.client.writer.written
        ≡ stream parse_request serialize (connection_request request ∷ sent_requests s.requests)
  all_written request s no_task none_buffered u =
      sym (append-nil s.client.writer.written)
      ∙ ap (λ (l : List TRequest). s.client.writer.written ++ stream parse_request serialize l)
          (sym (ap (λ (l : List TRequest). l ++ s.client.write_tasks) none_buffered ∙ no_task))
      ∙ sym (all_requests request s u)

  -- The bytes that are still to come for the calls of a session.
  abbrev pub to_come : Session V → List ℕ
  to_come s =
      stream parse_request serialize (s.client.writer.buffered_requests ++ s.client.write_tasks)

  -- At any moment of a session, whatever front of the bytes that the client has written the core has
  -- read, in any non-empty pieces: read by the codec's decoder it is a front of the connection request
  -- and the requests of the calls, in the order of the calls, and bytes that the decoder finds
  -- partial; these, the written bytes that are not read yet and the encodings of the requests that
  -- are buffered or in tasks are together the encodings of the other requests. Protobuf has to read
  -- each of the requests back, and each has to be shorter than 2 ^ 32 bytes.
  pub core_reads_front :
      (request : ConnectionRequest) (s : Session V) (chunks : List (List ℕ)) (rest : List ℕ)
      (on_end : List TRequest → Handled (List TRequest) (Unit {0}))
      → Happened value_from_pointer parse serialize_response serialize answer request s
      → All
          (IsSendable parse_request serialize)
          (connection_request request ∷ sent_requests s.requests)
      → All NonEmpty chunks
      → s.client.writer.written ≡ concat chunks ++ rest
      → (got : List TRequest) × (others : List TRequest) × (left : List ℕ) × (reader_loop
            parse_request
            (collect parse_request serialize)
            on_end
            chunks
            (reading [] [])
          ≡ reading got left)
        × (connection_request request ∷ sent_requests s.requests ≡ got ++ others)
        × (decode_delimited parse_request left 0 ≡ raised partial_message)
        × (left ++ (rest ++ to_come s) ≡ stream parse_request serialize others)
  core_reads_front request s chunks rest on_end happened sendable full e =
      let cut =
        frames-Cut parse_request serialize (connection_request request ∷ sent_requests s.requests)
          (concat chunks) _ sendable
          (all_requests request s (
              Happened-Underway value_from_pointer parse serialize_response parse_request serialize
                answer request s happened)
            ∙ ap (λ (l : List ℕ). l ++ to_come s) e
            ∙ append_assoc (concat chunks) rest _) in
      (
        cut.here,
        cut.there,
        cut.left,
        reader_loop-handle_all parse_request serialize (collect parse_request serialize) on_end []
              cut.here cut.left chunks
              (All-front (IsSendable parse_request serialize) cut.here cut.there
                (subst (All (IsSendable parse_request serialize)) cut.messages sendable))
              cut.partial full cut.before
            ∙ handle_all-collect parse_request serialize cut.left [] cut.here,
        cut.messages,
        IsPartial-decode parse_request serialize (collect parse_request serialize) on_end cut.left
            cut.partial,
        cut.after,
      )

  -- When every write task has started and nothing is buffered, a core that has read all the bytes that
  -- the client has written has got the connection request and the request of every call, each once
  -- and in the order of the calls, under the same conditions.
  pub core_reads_requests :
      (request : ConnectionRequest) (s : Session V) (chunks : List (List ℕ))
      (on_end : List TRequest → Handled (List TRequest) (Unit {0}))
      → Happened value_from_pointer parse serialize_response serialize answer request s
      → s.client.write_tasks ≡ []
      → s.client.writer.buffered_requests ≡ []
      → All
          (IsSendable parse_request serialize)
          (connection_request request ∷ sent_requests s.requests)
      → All NonEmpty chunks
      → concat chunks ≡ s.client.writer.written
      → reader_loop parse_request (collect parse_request serialize) on_end chunks (reading [] [])
        ≡ reading (connection_request request ∷ sent_requests s.requests) []
  core_reads_requests request s chunks on_end happened no_task none_buffered sendable full e =
      reader_loop-handle_all parse_request serialize (collect parse_request serialize) on_end []
        (connection_request request ∷ sent_requests s.requests) [] chunks sendable (nothing refl)
        full
        (e
          ∙ all_written request s no_task none_buffered (
              Happened-Underway value_from_pointer parse serialize_response parse_request serialize
                answer request s happened)
          ∙ sym (append-nil _))
      ∙ handle_all-collect parse_request serialize [] []
          (connection_request request ∷ sent_requests s.requests)
