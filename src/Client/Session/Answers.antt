-- ===== src/Client/Session/Answers.antt =====
-- What the callers of a session get.
use glide_for_redis.Common.{
  ℕ, zero, suc, ◌≡◌, ◌≢◌, refl, sym, ap, subst, ◌∙◌, true, Option, none, some, List, [], ◌∷◌, ◌++◌,
  append-nil, All, get_elem?, ◌⊎◌, inl, inr, Bool-cases, if◌then◌else◌, arith,
}
use glide_for_redis.Protocol.{RedisRequest, ConnectionRequest, TRequest, Response, ResponseValue}
use glide_for_redis.Codec.{raised, partial_message, decode_delimited}
use glide_for_redis.Codec.Delimited.{delimited_nil}
use glide_for_redis.Stream.{reading, on_read}
use glide_for_redis.Stream.Chunks.{NonEmpty}
use glide_for_redis.Stream.Frames.{first_frame}
use glide_for_redis.Client.Callbacks.{result, is_pending, get_future}
use glide_for_redis.Client.State.{TResult, ok_result, Client}
use glide_for_redis.Client.Reader.{
  handle_response, on_eof, create_uds_connection, start_reader, set_connection_configurations,
}
use glide_for_redis.Client.Slots.{occurrences}
use glide_for_redis.Client.History.{Reached-IsSound, start_write_task-callbacks}
use glide_for_redis.Client.Create.Answer.{answered-Reached}
use glide_for_redis.Client.Session.{
  Session, Step, Later, no_step, one_more, Happened, called, write_started, drained, drain_raised,
  core_answers, client_reads, connected_session,
}
use glide_for_redis.Client.Session.Invariant.{Books, HasAnswer}
use glide_for_redis.Client.Session.Steps.{
  IsReply, Bytes, Holds, ReadOn, read_on, call-Holds, answer-Holds,
}
use glide_for_redis.Client.Session.Replies.{Replied, places}

module _ {V : Type 0} (value_from_pointer : ℕ → Option V) (parse : List ℕ → Option Response)
    (serialize_response : Response → List ℕ) (serialize : TRequest → List ℕ)
    (answer : ℕ → Option ResponseValue) where
  abbrev pub Sound : Session V → Type 0
  Sound = Holds value_from_pointer parse serialize_response serialize answer

  connected-Holds :
      (request : ConnectionRequest)
      → Sound
          (connected_session value_from_pointer parse serialize_response serialize answer request)
  unfolding create_uds_connection set_connection_configurations get_future start_reader
  connected-Holds request = record {
    replied = [];
    books = record {
      sound = Reached-IsSound value_from_pointer serialize _ (
          answered-Reached value_from_pointer (λ v. "") parse serialize_response serialize request);
      sized = refl;
      counted = λ p. none_pending p;
      keyed = λ p q at waits. absurd (no_request p q at);
      settled = λ p q at done. absurd (no_request p q at);
    };
    replies = tt;
    bytes = refl;
    partial = delimited_nil parse;
  }
    where
      none_pending :
          (p : ℕ)
          → occurrences p []
            ≡ (if is_pending {V = TResult V} (result ok_result ∷ []) p then 1 else 0)
      none_pending zero = refl
      none_pending (suc p) = refl

      no_request : (p : ℕ) (q : RedisRequest) → get_elem? (none ∷ []) p ≢ some (some q)
      no_request zero q e = cc
      no_request (suc p) q e = cc

  -- The write tasks and the writer do not matter.
  same_callbacks :
      (s : Session V) (c : Client V)
      → c.callbacks ≡ s.client.callbacks
      → Sound s
      → Sound (record s { client = c })
  same_callbacks s c e h = record {
    replied = h.replied;
    books =
        subst (λ k. Books value_from_pointer answer k s.requests (places h.replied ++ s.unanswered))
          (sym e) h.books;
    replies = h.replies;
    bytes = h.bytes;
    partial = h.partial;
  }

  -- What the read came to is what `read_on` speaks of.
  same_read :
      (s : Session V) (chunk rest : List ℕ) (c : Client V) (left : List ℕ)
      → on_read parse (handle_response value_from_pointer) on_eof s.client s.remaining chunk
        ≡ reading c left
      → ReadOn value_from_pointer parse serialize_response serialize answer s chunk rest
      → Sound (record s { client = c; remaining = left; inbound = rest })
  same_read s chunk rest c left reads r =
      subst
        (λ (x : Client V × List ℕ).
          Sound (record s { client = x.0; remaining = x.1; inbound = rest }))
        (ap (λ x. elim x [ reading c' l ↦ (c', l) | _ ↦ (c, left) ]) (sym r.reads ∙ reads)) r.holds

  pub Step-Holds :
      {s t : Session V}
      → Step value_from_pointer parse serialize_response serialize answer s t
      → Sound s
      → Sound t
  Step-Holds (called command route c ref e sent) h =
      call-Holds value_from_pointer parse serialize_response serialize answer _ command route c ref
        sent h
  Step-Holds write_started h =
      same_callbacks _ _ (start_write_task-callbacks value_from_pointer serialize _) h
  Step-Holds (drained _) h = same_callbacks _ _ refl h
  Step-Holds (drain_raised _) h = same_callbacks _ _ refl h
  Step-Holds (core_answers front back place q e at good) h =
      answer-Holds value_from_pointer parse serialize_response serialize answer _ front back place q
        e at good h
  Step-Holds (client_reads chunk rest c left full e reads) h =
      same_read _ chunk rest c left reads
        (read_on value_from_pointer parse serialize_response serialize answer _ chunk rest full e h)

  pub Later-Holds :
      {s t : Session V}
      → Later value_from_pointer parse serialize_response serialize answer s t
      → Sound s
      → Sound t
  Later-Holds no_step h = h
  Later-Holds (one_more step before) h = Step-Holds step (Later-Holds before h)

  pub Happened-Holds :
      (request : ConnectionRequest) (s : Session V)
      → Happened value_from_pointer parse serialize_response serialize answer request s
      → Sound s
  Happened-Holds request s happened = Later-Holds happened (connected-Holds request)

  -- In any session, however the calls, the answers and the reads interleave: the bytes that come next,
  -- in a piece of any size but none, never end the reader.
  pub reader_goes_on :
      (request : ConnectionRequest) (s : Session V) (chunk rest : List ℕ)
      → Happened value_from_pointer parse serialize_response serialize answer request s
      → NonEmpty chunk
      → s.inbound ≡ chunk ++ rest
      → (c : Client V) × (left : List ℕ) × (on_read parse
            (handle_response value_from_pointer)
            on_eof
            s.client
            s.remaining
            chunk
          ≡ reading c left)
  reader_goes_on request s chunk rest happened full e =
      let r =
        read_on value_from_pointer parse serialize_response serialize answer s chunk rest full e
          (Happened-Holds request s happened) in
      (r.client, r.left, r.reads)

  -- In any session, each call waits or has got the outcome of its own answer, and nothing else: the
  -- value behind the pointer, OK, None, or the error as an exception of its class.
  pub call-HasAnswer :
      (request : ConnectionRequest) (s : Session V) (place : ℕ) (q : RedisRequest)
      → Happened value_from_pointer parse serialize_response serialize answer request s
      → get_elem? s.requests place ≡ some (some q)
      → (is_pending s.client.callbacks.store place ≡ true)
        ⊎ HasAnswer value_from_pointer answer s.client.callbacks place
  call-HasAnswer request s place q happened at =
      let h = Happened-Holds request s happened in
      elim (Bool-cases (is_pending s.client.callbacks.store place)) [
        | inl waits ↦ inl waits
        | inr done ↦ inr (h.books.settled place q at done)
      ]

  -- No reply is left when no bytes are.
  none_left :
      (requests : List (Option RedisRequest)) (replied : Replied) (remaining : List ℕ)
      → All (IsReply value_from_pointer parse serialize_response serialize answer requests) replied
      → Bytes value_from_pointer parse serialize_response serialize answer remaining [] replied
      → decode_delimited parse remaining 0 ≡ raised partial_message
      → replied ≡ []
  none_left requests [] remaining h bytes partial = refl
  none_left requests ((p, q) ∷ replied) remaining ((at, good), hs) bytes partial = absurd (
      ground (
        arith,
        sym (
              first_frame parse serialize_response (handle_response value_from_pointer) on_eof _ _
                good.sendable)
            ∙ ap (λ l. decode_delimited parse l 0) (sym bytes ∙ append-nil remaining)
            ∙ partial,
      ))

  -- When the core has answered every call and the reader has read all its bytes, every call has got
  -- the outcome of its own answer.
  pub all_calls_answered :
      (request : ConnectionRequest) (s : Session V) (place : ℕ) (q : RedisRequest)
      → Happened value_from_pointer parse serialize_response serialize answer request s
      → s.unanswered ≡ []
      → s.inbound ≡ []
      → get_elem? s.requests place ≡ some (some q)
      → HasAnswer value_from_pointer answer s.client.callbacks place
  all_calls_answered request s place q happened no_call no_byte at =
      let h = Happened-Holds request s happened in
      let none_replied =
        none_left s.requests h.replied s.remaining h.replies
          (ap (λ (l : List ℕ). s.remaining ++ l) (sym no_byte) ∙ h.bytes) h.partial in
      h.books.settled place q at (
        ground (
          arith,
          h.books.counted place,
          ap (λ (l : Replied). occurrences place (places l ++ s.unanswered)) none_replied,
          ap (λ (l : List ℕ). occurrences place l) no_call,
        ))
