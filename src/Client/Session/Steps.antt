-- ===== src/Client/Session/Steps.antt =====
-- What holds at any moment of a session, and that every step keeps it.
use glide_for_redis.Common.{
  ℕ, ◌≡◌, refl, sym, ap, subst, ◌∙◌, Option, some, List, [], ◌∷◌, ◌++◌, append-nil, append_assoc,
  get_elem?, get_elem?-snoc_old, All,
}
use glide_for_redis.Protocol.{RequestCommand, RedisRequest, TRequest, Response, ResponseValue}
use glide_for_redis.Codec.{raised, partial_message, decode_delimited}
use glide_for_redis.Codec.Delimited.{frame}
use glide_for_redis.Stream.{reading, on_read}
use glide_for_redis.Stream.Chunks.{NonEmpty, on_read-consume_all}
use glide_for_redis.Stream.Consume.{consume_all}
use glide_for_redis.Stream.Frames.{
  frames, frames-append, IsSendable, IsPartial-decode, handle_all, consume_all-handle_all,
}
use glide_for_redis.Stream.Cuts.{Cut, frames-Cut}
use glide_for_redis.Client.State.{Client}
use glide_for_redis.Client.Reader.{handle_response, on_eof}
use glide_for_redis.Routes.{Route}
use glide_for_redis.Client.Sending.{Sent}
use glide_for_redis.Client.Answers.{answered}
use glide_for_redis.Client.Session.{Session, reply, IsGood}
use glide_for_redis.Client.Session.Invariant.{Books, recount, handled, handled-Books, called-Books}
use glide_for_redis.Client.Session.Replies.{
  Replied, places, regroup, moved, All-append, All-front, All-back, All-imp,
}

module _ {V : Type 0} (value_from_pointer : ℕ → Option V) (parse : List ℕ → Option Response)
    (serialize_response : Response → List ℕ) (serialize : TRequest → List ℕ)
    (answer : ℕ → Option ResponseValue) where
  abbrev Good : ℕ → RedisRequest → Type 0
  Good = IsGood value_from_pointer parse serialize_response serialize answer

  abbrev respond : ℕ → RedisRequest → Response
  respond = reply value_from_pointer parse serialize_response serialize answer

  abbrev pub responses : Replied → List Response
  responses [] = []
  responses ((p, q) ∷ rest) = respond p q ∷ responses rest

  responses-append : (xs ys : Replied) → responses (xs ++ ys) ≡ responses xs ++ responses ys
  responses-append [] ys = refl
  responses-append ((p, q) ∷ xs) ys = ap (◌∷◌ (respond p q)) (responses-append xs ys)

  -- The request is that of the future at the place, and its answer can be handled.
  abbrev pub IsReply : List (Option RedisRequest) → ℕ × RedisRequest → Type 0
  IsReply requests (p, q) = (get_elem? requests p ≡ some (some q)) × Good p q

  abbrev pub Bytes : List ℕ → List ℕ → Replied → Type 0
  Bytes remaining inbound replied =
      remaining ++ inbound ≡ frames parse serialize_response (responses replied)

  pub record Holds (s : Session V) : Type 0 where
    pub replied : Replied
    pub books :
        Books value_from_pointer answer s.client.callbacks s.requests
          (places replied ++ s.unanswered)
    pub replies : All (IsReply s.requests) replied
    pub bytes : Bytes s.remaining s.inbound replied
    pub partial : decode_delimited parse s.remaining 0 ≡ raised partial_message

  -- The messages at a cut are those of the first entries.
  split_responses :
      (es : Replied) (xs ys : List Response)
      → responses es ≡ xs ++ ys
      → (here : Replied) × (there : Replied) × (es ≡ here ++ there)
        × (responses here ≡ xs)
        × (responses there ≡ ys)
  split_responses es [] ys e = ([], es, refl, refl, e)
  split_responses [] (x ∷ xs) ys e = cc
  split_responses ((p, q) ∷ es) (x ∷ xs) ys e =
      let (here, there, f, g, h) = split_responses es xs ys cc in
      ((p, q) ∷ here, there, ap (◌∷◌ (p, q)) f, cc (e, g), h)

  sendable :
      (requests : List (Option RedisRequest)) (es : Replied)
      → All (IsReply requests) es
      → All (IsSendable parse serialize_response) (responses es)
  sendable requests [] h = tt
  sendable requests ((p, q) ∷ es) ((at, good), hs) = (good.sendable, sendable requests es hs)

  -- The reader handles the responses that are complete, one after the other.
  handle_replies :
      (requests : List (Option RedisRequest)) (here : Replied) (others : List ℕ) (left : List ℕ)
      (c : Client V)
      → Books value_from_pointer answer c.callbacks requests (places here ++ others)
      → All (IsReply requests) here
      → (c' : Client V) × (handle_all (handle_response value_from_pointer) left c (responses here)
          ≡ reading c' left)
        × (c' ≡ record c { callbacks = c'.callbacks })
        × Books value_from_pointer answer c'.callbacks requests others
  unfolding handle_all
  handle_replies requests [] others left c b h = (c, refl, refl, b)
  handle_replies requests ((p, q) ∷ here) others left c b ((at, good), hs) =
      let next = answered value_from_pointer q.callback_idx p good.outcome c in
      let step =
        handled value_from_pointer answer c requests p q (places here ++ others) b at good.outcome
          good.decodes in
      let books =
        handled-Books value_from_pointer answer c requests p q (places here ++ others) b at
          good.outcome good.decodes in
      let (c', e, kept, b') = handle_replies requests here others left next books hs in
      (c', rw (step, handle_all) e, kept, b')

  -- What a read comes to: the reader goes on, and what holds of the session goes on holding.
  pub record ReadOn (s : Session V) (chunk rest : List ℕ) : Type 0 where
    pub client : Client V
    pub left : List ℕ
    pub reads :
        on_read parse (handle_response value_from_pointer) on_eof s.client s.remaining chunk
        ≡ reading client left
    pub kept : client ≡ record (s.client) { callbacks = client.callbacks }
    pub holds : Holds (record s { client = client; remaining = left; inbound = rest })

  -- The read, with the replies on both sides of its end.
  read-Cut :
      (s : Session V) (chunk rest : List ℕ) (h : Holds s)
      (cut : Cut parse serialize_response (responses h.replied) (s.remaining ++ chunk) rest)
      (here there : Replied)
      → NonEmpty chunk
      → h.replied ≡ here ++ there
      → responses here ≡ cut.here
      → responses there ≡ cut.there
      → ReadOn s chunk rest
  read-Cut s chunk rest h cut here there full f g k =
      let replies = subst (All (IsReply s.requests)) f h.replies in
      let complete = All-front (IsReply s.requests) here there replies in
      let (c, m, kept, b) =
        handle_replies s.requests here (places there ++ s.unanswered) cut.left s.client
          (subst (Books value_from_pointer answer s.client.callbacks s.requests)
            (regroup h.replied here there s.unanswered f) h.books)
          complete in
      record {
        client = c;
        left = cut.left;
        reads =
            on_read-consume_all parse (handle_response value_from_pointer) on_eof s.client
              s.remaining chunk full
            ∙ ap (consume_all parse (handle_response value_from_pointer) s.client) cut.before
            ∙ consume_all-handle_all parse serialize_response (handle_response value_from_pointer)
                on_eof s.client cut.here cut.left
                (subst (All (IsSendable parse serialize_response)) g
                  (sendable s.requests here complete))
                cut.partial
            ∙ ap (handle_all (handle_response value_from_pointer) cut.left s.client) (sym g)
            ∙ m;
        kept = kept;
        holds = record {
          replied = there;
          books = b;
          replies = All-back (IsReply s.requests) here there replies;
          bytes = cut.after ∙ ap (frames parse serialize_response) (sym k);
          partial =
              IsPartial-decode parse serialize_response (handle_response value_from_pointer) on_eof
                cut.left cut.partial;
        };
      }

  -- A read of bytes that the core has sent never ends the reader.
  pub read_on :
      (s : Session V) (chunk rest : List ℕ)
      → NonEmpty chunk
      → s.inbound ≡ chunk ++ rest
      → Holds s
      → ReadOn s chunk rest
  read_on s chunk rest full e h =
      let cut =
        frames-Cut parse serialize_response (responses h.replied) (s.remaining ++ chunk) rest
          (sendable s.requests h.replied h.replies)
          (sym h.bytes ∙ ap (◌++◌ s.remaining) e ∙ sym (append_assoc s.remaining chunk rest)) in
      let (here, there, f, g, k) = split_responses h.replied cut.here cut.there cut.messages in
      read-Cut s chunk rest h cut here there full f g k

  -- A call that goes out.
  pub call-Holds :
      (s : Session V) (command : RequestCommand) (route : Option Route) (c : Client V) (ref : ℕ)
      (sent : Sent command route s.client c ref)
      → Holds s
      → Holds (record s {
        client = c;
        requests = s.requests ++ some sent.request ∷ [];
        unanswered = s.unanswered ++ ref ∷ [];
      })
  call-Holds s command route c ref sent h = record {
    replied = h.replied;
    books =
        subst (Books value_from_pointer answer c.callbacks (s.requests ++ some sent.request ∷ []))
          (append_assoc (places h.replied) s.unanswered (ref ∷ []))
          (called-Books value_from_pointer answer command route s.client c ref sent s.requests
            (places h.replied ++ s.unanswered) h.books);
    replies =
        All-imp (IsReply s.requests) _ h.replied
          (λ e (at, good). (get_elem?-snoc_old s.requests _ e.0 _ at, good)) h.replies;
    bytes = h.bytes;
    partial = h.partial;
  }

  -- An answer is sent.
  pub answer-Holds :
      (s : Session V) (before after : List ℕ) (place : ℕ) (q : RedisRequest)
      → s.unanswered ≡ before ++ place ∷ after
      → get_elem? s.requests place ≡ some (some q)
      → Good place q
      → Holds s
      → Holds (record s {
        unanswered = before ++ after;
        inbound = s.inbound ++ frame parse serialize_response (respond place q);
      })
  answer-Holds s before after place q e at good h = record {
    replied = h.replied ++ (place, q) ∷ [];
    books =
        recount value_from_pointer answer s.client.callbacks s.requests
          (places h.replied ++ s.unanswered) _ (moved h.replied before after s.unanswered place q e)
          h.books;
    replies = All-append (IsReply s.requests) h.replied _ h.replies ((at, good), tt);
    bytes =
        sym (append_assoc s.remaining s.inbound reply_bytes)
        ∙ ap (λ (l : List ℕ). l ++ reply_bytes) h.bytes
        ∙ ap (◌++◌ (frames parse serialize_response (responses h.replied)))
            (sym (append-nil reply_bytes))
        ∙ sym (frames-append parse serialize_response (responses h.replied) (respond place q ∷ []))
        ∙ ap (frames parse serialize_response) (sym (responses-append h.replied ((place, q) ∷ [])));
    partial = h.partial;
  }
    where
      reply_bytes : List ℕ
      reply_bytes = frame parse serialize_response (respond place q)
