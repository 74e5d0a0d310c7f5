-- ===== src/Client/Session/Asked.antt =====
-- Each place that waits for an answer is that of a request.
use glide_for_redis.Common.{
  ℕ, ◌≡◌, sym, ap, subst, ◌∙◌, Option, some, List, [], ◌∷◌, ◌++◌, length, All, get_elem?,
  get_elem?-snoc, get_elem?-snoc_old, arith,
}
use glide_for_redis.Protocol.{RedisRequest, TRequest, Response, ResponseValue}
use glide_for_redis.Client.Callbacks.{Future, get_future}
use glide_for_redis.Client.State.{TResult}
use glide_for_redis.Client.Sending.{taken-store}
use glide_for_redis.Client.Session
use glide_for_redis.Client.Session.{
  Session, Step, Later, no_step, one_more, Happened, IsGood, connected_session,
}
use glide_for_redis.Client.Session.Answers.{Sound, Later-Holds}

-- Each place that waits for an answer is that of a request.
abbrev pub HasRequest : List (Option RedisRequest) → ℕ → Type 0
HasRequest requests place = (q : RedisRequest) × (get_elem? requests place ≡ some (some q))

abbrev pub Asked : {V : Type 0} → Session V → Type 0
Asked s = All (HasRequest s.requests) s.unanswered

All-skip :
    {A : Type 0} (P : A → Type 0) (xs ys : List A) (x : A) → All P (xs ++ x ∷ ys) → All P (xs ++ ys)
All-skip P [] ys x (h, hs) = hs
All-skip P (y ∷ xs) ys x (h, hs) = (h, All-skip P xs ys x hs)

asked_more :
    (requests : List (Option RedisRequest)) (unanswered : List ℕ) (place : ℕ) (q : RedisRequest)
    → place ≡ length requests
    → All (HasRequest requests) unanswered
    → All (HasRequest (requests ++ some q ∷ [])) (unanswered ++ place ∷ [])
asked_more requests [] place q e h =
    ((q, ground (arith, e, get_elem?-snoc requests (some q) place)), tt)
asked_more requests (p ∷ unanswered) place q e ((r, at), hs) = (
  (r, get_elem?-snoc_old requests (some q) p (some r) at),
  asked_more requests unanswered place q e hs,
)

module _ {V : Type 0} (value_from_pointer : ℕ → Option V) (parse : List ℕ → Option Response)
    (serialize_response : Response → List ℕ) (serialize : TRequest → List ℕ)
    (answer : ℕ → Option ResponseValue) where
  abbrev Next : Session V → Session V → Type 0
  Next = Step value_from_pointer parse serialize_response serialize answer

  abbrev Leads : Session V → Session V → Type 0
  Leads = Later value_from_pointer parse serialize_response serialize answer

  abbrev Holding : Session V → Type 0
  Holding = Sound value_from_pointer parse serialize_response serialize answer

  Step-Asked : {s t : Session V} → Next s t → Holding s → Asked s → Asked t
  unfolding get_future
  Step-Asked (Session.called {s} command route c ref e sent) h a =
      asked_more s.requests s.unanswered ref sent.request
        (sent.place
          ∙ ap (λ (l : List (Future (TResult V))). length l) (taken-store s.client)
          ∙ sym h.books.sized)
        a
  Step-Asked Session.write_started h a = a
  Step-Asked (Session.drained _) h a = a
  Step-Asked (Session.drain_raised _) h a = a
  Step-Asked (Session.core_answers {s} front back place q e at good) h a =
      All-skip (HasRequest s.requests) front back place (subst (All (HasRequest s.requests)) e a)
  Step-Asked (Session.client_reads chunk rest c left full e reads) h a = a

  pub Later-Asked : {s t : Session V} → Leads s t → Holding s → Asked s → Asked t
  Later-Asked no_step h a = a
  Later-Asked (one_more step before) h a =
      Step-Asked step
        (Later-Holds value_from_pointer parse serialize_response serialize answer before h)
        (Later-Asked before h a)
