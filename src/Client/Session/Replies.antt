-- ===== src/Client/Session/Replies.antt =====
-- The answers on their way to the client: lists of places and requests.
use glide_for_redis.Common.{ℕ, ◌≡◌, refl, ap, ◌∙◌, List, [], ◌∷◌, ◌++◌, append_assoc, All, arith}
use glide_for_redis.Protocol.{RedisRequest}
use glide_for_redis.Client.Slots.{occurrences, occurrences-append}

-- The calls that the core has answered and whose responses the reader has not handled.
abbrev pub Replied : Type 0
Replied = List (ℕ × RedisRequest)

abbrev pub places : Replied → List ℕ
places [] = []
places ((p, q) ∷ rest) = p ∷ places rest

pub places-append : (xs ys : Replied) → places (xs ++ ys) ≡ places xs ++ places ys
places-append [] ys = refl
places-append ((p, q) ∷ xs) ys = ap (◌∷◌ p) (places-append xs ys)

pub regroup :
    (es here there : Replied) (others : List ℕ)
    → es ≡ here ++ there
    → places es ++ others ≡ places here ++ (places there ++ others)
regroup es here there others e =
    ap (λ (l : Replied). places l ++ others) e
    ∙ ap (λ (l : List ℕ). l ++ others) (places-append here there)
    ∙ append_assoc (places here) (places there) others

-- An answer moves a place from one list to the other.
pub moved :
    (replied : Replied) (before after unanswered : List ℕ) (place : ℕ) (q : RedisRequest)
    → unanswered ≡ before ++ place ∷ after
    → (x : ℕ)
    → occurrences x (places (replied ++ (place, q) ∷ []) ++ (before ++ after))
      ≡ occurrences x (places replied ++ unanswered)
moved replied before after unanswered place q e x = omega (
  arith,
  occurrences-append x (places (replied ++ (place, q) ∷ [])) (before ++ after),
  ap (occurrences x) (places-append replied ((place, q) ∷ [])),
  occurrences-append x (places replied) (place ∷ []),
  occurrences-append x before after,
  occurrences-append x (places replied) unanswered,
  ap (occurrences x) e,
  occurrences-append x before (place ∷ after),
)

pub All-append {ℓ} :
    {A : Type ℓ} (P : A → Type 0) (xs ys : List A) → All P xs → All P ys → All P (xs ++ ys)
All-append P [] ys h k = k
All-append P (x ∷ xs) ys (h, hs) k = (h, All-append P xs ys hs k)

pub All-front {ℓ} : {A : Type ℓ} (P : A → Type 0) (xs ys : List A) → All P (xs ++ ys) → All P xs
All-front P [] ys h = tt
All-front P (x ∷ xs) ys (h, hs) = (h, All-front P xs ys hs)

pub All-back {ℓ} : {A : Type ℓ} (P : A → Type 0) (xs ys : List A) → All P (xs ++ ys) → All P ys
All-back P [] ys h = h
All-back P (x ∷ xs) ys (h, hs) = All-back P xs ys hs

pub All-imp {ℓ} :
    {A : Type ℓ} (P Q : A → Type 0) (xs : List A) → ((x : A) → P x → Q x) → All P xs → All Q xs
All-imp P Q [] k h = tt
All-imp P Q (x ∷ xs) k (h, hs) = (k x h, All-imp P Q xs k hs)
