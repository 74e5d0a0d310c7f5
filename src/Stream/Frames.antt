-- ===== src/Stream/Frames.antt =====
-- The reader on a stream of encoded messages.
use glide_for_redis.Common.{
  ℕ, ◌<◌, ◌^◌, ◌≡◌, refl, sym, ap, ◌∙◌, inl, inr, Option, some, List, [], ◌∷◌, ◌++◌, append_assoc,
  length, drop-length, All, arith,
}
use glide_for_redis.Codec.{ok, raised, partial_message, decode_delimited}
use glide_for_redis.Codec.Delimited.{
  frame, delimited_nil, decode_delimited-encode_delimited, decode_delimited_truncated,
}
use glide_for_redis.Stream.{Handled, carry_on, raises, Reading, reading, ended, reader_loop}
use glide_for_redis.Stream.Consume.{
  consume_all, consume_all_step, consume_all_raises, consume_all_partial, Handled-cases,
}
use glide_for_redis.Stream.Chunks.{concat, NonEmpty, reader_loop-consume_all}

-- What the reader is for: each message is handled once, in order, until one of them ends it; with
-- `left` the bytes behind the last message.
unfoldable pub handle_all {ℓ} :
    {S : Type ℓ} {M E : Type 0} → (S → M → Handled S E) → List ℕ → S → List M → Reading S E
handle_all handle left s [] = reading s left
handle_all handle left s (m ∷ ms) = elim (handle s m) [
  | carry_on s' ↦ handle_all handle left s' ms
  | raises s' e ↦ ended s' e
]

-- The bytes of the messages, one after the other.
abbrev pub frames : {M : Type 0} → (List ℕ → Option M) → (M → List ℕ) → List M → List ℕ
frames parse serialize [] = []
frames parse serialize (m ∷ ms) = frame parse serialize m ++ frames parse serialize ms

pub frames-append :
    {M : Type 0} (parse : List ℕ → Option M) (serialize : M → List ℕ) (xs ys : List M)
    → frames parse serialize (xs ++ ys) ≡ frames parse serialize xs ++ frames parse serialize ys
frames-append parse serialize [] ys = refl
frames-append parse serialize (x ∷ xs) ys =
    ap (◌++◌ (frame parse serialize x)) (frames-append parse serialize xs ys)
    ∙ sym (
        append_assoc (frame parse serialize x) (frames parse serialize xs)
          (frames parse serialize ys))

-- A message that the varint has room for, and that protobuf reads back.
abbrev pub IsSendable : {M : Type 0} → (List ℕ → Option M) → (M → List ℕ) → M → Type 0
IsSendable parse serialize m = (length (serialize m) < 2 ^ 32) × (parse (serialize m) ≡ some m)

-- A message of which the last byte at least has not come, or nothing at all.
pub data IsPartial {M : Type 0} (parse : List ℕ → Option M) (serialize : M → List ℕ) (left : List ℕ)
    : Type 0 where
  nothing : left ≡ [] → IsPartial parse serialize left
  front_of :
      (m : M) (x : ℕ) (back : List ℕ)
      → IsSendable parse serialize m
      → frame parse serialize m ≡ left ++ x ∷ back
      → IsPartial parse serialize left

module _ {ℓ} {S : Type ℓ} {M E : Type 0} (parse : List ℕ → Option M) (serialize : M → List ℕ)
    (handle : S → M → Handled S E) (on_eof : S → Handled S E) where
  pub IsPartial-decode :
      (left : List ℕ)
      → IsPartial parse serialize left
      → decode_delimited parse left 0 ≡ raised partial_message
  IsPartial-decode left (nothing e) = rw e (delimited_nil parse)
  IsPartial-decode left (front_of m x back (fits, parsed) e) =
      decode_delimited_truncated parse serialize m left x back fits parsed e

  pub first_frame :
      (m : M) (rest : List ℕ)
      → IsSendable parse serialize m
      → decode_delimited parse (frame parse serialize m ++ rest) 0
        ≡ ok (m, length (frame parse serialize m))
  first_frame m rest (fits, parsed) =
      decode_delimited-encode_delimited parse serialize [] m rest fits parsed

  pub consume_all-handle_all :
      (s : S) (ms : List M) (left : List ℕ)
      → All (IsSendable parse serialize) ms
      → IsPartial parse serialize left
      → consume_all parse handle s (frames parse serialize ms ++ left) ≡ handle_all handle left s ms
  unfolding handle_all
  consume_all-handle_all s [] left h p =
      consume_all_partial parse handle s left (IsPartial-decode left p)
  consume_all-handle_all s (m ∷ ms) left (h, hs) p =
      let rest : List ℕ = frames parse serialize ms ++ left in
      let decoded = first_frame m rest h in
      rw (append_assoc (frame parse serialize m) (frames parse serialize ms) left)
        (elim (Handled-cases parse handle (handle s m)) [
          | inl (s', k) ↦
              consume_all_step parse handle s _ m _ s' decoded k
              ∙ rw (drop-length (frame parse serialize m) rest)
                  (ground (arith, k, consume_all-handle_all s' ms left hs p))
          | inr (s', e, k) ↦
              consume_all_raises parse handle s _ m _ s' e decoded k ∙ ground (arith, k)
        ])

  -- However the bytes of some sendable messages and of the front of one more are cut into non-empty
  -- reads, the reader handles exactly these messages, each once and in order, up to the first whose
  -- handling raises; if none does, it keeps exactly the bytes of the one that is not complete.
  pub reader_loop-handle_all :
      (s : S) (ms : List M) (left : List ℕ) (chunks : List (List ℕ))
      → All (IsSendable parse serialize) ms
      → IsPartial parse serialize left
      → All NonEmpty chunks
      → concat chunks ≡ frames parse serialize ms ++ left
      → reader_loop parse handle on_eof chunks (reading s []) ≡ handle_all handle left s ms
  reader_loop-handle_all s ms left chunks h p k e =
      reader_loop-consume_all parse handle on_eof s chunks k
      ∙ ap (consume_all parse handle s) e
      ∙ consume_all-handle_all s ms left h p
