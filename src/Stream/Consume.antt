-- ===== src/Stream/Consume.antt =====
-- The loop over the messages, read off the bytes that are left instead of an offset.
use native.Mathlib.Numerals.{add-one}
use glide_for_redis.Common.{
  ℕ, zero, suc, ◌+◌, ◌≤◌, ◌<◌, ◌≡◌, ◌≢◌, refl, sym, ap, ◌∙◌, ◌⊎◌, inl, inr, Option, List, ◌++◌,
  length, drop, length-drop, length-append, drop-drop, drop-append_le, arith,
}
use glide_for_redis.Codec.{ok, raised, stuck, partial_message, decode_delimited}
use glide_for_redis.Codec.Delimited.{
  Decoded-cases, delimited_bounds, delimited-append, delimited-drop, delimited-ne-stuck,
}
use glide_for_redis.Stream.{
  Handled, carry_on, raises, Reading, reading, ended, undecodable, out_of_rounds, read_messages,
}

module _ {ℓ} {S : Type ℓ} {M E : Type 0} (parse : List ℕ → Option M)
    (handle : S → M → Handled S E) where
  consume : ℕ → S → List ℕ → Reading S E
  consume zero s bytes = out_of_rounds
  consume (suc rounds) s bytes = elim (decode_delimited parse bytes 0) [
    | ok (m, next) ↦ elim (handle s m) [
      | carry_on s' ↦ consume rounds s' (drop next bytes)
      | raises s' e ↦ ended s' e
    ]
    | raised partial_message ↦ reading s bytes
    | raised e ↦ undecodable s e
    | stuck ↦ out_of_rounds
  ]

  pub consume_all : S → List ℕ → Reading S E
  unfolding consume
  consume_all s bytes = consume (length bytes + 1) s bytes

  -- The reader goes on with what is left and the bytes that follow.
  unfoldable pub resume : List ℕ → Reading S E → Reading S E
  unfolding consume_all
  resume more (reading s remaining) = consume_all s (remaining ++ more)
  resume more (ended s e) = ended s e
  resume more (undecodable s e) = undecodable s e
  resume more out_of_rounds = out_of_rounds

  pub Handled-cases :
      (h : Handled S E) → ((s : S) × (h ≡ carry_on s)) ⊎ ((s : S) × (e : E) × (h ≡ raises s e))
  Handled-cases (carry_on s) = inl (s, refl)
  Handled-cases (raises s e) = inr (s, e, refl)

  -- The offset and the bytes that are left say the same.
  read_messages-consume :
      (rounds : ℕ) (s : S) (remaining bytes : List ℕ) (p : ℕ)
      → p ≤ length bytes
      → read_messages parse handle rounds s remaining bytes p ≡ consume rounds s (drop p bytes)
  unfolding read_messages consume
  read_messages-consume zero s remaining bytes p h = refl
  read_messages-consume (suc rounds) s remaining bytes p h =
      elim (Decoded-cases (decode_delimited parse (drop p bytes) 0)
        (delimited-ne-stuck parse _ 0)) [
          | inl d ↦ ground (arith, delimited-drop parse bytes p h)
          | inr (inl d) ↦ ground (arith, delimited-drop parse bytes p h)
          | inr (inr (inl d)) ↦ ground (arith, delimited-drop parse bytes p h)
          | inr (inr (inr ((m, next), d))) ↦ elim (Handled-cases (handle s m)) [
            | inl (s', k) ↦ ground (
              arith,
              delimited-drop parse bytes p h,
              delimited_bounds parse (drop p bytes) 0 m next d,
              length-drop p bytes,
              drop-drop next p bytes,
              read_messages-consume rounds s' remaining bytes (p + next),
            )
            | inr (s', e, k) ↦ ground (arith, delimited-drop parse bytes p h)
          ]
        ]

  -- Every message takes a byte at least, so rounds beyond the number of bytes make no difference.
  consume_rounds :
      (f g : ℕ) (s : S) (bytes : List ℕ)
      → length bytes < f
      → length bytes < g
      → consume f s bytes ≡ consume g s bytes
  unfolding consume
  consume_rounds zero g s bytes hf hg = absurd (omega arith)
  consume_rounds (suc f) zero s bytes hf hg = absurd (omega arith)
  consume_rounds (suc f) (suc g) s bytes hf hg =
      elim (Decoded-cases (decode_delimited parse bytes 0) (delimited-ne-stuck parse bytes 0)) [
        | inl d ↦ ground arith
        | inr (inl d) ↦ ground arith
        | inr (inr (inl d)) ↦ ground arith
        | inr (inr (inr ((m, next), d))) ↦ elim (Handled-cases (handle s m)) [
          | inl (s', k) ↦ ground (
            arith,
            delimited_bounds parse bytes 0 m next d,
            length-drop next bytes,
            consume_rounds f g s' (drop next bytes),
          )
          | inr (s', e, k) ↦ ground arith
        ]
      ]

  consume-partial :
      (f : ℕ) (s : S) (bytes : List ℕ)
      → decode_delimited parse bytes 0 ≡ raised partial_message
      → consume (suc f) s bytes ≡ reading s bytes
  unfolding consume
  consume-partial f s bytes d = rw (d, consume)

  consume-append :
      (f : ℕ) (s : S) (xs ys : List ℕ)
      → length (xs ++ ys) < f
      → consume f s (xs ++ ys) ≡ resume ys (consume f s xs)
  unfolding consume resume
  consume-append zero s xs ys hf = absurd (omega arith)
  consume-append (suc f) s xs ys hf =
      elim (Decoded-cases (decode_delimited parse xs 0) (delimited-ne-stuck parse xs 0)) [
        | inl d ↦ ground (arith, delimited-append parse xs ys 0)
        | inr (inl d) ↦
            consume_rounds (suc f) (length (xs ++ ys) + 1) s (xs ++ ys) hf (omega arith)
            ∙ sym (ap (resume ys) (consume-partial f s xs d))
        | inr (inr (inl d)) ↦ ground (arith, delimited-append parse xs ys 0)
        | inr (inr (inr ((m, next), d))) ↦ elim (Handled-cases (handle s m)) [
          | inl (s', k) ↦ ground (
            arith,
            d,
            k,
            delimited-append parse xs ys 0,
            delimited_bounds parse xs 0 m next d,
            length-append xs ys,
            length-append (drop next xs) ys,
            length-drop next xs,
            drop-append_le next xs ys,
            consume-append f s' (drop next xs) ys,
          )
          | inr (s', e, k) ↦ ground (arith, delimited-append parse xs ys 0)
        ]
      ]

  -- What the bytes so far come to is settled, but for the bytes left behind: reading more bytes is
  -- reading on from there.
  pub consume_all-append :
      (s : S) (xs ys : List ℕ) → consume_all s (xs ++ ys) ≡ resume ys (consume_all s xs)
  unfolding consume_all
  consume_all-append s xs ys =
      consume-append (length (xs ++ ys) + 1) s xs ys (omega arith)
      ∙ ap (resume ys) (
          consume_rounds (length (xs ++ ys) + 1) (length xs + 1) s xs
            (omega (arith, length-append xs ys)) (omega arith))

  -- The loop over all bytes from the first one on.
  pub read_messages-consume_all :
      (s : S) (remaining bytes : List ℕ)
      → read_messages parse handle (length bytes + 1) s remaining bytes 0 ≡ consume_all s bytes
  unfolding consume_all
  read_messages-consume_all s remaining bytes =
      read_messages-consume (length bytes + 1) s remaining bytes 0 (omega arith)

  consume-ne-out_of_rounds :
      (f : ℕ) (s : S) (bytes : List ℕ) → length bytes < f → consume f s bytes ≢ out_of_rounds
  unfolding consume
  consume-ne-out_of_rounds zero s bytes hf = absurd (omega arith)
  consume-ne-out_of_rounds (suc f) s bytes hf =
      elim (Decoded-cases (decode_delimited parse bytes 0) (delimited-ne-stuck parse bytes 0)) [
        | inl d ↦ ground arith
        | inr (inl d) ↦ ground arith
        | inr (inr (inl d)) ↦ ground arith
        | inr (inr (inr ((m, next), d))) ↦ elim (Handled-cases (handle s m)) [
          | inl (s', k) ↦ ground (
            arith,
            delimited_bounds parse bytes 0 m next d,
            length-drop next bytes,
            consume-ne-out_of_rounds f s' (drop next bytes),
          )
          | inr (s', e, k) ↦ ground arith
        ]
      ]

  pub consume_all-ne-out_of_rounds : (s : S) (bytes : List ℕ) → consume_all s bytes ≢ out_of_rounds
  unfolding consume_all
  consume_all-ne-out_of_rounds s bytes =
      consume-ne-out_of_rounds (length bytes + 1) s bytes (omega arith)

  consume_one :
      (f : ℕ) (s : S) (bytes : List ℕ) (m : M) (next : ℕ) (s' : S)
      → decode_delimited parse bytes 0 ≡ ok (m, next)
      → handle s m ≡ carry_on s'
      → consume (f + 1) s bytes ≡ consume f s' (drop next bytes)
  unfolding consume
  consume_one f s bytes m next s' d k = rw add-one (ground (arith, d, k))

  consume_raises :
      (f : ℕ) (s : S) (bytes : List ℕ) (m : M) (next : ℕ) (s' : S) (e : E)
      → decode_delimited parse bytes 0 ≡ ok (m, next)
      → handle s m ≡ raises s' e
      → consume (f + 1) s bytes ≡ ended s' e
  unfolding consume
  consume_raises f s bytes m next s' e d k = rw add-one (ground (arith, d, k))

  -- One message in front is handled first, and the rest of the bytes after it.
  pub consume_all_step :
      (s : S) (bytes : List ℕ) (m : M) (next : ℕ) (s' : S)
      → decode_delimited parse bytes 0 ≡ ok (m, next)
      → handle s m ≡ carry_on s'
      → consume_all s bytes ≡ consume_all s' (drop next bytes)
  unfolding consume_all
  consume_all_step s bytes m next s' d k =
      let rest : List ℕ = drop next bytes in
      consume_one (length bytes) s bytes m next s' d k
      ∙ consume_rounds (length bytes) (length rest + 1) s' rest
          (omega (arith, delimited_bounds parse bytes 0 m next d, length-drop next bytes))
          (omega arith)

  pub consume_all_raises :
      (s : S) (bytes : List ℕ) (m : M) (next : ℕ) (s' : S) (e : E)
      → decode_delimited parse bytes 0 ≡ ok (m, next)
      → handle s m ≡ raises s' e
      → consume_all s bytes ≡ ended s' e
  unfolding consume_all
  consume_all_raises s bytes m next s' e d k = consume_raises (length bytes) s bytes m next s' e d k

  pub consume_all_partial :
      (s : S) (bytes : List ℕ)
      → decode_delimited parse bytes 0 ≡ raised partial_message
      → consume_all s bytes ≡ reading s bytes
  unfolding consume_all
  consume_all_partial s bytes d =
      consume_rounds (length bytes + 1) (suc (length bytes)) s bytes (omega arith) (omega arith)
      ∙ consume-partial (length bytes) s bytes d
