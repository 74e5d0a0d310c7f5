-- ===== src/Stream/Chunks.antt =====
-- How the socket cuts the stream into reads does not matter.
use glide_for_redis.Common.{
  ℕ, ◌≡◌, ◌≢◌, refl, sym, ap, ◌∙◌, Option, List, [], ◌∷◌, ◌++◌, append-nil, append_assoc, All,
  arith,
}
use glide_for_redis.Codec.Delimited.{delimited_nil}
use glide_for_redis.Stream.{
  Handled, Reading, reading, ended, undecodable, out_of_rounds, on_read, reader_loop,
}
use glide_for_redis.Stream.Consume.{
  consume_all, resume, consume_all-append, consume_all-ne-out_of_rounds, read_messages-consume_all,
  consume_all_partial,
}

abbrev pub concat : List (List ℕ) → List ℕ
concat [] = []
concat (chunk ∷ chunks) = chunk ++ concat chunks

-- A read that returns no byte says that the stream has ended.
abbrev pub NonEmpty : List ℕ → Type 0
NonEmpty chunk = chunk ≢ []

module _ {ℓ} {S : Type ℓ} {M E : Type 0} (parse : List ℕ → Option M) (handle : S → M → Handled S E)
    (on_eof : S → Handled S E) where
  pub on_read-consume_all :
      (s : S) (remaining chunk : List ℕ)
      → NonEmpty chunk
      → on_read parse handle on_eof s remaining chunk
        ≡ consume_all parse handle s (remaining ++ chunk)
  unfolding on_read
  on_read-consume_all s remaining [] h = absurd (h refl)
  on_read-consume_all s remaining (b ∷ chunk) h =
      ground (arith, read_messages-consume_all parse handle s remaining (remaining ++ b ∷ chunk))

  resume-resume :
      (xs ys : List ℕ) (r : Reading S E)
      → resume parse handle (xs ++ ys) r ≡ resume parse handle ys (resume parse handle xs r)
  unfolding resume
  resume-resume xs ys (reading s remaining) =
      rw (sym (append_assoc remaining xs ys))
        (consume_all-append parse handle s (remaining ++ xs) ys)
  resume-resume xs ys (ended s e) = refl
  resume-resume xs ys (undecodable s e) = refl
  resume-resume xs ys out_of_rounds = refl

  -- Nothing more can be read off the bytes that are left.
  abbrev IsSettled : Reading S E → Type ℓ
  IsSettled r = resume parse handle [] r ≡ r

  consume_all-IsSettled : (s : S) (bytes : List ℕ) → IsSettled (consume_all parse handle s bytes)
  consume_all-IsSettled s bytes =
      sym (consume_all-append parse handle s bytes [])
      ∙ ap (consume_all parse handle s) (append-nil bytes)

  reader_loop-resume :
      (chunks : List (List ℕ)) (r : Reading S E)
      → All NonEmpty chunks
      → IsSettled r
      → reader_loop parse handle on_eof chunks r ≡ resume parse handle (concat chunks) r
  unfolding reader_loop resume
  reader_loop-resume [] r h settled = sym settled
  reader_loop-resume (chunk ∷ chunks) (reading s remaining) (h, hs) settled =
      let first = on_read-consume_all s remaining chunk h in
      let next : Reading S E = consume_all parse handle s (remaining ++ chunk) in
      ap (reader_loop parse handle on_eof chunks) first
      ∙ reader_loop-resume chunks next hs (consume_all-IsSettled s (remaining ++ chunk))
      ∙ sym (resume-resume chunk (concat chunks) (reading s remaining))
  reader_loop-resume (chunk ∷ chunks) (ended s e) h settled = refl
  reader_loop-resume (chunk ∷ chunks) (undecodable s e) h settled = refl
  reader_loop-resume (chunk ∷ chunks) out_of_rounds h settled = refl

  start-IsSettled : (s : S) → IsSettled (reading s [])
  unfolding resume
  start-IsSettled s = consume_all_partial parse handle s [] (delimited_nil parse)

  pub reader_loop-consume_all :
      (s : S) (chunks : List (List ℕ))
      → All NonEmpty chunks
      → reader_loop parse handle on_eof chunks (reading s [])
        ≡ consume_all parse handle s (concat chunks)
  unfolding resume
  reader_loop-consume_all s chunks h =
      reader_loop-resume chunks (reading s []) h (start-IsSettled s)

  -- Two ways to cut the same bytes into non-empty reads take the reader from its start to the same
  -- state, with the same bytes left over or the same exception, whatever the bytes are.
  pub reader_loop_chunks :
      (s : S) (chunks other : List (List ℕ))
      → All NonEmpty chunks
      → All NonEmpty other
      → concat chunks ≡ concat other
      → reader_loop parse handle on_eof chunks (reading s [])
        ≡ reader_loop parse handle on_eof other (reading s [])
  reader_loop_chunks s chunks other h k e =
      reader_loop-consume_all s chunks h
      ∙ ap (consume_all parse handle s) e
      ∙ sym (reader_loop-consume_all s other k)

  -- The reader's loop always comes to a read or an exception: its bound on rounds is never used up.
  pub reader_loop-ne-out_of_rounds :
      (s : S) (chunks : List (List ℕ))
      → All NonEmpty chunks
      → reader_loop parse handle on_eof chunks (reading s []) ≢ out_of_rounds
  reader_loop-ne-out_of_rounds s chunks h =
      rw (reader_loop-consume_all s chunks h)
        (consume_all-ne-out_of_rounds parse handle s (concat chunks))
