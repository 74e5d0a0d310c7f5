-- ===== src/Client/Writer/Delivery.antt =====
-- Every request is written once, in order, however the tasks interleave.
use glide_for_redis.Common.{
  ℕ, zero, suc, ◌≡◌, refl, sym, ap, subst, ◌∙◌, Bool, true, false, inl, inr, Option, List, [], ◌∷◌,
  ◌++◌, append-nil, append_assoc, length, All, ltb, if◌then◌else◌, Bool-cases, List-cases, arith,
}
use glide_for_redis.Codec.{encode_delimited}
use glide_for_redis.Codec.Delimited.{frame, encode_delimited-frame}
use glide_for_redis.Protocol.{TRequest}
use glide_for_redis.Stream.{Handled, carry_on, reading, reader_loop}
use glide_for_redis.Stream.Chunks.{concat, NonEmpty}
use glide_for_redis.Stream.Frames.{
  frames, frames-append, IsSendable, nothing, handle_all, reader_loop-handle_all,
}
use glide_for_redis.Client.Writer.{
  Writer, new_writer, encode_requests, write_buffered_requests_to_socket, write_loop,
  write_or_buffer_request, drain_failed,
}

module _ (parse : List ℕ → Option TRequest) (serialize : TRequest → List ℕ) where
  abbrev pub stream : List TRequest → List ℕ
  stream = frames parse serialize

  -- What the tasks of a client can have done to a new writer: `rs` are the requests handed to
  -- `_write_or_buffer_request`, in the order of the calls, and the flag says whether `drain` has
  -- ever failed.
  pub data Run : Bool → Writer → List TRequest → Type 0 where
    start : Run false new_writer []
    submit :
        {f : Bool} {w : Writer} {rs : List TRequest} (r : TRequest)
        → Run f w rs
        → Run f (write_or_buffer_request serialize w r) (rs ++ r ∷ [])
    drained :
        {f : Bool} {w : Writer} {rs : List TRequest}
        → w.writer_lock ≡ true
        → Run f w rs
        → Run f (write_loop serialize w) rs
    fail :
        {f : Bool} {w : Writer} {rs : List TRequest}
        → w.writer_lock ≡ true
        → Run f w rs
        → Run true (drain_failed w) rs

  encode_requests-frames :
      (b_arr : List ℕ) (rs : List TRequest)
      → encode_requests serialize b_arr rs ≡ b_arr ++ stream rs
  unfolding encode_requests
  encode_requests-frames b_arr [] = sym (append-nil b_arr)
  encode_requests-frames b_arr (r ∷ rs) =
      encode_requests-frames (encode_delimited serialize b_arr r) rs
      ∙ ap (λ (l : List ℕ). l ++ stream rs) (encode_delimited-frame parse serialize b_arr r)
      ∙ append_assoc b_arr (frame parse serialize r) (stream rs)

  -- All that was ever submitted: what is on the socket, and what waits.
  abbrev Account : Writer → List TRequest → Type 0
  Account w rs = w.written ++ stream w.buffered_requests ≡ stream rs

  write_buffered-Account :
      (w : Writer) (rs : List TRequest)
      → Account w rs
      → Account (write_buffered_requests_to_socket serialize w) rs
  unfolding write_buffered_requests_to_socket
  write_buffered-Account w rs h =
      append-nil _ ∙ ap (◌++◌ w.written) (encode_requests-frames [] w.buffered_requests) ∙ h

  write_loop-Account :
      (w : Writer) (rs : List TRequest) → Account w rs → Account (write_loop serialize w) rs
  unfolding write_loop
  write_loop-Account w rs h = elim (Bool-cases (ltb 0 (length w.buffered_requests))) [
    | inl e ↦ rw (e, write_loop) (write_buffered-Account w rs h)
    | inr e ↦ rw (e, write_loop) h
  ]

  -- The writer whose task has just taken the lock for a request.
  abbrev taken : Writer → TRequest → Writer
  taken w r = record w { buffered_requests = w.buffered_requests ++ r ∷ []; writer_lock = true }

  locked-submit :
      (w : Writer) (r : TRequest)
      → w.writer_lock ≡ true
      → write_or_buffer_request serialize w r
        ≡ record w { buffered_requests = w.buffered_requests ++ r ∷ [] }
  unfolding write_or_buffer_request
  locked-submit w r e = ground (arith, e)

  free-submit :
      (w : Writer) (r : TRequest)
      → w.writer_lock ≡ false
      → write_or_buffer_request serialize w r ≡ write_loop serialize (taken w r)
  unfolding write_or_buffer_request
  free-submit w r e = rw (e, write_or_buffer_request)

  buffer-Account :
      (w : Writer) (rs : List TRequest) (r : TRequest)
      → Account w rs
      → w.written ++ stream (w.buffered_requests ++ r ∷ []) ≡ stream (rs ++ r ∷ [])
  buffer-Account w rs r h =
      ap (◌++◌ w.written) (frames-append parse serialize w.buffered_requests (r ∷ []))
      ∙ sym (append_assoc w.written (stream w.buffered_requests) (stream (r ∷ [])))
      ∙ ap (λ (l : List ℕ). l ++ stream (r ∷ [])) h
      ∙ sym (frames-append parse serialize rs (r ∷ []))

  submit-Account :
      (w : Writer) (rs : List TRequest) (r : TRequest)
      → Account w rs
      → Account (write_or_buffer_request serialize w r) (rs ++ r ∷ [])
  submit-Account w rs r h = elim (Bool-cases w.writer_lock) [
    | inl e ↦ rw (locked-submit w r e) (buffer-Account w rs r h)
    | inr e ↦
        rw (free-submit w r e)
          (write_loop-Account (taken w r) (rs ++ r ∷ []) (buffer-Account w rs r h))
  ]

  -- At any moment, whether or not `drain` has failed, the bytes on the socket and the encodings of
  -- the buffered requests together are the encodings of all requests that were submitted, each once
  -- and in the order of submission.
  pub Run-stream :
      {f : Bool} {w : Writer} {rs : List TRequest}
      → Run f w rs
      → w.written ++ stream w.buffered_requests ≡ stream rs
  unfolding drain_failed
  Run-stream start = refl
  Run-stream (submit {w = w} {rs = rs} r run) = submit-Account w rs r (Run-stream run)
  Run-stream (drained {w = w} {rs = rs} e run) = write_loop-Account w rs (Run-stream run)
  Run-stream (fail e run) = Run-stream run

  -- While `drain` does not fail, nobody leaves a request behind: if the lock is free the buffer is
  -- empty.
  abbrev IsTended : Writer → Type 0
  IsTended w = w.writer_lock ≡ false → w.buffered_requests ≡ []

  write_loop-IsTended : (w : Writer) → w.writer_lock ≡ true → IsTended (write_loop serialize w)
  unfolding write_loop write_buffered_requests_to_socket
  write_loop-IsTended w h = elim (List-cases w.buffered_requests) [
    | inl e ↦ λ _. ground (arith, e)
    | inr (x, xs, e) ↦ λ _. ground (arith, e)
  ]

  submit-IsTended : (w : Writer) (r : TRequest) → IsTended (write_or_buffer_request serialize w r)
  submit-IsTended w r = elim (Bool-cases w.writer_lock) [
    | inl e ↦ rw (locked-submit w r e) (λ free. cc (e, free))
    | inr e ↦ rw (free-submit w r e) (write_loop-IsTended (taken w r) refl)
  ]

  pub Run-IsTended :
      {f : Bool} {w : Writer} {rs : List TRequest} → Run f w rs → f ≡ false → IsTended w
  Run-IsTended start e = λ _. refl
  Run-IsTended (submit {w = w} r run) e = submit-IsTended w r
  Run-IsTended (drained {w = w} h run) e = write_loop-IsTended w h
  Run-IsTended (fail h run) e = cc

  -- The task that holds the lock, left alone until it gives the lock up, for so many turns at most.
  unfoldable pub turns : ℕ → Writer → Writer
  turns zero w = w
  turns (suc n) w = let rest = turns n (write_loop serialize w) in if w.writer_lock then rest else w

  IsIdle : Writer → Type 0
  IsIdle w = (w.writer_lock ≡ false) × (w.buffered_requests ≡ [])

  two_turns : (w : Writer) → IsTended w → IsIdle (turns 2 w)
  unfolding turns IsIdle write_loop write_buffered_requests_to_socket
  two_turns w h = elim (List-cases w.buffered_requests) [
    | inl e ↦ ground (arith, e)
    | inr (x, xs, e) ↦ ground (arith, e)
  ]

  -- A turn by the lock that was read.
  turn :
      {b : Bool} (n : ℕ) (w : Writer)
      → w.writer_lock ≡ b
      → turns (suc n) w ≡ (if b then turns n (write_loop serialize w) else w)
  unfolding turns
  turn n w e = ap (λ (b : Bool). if b then turns n (write_loop serialize w) else w) e

  turns-Run :
      {f : Bool} (n : ℕ) (w : Writer) {rs : List TRequest} → Run f w rs → Run f (turns n w) rs
  unfolding turns
  turns-Run zero w run = run
  turns-Run {f} (suc n) w {rs} run = elim (Bool-cases w.writer_lock) [
    | inl e ↦
        subst (λ v. Run f v rs) (sym (turn n w e))
          (turns-Run n (write_loop serialize w) (drained e run))
    | inr e ↦ subst (λ v. Run f v rs) (sym (turn n w e)) run
  ]

  -- From any state that is reached without a failure of `drain`, two turns of the task that holds
  -- the lock bring the writer to rest, and then the socket has got exactly the encodings of all
  -- requests that were submitted.
  turns_deliver :
      (w : Writer) {rs : List TRequest}
      → Run false w rs
      → ((turns 2 w).writer_lock ≡ false)
        × ((turns 2 w).buffered_requests ≡ [])
        × ((turns 2 w).written ≡ stream rs)
  unfolding IsIdle
  turns_deliver w {rs} run =
      let (free, empty) = two_turns w (Run-IsTended run refl) in
      let all = Run-stream (turns-Run 2 w run) in
      (free, empty, sym (append-nil _) ∙ rw empty at all)

  -- A peer that collects the requests it reads.
  abbrev pub collect : List TRequest → TRequest → Handled (List TRequest) (Unit {0})
  collect rs r = carry_on (rs ++ r ∷ [])

  pub handle_all-collect :
      (left : List ℕ) (got rs : List TRequest)
      → handle_all collect left got rs ≡ reading (got ++ rs) left
  unfolding handle_all
  handle_all-collect left got [] = ap (λ (l : List TRequest). reading l left) (sym (append-nil got))
  handle_all-collect left got (r ∷ rs) =
      handle_all-collect left (got ++ r ∷ []) rs
      ∙ ap (λ (l : List TRequest). reading l left) (append_assoc got (r ∷ []) rs)

  -- Read by the codec's own decoder, in whatever non-empty pieces they arrive, the bytes of a writer
  -- that has come to rest without a failure give back the submitted requests, in order, and nothing
  -- is left over; each must be one that protobuf reads back and shorter than 2 ^ 32 bytes.
  pub delivered :
      (w : Writer) {rs : List TRequest} (chunks : List (List ℕ))
      (on_eof : List TRequest → Handled (List TRequest) (Unit {0}))
      → Run false w rs
      → All (IsSendable parse serialize) rs
      → All NonEmpty chunks
      → concat chunks ≡ (turns 2 w).written
      → reader_loop parse collect on_eof chunks (reading [] []) ≡ reading rs []
  delivered w {rs} chunks on_eof run sendable full e =
      let (_, _, bytes) = turns_deliver w run in
      reader_loop-handle_all parse serialize collect on_eof [] rs [] chunks sendable (nothing refl)
        full (e ∙ bytes ∙ sym (append-nil (stream rs)))
      ∙ handle_all-collect [] [] rs
