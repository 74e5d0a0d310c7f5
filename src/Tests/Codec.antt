-- ===== src/Tests/Codec.antt =====
-- Runs of the codec and the reader, with bytes as the messages: protobuf is the identity.
use glide_for_redis.Common.{
  ℕ, ◌+◌, ◌≤◌, ◌<◌, ◌^◌, ◌≡◌, ◌≢◌, refl, Option, some, List, [], ◌∷◌, ◌++◌, length, All, arith,
}
use glide_for_redis.Codec.{
  ok, raised, stuck, partial_message, decode_varint_32, varint_bytes, decode_delimited,
  encode_delimited,
}
use glide_for_redis.Codec.Decode.{varint_32_bounds, varint_32-ne-stuck}
use glide_for_redis.Codec.RoundTrip.{varint_32-varint_bytes}
use glide_for_redis.Codec.Delimited.{decode_delimited-encode_delimited, decode_delimited_truncated}
use glide_for_redis.Stream.{Handled, carry_on, raises, reading, out_of_rounds, reader_loop}
use glide_for_redis.Stream.Chunks.{NonEmpty, reader_loop_chunks, reader_loop-ne-out_of_rounds}
use glide_for_redis.Stream.Frames.{nothing, handle_all, reader_loop-handle_all}

abbrev Message : Type 0
Message = List ℕ

abbrev parse : List ℕ → Option Message
parse bytes = some bytes

abbrev serialize : Message → List ℕ
serialize message = message

abbrev collect : List Message → Message → Handled (List Message) (Unit {0})
collect got message = carry_on (got ++ message ∷ [])

abbrev on_eof : List Message → Handled (List Message) (Unit {0})
on_eof got = raises got tt

abbrev front : List ℕ
front = 9 ∷ []

abbrev held : List ℕ
held = 9 ∷ 172 ∷ 2 ∷ 7 ∷ []

abbrev whole : List ℕ
whole = 2 ∷ 5 ∷ 6 ∷ []

varint_300 : varint_bytes 300 ≡ 172 ∷ 2 ∷ []
unfolding varint_bytes
varint_300 = refl

decoded_300 : decode_varint_32 held 1 ≡ ok (300, 3)
unfolding decode_varint_32
decoded_300 = refl

cut_message : decode_delimited parse (2 ∷ 5 ∷ []) 0 ≡ raised partial_message
unfolding decode_delimited decode_varint_32
cut_message = refl

varint_32-varint_bytes_example :
    decode_varint_32 (front ++ varint_bytes 300 ++ 7 ∷ []) (length front)
    ≡ ok (300, length front + length (varint_bytes 300))
varint_32-varint_bytes_example = varint_32-varint_bytes front 300 (7 ∷ []) (ground arith)

varint_32_bounds_example : (300 < 2 ^ 32) × (1 < 3) × (3 ≤ 1 + 10) × (3 ≤ length held)
varint_32_bounds_example = varint_32_bounds held 1 300 3 decoded_300

varint_32-ne-stuck_example : decode_varint_32 (200 ∷ 200 ∷ []) 0 ≢ stuck
varint_32-ne-stuck_example = varint_32-ne-stuck (200 ∷ 200 ∷ []) 0

decode_delimited-encode_delimited_example :
    decode_delimited parse (encode_delimited serialize front (5 ∷ 6 ∷ []) ++ 7 ∷ []) (length front)
    ≡ ok (5 ∷ 6 ∷ [], length (encode_delimited serialize front (5 ∷ 6 ∷ [])))
decode_delimited-encode_delimited_example =
    decode_delimited-encode_delimited parse serialize front (5 ∷ 6 ∷ []) (7 ∷ []) (ground arith)
      refl

decode_delimited_truncated_example : decode_delimited parse (2 ∷ 5 ∷ []) 0 ≡ raised partial_message
unfolding encode_delimited
decode_delimited_truncated_example =
    decode_delimited_truncated parse serialize (5 ∷ 6 ∷ []) (2 ∷ 5 ∷ []) 6 [] (ground arith) refl
      refl

abbrev two_reads : List (List ℕ)
two_reads = (2 ∷ 5 ∷ []) ∷ (6 ∷ 1 ∷ 7 ∷ []) ∷ []

two_reads-NonEmpty : All NonEmpty two_reads
two_reads-NonEmpty = ((λ e. cc), ((λ e. cc), tt))

abbrev one_read : List (List ℕ)
one_read = (2 ∷ 5 ∷ 6 ∷ 1 ∷ 7 ∷ []) ∷ []

reader_loop_chunks_example :
    reader_loop parse collect on_eof two_reads (reading [] [])
    ≡ reader_loop parse collect on_eof one_read (reading [] [])
reader_loop_chunks_example =
    reader_loop_chunks parse collect on_eof [] two_reads one_read two_reads-NonEmpty ((λ e. cc), tt)
      refl

reader_loop-ne-out_of_rounds_example :
    reader_loop parse collect on_eof two_reads (reading [] []) ≢ out_of_rounds
reader_loop-ne-out_of_rounds_example =
    reader_loop-ne-out_of_rounds parse collect on_eof [] two_reads two_reads-NonEmpty

reader_loop-handle_all_example :
    reader_loop parse collect on_eof two_reads (reading [] [])
    ≡ handle_all collect [] [] ((5 ∷ 6 ∷ []) ∷ (7 ∷ []) ∷ [])
unfolding encode_delimited
reader_loop-handle_all_example =
    reader_loop-handle_all parse serialize collect on_eof [] ((5 ∷ 6 ∷ []) ∷ (7 ∷ []) ∷ []) []
      two_reads ((ground arith, refl), ((ground arith, refl), tt)) (nothing refl) two_reads-NonEmpty
      refl
