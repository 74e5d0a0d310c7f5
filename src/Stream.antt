-- ===== src/Stream.antt =====
-- The loop of `_reader_loop` in python/python/glide/redis_client.py, apart from what is done with
-- one response: that is the parameter `handle`, over a state of its own, and `Client.Reader` gives
-- it. A chunk is what one `await self._reader.read(...)` returns.
pub mod Consume
pub mod Chunks
pub mod Frames
pub mod Cuts
use glide_for_redis.Common.{
  ℕ, zero, suc, ◌+◌, Option, List, [], ◌∷◌, ◌++◌, length, drop, leb, ◌==◌, if◌then◌else◌,
}
use glide_for_redis.Codec.{
  CodecException, Decoded, ok, raised, stuck, partial_message, decode_delimited,
}

-- What handling one message comes to: the loop goes on, or an exception leaves it.
pub data Handled {ℓ} (S : Type ℓ) (E : Type 0) : Type ℓ where
  carry_on : S → Handled S E
  raises : S → E → Handled S E

-- The reader between two reads, with `remaining_read_bytes`, or after its end.
-- `out_of_rounds` is no state of the program: the bound on rounds ran out.
pub data Reading {ℓ} (S : Type ℓ) (E : Type 0) : Type ℓ where
  reading : S → List ℕ → Reading S E
  ended : S → E → Reading S E
  undecodable : S → CodecException → Reading S E
  out_of_rounds : Reading S E

module _ {ℓ} {S : Type ℓ} {M E : Type 0} (parse : List ℕ → Option M)
    (handle : S → M → Handled S E) where
  -- `while offset <= len(read_bytes)`. Each round takes a byte at least.
  unfoldable pub read_messages : ℕ → S → List ℕ → List ℕ → ℕ → Reading S E
  read_messages zero s remaining read_bytes offset = out_of_rounds
  read_messages (suc rounds) s remaining read_bytes offset =
      if leb offset (length read_bytes)
      then elim (decode_delimited parse read_bytes offset) [
        | ok (response, next) ↦ elim (handle s response) [
          | carry_on s' ↦ read_messages rounds s' remaining read_bytes next
          | raises s' e ↦ ended s' e
        ]
        | raised partial_message ↦ reading s (drop offset read_bytes)
        | raised e ↦ undecodable s e
        | stuck ↦ out_of_rounds
      ]
      else reading s remaining

  -- One round of the outer loop: an empty read means that the socket was closed.
  unfoldable pub on_read : (S → Handled S E) → S → List ℕ → List ℕ → Reading S E
  unfolding read_messages
  on_read on_eof s remaining read_bytes =
      if length read_bytes == 0
      then elim (on_eof s) [ carry_on s' ↦ reading s' remaining | raises s' e ↦ ended s' e ]
      else let all_bytes = remaining ++ read_bytes in
        read_messages (length all_bytes + 1) s remaining all_bytes 0

  -- The reader over the chunks that arrive, one after the other.
  pub reader_loop : (S → Handled S E) → List (List ℕ) → Reading S E → Reading S E
  unfolding on_read
  reader_loop on_eof [] r = r
  reader_loop on_eof (chunk ∷ chunks) (reading s remaining) =
      reader_loop on_eof chunks (on_read on_eof s remaining chunk)
  reader_loop on_eof (chunk ∷ chunks) r = r
