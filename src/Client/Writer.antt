-- ===== src/Client/Writer.antt =====
-- The writing side of `BaseRedisClient`: `_write_or_buffer_request` and
-- `_write_buffered_requests_to_socket`. Between two awaits a task runs alone, so each function here
-- is the code from one await to the next: up to `await self._writer.drain()`, and behind it.
pub mod Delivery
use glide_for_redis.Common.{ℕ, Bool, true, false, List, [], ◌∷◌, ◌++◌, length, ltb, if◌then◌else◌}
use glide_for_redis.Codec.{encode_delimited}
use glide_for_redis.Protocol.{TRequest}

-- `writer_lock` says whether the lock is held; `written` is all that was passed to
-- `self._writer.write`.
pub record Writer : Type 0 where
  pub buffered_requests : List TRequest
  pub writer_lock : Bool
  pub written : List ℕ

abbrev pub new_writer : Writer
new_writer = record { buffered_requests = []; writer_lock = false; written = [] }

module _ (serialize : TRequest → List ℕ) where
  -- `for request in requests: ProtobufCodec.encode_delimited(b_arr, request)`
  unfoldable pub encode_requests : List ℕ → List TRequest → List ℕ
  encode_requests b_arr [] = b_arr
  encode_requests b_arr (request ∷ requests) =
      encode_requests (encode_delimited serialize b_arr request) requests

  unfoldable pub write_buffered_requests_to_socket : Writer → Writer
  unfolding encode_requests
  write_buffered_requests_to_socket self = record self {
    buffered_requests = [];
    written = self.written ++ encode_requests [] self.buffered_requests;
  }

  -- One turn of `while len(self._buffered_requests) > 0`, or the release of the lock behind it.
  unfoldable pub write_loop : Writer → Writer
  unfolding write_buffered_requests_to_socket
  write_loop self =
      if ltb 0 (length self.buffered_requests)
      then write_buffered_requests_to_socket self
      else record self { writer_lock = false }

  -- From the call on: the request is buffered, and written if no other task holds the lock.
  unfoldable pub write_or_buffer_request : Writer → TRequest → Writer
  unfolding write_loop
  write_or_buffer_request self request =
      let buffered = record self { buffered_requests = self.buffered_requests ++ request ∷ [] } in
      if self.writer_lock then buffered else write_loop (record buffered { writer_lock = true })

-- `finally`, after an exception from `drain`.
unfoldable pub drain_failed : Writer → Writer
drain_failed self = record self { writer_lock = false }
