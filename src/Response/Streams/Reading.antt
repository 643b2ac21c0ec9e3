-- ===== src/Response/Streams/Reading.antt =====
-- response_coordinator/coordinator.py: the loop that reads a stream.
use graphon.Prelude.{
  ℕ, zero, suc, ◌+◌, ◌≤◌, ◌<◌, String, ◌≡◌, refl, inl, inr, false, some, List, [], ◌∷◌, length,
  le→ltb-false, ltb→lt, Bool-cases, arith,
}
use graphon.Response.{StreamChunk}
use graphon.Response.Streams.{
  Streams, buffer_of, element, pop_stream_chunk, has_unread_stream, read_stream, read_all,
}
use graphon.Response.Streams.Queue.{same_selector_refl}

element-found :
    (xs : List StreamChunk) (n : ℕ) → n < length xs → (e : StreamChunk) × (element xs n ≡ some e)
element-found [] n h = absurd (omega arith)
element-found (x ∷ xs) zero h = (x, refl)
element-found (x ∷ xs) (suc n) h = element-found xs n (omega arith)

-- A pop with something unread moves the position by one and keeps the buffer.
pop-position :
    (key : List String) (s : Streams) (n : ℕ)
    → s.stream_positions key < length (buffer_of s key)
    → length (buffer_of s key) ≤ suc n + s.stream_positions key
    → length (buffer_of (pop_stream_chunk key s).1 key)
      ≤ n + (pop_stream_chunk key s).1.stream_positions key
unfolding pop_stream_chunk
pop-position key s n inside enough =
    let (e, at_e) = element-found (buffer_of s key) (s.stream_positions key) inside in
    rw (at_e, same_selector_refl key) (omega arith)

-- Enough rounds read the stream to its end.
pub read_stream-unread :
    (n : ℕ) (key : List String) (s : Streams)
    → length (buffer_of s key) ≤ n + s.stream_positions key
    → has_unread_stream (read_stream n key s).1 key ≡ false
unfolding read_stream has_unread_stream
read_stream-unread zero key s h =
    le→ltb-false (s.stream_positions key) (length (buffer_of s key)) (omega arith)
read_stream-unread (suc n) key s h = elim (Bool-cases (has_unread_stream s key)) [
  | inl unread ↦ rw unread (
      read_stream-unread n key (pop_stream_chunk key s).1
        (pop-position key s n (ltb→lt _ _ unread) h))
  | inr no_more ↦ rw no_more no_more
]

pub read_all-unread :
    (key : List String) (s : Streams) → has_unread_stream (read_all key s).1 key ≡ false
unfolding read_all
read_all-unread key s = read_stream-unread _ key s (omega arith)
