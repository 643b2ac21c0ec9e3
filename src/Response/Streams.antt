-- ===== src/Response/Streams.antt =====
-- response_coordinator/coordinator.py: the buffers of the chunks that nodes have sent, by selector.
-- The three maps are functions: a key that is absent has no buffer and the position 0.
pub mod Queue
pub mod Reading
use graphon.Prelude.{
  ℕ, zero, suc, ◌+◌, String, ◌≡◌, Bool, true, false, ◌||◌, Option, none, some, List, [], ◌∷◌, ◌++◌,
  length, ltb, if◌then◌else◌,
}
use graphon.Exec.{Exec, Exception, value_error, pure, raise, gets, modify, ◌>>=◌, ◌>>◌}
use graphon.Response.{StreamChunk, same_selector}

pub record Streams : Type 0 where
  pub stream_buffers : List String → Option (List StreamChunk)
  pub stream_positions : List String → ℕ
  pub closed_streams : List String → Bool

abbrev pub no_streams : Streams
no_streams = record {
  stream_buffers = λ _. none;
  stream_positions = λ _. 0;
  closed_streams = λ _. false;
}

-- The value of a map at one key is replaced.
abbrev pub assign : {A : Type 0} → (List String → A) → List String → A → List String → A
assign f key a k = if same_selector key k then a else f k

abbrev pub buffered : Option (List StreamChunk) → List StreamChunk
buffered none = []
buffered (some events) = events

abbrev pub buffer_of : Streams → List String → List StreamChunk
buffer_of s key = buffered (s.stream_buffers key)

abbrev pub start_position : Option (List StreamChunk) → ℕ → ℕ
start_position none position = 0
start_position (some _) position = position

unfoldable pub append_stream_chunk : List String → StreamChunk → Exec Streams Unit
append_stream_chunk key event s =
    if s.closed_streams key
    then raise (value_error "Stream is already closed") s
    else modify
        (λ s. record s {
          stream_buffers = assign s.stream_buffers key (some (buffer_of s key ++ event ∷ []));
          stream_positions =
              assign s.stream_positions key
                (start_position (s.stream_buffers key) (s.stream_positions key));
        })
        s

-- xs[n], or None behind the end
abbrev pub element : List StreamChunk → ℕ → Option StreamChunk
element [] n = none
element (x ∷ xs) zero = some x
element (x ∷ xs) (suc n) = element xs n

abbrev popped : Option StreamChunk → List String → Streams → Option StreamChunk × Streams
popped none key s = (none, s)
popped (some event) key s = (
  some event,
  record s { stream_positions = assign s.stream_positions key (suc (s.stream_positions key)) },
)

unfoldable pub pop_stream_chunk : List String → Streams → Option StreamChunk × Streams
pop_stream_chunk key s = popped (element (buffer_of s key) (s.stream_positions key)) key s

unfoldable pub has_unread_stream : Streams → List String → Bool
has_unread_stream s key = ltb (s.stream_positions key) (length (buffer_of s key))

unfoldable pub close_stream : List String → Streams → Streams
close_stream key s = record s { closed_streams = assign s.closed_streams key true }

unfoldable pub is_stream_closed : Streams → List String → Bool
is_stream_closed s key = s.closed_streams key

abbrev listed : Option StreamChunk → List StreamChunk → List StreamChunk
listed none rest = rest
listed (some event) rest = event ∷ rest

-- `while self._has_unread_stream(...): if event := self._pop_stream_chunk(...)`, for at most as
-- many rounds as the first argument allows.
unfoldable pub read_stream : ℕ → List String → Streams → List StreamChunk × Streams
unfolding pop_stream_chunk has_unread_stream
read_stream zero key s = ([], s)
read_stream (suc rounds) key s =
    let (event, s') = pop_stream_chunk key s in
    let again = read_stream rounds key s' in
    if has_unread_stream s key then (listed event again.0, again.1) else ([], s)

-- All that the loop reads: the buffer's length is enough rounds.
unfoldable pub read_all : List String → Streams → List StreamChunk × Streams
unfolding read_stream
read_all key s = read_stream (length (buffer_of s key)) key s
