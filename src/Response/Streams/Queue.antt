-- ===== src/Response/Streams/Queue.antt =====
-- response_coordinator/coordinator.py: the stream of one selector as a queue.
use graphon.Prelude.{
  ℕ, zero, suc, ◌≤◌, ◌<◌, ◌≢◌, String, ◌≡◌, refl, sym, ap, ◌∙◌, inl, inr, true, false, Option, none,
  some, List, [], ◌∷◌, ◌++◌, length, length-append, arith, eq_iff, eq_refl, Bool-cases,
  if◌then◌else◌,
}
use mathlib.Core.List.{append_assoc}
use graphon.Exec.{Result, ok, err}
use graphon.Response.{StreamChunk, same_selector, drop}
use graphon.Response.Streams.{
  Streams, no_streams, assign, buffered, buffer_of, append_stream_chunk, start_position, element,
  popped, pop_stream_chunk, close_stream,
}

pub same_selector_refl : (k : List String) → same_selector k k ≡ true
same_selector_refl [] = refl
same_selector_refl (x ∷ xs) = rw (eq_refl x) (same_selector_refl xs)

pub same_selector_eq : (k j : List String) → same_selector k j ≡ true → k ≡ j
same_selector_eq [] [] h = refl
same_selector_eq [] (y ∷ ys) h = cc
same_selector_eq (x ∷ xs) [] h = cc
same_selector_eq (x ∷ xs) (y ∷ ys) h = ground (arith, eq_iff x y, same_selector_eq xs ys)

or_event : StreamChunk → Option StreamChunk → StreamChunk
or_event x none = x
or_event x (some e) = e

pub element-lt :
    (xs : List StreamChunk) (n : ℕ) (e : StreamChunk) → element xs n ≡ some e → n < length xs
element-lt [] n e h = cc
element-lt (x ∷ xs) zero e h = omega arith
element-lt (x ∷ xs) (suc n) e h = let below = element-lt xs n e h in omega arith

pub drop-element :
    (xs : List StreamChunk) (n : ℕ) (e : StreamChunk)
    → element xs n ≡ some e
    → drop n xs ≡ e ∷ drop (suc n) xs
unfolding or_event
drop-element [] n e h = cc
drop-element (x ∷ xs) zero e h = let same : x ≡ e = ap (or_event x) h in ap (λ y. y ∷ xs) same
drop-element (x ∷ xs) (suc n) e h = drop-element xs n e h

-- A call of a stream's method.
pub data StreamCall : Type 0 where
  append : (selector : List String) (event : StreamChunk) → StreamCall
  pop : (selector : List String) → StreamCall
  close : (selector : List String) → StreamCall

-- What has gone into the stream of one selector and come out of it.
pub record Log : Type 0 where
  pub accepted : List StreamChunk
  pub read : List StreamChunk

abbrev pub empty_log : Log
empty_log = record { accepted = []; read = [] }

abbrev note_accepted : Result (Unit {0}) → StreamChunk → Log → Log
note_accepted (ok _) event log = record log { accepted = log.accepted ++ event ∷ [] }
note_accepted (err _) event log = log

abbrev note_read : Option StreamChunk → Log → Log
note_read none log = log
note_read (some event) log = record log { read = log.read ++ event ∷ [] }

-- One call, noted down if it is about the selector `k`.
unfoldable pub follow : List String → StreamCall → Log × Streams → Log × Streams
unfolding append_stream_chunk pop_stream_chunk close_stream
follow k (append selector event) (log, s) =
    let (r, s') = append_stream_chunk selector event s in
    (if same_selector selector k then note_accepted r event log else log, s')
follow k (pop selector) (log, s) =
    let (event, s') = pop_stream_chunk selector s in
    (if same_selector selector k then note_read event log else log, s')
follow k (close selector) (log, s) = (log, close_stream selector s)

unfoldable pub follow_all : List String → List StreamCall → Log × Streams → Log × Streams
unfolding follow
follow_all k [] state = state
follow_all k (call ∷ calls) state = follow_all k calls (follow k call state)

-- The log and the maps say the same.
record Agrees (k : List String) (state : Log × Streams) : Type 0 where
  held : buffer_of state.1 k ≡ state.0.accepted
  in_order : state.0.read ++ drop (state.1.stream_positions k) state.0.accepted ≡ state.0.accepted
  within : state.1.stream_positions k ≤ length state.0.accepted
  fresh : state.1.stream_buffers k ≡ none → state.1.stream_positions k ≡ 0

popped-Agrees :
    (k : List String) (log : Log) (s : Streams) (event : Option StreamChunk)
    → element (buffer_of s k) (s.stream_positions k) ≡ event
    → Agrees k (log, s)
    → Agrees k (note_read (popped event k s).0 log, (popped event k s).1)
popped-Agrees k log s none at h = h
popped-Agrees k log s (some e) at h = record {
  held = h.held;
  in_order = rw (same_selector_refl k) (
      append_assoc log.read (e ∷ []) _
      ∙ (ap (λ r. log.read ++ r)
          (sym (drop-element log.accepted (s.stream_positions k) e (rw h.held at (at)))))
      ∙ h.in_order);
  within =
      rw (same_selector_refl k)
        (element-lt log.accepted (s.stream_positions k) e (rw h.held at (at)));
  fresh = λ missing. absurd (
      let nothing : element (buffered (s.stream_buffers k)) (s.stream_positions k) ≡ none =
        rw missing in
      none≢some (sym nothing ∙ (at)));
}
  where
    none≢some : none ≢ some e
    none≢some x = cc

elsewhere-Agrees :
    (k selector : List String) (log : Log) (s : Streams) (event : Option StreamChunk)
    → same_selector selector k ≡ false
    → Agrees k (log, s)
    → Agrees k (log, (popped event selector s).1)
elsewhere-Agrees k selector log s none other h = h
elsewhere-Agrees k selector log s (some e) other h = record {
  held = h.held;
  in_order = rw other h.in_order;
  within = rw other h.within;
  fresh = rw other h.fresh;
}

pop-Agrees :
    (k selector : List String) (log : Log) (s : Streams)
    → Agrees k (log, s)
    → Agrees k (follow k (pop selector) (log, s))
unfolding follow
pop-Agrees k selector log s h = elim (Bool-cases (same_selector selector k)) [
  | inl same ↦
      let here = same_selector_eq selector k same in
      rw (here, same_selector_refl k) (popped-Agrees k log s _ refl h)
  | inr other ↦ rw other (elsewhere-Agrees k selector log s _ other h)
]

drop-append_one :
    (n : ℕ) (xs : List StreamChunk) (e : StreamChunk)
    → n ≤ length xs
    → drop n (xs ++ e ∷ []) ≡ drop n xs ++ e ∷ []
drop-append_one zero xs e h = refl
drop-append_one (suc n) [] e h = absurd (omega arith)
drop-append_one (suc n) (x ∷ xs) e h = drop-append_one n xs e (omega arith)

start_position-same :
    (o : Option (List StreamChunk)) (n : ℕ) → (o ≡ none → n ≡ 0) → start_position o n ≡ n
start_position-same none n fresh = sym (fresh refl)
start_position-same (some _) n fresh = refl

abbrev wrote : List String → StreamChunk → Streams → Streams
wrote k event s = record s {
  stream_buffers = assign s.stream_buffers k (some (buffer_of s k ++ event ∷ []));
  stream_positions =
      assign s.stream_positions k (start_position (s.stream_buffers k) (s.stream_positions k));
}

wrote-Agrees :
    (k : List String) (event : StreamChunk) (log : Log) (s : Streams)
    → Agrees k (log, s)
    → Agrees k (record log { accepted = log.accepted ++ event ∷ [] }, wrote k event s)
wrote-Agrees k event log s h = record {
  held = rw (same_selector_refl k) (ap (λ b. b ++ event ∷ []) h.held);
  in_order = rw (same_selector_refl k) (
      rw (start_position-same (s.stream_buffers k) (s.stream_positions k) h.fresh) (
        rw (drop-append_one (s.stream_positions k) log.accepted event h.within)
          (sym (append_assoc log.read _ (event ∷ [])) ∙ ap (λ b. b ++ event ∷ []) h.in_order)));
  within = rw (same_selector_refl k) (
      rw (start_position-same (s.stream_buffers k) (s.stream_positions k) h.fresh)
        (let longer = length-append log.accepted (event ∷ []) in let w = h.within in omega arith));
  fresh = rw (same_selector_refl k) (λ missing. cc);
}

append-Agrees :
    (k selector : List String) (event : StreamChunk) (log : Log) (s : Streams)
    → Agrees k (log, s)
    → Agrees k (follow k (append selector event) (log, s))
unfolding follow append_stream_chunk
append-Agrees k selector event log s h = elim (Bool-cases (same_selector selector k)) [
  | inl same ↦
      let here = same_selector_eq selector k same in
      elim (Bool-cases (s.closed_streams k)) [
        | inl closed ↦ rw (here, same_selector_refl k) (rw closed h)
        | inr open_stream ↦
            rw (here, same_selector_refl k) (rw open_stream (wrote-Agrees k event log s h))
      ]
  | inr other ↦ elim (Bool-cases (s.closed_streams selector)) [
    | inl closed ↦ rw other (rw closed h)
    | inr open_stream ↦ rw other (
        rw open_stream (record {
          held = rw other h.held;
          in_order = rw other h.in_order;
          within = rw other h.within;
          fresh = rw other h.fresh;
        }))
  ]
]

follow-Agrees :
    (k : List String) (call : StreamCall) (log : Log) (s : Streams)
    → Agrees k (log, s)
    → Agrees k (follow k call (log, s))
follow-Agrees k (append selector event) log s h = append-Agrees k selector event log s h
follow-Agrees k (pop selector) log s h = pop-Agrees k selector log s h
follow-Agrees k (close selector) log s h =
    unfold follow in
    record { held = h.held; in_order = h.in_order; within = h.within; fresh = h.fresh }

follow_all-Agrees :
    (k : List String) (calls : List StreamCall) (state : Log × Streams)
    → Agrees k state
    → Agrees k (follow_all k calls state)
unfolding follow_all
follow_all-Agrees k [] state h = h
follow_all-Agrees k (call ∷ calls) (log, s) h =
    follow_all-Agrees k calls (follow k call (log, s)) (follow-Agrees k call log s h)

-- The stream of one selector is a queue, whatever calls are made on the streams in whatever order:
-- what was read, followed by what the buffer still holds from the stored position on, is what was
-- accepted, in its order; and the position does not pass the end of the buffer.
pub stream-IsQueue :
    (k : List String) (calls : List StreamCall)
    → let (log, s) = follow_all k calls (empty_log, no_streams) in
      (log.read ++ drop (s.stream_positions k) (buffer_of s k) ≡ log.accepted)
      × (s.stream_positions k ≤ length (buffer_of s k))
stream-IsQueue k calls =
    let h =
      follow_all-Agrees k calls (empty_log, no_streams)
        (record { held = refl; in_order = refl; within = omega arith; fresh = λ _. refl }) in
    (rw h.held h.in_order, rw h.held h.within)
