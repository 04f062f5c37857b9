-- ===== src/Window/Blocks.antt =====
-- The contexts that a window closes to, against the calls as they stand.
use di_pecs.Base.{ℕ, ◌≡◌, refl, ap, String, List, [], ◌∷◌, ◌++◌, map, is_empty, if◌then◌else◌}
use di_pecs.Base.Int.{ℤ}
use di_pecs.Spec.Event.{ExtensionCategory}
use di_pecs.Spec.Context.{StructuredContext}
use di_pecs.Spec.Sanitized.{SanitizedEvent}
use di_pecs.Window.{WindowAggregator, push, close_buffer, close}
use di_pecs.Window.Session.{Call, push_event, close_at, session, add_context}

-- A close, and the events that were pushed between the close before it and itself.
pub record Block : Type 0 where
  pub events : List SanitizedEvent
  pub id : String
  pub at_ms : ℤ

-- An event before all the rest stands in the first block, or is not closed over.
abbrev pub add_first :
    SanitizedEvent → List Block × List SanitizedEvent → List Block × List SanitizedEvent
add_first e ([], open_events) = ([], e ∷ open_events)
add_first e (block ∷ blocks, open_events) =
    (record block { events = e ∷ block.events } ∷ blocks, open_events)

-- the blocks of a sequence of calls, and the events after its last close; no window has a part in it
unfoldable pub blocks_of : List Call → List Block × List SanitizedEvent
blocks_of [] = ([], [])
blocks_of (push_event e ∷ calls) = add_first e (blocks_of calls)
blocks_of (close_at id now_ms ∷ calls) =
    let (blocks, open_events) = blocks_of calls in
    (record { events = []; id = id; at_ms = now_ms } ∷ blocks, open_events)

-- what tells a context from another one
pub record Span : Type 0 where
  pub window_id : String
  pub start_ms : ℤ
  pub end_ms : ℤ
  pub span_events : List SanitizedEvent

abbrev pub span_of : StructuredContext → Span
span_of c = record {
  window_id = c.window_id;
  start_ms = c.window_start_ms;
  end_ms = c.window_end_ms;
  span_events = c.events;
}

-- One span for each block that has an event, from the close before it to its own close.
unfoldable pub spans : ℤ → List Block → List Span
spans start_ms [] = []
spans start_ms (block ∷ blocks) =
    let rest = spans block.at_ms blocks in
    if is_empty block.events
    then rest
    else record {
      window_id = block.id;
      start_ms = start_ms;
      end_ms = block.at_ms;
      span_events = block.events;
    }
      ∷ rest

blocks_of_push :
    (events : List SanitizedEvent) (id : String) (now_ms : ℤ) (calls : List Call)
    → blocks_of (map push_event events ++ close_at id now_ms ∷ calls) ≡ (
      record { events = events; id = id; at_ms = now_ms } ∷ (blocks_of calls).0,
      (blocks_of calls).1,
    )
unfolding blocks_of
blocks_of_push [] id now_ms calls = refl
blocks_of_push (e ∷ events) id now_ms calls =
    ap (add_first e) (blocks_of_push events id now_ms calls)

blocks_of_open :
    (events : List SanitizedEvent) → blocks_of (map push_event events ++ []) ≡ ([], events)
unfolding blocks_of
blocks_of_open [] = refl
blocks_of_open (e ∷ events) = ap (add_first e) (blocks_of_open events)

map-snoc :
    (events : List SanitizedEvent) (e : SanitizedEvent) (calls : List Call)
    → map push_event (events ++ e ∷ []) ++ calls ≡ map push_event events ++ push_event e ∷ calls
map-snoc [] e calls = refl
map-snoc (x ∷ events) e calls = ap (λ l. push_event x ∷ l) (map-snoc events e calls)

module _ (map_order : List (ExtensionCategory × ℕ) → List (ExtensionCategory × ℕ)) where
  close_buffer-span :
      (b : List SanitizedEvent) (id : String) (w : WindowAggregator) (now_ms : ℤ)
      (contexts : List StructuredContext) (blocks : List Block)
      → w.buffer ≡ b
      → map span_of contexts ≡ spans now_ms blocks
      → map span_of (add_context (close_buffer map_order b id w now_ms).1 contexts)
        ≡ spans w.window_start_ms (record { events = b; id = id; at_ms = now_ms } ∷ blocks)
  unfolding close_buffer spans
  close_buffer-span [] id w now_ms contexts blocks e h = h
  close_buffer-span (x ∷ xs) id w now_ms contexts blocks e h = rw (e, h) refl

  close_buffer-window :
      (b : List SanitizedEvent) (id : String) (w : WindowAggregator) (now_ms : ℤ)
      → w.buffer ≡ b
      → (close_buffer map_order b id w now_ms).0
        ≡ record w { buffer = []; window_start_ms = now_ms }
  unfolding close_buffer
  close_buffer-window [] id w now_ms e = rw e refl
  close_buffer-window (x ∷ xs) id w now_ms e = refl

  -- A window closes to one context for each close that follows at least one push since the close
  -- before it: with the id and the time of that close, from the time of the close before it, and with
  -- exactly the events pushed in between, in their order. The events after the last close are in the
  -- buffer. What is in the buffer at the beginning counts as pushed then.
  pub session-blocks :
      (w : WindowAggregator) (calls : List Call)
      → let (blocks, open_events) = blocks_of (map push_event w.buffer ++ calls) in
        (map span_of (session map_order w calls).1 ≡ spans w.window_start_ms blocks)
        × ((session map_order w calls).0.buffer ≡ open_events)
  unfolding session push close spans
  session-blocks w [] = rw (blocks_of_open w.buffer) (refl, refl)
  session-blocks w (push_event e ∷ calls) =
      rw (← map-snoc w.buffer e calls) (session-blocks (push e w) calls)
  session-blocks w (close_at id now_ms ∷ calls) =
      let next = close map_order id w now_ms in
      let closed : next.0 ≡ record w { buffer = []; window_start_ms = now_ms } =
        close_buffer-window w.buffer id w now_ms refl in
      let (same, kept) =
        session-blocks (record w { buffer = []; window_start_ms = now_ms }) calls in
      rw (blocks_of_push w.buffer id now_ms calls, closed)
        (close_buffer-span w.buffer id w now_ms _ (blocks_of calls).0 refl same, kept)
