-- ===== src/Window/Session.antt =====
-- A window over any sequence of pushes and closes.
use mathlib.Core.Path.{ap₂}
use mathlib.Core.List.{append-nil, append_assoc}
use di_pecs.Base.{
  ℕ, ◌*◌, ◌%◌, ◌<◌, ◌≡◌, refl, ap, sym, ◌∙◌, String, Option, none, some, List, [], ◌∷◌, ◌++◌, arith,
}
use di_pecs.Base.Int.{
  ℤ, pos, negsuc, IsI64, ◌+ℤ◌, ◌-ℤ◌, clamp_i64, leb_ℤ, from_bits, saturating_sub, i64_bound,
}
use di_pecs.Spec.Event.{ExtensionCategory}
use di_pecs.Spec.Context.{StructuredContext}
use di_pecs.Spec.Sanitized.{SanitizedEvent}
use di_pecs.Window.{WindowAggregator, push, close_buffer, close, is_expired}

-- what the pipeline does with a window
pub data Call : Type 0 where
  push_event : SanitizedEvent → Call
  close_at : String → ℤ → Call

abbrev pub pushed : List Call → List SanitizedEvent
pushed [] = []
pushed (push_event e ∷ calls) = e ∷ pushed calls
pushed (close_at _ _ ∷ calls) = pushed calls

abbrev pub events_of : List StructuredContext → List SanitizedEvent
events_of [] = []
events_of (c ∷ cs) = c.events ++ events_of cs

abbrev pub add_context : Option StructuredContext → List StructuredContext → List StructuredContext
add_context none cs = cs
add_context (some c) cs = c ∷ cs

module _ (map_order : List (ExtensionCategory × ℕ) → List (ExtensionCategory × ℕ)) where
  -- the window after the calls, and the contexts that it closed to, in order
  unfoldable pub session : WindowAggregator → List Call → WindowAggregator × List StructuredContext
  session w [] = (w, [])
  session w (push_event e ∷ calls) = session (push e w) calls
  session w (close_at id now_ms ∷ calls) =
      let (w', closed) = close map_order id w now_ms in
      let (w'', contexts) = session w' calls in (w'', add_context closed contexts)

  -- A close moves the buffer into the context, if there is one.
  close_buffer-events :
      (b : List SanitizedEvent) (id : String) (w : WindowAggregator) (now_ms : ℤ)
      → w.buffer ≡ b
      → (events_of (add_context (close_buffer map_order b id w now_ms).1 []) ≡ b)
        × ((close_buffer map_order b id w now_ms).0.buffer ≡ [])
  unfolding close_buffer
  close_buffer-events [] id w now_ms e = (refl, e)
  close_buffer-events (x ∷ xs) id w now_ms e = (append-nil _ ∙ e, refl)

  pub close-events :
      (id : String) (w : WindowAggregator) (now_ms : ℤ)
      → (events_of (add_context (close map_order id w now_ms).1 []) ≡ w.buffer)
        × ((close map_order id w now_ms).0.buffer ≡ [])
  unfolding close
  close-events id w now_ms = close_buffer-events w.buffer id w now_ms refl

  events_of-add_context :
      (o : Option StructuredContext) (cs : List StructuredContext)
      → events_of (add_context o cs) ≡ events_of (add_context o []) ++ events_of cs
  events_of-add_context none cs = refl
  events_of-add_context (some c) cs = simp append-nil

  -- No event is lost, doubled or moved: the events of the closed contexts, followed by those still
  -- in the buffer, are the events that were in the buffer, followed by those that were pushed.
  pub session-events :
      (w : WindowAggregator) (calls : List Call)
      → events_of (session w calls).1 ++ (session w calls).0.buffer ≡ w.buffer ++ pushed calls
  unfolding session
  session-events w [] = sym (append-nil _)
  session-events w (push_event e ∷ calls) =
      session-events (push e w) calls ∙ unfold push in append_assoc w.buffer (e ∷ []) (pushed calls)
  session-events w (close_at id now_ms ∷ calls) =
      let (moved, emptied) = close-events id w now_ms in
      ap (λ l. l ++ (session (close map_order id w now_ms).0 calls).0.buffer)
        (events_of-add_context (close map_order id w now_ms).1
          (session (close map_order id w now_ms).0 calls).1)
      ∙ append_assoc (events_of (add_context (close map_order id w now_ms).1 []))
          (events_of (session (close map_order id w now_ms).0 calls).1) _
      ∙ ap₂ ◌++◌ moved (
          session-events (close map_order id w now_ms).0 calls
          ∙ ap (λ l. l ++ pushed calls) emptied)

elapsed :
    (start now : ℤ) (length_ms : ℕ)
    → IsI64 start
    → IsI64 now
    → length_ms < i64_bound
    → leb_ℤ (from_bits (length_ms % 18446744073709551616)) (saturating_sub now start)
      ≡ leb_ℤ (start +ℤ pos length_ms) now
unfolding saturating_sub ◌+ℤ◌ ◌-ℤ◌ clamp_i64
elapsed (pos s) (pos n) m h k l = ground arith
elapsed (pos s) (negsuc n) m h k l = ground arith
elapsed (negsuc s) (pos n) m h k l = ground arith
elapsed (negsuc s) (negsuc n) m h k l = ground arith

-- For all times that an `i64` holds, and a window length that it holds in milliseconds, a window is
-- expired exactly from `window_secs` seconds after its start on.
pub is_expired_iff :
    (w : WindowAggregator) (now : ℤ)
    → IsI64 w.window_start_ms
    → IsI64 now
    → w.window_secs * 1000 < i64_bound
    → is_expired w now ≡ leb_ℤ (w.window_start_ms +ℤ pos (w.window_secs * 1000)) now
unfolding is_expired
is_expired_iff w now h k l = elapsed w.window_start_ms now (w.window_secs * 1000) h k l
