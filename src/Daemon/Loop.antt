-- ===== src/Daemon/Loop.antt =====
-- crates/aios-daemon/src/pipeline.rs: the processing loop. What `select!` answers and what the clocks
-- show in each round are the arguments of the loop.
use di_pecs.Base.{
  ℕ, suc, ◌%◌, String, Bool, true, false, Option, none, some, List, [], ◌∷◌, u32, if◌then◌else◌,
}
use di_pecs.Base.Int.{ℤ}
use di_pecs.Spec.Context.{StructuredContext}
use di_pecs.Spec.Event.{ExtensionCategory, IngestedRawEvent}
use di_pecs.Spec.Sanitized.{SanitizedEvent}
use di_pecs.Airgap.{sanitize_with_tier}
use di_pecs.Window.{WindowAggregator, push, close}

pub data ProcessingEvent : Type 0 where
  raw : IngestedRawEvent → ProcessingEvent
  raw_channel_closed : ProcessingEvent
  window_expired : ProcessingEvent

unfoldable pub should_stop_processing : ProcessingEvent → Bool
should_stop_processing ProcessingEvent.raw_channel_closed = true
should_stop_processing _ = false

-- A round: the event, `timestamp_ms()`, whether the deadline has passed once the event is handled, and
-- the identifiers that an event and a window would get.
pub record Round : Type 0 where
  pub event : ProcessingEvent
  pub now_ms : ℤ
  pub is_past_deadline : Bool
  pub event_id : String
  pub window_id : String

-- The variables of the loop. `D` is the type of what processing a window changes.
pub record LoopState (D : Type 0) : Type 0 where
  pub window : WindowAggregator
  pub deps : D
  pub window_ordinal : ℕ  -- u32
  pub events_processed : ℕ  -- u64

abbrev pub sanitized :
    (String → String) → (String → String) → Round → IngestedRawEvent → SanitizedEvent
sanitized to_lowercase path_extension round ingested =
    sanitize_with_tier to_lowercase path_extension round.event_id ingested.raw_event
      ingested.source_tier

module _ (to_lowercase : String → String) (path_extension : String → String)
    (map_order : List (ExtensionCategory × ℕ) → List (ExtensionCategory × ℕ)) {D : Type 0}
    (process : ℕ → StructuredContext → D → D) where
  abbrev pub processed : WindowAggregator → Option StructuredContext → LoopState D → LoopState D
  processed window none s = record s { window = window }
  processed window (some ctx) s = record s {
    window = window;
    deps = process s.window_ordinal ctx s.deps;
    window_ordinal = u32 (suc s.window_ordinal);
  }

  -- `window.close(..)` and the processing of what it gives
  unfoldable pub close_window : Round → LoopState D → LoopState D
  close_window round s =
      let (window, closed) = close map_order round.window_id s.window round.now_ms in
      processed window closed s

  unfoldable pub take_raw : Round → IngestedRawEvent → LoopState D → LoopState D
  take_raw round ingested s = record s {
    window = push (sanitized to_lowercase path_extension round ingested) s.window;
    events_processed = suc s.events_processed % 18446744073709551616;
  }

  -- a round that does not stop the loop
  unfoldable pub step : Round → ProcessingEvent → LoopState D → LoopState D
  step round (ProcessingEvent.raw ingested) s =
      let taken = take_raw round ingested s in
      if round.is_past_deadline then close_window round taken else taken
  step round ProcessingEvent.window_expired s = close_window round s
  step round ProcessingEvent.raw_channel_closed s = s

  -- the state after the rounds, and whether the loop has returned
  unfoldable pub run_processing_loop : List Round → LoopState D → LoopState D × Bool
  run_processing_loop [] s = (s, false)
  run_processing_loop (round ∷ rounds) s =
      let rest = run_processing_loop rounds (step round round.event s) in
      if should_stop_processing round.event then (close_window round s, true) else rest
