-- ===== src/Tests/Daemons.antt =====
-- The processing loop: an event, another after the deadline, one more, and the channel closes.
use di_pecs.Base.{ℕ, ◌+◌, ◌%◌, String, Bool, true, false, List, [], ◌∷◌, ◌++◌, ◌≡◌, refl, length}
use di_pecs.Base.Int.{pos}
use di_pecs.Spec.Context.{StructuredContext}
use di_pecs.Spec.Event.{IngestedRawEvent, RawEvent, ScreenState, SourceTier}
use di_pecs.Window.{new}
use di_pecs.Window.Session.{events_of}
use di_pecs.Daemon.Loop.{
  should_stop_processing, LoopState, ProcessingEvent, Round, run_processing_loop,
}
use di_pecs.Daemon.Flush.{loop_flushes, process_all, received}
use di_pecs.Stats.{no_stats, total}
use di_pecs.Stats.Counting.{record_each, total-record_each}
use di_pecs.Tests.Samples.{in_order}

abbrev unchanged : String → String
unchanged text = text

abbrev keep_context : ℕ → StructuredContext → List StructuredContext → List StructuredContext
keep_context n context contexts = contexts ++ context ∷ []

abbrev screen_off : IngestedRawEvent
screen_off = record {
  raw_event =
      RawEvent.screen_state (record { timestamp_ms = pos 5; state = ScreenState.non_interactive });
  source_tier = SourceTier.public_api;
}

abbrev round_of : ProcessingEvent → Bool → Round
round_of event is_past_deadline = record {
  event = event;
  now_ms = pos 10000;
  is_past_deadline = is_past_deadline;
  event_id = "e";
  window_id = "w";
}

abbrev rounds : List Round
rounds =
    round_of (ProcessingEvent.raw screen_off) false
    ∷ round_of (ProcessingEvent.raw screen_off) true
    ∷ round_of ProcessingEvent.window_expired true
    ∷ round_of (ProcessingEvent.raw screen_off) false
    ∷ round_of ProcessingEvent.raw_channel_closed false
    ∷ []

abbrev start : LoopState (List StructuredContext)
start = record { window = new 10 (pos 0); deps = []; window_ordinal = 0; events_processed = 0 }

loop_flushes_example :
    ((run_processing_loop unchanged unchanged in_order keep_context rounds start).1 ≡ true)
    × ((contexts : List StructuredContext) × (((run_processing_loop unchanged unchanged in_order
              keep_context rounds start).0.deps
            ≡ process_all keep_context 0 contexts [])
          × ((events_of contexts ≡ [] ++ received unchanged unchanged rounds)
              × ((run_processing_loop unchanged unchanged in_order keep_context rounds
                      start).0.events_processed
                    % 18446744073709551616
                  ≡ (0 + length (received unchanged unchanged rounds)) % 18446744073709551616))))
unfolding should_stop_processing
loop_flushes_example = loop_flushes unchanged unchanged in_order keep_context rounds start refl

total-record_each_example :
    total (record_each (screen_off.raw_event ∷ screen_off.raw_event ∷ []) no_stats)
      % 18446744073709551616
    ≡ (total no_stats + 2) % 18446744073709551616
total-record_each_example =
    total-record_each (screen_off.raw_event ∷ screen_off.raw_event ∷ []) no_stats
