-- ===== src/Local/Signals.antt =====
-- crates/aios-agent/src/backends/local_evaluator.rs: the state of the device in a window.
use di_pecs.Base.{ℕ, String, Bool, true, false, Option, none, some, List, [], ◌∷◌, ◌||◌, ltb}
use di_pecs.Spec.Context.{StructuredContext, SystemStatusSnapshot}
use di_pecs.Spec.Event.{NetworkType, ScreenState}
use di_pecs.Spec.Sanitized.{SanitizedEvent, SanitizedEventType, screen, system_status}

pub record WindowSignals : Type 0 where
  pub foreground_apps : List String
  pub low_battery : Bool
  pub charging : Bool
  pub cellular : Bool
  pub offline : Bool
  pub screen_noninteractive : Bool

-- `is_some_and(|pct| pct < LOW_BATTERY_THRESHOLD)`
abbrev pub is_low : Option ℕ → Bool
is_low none = false
is_low (some pct) = ltb pct 20

abbrev pub is_cellular : NetworkType → Bool
is_cellular NetworkType.cellular = true
is_cellular _ = false

abbrev pub is_offline : NetworkType → Bool
is_offline NetworkType.offline = true
is_offline _ = false

-- the signals of the summary
unfoldable pub signals_of_summary : List String → Option SystemStatusSnapshot → WindowSignals
signals_of_summary apps none = record {
  foreground_apps = apps;
  low_battery = false;
  charging = false;
  cellular = false;
  offline = false;
  screen_noninteractive = false;
}
signals_of_summary apps (some status) = record {
  foreground_apps = apps;
  low_battery = is_low status.battery_pct;
  charging = status.is_charging;
  cellular = is_cellular status.network;
  offline = is_offline status.network;
  screen_noninteractive = false;
}

abbrev pub observe_screen : ScreenState → WindowSignals → WindowSignals
observe_screen ScreenState.interactive s = s
observe_screen _ s = record s { screen_noninteractive = true }

unfoldable pub observe_event : SanitizedEventType → WindowSignals → WindowSignals
observe_event (system_status battery_pct is_charging network _ _ _) s = record s {
  low_battery = s.low_battery || is_low battery_pct;
  charging = s.charging || is_charging;
  cellular = s.cellular || is_cellular network;
  offline = s.offline || is_offline network;
}
observe_event (screen state) s = observe_screen state s
observe_event _ s = s

unfoldable pub observe_events : List SanitizedEvent → WindowSignals → WindowSignals
observe_events [] s = s
observe_events (event ∷ events) s = observe_events events (observe_event event.event_type s)

-- `WindowSignals::from_context`
unfoldable pub signals_of_context : StructuredContext → WindowSignals
signals_of_context context =
    observe_events context.events
      (signals_of_summary context.summary.foreground_apps context.summary.latest_system_status)
