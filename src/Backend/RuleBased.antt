-- ===== src/Backend/RuleBased.antt =====
-- crates/aios-agent/src/backends/rule_based.rs: one scan of the events, then one rule after another.
use di_pecs.Base.{
  ℕ, String, Bool, true, false, Option, none, some, List, [], ◌∷◌, ◌++◌, ◌&&◌, ◌||◌, ltb, leb, any,
  length, first, if◌then◌else◌,
}
use di_pecs.Base.Text.{member}
use di_pecs.Base.Floats.{Floats}
use di_pecs.Spec.Event.{AppTransition, ScreenState, SemanticHint}
use di_pecs.Spec.Sanitized.{
  SanitizedEvent, SanitizedEventType, app_transition, notification, process_resource, screen,
  system_status,
}
use di_pecs.Spec.Context.{StructuredContext}
use di_pecs.Spec.Intent.{
  ActionType, ActionUrgency, DecisionBackendResult, DecisionRoute, Intent, IntentType, RiskLevel,
}

abbrev pub memory_pressure_rss_mb : ℕ
memory_pressure_rss_mb = 1024

abbrev pub memory_pressure_swap_mb : ℕ
memory_pressure_swap_mb = 128

-- the `let mut`s of the scan
pub record Signals : Type 0 where
  pub has_file_mention : Bool
  pub observed_foreground_apps : List String
  pub has_screen_on : Bool
  pub is_low_battery : Bool
  pub memory_pressure : Option (ℕ × Option String)

abbrev pub no_signals : Signals
no_signals = record {
  has_file_mention = false;
  observed_foreground_apps = [];
  has_screen_on = false;
  is_low_battery = false;
  memory_pressure = none;
}

abbrev pub is_file_mention : SemanticHint → Bool
is_file_mention SemanticHint.file_mention = true
is_file_mention _ = false

-- `is_none_or(|(rss, _)| *vm_rss_mb > *rss)`
abbrev pub is_worse : Option (ℕ × Option String) → ℕ → Bool
is_worse none vm_rss_mb = true
is_worse (some (rss, _)) vm_rss_mb = ltb rss vm_rss_mb

abbrev pub observe_app : Signals → String → Signals
observe_app s package_name =
    if member s.observed_foreground_apps package_name
    then s
    else record s { observed_foreground_apps = s.observed_foreground_apps ++ package_name ∷ [] }

abbrev pub observe_process : Signals → Option String → ℕ → ℕ → Signals
observe_process s package_name vm_rss_mb vm_swap_mb =
    if (leb memory_pressure_rss_mb vm_rss_mb || leb memory_pressure_swap_mb vm_swap_mb)
      && is_worse s.memory_pressure vm_rss_mb
    then record s { memory_pressure = some (vm_rss_mb, package_name) }
    else s

-- the `match` of the scan
unfoldable pub observe : Signals → SanitizedEventType → Signals
observe s (notification _ _ _ _ _ semantic_hints _ _) =
    if any is_file_mention semantic_hints then record s { has_file_mention = true } else s
observe s (app_transition package_name _ AppTransition.foreground) = observe_app s package_name
observe s (screen ScreenState.interactive) = record s { has_screen_on = true }
observe s (system_status (some pct) _ _ _ _ _) =
    if ltb pct 20 then record s { is_low_battery = true } else s
observe s (process_resource _ package_name vm_rss_mb vm_swap_mb _ _) =
    observe_process s package_name vm_rss_mb vm_swap_mb
observe s _ = s

unfoldable pub scan : Signals → List SanitizedEvent → Signals
scan s [] = s
scan s (event ∷ events) = scan (observe s event.event_type) events

-- `unwrap_or_default()`
abbrev pub or_empty : Option String → String
or_empty none = ""
or_empty (some s) = s

module _ (fl : Floats) (ids : ℕ → String) where
  open fl use {F32, decimal}

  -- An intent of the source without its identifier, which it draws when it is pushed. All are of low
  -- risk, with one action and one tag.
  abbrev pub proposal :
      IntentType → F32 → ActionType → Option String → ActionUrgency → String → String → Intent F32
  proposal intent_type confidence action_type target urgency tag id = record {
    intent_id = id;
    intent_type = intent_type;
    confidence = confidence;
    risk_level = RiskLevel.low;
    suggested_actions =
        record { action_type = action_type; target = target; urgency = urgency } ∷ [];
    rationale_tags = tag ∷ [];
  }

  abbrev pub Rule : Type 0
  Rule = Option (String → Intent F32)

  abbrev pub notified_rule : Bool → Option String → Rule
  notified_rule true app = some (
      proposal (IntentType.open_app (or_empty app)) (decimal 70) ActionType.keep_alive
        (some (or_empty app)) ActionUrgency.immediate "file_received")
  notified_rule false (some app) = some (
      proposal (IntentType.open_app app) (decimal 55) ActionType.keep_alive (some app)
        ActionUrgency.idle_time "notification_engagement")
  notified_rule false none = none

  abbrev pub foreground_rule : Option String → Rule
  foreground_rule (some target) = some (
      proposal (IntentType.switch_to_app target) (decimal 80) ActionType.keep_alive (some target)
        ActionUrgency.immediate "app_foreground_observed")
  foreground_rule none = none

  abbrev pub screen_rule : Bool → Rule
  screen_rule true = some (
      proposal IntentType.idle (decimal 60) ActionType.keep_alive (some "work:collector_heartbeat")
        ActionUrgency.idle_time "screen_on")
  screen_rule false = none

  abbrev pub battery_rule : Bool → Rule
  battery_rule true = some (
      proposal IntentType.idle (decimal 80) ActionType.release_memory (some "cache:prefetch")
        ActionUrgency.immediate "low_battery")
  battery_rule false = none

  abbrev pub memory_rule : Option (ℕ × Option String) → Rule
  memory_rule (some (_, target)) = some (
      proposal IntentType.idle (decimal 65) ActionType.release_memory target ActionUrgency.immediate
        "memory_pressure")
  memory_rule none = none

  -- `if intents.is_empty()`
  abbrev pub idle_rule : List (Intent F32) → Rule
  idle_rule [] = some (
      proposal IntentType.idle (decimal 50) ActionType.no_op none ActionUrgency.idle_time
        "idle_window")
  idle_rule (_ ∷ _) = none

  -- `intents.push`, with the next identifier
  unfoldable pub push : List (Intent F32) → Rule → List (Intent F32)
  push intents none = intents
  push intents (some intent) = intents ++ intent (ids (length intents)) ∷ []

  -- the intents before the last rule
  unfoldable pub signalled_intents : StructuredContext → List (Intent F32)
  signalled_intents context =
      let s = scan no_signals context.events in
      let told = push [] (notified_rule s.has_file_mention (first context.summary.notified_apps)) in
      let seen = push told (foreground_rule (first s.observed_foreground_apps)) in
      let lit = push seen (screen_rule s.has_screen_on) in
      let drained = push lit (battery_rule s.is_low_battery) in
      push drained (memory_rule s.memory_pressure)

  unfoldable pub generate_intents : StructuredContext → List (Intent F32)
  generate_intents context =
      let intents = signalled_intents context in push intents (idle_rule intents)

  unfoldable pub all_tags : List (Intent F32) → List String
  all_tags [] = []
  all_tags (intent ∷ intents) = intent.rationale_tags ++ all_tags intents

  unfoldable pub evaluate : ℕ → StructuredContext → DecisionBackendResult F32
  evaluate latency_us context =
      let intents = generate_intents context in
      record {
        route = DecisionRoute.rule_based;
        intent_batch = record {
          window_id = context.window_id;
          intents = intents;
          generated_at_ms = context.window_end_ms;
          model = "rule-based-v0.3";
        };
        rationale_tags = all_tags intents;
        latency_us = latency_us;
        error = none;
      }
