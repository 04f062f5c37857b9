-- ===== src/Local/Evaluator.antt =====
-- crates/aios-agent/src/backends/local_evaluator.rs: the candidates of a window, and the backend.
use di_pecs.Base.{
  ℕ, String, Bool, true, false, Option, none, some, List, [], ◌∷◌, ◌++◌, ◌&&◌, not, any,
  if◌then◌else◌,
}
use di_pecs.Base.Int.{ℤ}
use di_pecs.Base.Text.{concat, member}
use di_pecs.Base.Floats.{Floats}
use di_pecs.Spec.Context.{ModelInput, RecentDecisionRecord, StructuredContext, UserBehaviorProfile}
use di_pecs.Spec.Event.{AppTransition, ExtensionCategory, InteractionType, SemanticHint}
use di_pecs.Spec.Intent.{
  ActionType, ActionUrgency, DecisionBackendResult, DecisionRoute, Intent, IntentType, RiskLevel,
  SuggestedAction,
}
use di_pecs.Spec.Sanitized.{
  SanitizedEvent, SanitizedEventType, app_transition, file_activity, inter_app_interaction,
  notification,
}
use di_pecs.Prefetch.{Texts, default_prefetch_target}
use di_pecs.Local.Aggregation.{WindowAggregation, aggregation_of}
use di_pecs.Local.Boosts.{
  apply_action_feedback, apply_file_notification_boost, apply_notification_file_boost,
  apply_package_boost, boost_if, is_recent_foreground,
}
use di_pecs.Local.Candidates.{IntentCandidate, finalize_candidates, new_candidate}
use di_pecs.Local.Score.{Arithmetic, BoostGroup, add, add_if, apply_window, with_tags}
use di_pecs.Local.Signals.{WindowSignals, signals_of_context}

abbrev pub suggest : ActionType → String → ActionUrgency → SuggestedAction
suggest action_type target urgency = record {
  action_type = action_type;
  target = some target;
  urgency = urgency;
}

-- `{:?}` of an `ExtensionCategory`
abbrev pub extension_name : ExtensionCategory → String
extension_name ExtensionCategory.document = "Document"
extension_name ExtensionCategory.image = "Image"
extension_name ExtensionCategory.video = "Video"
extension_name ExtensionCategory.audio = "Audio"
extension_name ExtensionCategory.archive = "Archive"
extension_name ExtensionCategory.code = "Code"
extension_name ExtensionCategory.other = "Other"
extension_name ExtensionCategory.unknown = "Unknown"

abbrev pub is_link : SemanticHint → Bool
is_link SemanticHint.link_attachment = true
is_link _ = false

abbrev pub is_attachment : SemanticHint → Bool
is_attachment SemanticHint.file_mention = true
is_attachment SemanticHint.image_mention = true
is_attachment SemanticHint.link_attachment = true
is_attachment _ = false

module _ (texts : Texts) (fl : Floats) (ar : Arithmetic fl.F32) where
  open fl use {F32, lt, decimal}
  open ar use {le}

  module _ (signals : WindowSignals) (aggregation : WindowAggregation) (time : ℤ) where
    -- the arms of the `match` on an event; each gives the candidate that it pushes
    unfoldable pub file_candidate : Option String → ExtensionCategory → Bool → IntentCandidate F32
    file_candidate package_name category is_hot_file =
        let base = with_tags fl ar (if is_hot_file then decimal 80 else decimal 72) [] in
        let hot = add_if fl ar is_hot_file (decimal 6) "local:boost:hot_file" base in
        let known = apply_package_boost fl ar aggregation package_name hot in
        let near = apply_file_notification_boost fl ar aggregation package_name time known in
        let actions =
          suggest ActionType.prefetch_file (default_prefetch_target texts category package_name)
            ActionUrgency.idle_time
          ∷ [] in
        new_candidate (IntentType.handle_file category)
          (apply_action_feedback fl ar aggregation actions (apply_window fl ar signals false near))
          actions ("local:file_activity" ∷ concat "local:extension:" (extension_name category) ∷ [])

    unfoldable pub notification_candidate : String → List SemanticHint → Bool → IntentCandidate F32
    notification_candidate source_package hints is_ongoing =
        let base = with_tags fl ar (if is_ongoing then decimal 66 else decimal 74) [] in
        let front =
          add_if fl ar (member signals.foreground_apps source_package) (decimal 8)
            "local:boost:foreground_notification_app" base in
        let link =
          add_if fl ar (any is_link hints) (decimal 3) "local:boost:link_attachment" front in
        let known = apply_package_boost fl ar aggregation (some source_package) link in
        let near = apply_notification_file_boost fl ar aggregation source_package time known in
        let actions =
          suggest ActionType.pre_warm_process (concat "pkg:" source_package) ActionUrgency.immediate
          ∷ [] in
        new_candidate (IntentType.open_app source_package)
          (apply_action_feedback fl ar aggregation actions (apply_window fl ar signals true near))
          actions ("local:attachment_notification" ∷ [])

    unfoldable pub foreground_candidate : String → IntentCandidate F32
    foreground_candidate package_name =
        let base =
          add fl ar (decimal 4) "local:boost:foreground" (with_tags fl ar (decimal 78) []) in
        let known = apply_package_boost fl ar aggregation (some package_name) base in
        let recent =
          boost_if fl ar (is_recent_foreground aggregation package_name) BoostGroup.package_group
            (decimal 3) "local:boost:recent_foreground" known in
        let actions =
          suggest ActionType.pre_warm_process (concat "pkg:" package_name) ActionUrgency.immediate
          ∷ suggest ActionType.keep_alive "work:collector_heartbeat" ActionUrgency.immediate
          ∷ [] in
        new_candidate (IntentType.switch_to_app package_name)
          (apply_action_feedback fl ar aggregation actions (apply_window fl ar signals true recent))
          actions ("local:foreground_transition" ∷ [])

    unfoldable pub inter_app_candidate : IntentCandidate F32
    inter_app_candidate =
        let actions =
          suggest ActionType.pre_warm_process "own:resources" ActionUrgency.immediate ∷ [] in
        new_candidate (IntentType.enter_context "inter_app_interaction")
          (apply_action_feedback fl ar aggregation actions
            (apply_window fl ar signals false (with_tags fl ar (decimal 80) [])))
          actions ("local:inter_app_interaction" ∷ [])

    unfoldable pub candidates_of_event : SanitizedEventType → List (IntentCandidate F32)
    candidates_of_event (file_activity package_name category _ is_hot_file) =
        file_candidate package_name category is_hot_file ∷ []
    candidates_of_event (notification source_package _ _ _ _ hints is_ongoing _) =
        if any is_attachment hints
        then notification_candidate source_package hints is_ongoing ∷ []
        else []
    candidates_of_event (app_transition package_name _ AppTransition.foreground) =
        foreground_candidate package_name ∷ []
    candidates_of_event (inter_app_interaction _ _ InteractionType.activity_launch) =
        inter_app_candidate ∷ []
    candidates_of_event (inter_app_interaction _ _ InteractionType.share_intent) =
        inter_app_candidate ∷ []
    candidates_of_event _ = []

  unfoldable pub candidates_of :
      WindowSignals → WindowAggregation → List SanitizedEvent → List (IntentCandidate F32)
  candidates_of signals aggregation [] = []
  candidates_of signals aggregation (event ∷ events) =
      candidates_of_event signals aggregation event.timestamp_ms event.event_type
      ++ candidates_of signals aggregation events

  unfoldable pub battery_candidates : WindowSignals → WindowAggregation → List (IntentCandidate F32)
  battery_candidates signals aggregation =
      let actions =
        suggest ActionType.release_memory "cache:prefetch" ActionUrgency.immediate ∷ [] in
      let score =
        apply_action_feedback fl ar aggregation actions
          (with_tags fl ar (decimal 84) ("local:signal:low_battery" ∷ [])) in
      if signals.low_battery && not signals.charging
      then new_candidate IntentType.idle score actions ("local:low_battery" ∷ []) ∷ []
      else []

  unfoldable pub idle_window : String → Intent F32
  idle_window id = record {
    intent_id = id;
    intent_type = IntentType.idle;
    confidence = decimal 60;
    risk_level = RiskLevel.low;
    suggested_actions =
        record { action_type = ActionType.no_op; target = none; urgency = ActionUrgency.idle_time }
        ∷ [];
    rationale_tags = "local:idle_window" ∷ [];
  }

  abbrev pub or_idle : String → List (Intent F32) → List (Intent F32)
  or_idle id [] = idle_window id ∷ []
  or_idle id (intent ∷ intents) = intent ∷ intents

  module _ (in_order : List (IntentCandidate F32) → List (IntentCandidate F32))
      (ids : ℕ → String) where
    unfoldable pub evaluate_intents :
        StructuredContext
        → Option UserBehaviorProfile
        → List RecentDecisionRecord
        → List (Intent F32)
    evaluate_intents context behavior_profile recent_feedback =
        let signals = signals_of_context context in
        let aggregation = aggregation_of context behavior_profile recent_feedback in
        let candidates =
          candidates_of signals aggregation context.events
          ++ battery_candidates signals aggregation in
        or_idle (ids 0) (finalize_candidates le lt in_order ids candidates signals 5)

    abbrev pub tags_of : List (Intent F32) → List String
    tags_of [] = []
    tags_of (intent ∷ intents) = intent.rationale_tags ++ tags_of intents

    unfoldable pub evaluate_input :
        ℕ
        → StructuredContext
        → Option UserBehaviorProfile
        → List RecentDecisionRecord
        → DecisionBackendResult F32
    evaluate_input latency_us context behavior_profile recent_feedback =
        let intents = evaluate_intents context behavior_profile recent_feedback in
        record {
          route = DecisionRoute.local_evaluator;
          intent_batch = record {
            window_id = context.window_id;
            intents = intents;
            generated_at_ms = context.window_end_ms;
            model = "local-evaluator-v0.1";
          };
          rationale_tags = tags_of intents;
          latency_us = latency_us;
          error = none;
        }

    unfoldable pub evaluate : ℕ → StructuredContext → DecisionBackendResult F32
    evaluate latency_us context = evaluate_input latency_us context none []

    unfoldable pub evaluate_model_input : ℕ → ModelInput → DecisionBackendResult F32
    evaluate_model_input latency_us input =
        evaluate_input latency_us input.current_context (some input.behavior_profile)
          input.recent_feedback
