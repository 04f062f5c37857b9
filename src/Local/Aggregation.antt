-- ===== src/Local/Aggregation.antt =====
-- crates/aios-agent/src/backends/local_evaluator.rs: what the window and the memory say of apps and actions.
use di_pecs.Base.{
  ℕ, suc, String, Bool, true, false, Option, none, some, List, [], ◌∷◌, ◌++◌, ◌||◌, u32,
  if◌then◌else◌,
}
use di_pecs.Base.Int.{ℤ, pos, negsuc, leb_ℤ, saturating_sub, wrap_i64}
use di_pecs.Base.Text.{concat, contains}
use di_pecs.Base.Maps.{Map}
use di_pecs.Spec.Context.{
  ActionFeedbackRecord, FeedbackCorrectness, RecentDecisionRecord, StructuredContext,
  UserBehaviorProfile,
}
use di_pecs.Spec.Event.{AppTransition}
use di_pecs.Spec.Sanitized.{
  SanitizedEvent, SanitizedEventType, app_transition, file_activity, inter_app_interaction,
  notification,
}
use di_pecs.Local.Maps.{get, put, put_all, value_or}

pub record WindowAggregation : Type 0 where
  pub package_counts : Map ℕ
  pub notification_counts : Map ℕ
  pub file_package_counts : Map ℕ
  pub notification_timestamps : Map (List ℤ)
  pub file_timestamps : Map (List ℤ)
  pub recent_foreground_app : Option String
  pub frequent_foreground_apps : Map ℕ
  pub frequent_notifying_apps : Map ℕ
  pub recent_policy_rejections : Map ℕ
  pub recent_execution_failures : Map ℕ

-- the derived `Default`
abbrev pub no_aggregation : WindowAggregation
no_aggregation = record {
  package_counts = [];
  notification_counts = [];
  file_package_counts = [];
  notification_timestamps = [];
  file_timestamps = [];
  recent_foreground_app = none;
  frequent_foreground_apps = [];
  frequent_notifying_apps = [];
  recent_policy_rejections = [];
  recent_execution_failures = [];
}

unfoldable pub increment_count : Map ℕ → String → Map ℕ
increment_count counts key = put key (u32 (suc (value_or 0 (get counts key)))) counts

unfoldable pub push_timestamp : Map (List ℤ) → String → ℤ → Map (List ℤ)
push_timestamp timestamps key timestamp_ms =
    put key (value_or [] (get timestamps key) ++ timestamp_ms ∷ []) timestamps

-- `abs` in a release build
abbrev pub abs : ℤ → ℤ
abs (pos n) = pos n
abs (negsuc n) = wrap_i64 (pos (suc n))

abbrev pub min_of_ℤ : ℤ → Option ℤ → Option ℤ
min_of_ℤ a none = some a
min_of_ℤ a (some b) = if leb_ℤ a b then some a else some b

unfoldable pub nearest_of : List ℤ → ℤ → Option ℤ
nearest_of [] timestamp_ms = none
nearest_of (other ∷ others) timestamp_ms =
    min_of_ℤ (abs (saturating_sub timestamp_ms other)) (nearest_of others timestamp_ms)

unfoldable pub nearest_delta_ms : Option (List ℤ) → ℤ → Option ℤ
nearest_delta_ms none timestamp_ms = none
nearest_delta_ms (some timestamps) timestamp_ms = nearest_of timestamps timestamp_ms

unfoldable pub feedback_action_key : String → Option String → String
feedback_action_key action_type target = concat action_type (concat ":" (value_or "" target))

-- the aggregation, and the latest foreground transition so far
abbrev pub Progress : Type 0
Progress = WindowAggregation × Option (ℤ × String)

abbrev pub later : ℤ → String → Option (ℤ × String) → Option (ℤ × String)
later timestamp_ms package_name none = some (timestamp_ms, package_name)
later timestamp_ms package_name (some (latest_ms, app)) =
    if leb_ℤ latest_ms timestamp_ms
    then some (timestamp_ms, package_name)
    else some (latest_ms, app)

unfoldable pub aggregate_event : ℤ → SanitizedEventType → Progress → Progress
aggregate_event time (app_transition package_name _ AppTransition.foreground) (s, recent) = (
  record s { package_counts = increment_count s.package_counts package_name },
  later time package_name recent,
)
aggregate_event time (notification source_package _ _ _ _ _ _ _) (s, recent) = (
  record s {
    package_counts = increment_count s.package_counts source_package;
    notification_counts = increment_count s.notification_counts source_package;
    notification_timestamps = push_timestamp s.notification_timestamps source_package time;
  },
  recent,
)
aggregate_event time (file_activity (some pkg) _ _ _) (s, recent) = (
  record s {
    package_counts = increment_count s.package_counts pkg;
    file_package_counts = increment_count s.file_package_counts pkg;
    file_timestamps = push_timestamp s.file_timestamps pkg time;
  },
  recent,
)
aggregate_event time (inter_app_interaction (some pkg) _ _) (s, recent) =
    (record s { package_counts = increment_count s.package_counts pkg }, recent)
aggregate_event time _ progress = progress

unfoldable pub aggregate_events : List SanitizedEvent → Progress → Progress
aggregate_events [] progress = progress
aggregate_events (event ∷ events) progress =
    aggregate_events events (aggregate_event event.timestamp_ms event.event_type progress)

abbrev pub app_of : Option (ℤ × String) → Option String
app_of none = none
app_of (some (timestamp_ms, package_name)) = some package_name

abbrev pub add_profile : Option UserBehaviorProfile → WindowAggregation → WindowAggregation
add_profile none s = s
add_profile (some profile) s = record s {
  frequent_foreground_apps = put_all profile.frequent_foreground_apps s.frequent_foreground_apps;
  frequent_notifying_apps = put_all profile.frequent_notifying_apps s.frequent_notifying_apps;
}

abbrev pub is_policy_rejected : FeedbackCorrectness → Bool
is_policy_rejected FeedbackCorrectness.policy_rejected = true
is_policy_rejected _ = false

abbrev pub is_execution_failed : FeedbackCorrectness → Bool
is_execution_failed FeedbackCorrectness.execution_failed = true
is_execution_failed _ = false

abbrev pub is_some {ℓ} : {A : Type ℓ} → Option A → Bool
is_some none = false
is_some (some a) = true

unfoldable pub add_outcome : ActionFeedbackRecord → WindowAggregation → WindowAggregation
add_outcome action s =
    let key = feedback_action_key action.action_type action.target in
    let rejected =
      is_policy_rejected action.correctness
      || contains action.terminal "Denied"
      || is_some action.denial_reason in
    let failed =
      is_execution_failed action.correctness
      || contains action.terminal "Failed"
      || is_some action.error in
    record s {
      recent_policy_rejections =
          if rejected
          then increment_count s.recent_policy_rejections key
          else s.recent_policy_rejections;
      recent_execution_failures =
          if failed
          then increment_count s.recent_execution_failures key
          else s.recent_execution_failures;
    }

unfoldable pub add_outcomes : List ActionFeedbackRecord → WindowAggregation → WindowAggregation
add_outcomes [] s = s
add_outcomes (action ∷ actions) s = add_outcomes actions (add_outcome action s)

unfoldable pub add_feedback : List RecentDecisionRecord → WindowAggregation → WindowAggregation
add_feedback [] s = s
add_feedback (r ∷ rs) s = add_feedback rs (add_outcomes r.action_outcomes s)

-- `WindowAggregation::from_context`
unfoldable pub aggregation_of :
    StructuredContext → Option UserBehaviorProfile → List RecentDecisionRecord → WindowAggregation
aggregation_of context behavior_profile recent_feedback =
    let (s, recent) = aggregate_events context.events (no_aggregation, none) in
    add_feedback recent_feedback
      (add_profile behavior_profile (record s { recent_foreground_app = app_of recent }))
