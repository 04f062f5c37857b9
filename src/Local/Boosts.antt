-- ===== src/Local/Boosts.antt =====
-- crates/aios-agent/src/backends/local_evaluator.rs: how the aggregation changes a score.
use di_pecs.Base.{String, Bool, false, Option, none, some, List, [], ◌∷◌, leb, if◌then◌else◌}
use di_pecs.Base.Int.{ℤ, pos, leb_ℤ}
use di_pecs.Base.Text.{str_eq}
use di_pecs.Base.Floats.{Floats}
use di_pecs.Spec.Intent.{SuggestedAction, action_name}
use di_pecs.Local.Maps.{get, contains_key, value_or}
use di_pecs.Local.Aggregation.{WindowAggregation, feedback_action_key, nearest_delta_ms}
use di_pecs.Local.Score.{Arithmetic, Score, BoostGroup, add_if, add_grouped}

unfoldable pub is_recent_foreground : WindowAggregation → String → Bool
is_recent_foreground s package_name = is_app s.recent_foreground_app package_name
  where
    is_app : Option String → String → Bool
    is_app none package_name = false
    is_app (some app) package_name = str_eq app package_name

module _ (fl : Floats) (ar : Arithmetic fl.F32) where
  open fl use {F32, decimal}
  open ar use {minus}

  -- one `if` that adds a boost
  abbrev pub boost_if : Bool → BoostGroup → F32 → String → Score F32 → Score F32
  boost_if test group delta tag score =
      if test then add_grouped fl ar group delta tag score else score

  unfoldable pub apply_package_boost : WindowAggregation → Option String → Score F32 → Score F32
  apply_package_boost s none score = score
  apply_package_boost s (some pkg) score =
      let repeated =
        boost_if (leb 2 (value_or 0 (get s.package_counts pkg))) BoostGroup.package_group
          (decimal 4) "local:boost:repeated_package_in_window" score in
      let frequent =
        boost_if (contains_key s.frequent_foreground_apps pkg) BoostGroup.behavior_group (decimal 3)
          "local:boost:frequent_foreground_app" repeated in
      boost_if (contains_key s.frequent_notifying_apps pkg) BoostGroup.behavior_group (decimal 3)
        "local:boost:frequent_notifying_app" frequent

  -- the `match` of both correlation boosts, on the nearest time
  abbrev pub correlate : Option ℤ → String → String → Score F32 → Score F32
  correlate none strong weak score = score
  correlate (some delta) strong weak score =
      if leb_ℤ delta (pos 10000)
      then add_grouped fl ar BoostGroup.correlation_group (decimal 6) strong score
      else add_grouped fl ar BoostGroup.correlation_group (decimal 3) weak score

  unfoldable pub apply_file_notification_boost :
      WindowAggregation → Option String → ℤ → Score F32 → Score F32
  apply_file_notification_boost s none time score = score
  apply_file_notification_boost s (some pkg) time score =
      correlate (nearest_delta_ms (get s.notification_timestamps pkg) time)
        "local:boost:file_notification_same_package_strong"
        "local:boost:file_notification_same_package_weak" score

  unfoldable pub apply_notification_file_boost :
      WindowAggregation → String → ℤ → Score F32 → Score F32
  apply_notification_file_boost s pkg time score =
      correlate (nearest_delta_ms (get s.file_timestamps pkg) time)
        "local:boost:notification_file_activity_link_strong"
        "local:boost:notification_file_activity_link_weak" score

  unfoldable pub apply_action_feedback :
      WindowAggregation → List SuggestedAction → Score F32 → Score F32
  apply_action_feedback s [] score = score
  apply_action_feedback s (action ∷ actions) score =
      let key = feedback_action_key (action_name action.action_type) action.target in
      let rejected =
        add_if fl ar (contains_key s.recent_policy_rejections key) (minus 12)
          "local:penalty:recent_policy_rejected" score in
      apply_action_feedback s actions (
        add_if fl ar (contains_key s.recent_execution_failures key) (minus 8)
          "local:penalty:recent_execution_failed" rejected)
