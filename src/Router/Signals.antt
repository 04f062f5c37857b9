-- ===== src/Router/Signals.antt =====
-- crates/aios-agent/src/router/mod.rs: what the router reads in a window. A `HashSet` is a list without
-- repetition.
use di_pecs.Base.{ℕ, ◌+◌, Bool, true, false, List, [], ◌∷◌, any, count_if, length}
use di_pecs.Spec.Event.{AppTransition, SemanticHint}
use di_pecs.Spec.Sanitized.{
  SanitizedEvent, SanitizedEventType, app_transition, notification, file_activity,
}
use di_pecs.Window.{push_new_hints}

abbrev pub is_sensitive_hint : SemanticHint → Bool
is_sensitive_hint SemanticHint.verification_code = true
is_sensitive_hint SemanticHint.financial_context = true
is_sensitive_hint _ = false

abbrev pub is_actionable_hint : SemanticHint → Bool
is_actionable_hint SemanticHint.file_mention = true
is_actionable_hint SemanticHint.image_mention = true
is_actionable_hint SemanticHint.link_attachment = true
is_actionable_hint _ = false

-- the semantic hints of a notification
abbrev pub hints_in : SanitizedEventType → List SemanticHint
hints_in (notification _ _ _ _ _ semantic_hints _ _) = semantic_hints
hints_in _ = []

unfoldable pub privacy_score : List SanitizedEvent → ℕ
privacy_score [] = 0
privacy_score (event ∷ events) =
    count_if is_sensitive_hint (hints_in event.event_type) + privacy_score events

abbrev pub is_actionable : SanitizedEventType → Bool
is_actionable (file_activity _ _ _ _) = true
is_actionable (notification _ _ _ _ _ semantic_hints _ _) = any is_actionable_hint semantic_hints
is_actionable (app_transition _ _ AppTransition.foreground) = true
is_actionable _ = false

unfoldable pub has_local_actionable_signal : List SanitizedEvent → Bool
has_local_actionable_signal events = any (λ event. is_actionable event.event_type) events

unfoldable pub collect_hints : List SemanticHint → List SanitizedEvent → List SemanticHint
collect_hints seen [] = seen
collect_hints seen (event ∷ events) =
    collect_hints (push_new_hints seen (hints_in event.event_type)) events

unfoldable pub count_unique_semantic_hint_types : List SanitizedEvent → ℕ
count_unique_semantic_hint_types events = length (collect_hints [] events)
