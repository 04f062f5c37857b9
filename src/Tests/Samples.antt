-- ===== src/Tests/Samples.antt =====
-- A window in which a chat app announces a file while a mail app comes to the front, and a batch.
use di_pecs.Base.{ℕ, false, none, some, List, [], ◌∷◌}
use di_pecs.Base.Int.{pos}
use di_pecs.Spec.Event.{
  AppTransition, ExtensionCategory, FsActivityType, NotificationRawEvent, ScriptHint, SemanticHint,
  SourceTier, TextHint,
}
use di_pecs.Spec.Sanitized.{
  SanitizedEvent, SanitizedEventType, app_transition, file_activity, notification,
}
use di_pecs.Spec.Context.{StructuredContext}
use di_pecs.Spec.Intent.{
  ActionType, ActionUrgency, Intent, IntentBatch, IntentType, RiskLevel, SuggestedAction,
}

abbrev pub event : SanitizedEventType → SanitizedEvent
event event_type = record {
  event_id = "e";
  timestamp_ms = pos 5;
  event_type = event_type;
  source_tier = SourceTier.public_api;
  app_package = none;
  uid = none;
}

abbrev pub plain : TextHint
plain = record { length_chars = 4; script = ScriptHint.latin; is_emoji_only = false }

abbrev pub chat : SanitizedEventType
chat = notification "com.chat" none none plain plain (SemanticHint.file_mention ∷ []) false none

abbrev pub mail : SanitizedEventType
mail = app_transition "com.mail" none AppTransition.foreground

abbrev pub document : SanitizedEventType
document = file_activity (some "com.mail") ExtensionCategory.document FsActivityType.read false

abbrev pub window_events : List SanitizedEvent
window_events = event chat ∷ event mail ∷ event document ∷ []

abbrev pub in_order : List (ExtensionCategory × ℕ) → List (ExtensionCategory × ℕ)
in_order entries = entries

unfoldable pub context : StructuredContext
context = record {
  window_id = "w";
  window_start_ms = pos 0;
  window_end_ms = pos 10000;
  duration_secs = 10;
  events = window_events;
  summary = record {
    foreground_apps = "com.mail" ∷ [];
    notified_apps = "com.chat" ∷ [];
    all_semantic_hints = SemanticHint.file_mention ∷ [];
    file_activity = (ExtensionCategory.document, 1) ∷ [];
    latest_system_status = none;
    source_tier = SourceTier.public_api;
  };
}

abbrev pub keep_mail : SuggestedAction
keep_mail = record {
  action_type = ActionType.keep_alive;
  target = some "com.mail";
  urgency = ActionUrgency.immediate;
}

abbrev pub warm_later : SuggestedAction
warm_later = record {
  action_type = ActionType.pre_warm_process;
  target = some "com.mail";
  urgency = ActionUrgency.deferred;
}

abbrev pub open_mail : Intent ℕ
open_mail = record {
  intent_id = "i";
  intent_type = IntentType.open_app "com.mail";
  confidence = 80;
  risk_level = RiskLevel.low;
  suggested_actions = keep_mail ∷ warm_later ∷ keep_mail ∷ [];
  rationale_tags = [];
}

abbrev pub unsure : Intent ℕ
unsure = record open_mail { confidence = 10; suggested_actions = keep_mail ∷ [] }

abbrev pub batch : IntentBatch ℕ
batch = record {
  window_id = "w";
  intents = open_mail ∷ unsure ∷ [];
  generated_at_ms = pos 10000;
  model = "sample";
}

abbrev pub posted : NotificationRawEvent
posted = record {
  timestamp_ms = pos 5;
  package_name = "com.chat";
  category = none;
  channel_id = none;
  raw_title = "Ann";
  raw_text = "report.pdf";
  title_hint = some plain;
  text_hint = some plain;
  semantic_hints = SemanticHint.file_mention ∷ [];
  is_ongoing = false;
  group_key = some "g";
  has_picture = false;
}
