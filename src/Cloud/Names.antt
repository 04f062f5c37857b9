-- ===== src/Cloud/Names.antt =====
-- crates/aios-agent/src/backends/cloud_llm/translate.rs: the enumerations by name.
use di_pecs.Base.{String, Option, none, some, List, [], ◌∷◌, if◌then◌else◌}
use di_pecs.Base.Text.{str_eq, concat}
use di_pecs.Spec.Event.{ExtensionCategory}
use di_pecs.Spec.Intent.{ActionType, ActionUrgency, IntentType, RiskLevel}
use di_pecs.Prefetch.{Texts}
use di_pecs.Cloud.{Fallible, ok, ok_or, then_try, normalize_enum_name}

-- a `match` on texts, as the list of its arms
unfoldable pub arm {ℓ} : {A : Type ℓ} → List (String × A) → String → Option A
arm [] name = none
arm ((key, a) ∷ arms) name = let rest = arm arms name in if str_eq name key then some a else rest

abbrev pub risk_levels : List (String × RiskLevel)
risk_levels = ("low", RiskLevel.low) ∷ ("medium", RiskLevel.medium) ∷ ("high", RiskLevel.high) ∷ []

abbrev pub action_types : List (String × ActionType)
action_types =
    ("prewarmprocess", ActionType.pre_warm_process)
    ∷ ("prefetchfile", ActionType.prefetch_file)
    ∷ ("keepalive", ActionType.keep_alive)
    ∷ ("releasememory", ActionType.release_memory)
    ∷ ("noop", ActionType.no_op)
    ∷ []

abbrev pub urgencies : List (String × ActionUrgency)
urgencies =
    ("immediate", ActionUrgency.immediate)
    ∷ ("idletime", ActionUrgency.idle_time)
    ∷ ("idle", ActionUrgency.idle_time)
    ∷ ("deferred", ActionUrgency.deferred)
    ∷ []

abbrev pub extension_categories : List (String × ExtensionCategory)
extension_categories =
    ("document", ExtensionCategory.document)
    ∷ ("image", ExtensionCategory.image)
    ∷ ("video", ExtensionCategory.video)
    ∷ ("audio", ExtensionCategory.audio)
    ∷ ("archive", ExtensionCategory.archive)
    ∷ ("code", ExtensionCategory.code)
    ∷ ("other", ExtensionCategory.other)
    ∷ ("unknown", ExtensionCategory.unknown)
    ∷ []

-- the arms of `parse_intent_type`: those that take the target, and the two others
pub data IntentArm : Type 0 where
  with_target : (String → IntentType) → IntentArm
  with_category : IntentArm
  alone : IntentArm

abbrev pub intent_types : List (String × IntentArm)
intent_types =
    ("openapp", IntentArm.with_target IntentType.open_app)
    ∷ ("switchtoapp", IntentArm.with_target IntentType.switch_to_app)
    ∷ ("checknotification", IntentArm.with_target IntentType.check_notification)
    ∷ ("handlefile", IntentArm.with_category)
    ∷ ("entercontext", IntentArm.with_target IntentType.enter_context)
    ∷ ("idle", IntentArm.alone)
    ∷ []

-- `unwrap_or`
abbrev pub text_or : String → Option String → String
text_or default none = default
text_or default (some text) = text

module _ (texts : Texts) where
  unfoldable pub parse_risk_level : String → Fallible RiskLevel
  parse_risk_level raw =
      ok_or (concat "unsupported risk_level: " raw)
        (arm risk_levels (normalize_enum_name texts raw))

  unfoldable pub parse_action_type : String → Fallible ActionType
  parse_action_type raw =
      ok_or (concat "unsupported action_type: " raw)
        (arm action_types (normalize_enum_name texts raw))

  unfoldable pub parse_action_urgency : String → Fallible ActionUrgency
  parse_action_urgency raw =
      ok_or (concat "unsupported urgency: " raw) (arm urgencies (normalize_enum_name texts raw))

  unfoldable pub parse_extension_category : String → Fallible ExtensionCategory
  parse_extension_category raw =
      ok_or (concat "unsupported extension_category: " raw)
        (arm extension_categories (normalize_enum_name texts raw))

  abbrev pub intent_of_arm : Option String → Option String → IntentArm → Fallible IntentType
  intent_of_arm target category (IntentArm.with_target make) = ok (make (text_or "" target))
  intent_of_arm target category IntentArm.with_category =
      then_try (parse_extension_category (text_or "Unknown" category))
        (λ c. ok (IntentType.handle_file c))
  intent_of_arm target category IntentArm.alone = ok IntentType.idle

  unfoldable pub parse_intent_type : String → Option String → Option String → Fallible IntentType
  parse_intent_type raw target category =
      then_try
        (ok_or (concat "unsupported intent_type: " raw)
          (arm intent_types (normalize_enum_name texts raw)))
        (intent_of_arm target category)
