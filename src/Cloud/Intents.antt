-- ===== src/Cloud/Intents.antt =====
-- crates/aios-agent/src/backends/cloud_llm/translate.rs: a model's intents as the program's.
use di_pecs.Base.{
  ℕ, suc, String, Option, none, some, List, [], ◌∷◌, ◌||◌, not, is_empty, if◌then◌else◌,
}
use di_pecs.Base.Text.{str_eq, is_empty_str, starts_with, strip_prefix, concat}
use di_pecs.Base.Floats.{Floats}
use di_pecs.Spec.Context.{StructuredContext}
use di_pecs.Spec.Event.{ExtensionCategory}
use di_pecs.Spec.Intent.{
  ActionType, ActionUrgency, Intent, IntentBatch, IntentType, RiskLevel, SuggestedAction,
}
use di_pecs.Prefetch.{Texts, default_prefetch_target, looks_like_package_name}
use di_pecs.Cloud.{Fallible, ok, err, then_try, ModelAction, ModelIntent, normalize_enum_name}
use di_pecs.Cloud.Names.{
  parse_intent_type, parse_risk_level, parse_action_type, parse_action_urgency,
  parse_extension_category,
}

-- the action of an intent without any
abbrev pub idle_action : SuggestedAction
idle_action = record {
  action_type = ActionType.no_op;
  target = none;
  urgency = ActionUrgency.idle_time;
}

abbrev pub category_or_unknown : Fallible ExtensionCategory → ExtensionCategory
category_or_unknown (ok category) = category
category_or_unknown (err error) = ExtensionCategory.unknown

abbrev pub some_or_unknown : Option ExtensionCategory → ExtensionCategory
some_or_unknown none = ExtensionCategory.unknown
some_or_unknown (some category) = category

abbrev pub tags_or : List String → List String → List String
tags_or default tags = if is_empty tags then default else tags

module _ (texts : Texts) where
  open texts use {trim}

  -- `filter(|value| !value.trim().is_empty())`
  unfoldable pub filled : Option String → Option String
  filled none = none
  filled (some value) = if is_empty_str (trim value) then none else some value

  abbrev pub category_named : Option String → ExtensionCategory
  category_named none = ExtensionCategory.unknown
  category_named (some raw) = category_or_unknown (parse_extension_category texts raw)

  unfoldable pub infer_prefetch_category : {F : Type 0} → ModelIntent F → Option ExtensionCategory
  infer_prefetch_category intent =
      if not (str_eq (normalize_enum_name texts intent.intent_type) "handlefile")
      then none
      else some (category_named intent.extension_category)

  unfoldable pub infer_prefetch_target :
      {F : Type 0} → ModelIntent F → Option ExtensionCategory → Option String
  infer_prefetch_target intent category =
      if not (str_eq (normalize_enum_name texts intent.intent_type) "handlefile")
      then none
      else some (default_prefetch_target texts (some_or_unknown category) intent.target)

  abbrev pub target_in : Option ExtensionCategory → String → Option String
  target_in none name = none
  target_in (some category) name = some (default_prefetch_target texts category (some name))

  -- the closure of `and_then`
  unfoldable pub prefetch_target_of : Option ExtensionCategory → String → Option String
  prefetch_target_of category value =
      if starts_with value "url:" || starts_with value "uri:"
      then some value
      else if starts_with value "http://" || starts_with value "https://"
      then some (concat "url:" value)
      else if starts_with value "content://"
      then some (concat "uri:" value)
      else elim (strip_prefix value "pkg:") [
        | some package_name ↦ target_in category (trim package_name)
        | none ↦ if looks_like_package_name value then target_in category value else none
      ]

  abbrev pub normalized : Option ExtensionCategory → Option String → Option String
  normalized category none = none
  normalized category (some target) =
      if is_empty_str (trim target) then none else prefetch_target_of category (trim target)

  unfoldable pub normalize_prefetch_target :
      Option String → Option String → Option ExtensionCategory → Option String
  normalize_prefetch_target target fallback category = elim (normalized category target) [
    | some value ↦ some value
    | none ↦ fallback
  ]

  unfoldable pub target_for :
      ActionType → Option String → Option String → Option ExtensionCategory → Option String
  target_for ActionType.prefetch_file target fallback category =
      normalize_prefetch_target (filled target) fallback category
  target_for _ target fallback category = filled target

  abbrev pub urgency_of : Option String → Fallible ActionUrgency
  urgency_of none = ok ActionUrgency.idle_time
  urgency_of (some raw) = parse_action_urgency texts raw

  unfoldable pub translate_action :
      ModelAction → Option String → Option ExtensionCategory → Fallible SuggestedAction
  translate_action action fallback category =
      then_try (parse_action_type texts action.action_type) λ action_type.
        then_try (urgency_of action.urgency) λ urgency. ok (record {
          action_type = action_type;
          target = target_for action_type action.target fallback category;
          urgency = urgency;
        })

  unfoldable pub translate_actions :
      List ModelAction → Option String → Option ExtensionCategory → Fallible (List SuggestedAction)
  translate_actions [] fallback category = ok []
  translate_actions (action ∷ actions) fallback category =
      then_try (translate_action action fallback category)
        λ first. then_try (translate_actions actions fallback category) λ rest. ok (first ∷ rest)

  unfoldable pub actions_or_idle :
      List ModelAction → Option String → Option ExtensionCategory → Fallible (List SuggestedAction)
  actions_or_idle [] fallback category = ok (idle_action ∷ [])
  actions_or_idle (action ∷ actions) fallback category =
      translate_actions (action ∷ actions) fallback category

  module _ (fl : Floats) where
    open fl use {F32, lt, decimal}

    -- `clamp(0.0, 1.0)`
    unfoldable pub clamp_confidence : F32 → F32
    clamp_confidence c =
        if lt c (decimal 0) then decimal 0 else if lt (decimal 100) c then decimal 100 else c

    -- `id` is what `new_id` answers
    unfoldable pub translate_intent : String → ModelIntent F32 → Fallible (Intent F32)
    translate_intent id intent =
        let category = infer_prefetch_category intent in
        let fallback = infer_prefetch_target intent category in
        then_try
          (parse_intent_type texts intent.intent_type intent.target intent.extension_category)
          λ intent_type. then_try (actions_or_idle intent.actions fallback category) λ actions.
            then_try (parse_risk_level texts intent.risk_level) λ risk_level. ok (record {
              intent_id = id;
              intent_type = intent_type;
              confidence = clamp_confidence intent.confidence;
              risk_level = risk_level;
              suggested_actions = actions;
              rationale_tags = tags_or ("cloud_llm" ∷ []) intent.rationale_tags;
            })

    unfoldable pub idle_intent : String → Intent F32
    idle_intent id = record {
      intent_id = id;
      intent_type = IntentType.idle;
      confidence = decimal 50;
      risk_level = RiskLevel.low;
      suggested_actions = idle_action ∷ [];
      rationale_tags = "cloud_llm_idle_fallback" ∷ [];
    }

    -- `ids n` is the n-th new identifier
    unfoldable pub translate_each :
        (ℕ → String) → ℕ → List (ModelIntent F32) → Fallible (List (Intent F32))
    translate_each ids n [] = ok []
    translate_each ids n (intent ∷ intents) =
        then_try (translate_intent (ids n) intent)
          λ first. then_try (translate_each ids (suc n) intents) λ rest. ok (first ∷ rest)

    unfoldable pub translate_intents :
        (ℕ → String) → List (ModelIntent F32) → Fallible (List (Intent F32))
    translate_intents ids [] = ok (idle_intent (ids 0) ∷ [])
    translate_intents ids (intent ∷ intents) = translate_each ids 0 (intent ∷ intents)

    unfoldable pub idle_batch : (ℕ → String) → StructuredContext → String → IntentBatch F32
    idle_batch ids context model = record {
      window_id = context.window_id;
      intents = idle_intent (ids 0) ∷ [];
      generated_at_ms = context.window_end_ms;
      model = model;
    }
