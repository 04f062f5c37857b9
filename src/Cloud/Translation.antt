-- ===== src/Cloud/Translation.antt =====
-- crates/aios-agent/src/backends/cloud_llm/translate.rs: which answers can be translated.
use di_pecs.Base.{String, Bool, true, Option, none, some, List, ◌&&◌, ◌≡◌, any, all, if◌then◌else◌}
use di_pecs.Base.Text.{str_eq}
use di_pecs.Base.Floats.{Floats}
use di_pecs.Prefetch.{Texts}
use di_pecs.Cloud.{ok_or, then_try, ModelAction, ModelIntent, normalize_enum_name}
use di_pecs.Cloud.Names.{
  arm, risk_levels, action_types, urgencies, extension_categories, intent_types, text_or,
  intent_of_arm,
}
use di_pecs.Cloud.Results.{is_ok}

module _ (texts : Texts) where
  -- a name that the table has, once it is reduced to letters and digits
  abbrev pub is_named {ℓ} : {A : Type ℓ} → List (String × A) → String → Bool
  is_named table raw = any (λ entry. str_eq (normalize_enum_name texts raw) entry.0) table

  abbrev pub is_readable_urgency : Option String → Bool
  is_readable_urgency none = true
  is_readable_urgency (some raw) = is_named urgencies raw

  abbrev pub is_readable_action : ModelAction → Bool
  is_readable_action action =
      is_named action_types action.action_type && is_readable_urgency action.urgency

  -- a file intent names a category, or none
  abbrev pub is_readable_type : {F : Type 0} → ModelIntent F → Bool
  is_readable_type intent =
      if str_eq (normalize_enum_name texts intent.intent_type) "handlefile"
      then is_named extension_categories (text_or "Unknown" intent.extension_category)
      else is_named intent_types intent.intent_type

  abbrev pub is_readable : {F : Type 0} → ModelIntent F → Bool
  is_readable intent =
      is_readable_type intent
      && (all is_readable_action intent.actions && is_named risk_levels intent.risk_level)

  module _ (error : String) (target category : Option String) where
    -- the arm of a name, and whether it gives a type
    TypeByName : String → Type 0
    TypeByName name =
        is_ok (then_try (ok_or error (arm intent_types name)) (intent_of_arm texts target category))
        ≡ (if str_eq name "handlefile"
            then is_named extension_categories (text_or "Unknown" category)
            else any (λ entry. str_eq name entry.0) intent_types)
