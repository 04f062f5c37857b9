-- ===== src/Cloud/Admission.antt =====
-- crates/aios-agent/src/backends/cloud_llm/translate.rs: which targets a translated action has.
use di_pecs.Base.{
  suc, ◌≤◌, String, Option, none, some, List, [], ◌∷◌, ◌≡◌, refl, inl, inr, arith, length, All,
  Bool-cases, Option-cases, ◌||◌, not, ap,
}
use di_pecs.Base.Text.{str_eq, is_empty_str, starts_with, strip_prefix}
use di_pecs.Spec.Event.{ExtensionCategory}
use di_pecs.Spec.Intent.{ActionType, SuggestedAction}
use di_pecs.Policy.Targets.{KnownTargets, check_target, is_free_target}
use di_pecs.Prefetch.{Texts, looks_like_package_name}
use di_pecs.Prefetch.Safe.{IsFree, url-IsFree, uri-IsFree, default-IsFree, free_passes}
use di_pecs.Cloud.{ModelAction, ModelIntent, normalize_enum_name}
use di_pecs.Cloud.Names.{parse_action_type}
use di_pecs.Cloud.Intents.{
  some_or_unknown, filled, infer_prefetch_target, target_in, prefetch_target_of, normalized,
  normalize_prefetch_target, target_for, urgency_of, translate_action, translate_actions,
  actions_or_idle,
}
use di_pecs.Cloud.Results.{OnOk, OnOk-then_try, OnOk-then_any, OnOk-map}

-- a target that is free, or none
abbrev pub IsFreeIfAny : Option String → Type 0
IsFreeIfAny none = Unit
IsFreeIfAny (some target) = IsFree target

-- A prefetch passes the target check, whatever the policy knows.
abbrev pub IsAdmitted : ActionType → Option String → Type 0
IsAdmitted ActionType.prefetch_file target =
    (known : KnownTargets) → check_target ActionType.prefetch_file target known ≡ none
IsAdmitted _ target = Unit

-- the actions of an intent: at least one, and its prefetches pass the target check
abbrev pub AreUsable : List SuggestedAction → Type 0
AreUsable actions = (1 ≤ length actions) × All (λ a. IsAdmitted a.action_type a.target) actions

module _ (texts : Texts) where
  open texts use {trim}

  target_in_free :
      (category : Option ExtensionCategory) (name : String)
      → IsFreeIfAny (target_in texts category name)
  target_in_free none name = tt
  target_in_free (some category) name = default-IsFree texts category (some name)

  prefetch_target_of_free :
      (category : Option ExtensionCategory) (value : String)
      → IsFreeIfAny (prefetch_target_of texts category value)
  unfolding prefetch_target_of is_free_target
  prefetch_target_of_free category value =
      elim (Bool-cases (starts_with value "url:" || starts_with value "uri:")) [
        | inl free ↦ rw free free
        | inr other ↦
            elim (Bool-cases (starts_with value "http://" || starts_with value "https://")) [
              | inl web ↦ rw (other, web) (url-IsFree value)
              | inr local ↦ elim (Bool-cases (starts_with value "content://")) [
                | inl content ↦ rw (other, local, content) (uri-IsFree value)
                | inr named ↦ elim (Option-cases (strip_prefix value "pkg:")) [
                  | inr (name, found) ↦
                      rw (other, local, named, found) (target_in_free category (trim name))
                  | inl absent ↦ elim (Bool-cases (looks_like_package_name value)) [
                    | inl looks ↦
                        rw (other, local, named, absent, looks) (target_in_free category value)
                    | inr strange ↦ rw (other, local, named, absent, strange) tt
                  ]
                ]
              ]
            ]
      ]

  normalized_free :
      (category : Option ExtensionCategory) (target : Option String)
      → IsFreeIfAny (normalized texts category target)
  normalized_free category none = tt
  normalized_free category (some target) = elim (Bool-cases (is_empty_str (trim target))) [
    | inl blank ↦ rw blank tt
    | inr text ↦ rw text (prefetch_target_of_free category (trim target))
  ]

  normalize_free :
      (target fallback : Option String) (category : Option ExtensionCategory)
      → IsFreeIfAny fallback
      → IsFreeIfAny (normalize_prefetch_target texts target fallback category)
  unfolding normalize_prefetch_target
  normalize_free target fallback category h =
      or_free (normalized texts category target) (normalized_free category target)
    where
      or_free :
          (o : Option String)
          → IsFreeIfAny o
          → IsFreeIfAny (elim o [ some value ↦ some value | none ↦ fallback ])
      or_free none free = h
      or_free (some value) free = free

  passes :
      (target : Option String) → IsFreeIfAny target → IsAdmitted ActionType.prefetch_file target
  unfolding check_target
  passes none h known = refl
  passes (some target) h known = free_passes target known h

  target_for_admitted :
      (action_type : ActionType) (target fallback : Option String)
      (category : Option ExtensionCategory)
      → IsFreeIfAny fallback
      → IsAdmitted action_type (target_for texts action_type target fallback category)
  unfolding target_for
  target_for_admitted ActionType.prefetch_file target fallback category h =
      passes (normalize_prefetch_target texts (filled texts target) fallback category)
        (normalize_free (filled texts target) fallback category h)
  target_for_admitted ActionType.pre_warm_process target fallback category h = tt
  target_for_admitted ActionType.keep_alive target fallback category h = tt
  target_for_admitted ActionType.release_memory target fallback category h = tt
  target_for_admitted ActionType.no_op target fallback category h = tt

  pub infer_target_free :
      {F : Type 0} (intent : ModelIntent F) (category : Option ExtensionCategory)
      → IsFreeIfAny (infer_prefetch_target texts intent category)
  unfolding infer_prefetch_target
  infer_target_free intent category =
      elim (Bool-cases (not (str_eq (normalize_enum_name texts intent.intent_type) "handlefile"))) [
        | inl other ↦ rw other tt
        | inr file ↦ rw file (default-IsFree texts (some_or_unknown category) intent.target)
      ]

  module _ (fallback : Option String) (category : Option ExtensionCategory)
      (h : IsFreeIfAny fallback) where
    action_admitted :
        (action : ModelAction)
        → OnOk
            (λ (a : SuggestedAction). IsAdmitted a.action_type a.target)
            (translate_action texts action fallback category)
    unfolding translate_action
    action_admitted action =
        OnOk-then_any _ (parse_action_type texts action.action_type) _ (λ action_type.
          OnOk-then_any _ (urgency_of texts action.urgency) _
            (λ urgency. target_for_admitted action_type action.target fallback category h))

    actions_admitted :
        (actions : List ModelAction)
        → OnOk
            (λ (out : List SuggestedAction).
              (length out ≡ length actions) × All (λ a. IsAdmitted a.action_type a.target) out)
            (translate_actions texts actions fallback category)
    unfolding translate_actions
    actions_admitted [] = (refl, tt)
    actions_admitted (action ∷ actions) =
        OnOk-then_try (λ (a : SuggestedAction). IsAdmitted a.action_type a.target) _
          (translate_action texts action fallback category) _ (action_admitted action)
          (λ a admitted.
            OnOk-then_try
              (λ (out : List SuggestedAction).
                (length out ≡ length actions) × All (λ a. IsAdmitted a.action_type a.target) out)
              _ (translate_actions texts actions fallback category) _ (actions_admitted actions)
              (λ out rest. (ap suc rest.0, (admitted, rest.1))))

    pub actions_usable :
        (actions : List ModelAction)
        → OnOk AreUsable (actions_or_idle texts actions fallback category)
    unfolding actions_or_idle
    actions_usable [] = (omega arith, (tt, tt))
    actions_usable (action ∷ actions) =
        OnOk-map
          (λ (out : List SuggestedAction).
            (length out ≡ suc (length actions)) × All (λ a. IsAdmitted a.action_type a.target) out)
          AreUsable (translate_actions texts (action ∷ actions) fallback category)
          (λ out h. (omega (arith, h.0), h.1)) (actions_admitted (action ∷ actions))
