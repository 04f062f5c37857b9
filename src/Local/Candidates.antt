-- ===== src/Local/Candidates.antt =====
-- crates/aios-agent/src/backends/local_evaluator.rs: from the candidates of a window to its intents.
pub mod Keys
pub mod Final
use di_pecs.Base.{
  ℕ, zero, suc, String, Bool, true, false, Option, none, some, List, [], ◌∷◌, ◌++◌, ◌&&◌, ◌||◌, not,
  is_empty, length, ltb, map, if◌then◌else◌,
}
use di_pecs.Base.Text.{str_eq, starts_with, strip_prefix, concat, member}
use di_pecs.Base.Maps.{Map, le_str, sort_by, take}
use di_pecs.Base.Floats.{Floats}
use di_pecs.Spec.Event.{ExtensionCategory}
use di_pecs.Spec.Intent.{ActionType, Intent, IntentType, RiskLevel, SuggestedAction, action_name}
use di_pecs.Prefetch.{looks_like_package_name}
use di_pecs.Local.Maps.{get, put, value_or}
use di_pecs.Local.Score.{Arithmetic, Score}
use di_pecs.Local.Signals.{WindowSignals}

pub record IntentCandidate (F : Type 0) : Type 0 where
  pub intent_type : IntentType
  pub confidence : F
  pub actions : List SuggestedAction
  pub tags : List String

-- `IntentCandidate::new`
unfoldable pub new_candidate :
    {F : Type 0} → IntentType → Score F → List SuggestedAction → List String → IntentCandidate F
new_candidate intent_type score actions tags = record {
  intent_type = intent_type;
  confidence = score.value;
  actions = actions;
  tags = tags ++ score.tags;
}

unfoldable pub is_safe_prefetch_target : String → Bool
is_safe_prefetch_target target =
    starts_with target "url:https://" || starts_with target "uri:content://"

abbrev pub is_package : Option String → Bool
is_package none = false
is_package (some name) = looks_like_package_name name

unfoldable pub is_safe_prewarm_target : String → WindowSignals → Bool
is_safe_prewarm_target target signals =
    if signals.screen_noninteractive && (starts_with target "pkg:" || starts_with target "notif:")
    then false
    else (starts_with target "own:"
        || starts_with target "notif:"
        || is_package (strip_prefix target "pkg:"))

unfoldable pub is_policy_aware_action : ActionType → Option String → WindowSignals → Bool
is_policy_aware_action ActionType.prefetch_file none signals = false
is_policy_aware_action ActionType.prefetch_file (some target) signals =
    (not signals.low_battery || signals.charging)
    && (not signals.offline && is_safe_prefetch_target target)
is_policy_aware_action ActionType.pre_warm_process none signals = false
is_policy_aware_action ActionType.pre_warm_process (some target) signals =
    is_safe_prewarm_target target signals
is_policy_aware_action ActionType.keep_alive none signals = true
is_policy_aware_action ActionType.keep_alive (some target) signals = starts_with target "work:"
is_policy_aware_action ActionType.release_memory none signals = true
is_policy_aware_action ActionType.release_memory (some target) signals =
    str_eq target "cache:prefetch" || str_eq target "cache:all"
is_policy_aware_action ActionType.no_op none signals = true
is_policy_aware_action ActionType.no_op (some target) signals = false

unfoldable pub retain_actions : WindowSignals → List SuggestedAction → List SuggestedAction
retain_actions signals [] = []
retain_actions signals (action ∷ actions) =
    let rest = retain_actions signals actions in
    if is_policy_aware_action action.action_type action.target signals then action ∷ rest else rest

abbrev pub extension_key : ExtensionCategory → String
extension_key ExtensionCategory.document = "document"
extension_key ExtensionCategory.image = "image"
extension_key ExtensionCategory.video = "video"
extension_key ExtensionCategory.audio = "audio"
extension_key ExtensionCategory.archive = "archive"
extension_key ExtensionCategory.code = "code"
extension_key ExtensionCategory.other = "other"
extension_key ExtensionCategory.unknown = "unknown"

abbrev pub intent_key : IntentType → String
intent_key (IntentType.open_app pkg) = concat "open:" pkg
intent_key (IntentType.switch_to_app pkg) = concat "switch:" pkg
intent_key (IntentType.check_notification pkg) = concat "notify:" pkg
intent_key (IntentType.handle_file ext) = concat "file:" (extension_key ext)
intent_key (IntentType.enter_context ctx) = concat "context:" ctx
intent_key IntentType.idle = "idle"

-- the parts of the actions, each behind the separator
unfoldable pub action_keys : List SuggestedAction → String
action_keys [] = ""
action_keys (action ∷ actions) = concat "|" (
    concat (action_name action.action_type)
      (concat ":" (concat (value_or "" action.target) (action_keys actions))))

unfoldable pub key_of : IntentType → List SuggestedAction → String
key_of intent_type actions = concat (intent_key intent_type) (action_keys actions)

unfoldable pub merge_tags : List String → List String → List String
merge_tags target [] = target
merge_tags target (tag ∷ source) =
    merge_tags (if member target tag then target else target ++ tag ∷ []) source

module _ {F : Type 0} where
  abbrev pub candidate_key : IntentCandidate F → String
  candidate_key candidate = key_of candidate.intent_type candidate.actions

  -- the loop body that drops actions
  unfoldable pub filter_actions : WindowSignals → IntentCandidate F → IntentCandidate F
  filter_actions signals candidate =
      let kept = retain_actions signals candidate.actions in
      record candidate {
        actions = kept;
        tags =
            if ltb (length kept) (length candidate.actions)
            then candidate.tags ++ "local:suppress:policy_aware_filter" ∷ []
            else candidate.tags;
      }

  -- `retain(|candidate| !candidate.actions.is_empty())`
  unfoldable pub retain_candidates : List (IntentCandidate F) → List (IntentCandidate F)
  retain_candidates [] = []
  retain_candidates (candidate ∷ candidates) =
      let rest = retain_candidates candidates in
      if not (is_empty candidate.actions) then candidate ∷ rest else rest

  -- `le` is `<=` on the confidences
  unfoldable pub merge : (F → F → Bool) → IntentCandidate F → IntentCandidate F → IntentCandidate F
  merge le existing candidate =
      if le candidate.confidence existing.confidence
      then record existing { tags = merge_tags existing.tags candidate.tags }
      else record candidate { tags = merge_tags candidate.tags existing.tags }

  abbrev pub merged :
      (F → F → Bool) → Option (IntentCandidate F) → IntentCandidate F → IntentCandidate F
  merged le none candidate = candidate
  merged le (some existing) candidate = merge le existing candidate

  unfoldable pub dedupe :
      (F → F → Bool) → List (IntentCandidate F) → Map (IntentCandidate F) → Map (IntentCandidate F)
  dedupe le [] deduped = deduped
  dedupe le (candidate ∷ candidates) deduped =
      let key = candidate_key candidate in
      dedupe le candidates (put key (merged le (get deduped key) candidate) deduped)

  -- by falling confidence, then by key; what cannot be compared is equal
  abbrev pub le_candidate : (F → F → Bool) → IntentCandidate F → IntentCandidate F → Bool
  le_candidate lt a b =
      if lt b.confidence a.confidence
      then true
      else if lt a.confidence b.confidence
      then false
      else le_str (candidate_key a) (candidate_key b)

  abbrev pub intent_of : IntentCandidate F → String → Intent F
  intent_of candidate id = record {
    intent_id = id;
    intent_type = candidate.intent_type;
    confidence = candidate.confidence;
    risk_level = RiskLevel.low;
    suggested_actions = candidate.actions;
    rationale_tags = candidate.tags;
  }

  -- `ids n` is the n-th new identifier
  unfoldable pub intents_of : (ℕ → String) → ℕ → List (IntentCandidate F) → List (Intent F)
  intents_of ids n [] = []
  intents_of ids n (candidate ∷ candidates) =
      intent_of candidate (ids n) ∷ intents_of ids (suc n) candidates

  -- `in_order` gives the values of the map in the order in which it holds them
  unfoldable pub finalize_candidates :
      (F → F → Bool)
      → (F → F → Bool)
      → (List (IntentCandidate F) → List (IntentCandidate F))
      → (ℕ → String)
      → List (IntentCandidate F)
      → WindowSignals
      → ℕ
      → List (Intent F)
  finalize_candidates le lt in_order ids candidates signals max_intents =
      let filtered = retain_candidates (map (filter_actions signals) candidates) in
      let deduped = map (λ entry. entry.1) (dedupe le filtered []) in
      intents_of ids 0 (take max_intents (sort_by (le_candidate lt) (in_order deduped)))
