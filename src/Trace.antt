-- ===== src/Trace.antt =====
-- crates/aios-core/src/trace_engine.rs and crates/aios-spec/src/trace.rs: a replay is compared with a
-- golden trace. A divergence of an intent is a value where the source has the text that shows it.
-- `sanitize_with_tier` draws a new identifier for each event, so it gets the event's place.
pub mod Equality
pub mod Divergences
pub mod Reflexive
pub mod Replay
use di_pecs.Base.{
  ℕ, zero, suc, ◌+◌, ◌-◌, String, Bool, true, false, Option, none, some, List, [], ◌∷◌, ◌++◌, ◌&&◌,
  not, ◌==◌, min, max, length, is_empty, if◌then◌else◌,
}
use di_pecs.Base.Int.{ℤ}
use di_pecs.Base.Text.{str_eq}
use di_pecs.Spec.Event.{RawEvent, SourceTier}
use di_pecs.Spec.Sanitized.{SanitizedEvent}
use di_pecs.Spec.Intent.{Intent, IntentBatch, SuggestedAction, action_eq, risk_rank}
use Equality.{option_eq, list_eq, event_type_eq, tier_eq, intent_type_eq, urgency_eq, bool_eq}

pub record ExecutedAction : Type 0 where
  pub action_type : String
  pub target : Option String
  pub executed_at_ms : ℤ
  pub success : Bool
  pub error_reason : Option String

pub record GoldenTrace (F : Type 0) : Type 0 where
  pub trace_id : String
  pub window_start_ms : ℤ
  pub window_end_ms : ℤ
  pub raw_events : List RawEvent
  pub expected_sanitized : List SanitizedEvent
  pub expected_intents : IntentBatch F
  pub expected_actions : List ExecutedAction
  pub source_tiers : List SourceTier

pub data IntentDifference : Type 0 where
  intent_type risk_level confidence rationale_tags suggested_actions_count : IntentDifference
  suggested_action : ℕ → IntentDifference

pub data PolicyDivergence : Type 0 where
  model_mismatch intent_count_mismatch : PolicyDivergence
  intent : ℕ → IntentDifference → PolicyDivergence

pub record ReplayResult : Type 0 where
  pub trace_id : String
  pub sanitization_match : Bool
  pub sanitization_divergences : List ℕ
  pub policy_match : Bool
  pub policy_divergences : List PolicyDivergence
  pub execution_match : Bool
  pub execution_divergences : List ℕ

unfoldable pub all_match : ReplayResult → Bool
all_match r = r.sanitization_match && r.policy_match && r.execution_match

-- the loop over the zipped lists; `i` counts from 0
unfoldable pub differing {ℓ} : {A : Type ℓ} → (A → A → Bool) → ℕ → List A → List A → List ℕ
differing eq i (x ∷ xs) (y ∷ ys) =
    let rest = differing eq (suc i) xs ys in if eq x y then rest else i ∷ rest
differing eq i [] ys = []
differing eq i (x ∷ xs) [] = []

-- `n` numbers from `i` on
unfoldable pub count_from : ℕ → ℕ → List ℕ
count_from i zero = []
count_from i (suc n) = i ∷ count_from (suc i) n

-- the loop, and the indices that only one list has: what both users of this scheme do
unfoldable pub divergences {ℓ} : {A : Type ℓ} → (A → A → Bool) → List A → List A → List ℕ
divergences eq xs ys =
    let lo = min (length xs) (length ys) in
    differing eq 0 xs ys ++ count_from lo (max (length xs) (length ys) - lo)

unfoldable pub sanitized_eq : SanitizedEvent → SanitizedEvent → Bool
sanitized_eq a b =
    event_type_eq a.event_type b.event_type
    && tier_eq a.source_tier b.source_tier
    && option_eq str_eq a.app_package b.app_package
    && option_eq ◌==◌ a.uid b.uid

unfoldable pub executed_eq : ExecutedAction → ExecutedAction → Bool
executed_eq a b =
    str_eq a.action_type b.action_type
    && option_eq str_eq a.target b.target
    && bool_eq a.success b.success
    && option_eq str_eq a.error_reason b.error_reason

unfoldable pub execution_divergences : List ExecutedAction → List ExecutedAction → List ℕ
execution_divergences expected actual = divergences executed_eq expected actual

unfoldable pub suggested_eq : SuggestedAction → SuggestedAction → Bool
suggested_eq a b =
    action_eq a.action_type b.action_type
    && option_eq str_eq a.target b.target
    && urgency_eq a.urgency b.urgency

-- the loop over the zipped actions; `j` counts from 0
unfoldable pub first_suggested :
    ℕ → List SuggestedAction → List SuggestedAction → Option IntentDifference
first_suggested j (e_act ∷ es) (a_act ∷ actual) =
    let rest = first_suggested (suc j) es actual in
    if not (suggested_eq e_act a_act) then some (IntentDifference.suggested_action j) else rest
first_suggested j [] actual = none
first_suggested j (e_act ∷ es) [] = none

-- `far e a` is `(e - a).abs() > f32::EPSILON`.
module _ (F : Type 0) (far : F → F → Bool) where
  unfoldable pub intent_diff : Intent F → Intent F → Option IntentDifference
  intent_diff expected actual =
      if not (intent_type_eq expected.intent_type actual.intent_type)
      then some IntentDifference.intent_type
      else if not (risk_rank expected.risk_level == risk_rank actual.risk_level)
      then some IntentDifference.risk_level
      else if far expected.confidence actual.confidence
      then some IntentDifference.confidence
      else if not (list_eq str_eq expected.rationale_tags actual.rationale_tags)
      then some IntentDifference.rationale_tags
      else if not (length expected.suggested_actions == length actual.suggested_actions)
      then some IntentDifference.suggested_actions_count
      else first_suggested 0 expected.suggested_actions actual.suggested_actions

  -- the loop over the zipped intents; `i` counts from 0
  unfoldable pub differing_intents : ℕ → List (Intent F) → List (Intent F) → List PolicyDivergence
  differing_intents i (e ∷ es) (a ∷ actual) =
      let rest = differing_intents (suc i) es actual in
      elim (intent_diff e a) [ some reason ↦ PolicyDivergence.intent i reason ∷ rest | none ↦ rest ]
  differing_intents i [] actual = []
  differing_intents i (e ∷ es) [] = []

  unfoldable pub intent_divergences : IntentBatch F → IntentBatch F → List PolicyDivergence
  intent_divergences expected actual =
      (if not (str_eq expected.model actual.model)
        then PolicyDivergence.model_mismatch ∷ []
        else [])
      ++ (if not (length expected.intents == length actual.intents)
          then PolicyDivergence.intent_count_mismatch ∷ []
          else [])
      ++ differing_intents 0 expected.intents actual.intents

  module _ (sanitize_with_tier : ℕ → RawEvent → SourceTier → SanitizedEvent) where
    -- the events zipped with the tiers, which go on with `PublicApi`; `i` counts from 0
    unfoldable pub sanitize_all : ℕ → List RawEvent → List SourceTier → List SanitizedEvent
    sanitize_all i [] tiers = []
    sanitize_all i (raw ∷ raws) [] =
        sanitize_with_tier i raw SourceTier.public_api ∷ sanitize_all (suc i) raws []
    sanitize_all i (raw ∷ raws) (tier ∷ tiers) =
        sanitize_with_tier i raw tier ∷ sanitize_all (suc i) raws tiers

    unfoldable pub sanitization_divergences : GoldenTrace F → List ℕ
    sanitization_divergences golden =
        divergences sanitized_eq (sanitize_all 0 golden.raw_events golden.source_tiers)
          golden.expected_sanitized

    unfoldable pub validate_sanitization : GoldenTrace F → ReplayResult
    validate_sanitization golden =
        let sanitization = sanitization_divergences golden in
        record {
          trace_id = golden.trace_id;
          sanitization_match = is_empty sanitization;
          sanitization_divergences = sanitization;
          policy_match = false;
          policy_divergences = [];
          execution_match = false;
          execution_divergences = [];
        }

    unfoldable pub validate : GoldenTrace F → IntentBatch F → List ExecutedAction → ReplayResult
    validate golden actual_intents actual_executed =
        let sanitization = sanitization_divergences golden in
        let policy = intent_divergences golden.expected_intents actual_intents in
        let execution = execution_divergences golden.expected_actions actual_executed in
        record {
          trace_id = golden.trace_id;
          sanitization_match = is_empty sanitization;
          sanitization_divergences = sanitization;
          policy_match = is_empty policy;
          policy_divergences = policy;
          execution_match = is_empty execution;
          execution_divergences = execution;
        }
