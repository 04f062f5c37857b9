-- ===== src/Adapter/Outcome.antt =====
-- crates/aios-action/src: what both adapters answer with.
use di_pecs.Base.{String, Option, none, some}
use di_pecs.Spec.Intent.{SuggestedAction, action_name}
use di_pecs.Spec.Governance.{ActionOutcome}

-- `unwrap_or`
abbrev pub target_or : String → Option String → String
target_or absent none = absent
target_or absent (some target) = target

abbrev pub outcome_of : SuggestedAction → String → ActionOutcome
outcome_of action summary = record {
  action_type = action_name action.action_type;
  target = action.target;
  summary = summary;
  latency_us = 0;
}
