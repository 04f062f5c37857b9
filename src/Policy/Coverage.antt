-- ===== src/Policy/Coverage.antt =====
-- The decisions of a batch are those of its actions, one for each, in order.
use di_pecs.Base.{ℕ, suc, ◌≡◌, refl, ap, inl, inr, List, [], ◌∷◌, ◌++◌, map, u32, Option-cases}
use di_pecs.Base.Floats.{Floats}
use di_pecs.Spec.Context.{StructuredContext}
use di_pecs.Spec.Event.{SourceTier}
use di_pecs.Spec.Intent.{SuggestedAction, Intent, IntentBatch, CapabilityLevel, DenialReason}
use di_pecs.Spec.Governance.{PolicyActionDecision}
use di_pecs.Policy.Targets.{KnownTargets}
use mathlib.Core.Option.{Option}
use mathlib.Core.List.{map-append}
use di_pecs.Policy.{
  PolicyConfig, denied_all, evaluate_actions, check_intent, evaluate_intent, evaluate_intents,
  evaluate_batch_with_context,
}

-- where a decision belongs
abbrev pub coord_of : PolicyActionDecision → ℕ × ℕ
coord_of d = (d.intent_ordinal, d.action_ordinal)

-- the places of an intent's actions
abbrev pub action_coords : ℕ → ℕ → List SuggestedAction → List (ℕ × ℕ)
action_coords i j [] = []
action_coords i j (_ ∷ actions) = (i, u32 j) ∷ action_coords i (suc j) actions

-- the places of all the actions of a batch
abbrev pub batch_coords : {F : Type 0} → ℕ → List (Intent F) → List (ℕ × ℕ)
batch_coords n [] = []
batch_coords n (intent ∷ intents) =
    action_coords (u32 n) 0 intent.suggested_actions ++ batch_coords (suc n) intents

module _ (fl : Floats) (config : PolicyConfig fl) (capability : CapabilityLevel) where
  open fl use {F32}

  denied_all-coords :
      (i j : ℕ) (reason : DenialReason) (actions : List SuggestedAction)
      → map coord_of (denied_all fl i j reason actions) ≡ action_coords i j actions
  unfolding denied_all
  denied_all-coords i j reason [] = refl
  denied_all-coords i j reason (a ∷ actions) =
      ap (◌∷◌ (i, u32 j)) (denied_all-coords i (suc j) reason actions)

  evaluate_actions-coords :
      (known : Option KnownTargets) (i j c : ℕ) (actions : List SuggestedAction)
      → map coord_of (evaluate_actions fl config capability known i j c actions)
        ≡ action_coords i j actions
  unfolding evaluate_actions
  evaluate_actions-coords known i j c [] = refl
  evaluate_actions-coords known i j c (a ∷ actions) =
      ap (◌∷◌ (i, u32 j)) (evaluate_actions-coords known i (suc j) _ actions)

  evaluate_intent-coords :
      (known : Option KnownTargets) (tier : SourceTier) (i : ℕ) (intent : Intent F32)
      → map coord_of (evaluate_intent fl config intent i capability known tier)
        ≡ action_coords i 0 intent.suggested_actions
  unfolding evaluate_intent
  evaluate_intent-coords known tier i intent =
      elim (Option-cases (check_intent fl config capability intent)) [
        | inl e ↦
            rw (e, evaluate_intent, map)
              (evaluate_actions-coords known i 0 0 intent.suggested_actions)
        | inr (r, e) ↦
            rw (e, evaluate_intent, map) (denied_all-coords i 0 r intent.suggested_actions)
      ]

  pub evaluate_intents-coords :
      (known : Option KnownTargets) (tier : SourceTier) (n : ℕ) (intents : List (Intent F32))
      → map coord_of (evaluate_intents fl config capability known tier n intents)
        ≡ batch_coords n intents
  unfolding evaluate_intents
  evaluate_intents-coords known tier n [] = refl
  evaluate_intents-coords known tier n (intent ∷ intents) =
      rw (map-append, evaluate_intent-coords known tier (u32 n) intent)
        (rw (evaluate_intents-coords known tier (suc n) intents) refl)

  -- The decisions of a batch stand for its suggested actions, in the order of the batch: each
  -- action, approved or not, has exactly one decision, which carries its intent's and its own
  -- place as 32-bit numbers.
  pub batch_with_context-coords :
      (batch : IntentBatch F32) (ctx : StructuredContext)
      → map coord_of (evaluate_batch_with_context fl config batch capability ctx)
        ≡ batch_coords 0 batch.intents
  unfolding evaluate_batch_with_context
  batch_with_context-coords batch ctx = evaluate_intents-coords _ _ 0 batch.intents
