-- ===== src/Policy/Approval.antt =====
-- What an approval certifies.
use di_pecs.Base.{
  ℕ, zero, suc, ◌+◌, ◌≤◌, ◌≡◌, refl, true, false, Option, none, some, List, [], ◌∷◌, arith,
  get_elem?, map, Option-cases, inl, inr, if◌then◌else◌,
}
use di_pecs.Base.Floats.{Floats}
use di_pecs.Spec.Event.{SourceTier}
use di_pecs.Spec.Intent.{
  SuggestedAction, Intent, CapabilityLevel, DenialReason, risk_rank, allows_action, allows_risk,
}
use di_pecs.Spec.Governance.{PolicyVerdict}
use di_pecs.Policy.Targets.{KnownTargets}
use di_pecs.Policy.{
  PolicyConfig, is_blocked, is_deferred, check_known, denied_all, check_action, check_intent,
  evaluate_intent,
}
use di_pecs.Policy.Verdicts.{passes, verdicts, evaluate_intent_sound}

module _ (fl : Floats) (config : PolicyConfig fl) (capability : CapabilityLevel)
    (known : Option KnownTargets) where
  open fl use {F32, lt}

  -- All that the policy asks of an action and of the intent that suggests it.
  pub record IsAdmissible (intent : Intent F32) (action : SuggestedAction) : Type 0 where
    pub within_capability : risk_rank intent.risk_level ≤ risk_rank capability.max_risk
    pub within_config : risk_rank intent.risk_level ≤ risk_rank config.max_auto_risk
    pub confident : lt intent.confidence config.min_confidence ≡ false
    pub not_blocked : is_blocked config.blocked_actions action.action_type ≡ false
    pub not_deferred : is_deferred action.urgency ≡ false
    pub allowed : allows_action capability action.action_type ≡ true
    pub target_known : check_known known action ≡ none

  pub IsAdmissible-of_checks :
      (intent : Intent F32) (action : SuggestedAction)
      → check_intent fl config capability intent ≡ none
      → check_action fl config capability known action ≡ none
      → IsAdmissible intent action
  unfolding check_intent check_action allows_risk
  IsAdmissible-of_checks intent action h k = record {
    within_capability = ground arith;
    within_config = ground arith;
    confident = ground arith;
    not_blocked = ground arith;
    not_deferred = ground arith;
    allowed = ground arith;
    target_known = ground arith;
  }

  pub checks_of_IsAdmissible :
      (intent : Intent F32) (action : SuggestedAction)
      → IsAdmissible intent action
      → (check_intent fl config capability intent ≡ none)
        × (check_action fl config capability known action ≡ none)
  unfolding check_intent check_action allows_risk
  checks_of_IsAdmissible intent action h = (ground arith, ground arith)

  approved_in_verdicts :
      (n k : ℕ) (actions : List SuggestedAction)
      → get_elem? (verdicts fl config capability known n actions) k ≡ some PolicyVerdict.approved
      → (action : SuggestedAction) × (get_elem? actions k ≡ some action)
        × (check_action fl config capability known action ≡ none)
  unfolding verdicts
  approved_in_verdicts n k [] h = absurd (cc)
  approved_in_verdicts n zero (x ∷ xs) h = (x, refl, ground arith)
  approved_in_verdicts n (suc k) (x ∷ xs) h =
      approved_in_verdicts (n + (if passes fl config capability known x then 1 else 0)) k xs h

  denied_all_not_approved :
      (i j k : ℕ) (reason : DenialReason) (actions : List SuggestedAction)
      → get_elem? (map (λ d. d.verdict) (denied_all fl i j reason actions)) k
        ≡ some PolicyVerdict.approved
      → ⊥
  unfolding denied_all
  denied_all_not_approved i j k reason [] h = cc
  denied_all_not_approved i j zero reason (x ∷ xs) h = ground arith
  denied_all_not_approved i j (suc k) reason (x ∷ xs) h =
      denied_all_not_approved i (suc j) k reason xs h

  refused_not_approved :
      (tier : SourceTier) (i k : ℕ) (intent : Intent F32) (reason : DenialReason)
      → check_intent fl config capability intent ≡ some reason
      → get_elem?
          (map (λ d. d.verdict) (evaluate_intent fl config intent i capability known tier))
          k
        ≡ some PolicyVerdict.approved
      → ⊥
  unfolding evaluate_intent
  refused_not_approved tier i k intent reason e h =
      denied_all_not_approved i 0 k reason intent.suggested_actions
        (rw (e, evaluate_intent, map, get_elem?) at h)

  -- An approved decision of an intent belongs to one of its actions, and that action is admissible:
  -- its risk is within the backend's capability and the engine's configuration, its confidence is
  -- not below the floor, and it is not blocked, not deferred, allowed to the backend and aimed at a
  -- target that the check of targets accepts.
  pub approved-IsAdmissible :
      (tier : SourceTier) (i k : ℕ) (intent : Intent F32)
      → get_elem?
          (map (λ d. d.verdict) (evaluate_intent fl config intent i capability known tier))
          k
        ≡ some PolicyVerdict.approved
      → (action : SuggestedAction) × (get_elem? intent.suggested_actions k ≡ some action)
        × IsAdmissible intent action
  approved-IsAdmissible tier i k intent h =
      elim (Option-cases (check_intent fl config capability intent)) [
        | inl sound ↦
            let (a, at_k, passes_a) =
              approved_in_verdicts 0 k intent.suggested_actions
                (rw (evaluate_intent_sound fl config capability known tier i intent sound) at h) in
            (a, at_k, IsAdmissible-of_checks intent a sound passes_a)
        | inr (r, e) ↦ absurd (refused_not_approved tier i k intent r e h)
      ]
