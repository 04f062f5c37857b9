-- ===== src/Policy/Verdicts.antt =====
-- The loop over an intent's actions against a description with no counter of approvals.
use di_pecs.Base.{
  ℕ, suc, ◌+◌, min, ◌≡◌, refl, Bool, true, false, Option, none, some, List, [], ◌∷◌, ◌++◌, arith,
  leb, length, get_elem?, count_if, if◌then◌else◌, Option-cases, inl, inr, ap, map,
}
use mathlib.Core.Path.{ap₂}
use native.Mathlib.Nat.{add-zero, add_assoc, zero-add}
use di_pecs.Base.Floats.{Floats}
use di_pecs.Spec.Event.{SourceTier}
use di_pecs.Spec.Intent.{SuggestedAction, Intent, CapabilityLevel, DenialReason}
use di_pecs.Spec.Governance.{PolicyVerdict}
use di_pecs.Policy.Targets.{KnownTargets}
use di_pecs.Policy.{
  PolicyConfig, denied_all, check_action, decide_action, evaluate_actions, check_intent,
  evaluate_intent,
}

abbrev pub is_approved : PolicyVerdict → Bool
is_approved PolicyVerdict.approved = true
is_approved (PolicyVerdict.denied _) = false

abbrev pub verdict_of : Option DenialReason → PolicyVerdict
verdict_of none = PolicyVerdict.approved
verdict_of (some reason) = PolicyVerdict.denied reason

abbrev pub is_none : Option DenialReason → Bool
is_none none = true
is_none (some _) = false

module _ (fl : Floats) (config : PolicyConfig fl) (capability : CapabilityLevel)
    (known : Option KnownTargets) where
  open fl use {F32}

  -- An action that no test of its own denies.
  abbrev pub passes : SuggestedAction → Bool
  passes action = is_none (check_action fl config capability known action)

  -- The verdict on an action behind `n` that pass.
  abbrev pub action_verdict : ℕ → SuggestedAction → PolicyVerdict
  action_verdict n action =
      if leb config.max_actions_per_batch n
      then PolicyVerdict.denied DenialReason.batch_action_cap_exceeded
      else verdict_of (check_action fl config capability known action)

  -- The counter of approvals is the number of passing actions, cut at the cap.
  decide_action_lem :
      (c n : ℕ) (action : SuggestedAction)
      → c ≡ min config.max_actions_per_batch n
      → decide_action fl config capability known c action ≡ (
        action_verdict n action,
        min config.max_actions_per_batch (n + (if passes action then 1 else 0)),
      )
  unfolding decide_action
  decide_action_lem c n action h = ground arith

  -- The same loop over the actions, with the counter not cut.
  unfoldable pub verdicts : ℕ → List SuggestedAction → List PolicyVerdict
  verdicts n [] = []
  verdicts n (x ∷ xs) = action_verdict n x ∷ verdicts (n + (if passes x then 1 else 0)) xs

  pub evaluate_actions-verdicts :
      (i j c n : ℕ) (actions : List SuggestedAction)
      → c ≡ min config.max_actions_per_batch n
      → map (λ d. d.verdict) (evaluate_actions fl config capability known i j c actions)
        ≡ verdicts n actions
  unfolding evaluate_actions verdicts
  evaluate_actions-verdicts i j c n [] h = refl
  evaluate_actions-verdicts i j c n (x ∷ xs) h =
      let e = decide_action_lem c n x h in
      ap₂ ◌∷◌ (ap (λ p. p.0) e) (
        evaluate_actions-verdicts i (suc j) _ (n + (if passes x then 1 else 0)) xs
          (ap (λ p. p.1) e))

  verdicts-get :
      (n : ℕ) (xs ys : List SuggestedAction) (action : SuggestedAction)
      → get_elem? (verdicts n (xs ++ action ∷ ys)) (length xs)
        ≡ some (action_verdict (n + count_if passes xs) action)
  unfolding verdicts
  verdicts-get n [] ys action = rw add-zero
  verdicts-get n (x ∷ xs) ys action =
      rw (← add_assoc) (verdicts-get (n + (if passes x then 1 else 0)) xs ys action)

  verdicts-count :
      (n : ℕ) (actions : List SuggestedAction)
      → min config.max_actions_per_batch n + count_if is_approved (verdicts n actions)
        ≡ min config.max_actions_per_batch (n + count_if passes actions)
  unfolding verdicts
  verdicts-count n [] = omega arith
  verdicts-count n (x ∷ xs) = ground (arith, verdicts-count (n + (if passes x then 1 else 0)) xs)

  denied_all-count :
      (i j : ℕ) (reason : DenialReason) (actions : List SuggestedAction)
      → count_if is_approved (map (λ d. d.verdict) (denied_all fl i j reason actions)) ≡ 0
  unfolding denied_all
  denied_all-count i j reason [] = refl
  denied_all-count i j reason (x ∷ xs) = omega (arith, denied_all-count i (suc j) reason xs)

  pub evaluate_intent_sound :
      (tier : SourceTier) (i : ℕ) (intent : Intent F32)
      → check_intent fl config capability intent ≡ none
      → map (λ d. d.verdict) (evaluate_intent fl config intent i capability known tier)
        ≡ verdicts 0 intent.suggested_actions
  unfolding evaluate_intent
  evaluate_intent_sound tier i intent sound =
      rw (sound, evaluate_intent, map)
        (evaluate_actions-verdicts i 0 0 0 intent.suggested_actions (omega arith))

  pub evaluate_intent_refused :
      (tier : SourceTier) (i : ℕ) (intent : Intent F32) (reason : DenialReason)
      → check_intent fl config capability intent ≡ some reason
      → count_if is_approved
          (map (λ d. d.verdict) (evaluate_intent fl config intent i capability known tier))
        ≡ 0
  unfolding evaluate_intent
  evaluate_intent_refused tier i intent reason e =
      rw (e, evaluate_intent, map) (denied_all-count i 0 reason intent.suggested_actions)

  -- In an intent whose risk and confidence are in order, the action behind `xs` is denied for the
  -- cap exactly if at least `max_actions_per_batch` actions of `xs` pass all their own tests, and
  -- else has the verdict of its own tests; so approvals go to the first actions that pass.
  pub evaluate_intent-verdict :
      (tier : SourceTier) (i : ℕ) (intent : Intent F32) (xs ys : List SuggestedAction)
      (action : SuggestedAction)
      → check_intent fl config capability intent ≡ none
      → intent.suggested_actions ≡ xs ++ action ∷ ys
      → get_elem?
          (map (λ d. d.verdict) (evaluate_intent fl config intent i capability known tier))
          (length xs)
        ≡ some (action_verdict (count_if passes xs) action)
  evaluate_intent-verdict tier i intent xs ys action sound parts =
      rw (evaluate_intent_sound tier i intent sound, parts)
        (rw zero-add at (verdicts-get 0 xs ys action))

  -- An intent gets as many approvals as it has actions that pass all their own tests, but at most
  -- `max_actions_per_batch`; it gets none if its risk or its confidence is refused.
  pub evaluate_intent-count :
      (tier : SourceTier) (i : ℕ) (intent : Intent F32)
      → count_if is_approved
          (map (λ d. d.verdict) (evaluate_intent fl config intent i capability known tier))
        ≡ (if is_none (check_intent fl config capability intent)
            then min config.max_actions_per_batch (count_if passes intent.suggested_actions)
            else 0)
  evaluate_intent-count tier i intent =
      elim (Option-cases (check_intent fl config capability intent)) [
        | inl sound ↦
            rw (sound, evaluate_intent_sound tier i intent sound)
              (ground (arith, verdicts-count 0 intent.suggested_actions))
        | inr (r, e) ↦ rw e (evaluate_intent_refused tier i intent r e)
      ]
