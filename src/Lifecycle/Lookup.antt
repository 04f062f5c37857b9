-- ===== src/Lifecycle/Lookup.antt =====
-- The decision that a run looks up by coordinate is the one that the policy made for that action,
-- as long as the ordinals are 32-bit numbers.
use mathlib.Core.Path.{ap₂}
use di_pecs.Base.{
  ℕ, suc, ◌+◌, ◌≤◌, ◌<◌, ◌≡◌, ◌≢◌, refl, ap, ◌∙◌, Option, none, some, List, [], ◌∷◌, ◌++◌, map,
  arith, length, length-map, u32, Option-cases, inl, inr,
}
use di_pecs.Base.Floats.{Floats}
use di_pecs.Spec.Event.{SourceTier}
use di_pecs.Spec.Intent.{SuggestedAction, Intent, CapabilityLevel, DenialReason}
use di_pecs.Spec.Governance.{PolicyActionDecision, PolicyVerdict}
use di_pecs.Policy.Targets.{KnownTargets}
use di_pecs.Policy.{
  PolicyConfig, denied_all, decide_action, evaluate_actions, check_intent, evaluate_intent,
  evaluate_intents,
}
use di_pecs.Lifecycle.{get_decision}

-- verdicts with their places
abbrev pub tag : ℕ → ℕ → List PolicyVerdict → List PolicyActionDecision
tag i j [] = []
tag i j (v ∷ vs) =
    record { intent_ordinal = i; action_ordinal = u32 j; verdict = v } ∷ tag i (suc j) vs

abbrev pub or_else : Option PolicyVerdict → Option PolicyVerdict → Option PolicyVerdict
or_else (some v) o = some v
or_else none o = o

or_else-none : (o : Option PolicyVerdict) → or_else o none ≡ o
or_else-none none = refl
or_else-none (some v) = refl

get_decision-append :
    (i j : ℕ) (xs ys : List PolicyActionDecision)
    → get_decision i j (xs ++ ys) ≡ or_else (get_decision i j ys) (get_decision i j xs)
unfolding get_decision
get_decision-append i j [] ys = ground arith
get_decision-append i j (x ∷ xs) ys = ground (arith, get_decision-append i j xs ys)

tag-other_intent :
    (i i' j k : ℕ) (vs : List PolicyVerdict) → i' ≢ i → get_decision i' k (tag i j vs) ≡ none
unfolding get_decision
tag-other_intent i i' j k [] h = refl
tag-other_intent i i' j k (v ∷ vs) h = ground (arith, tag-other_intent i i' (suc j) k vs h)

tag-early :
    (i j k : ℕ) (vs : List PolicyVerdict)
    → k < j
    → j + length vs ≤ 4294967296
    → get_decision i k (tag i j vs) ≡ none
unfolding get_decision
tag-early i j k [] h b = refl
tag-early i j k (v ∷ vs) h b = ground (arith, tag-early i (suc j) k vs)

pub tag-here :
    (i j : ℕ) (v : PolicyVerdict) (vs : List PolicyVerdict)
    → suc j + length vs ≤ 4294967296
    → get_decision i (u32 j) (tag i j (v ∷ vs)) ≡ some v
unfolding get_decision
tag-here i j v vs b = ground (arith, tag-early i (suc j) (u32 j) vs)

pub tag-later :
    (i j k : ℕ) (v : PolicyVerdict) (vs : List PolicyVerdict)
    → j < k
    → suc j + length vs ≤ 4294967296
    → get_decision i k (tag i j (v ∷ vs)) ≡ get_decision i k (tag i (suc j) vs)
unfolding get_decision
tag-later i j k v vs h b = ground arith

module _ (fl : Floats) (config : PolicyConfig fl) (capability : CapabilityLevel)
    (known : Option KnownTargets) (tier : SourceTier) where
  open fl use {F32}

  denied_all-tag :
      (i j : ℕ) (reason : DenialReason) (actions : List SuggestedAction)
      → denied_all fl i j reason actions
        ≡ tag i j (map (λ d. d.verdict) (denied_all fl i j reason actions))
  unfolding denied_all
  denied_all-tag i j reason [] = refl
  denied_all-tag i j reason (a ∷ actions) = cc (denied_all-tag i (suc j) reason actions)

  evaluate_actions-tag :
      (i j c : ℕ) (actions : List SuggestedAction)
      → evaluate_actions fl config capability known i j c actions
        ≡ tag i j (map (λ d. d.verdict) (evaluate_actions fl config capability known i j c actions))
  unfolding evaluate_actions
  evaluate_actions-tag i j c [] = refl
  evaluate_actions-tag i j c (a ∷ actions) =
      cc (evaluate_actions-tag i (suc j) (decide_action fl config capability known c a).1 actions)

  -- the verdicts on an intent's actions
  abbrev pub intent_verdicts : ℕ → Intent F32 → List PolicyVerdict
  intent_verdicts i intent =
      map (λ d. d.verdict) (evaluate_intent fl config intent i capability known tier)

  evaluate_intent-tag :
      (i : ℕ) (intent : Intent F32)
      → evaluate_intent fl config intent i capability known tier
        ≡ tag i 0 (intent_verdicts i intent)
  unfolding evaluate_intent
  evaluate_intent-tag i intent = elim (Option-cases (check_intent fl config capability intent)) [
    | inl e ↦ rw (e, evaluate_intent) (evaluate_actions-tag i 0 0 intent.suggested_actions)
    | inr (r, e) ↦ rw (e, evaluate_intent) (denied_all-tag i 0 r intent.suggested_actions)
  ]

  get-own_intent :
      (i n k : ℕ) (intent : Intent F32)
      → i ≢ u32 n
      → get_decision i k (evaluate_intent fl config intent (u32 n) capability known tier) ≡ none
  get-own_intent i n k intent h =
      ap (get_decision i k) (evaluate_intent-tag (u32 n) intent)
      ∙ tag-other_intent (u32 n) i 0 k (intent_verdicts (u32 n) intent) h

  get-later_intents :
      (i k n : ℕ) (intents : List (Intent F32))
      → i < n
      → n + length intents ≤ 4294967296
      → get_decision i k (evaluate_intents fl config capability known tier n intents) ≡ none
  unfolding evaluate_intents get_decision
  get-later_intents i k n [] h b = refl
  get-later_intents i k n (intent ∷ intents) h b =
      get_decision-append i k (evaluate_intent fl config intent (u32 n) capability known tier) _
      ∙ ap₂ or_else (get-later_intents i k (suc n) intents (omega arith) (omega arith))
          (get-own_intent i n k intent (omega arith))

  -- At the intent `n` the lookup goes to that intent's verdicts.
  pub get-this_intent :
      (n k : ℕ) (intent : Intent F32) (intents : List (Intent F32))
      → suc n + length intents ≤ 4294967296
      → get_decision
          (u32 n)
          k
          (evaluate_intents fl config capability known tier n (intent ∷ intents))
        ≡ get_decision (u32 n) k (tag (u32 n) 0 (intent_verdicts (u32 n) intent))
  unfolding evaluate_intents
  get-this_intent n k intent intents b =
      get_decision-append (u32 n) k (evaluate_intent fl config intent (u32 n) capability known tier)
        _
      ∙ ap₂ or_else (get-later_intents (u32 n) k (suc n) intents (omega arith) b)
          (ap (get_decision (u32 n) k) (evaluate_intent-tag (u32 n) intent))

  -- Past the intent `n` its decisions play no part.
  pub get-next_intent :
      (i n k : ℕ) (intent : Intent F32) (intents : List (Intent F32))
      → n < i
      → suc n + length intents ≤ 4294967296
      → get_decision i k (evaluate_intents fl config capability known tier n (intent ∷ intents))
        ≡ get_decision i k (evaluate_intents fl config capability known tier (suc n) intents)
  unfolding evaluate_intents
  get-next_intent i n k intent intents h b =
      get_decision-append i k (evaluate_intent fl config intent (u32 n) capability known tier) _
      ∙ ap
          (or_else
            (get_decision i k (evaluate_intents fl config capability known tier (suc n) intents)))
          (get-own_intent i n k intent (omega arith))
      ∙ or_else-none
          (get_decision i k (evaluate_intents fl config capability known tier (suc n) intents))

  length-denied_all :
      (i j : ℕ) (reason : DenialReason) (actions : List SuggestedAction)
      → length (denied_all fl i j reason actions) ≡ length actions
  unfolding denied_all
  length-denied_all i j reason [] = refl
  length-denied_all i j reason (a ∷ actions) = ap suc (length-denied_all i (suc j) reason actions)

  length-evaluate_actions :
      (i j c : ℕ) (actions : List SuggestedAction)
      → length (evaluate_actions fl config capability known i j c actions) ≡ length actions
  unfolding evaluate_actions
  length-evaluate_actions i j c [] = refl
  length-evaluate_actions i j c (a ∷ actions) = ap suc (length-evaluate_actions i (suc j) _ actions)

  pub length-intent_verdicts :
      (i : ℕ) (intent : Intent F32)
      → length (intent_verdicts i intent) ≡ length intent.suggested_actions
  unfolding evaluate_intent
  length-intent_verdicts i intent = elim (Option-cases (check_intent fl config capability intent)) [
    | inl e ↦
        rw (length-map, e, evaluate_intent) (length-evaluate_actions i 0 0 intent.suggested_actions)
    | inr (r, e) ↦
        rw (length-map, e, evaluate_intent) (length-denied_all i 0 r intent.suggested_actions)
  ]
