-- ===== src/Local/Admission.antt =====
-- crates/aios-agent/src/backends/local_evaluator.rs: what the evaluator never proposes.
use di_pecs.Base.{
  ℕ, ◌≤◌, String, Bool, true, false, Option, none, some, List, [], ◌∷◌, ◌++◌, ◌&&◌, ◌||◌, not,
  is_empty, length, inl, inr, ◌≡◌, refl, ap, sym, ◌∙◌, arith, count_if, All, All-map, Bool-cases,
}
use mathlib.Core.Bool.{or-true, false≢true, true≢false}
use text.Mathlib.TextEquality.{starts_with_iff}
use text.Mathlib.TextPositions.{starts_with_of_prefix}
use text.Mathlib.TextLemmas.{append_assoc}
use di_pecs.Base.Text.{str_eq, eq_iff, is_empty_str, starts_with, concat}
use di_pecs.Base.Floats.{Floats}
use di_pecs.Spec.Context.{RecentDecisionRecord, StructuredContext, UserBehaviorProfile}
use di_pecs.Spec.Intent.{ActionType, Intent, RiskLevel}
use di_pecs.Policy.Targets.{KnownTargets, check_target, is_allowed_low_risk_target, is_free_target}
use di_pecs.Prefetch.{Texts}
use di_pecs.Prefetch.Safe.{IsFree, free_passes}
use di_pecs.Local.Candidates.{
  IntentCandidate, finalize_candidates, is_policy_aware_action, is_safe_prewarm_target,
  is_safe_prefetch_target,
}
use di_pecs.Local.Candidates.Final.{
  IsFinal, finalize_candidates-IsFinal, length-finalize_candidates,
}
use di_pecs.Local.Evaluator.{
  candidates_of, battery_candidates, idle_window, or_idle, evaluate_intents,
}
use di_pecs.Local.Aggregation.{aggregation_of}
use di_pecs.Local.Score.{Arithmetic}
use di_pecs.Local.Signals.{WindowSignals, signals_of_context}

-- The target check of the policy passes, whatever the policy knows.
abbrev pub IsCleared : ActionType → Option String → Type 0
IsCleared action_type target = (known : KnownTargets) → check_target action_type target known ≡ none

abbrev pub names_package : Option String → Bool
names_package none = false
names_package (some target) = starts_with target "pkg:" || starts_with target "notif:"

-- An action that fits the device: no prefetch while the phone is offline or low on an uncharged battery,
-- no prewarm of an app or a notification behind a screen that is not interactive, and, but for a
-- prewarm, a target that the policy admits.
abbrev pub IsFit : WindowSignals → ActionType → Option String → Type 0
IsFit signals ActionType.prefetch_file target =
    ((signals.offline ≡ false) × ((signals.low_battery && not signals.charging) ≡ false))
    × IsCleared ActionType.prefetch_file target
IsFit signals ActionType.pre_warm_process target =
    (signals.screen_noninteractive && names_package target) ≡ false
IsFit signals action_type target = IsCleared action_type target

-- A test that the empty text fails is passed by no empty text.
filled_by :
    (P : String → Bool) (target : String)
    → P "" ≡ false
    → P target ≡ true
    → is_empty_str target ≡ false
filled_by P target h k = elim (Bool-cases (is_empty_str target)) [
  | inl e ↦ absurd (true≢false (sym k ∙ ap P ((eq_iff target "").0 e) ∙ h))
  | inr e ↦ e
]

shorter_prefix :
    (target p q : String) → starts_with target (concat p q) ≡ true → starts_with target p ≡ true
shorter_prefix target p q h =
    let prefix = (starts_with_iff target (concat p q)).0 h in
    starts_with_of_prefix p target (concat q prefix.0, sym (append_assoc p q prefix.0) ∙ prefix.1)

safe_prefetch-IsFree : (target : String) → is_safe_prefetch_target target ≡ true → IsFree target
unfolding is_safe_prefetch_target is_free_target
safe_prefetch-IsFree target h = elim (Bool-cases (starts_with target "url:https://")) [
  | inl e ↦ ap (λ b. b || starts_with target "uri:") (shorter_prefix target "url:" "https://" e)
  | inr e ↦
      let content : starts_with target "uri:content://" ≡ true = ground (arith, h, e) in
      ap (λ b. starts_with target "url:" || b) (shorter_prefix target "uri:" "content://" content)
      ∙ or-true (starts_with target "url:")
]

aware-IsFit :
    (signals : WindowSignals) (action_type : ActionType) (target : Option String)
    → is_policy_aware_action action_type target signals ≡ true
    → IsFit signals action_type target
unfolding is_policy_aware_action check_target is_allowed_low_risk_target is_free_target
    is_safe_prewarm_target
aware-IsFit signals ActionType.prefetch_file none h = absurd (false≢true h)
aware-IsFit signals ActionType.prefetch_file (some target) h =
    let safe : is_safe_prefetch_target target ≡ true = ground (arith, h) in
    (
      (ground (arith, h), ground (arith, h)),
      λ known. free_passes target known (safe_prefetch-IsFree target safe),
    )
aware-IsFit signals ActionType.pre_warm_process none h = absurd (false≢true h)
aware-IsFit signals ActionType.pre_warm_process (some target) h =
    elim (Bool-cases (signals.screen_noninteractive && names_package (some target))) [
      | inl e ↦ absurd (false≢true (sym (rw e refl) ∙ h))
      | inr e ↦ e
    ]
aware-IsFit signals ActionType.keep_alive none h = λ known. refl
aware-IsFit signals ActionType.keep_alive (some target) h = λ known.
    let some_text = filled_by (λ t. starts_with t "work:") target refl h in rw (some_text, h) refl
aware-IsFit signals ActionType.release_memory none h = λ known. refl
aware-IsFit signals ActionType.release_memory (some target) h = λ known.
    let some_text =
      filled_by (λ t. str_eq t "cache:prefetch" || str_eq t "cache:all") target refl h in
    rw (some_text, h) refl
aware-IsFit signals ActionType.no_op target h = λ known. refl

-- An intent of low risk with at least one action, all of which fit the device.
abbrev pub IsLocal : {F : Type 0} → WindowSignals → Intent F → Type 0
IsLocal signals intent =
    (intent.risk_level ≡ RiskLevel.low)
    × ((is_empty intent.suggested_actions ≡ false)
        × All (λ a. IsFit signals a.action_type a.target) intent.suggested_actions)

module _ (texts : Texts) (fl : Floats) (ar : Arithmetic fl.F32) where
  open fl use {F32, lt}
  open ar use {le}

  idle_window-IsLocal :
      (signals : WindowSignals) (id : String) → IsLocal signals (idle_window texts fl ar id)
  unfolding idle_window check_target
  idle_window-IsLocal signals id = (refl, (refl, ((λ known. refl), tt)))

  module _ (in_order : List (IntentCandidate F32) → List (IntentCandidate F32)) (ids : ℕ → String)
      (in_order-count : (p : IntentCandidate F32 → Bool) (cs : List (IntentCandidate F32))
        → count_if p (in_order cs) ≡ count_if p cs) where
    final_or_idle :
        (signals : WindowSignals) (intents : List (Intent F32))
        → All (IsFinal signals) intents
        → All (IsLocal signals) (or_idle texts fl ar (ids 0) intents)
    final_or_idle signals [] h = (idle_window-IsLocal signals (ids 0), tt)
    final_or_idle signals (intent ∷ intents) h =
        All-map (IsFinal signals) (IsLocal signals) (intent ∷ intents)
          (λ i f. (
            f.0,
            (
              f.1.0,
              All-map (λ a. is_policy_aware_action a.action_type a.target signals ≡ true)
                  (λ a. IsFit signals a.action_type a.target) i.suggested_actions
                  (λ a e. aware-IsFit signals a.action_type a.target e) f.1.1,
            ),
          ))
          h

    length-or_idle :
        (intents : List (Intent F32))
        → length intents ≤ 5
        → (1 ≤ length (or_idle texts fl ar (ids 0) intents))
          × (length (or_idle texts fl ar (ids 0) intents) ≤ 5)
    length-or_idle [] h = (omega arith, omega arith)
    length-or_idle (intent ∷ intents) h = (omega arith, h)

    -- In every window, in whatever order the map of the candidates gives its values, the local evaluator
    -- answers with at least one and at most five intents, all of low risk and with at least one action.
    -- It prefetches neither offline nor on a low battery that is not charging, and prewarms no app or
    -- notification behind a screen that is not interactive; each action but a prewarm has a target that
    -- the policy admits, whatever the policy knows.
    pub evaluate_intents-IsLocal :
        (context : StructuredContext) (profile : Option UserBehaviorProfile)
        (feedback : List RecentDecisionRecord)
        → ((1 ≤ length (evaluate_intents texts fl ar in_order ids context profile feedback))
            × (length (evaluate_intents texts fl ar in_order ids context profile feedback) ≤ 5))
          × All
              (IsLocal (signals_of_context context))
              (evaluate_intents texts fl ar in_order ids context profile feedback)
    unfolding evaluate_intents
    evaluate_intents-IsLocal context profile feedback =
        let signals = signals_of_context context in
        let aggregation = aggregation_of context profile feedback in
        let candidates =
          candidates_of texts fl ar signals aggregation context.events
          ++ battery_candidates texts fl ar signals aggregation in
        (
          length-or_idle (finalize_candidates le lt in_order ids candidates signals 5)
              (length-finalize_candidates signals le lt in_order in_order-count ids candidates 5),
          final_or_idle signals (finalize_candidates le lt in_order ids candidates signals 5)
              (finalize_candidates-IsFinal signals le lt in_order in_order-count ids candidates 5),
        )
