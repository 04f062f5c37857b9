-- ===== src/Backend/Approval.antt =====
-- The policy's answer to the backends of this module.
use di_pecs.Base.{
  ℕ, ◌≤◌, ◌≡◌, ◌≢◌, refl, String, Bool, true, false, Option, none, some, List, [], ◌∷◌, arith,
  first, All, All-append, length, suc, u32,
}
use di_pecs.Base.Text.{member, strip_prefix, is_empty_str}
use di_pecs.Base.Floats.{Floats}
use di_pecs.Spec.Event.{SourceTier}
use di_pecs.Spec.Context.{StructuredContext}
use di_pecs.Spec.Governance.{PolicyVerdict}
use di_pecs.Spec.Intent.{
  ActionType, ActionUrgency, DecisionRoute, Intent, IntentType, SuggestedAction, for_route,
  allows_action, allows_risk,
}
use di_pecs.Policy.Targets.{
  KnownTargets, check_target, is_free_target, is_known_target, is_allowed_low_risk_target,
  event_package,
}
use di_pecs.Policy.{
  default_config, is_blocked, is_deferred, check_known, check_action, check_intent, decide_action,
  evaluate_actions, evaluate_intent, evaluate_intents,
}
use di_pecs.Backend.Signals.{OfPackage, OfProcess, scan-OfSignals, first-All}
use di_pecs.Backend.RuleBased.{
  no_signals, scan, proposal, notified_rule, foreground_rule, screen_rule, battery_rule,
  memory_rule, idle_rule, push, signalled_intents, generate_intents,
}

-- A name that the target check reads as a package.
pub record IsPackageName (name : String) : Type 0 where
  pub not_empty : is_empty_str name ≡ false
  pub no_prefix : strip_prefix name "pkg:" ≡ none

-- A package name that the context makes known.
abbrev pub IsKnown : KnownTargets → String → Type 0
IsKnown known name = IsPackageName name × (member known.packages name ≡ true)

is_known_target_lem :
    (known : KnownTargets) (name : String) → IsKnown known name → is_known_target name known ≡ true
unfolding is_known_target
is_known_target_lem known name h = rw (h.0.no_prefix, is_known_target) (rw h.1 refl)

known_keep_alive :
    (known : KnownTargets) (name : String)
    → IsKnown known name
    → check_target ActionType.keep_alive (some name) known ≡ none
unfolding check_target is_allowed_low_risk_target
known_keep_alive known name h = ground (arith, is_known_target_lem known name h, h.0.not_empty)

known_release :
    (known : KnownTargets) (name : String)
    → IsKnown known name
    → check_target ActionType.release_memory (some name) known ≡ none
unfolding check_target is_allowed_low_risk_target
known_release known name h = ground (arith, is_known_target_lem known name h, h.0.not_empty)

module _ (fl : Floats) (known : KnownTargets) where
  open fl use {F32, lt, decimal, decimal_monotone}

  -- One action, which the default configuration approves to the backend of this route.
  abbrev pub IsApprovable : DecisionRoute → Intent F32 → Type 0
  IsApprovable route intent =
      (action : SuggestedAction) × (intent.suggested_actions ≡ action ∷ [])
      × (check_intent fl (default_config fl) (for_route route) intent ≡ none)
      × (check_action fl (default_config fl) (for_route route) (some known) action ≡ none)

  pub decision_of_approvable :
      (route : DecisionRoute) (i : ℕ) (tier : SourceTier) (intent : Intent F32)
      → IsApprovable route intent
      → All
          (λ d. d.verdict ≡ PolicyVerdict.approved)
          (evaluate_intent fl (default_config fl) intent i (for_route route) (some known) tier)
  unfolding evaluate_intent evaluate_actions decide_action
  decision_of_approvable route i tier intent (action, one, sound, passes) =
      rw (sound, one, evaluate_intent, evaluate_actions) (rw (passes, decide_action) (refl, tt))

  pub decisions_of_approvable :
      (route : DecisionRoute) (n : ℕ) (tier : SourceTier) (intents : List (Intent F32))
      → All (IsApprovable route) intents
      → All
          (λ d. d.verdict ≡ PolicyVerdict.approved)
          (evaluate_intents fl (default_config fl) (for_route route) (some known) tier n intents)
  unfolding evaluate_intents
  decisions_of_approvable route n tier [] h = tt
  decisions_of_approvable route n tier (intent ∷ intents) h =
      All-append (λ d. d.verdict ≡ PolicyVerdict.approved)
        (evaluate_intent fl (default_config fl) intent (u32 n) (for_route route) (some known) tier)
        (evaluate_intents fl (default_config fl) (for_route route) (some known) tier (suc n)
          intents)
        (decision_of_approvable route (u32 n) tier intent h.0)
        (decisions_of_approvable route (suc n) tier intents h.1)

  proposal-IsApprovable :
      (ids : ℕ → String) (c : ℕ) (intent_type : IntentType) (action_type : ActionType)
      (target : Option String) (urgency : ActionUrgency) (tag id : String)
      → 30 ≤ c
      → allows_action (for_route DecisionRoute.rule_based) action_type ≡ true
      → is_deferred urgency ≡ false
      → check_target action_type target known ≡ none
      → IsApprovable DecisionRoute.rule_based
          (proposal fl ids intent_type (decimal c) action_type target urgency tag id)
  unfolding check_intent for_route allows_risk check_action check_known is_blocked
  proposal-IsApprovable ids c intent_type action_type target urgency tag id h allowed soon aimed = (
    record { action_type = action_type; target = target; urgency = urgency },
    refl,
    rw (decimal_monotone 30 c h) refl,
    rw (soon, allowed) aimed,
  )

  -- What a rule pushes is approvable, if it pushes anything.
  abbrev pub IsSafe : Option (String → Intent F32) → Type 0
  IsSafe none = Unit
  IsSafe (some intent) = (id : String) → IsApprovable DecisionRoute.rule_based (intent id)

  push-IsApprovable :
      (ids : ℕ → String) (intents : List (Intent F32)) (rule : Option (String → Intent F32))
      → All (IsApprovable DecisionRoute.rule_based) intents
      → IsSafe rule
      → All (IsApprovable DecisionRoute.rule_based) (push fl ids intents rule)
  unfolding push
  push-IsApprovable ids intents none h safe = h
  push-IsApprovable ids intents (some intent) h safe =
      All-append (IsApprovable DecisionRoute.rule_based) intents
        (intent (ids (length intents)) ∷ []) h (safe (ids (length intents)), tt)

  notified-IsSafe :
      (ids : ℕ → String) (mentioned : Bool) (apps : List String)
      → All (IsKnown known) apps
      → (mentioned ≡ true → apps ≢ [])
      → IsSafe (notified_rule fl ids mentioned (first apps))
  unfolding allows_action for_route
  notified-IsSafe ids true [] h some_app = absurd (some_app refl refl)
  notified-IsSafe ids true (app ∷ apps) h some_app = λ id.
      proposal-IsApprovable ids 70 (IntentType.open_app app) ActionType.keep_alive (some app)
        ActionUrgency.immediate "file_received" id (omega arith) refl refl
        (known_keep_alive known app h.0)
  notified-IsSafe ids false [] h some_app = tt
  notified-IsSafe ids false (app ∷ apps) h some_app = λ id.
      proposal-IsApprovable ids 55 (IntentType.open_app app) ActionType.keep_alive (some app)
        ActionUrgency.idle_time "notification_engagement" id (omega arith) refl refl
        (known_keep_alive known app h.0)

  foreground-IsSafe :
      (ids : ℕ → String) (app : Option String)
      → OfPackage (IsKnown known) app
      → IsSafe (foreground_rule fl ids app)
  unfolding allows_action for_route
  foreground-IsSafe ids none h = tt
  foreground-IsSafe ids (some app) h = λ id.
      proposal-IsApprovable ids 80 (IntentType.switch_to_app app) ActionType.keep_alive (some app)
        ActionUrgency.immediate "app_foreground_observed" id (omega arith) refl refl
        (known_keep_alive known app h)

  screen-IsSafe : (ids : ℕ → String) (on : Bool) → IsSafe (screen_rule fl ids on)
  unfolding allows_action for_route check_target is_allowed_low_risk_target is_free_target
  screen-IsSafe ids true = λ id.
      proposal-IsApprovable ids 60 IntentType.idle ActionType.keep_alive
        (some "work:collector_heartbeat") ActionUrgency.idle_time "screen_on" id (omega arith) refl
        refl refl
  screen-IsSafe ids false = tt

  battery-IsSafe : (ids : ℕ → String) (low : Bool) → IsSafe (battery_rule fl ids low)
  unfolding allows_action for_route check_target is_allowed_low_risk_target is_free_target
  battery-IsSafe ids true = λ id.
      proposal-IsApprovable ids 80 IntentType.idle ActionType.release_memory (some "cache:prefetch")
        ActionUrgency.immediate "low_battery" id (omega arith) refl refl refl
  battery-IsSafe ids false = tt

  memory-IsSafe :
      (ids : ℕ → String) (pressure : Option (ℕ × Option String))
      → OfProcess (IsKnown known) pressure
      → IsSafe (memory_rule fl ids pressure)
  unfolding allows_action for_route check_target
  memory-IsSafe ids none h = tt
  memory-IsSafe ids (some (rss, none)) h = λ id.
      proposal-IsApprovable ids 65 IntentType.idle ActionType.release_memory none
        ActionUrgency.immediate "memory_pressure" id (omega arith) refl refl refl
  memory-IsSafe ids (some (rss, some target)) h = λ id.
      proposal-IsApprovable ids 65 IntentType.idle ActionType.release_memory (some target)
        ActionUrgency.immediate "memory_pressure" id (omega arith) refl refl
        (known_release known target h)

  idle-IsSafe : (ids : ℕ → String) (intents : List (Intent F32)) → IsSafe (idle_rule fl ids intents)
  unfolding allows_action for_route check_target
  idle-IsSafe ids [] = λ id.
      proposal-IsApprovable ids 50 IntentType.idle ActionType.no_op none ActionUrgency.idle_time
        "idle_window" id (omega arith) refl refl refl
  idle-IsSafe ids (i ∷ is) = tt

  pub generate_intents-IsApprovable :
      (ids : ℕ → String) (ctx : StructuredContext)
      → All (IsKnown known) ctx.summary.notified_apps
      → All (λ e. OfPackage (IsKnown known) (event_package e.event_type)) ctx.events
      → ((scan no_signals ctx.events).has_file_mention ≡ true → ctx.summary.notified_apps ≢ [])
      → All (IsApprovable DecisionRoute.rule_based) (generate_intents fl ids ctx)
  unfolding generate_intents signalled_intents
  generate_intents-IsApprovable ids ctx notified packages mentioned =
      let s = scan no_signals ctx.events in
      let seen = scan-OfSignals (IsKnown known) no_signals ctx.events (tt, tt) packages in
      let r1 = notified_rule fl ids s.has_file_mention (first ctx.summary.notified_apps) in
      let r2 = foreground_rule fl ids (first s.observed_foreground_apps) in
      let r3 = screen_rule fl ids s.has_screen_on in
      let r4 = battery_rule fl ids s.is_low_battery in
      let r5 = memory_rule fl ids s.memory_pressure in
      let h1 =
        push-IsApprovable ids [] r1 tt
          (notified-IsSafe ids s.has_file_mention ctx.summary.notified_apps notified mentioned) in
      let l1 = push fl ids [] r1 in
      let h2 = push-IsApprovable ids l1 r2 h1 (
        foreground-IsSafe ids (first s.observed_foreground_apps)
          (first-All (IsKnown known) s.observed_foreground_apps seen.0)) in
      let l2 = push fl ids l1 r2 in
      let h3 = push-IsApprovable ids l2 r3 h2 (screen-IsSafe ids s.has_screen_on) in
      let l3 = push fl ids l2 r3 in
      let h4 = push-IsApprovable ids l3 r4 h3 (battery-IsSafe ids s.is_low_battery) in
      let l4 = push fl ids l3 r4 in
      let h5 = push-IsApprovable ids l4 r5 h4 (memory-IsSafe ids s.memory_pressure seen.1) in
      let l5 = push fl ids l4 r5 in
      push-IsApprovable ids l5 (idle_rule fl ids l5) h5 (idle-IsSafe ids l5)
