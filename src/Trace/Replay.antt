-- ===== src/Trace/Replay.antt =====
-- A replay of the same inputs.
use di_pecs.Base.{
  ℕ, suc, ◌-◌, ◌≡◌, refl, ap, sym, ◌∙◌, String, Bool, true, false, none, List, [], ◌∷◌, ◌==◌, min,
  max, arith, length, map, length-map,
}
use di_pecs.Base.Int.{pos}
use di_pecs.Base.Text.{str_eq, eq_refl}
use di_pecs.Spec.Event.{RawEvent, SourceTier}
use di_pecs.Spec.Sanitized.{SanitizedEvent}
use di_pecs.Spec.Intent.{Intent, IntentBatch, SuggestedAction}
use di_pecs.Airgap.{
  sanitize_with_tier, sanitize, sanitize_app_transition, sanitize_binder, sanitize_proc,
  sanitize_fs, sanitize_notification, sanitize_interaction, sanitize_screen, sanitize_system,
}
use di_pecs.Trace.{
  ExecutedAction, GoldenTrace, all_match, differing, count_from, divergences, sanitized_eq,
  executed_eq, execution_divergences, suggested_eq, first_suggested, intent_diff, differing_intents,
  intent_divergences, sanitize_all, sanitization_divergences, validate,
}
use mathlib.Core.Path.{ap₂, subst}
use di_pecs.Trace.Reflexive.{
  option_eq-IsReflexive, list_eq-IsReflexive, bool_eq-IsReflexive, nat_eq-IsReflexive,
  option_str_refl, event_type_eq-IsReflexive, intent_type_eq-IsReflexive,
}

-- If the lists are the same but for what the test ignores, nothing diverges.
differing-none {ℓ} :
    {A : Type ℓ} (eq : A → A → Bool) (core : A → A) (n : ℕ) (xs ys : List A)
    → ((x y : A) → core x ≡ core y → eq x y ≡ true)
    → map core xs ≡ map core ys
    → differing eq n xs ys ≡ []
unfolding differing
differing-none eq core n [] [] h e = refl
differing-none eq core n [] (y ∷ ys) h e = absurd (cc)
differing-none eq core n (x ∷ xs) [] h e = absurd (cc)
differing-none eq core n (x ∷ xs) (y ∷ ys) h e =
    rw (h x y (cc e)) (differing-none eq core (suc n) xs ys h (cc e))

pub divergences-none {ℓ} :
    {A : Type ℓ} (eq : A → A → Bool) (core : A → A) (xs ys : List A)
    → ((x y : A) → core x ≡ core y → eq x y ≡ true)
    → map core xs ≡ map core ys
    → divergences eq xs ys ≡ []
unfolding divergences count_from
divergences-none eq core xs ys h e =
    let same : length xs ≡ length ys =
      sym (length-map core xs) ∙ ap length e ∙ length-map core ys in
    let over : max (length xs) (length ys) - min (length xs) (length ys) ≡ 0 =
      omega (arith, same) in
    rw (differing-none eq core 0 xs ys h e, over) refl

-- an intent without its identifier
abbrev pub intent_core : {F : Type 0} → Intent F → Intent F
intent_core i = record i { intent_id = "" }

-- the air gap, with the identifiers of a run
abbrev pub air_gap :
    (String → String)
    → (String → String)
    → (ℕ → String)
    → ℕ
    → RawEvent
    → SourceTier
    → SanitizedEvent
air_gap to_lowercase path_extension ids i raw tier =
    sanitize_with_tier to_lowercase path_extension (ids i) raw tier

sanitized_eq_refl : (a : SanitizedEvent) → sanitized_eq a a ≡ true
unfolding sanitized_eq
sanitized_eq_refl a = ground (
  arith,
  event_type_eq-IsReflexive a.event_type,
  option_str_refl a.app_package,
  option_eq-IsReflexive (λ x y. x == y) nat_eq-IsReflexive a.uid,
)

executed_eq_refl : (a : ExecutedAction) → executed_eq a a ≡ true
unfolding executed_eq
executed_eq_refl a = ground (
  arith,
  eq_refl a.action_type,
  option_str_refl a.target,
  bool_eq-IsReflexive a.success,
  option_str_refl a.error_reason,
)

suggested_eq_refl : (a : SuggestedAction) → suggested_eq a a ≡ true
unfolding suggested_eq
suggested_eq_refl a = ground (arith, option_str_refl a.target)

-- an event without its identifier and its time
abbrev pub event_core : SanitizedEvent → SanitizedEvent
event_core e = record e { event_id = ""; timestamp_ms = pos 0 }

-- an action without the time of its execution
abbrev pub executed_core : ExecutedAction → ExecutedAction
executed_core a = record a { executed_at_ms = pos 0 }

sanitized_eq-core : (a b : SanitizedEvent) → event_core a ≡ event_core b → sanitized_eq a b ≡ true
unfolding sanitized_eq
sanitized_eq-core a b e =
    subst (λ c. sanitized_eq (event_core a) c ≡ true) e (sanitized_eq_refl (event_core a))

executed_eq-core :
    (a b : ExecutedAction) → executed_core a ≡ executed_core b → executed_eq a b ≡ true
unfolding executed_eq
executed_eq-core a b e =
    subst (λ c. executed_eq (executed_core a) c ≡ true) e (executed_eq_refl (executed_core a))

module _ (F : Type 0) (far : F → F → Bool) (near : (x : F) → far x x ≡ false) where
  first_suggested_refl :
      (j : ℕ) (actions : List SuggestedAction) → first_suggested j actions actions ≡ none
  unfolding first_suggested
  first_suggested_refl j [] = refl
  first_suggested_refl j (a ∷ actions) =
      rw (suggested_eq_refl a) (first_suggested_refl (suc j) actions)

  intent_diff_refl : (i : Intent F) → intent_diff F far i i ≡ none
  unfolding intent_diff
  intent_diff_refl i = ground (
    arith,
    intent_type_eq-IsReflexive i.intent_type,
    near i.confidence,
    list_eq-IsReflexive str_eq eq_refl i.rationale_tags,
    first_suggested_refl 0 i.suggested_actions,
  )

  intent_diff-core : (a b : Intent F) → intent_core a ≡ intent_core b → intent_diff F far a b ≡ none
  unfolding intent_diff
  intent_diff-core a b e =
      subst (λ c. intent_diff F far (intent_core a) c ≡ none) e (intent_diff_refl (intent_core a))

  differing_intents-none :
      (n : ℕ) (xs ys : List (Intent F))
      → map intent_core xs ≡ map intent_core ys
      → differing_intents F far n xs ys ≡ []
  unfolding differing_intents
  differing_intents-none n [] [] e = refl
  differing_intents-none n [] (y ∷ ys) e = absurd (cc)
  differing_intents-none n (x ∷ xs) [] e = absurd (cc)
  differing_intents-none n (x ∷ xs) (y ∷ ys) e =
      rw (intent_diff-core x y (cc e), differing_intents)
        (differing_intents-none (suc n) xs ys (cc e))

  intent_divergences-none :
      (expected actual : IntentBatch F)
      → expected.model ≡ actual.model
      → map intent_core expected.intents ≡ map intent_core actual.intents
      → intent_divergences F far expected actual ≡ []
  unfolding intent_divergences
  intent_divergences-none expected actual m e =
      let same : length expected.intents ≡ length actual.intents =
        sym (length-map intent_core expected.intents)
        ∙ ap length e
        ∙ length-map intent_core actual.intents in
      rw
        (
          m,
          eq_refl actual.model,
          same,
          nat_eq-IsReflexive (length actual.intents),
          differing_intents-none 0 expected.intents actual.intents e,
        )
        refl

  module _ (to_lowercase path_extension : String → String) where
    air_gap-core :
        (ids ids' : ℕ → String) (i : ℕ) (raw : RawEvent) (tier : SourceTier)
        → event_core (air_gap to_lowercase path_extension ids i raw tier)
          ≡ event_core (air_gap to_lowercase path_extension ids' i raw tier)
    unfolding sanitize_with_tier sanitize sanitize_app_transition sanitize_binder sanitize_proc
        sanitize_fs sanitize_notification sanitize_interaction sanitize_screen sanitize_system
    air_gap-core ids ids' i (RawEvent.app_transition e) tier = refl
    air_gap-core ids ids' i (RawEvent.binder_transaction e) tier = refl
    air_gap-core ids ids' i (RawEvent.proc_state_change e) tier = refl
    air_gap-core ids ids' i (RawEvent.file_system_access e) tier = refl
    air_gap-core ids ids' i (RawEvent.notification_posted e) tier = refl
    air_gap-core ids ids' i (RawEvent.notification_interaction e) tier = refl
    air_gap-core ids ids' i (RawEvent.screen_state e) tier = refl
    air_gap-core ids ids' i (RawEvent.system_state e) tier = refl

    sanitize_all-core :
        (ids ids' : ℕ → String) (i : ℕ) (raws : List RawEvent) (tiers : List SourceTier)
        → map event_core (sanitize_all F far (air_gap to_lowercase path_extension ids) i raws tiers)
          ≡ map event_core
              (sanitize_all F far (air_gap to_lowercase path_extension ids') i raws tiers)
    unfolding sanitize_all
    sanitize_all-core ids ids' i [] tiers = refl
    sanitize_all-core ids ids' i (raw ∷ raws) [] =
        ap₂ ◌∷◌ (air_gap-core ids ids' i raw SourceTier.public_api)
          (sanitize_all-core ids ids' (suc i) raws [])
    sanitize_all-core ids ids' i (raw ∷ raws) (tier ∷ tiers) =
        ap₂ ◌∷◌ (air_gap-core ids ids' i raw tier) (sanitize_all-core ids ids' (suc i) raws tiers)

    -- Whatever `far` is, as long as no confidence is far from itself: a replay matches a golden trace whose expected events are what the air gap made of the same raw
    -- events, under other identifiers, and whose expected intents and actions are the replay's own
    -- but for the identifiers of the intents and the times of execution.
    pub validate-all_match :
        (golden : GoldenTrace F) (actual : IntentBatch F) (executed : List ExecutedAction)
        (ids ids' : ℕ → String)
        → golden.expected_sanitized
          ≡ sanitize_all F far
              (air_gap to_lowercase path_extension ids)
              0
              golden.raw_events
              golden.source_tiers
        → golden.expected_intents.model ≡ actual.model
        → map intent_core golden.expected_intents.intents ≡ map intent_core actual.intents
        → map executed_core golden.expected_actions ≡ map executed_core executed
        → all_match
            (validate F far (air_gap to_lowercase path_extension ids') golden actual executed)
          ≡ true
    unfolding all_match validate sanitization_divergences execution_divergences
    validate-all_match golden actual executed ids ids' sanitized model intents actions =
        let made =
          sanitize_all F far (air_gap to_lowercase path_extension ids') 0 golden.raw_events
            golden.source_tiers in
        let events =
          divergences-none sanitized_eq event_core made golden.expected_sanitized sanitized_eq-core
            (sanitize_all-core ids' ids 0 golden.raw_events golden.source_tiers
              ∙ ap (map event_core) (sym sanitized)) in
        let acts =
          divergences-none executed_eq executed_core golden.expected_actions executed
            executed_eq-core actions in
        rw (events, acts, intent_divergences-none golden.expected_intents actual model intents) refl
