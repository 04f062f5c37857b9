-- ===== src/Cloud/Answers.antt =====
-- crates/aios-agent/src/backends/cloud_llm/translate.rs and client.rs: what every answer satisfies.
use di_pecs.Base.{
  ℕ, suc, ◌≤◌, String, false, List, [], ◌∷◌, ◌≡◌, refl, inl, inr, arith, length, All, Bool-cases,
  ap,
}
use di_pecs.Base.Floats.{Floats}
use di_pecs.Spec.Context.{ModelInput, StructuredContext}
use di_pecs.Spec.Intent.{Intent, IntentBatch}
use di_pecs.Prefetch.{Texts}
use di_pecs.Cloud.{Fallible, ok, err, ok_or, ModelIntent, parse_model_output}
use di_pecs.Cloud.Names.{parse_intent_type, parse_risk_level}
use di_pecs.Cloud.Intents.{
  infer_prefetch_category, infer_prefetch_target, actions_or_idle, tags_or, clamp_confidence,
  translate_intent, idle_intent, translate_each, translate_intents, idle_batch,
}
use di_pecs.Cloud.Client.{
  Reply, payload_of, first_text, request_intents, result_of, evaluate_model_input,
}
use di_pecs.Cloud.Results.{OnOk, OnOk-then_try, OnOk-then_any, OnOk-map}
use di_pecs.Cloud.Admission.{AreUsable, actions_usable, infer_target_free}

module _ (fl : Floats) where
  open fl use {F32, lt, decimal}

  -- a confidence that is neither below 0 nor above 1
  abbrev pub IsClamped : F32 → Type 0
  IsClamped c = (lt c (decimal 0) ≡ false) × (lt (decimal 100) c ≡ false)

  -- An intent that the policy can judge: it has an action and a tag, its confidence is within 0 and 1,
  -- and its prefetches pass the target check.
  abbrev pub IsSound : Intent F32 → Type 0
  IsSound intent =
      AreUsable intent.suggested_actions
      × ((1 ≤ length intent.rationale_tags) × IsClamped intent.confidence)

  -- at least one intent, and all of them sound
  abbrev pub AreSound : List (Intent F32) → Type 0
  AreSound intents = (1 ≤ length intents) × All IsSound intents

module _ (texts : Texts) (fl : Floats) where
  open fl use {F32, lt, decimal, decimal_monotone}

  clamp_confidence-IsClamped : (c : F32) → IsClamped fl (clamp_confidence texts fl c)
  unfolding clamp_confidence
  clamp_confidence-IsClamped c = elim (Bool-cases (lt c (decimal 0))) [
    | inl e ↦ rw e (decimal_monotone 0 0 (omega arith), decimal_monotone 0 100 (omega arith))
    | inr e ↦ elim (Bool-cases (lt (decimal 100) c)) [
      | inl f ↦
          rw (e, f) (decimal_monotone 0 100 (omega arith), decimal_monotone 100 100 (omega arith))
      | inr f ↦ rw (e, f) (e, f)
    ]
  ]

  tags_or_some : (tag : String) (tags : List String) → 1 ≤ length (tags_or (tag ∷ []) tags)
  tags_or_some tag [] = omega arith
  tags_or_some tag (t ∷ tags) = omega arith

  translate_intent-IsSound :
      (id : String) (intent : ModelIntent F32)
      → OnOk (IsSound fl) (translate_intent texts fl id intent)
  unfolding translate_intent
  translate_intent-IsSound id intent =
      let category = infer_prefetch_category texts intent in
      let fallback = infer_prefetch_target texts intent category in
      OnOk-then_any _
        (parse_intent_type texts intent.intent_type intent.target intent.extension_category) _
        (λ intent_type.
          OnOk-then_try AreUsable _ (actions_or_idle texts intent.actions fallback category) _
            (actions_usable texts fallback category (infer_target_free texts intent category)
              intent.actions)
            (λ actions usable.
              OnOk-then_any _ (parse_risk_level texts intent.risk_level) _ (λ risk_level. (
                usable,
                (
                  tags_or_some "cloud_llm" intent.rationale_tags,
                  clamp_confidence-IsClamped intent.confidence,
                ),
              ))))

  idle_intent-IsSound : (id : String) → IsSound fl (idle_intent texts fl id)
  unfolding idle_intent
  idle_intent-IsSound id = (
    (omega arith, (tt, tt)),
    (omega arith, (decimal_monotone 0 50 (omega arith), decimal_monotone 50 100 (omega arith))),
  )

  translate_each-AreSound :
      (ids : ℕ → String) (n : ℕ) (intents : List (ModelIntent F32))
      → OnOk
          (λ (out : List (Intent F32)). (length out ≡ length intents) × All (IsSound fl) out)
          (translate_each texts fl ids n intents)
  unfolding translate_each
  translate_each-AreSound ids n [] = (refl, tt)
  translate_each-AreSound ids n (intent ∷ intents) =
      OnOk-then_try (IsSound fl) _ (translate_intent texts fl (ids n) intent) _
        (translate_intent-IsSound (ids n) intent)
        (λ first sound.
          OnOk-then_try
            (λ (out : List (Intent F32)). (length out ≡ length intents) × All (IsSound fl) out) _
            (translate_each texts fl ids (suc n) intents) _
            (translate_each-AreSound ids (suc n) intents) (λ rest h. (ap suc h.0, (sound, h.1))))

  translate_intents-AreSound :
      (ids : ℕ → String) (intents : List (ModelIntent F32))
      → OnOk (AreSound fl) (translate_intents texts fl ids intents)
  unfolding translate_intents
  translate_intents-AreSound ids [] = (omega arith, (idle_intent-IsSound (ids 0), tt))
  translate_intents-AreSound ids (intent ∷ intents) =
      OnOk-map
        (λ (out : List (Intent F32)). (length out ≡ suc (length intents)) × All (IsSound fl) out)
        (AreSound fl) (translate_each texts fl ids 0 (intent ∷ intents))
        (λ out h. (omega (arith, h.0), h.1)) (translate_each-AreSound ids 0 (intent ∷ intents))

  module _ (from_json : String → Fallible (List (ModelIntent F32))) (ids : ℕ → String)
      (model : String) where
    request_intents-AreSound :
        (reply : Reply) (context : StructuredContext)
        → OnOk
            (λ (batch : IntentBatch F32). AreSound fl batch.intents)
            (request_intents texts fl from_json ids model reply context)
    unfolding request_intents
    request_intents-AreSound reply context = OnOk-then_any _ (payload_of reply) _ (λ payload.
        OnOk-then_any _ (ok_or "no completion content returned" (first_text texts payload)) _
          (λ content. OnOk-then_any _ (parse_model_output texts from_json content) _ (λ intents.
            OnOk-then_try (AreSound fl) _ (translate_intents texts fl ids intents) _
              (translate_intents-AreSound ids intents) (λ out sound. sound))))

    result_of-AreSound :
        (context : StructuredContext) (latency_us : ℕ) (r : Fallible (IntentBatch F32))
        → OnOk (λ (batch : IntentBatch F32). AreSound fl batch.intents) r
        → AreSound fl
            (result_of texts fl from_json ids model context latency_us r).intent_batch.intents
    unfolding result_of idle_batch
    result_of-AreSound context latency_us (ok batch) h = h
    result_of-AreSound context latency_us (err error) h =
        (omega arith, (idle_intent-IsSound (ids 0), tt))

    -- Whatever comes back of the request, the cloud backend answers with at least one intent, and
    -- each of its intents has an action, a tag and a confidence that is neither below 0 nor above 1;
    -- each prefetch of them passes the target check of the policy, whatever the policy knows.
    pub evaluate-AreSound :
        (post : ModelInput → Reply) (latency_us : ℕ) (input : ModelInput)
        → AreSound fl
            (evaluate_model_input texts fl from_json ids model post latency_us
              input).intent_batch.intents
    unfolding evaluate_model_input
    evaluate-AreSound post latency_us input =
        result_of-AreSound input.current_context latency_us
          (request_intents texts fl from_json ids model (post input) input.current_context)
          (request_intents-AreSound (post input) input.current_context)
