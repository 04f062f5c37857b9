-- ===== src/Cloud/Client.antt =====
-- crates/aios-agent/src/backends/cloud_llm/client.rs: the backend around the HTTP exchange. The exchange
-- is a parameter, and so are the clock and the parser of the answers.
use di_pecs.Base.{
  ℕ, String, Bool, Option, none, some, List, [], ◌∷◌, ◌++◌, ◌&&◌, leb, not, if◌then◌else◌,
}
use di_pecs.Base.Text.{concat, show, is_empty_str}
use di_pecs.Base.Floats.{Floats}
use di_pecs.Spec.Context.{StructuredContext, ModelInput}
use di_pecs.Spec.Intent.{DecisionBackendResult, DecisionRoute, Intent, IntentBatch}
use di_pecs.Prefetch.{Texts}
use di_pecs.Cloud.{Fallible, ok, err, ok_or, then_try, ModelIntent, parse_model_output}
use di_pecs.Cloud.Names.{text_or}
use di_pecs.Cloud.Intents.{translate_intents, idle_batch}

pub record ChatMessageResponse : Type 0 where
  pub content : Option String
  pub reasoning_content : Option String

-- `choices` holds the message of each choice.
pub record ChatCompletionResponse : Type 0 where
  pub model : Option String
  pub choices : List ChatMessageResponse

-- what comes of a request: it is not built (an error of `build_request_body`), or not sent, or there is
-- a status and the body, if it is the JSON of an answer
pub data Reply : Type 0 where
  unbuilt : String → Reply
  unsent : String → Reply
  answered : ℕ → Fallible ChatCompletionResponse → Reply

-- `status.is_success()`
abbrev pub is_success : ℕ → Bool
is_success status = leb 200 status && leb status 299

unfoldable pub payload_of : Reply → Fallible ChatCompletionResponse
payload_of (Reply.unbuilt error) = err error
payload_of (Reply.unsent error) = err (concat "request failed: " error)
payload_of (Reply.answered status body) =
    if not (is_success status)
    then err (concat "HTTP " (concat (show status) " from cloud LLM endpoint"))
    else elim body [
      | ok payload ↦ ok payload
      | err error ↦ err (concat "invalid response JSON: " error)
    ]

unfoldable pub tags_of : {F : Type 0} → List (Intent F) → List String
tags_of [] = []
tags_of (intent ∷ intents) = intent.rationale_tags ++ tags_of intents

module _ (texts : Texts) where
  open texts use {trim}

  -- `filter(|content| !content.trim().is_empty())` and `or_else`
  abbrev pub text_of : Option String → Option String → Option String
  text_of none reasoning = reasoning
  text_of (some content) reasoning = if is_empty_str (trim content) then reasoning else some content

  unfoldable pub first_text : ChatCompletionResponse → Option String
  first_text payload = elim payload.choices [
    | [] ↦ none
    | ◌∷◌ message rest ↦ text_of message.content message.reasoning_content
  ]

  module _ (fl : Floats) (from_json : String → Fallible (List (ModelIntent fl.F32)))
      (ids : ℕ → String) (model : String) where
    open fl use {F32}

    unfoldable pub request_intents : Reply → StructuredContext → Fallible (IntentBatch F32)
    request_intents reply context = then_try (payload_of reply) λ payload.
        then_try (ok_or "no completion content returned" (first_text payload)) λ content.
          then_try (parse_model_output texts from_json content) λ intents.
            then_try (translate_intents texts fl ids intents) λ translated. ok (record {
              window_id = context.window_id;
              intents = translated;
              generated_at_ms = context.window_end_ms;
              model = text_or model payload.model;
            })

    -- the two arms of `evaluate_model_input`
    unfoldable pub result_of :
        StructuredContext → ℕ → Fallible (IntentBatch F32) → DecisionBackendResult F32
    result_of context latency_us (ok batch) = record {
      route = DecisionRoute.cloud_llm;
      intent_batch = batch;
      rationale_tags = tags_of batch.intents;
      latency_us = latency_us;
      error = none;
    }
    result_of context latency_us (err error) = record {
      route = DecisionRoute.cloud_llm;
      intent_batch = idle_batch texts fl ids context "cloud-llm-error";
      rationale_tags = "cloud_llm_error" ∷ [];
      latency_us = latency_us;
      error = some error;
    }

    -- `post` is the request for an input and what comes back
    unfoldable pub evaluate_model_input :
        (ModelInput → Reply) → ℕ → ModelInput → DecisionBackendResult F32
    evaluate_model_input post latency_us input =
        result_of input.current_context latency_us
          (request_intents (post input) input.current_context)
