-- ===== src/Tests/Models.antt =====
-- Answers of a model: a file intent that prefetches for the mail app, and one with an unknown urgency.
use di_pecs.Base.{ℕ, String, none, some, List, [], ◌∷◌}
use di_pecs.Base.Floats.{hundredths}
use di_pecs.Prefetch.{Texts}
use di_pecs.Cloud.{Fallible, ok, ModelAction, ModelIntent}
use di_pecs.Cloud.Client.{Reply, evaluate_model_input}
use di_pecs.Cloud.Answers.{AreSound, evaluate-AreSound}
use di_pecs.Spec.Context.{current_only}
use di_pecs.Tests.Samples.{context}

abbrev pub plain_texts : Texts
plain_texts = record {
  trim = λ s. s;
  to_ascii_lowercase = λ s. s;
  to_lowercase = λ c. String.◌∷◌ c String.[];
}

abbrev fetch : ModelAction
fetch = record { action_type = "prefetch-file"; target = some "com.mail"; urgency = none }

abbrev fetch_oddly : ModelAction
fetch_oddly = record fetch { urgency = some "someday" }

abbrev read_file : ModelIntent ℕ
read_file = record {
  intent_type = "handle_file";
  target = some "com.mail";
  extension_category = some "document";
  confidence = 130;
  risk_level = "low";
  actions = fetch ∷ [];
  rationale_tags = [];
}

abbrev answer : List (ModelIntent ℕ)
answer = read_file ∷ record read_file { actions = fetch_oddly ∷ [] } ∷ []

abbrev new_ids : ℕ → String
new_ids n = "id"

abbrev reply : Reply
reply = Reply.answered 200 (
    ok (record {
      model = none;
      choices = record { content = some "{}"; reasoning_content = none } ∷ [];
    }))

abbrev pub from_json : String → Fallible (List (ModelIntent ℕ))
from_json text = ok (read_file ∷ [])

evaluate-AreSound_example :
    AreSound hundredths
      (evaluate_model_input plain_texts hundredths from_json new_ids "m"
        (λ input. reply)
        5
        (current_only context)).intent_batch.intents
evaluate-AreSound_example =
    evaluate-AreSound plain_texts hundredths from_json new_ids "m" (λ input. reply) 5
      (current_only context)
