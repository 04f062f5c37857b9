-- ===== src/Tests/Locals.antt =====
-- The local evaluator on the sample window, with scores as hundredths above -10.
use di_pecs.Base.{
  ℕ, ◌+◌, ◌-◌, ◌≤◌, String, Bool, none, List, [], ◌∷◌, ◌≡◌, refl, false, arith, ltb, leb, min, max,
  length, count_if, All,
}
use di_pecs.Base.Floats.{Floats}
use di_pecs.Base.Text.{str_eq}
use di_pecs.Spec.Intent.{ActionType, ActionUrgency, IntentType}
use di_pecs.Local.Admission.{IsLocal, evaluate_intents-IsLocal}
use di_pecs.Local.Candidates.{IntentCandidate, finalize_candidates, key_of}
use di_pecs.Local.Candidates.Keys.{finalize_candidates_once}
use di_pecs.Local.Evaluator.{evaluate_intents, suggest}
use di_pecs.Local.Score.{Arithmetic}
use di_pecs.Local.Signals.{signals_of_context}
use di_pecs.Tests.Models.{plain_texts}
use di_pecs.Tests.Samples.{context}

pub shifted_monotone : (m n : ℕ) → m ≤ n → ltb (1000 + n) (1000 + m) ≡ false
shifted_monotone m n h = ground arith

abbrev pub shifted : Floats
shifted = record { F32 = ℕ; lt = ltb; decimal = λ n. 1000 + n; decimal_monotone = shifted_monotone }

abbrev pub shifted_arithmetic : Arithmetic ℕ
shifted_arithmetic = record {
  plus = λ a b. a + b - 1000;
  less = λ a b. a + 1000 - b;
  min_of = min;
  max_of = max;
  le = leb;
  minus = λ n. 1000 - n;
}

abbrev pub as_held : List (IntentCandidate ℕ) → List (IntentCandidate ℕ)
as_held candidates = candidates

abbrev pub new_ids : ℕ → String
new_ids n = "id"

as_held-count :
    (p : IntentCandidate ℕ → Bool) (cs : List (IntentCandidate ℕ))
    → count_if p (as_held cs) ≡ count_if p cs
as_held-count p cs = refl

evaluate_intents-IsLocal_example :
    ((1
        ≤ length (
            evaluate_intents plain_texts shifted shifted_arithmetic as_held new_ids context none
              []))
      × (length (
            evaluate_intents plain_texts shifted shifted_arithmetic as_held new_ids context none [])
          ≤ 5))
    × All
        (IsLocal (signals_of_context context))
        (evaluate_intents plain_texts shifted shifted_arithmetic as_held new_ids context none [])
evaluate_intents-IsLocal_example =
    evaluate_intents-IsLocal plain_texts shifted shifted_arithmetic as_held new_ids as_held-count
      context none []

abbrev twice : List (IntentCandidate ℕ)
twice =
    record {
      intent_type = IntentType.open_app "com.mail";
      confidence = 1080;
      actions = suggest ActionType.pre_warm_process "pkg:com.mail" ActionUrgency.immediate ∷ [];
      tags = [];
    }
    ∷ record {
      intent_type = IntentType.open_app "com.mail";
      confidence = 1070;
      actions = suggest ActionType.pre_warm_process "pkg:com.mail" ActionUrgency.immediate ∷ [];
      tags = "again" ∷ [];
    }
    ∷ []

finalize_candidates_once_example :
    count_if
      (λ i.
        str_eq
          (key_of i.intent_type i.suggested_actions)
          "open:com.mail|PreWarmProcess:pkg:com.mail")
      (finalize_candidates leb ltb as_held new_ids twice (signals_of_context context) 5)
    ≤ 1
finalize_candidates_once_example =
    finalize_candidates_once (signals_of_context context) leb ltb as_held as_held-count new_ids
      twice 5 "open:com.mail|PreWarmProcess:pkg:com.mail"
