-- ===== src/Tests/Replays.antt =====
-- A golden trace of one notification, and its replay.
use di_pecs.Base.{
  ℕ, ◌≡◌, refl, String, Bool, true, false, none, some, [], ◌∷◌, ◌==◌, arith, any, get_elem?, not,
}
use di_pecs.Base.Int.{ℤ, pos}
use di_pecs.Spec.Event.{RawEvent}
use di_pecs.Spec.Intent.{IntentBatch}
use di_pecs.Trace.{ExecutedAction, GoldenTrace, all_match, sanitize_all, sanitized_eq, validate}
use di_pecs.Trace.Divergences.{differs_at, validate-divergences}
use di_pecs.Trace.Replay.{air_gap, validate-all_match}
use di_pecs.Tests.Samples.{batch, open_mail, posted, unsure}

abbrev unequal : ℕ → ℕ → Bool
unequal a b = not (a == b)

unequal_irreflexive : (n : ℕ) → unequal n n ≡ false
unequal_irreflexive n = ground arith

abbrev same : String → String
same s = s

abbrev kept : ℤ → ExecutedAction
kept at_ms = record {
  action_type = "KeepAlive";
  target = some "com.mail";
  executed_at_ms = at_ms;
  success = true;
  error_reason = none;
}

abbrev golden : GoldenTrace ℕ
golden = record {
  trace_id = "t";
  window_start_ms = pos 0;
  window_end_ms = pos 10000;
  raw_events = RawEvent.notification_posted posted ∷ [];
  expected_sanitized =
      sanitize_all ℕ unequal (air_gap same same (λ k. "old")) 0
        (RawEvent.notification_posted posted ∷ []) [];
  expected_intents = batch;
  expected_actions = kept (pos 1) ∷ [];
  source_tiers = [];
}

abbrev later_batch : IntentBatch ℕ
later_batch = record batch {
  window_id = "w2";
  intents = record open_mail { intent_id = "j" } ∷ unsure ∷ [];
}

validate-all_match_example :
    all_match
      (validate ℕ unequal (air_gap same same (λ k. "new")) golden later_batch (kept (pos 2) ∷ []))
    ≡ true
validate-all_match_example =
    validate-all_match ℕ unequal unequal_irreflexive same same golden later_batch
      (kept (pos 2) ∷ []) (λ k. "old") (λ k. "new") refl refl refl refl

validate-divergences_example :
    (any
        (λ k. k == 0)
        (validate ℕ unequal
          (air_gap same same (λ k. "new"))
          golden
          batch
          []).sanitization_divergences
      ≡ differs_at sanitized_eq
          (get_elem?
            (sanitize_all ℕ unequal
              (air_gap same same (λ k. "new"))
              0
              golden.raw_events
              golden.source_tiers)
            0)
          (get_elem? golden.expected_sanitized 0))
    × (any
          (λ k. k == 0)
          (validate ℕ unequal
            (air_gap same same (λ k. "new"))
            golden
            batch
            []).execution_divergences
        ≡ true)
validate-divergences_example =
    validate-divergences ℕ unequal (air_gap same same (λ k. "new")) golden batch [] 0
