-- ===== src/Memory/Observe/Frame.antt =====
-- crates/aios-core/src/context_memory.rs: what the steps of `observe_window` leave alone.
use di_pecs.Base.{
  ℕ, String, Bool, true, false, List, [], ◌∷◌, map, inl, inr, ◌≡◌, refl, ◌∙◌, arith, Bool-cases,
  leb,
}
use di_pecs.Base.Maps.{Map}
use di_pecs.Base.Text.{member}
use di_pecs.Spec.Context.{FeedbackCorrectness, RecentDecisionRecord}
use di_pecs.Spec.Governance.{ActionState, AuditRecord}
use di_pecs.Spec.Intent.{action_name}
use di_pecs.Memory.Scores.{Scores}
use di_pecs.Memory.Store.{ModelMemoryStore, PendingPrewarm}
use di_pecs.Memory.Prewarm.{
  attribute_recent, observed, hit_evidence, miss_evidence, record_prewarm_attribution, resolve_each,
}
use di_pecs.Memory.Observe.{count_terminal, count_records}

abbrev pub window_ids : List RecentDecisionRecord → List String
window_ids records = map (λ r. r.window_id) records

module _ (sc : Scores) where
  -- the settings of the memory
  abbrev pub settings : ModelMemoryStore sc → ℕ × (ℕ × (ℕ × ℕ))
  settings s = (s.recent_limit, (s.top_limit, (s.momentum_decay_milli, s.prewarm_effect_windows)))

  -- all that counting must not touch
  abbrev pub uncounted :
      ModelMemoryStore sc
      → (ℕ × (ℕ × (ℕ × ℕ))) × (List RecentDecisionRecord × (List PendingPrewarm × (Map ℕ × Map ℕ)))
  uncounted s =
      (settings s, (s.recent, (s.pending_prewarms, (s.prewarm_hit_counts, s.prewarm_miss_counts))))

  uncounted-count_terminal :
      (t : ActionState) (action : String) (s : ModelMemoryStore sc)
      → uncounted (count_terminal sc t action s) ≡ uncounted s
  unfolding count_terminal
  uncounted-count_terminal ActionState.succeeded action s = refl
  uncounted-count_terminal ActionState.denied_by_capability action s = refl
  uncounted-count_terminal ActionState.denied_by_policy action s = refl
  uncounted-count_terminal ActionState.rejected_invalid_schema action s = refl
  uncounted-count_terminal ActionState.failed action s = refl
  uncounted-count_terminal ActionState.proposed action s = refl
  uncounted-count_terminal ActionState.schema_validated action s = refl
  uncounted-count_terminal ActionState.policy_checked action s = refl
  uncounted-count_terminal ActionState.dispatched action s = refl

  pub uncounted-count_records :
      (rs : List AuditRecord) (s : ModelMemoryStore sc)
      → uncounted (count_records sc rs s) ≡ uncounted s
  unfolding count_records
  uncounted-count_records [] s = refl
  uncounted-count_records (r ∷ rs) s =
      uncounted-count_records rs (count_terminal sc r.terminal (action_name r.action_type) s)
      ∙ uncounted-count_terminal r.terminal (action_name r.action_type) s

  attribute_recent_keeps :
      (p : PendingPrewarm) (c : FeedbackCorrectness) (evidence : String) (hit : Bool)
      (r : RecentDecisionRecord)
      → (attribute_recent p c evidence hit r).window_id ≡ r.window_id
  unfolding attribute_recent
  attribute_recent_keeps p c evidence hit r = ground arith

  window_ids-attribute :
      (p : PendingPrewarm) (c : FeedbackCorrectness) (evidence : String) (hit : Bool)
      (rs : List RecentDecisionRecord)
      → window_ids (map (attribute_recent p c evidence hit) rs) ≡ window_ids rs
  window_ids-attribute p c evidence hit [] = refl
  window_ids-attribute p c evidence hit (r ∷ rs) =
      cc (attribute_recent_keeps p c evidence hit r, window_ids-attribute p c evidence hit rs)

  -- the settings, the windows on record, and the list of what is pending
  abbrev pub unattributed : ModelMemoryStore sc → (ℕ × (ℕ × (ℕ × ℕ))) × List String
  unattributed s = (settings s, window_ids s.recent)

  unattributed-record :
      (p : PendingPrewarm) (c : FeedbackCorrectness) (evidence : String) (hit : Bool)
      (s : ModelMemoryStore sc)
      → unattributed (record_prewarm_attribution sc p c evidence hit s) ≡ unattributed s
  unfolding record_prewarm_attribution
  unattributed-record p c evidence true s = cc (window_ids-attribute p c evidence true s.recent)
  unattributed-record p c evidence false s = cc (window_ids-attribute p c evidence false s.recent)

  pub unattributed-resolve_each :
      (apps : List String) (ps : List PendingPrewarm) (s : ModelMemoryStore sc)
      → unattributed (resolve_each sc apps ps s).0 ≡ unattributed s
  unfolding resolve_each
  unattributed-resolve_each apps [] s = refl
  unattributed-resolve_each apps (p ∷ ps) s = elim (Bool-cases (member apps p.package_name)) [
    | inl hit ↦
        let e = FeedbackCorrectness.prediction_hit in
        rw hit (
          unattributed-resolve_each apps ps
            (record_prewarm_attribution sc (observed p) e (hit_evidence (observed p)) true s)
          ∙ unattributed-record (observed p) e (hit_evidence (observed p)) true s)
    | inr away ↦ elim (Bool-cases (leb s.prewarm_effect_windows (observed p).windows_observed)) [
      | inl late ↦
          let e = FeedbackCorrectness.prediction_miss in
          let text = miss_evidence (observed p) s.prewarm_effect_windows in
          rw (away, late)
            (unattributed-resolve_each apps ps
                (record_prewarm_attribution sc (observed p) e text false s)
              ∙ unattributed-record (observed p) e text false s)
      | inr early ↦ rw (away, early) (unattributed-resolve_each apps ps s)
    ]
  ]
