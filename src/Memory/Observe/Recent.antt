-- ===== src/Memory/Observe/Recent.antt =====
-- crates/aios-core/src/context_memory.rs: which windows are on record.
use di_pecs.Base.{
  ℕ, zero, suc, ◌-◌, ◌≤◌, String, List, [], ◌∷◌, ◌++◌, inl, inr, ◌≡◌, refl, sym, ◌∙◌, ap, arith,
  length, length-map, Bool-cases, ltb,
}
use mathlib.Core.List.{append-nil, append_assoc}
use di_pecs.Base.Maps.{drop, last, length-last, last_all, last-append}
use di_pecs.Base.Text.{is_empty_str}
use di_pecs.Spec.Context.{RecentDecisionRecord, StructuredContext}
use di_pecs.Spec.Governance.{AuditRecord}
use di_pecs.Spec.Intent.{DecisionBackendResult}
use di_pecs.Memory.Scores.{Scores}
use di_pecs.Memory.Store.{ModelMemoryStore, trim_recent, set_llm_summary}
use di_pecs.Memory.Prewarm.{resolve_pending_prewarms}
use di_pecs.Memory.Observe.{
  observe_window, count_records, count_window, decay_momentum, feedback_of,
}
use di_pecs.Memory.Observe.Frame.{
  settings, uncounted, window_ids, uncounted-count_records, unattributed-resolve_each,
}
use di_pecs.Memory.Observe.Waiting.{settings-observe_window}
use di_pecs.Memory.Observe.Runs.{Step, apply, run, windows_of}

pub window_ids-append :
    (rs qs : List RecentDecisionRecord) → window_ids (rs ++ qs) ≡ (window_ids rs ++ window_ids qs)
window_ids-append [] qs = refl
window_ids-append (r ∷ rs) qs = ap (◌∷◌ r.window_id) (window_ids-append rs qs)

window_ids-drop :
    (n : ℕ) (rs : List RecentDecisionRecord) → window_ids (drop n rs) ≡ drop n (window_ids rs)
window_ids-drop n [] = refl
window_ids-drop zero (r ∷ rs) = refl
window_ids-drop (suc n) (r ∷ rs) = window_ids-drop n rs

pub window_ids-last :
    (n : ℕ) (rs : List RecentDecisionRecord) → window_ids (last n rs) ≡ last n (window_ids rs)
window_ids-last n rs =
    window_ids-drop (length rs - n) rs
    ∙ ap (λ k. drop (k - n) (window_ids rs)) (sym (length-map (λ r. r.window_id) rs))

module _ (sc : Scores) where
  pub trim_recent-last :
      (limit : ℕ) (rs : List RecentDecisionRecord) → trim_recent sc limit rs ≡ last limit rs
  unfolding trim_recent
  trim_recent-last limit [] = refl
  trim_recent-last limit (r ∷ rs) = elim (Bool-cases (ltb limit (length (r ∷ rs)))) [
    | inl e ↦
        let over : suc (length rs) - limit ≡ suc (length rs - limit) = ground arith in
        rw e (trim_recent-last limit rs ∙ sym (ap (λ k. drop k (r ∷ rs)) over))
    | inr e ↦
        let within : suc (length rs) - limit ≡ 0 = ground arith in
        rw e (sym (ap (λ k. drop k (r ∷ rs)) within))
  ]

  pub recent-observe_window :
      {F : Type 0} (trim : String → String) (context : StructuredContext)
      (decision : DecisionBackendResult F) (records : List AuditRecord) (s : ModelMemoryStore sc)
      → window_ids (observe_window sc trim context decision records s).recent
        ≡ last s.recent_limit (window_ids s.recent ++ context.window_id ∷ [])
  unfolding observe_window decay_momentum count_window resolve_pending_prewarms feedback_of
  recent-observe_window trim context decision records s =
      let r = resolve_pending_prewarms sc context.summary.foreground_apps s in
      let windows = count_window sc context (decay_momentum sc r) in
      let counted = count_records sc records windows in
      let u = uncounted-count_records sc records windows in
      let v =
        unattributed-resolve_each sc context.summary.foreground_apps s.pending_prewarms
          (record s { pending_prewarms = [] }) in
      let entry = feedback_of context decision records in
      ap window_ids (trim_recent-last counted.recent_limit (counted.recent ++ entry ∷ []))
      ∙ window_ids-last counted.recent_limit (counted.recent ++ entry ∷ [])
      ∙ ap (last counted.recent_limit) (window_ids-append counted.recent (entry ∷ []))
      ∙ ap (λ k. last k.0.0 (window_ids k.1.0 ++ context.window_id ∷ [])) u
      ∙ ap (λ k. last k.0.0 (k.1 ++ context.window_id ∷ [])) v

  pub uncounted-set_llm_summary :
      (trim : String → String) (text : String) (s : ModelMemoryStore sc)
      → uncounted sc (set_llm_summary sc trim text s) ≡ uncounted sc s
  unfolding set_llm_summary
  uncounted-set_llm_summary trim text s = elim (Bool-cases (is_empty_str (trim text))) [
    | inl e ↦ rw e refl
    | inr e ↦ rw e refl
  ]

  -- No step changes the settings.
  pub settings-apply :
      {F : Type 0} (trim : String → String) (step : Step F) (s : ModelMemoryStore sc)
      → settings sc (apply sc trim step s) ≡ settings sc s
  settings-apply trim (Step.observe context decision records) s =
      settings-observe_window sc trim context decision records s
  settings-apply trim (Step.summarise text) s =
      ap (λ u. u.0) (uncounted-set_llm_summary trim text s)

  pub pending-set_llm_summary :
      (trim : String → String) (text : String) (s : ModelMemoryStore sc)
      → (set_llm_summary sc trim text s).pending_prewarms ≡ s.pending_prewarms
  pending-set_llm_summary trim text s = ap (λ u. u.1.1.0) (uncounted-set_llm_summary trim text s)

  window_ids-apply :
      {F : Type 0} (trim : String → String) (step : Step F) (s : ModelMemoryStore sc)
      → length s.recent ≤ s.recent_limit
      → window_ids (apply sc trim step s).recent
        ≡ last s.recent_limit (window_ids s.recent ++ windows_of (step ∷ []))
  window_ids-apply trim (Step.observe context decision records) s h =
      recent-observe_window trim context decision records s
  window_ids-apply trim (Step.summarise text) s h =
      ap (λ u. window_ids u.1.0) (uncounted-set_llm_summary trim text s)
      ∙ sym (
          ap (last s.recent_limit) (append-nil (window_ids s.recent))
          ∙ last_all s.recent_limit (window_ids s.recent)
              (omega (arith, h, length-map (λ r. r.window_id) s.recent)))

  -- No step leaves more on record than the limit.
  pub recent_within :
      {F : Type 0} (trim : String → String) (step : Step F) (s : ModelMemoryStore sc)
      → length s.recent ≤ s.recent_limit
      → length (apply sc trim step s).recent ≤ (apply sc trim step s).recent_limit
  recent_within trim step s h =
      let limits = ap (λ k. k.0) (settings-apply trim step s) in
      let shown = ap length (window_ids-apply trim step s h) in
      omega (
        arith,
        limits,
        shown,
        length-map (λ r. r.window_id) (apply sc trim step s).recent,
        length-last s.recent_limit (window_ids s.recent ++ windows_of (step ∷ [])),
      )

  windows_of-cons :
      {F : Type 0} (step : Step F) (steps : List (Step F))
      → windows_of (step ∷ steps) ≡ (windows_of (step ∷ []) ++ windows_of steps)
  windows_of-cons (Step.observe context decision records) steps = refl
  windows_of-cons (Step.summarise text) steps = refl

  -- Whatever is observed, a memory with no more on record than its limit then has the last
  -- `recent_limit` of the windows that it had and of those that were observed, in the order in which
  -- they came.
  pub window_ids-run :
      {F : Type 0} (trim : String → String) (steps : List (Step F)) (s : ModelMemoryStore sc)
      → length s.recent ≤ s.recent_limit
      → window_ids (run sc trim steps s).recent
        ≡ last s.recent_limit (window_ids s.recent ++ windows_of steps)
  window_ids-run trim [] s h = sym (
      ap (last s.recent_limit) (append-nil (window_ids s.recent))
      ∙ last_all s.recent_limit (window_ids s.recent)
          (omega (arith, h, length-map (λ r. r.window_id) s.recent)))
  window_ids-run trim (step ∷ steps) s h =
      let limit = s.recent_limit in
      let first = windows_of (step ∷ []) in
      window_ids-run trim steps (apply sc trim step s) (recent_within trim step s h)
      ∙ ap (λ k. last k.0 (window_ids (apply sc trim step s).recent ++ windows_of steps))
          (settings-apply trim step s)
      ∙ ap (λ ids. last limit (ids ++ windows_of steps)) (window_ids-apply trim step s h)
      ∙ last-append limit (window_ids s.recent ++ first) (windows_of steps)
      ∙ ap (last limit) (
          append_assoc (window_ids s.recent) first (windows_of steps)
          ∙ ap (λ ids. window_ids s.recent ++ ids) (sym (windows_of-cons step steps)))
