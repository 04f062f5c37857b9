-- ===== src/Memory/Observe/Waiting.antt =====
-- crates/aios-core/src/context_memory.rs: which prewarms a window leaves pending.
use di_pecs.Base.{
  ℕ, suc, ◌<◌, String, Bool, true, false, List, [], ◌∷◌, ◌++◌, inl, inr, ◌≡◌, refl, ◌∙◌, ap, arith,
  min, Bool-cases, leb, All, if◌then◌else◌,
}
use di_pecs.Base.Text.{member}
use di_pecs.Spec.Context.{FeedbackCorrectness, StructuredContext}
use di_pecs.Spec.Governance.{AuditRecord}
use di_pecs.Spec.Intent.{DecisionBackendResult}
use di_pecs.Memory.Scores.{Scores}
use di_pecs.Memory.Store.{ModelMemoryStore, PendingPrewarm}
use di_pecs.Memory.Prewarm.{
  observed, hit_evidence, miss_evidence, record_prewarm_attribution, resolve_each,
  resolve_pending_prewarms, registered_all,
}
use di_pecs.Memory.Observe.{observe_window, count_window, decay_momentum}
use di_pecs.Memory.Observe.Frame.{settings, uncounted-count_records, unattributed-resolve_each}

-- not opened in this window, and not for the last of `windows` windows
abbrev pub waits : List String → ℕ → PendingPrewarm → Bool
waits apps windows p =
    if member apps p.package_name
    then false
    else if leb windows (min 255 (suc p.windows_observed))
    then false
    else true

unfoldable pub waiting : List String → ℕ → List PendingPrewarm → List PendingPrewarm
waiting apps windows [] = []
waiting apps windows (p ∷ ps) =
    let rest = waiting apps windows ps in if waits apps windows p then observed p ∷ rest else rest

pub waiting-append :
    (apps : List String) (windows : ℕ) (ps qs : List PendingPrewarm)
    → waiting apps windows (ps ++ qs) ≡ (waiting apps windows ps ++ waiting apps windows qs)
unfolding waiting
waiting-append apps windows [] qs = refl
waiting-append apps windows (p ∷ ps) qs = elim (Bool-cases (waits apps windows p)) [
  | inl e ↦ rw e (ap (◌∷◌ (observed p)) (waiting-append apps windows ps qs))
  | inr e ↦ rw e (waiting-append apps windows ps qs)
]

pub waiting_in_time :
    (apps : List String) (windows : ℕ) (ps : List PendingPrewarm)
    → All (λ p. p.windows_observed < windows) (waiting apps windows ps)
unfolding waiting
waiting_in_time apps windows [] = tt
waiting_in_time apps windows (p ∷ ps) = elim (Bool-cases (waits apps windows p)) [
  | inl e ↦ rw e (in_time e, waiting_in_time apps windows ps)
  | inr e ↦ rw e (waiting_in_time apps windows ps)
]
  where
    in_time : waits apps windows p ≡ true → min 255 (suc p.windows_observed) < windows
    in_time e = ground arith

module _ (sc : Scores) where
  pub waiting-resolve_each :
      (apps : List String) (ps : List PendingPrewarm) (s : ModelMemoryStore sc)
      → (resolve_each sc apps ps s).1 ≡ waiting apps s.prewarm_effect_windows ps
  unfolding resolve_each waiting record_prewarm_attribution
  waiting-resolve_each apps [] s = refl
  waiting-resolve_each apps (p ∷ ps) s = elim (Bool-cases (member apps p.package_name)) [
    | inl hit ↦
        let e = FeedbackCorrectness.prediction_hit in
        rw hit (
          waiting-resolve_each apps ps
            (record_prewarm_attribution sc (observed p) e (hit_evidence (observed p)) true s))
    | inr away ↦ elim (Bool-cases (leb s.prewarm_effect_windows (observed p).windows_observed)) [
      | inl late ↦
          let e = FeedbackCorrectness.prediction_miss in
          let text = miss_evidence (observed p) s.prewarm_effect_windows in
          rw (away, late)
            (waiting-resolve_each apps ps
              (record_prewarm_attribution sc (observed p) e text false s))
      | inr early ↦ rw (away, early) (ap (◌∷◌ (observed p)) (waiting-resolve_each apps ps s))
    ]
  ]

  module _ {F : Type 0} (trim : String → String) (context : StructuredContext)
      (decision : DecisionBackendResult F) (records : List AuditRecord)
      (s : ModelMemoryStore sc) where
    pub settings-observe_window :
        settings sc (observe_window sc trim context decision records s) ≡ settings sc s
    unfolding observe_window decay_momentum count_window resolve_pending_prewarms
    settings-observe_window =
        let r = resolve_pending_prewarms sc context.summary.foreground_apps s in
        ap (λ u. u.0)
          (uncounted-count_records sc records (count_window sc context (decay_momentum sc r)))
        ∙ ap (λ u. u.0)
            (unattributed-resolve_each sc context.summary.foreground_apps s.pending_prewarms
              (record s { pending_prewarms = [] }))

    pub pending-observe_window :
        (observe_window sc trim context decision records s).pending_prewarms ≡ (
          waiting context.summary.foreground_apps s.prewarm_effect_windows s.pending_prewarms
          ++ registered_all trim context.window_id records)
    unfolding observe_window decay_momentum count_window resolve_pending_prewarms
    pending-observe_window =
        let r = resolve_pending_prewarms sc context.summary.foreground_apps s in
        ap (λ u. u.1.1.0 ++ registered_all trim context.window_id records)
          (uncounted-count_records sc records (count_window sc context (decay_momentum sc r)))
        ∙ ap (λ ps. ps ++ registered_all trim context.window_id records)
            (waiting-resolve_each context.summary.foreground_apps s.pending_prewarms
              (record s { pending_prewarms = [] }))
