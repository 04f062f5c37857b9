-- ===== src/Memory/Observe/Accounting.antt =====
-- crates/aios-core/src/context_memory.rs: every prewarm is counted once, as a hit or as a miss.
use di_pecs.Base.{
  ℕ, suc, ◌+◌, ◌%◌, String, true, false, List, [], ◌∷◌, ◌++◌, inl, inr, ◌≡◌, refl, ◌∙◌, ap, arith,
  length, length-append, leb, Bool, Bool-cases, ◌⊎◌,
}
use Prim.Native.Nat.{Ordering}
use Prim.Native.Nat.Ordering.{lt, eq, gt}
use Prim.Native.String.{compare}
use di_pecs.Base.Maps.{Map, alter}
use di_pecs.Base.Text.{member}
use di_pecs.Spec.Context.{FeedbackCorrectness, StructuredContext}
use di_pecs.Spec.Governance.{AuditRecord}
use di_pecs.Spec.Intent.{DecisionBackendResult}
use di_pecs.Memory.Scores.{Scores, increment}
use di_pecs.Memory.Store.{ModelMemoryStore, PendingPrewarm, set_llm_summary}
use di_pecs.Memory.Prewarm.{
  observed, hit_evidence, miss_evidence, record_prewarm_attribution, resolve_each,
  resolve_pending_prewarms, registered_all,
}
use di_pecs.Memory.Observe.{observe_window, count_window, decay_momentum}
use di_pecs.Memory.Observe.Frame.{uncounted-count_records}
use di_pecs.Memory.Observe.Runs.{Step, run}
use di_pecs.Memory.Observe.Recent.{uncounted-set_llm_summary}

abbrev pub total : Map ℕ → ℕ
total [] = 0
total ((key, n) ∷ rest) = n + total rest

Ordering-cases : (o : Ordering) → (o ≡ lt) ⊎ ((o ≡ eq) ⊎ (o ≡ gt))
Ordering-cases lt = inl refl
Ordering-cases eq = inr (inl refl)
Ordering-cases gt = inr (inr refl)

total-increment :
    (counts : Map ℕ) (key : String)
    → total (increment counts key) % 4294967296 ≡ suc (total counts) % 4294967296
unfolding increment alter
total-increment [] key = refl
total-increment ((k, n) ∷ rest) key = elim (Ordering-cases (compare key k)) [
  | inl e ↦ rw (e, total) (omega arith)
  | inr (inl e) ↦ rw (e, total) (omega arith)
  | inr (inr e) ↦ rw (e, total) (omega (arith, total-increment rest key))
]

-- the prewarms that the steps register
abbrev pub registrations : {F : Type 0} → (String → String) → List (Step F) → ℕ
registrations trim [] = 0
registrations trim (Step.observe context decision records ∷ steps) =
    length (registered_all trim context.window_id records) + registrations trim steps
registrations trim (Step.summarise text ∷ steps) = registrations trim steps

-- the prewarms that a memory has settled, and those that are pending
module _ (sc : Scores) where
  abbrev pub settled : ModelMemoryStore sc → ℕ
  settled s = total s.prewarm_hit_counts + total s.prewarm_miss_counts

  settled-record :
      (p : PendingPrewarm) (c : FeedbackCorrectness) (evidence : String) (hit : Bool)
      (s : ModelMemoryStore sc)
      → settled (record_prewarm_attribution sc p c evidence hit s) % 4294967296
        ≡ suc (settled s) % 4294967296
  unfolding record_prewarm_attribution
  settled-record p c evidence true s =
      omega (arith, total-increment s.prewarm_hit_counts p.package_name)
  settled-record p c evidence false s =
      omega (arith, total-increment s.prewarm_miss_counts p.package_name)

  settled-resolve_each :
      (apps : List String) (ps : List PendingPrewarm) (s : ModelMemoryStore sc)
      → (settled (resolve_each sc apps ps s).0 + length (resolve_each sc apps ps s).1) % 4294967296
        ≡ (settled s + length ps) % 4294967296
  unfolding resolve_each
  settled-resolve_each apps [] s = refl
  settled-resolve_each apps (p ∷ ps) s = elim (Bool-cases (member apps p.package_name)) [
    | inl hit ↦
        let e = FeedbackCorrectness.prediction_hit in
        let s' = record_prewarm_attribution sc (observed p) e (hit_evidence (observed p)) true s in
        rw hit (
          omega (
            arith,
            settled-record (observed p) e (hit_evidence (observed p)) true s,
            settled-resolve_each apps ps s',
          ))
    | inr away ↦ elim (Bool-cases (leb s.prewarm_effect_windows (observed p).windows_observed)) [
      | inl late ↦
          let e = FeedbackCorrectness.prediction_miss in
          let text = miss_evidence (observed p) s.prewarm_effect_windows in
          let s' = record_prewarm_attribution sc (observed p) e text false s in
          rw (away, late)
            (omega
              (arith, settled-record (observed p) e text false s, settled-resolve_each apps ps s'))
      | inr early ↦ rw (away, early) (omega (arith, settled-resolve_each apps ps s))
    ]
  ]

  abbrev pub accounted : ModelMemoryStore sc → ℕ
  accounted s = (settled s + length s.pending_prewarms) % 4294967296

  accounted-observe_window :
      {F : Type 0} (trim : String → String) (context : StructuredContext)
      (decision : DecisionBackendResult F) (records : List AuditRecord) (s : ModelMemoryStore sc)
      → accounted (observe_window sc trim context decision records s)
        ≡ (settled s
            + length s.pending_prewarms
            + length (registered_all trim context.window_id records))
          % 4294967296
  unfolding observe_window decay_momentum count_window resolve_pending_prewarms
  accounted-observe_window trim context decision records s =
      let apps = context.summary.foreground_apps in
      let r = resolve_pending_prewarms sc apps s in
      let u = uncounted-count_records sc records (count_window sc context (decay_momentum sc r)) in
      let t = settled-resolve_each apps s.pending_prewarms (record s { pending_prewarms = [] }) in
      let new = registered_all trim context.window_id records in
      ap (λ k. (total k.1.1.1.0 + total k.1.1.1.1 + length (k.1.1.0 ++ new)) % 4294967296) u
      ∙ omega (
        arith,
        t,
        length-append
            (resolve_each sc apps s.pending_prewarms (record s { pending_prewarms = [] })).1 new,
      )

  -- Whatever is observed, the hits, the misses and the pending prewarms together are those that there
  -- were and those that were registered (modulo 2 ^ 32, where a counter starts again): none is lost and
  -- none is counted twice.
  pub accounted-run :
      {F : Type 0} (trim : String → String) (steps : List (Step F)) (s : ModelMemoryStore sc)
      → accounted (run sc trim steps s)
        ≡ (settled s + length s.pending_prewarms + registrations trim steps) % 4294967296
  accounted-run trim [] s = omega arith
  accounted-run trim (Step.observe context decision records ∷ steps) s = omega (
    arith,
    accounted-observe_window trim context decision records s,
    accounted-run trim steps (observe_window sc trim context decision records s),
  )
  accounted-run trim (Step.summarise text ∷ steps) s =
      let u = uncounted-set_llm_summary sc trim text s in
      accounted-run trim steps (set_llm_summary sc trim text s)
      ∙ ap
          (λ k.
            (total k.1.1.1.0 + total k.1.1.1.1 + length k.1.1.0 + registrations trim steps)
            % 4294967296)
          u
