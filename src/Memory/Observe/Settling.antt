-- ===== src/Memory/Observe/Settling.antt =====
-- crates/aios-core/src/context_memory.rs: every prewarm is settled in time.
use di_pecs.Base.{
  ℕ, suc, ◌+◌, ◌≤◌, ◌<◌, ◌⊎◌, String, false, List, [], ◌∷◌, ◌++◌, inl, inr, ◌≡◌, refl, sym, ◌∙◌, ap,
  arith, length, All, Bool-cases,
}
use mathlib.Core.List.{append-nil, append_assoc}
use di_pecs.Memory.Scores.{Scores}
use di_pecs.Memory.Store.{ModelMemoryStore, PendingPrewarm}
use di_pecs.Memory.Prewarm.{registered_all}
use di_pecs.Memory.Observe.Runs.{Step, apply, run, windows_of}
use di_pecs.Memory.Observe.Waiting.{waits, waiting, waiting-append, pending-observe_window}
use di_pecs.Memory.Observe.Recent.{settings-apply, pending-set_llm_summary}

-- what the steps leave of prewarms that were pending before them
unfoldable still_waiting :
    {F : Type 0} → ℕ → List (Step F) → List PendingPrewarm → List PendingPrewarm
still_waiting windows [] ps = ps
still_waiting windows (Step.observe context decision records ∷ steps) ps =
    still_waiting windows steps (waiting context.summary.foreground_apps windows ps)
still_waiting windows (Step.summarise text ∷ steps) ps = still_waiting windows steps ps

still_waiting_none :
    {F : Type 0} (windows : ℕ) (steps : List (Step F)) → still_waiting windows steps [] ≡ []
unfolding still_waiting waiting
still_waiting_none windows [] = refl
still_waiting_none windows (Step.observe context decision records ∷ steps) =
    still_waiting_none windows steps
still_waiting_none windows (Step.summarise text ∷ steps) = still_waiting_none windows steps

-- one window more, for those that it leaves
waiting_longer :
    (apps : List String) (windows k : ℕ) (ps : List PendingPrewarm)
    → k < 255
    → All (λ p. k ≤ p.windows_observed) ps
    → All (λ p. suc k ≤ p.windows_observed) (waiting apps windows ps)
unfolding waiting
waiting_longer apps windows k [] h old = tt
waiting_longer apps windows k (p ∷ ps) h old = elim (Bool-cases (waits apps windows p)) [
  | inl e ↦ rw e (omega (arith, h, old.0), waiting_longer apps windows k ps h old.1)
  | inr e ↦ rw e (waiting_longer apps windows k ps h old.1)
]

-- none, once they have waited for all their windows
waiting_late :
    (apps : List String) (windows k : ℕ) (ps : List PendingPrewarm)
    → windows < 255
    → windows ≤ suc k
    → All (λ p. k ≤ p.windows_observed) ps
    → waiting apps windows ps ≡ []
unfolding waiting
waiting_late apps windows k [] h late old = refl
waiting_late apps windows k (p ∷ ps) h late old =
    let settled : waits apps windows p ≡ false = ground (arith, h, late, old.0) in
    rw settled (waiting_late apps windows k ps h late old.1)

still_waiting_late :
    {F : Type 0} (windows k : ℕ) (steps : List (Step F)) (ps : List PendingPrewarm)
    → windows < 255
    → k < windows
    → windows ≤ k + length (windows_of steps)
    → All (λ p. k ≤ p.windows_observed) ps
    → still_waiting windows steps ps ≡ []
unfolding still_waiting
still_waiting_late windows k [] ps h early late old = absurd (omega (arith, early, late))
still_waiting_late windows k (Step.observe context decision records ∷ steps) ps h early late old =
    let apps = context.summary.foreground_apps in
    elim (le-or-lt windows (suc k)) [
      | inl done ↦
          ap (still_waiting windows steps) (waiting_late apps windows k ps h done old)
          ∙ still_waiting_none windows steps
      | inr more ↦
          still_waiting_late windows (suc k) steps (waiting apps windows ps) h more
            (omega (arith, late)) (waiting_longer apps windows k ps (omega (arith, h, more)) old)
    ]
  where
    le-or-lt : (a b : ℕ) → (a ≤ b) ⊎ (b < a)
    le-or-lt a b = omega arith
still_waiting_late windows k (Step.summarise text ∷ steps) ps h early late old =
    still_waiting_late windows k steps ps h early late old

module _ (sc : Scores) {F : Type 0} (trim : String → String) where
  pending_apply :
      (step : Step F) (s t : ModelMemoryStore sc) (ps : List PendingPrewarm)
      → s.prewarm_effect_windows ≡ t.prewarm_effect_windows
      → s.pending_prewarms ≡ (ps ++ t.pending_prewarms)
      → (apply sc trim step s).pending_prewarms ≡ (
          still_waiting s.prewarm_effect_windows (step ∷ []) ps
          ++ (apply sc trim step t).pending_prewarms)
  unfolding still_waiting
  pending_apply (Step.observe context decision records) s t ps same pending =
      let apps = context.summary.foreground_apps in
      let windows = s.prewarm_effect_windows in
      let new = registered_all trim context.window_id records in
      pending-observe_window sc trim context decision records s
      ∙ ap (λ l. waiting apps windows l ++ new) pending
      ∙ ap (λ l. l ++ new) (waiting-append apps windows ps t.pending_prewarms)
      ∙ append_assoc (waiting apps windows ps) (waiting apps windows t.pending_prewarms) new
      ∙ ap (λ w. waiting apps windows ps ++ (waiting apps w t.pending_prewarms ++ new)) same
      ∙ ap (λ l. waiting apps windows ps ++ l)
          (sym (pending-observe_window sc trim context decision records t))
  pending_apply (Step.summarise text) s t ps same pending =
      pending-set_llm_summary sc trim text s
      ∙ pending
      ∙ ap (λ l. ps ++ l) (sym (pending-set_llm_summary sc trim text t))

  still_waiting-cons :
      (windows : ℕ) (step : Step F) (steps : List (Step F)) (ps : List PendingPrewarm)
      → still_waiting windows (step ∷ steps) ps
        ≡ still_waiting windows steps (still_waiting windows (step ∷ []) ps)
  unfolding still_waiting
  still_waiting-cons windows (Step.observe context decision records) steps ps = refl
  still_waiting-cons windows (Step.summarise text) steps ps = refl

  -- What was pending before and what came after do not disturb each other.
  pending-run :
      (steps : List (Step F)) (s t : ModelMemoryStore sc) (ps : List PendingPrewarm)
      → s.prewarm_effect_windows ≡ t.prewarm_effect_windows
      → s.pending_prewarms ≡ (ps ++ t.pending_prewarms)
      → (run sc trim steps s).pending_prewarms ≡ (
          still_waiting s.prewarm_effect_windows steps ps ++ (run sc trim steps t).pending_prewarms)
  unfolding still_waiting
  pending-run [] s t ps same pending = pending
  pending-run (step ∷ steps) s t ps same pending =
      let s' = apply sc trim step s in
      let t' = apply sc trim step t in
      let windows = s.prewarm_effect_windows in
      let kept = ap (λ k. k.1.1.1) (settings-apply sc trim step s) in
      let kept' = ap (λ k. k.1.1.1) (settings-apply sc trim step t) in
      let one = still_waiting windows (step ∷ []) ps in
      pending-run steps s' t' one (kept ∙ same ∙ sym kept') (pending_apply step s t ps same pending)
      ∙ ap (λ w. still_waiting w steps one ++ (run sc trim steps t').pending_prewarms) kept
      ∙ ap (λ l. l ++ (run sc trim steps t').pending_prewarms)
          (sym (still_waiting-cons windows step steps ps))

  -- Once as many windows have been observed as the memory waits for a prewarm (between 1 and 254),
  -- nothing that was pending before them is pending any more: the pending prewarms are those that they
  -- would be, had none been pending.
  pub pending_settled :
      (steps : List (Step F)) (s : ModelMemoryStore sc)
      → 1 ≤ s.prewarm_effect_windows
      → s.prewarm_effect_windows < 255
      → s.prewarm_effect_windows ≤ length (windows_of steps)
      → (run sc trim steps s).pending_prewarms
        ≡ (run sc trim steps (record s { pending_prewarms = [] })).pending_prewarms
  pending_settled steps s some_wait short enough =
      let none_left : still_waiting s.prewarm_effect_windows steps s.pending_prewarms ≡ [] =
        still_waiting_late s.prewarm_effect_windows 0 steps s.pending_prewarms short
          (omega (arith, some_wait)) (omega (arith, enough)) (any_wait s.pending_prewarms) in
      pending-run steps s (record s { pending_prewarms = [] }) s.pending_prewarms refl
        (sym (append-nil s.pending_prewarms))
      ∙ ap (λ l. l ++ (run sc trim steps (record s { pending_prewarms = [] })).pending_prewarms)
          none_left
    where
      any_wait : (ps : List PendingPrewarm) → All (λ p. 0 ≤ p.windows_observed) ps
      any_wait [] = tt
      any_wait (p ∷ ps) = (omega arith, any_wait ps)
