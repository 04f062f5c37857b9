-- ===== src/Memory/Observe/Bounds.antt =====
-- crates/aios-core/src/context_memory.rs: the limits that a memory keeps to.
use di_pecs.Base.{
  ℕ, ◌≤◌, ◌<◌, String, Option, List, [], ◌∷◌, sym, ap, inl, inr, arith, length, All, All-append,
  Option-cases, Bool-cases, ◌&&◌,
}
use mathlib.Core.Path.{subst}
use di_pecs.Base.Maps.{length-last}
use di_pecs.Spec.Context.{StructuredContext}
use di_pecs.Spec.Governance.{AuditRecord}
use di_pecs.Spec.Intent.{DecisionBackendResult}
use di_pecs.Memory.Scores.{Scores}
use di_pecs.Memory.Store.{
  ModelMemoryConfig, ModelMemoryStore, clamp, with_config, apply_config, load_or_default,
}
use di_pecs.Memory.Prewarm.{
  is_prewarm_type, has_succeeded, package_of_target, registered, registered_all,
}
use di_pecs.Memory.Observe.{observe_window}
use di_pecs.Memory.Observe.Frame.{settings}
use di_pecs.Memory.Observe.Runs.{Step, apply, run}
use di_pecs.Memory.Observe.Waiting.{waiting, waiting_in_time, pending-observe_window}
use di_pecs.Memory.Observe.Recent.{settings-apply, trim_recent-last, recent_within}

clamp_bounds : (lo hi n : ℕ) → lo ≤ hi → (lo ≤ clamp lo hi n) × (clamp lo hi n ≤ hi)
unfolding clamp
clamp_bounds lo hi n h = ground arith

-- the limits of the configuration, whatever it asks for
abbrev pub AreLimits : ℕ × (ℕ × (ℕ × ℕ)) → Type 0
AreLimits k =
    ((1 ≤ k.0) × (k.0 ≤ 50))
    × (((1 ≤ k.1.0) × (k.1.0 ≤ 32)) × ((k.1.1.0 ≤ 999) × ((1 ≤ k.1.1.1) × (k.1.1.1 ≤ 20))))

clamp-AreLimits :
    (a b c d : ℕ) → AreLimits (clamp 1 50 a, (clamp 1 32 b, (clamp 0 999 c, clamp 1 20 d)))
clamp-AreLimits a b c d = (
  clamp_bounds 1 50 a (omega arith),
  (
    clamp_bounds 1 32 b (omega arith),
    ((clamp_bounds 0 999 c (omega arith)).1, clamp_bounds 1 20 d (omega arith)),
  ),
)

module _ (sc : Scores) where
  abbrev pub IsWithinLimits : ModelMemoryStore sc → Type 0
  IsWithinLimits s = AreLimits (settings sc s) × (length s.recent ≤ s.recent_limit)

  with_config-IsWithinLimits : (config : ModelMemoryConfig) → IsWithinLimits (with_config sc config)
  unfolding with_config
  with_config-IsWithinLimits config = (
    clamp-AreLimits config.recent_limit config.top_limit config.momentum_decay_milli
        config.prewarm_effect_windows,
    omega arith,
  )

  apply_config-IsWithinLimits :
      (config : ModelMemoryConfig) (s : ModelMemoryStore sc)
      → IsWithinLimits (apply_config sc config s)
  unfolding apply_config
  apply_config-IsWithinLimits config s =
      let limit = clamp 1 50 config.recent_limit in
      (
        clamp-AreLimits config.recent_limit config.top_limit config.momentum_decay_milli
            config.prewarm_effect_windows,
        omega (arith, ap length (trim_recent-last sc limit s.recent), length-last limit s.recent),
      )

  load_or_default-IsWithinLimits :
      (config : ModelMemoryConfig) (loaded : Option (ModelMemoryStore sc))
      → IsWithinLimits (load_or_default sc config loaded)
  unfolding load_or_default with_config apply_config
  load_or_default-IsWithinLimits config loaded = elim (Option-cases config.persist_path) [
    | inl e ↦ rw e (with_config-IsWithinLimits config)
    | inr (path, e) ↦ elim (Option-cases loaded) [
      | inl absent ↦ rw (e, absent) (with_config-IsWithinLimits config)
      | inr (memory, read) ↦ rw (e, read) (apply_config-IsWithinLimits config memory)
    ]
  ]

  run-IsWithinLimits :
      {F : Type 0} (trim : String → String) (steps : List (Step F)) (s : ModelMemoryStore sc)
      → IsWithinLimits s
      → IsWithinLimits (run sc trim steps s)
  run-IsWithinLimits trim [] s h = h
  run-IsWithinLimits trim (step ∷ steps) s h =
      run-IsWithinLimits trim steps (apply sc trim step s) (
        subst AreLimits (sym (settings-apply sc trim step s)) h.0,
        recent_within sc trim step s h.1,
      )

  -- Whatever the configuration asks for and whatever the file held, a memory that was loaded and then
  -- used for any number of steps has between 1 and 50 windows as its limit and no more on record,
  -- between 1 and 32 entries in a ranking, a decay below 1000 thousandths, and waits for a prewarm
  -- between 1 and 20 windows.
  pub load-IsWithinLimits :
      {F : Type 0} (trim : String → String) (config : ModelMemoryConfig)
      (loaded : Option (ModelMemoryStore sc)) (steps : List (Step F))
      → IsWithinLimits (run sc trim steps (load_or_default sc config loaded))
  load-IsWithinLimits trim config loaded steps =
      run-IsWithinLimits trim steps (load_or_default sc config loaded)
        (load_or_default-IsWithinLimits config loaded)

  registered_new :
      (trim : String → String) (window_id : String) (records : List AuditRecord) (windows : ℕ)
      → 1 ≤ windows
      → All (λ p. p.windows_observed < windows) (registered_all trim window_id records)
  unfolding registered registered_all
  registered_new trim window_id [] windows h = tt
  registered_new trim window_id (r ∷ rs) windows h =
      All-append (λ p. p.windows_observed < windows) (registered trim window_id r)
        (registered_all trim window_id rs) (one r) (registered_new trim window_id rs windows h)
    where
      one :
          (r : AuditRecord) → All (λ p. p.windows_observed < windows) (registered trim window_id r)
      one r = elim (Bool-cases (is_prewarm_type r.action_type && has_succeeded r.terminal)) [
        | inl e ↦ elim (Option-cases (package_of_target trim r.target)) [
          | inl absent ↦ rw (e, absent) tt
          | inr (name, found) ↦ rw (e, found) (omega (arith, h), tt)
        ]
        | inr e ↦ rw e tt
      ]

  -- After a window, in a memory that waits at least one window, every prewarm that is still pending has
  -- been observed for fewer windows than the memory waits for one, also when the memory came from a
  -- file with a longer wait.
  pub pending_in_time :
      {F : Type 0} (trim : String → String) (context : StructuredContext)
      (decision : DecisionBackendResult F) (records : List AuditRecord) (s : ModelMemoryStore sc)
      → 1 ≤ s.prewarm_effect_windows
      → All
          (λ p. p.windows_observed < s.prewarm_effect_windows)
          (observe_window sc trim context decision records s).pending_prewarms
  pending_in_time trim context decision records s h =
      let apps = context.summary.foreground_apps in
      let windows = s.prewarm_effect_windows in
      subst (All (λ p. p.windows_observed < windows))
        (sym (pending-observe_window sc trim context decision records s))
        (All-append (λ p. p.windows_observed < windows) (waiting apps windows s.pending_prewarms)
          (registered_all trim context.window_id records)
          (waiting_in_time apps windows s.pending_prewarms)
          (registered_new trim context.window_id records windows h))
