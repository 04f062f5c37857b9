-- ===== src/Daemon/Record.antt =====
-- crates/aios-daemon/src/pipeline.rs: what the processing of a window leaves behind.
use di_pecs.Base.{
  ℕ, String, Option, none, some, List, [], ◌∷◌, ◌++◌, ◌≡◌, refl, ap, ◌∙◌, inl, inr, All, Bool-cases,
  not,
}
use di_pecs.Base.Floats.{Floats}
use di_pecs.Base.Maps.{last}
use di_pecs.Spec.Context.{StructuredContext}
use di_pecs.Spec.Governance.{AdapterError, AuditRecord}
use di_pecs.Spec.Intent.{for_route}
use di_pecs.Cloud.{ok, err}
use di_pecs.Lifecycle.{Adapter, LifecycleError, run}
use di_pecs.Lifecycle.Audit.{run-IsFinished}
use di_pecs.Lifecycle.Path.{IsFinished}
use di_pecs.Memory.Scores.{Scores}
use di_pecs.Memory.Store.{ModelMemoryStore}
use di_pecs.Memory.Observe.Frame.{uncounted, window_ids}
use di_pecs.Memory.Observe.Recent.{recent-observe_window, uncounted-set_llm_summary}
use di_pecs.Memory.Profile.{model_input}
use di_pecs.Policy.{PolicyConfig}
use di_pecs.Router.{Clock, DecisionRouter, evaluate_model_input}
use di_pecs.Daemon.Worker.{Job, ProfileSummaryWorker, poll, poll_job}
use di_pecs.Daemon.Pipeline.{
  WindowProcessingDeps, decide_and_run, poll_worker, process_window, start_worker,
}

module _ (sc : Scores) where
  -- The window is the last on record, and each record that the audit gains is finished.
  abbrev pub IsRecorded :
      StructuredContext → WindowProcessingDeps sc → WindowProcessingDeps sc → Type 0
  IsRecorded ctx before after =
      (window_ids after.memory.recent
        ≡ last before.memory.recent_limit (window_ids before.memory.recent ++ ctx.window_id ∷ []))
      × ((records : List AuditRecord) × ((after.audit ≡ before.audit ++ records)
            × All IsFinished records))

module _ (sc : Scores) (fl : Floats) (trim : String → String)
    (lifecycle_text : LifecycleError → String) (adapter_text : AdapterError → String)
    (adapter : Adapter) (router : DecisionRouter fl.F32) (config : PolicyConfig fl) where
  -- A poll changes no more of the memory than its summary.
  uncounted-poll :
      (job : Job) (worker : ProfileSummaryWorker) (memory : ModelMemoryStore sc)
      → uncounted sc (poll sc trim job worker memory).1 ≡ uncounted sc memory
  unfolding poll
  uncounted-poll job worker memory = elim (Bool-cases (not worker.pending)) [
    | inl idle ↦ rw idle refl
    | inr busy ↦ rw busy (joined job)
  ]
    where
      joined :
          (job : Job) → uncounted sc (poll_job sc trim job worker memory).1 ≡ uncounted sc memory
      joined Job.running = refl
      joined (Job.finished (ok summary)) = uncounted-set_llm_summary sc trim summary memory
      joined (Job.finished (err error)) = refl
      joined Job.panicked = refl

  abbrev Deps : Type 0
  Deps = WindowProcessingDeps sc

  -- The same memory but for its counters and its summary, and the same audit.
  abbrev IsKept : Deps → Deps → Type 0
  IsKept a b = (uncounted sc a.memory ≡ uncounted sc b.memory) × (a.audit ≡ b.audit)

  poll_worker-IsKept :
      (job : Job) (deps : Deps) (worker : Option ProfileSummaryWorker)
      → IsKept
          (poll_worker sc fl trim lifecycle_text adapter_text adapter router config job deps worker)
          deps
  poll_worker-IsKept job deps none = (refl, refl)
  poll_worker-IsKept job deps (some worker) = (uncounted-poll job worker deps.memory, refl)

  start_worker-IsKept :
      (deps : Deps) (worker : Option ProfileSummaryWorker)
      → IsKept
          (start_worker sc fl trim lifecycle_text adapter_text adapter router config deps worker)
          deps
  start_worker-IsKept deps none = (refl, refl)
  start_worker-IsKept deps (some worker) = (refl, refl)

  decide_and_run-IsRecorded :
      (clock : Clock) (w : ℕ) (ctx : StructuredContext) (deps : WindowProcessingDeps sc)
      → IsRecorded sc ctx deps (
          decide_and_run sc fl trim lifecycle_text adapter_text adapter router config clock w ctx
            deps)
  unfolding decide_and_run
  decide_and_run-IsRecorded clock w ctx deps =
      let decision =
        (evaluate_model_input fl.F32 router clock deps.circuit
          (model_input sc ctx deps.memory)).0 in
      let ran =
        run lifecycle_text adapter_text adapter fl config w decision.intent_batch decision.route
          decision.error (for_route decision.route) ctx deps.executed in
      (
        recent-observe_window sc trim ctx decision ran.0 deps.memory,
        (
          ran.0,
          (
            refl,
            run-IsFinished lifecycle_text adapter_text adapter fl config w decision.intent_batch
                decision.route decision.error (for_route decision.route) ctx deps.executed,
          ),
        ),
      )

  -- Whatever the router, the adapter and the thread of the worker answer, the processing of a window makes
  -- it the last window on record, in front of which are the last of those before, up to the limit; and
  -- each audit record that it adds is finished: a walk of the state machine to a terminal state.
  pub process_window-IsRecorded :
      (clock : Clock) (before after : Job) (w : ℕ) (ctx : StructuredContext)
      (deps : WindowProcessingDeps sc)
      → IsRecorded sc ctx deps (
          process_window sc fl trim lifecycle_text adapter_text adapter router config clock before
            after w ctx deps)
  unfolding process_window
  process_window-IsRecorded clock before after w ctx deps =
      let polled =
        poll_worker sc fl trim lifecycle_text adapter_text adapter router config before deps
          deps.profile_summary_worker in
      let ran =
        decide_and_run sc fl trim lifecycle_text adapter_text adapter router config clock w ctx
          polled in
      let joined =
        poll_worker sc fl trim lifecycle_text adapter_text adapter router config after ran
          ran.profile_summary_worker in
      let first = poll_worker-IsKept before deps deps.profile_summary_worker in
      let second = poll_worker-IsKept after ran ran.profile_summary_worker in
      let third = start_worker-IsKept joined joined.profile_summary_worker in
      let h = decide_and_run-IsRecorded clock w ctx polled in
      (
        ap (λ u. window_ids u.1.0) (third.0 ∙ second.0)
            ∙ h.0
            ∙ ap (λ u. last u.0.0 (window_ids u.1.0 ++ ctx.window_id ∷ [])) first.0,
        (h.1.0, (third.1 ∙ second.1 ∙ h.1.1.0 ∙ ap (λ l. l ++ h.1.0) first.1, h.1.1.1)),
      )
