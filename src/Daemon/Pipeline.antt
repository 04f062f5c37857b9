-- ===== src/Daemon/Pipeline.antt =====
-- crates/aios-daemon/src/pipeline.rs: what happens to a closed window. The traces and the file of the
-- memory are output.
use di_pecs.Base.{ℕ, String, Option, none, some, List, ◌++◌}
use di_pecs.Base.Floats.{Floats}
use di_pecs.Spec.Context.{StructuredContext}
use di_pecs.Spec.Governance.{AuditRecord, AuthorizedAction, AdapterError}
use di_pecs.Spec.Intent.{for_route}
use di_pecs.Lifecycle.{Adapter, LifecycleError, run}
use di_pecs.Memory.Scores.{Scores}
use di_pecs.Memory.Store.{ModelMemoryStore}
use di_pecs.Memory.Observe.{observe_window}
use di_pecs.Memory.Profile.{model_input}
use di_pecs.Policy.{PolicyConfig}
use di_pecs.Router.{CircuitState, Clock, DecisionRouter, evaluate_model_input}
use di_pecs.Daemon.Worker.{Job, ProfileSummaryWorker, poll, maybe_start}

-- What the processing of a window changes: the memory, the worker (if there is one), the breaker of the
-- router, and what the adapter has executed. `audit` is not a field of the source's
-- struct: it gathers the records that the source writes to the runtime trace.
pub record WindowProcessingDeps (sc : Scores) : Type 0 where
  pub memory : ModelMemoryStore sc
  pub profile_summary_worker : Option ProfileSummaryWorker
  pub circuit : CircuitState
  pub executed : List AuthorizedAction
  pub audit : List AuditRecord

module _ (sc : Scores) (fl : Floats) (trim : String → String)
    (lifecycle_text : LifecycleError → String) (adapter_text : AdapterError → String)
    (adapter : Adapter) (router : DecisionRouter fl.F32) (config : PolicyConfig fl) where
  abbrev pub poll_worker :
      Job → WindowProcessingDeps sc → Option ProfileSummaryWorker → WindowProcessingDeps sc
  poll_worker job deps none = deps
  poll_worker job deps (some worker) =
      let (worker', memory) = poll sc trim job worker deps.memory in
      record deps { memory = memory; profile_summary_worker = some worker' }

  abbrev pub start_worker :
      WindowProcessingDeps sc → Option ProfileSummaryWorker → WindowProcessingDeps sc
  start_worker deps none = deps
  start_worker deps (some worker) = record deps {
    profile_summary_worker = some (maybe_start sc trim deps.memory worker);
  }

  -- the middle part: decide, run, remember
  unfoldable pub decide_and_run :
      Clock → ℕ → StructuredContext → WindowProcessingDeps sc → WindowProcessingDeps sc
  decide_and_run clock window_ordinal ctx deps =
      let (decision, circuit) =
        evaluate_model_input fl.F32 router clock deps.circuit (model_input sc ctx deps.memory) in
      let (records, executed) =
        run lifecycle_text adapter_text adapter fl config window_ordinal decision.intent_batch
          decision.route decision.error (for_route decision.route) ctx deps.executed in
      record deps {
        memory = observe_window sc trim ctx decision records deps.memory;
        circuit = circuit;
        executed = executed;
        audit = deps.audit ++ records;
      }

  -- `before` and `after` are the thread at the first and at the second poll
  unfoldable pub process_window :
      Clock → Job → Job → ℕ → StructuredContext → WindowProcessingDeps sc → WindowProcessingDeps sc
  process_window clock before after window_ordinal ctx deps =
      let polled = poll_worker before deps deps.profile_summary_worker in
      let ran = decide_and_run clock window_ordinal ctx polled in
      let polled' = poll_worker after ran ran.profile_summary_worker in
      start_worker polled' polled'.profile_summary_worker
