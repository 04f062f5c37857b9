-- ===== src/Adapter/OfflineAdapter.antt =====
-- crates/aios-action/src/offline_adapter.rs: the adapter that simulates.
use di_pecs.Base.{String, Option}
use di_pecs.Base.Text.{concat}
use di_pecs.Spec.Intent.{ActionType}
use di_pecs.Spec.Governance.{AuthorizedAction}
use di_pecs.Lifecycle.{AdapterResult}
use di_pecs.Adapter.Outcome.{outcome_of, target_or}

abbrev pub summary_of : ActionType → Option String → String
summary_of ActionType.no_op target = "noop"
summary_of ActionType.pre_warm_process target =
    concat "simulate_prewarm:" (target_or "unknown" target)
summary_of ActionType.prefetch_file target = concat "simulate_cache:" (target_or "unknown" target)
summary_of ActionType.keep_alive target = concat "simulate_keepalive:" (target_or "system" target)
summary_of ActionType.release_memory target = concat "simulate_release:" (target_or "system" target)

unfoldable pub execute : AuthorizedAction → AdapterResult
execute authorized =
    let action = authorized.action in
    AdapterResult.ok (outcome_of action (summary_of action.action_type action.target))
