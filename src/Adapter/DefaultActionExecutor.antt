-- ===== src/Adapter/DefaultActionExecutor.antt =====
-- crates/aios-action/src/lib.rs: the adapter of the desktop replay.
use di_pecs.Base.{String, Option, none, some}
use di_pecs.Base.Text.{concat}
use di_pecs.Spec.Intent.{ActionType, SuggestedAction}
use di_pecs.Spec.Governance.{AdapterError, AuthorizedAction}
use di_pecs.Lifecycle.{AdapterResult}
use di_pecs.Adapter.Outcome.{outcome_of}

abbrev pub summarize_prewarm : SuggestedAction → Option String → AdapterResult
summarize_prewarm action (some target) = AdapterResult.ok (outcome_of action "stub_prewarm")
summarize_prewarm action none =
    AdapterResult.err (AdapterError.execution_error "PreWarmProcess requires a target app")

abbrev pub keep_alive_summary : Option String → String
keep_alive_summary (some target) = concat "stub_keepalive:" target
keep_alive_summary none = "stub_keepalive:system"

-- the `match action.action_type`
abbrev pub execute_type : SuggestedAction → ActionType → AdapterResult
execute_type action ActionType.pre_warm_process = summarize_prewarm action action.target
execute_type action ActionType.prefetch_file = AdapterResult.ok (outcome_of action "stub_prefetch")
execute_type action ActionType.keep_alive =
    AdapterResult.ok (outcome_of action (keep_alive_summary action.target))
execute_type action ActionType.release_memory =
    AdapterResult.ok (outcome_of action "stub_release_memory")
execute_type action ActionType.no_op = AdapterResult.ok (outcome_of action "noop")

unfoldable pub execute : AuthorizedAction → AdapterResult
execute authorized = execute_type authorized.action authorized.action.action_type
