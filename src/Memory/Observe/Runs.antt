-- ===== src/Memory/Observe/Runs.antt =====
-- crates/aios-core/src/context_memory.rs: a memory in use, as the sequence of the calls that change it.
use di_pecs.Base.{String, List, [], ◌∷◌}
use di_pecs.Spec.Context.{StructuredContext}
use di_pecs.Spec.Intent.{DecisionBackendResult}
use di_pecs.Spec.Governance.{AuditRecord}
use di_pecs.Memory.Scores.{Scores}
use di_pecs.Memory.Store.{ModelMemoryStore, set_llm_summary}
use di_pecs.Memory.Observe.{observe_window}

pub data Step (F : Type 0) : Type 0 where
  observe : StructuredContext → DecisionBackendResult F → List AuditRecord → Step F
  summarise : String → Step F

abbrev pub apply :
    {F : Type 0} (sc : Scores)
    → (String → String)
    → Step F
    → ModelMemoryStore sc
    → ModelMemoryStore sc
apply sc trim (Step.observe context decision records) s =
    observe_window sc trim context decision records s
apply sc trim (Step.summarise text) s = set_llm_summary sc trim text s

abbrev pub run :
    {F : Type 0} (sc : Scores)
    → (String → String)
    → List (Step F)
    → ModelMemoryStore sc
    → ModelMemoryStore sc
run sc trim [] s = s
run sc trim (step ∷ steps) s = run sc trim steps (apply sc trim step s)

-- the windows that the steps observe
abbrev pub windows_of : {F : Type 0} → List (Step F) → List String
windows_of [] = []
windows_of (Step.observe context decision records ∷ steps) = context.window_id ∷ windows_of steps
windows_of (Step.summarise text ∷ steps) = windows_of steps
