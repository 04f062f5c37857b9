-- ===== src/Tests/Pipelines.antt =====
-- The sample window through the pipeline, with a worker whose thread has just finished.
use di_pecs.Base.{String, true, some, []}
use di_pecs.Base.Floats.{hundredths}
use di_pecs.Adapter.Reliable.{default_adapter}
use di_pecs.Cloud.{ok}
use di_pecs.Policy.{default_config}
use di_pecs.Daemon.Pipeline.{WindowProcessingDeps, process_window}
use di_pecs.Daemon.Record.{IsRecorded, process_window-IsRecorded}
use di_pecs.Daemon.Worker.{Job, new}
use di_pecs.Tests.Memories.{fresh, no_trim, thousandth_scores}
use di_pecs.Tests.Routing.{noon, router}
use di_pecs.Tests.Samples.{context}

abbrev as_error : {A : Type 0} → A → String
as_error x = "error"

abbrev deps : WindowProcessingDeps thousandth_scores
deps = record {
  memory = fresh;
  profile_summary_worker = some (record (new true 5) { pending = true });
  circuit = [];
  executed = [];
  audit = [];
}

process_window-IsRecorded_example : IsRecorded thousandth_scores context deps (
    process_window thousandth_scores hundredths no_trim as_error as_error default_adapter router
      (default_config hundredths)
      noon
      (Job.finished (ok "note"))
      Job.running
      0
      context
      deps)
process_window-IsRecorded_example =
    process_window-IsRecorded thousandth_scores hundredths no_trim as_error as_error default_adapter
      router (default_config hundredths) noon (Job.finished (ok "note")) Job.running 0 context deps
