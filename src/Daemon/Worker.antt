-- ===== src/Daemon/Worker.antt =====
-- crates/aios-daemon/src/pipeline.rs: the worker that has the profile summed up on another thread. What
-- the thread answers, and when, is an argument.
use di_pecs.Base.{ℕ, ◌%◌, String, Bool, true, false, ◌||◌, not, ◌==◌, if◌then◌else◌}
use di_pecs.Cloud.{Fallible, ok, err}
use di_pecs.Memory.Scores.{Scores}
use di_pecs.Memory.Store.{ModelMemoryStore, set_llm_summary}

-- `summarizer` tells whether there is one, and `pending` whether a thread has not been joined.
pub record ProfileSummaryWorker : Type 0 where
  pub summarizer : Bool
  pub interval_windows : ℕ
  pub pending : Bool
  pub last_started_window : ℕ

-- `ProfileSummaryWorker::new`
abbrev pub new : Bool → ℕ → ProfileSummaryWorker
new summarizer interval_windows = record {
  summarizer = summarizer;
  interval_windows = interval_windows;
  pending = false;
  last_started_window = 0;
}

-- the thread at the time of a poll
pub data Job : Type 0 where
  running : Job
  finished : Fallible String → Job
  panicked : Job

-- `windows.is_multiple_of(interval)` for an interval that is not 0
abbrev pub is_multiple_of : ℕ → ℕ → Bool
is_multiple_of windows interval = windows % interval == 0

module _ (sc : Scores) (trim : String → String) where
  abbrev pub poll_job :
      Job → ProfileSummaryWorker → ModelMemoryStore sc → ProfileSummaryWorker × ModelMemoryStore sc
  poll_job Job.running worker memory = (worker, memory)
  poll_job (Job.finished (ok summary)) worker memory =
      (record worker { pending = false }, set_llm_summary sc trim summary memory)
  poll_job (Job.finished (err error)) worker memory = (record worker { pending = false }, memory)
  poll_job Job.panicked worker memory = (record worker { pending = false }, memory)

  unfoldable pub poll :
      Job → ProfileSummaryWorker → ModelMemoryStore sc → ProfileSummaryWorker × ModelMemoryStore sc
  poll job worker memory =
      if not worker.pending then (worker, memory) else poll_job job worker memory

  unfoldable pub maybe_start : ModelMemoryStore sc → ProfileSummaryWorker → ProfileSummaryWorker
  maybe_start memory worker =
      let windows = memory.observation_windows in
      if not worker.summarizer
      then worker
      else if worker.pending || worker.interval_windows == 0
      then worker
      else if windows == 0
          || (not (is_multiple_of windows worker.interval_windows)
              || windows == worker.last_started_window)
      then worker
      else record worker { pending = true; last_started_window = windows }
