-- ===== src/Lib.antt =====
-- DiPECS watches what a phone does, sums it up in windows, asks a decision backend what to
-- prepare, and lets a policy decide which of the proposed actions reach a device. This library
-- models the Rust crates that carry that logic, and proves what makes them correct.
--
-- The path of an event: a collector hands a raw event to the ingress (Ingress,
-- crates/aios-core/src/collector_ingress.rs); the privacy air gap strips it (Airgap,
-- crates/aios-core/src/privacy_airgap.rs, and Airgap.Text, crates/aios-core/src/text_analysis.rs);
-- the window aggregator collects the stripped events and closes them to a context (Window,
-- crates/aios-core/src/context_builder.rs). The router picks a backend for the context and keeps a
-- circuit breaker (Router, crates/aios-agent/src/router/mod.rs); three of the backends are
-- Backend.RuleBased, Backend.Fallback and Local.Evaluator
-- (crates/aios-agent/src/backends/rule_based.rs, fallback.rs and local_evaluator.rs). The
-- lifecycle takes the backend's batch of intents (Lifecycle,
-- crates/aios-core/src/action_lifecycle.rs), has the policy decide each action (Policy and
-- Policy.Targets, crates/aios-core/src/policy_engine.rs), seals the approved ones
-- (Spec.Governance, crates/aios-core/src/governance/mod.rs), hands them to an adapter (Adapter,
-- crates/aios-action/src/lib.rs and offline_adapter.rs), and writes one audit record for each
-- action. The daemon's loop drives all of this for each closed window (Daemon,
-- crates/aios-daemon/src/pipeline.rs). What was decided is remembered (Memory,
-- crates/aios-core/src/context_memory.rs), and the cloud backend reads the memory's profile; its
-- answers are translated to intents (Cloud and Prefetch, crates/aios-agent/src/backends/cloud_llm
-- and prefetch_target.rs). A replay of recorded events is compared with a golden trace (Trace,
-- crates/aios-core/src/trace_engine.rs and crates/aios-spec/src/trace.rs). How many raw events a
-- window has seen is counted beside it (Stats, crates/aios-collector/src/collection_stats.rs). The
-- types they share stand in Spec (crates/aios-spec/src), and the helpers of all files in Base.
--
-- A definition has the name of the function or type it models; a loop is a recursion on the list
-- it walks, with its mutable variables as arguments, and a method that changes its object returns
-- the new one. `evaluate_batch_with_context` of the policy engine is
-- Policy.evaluate_batch_with_context, `ActionLifecycle::run` is Lifecycle.run, which returns the
-- records beside the list of the actions given to the adapter, `WindowAggregator::close` is
-- Window.close, and `DecisionRouter::evaluate_model_input` is Router.evaluate_model_input, which
-- takes and returns the breaker's list of error times. `run_processing_loop` is
-- Daemon.Loop.run_processing_loop, on the list of its rounds: what `select!` gives and what the
-- clocks show in each.
--
-- Numbers: ordinals are cut to 32 bits as `as u32` cuts them, an `i64` is an integer of Base.Int
-- whose arithmetic wraps or saturates where the source's does in a release build, and sizes and
-- counts that the machine bounds by its memory are natural numbers. An `f32` is an element of
-- Base.Floats, which has the order of the source's comparisons and the literals as hundredths,
-- with the one law that literals keep their order. No definition uses fuel except the printing of
-- a number, which gets the number and one as fuel, and a number has no more digits than that.
--
-- Parameters, which stand for what is not in the repository or is not determined by it: the
-- adapter's answers, the texts of errors, fresh identifiers, the clock, the order in which a hash
-- map gives its entries, `to_lowercase`, `trim` and `Path::extension` of the standard library,
-- `f64` (Memory.Scores), the HTTP exchange and the parser of JSON, the test whether two
-- confidences are further apart than `f32::EPSILON`, the arithmetic of `f32` (Local.Score), and
-- the backends as the router calls them.
--
-- Not modelled: the reading of procfs, binder and fanotify (the rest of crates/aios-collector),
-- the processes and channels around the pipeline (the rest of crates/aios-daemon,
-- crates/aios-core/src/action_bus.rs), the exchange with a device
-- (crates/aios-action/src/android_adapter.rs), the predictive backend, the requests and the
-- configuration of the cloud backend, the file and the environment of the context memory, the
-- command line and its benchmarks (crates/aios-cli), the collector app in Kotlin
-- (apps/android-collector), log lines, and the construction of the router from environment
-- variables.
pub mod Base
pub mod Spec
pub mod Ingress
pub mod Airgap
pub mod Window
pub mod Policy
pub mod Lifecycle
pub mod Adapter
pub mod Router
pub mod Backend
pub mod Trace
pub mod Memory
pub mod Prefetch
pub mod Cloud
pub mod Local
pub mod Daemon
pub mod Stats
mod Tests
