-- ===== src/Ingress.antt =====
-- crates/aios-core/src/collector_ingress.rs: the gate before the privacy boundary.
use di_pecs.Base.{String, not, if◌then◌else◌}
use di_pecs.Base.Int.{ℤ}
use di_pecs.Base.Text.{str_eq}
use di_pecs.Spec.Event.{CollectorEnvelope, IngestedRawEvent, RawEvent, SourceTier}

abbrev pub supported_collector_schema : String
supported_collector_schema = "dipecs.collector.v1"

pub data CollectorIngressError : Type 0 where
  unsupported_schema_version : String → CollectorIngressError

pub data IngressResult : Type 0 where
  ok : IngestedRawEvent → IngressResult
  err : CollectorIngressError → IngressResult

unfoldable pub accept : CollectorEnvelope → IngressResult
accept envelope =
    if not (str_eq envelope.schema_version supported_collector_schema)
    then IngressResult.err
        (CollectorIngressError.unsupported_schema_version envelope.schema_version)
    else IngressResult.ok
        (record { raw_event = envelope.raw_event; source_tier = envelope.source_tier })

unfoldable pub accept_internal : RawEvent → String → ℤ → IngestedRawEvent
accept_internal raw source captured_at_ms = record {
  raw_event = raw;
  source_tier = SourceTier.daemon;
}
