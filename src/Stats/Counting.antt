-- ===== src/Stats/Counting.antt =====
-- crates/aios-collector/src/collection_stats.rs: the counts are those of the events.
use di_pecs.Base.{suc, ◌+◌, ◌%◌, List, [], ◌∷◌, ◌≡◌, arith, length}
use di_pecs.Spec.Event.{
  RawEvent, app_transition, binder_transaction, proc_state_change, file_system_access,
  notification_posted, notification_interaction, screen_state, system_state,
}
use di_pecs.Stats.{RawEventStats, record_event, summary_fields, total}

abbrev pub record_each : List RawEvent → RawEventStats → RawEventStats
record_each [] s = s
record_each (event ∷ events) s = record_each events (record_event event s)

total-record_event :
    (event : RawEvent) (s : RawEventStats)
    → total (record_event event s) ≡ suc (total s) % 18446744073709551616
unfolding total record_event summary_fields
total-record_event (app_transition _) s = omega arith
total-record_event (binder_transaction _) s = omega arith
total-record_event (proc_state_change _) s = omega arith
total-record_event (file_system_access _) s = omega arith
total-record_event (notification_posted _) s = omega arith
total-record_event (notification_interaction _) s = omega arith
total-record_event (screen_state _) s = omega arith
total-record_event (system_state _) s = omega arith

-- The total is the number of recorded events, added to what it was, modulo 2 ^ 64.
pub total-record_each :
    (events : List RawEvent) (s : RawEventStats)
    → total (record_each events s) % 18446744073709551616
      ≡ (total s + length events) % 18446744073709551616
total-record_each [] s = omega arith
total-record_each (event ∷ events) s =
    omega (arith, total-record_each events (record_event event s), total-record_event event s)
