-- ===== src/Stats.antt =====
-- crates/aios-collector/src/collection_stats.rs: how many raw events of each kind a window has seen.
pub mod Counting
use di_pecs.Base.{ℕ, suc, ◌+◌, ◌%◌, String, List, [], ◌∷◌}
use di_pecs.Spec.Event.{
  RawEvent, app_transition, binder_transaction, proc_state_change, file_system_access,
  notification_posted, notification_interaction, screen_state, system_state,
}

pub data RawEventKind : Type 0 where
  kind_app_transition kind_binder_transaction kind_proc_state_change kind_file_system_access :
      RawEventKind
  kind_notification_posted kind_notification_interaction kind_screen_state kind_system_state :
      RawEventKind

-- The fields are `u64`.
pub record RawEventStats : Type 0 where
  pub app_transitions : ℕ
  pub binder_transactions : ℕ
  pub proc_state_changes : ℕ
  pub file_system_accesses : ℕ
  pub notifications_posted : ℕ
  pub notification_interactions : ℕ
  pub screen_states : ℕ
  pub system_states : ℕ

-- the derived `Default`
abbrev pub no_stats : RawEventStats
no_stats = record {
  app_transitions = 0;
  binder_transactions = 0;
  proc_state_changes = 0;
  file_system_accesses = 0;
  notifications_posted = 0;
  notification_interactions = 0;
  screen_states = 0;
  system_states = 0;
}

-- `+= 1` on a `u64` in a release build
abbrev pub next : ℕ → ℕ
next n = suc n % 18446744073709551616

-- `RawEventStats::record`
unfoldable pub record_event : RawEvent → RawEventStats → RawEventStats
record_event (app_transition _) s = record s { app_transitions = next s.app_transitions }
record_event (binder_transaction _) s = record s {
  binder_transactions = next s.binder_transactions;
}
record_event (proc_state_change _) s = record s { proc_state_changes = next s.proc_state_changes }
record_event (file_system_access _) s = record s {
  file_system_accesses = next s.file_system_accesses;
}
record_event (notification_posted _) s = record s {
  notifications_posted = next s.notifications_posted;
}
record_event (notification_interaction _) s = record s {
  notification_interactions = next s.notification_interactions;
}
record_event (screen_state _) s = record s { screen_states = next s.screen_states }
record_event (system_state _) s = record s { system_states = next s.system_states }

unfoldable pub count : RawEventStats → RawEventKind → ℕ
count s RawEventKind.kind_app_transition = s.app_transitions
count s RawEventKind.kind_binder_transaction = s.binder_transactions
count s RawEventKind.kind_proc_state_change = s.proc_state_changes
count s RawEventKind.kind_file_system_access = s.file_system_accesses
count s RawEventKind.kind_notification_posted = s.notifications_posted
count s RawEventKind.kind_notification_interaction = s.notification_interactions
count s RawEventKind.kind_screen_state = s.screen_states
count s RawEventKind.kind_system_state = s.system_states

unfoldable pub summary_fields : RawEventStats → List (String × ℕ)
summary_fields s =
    ("app_transition", s.app_transitions)
    ∷ ("binder_transaction", s.binder_transactions)
    ∷ ("proc_state_change", s.proc_state_changes)
    ∷ ("file_system_access", s.file_system_accesses)
    ∷ ("notification_posted", s.notifications_posted)
    ∷ ("notification_interaction", s.notification_interactions)
    ∷ ("screen_state", s.screen_states)
    ∷ ("system_state", s.system_states)
    ∷ []

abbrev pub sum_of : List (String × ℕ) → ℕ
sum_of [] = 0
sum_of ((kind, n) ∷ rest) = n + sum_of rest

-- a sum of `u64` in a release build
unfoldable pub total : RawEventStats → ℕ
total s = sum_of (summary_fields s) % 18446744073709551616
