-- ===== src/Window.antt =====
-- crates/aios-core/src/context_builder.rs: sanitized events are collected in a window, which closes
-- to a `StructuredContext`. Arithmetic wraps, as it does in a release build. The new id of a context
-- and the order in which a `HashMap` gives its entries are parameters.
pub mod Session
pub mod Blocks
pub mod Summary
use di_pecs.Base.{
  ℕ, zero, ◌+◌, ◌*◌, ◌/◌, ◌%◌, String, Bool, true, false, Option, none, some, List, [], ◌∷◌, ◌++◌,
  ◌==◌, any, u32, length, if◌then◌else◌,
}
use di_pecs.Base.Int.{ℤ, pos, negsuc, ◌-ℤ◌, leb_ℤ, saturating_sub, from_bits, wrap_i64, pos_part}
use di_pecs.Base.Text.{member}
use di_pecs.Spec.Event.{AppTransition, ExtensionCategory, SemanticHint, SourceTier}
use di_pecs.Spec.Context.{StructuredContext, ContextSummary, SystemStatusSnapshot}
use di_pecs.Spec.Sanitized.{
  SanitizedEvent, SanitizedEventType, app_transition, inter_app_interaction, notification,
  process_resource, file_activity, screen, system_status,
}

-- the derived `==` of the two enums, by discriminant
unfoldable pub hint_rank : SemanticHint → ℕ
hint_rank SemanticHint.file_mention = 0
hint_rank SemanticHint.image_mention = 1
hint_rank SemanticHint.audio_message = 2
hint_rank SemanticHint.link_attachment = 3
hint_rank SemanticHint.user_mentioned = 4
hint_rank SemanticHint.calendar_invitation = 5
hint_rank SemanticHint.financial_context = 6
hint_rank SemanticHint.verification_code = 7

abbrev pub hint_eq : SemanticHint → SemanticHint → Bool
hint_eq a b = hint_rank a == hint_rank b

unfoldable pub category_rank : ExtensionCategory → ℕ
category_rank ExtensionCategory.document = 0
category_rank ExtensionCategory.image = 1
category_rank ExtensionCategory.video = 2
category_rank ExtensionCategory.audio = 3
category_rank ExtensionCategory.archive = 4
category_rank ExtensionCategory.code = 5
category_rank ExtensionCategory.other = 6
category_rank ExtensionCategory.unknown = 7

abbrev pub category_eq : ExtensionCategory → ExtensionCategory → Bool
category_eq a b = category_rank a == category_rank b

abbrev pub is_daemon : SourceTier → Bool
is_daemon SourceTier.daemon = true
is_daemon _ = false

-- `if !xs.contains(s) { xs.push(s) }`
unfoldable pub push_new : List String → String → List String
push_new xs s = if member xs s then xs else xs ++ s ∷ []

unfoldable pub push_new_hint : List SemanticHint → SemanticHint → List SemanticHint
push_new_hint hints hint = if any (λ h. hint_eq h hint) hints then hints else hints ++ hint ∷ []

unfoldable pub push_new_hints : List SemanticHint → List SemanticHint → List SemanticHint
push_new_hints hints [] = hints
push_new_hints hints (hint ∷ more) = push_new_hints (push_new_hint hints hint) more

-- `*map.entry(category).or_insert(0) += 1`
unfoldable pub count_category :
    ExtensionCategory → List (ExtensionCategory × ℕ) → List (ExtensionCategory × ℕ)
count_category c [] = (c, u32 (0 + 1)) ∷ []
count_category c ((d, n) ∷ counts) =
    if category_eq d c then (d, u32 (n + 1)) ∷ counts else (d, n) ∷ count_category c counts

abbrev pub empty_summary : ContextSummary
empty_summary = record {
  foreground_apps = [];
  notified_apps = [];
  all_semantic_hints = [];
  file_activity = [];
  latest_system_status = none;
  source_tier = SourceTier.public_api;
}

-- the `match` of `build_summary`
unfoldable pub summarize_type : SanitizedEventType → ContextSummary → ContextSummary
summarize_type (app_transition package_name _ AppTransition.foreground) s = record s {
  foreground_apps = push_new s.foreground_apps package_name;
}
summarize_type (app_transition _ _ AppTransition.background) s = s
summarize_type (process_resource _ (some pkg) _ _ _ _) s = record s {
  foreground_apps = push_new s.foreground_apps pkg;
}
summarize_type (process_resource _ none _ _ _ _) s = s
summarize_type (notification source_package _ _ _ _ semantic_hints _ _) s = record s {
  notified_apps = push_new s.notified_apps source_package;
  all_semantic_hints = push_new_hints s.all_semantic_hints semantic_hints;
}
summarize_type (file_activity _ extension_category _ _) s = record s {
  file_activity = count_category extension_category s.file_activity;
}
summarize_type (system_status battery_pct is_charging network ringer location headphone) s =
    record s {
      latest_system_status = some (record {
        battery_pct = battery_pct;
        is_charging = is_charging;
        network = network;
        ringer_mode = ringer;
        location_type = location;
        headphone_connected = headphone;
      });
    }
summarize_type (inter_app_interaction (some pkg) _ _) s = record s {
  foreground_apps = push_new s.foreground_apps pkg;
}
summarize_type (inter_app_interaction none _ _) s = s
summarize_type (screen _) s = s

-- one round of the loop: the tier, then the `match`
unfoldable pub summarize_event : ContextSummary → SanitizedEvent → ContextSummary
summarize_event s event = summarize_type event.event_type (record s {
  source_tier = if is_daemon event.source_tier then SourceTier.daemon else s.source_tier;
})

unfoldable pub summarize : ContextSummary → List SanitizedEvent → ContextSummary
summarize s [] = s
summarize s (event ∷ events) = summarize (summarize_event s event) events

pub record WindowAggregator : Type 0 where
  pub buffer : List SanitizedEvent
  pub window_secs : ℕ  -- u64
  pub window_start_ms : ℤ

abbrev pub new : ℕ → ℤ → WindowAggregator
new window_secs now_ms = record { buffer = []; window_secs = window_secs; window_start_ms = now_ms }

unfoldable pub push : SanitizedEvent → WindowAggregator → WindowAggregator
push event w = record w { buffer = w.buffer ++ event ∷ [] }

unfoldable pub is_expired : WindowAggregator → ℤ → Bool
is_expired w now_ms =
    leb_ℤ (from_bits (w.window_secs * 1000 % 18446744073709551616))
      (saturating_sub now_ms w.window_start_ms)

-- `((now - start).max(0) / 1000) as u32`
unfoldable pub duration_secs : ℤ → ℤ → ℕ
duration_secs now_ms start_ms = u32 (pos_part (wrap_i64 (now_ms -ℤ start_ms)) / 1000)

module _ (map_order : List (ExtensionCategory × ℕ) → List (ExtensionCategory × ℕ)) where
  unfoldable pub build_summary : List SanitizedEvent → ContextSummary
  build_summary events =
      let s = summarize empty_summary events in
      record s { file_activity = map_order s.file_activity }

  -- the context of a window that is not empty
  abbrev pub context_of : String → WindowAggregator → ℤ → StructuredContext
  context_of id w now_ms = record {
    window_id = id;
    window_start_ms = w.window_start_ms;
    window_end_ms = now_ms;
    duration_secs = duration_secs now_ms w.window_start_ms;
    events = w.buffer;
    summary = build_summary w.buffer;
  }

  -- by the test `self.buffer.is_empty()`
  unfoldable pub close_buffer :
      List SanitizedEvent
      → String
      → WindowAggregator
      → ℤ
      → WindowAggregator × Option StructuredContext
  close_buffer [] id w now_ms = (record w { window_start_ms = now_ms }, none)
  close_buffer (_ ∷ _) id w now_ms =
      (record w { buffer = []; window_start_ms = now_ms }, some (context_of id w now_ms))

  unfoldable pub close : String → WindowAggregator → ℤ → WindowAggregator × Option StructuredContext
  unfolding close_buffer
  close id w now_ms = close_buffer w.buffer id w now_ms
