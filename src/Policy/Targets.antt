-- ===== src/Policy/Targets.antt =====
-- crates/aios-core/src/policy_engine.rs: the target checks. A `BTreeSet<String>` is a list without
-- repetition, of which the program only asks `contains`.
use di_pecs.Base.{
  String, Bool, true, false, Option, none, some, List, [], ◌∷◌, ◌&&◌, ◌||◌, not, if◌then◌else◌,
}
use di_pecs.Base.Text.{str_eq, starts_with, strip_prefix, is_empty_str, member}
use di_pecs.Spec.Context.{StructuredContext}
use di_pecs.Spec.Intent.{ActionType, DenialReason}
use di_pecs.Spec.Sanitized.{
  SanitizedEvent, SanitizedEventType, app_transition, notification, process_resource,
}

pub record KnownTargets : Type 0 where
  pub packages : List String
  pub files : List String

-- `BTreeSet::insert`
unfoldable pub insert : String → List String → List String
insert s xs = if member xs s then xs else s ∷ xs

unfoldable pub insert_each : List String → List String → List String
insert_each [] packages = packages
insert_each (pkg ∷ pkgs) packages = insert_each pkgs (insert pkg packages)

-- `if let Some(pkg)`
unfoldable pub insert_option : Option String → List String → List String
insert_option none packages = packages
insert_option (some pkg) packages = insert pkg packages

-- the `match` on an event's type
abbrev pub event_package : SanitizedEventType → Option String
event_package (app_transition package_name _ _) = some package_name
event_package (notification source_package _ _ _ _ _ _ _) = some source_package
event_package (process_resource _ package_name _ _ _ _) = package_name
event_package _ = none

unfoldable pub insert_events : List SanitizedEvent → List String → List String
insert_events [] packages = packages
insert_events (event ∷ events) packages =
    insert_events events
      (insert_option (event_package event.event_type) (insert_option event.app_package packages))

-- `KnownTargets::from_context`
unfoldable pub known_of_context : StructuredContext → KnownTargets
known_of_context ctx = record {
  packages =
      insert_events ctx.events
        (insert_each ctx.summary.notified_apps (insert_each ctx.summary.foreground_apps []));
  files = [];
}

unfoldable pub is_allowed_prewarm_target : String → KnownTargets → Bool
is_allowed_prewarm_target target known =
    if starts_with target "own:" || starts_with target "notif:"
    then true
    else elim (strip_prefix target "pkg:") [
      | some pkg ↦ member known.packages pkg
      | none ↦
          not (is_empty_str target) && (member known.packages target || member known.files target)
    ]

-- the last arm of `is_allowed_low_risk_target`
unfoldable pub is_known_target : String → KnownTargets → Bool
is_known_target target known = elim (strip_prefix target "pkg:") [
  | some pkg ↦ member known.packages pkg
  | none ↦ member known.packages target || member known.files target
]

-- the guards of the first three arms
unfoldable pub is_free_target : ActionType → String → Bool
is_free_target ActionType.keep_alive target = starts_with target "work:"
is_free_target ActionType.release_memory target =
    str_eq target "cache:prefetch" || str_eq target "cache:all"
is_free_target ActionType.prefetch_file target =
    starts_with target "url:" || starts_with target "uri:"
is_free_target _ target = false

unfoldable pub is_allowed_low_risk_target : ActionType → String → KnownTargets → Bool
is_allowed_low_risk_target action target known =
    if is_free_target action target then true else is_known_target target known

-- `None` where the test passes, and the one reason of this check where it does not
abbrev pub unless : Bool → Option DenialReason
unless true = none
unless false = some DenialReason.target_not_in_context

abbrev pub check_low_risk : ActionType → Option String → KnownTargets → Option DenialReason
check_low_risk action none known = none
check_low_risk action (some t) known =
    unless (not (is_empty_str t) && is_allowed_low_risk_target action t known)

unfoldable pub check_target : ActionType → Option String → KnownTargets → Option DenialReason
check_target ActionType.no_op target known = none
check_target ActionType.pre_warm_process none known = some DenialReason.target_not_in_context
check_target ActionType.pre_warm_process (some t) known = unless (is_allowed_prewarm_target t known)
check_target ActionType.keep_alive target known = check_low_risk ActionType.keep_alive target known
check_target ActionType.release_memory target known =
    check_low_risk ActionType.release_memory target known
check_target ActionType.prefetch_file target known =
    check_low_risk ActionType.prefetch_file target known
