-- ===== src/Backend/Signals.antt =====
-- Where the targets of the scan come from.
use di_pecs.Base.{
  ℕ, String, Bool, true, false, Option, none, some, List, [], ◌∷◌, ◌++◌, ◌||◌, ◌&&◌, if◌then◌else◌,
  inl, inr, first, All, All-append, Option-cases, any, ltb, leb,
}
use di_pecs.Base.Text.{member}
use di_pecs.Spec.Event.{AppTransition, ScreenState}
use di_pecs.Spec.Sanitized.{
  SanitizedEvent, SanitizedEventType, app_transition, inter_app_interaction, notification,
  process_resource, file_activity, screen, system_status,
}
use di_pecs.Policy.Targets.{event_package}
use di_pecs.Policy.Known.{Names}
use di_pecs.Backend.RuleBased.{
  Signals, is_file_mention, observe, observe_app, observe_process, scan, is_worse,
  memory_pressure_rss_mb, memory_pressure_swap_mb,
}

module _ (P : String → Type 0) where
  -- The package of a process under memory pressure, if it has one, has the property.
  abbrev pub OfProcess : Option (ℕ × Option String) → Type 0
  OfProcess none = Unit
  OfProcess (some (_, none)) = Unit
  OfProcess (some (_, some target)) = P target

  -- Every package that the scan can name as a target has the property.
  abbrev pub OfSignals : Signals → Type 0
  OfSignals s = All P s.observed_foreground_apps × OfProcess s.memory_pressure

  if-OfSignals :
      (b : Bool) (s t : Signals) → OfSignals s → OfSignals t → OfSignals (if b then s else t)
  if-OfSignals true s t h k = h
  if-OfSignals false s t h k = k

  observe_app-OfSignals :
      (s : Signals) (pkg : String) → OfSignals s → P pkg → OfSignals (observe_app s pkg)
  observe_app-OfSignals s pkg h p =
      let apps = s.observed_foreground_apps ++ pkg ∷ [] in
      if-OfSignals (member s.observed_foreground_apps pkg) s
        (record s { observed_foreground_apps = apps }) h
        (All-append P s.observed_foreground_apps (pkg ∷ []) h.0 (p, tt), h.1)

  observe_process-OfSignals :
      (s : Signals) (pkg : Option String) (rss swap : ℕ)
      → OfSignals s
      → OfProcess (some (rss, pkg))
      → OfSignals (observe_process s pkg rss swap)
  observe_process-OfSignals s pkg rss swap h p =
      if-OfSignals
        ((leb memory_pressure_rss_mb rss || leb memory_pressure_swap_mb swap)
          && is_worse s.memory_pressure rss)
        (record s { memory_pressure = some (rss, pkg) }) s (h.0, p) h

  -- The package of an event, if it has one, has the property.
  abbrev pub OfPackage : Option String → Type 0
  OfPackage none = Unit
  OfPackage (some pkg) = P pkg

  of_process : (rss : ℕ) (pkg : Option String) → OfPackage pkg → OfProcess (some (rss, pkg))
  of_process rss none h = tt
  of_process rss (some pkg) h = h

  observe-OfSignals :
      (s : Signals) (event_type : SanitizedEventType)
      → OfSignals s
      → OfPackage (event_package event_type)
      → OfSignals (observe s event_type)
  unfolding observe
  observe-OfSignals s (app_transition pkg _ AppTransition.foreground) h p =
      observe_app-OfSignals s pkg h p
  observe-OfSignals s (app_transition pkg _ AppTransition.background) h p = h
  observe-OfSignals s (inter_app_interaction _ _ _) h p = h
  observe-OfSignals s (notification _ _ _ _ _ hints _ _) h p =
      if-OfSignals (any is_file_mention hints) (record s { has_file_mention = true }) s h h
  observe-OfSignals s (process_resource _ pkg rss swap _ _) h p =
      observe_process-OfSignals s pkg rss swap h (of_process rss pkg p)
  observe-OfSignals s (file_activity _ _ _ _) h p = h
  observe-OfSignals s (screen ScreenState.interactive) h p = h
  observe-OfSignals s (screen ScreenState.non_interactive) h p = h
  observe-OfSignals s (screen ScreenState.keyguard_shown) h p = h
  observe-OfSignals s (screen ScreenState.keyguard_hidden) h p = h
  observe-OfSignals s (system_status none _ _ _ _ _) h p = h
  observe-OfSignals s (system_status (some pct) _ _ _ _ _) h p =
      if-OfSignals (ltb pct 20) (record s { is_low_battery = true }) s h h

  pub scan-OfSignals :
      (s : Signals) (events : List SanitizedEvent)
      → OfSignals s
      → All (λ e. OfPackage (event_package e.event_type)) events
      → OfSignals (scan s events)
  unfolding scan
  scan-OfSignals s [] h packages = h
  scan-OfSignals s (e ∷ es) h packages =
      scan-OfSignals (observe s e.event_type) es (observe-OfSignals s e.event_type h packages.0)
        packages.1

  pub first-All : (xs : List String) → All P xs → OfPackage (first xs)
  first-All [] h = tt
  first-All (x ∷ xs) h = h.0

-- A property of every package that some event names holds of each event's package.
pub All-named :
    (P : String → Type 0) (events : List SanitizedEvent)
    → ((pkg : String) → Names events pkg → P pkg)
    → All (λ e. OfPackage P (event_package e.event_type)) events
unfolding Names
All-named P [] h = tt
All-named P (e ∷ es) h = (
  elim (Option-cases (event_package e.event_type)) [
    | inl missing ↦ rw missing tt
    | inr (pkg, found) ↦ rw found (h pkg (inl found))
  ],
  All-named P es (λ pkg later. h pkg (inr later)),
)
