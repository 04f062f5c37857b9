-- ===== src/Window/Summary.antt =====
-- What the summary of a window says of its events.
use di_pecs.Base.{
  any-append, or_assoc, ℕ, ◌+◌, ◌<◌, ◌≡◌, refl, ap, ◌∙◌, Bool, false, Option, none, some, String,
  List, [], ◌∷◌, ◌++◌, ◌||◌, arith, any, length, count_if, if◌then◌else◌, Bool-cases, inl, inr,
}
use di_pecs.Base.Text.{str_eq, eq_iff, member}
use di_pecs.Spec.Event.{AppTransition, ExtensionCategory, SourceTier}
use di_pecs.Spec.Context.{ContextSummary}
use di_pecs.Spec.Sanitized.{
  SanitizedEvent, SanitizedEventType, app_transition, inter_app_interaction, notification,
  process_resource, file_activity,
}
use di_pecs.Window.{
  category_eq, is_daemon, push_new, count_category, empty_summary, summarize_type, summarize_event,
  summarize, build_summary,
}

-- the package that an event puts in the foreground
abbrev pub foreground_of : SanitizedEventType → Option String
foreground_of (app_transition package_name _ AppTransition.foreground) = some package_name
foreground_of (process_resource _ package_name _ _ _ _) = package_name
foreground_of (inter_app_interaction source_package _ _) = source_package
foreground_of _ = none

abbrev pub notifier_of : SanitizedEventType → Option String
notifier_of (notification source_package _ _ _ _ _ _ _) = some source_package
notifier_of _ = none

abbrev pub is_package : String → Option String → Bool
is_package p none = false
is_package p (some q) = str_eq q p

abbrev pub is_category : ExtensionCategory → SanitizedEventType → Bool
is_category c (file_activity _ d _ _) = category_eq d c
is_category c _ = false

-- No text stands twice.
abbrev pub Distinct : List String → Type 0
Distinct [] = Unit
Distinct (x ∷ xs) = (member xs x ≡ false) × Distinct xs

member-push_new :
    (xs : List String) (q p : String) → member (push_new xs q) p ≡ (member xs p || str_eq q p)
unfolding push_new
member-push_new xs q p = ground (arith, any-append (λ x. str_eq x p) xs (q ∷ []), eq_iff q p)

Distinct-snoc :
    (xs : List String) (q : String) → Distinct xs → member xs q ≡ false → Distinct (xs ++ q ∷ [])
Distinct-snoc [] q d h = (refl, tt)
Distinct-snoc (x ∷ xs) q d h = (
  ground (arith, any-append (λ y. str_eq y x) xs (q ∷ []), eq_iff q x, eq_iff x q, d.0),
  Distinct-snoc xs q d.1 (ground arith),
)

push_new-Distinct : (xs : List String) (q : String) → Distinct xs → Distinct (push_new xs q)
unfolding push_new
push_new-Distinct xs q d = elim (Bool-cases (member xs q)) [
  | inl old ↦ rw old d
  | inr fresh ↦ rw fresh (Distinct-snoc xs q d fresh)
]

-- One event adds its package, and no other.
member-summarize_type :
    (t : SanitizedEventType) (s : ContextSummary) (p : String)
    → (member (summarize_type t s).foreground_apps p
        ≡ (member s.foreground_apps p || is_package p (foreground_of t)))
      × (member (summarize_type t s).notified_apps p
          ≡ (member s.notified_apps p || is_package p (notifier_of t)))
unfolding summarize_type
member-summarize_type (app_transition q _ AppTransition.foreground) s p =
    (member-push_new s.foreground_apps q p, ground arith)
member-summarize_type (process_resource _ (some q) _ _ _ _) s p =
    (member-push_new s.foreground_apps q p, ground arith)
member-summarize_type (inter_app_interaction (some q) _ _) s p =
    (member-push_new s.foreground_apps q p, ground arith)
member-summarize_type (notification q _ _ _ _ _ _ _) s p =
    (ground arith, member-push_new s.notified_apps q p)
member-summarize_type _ s p = (ground arith, ground arith)

Distinct-summarize_type :
    (t : SanitizedEventType) (s : ContextSummary)
    → Distinct s.foreground_apps × Distinct s.notified_apps
    → Distinct (summarize_type t s).foreground_apps × Distinct (summarize_type t s).notified_apps
unfolding summarize_type
Distinct-summarize_type (app_transition q _ AppTransition.foreground) s h =
    (push_new-Distinct s.foreground_apps q h.0, h.1)
Distinct-summarize_type (process_resource _ (some q) _ _ _ _) s h =
    (push_new-Distinct s.foreground_apps q h.0, h.1)
Distinct-summarize_type (inter_app_interaction (some q) _ _) s h =
    (push_new-Distinct s.foreground_apps q h.0, h.1)
Distinct-summarize_type (notification q _ _ _ _ _ _ _) s h =
    (h.0, push_new-Distinct s.notified_apps q h.1)
Distinct-summarize_type _ s h = h

member-summarize :
    (s : ContextSummary) (events : List SanitizedEvent) (p : String)
    → (member (summarize s events).foreground_apps p ≡ (
        member s.foreground_apps p || any (λ e. is_package p (foreground_of e.event_type)) events))
      × (member (summarize s events).notified_apps p
          ≡ (member s.notified_apps p || any (λ e. is_package p (notifier_of e.event_type)) events))
unfolding summarize summarize_event
member-summarize s [] p = (ground arith, ground arith)
member-summarize s (e ∷ events) p =
    let s' : ContextSummary = record s {
      source_tier = if is_daemon e.source_tier then SourceTier.daemon else s.source_tier;
    } in
    let (f, n) = member-summarize_type e.event_type s' p in
    let (fs, ns) = member-summarize (summarize_event s e) events p in
    (
      fs
          ∙ ap (λ b. b || any (λ x. is_package p (foreground_of x.event_type)) events) f
          ∙ or_assoc (member s.foreground_apps p) _ _,
      ns
          ∙ ap (λ b. b || any (λ x. is_package p (notifier_of x.event_type)) events) n
          ∙ or_assoc (member s.notified_apps p) _ _,
    )

Distinct-summarize :
    (s : ContextSummary) (events : List SanitizedEvent)
    → Distinct s.foreground_apps × Distinct s.notified_apps
    → Distinct (summarize s events).foreground_apps × Distinct (summarize s events).notified_apps
unfolding summarize summarize_event
Distinct-summarize s [] h = h
Distinct-summarize s (e ∷ events) h =
    Distinct-summarize (summarize_event s e) events (Distinct-summarize_type e.event_type _ h)

tier-summarize_type :
    (t : SanitizedEventType) (s : ContextSummary) → (summarize_type t s).source_tier ≡ s.source_tier
unfolding summarize_type
tier-summarize_type (app_transition _ _ AppTransition.foreground) s = refl
tier-summarize_type (process_resource _ (some _) _ _ _ _) s = refl
tier-summarize_type (inter_app_interaction (some _) _ _) s = refl
tier-summarize_type _ s = refl

tier-summarize :
    (s : ContextSummary) (events : List SanitizedEvent)
    → (summarize s events).source_tier
      ≡ (if any (λ e. is_daemon e.source_tier) events then SourceTier.daemon else s.source_tier)
unfolding summarize summarize_event
tier-summarize s [] = refl
tier-summarize s (e ∷ events) =
    tier-summarize (summarize_event s e) events
    ∙ ground (
      arith,
      tier-summarize_type e.event_type (record s {
        source_tier = if is_daemon e.source_tier then SourceTier.daemon else s.source_tier;
      }),
    )

-- the entries of a category, added up
abbrev pub count_of : ExtensionCategory → List (ExtensionCategory × ℕ) → ℕ
count_of c [] = 0
count_of c ((d, n) ∷ counts) = (if category_eq d c then n else 0) + count_of c counts

count_category_lem :
    (d c : ExtensionCategory) (counts : List (ExtensionCategory × ℕ))
    → count_of d counts + 1 < 4294967296
    → count_of c (count_category d counts) ≡ count_of c counts + (if category_eq d c then 1 else 0)
unfolding count_category
count_category_lem d c [] h = ground arith
count_category_lem d c ((x, n) ∷ counts) h = ground (arith, count_category_lem d c counts)

count-summarize_type :
    (t : SanitizedEventType) (s : ContextSummary) (c : ExtensionCategory)
    → ((d : ExtensionCategory) → count_of d s.file_activity + 1 < 4294967296)
    → count_of c (summarize_type t s).file_activity
      ≡ count_of c s.file_activity + (if is_category c t then 1 else 0)
unfolding summarize_type
count-summarize_type (file_activity _ d _ _) s c h = count_category_lem d c s.file_activity (h d)
count-summarize_type (app_transition _ _ AppTransition.foreground) s c h = omega arith
count-summarize_type (process_resource _ (some _) _ _ _ _) s c h = omega arith
count-summarize_type (inter_app_interaction (some _) _ _) s c h = omega arith
count-summarize_type _ s c h = omega arith

count-summarize :
    (s : ContextSummary) (events : List SanitizedEvent) (c : ExtensionCategory)
    → ((d : ExtensionCategory) → count_of d s.file_activity + length events < 4294967296)
    → count_of c (summarize s events).file_activity
      ≡ count_of c s.file_activity + count_if (λ e. is_category c e.event_type) events
unfolding summarize summarize_event
count-summarize s [] c h = omega arith
count-summarize s (e ∷ events) c h =
    let s' : ContextSummary = record s {
      source_tier = if is_daemon e.source_tier then SourceTier.daemon else s.source_tier;
    } in
    let step =
      λ (d : ExtensionCategory). count-summarize_type e.event_type s' d (λ x. omega (arith, h x)) in
    count-summarize (summarize_event s e) events c (λ d. ground (arith, step d, h d))
    ∙ ground (arith, step c)

module _ (map_order : List (ExtensionCategory × ℕ) → List (ExtensionCategory × ℕ)) where
  -- The foreground apps of a summary are exactly the packages that some event of the window puts in
  -- the foreground, and its notified apps exactly the sources of the window's notifications; neither
  -- list names a package twice.
  pub build_summary-apps :
      (events : List SanitizedEvent)
      → ((p : String)
          → member (build_summary map_order events).foreground_apps p
            ≡ any (λ e. is_package p (foreground_of e.event_type)) events)
        × ((p : String)
            → member (build_summary map_order events).notified_apps p
              ≡ any (λ e. is_package p (notifier_of e.event_type)) events)
        × Distinct (build_summary map_order events).foreground_apps
        × Distinct (build_summary map_order events).notified_apps
  unfolding build_summary
  build_summary-apps events =
      let d = Distinct-summarize empty_summary events (tt, tt) in
      (
        λ p. (member-summarize empty_summary events p).0,
        λ p. (member-summarize empty_summary events p).1,
        d.0,
        d.1,
      )

  -- A window is of the tier `Daemon` exactly if one of its events is, and of `PublicApi` otherwise,
  -- whatever higher tiers its events have.
  pub build_summary-tier :
      (events : List SanitizedEvent)
      → (build_summary map_order events).source_tier ≡ (
          if any (λ e. is_daemon e.source_tier) events
          then SourceTier.daemon
          else SourceTier.public_api)
  unfolding build_summary
  build_summary-tier events = tier-summarize empty_summary events

  -- In a window of fewer than 2 ^ 32 events, the file activity counts for each category the file
  -- events of that category, in whatever order the hash map gives its entries.
  pub build_summary-counts :
      ((c : ExtensionCategory) (m : List (ExtensionCategory × ℕ))
        → count_of c (map_order m) ≡ count_of c m)
      → (events : List SanitizedEvent) (c : ExtensionCategory) → length events < 4294967296
      → count_of c (build_summary map_order events).file_activity
        ≡ count_if (λ e. is_category c e.event_type) events
  unfolding build_summary
  build_summary-counts same events c h =
      same c _ ∙ count-summarize empty_summary events c (λ d. omega arith) ∙ omega arith
