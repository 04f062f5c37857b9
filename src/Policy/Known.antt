-- ===== src/Policy/Known.antt =====
-- Which packages a context makes known.
use di_pecs.Base.{
  ◌≡◌, String, true, Option, none, some, List, [], ◌∷◌, ◌⊎◌, arith, inl, inr, Bool-cases,
}
use di_pecs.Base.Text.{str_eq, member, eq_refl, eq_iff}
use di_pecs.Spec.Sanitized.{SanitizedEvent}
use di_pecs.Spec.Context.{StructuredContext}
use di_pecs.Policy.Targets.{
  insert, insert_each, insert_option, event_package, insert_events, known_of_context,
}

-- The set of packages grows.
abbrev pub Includes : List String → List String → Type 0
Includes xs ys = (s : String) → member xs s ≡ true → member ys s ≡ true

insert-keeps : (t : String) (xs : List String) → Includes xs (insert t xs)
unfolding insert
insert-keeps t xs s h = ground arith

member-insert : (t : String) (xs : List String) → member (insert t xs) t ≡ true
unfolding insert
member-insert t xs = ground (arith, eq_refl t)

insert_option-keeps : (t : Option String) (xs : List String) → Includes xs (insert_option t xs)
unfolding insert_option
insert_option-keeps none xs s h = h
insert_option-keeps (some t) xs s h = insert-keeps t xs s h

insert_each-keeps : (ts xs : List String) → Includes xs (insert_each ts xs)
unfolding insert_each
insert_each-keeps [] xs s h = h
insert_each-keeps (t ∷ ts) xs s h = insert_each-keeps ts (insert t xs) s (insert-keeps t xs s h)

insert_each-member :
    (ts xs : List String) (s : String) → member ts s ≡ true → member (insert_each ts xs) s ≡ true
unfolding insert_each
insert_each-member [] xs s h = absurd (cc)
insert_each-member (t ∷ ts) xs s h = elim (Bool-cases (str_eq t s)) [
  | inl same ↦ insert_each-keeps ts (insert t xs) s (rw ((eq_iff t s).0 same) (member-insert s xs))
  | inr other ↦ insert_each-member ts (insert t xs) s (ground arith)
]

insert_events-keeps :
    (events : List SanitizedEvent) (xs : List String) → Includes xs (insert_events events xs)
unfolding insert_events
insert_events-keeps [] xs s h = h
insert_events-keeps (e ∷ es) xs s h =
    let own = insert_option e.app_package xs in
    insert_events-keeps es (insert_option (event_package e.event_type) own) s (
      insert_option-keeps (event_package e.event_type) own s
        (insert_option-keeps e.app_package xs s h))

-- The packages that the events themselves name.
unfoldable pub Names : List SanitizedEvent → String → Type 0
Names [] pkg = ⊥
Names (e ∷ es) pkg = (event_package e.event_type ≡ some pkg) ⊎ Names es pkg

insert_events-member :
    (events : List SanitizedEvent) (xs : List String) (pkg : String)
    → Names events pkg
    → member (insert_events events xs) pkg ≡ true
unfolding insert_events Names insert_option
insert_events-member [] xs pkg h = absurd h
insert_events-member (e ∷ es) xs pkg (inl names) =
    let own = insert_option e.app_package xs in
    insert_events-keeps es (insert_option (event_package e.event_type) own) pkg
      (rw (names, insert_option) (member-insert pkg own))
insert_events-member (e ∷ es) xs pkg (inr later) =
    insert_events-member es
      (insert_option (event_package e.event_type) (insert_option e.app_package xs)) pkg later

pub notified-known :
    (ctx : StructuredContext) (pkg : String)
    → member ctx.summary.notified_apps pkg ≡ true
    → member (known_of_context ctx).packages pkg ≡ true
unfolding known_of_context
notified-known ctx pkg h =
    let listed =
      insert_each ctx.summary.notified_apps (insert_each ctx.summary.foreground_apps []) in
    insert_events-keeps ctx.events listed pkg (
      insert_each-member ctx.summary.notified_apps (insert_each ctx.summary.foreground_apps []) pkg
        h)

pub named-known :
    (ctx : StructuredContext) (pkg : String)
    → Names ctx.events pkg
    → member (known_of_context ctx).packages pkg ≡ true
unfolding known_of_context
named-known ctx pkg h =
    insert_events-member ctx.events
      (insert_each ctx.summary.notified_apps (insert_each ctx.summary.foreground_apps [])) pkg h
