-- ===== src/Prefetch/Safe.antt =====
-- crates/aios-agent/src/backends/prefetch_target.rs: what a prefetch target looks like to the policy.
use di_pecs.Base.{String, true, Option, none, some, inl, inr, ◌≡◌, refl, ap, ◌∙◌, Bool-cases}
use mathlib.Core.Path.{subst}
use mathlib.Core.Bool.{◌||◌, or-true, false≢true}
use di_pecs.Base.Text.{starts_with, is_empty_str, eq_iff, concat}
use text.Mathlib.TextPositions.{starts_with-append}
use di_pecs.Spec.Event.{ExtensionCategory}
use di_pecs.Spec.Intent.{ActionType}
use di_pecs.Policy.Targets.{KnownTargets, check_target, is_allowed_low_risk_target, is_free_target}
use di_pecs.Prefetch.{Texts, or_fallback, url_for, default_prefetch_target}

-- a target that the policy admits without knowing it
abbrev pub IsFree : String → Type 0
IsFree target = is_free_target ActionType.prefetch_file target ≡ true

pub url-IsFree : (rest : String) → IsFree (concat "url:" rest)
unfolding is_free_target
url-IsFree rest = rw (starts_with-append "url:" rest) refl

pub uri-IsFree : (rest : String) → IsFree (concat "uri:" rest)
unfolding is_free_target
uri-IsFree rest =
    let colon = starts_with (concat "uri:" rest) "url:" in
    ap (λ b. colon || b) (starts_with-append "uri:" rest) ∙ or-true colon

pub default-IsFree :
    (texts : Texts) (category : ExtensionCategory) (package_name : Option String)
    → IsFree (default_prefetch_target texts category package_name)
unfolding default_prefetch_target
default-IsFree texts category package_name =
    url-IsFree (or_fallback texts category (url_for texts category package_name))

empty_not_free : (target : String) → target ≡ "" → IsFree target → ⊥
unfolding is_free_target
empty_not_free target e h = false≢true (subst IsFree e h)

-- The target check passes a free target, whatever is known.
pub free_passes :
    (target : String) (known : KnownTargets)
    → IsFree target
    → check_target ActionType.prefetch_file (some target) known ≡ none
unfolding check_target is_allowed_low_risk_target
free_passes target known h = elim (Bool-cases (is_empty_str target)) [
  | inl e ↦ absurd (empty_not_free target ((eq_iff target "").0 e) h)
  | inr e ↦ rw (e, h) refl
]
