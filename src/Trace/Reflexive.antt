-- ===== src/Trace/Reflexive.antt =====
-- What is the same is equal to the derived tests.
use di_pecs.Base.{
  ℕ, ◌≡◌, refl, String, Bool, true, false, Option, none, some, List, [], ◌∷◌, ◌==◌, arith,
}
use di_pecs.Base.Int.{pos, negsuc}
use di_pecs.Base.Text.{str_eq, eq_refl}
use di_pecs.Spec.Event.{SemanticHint, TextHint}
use di_pecs.Spec.Sanitized.{
  app_transition, inter_app_interaction, notification, process_resource, file_activity, screen,
  system_status,
}
use di_pecs.Spec.Intent.{IntentType}
use di_pecs.Window.{hint_eq}
use di_pecs.Trace.Equality.{
  option_eq, list_eq, bool_eq, int_eq, text_hint_eq, event_type_eq, intent_type_eq,
}

abbrev pub IsReflexive {ℓ} : {A : Type ℓ} → (A → A → Bool) → Type ℓ
IsReflexive {A = A} eq = (x : A) → eq x x ≡ true

pub option_eq-IsReflexive {ℓ} :
    {A : Type ℓ} (eq : A → A → Bool) → IsReflexive eq → IsReflexive (option_eq eq)
option_eq-IsReflexive eq h none = refl
option_eq-IsReflexive eq h (some x) = h x

pub list_eq-IsReflexive {ℓ} :
    {A : Type ℓ} (eq : A → A → Bool) → IsReflexive eq → IsReflexive (list_eq eq)
list_eq-IsReflexive eq h [] = refl
list_eq-IsReflexive eq h (x ∷ xs) = ground (arith, h x, list_eq-IsReflexive eq h xs)

pub bool_eq-IsReflexive : IsReflexive bool_eq
bool_eq-IsReflexive true = refl
bool_eq-IsReflexive false = refl

pub nat_eq-IsReflexive : IsReflexive (λ (a : ℕ) (b : ℕ). a == b)
nat_eq-IsReflexive n = ground arith

int_eq-IsReflexive : IsReflexive int_eq
int_eq-IsReflexive (pos n) = ground arith
int_eq-IsReflexive (negsuc n) = ground arith

pub option_str_refl : (o : Option String) → option_eq str_eq o o ≡ true
option_str_refl o = option_eq-IsReflexive str_eq eq_refl o

pub hints_refl : (hints : List SemanticHint) → list_eq hint_eq hints hints ≡ true
hints_refl hints = list_eq-IsReflexive hint_eq (λ h. ground arith) hints

text_hint_refl : (hint : TextHint) → text_hint_eq hint hint ≡ true
text_hint_refl hint = ground (arith, bool_eq-IsReflexive hint.is_emoji_only)

pub event_type_eq-IsReflexive : IsReflexive event_type_eq
unfolding event_type_eq
event_type_eq-IsReflexive (app_transition p c t) = ground (arith, eq_refl p, option_str_refl c)
event_type_eq-IsReflexive (inter_app_interaction p s i) =
    ground (arith, eq_refl s, option_str_refl p)
event_type_eq-IsReflexive (notification p c h t x s o g) =
    rw
      (
        eq_refl p,
        option_str_refl c,
        option_str_refl h,
        text_hint_refl t,
        text_hint_refl x,
        hints_refl s,
        bool_eq-IsReflexive o,
        option_str_refl g,
      )
      refl
event_type_eq-IsReflexive (process_resource i p r s t o) =
    ground (arith, option_str_refl p, int_eq-IsReflexive o)
event_type_eq-IsReflexive (file_activity p c a h) =
    ground (arith, option_str_refl p, bool_eq-IsReflexive h)
event_type_eq-IsReflexive (screen s) = ground arith
event_type_eq-IsReflexive (system_status b c n r l h) = ground (
  arith,
  option_eq-IsReflexive (λ x y. x == y) nat_eq-IsReflexive b,
  bool_eq-IsReflexive c,
  bool_eq-IsReflexive h,
)

pub intent_type_eq-IsReflexive : IsReflexive intent_type_eq
unfolding intent_type_eq
intent_type_eq-IsReflexive (IntentType.open_app s) = eq_refl s
intent_type_eq-IsReflexive (IntentType.switch_to_app s) = eq_refl s
intent_type_eq-IsReflexive (IntentType.check_notification s) = eq_refl s
intent_type_eq-IsReflexive (IntentType.handle_file c) = ground arith
intent_type_eq-IsReflexive (IntentType.enter_context s) = eq_refl s
intent_type_eq-IsReflexive IntentType.idle = refl
