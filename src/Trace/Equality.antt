-- ===== src/Trace/Equality.antt =====
-- The derived `==` of the types that a replay compares: enums by discriminant.
use di_pecs.Base.{ℕ, Bool, true, false, Option, none, some, List, [], ◌∷◌, ◌&&◌, ◌==◌, not}
use di_pecs.Base.Int.{ℤ, leb_ℤ}
use di_pecs.Base.Text.{str_eq}
use di_pecs.Spec.Event.{
  AppTransition, FsActivityType, InteractionType, LocationType, NetworkType, RingerMode,
  ScreenState, ScriptHint, SourceTier, TextHint,
}
use di_pecs.Spec.Intent.{ActionUrgency, IntentType}
use di_pecs.Spec.Sanitized.{
  SanitizedEventType, app_transition, inter_app_interaction, notification, process_resource,
  file_activity, screen, system_status,
}
use di_pecs.Window.{category_eq, hint_eq}

abbrev pub option_eq {ℓ} : {A : Type ℓ} → (A → A → Bool) → Option A → Option A → Bool
option_eq eq none none = true
option_eq eq (some a) (some b) = eq a b
option_eq eq none (some b) = false
option_eq eq (some a) none = false

abbrev pub list_eq {ℓ} : {A : Type ℓ} → (A → A → Bool) → List A → List A → Bool
list_eq eq [] [] = true
list_eq eq (x ∷ xs) (y ∷ ys) = eq x y && list_eq eq xs ys
list_eq eq [] (y ∷ ys) = false
list_eq eq (x ∷ xs) [] = false

abbrev pub bool_eq : Bool → Bool → Bool
bool_eq true b = b
bool_eq false b = not b

abbrev pub int_eq : ℤ → ℤ → Bool
int_eq a b = leb_ℤ a b && leb_ℤ b a

unfoldable pub tier_rank : SourceTier → ℕ
tier_rank SourceTier.public_api = 0
tier_rank SourceTier.daemon = 1
tier_rank SourceTier.privileged_daemon = 2
tier_rank SourceTier.system_image = 3

abbrev pub tier_eq : SourceTier → SourceTier → Bool
tier_eq a b = tier_rank a == tier_rank b

unfoldable pub transition_rank : AppTransition → ℕ
transition_rank AppTransition.foreground = 0
transition_rank AppTransition.background = 1

unfoldable pub interaction_rank : InteractionType → ℕ
interaction_rank InteractionType.notify_post = 0
interaction_rank InteractionType.activity_launch = 1
interaction_rank InteractionType.share_intent = 2
interaction_rank InteractionType.service_bind = 3

unfoldable pub activity_rank : FsActivityType → ℕ
activity_rank FsActivityType.read = 0
activity_rank FsActivityType.write = 1
activity_rank FsActivityType.create = 2
activity_rank FsActivityType.delete = 3

unfoldable pub screen_rank : ScreenState → ℕ
screen_rank ScreenState.interactive = 0
screen_rank ScreenState.non_interactive = 1
screen_rank ScreenState.keyguard_shown = 2
screen_rank ScreenState.keyguard_hidden = 3

unfoldable pub network_rank : NetworkType → ℕ
network_rank NetworkType.wifi = 0
network_rank NetworkType.cellular = 1
network_rank NetworkType.offline = 2
network_rank NetworkType.unknown = 3

unfoldable pub ringer_rank : RingerMode → ℕ
ringer_rank RingerMode.normal = 0
ringer_rank RingerMode.vibrate = 1
ringer_rank RingerMode.silent = 2

unfoldable pub location_rank : LocationType → ℕ
location_rank LocationType.home = 0
location_rank LocationType.work = 1
location_rank LocationType.commute = 2
location_rank LocationType.unknown = 3

unfoldable pub script_rank : ScriptHint → ℕ
script_rank ScriptHint.latin = 0
script_rank ScriptHint.hanzi = 1
script_rank ScriptHint.cyrillic = 2
script_rank ScriptHint.arabic = 3
script_rank ScriptHint.mixed = 4
script_rank ScriptHint.unknown = 5

unfoldable pub urgency_rank : ActionUrgency → ℕ
urgency_rank ActionUrgency.immediate = 0
urgency_rank ActionUrgency.idle_time = 1
urgency_rank ActionUrgency.deferred = 2

abbrev pub urgency_eq : ActionUrgency → ActionUrgency → Bool
urgency_eq a b = urgency_rank a == urgency_rank b

abbrev pub text_hint_eq : TextHint → TextHint → Bool
text_hint_eq a b =
    a.length_chars == b.length_chars
    && script_rank a.script == script_rank b.script
    && bool_eq a.is_emoji_only b.is_emoji_only

unfoldable pub event_type_eq : SanitizedEventType → SanitizedEventType → Bool
event_type_eq (app_transition p c t) (app_transition p' c' t') =
    str_eq p p' && option_eq str_eq c c' && transition_rank t == transition_rank t'
event_type_eq (inter_app_interaction p s i) (inter_app_interaction p' s' i') =
    option_eq str_eq p p' && str_eq s s' && interaction_rank i == interaction_rank i'
event_type_eq (notification p c h t x s o g) (notification p' c' h' t' x' s' o' g') =
    str_eq p p'
    && option_eq str_eq c c'
    && option_eq str_eq h h'
    && text_hint_eq t t'
    && text_hint_eq x x'
    && list_eq hint_eq s s'
    && bool_eq o o'
    && option_eq str_eq g g'
event_type_eq (process_resource i p r s t o) (process_resource i' p' r' s' t' o') =
    i == i' && option_eq str_eq p p' && r == r' && s == s' && t == t' && int_eq o o'
event_type_eq (file_activity p c a h) (file_activity p' c' a' h') =
    option_eq str_eq p p' && category_eq c c' && activity_rank a == activity_rank a' && bool_eq h h'
event_type_eq (screen s) (screen s') = screen_rank s == screen_rank s'
event_type_eq (system_status b c n r l h) (system_status b' c' n' r' l' h') =
    option_eq ◌==◌ b b'
    && bool_eq c c'
    && network_rank n == network_rank n'
    && ringer_rank r == ringer_rank r'
    && location_rank l == location_rank l'
    && bool_eq h h'
event_type_eq _ _ = false

unfoldable pub intent_type_eq : IntentType → IntentType → Bool
intent_type_eq (IntentType.open_app s) (IntentType.open_app s') = str_eq s s'
intent_type_eq (IntentType.switch_to_app s) (IntentType.switch_to_app s') = str_eq s s'
intent_type_eq (IntentType.check_notification s) (IntentType.check_notification s') = str_eq s s'
intent_type_eq (IntentType.handle_file c) (IntentType.handle_file c') = category_eq c c'
intent_type_eq (IntentType.enter_context s) (IntentType.enter_context s') = str_eq s s'
intent_type_eq IntentType.idle IntentType.idle = true
intent_type_eq _ _ = false
