-- ===== src/Memory/Scores.antt =====
-- crates/aios-core/src/context_memory.rs: the counters and their momentum. `F64` stands for `f64`.
use di_pecs.Base.{
  ℕ, suc, String, Bool, true, false, Option, none, some, List, [], ◌∷◌, ltb, u32, map, is_empty,
  if◌then◌else◌,
}
use di_pecs.Base.Text.{str_eq}
use di_pecs.Base.Maps.{Map, alter, le_str, sort_by, take}
use di_pecs.Spec.Event.{SemanticHint}

-- what the program asks of `f64`
pub record Scores : Type 1 where
  pub F64 : Type 0
  pub zero : F64
  pub plus_one : F64 → F64  -- `+ 1.0`
  pub times : F64 → F64 → F64
  pub thousandths : ℕ → F64  -- `f64::from(n) / 1000.0`
  pub lt : F64 → F64 → Bool
  pub is_positive : F64 → Bool  -- `!(d <= 0.0)`
  pub is_kept : F64 → Bool  -- `v >= 0.01`
  pub to_count : F64 → ℕ  -- `v.round().max(1.0) as u32`

unfoldable pub increment : Map ℕ → String → Map ℕ
increment counts key = alter (λ n. u32 (suc n)) 0 key counts

-- by falling count, then by key
abbrev pub le_count : String × ℕ → String × ℕ → Bool
le_count a b = if ltb b.1 a.1 then true else if ltb a.1 b.1 then false else le_str a.0 b.0

unfoldable pub top_counts : Map ℕ → ℕ → List (String × ℕ)
top_counts counts limit = take limit (sort_by le_count counts)

-- `{:?}` of a `SemanticHint`
abbrev pub hint_name : SemanticHint → String
hint_name SemanticHint.file_mention = "FileMention"
hint_name SemanticHint.image_mention = "ImageMention"
hint_name SemanticHint.audio_message = "AudioMessage"
hint_name SemanticHint.link_attachment = "LinkAttachment"
hint_name SemanticHint.user_mentioned = "UserMentioned"
hint_name SemanticHint.calendar_invitation = "CalendarInvitation"
hint_name SemanticHint.financial_context = "FinancialContext"
hint_name SemanticHint.verification_code = "VerificationCode"

unfoldable pub semantic_hint_from_debug : String → Option SemanticHint
semantic_hint_from_debug name =
    if str_eq name "FileMention"
    then some SemanticHint.file_mention
    else if str_eq name "ImageMention"
    then some SemanticHint.image_mention
    else if str_eq name "AudioMessage"
    then some SemanticHint.audio_message
    else if str_eq name "LinkAttachment"
    then some SemanticHint.link_attachment
    else if str_eq name "UserMentioned"
    then some SemanticHint.user_mentioned
    else if str_eq name "CalendarInvitation"
    then some SemanticHint.calendar_invitation
    else if str_eq name "FinancialContext"
    then some SemanticHint.financial_context
    else if str_eq name "VerificationCode"
    then some SemanticHint.verification_code
    else none

-- `filter_map` by the hint of the name
unfoldable pub hints_of_names : List (String × ℕ) → List (SemanticHint × ℕ)
hints_of_names [] = []
hints_of_names ((name, count) ∷ rest) = elim (semantic_hint_from_debug name) [
  | some hint ↦ (hint, count) ∷ hints_of_names rest
  | none ↦ hints_of_names rest
]

unfoldable pub top_semantic_hints : Map ℕ → ℕ → List (SemanticHint × ℕ)
top_semantic_hints counts limit = hints_of_names (top_counts counts limit)

module _ (sc : Scores) where
  open sc use {F64, zero, plus_one, times, lt, is_positive, is_kept, to_count}

  unfoldable pub add_momentum : Map F64 → String → Map F64
  add_momentum scores key = alter plus_one zero key scores

  -- `values_mut` and `retain`
  unfoldable pub decay_values : F64 → Map F64 → Map F64
  decay_values decay [] = []
  decay_values decay ((key, value) ∷ rest) =
      let kept = decay_values decay rest in
      if is_kept (times value decay) then (key, times value decay) ∷ kept else kept

  unfoldable pub decay_map : Map F64 → F64 → Map F64
  decay_map scores decay = if is_positive decay then decay_values decay scores else []

  -- by falling score, then by key; what cannot be compared is equal
  abbrev pub le_score : String × F64 → String × F64 → Bool
  le_score a b = if lt b.1 a.1 then true else if lt a.1 b.1 then false else le_str a.0 b.0

  unfoldable pub top_scores : Map F64 → ℕ → Option (List (String × ℕ))
  top_scores scores limit =
      if is_empty scores
      then none
      else some (map (λ entry. (entry.0, to_count entry.1)) (take limit (sort_by le_score scores)))

  -- `top_scores(..).unwrap_or_else(|| top_counts(..))`
  unfoldable pub top : Map F64 → Map ℕ → ℕ → List (String × ℕ)
  top scores counts limit = elim (top_scores scores limit) [
    | some values ↦ values
    | none ↦ top_counts counts limit
  ]

  unfoldable pub top_semantic_hint_scores : Map F64 → ℕ → Option (List (SemanticHint × ℕ))
  top_semantic_hint_scores scores limit = elim (top_scores scores limit) [
    | some values ↦ some (hints_of_names values)
    | none ↦ none
  ]

  unfoldable pub top_hints : Map F64 → Map ℕ → ℕ → List (SemanticHint × ℕ)
  top_hints scores counts limit = elim (top_semantic_hint_scores scores limit) [
    | some values ↦ values
    | none ↦ top_semantic_hints counts limit
  ]
