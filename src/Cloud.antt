-- ===== src/Cloud.antt =====
-- crates/aios-agent/src/backends/cloud_llm/translate.rs: what a model answers, and the names that it may use.
-- `serde_json::from_str` is a parameter.
pub mod Intents
pub mod Results
pub mod Names
pub mod Client
pub mod Translation
pub mod Admission
pub mod Answers
use di_pecs.Base.{
  ℕ, ◌-◌, suc, String, Bool, true, false, Option, none, some, List, [], ◌∷◌, leb, ◌&&◌,
  if◌then◌else◌,
}
use di_pecs.Base.Text.{str_eq, contains, starts_with, concat}
use di_pecs.Prefetch.{Texts, is_ascii_alphanumeric}
use Prim.Native.String.{len, slice}
use Prim.Native.Char.{code}
use text.Mathlib.Text.{find?}

-- `Result<A, String>`
pub data Fallible {ℓ} (A : Type ℓ) : Type ℓ where
  ok : A → Fallible A
  err : String → Fallible A

-- `ok_or`
abbrev pub ok_or {ℓ} : {A : Type ℓ} → String → Option A → Fallible A
ok_or error none = err error
ok_or error (some a) = ok a

-- `?` and what follows it
abbrev pub then_try {ℓ κ} : {A : Type ℓ} {B : Type κ} → Fallible A → (A → Fallible B) → Fallible B
then_try (err error) f = err error
then_try (ok a) f = f a

pub record ModelAction : Type 0 where
  pub action_type : String
  pub target : Option String
  pub urgency : Option String

-- `F` stands for `f32`.
pub record ModelIntent (F : Type 0) : Type 0 where
  pub intent_type : String
  pub target : Option String
  pub extension_category : Option String
  pub confidence : F
  pub risk_level : String
  pub actions : List ModelAction
  pub rationale_tags : List String

-- `split_once('\n')`, and its second part
abbrev pub after_line : String → String
after_line s = elim (find? s "\n") [ some i ↦ slice s (suc i) (len s) | none ↦ s ]

-- `strip_suffix`
unfoldable pub strip_suffix : String → String → Option String
strip_suffix s p =
    let front = len s - len p in
    if leb (len p) (len s) && str_eq (slice s front (len s)) p then some (slice s 0 front) else none

module _ (texts : Texts) where
  open texts use {trim, to_lowercase}

  unfoldable pub normalize_enum_name : String → String
  normalize_enum_name String.[] = ""
  normalize_enum_name (String.◌∷◌ c s) =
      let rest = normalize_enum_name s in
      if is_ascii_alphanumeric (code c) then concat (to_lowercase c) rest else rest

  unfoldable pub strip_code_fences : String → String
  strip_code_fences content =
      let trimmed = trim content in
      if starts_with trimmed "```"
      then elim (strip_suffix (after_line trimmed) "```") [
        | some inner ↦ trim inner
        | none ↦ after_line trimmed
      ]
      else trimmed

  -- `from_json` is `serde_json::from_str` with its error as a text
  unfoldable pub parse_model_output :
      {F : Type 0}
      → (String → Fallible (List (ModelIntent F)))
      → String
      → Fallible (List (ModelIntent F))
  parse_model_output from_json content = elim (from_json (trim (strip_code_fences content))) [
    | ok intents ↦ ok intents
    | err error ↦ err (concat "model output was not valid JSON: " error)
  ]
