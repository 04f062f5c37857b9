-- ===== src/Memory/Store.antt =====
-- crates/aios-core/src/context_memory.rs: the configuration and the state of the memory. A path is a
-- `String`.
use di_pecs.Base.{ℕ, String, Option, none, some, List, [], ◌∷◌, length, ltb, if◌then◌else◌}
use di_pecs.Base.Text.{is_empty_str}
use di_pecs.Base.Maps.{Map}
use di_pecs.Spec.Context.{RecentDecisionRecord}
use di_pecs.Memory.Scores.{Scores}

pub record ModelMemoryConfig : Type 0 where
  pub recent_limit : ℕ
  pub top_limit : ℕ
  pub momentum_decay_milli : ℕ
  pub prewarm_effect_windows : ℕ
  pub persist_path : Option String

abbrev pub default_memory_config : ModelMemoryConfig
default_memory_config = record {
  recent_limit = 5;
  top_limit = 8;
  momentum_decay_milli = 900;
  prewarm_effect_windows = 3;
  persist_path = none;
}

-- `n.clamp(lo, hi)`
unfoldable pub clamp : ℕ → ℕ → ℕ → ℕ
clamp lo hi n = if ltb n lo then lo else if ltb hi n then hi else n

pub record PendingPrewarm : Type 0 where
  pub window_id : String
  pub target : String
  pub package_name : String
  pub windows_observed : ℕ  -- u8

module _ (sc : Scores) where
  open sc use {F64}

  pub record ModelMemoryStore : Type 0 where
    pub recent_limit : ℕ
    pub top_limit : ℕ
    pub momentum_decay_milli : ℕ
    pub prewarm_effect_windows : ℕ
    pub llm_summary : Option String
    pub observation_windows : ℕ
    pub foreground_counts : Map ℕ
    pub notifying_counts : Map ℕ
    pub semantic_hint_counts : Map ℕ
    pub action_success_counts : Map ℕ
    pub action_denial_counts : Map ℕ
    pub action_failure_counts : Map ℕ
    pub foreground_momentum : Map F64
    pub notifying_momentum : Map F64
    pub semantic_hint_momentum : Map F64
    pub action_success_momentum : Map F64
    pub action_denial_momentum : Map F64
    pub action_failure_momentum : Map F64
    pub prewarm_hit_counts : Map ℕ
    pub prewarm_miss_counts : Map ℕ
    pub prewarm_hit_momentum : Map F64
    pub prewarm_miss_momentum : Map F64
    pub pending_prewarms : List PendingPrewarm
    pub last_updated_window_id : Option String
    pub recent : List RecentDecisionRecord

  unfoldable pub with_config : ModelMemoryConfig → ModelMemoryStore
  with_config config = record {
    recent_limit = clamp 1 50 config.recent_limit;
    top_limit = clamp 1 32 config.top_limit;
    momentum_decay_milli = clamp 0 999 config.momentum_decay_milli;
    prewarm_effect_windows = clamp 1 20 config.prewarm_effect_windows;
    llm_summary = none;
    observation_windows = 0;
    foreground_counts = [];
    notifying_counts = [];
    semantic_hint_counts = [];
    action_success_counts = [];
    action_denial_counts = [];
    action_failure_counts = [];
    foreground_momentum = [];
    notifying_momentum = [];
    semantic_hint_momentum = [];
    action_success_momentum = [];
    action_denial_momentum = [];
    action_failure_momentum = [];
    prewarm_hit_counts = [];
    prewarm_miss_counts = [];
    prewarm_hit_momentum = [];
    prewarm_miss_momentum = [];
    pending_prewarms = [];
    last_updated_window_id = none;
    recent = [];
  }

  -- `while self.recent.len() > self.recent_limit { self.recent.pop_front(); }`
  unfoldable pub trim_recent : ℕ → List RecentDecisionRecord → List RecentDecisionRecord
  trim_recent limit [] = []
  trim_recent limit (r ∷ rs) =
      let rest = trim_recent limit rs in if ltb limit (length (r ∷ rs)) then rest else r ∷ rs

  unfoldable pub apply_config : ModelMemoryConfig → ModelMemoryStore → ModelMemoryStore
  apply_config config s =
      let limit = clamp 1 50 config.recent_limit in
      record s {
        recent_limit = limit;
        top_limit = clamp 1 32 config.top_limit;
        momentum_decay_milli = clamp 0 999 config.momentum_decay_milli;
        prewarm_effect_windows = clamp 1 20 config.prewarm_effect_windows;
        recent = trim_recent limit s.recent;
      }

  -- `load_or_default`, where `loaded` is the store that the file holds, if it can be read
  unfoldable pub load_or_default : ModelMemoryConfig → Option ModelMemoryStore → ModelMemoryStore
  load_or_default config loaded = elim config.persist_path [
    | none ↦ with_config config
    | some path ↦ elim loaded [
      | some memory ↦ apply_config config memory
      | none ↦ with_config config
    ]
  ]

  -- `trim` is `str::trim`
  unfoldable pub set_llm_summary : (String → String) → String → ModelMemoryStore → ModelMemoryStore
  set_llm_summary trim summary s =
      if is_empty_str (trim summary) then s else record s { llm_summary = some summary }
