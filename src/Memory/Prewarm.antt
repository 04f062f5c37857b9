-- ===== src/Memory/Prewarm.antt =====
-- crates/aios-core/src/context_memory.rs: whether a prewarmed app was opened in time. `trim` is
-- `str::trim`.
use di_pecs.Base.{
  ℕ, suc, String, Bool, true, false, Option, none, some, List, [], ◌∷◌, ◌++◌, ◌&&◌, min, leb, map,
  not, if◌then◌else◌,
}
use di_pecs.Base.Text.{str_eq, is_empty_str, strip_prefix, member, concat, show}
use di_pecs.Spec.Context.{ActionFeedbackRecord, FeedbackCorrectness, RecentDecisionRecord}
use di_pecs.Spec.Intent.{ActionType}
use di_pecs.Spec.Governance.{ActionState, AuditRecord}
use di_pecs.Memory.Scores.{Scores, increment, add_momentum}
use di_pecs.Memory.Store.{ModelMemoryStore, PendingPrewarm}

-- `outcome.target.as_deref() == Some(target)`
abbrev pub is_target : Option String → String → Bool
is_target none target = false
is_target (some t) target = str_eq t target

abbrev pub effect_text : Bool → String → String
effect_text true pkg = concat "prewarm_effect_hit:" pkg
effect_text false pkg = concat "prewarm_effect_miss:" pkg

unfoldable pub attribute_outcome :
    PendingPrewarm
    → FeedbackCorrectness
    → String
    → Bool
    → ActionFeedbackRecord
    → ActionFeedbackRecord
attribute_outcome prewarm correctness evidence hit outcome =
    if str_eq outcome.action_type "PreWarmProcess" && is_target outcome.target prewarm.target
    then record outcome {
      correctness = correctness;
      correctness_evidence = evidence;
      outcome_summary = some (effect_text hit prewarm.package_name);
    }
    else outcome

unfoldable pub attribute_recent :
    PendingPrewarm
    → FeedbackCorrectness
    → String
    → Bool
    → RecentDecisionRecord
    → RecentDecisionRecord
attribute_recent prewarm correctness evidence hit recent =
    if not (str_eq recent.window_id prewarm.window_id) then recent else record recent {
      action_outcomes =
          map (attribute_outcome prewarm correctness evidence hit) recent.action_outcomes;
    }

unfoldable pub normalize_prewarm_package : (String → String) → String → Option String
normalize_prewarm_package trim target = elim (strip_prefix target "pkg:") [
  | some pkg ↦ if is_empty_str (trim pkg) then none else some (trim pkg)
  | none ↦ none
]

-- the fields of the match on the record that `register_pending_prewarm` starts with
abbrev pub is_prewarm_type : ActionType → Bool
is_prewarm_type ActionType.pre_warm_process = true
is_prewarm_type _ = false

abbrev pub has_succeeded : ActionState → Bool
has_succeeded ActionState.succeeded = true
has_succeeded _ = false

-- the package that a record's target names
abbrev pub package_of_target : (String → String) → Option String → Option String
package_of_target trim none = none
package_of_target trim (some target) = normalize_prewarm_package trim target

abbrev pub target_text : Option String → String
target_text none = ""
target_text (some target) = target

-- what `register_pending_prewarm` pushes
unfoldable pub registered : (String → String) → String → AuditRecord → List PendingPrewarm
registered trim window_id r =
    if not (is_prewarm_type r.action_type && has_succeeded r.terminal)
    then []
    else elim (package_of_target trim r.target) [
      | none ↦ []
      | some pkg ↦
          record {
            window_id = window_id;
            target = target_text r.target;
            package_name = pkg;
            windows_observed = 0;
          }
          ∷ []
    ]

unfoldable pub registered_all : (String → String) → String → List AuditRecord → List PendingPrewarm
registered_all trim window_id [] = []
registered_all trim window_id (r ∷ rs) =
    registered trim window_id r ++ registered_all trim window_id rs

-- `windows_observed.saturating_add(1)`
abbrev pub observed : PendingPrewarm → PendingPrewarm
observed p = record p { windows_observed = min 255 (suc p.windows_observed) }

abbrev pub hit_evidence : PendingPrewarm → String
hit_evidence p = concat "prewarm target " (
    concat p.package_name
      (concat " opened within " (concat (show p.windows_observed) " observed window(s)")))

abbrev pub miss_evidence : PendingPrewarm → ℕ → String
miss_evidence p windows =
    concat "prewarm target " (
      concat p.package_name (concat " was not opened within " (concat (show windows) " window(s)")))

module _ (sc : Scores) where
  unfoldable pub record_prewarm_attribution :
      PendingPrewarm
      → FeedbackCorrectness
      → String
      → Bool
      → ModelMemoryStore sc
      → ModelMemoryStore sc
  record_prewarm_attribution prewarm correctness evidence true s = record s {
    prewarm_hit_counts = increment s.prewarm_hit_counts prewarm.package_name;
    prewarm_hit_momentum = add_momentum sc s.prewarm_hit_momentum prewarm.package_name;
    recent = map (attribute_recent prewarm correctness evidence true) s.recent;
  }
  record_prewarm_attribution prewarm correctness evidence false s = record s {
    prewarm_miss_counts = increment s.prewarm_miss_counts prewarm.package_name;
    prewarm_miss_momentum = add_momentum sc s.prewarm_miss_momentum prewarm.package_name;
    recent = map (attribute_recent prewarm correctness evidence false) s.recent;
  }

  -- the loop of `resolve_pending_prewarms`, and the prewarms that are still pending
  unfoldable pub resolve_each :
      List String
      → List PendingPrewarm
      → ModelMemoryStore sc
      → ModelMemoryStore sc × List PendingPrewarm
  resolve_each foreground_apps [] s = (s, [])
  resolve_each foreground_apps (p ∷ ps) s =
      let prewarm = observed p in
      let hit = resolve_each foreground_apps ps (
        record_prewarm_attribution prewarm FeedbackCorrectness.prediction_hit (hit_evidence prewarm)
          true s) in
      let miss = resolve_each foreground_apps ps (
        record_prewarm_attribution prewarm FeedbackCorrectness.prediction_miss
          (miss_evidence prewarm s.prewarm_effect_windows) false s) in
      let wait = resolve_each foreground_apps ps s in
      if member foreground_apps prewarm.package_name
      then hit
      else if leb s.prewarm_effect_windows prewarm.windows_observed
      then miss
      else (wait.0, prewarm ∷ wait.1)

  unfoldable pub resolve_pending_prewarms : List String → ModelMemoryStore sc → ModelMemoryStore sc
  resolve_pending_prewarms foreground_apps s =
      let (s', still_pending) =
        resolve_each foreground_apps s.pending_prewarms (record s { pending_prewarms = [] }) in
      record s' { pending_prewarms = still_pending }
