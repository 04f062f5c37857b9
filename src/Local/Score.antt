-- ===== src/Local/Score.antt =====
-- crates/aios-agent/src/backends/local_evaluator.rs: the score of a candidate.
use di_pecs.Base.{ℕ, String, Bool, List, [], ◌∷◌, ◌++◌, ◌&&◌, not, if◌then◌else◌}
use di_pecs.Base.Text.{concat}
use di_pecs.Base.Floats.{Floats}
use di_pecs.Local.Signals.{WindowSignals}

-- what the scores ask of `f32` besides its order; `minus n` is the literal -n / 100
pub record Arithmetic (F : Type 0) : Type 0 where
  pub plus : F → F → F
  pub less : F → F → F
  pub min_of : F → F → F
  pub max_of : F → F → F
  pub le : F → F → Bool
  pub minus : ℕ → F

pub record Score (F : Type 0) : Type 0 where
  pub value : F
  pub tags : List String
  pub package_boost : F
  pub behavior_boost : F
  pub correlation_boost : F

pub data BoostGroup : Type 0 where
  package_group behavior_group correlation_group : BoostGroup

module _ (fl : Floats) (ar : Arithmetic fl.F32) where
  open fl use {F32, lt, decimal}
  open ar use {plus, less, min_of, max_of, le, minus}

  unfoldable pub with_tags : F32 → List String → Score F32
  with_tags value tags = record {
    value = value;
    tags = tags;
    package_boost = decimal 0;
    behavior_boost = decimal 0;
    correlation_boost = decimal 0;
  }

  unfoldable pub add : F32 → String → Score F32 → Score F32
  add delta tag s = record s { value = plus s.value delta; tags = s.tags ++ tag ∷ [] }

  -- what is left of the group's cap
  abbrev pub remaining : BoostGroup → Score F32 → F32
  remaining BoostGroup.package_group s = less (decimal 8) s.package_boost
  remaining BoostGroup.behavior_group s = less (decimal 5) s.behavior_boost
  remaining BoostGroup.correlation_group s = less (decimal 8) s.correlation_boost

  abbrev pub charge : BoostGroup → F32 → Score F32 → Score F32
  charge BoostGroup.package_group applied s = record s {
    package_boost = plus s.package_boost applied;
  }
  charge BoostGroup.behavior_group applied s = record s {
    behavior_boost = plus s.behavior_boost applied;
  }
  charge BoostGroup.correlation_group applied s = record s {
    correlation_boost = plus s.correlation_boost applied;
  }

  unfoldable pub add_grouped : BoostGroup → F32 → String → Score F32 → Score F32
  add_grouped group delta tag s =
      let applied = min_of delta (max_of (remaining group s) (decimal 0)) in
      if le applied (decimal 0)
      then record s { tags = s.tags ++ concat tag ":capped" ∷ [] }
      else add applied tag (charge group applied s)

  -- one `if` that adds a penalty
  abbrev pub add_if : Bool → F32 → String → Score F32 → Score F32
  add_if test delta tag s = if test then add delta tag s else s

  -- `clamp(0.0, 0.99)`
  abbrev pub clamp_value : F32 → F32
  clamp_value v =
      if lt v (decimal 0) then decimal 0 else if lt (decimal 99) v then decimal 99 else v

  unfoldable pub apply_window : WindowSignals → Bool → Score F32 → Score F32
  apply_window signals user_visible_hint s =
      let battery =
        add_if (signals.low_battery && not signals.charging) (minus 18) "local:penalty:low_battery"
          s in
      let network = add_if signals.cellular (minus 6) "local:penalty:cellular_network" battery in
      let reach = add_if signals.offline (minus 20) "local:penalty:offline" network in
      let shown =
        add_if (signals.screen_noninteractive && user_visible_hint) (minus 12)
          "local:penalty:screen_noninteractive" reach in
      record shown { value = clamp_value shown.value }
