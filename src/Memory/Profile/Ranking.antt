-- ===== src/Memory/Profile/Ranking.antt =====
-- crates/aios-core/src/context_memory.rs: the entries that a ranking keeps.
use di_pecs.Base.{
  ℕ, ◌+◌, ◌≤◌, String, Bool, some, ◌≡◌, refl, sym, ap, ◌∙◌, arith, length, min, count_if,
  count_if-append, All,
}
use mathlib.Core.Path.{subst}
use di_pecs.Base.Maps.{
  Map, take, drop, sort_by, count_if-sort_by, length-sort_by, length-take, take-append-drop,
  IsOrdered, sort_by-IsOrdered, IsOrdered-parts,
}
use di_pecs.Spec.Event.{SemanticHint}
use di_pecs.Memory.Scores.{le_count, top_counts, hint_name, semantic_hint_from_debug}

-- counted at least as often
abbrev pub IsAhead : String × ℕ → String × ℕ → Type 0
IsAhead a b = b.1 ≤ a.1

sorted_counts : (counts : Map ℕ) → IsOrdered IsAhead (sort_by le_count counts)
sorted_counts counts =
    sort_by-IsOrdered IsAhead (λ a b c h k. omega (arith, h, k)) le_count
      (λ a b h. ground (arith, h)) (λ a b h. ground (arith, h)) counts

-- A ranking of counters has as many entries as the limit allows, in the order of falling counts. With
-- the entries that it leaves out it has every entry as often as the counters have it, and none that it
-- leaves out was counted more often than one that it has.
pub top_counts-IsRanking :
    (counts : Map ℕ) (limit : ℕ)
    → (length (top_counts counts limit) ≡ min limit (length counts))
      × (IsOrdered IsAhead (top_counts counts limit)
          × ((left_out : Map ℕ) × (((p : String × ℕ → Bool)
                  → count_if p (top_counts counts limit) + count_if p left_out ≡ count_if p counts)
                × All (λ a. All (IsAhead a) left_out) (top_counts counts limit))))
unfolding top_counts
top_counts-IsRanking counts limit =
    let sorted = sort_by le_count counts in
    let parts =
      IsOrdered-parts IsAhead (take limit sorted) (drop limit sorted)
        (subst (IsOrdered IsAhead) (sym (take-append-drop limit sorted)) (sorted_counts counts)) in
    (
      length-take limit sorted ∙ ap (min limit) (length-sort_by le_count counts),
      (
        parts.0,
        (
          drop limit sorted,
          (
            (λ p.
                sym (count_if-append p (take limit sorted) (drop limit sorted))
                ∙ ap (count_if p) (take-append-drop limit sorted)
                ∙ count_if-sort_by p le_count counts),
            parts.1,
          ),
        ),
      ),
    )

-- The name under which a hint is counted is read back as that hint.
pub semantic_hint_from_debug-hint_name :
    (hint : SemanticHint) → semantic_hint_from_debug (hint_name hint) ≡ some hint
unfolding semantic_hint_from_debug
semantic_hint_from_debug-hint_name SemanticHint.file_mention = refl
semantic_hint_from_debug-hint_name SemanticHint.image_mention = refl
semantic_hint_from_debug-hint_name SemanticHint.audio_message = refl
semantic_hint_from_debug-hint_name SemanticHint.link_attachment = refl
semantic_hint_from_debug-hint_name SemanticHint.user_mentioned = refl
semantic_hint_from_debug-hint_name SemanticHint.calendar_invitation = refl
semantic_hint_from_debug-hint_name SemanticHint.financial_context = refl
semantic_hint_from_debug-hint_name SemanticHint.verification_code = refl
