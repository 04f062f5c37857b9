-- ===== src/Router/Merge.antt =====
-- What the merge of two local results keeps.
use di_pecs.Base.{
  any-append, or_assoc, ◌≡◌, refl, ap, sym, ◌∙◌, String, Bool, true, false, Option, none, some,
  List, [], ◌∷◌, ◌++◌, ◌&&◌, ◌||◌, not, arith, filter_by, is_empty, if◌then◌else◌, Bool-cases, inl,
  inr,
}
use mathlib.Core.Path.{ap₂}
use di_pecs.Base.Text.{str_eq, member, eq_iff}
use di_pecs.Spec.Context.{ModelInput}
use di_pecs.Spec.Intent.{DecisionBackendResult, Intent}
use di_pecs.Router.{add_tag, idle_or, is_idle_noop, merge_results, merge_tags, take_idle_noop}

member-add_tag :
    (tags : List String) (tag p : String)
    → member (add_tag tags tag) p ≡ (member tags p || str_eq tag p)
member-add_tag tags tag p =
    ground (arith, any-append (λ x. str_eq x p) tags (tag ∷ []), eq_iff tag p)

member-merge_tags :
    (target source : List String) (p : String)
    → member (merge_tags target source) p ≡ (member target p || member source p)
unfolding merge_tags
member-merge_tags target [] p = ground arith
member-merge_tags target (tag ∷ source) p =
    member-merge_tags (add_tag target tag) source p
    ∙ ap (λ b. b || member source p) (member-add_tag target tag p)
    ∙ or_assoc (member target p) (str_eq tag p) (member source p)

module _ (F : Type 0) where
  -- the intents that are no idle NoOp, in order
  abbrev pub busy : List (Intent F) → List (Intent F)
  busy intents = filter_by (λ i. not (is_idle_noop F i)) intents

  abbrev is_idle_or_none : Option (Intent F) → Bool
  is_idle_or_none none = true
  is_idle_or_none (some i) = is_idle_noop F i

  abbrev is_taken : Option (Intent F) → Bool
  is_taken none = false
  is_taken (some i) = true

  busy-append : (xs ys : List (Intent F)) → busy (xs ++ ys) ≡ busy xs ++ busy ys
  busy-append [] ys = refl
  busy-append (x ∷ xs) ys = ground (arith, busy-append xs ys)

  -- Taking an idle NoOp out keeps the busy intents; what is left is empty exactly if it was the last.
  take_idle_noop_lem :
      (xs : List (Intent F))
      → (is_idle_or_none (take_idle_noop F xs).0 ≡ true)
        × (busy (take_idle_noop F xs).1 ≡ busy xs)
        × (is_empty xs
            ≡ (is_empty (take_idle_noop F xs).1 && not (is_taken (take_idle_noop F xs).0)))
  unfolding take_idle_noop
  take_idle_noop_lem [] = (refl, refl, refl)
  take_idle_noop_lem (x ∷ xs) =
      let (idle, kept, rest) = take_idle_noop_lem xs in
      elim (Bool-cases (is_idle_noop F x)) [
        | inl e ↦ rw (e, take_idle_noop, filter_by) (e, refl, ground arith)
        | inr e ↦
            rw (e, take_idle_noop, filter_by) (idle, rw (e, filter_by) (ap (◌∷◌ x) kept), refl)
      ]

  busy-idle_or :
      (a b : Option (Intent F))
      → is_idle_or_none a ≡ true
      → is_idle_or_none b ≡ true
      → busy (idle_or F a b) ≡ []
  busy-idle_or none none h k = refl
  busy-idle_or none (some y) h k = rw k refl
  busy-idle_or (some x) b h k = rw h refl

  is_empty-idle_or :
      (a b : Option (Intent F)) → is_empty (idle_or F a b) ≡ (not (is_taken a) && not (is_taken b))
  is_empty-idle_or none none = refl
  is_empty-idle_or none (some y) = refl
  is_empty-idle_or (some x) b = refl

  combined_lem :
      (a b : Option (Intent F)) (xs ys : List (Intent F))
      → is_idle_or_none a ≡ true
      → is_idle_or_none b ≡ true
      → (busy (if is_empty (xs ++ ys) then idle_or F a b else xs ++ ys) ≡ busy xs ++ busy ys)
        × (is_empty (if is_empty (xs ++ ys) then idle_or F a b else xs ++ ys)
            ≡ ((is_empty xs && not (is_taken a)) && (is_empty ys && not (is_taken b))))
  combined_lem a b [] [] h k = (busy-idle_or a b h k, is_empty-idle_or a b)
  combined_lem a b [] (y ∷ ys) h k = (refl, ground arith)
  combined_lem a b (x ∷ xs) ys h k = (busy-append (x ∷ xs) ys, refl)

  -- A merge keeps every intent that is no idle NoOp, the heuristic ones first and each in order,
  -- proposes nothing only if neither result proposes anything, and has the tags of both.
  pub merge_results-keeps :
      (input : ModelInput) (heuristic predictive : DecisionBackendResult F)
      → (busy (merge_results F input heuristic predictive).intent_batch.intents
          ≡ busy heuristic.intent_batch.intents ++ busy predictive.intent_batch.intents)
        × (is_empty (merge_results F input heuristic predictive).intent_batch.intents
            ≡ (is_empty heuristic.intent_batch.intents && is_empty predictive.intent_batch.intents))
        × ((tag : String)
            → member (merge_results F input heuristic predictive).rationale_tags tag
              ≡ (member heuristic.rationale_tags tag || member predictive.rationale_tags tag))
  unfolding merge_results
  merge_results-keeps input heuristic predictive =
      let hs = take_idle_noop F heuristic.intent_batch.intents in
      let ps = take_idle_noop F predictive.intent_batch.intents in
      let (h_idle, h_kept, h_empty) = take_idle_noop_lem heuristic.intent_batch.intents in
      let (p_idle, p_kept, p_empty) = take_idle_noop_lem predictive.intent_batch.intents in
      let (kept, empty) = combined_lem hs.0 ps.0 hs.1 ps.1 h_idle p_idle in
      (
        kept ∙ ap₂ ◌++◌ h_kept p_kept,
        empty ∙ ap₂ ◌&&◌ (sym h_empty) (sym p_empty),
        member-merge_tags heuristic.rationale_tags predictive.rationale_tags,
      )
