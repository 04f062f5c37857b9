-- ===== src/Local/Candidates/Final.antt =====
-- crates/aios-agent/src/backends/local_evaluator.rs: which candidates are left.
use di_pecs.Base.{
  ℕ, suc, ◌≤◌, String, Bool, true, false, List, [], ◌∷◌, ◌&&◌, not, is_empty, length, map, inl, inr,
  ◌≡◌, refl, ap, arith, all, count_if, All, Bool-cases,
}
use di_pecs.Base.Text.{str_eq}
use di_pecs.Base.Maps.{Map, sort_by, take, drop, count_if-sort_by, length-take, take-append-drop}
use di_pecs.Base.Lists.{count_if-append}
use di_pecs.Spec.Intent.{Intent, RiskLevel, SuggestedAction}
use di_pecs.Local.Maps.{get, put}
use di_pecs.Local.Candidates.{
  IntentCandidate, dedupe, filter_actions, finalize_candidates, intents_of, is_policy_aware_action,
  le_candidate, merge, merged, retain_actions, retain_candidates, candidate_key,
}
use di_pecs.Local.Signals.{WindowSignals}

module _ {ℓ} {A : Type ℓ} where
  -- all pass exactly if none fails
  none_fails :
      (p : A → Bool) (xs : List A) → All (λ x. p x ≡ true) xs → count_if (λ x. not (p x)) xs ≡ 0
  none_fails p [] h = refl
  none_fails p (x ∷ xs) h = ground (arith, h.0, none_fails p xs h.1)

  pass_of_count :
      (p : A → Bool) (xs : List A) → count_if (λ x. not (p x)) xs ≡ 0 → All (λ x. p x ≡ true) xs
  pass_of_count p [] h = tt
  pass_of_count p (x ∷ xs) h = elim (Bool-cases (p x)) [
    | inl e ↦ (e, pass_of_count p xs (ground (arith, h, e)))
    | inr e ↦ absurd (ground (arith, h, e))
  ]

  pub count_if-take : (p : A → Bool) (n : ℕ) (xs : List A) → count_if p (take n xs) ≤ count_if p xs
  count_if-take p n xs =
      omega
        (arith, ap (count_if p) (take-append-drop n xs), count_if-append p (take n xs) (drop n xs))

-- an action of the list is kept exactly if it passes the filter
module _ (signals : WindowSignals) where
  abbrev pub is_aware : SuggestedAction → Bool
  is_aware action = is_policy_aware_action action.action_type action.target signals

  retained : (actions : List SuggestedAction) → all is_aware (retain_actions signals actions) ≡ true
  unfolding retain_actions
  retained [] = refl
  retained (action ∷ actions) = elim (Bool-cases (is_aware action)) [
    | inl e ↦ rw (e, retain_actions) (ground (arith, e, retained actions))
    | inr e ↦ rw e (retained actions)
  ]

  -- a candidate with actions, all of which pass the filter
  abbrev pub is_final : {F : Type 0} → IntentCandidate F → Bool
  is_final candidate = not (is_empty candidate.actions) && all is_aware candidate.actions

  module _ {F : Type 0} where
    filtered :
        (candidates : List (IntentCandidate F))
        → All (λ c. is_final c ≡ true) (retain_candidates (map (filter_actions signals) candidates))
    unfolding retain_candidates filter_actions
    filtered [] = tt
    filtered (c ∷ cs) = elim (Bool-cases (not (is_empty (retain_actions signals c.actions)))) [
      | inl e ↦ rw e (ground (arith, e, retained c.actions), filtered cs)
      | inr e ↦ rw e (filtered cs)
    ]

    merge-is_final :
        (le : F → F → Bool) (a b : IntentCandidate F)
        → is_final a ≡ true
        → is_final b ≡ true
        → is_final (merge le a b) ≡ true
    unfolding merge
    merge-is_final le a b h k = elim (Bool-cases (le b.confidence a.confidence)) [
      | inl e ↦ rw e h
      | inr e ↦ rw e k
    ]

    put-is_final :
        (key : String) (v : IntentCandidate F) (m : Map (IntentCandidate F))
        → is_final v ≡ true
        → All (λ e. is_final e.1 ≡ true) m
        → All (λ e. is_final e.1 ≡ true) (put key v m)
    unfolding put
    put-is_final key v [] h hs = (h, tt)
    put-is_final key v ((k, w) ∷ rest) h hs = elim (Bool-cases (str_eq k key)) [
      | inl e ↦ rw (e, put) (h, hs.1)
      | inr e ↦ rw (e, put) (hs.0, put-is_final key v rest h hs.1)
    ]

    merged-is_final :
        (le : F → F → Bool) (key : String) (m : Map (IntentCandidate F)) (c : IntentCandidate F)
        → is_final c ≡ true
        → All (λ e. is_final e.1 ≡ true) m
        → is_final (merged le (get m key) c) ≡ true
    unfolding get
    merged-is_final le key [] c h hs = h
    merged-is_final le key ((k, w) ∷ rest) c h hs = elim (Bool-cases (str_eq k key)) [
      | inl e ↦ rw (e, get) (merge-is_final le w c hs.0 h)
      | inr e ↦ rw (e, get) (merged-is_final le key rest c h hs.1)
    ]

    dedupe-is_final :
        (le : F → F → Bool) (cs : List (IntentCandidate F)) (m : Map (IntentCandidate F))
        → All (λ c. is_final c ≡ true) cs
        → All (λ e. is_final e.1 ≡ true) m
        → All (λ e. is_final e.1 ≡ true) (dedupe le cs m)
    unfolding dedupe
    dedupe-is_final le [] m hs km = km
    dedupe-is_final le (c ∷ cs) m hs km =
        let key = candidate_key c in
        dedupe-is_final le cs (put key (merged le (get m key) c) m) hs.1
          (put-is_final key (merged le (get m key) c) m (merged-is_final le key m c hs.0 km) km)

    values_final :
        (m : Map (IntentCandidate F))
        → All (λ e. is_final e.1 ≡ true) m
        → All (λ c. is_final c ≡ true) (map (λ e. e.1) m)
    values_final [] h = tt
    values_final ((key, c) ∷ rest) h = (h.0, values_final rest h.1)

    -- An intent of low risk with at least one action, all of which pass the filter.
    abbrev pub IsFinal : Intent F → Type 0
    IsFinal intent =
        (intent.risk_level ≡ RiskLevel.low)
        × ((is_empty intent.suggested_actions ≡ false)
            × All (λ a. is_aware a ≡ true) intent.suggested_actions)

    module _ (le lt : F → F → Bool) (in_order : List (IntentCandidate F) → List (IntentCandidate F))
        (in_order-count : (p : IntentCandidate F → Bool) (cs : List (IntentCandidate F))
          → count_if p (in_order cs) ≡ count_if p cs) where
      -- the candidates that become intents
      abbrev pub chosen : List (IntentCandidate F) → ℕ → List (IntentCandidate F)
      chosen candidates limit = take limit (
          sort_by (le_candidate lt) (
            in_order (
              map (λ e. e.1)
                (dedupe le (retain_candidates (map (filter_actions signals) candidates)) []))))

      chosen_final :
          (candidates : List (IntentCandidate F)) (limit : ℕ)
          → All (λ c. is_final c ≡ true) (chosen candidates limit)
      chosen_final candidates limit =
          let fails : IntentCandidate F → Bool = λ c. not (is_final c) in
          let kept = retain_candidates (map (filter_actions signals) candidates) in
          let values = map (λ (e : String × IntentCandidate F). e.1) (dedupe le kept []) in
          let none = none_fails is_final values (
            values_final (dedupe le kept [])
              (dedupe-is_final le kept [] (filtered candidates) tt)) in
          pass_of_count is_final (chosen candidates limit) (
            omega (
              arith,
              count_if-take fails limit (sort_by (le_candidate lt) (in_order values)),
              count_if-sort_by fails (le_candidate lt) (in_order values),
              in_order-count fails values,
              none,
            ))

      pub finalize_candidates-IsFinal :
          (ids : ℕ → String) (candidates : List (IntentCandidate F)) (limit : ℕ)
          → All IsFinal (finalize_candidates le lt in_order ids candidates signals limit)
      unfolding finalize_candidates intents_of
      finalize_candidates-IsFinal ids candidates limit =
          from ids 0 (chosen candidates limit) (chosen_final candidates limit)
        where
          each :
              (actions : List SuggestedAction)
              → all is_aware actions ≡ true
              → All (λ a. is_aware a ≡ true) actions
          each [] h = tt
          each (a ∷ actions) h = (ground (arith, h), each actions (ground (arith, h)))

          from :
              (ids : ℕ → String) (n : ℕ) (cs : List (IntentCandidate F))
              → All (λ c. is_final c ≡ true) cs
              → All IsFinal (intents_of ids n cs)
          from ids n [] h = tt
          from ids n (c ∷ cs) h = (
            (refl, (ground (arith, h.0), each c.actions (ground (arith, h.0)))),
            from ids (suc n) cs h.1,
          )

      pub length-finalize_candidates :
          (ids : ℕ → String) (candidates : List (IntentCandidate F)) (limit : ℕ)
          → length (finalize_candidates le lt in_order ids candidates signals limit) ≤ limit
      unfolding finalize_candidates intents_of
      length-finalize_candidates ids candidates limit =
          let values =
            map (λ (e : String × IntentCandidate F). e.1)
              (dedupe le (retain_candidates (map (filter_actions signals) candidates)) []) in
          omega (
            arith,
            same 0 (chosen candidates limit),
            length-take limit (sort_by (le_candidate lt) (in_order values)),
          )
        where
          same : (n : ℕ) (cs : List (IntentCandidate F)) → length (intents_of ids n cs) ≡ length cs
          same n [] = refl
          same n (c ∷ cs) = ap suc (same (suc n) cs)
