-- ===== src/Local/Candidates/Keys.antt =====
-- crates/aios-agent/src/backends/local_evaluator.rs: no two intents of a window propose the same.
use di_pecs.Base.{
  ℕ, suc, ◌≤◌, String, Bool, false, List, [], ◌∷◌, map, inl, inr, ◌≡◌, refl, sym, ap, ◌∙◌, arith,
  count_if, All, Bool-cases,
}
use mathlib.Core.Bool.{true≢false}
use di_pecs.Base.Text.{str_eq, eq_iff}
use di_pecs.Base.Maps.{Map, sort_by, take, count_if-sort_by}
use di_pecs.Local.Maps.{get, put}
use di_pecs.Local.Candidates.{
  IntentCandidate, candidate_key, dedupe, filter_actions, finalize_candidates, intents_of, key_of,
  le_candidate, merge, merged, retain_candidates,
}
use di_pecs.Local.Candidates.Final.{count_if-take}
use di_pecs.Local.Signals.{WindowSignals}

module _ {ℓ} {V : Type ℓ} where
  abbrev pub has_key : String → String × V → Bool
  has_key key e = str_eq e.0 key

  -- A new value under one key leaves the entries of any other.
  count-put_other :
      (key other : String) (v : V) (m : Map V)
      → str_eq key other ≡ false
      → count_if (has_key other) (put key v m) ≡ count_if (has_key other) m
  unfolding put
  count-put_other key other v [] h = rw h refl
  count-put_other key other v ((k, w) ∷ rest) h = elim (Bool-cases (str_eq k key)) [
    | inl e ↦ rw e refl
    | inr e ↦ rw (e, put) (omega (arith, count-put_other key other v rest h))
  ]

  count-put_bound :
      (key other : String) (v : V) (m : Map V)
      → count_if (has_key other) m ≤ 1
      → count_if (has_key other) (put key v m) ≤ 1
  unfolding put
  count-put_bound key other v [] h = ground arith
  count-put_bound key other v ((k, w) ∷ rest) h = elim (Bool-cases (str_eq k key)) [
    | inl e ↦ rw e h
    | inr e ↦ elim (Bool-cases (str_eq k other)) [
      | inr f ↦
          rw (e, put, f) (omega (arith, count-put_bound key other v rest (ground (arith, h, f))))
      | inl f ↦ elim (Bool-cases (str_eq key other)) [
        | inr g ↦ rw (e, put) (omega (arith, h, count-put_other key other v rest g))
        | inl g ↦
            let same : k ≡ key = (eq_iff k other).0 f ∙ sym ((eq_iff key other).0 g) in
            absurd (true≢false (sym ((eq_iff k key).1 same) ∙ e))
      ]
    ]
  ]

module _ {F : Type 0} where
  -- each value stands under its own key
  abbrev pub IsKeyed : Map (IntentCandidate F) → Type 0
  IsKeyed m = All (λ e. e.0 ≡ candidate_key e.1) m

  merge_key :
      (le : F → F → Bool) (a b : IntentCandidate F)
      → candidate_key a ≡ candidate_key b
      → candidate_key (merge le a b) ≡ candidate_key b
  unfolding merge
  merge_key le a b h = elim (Bool-cases (le b.confidence a.confidence)) [
    | inl e ↦ rw e h
    | inr e ↦ rw e refl
  ]

  merged_key :
      (le : F → F → Bool) (c : IntentCandidate F) (m : Map (IntentCandidate F))
      → IsKeyed m
      → candidate_key (merged le (get m (candidate_key c)) c) ≡ candidate_key c
  unfolding get
  merged_key le c [] h = refl
  merged_key le c ((k, w) ∷ rest) h = elim (Bool-cases (str_eq k (candidate_key c))) [
    | inl e ↦ rw (e, get) (merge_key le w c (sym h.0 ∙ (eq_iff k (candidate_key c)).0 e))
    | inr e ↦ rw (e, get) (merged_key le c rest h.1)
  ]

  put-IsKeyed :
      (key : String) (v : IntentCandidate F) (m : Map (IntentCandidate F))
      → key ≡ candidate_key v
      → IsKeyed m
      → IsKeyed (put key v m)
  unfolding put
  put-IsKeyed key v [] e h = (e, tt)
  put-IsKeyed key v ((k, w) ∷ rest) e h = elim (Bool-cases (str_eq k key)) [
    | inl f ↦ rw (f, put) ((eq_iff k key).0 f ∙ e, h.1)
    | inr f ↦ rw (f, put) (h.0, put-IsKeyed key v rest e h.1)
  ]

  dedupe_keys :
      (le : F → F → Bool) (cs : List (IntentCandidate F)) (m : Map (IntentCandidate F))
      → IsKeyed m
      → ((key : String) → count_if (has_key key) m ≤ 1)
      → IsKeyed (dedupe le cs m) × ((key : String) → count_if (has_key key) (dedupe le cs m) ≤ 1)
  unfolding dedupe
  dedupe_keys le [] m h once = (h, once)
  dedupe_keys le (c ∷ cs) m h once =
      let v = merged le (get m (candidate_key c)) c in
      dedupe_keys le cs (put (candidate_key c) v m)
        (put-IsKeyed (candidate_key c) v m (sym (merged_key le c m h)) h)
        (λ key. count-put_bound (candidate_key c) key v m (once key))

  abbrev pub proposes : String → IntentCandidate F → Bool
  proposes key c = str_eq (candidate_key c) key

  values_count :
      (key : String) (m : Map (IntentCandidate F))
      → IsKeyed m
      → count_if (proposes key) (map (λ e. e.1) m) ≡ count_if (has_key key) m
  values_count key [] h = refl
  values_count key ((k, c) ∷ rest) h =
      ground (arith, ap (λ t. str_eq t key) h.0, values_count key rest h.1)

  intents_count :
      (key : String) (ids : ℕ → String) (n : ℕ) (cs : List (IntentCandidate F))
      → count_if (λ i. str_eq (key_of i.intent_type i.suggested_actions) key) (intents_of ids n cs)
        ≡ count_if (proposes key) cs
  unfolding intents_of
  intents_count key ids n [] = refl
  intents_count key ids n (c ∷ cs) = omega (arith, intents_count key ids (suc n) cs)

  module _ (signals : WindowSignals) (le lt : F → F → Bool)
      (in_order : List (IntentCandidate F) → List (IntentCandidate F))
      (in_order-count : (p : IntentCandidate F → Bool) (cs : List (IntentCandidate F))
        → count_if p (in_order cs) ≡ count_if p cs) where
    -- However many events call for the same actions under the same type of intent, and in whatever order
    -- the map of the candidates gives its values, at most one intent of the answer has that type and
    -- those actions.
    pub finalize_candidates_once :
        (ids : ℕ → String) (candidates : List (IntentCandidate F)) (limit : ℕ) (key : String)
        → count_if
            (λ i. str_eq (key_of i.intent_type i.suggested_actions) key)
            (finalize_candidates le lt in_order ids candidates signals limit)
          ≤ 1
    unfolding finalize_candidates
    finalize_candidates_once ids candidates limit key =
        let deduped = dedupe le (retain_candidates (map (filter_actions signals) candidates)) [] in
        let keys =
          dedupe_keys le (retain_candidates (map (filter_actions signals) candidates)) [] tt
            (λ key. omega arith) in
        let values = map (λ (e : String × IntentCandidate F). e.1) deduped in
        let sorted = sort_by (le_candidate lt) (in_order values) in
        omega (
          arith,
          intents_count key ids 0 (take limit sorted),
          count_if-take (proposes key) limit sorted,
          count_if-sort_by (proposes key) (le_candidate lt) (in_order values),
          in_order-count (proposes key) values,
          values_count key deduped keys.0,
          keys.1 key,
        )
