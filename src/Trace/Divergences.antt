-- ===== src/Trace/Divergences.antt =====
-- Which places a list of divergences names.
use di_pecs.Base.{
  any-append, ℕ, zero, suc, ◌+◌, ◌-◌, ◌<◌, ◌≡◌, refl, sym, Bool, true, false, Option, none, some,
  List, [], ◌∷◌, ◌||◌, ◌&&◌, ◌==◌, not, min, max, arith, length, any, get_elem?, ltb, leb,
}
use di_pecs.Spec.Event.{RawEvent, SourceTier}
use di_pecs.Spec.Sanitized.{SanitizedEvent}
use di_pecs.Spec.Intent.{IntentBatch}
use di_pecs.Trace.{
  ExecutedAction, GoldenTrace, differing, count_from, divergences, execution_divergences,
  executed_eq, sanitized_eq, sanitize_all, sanitization_divergences, validate,
}

module _ {ℓ} {A : Type ℓ} (eq : A → A → Bool) where
  -- The two entries of a place are not the same, or only one is there.
  abbrev pub differs_at : Option A → Option A → Bool
  differs_at none none = false
  differs_at (some x) (some y) = not (eq x y)
  differs_at none (some y) = true
  differs_at (some x) none = true

  abbrev both_differ : Option A → Option A → Bool
  both_differ (some x) (some y) = not (eq x y)
  both_differ none o = false
  both_differ (some x) none = false

  both_left : (o : Option A) → both_differ o none ≡ false
  both_left none = refl
  both_left (some x) = refl

  differing-early :
      (n m : ℕ) (xs ys : List A) → m < n → any (λ k. k == m) (differing eq n xs ys) ≡ false
  unfolding differing
  differing-early n m [] ys h = refl
  differing-early n m (x ∷ xs) [] h = refl
  differing-early n m (x ∷ xs) (y ∷ ys) h = ground (arith, differing-early (suc n) m xs ys)

  differing-at :
      (n i m : ℕ) (xs ys : List A)
      → m ≡ n + i
      → any (λ k. k == m) (differing eq n xs ys) ≡ both_differ (get_elem? xs i) (get_elem? ys i)
  unfolding differing
  differing-at n i m [] ys h = refl
  differing-at n zero m (x ∷ xs) [] h = refl
  differing-at n (suc i) m (x ∷ xs) [] h = sym (both_left (get_elem? xs i))
  differing-at n zero m (x ∷ xs) (y ∷ ys) h = ground (arith, differing-early (suc n) m xs ys)
  differing-at n (suc i) m (x ∷ xs) (y ∷ ys) h = ground (arith, differing-at (suc n) i m xs ys)

  count_from-at : (lo c m : ℕ) → any (λ k. k == m) (count_from lo c) ≡ (leb lo m && ltb m (lo + c))
  unfolding count_from
  count_from-at lo zero m = ground arith
  count_from-at lo (suc c) m = ground (arith, count_from-at (suc lo) c m)

  only_right : (ys : List A) (i : ℕ) → differs_at none (get_elem? ys i) ≡ ltb i (length ys)
  only_right [] i = ground arith
  only_right (y ∷ ys) zero = ground arith
  only_right (y ∷ ys) (suc i) = ground (arith, only_right ys i)

  only_left : (xs : List A) (i : ℕ) → differs_at (get_elem? xs i) none ≡ ltb i (length xs)
  only_left [] i = ground arith
  only_left (x ∷ xs) zero = ground arith
  only_left (x ∷ xs) (suc i) = ground (arith, only_left xs i)

  differs_at-split :
      (xs ys : List A) (i : ℕ)
      → differs_at (get_elem? xs i) (get_elem? ys i) ≡ (
          both_differ (get_elem? xs i) (get_elem? ys i)
          || (leb (min (length xs) (length ys)) i && ltb i (max (length xs) (length ys))))
  differs_at-split [] ys i = ground (arith, only_right ys i)
  differs_at-split (x ∷ xs) [] i =
      ground (arith, only_left (x ∷ xs) i, both_left (get_elem? (x ∷ xs) i))
  differs_at-split (x ∷ xs) (y ∷ ys) zero = ground arith
  differs_at-split (x ∷ xs) (y ∷ ys) (suc i) = ground (arith, differs_at-split xs ys i)

pub divergences-at {ℓ} :
    {A : Type ℓ} (eq : A → A → Bool) (xs ys : List A) (i : ℕ)
    → any (λ k. k == i) (divergences eq xs ys) ≡ differs_at eq (get_elem? xs i) (get_elem? ys i)
unfolding divergences
divergences-at eq xs ys i =
    let lo = min (length xs) (length ys) in
    let hi = max (length xs) (length ys) in
    let whole : lo + (hi - lo) ≡ hi = omega arith in
    rw
      (
        any-append (λ k. k == i) (differing eq 0 xs ys) (count_from lo (hi - lo)),
        differing-at eq 0 i i xs ys (omega arith),
        count_from-at eq lo (hi - lo) i,
        whole,
      )
      (sym (differs_at-split eq xs ys i))

module _ (F : Type 0) (far : F → F → Bool)
    (sanitize_with_tier : ℕ → RawEvent → SourceTier → SanitizedEvent) where
  -- A validation names a place among its divergences exactly if there the two lists have entries that
  -- differ, or only one of them has an entry: the sanitized events against the expected ones, and the
  -- executed actions against the expected ones.
  pub validate-divergences :
      (golden : GoldenTrace F) (actual : IntentBatch F) (executed : List ExecutedAction) (i : ℕ)
      → (any
            (λ k. k == i)
            (validate F far sanitize_with_tier golden actual executed).sanitization_divergences
          ≡ differs_at sanitized_eq
              (get_elem?
                (sanitize_all F far sanitize_with_tier 0 golden.raw_events golden.source_tiers)
                i)
              (get_elem? golden.expected_sanitized i))
        × (any
              (λ k. k == i)
              (validate F far sanitize_with_tier golden actual executed).execution_divergences
            ≡ differs_at executed_eq (get_elem? golden.expected_actions i) (get_elem? executed i))
  unfolding validate sanitization_divergences execution_divergences
  validate-divergences golden actual executed i = (
    divergences-at sanitized_eq
        (sanitize_all F far sanitize_with_tier 0 golden.raw_events golden.source_tiers)
        golden.expected_sanitized i,
    divergences-at executed_eq golden.expected_actions executed i,
  )
