-- ===== src/Base/Maps.antt =====
-- A `BTreeMap` with texts as keys: a list of entries that the insertion keeps in the order of the
-- keys. `sort_by` is stable, as a sort by insertion is.
use Prim.Native.Nat.{ℕ, zero, suc, ◌+◌, ◌-◌, ◌≤◌, min}
use Prim.Native.Nat.Ordering.{lt, eq, gt}
use Prim.Native.String.{String, compare}
use mathlib.Core.Path.{◌≡◌, refl, ap, sym, ◌∙◌}
use mathlib.Core.Bool.{Bool, true, false}
use mathlib.Core.List.{List, [], ◌∷◌, ◌++◌}
use mathlib.Core.Logic.{inl, inr}
use native.Mathlib.Omega.{arith}
use di_pecs.Base.Tests.{if◌then◌else◌, Bool-cases}
use di_pecs.Base.Lists.{length, length-append, count_if, All, All-map}

abbrev pub Map {ℓ} : Type ℓ → Type ℓ
Map V = List (String × V)

abbrev pub le_str : String → String → Bool
le_str s t = elim (compare s t) [ lt ↦ true | eq ↦ true | gt ↦ false ]

-- `*map.entry(key).or_insert(default)`, changed by `f`
unfoldable pub alter {ℓ} : {V : Type ℓ} → (V → V) → V → String → Map V → Map V
alter f default key [] = (key, f default) ∷ []
alter f default key ((k, v) ∷ rest) = elim (compare key k) [
  | lt ↦ (key, f default) ∷ (k, v) ∷ rest
  | eq ↦ (k, f v) ∷ rest
  | gt ↦ (k, v) ∷ alter f default key rest
]

suc_add : (n m : ℕ) → suc n + m ≡ suc (n + m)
suc_add n m = omega arith

module _ {ℓ} {A : Type ℓ} where
  abbrev pub take : ℕ → List A → List A
  take n [] = []
  take zero (x ∷ xs) = []
  take (suc n) (x ∷ xs) = x ∷ take n xs

  abbrev pub drop : ℕ → List A → List A
  drop n [] = []
  drop zero (x ∷ xs) = x ∷ xs
  drop (suc n) (x ∷ xs) = drop n xs

  -- in front of the first entry that `x` must not follow
  unfoldable pub insert_by : (A → A → Bool) → A → List A → List A
  insert_by le x [] = x ∷ []
  insert_by le x (y ∷ ys) = let rest = insert_by le x ys in if le x y then x ∷ y ∷ ys else y ∷ rest

  unfoldable pub sort_by : (A → A → Bool) → List A → List A
  sort_by le [] = []
  sort_by le (x ∷ xs) = insert_by le x (sort_by le xs)

  pub count_if-insert_by :
      (p : A → Bool) (le : A → A → Bool) (x : A) (ys : List A)
      → count_if p (insert_by le x ys) ≡ count_if p (x ∷ ys)
  unfolding insert_by
  count_if-insert_by p le x [] = refl
  count_if-insert_by p le x (y ∷ ys) = ground (arith, count_if-insert_by p le x ys)

  pub count_if-sort_by :
      (p : A → Bool) (le : A → A → Bool) (xs : List A) → count_if p (sort_by le xs) ≡ count_if p xs
  unfolding sort_by
  count_if-sort_by p le [] = refl
  count_if-sort_by p le (x ∷ xs) =
      omega (arith, count_if-insert_by p le x (sort_by le xs), count_if-sort_by p le xs)

  pub length-insert_by :
      (le : A → A → Bool) (x : A) (ys : List A) → length (insert_by le x ys) ≡ suc (length ys)
  unfolding insert_by
  length-insert_by le x [] = refl
  length-insert_by le x (y ∷ ys) = ground (arith, length-insert_by le x ys)

  pub length-sort_by : (le : A → A → Bool) (xs : List A) → length (sort_by le xs) ≡ length xs
  unfolding sort_by
  length-sort_by le [] = refl
  length-sort_by le (x ∷ xs) =
      omega (arith, length-insert_by le x (sort_by le xs), length-sort_by le xs)

  pub length-take : (n : ℕ) (xs : List A) → length (take n xs) ≡ min n (length xs)
  length-take n [] = omega arith
  length-take zero (x ∷ xs) = omega arith
  length-take (suc n) (x ∷ xs) = omega (arith, length-take n xs)

  pub length-drop : (n : ℕ) (xs : List A) → length (drop n xs) + min n (length xs) ≡ length xs
  length-drop n [] = omega arith
  length-drop zero (x ∷ xs) = omega arith
  length-drop (suc n) (x ∷ xs) = omega (arith, length-drop n xs)

  pub take-append-drop : (n : ℕ) (xs : List A) → take n xs ++ drop n xs ≡ xs
  take-append-drop n [] = refl
  take-append-drop zero (x ∷ xs) = refl
  take-append-drop (suc n) (x ∷ xs) = ap (◌∷◌ x) (take-append-drop n xs)

  pub drop-append : (n : ℕ) (xs ys : List A) → n ≤ length xs → drop n (xs ++ ys) ≡ (drop n xs ++ ys)
  drop-append n [] ys h = rw (drop_zero n h) (drop_none ys)
    where
      drop_zero : (n : ℕ) → n ≤ 0 → n ≡ 0
      drop_zero n h = omega (arith, h)

      drop_none : (zs : List A) → drop 0 zs ≡ zs
      drop_none [] = refl
      drop_none (z ∷ zs) = refl
  drop-append zero (x ∷ xs) ys h = refl
  drop-append (suc n) (x ∷ xs) ys h = drop-append n xs ys (omega (arith, h))

  pub drop-drop : (m n : ℕ) (xs : List A) → drop m (drop n xs) ≡ drop (n + m) xs
  drop-drop m n [] = refl
  drop-drop m zero (x ∷ xs) = ap (λ k. drop k (x ∷ xs)) (omega arith)
  drop-drop m (suc n) (x ∷ xs) = drop-drop m n xs ∙ sym (ap (λ k. drop k (x ∷ xs)) (suc_add n m))

  -- the last `n` entries, or all
  abbrev pub last : ℕ → List A → List A
  last n xs = drop (length xs - n) xs

  pub length-last : (n : ℕ) (xs : List A) → length (last n xs) ≡ min n (length xs)
  length-last n xs = omega (arith, length-drop (length xs - n) xs)

  pub last_all : (n : ℕ) (xs : List A) → length xs ≤ n → last n xs ≡ xs
  last_all n [] h = refl
  last_all n (x ∷ xs) h =
      let none_over : suc (length xs) - n ≡ 0 = omega (arith, h) in
      ap (λ k. drop k (x ∷ xs)) none_over

  pub last-append : (n : ℕ) (xs ys : List A) → last n (last n xs ++ ys) ≡ last n (xs ++ ys)
  last-append n xs ys =
      let k = length xs - n in
      let total : k + (length (drop k (xs ++ ys)) - n) ≡ length (xs ++ ys) - n =
        omega (arith, length-drop k (xs ++ ys), length-append xs ys) in
      ap (last n) (sym (drop-append k xs ys (omega arith)))
      ∙ drop-drop (length (drop k (xs ++ ys)) - n) k (xs ++ ys)
      ∙ ap (λ m. drop m (xs ++ ys)) total

module _ {ℓ κ} {A : Type ℓ} (R : A → A → Type κ) where
  -- Every entry is related to all that follow it.
  abbrev pub IsOrdered : List A → Type κ
  IsOrdered [] = Unit
  IsOrdered (x ∷ xs) = All (R x) xs × IsOrdered xs

  module _ (trans : (x y z : A) → R x y → R y z → R x z) (le : A → A → Bool)
      (before : (x y : A) → le x y ≡ true → R x y)
      (behind : (x y : A) → le x y ≡ false → R y x) where
    All-insert_by :
        (P : A → Type κ) (x : A) (ys : List A) → P x → All P ys → All P (insert_by le x ys)
    unfolding insert_by
    All-insert_by P x [] p h = (p, tt)
    All-insert_by P x (y ∷ ys) p h = elim (Bool-cases (le x y)) [
      | inl e ↦ rw (e, insert_by) (p, h)
      | inr e ↦ rw (e, insert_by) (h.0, All-insert_by P x ys p h.1)
    ]

    insert_by-IsOrdered : (x : A) (ys : List A) → IsOrdered ys → IsOrdered (insert_by le x ys)
    unfolding insert_by
    insert_by-IsOrdered x [] h = (tt, tt)
    insert_by-IsOrdered x (y ∷ ys) h = elim (Bool-cases (le x y)) [
      | inl e ↦
          let r = before x y e in
          rw (e, insert_by) ((r, All-map (R y) (R x) ys (λ z s. trans x y z r s) h.0), h)
      | inr e ↦
          rw (e, insert_by)
            (All-insert_by (R y) x ys (behind x y e) h.0, insert_by-IsOrdered x ys h.1)
    ]

    pub sort_by-IsOrdered : (xs : List A) → IsOrdered (sort_by le xs)
    unfolding sort_by
    sort_by-IsOrdered [] = tt
    sort_by-IsOrdered (x ∷ xs) = insert_by-IsOrdered x (sort_by le xs) (sort_by-IsOrdered xs)

  pub IsOrdered-parts :
      (xs ys : List A) → IsOrdered (xs ++ ys) → IsOrdered xs × All (λ x. All (R x) ys) xs
  IsOrdered-parts [] ys h = (tt, tt)
  IsOrdered-parts (x ∷ xs) ys h =
      let (ordered, across) = IsOrdered-parts xs ys h.1 in
      let (near, far) = All-parts (R x) xs ys h.0 in ((near, ordered), (far, across))
    where
      All-parts : (P : A → Type κ) (us vs : List A) → All P (us ++ vs) → All P us × All P vs
      All-parts P [] vs k = (tt, k)
      All-parts P (u ∷ us) vs k = let (a, b) = All-parts P us vs k.1 in ((k.0, a), b)
