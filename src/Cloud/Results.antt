-- ===== src/Cloud/Results.antt =====
-- Results that may be errors: when a chain of them succeeds, and what holds of what it gives.
use di_pecs.Base.{Bool, true, false, ◌&&◌, ◌≡◌, ap, ◌∙◌}
use di_pecs.Cloud.{Fallible, ok, err, then_try}

abbrev pub is_ok {ℓ} : {A : Type ℓ} → Fallible A → Bool
is_ok (ok a) = true
is_ok (err error) = false

abbrev pub OnOk {ℓ κ} : {A : Type ℓ} → (A → Type κ) → Fallible A → Type κ
OnOk P (ok a) = P a
OnOk P (err error) = Unit

module _ {ℓ κ} {A : Type ℓ} {B : Type κ} where
  pub is_ok-then_try :
      (r : Fallible A) (f : A → Fallible B) (a b : Bool)
      → is_ok r ≡ a
      → ((x : A) → is_ok (f x) ≡ b)
      → is_ok (then_try r f) ≡ (a && b)
  is_ok-then_try (ok x) f a b e h = h x ∙ ap (λ c. c && b) e
  is_ok-then_try (err error) f a b e h = ap (λ c. c && b) e

  -- the last step of a chain cannot fail
  pub is_ok-then_ok :
      (r : Fallible A) (f : A → Fallible B) (a : Bool)
      → is_ok r ≡ a
      → ((x : A) → is_ok (f x) ≡ true)
      → is_ok (then_try r f) ≡ a
  is_ok-then_ok (ok x) f a e h = h x ∙ e
  is_ok-then_ok (err error) f a e h = e

  pub OnOk-then_try {μ ν} :
      (P : A → Type μ) (Q : B → Type ν) (r : Fallible A) (f : A → Fallible B)
      → OnOk P r
      → ((a : A) → P a → OnOk Q (f a))
      → OnOk Q (then_try r f)
  OnOk-then_try P Q (ok a) f p h = h a p
  OnOk-then_try P Q (err error) f p h = tt

  -- where nothing need be known of the first result
  pub OnOk-then_any {ν} :
      (Q : B → Type ν) (r : Fallible A) (f : A → Fallible B)
      → ((a : A) → OnOk Q (f a))
      → OnOk Q (then_try r f)
  OnOk-then_any Q (ok a) f h = h a
  OnOk-then_any Q (err error) f h = tt

pub OnOk-map {ℓ κ μ} :
    {A : Type ℓ} (P : A → Type κ) (Q : A → Type μ) (r : Fallible A)
    → ((a : A) → P a → Q a)
    → OnOk P r
    → OnOk Q r
OnOk-map P Q (ok a) f h = f a h
OnOk-map P Q (err error) f h = tt
