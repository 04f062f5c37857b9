-- ===== src/Base/Text.antt =====
-- Rust's `str` and `String` as the native text, with the tests that the program uses.
use Prim.Native.Nat.{ℕ, zero, suc, ◌+◌, ◌/◌, ◌%◌}
use Prim.Native.Char.{code}
use Prim.Native.String.{String, len, slice, ◌++◌}
use mathlib.Core.Path.{◌≡◌, refl}
use mathlib.Core.Bool.{Bool, true, false}
use mathlib.Core.List.{List, [], ◌∷◌}
use mathlib.Core.Option.{Option, none, some}
use di_pecs.Base.Tests.{ltb, if◌then◌else◌}
use di_pecs.Base.Lists.{any}
use text.Mathlib.Text.{find?}
pub use text.Mathlib.Text.{◌==◌ as str_eq, starts_with}
pub use text.Mathlib.TextEquality.{eq_iff}
pub use text.Mathlib.TextPositions.{eq_refl}

-- `s.is_empty()`
abbrev pub is_empty_str : String → Bool
is_empty_str s = str_eq s ""

-- `s.contains(t)` for a text `t`
pub contains : String → String → Bool
contains s t = elim (find? s t) [ none ↦ false | some _ ↦ true ]

-- `s.strip_prefix(p)`
unfoldable pub strip_prefix : String → String → Option String
strip_prefix s p = if starts_with s p then some (slice s (len p) (len s)) else none

-- `xs.contains(s)` on a vector, slice or set of texts
abbrev pub member : List String → String → Bool
member xs s = any (λ x. str_eq x s) xs

-- one text after another, as `format!` joins them
abbrev pub concat : String → String → String
concat s t = s ++ t

-- `s.chars()`, as code points
abbrev pub chars : String → List ℕ
chars String.[] = []
chars (String.◌∷◌ c s) = code c ∷ chars s

-- `{n}` of an unsigned integer: its decimal digits
abbrev pub digit : ℕ → String
digit d = get_or d ("0" ∷ "1" ∷ "2" ∷ "3" ∷ "4" ∷ "5" ∷ "6" ∷ "7" ∷ "8" ∷ "9" ∷ [])
  where
    get_or : ℕ → List String → String
    get_or n [] = ""
    get_or zero (s ∷ l) = s
    get_or (suc n) (s ∷ l) = get_or n l

-- a number has no more digits than its value and one
unfoldable pub digits_of : ℕ → ℕ → String
digits_of zero n = ""
digits_of (suc fuel) n =
    let front = digits_of fuel (n / 10) in
    if ltb n 10 then digit n else concat front (digit (n % 10))

unfoldable pub show : ℕ → String
unfolding digits_of
show n = digits_of (n + 1) n

show_2048 : show 2048 ≡ "2048"
unfolding show
show_2048 = refl
