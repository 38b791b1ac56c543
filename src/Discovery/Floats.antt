-- ===== src/Discovery/Floats.antt =====
-- discovery/: the parts of Python that the scores use. The arithmetic of binary floats is a parameter.
use Prim.Native.String.{compare as compare_text}
use Prim.Native.Nat.{Ordering}
use afterhours.Prelude.{ℕ, zero, suc, String, Bool, true, false, List, [], ◌∷◌, if◌then◌else◌}

-- What is used of floats: the numbers m / 10^k, the test a < b, sums, differences, products,
-- quotients, the absolute value, 0.5 ** a, and the days between two times.
pub record Floats (F : Type 0) : Type 0 where
  pub literal : ℕ → ℕ → F
  pub lt : F → F → Bool
  pub add : F → F → F
  pub sub : F → F → F
  pub mul : F → F → F
  pub div : F → F → F
  pub neg : F → F
  pub abs : F → F
  pub half_to : F → F
  pub days_between : ℕ → ℕ → F

-- `list.sort(key=..., reverse=True)`, which is stable: `lt x y` where the key of x is smaller.
unfoldable pub insert_descending {ℓ} : {A : Type ℓ} → (A → A → Bool) → A → List A → List A
insert_descending lt x [] = x ∷ []
insert_descending lt x (y ∷ ys) =
    let rest = insert_descending lt x ys in if lt x y then y ∷ rest else x ∷ y ∷ ys

unfoldable pub sort_descending {ℓ} : {A : Type ℓ} → (A → A → Bool) → List A → List A
sort_descending lt [] = []
sort_descending lt (x ∷ xs) = insert_descending lt x (sort_descending lt xs)

-- `s < t`, by code points
abbrev pub text_lt : String → String → Bool
text_lt s t = elim (compare_text s t) [ Ordering.lt ↦ true | _ ↦ false ]

-- `sorted(names)`
unfoldable pub sort_names : List String → List String
sort_names names = sort_descending (λ s t. text_lt t s) names

-- `xs[:n]`
unfoldable pub take {ℓ} : {A : Type ℓ} → ℕ → List A → List A
take zero xs = []
take (suc n) [] = []
take (suc n) (x ∷ xs) = x ∷ take n xs

module _ {F : Type 0} (fl : Floats F) where
  -- `max(a, b)` and `min(a, b)`: the first, unless the second is beyond it
  abbrev pub max_float : F → F → F
  max_float a b = if fl.lt a b then b else a

  abbrev pub min_float : F → F → F
  min_float a b = if fl.lt b a then b else a

  abbrev pub zero_float : F
  zero_float = fl.literal 0 0

  abbrev pub one_float : F
  one_float = fl.literal 1 0

  -- `_clamp`, and `_clamp01`
  unfoldable pub clamp : F → F → F → F
  clamp x lo hi = max_float lo (min_float hi x)

  abbrev pub clamp01 : F → F
  clamp01 x = clamp x zero_float one_float
