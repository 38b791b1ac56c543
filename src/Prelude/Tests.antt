-- ===== src/Prelude/Tests.antt =====
-- Boolean tests on the native numbers, the conditional, and case splits that keep an equation.
use Prim.Native.Nat.{ℕ, ◌≤◌, compare, Ordering}
use Prim.Native.String.{String}
use mathlib.Core.Path.{◌≡◌, refl}
use mathlib.Core.Logic.{◌≢◌, ◌⊎◌, inl, inr}
use mathlib.Core.Bool.{Bool, true, false}
use mathlib.Core.Option.{Option, none, some}
use native.Mathlib.Omega.{arith}
use text.Mathlib.Text.{◌==◌ as str_eq}
use text.Mathlib.TextEquality.{eq_iff}

-- These compute to `compare`, which `ground` and `grind` read with no lemma listed.
abbrev pub ltb : ℕ → ℕ → Bool
ltb a b = elim (compare a b) [ Ordering.lt ↦ true | _ ↦ false ]

abbrev pub leb : ℕ → ℕ → Bool
leb a b = elim (compare a b) [ Ordering.gt ↦ false | _ ↦ true ]

infix 50 ◌==◌
abbrev pub ◌==◌ : ℕ → ℕ → Bool
a == b = elim (compare a b) [ Ordering.eq ↦ true | _ ↦ false ]

infix 1 if◌then◌else◌
abbrev pub if◌then◌else◌ {ℓ} : {A : Type ℓ} → Bool → A → A → A
if true then x else y = x
if false then x else y = y

pub leb→le : (a b : ℕ) → leb a b ≡ true → a ≤ b
leb→le a b h = ground arith

pub le→leb : (a b : ℕ) → a ≤ b → leb a b ≡ true
le→leb a b h = ground arith

-- To split on a computed value and keep the equation.
pub Bool-cases : (b : Bool) → (b ≡ true) ⊎ (b ≡ false)
Bool-cases true = inl refl
Bool-cases false = inr refl

pub Option-cases {ℓ} : {A : Type ℓ} (o : Option A) → (o ≡ none) ⊎ ((a : A) × (o ≡ some a))
Option-cases none = inl refl
Option-cases (some a) = inr (a, refl)

-- Two texts are equal or not, with the test's value in either case.
pub str_eq-cases :
    (s t : String) → ((s ≡ t) × (str_eq s t ≡ true)) ⊎ ((s ≢ t) × (str_eq s t ≡ false))
str_eq-cases s t = go (Bool-cases (str_eq s t))
  where
    go :
        (str_eq s t ≡ true) ⊎ (str_eq s t ≡ false)
        → ((s ≡ t) × (str_eq s t ≡ true)) ⊎ ((s ≢ t) × (str_eq s t ≡ false))
    go (inl e) = inl ((eq_iff s t).0 e, e)
    go (inr e) = inr (ground (arith, eq_iff s t), e)

-- A property of a branching value, by its branches, each with the outcome of the test.
pub if_rule {ℓ κ} :
    {B : Type ℓ} (P : B → Type κ) (b : Bool) {x y : B}
    → (b ≡ true → P x)
    → (b ≡ false → P y)
    → P (if b then x else y)
if_rule P true hx hy = hx refl
if_rule P false hx hy = hy refl

pub option_rule {ℓ κ ι} :
    {A : Type ℓ} {B : Type κ} (P : B → Type ι) (o : Option A) {n : B} {s : A → B}
    → (o ≡ none → P n)
    → ((a : A) → o ≡ some a → P (s a))
    → P (elim o [ none ↦ n | some a ↦ s a ])
option_rule P none hn hs = hn refl
option_rule P (some a) hn hs = hs a refl

-- Where a branching value has an outcome that one branch excludes, it took the other.
pub if_inv {ℓ} :
    {B : Type ℓ} (b : Bool) {x y z : B} → (if b then x else y) ≡ z → x ≢ z → (b ≡ false) × (y ≡ z)
if_inv true h ne = absurd (ne h)
if_inv false h ne = (refl, h)

pub option_inv {ℓ κ} :
    {A : Type ℓ} {B : Type κ} (o : Option A) {n : B} {s : A → B} {z : B}
    → elim o [ none ↦ n | some a ↦ s a ] ≡ z
    → n ≢ z
    → (a : A) × (o ≡ some a) × (s a ≡ z)
option_inv none h ne = absurd (ne h)
option_inv (some a) h ne = (a, refl, h)
