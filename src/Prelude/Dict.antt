-- ===== src/Prelude/Dict.antt =====
-- Python's `dict` keyed by texts, in insertion order.
pub mod Keys
use afterhours.Prelude.{
  Bool-cases, inl, inr, suc, ◌≤◌, String, ◌≡◌, refl, ap, Bool, true, false, Option, none, some,
  List, [], ◌∷◌, arith, str_eq, eq_iff, eq_refl, if◌then◌else◌, length,
}

abbrev pub Dict {ℓ} : Type ℓ → Type ℓ
Dict V = List (String × V)

module _ {ℓ} {V : Type ℓ} where
  -- `d.get(k)`
  unfoldable pub lookup : String → Dict V → Option V
  lookup k [] = none
  lookup k ((j, v) ∷ d) = if str_eq j k then some v else lookup k d

  -- `k in d`
  unfoldable pub contains : String → Dict V → Bool
  unfolding lookup
  contains k [] = false
  contains k ((j, v) ∷ d) = if str_eq j k then true else contains k d

  -- `d[k] = v`: a key that is there keeps its place.
  unfoldable pub insert : String → V → Dict V → Dict V
  insert k v [] = (k, v) ∷ []
  insert k v ((j, w) ∷ d) = if str_eq j k then (k, v) ∷ d else (j, w) ∷ insert k v d

  -- `d.pop(k, None)`, `del d[k]`
  unfoldable pub erase : String → Dict V → Dict V
  erase k [] = []
  erase k ((j, v) ∷ d) = let rest = erase k d in if str_eq j k then rest else (j, v) ∷ rest

  abbrev pub keys : Dict V → List String
  keys [] = []
  keys ((k, _) ∷ d) = k ∷ keys d

  abbrev pub values : Dict V → List V
  values [] = []
  values ((_, v) ∷ d) = v ∷ values d

  -- Change the value at `k`, if there is one.
  unfoldable pub adjust : String → (V → V) → Dict V → Dict V
  adjust k f [] = []
  adjust k f ((j, v) ∷ d) = (j, if str_eq j k then f v else v) ∷ adjust k f d

  pub lookup-insert :
      (k j : String) (v : V) (d : Dict V)
      → lookup j (insert k v d) ≡ (if str_eq k j then some v else lookup j d)
  unfolding lookup insert
  lookup-insert k j v [] = refl
  lookup-insert k j v ((i, w) ∷ d) =
      ground (arith, eq_iff k j, eq_iff i k, eq_iff i j, lookup-insert k j v d)

  pub lookup-erase :
      (k j : String) (d : Dict V) → lookup j (erase k d) ≡ (if str_eq k j then none else lookup j d)
  unfolding lookup erase
  lookup-erase k j [] = ground arith
  lookup-erase k j ((i, w) ∷ d) =
      ground (arith, eq_iff k j, eq_iff i k, eq_iff i j, lookup-erase k j d)

  pub lookup-adjust :
      (k j : String) (f : V → V) (d : Dict V)
      → lookup j (adjust k f d) ≡ (
          if str_eq k j
          then elim (lookup j d) [ none ↦ none | some v ↦ some (f v) ]
          else lookup j d)
  unfolding lookup adjust
  lookup-adjust k j f [] = ground arith
  lookup-adjust k j f ((i, w) ∷ d) =
      ground (arith, eq_iff k j, eq_iff i k, eq_iff i j, lookup-adjust k j f d)

  pub contains-eq-lookup :
      (k : String) (d : Dict V) → contains k d ≡ elim (lookup k d) [ none ↦ false | some _ ↦ true ]
  unfolding lookup contains
  contains-eq-lookup k [] = refl
  contains-eq-lookup k ((j, v) ∷ d) = ground (arith, contains-eq-lookup k d)

  -- To store what is there changes nothing.
  pub insert-lookup : (k : String) (v : V) (d : Dict V) → lookup k d ≡ some v → insert k v d ≡ d
  unfolding lookup insert
  insert-lookup k v [] h = absurd (none_not_some h)
    where
      none_not_some : none ≡ some v → ⊥
      none_not_some e = cc
  insert-lookup k v ((j, w) ∷ d) h = elim (Bool-cases (str_eq j k)) [
    | inl e ↦ ground (arith, e, eq_iff j k)
    | inr e ↦ rw e (ap (λ (r : Dict V). (j, w) ∷ r) (insert-lookup k v d (ground (arith, e))))
  ]

  -- A new key makes the dictionary one longer, and a known one leaves its length.
  pub length-insert :
      (k : String) (v : V) (d : Dict V)
      → length (insert k v d) ≡ (if contains k d then length d else suc (length d))
  unfolding insert contains
  length-insert k v [] = refl
  length-insert k v ((j, w) ∷ d) = ground (arith, length-insert k v d)

  pub length-erase : (k : String) (d : Dict V) → length (erase k d) ≤ length d
  unfolding erase
  length-erase k [] = omega arith
  length-erase k ((j, w) ∷ d) = ground (arith, length-erase k d)

  pub length-adjust : (k : String) (f : V → V) (d : Dict V) → length (adjust k f d) ≡ length d
  unfolding adjust
  length-adjust k f [] = refl
  length-adjust k f ((j, w) ∷ d) = ap suc (length-adjust k f d)

  pub contains-adjust :
      (k j : String) (f : V → V) (d : Dict V) → contains j (adjust k f d) ≡ contains j d
  unfolding contains adjust
  contains-adjust k j f [] = refl
  contains-adjust k j f ((i, w) ∷ d) = rw (contains-adjust k j f d)

  pub contains-erase :
      (k j : String) (d : Dict V) → contains j (erase k d) ≡ true → contains j d ≡ true
  unfolding contains erase
  contains-erase k j [] h = h
  contains-erase k j ((i, w) ∷ d) h = ground (arith, contains-erase k j d)

  pub lookup-erase_self : (k : String) (d : Dict V) → lookup k (erase k d) ≡ none
  lookup-erase_self k d = simp (lookup-erase, eq_refl)

  pub lookup-insert_self : (k : String) (v : V) (d : Dict V) → lookup k (insert k v d) ≡ some v
  lookup-insert_self k v d = simp (lookup-insert, eq_refl)

module _ {ℓ κ} {V : Type ℓ} {W : Type κ} (f : V → W) where
  -- Change every value.
  unfoldable pub map_values : Dict V → Dict W
  map_values [] = []
  map_values ((k, v) ∷ d) = (k, f v) ∷ map_values d

  pub map_values-insert :
      (k : String) (v : V) (d : Dict V) → map_values (insert k v d) ≡ insert k (f v) (map_values d)
  unfolding map_values insert
  map_values-insert k v [] = refl
  map_values-insert k v ((j, w) ∷ d) = elim (Bool-cases (str_eq j k)) [
    | inl e ↦ rw e
    | inr e ↦ rw (e, map_values-insert k v d)
  ]

  pub map_values-erase : (k : String) (d : Dict V) → map_values (erase k d) ≡ erase k (map_values d)
  unfolding map_values erase
  map_values-erase k [] = refl
  map_values-erase k ((j, w) ∷ d) = elim (Bool-cases (str_eq j k)) [
    | inl e ↦ rw (e, map_values-erase k d)
    | inr e ↦ rw (e, map_values-erase k d)
  ]

  pub lookup-map_values :
      (k : String) (d : Dict V)
      → lookup k (map_values d) ≡ elim (lookup k d) [ none ↦ none | some v ↦ some (f v) ]
  unfolding lookup map_values
  lookup-map_values k [] = refl
  lookup-map_values k ((j, w) ∷ d) = elim (Bool-cases (str_eq j k)) [
    | inl e ↦ rw e
    | inr e ↦ rw (e, lookup-map_values k d)
  ]

  -- A change that `f` does not see.
  pub map_values-adjust :
      (k : String) (g : V → V) (d : Dict V)
      → ((v : V) → f (g v) ≡ f v)
      → map_values (adjust k g d) ≡ map_values d
  unfolding map_values adjust
  map_values-adjust k g [] h = refl
  map_values-adjust k g ((j, w) ∷ d) h = elim (Bool-cases (str_eq j k)) [
    | inl e ↦ rw (e, h w, map_values-adjust k g d h)
    | inr e ↦ rw (e, map_values-adjust k g d h)
  ]

pub ruleset dict_laws =
    (lookup-insert, lookup-erase, lookup-adjust, lookup-erase_self, lookup-insert_self)
