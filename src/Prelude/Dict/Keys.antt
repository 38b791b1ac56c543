-- ===== src/Prelude/Dict/Keys.antt =====
-- The keys of a dictionary, and predicates on its entries.
use afterhours.Prelude.{
  ℕ, ◌+◌, String, ◌≡◌, refl, sym, ap, ◌∙◌, true, false, List, [], ◌∷◌, ◌++◌, arith, str_eq, eq_iff,
  Bool-cases, inl, inr, if_rule, if◌then◌else◌,
}
use afterhours.Prelude.Texts.{mem, include, discard, IsDistinct, mem-discard, IsDistinct-append_one}
use afterhours.Prelude.Dict.{Dict, contains, insert, erase, adjust, map_values, keys}

-- How often a text is listed.
abbrev pub count : String → List String → ℕ
count k [] = 0
count k (j ∷ ks) = (if str_eq j k then 1 else 0) + count k ks

pub count-append : (k : String) (xs ys : List String) → count k (xs ++ ys) ≡ count k xs + count k ys
count-append k [] ys = omega arith
count-append k (x ∷ xs) ys = omega (arith, count-append k xs ys)

pub count-absent : (k : String) (ks : List String) → mem k ks ≡ false → count k ks ≡ 0
unfolding mem
count-absent k [] h = refl
count-absent k (j ∷ ks) h = ground (arith, count-absent k ks)

IsDistinct-include : (k : String) (ks : List String) → IsDistinct ks → IsDistinct (include k ks)
unfolding include
IsDistinct-include k ks h =
    if_rule IsDistinct (mem k ks) (λ _. h) (λ e. IsDistinct-append_one k ks e h)

IsDistinct-discard : (k : String) (ks : List String) → IsDistinct ks → IsDistinct (discard k ks)
unfolding discard
IsDistinct-discard k [] h = tt
IsDistinct-discard k (j ∷ ks) (new, h) =
    if_rule IsDistinct (str_eq j k) (λ _. IsDistinct-discard k ks h)
      (λ _. (ground (arith, mem-discard j k ks), IsDistinct-discard k ks h))

module _ {ℓ} {V : Type ℓ} where
  pub mem-keys : (k : String) (d : Dict V) → mem k (keys d) ≡ contains k d
  unfolding mem contains
  mem-keys k [] = refl
  mem-keys k ((j, v) ∷ d) = ground (arith, mem-keys k d)

  pub keys-adjust : (k : String) (f : V → V) (d : Dict V) → keys (adjust k f d) ≡ keys d
  unfolding adjust
  keys-adjust k f [] = refl
  keys-adjust k f ((j, v) ∷ d) = ap (λ ks. j ∷ ks) (keys-adjust k f d)

  pub keys-erase : (k : String) (d : Dict V) → keys (erase k d) ≡ discard k (keys d)
  unfolding erase discard
  keys-erase k [] = refl
  keys-erase k ((j, v) ∷ d) = elim (Bool-cases (str_eq j k)) [
    | inl e ↦ rw e (keys-erase k d)
    | inr e ↦ rw e (ap (λ ks. j ∷ ks) (keys-erase k d))
  ]

  pub IsDistinct-keys-erase :
      (k : String) (d : Dict V) → IsDistinct (keys d) → IsDistinct (keys (erase k d))
  IsDistinct-keys-erase k d h = rw keys-erase (IsDistinct-discard k (keys d) h)

  keys-insert_known :
      (k : String) (v : V) (d : Dict V) → contains k d ≡ true → keys (insert k v d) ≡ keys d
  unfolding insert contains
  keys-insert_known k v [] h = absurd (ground (arith, h))
  keys-insert_known k v ((j, w) ∷ d) h = elim (Bool-cases (str_eq j k)) [
    | inl e ↦ rw e (ap (λ i. i ∷ keys d) (sym ((eq_iff j k).0 e)))
    | inr e ↦ rw e (ap (λ ks. j ∷ ks) (keys-insert_known k v d (ground (arith, e, h))))
  ]

  keys-insert_new :
      (k : String) (v : V) (d : Dict V)
      → contains k d ≡ false
      → keys (insert k v d) ≡ keys d ++ k ∷ []
  unfolding insert contains
  keys-insert_new k v [] h = refl
  keys-insert_new k v ((j, w) ∷ d) h = elim (Bool-cases (str_eq j k)) [
    | inl e ↦ absurd (ground (arith, e, h))
    | inr e ↦ rw e (ap (λ ks. j ∷ ks) (keys-insert_new k v d (ground (arith, e, h))))
  ]

  pub IsDistinct-keys-insert :
      (k : String) (v : V) (d : Dict V) → IsDistinct (keys d) → IsDistinct (keys (insert k v d))
  IsDistinct-keys-insert k v d h = elim (Bool-cases (contains k d)) [
    | inl e ↦ rw (keys-insert_known k v d e) h
    | inr e ↦ rw (keys-insert_new k v d e) (IsDistinct-append_one k (keys d) (mem-keys k d ∙ e) h)
  ]

  pub contains-insert :
      (k j : String) (v : V) (d : Dict V)
      → contains j (insert k v d) ≡ (if str_eq k j then true else contains j d)
  unfolding contains insert
  contains-insert k j v [] = refl
  contains-insert k j v ((i, w) ∷ d) =
      ground (arith, eq_iff k j, eq_iff i k, eq_iff i j, contains-insert k j v d)

  pub contains-erase_if :
      (k j : String) (d : Dict V)
      → contains j (erase k d) ≡ (if str_eq k j then false else contains j d)
  unfolding contains erase
  contains-erase_if k j [] = ground arith
  contains-erase_if k j ((i, w) ∷ d) =
      ground (arith, eq_iff k j, eq_iff i k, eq_iff i j, contains-erase_if k j d)

  -- A predicate on the entries.
  module _ {κ} (P : String → V → Type κ) where
    abbrev pub Entries : Dict V → Type κ
    Entries [] = Unit
    Entries ((k, v) ∷ d) = P k v × Entries d

    pub Entries-insert :
        (k : String) (v : V) (d : Dict V) → P k v → Entries d → Entries (insert k v d)
    unfolding insert
    Entries-insert k v [] hv h = (hv, tt)
    Entries-insert k v ((j, w) ∷ d) hv (hw, h) =
        if_rule Entries (str_eq j k) (λ _. (hv, h)) (λ _. (hw, Entries-insert k v d hv h))

    pub Entries-erase : (k : String) (d : Dict V) → Entries d → Entries (erase k d)
    unfolding erase
    Entries-erase k [] h = tt
    Entries-erase k ((j, w) ∷ d) (hw, h) =
        if_rule Entries (str_eq j k) (λ _. Entries-erase k d h) (λ _. (hw, Entries-erase k d h))

    pub Entries-adjust :
        (k : String) (f : V → V) (d : Dict V)
        → ((j : String) (v : V) → P j v → P j (f v))
        → Entries d
        → Entries (adjust k f d)
    unfolding adjust
    Entries-adjust k f [] keep h = tt
    Entries-adjust k f ((j, w) ∷ d) keep (hw, h) =
        (if_rule (P j) (str_eq j k) (λ _. keep j w hw) (λ _. hw), Entries-adjust k f d keep h)

    pub Entries-map_values :
        (f : V → V) (d : Dict V)
        → ((j : String) (v : V) → P j v → P j (f v))
        → Entries d
        → Entries (map_values f d)
    unfolding map_values
    Entries-map_values f [] keep h = tt
    Entries-map_values f ((j, w) ∷ d) keep (hw, h) = (keep j w hw, Entries-map_values f d keep h)

pub keys-map_values {ℓ κ} :
    {V : Type ℓ} {W : Type κ} (f : V → W) (d : Dict V) → keys (map_values f d) ≡ keys d
unfolding map_values
keys-map_values f [] = refl
keys-map_values f ((j, v) ∷ d) = ap (λ ks. j ∷ ks) (keys-map_values f d)
