-- ===== src/Reasoning/Invalidator/Endings.antt =====
-- reasoning/thesis/invalidator.py: the ended theses of a store, and what the rearming gives.
use afterhours.Prelude.{
  ℕ, String, ◌≡◌, refl, sym, ap, none, some, List, [], ◌∷◌, ◌++◌, arith, str_eq, eq_iff, Bool-cases,
  inl, inr, if◌then◌else◌,
}
use afterhours.Prelude.Dict.{lookup, insert, keys, lookup-insert, contains-eq-lookup}
use afterhours.Prelude.Dict.Keys.{Entries, mem-keys}
use afterhours.Prelude.Texts.{mem, IsDistinct}
use afterhours.Reasoning.Invalidator.{Thesis, ThesisEvent, created, invalidated, Active, rearm}

-- The ids of the theses that ended.
unfoldable pub endings : List ThesisEvent → List String
endings [] = []
endings (invalidated id _ _ ∷ es) = id ∷ endings es
endings (created _ _ ∷ es) = endings es

pub endings-created :
    (es : List ThesisEvent) (thesis : Thesis) (t : ℕ)
    → endings (es ++ created thesis t ∷ []) ≡ endings es
unfolding endings
endings-created [] thesis t = refl
endings-created (invalidated id i now ∷ es) thesis t =
    ap (λ l. id ∷ l) (endings-created es thesis t)
endings-created (created _ _ ∷ es) thesis t = endings-created es thesis t

pub endings-invalidated :
    (es : List ThesisEvent) (id instrument : String) (t : ℕ)
    → endings (es ++ invalidated id instrument t ∷ []) ≡ endings es ++ id ∷ []
unfolding endings
endings-invalidated [] id instrument t = refl
endings-invalidated (invalidated j i now ∷ es) id instrument t =
    ap (λ l. j ∷ l) (endings-invalidated es id instrument t)
endings-invalidated (created _ _ ∷ es) id instrument t = endings-invalidated es id instrument t

-- What is restored: the theses that have begun and not ended, over those that are tracked already.
pub lookup-rearm :
    (k : String) (ended : List String) (begun active : Active)
    → IsDistinct (keys begun)
    → lookup k (rearm ended begun active) ≡ elim (lookup k begun) [
      | none ↦ lookup k active
      | some v ↦ if mem k ended then lookup k active else some v
    ]
unfolding rearm lookup
lookup-rearm k ended [] active h = refl
lookup-rearm k ended ((id, v) ∷ begun) active (new, h) =
    let rest = lookup-rearm k ended begun (if mem id ended then active else insert id v active) h in
    let absent = contains-eq-lookup id begun in
    let listed = mem-keys id begun in ground (arith, eq_iff id k, lookup-insert id k v active)

pub Entries-lookup :
    (P : String → ℕ × String → Type 0) (k : String) (d : Active) (v : ℕ × String)
    → Entries P d
    → lookup k d ≡ some v
    → P k v
unfolding lookup
Entries-lookup P k [] v h e = absurd (ground (arith, e))
Entries-lookup P k ((j, w) ∷ d) v (hw, h) e = elim (Bool-cases (str_eq j k)) [
  | inl same ↦ transp_entry j w ((eq_iff j k).0 same) (ground (arith, e, same)) hw
  | inr other ↦ Entries-lookup P k d v h (ground (arith, e, other))
]
  where
    transp_entry : (j : String) (w : ℕ × String) → j ≡ k → w ≡ v → P j w → P k v
    transp_entry j w ej ew p = rw (sym ej, sym ew) p
