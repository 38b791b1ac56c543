-- ===== src/Prelude/Texts.antt =====
-- Sets of texts, as lists without repetition.
use afterhours.Prelude.{
  String, ◌≡◌, refl, Bool, true, false, List, [], ◌∷◌, ◌++◌, arith, str_eq, eq_iff, if◌then◌else◌,
}

-- `k in ks`
unfoldable pub mem : String → List String → Bool
mem k [] = false
mem k (j ∷ ks) = if str_eq j k then true else mem k ks

-- `ks.add(k)`
unfoldable pub include : String → List String → List String
include k ks = if mem k ks then ks else ks ++ k ∷ []

-- `ks.discard(k)`
unfoldable pub discard : String → List String → List String
discard k [] = []
discard k (j ∷ ks) = let rest = discard k ks in if str_eq j k then rest else j ∷ rest

-- No text is listed twice.
abbrev pub IsDistinct : List String → Type 0
IsDistinct [] = Unit
IsDistinct (k ∷ ks) = (mem k ks ≡ false) × IsDistinct ks

pub mem-append_one :
    (k j : String) (ks : List String)
    → mem k (ks ++ j ∷ []) ≡ (if str_eq j k then true else mem k ks)
unfolding mem
mem-append_one k j [] = refl
mem-append_one k j (i ∷ ks) = ground (arith, mem-append_one k j ks)

pub IsDistinct-append_one :
    (k : String) (ks : List String) → mem k ks ≡ false → IsDistinct ks → IsDistinct (ks ++ k ∷ [])
unfolding mem
IsDistinct-append_one k [] h hs = (refl, tt)
IsDistinct-append_one k (j ∷ ks) h hs =
    ground (arith, mem-append_one j k ks, eq_iff j k, eq_iff k j, IsDistinct-append_one k ks)

pub mem-include :
    (k j : String) (ks : List String)
    → mem k (include j ks) ≡ (if str_eq j k then true else mem k ks)
unfolding include
mem-include k j ks = ground (arith, mem-append_one k j ks, eq_iff j k)

pub mem-discard :
    (k j : String) (ks : List String)
    → mem k (discard j ks) ≡ (if str_eq j k then false else mem k ks)
unfolding mem discard
mem-discard k j [] = ground arith
mem-discard k j (i ∷ ks) = ground (arith, mem-discard k j ks, eq_iff j k, eq_iff i j, eq_iff i k)
