-- ===== src/Discovery/Groups.antt =====
-- discovery/score.py: the contributions of an instrument, and its one candidate.
use mathlib.Core.Path.{subst}
use afterhours.Prelude.{
  ℕ, String, ◌≡◌, refl, sym, ap, ◌∙◌, Bool, false, Option, none, some, List, [], ◌∷◌, ◌++◌,
  append-nil, append_assoc, arith, str_eq, inl, inr, str_eq-cases,
}
use afterhours.Prelude.Texts.{mem, IsDistinct}
use afterhours.Prelude.Dict.{Dict, lookup, keys, lookup-insert, lookup-insert_self}
use afterhours.Prelude.Dict.Keys.{IsDistinct-keys-insert}
use afterhours.Core.Store.{keep}
use afterhours.Discovery.Floats.{Floats}
use afterhours.Discovery.Scoring.{
  DiscoverySettings, Contribution, Candidate, score_instrument, score_each, items_of, group_one,
  group_each, scores_below, score_all,
}
use afterhours.Discovery.Ranking.{IsSingle, keep-sort_descending}

module _ {F : Type 0} where
  abbrev pub votes_for : String → Contribution F → Bool
  votes_for k c = str_eq c.instrument k

  abbrev pub is_named : String → Candidate F → Bool
  is_named k c = str_eq c.instrument k

  -- What a group holds after further votes.
  abbrev joined :
      Option (List (Contribution F)) → List (Contribution F) → Option (List (Contribution F))
  joined none [] = none
  joined none (v ∷ vs) = some (v ∷ vs)
  joined (some items) vs = some (items ++ vs)

  joined-none : (o : Option (List (Contribution F))) → joined o [] ≡ o
  joined-none none = refl
  joined-none (some items) = ap some (append-nil items)

  joined-append :
      (o : Option (List (Contribution F))) (c : Contribution F) (vs : List (Contribution F))
      → joined (some (elim o [ none ↦ [] | some items ↦ items ] ++ c ∷ [])) vs ≡ joined o (c ∷ vs)
  joined-append none c vs = refl
  joined-append (some items) c vs = ap some (append_assoc items (c ∷ []) vs)

  lookup-group_one_self :
      (c : Contribution F) (vs : List (Contribution F)) (groups : Dict (List (Contribution F)))
      → joined (lookup c.instrument (group_one c groups)) vs
        ≡ joined (lookup c.instrument groups) (c ∷ vs)
  unfolding group_one items_of
  lookup-group_one_self c vs groups =
      ap (λ o. joined o vs) (lookup-insert_self c.instrument _ groups)
      ∙ joined-append (lookup c.instrument groups) c vs

  lookup-group_one_other :
      (k : String) (c : Contribution F) (groups : Dict (List (Contribution F)))
      → str_eq c.instrument k ≡ false
      → lookup k (group_one c groups) ≡ lookup k groups
  unfolding group_one
  lookup-group_one_other k c groups h = lookup-insert c.instrument k _ groups ∙ (rw h refl)

  lookup-group_each :
      (k : String) (cs : List (Contribution F)) (groups : Dict (List (Contribution F)))
      → lookup k (group_each cs groups) ≡ joined (lookup k groups) (keep (votes_for k) cs)
  unfolding group_each keep
  lookup-group_each k [] groups = sym (joined-none (lookup k groups))
  lookup-group_each k (c ∷ cs) groups = elim (str_eq-cases c.instrument k) [
    | inl (same, e) ↦ rw e (
        lookup-group_each k cs (group_one c groups)
        ∙ subst
            (λ j.
              joined (lookup j (group_one c groups)) (keep (votes_for k) cs)
              ≡ joined (lookup j groups) (c ∷ keep (votes_for k) cs))
            same (lookup-group_one_self c (keep (votes_for k) cs) groups))
    | inr (_, e) ↦ rw e (
        lookup-group_each k cs (group_one c groups)
        ∙ ap (λ o. joined o (keep (votes_for k) cs)) (lookup-group_one_other k c groups e))
  ]

  IsDistinct-group_each :
      (cs : List (Contribution F)) (groups : Dict (List (Contribution F)))
      → IsDistinct (keys groups)
      → IsDistinct (keys (group_each cs groups))
  unfolding group_each group_one
  IsDistinct-group_each [] groups h = h
  IsDistinct-group_each (c ∷ cs) groups h =
      IsDistinct-group_each cs (group_one c groups)
        (IsDistinct-keys-insert c.instrument (items_of c.instrument groups ++ c ∷ []) groups h)

  module _ (fl : Floats F) (settings : DiscoverySettings F) (now : ℕ) where
    keep-score_each_absent :
        (k : String) (groups : Dict (List (Contribution F)))
        → mem k (keys groups) ≡ false
        → keep (is_named k) (score_each fl settings now groups) ≡ []
    unfolding score_each keep mem score_instrument
    keep-score_each_absent k [] h = refl
    keep-score_each_absent k ((j, items) ∷ groups) h =
        ground (arith, h, keep-score_each_absent k groups)

    -- The candidate of a group.
    abbrev candidate_of : String → Option (List (Contribution F)) → List (Candidate F)
    candidate_of k none = []
    candidate_of k (some items) = score_instrument fl settings now k items ∷ []

    keep-score_each :
        (k : String) (groups : Dict (List (Contribution F)))
        → IsDistinct (keys groups)
        → keep (is_named k) (score_each fl settings now groups) ≡ candidate_of k (lookup k groups)
    unfolding score_each keep lookup score_instrument
    keep-score_each k [] h = refl
    keep-score_each k ((j, items) ∷ groups) (new, h) = elim (str_eq-cases j k) [
      | inl (same, e) ↦ rw e (
          ap (λ (r : List (Candidate F)). score_instrument fl settings now j items ∷ r)
            (keep-score_each_absent k groups (ap (λ i. mem i (keys groups)) (sym same) ∙ new))
          ∙ ap (λ i. score_instrument fl settings now i items ∷ []) same)
      | inr (_, e) ↦ rw e (keep-score_each k groups h)
    ]

    IsSingle-score_each :
        (k : String) (groups : Dict (List (Contribution F)))
        → IsDistinct (keys groups)
        → IsSingle (scores_below fl) (is_named k) (score_each fl settings now groups)
    unfolding score_each score_instrument
    IsSingle-score_each k [] h = tt
    IsSingle-score_each k ((j, items) ∷ groups) (new, h) = (
      elim (str_eq-cases j k) [
        | inl (same, e) ↦
            inr (keep-score_each_absent k groups (ap (λ i. mem i (keys groups)) (sym same) ∙ new))
        | inr (_, e) ↦ inl e
      ],
      IsSingle-score_each k groups h,
    )

    -- The candidate that an instrument has by the votes for it: none where there is no vote.
    abbrev pub verdict : String → List (Contribution F) → List (Candidate F)
    verdict k [] = []
    verdict k (v ∷ vs) = score_instrument fl settings now k (v ∷ vs) ∷ []

    candidate_of-joined :
        (k : String) (vs : List (Contribution F)) → candidate_of k (joined none vs) ≡ verdict k vs
    candidate_of-joined k [] = refl
    candidate_of-joined k (v ∷ vs) = refl

    -- Every instrument that is voted for has one candidate, scored on all the votes for it in
    -- their order.
    pub keep-score_all :
        (k : String) (cs : List (Contribution F))
        → keep (is_named k) (score_all fl settings now cs) ≡ verdict k (keep (votes_for k) cs)
    unfolding score_all lookup
    keep-score_all k cs =
        keep-sort_descending (scores_below fl) (is_named k)
          (score_each fl settings now (group_each cs []))
          (IsSingle-score_each k (group_each cs []) (IsDistinct-group_each cs [] tt))
        ∙ keep-score_each k (group_each cs []) (IsDistinct-group_each cs [] tt)
        ∙ ap (candidate_of k) (lookup-group_each k cs [])
        ∙ candidate_of-joined k (keep (votes_for k) cs)
