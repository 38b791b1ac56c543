-- ===== src/Discovery/Votes.antt =====
-- discovery/score.py: correlated votes of one factor count once.
use afterhours.Prelude.{
  ℕ, String, ◌≡◌, refl, sym, ap, ◌∙◌, Bool, true, false, some, List, [], ◌∷◌, ◌++◌, Bool-cases, inl,
  inr, str_eq-cases, if_rule,
}
use afterhours.Prelude.Dict.{Dict, lookup, lookup-insert, lookup-insert_self, insert-lookup}
use afterhours.Discovery.Floats.{Floats, max_float, zero_float}
use afterhours.Discovery.Scoring.{
  DiscoverySettings, Contribution, is_vote_of, weighted_at, strongest, raise_to, tally_one, tally,
  score_instrument,
}

-- The test a < b of floats that are numbers: a strict order in which any two are comparable, that
-- has zero below one.
pub record IsOrder {F : Type 0} (fl : Floats F) : Type 0 where
  pub asymm : (a b : F) → fl.lt a b ≡ true → fl.lt b a ≡ false
  pub trans : (a b c : F) → fl.lt b a ≡ false → fl.lt c b ≡ false → fl.lt c a ≡ false
  pub zero_lt_one : fl.lt (fl.literal 0 0) (fl.literal 1 0) ≡ true

pub lt_irrefl : {F : Type 0} (fl : Floats F) → IsOrder fl → (a : F) → fl.lt a a ≡ false
lt_irrefl fl o a = elim (Bool-cases (fl.lt a a)) [ inl e ↦ o.asymm a a e | inr e ↦ e ]

module _ {F : Type 0} (fl : Floats F) (o : IsOrder fl) where
  max_float-left : (a b v : F) → fl.lt a v ≡ false → fl.lt (max_float fl a b) v ≡ false
  max_float-left a b v h =
      if_rule (λ (r : F). fl.lt r v ≡ false) (fl.lt a b) (λ up. o.trans v a b h (o.asymm a b up))
        (λ _. h)

  max_float-right : (a b : F) → fl.lt (max_float fl a b) b ≡ false
  max_float-right a b =
      if_rule (λ (r : F). fl.lt r b ≡ false) (fl.lt a b) (λ _. lt_irrefl fl o b) (λ e. e)

  -- The bucket has the factor, and not below `v`.
  abbrev Reaches : String → F → Dict F → Type 0
  Reaches f v bucket = (m : F) × (lookup f bucket ≡ some m) × (fl.lt m v ≡ false)

  Reaches-raise_to :
      (f g : String) (v mag : F) (bucket : Dict F)
      → Reaches f v bucket
      → Reaches f v (raise_to fl g mag bucket)
  unfolding raise_to strongest
  Reaches-raise_to f g v mag bucket (m, at, le) = elim (str_eq-cases g f) [
    | inl (same, e) ↦ (
      max_float fl (strongest fl g bucket) mag,
      lookup-insert g f (max_float fl (strongest fl g bucket) mag) bucket ∙ (rw e),
      max_float-left (strongest fl g bucket) mag v (rw (same, strongest, at) le),
    )
    | inr (_, e) ↦
        (m, rw (lookup-insert g f (max_float fl (strongest fl g bucket) mag) bucket, e) at, le)
  ]

  Reaches-raised :
      (f : String) (mag : F) (bucket : Dict F) → Reaches f mag (raise_to fl f mag bucket)
  unfolding raise_to
  Reaches-raised f mag bucket = (
    max_float fl (strongest fl f bucket) mag,
    lookup-insert_self f (max_float fl (strongest fl f bucket) mag) bucket,
    max_float-right (strongest fl f bucket) mag,
  )

  -- A vote that is not stronger than its factor changes nothing.
  raise_to-reached :
      (f : String) (mag : F) (bucket : Dict F)
      → Reaches f mag bucket
      → raise_to fl f mag bucket ≡ bucket
  unfolding raise_to strongest
  raise_to-reached f mag bucket (m, at, le) = rw (strongest, at, le) (insert-lookup f m bucket at)

  module _ (settings : DiscoverySettings F) (now : ℕ) where
    abbrev votes_of : Bool → Contribution F → Bool
    votes_of bullish c = is_vote_of bullish (fl.lt (weighted_at fl settings now c) (zero_float fl))

    abbrev magnitude : Contribution F → F
    magnitude c = fl.abs (weighted_at fl settings now c)

    tally-append :
        (b : Bool) (xs ys : List (Contribution F)) (bucket : Dict F)
        → tally fl settings now b (xs ++ ys) bucket
          ≡ tally fl settings now b ys (tally fl settings now b xs bucket)
    unfolding tally
    tally-append b [] ys bucket = refl
    tally-append b (x ∷ xs) ys bucket = tally-append b xs ys (tally_one fl settings now b x bucket)

    Reaches-tally :
        (f : String) (v : F) (b : Bool) (xs : List (Contribution F)) (bucket : Dict F)
        → Reaches f v bucket
        → Reaches f v (tally fl settings now b xs bucket)
    unfolding tally tally_one
    Reaches-tally f v b [] bucket h = h
    Reaches-tally f v b (x ∷ xs) bucket h =
        Reaches-tally f v b xs (tally_one fl settings now b x bucket) (
          if_rule (Reaches f v) (votes_of b x)
            (λ _. Reaches-raise_to f x.factor v (magnitude x) bucket h) (λ _. h))

    -- After a vote, its factor has its magnitude, whatever votes follow.
    tally-reached :
        (b : Bool) (earlier between : List (Contribution F)) (c : Contribution F)
        → votes_of b c ≡ true
        → Reaches c.factor (magnitude c) (tally fl settings now b (earlier ++ c ∷ between) [])
    unfolding tally_one tally
    tally-reached b earlier between c h =
        rw (tally-append b earlier (c ∷ between) [], h)
          (Reaches-tally c.factor (magnitude c) b between _
            (Reaches-raised c.factor (magnitude c) (tally fl settings now b earlier [])))

    tally_one-reached :
        (b : Bool) (d : Contribution F) (bucket : Dict F)
        → (votes_of b d ≡ true → Reaches d.factor (magnitude d) bucket)
        → tally_one fl settings now b d bucket ≡ bucket
    unfolding tally_one
    tally_one-reached b d bucket h =
        if_rule (λ (r : Dict F). r ≡ bucket) (votes_of b d)
          (λ e. raise_to-reached d.factor (magnitude d) bucket (h e)) (λ _. refl)

    -- A weaker vote of the same sign and factor leaves both buckets.
    tally-correlated :
        (b : Bool) (earlier between later : List (Contribution F)) (c d : Contribution F)
        → c.factor ≡ d.factor
        → fl.lt (weighted_at fl settings now c) (zero_float fl)
          ≡ fl.lt (weighted_at fl settings now d) (zero_float fl)
        → fl.lt (magnitude c) (magnitude d) ≡ false
        → tally fl settings now b ((earlier ++ c ∷ between) ++ d ∷ later) []
          ≡ tally fl settings now b ((earlier ++ c ∷ between) ++ later) []
    unfolding tally
    tally-correlated b earlier between later c d same sign weaker =
        tally-append b (earlier ++ c ∷ between) (d ∷ later) []
        ∙ ap (tally fl settings now b later)
            (tally_one-reached b d (tally fl settings now b (earlier ++ c ∷ between) []) covered)
        ∙ sym (tally-append b (earlier ++ c ∷ between) later [])
      where
        covered :
            votes_of b d ≡ true
            → Reaches d.factor (magnitude d) (tally fl settings now b (earlier ++ c ∷ between) [])
        covered h =
            let (m, at, le) = tally-reached b earlier between c (ap (is_vote_of b) sign ∙ h) in
            (
              m,
              ap (λ f. lookup f (tally fl settings now b (earlier ++ c ∷ between) [])) (sym same)
                  ∙ at,
              o.trans (magnitude d) (magnitude c) m weaker le,
            )

-- Correlated evidence counts once: a vote that comes after another of its factor and sign, and is
-- not stronger, changes neither the score of the instrument nor its factors, whatever else is said
-- before, between or after.
pub score_instrument-correlated :
    {F : Type 0} (fl : Floats F)
    → IsOrder fl
    → (settings : DiscoverySettings F) (now : ℕ) (instrument : String)
    → (earlier between later : List (Contribution F)) (c d : Contribution F) → c.factor ≡ d.factor
    → fl.lt (weighted_at fl settings now c) (zero_float fl)
      ≡ fl.lt (weighted_at fl settings now d) (zero_float fl)
    → fl.lt (fl.abs (weighted_at fl settings now c)) (fl.abs (weighted_at fl settings now d))
      ≡ false
    → let told =
        score_instrument fl settings now instrument ((earlier ++ c ∷ between) ++ d ∷ later) in
      let plain = score_instrument fl settings now instrument ((earlier ++ c ∷ between) ++ later) in
      (told.score ≡ plain.score) × (told.factors ≡ plain.factors)
unfolding score_instrument
score_instrument-correlated fl o settings now instrument earlier between later c d same sign
      weaker =
    let bulls =
      tally-correlated fl o settings now true earlier between later c d same sign weaker in
    let bears =
      tally-correlated fl o settings now false earlier between later c d same sign weaker in
    (rw (bulls, bears) refl, rw bulls refl)
