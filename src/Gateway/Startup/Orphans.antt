-- ===== src/Gateway/Startup/Orphans.antt =====
-- gateway/app.py and reasoning/thesis/invalidator.py: the two agree on which theses are alive.
use mathlib.Core.Path.{subst}
use afterhours.Prelude.{
  ℕ, ◌≤◌, length, ◌+◌, ◌*◌, String, ◌≡◌, ◌≢◌, refl, sym, ap, ◌∙◌, Bool, true, false, Option, none,
  some, List, [], ◌∷◌, arith, str_eq, eq_iff, leb, All,
}
use afterhours.Prelude.Dict.{
  Dict, lookup, insert, map_values, keys, lookup-map_values, map_values-insert,
}
use afterhours.Prelude.Dict.Keys.{IsDistinct-keys-insert}
use afterhours.Prelude.Texts.{mem, include, IsDistinct}
use afterhours.Core.Events.{Decision}
use afterhours.Core.Store.{keep}
use afterhours.Core.Store.Recent.{last-all, length-keep}
use afterhours.Portfolio.Position.{Position}
use afterhours.Reasoning.Invalidator.{
  ThesisEvent, created, invalidated, Active, armed, Found, scan_one, scan, rearm, rehydrate,
}
use afterhours.Reasoning.Invalidator.Endings.{lookup-rearm}
use afterhours.Reasoning.Invalidator.Restart.{restored, rehydrate-short}
use afterhours.Gateway.Startup.{
  history_limit, is_created, is_invalidated, invalidated_tids, Horizons, horizon_by_tid, thesis_of,
  is_dead, orphans_among, orphans,
}

-- The end of a thesis by its horizon.
abbrev end_of : ℕ × ℕ → ℕ
end_of (created_at, hours) = created_at + hours * 3_600_000_000

abbrev expiry_of : ℕ × String → ℕ
expiry_of (expiry, _) = expiry

-- The thesis of a position is not tracked, or its time is over.
abbrev pub is_untracked : Active → ℕ → Option String → Bool
is_untracked active now none = true
is_untracked active now (some tid) = elim (lookup tid active) [
  | none ↦ true
  | some (expiry, _) ↦ leb expiry now
]

orphans_among-ext :
    (f g : Option String → Bool) (decision_store : Dict Decision) (positions : Dict Position)
    → ((o : Option String) → f o ≡ g o)
    → orphans_among f decision_store positions ≡ orphans_among g decision_store positions
unfolding orphans_among
orphans_among-ext f g decision_store [] e = refl
orphans_among-ext f g decision_store ((i, pos) ∷ positions) e =
    rw (e (thesis_of decision_store pos), orphans_among-ext f g decision_store positions e)

-- The queries by type leave what each loop reads.
invalidated_tids-keep :
    (es : List ThesisEvent) (tids : List String)
    → invalidated_tids (keep is_invalidated es) tids ≡ invalidated_tids es tids
unfolding invalidated_tids keep
invalidated_tids-keep [] tids = refl
invalidated_tids-keep (created _ _ ∷ es) tids = invalidated_tids-keep es tids
invalidated_tids-keep (invalidated id _ _ ∷ es) tids = invalidated_tids-keep es _

horizon_by_tid-keep :
    (es : List ThesisEvent) (horizons : Horizons)
    → horizon_by_tid (keep is_created es) horizons ≡ horizon_by_tid es horizons
unfolding horizon_by_tid keep
horizon_by_tid-keep [] horizons = refl
horizon_by_tid-keep (created thesis time ∷ es) horizons = horizon_by_tid-keep es _
horizon_by_tid-keep (invalidated _ _ _ ∷ es) horizons = horizon_by_tid-keep es horizons

-- A store that no query cuts.
orphans-short :
    (log : List ThesisEvent) (decision_store : Dict Decision) (now : ℕ) (positions : Dict Position)
    → length log ≤ history_limit
    → orphans log decision_store now positions
      ≡ orphans_among
          (is_dead (invalidated_tids log []) (horizon_by_tid log []) now)
          decision_store
          positions
unfolding orphans
orphans-short log decision_store now positions short =
    rw
      (
        last-all history_limit (keep is_created log) (omega (arith, length-keep is_created log)),
        last-all history_limit (keep is_invalidated log)
            (omega (arith, length-keep is_invalidated log)),
        invalidated_tids-keep,
        horizon_by_tid-keep,
      )
      refl

module _ (uuid : String → Option String) where
  -- The parser reads the text as itself.
  abbrev IsId : String → Type 0
  IsId k = (uuid k ≡ some k) × (k ≢ "")

  -- The ids of an event of the store are written as the parser writes them.
  abbrev pub IsCanonical : ThesisEvent → Type 0
  IsCanonical (created thesis _) = (uuid thesis.id ≡ some thesis.id) × (thesis.id ≢ "")
  IsCanonical (invalidated id _ _) = (uuid id ≡ some id) × (id ≢ "")

  -- What the invalidator found is what the reconciliation has.
  record IsSame (found : Found) (tids : List String) (horizons : Horizons) : Type 0 where
    ended : found.ended ≡ tids
    begun : map_values expiry_of found.begun ≡ map_values end_of horizons
    distinct : IsDistinct (keys found.begun)

  -- The scan ends, with what the reconciliation has.
  abbrev IsScanned : List ThesisEvent → List String → Horizons → Option Found → Type 0
  IsScanned es tids horizons o =
      (found : Found) × (o ≡ some found)
      × IsSame found (invalidated_tids es tids) (horizon_by_tid es horizons)

  abbrev next : List ThesisEvent → Option Found → Option Found
  next es none = none
  next es (some found) = scan uuid es found

  scan-IsScanned :
      (es : List ThesisEvent) (found : Found) (tids : List String) (horizons : Horizons)
      → All IsCanonical es
      → IsSame found tids horizons
      → IsScanned es tids horizons (scan uuid es found)
  unfolding scan scan_one invalidated_tids horizon_by_tid armed
  scan-IsScanned [] found tids horizons c h = (found, refl, h)
  scan-IsScanned (invalidated id instrument time ∷ es) found tids horizons ((parsed, ne), c) h =
      let there : str_eq id "" ≡ false = ground (arith, eq_iff id "", ne) in
      let found' : Found = record found { ended = include id found.ended } in
      let one : scan_one uuid (invalidated id instrument time) found ≡ some found' =
        rw (there, parsed) refl in
      rw there (
        subst (λ o. IsScanned es (include id tids) horizons (next es o)) (sym one)
          (scan-IsScanned es found' (include id tids) horizons c
            (record { ended = ap (include id) h.ended; begun = h.begun; distinct = h.distinct })))
  scan-IsScanned (created thesis time ∷ es) found tids horizons ((parsed, ne), c) h =
      let there : str_eq thesis.id "" ≡ false = ground (arith, eq_iff thesis.id "", ne) in
      let hours : ℕ = elim thesis.time_horizon_hours [ none ↦ 8 | some hours ↦ hours ] in
      let found' : Found = record found {
        begun = insert thesis.id (armed thesis time) found.begun;
      } in
      let horizons' : Horizons = insert thesis.id (time, hours) horizons in
      let one : scan_one uuid (created thesis time) found ≡ some found' = rw (there, parsed) refl in
      rw there (
        subst (λ o. IsScanned es tids horizons' (next es o)) (sym one)
          (scan-IsScanned es found' tids horizons' c (record {
            ended = h.ended;
            begun =
                map_values-insert expiry_of thesis.id (armed thesis time) found.begun
                ∙ ap (insert thesis.id (time + hours * 3_600_000_000)) h.begun
                ∙ sym (map_values-insert end_of thesis.id (time, hours) horizons);
            distinct = IsDistinct-keys-insert thesis.id (armed thesis time) found.begun h.distinct;
          })))

  is_dead-untracked :
      (found : Found) (tids : List String) (horizons : Horizons) (now : ℕ) (o : Option String)
      → IsSame found tids horizons
      → is_dead tids horizons now o ≡ is_untracked (rearm found.ended found.begun []) now o
  unfolding is_dead lookup
  is_dead-untracked found tids horizons now none h = refl
  is_dead-untracked found tids horizons now (some tid) h =
      let ended = ap (mem tid) h.ended in
      let begun = ap (lookup tid) h.begun in
      let of_begun = lookup-map_values expiry_of tid found.begun in
      let of_horizons = lookup-map_values end_of tid horizons in
      let armed_again = lookup-rearm tid found.ended found.begun [] h.distinct in ground arith

  -- Where the ids of the store are written as the parser writes them, and the store has no more
  -- events of theses than the queries read, a restart restores the tracked theses without a fault, and the positions that are closed as orphans are exactly those whose
  -- thesis is not among them, or is at its end.
  pub orphans-rehydrate :
      (log : List ThesisEvent) (decision_store : Dict Decision) (now : ℕ)
      (positions : Dict Position)
      → All IsCanonical log
      → length log ≤ history_limit
      → (active : Active) × (rehydrate uuid log [] ≡ some active)
        × (orphans log decision_store now positions
            ≡ orphans_among (is_untracked active now) decision_store positions)
  unfolding map_values
  orphans-rehydrate log decision_store now positions c short =
      let (found, scanned, same) =
        scan-IsScanned log (record { ended = []; begun = [] }) [] [] c
          (record { ended = refl; begun = refl; distinct = tt }) in
      (
        rearm found.ended found.begun [],
        rehydrate-short uuid log short ∙ ap restored scanned,
        orphans-short log decision_store now positions short
            ∙ orphans_among-ext _ _ decision_store positions (λ o.
              is_dead-untracked found (invalidated_tids log []) (horizon_by_tid log []) now o same),
      )
