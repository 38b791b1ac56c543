-- ===== src/Reasoning/Invalidator/Restart.antt =====
-- reasoning/thesis/invalidator.py: what a restart restores from the store.
use afterhours.Prelude.{
  ℕ, ◌≤◌, length, String, ◌≡◌, ◌≢◌, refl, sym, ap, ◌∙◌, false, Option, none, some, List, [], ◌∷◌,
  ◌++◌, arith, str_eq, eq_iff, option_rule, if◌then◌else◌,
}
use afterhours.Prelude.Dict.{lookup, insert, keys, lookup-insert, lookup-erase}
use afterhours.Prelude.Dict.Keys.{Entries, Entries-insert, Entries-erase, IsDistinct-keys-insert}
use afterhours.Prelude.Texts.{mem, include, IsDistinct, mem-include, mem-append_one}
use afterhours.Reasoning.Invalidator.{
  Thesis, ThesisEvent, created, invalidated, Active, armed, expired, Invalidator, new_invalidator,
  expire, expire_each, expiry_sweep, Found, nothing_found, handle_thesis, publish_thesis, scan_one,
  scan, rearm, rehydrate_limit, rehydrate, Move, publish, sweep, step, run,
}
use afterhours.Core.Store.{last}
use afterhours.Core.Store.Recent.{last-all}
use afterhours.Reasoning.Invalidator.Endings.{
  endings, endings-created, endings-invalidated, lookup-rearm, Entries-lookup,
}

-- What the scan of the store leaves to track.
abbrev pub restored : Option Found → Option Active
restored none = none
restored (some found) = some (rearm found.ended found.begun [])

module _ (uuid : String → Option String) where
  -- The rest of a scan, where it has not failed.
  abbrev and_then : (Found → Option Found) → Option Found → Option Found
  and_then f none = none
  and_then f (some found) = f found

  scan-append_one :
      (es : List ThesisEvent) (e : ThesisEvent) (found : Found)
      → scan uuid (es ++ e ∷ []) found
        ≡ elim (scan uuid es found) [ none ↦ none | some found' ↦ scan_one uuid e found' ]
  unfolding scan
  scan-append_one [] e found = elim (scan_one uuid e found) as (λ o. and_then some o ≡ o) [
    | none ↦ refl
    | some f ↦ refl
  ]
  scan-append_one (x ∷ es) e found =
      elim (scan_one uuid x found)
        as (λ o.
          and_then (scan uuid (es ++ e ∷ [])) o
          ≡ and_then (scan_one uuid e) (and_then (scan uuid es) o)) [
            | none ↦ refl
            | some f ↦ scan-append_one es e f
          ]

  -- A text that the parser of ids reads as itself.
  abbrev IsId : String → Type 0
  IsId k = (uuid k ≡ some k) × (k ≢ "")

  -- The scan of the store finds what is tracked.
  record IsRestorable (i : Invalidator) : Type 0 where
    found : Found
    scanned : scan uuid i.log (record { ended = []; begun = [] }) ≡ some found
    ended : (k : String) → mem k found.ended ≡ mem k (endings i.log)
    agree :
        (k : String)
        → lookup k i.active ≡ (if mem k found.ended then none else lookup k found.begun)
    distinct : IsDistinct (keys found.begun)
    named : Entries (λ k v. IsId k) i.active

  IsRestorable-expire :
      (id : String) (now : ℕ) (i : Invalidator) → IsRestorable i → IsRestorable (expire id now i)
  unfolding expire scan_one
  IsRestorable-expire id now i h =
      option_rule IsRestorable (lookup id i.active) (λ _. h)
        λ v there.
          let (parsed, ne) = Entries-lookup (λ k v. IsId k) id i.active v h.named there in
          record {
            found = record { ended = include id h.found.ended; begun = h.found.begun };
            scanned =
                scan-append_one i.log (invalidated id v.1 now) (record { ended = []; begun = [] })
                ∙ scanned_here id v.1 h.found (scan uuid i.log _) h.scanned parsed ne;
            ended = λ k. ground (
              arith,
              h.ended k,
              mem-include k id h.found.ended,
              mem-append_one k id (endings i.log),
              ap (mem k) (endings-invalidated i.log id v.1 now),
            );
            agree = λ k.
                ground
                  (arith, h.agree k, lookup-erase id k i.active, mem-include k id h.found.ended);
            distinct = h.distinct;
            named = Entries-erase (λ k v. IsId k) id i.active h.named;
          }
    where
      scanned_here :
          (id instrument : String) (found : Found) (o : Option Found)
          → o ≡ some found
          → uuid id ≡ some id
          → id ≢ ""
          → elim o [ none ↦ none | some f ↦ scan_one uuid (invalidated id instrument now) f ]
            ≡ some (record { ended = include id found.ended; begun = found.begun })
      scanned_here id instrument found o e parsed ne =
          rw (e, scan_one, parsed) (ground (arith, eq_iff id ""))

  IsRestorable-expire_each :
      (ids : List String) (now : ℕ) (i : Invalidator)
      → IsRestorable i
      → IsRestorable (expire_each ids now i)
  unfolding expire_each
  IsRestorable-expire_each [] now i h = h
  IsRestorable-expire_each (id ∷ ids) now i h =
      IsRestorable-expire_each ids now (expire id now i) (IsRestorable-expire id now i h)

  -- The id of a new thesis is not empty, the parser reads it, as it does what it gives, and no
  -- thesis of that id has ended.
  pub record IsFresh (thesis : Thesis) (i : Invalidator) : Type 0 where
    pub id : String
    pub parsed : uuid thesis.id ≡ some id
    pub known : uuid id ≡ some id
    pub there : thesis.id ≢ ""
    pub given : id ≢ ""
    pub new : mem id (endings i.log) ≡ false

  IsRestorable-publish :
      (thesis : Thesis) (t : ℕ) (i : Invalidator)
      → IsFresh thesis i
      → IsRestorable i
      → IsRestorable (publish_thesis uuid thesis t i)
  unfolding publish_thesis handle_thesis scan_one
  IsRestorable-publish thesis t i new h =
      let there : str_eq thesis.id "" ≡ false = ground (arith, new.there, eq_iff thesis.id "") in
      let found : Found = record {
        ended = h.found.ended;
        begun = insert new.id (armed thesis t) h.found.begun;
      } in
      rw (there, new.parsed)
        record {
          found = found;
          scanned =
              scan-append_one i.log (created thesis t) (record { ended = []; begun = [] })
              ∙ rw (h.scanned, there, new.parsed) refl;
          ended = λ k. h.ended k ∙ sym (ap (mem k) (endings-created i.log thesis t));
          agree = λ k. ground (
            arith,
            new.new,
            h.agree k,
            h.ended new.id,
            eq_iff new.id k,
            lookup-insert new.id k (armed thesis t) i.active,
            lookup-insert new.id k (armed thesis t) h.found.begun,
          );
          distinct = IsDistinct-keys-insert new.id (armed thesis t) h.found.begun h.distinct;
          named =
              Entries-insert (λ k v. IsId k) new.id (armed thesis t) i.active (new.known, new.given)
                h.named;
        }

  -- Every thesis of the run is fresh when it is published.
  abbrev pub IsFreshRun : List Move → Invalidator → Type 0
  IsFreshRun [] i = Unit
  IsFreshRun (publish thesis t ∷ ms) i =
      IsFresh thesis i × IsFreshRun ms (step uuid (publish thesis t) i)
  IsFreshRun (sweep now ∷ ms) i = IsFreshRun ms (step uuid (sweep now) i)

  IsRestorable-run :
      (ms : List Move) (i : Invalidator)
      → IsFreshRun ms i
      → IsRestorable i
      → IsRestorable (run uuid ms i)
  unfolding run step expiry_sweep
  IsRestorable-run [] i new h = h
  IsRestorable-run (publish thesis t ∷ ms) i (fresh, new) h =
      IsRestorable-run ms (step uuid (publish thesis t) i) new
        (IsRestorable-publish thesis t i fresh h)
  IsRestorable-run (sweep now ∷ ms) i new h =
      IsRestorable-run ms (step uuid (sweep now) i) new
        (IsRestorable-expire_each (expired now i.active) now i h)

  IsRestorable-new : IsRestorable new_invalidator
  unfolding scan endings mem lookup
  IsRestorable-new = record {
    found = record { ended = []; begun = [] };
    scanned = refl;
    ended = λ k. refl;
    agree = λ k. refl;
    distinct = tt;
    named = tt;
  }

  -- A store that the query does not cut.
  pub rehydrate-short :
      (log : List ThesisEvent)
      → length log ≤ rehydrate_limit
      → rehydrate uuid log [] ≡ restored (scan uuid log nothing_found)
  unfolding rehydrate
  rehydrate-short log short =
      as_restored (last rehydrate_limit log)
      ∙ ap (λ l. restored (scan uuid l nothing_found)) (last-all rehydrate_limit log short)
    where
      as_restored :
          (l : List ThesisEvent)
          → elim (scan uuid l nothing_found) as (λ _. Option Active) [
            | none ↦ none
            | some found ↦ some (rearm found.ended found.begun [])
          ]
            ≡ restored (scan uuid l nothing_found)
      as_restored l =
          elim (scan uuid l nothing_found)
            as (λ o.
              elim o as (λ _. Option Active) [
                | none ↦ none
                | some found ↦ some (rearm found.ended found.begun [])
              ]
              ≡ restored o) [ none ↦ refl | some found ↦ refl ]

  rehydrate-IsRestorable :
      (i : Invalidator)
      → IsRestorable i
      → length i.log ≤ rehydrate_limit
      → (active : Active) × (rehydrate uuid i.log [] ≡ some active)
        × ((k : String) → lookup k active ≡ lookup k i.active)
  unfolding rehydrate lookup
  rehydrate-IsRestorable i h short = (
    rearm h.found.ended h.found.begun [],
    rehydrate-short i.log short ∙ ap restored h.scanned,
    λ k. ground (arith, lookup-rearm k h.found.ended h.found.begun [] h.distinct, h.agree k),
  )

  -- After any run in which every published thesis is fresh, and which leaves no more events of
  -- theses in the store than the query of the restart reads, the restart ends without a fault, and
  -- tracks every thesis as the process did that ended: the same ones, with their times and
  -- instruments.
  pub rehydrate-run :
      (ms : List Move)
      → IsFreshRun ms new_invalidator
      → length (run uuid ms new_invalidator).log ≤ rehydrate_limit
      → (active : Active) × (rehydrate uuid (run uuid ms new_invalidator).log [] ≡ some active)
        × ((k : String) → lookup k active ≡ lookup k (run uuid ms new_invalidator).active)
  rehydrate-run ms new short =
      rehydrate-IsRestorable (run uuid ms new_invalidator)
        (IsRestorable-run ms new_invalidator new IsRestorable-new) short
