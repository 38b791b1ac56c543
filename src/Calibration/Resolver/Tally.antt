-- ===== src/Calibration/Resolver/Tally.antt =====
-- calibration/resolver.py: how often a decision is resolved, against how often it was proposed.
pub mod Runs
use afterhours.Prelude.{
  ℕ, ◌+◌, ◌≤◌, String, ◌≡◌, refl, sym, ap, ◌∙◌, Bool, true, false, not, ◌&&◌, ◌||◌, Option, none,
  some, List, [], ◌∷◌, ◌++◌, map, arith, str_eq, eq_iff, Bool-cases, inl, inr, if_rule, option_rule,
  if◌then◌else◌,
}
use afterhours.Prelude.Dict.{
  Dict, lookup, contains, insert, erase, adjust, map_values, keys, contains-adjust,
}
use afterhours.Prelude.Dict.Keys.{
  mem-keys, count, count-append, count-absent, contains-insert, contains-erase_if, keys-map_values,
}
use afterhours.Prelude.Texts.{mem, IsDistinct}
use afterhours.Decimal.{Decimal, sub, div, is_zero}
use afterhours.Core.Mode.{AutonomyMode}
use afterhours.Core.Events.{
  Decision, Tick, Envelope, Event, Raw, number, market_tick, decision_proposed, decision_approved,
  thesis_invalidated, parse_side,
}
use afterhours.Calibration.{CalibrationSettings}
use afterhours.Calibration.Resolver.{
  Pending, Resolution, Resolver, Why, thesis_lost, fate, is_from, new_resolver, tracked,
  add_pending, stop_of, with_stop, handle_approved, resolve, enter_at, drop_each, resolve_each,
  to_drop, to_resolve, tick_at, handle_tick, invalidate, invalidate_each, matching,
  handle_thesis_invalidated,
}
use afterhours.Calibration.Resolver.Runs.{handle, run}
use afterhours.Calibration.Resolver.Keyed.{
  id_of, resolved_ids, IsKeyed, IsKeyed-handle, IsKeyed-new, pending-tick_at,
  pending-invalidate_each,
}
use afterhours.Calibration.Resolver.Settled.{
  closes, selected, count-selected, to_resolve-selected, matching-selected,
}

abbrev pub one_if : Bool → ℕ
one_if b = if b then 1 else 0

abbrev published : Resolution → String
published x = x.decision_id

-- How often decision `k` was resolved.
abbrev pub resolutions : String → List Resolution → ℕ
resolutions k xs = count k (map published xs)

-- How often it was resolved, and once more if it still is to be.
abbrev pub tally : String → Resolver → ℕ
tally k r = resolutions k r.resolved + one_if (contains k r.pending)

resolutions-append :
    (k : String) (xs : List Resolution) (x : Resolution)
    → resolutions k (xs ++ x ∷ []) ≡ resolutions k xs + one_if (str_eq x.decision_id k)
resolutions-append k [] x = omega arith
resolutions-append k (y ∷ xs) x = omega (arith, resolutions-append k xs x)

-- The second state has resolved decision `k` as often as the first and `n` times more, at most.
abbrev IsWithin : String → ℕ → Resolver → Resolver → Type 0
IsWithin k n r r' = resolutions k r'.resolved ≤ resolutions k r.resolved + n

IsWithin-resolve :
    (k : String) (p : Pending) (price : Decimal) (now : ℕ) (why : Why) (r : Resolver)
    → IsWithin k (one_if (str_eq p.decision_id k)) r (resolve p price now why r)
unfolding resolve
IsWithin-resolve k p price now why r =
    let P = IsWithin k (one_if (str_eq p.decision_id k)) r in
    option_rule P p.entry_price (λ _. omega arith)
      (λ entry _.
        if_rule P (is_zero entry) (λ _. omega arith)
          (λ _.
            option_rule P (div (sub price entry) entry) (λ _. omega arith)
              (λ q _. omega (arith, resolutions-append k r.resolved _))))

IsWithin-resolve_each :
    (k : String) (ps : List (Pending × Why)) (price : Decimal) (now : ℕ) (r : Resolver)
    → IsWithin k (count k (resolved_ids ps)) r (resolve_each ps price now r)
unfolding resolve_each
IsWithin-resolve_each k [] price now r = omega arith
IsWithin-resolve_each k ((p, why) ∷ ps) price now r = omega (
  arith,
  IsWithin-resolve k p price now why r,
  IsWithin-resolve_each k ps price now (resolve p price now why r),
)

IsWithin-invalidate :
    (k : String) (p : Pending) (now : ℕ) (r : Resolver)
    → IsWithin k (one_if (str_eq p.decision_id k)) r (invalidate p now r)
unfolding invalidate
IsWithin-invalidate k p now r =
    let P = IsWithin k (one_if (str_eq p.decision_id k)) r in
    option_rule P p.entry_price (λ _. omega arith)
      (λ entry _.
        option_rule P (lookup p.instrument r.last_price) (λ _. omega arith)
          (λ price _. IsWithin-resolve k p price now thesis_lost r))

IsWithin-invalidate_each :
    (k : String) (ps : List Pending) (now : ℕ) (r : Resolver)
    → IsWithin k (count k (map id_of ps)) r (invalidate_each ps now r)
unfolding invalidate_each
IsWithin-invalidate_each k [] now r = omega arith
IsWithin-invalidate_each k (p ∷ ps) now r =
    omega
      (arith, IsWithin-invalidate k p now r, IsWithin-invalidate_each k ps now (invalidate p now r))

-- A text is in a list without repetition once at most.
count-IsDistinct : (k : String) (ks : List String) → IsDistinct ks → count k ks ≤ one_if (mem k ks)
unfolding mem
count-IsDistinct k [] h = omega arith
count-IsDistinct k (j ∷ ks) (new, h) =
    ground (arith, eq_iff j k, count-IsDistinct k ks h, count-absent j ks new)

contains-drop_each :
    (k : String) (ids : List String) (d : Dict Pending)
    → contains k (drop_each ids d) ≡ (if mem k ids then false else contains k d)
unfolding drop_each mem
contains-drop_each k [] d = refl
contains-drop_each k (id ∷ ids) d =
    ground (arith, contains-drop_each k ids (erase id d), contains-erase_if id k d)

-- Decisions of a keyed table that are taken off it count once, and were there.
tally-selected :
    (k : String) (f : Pending → Bool) (d rest : Dict Pending)
    → IsKeyed d
    → one_if (contains k rest) ≤ one_if (contains k d)
    → count k (selected f d) + one_if (contains k (drop_each (selected f d) rest))
      ≤ one_if (contains k d)
tally-selected k f d rest h within =
    let listed = count-selected f k d h in
    let once = count-IsDistinct k (keys d) h.distinct in
    let there = mem-keys k d in
    let dropped = contains-drop_each k (selected f d) rest in
    elim (Bool-cases (mem k (selected f d))) [
      | inl e ↦ ground arith
      | inr e ↦ let none_of = count-absent k (selected f d) e in ground arith
    ]

contains-drop_each_le :
    (k : String) (ids : List String) (d : Dict Pending)
    → one_if (contains k (drop_each ids d)) ≤ one_if (contains k d)
contains-drop_each_le k ids d = ground (arith, contains-drop_each k ids d)

contains-map_values :
    (k : String) (f : Pending → Pending) (d : Dict Pending)
    → contains k (map_values f d) ≡ contains k d
contains-map_values k f d =
    sym (mem-keys k (map_values f d)) ∙ ap (mem k) (keys-map_values f d) ∙ mem-keys k d

pub tally-tick_at :
    (k instrument : String) (price : Decimal) (now : ℕ) (r : Resolver)
    → IsKeyed r.pending
    → tally k (tick_at instrument price now r) ≤ tally k r
unfolding tick_at
tally-tick_at k instrument price now r h =
    let entered = map_values (enter_at instrument price now) r.pending in
    let dropped = drop_each (to_drop instrument price now r.pending) entered in
    let marked = contains-map_values k (enter_at instrument price now) r.pending in
    let le = contains-drop_each_le k (to_drop instrument price now r.pending) entered in
    let same = to_resolve-selected instrument price now r.pending in
    let popped =
      ap (λ d. one_if (contains k d))
        (pending-tick_at instrument price now r ∙ ap (λ ids. drop_each ids dropped) same) in
    let counted = ap (count k) same in
    omega (
      arith,
      IsWithin-resolve_each k (to_resolve instrument price now r.pending) price now
          (record r { pending = dropped; last_price = insert instrument price r.last_price }),
      tally-selected k (λ p. closes (fate instrument price now p)) r.pending dropped h
          (omega (arith, le, ap one_if marked)),
    )

pub tally-thesis :
    (k thesis_id : String) (now : ℕ) (r : Resolver)
    → IsKeyed r.pending
    → tally k (invalidate_each (matching thesis_id r.pending) now r) ≤ tally k r
tally-thesis k thesis_id now r h =
    let same = matching-selected thesis_id r.pending in
    let popped =
      ap (λ d. one_if (contains k d))
        (pending-invalidate_each (matching thesis_id r.pending) now r
          ∙ ap (λ ids. drop_each ids r.pending) same) in
    let counted = ap (count k) same in
    omega (
      arith,
      IsWithin-invalidate_each k (matching thesis_id r.pending) now r,
      tally-selected k (is_from thesis_id) r.pending r.pending h (omega arith),
    )
