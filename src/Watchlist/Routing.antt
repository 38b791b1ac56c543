-- ===== src/Watchlist/Routing.antt =====
-- The feeds follow the watchlist: watchlist/manager.py with ingestion/router.py.
use mathlib.Core.Option
use afterhours.Prelude.{
  String, ◌≡◌, refl, Bool, true, false, not, ◌&&◌, Option, none, some, List, arith, str_eq, eq_iff,
  eq_refl, Bool-cases, inl, inr, if◌then◌else◌, if_rule,
}
use afterhours.Prelude.Texts.{mem, include, discard, mem-include, mem-discard}
use afterhours.Watchlist.{Watch, route_subscribe, route_unsubscribe, handle_added, handle_removed}

-- The market in which an instrument is watched, where it is.
abbrev pub watched_in : String → Option String → Bool
watched_in market none = false
watched_in market (some m) = str_eq m market

-- Membership in the set of a feed that may be missing.
abbrev pub mem_equity : String → Option (List String) → Bool
mem_equity k none = false
mem_equity k (some instruments) = mem k instruments

abbrev pub is_present : Option (List String) → Bool
is_present none = false
is_present (some _) = true

mem_equity-include :
    (k j : String) (o : Option (List String))
    → mem_equity k (Option.map (include j) o)
      ≡ (if str_eq j k then is_present o else mem_equity k o)
mem_equity-include k j none = ground arith
mem_equity-include k j (some instruments) = mem-include k j instruments

mem_equity-discard :
    (k j : String) (o : Option (List String))
    → mem_equity k (Option.map (discard j) o) ≡ (if str_eq j k then false else mem_equity k o)
mem_equity-discard k j none = ground arith
mem_equity-discard k j (some instruments) = mem-discard k j instruments

present-map :
    (f : List String → List String) (o : Option (List String))
    → is_present (Option.map f o) ≡ is_present o
present-map f none = refl
present-map f (some _) = refl

-- What the feeds should hold on `k`, of which the market is `market`, where it is watched or not.
pub record IsHeld (market k : String) (watched : Bool) (w : Watch) : Type 0 where
  pub kraken : mem k w.kraken ≡ (not (str_eq market "equity") && watched)
  pub equity : mem_equity k w.equity ≡ (is_present w.equity && str_eq market "equity" && watched)

unnamed : (k j : String) → str_eq k "" ≡ false → str_eq j "" ≡ true → str_eq j k ≡ false
unnamed k j named e = ground (arith, e, named, eq_iff j k, eq_iff j "", eq_refl k)

-- A subscription of `j`, on the side of its market.
module _ (market market_j k j : String) (b : Bool)
    (same : str_eq j k ≡ true → str_eq market "equity" ≡ str_eq market_j "equity")
    (named : str_eq k "" ≡ false) where
  pub route_subscribe-IsHeld :
      (w : Watch)
      → IsHeld market k b w
      → IsHeld market k (if str_eq j k then true else b) (route_subscribe j market_j w)
  unfolding route_subscribe
  route_subscribe-IsHeld w h = elim (Bool-cases (str_eq market_j "equity")) [
    | inl e ↦ record {
      kraken = rw (route_subscribe, e) (ground (arith, e, same, h.kraken));
      equity =
          rw (route_subscribe, e, mem_equity-include k j w.equity, present-map (include j) w.equity)
            (ground (arith, e, same, h.equity));
    }
    | inr e ↦ record {
      kraken =
          rw (route_subscribe, e, mem-include k j w.kraken) (ground (arith, e, same, h.kraken));
      equity = rw (route_subscribe, e) (ground (arith, e, same, h.equity));
    }
  ]

  pub handle_added-IsHeld :
      (w : Watch)
      → IsHeld market k b w
      → IsHeld market k (if str_eq j k then true else b) (handle_added j market_j w)
  unfolding handle_added
  handle_added-IsHeld w h = elim (Bool-cases (str_eq j "")) [
    | inl e ↦ rw (handle_added, e, unnamed k j named e) h
    | inr e ↦ rw (handle_added, e) (route_subscribe-IsHeld w h)
  ]

-- The end of a subscription of `j`, on the side of its market if it is watched.
module _ (market market_j k j : String) (b : Bool)
    (same : str_eq j k ≡ true → b ≡ true → str_eq market "equity" ≡ str_eq market_j "equity")
    (named : str_eq k "" ≡ false) where
  route_unsubscribe-IsHeld :
      (w : Watch)
      → IsHeld market k b w
      → IsHeld market k (if str_eq j k then false else b) (route_unsubscribe j market_j w)
  unfolding route_unsubscribe
  route_unsubscribe-IsHeld w h = elim (Bool-cases (str_eq market_j "equity")) [
    | inl e ↦ record {
      kraken = rw (route_unsubscribe, e) (ground (arith, e, same, h.kraken));
      equity =
          rw
            (
              route_unsubscribe,
              e,
              mem_equity-discard k j w.equity,
              present-map (discard j) w.equity,
            )
            (ground (arith, e, same, h.equity));
    }
    | inr e ↦ record {
      kraken =
          rw (route_unsubscribe, e, mem-discard k j w.kraken) (ground (arith, e, same, h.kraken));
      equity = rw (route_unsubscribe, e) (ground (arith, e, same, h.equity));
    }
  ]

  pub handle_removed-IsHeld :
      (w : Watch)
      → IsHeld market k b w
      → IsHeld market k (if str_eq j k then false else b) (handle_removed j market_j w)
  unfolding handle_removed
  handle_removed-IsHeld w h = elim (Bool-cases (str_eq j "")) [
    | inl e ↦ rw (handle_removed, e, unnamed k j named e) h
    | inr e ↦ rw (handle_removed, e) (route_unsubscribe-IsHeld w h)
  ]

pub handle_added-frame :
    (j m : String) (w : Watch)
    → ((handle_added j m w).table ≡ w.table) × ((handle_added j m w).active ≡ w.active)
unfolding handle_added route_subscribe
handle_added-frame j m w =
    if_rule (λ (r : Watch). (r.table ≡ w.table) × (r.active ≡ w.active)) (str_eq j "")
      (λ _. (refl, refl))
      (λ _.
        if_rule (λ (r : Watch). (r.table ≡ w.table) × (r.active ≡ w.active)) (str_eq m "equity")
          (λ _. (refl, refl)) (λ _. (refl, refl)))

pub handle_removed-frame :
    (j m : String) (w : Watch)
    → ((handle_removed j m w).table ≡ w.table) × ((handle_removed j m w).active ≡ w.active)
unfolding handle_removed route_unsubscribe
handle_removed-frame j m w =
    if_rule (λ (r : Watch). (r.table ≡ w.table) × (r.active ≡ w.active)) (str_eq j "")
      (λ _. (refl, refl))
      (λ _.
        if_rule (λ (r : Watch). (r.table ≡ w.table) × (r.active ≡ w.active)) (str_eq m "equity")
          (λ _. (refl, refl)) (λ _. (refl, refl)))
