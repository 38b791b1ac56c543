-- ===== src/Watchlist/Starting.antt =====
-- ingestion/router.py: the start of the router puts the instruments of the list on their feeds.
use mathlib.Core.Option
use mathlib.Core.Path.{subst}
use afterhours.Prelude.{
  String, ◌≡◌, refl, sym, ap, ◌∙◌, Bool, true, false, ◌⊎◌, inl, inr, none, some, List, [], ◌∷◌,
  arith, str_eq, eq_iff, if_rule, if◌then◌else◌,
}
use afterhours.Prelude.Dict.{lookup, keys, contains-eq-lookup}
use afterhours.Prelude.Dict.Keys.{mem-keys}
use afterhours.Prelude.Texts.{mem}
use afterhours.Watchlist.{Watch, get_market, route_subscribe, subscribe_each, start_router}
use afterhours.Watchlist.Routing.{IsHeld, route_subscribe-IsHeld}
use afterhours.Watchlist.Sync.{is_watched, IsRouted}

route_subscribe-frame :
    (j m : String) (w : Watch)
    → ((route_subscribe j m w).table ≡ w.table) × ((route_subscribe j m w).active ≡ w.active)
unfolding route_subscribe
route_subscribe-frame j m w =
    if_rule (λ (r : Watch). (r.table ≡ w.table) × (r.active ≡ w.active)) (str_eq m "equity")
      (λ _. (refl, refl)) (λ _. (refl, refl))

module _ (market k : String) (named : str_eq k "" ≡ false) where
  -- The instrument is in its market, where it is on the list.
  abbrev IsListed : Watch → Type 0
  IsListed w = (lookup k w.active ≡ none) ⊎ (lookup k w.active ≡ some market)

  -- What the loop leaves: the rows, and the instrument on its feed where the loop came to it.
  record IsSubscribed (b : Bool) (w w' : Watch) : Type 0 where
    rows : w'.table ≡ w.table
    list : w'.active ≡ w.active
    held : IsHeld market k b w'

  subscribe_each-IsSubscribed :
      (js : List String) (b : Bool) (w : Watch)
      → (mem k js ≡ true → lookup k w.active ≡ some market)
      → IsHeld market k b w
      → IsSubscribed (if mem k js then true else b) w (subscribe_each js w)
  unfolding subscribe_each mem get_market
  subscribe_each-IsSubscribed [] b w at h = record { rows = refl; list = refl; held = h }
  subscribe_each-IsSubscribed (j ∷ js) b w at h =
      let m = get_market j w in
      let w1 = route_subscribe j m w in
      let (rows, list) = route_subscribe-frame j m w in
      let h1 = route_subscribe-IsHeld market m k j b (same j w at) named w h in
      let rest =
        subscribe_each-IsSubscribed js (if str_eq j k then true else b) w1
          (λ e. ap (lookup k) list ∙ at (ground (arith, e))) h1 in
      record {
        rows = rest.rows ∙ rows;
        list = rest.list ∙ list;
        held =
            subst (λ x. IsHeld market k x (subscribe_each js w1)) (reached (mem k js) (str_eq j k))
              rest.held;
      }
    where
      same :
          (j : String) (w : Watch)
          → ((if str_eq j k then true else mem k js) ≡ true → lookup k w.active ≡ some market)
          → str_eq j k ≡ true
          → str_eq market "equity" ≡ str_eq (get_market j w) "equity"
      same j w at e =
          ap (λ o. str_eq (Option.get_or o "crypto") "equity")
            (sym (ap (λ i. lookup i w.active) ((eq_iff j k).0 e) ∙ at (ground (arith, e))))

      reached :
          (later now : Bool)
          → (if later then true else if now then true else b)
            ≡ (if if now then true else later then true else b)
      reached later now = ground arith

  listed_here :
      (w : Watch) → IsListed w → mem k (keys w.active) ≡ true → lookup k w.active ≡ some market
  listed_here w (inl gone) e =
      absurd (ground (arith, e, mem-keys k w.active, contains-eq-lookup k w.active, gone))
  listed_here w (inr at) e = at

  -- Where the table and the list agree on a named instrument, which is listed in its market if at
  -- all, and the feeds hold nothing of it yet, the start of the router makes the feeds agree too.
  pub start_router-IsRouted :
      (w : Watch)
      → lookup k w.table ≡ lookup k w.active
      → IsListed w
      → IsHeld market k false w
      → IsRouted market k (start_router w)
  start_router-IsRouted w stored listed empty =
      let done = subscribe_each-IsSubscribed (keys w.active) false w (listed_here w listed) empty in
      let now = ap (lookup k) done.list in
      record {
        stored = ap (lookup k) done.rows ∙ stored ∙ sym now;
        listed = rw now listed;
        held =
            subst (λ x. IsHeld market k x (start_router w))
              (watched_now w ∙ sym (ap is_watched now)) done.held;
      }
    where
      watched_now :
          (w : Watch)
          → (if mem k (keys w.active) then true else false) ≡ is_watched (lookup k w.active)
      watched_now w = ground (arith, mem-keys k w.active, contains-eq-lookup k w.active)
