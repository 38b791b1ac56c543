-- ===== src/Watchlist/Sync.antt =====
-- The watchlist, its table and the feeds stay together: watchlist/manager.py, watchlist/store.py and
-- ingestion/router.py.
use mathlib.Core.Option
use afterhours.Prelude.{
  String, ◌≡◌, refl, sym, ap, ◌∙◌, Bool, true, false, ◌⊎◌, inl, inr, Option, none, some, List, [],
  ◌∷◌, arith, str_eq, eq_iff, Bool-cases, All, if◌then◌else◌,
}
use afterhours.Prelude.Dict.{lookup, insert, erase, lookup-insert, lookup-erase}
use afterhours.Watchlist.{
  Watch, get_market, handle_added, handle_removed, add, remove, Change, added, removed, change,
  changes,
}
use afterhours.Watchlist.Routing.{
  IsHeld, handle_added-IsHeld, handle_removed-IsHeld, handle_added-frame, handle_removed-frame,
}

-- The instrument is on the list.
abbrev pub is_watched : Option String → Bool
is_watched none = false
is_watched (some _) = true

-- The components agree on instrument `k`, of which the market is `market`.
pub record IsRouted (market k : String) (w : Watch) : Type 0 where
  pub stored : lookup k w.table ≡ lookup k w.active
  pub listed : (lookup k w.active ≡ none) ⊎ (lookup k w.active ≡ some market)
  pub held : IsHeld market k (is_watched (lookup k w.active)) w

is_watched-if :
    (b : Bool) (m : String) (o : Option String)
    → (if b then true else is_watched o) ≡ is_watched (if b then some m else o)
is_watched-if true m o = refl
is_watched-if false m o = refl

is_watched-unless :
    (b : Bool) (o : Option String)
    → (if b then false else is_watched o) ≡ is_watched (if b then none else o)
is_watched-unless true o = refl
is_watched-unless false o = refl

false_not_true : false ≡ true → ⊥
false_not_true h = ground arith

module _ (market_of : String → String) (k : String) (named : str_eq k "" ≡ false) where
  same_market : (j : String) → str_eq j k ≡ true → market_of j ≡ market_of k
  same_market j e = ap market_of ((eq_iff j k).0 e)

  same_side :
      (j : String)
      → str_eq j k ≡ true
      → str_eq (market_of k) "equity" ≡ str_eq (market_of j) "equity"
  same_side j e = ap (λ m. str_eq m "equity") (sym (same_market j e))

  add-IsRouted :
      (j : String) (w : Watch)
      → IsRouted (market_of k) k w
      → IsRouted (market_of k) k (add j (market_of j) w)
  unfolding add
  add-IsRouted j w h =
      let m = market_of j in
      let w1 : Watch = record w { table = insert j m w.table; active = insert j m w.active } in
      let (rows, list) = handle_added-frame j m w1 in
      let now : lookup k (handle_added j m w1).active
          ≡ (if str_eq j k then some m else lookup k w.active) =
        ap (lookup k) list ∙ lookup-insert j k m w.active in
      record {
        stored =
            ap (lookup k) rows
            ∙ lookup-insert j k m w.table
            ∙ ap (λ (o : Option String). if str_eq j k then some m else o) h.stored
            ∙ sym now;
        listed = rw now (elim (Bool-cases (str_eq j k)) [
          | inl e ↦ inr (rw e (ap some (same_market j e)))
          | inr e ↦ rw e h.listed
        ]);
        held =
            rw (now, ← is_watched-if (str_eq j k) m (lookup k w.active))
              (handle_added-IsHeld (market_of k) m k j (is_watched (lookup k w.active))
                (same_side j) named w1 (record { kraken = h.held.kraken; equity = h.held.equity }));
      }

  -- The market that a removal reads is the instrument's, if it is on the list.
  market_read :
      (j : String) (w : Watch)
      → IsRouted (market_of k) k w
      → str_eq j k ≡ true
      → is_watched (lookup k w.active) ≡ true
      → str_eq (market_of k) "equity" ≡ str_eq (get_market j w) "equity"
  unfolding get_market
  market_read j w h e on =
      let there : lookup k w.active ≡ some (market_of k) = elim h.listed [
        | inl gone ↦ absurd (false_not_true (sym (ap is_watched gone) ∙ on))
        | inr at ↦ at
      ] in
      ap (λ o. str_eq (Option.get_or o "crypto") "equity")
        (sym there ∙ ap (λ i. lookup i w.active) (sym ((eq_iff j k).0 e)))

  remove-IsRouted :
      (j : String) (w : Watch) → IsRouted (market_of k) k w → IsRouted (market_of k) k (remove j w)
  unfolding remove
  remove-IsRouted j w h =
      let m = get_market j w in
      let w1 : Watch = record w { table = erase j w.table; active = erase j w.active } in
      let (rows, list) = handle_removed-frame j m w1 in
      let now : lookup k (handle_removed j m w1).active
          ≡ (if str_eq j k then none else lookup k w.active) =
        ap (lookup k) list ∙ lookup-erase j k w.active in
      record {
        stored =
            ap (lookup k) rows
            ∙ lookup-erase j k w.table
            ∙ ap (λ (o : Option String). if str_eq j k then none else o) h.stored
            ∙ sym now;
        listed =
            rw now
              (elim (Bool-cases (str_eq j k)) [ inl e ↦ inl (rw e refl) | inr e ↦ rw e h.listed ]);
        held =
            rw (now, ← is_watched-unless (str_eq j k) (lookup k w.active))
              (handle_removed-IsHeld (market_of k) m k j (is_watched (lookup k w.active))
                (market_read j w h) named w1
                (record { kraken = h.held.kraken; equity = h.held.equity }));
      }

-- The additions are made in the markets of their instruments.
abbrev pub IsListed : (String → String) → Change → Type 0
IsListed market_of (added instrument market) = market ≡ market_of instrument
IsListed market_of (removed instrument) = Unit

-- Where every instrument is added in its own market, the table, the list and the feeds agree on
-- every named instrument after any changes if they did before: it is stored as it is listed, and
-- held by the feed of its market, where that feed exists, exactly while it is on the list.
pub changes-IsRouted :
    (market_of : String → String) (k : String) (cs : List Change) (w : Watch)
    → str_eq k "" ≡ false
    → All (IsListed market_of) cs
    → IsRouted (market_of k) k w
    → IsRouted (market_of k) k (changes cs w)
unfolding changes change
changes-IsRouted market_of k [] w named listed h = h
changes-IsRouted market_of k (added j m ∷ cs) w named (at, listed) h =
    changes-IsRouted market_of k cs (add j m w) named listed
      (rw at (add-IsRouted market_of k named j w h))
changes-IsRouted market_of k (removed j ∷ cs) w named (_, listed) h =
    changes-IsRouted market_of k cs (remove j w) named listed
      (remove-IsRouted market_of k named j w h)
