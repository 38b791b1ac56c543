-- ===== src/Watchlist.antt =====
-- watchlist/manager.py with the table of watchlist/store.py, and ingestion/router.py with the sets of
-- instruments that the two market feeds hold. The table keeps instrument and market; its
-- `added_at` orders a listing only, and is left out, as are the messages to the exchanges.
pub mod Routing
pub mod Sync
pub mod Starting
use mathlib.Core.Option
use afterhours.Prelude.{
  String, Bool, true, false, Option, none, some, List, [], ◌∷◌, str_eq, if◌then◌else◌,
}
use afterhours.Prelude.Dict.{Dict, lookup, insert, erase, keys}
use afterhours.Prelude.Texts.{include, discard}

pub record Watch : Type 0 where
  -- the rows of the table `watchlist`
  pub table : Dict String
  -- `WatchlistManager._active`
  pub active : Dict String
  -- `KrakenFeed._active_instruments`, `EquityFeed._instruments`; the equity feed may be missing
  pub kraken : List String
  pub equity : Option (List String)

-- `SqliteWatchlistStore.add`, and the seeding of `WatchlistManager.start`
unfoldable pub seed : List String → String → Dict String → Dict String
seed [] market table = table
seed (instrument ∷ instruments) market table =
    seed instruments market (insert instrument market table)

-- `WatchlistManager.start`
unfoldable pub start : List String → String → Watch → Watch
start default_instruments default_market w = elim w.table [
  | [] ↦
      let table = seed default_instruments default_market [] in
      record w { table = table; active = table }
  | row ∷ rows ↦ record w { active = row ∷ rows }
]

-- `WatchlistManager.get_market`
unfoldable pub get_market : String → Watch → String
get_market instrument w = Option.get_or (lookup instrument w.active) "crypto"

-- `FeedRouter._route_subscribe`
unfoldable pub route_subscribe : String → String → Watch → Watch
route_subscribe instrument market w =
    if str_eq market "equity"
    then record w { equity = Option.map (include instrument) w.equity }
    else record w { kraken = include instrument w.kraken }

-- `FeedRouter._route_unsubscribe`
unfoldable pub route_unsubscribe : String → String → Watch → Watch
route_unsubscribe instrument market w =
    if str_eq market "equity"
    then record w { equity = Option.map (discard instrument) w.equity }
    else record w { kraken = discard instrument w.kraken }

-- `FeedRouter._handle_added`, `FeedRouter._handle_removed`
unfoldable pub handle_added : String → String → Watch → Watch
handle_added instrument market w =
    if str_eq instrument "" then w else route_subscribe instrument market w

unfoldable pub handle_removed : String → String → Watch → Watch
handle_removed instrument market w =
    if str_eq instrument "" then w else route_unsubscribe instrument market w

-- The loop of `FeedRouter.start` over the instruments of the list.
unfoldable pub subscribe_each : List String → Watch → Watch
subscribe_each [] w = w
subscribe_each (instrument ∷ instruments) w =
    subscribe_each instruments (route_subscribe instrument (get_market instrument w) w)

-- `FeedRouter.start`; the set of the instruments has no order, and this is the table's.
abbrev pub start_router : Watch → Watch
start_router w = subscribe_each (keys w.active) w

-- `WatchlistManager.add`, and the handler of the event that it publishes
unfoldable pub add : String → String → Watch → Watch
add instrument market w = handle_added instrument market (record w {
  table = insert instrument market w.table;
  active = insert instrument market w.active;
})

-- `WatchlistManager.remove`, likewise
unfoldable pub remove : String → Watch → Watch
remove instrument w =
    handle_removed instrument (get_market instrument w)
      (record w { table = erase instrument w.table; active = erase instrument w.active })

-- What an operator does with the watchlist.
pub data Change : Type 0 where
  added : String → String → Change
  removed : String → Change

unfoldable pub change : Change → Watch → Watch
change (added instrument market) w = add instrument market w
change (removed instrument) w = remove instrument w

unfoldable pub changes : List Change → Watch → Watch
changes [] w = w
changes (c ∷ cs) w = changes cs (change c w)
