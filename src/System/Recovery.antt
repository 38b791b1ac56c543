-- ===== src/System/Recovery.antt =====
-- A restart: the book that portfolio/ledger.py rebuilds from the stored fills against the live one.
use afterhours.Prelude.{Bool, ℕ, ◌≡◌, refl, sym, ap, ◌∙◌, List, [], ◌∷◌, ◌++◌, append-nil}
use afterhours.Core.Events.{Event, Envelope, Fill, order_filled}
use afterhours.Portfolio.Ledger.{Portfolio, new_portfolio, apply_fill, rehydrate}
use afterhours.Portfolio.Ledger.Replay.{unmark, unmark-apply_tick, unmark-apply_fill}
use afterhours.Desk.{Desk, Config, new_desk, tell, publish_filled}
use afterhours.System.{Happening, run}
use afterhours.System.Moves.{
  Moves, here, chain, told, marked, remoded, requeued, deferred, spent, ordered, filled, IsQuiet,
  ordered_desk,
}
use afterhours.System.Moves.Runs.{run-Moves}

abbrev cons_fill : Event → ℕ → List (Fill × ℕ) → List (Fill × ℕ)
cons_fill (order_filled f) time fills = (f, time) ∷ fills
cons_fill _ time fills = fills

-- The fills in a log, with their event times.
abbrev pub logged_fills : List Envelope → List (Fill × ℕ)
logged_fills [] = []
logged_fills (e ∷ es) = cons_fill e.event e.event_time (logged_fills es)

cons_fill-append :
    (e : Event) (time : ℕ) (xs ys : List (Fill × ℕ))
    → cons_fill e time (xs ++ ys) ≡ cons_fill e time xs ++ ys
cons_fill-append (order_filled _) time xs ys = refl
cons_fill-append _ time xs ys = refl

logged_fills-append :
    (es fs : List Envelope) → logged_fills (es ++ fs) ≡ logged_fills es ++ logged_fills fs
logged_fills-append [] fs = refl
logged_fills-append (e ∷ es) fs =
    rw (logged_fills-append es fs)
      (cons_fill-append e.event e.event_time (logged_fills es) (logged_fills fs))

quiet_fills : (e : Event) (time : ℕ) → IsQuiet e → cons_fill e time [] ≡ []
quiet_fills (order_filled _) time h = absurd h
quiet_fills _ time h = refl

rehydrate-append :
    (trading_day : ℕ → ℕ) (xs ys : List (Fill × ℕ)) (p : Portfolio)
    → rehydrate trading_day (xs ++ ys) p ≡ rehydrate trading_day ys (rehydrate trading_day xs p)
unfolding rehydrate
rehydrate-append trading_day [] ys p = refl
rehydrate-append trading_day ((f, time) ∷ xs) ys p =
    rehydrate-append trading_day xs ys (apply_fill trading_day f time p)

-- The replay of the fills in the log gives the book of the desk, but for its market marks.
abbrev IsRecoverable : Config → Portfolio → Desk → Type 0
IsRecoverable c base d =
    unmark d.portfolio ≡ unmark (rehydrate c.trading_day (logged_fills d.log) base)

-- An event that is no fill changes the replay of nothing.
same_fills-IsRecoverable :
    (c : Config) (base : Portfolio) (e : Envelope) (d : Desk)
    → cons_fill e.event e.event_time [] ≡ []
    → IsRecoverable c base d
    → IsRecoverable c base (record d { log = d.log ++ e ∷ [] })
same_fills-IsRecoverable c base e d no_fill h =
    let same : logged_fills (d.log ++ e ∷ []) ≡ logged_fills d.log =
      rw (logged_fills-append d.log (e ∷ []), no_fill) (append-nil _) in
    rw same h

filled-IsRecoverable :
    (c : Config) (base : Portfolio) (f : Fill) (time : ℕ) (d : Desk)
    → IsRecoverable c base d
    → IsRecoverable c base (publish_filled c time f d)
unfolding publish_filled rehydrate
filled-IsRecoverable c base f time d h =
    let td = c.trading_day in
    let e : Envelope = record {
      source = "paper_executor";
      event_time = time;
      event = order_filled f;
    } in
    rw
      (
        logged_fills-append d.log (e ∷ []),
        rehydrate-append td (logged_fills d.log) ((f, time) ∷ []) base,
      )
      (unmark-apply_fill td f time d.portfolio
        ∙ ap (apply_fill td f time) h
        ∙ sym (unmark-apply_fill td f time (rehydrate td (logged_fills d.log) base)))

module _ (c : Config) (base : Portfolio) where
  Moves-IsRecoverable :
      {free : Bool} {d e : Desk}
      → Moves c free d e
      → IsRecoverable c base d
      → IsRecoverable c base e
  unfolding tell
  Moves-IsRecoverable (here d) h = h
  Moves-IsRecoverable (chain m n) h = Moves-IsRecoverable n (Moves-IsRecoverable m h)
  Moves-IsRecoverable (told source time event d quiet) h =
      same_fills-IsRecoverable c base _ d (quiet_fills event time quiet) h
  Moves-IsRecoverable (marked tick d) h = unmark-apply_tick tick d.portfolio ∙ h
  Moves-IsRecoverable (remoded mode d _) h = h
  Moves-IsRecoverable (requeued pending d) h = h
  Moves-IsRecoverable (deferred texts d) h = h
  Moves-IsRecoverable (spent order d new) h = h
  Moves-IsRecoverable (ordered order time d new) h = same_fills-IsRecoverable c base _ d refl h
  Moves-IsRecoverable (filled order f time d new same _) h =
      filled-IsRecoverable c base f time (ordered_desk order time d)
        (same_fills-IsRecoverable c base _ d refl h)

-- After any run of a process, replaying the fills of its log in their order into a new book gives
-- the live book up to its market marks: the same cash, positions (but for their current price),
-- daily P&L, trading day, trades of the day and series of closes.
pub run-unmark-rehydrate :
    (c : Config) (hs : List Happening)
    → let d = run c hs (new_desk c) in
      unmark d.portfolio
      ≡ unmark (
          rehydrate c.trading_day
            (logged_fills d.log)
            (new_portfolio c.portfolio_settings.initial_cash))
unfolding new_desk rehydrate
run-unmark-rehydrate c hs =
    Moves-IsRecoverable c (new_portfolio c.portfolio_settings.initial_cash)
      (run-Moves c hs (new_desk c)) refl
