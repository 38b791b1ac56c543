-- ===== src/System/Capped.antt =====
-- The limit of open positions: risk/engine.py with portfolio/executor.py and portfolio/ledger.py.
use afterhours.Prelude.{Bool, ◌≤◌, inl, inr, List, arith, length}
use afterhours.Portfolio.Ledger.Count.{length-apply_tick, length-apply_fill, length-apply_close}
use afterhours.Desk.{Desk, Config, tell, publish_filled}
use afterhours.System.{Happening, run}
use afterhours.System.Moves.{
  Moves, here, chain, told, marked, remoded, requeued, deferred, spent, ordered, filled,
}
use afterhours.System.Moves.Runs.{run-Moves}

abbrev pub IsCapped : Config → Desk → Type 0
IsCapped c d = length d.portfolio.positions ≤ c.risk_settings.max_open_positions

Moves-IsCapped :
    {c : Config} {free : Bool} {d e : Desk} → Moves c free d e → IsCapped c d → IsCapped c e
unfolding tell publish_filled
Moves-IsCapped (here d) h = h
Moves-IsCapped (chain m n) h = Moves-IsCapped n (Moves-IsCapped m h)
Moves-IsCapped (told source time event d quiet) h = h
Moves-IsCapped (marked tick d) h = omega (arith, length-apply_tick tick d.portfolio)
Moves-IsCapped (remoded mode d _) h = h
Moves-IsCapped (requeued pending d) h = h
Moves-IsCapped (deferred texts d) h = h
Moves-IsCapped (spent order d new) h = h
Moves-IsCapped (ordered order time d new) h = h
Moves-IsCapped {c} (filled order f time d new same (inl closing)) h =
    omega (arith, length-apply_close c.trading_day f time d.portfolio closing)
Moves-IsCapped {c} (filled order f time d new same (inr (armed, room))) h =
    omega (arith, length-apply_fill c.trading_day f time d.portfolio)

-- Whatever happens to a desk that holds no more positions than the risk settings allow, and in
-- whatever order, each event handled to its end before the next, it never holds more.
pub run-IsCapped :
    (c : Config) (hs : List Happening) (d : Desk)
    → length d.portfolio.positions ≤ c.risk_settings.max_open_positions
    → length (run c hs d).portfolio.positions ≤ c.risk_settings.max_open_positions
run-IsCapped c hs d h = Moves-IsCapped (run-Moves c hs d) h
