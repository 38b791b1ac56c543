-- ===== src/System/KillSwitch.antt =====
-- The kill switch: `ModeController.halt` of core/mode.py, and OBSERVE mode.
use afterhours.Prelude.{String, ◌≡◌, refl, ◌∙◌, sym, true, false, inl, inr, List, All}
use mathlib.Core.Bool.{false≢true}
use afterhours.Prelude.Dict.{contains}
use afterhours.Core.Mode.{observe, mode_eq}
use afterhours.Portfolio.Ledger.Count.{contains-apply_tick, contains-apply_close}
use afterhours.Desk.{Desk, Config, tell, publish_filled}
use afterhours.System.{Happening, run}
use afterhours.System.Moves.{
  Moves, here, chain, told, marked, remoded, requeued, deferred, spent, ordered, filled,
}
use afterhours.System.Moves.Runs.{IsAllowed, run_allowed-Moves}

-- Nothing was opened on the way from `d` to `e`, and `e` is in OBSERVE mode.
pub record IsLocked (d e : Desk) : Type 0 where
  pub mode : e.mode ≡ observe
  pub positions :
      (k : String)
      → contains k e.portfolio.positions ≡ true
      → contains k d.portfolio.positions ≡ true

Moves-IsLocked : {c : Config} {d e : Desk} → Moves c false d e → d.mode ≡ observe → IsLocked d e
unfolding tell publish_filled
Moves-IsLocked (here d) h = record { mode = h; positions = λ k m. m }
Moves-IsLocked (chain m n) h =
    let first = Moves-IsLocked m h in
    let second = Moves-IsLocked n first.mode in
    record { mode = second.mode; positions = λ k at. first.positions k (second.positions k at) }
Moves-IsLocked (told source time event d quiet) h = record { mode = h; positions = λ k m. m }
Moves-IsLocked (marked tick d) h = record {
  mode = h;
  positions = λ k m. sym (contains-apply_tick k tick d.portfolio) ∙ m;
}
Moves-IsLocked (remoded mode d (inl e)) h = absurd (false≢true e)
Moves-IsLocked (remoded mode d (inr e)) h = record { mode = e; positions = λ k m. m }
Moves-IsLocked (requeued pending d) h = record { mode = h; positions = λ k m. m }
Moves-IsLocked (deferred texts d) h = record { mode = h; positions = λ k m. m }
Moves-IsLocked (spent order d new) h = record { mode = h; positions = λ k m. m }
Moves-IsLocked (ordered order time d new) h = record { mode = h; positions = λ k m. m }
Moves-IsLocked {c} (filled order f time d new same (inl closing)) h = record {
  mode = h;
  positions = λ k m. contains-apply_close c.trading_day k f time d.portfolio closing m;
}
Moves-IsLocked (filled order f time d new same (inr (armed, _))) h =
    let e : mode_eq d.mode observe ≡ true = rw h refl in absurd (false≢true (sym armed ∙ e))

-- In OBSERVE mode, until the operator changes the mode, whatever happens, each event handled to its
-- end before the next, opens nothing: every instrument that is held afterwards was held before, and
-- the mode stays OBSERVE.
pub run-IsLocked :
    (c : Config) (hs : List Happening) (d : Desk)
    → d.mode ≡ observe
    → All (IsAllowed false) hs
    → IsLocked d (run c hs d)
run-IsLocked c hs d h allowed = Moves-IsLocked (run_allowed-Moves c false hs d allowed) h
