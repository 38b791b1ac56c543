-- ===== src/Analytics/EquityCurve/Due.antt =====
-- analytics/equity_curve.py: the fills that are due on a day, and the marks that a replay forgets.
use afterhours.Prelude.{
  ℕ, zero, suc, ◌≤◌, ◌≡◌, refl, ap, true, List, [], ◌∷◌, ◌++◌, arith, All, leb, Option-cases, inl,
  inr, if_rule, if◌then◌else◌,
}
use afterhours.Prelude.Dict.{Dict, lookup, map_values}
use afterhours.Decimal.{Decimal}
use afterhours.Core.Events.{Fill}
use afterhours.Portfolio.Position.{Position}
use afterhours.Portfolio.Ledger.{Portfolio, apply_fill, rehydrate}
use afterhours.Portfolio.Ledger.Replay.{unmark, unmark_position}
use afterhours.Analytics.EquityCurve.{utc_day, mark_each, mark_all}

-- The fills in front whose day has come.
unfoldable pub due : ℕ → List (Fill × ℕ) → List (Fill × ℕ)
due day [] = []
due day ((f, time) ∷ fills) =
    let rest = due day fills in if leb (utc_day time) day then (f, time) ∷ rest else []

-- Consecutive days.
abbrev pub days_from : ℕ → ℕ → List ℕ
days_from zero day = []
days_from (suc n) day = day ∷ days_from n (suc day)

-- The fill is due on the day.
abbrev pub IsDue : ℕ → Fill × ℕ → Type 0
IsDue day fill = utc_day fill.1 ≤ day

unmark-mark_each :
    (prices : Dict Decimal) (ps : Dict Position)
    → map_values unmark_position (mark_each prices ps) ≡ map_values unmark_position ps
unfolding mark_each map_values
unmark-mark_each prices [] = refl
unmark-mark_each prices ((i, pos) ∷ ps) = elim (Option-cases (lookup i prices)) [
  | inl e ↦ rw e (ap (λ l. (i, unmark_position pos) ∷ l) (unmark-mark_each prices ps))
  | inr (price, e) ↦ rw e (ap (λ l. (i, unmark_position pos) ∷ l) (unmark-mark_each prices ps))
]

pub unmark-mark_all :
    (prices : Dict Decimal) (p : Portfolio) → unmark (mark_all prices p) ≡ unmark p
unfolding mark_all
unmark-mark_all prices p =
    ap (λ ps. record p { positions = ps; prices = [] }) (unmark-mark_each prices p.positions)

pub due-append :
    (day : ℕ) (xs ys : List (Fill × ℕ)) → All (IsDue day) xs → due day (xs ++ ys) ≡ xs ++ due day ys
unfolding due
due-append day [] ys h = refl
due-append day ((f, time) ∷ xs) ys (hx, h) =
    let e : leb (utc_day time) day ≡ true = ground (arith, hx) in
    rw e (ap (λ l. (f, time) ∷ l) (due-append day xs ys h))

pub due-IsDue : (day : ℕ) (xs : List (Fill × ℕ)) → All (IsDue day) (due day xs)
unfolding due
due-IsDue day [] = tt
due-IsDue day ((f, time) ∷ xs) =
    if_rule (All (IsDue day)) (leb (utc_day time) day) (λ e. (ground (arith, e), due-IsDue day xs))
      (λ _. tt)

pub rehydrate-append :
    (trading_day : ℕ → ℕ) (xs ys : List (Fill × ℕ)) (p : Portfolio)
    → rehydrate trading_day (xs ++ ys) p ≡ rehydrate trading_day ys (rehydrate trading_day xs p)
unfolding rehydrate
rehydrate-append trading_day [] ys p = refl
rehydrate-append trading_day ((f, time) ∷ xs) ys p =
    rehydrate-append trading_day xs ys (apply_fill trading_day f time p)
