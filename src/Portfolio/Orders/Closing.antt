-- ===== src/Portfolio/Orders/Closing.antt =====
-- What `close_position` of portfolio/executor.py does to the book.
use afterhours.Prelude.{
  ℕ, String, ◌≡◌, refl, Bool, true, false, ◌&&◌, none, some, arith, str_eq, option_rule,
  if◌then◌else◌, eq_iff, Bool-cases, inl, inr, ap, eq_refl,
}
use afterhours.Prelude.Dict.{lookup, lookup-erase}
use afterhours.Prelude.Texts.{mem}
use afterhours.Decimal.{Decimal, mul}
use afterhours.Core.Events.{closing}
use afterhours.Portfolio.Position.{Position}
use afterhours.Portfolio.Ledger.{
  Result, ok, err, value_error, Portfolio, read_fill, apply_fill, handle_fill, book, settle,
  rollover_if_new_day, ◌>>=◌, decimal_or_zero, decimal_if_given, current_price,
}
use afterhours.Portfolio.Ledger as Ledger
use afterhours.Portfolio.Ledger.Count.{positions-advance_to}
use afterhours.Portfolio.Orders.{
  Run, remember, close_position, close_at, close_submitted, close_fill, close_price, close_order,
  submit, truthy, make_client_order_id,
}
use afterhours.Desk.{Desk, Config, correlates, tell, publish_filled}

-- The ledger closes exactly the position that the executor's fill names.
publish_filled-close_fill :
    (c : Config) (pos : Position) (instrument : String) (price : Decimal) (now : ℕ) (d : Desk)
    → (publish_filled c now (close_fill c pos instrument price) d).portfolio
      ≡ (Ledger.close_position c.trading_day instrument
          (close_price c pos price)
          (mul (mul (close_price c pos price) pos.quantity) c.portfolio_settings.fee_pct)
          now
          d.portfolio).1
unfolding publish_filled close_fill apply_fill handle_fill read_fill book
publish_filled-close_fill c pos instrument price now d = refl

lookup-ledger_close :
    (trading_day : ℕ → ℕ) (k instrument : String) (fill_price fee : Decimal) (time : ℕ)
    → (p : Portfolio)
    → lookup k (Ledger.close_position trading_day instrument fill_price fee time p).1.positions
      ≡ (if str_eq instrument k then none else lookup k p.positions)
unfolding Ledger.close_position settle rollover_if_new_day
lookup-ledger_close trading_day k instrument fill_price fee time p =
    option_rule
      (λ (r : Decimal × Portfolio).
        lookup k r.1.positions ≡ (if str_eq instrument k then none else lookup k p.positions))
      (lookup instrument p.positions) (λ e. ground (arith, eq_iff instrument k))
      (λ pos _. rw positions-advance_to (lookup-erase instrument k p.positions))

and_true : (b : Bool) → b ≡ (b && true)
and_true true = refl
and_true false = refl

-- The call returned true: it neither returned false nor raised.
abbrev pub returns_true : Result Bool → Bool
returns_true (ok b) = b
returns_true (err _) = false

-- The outcome of a close of `instrument`, for the position in `k`.
abbrev IsClosed : String → String → Desk → Run Bool → Type 0
IsClosed k instrument d r =
    lookup k r.1.portfolio.positions
    ≡ (if str_eq instrument k && returns_true r.0 then none else lookup k d.portfolio.positions)

unchanged-IsClosed :
    (k instrument : String) (d e : Desk)
    → e.portfolio ≡ d.portfolio
    → IsClosed k instrument d (ok false, e)
unchanged-IsClosed k instrument d e h = rw h (ground arith)

raised-IsClosed :
    (k instrument : String) (d e : Desk)
    → e.portfolio ≡ d.portfolio
    → IsClosed k instrument d (err value_error, e)
raised-IsClosed k instrument d e h = rw h (ground arith)

close_at-IsClosed :
    (c : Config) (k instrument : String) (pos : Position) (price : Decimal) (now : ℕ) (d : Desk)
    → IsClosed k instrument d (close_at c pos instrument price now d)
unfolding close_at close_submitted submit close_order tell
close_at-IsClosed c k instrument pos price now d =
    elim (Bool-cases (mem (make_client_order_id pos.decision_id closing) d.submitted_orders)) [
      | inl e ↦ rw e (unchanged-IsClosed k instrument d d refl)
      | inr e ↦ elim (Bool-cases (correlates c pos.decision_id)) [
        | inl u ↦
            rw (e, u, publish_filled-close_fill, lookup-ledger_close)
              (ap (λ b. if b then none else lookup k d.portfolio.positions) (and_true _))
        | inr u ↦
            rw (e, u)
              (raised-IsClosed k instrument d (remember (close_order c pos instrument price now) d)
                refl)
      ]
    ]

-- A close by the executor takes the named position off the book exactly where it returns true, and
-- leaves every other position, whether it has the position or not, is without a price, was submitted
-- before, or raises.
pub lookup-close_position :
    (c : Config) (k instrument : String) (now : ℕ) (d : Desk)
    → lookup k (close_position c instrument now d).1.portfolio.positions ≡ (
        if str_eq instrument k && returns_true (close_position c instrument now d).0
        then none
        else lookup k d.portfolio.positions)
unfolding close_position
lookup-close_position c k instrument now d =
    option_rule (IsClosed k instrument d) (lookup instrument d.portfolio.positions)
      (λ _. unchanged-IsClosed k instrument d d refl)
      (λ pos _.
        option_rule (IsClosed k instrument d) (truthy (current_price d.portfolio instrument))
          (λ _. unchanged-IsClosed k instrument d d refl)
          (λ price _. close_at-IsClosed c k instrument pos price now d))

-- A close of a held and priced position goes through, unless it was submitted before or no envelope can
-- carry the id of its decision.
pub close_position-succeeds :
    (c : Config) (instrument : String) (pos : Position) (price : Decimal) (now : ℕ) (d : Desk)
    → lookup instrument d.portfolio.positions ≡ some pos
    → truthy (current_price d.portfolio instrument) ≡ some price
    → mem (make_client_order_id pos.decision_id closing) d.submitted_orders ≡ false
    → correlates c pos.decision_id ≡ true
    → returns_true (close_position c instrument now d).0 ≡ true
unfolding close_position close_at close_submitted submit close_order
close_position-succeeds c instrument pos price now d held priced new u =
    rw (close_position, held, priced, close_at, submit, close_order, new, u) refl

pub lookup-closed :
    (c : Config) (instrument : String) (pos : Position) (price : Decimal) (now : ℕ) (d : Desk)
    → lookup instrument d.portfolio.positions ≡ some pos
    → truthy (current_price d.portfolio instrument) ≡ some price
    → mem (make_client_order_id pos.decision_id closing) d.submitted_orders ≡ false
    → correlates c pos.decision_id ≡ true
    → lookup instrument (close_position c instrument now d).1.portfolio.positions ≡ none
lookup-closed c instrument pos price now d held priced new u =
    rw
      (
        lookup-close_position c instrument instrument now d,
        close_position-succeeds c instrument pos price now d held priced new u,
        eq_refl instrument,
      )
      refl
