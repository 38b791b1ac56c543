-- ===== src/System/Moves/Executor.antt =====
-- The operations of portfolio/executor.py as moves of the desk.
use mathlib.Core.Option
use afterhours.Prelude.{
  ℕ, String, ◌≡◌, refl, inl, inr, Bool, false, List, [], ◌∷◌, Bool-cases, if_rule, option_rule,
}
use afterhours.Prelude.Dict.{lookup, erase, keys}
use afterhours.Prelude.Texts.{mem}
use afterhours.Decimal.{Decimal, le_decimal, zero_value}
use afterhours.Core.Events.{Decision, Side, Expiry, decision_expired, parse_side, ttl_expired}
use afterhours.Portfolio.Position.{Position}
use afterhours.Portfolio.Ledger.{Result, ok, err, current_price, decimal_or_zero}
use afterhours.Portfolio.Orders.{
  Run, submit, close_submitted, fill_ordered, close_at, close_position, close_order, close_fill,
  open_order, open_fill, open_price, open_quantity, fill_submitted, fill_at, fill_sized, fill,
  truthy,
}
use afterhours.Portfolio.Queue.{
  emit_expired, emit_each, expire_pending, expire_each, sweep_expired, stale_ids,
}
use afterhours.Desk.{Desk, Config, correlates}
use afterhours.System.Moves.{
  MayOpen, Moves, here, chain, told, requeued, spent, ordered, filled, ordered_desk, after-Moves,
}

module _ (c : Config) (free : Bool) where
  pub close_at-Moves :
      (pos : Position) (instrument : String) (price : Decimal) (now : ℕ) (d : Desk)
      → Moves c free d (close_at c pos instrument price now d).1
  unfolding close_at close_submitted submit close_order close_fill
  close_at-Moves pos instrument price now d =
      let order = close_order c pos instrument price now in
      elim (Bool-cases (mem order.client_order_id d.submitted_orders)) [
        | inl e ↦ rw e (here d)
        | inr e ↦ elim (Bool-cases (correlates c pos.decision_id)) [
          | inl u ↦
              rw (e, u) (filled order (close_fill c pos instrument price) now d e refl (inl refl))
          | inr u ↦ rw (e, u) (spent order d e)
        ]
      ]

  pub close_position-Moves :
      (instrument : String) (now : ℕ) (d : Desk)
      → Moves c free d (close_position c instrument now d).1
  unfolding close_position
  close_position-Moves instrument now d =
      option_rule (λ (r : Run Bool). Moves c free d r.1) (lookup instrument d.portfolio.positions)
        (λ _. here d)
        λ pos _.
          option_rule (λ (r : Run Bool). Moves c free d r.1)
            (truthy (current_price d.portfolio instrument)) (λ _. here d)
            (λ price _. close_at-Moves pos instrument price now d)

  -- An opening fill needs room below the limit of positions.
  fill_at-Moves :
      (payload : Decision) (side : Side) (size price : Decimal) (now : ℕ) (d : Desk)
      → MayOpen c d
      → Moves c free d (fill_at c payload side size price now d).1
  unfolding fill_at fill_ordered submit open_order open_fill
  fill_at-Moves payload side size price now d room =
      let order = open_order payload side size now in
      elim (Bool-cases (mem order.client_order_id d.submitted_orders)) [
        | inl e ↦ rw e (here d)
        | inr e ↦ elim (Bool-cases (correlates c payload.id)) [
          | inl u ↦ rw (e, u) (go e (open_quantity size (open_price c side price)))
          | inr u ↦ rw (e, u) (spent order d e)
        ]
      ]
    where
      go :
          mem (open_order payload side size now).client_order_id d.submitted_orders ≡ false
          → (r : Result Decimal)
          → Moves c free d
              (fill_submitted c payload side size
                (open_price c side price)
                r
                now
                (ordered_desk (open_order payload side size now) now d)).1
      go e (ok quantity) =
          filled (open_order payload side size now)
            (open_fill c payload side size (open_price c side price) quantity) now d e refl
            (inr room)
      go e (err _) = ordered (open_order payload side size now) now d e

  pub fill-Moves :
      (payload : Decision) (now : ℕ) (d : Desk)
      → MayOpen c d
      → Moves c free d (fill c payload now d).1
  unfolding fill fill_sized
  fill-Moves payload now d room = go (decimal_or_zero payload.proposal.size_usd)
    where
      sized : (size : Decimal) → Moves c free d (fill_sized c payload size now d).1
      sized size =
          if_rule (λ (r : Result (Unit {0}) × Desk). Moves c free d r.1)
            (le_decimal size zero_value) (λ _. here d)
            λ _.
              option_rule (λ (r : Result (Unit {0}) × Desk). Moves c free d r.1)
                (truthy (current_price d.portfolio payload.proposal.instrument)) (λ _. here d)
                λ price _.
                  option_rule (λ (r : Result (Unit {0}) × Desk). Moves c free d r.1)
                    (parse_side (Option.get_or payload.proposal.side "long")) (λ _. here d)
                    (λ side _. fill_at-Moves payload side size price now d room)

      go :
          (r : Result Decimal)
          → Moves c free d
              (elim r as (λ _. Result (Unit {0}) × Desk) [
                | err e ↦ (err e, d)
                | ok size ↦ fill_sized c payload size now d
              ]).1
      go (ok size) = sized size
      go (err _) = here d

  pub emit_expired-Moves :
      (id : String) (reason : Expiry) (now : ℕ) (d : Desk)
      → Moves c free d (emit_expired c id reason now d).1
  unfolding emit_expired
  emit_expired-Moves id reason now d =
      if_rule (λ (r : Run (Unit {0})). Moves c free d r.1) (correlates c id)
        (λ _. told "paper_executor" now (decision_expired id reason) d tt) (λ _. here d)

  emit_each-Moves :
      (ids : List String) (reason : Expiry) (now : ℕ) (d : Desk)
      → Moves c free d (emit_each c ids reason now d).1
  unfolding emit_each
  emit_each-Moves [] reason now d = here d
  emit_each-Moves (id ∷ ids) reason now d =
      after-Moves (emit_expired c id reason now d) (λ e. emit_each c ids reason now e)
        (emit_expired-Moves id reason now d) (λ e. emit_each-Moves ids reason now e)

  pub expire_pending-Moves :
      (reason : Expiry) (now : ℕ) (d : Desk) → Moves c free d (expire_pending c reason now d).1
  unfolding expire_pending
  expire_pending-Moves reason now d =
      chain (requeued [] d)
        (emit_each-Moves (keys d.pending) reason now (record d { pending = [] }))

  expire_each-Moves :
      (ids : List String) (now : ℕ) (d : Desk) → Moves c free d (expire_each c ids now d).1
  unfolding expire_each
  expire_each-Moves [] now d = here d
  expire_each-Moves (id ∷ ids) now d =
      let popped = record d { pending = erase id d.pending } in
      after-Moves (emit_expired c id ttl_expired now popped) (λ e. expire_each c ids now e)
        (chain (requeued (erase id d.pending) d) (emit_expired-Moves id ttl_expired now popped))
        (λ e. expire_each-Moves ids now e)

  pub sweep_expired-Moves : (now : ℕ) (d : Desk) → Moves c free d (sweep_expired c now d).1
  unfolding sweep_expired
  sweep_expired-Moves now d = expire_each-Moves (stale_ids c now d.pending) now d
