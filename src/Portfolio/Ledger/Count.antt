-- ===== src/Portfolio/Ledger/Count.antt =====
-- How the number of open positions changes in portfolio/ledger.py.

use afterhours.Prelude.{
  ℕ, ◌+◌, ◌≤◌, String, ◌≡◌, refl, true, Option, none, some, arith, if_rule, option_rule, length,
  ltb,
}
use afterhours.Prelude.Dict.{
  lookup, contains, length-insert, length-erase, length-adjust, contains-adjust, contains-erase,
}
use afterhours.Decimal.{Decimal}
use afterhours.Core.Events.{Fill, Tick}
use afterhours.Portfolio.Ledger.{
  Portfolio, Result, ok, err, Booking, opens, closes, nothing, read_fill, mark, handle_fill,
  apply_fill, book, open_position, close_position, settle, advance_to, rollover_if_new_day, ◌>>=◌,
  decimal_or_zero, decimal_if_given,
}
use afterhours.Portfolio.Ledger.Replay.{apply_tick, apply_tick_induction}

pub positions-advance_to :
    (day : ℕ) (o : Option ℕ) (p : Portfolio) → (advance_to day o p).positions ≡ p.positions
unfolding advance_to
positions-advance_to day none p = refl
positions-advance_to day (some date) p =
    if_rule (λ (q : Portfolio). q.positions ≡ p.positions) (ltb date day) (λ _. refl) (λ _. refl)

-- A tick opens and closes nothing.
pub length-apply_tick :
    (tick : Tick) (p : Portfolio) → length (apply_tick tick p).positions ≡ length p.positions
unfolding mark
length-apply_tick tick p =
    apply_tick_induction (λ q. length q.positions ≡ length p.positions) tick p refl
      (λ price. length-adjust tick.instrument _ p.positions)

-- What a payload whose action is "close" is read as.
abbrev IsClosing : Result Booking → Type 0
IsClosing (ok (opens _ _ _ _ _ _ _ _)) = ⊥
IsClosing (ok _) = Unit
IsClosing (err _) = Unit

>>=-IsClosing :
    {A : Type 0} (m : Result A) (f : A → Result Booking)
    → ((a : A) → IsClosing (f a))
    → IsClosing (m >>= f)
>>=-IsClosing (ok a) f h = h a
>>=-IsClosing (err _) f h = tt

read_close : (f : Fill) → f.action ≡ some "close" → IsClosing (read_fill f)
unfolding read_fill
read_close f e =
    rw (e, read_fill)
      (>>=-IsClosing (decimal_or_zero f.fill_price) _ λ a.
        >>=-IsClosing (decimal_or_zero f.quantity) _ λ b.
          >>=-IsClosing (decimal_or_zero f.cost_usd) _ λ g.
            >>=-IsClosing (decimal_or_zero f.fee) _
              λ h. >>=-IsClosing (decimal_if_given f.stop_price) _ (λ i. tt))

module _ (trading_day : ℕ → ℕ) where
  -- Closing never adds a position.
  pub length-close_position :
      (instrument : String) (fill_price fee : Decimal) (time : ℕ) (p : Portfolio)
      → length (close_position trading_day instrument fill_price fee time p).1.positions
        ≤ length p.positions
  unfolding close_position settle rollover_if_new_day
  length-close_position instrument fill_price fee time p =
      option_rule (λ (r : Decimal × Portfolio). length r.1.positions ≤ length p.positions)
        (lookup instrument p.positions) (λ _. omega arith)
        (λ pos _. rw positions-advance_to (length-erase instrument p.positions))

  length-book :
      (b : Booking) (time : ℕ) (p : Portfolio)
      → length (book trading_day b time p).positions ≤ length p.positions + 1
  unfolding book open_position rollover_if_new_day
  length-book (opens instrument side fill_price quantity cost fee stop_price id) time p =
      rw positions-advance_to (rw length-insert (ground arith))
  length-book (closes instrument fill_price fee) time p =
      omega (arith, length-close_position instrument fill_price fee time p)
  length-book nothing time p = omega arith

  -- A fill adds at most one position.
  pub length-apply_fill :
      (f : Fill) (time : ℕ) (p : Portfolio)
      → length (apply_fill trading_day f time p).positions ≤ length p.positions + 1
  unfolding apply_fill handle_fill
  length-apply_fill f time p = go (read_fill f)
    where
      go :
          (r : Result Booking)
          → length
              (elim (r >>= λ b. ok (book trading_day b time p)) as (λ _. Portfolio) [
                | ok p' ↦ p'
                | err _ ↦ p
              ]).positions
            ≤ length p.positions + 1
      go (ok b) = length-book b time p
      go (err _) = omega arith

  pub length-apply_close :
      (f : Fill) (time : ℕ) (p : Portfolio)
      → f.action ≡ some "close"
      → length (apply_fill trading_day f time p).positions ≤ length p.positions
  unfolding apply_fill handle_fill book
  length-apply_close f time p e = go (read_fill f) (read_close f e)
    where
      go :
          (r : Result Booking)
          → IsClosing r
          → length
              (elim (r >>= λ b. ok (book trading_day b time p)) as (λ _. Portfolio) [
                | ok p' ↦ p'
                | err _ ↦ p
              ]).positions
            ≤ length p.positions
      go (ok (opens _ _ _ _ _ _ _ _)) h = absurd h
      go (ok (closes instrument fill_price fee)) h =
          length-close_position instrument fill_price fee time p
      go (ok nothing) h = omega arith
      go (err _) h = omega arith

-- Which positions a fill that closes, or a tick, can leave: none that was not there.
pub contains-apply_tick :
    (k : String) (tick : Tick) (p : Portfolio)
    → contains k (apply_tick tick p).positions ≡ contains k p.positions
unfolding mark
contains-apply_tick k tick p =
    apply_tick_induction (λ q. contains k q.positions ≡ contains k p.positions) tick p refl
      (λ price. contains-adjust tick.instrument k _ p.positions)

module _ (trading_day : ℕ → ℕ) where
  contains-close_position :
      (k instrument : String) (fill_price fee : Decimal) (time : ℕ) (p : Portfolio)
      → contains k (close_position trading_day instrument fill_price fee time p).1.positions ≡ true
      → contains k p.positions ≡ true
  unfolding close_position settle rollover_if_new_day
  contains-close_position k instrument fill_price fee time p =
      option_rule
        (λ (r : Decimal × Portfolio).
          contains k r.1.positions ≡ true → contains k p.positions ≡ true)
        (lookup instrument p.positions) (λ _ h. h)
        (λ pos _. rw positions-advance_to (contains-erase instrument k p.positions))

  pub contains-apply_close :
      (k : String) (f : Fill) (time : ℕ) (p : Portfolio)
      → f.action ≡ some "close"
      → contains k (apply_fill trading_day f time p).positions ≡ true
      → contains k p.positions ≡ true
  unfolding apply_fill handle_fill book
  contains-apply_close k f time p e = go (read_fill f) (read_close f e)
    where
      go :
          (r : Result Booking)
          → IsClosing r
          → contains k
              (elim (r >>= λ b. ok (book trading_day b time p)) as (λ _. Portfolio) [
                | ok p' ↦ p'
                | err _ ↦ p
              ]).positions
            ≡ true
          → contains k p.positions ≡ true
      go (ok (opens _ _ _ _ _ _ _ _)) h m = absurd h
      go (ok (closes instrument fill_price fee)) h m =
          contains-close_position k instrument fill_price fee time p m
      go (ok nothing) h m = m
      go (err _) h m = m
