-- ===== src/Calibration/Gates/Ready.antt =====
-- calibration/gates.py: what a report of readiness for ASSISTED says of the evidence.
use mathlib.Core.Path.{subst}
use afterhours.Prelude.{
  All, Bool-cases, inl, inr, ℕ, suc, ◌+◌, ◌*◌, ◌≤◌, ◌≡◌, refl, sym, ap, ◌∙◌, true, Option, none,
  some, List, [], ◌∷◌, ◌++◌, length, arith, leb→le, option_inv,
}
use afterhours.Decimal.{Decimal, mul, sum, le_decimal, lt_decimal, zero_value}
use afterhours.Core.Events.{Breach}
use afterhours.Analytics.Metrics.{economic_metrics, drawdown_from}
use afterhours.Calibration.{CalibrationSettings}
use afterhours.Calibration.Engine.{Floats, ResolvedSample, samples_in, compute_ece}
use afterhours.Calibration.Gates.{
  hard_breaches, seed_breaches, handle_breach, handle_breaches, TradeBook, Criterion, ready, span,
  economic_criteria, paper_modes, is_calibrated, paper_to_assisted,
}

hard_breaches-append :
    (xs ys : List Breach) → hard_breaches (xs ++ ys) ≡ hard_breaches xs + hard_breaches ys
unfolding hard_breaches
hard_breaches-append [] ys = omega arith
hard_breaches-append (b ∷ xs) ys = omega (arith, hard_breaches-append xs ys)

handle_breaches_lem :
    (events : List Breach) (n : ℕ) → handle_breaches events n ≡ n + hard_breaches events
unfolding handle_breaches handle_breach hard_breaches
handle_breaches_lem [] n = omega arith
handle_breaches_lem (b ∷ events) n =
    ground (arith, handle_breaches_lem events n, handle_breaches_lem events (suc n))

-- Wherever the process restarts, the count of the breaches is the one of the whole history: what
-- was stored before the restart and what came after it, stop-losses excluded.
pub breaches-restart :
    (history events : List Breach) (n : ℕ)
    → handle_breaches events (seed_breaches history n) ≡ hard_breaches (history ++ events)
breaches-restart history events n =
    handle_breaches_lem events (hard_breaches history) ∙ sym (hard_breaches-append history events)

trades-economic_metrics :
    (realized : List Decimal) → (economic_metrics realized).trades ≡ length realized
unfolding economic_metrics
trades-economic_metrics [] = refl
trades-economic_metrics (r ∷ rs) = refl

net_pnl-economic_metrics :
    (realized : List Decimal) → (economic_metrics realized).net_pnl ≡ sum realized
unfolding economic_metrics
net_pnl-economic_metrics [] = refl
net_pnl-economic_metrics (r ∷ rs) = refl

drawdown-economic_metrics :
    (realized : List Decimal)
    → (economic_metrics realized).max_drawdown
      ≡ drawdown_from zero_value zero_value zero_value realized
unfolding economic_metrics drawdown_from
drawdown-economic_metrics [] = refl
drawdown-economic_metrics (r ∷ rs) = refl

abbrev IsPassed : Criterion → Type 0
IsPassed c = c.passed ≡ true

ready-All : (criteria : List Criterion) → ready criteria ≡ true → All IsPassed criteria
unfolding ready
ready-All [] r = tt
ready-All (c ∷ criteria) r = elim (Bool-cases c.passed) [
  | inl e ↦ (e, ready-All criteria (ground (arith, e, r)))
  | inr e ↦ absurd (ground (arith, e, r))
]

abbrev criteria_of : Option (List Criterion) → List Criterion
criteria_of none = []
criteria_of (some criteria) = criteria

-- The evidence that the criteria ask for, with the whole history of breaches.
module _ {F : Type 0} (fl : Floats F) (to_float : Decimal → F) where
  pub record IsProven (s : CalibrationSettings) (samples : List (ResolvedSample F))
      (breaches : List Breach) (book : TradeBook) : Type 0 where
    pub sampled : s.gate_paper_min_sample ≤ length (samples_in paper_modes samples)
    pub spanned : s.gate_paper_min_days * 86_400_000_000 ≤ span (samples_in paper_modes samples)
    pub ece : F
    pub measured : compute_ece fl (samples_in paper_modes samples) s.ece_buckets ≡ some (some ece)
    pub calibrated : fl.le ece (to_float s.gate_paper_max_ece) ≡ true
    pub unbroken : hard_breaches breaches ≡ 0
    pub traded : s.gate_econ_min_trades ≤ length book.realized_trades
    pub profitable : lt_decimal zero_value (sum book.realized_trades) ≡ true
    pub contained :
        le_decimal
          (drawdown_from zero_value zero_value zero_value book.realized_trades)
          (mul book.initial_cash s.gate_econ_max_drawdown_pct)
        ≡ true

  -- Where a process that restarted after `history` reports readiness for ASSISTED after `events`,
  -- the sample of paper decisions is large and long enough and well calibrated, no hard limit was
  -- breached in the history or since, and the book has enough closed trades, a net profit, and a
  -- drawdown within the cap.
  pub paper_to_assisted-IsProven :
      (s : CalibrationSettings) (samples : List (ResolvedSample F)) (history events : List Breach)
      (n : ℕ) (book : TradeBook) (criteria : List Criterion)
      → paper_to_assisted fl to_float s samples
          (handle_breaches events (seed_breaches history n))
          (some book)
        ≡ some criteria
      → ready criteria ≡ true
      → IsProven s samples (history ++ events) book
  unfolding paper_to_assisted economic_criteria is_calibrated
  paper_to_assisted-IsProven s samples history events n book criteria h r =
      let count = breaches-restart history events n in
      let (measure, e, made) =
        option_inv (compute_ece fl (samples_in paper_modes samples) s.ece_buckets) h
          (λ z. ground (arith, z)) in
      let all = subst (All IsPassed) (sym (ap criteria_of made)) (ready-All criteria r) in
      let (x, is_some, le) = option_inv measure all.1.1.0 (λ z. ground (arith, z)) in
      record {
        sampled = leb→le _ _ all.0;
        spanned = leb→le _ _ all.1.0;
        ece = x;
        measured = e ∙ ap some is_some;
        calibrated = le;
        unbroken = sym count ∙ ground (arith, all.1.1.1.0);
        traded = omega (
          arith,
          leb→le s.gate_econ_min_trades (economic_metrics book.realized_trades).trades
              all.1.1.1.1.0,
          trades-economic_metrics book.realized_trades,
        );
        profitable =
            ap (lt_decimal zero_value) (sym (net_pnl-economic_metrics book.realized_trades))
            ∙ all.1.1.1.1.1.0;
        contained =
            ap (λ d. le_decimal d (mul book.initial_cash s.gate_econ_max_drawdown_pct))
              (sym (drawdown-economic_metrics book.realized_trades))
            ∙ all.1.1.1.1.1.1.1.1.0;
      }
