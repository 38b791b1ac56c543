-- ===== src/Ingestion/Alerts/Cooldown.antt =====
-- ingestion/alerts/generator.py: the cooldown keeps repeated alerts apart.
use afterhours.Prelude.{
  ℕ, ◌+◌, ◌*◌, ◌≤◌, String, ◌≡◌, refl, Bool, true, ◌&&◌, Option, some, List, [], ◌∷◌, ◌++◌, arith,
  str_eq, eq_iff, eq_refl, Bool-cases, inl, inr, if_rule, option_rule, All, All-append, All-map,
  if◌then◌else◌,
}
use afterhours.Prelude.Dict.{lookup}
use afterhours.Decimal.{Decimal}
use afterhours.Core.Events.{absent, malformed, number}
use afterhours.Ingestion.Alerts.{
  AlertSettings, Alert, alert_type, PriceAlert, PriceTick, Alerts, new_alerts, Outcome, returned,
  raised, state_of, last_fired, cooldown_ok, fire, fire_each, crossing, breaks_above, breaks_below,
  slide, moved, slide_and_fire, watch_price, is_ignored, handle_tick, run,
}

-- The alert is of this instrument and type.
abbrev is_of : String → String → PriceAlert → Bool
is_of instrument kind b = str_eq instrument b.instrument && str_eq kind (alert_type b.alert)

-- A repeated alert of one instrument and type comes a cooldown later at the earliest.
abbrev IsApart : ℕ → PriceAlert → PriceAlert → Type 0
IsApart width a b =
    is_of a.instrument (alert_type a.alert) b ≡ true → a.event_time + width ≤ b.event_time

-- Each alert stands apart from all after it.
abbrev pub IsSpaced : ℕ → List PriceAlert → Type 0
IsSpaced width [] = Unit
IsSpaced width (a ∷ rest) = All (IsApart width a) rest × IsSpaced width rest

-- The cooldown of the alert's instrument and type was noted at its time or later.
abbrev IsNoted : List (String × String × ℕ) → PriceAlert → Type 0
IsNoted cooldowns a =
    (t : ℕ) × (last_fired a.instrument (alert_type a.alert) cooldowns ≡ some t) × (a.event_time ≤ t)

abbrev width_of : AlertSettings → ℕ
width_of s = s.alert_cooldown_minutes * 60_000_000

record IsPaced (s : AlertSettings) (a : Alerts) : Type 0 where
  spaced : IsSpaced (width_of s) a.fired
  noted : All (IsNoted a.cooldowns) a.fired

IsSpaced-append_one :
    (width : ℕ) (rest : List PriceAlert) (b : PriceAlert)
    → IsSpaced width rest
    → All (λ a. IsApart width a b) rest
    → IsSpaced width (rest ++ b ∷ [])
IsSpaced-append_one width [] b h hb = (tt, tt)
IsSpaced-append_one width (a ∷ rest) b (ha, h) (hab, hb) =
    (All-append (IsApart width a) rest (b ∷ []) ha (hab, tt), IsSpaced-append_one width rest b h hb)

module _ (s : AlertSettings) where
  -- An alert whose cooldown has passed is apart from the earlier ones.
  IsApart-noted :
      (a : Alerts) (b : PriceAlert) (x : PriceAlert)
      → cooldown_ok s b.instrument (alert_type b.alert) b.event_time a ≡ true
      → IsNoted a.cooldowns x
      → IsApart (width_of s) x b
  unfolding cooldown_ok
  IsApart-noted a b x ok (t, last, before) same =
      ground
        (arith, eq_iff x.instrument b.instrument, eq_iff (alert_type x.alert) (alert_type b.alert))

  -- A note of a time that is not earlier keeps the alerts noted.
  IsNoted-cons :
      (a : Alerts) (i k : String) (now : ℕ) (x : PriceAlert)
      → cooldown_ok s i k now a ≡ true
      → IsNoted a.cooldowns x
      → IsNoted ((i, k, now) ∷ a.cooldowns) x
  unfolding cooldown_ok last_fired
  IsNoted-cons a i k now x ok (t, last, before) =
      elim (Bool-cases (str_eq i x.instrument && str_eq k (alert_type x.alert))) [
        | inl e ↦
            (now, rw e refl, ground (arith, eq_iff i x.instrument, eq_iff k (alert_type x.alert)))
        | inr e ↦ (t, rw e last, before)
      ]

  IsPaced-fire :
      (instrument : String) (price : Decimal) (now : ℕ) (alert : Alert) (a : Alerts)
      → IsPaced s a
      → IsPaced s (fire s instrument price now alert a)
  unfolding fire last_fired
  IsPaced-fire instrument price now alert a h =
      let b : PriceAlert = record {
        instrument = instrument;
        alert = alert;
        price = price;
        event_time = now;
      } in
      if_rule (IsPaced s) (cooldown_ok s instrument (alert_type alert) now a)
        (λ ok. record {
          spaced = IsSpaced-append_one (width_of s) a.fired b h.spaced (
              All-map (IsNoted a.cooldowns) (λ x. IsApart (width_of s) x b)
                (λ x. IsApart-noted a b x ok) a.fired h.noted);
          noted =
              All-append (IsNoted ((instrument, alert_type alert, now) ∷ a.cooldowns)) a.fired
                (b ∷ [])
                (All-map (IsNoted a.cooldowns)
                  (IsNoted ((instrument, alert_type alert, now) ∷ a.cooldowns))
                  (λ x. IsNoted-cons a instrument (alert_type alert) now x ok) a.fired h.noted)
                (noted_now instrument (alert_type alert) now a.cooldowns, tt);
        })
        (λ _. h)
    where
      noted_now :
          (i k : String) (now : ℕ) (c : List (String × String × ℕ))
          → (t : ℕ) × (last_fired i k ((i, k, now) ∷ c) ≡ some t) × (now ≤ t)
      noted_now i k now c = (now, rw (last_fired, eq_refl i, eq_refl k) refl, omega arith)

  IsPaced-fire_each :
      (instrument : String) (price : Decimal) (now : ℕ) (alerts : List Alert) (a : Alerts)
      → IsPaced s a
      → IsPaced s (fire_each s instrument price now alerts a)
  unfolding fire_each
  IsPaced-fire_each instrument price now [] a h = h
  IsPaced-fire_each instrument price now (alert ∷ alerts) a h =
      IsPaced-fire_each instrument price now alerts (fire s instrument price now alert a)
        (IsPaced-fire instrument price now alert a h)

  -- However the handler ends, its state is paced.
  abbrev IsEnd : Outcome → Type 0
  IsEnd o = IsPaced s (state_of o)

  IsPaced-slide_and_fire :
      (instrument : String) (price : Decimal) (now : ℕ) (crossed : List Alert) (a : Alerts)
      → IsPaced s a
      → IsEnd (slide_and_fire s instrument price now crossed a)
  unfolding slide_and_fire
  IsPaced-slide_and_fire instrument price now crossed a h =
      option_rule IsEnd (moved s price now (slide s instrument price now a))
        (λ _. record { spaced = h.spaced; noted = h.noted })
        (λ alerts _.
          IsPaced-fire_each instrument price now (crossed ++ alerts) _
            (record { spaced = h.spaced; noted = h.noted }))

  IsPaced-watch_price :
      (tick : PriceTick) (price : Decimal) (now : ℕ) (a : Alerts)
      → IsPaced s a
      → IsEnd (watch_price s tick price now a)
  unfolding watch_price
  IsPaced-watch_price tick price now a h =
      let prev = lookup tick.instrument a.last_price in
      option_rule IsEnd (crossing tick.high_24h prev (breaks_above price)) (λ _. h)
        (λ highs _.
          option_rule IsEnd (crossing tick.low_24h prev (breaks_below price)) (λ _. h)
            (λ lows _. IsPaced-slide_and_fire tick.instrument price now (highs ++ lows) a h))

  IsPaced-handle_tick :
      (watched : Option (List String)) (tick : PriceTick) (now : ℕ) (a : Alerts)
      → IsPaced s a
      → IsEnd (handle_tick s watched tick now a)
  unfolding handle_tick
  IsPaced-handle_tick watched tick now a h =
      let ignored = is_ignored watched tick.instrument in
      if_rule IsEnd (str_eq tick.instrument "") (λ _. h)
        (λ _.
          elim tick.price
            as (λ x. IsEnd (elim x [
              | absent ↦ returned a
              | malformed ↦ if ignored then returned a else raised a
              | number price ↦ if ignored then returned a else watch_price s tick price now a
            ])) [
              | absent ↦ h
              | malformed ↦ if_rule IsEnd ignored (λ _. h) (λ _. h)
              | number price ↦
                  if_rule IsEnd ignored (λ _. h) (λ _. IsPaced-watch_price tick price now a h)
            ])

  IsPaced-run :
      (ticks : List (Option (List String) × PriceTick × ℕ)) (a : Alerts)
      → IsPaced s a
      → IsPaced s (run s ticks a)
  unfolding run
  IsPaced-run [] a h = h
  IsPaced-run ((watched, tick, now) ∷ ticks) a h =
      IsPaced-run ticks (state_of (handle_tick s watched tick now a))
        (IsPaced-handle_tick watched tick now a h)

-- Whatever ticks arrive, and in whatever order of their times, each alert comes at least a cooldown
-- later than every earlier alert of the same instrument and type.
pub run-IsSpaced :
    (s : AlertSettings) (ticks : List (Option (List String) × PriceTick × ℕ))
    → IsSpaced (s.alert_cooldown_minutes * 60_000_000) (run s ticks new_alerts).fired
run-IsSpaced s ticks = (IsPaced-run s ticks new_alerts (record { spaced = tt; noted = tt })).spaced
