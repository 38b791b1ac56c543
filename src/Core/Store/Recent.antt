-- ===== src/Core/Store/Recent.antt =====
-- The window of recent events in core/bus/store.py.
use afterhours.Prelude.{
  ℕ, Bool, zero, suc, ◌-◌, ◌≤◌, ◌<◌, String, ◌≡◌, refl, ap, Option, List, [], ◌∷◌, ◌++◌, ◌&&◌,
  arith, length, ◌==◌, if_rule,
}
use afterhours.Prelude.Texts.{mem}
use afterhours.Core.Store.{Stored, keep, drop, last, has_type, recent}

drop_lem :
    {A : Type 0} (n : ℕ) (xs : List A)
    → n ≤ length xs
    → (earlier : List A) × (xs ≡ earlier ++ drop n xs) × (length earlier ≡ n)
unfolding drop
drop_lem zero xs h = ([], refl, refl)
drop_lem (suc n) [] h = absurd (omega arith)
drop_lem (suc n) (x ∷ xs) h =
    let (earlier, split, long) = drop_lem n xs (omega arith) in
    (x ∷ earlier, ap (λ (l : List _). x ∷ l) split, ap suc long)

-- A window that is long enough shows everything.
pub last-all : {A : Type 0} (limit : ℕ) (xs : List A) → length xs ≤ limit → last limit xs ≡ xs
unfolding last drop
last-all {A} limit xs h =
    if_rule (λ (r : List A). r ≡ xs) (limit == 0) (λ _. refl)
      (λ _. rw (all_gone (length xs) limit h) refl)
  where
    all_gone : (n m : ℕ) → n ≤ m → n - m ≡ 0
    all_gone n m h = omega arith

pub length-keep : {A : Type 0} (p : A → Bool) (xs : List A) → length (keep p xs) ≤ length xs
unfolding keep
length-keep p [] = omega arith
length-keep p (x ∷ xs) =
    if_rule (λ (r : List _). length r ≤ suc (length xs)) (p x)
      (λ _. omega (arith, length-keep p xs)) (λ _. omega (arith, length-keep p xs))

-- `recent` with a positive limit answers with the end of what matches, in the order of arrival: all
-- of it, or as many events as the limit says where there are more.
recent_lem :
    (event_types : List String) (limit : ℕ) (payload_type : Option (List String))
    → (events : List Stored) → 0 < limit
    → let matching = keep (λ e. mem e.event_type event_types && has_type payload_type e) events in
      (earlier : List Stored) × (matching ≡ earlier ++ recent event_types limit payload_type events)
      × (length earlier ≡ length matching - limit)
unfolding recent last
recent_lem event_types limit payload_type events h =
    if_rule
      (λ (r : List Stored).
        (earlier : List Stored) × (matching ≡ earlier ++ r)
        × (length earlier ≡ length matching - limit))
      (limit == 0) (λ e. absurd (ground (arith, e)))
      (λ _. drop_lem (length matching - limit) matching (omega arith))
  where
    matching : List Stored
    matching = keep (λ e. mem e.event_type event_types && has_type payload_type e) events
