-- ===== src/Core/Store/Range.antt =====
-- The range query of core/bus/store.py: order, stability and pruning.
use afterhours.Prelude.{
  ℕ, ◌+◌, ◌≤◌, String, ◌≡◌, refl, sym, ap, ◌∙◌, Bool, true, false, not, ◌&&◌, Option, some, List,
  [], ◌∷◌, arith, leb, ltb, ◌==◌, Bool-cases, inl, inr, All, if◌then◌else◌, if_rule, length,
}
use afterhours.Prelude.Texts.{mem}
use afterhours.Core.Store.{Stored, keep, insert_by_time, sort_by_time, within, range, prune}

-- In chronological order.
abbrev pub IsOrdered : List Stored → Type 0
IsOrdered [] = Unit
IsOrdered (e ∷ events) = All (λ (f : Stored). e.event_time ≤ f.event_time) events × IsOrdered events

-- The event happened at `time`.
abbrev pub is_at : ℕ → Stored → Bool
is_at time e = e.event_time == time

All-insert_by_time :
    (P : Stored → Type 0) (e : Stored) (events : List Stored)
    → P e
    → All P events
    → All P (insert_by_time e events)
unfolding insert_by_time
All-insert_by_time P e [] he h = (he, tt)
All-insert_by_time P e (f ∷ events) he (hf, h) =
    if_rule (All P) (leb e.event_time f.event_time) (λ _. (he, (hf, h)))
      (λ _. (hf, All-insert_by_time P e events he h))

All-later :
    (n m : ℕ) (events : List Stored)
    → n ≤ m
    → All (λ (f : Stored). m ≤ f.event_time) events
    → All (λ (f : Stored). n ≤ f.event_time) events
All-later n m [] h hs = tt
All-later n m (f ∷ events) h (hf, hs) = (omega arith, All-later n m events h hs)

insert_by_time-IsOrdered :
    (e : Stored) (events : List Stored) → IsOrdered events → IsOrdered (insert_by_time e events)
unfolding insert_by_time
insert_by_time-IsOrdered e [] h = (tt, tt)
insert_by_time-IsOrdered e (f ∷ events) (hf, h) =
    if_rule IsOrdered (leb e.event_time f.event_time)
      (λ b.
        let le : e.event_time ≤ f.event_time = ground (arith, b) in
        ((le, All-later e.event_time f.event_time events le hf), (hf, h)))
      (λ b. (
        All-insert_by_time (λ (g : Stored). f.event_time ≤ g.event_time) e events
            (ground (arith, b)) hf,
        insert_by_time-IsOrdered e events h,
      ))

sort_by_time-IsOrdered : (events : List Stored) → IsOrdered (sort_by_time events)
unfolding sort_by_time
sort_by_time-IsOrdered [] = tt
sort_by_time-IsOrdered (e ∷ events) =
    insert_by_time-IsOrdered e (sort_by_time events) (sort_by_time-IsOrdered events)

-- Among the events of one time an insertion goes to the front.
keep-insert_by_time :
    (time : ℕ) (e : Stored) (events : List Stored)
    → keep (is_at time) (insert_by_time e events) ≡ keep (is_at time) (e ∷ events)
unfolding insert_by_time keep
keep-insert_by_time time e [] = refl
keep-insert_by_time time e (f ∷ events) = ground (arith, keep-insert_by_time time e events)

keep-sort_by_time :
    (time : ℕ) (events : List Stored)
    → keep (is_at time) (sort_by_time events) ≡ keep (is_at time) events
unfolding sort_by_time keep
keep-sort_by_time time [] = refl
keep-sort_by_time time (e ∷ events) =
    keep-insert_by_time time e (sort_by_time events)
    ∙ ap (λ (rest : List Stored). if is_at time e then e ∷ rest else rest)
        (keep-sort_by_time time events)

-- `range` answers in the order of `event_time`, and the events of any one time are those that were
-- asked for, in the order of their arrival.
pub range_lem :
    (event_types : List String) (start end : Option ℕ) (events : List Stored) (time : ℕ)
    → IsOrdered (range event_types start end events)
      × (keep (is_at time) (range event_types start end events)
          ≡ keep
              (is_at time)
              (keep (λ e. mem e.event_type event_types && within start end e.event_time) events))
unfolding range
range_lem event_types start end events time = (sort_by_time-IsOrdered _, keep-sort_by_time time _)

insert_by_time-first :
    (e : Stored) (events : List Stored)
    → All (λ (f : Stored). e.event_time ≤ f.event_time) events
    → insert_by_time e events ≡ e ∷ events
unfolding insert_by_time
insert_by_time-first e [] h = refl
insert_by_time-first e (f ∷ events) (hf, h) = ground arith

sort_by_time-ordered : (events : List Stored) → IsOrdered events → sort_by_time events ≡ events
unfolding sort_by_time
sort_by_time-ordered [] h = refl
sort_by_time-ordered (e ∷ events) (he, h) =
    rw (sort_by_time-ordered events h) (insert_by_time-first e events he)

module _ (p : Stored → Bool) where
  All-keep : (P : Stored → Type 0) (events : List Stored) → All P events → All P (keep p events)
  unfolding keep
  All-keep P [] h = h
  All-keep P (e ∷ events) (he, h) =
      if_rule (All P) (p e) (λ _. (he, All-keep P events h)) (λ _. All-keep P events h)

  keep-IsOrdered : (events : List Stored) → IsOrdered events → IsOrdered (keep p events)
  unfolding keep
  keep-IsOrdered [] h = h
  keep-IsOrdered (e ∷ events) (he, h) =
      if_rule IsOrdered (p e)
        (λ _. (
          All-keep (λ (f : Stored). e.event_time ≤ f.event_time) events he,
          keep-IsOrdered events h,
        ))
        (λ _. keep-IsOrdered events h)

-- Where events arrived in the order of their `event_time`, `range` gives them in the order of their
-- arrival, so that a restart replays the ledger's history as it happened.
range-ordered :
    (event_types : List String) (start end : Option ℕ) (events : List Stored)
    → IsOrdered events
    → range event_types start end events
      ≡ keep (λ e. mem e.event_type event_types && within start end e.event_time) events
unfolding range
range-ordered event_types start end events h = sort_by_time-ordered _ (keep-IsOrdered _ events h)

true_not_false : true ≡ false → ⊥
true_not_false h = ground arith

skipped :
    (p q : Stored → Bool) (e : Stored)
    → ((e : Stored) → p e ≡ true → q e ≡ true)
    → q e ≡ false
    → p e ≡ false
skipped p q e h miss = elim (Bool-cases (p e)) [
  | inl hit ↦ absurd (true_not_false (sym (h e hit) ∙ miss))
  | inr e' ↦ e'
]

keep-keep :
    (p q : Stored → Bool) (events : List Stored)
    → ((e : Stored) → p e ≡ true → q e ≡ true)
    → keep p (keep q events) ≡ keep p events
unfolding keep
keep-keep p q [] h = refl
keep-keep p q (e ∷ events) h = elim (Bool-cases (q e)) [
  | inl hit ↦ rw (hit, keep-keep p q events h) refl
  | inr miss ↦ rw (miss, keep-keep p q events h, skipped p q e h miss) refl
]

length-keep : (p : Stored → Bool) (events : List Stored) → length (keep p events) ≤ length events
unfolding keep
length-keep p [] = omega arith
length-keep p (e ∷ events) = ground (arith, length-keep p events)

late_kept :
    (before start time : ℕ) (wanted ended pruned : Bool)
    → before ≤ start
    → (wanted && (leb start time && ended)) ≡ true
    → not (pruned && ltb time before) ≡ true
late_kept before start time wanted ended pruned h m = ground arith

-- Pruning what is older than `before` is not seen by a range that starts there or later, for any
-- types and any end, and it counts the events that it deletes.
range-prune :
    (event_types pruned : List String) (before start : ℕ) (end : Option ℕ) (events : List Stored)
    → before ≤ start
    → let (deleted, kept) = prune pruned before events in
      (range event_types (some start) end kept ≡ range event_types (some start) end events)
      × (deleted + length kept ≡ length events)
unfolding range prune within
range-prune event_types pruned before start end events h = (
  ap sort_by_time (
      keep-keep _ _ events
        (λ e m. late_kept before start e.event_time (mem e.event_type event_types) _ _ h m)),
  omega (arith, length-keep (λ e. not (mem e.event_type pruned && ltb e.event_time before)) events),
)
