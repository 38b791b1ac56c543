-- ===== src/Reasoning/Theses/Fresh.antt =====
-- reasoning/thesis/generator.py: what is fresh of what was heard, and the order of time.
use afterhours.Prelude.{
  ℕ, ◌+◌, ◌*◌, ◌≤◌, String, ◌≡◌, refl, sym, ap, Bool, true, false, not, Option, none, some, List,
  [], ◌∷◌, ◌++◌, arith, str_eq, Bool-cases, inl, inr, leb, ltb, if_rule, All, All-append, All-map,
  if◌then◌else◌,
}
use afterhours.Core.Store.{keep}
use afterhours.Reasoning.Theses.{ThesisSettings, SignalPayload, Buffer, pop_stale}

-- Signals as they are offered for an instrument, with their times.
abbrev pub Offers : Type 0
Offers = List (String × SignalPayload × ℕ)

-- The times do not go back.
abbrev pub IsOrderedFrom : ℕ → Offers → Type 0
IsOrderedFrom t [] = Unit
IsOrderedFrom t ((_, _, now) ∷ offers) = (t ≤ now) × IsOrderedFrom now offers

-- The time of the last offer.
abbrev pub last_time : ℕ → Offers → ℕ
last_time t [] = t
last_time t ((_, _, now) ∷ offers) = last_time now offers

-- What was heard of an instrument.
unfoldable pub heard : String → Offers → Buffer
heard i [] = []
heard i ((j, signal, now) ∷ offers) =
    let rest = heard i offers in if str_eq j i then (now, signal) ∷ rest else rest

-- The signal is not older than the window.
abbrev pub is_fresh : ℕ → ℕ → ℕ × SignalPayload → Bool
is_fresh width now (t, _) = not (ltb (t + width) now)

-- The time of the last generation for an instrument.
unfoldable pub last_of : String → List (String × ℕ) → Option ℕ
last_of i [] = none
last_of i ((j, t) ∷ log) = elim (last_of i log) [
  | some u ↦ some u
  | none ↦ if str_eq j i then some t else none
]

-- No generation for the instrument within the cooldown.
abbrev pub is_due : ThesisSettings → String → ℕ → List (String × ℕ) → Bool
is_due s i now log = elim (last_of i log) [
  | none ↦ true
  | some t ↦ leb (t + s.cooldown_minutes * 60_000_000) now
]

pub last_of-append_one :
    (i j : String) (t : ℕ) (log : List (String × ℕ))
    → last_of i (log ++ (j, t) ∷ []) ≡ (if str_eq j i then some t else last_of i log)
unfolding last_of
last_of-append_one i j t [] = refl
last_of-append_one i j t ((k, u) ∷ log) = ground (arith, last_of-append_one i j t log)

-- In the order of time.
abbrev pub IsSorted : Buffer → Type 0
IsSorted [] = Unit
IsSorted ((t, _) ∷ buf) = All (λ (e : ℕ × SignalPayload). t ≤ e.0) buf × IsSorted buf

abbrev pub IsBy : ℕ → Buffer → Type 0
IsBy now = All (λ (e : ℕ × SignalPayload). e.0 ≤ now)

pub IsSorted-append_one :
    (buf : Buffer) (signal : SignalPayload) (now : ℕ)
    → IsSorted buf
    → IsBy now buf
    → IsSorted (buf ++ (now, signal) ∷ [])
IsSorted-append_one [] signal now h k = (tt, tt)
IsSorted-append_one ((t, s) ∷ buf) signal now (ht, h) (kt, k) = (
  All-append (λ (e : ℕ × SignalPayload). t ≤ e.0) buf ((now, signal) ∷ []) ht (kt, tt),
  IsSorted-append_one buf signal now h k,
)

pub keep-all :
    (p : ℕ × SignalPayload → Bool) (buf : Buffer)
    → All (λ (e : ℕ × SignalPayload). p e ≡ true) buf
    → keep p buf ≡ buf
unfolding keep
keep-all p [] h = refl
keep-all p (e ∷ buf) (he, h) = rw he (ap (λ (l : Buffer). e ∷ l) (keep-all p buf h))

module _ (width : ℕ) where
  is_fresh-later :
      (now t u : ℕ) (s : SignalPayload)
      → t ≤ u
      → ltb (t + width) now ≡ false
      → is_fresh width now (u, s) ≡ true
  is_fresh-later now t u s h e = ground arith

  -- In a sorted buffer, dropping the stale front keeps what is fresh.
  pub pop_stale-keep :
      (now : ℕ) (buf : Buffer)
      → IsSorted buf
      → pop_stale width now buf ≡ keep (is_fresh width now) buf
  unfolding pop_stale keep
  pop_stale-keep now [] h = refl
  pop_stale-keep now ((t, s) ∷ buf) (ht, h) = elim (Bool-cases (ltb (t + width) now)) [
    | inl e ↦ rw e (pop_stale-keep now buf h)
    | inr e ↦ rw e (
        ap (λ (l : Buffer). (t, s) ∷ l)
          (sym (
            keep-all (is_fresh width now) buf (
              All-map (λ (x : ℕ × SignalPayload). t ≤ x.0)
                (λ (x : ℕ × SignalPayload). is_fresh width now x ≡ true)
                (λ x le. is_fresh-later now t x.0 x.1 le e) buf ht))))
  ]

  -- What is fresh later was fresh before.
  pub keep-keep_fresh :
      (now later : ℕ) (buf : Buffer)
      → now ≤ later
      → keep (is_fresh width later) (keep (is_fresh width now) buf)
        ≡ keep (is_fresh width later) buf
  unfolding keep
  keep-keep_fresh now later [] h = refl
  keep-keep_fresh now later ((t, s) ∷ buf) h = ground (arith, keep-keep_fresh now later buf h)

  pub keep_fresh-append :
      (now : ℕ) (xs ys : Buffer)
      → keep (is_fresh width now) (xs ++ ys)
        ≡ keep (is_fresh width now) xs ++ keep (is_fresh width now) ys
  unfolding keep
  keep_fresh-append now [] ys = refl
  keep_fresh-append now ((t, s) ∷ xs) ys = elim (Bool-cases (ltb (t + width) now)) [
    | inl e ↦ rw e (keep_fresh-append now xs ys)
    | inr e ↦ rw e (ap (λ (l : Buffer). (t, s) ∷ l) (keep_fresh-append now xs ys))
  ]

  pub All-keep_fresh :
      (P : ℕ × SignalPayload → Type 0) (now : ℕ) (buf : Buffer)
      → All P buf
      → All P (keep (is_fresh width now) buf)
  unfolding keep
  All-keep_fresh P now [] h = tt
  All-keep_fresh P now (e ∷ buf) (he, h) =
      if_rule (All P) (is_fresh width now e) (λ _. (he, All-keep_fresh P now buf h))
        (λ _. All-keep_fresh P now buf h)

  pub IsSorted-keep_fresh :
      (now : ℕ) (buf : Buffer) → IsSorted buf → IsSorted (keep (is_fresh width now) buf)
  unfolding keep
  IsSorted-keep_fresh now [] h = tt
  IsSorted-keep_fresh now ((t, s) ∷ buf) (ht, h) =
      if_rule IsSorted (is_fresh width now (t, s))
        (λ _. (All-keep_fresh (λ x. t ≤ x.0) now buf ht, IsSorted-keep_fresh now buf h))
        (λ _. IsSorted-keep_fresh now buf h)
