-- ===== src/Reasoning/Theses/Windows.antt =====
-- reasoning/thesis/generator.py: when a generation begins, by what was heard of the instrument.
use mathlib.Core.Path.{subst}
use afterhours.Prelude.{
  ℕ, ◌+◌, ◌*◌, ◌≤◌, String, ◌≡◌, refl, sym, ap, ◌∙◌, ◌⊎◌, Bool, true, false, ◌||◌, ◌&&◌, Option,
  none, some, List, [], ◌∷◌, ◌++◌, append-nil, append_assoc, arith, str_eq, eq_refl, str_eq-cases,
  Bool-cases, inl, inr, leb, length, if_rule, All-append, All-map, if◌then◌else◌,
}
use afterhours.Prelude.Dict.{lookup, insert, lookup-insert}
use afterhours.Core.Store.{keep}
use afterhours.Reasoning.Replies.{Library}
use afterhours.Reasoning.Theses.{
  ThesisSettings, SignalPayload, ThesisPrompt, Buffer, ThesisGenerator, new_thesis_generator,
  Outcome, state_of, is_seed, buffer_of, extended, cooldown_ok, offer,
}
use afterhours.Reasoning.Theses.Spaced.{generate-IsGenerated}
use afterhours.Reasoning.Theses.Fresh.{
  Offers, IsOrderedFrom, last_time, heard, is_fresh, last_of, is_due, last_of-append_one, IsSorted,
  IsBy, IsSorted-append_one, pop_stale-keep, keep-keep_fresh, keep_fresh-append, All-keep_fresh,
  IsSorted-keep_fresh,
}

buffer_of-insert :
    (i j : String) (buf : Buffer) (g g' : ThesisGenerator)
    → g'.buffers ≡ insert j buf g.buffers
    → buffer_of i g' ≡ (if str_eq j i then buf else buffer_of i g)
unfolding buffer_of
buffer_of-insert i j buf g g' h =
    ap (λ (o : Option Buffer). elim o [ none ↦ [] | some b ↦ b ])
      (ap (lookup i) h ∙ lookup-insert j i buf g.buffers)
    ∙ branch (str_eq j i)
  where
    branch :
        (b : Bool)
        → elim (if b then some buf else lookup i g.buffers) [ none ↦ [] | some x ↦ x ]
          ≡ (if b then buf else elim (lookup i g.buffers) [ none ↦ [] | some x ↦ x ])
    branch true = refl
    branch false = refl

-- Of an instrument the generator has all that is still fresh among what was heard by the time `t`.
record IsTracking (s : ThesisSettings) (i : String) (t : ℕ) (past : Buffer) (g : ThesisGenerator)
    : Type 0 where
  sorted : IsSorted (buffer_of i g)
  by : IsBy t (buffer_of i g)
  covers :
      (later : ℕ)
      → t ≤ later
      → keep (is_fresh (s.signal_window_minutes * 60_000_000) later) (buffer_of i g)
        ≡ keep (is_fresh (s.signal_window_minutes * 60_000_000) later) past
  noted : lookup i g.cooldowns ≡ last_of i g.generating

module _ (s : ThesisSettings) (lib : Library)
    (ask : ℕ → Option (List ℕ) → ThesisPrompt → Option (List ℕ)) where
  abbrev width : ℕ
  width = s.signal_window_minutes * 60_000_000

  -- The offers in their order, each to its end.
  unfoldable pub offer_all : Offers → ThesisGenerator → ThesisGenerator
  offer_all [] g = g
  offer_all ((i, signal, now) ∷ offers) g =
      offer_all offers (state_of (offer lib ask s i signal now g))

  -- The offer begins a generation.
  abbrev fires : String → SignalPayload → ℕ → ThesisGenerator → Bool
  fires i signal now g =
      (leb s.min_signals_to_trigger (length (extended s i signal now g)) || is_seed signal)
      && cooldown_ok s i now g

  buffers-offer :
      (i : String) (signal : SignalPayload) (now : ℕ) (g : ThesisGenerator)
      → (state_of (offer lib ask s i signal now g)).buffers
        ≡ insert i (extended s i signal now g) g.buffers
  unfolding offer
  buffers-offer i signal now g =
      let buf = extended s i signal now g in
      let g' : ThesisGenerator = record g {
        buffers = insert i buf g.buffers;
        cooldowns = insert i now g.cooldowns;
      } in
      if_rule (λ (o : Outcome). (state_of o).buffers ≡ insert i buf g.buffers)
        (fires i signal now g) (λ _. (generate-IsGenerated s lib ask i buf now g').2) (λ _. refl)

  generating-offer :
      (i : String) (signal : SignalPayload) (now : ℕ) (g : ThesisGenerator)
      → (state_of (offer lib ask s i signal now g)).generating
        ≡ (if fires i signal now g then g.generating ++ (i, now) ∷ [] else g.generating)
  unfolding offer
  generating-offer i signal now g = elim (Bool-cases (fires i signal now g)) [
    | inl e ↦ rw e (generate-IsGenerated s lib ask i _ now _).0
    | inr e ↦ rw e refl
  ]

  cooldowns-offer :
      (i : String) (signal : SignalPayload) (now : ℕ) (g : ThesisGenerator)
      → (state_of (offer lib ask s i signal now g)).cooldowns
        ≡ (if fires i signal now g then insert i now g.cooldowns else g.cooldowns)
  unfolding offer
  cooldowns-offer i signal now g = elim (Bool-cases (fires i signal now g)) [
    | inl e ↦ rw e (generate-IsGenerated s lib ask i _ now _).1
    | inr e ↦ rw e refl
  ]

  noted-offer :
      (i j : String) (signal : SignalPayload) (now : ℕ) (g : ThesisGenerator)
      → lookup i g.cooldowns ≡ last_of i g.generating
      → let g' = state_of (offer lib ask s j signal now g) in
        lookup i g'.cooldowns ≡ last_of i g'.generating
  noted-offer i j signal now g h =
      ap (lookup i) (cooldowns-offer j signal now g)
      ∙ agree (Bool-cases (fires j signal now g))
      ∙ ap (last_of i) (sym (generating-offer j signal now g))
    where
      agree :
          (fires j signal now g ≡ true) ⊎ (fires j signal now g ≡ false)
          → lookup i (if fires j signal now g then insert j now g.cooldowns else g.cooldowns)
            ≡ last_of i
                (if fires j signal now g then g.generating ++ (j, now) ∷ [] else g.generating)
      agree (inl e) = rw e (
          lookup-insert j i now g.cooldowns
          ∙ ap (λ o. if str_eq j i then some now else o) h
          ∙ sym (last_of-append_one i j now g.generating))
      agree (inr e) = rw e h

  -- The buffer of an instrument that is offered a signal.
  buffer_of-offer :
      (i j : String) (signal : SignalPayload) (now : ℕ) (g : ThesisGenerator)
      → buffer_of i (state_of (offer lib ask s j signal now g))
        ≡ (if str_eq j i then extended s j signal now g else buffer_of i g)
  buffer_of-offer i j signal now g =
      buffer_of-insert i j (extended s j signal now g) g _ (buffers-offer j signal now g)

  extended-keep :
      (i : String) (signal : SignalPayload) (t now : ℕ) (past : Buffer) (g : ThesisGenerator)
      → t ≤ now
      → IsTracking s i t past g
      → extended s i signal now g ≡ keep (is_fresh width now) (buffer_of i g ++ (now, signal) ∷ [])
  unfolding extended
  extended-keep i signal t now past g le h =
      pop_stale-keep width now (buffer_of i g ++ (now, signal) ∷ []) (
        IsSorted-append_one (buffer_of i g) signal now h.sorted (
          All-map (λ (e : ℕ × SignalPayload). e.0 ≤ t) (λ (e : ℕ × SignalPayload). e.0 ≤ now)
            (λ e k. omega arith) (buffer_of i g) h.by))

  IsTracking-other :
      (i j : String) (signal : SignalPayload) (t now : ℕ) (past : Buffer) (g : ThesisGenerator)
      → t ≤ now
      → str_eq j i ≡ false
      → IsTracking s i t past g
      → IsTracking s i now past (state_of (offer lib ask s j signal now g))
  IsTracking-other i j signal t now past g le e h =
      let same : buffer_of i (state_of (offer lib ask s j signal now g)) ≡ buffer_of i g =
        buffer_of-offer i j signal now g ∙ (rw e refl) in
      record {
        sorted = subst IsSorted (sym same) h.sorted;
        by = subst (IsBy now) (sym same) (
            All-map (λ (x : ℕ × SignalPayload). x.0 ≤ t) (λ (x : ℕ × SignalPayload). x.0 ≤ now)
              (λ x k. omega arith) (buffer_of i g) h.by);
        covers = λ later k.
            ap (keep (is_fresh width later)) same ∙ h.covers later (omega (arith, le, k));
        noted = noted-offer i j signal now g h.noted;
      }

  IsTracking-self :
      (i : String) (signal : SignalPayload) (t now : ℕ) (past : Buffer) (g : ThesisGenerator)
      → t ≤ now
      → IsTracking s i t past g
      → IsTracking s i now (past ++ (now, signal) ∷ []) (state_of (offer lib ask s i signal now g))
  IsTracking-self i signal t now past g le h =
      let whole = buffer_of i g ++ (now, signal) ∷ [] in
      let up : IsBy now (buffer_of i g) =
        All-map (λ (x : ℕ × SignalPayload). x.0 ≤ t) (λ (x : ℕ × SignalPayload). x.0 ≤ now)
          (λ x k. omega arith) (buffer_of i g) h.by in
      let same : buffer_of i (state_of (offer lib ask s i signal now g))
          ≡ keep (is_fresh width now) whole =
        buffer_of-offer i i signal now g
        ∙ (rw eq_refl (extended-keep i signal t now past g le h)) in
      record {
        sorted = subst IsSorted (sym same) (
            IsSorted-keep_fresh width now whole
              (IsSorted-append_one (buffer_of i g) signal now h.sorted up));
        by = subst (IsBy now) (sym same) (
            All-keep_fresh width (λ (x : ℕ × SignalPayload). x.0 ≤ now) now whole
              (All-append (λ (x : ℕ × SignalPayload). x.0 ≤ now) (buffer_of i g)
                ((now, signal) ∷ []) up (omega arith, tt)));
        covers = λ later k.
            ap (keep (is_fresh width later)) same
            ∙ keep-keep_fresh width now later whole k
            ∙ keep_fresh-append width later (buffer_of i g) ((now, signal) ∷ [])
            ∙ ap (λ (l : Buffer). l ++ keep (is_fresh width later) ((now, signal) ∷ []))
                (h.covers later (omega (arith, le, k)))
            ∙ sym (keep_fresh-append width later past ((now, signal) ∷ []));
        noted = noted-offer i i signal now g h.noted;
      }

  IsTracking-new : (i : String) → IsTracking s i 0 [] new_thesis_generator
  unfolding buffer_of lookup last_of
  IsTracking-new i = record { sorted = tt; by = tt; covers = λ later k. refl; noted = refl }

  cooldown_ok-is_due :
      (i : String) (now : ℕ) (g : ThesisGenerator)
      → lookup i g.cooldowns ≡ last_of i g.generating
      → cooldown_ok s i now g ≡ is_due s i now g.generating
  unfolding cooldown_ok
  cooldown_ok-is_due i now g h =
      ap
        (λ (o : Option ℕ). elim o [
          | none ↦ true
          | some t ↦ leb (t + s.cooldown_minutes * 60_000_000) now
        ])
        h

  IsTracking-offer_all :
      (i : String) (offers : Offers) (t : ℕ) (past : Buffer) (g : ThesisGenerator)
      → IsOrderedFrom t offers
      → IsTracking s i t past g
      → IsTracking s i (last_time t offers) (past ++ heard i offers) (offer_all offers g)
  unfolding offer_all heard
  IsTracking-offer_all i [] t past g o h =
      subst (λ (l : Buffer). IsTracking s i t l g) (sym (append-nil past)) h
  IsTracking-offer_all i ((j, signal, now) ∷ offers) t past g (le, o) h =
      let next = state_of (offer lib ask s j signal now g) in
      elim (str_eq-cases j i) [
        | inl (same, e) ↦
            subst (λ (l : Buffer). IsTracking s i (last_time now offers) l (offer_all offers next))
              (append_assoc past ((now, signal) ∷ []) (heard i offers) ∙ (rw e refl))
              (IsTracking-offer_all i offers now (past ++ (now, signal) ∷ []) next o (
                subst
                  (λ k.
                    IsTracking s i now (past ++ (now, signal) ∷ [])
                      (state_of (offer lib ask s k signal now g)))
                  (sym same) (IsTracking-self i signal t now past g le h)))
        | inr (_, e) ↦
            subst
              (λ (l : Buffer).
                IsTracking s i (last_time now offers) (past ++ l) (offer_all offers next))
              (sym (rw e refl))
              (IsTracking-offer_all i offers now past next o
                (IsTracking-other i j signal t now past g le e h))
      ]

  -- The signals of an instrument within the window at a time, this one included.
  abbrev pub window : String → SignalPayload → ℕ → Offers → Buffer
  window i signal now offers =
      keep (is_fresh (s.signal_window_minutes * 60_000_000) now)
        (heard i offers ++ (now, signal) ∷ [])

  -- After any offers whose times do not go back, the next one begins a generation exactly where the
  -- instrument has enough signals within the window among all that it was offered, or the signal is
  -- a seed by itself, and the last generation for the instrument is a cooldown ago or there is none.
  pub offer-fires :
      (i : String) (signal : SignalPayload) (now : ℕ) (offers : Offers)
      → IsOrderedFrom 0 offers
      → last_time 0 offers ≤ now
      → let g = offer_all offers new_thesis_generator in
        (state_of (offer lib ask s i signal now g)).generating ≡ (
          if (leb s.min_signals_to_trigger (length (window i signal now offers)) || is_seed signal)
            && is_due s i now g.generating
          then g.generating ++ (i, now) ∷ []
          else g.generating)
  offer-fires i signal now offers o le =
      let g = offer_all offers new_thesis_generator in
      let h = IsTracking-offer_all i offers 0 [] new_thesis_generator o (IsTracking-new i) in
      let held : extended s i signal now g ≡ window i signal now offers =
        extended-keep i signal (last_time 0 offers) now (heard i offers) g le h
        ∙ keep_fresh-append width now (buffer_of i g) ((now, signal) ∷ [])
        ∙ ap (λ (l : Buffer). l ++ keep (is_fresh width now) ((now, signal) ∷ [])) (h.covers now le)
        ∙ sym (keep_fresh-append width now (heard i offers) ((now, signal) ∷ [])) in
      generating-offer i signal now g
      ∙ ap (λ b. if b then g.generating ++ (i, now) ∷ [] else g.generating)
          (ap
              (λ (l : Buffer).
                (leb s.min_signals_to_trigger (length l) || is_seed signal)
                && cooldown_ok s i now g)
              held
            ∙ ap
                (λ b.
                  (leb s.min_signals_to_trigger (length (window i signal now offers))
                    || is_seed signal)
                  && b)
                (cooldown_ok-is_due i now g h.noted))
