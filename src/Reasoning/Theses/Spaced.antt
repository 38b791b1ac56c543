-- ===== src/Reasoning/Theses/Spaced.antt =====
-- reasoning/thesis/generator.py: the cooldown keeps the generations for an instrument apart.
use afterhours.Prelude.{
  ℕ, ◌+◌, ◌*◌, ◌≤◌, String, ◌≡◌, refl, ◌∙◌, true, false, ◌||◌, ◌&&◌, Option, some, List, [], ◌∷◌,
  ◌++◌, arith, str_eq, eq_iff, str_eq-cases, inl, inr, leb, length, if_rule, option_rule, All,
  All-append, All-map,
}
use afterhours.Prelude.Dict.{Dict, lookup, insert, lookup-insert, lookup-insert_self}
use afterhours.Reasoning.Replies.{Library, Obtained, raised, unparsed, parsed, obtain}
use afterhours.Reasoning.Theses.{
  ThesisSettings, SignalPayload, ThesisPrompt, Buffer, ThesisGenerator, new_thesis_generator,
  Arrival, market_tick, signal_created, Outcome, returned, failed, state_of, handle_tick, is_seed,
  extended, cooldown_ok, is_ignored, thesis_of, conclude, generate, offer, offer_each,
  handle_signal, step, run,
}

abbrev width_of : ThesisSettings → ℕ
width_of s = s.cooldown_minutes * 60_000_000

-- The second generation is for another instrument, or a cooldown later at least.
abbrev pub IsApart : ℕ → String × ℕ → String × ℕ → Type 0
IsApart width (i, t) (j, u) = str_eq i j ≡ true → t + width ≤ u

-- Each generation stands apart from all after it.
abbrev pub IsSpaced : ℕ → List (String × ℕ) → Type 0
IsSpaced width [] = Unit
IsSpaced width (e ∷ rest) = All (IsApart width e) rest × IsSpaced width rest

IsSpaced-append_one :
    (width : ℕ) (rest : List (String × ℕ)) (b : String × ℕ)
    → IsSpaced width rest
    → All (λ a. IsApart width a b) rest
    → IsSpaced width (rest ++ b ∷ [])
IsSpaced-append_one width [] b h hb = (tt, tt)
IsSpaced-append_one width (a ∷ rest) b (ha, h) (hab, hb) =
    (All-append (IsApart width a) rest (b ∷ []) ha (hab, tt), IsSpaced-append_one width rest b h hb)

-- The cooldown of the instrument was noted at the time of the generation or later.
abbrev IsNoted : Dict ℕ → String × ℕ → Type 0
IsNoted cooldowns (i, t) = (u : ℕ) × (lookup i cooldowns ≡ some u) × (t ≤ u)

record IsPaced (s : ThesisSettings) (g : ThesisGenerator) : Type 0 where
  spaced : IsSpaced (width_of s) g.generating
  noted : All (IsNoted g.cooldowns) g.generating

module _ (s : ThesisSettings) where
  IsApart-noted :
      (g : ThesisGenerator) (i : String) (now : ℕ) (e : String × ℕ)
      → cooldown_ok s i now g ≡ true
      → IsNoted g.cooldowns e
      → IsApart (width_of s) e (i, now)
  unfolding cooldown_ok
  IsApart-noted g i now (j, t) ok (u, last, before) same = ground (arith, eq_iff j i)

  IsNoted-now :
      (g : ThesisGenerator) (i : String) (now : ℕ) (e : String × ℕ)
      → cooldown_ok s i now g ≡ true
      → IsNoted g.cooldowns e
      → IsNoted (insert i now g.cooldowns) e
  unfolding cooldown_ok
  IsNoted-now g i now (j, t) ok (u, last, before) = elim (str_eq-cases i j) [
    | inl (eq, e) ↦
        (now, lookup-insert i j now g.cooldowns ∙ (rw e refl), ground (arith, eq_iff i j))
    | inr (_, e) ↦ (u, lookup-insert i j now g.cooldowns ∙ (rw e last), before)
  ]

  -- A generation whose cooldown has passed, and its note.
  IsPaced-note :
      (g g' : ThesisGenerator) (i : String) (now : ℕ)
      → cooldown_ok s i now g ≡ true
      → g'.generating ≡ g.generating ++ (i, now) ∷ []
      → g'.cooldowns ≡ insert i now g.cooldowns
      → IsPaced s g
      → IsPaced s g'
  IsPaced-note g g' i now ok log notes h = record {
    spaced = rw log (
        IsSpaced-append_one (width_of s) g.generating (i, now) h.spaced
          (All-map (IsNoted g.cooldowns) (λ e. IsApart (width_of s) e (i, now))
            (λ e. IsApart-noted g i now e ok) g.generating h.noted));
    noted =
        rw (log, notes)
          (All-append (IsNoted (insert i now g.cooldowns)) g.generating ((i, now) ∷ [])
            (All-map (IsNoted g.cooldowns) (IsNoted (insert i now g.cooldowns))
              (λ e. IsNoted-now g i now e ok) g.generating h.noted)
            ((now, lookup-insert_self i now g.cooldowns, omega arith), tt));
  }

  module _ (lib : Library) (ask : ℕ → Option (List ℕ) → ThesisPrompt → Option (List ℕ)) where
    -- A generation is logged, and touches neither the cooldowns nor the buffers.
    abbrev pub IsGenerated : String → ℕ → ThesisGenerator → Outcome → Type 0
    IsGenerated i now g o =
        ((state_of o).generating ≡ g.generating ++ (i, now) ∷ [])
        × ((state_of o).cooldowns ≡ g.cooldowns)
        × ((state_of o).buffers ≡ g.buffers)

    conclude-IsGenerated :
        (i : String) (now : ℕ) (g : ThesisGenerator) (signals : List SignalPayload)
        → (reply : ℕ × Obtained)
        → IsGenerated i now g (
            conclude lib ask s i signals now reply
              (record g { generating = g.generating ++ (i, now) ∷ [] }))
    unfolding conclude
    conclude-IsGenerated i now g signals (asked, raised) = (refl, refl, refl)
    conclude-IsGenerated i now g signals (asked, unparsed) = (refl, refl, refl)
    conclude-IsGenerated i now g signals (asked, parsed reply) =
        option_rule (IsGenerated i now g) (thesis_of lib s (lib.new_id asked) i signals now reply)
          (λ _. (refl, refl, refl)) (λ thesis _. (refl, refl, refl))

    pub generate-IsGenerated :
        (i : String) (buffered : Buffer) (now : ℕ) (g : ThesisGenerator)
        → IsGenerated i now g (generate lib ask s i buffered now g)
    unfolding generate
    generate-IsGenerated i buffered now g =
        conclude-IsGenerated i now g _ (obtain lib.is_space lib.loads ask _ g.asked)

    IsPaced-offer :
        (i : String) (signal : SignalPayload) (now : ℕ) (g : ThesisGenerator)
        → IsPaced s g
        → IsPaced s (state_of (offer lib ask s i signal now g))
    unfolding offer
    IsPaced-offer i signal now g h =
        let buf = extended s i signal now g in
        let g' : ThesisGenerator = record g {
          buffers = insert i buf g.buffers;
          cooldowns = insert i now g.cooldowns;
        } in
        if_rule (λ (o : Outcome). IsPaced s (state_of o))
          ((leb s.min_signals_to_trigger (length buf) || is_seed signal) && cooldown_ok s i now g)
          (λ e.
            let (log, notes, _) = generate-IsGenerated i buf now g' in
            IsPaced-note g _ i now (ground (arith, e)) log notes h)
          (λ _. record { spaced = h.spaced; noted = h.noted })

    IsPaced-offer_each :
        (watched : Option (List String)) (instruments : List String) (signal : SignalPayload)
        → (now : ℕ) (g : ThesisGenerator) → IsPaced s g
        → IsPaced s (state_of (offer_each lib ask s watched instruments signal now g))
    unfolding offer_each
    IsPaced-offer_each watched [] signal now g h = h
    IsPaced-offer_each watched (i ∷ instruments) signal now g h =
        elim (is_ignored watched i)
          as (λ b. IsPaced s (
            state_of (elim b [
              | true ↦ offer_each lib ask s watched instruments signal now g
              | false ↦ elim (offer lib ask s i signal now g) [
                | returned g' ↦ offer_each lib ask s watched instruments signal now g'
                | failed g' ↦ failed g'
              ]
            ]))) [
              | true ↦ IsPaced-offer_each watched instruments signal now g h
              | false ↦
                  (elim (offer lib ask s i signal now g)
                      as (λ o.
                        IsPaced s (state_of o)
                        → IsPaced s (
                            state_of (elim o [
                              | returned g' ↦ offer_each lib ask s watched instruments signal now g'
                              | failed g' ↦ failed g'
                            ]))) [
                              | returned g' ↦
                                  λ k. IsPaced-offer_each watched instruments signal now g' k
                              | failed g' ↦ λ k. k
                            ])
                    (IsPaced-offer i signal now g h)
            ]

    IsPaced-run :
        (arrivals : List Arrival) (g : ThesisGenerator)
        → IsPaced s g
        → IsPaced s (run lib ask s arrivals g)
    unfolding run step handle_tick handle_signal
    IsPaced-run [] g h = h
    IsPaced-run (market_tick instrument price ∷ arrivals) g h =
        IsPaced-run arrivals (handle_tick instrument price g) (
          if_rule (IsPaced s) (str_eq instrument "" || str_eq price "") (λ _. h)
            (λ _. record { spaced = h.spaced; noted = h.noted }))
    IsPaced-run (signal_created watched signal now ∷ arrivals) g h =
        IsPaced-run arrivals _ (IsPaced-offer_each watched signal.instruments signal now g h)

    -- Whatever arrives, in whatever order of its times, and whatever the model replies, the
    -- generations of theses begun for one instrument are at least a cooldown apart.
    pub generating-IsSpaced :
        (arrivals : List Arrival)
        → IsSpaced
            (s.cooldown_minutes * 60_000_000)
            (run lib ask s arrivals new_thesis_generator).generating
    generating-IsSpaced arrivals =
        (IsPaced-run arrivals new_thesis_generator (record { spaced = tt; noted = tt })).spaced
