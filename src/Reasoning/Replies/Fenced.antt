-- ===== src/Reasoning/Replies/Fenced.antt =====
-- reasoning/thesis/generator.py, `_extract_json`: an object in a reply is found, whatever fences and
-- prose stand around it.
use afterhours.Prelude.{
  ℕ, zero, ◌≡◌, refl, sym, ap, ◌∙◌, Bool, false, Option, none, some, List, [], ◌∷◌, ◌++◌,
  append_assoc, arith, ◌==◌, All, Bool-cases, inl, inr, if_rule, if◌then◌else◌,
}
use afterhours.Reasoning.Replies.{
  Json, backtick, opening, closing, starts_with, drop, fence, search_object, spaces, fence_length,
  without_fences, strip_start, strip_end, as_object, extract_json,
}
use afterhours.Reasoning.Replies.Cleaning.{
  Lacks, search_object-first, All-without_fences, without_fences-before,
}

module _ (is_space : ℕ → Bool) (open_solid : is_space opening ≡ false)
    (close_solid : is_space closing ≡ false) where
  -- In an object without backticks nothing is cleaned away.
  spaces_solid :
      (t after : List ℕ)
      → Lacks backtick t
      → starts_with fence (drop (spaces is_space (t ++ closing ∷ after)) (t ++ closing ∷ after))
        ≡ false
  unfolding spaces drop starts_with
  spaces_solid [] after h = rw close_solid refl
  spaces_solid (c ∷ t) after (hc, h) = elim (Bool-cases (is_space c)) [
    | inl e ↦ rw e (spaces_solid t after h)
    | inr e ↦ rw e (ground (arith, hc))
  ]

  starts_solid :
      (t after : List ℕ) → Lacks backtick t → starts_with fence (t ++ closing ∷ after) ≡ false
  unfolding starts_with
  starts_solid [] after h = refl
  starts_solid (c ∷ t) after (hc, h) = ground (arith, hc)

  fence_length-solid :
      (t after : List ℕ) → Lacks backtick t → fence_length is_space (t ++ closing ∷ after) ≡ 0
  unfolding fence_length
  fence_length-solid t after h = rw (starts_solid t after h, spaces_solid t after h) refl

  without_fences-cons :
      (c : ℕ) (cs : List ℕ)
      → fence_length is_space (c ∷ cs) ≡ 0
      → without_fences is_space zero (c ∷ cs) ≡ c ∷ without_fences is_space zero cs
  unfolding without_fences
  without_fences-cons c cs h = rw (without_fences, h) refl

  without_fences-solid :
      (t after : List ℕ)
      → Lacks backtick t
      → without_fences is_space zero (t ++ closing ∷ after)
        ≡ t ++ closing ∷ without_fences is_space zero after
  without_fences-solid [] after h =
      without_fences-cons closing after (fence_length-solid [] after tt)
  without_fences-solid (c ∷ t) after (hc, h) =
      without_fences-cons c (t ++ closing ∷ after) (fence_length-solid (c ∷ t) after (hc, h))
      ∙ ap (λ (l : List ℕ). c ∷ l) (without_fences-solid t after h)

  strip_start-before :
      (xs rest : List ℕ)
      → Lacks opening xs
      → (ys : List ℕ) × Lacks opening ys
        × (strip_start is_space (xs ++ opening ∷ rest) ≡ ys ++ opening ∷ rest)
  unfolding strip_start
  strip_start-before [] rest h = ([], tt, rw open_solid refl)
  strip_start-before (x ∷ xs) rest (hx, h) = elim (Bool-cases (is_space x)) [
    | inl e ↦ rw e (strip_start-before xs rest h)
    | inr e ↦ (x ∷ xs, (hx, h), rw e refl)
  ]

  All-strip_end : (P : ℕ → Type 0) (xs : List ℕ) → All P xs → All P (strip_end is_space xs)
  unfolding strip_end
  All-strip_end P [] h = tt
  All-strip_end P (x ∷ xs) (hx, h) =
      elim (strip_end is_space xs)
          as (λ ys.
            All P ys
            → All P (elim ys [ [] ↦ if is_space x then [] else x ∷ [] | d ∷ ds ↦ x ∷ d ∷ ds ])) [
              | [] ↦ λ _. if_rule (All P) (is_space x) (λ _. tt) (λ _. (hx, tt))
              | d ∷ ds ↦ λ k. (hx, k)
            ]
        (All-strip_end P xs h)

  strip_end-cons :
      (c d : ℕ) (ds xs : List ℕ)
      → strip_end is_space xs ≡ d ∷ ds
      → strip_end is_space (c ∷ xs) ≡ c ∷ d ∷ ds
  unfolding strip_end
  strip_end-cons c d ds xs h = rw (strip_end, h) refl

  strip_end-solid :
      (xs : List ℕ) → strip_end is_space (closing ∷ xs) ≡ closing ∷ strip_end is_space xs
  unfolding strip_end
  strip_end-solid xs =
      elim (strip_end is_space xs)
        as (λ ys.
          (elim ys [
            | [] ↦ if is_space closing then [] else closing ∷ []
            | d ∷ ds ↦ closing ∷ d ∷ ds
          ])
          ≡ closing ∷ ys) [ [] ↦ rw close_solid refl | d ∷ ds ↦ refl ]

  -- Stripping the end leaves what ends with a brace.
  strip_end-after :
      (t after : List ℕ)
      → strip_end is_space (t ++ closing ∷ after) ≡ t ++ closing ∷ strip_end is_space after
  strip_end-after [] after = strip_end-solid after
  strip_end-after (c ∷ []) after =
      strip_end-cons c closing (strip_end is_space after) (closing ∷ after) (strip_end-solid after)
  strip_end-after (c ∷ d ∷ t) after =
      strip_end-cons c d (t ++ closing ∷ strip_end is_space after) (d ∷ t ++ closing ∷ after)
        (strip_end-after (d ∷ t) after)

  -- A cleaned and stripped reply still has its object, with no opening brace before it and no
  -- closing one after it.
  cleaned_lem :
      (before mid after : List ℕ)
      → Lacks opening before
      → Lacks backtick mid
      → (start : List ℕ) × Lacks opening start
        × (strip_end is_space (
              strip_start is_space
                (without_fences is_space zero (before ++ opening ∷ (mid ++ closing ∷ after))))
            ≡ start
              ++ opening
                ∷ (mid ++ closing ∷ strip_end is_space (without_fences is_space zero after)))
  cleaned_lem before mid after hb hm =
      let rest = mid ++ closing ∷ without_fences is_space zero after in
      let (front, hf, cleaned) =
        without_fences-before is_space open_solid zero before (mid ++ closing ∷ after) (omega arith)
          hb in
      let (start, hs, stripped) = strip_start-before front rest hf in
      let solid : without_fences is_space zero (opening ∷ (mid ++ closing ∷ after))
          ≡ opening ∷ rest =
        without_fences-solid (opening ∷ mid) after (refl, hm) in
      (
        start,
        hs,
        ap (λ (cs : List ℕ). strip_end is_space (strip_start is_space cs))
              (cleaned ∙ ap (λ (l : List ℕ). front ++ l) solid)
            ∙ ap (strip_end is_space) (
                stripped
                ∙ sym (
                    append_assoc start (opening ∷ mid)
                      (closing ∷ without_fences is_space zero after)))
            ∙ strip_end-after (start ++ opening ∷ mid) (without_fences is_space zero after)
            ∙ append_assoc start (opening ∷ mid)
                (closing ∷ strip_end is_space (without_fences is_space zero after)),
      )

  -- An object without backticks is what is parsed of a reply, whatever stands before it without an
  -- opening brace and after it without a closing one: fences, a language tag, spaces and prose.
  pub extract_json-fenced :
      (loads : List ℕ → Option Json) (before mid after : List ℕ)
      → Lacks opening before
      → Lacks backtick mid
      → Lacks closing after
      → extract_json is_space loads (before ++ opening ∷ (mid ++ closing ∷ after))
        ≡ as_object is_space loads (loads (opening ∷ (mid ++ closing ∷ [])))
  unfolding extract_json
  extract_json-fenced loads before mid after hb hm ha =
      let (start, hs, cleaned) = cleaned_lem before mid after hb hm in
      let tail = strip_end is_space (without_fences is_space zero after) in
      let ht =
        All-strip_end (λ (c : ℕ). (c == closing) ≡ false) (without_fences is_space zero after)
          (All-without_fences is_space open_solid (λ (c : ℕ). (c == closing) ≡ false) zero after
            ha) in
      ap
        (λ (o : Option (List ℕ)). elim o [
          | none ↦ none
          | some found ↦ as_object is_space loads (loads found)
        ])
        (ap search_object cleaned ∙ search_object-first start mid tail hs ht)
