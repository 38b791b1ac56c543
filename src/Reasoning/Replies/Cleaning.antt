-- ===== src/Reasoning/Replies/Cleaning.antt =====
-- reasoning/thesis/generator.py, `_extract_json`: what is cleaned away before an object, and how the
-- object is found.
use afterhours.Prelude.{
  ℕ, zero, suc, ◌+◌, ◌≤◌, ◌≡◌, refl, sym, ap, ◌∙◌, Bool, true, false, none, some, List, [], ◌∷◌,
  ◌++◌, arith, ◌==◌, length, All, if_rule,
}
use afterhours.Reasoning.Replies.{
  opening, closing, starts_with, drop, fence, language, through_close, search_object, spaces,
  fence_length, without_fences,
}

-- The text does not have this code point.
abbrev pub Lacks : ℕ → List ℕ → Type 0
Lacks p = All (λ (c : ℕ). (c == p) ≡ false)

starts_with-le :
    (ps xs rest : List ℕ)
    → All (λ (p : ℕ). (opening == p) ≡ false) ps
    → starts_with ps (xs ++ opening ∷ rest) ≡ true
    → length ps ≤ length xs
unfolding starts_with
starts_with-le [] xs rest h e = omega arith
starts_with-le (p ∷ ps) [] rest (hp, h) e = absurd (ground (arith, hp, e))
starts_with-le (p ∷ ps) (x ∷ xs) rest (hp, h) e =
    ground (arith, starts_with-le ps xs rest h (ground (arith, e)))

drop-append :
    (n : ℕ) (xs ys : List ℕ)
    → n ≤ length xs
    → (drop n (xs ++ ys) ≡ drop n xs ++ ys) × (length (drop n xs) + n ≡ length xs)
unfolding drop
drop-append zero xs ys h = (refl, omega arith)
drop-append (suc n) [] ys h = absurd (omega arith)
drop-append (suc n) (x ∷ xs) ys h =
    let (same, long) = drop-append n xs ys (omega arith) in (same, omega (arith, long))

Lacks-drop : (p n : ℕ) (xs : List ℕ) → Lacks p xs → Lacks p (drop n xs)
unfolding drop
Lacks-drop p zero xs h = h
Lacks-drop p (suc n) [] h = tt
Lacks-drop p (suc n) (x ∷ xs) (_, h) = Lacks-drop p n xs h

through_close-none : (xs : List ℕ) → Lacks closing xs → through_close xs ≡ none
unfolding through_close
through_close-none [] h = refl
through_close-none (x ∷ xs) (hx, h) = rw (through_close-none xs h, hx) refl

through_close-last :
    (mid after : List ℕ)
    → Lacks closing after
    → through_close (mid ++ closing ∷ after) ≡ some (mid ++ closing ∷ [])
unfolding through_close
through_close-last [] after h = rw (through_close-none after h) refl
through_close-last (x ∷ mid) after h = rw (through_close-last mid after h) refl

pub search_object-first :
    (before mid after : List ℕ)
    → Lacks opening before
    → Lacks closing after
    → search_object (before ++ opening ∷ (mid ++ closing ∷ after))
      ≡ some (opening ∷ (mid ++ closing ∷ []))
unfolding search_object
search_object-first [] mid after hb ha = rw (through_close-last mid after ha) refl
search_object-first (x ∷ before) mid after (hx, hb) ha =
    rw hx (search_object-first before mid after hb ha)

ticks : All (λ (p : ℕ). (opening == p) ≡ false) fence
ticks = (refl, (refl, (refl, tt)))

letters : All (λ (p : ℕ). (opening == p) ≡ false) language
letters = (refl, (refl, (refl, (refl, tt))))

module _ (is_space : ℕ → Bool) (open_solid : is_space opening ≡ false) where
  spaces-le : (xs rest : List ℕ) → spaces is_space (xs ++ opening ∷ rest) ≤ length xs
  unfolding spaces
  spaces-le [] rest = ground (arith, open_solid)
  spaces-le (x ∷ xs) rest = ground (arith, spaces-le xs rest)

  spaces_after-le :
      (n : ℕ) (xs rest : List ℕ)
      → n ≤ length xs
      → n + spaces is_space (drop n (xs ++ opening ∷ rest)) ≤ length xs
  spaces_after-le n xs rest h =
      let (same, long) = drop-append n xs (opening ∷ rest) h in
      rw same (omega (arith, long, spaces-le (drop n xs) rest))

  starts_after-le :
      (n : ℕ) (ps xs rest : List ℕ)
      → n ≤ length xs
      → All (λ (p : ℕ). (opening == p) ≡ false) ps
      → starts_with ps (drop n (xs ++ opening ∷ rest)) ≡ true
      → n + length ps ≤ length xs
  starts_after-le n ps xs rest h hp e =
      let (same, long) = drop-append n xs (opening ∷ rest) h in
      omega
        (arith, long, starts_with-le ps (drop n xs) rest hp (ap (starts_with ps) (sym same) ∙ e))

  -- No match reaches an opening brace.
  fence_length-le : (xs rest : List ℕ) → fence_length is_space (xs ++ opening ∷ rest) ≤ length xs
  unfolding fence_length
  fence_length-le xs rest =
      let cs = xs ++ opening ∷ rest in
      if_rule (λ (n : ℕ). n ≤ length xs) (starts_with fence cs)
        (λ e.
          let three : 3 ≤ length xs = starts_with-le fence xs rest ticks e in
          spaces_after-le _ xs rest (
            if_rule (λ (n : ℕ). n ≤ length xs) (starts_with language (drop 3 cs))
              (λ f. starts_after-le 3 language xs rest three letters f) (λ _. three)))
        (λ _.
          if_rule (λ (n : ℕ). n ≤ length xs) (starts_with fence (drop (spaces is_space cs) cs))
            (λ f. starts_after-le (spaces is_space cs) fence xs rest (spaces-le xs rest) ticks f)
            (λ _. omega arith))

  pub All-without_fences :
      (P : ℕ → Type 0) (n : ℕ) (xs : List ℕ) → All P xs → All P (without_fences is_space n xs)
  unfolding without_fences
  All-without_fences P n [] h = tt
  All-without_fences P (suc n) (x ∷ xs) (hx, h) = All-without_fences P n xs h
  All-without_fences P zero (x ∷ xs) (hx, h) =
      elim (fence_length is_space (x ∷ xs))
        as (λ n. All P (elim n [
          | zero ↦ x ∷ without_fences is_space zero xs
          | suc k ↦ without_fences is_space k xs
        ])) [ zero ↦ (hx, All-without_fences P zero xs h) | suc k ↦ All-without_fences P k xs h ]

  -- What stands before an opening brace is cleaned by itself.
  pub without_fences-before :
      (n : ℕ) (xs rest : List ℕ)
      → n ≤ length xs
      → Lacks opening xs
      → (ys : List ℕ) × Lacks opening ys
        × (without_fences is_space n (xs ++ opening ∷ rest)
            ≡ ys ++ without_fences is_space zero (opening ∷ rest))
  unfolding without_fences
  without_fences-before zero [] rest h hx = ([], tt, refl)
  without_fences-before (suc n) [] rest h hx = absurd (omega arith)
  without_fences-before (suc n) (x ∷ xs) rest h (hx, hxs) =
      without_fences-before n xs rest (omega arith) hxs
  without_fences-before zero (x ∷ xs) rest h (hx, hxs) =
      (elim (fence_length is_space (x ∷ xs ++ opening ∷ rest))
          as (λ n.
            n ≤ suc (length xs)
            → (ys : List ℕ) × Lacks opening ys
              × (elim n [
                | zero ↦ x ∷ without_fences is_space zero (xs ++ opening ∷ rest)
                | suc k ↦ without_fences is_space k (xs ++ opening ∷ rest)
              ]
                  ≡ ys ++ without_fences is_space zero (opening ∷ rest))) [
                    | zero ↦ λ le.
                        let (ys, lacks, same) =
                          without_fences-before zero xs rest (omega arith) hxs in
                        (x ∷ ys, (hx, lacks), ap (λ (l : List ℕ). x ∷ l) same)
                    | suc k ↦ λ le. without_fences-before k xs rest (omega arith) hxs
                  ])
        (fence_length-le (x ∷ xs) rest)
