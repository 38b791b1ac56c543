-- ===== src/Discovery/Ranking.antt =====
-- discovery/score.py: the stable sort by falling score, and what a selection sees of it.
use afterhours.Prelude.{
  ℕ, zero, suc, ◌≤◌, ◌≡◌, ◌⊎◌, refl, ap, ◌∙◌, Bool, true, false, List, [], ◌∷◌, ◌++◌, arith, All,
  All-map, length, Bool-cases, inl, inr, if_rule, if◌then◌else◌,
}
use afterhours.Core.Store.{keep}
use afterhours.Discovery.Floats.{insert_descending, sort_descending, take}

module _ {A : Type 0} where
  -- The members that one list has over its first `n`.
  pub beyond : ℕ → List A → List A
  beyond zero xs = xs
  beyond (suc n) [] = []
  beyond (suc n) (x ∷ xs) = beyond n xs

  pub take-beyond : (n : ℕ) (xs : List A) → take n xs ++ beyond n xs ≡ xs
  unfolding take beyond
  take-beyond zero xs = refl
  take-beyond (suc n) [] = refl
  take-beyond (suc n) (x ∷ xs) = ap (λ (l : List A). x ∷ l) (take-beyond n xs)

  pub length-take : (n : ℕ) (xs : List A) → length (take n xs) ≤ n
  unfolding take
  length-take zero xs = omega arith
  length-take (suc n) [] = omega arith
  length-take (suc n) (x ∷ xs) = omega (arith, length-take n xs)

  -- Nothing is left over, or as many were taken as were asked for.
  pub take-full : (n : ℕ) (xs : List A) → (beyond n xs ≡ []) ⊎ (length (take n xs) ≡ n)
  unfolding take beyond
  take-full zero xs = inr refl
  take-full (suc n) [] = inl refl
  take-full (suc n) (x ∷ xs) = elim (take-full n xs) [ inl e ↦ inl e | inr e ↦ inr (ap suc e) ]

  module _ (p : A → Bool) where
    pub keep-append : (xs ys : List A) → keep p (xs ++ ys) ≡ keep p xs ++ keep p ys
    unfolding keep
    keep-append [] ys = refl
    keep-append (x ∷ xs) ys = elim (Bool-cases (p x)) [
      | inl e ↦ rw (e, keep-append xs ys) refl
      | inr e ↦ rw (e, keep-append xs ys) refl
    ]

    pub All-keep : (P : A → Type 0) (xs : List A) → All P xs → All P (keep p xs)
    unfolding keep
    All-keep P [] h = tt
    All-keep P (x ∷ xs) (hx, h) =
        if_rule (All P) (p x) (λ _. (hx, All-keep P xs h)) (λ _. All-keep P xs h)

    pub All-kept : (xs : List A) → All (λ (x : A). p x ≡ true) (keep p xs)
    unfolding keep
    All-kept [] = tt
    All-kept (x ∷ xs) =
        if_rule (All (λ (y : A). p y ≡ true)) (p x) (λ e. (e, All-kept xs)) (λ _. All-kept xs)

    pub keep-none : (xs : List A) → All (λ (x : A). p x ≡ false) xs → keep p xs ≡ []
    unfolding keep
    keep-none [] h = refl
    keep-none (x ∷ xs) (hx, h) = rw hx (keep-none xs h)

    pub keep-keep_comm : (q : A → Bool) (xs : List A) → keep p (keep q xs) ≡ keep q (keep p xs)
    unfolding keep
    keep-keep_comm q [] = refl
    keep-keep_comm q (x ∷ xs) = ground (arith, keep-keep_comm q xs)

  module _ (lt : A → A → Bool) where
    pub All-insert_descending :
        (P : A → Type 0) (x : A) (ys : List A) → P x → All P ys → All P (insert_descending lt x ys)
    unfolding insert_descending
    All-insert_descending P x [] hx h = (hx, tt)
    All-insert_descending P x (y ∷ ys) hx (hy, h) =
        if_rule (All P) (lt x y) (λ _. (hy, All-insert_descending P x ys hx h)) (λ _. (hx, (hy, h)))

    pub All-sort_descending :
        (P : A → Type 0) (xs : List A) → All P xs → All P (sort_descending lt xs)
    unfolding sort_descending
    All-sort_descending P [] h = tt
    All-sort_descending P (x ∷ xs) (hx, h) =
        All-insert_descending P x (sort_descending lt xs) hx (All-sort_descending P xs h)

    -- No member is below a later one.
    abbrev pub IsDescending : List A → Type 0
    IsDescending [] = Unit
    IsDescending (x ∷ xs) = All (λ (y : A). lt x y ≡ false) xs × IsDescending xs

    module _ (asymm : (a b : A) → lt a b ≡ true → lt b a ≡ false)
        (trans : (a b c : A) → lt b a ≡ false → lt c b ≡ false → lt c a ≡ false) where
      IsDescending-insert :
          (x : A) (ys : List A) → IsDescending ys → IsDescending (insert_descending lt x ys)
      unfolding insert_descending
      IsDescending-insert x [] h = (tt, tt)
      IsDescending-insert x (y ∷ ys) (hy, h) =
          if_rule IsDescending (lt x y)
            (λ e. (
              All-insert_descending (λ (z : A). lt y z ≡ false) x ys (asymm x y e) hy,
              IsDescending-insert x ys h,
            ))
            (λ e. (
              (
                e,
                All-map (λ (z : A). lt y z ≡ false) (λ (z : A). lt x z ≡ false)
                    (λ z f. trans z y x f e) ys hy,
              ),
              (hy, h),
            ))

      pub sort_descending-IsDescending : (xs : List A) → IsDescending (sort_descending lt xs)
      unfolding sort_descending
      sort_descending-IsDescending [] = tt
      sort_descending-IsDescending (x ∷ xs) =
          IsDescending-insert x (sort_descending lt xs) (sort_descending-IsDescending xs)

    pub IsDescending-keep :
        (p : A → Bool) (xs : List A) → IsDescending xs → IsDescending (keep p xs)
    unfolding keep
    IsDescending-keep p [] h = tt
    IsDescending-keep p (x ∷ xs) (hx, h) =
        if_rule IsDescending (p x)
          (λ _. (All-keep p (λ (y : A). lt x y ≡ false) xs hx, IsDescending-keep p xs h))
          (λ _. IsDescending-keep p xs h)

    -- A selection of no two members sees no sorting.
    module _ (p : A → Bool) where
      keep-insert_descending :
          (x : A) (ys : List A)
          → (p x ≡ false) ⊎ (keep p ys ≡ [])
          → keep p (insert_descending lt x ys) ≡ keep p (x ∷ ys)
      unfolding insert_descending keep
      keep-insert_descending x [] h = refl
      keep-insert_descending x (y ∷ ys) (inl h) =
          ground (arith, keep-insert_descending x ys (inl h))
      keep-insert_descending x (y ∷ ys) (inr h) = elim (Bool-cases (p y)) [
        | inl e ↦ absurd (ground (arith, e, h))
        | inr e ↦ ground (arith, e, h, keep-insert_descending x ys (inr (ground (arith, e, h))))
      ]

      -- At most one member is selected.
      abbrev pub IsSingle : List A → Type 0
      IsSingle [] = Unit
      IsSingle (x ∷ xs) = ((p x ≡ false) ⊎ (keep p xs ≡ [])) × IsSingle xs

      pub keep-sort_descending :
          (xs : List A) → IsSingle xs → keep p (sort_descending lt xs) ≡ keep p xs
      unfolding sort_descending keep
      keep-sort_descending [] h = refl
      keep-sort_descending (x ∷ xs) (inl e, h) =
          keep-insert_descending x (sort_descending lt xs) (inl e)
          ∙ (rw (e, keep-sort_descending xs h) refl)
      keep-sort_descending (x ∷ xs) (inr e, h) =
          keep-insert_descending x (sort_descending lt xs) (inr (keep-sort_descending xs h ∙ e))
          ∙ ap (λ (r : List A). if p x then x ∷ r else r) (keep-sort_descending xs h)
