-- ===== src/Prelude/Sublists.antt =====
-- Lists that leave some members of another out, in its order.
use mathlib.Core.List.{Sublistᴰ, Sublistᴰ.slnil, Sublistᴰ.cons, Sublistᴰ.cons-cons}
use afterhours.Prelude.{String, refl, List, [], ◌∷◌, ◌++◌}

pub Sublistᴰ-append_one :
    (xs ys : List String) (z : String) → Sublistᴰ xs ys → Sublistᴰ (xs ++ z ∷ []) (ys ++ z ∷ [])
Sublistᴰ-append_one xs ys z slnil = cons-cons refl slnil
Sublistᴰ-append_one xs (y ∷ ys) z (cons h) = cons (Sublistᴰ-append_one xs ys z h)
Sublistᴰ-append_one (x ∷ xs) (y ∷ ys) z (cons-cons e h) =
    cons-cons e (Sublistᴰ-append_one xs ys z h)

pub Sublistᴰ-drop :
    (xs ys zs : List String) (z : String) → Sublistᴰ (xs ++ z ∷ ys) zs → Sublistᴰ (xs ++ ys) zs
Sublistᴰ-drop [] ys [] z h = elim h [ ]
Sublistᴰ-drop (x ∷ xs) ys [] z h = elim h [ ]
Sublistᴰ-drop [] ys (w ∷ zs) z (cons h) = cons (Sublistᴰ-drop [] ys zs z h)
Sublistᴰ-drop [] ys (w ∷ zs) z (cons-cons e h) = cons h
Sublistᴰ-drop (x ∷ xs) ys (w ∷ zs) z (cons h) = cons (Sublistᴰ-drop (x ∷ xs) ys zs z h)
Sublistᴰ-drop (x ∷ xs) ys (w ∷ zs) z (cons-cons e h) = cons-cons e (Sublistᴰ-drop xs ys zs z h)
