-- ===== src/Portfolio/Orders/Keys.antt =====
-- The idempotency keys of core/schemas/decision.py.
use Prim.Native.String.{◌++◌ as str_append, len, slice}
use text.Mathlib.TextPositions.{len-append, slice-append_right}
use text.Mathlib.TextLemmas as TextLemmas
use afterhours.Prelude.{
  ℕ, ◌+◌, ◌-◌, String, ◌≡◌, refl, sym, ap, ◌∙◌, true, false, arith, str_eq, eq_iff,
}
use afterhours.Core.Events.{Intent, opening, closing}
use afterhours.Portfolio.Orders.{make_client_order_id}

-- The last character of a text that ends in the text `t` of length 1.
last_of : String → String
last_of s = slice s (len s - 1) (len s)

minus_one : (n : ℕ) → n + 1 - 1 ≡ n
minus_one n = omega arith

false_not_true : false ≡ true → ⊥
false_not_true h = ground arith

last_of-append : (s t : String) → len t ≡ 1 → last_of (str_append s t) ≡ t
unfolding last_of
last_of-append s t h =
    rw (len-append, h, minus_one (len s))
      (ap (λ n. slice (str_append s t) (len s) (len s + n)) (sym h) ∙ slice-append_right s t)

-- The two intents end in different letters.
different_ends :
    (a b : String) → str_append a ":open" ≡ str_append b ":close" → str_eq "n" "e" ≡ true
different_ends a b h = (eq_iff "n" "e").1 (
    sym (last_of-append (str_append a ":ope") "n" refl)
    ∙ ap last_of
        (TextLemmas.append_assoc a ":ope" "n" ∙ h ∙ sym (TextLemmas.append_assoc b ":clos" "e"))
    ∙ last_of-append (str_append b ":clos") "e" refl)

-- An idempotency key names one decision and one intent: equal keys come from the same decision and
-- the same intent, so that no opening order is taken for a duplicate of a closing one.
make_client_order_id-injective :
    (a b : String) (i j : Intent)
    → make_client_order_id a i ≡ make_client_order_id b j
    → (a ≡ b) × (i ≡ j)
unfolding make_client_order_id
make_client_order_id-injective a b opening opening h =
    (TextLemmas.append_cancel_right a b ":open" h, refl)
make_client_order_id-injective a b closing closing h =
    (TextLemmas.append_cancel_right a b ":close" h, refl)
make_client_order_id-injective a b opening closing h =
    absurd (false_not_true (different_ends a b h))
make_client_order_id-injective a b closing opening h =
    absurd (false_not_true (different_ends b a (sym h)))
