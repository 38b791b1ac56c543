-- ===== src/Core/Bus.antt =====
-- core/bus/in_process.py: the patterns of subscriptions and the list of subscribers. A handler is
-- named by a text, and a subscription by a number.
use Prim.Native.String.{◌++◌ as str_append, len, slice}
use text.Mathlib.Text.{starts_with}
use text.Mathlib.TextPositions.{len-append, slice-append_left, slice-append_right}
use afterhours.Prelude.{
  ℕ, ◌+◌, ◌-◌, String, ◌≡◌, refl, sym, ap, ◌∙◌, Bool, true, false, ◌||◌, ◌&&◌, List, [], ◌∷◌, ◌++◌,
  arith, str_eq, eq_iff, leb, ◌==◌, Bool-cases, inl, inr, if◌then◌else◌,
}

-- `pattern.endswith(".*")`
unfoldable pub is_domain : String → Bool
is_domain pattern =
    leb 2 (len pattern) && str_eq (slice pattern (len pattern - 2) (len pattern)) ".*"

-- `_matches`
unfoldable pub matches : String → String → Bool
unfolding is_domain
matches pattern event_type =
    if str_eq pattern "*"
    then true
    else if is_domain pattern
    then (let prefix = slice pattern 0 (len pattern - 2) in
        str_eq event_type prefix || starts_with event_type (str_append prefix "."))
    else str_eq pattern event_type

len-domain : (domain : String) → len (str_append domain ".*") ≡ len domain + 2
len-domain domain = len-append domain ".*"

minus_two : (n : ℕ) → n + 2 - 2 ≡ n
minus_two n = omega arith

two_not_one : (n : ℕ) → n + 2 ≡ 1 → ⊥
two_not_one n h = omega arith

is_domain-append : (domain : String) → is_domain (str_append domain ".*") ≡ true
unfolding is_domain
is_domain-append domain =
    rw (len-domain, minus_two (len domain), slice-append_right domain ".*") (ground arith)

-- A pattern that ends in ".*" is not the pattern "*".
not_star : (domain : String) → str_eq (str_append domain ".*") "*" ≡ false
not_star domain = elim (Bool-cases (str_eq (str_append domain ".*") "*")) [
  | inl e ↦ absurd (two_not_one _ (sym (len-domain domain) ∙ ap len ((eq_iff _ _).0 e)))
  | inr e ↦ e
]

-- A domain's pattern matches the domain's own name and what follows it after a dot, whatever the
-- name is, and nothing else.
matches-domain :
    (domain event_type : String)
    → matches (str_append domain ".*") event_type
      ≡ (str_eq event_type domain || starts_with event_type (str_append domain "."))
unfolding matches
matches-domain domain event_type =
    rw
      (
        not_star domain,
        is_domain-append domain,
        len-domain domain,
        minus_two (len domain),
        slice-append_left domain ".*",
      )
      refl

-- `Subscription`
pub record Subscription : Type 0 where
  pub id : ℕ
  pub pattern : String
  pub handler : String

-- `InProcessBus.subscribe`, with the new id that `uuid4` gives
unfoldable pub subscribe : ℕ → String → String → List Subscription → List Subscription
subscribe id pattern handler subs =
    subs ++ record { id = id; pattern = pattern; handler = handler } ∷ []

-- `InProcessBus.unsubscribe`
unfoldable pub unsubscribe : Subscription → List Subscription → List Subscription
unsubscribe sub [] = []
unsubscribe sub (s ∷ subs) =
    let rest = unsubscribe sub subs in if s.id == sub.id then rest else s ∷ rest

-- The handlers that `_fanout` calls.
unfoldable pub fanout : String → List Subscription → List String
fanout event_type [] = []
fanout event_type (s ∷ subs) =
    let rest = fanout event_type subs in
    if matches s.pattern event_type then s.handler ∷ rest else rest

-- The id is in use.
unfoldable pub uses : ℕ → List Subscription → Bool
uses id [] = false
uses id (s ∷ subs) = if s.id == id then true else uses id subs

unsubscribe-unused :
    (sub : Subscription) (subs : List Subscription)
    → uses sub.id subs ≡ false
    → unsubscribe sub subs ≡ subs
unfolding unsubscribe uses
unsubscribe-unused sub [] h = refl
unsubscribe-unused sub (s ∷ subs) h = ground (arith, unsubscribe-unused sub subs)

-- To unsubscribe what was subscribed last, under a new id, gives the subscribers of before in their
-- order; doing it once more changes nothing; and in between an event reaches the new handler after
-- all others, where its pattern matches.
unsubscribe-subscribe :
    (id : ℕ) (pattern handler event_type : String) (subs : List Subscription)
    → uses id subs ≡ false
    → let sub : Subscription = record { id = id; pattern = pattern; handler = handler } in
      (unsubscribe sub (subscribe id pattern handler subs) ≡ subs)
      × (unsubscribe sub subs ≡ subs)
      × (fanout event_type (subscribe id pattern handler subs)
          ≡ fanout event_type subs ++ (if matches pattern event_type then handler ∷ [] else []))
unfolding subscribe unsubscribe uses fanout
unsubscribe-subscribe id pattern handler event_type subs h =
    (removed subs h, unsubscribe-unused sub subs h, reached subs)
  where
    sub : Subscription
    sub = record { id = id; pattern = pattern; handler = handler }

    removed :
        (subs : List Subscription)
        → uses id subs ≡ false
        → unsubscribe sub (subs ++ sub ∷ []) ≡ subs
    removed [] h = ground arith
    removed (s ∷ subs) h = ground (arith, removed subs)

    reached :
        (subs : List Subscription)
        → fanout event_type (subs ++ sub ∷ [])
          ≡ fanout event_type subs ++ (if matches pattern event_type then handler ∷ [] else [])
    reached [] = refl
    reached (s ∷ subs) = elim (Bool-cases (matches s.pattern event_type)) [
      | inl e ↦ rw (e, reached subs) refl
      | inr e ↦ rw (e, reached subs) refl
    ]
