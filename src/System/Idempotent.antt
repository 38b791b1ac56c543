-- ===== src/System/Idempotent.antt =====
-- Idempotency of orders: `client_order_id` of core/schemas/decision.py and `_submit` of
-- portfolio/executor.py.
use afterhours.Prelude.{
  ℕ, String, ◌≡◌, refl, sym, ◌∙◌, Bool, true, false, List, [], ◌∷◌, ◌++◌, arith, eq_iff, eq_refl,
  Bool-cases, inl, inr, append-nil,
}
use mathlib.Core.Bool.{false≢true}
use afterhours.Prelude.Texts.{mem, IsDistinct, mem-append_one, IsDistinct-append_one}
use afterhours.Core.Events.{Event, Envelope, Order, Fill, order_submitted, order_filled}
use afterhours.Desk.{Desk, Config, new_desk, tell, publish_filled}
use afterhours.Portfolio.Orders.{remember}
use afterhours.System.{Happening, run}
use afterhours.System.Moves.{
  Moves, here, chain, told, marked, remoded, requeued, deferred, spent, ordered, filled, IsQuiet,
  ordered_desk,
}
use afterhours.System.Moves.Runs.{run-Moves}

abbrev cons_ordered : Event → List String → List String
cons_ordered (order_submitted order) ids = order.client_order_id ∷ ids
cons_ordered _ ids = ids

abbrev cons_filled : Event → List String → List String
cons_filled (order_filled f) ids = f.client_order_id ∷ ids
cons_filled _ ids = ids

-- The idempotency keys of the orders, and of the fills, in the order of the log.
abbrev pub ordered_ids : List Envelope → List String
ordered_ids [] = []
ordered_ids (e ∷ es) = cons_ordered e.event (ordered_ids es)

abbrev pub filled_ids : List Envelope → List String
filled_ids [] = []
filled_ids (e ∷ es) = cons_filled e.event (filled_ids es)

cons_ordered-append :
    (e : Event) (xs ys : List String) → cons_ordered e (xs ++ ys) ≡ cons_ordered e xs ++ ys
cons_ordered-append (order_submitted _) xs ys = refl
cons_ordered-append _ xs ys = refl

cons_filled-append :
    (e : Event) (xs ys : List String) → cons_filled e (xs ++ ys) ≡ cons_filled e xs ++ ys
cons_filled-append (order_filled _) xs ys = refl
cons_filled-append _ xs ys = refl

ordered_ids-append :
    (es fs : List Envelope) → ordered_ids (es ++ fs) ≡ ordered_ids es ++ ordered_ids fs
ordered_ids-append [] fs = refl
ordered_ids-append (e ∷ es) fs =
    rw (ordered_ids-append es fs) (cons_ordered-append e.event (ordered_ids es) (ordered_ids fs))

filled_ids-append : (es fs : List Envelope) → filled_ids (es ++ fs) ≡ filled_ids es ++ filled_ids fs
filled_ids-append [] fs = refl
filled_ids-append (e ∷ es) fs =
    rw (filled_ids-append es fs) (cons_filled-append e.event (filled_ids es) (filled_ids fs))

-- No two orders and no two fills of the log have the same key, every fill has the key of an order,
-- and the executor remembers the key of every order.
pub record IsIdempotent (d : Desk) : Type 0 where
  pub orders_distinct : IsDistinct (ordered_ids d.log)
  pub fills_distinct : IsDistinct (filled_ids d.log)
  pub fills_ordered :
      (id : String) → mem id (filled_ids d.log) ≡ true → mem id (ordered_ids d.log) ≡ true
  pub remembered :
      (id : String) → mem id (ordered_ids d.log) ≡ true → mem id d.submitted_orders ≡ true

quiet_ids : (e : Event) → IsQuiet e → (cons_ordered e [] ≡ []) × (cons_filled e [] ≡ [])
quiet_ids (order_submitted _) h = absurd h
quiet_ids (order_filled _) h = absurd h
quiet_ids _ h = (refl, refl)

tell-IsIdempotent :
    (source : String) (time : ℕ) (event : Event) (d : Desk)
    → IsQuiet event
    → IsIdempotent d
    → IsIdempotent (tell source time event d)
unfolding tell
tell-IsIdempotent source time event d quiet h =
    let (no_order, no_fill) = quiet_ids event quiet in
    let e : Envelope = record { source = source; event_time = time; event = event } in
    let orders : ordered_ids (d.log ++ e ∷ []) ≡ ordered_ids d.log =
      rw (ordered_ids-append d.log (e ∷ []), no_order) (append-nil _) in
    let fills : filled_ids (d.log ++ e ∷ []) ≡ filled_ids d.log =
      rw (filled_ids-append d.log (e ∷ []), no_fill) (append-nil _) in
    record {
      orders_distinct = rw orders h.orders_distinct;
      fills_distinct = rw fills h.fills_distinct;
      fills_ordered = λ id. rw (fills, orders) (h.fills_ordered id);
      remembered = λ id. rw orders (h.remembered id);
    }

-- A key that is not remembered is the key of no order, and of no fill.
unordered :
    (id : String) (d : Desk)
    → IsIdempotent d
    → mem id d.submitted_orders ≡ false
    → mem id (ordered_ids d.log) ≡ false
unordered id d h new = elim (Bool-cases (mem id (ordered_ids d.log))) [
  | inl e ↦ absurd (false≢true (sym new ∙ h.remembered id e))
  | inr e ↦ e
]

unfilled :
    (id : String) (d : Desk)
    → IsIdempotent d
    → mem id d.submitted_orders ≡ false
    → mem id (filled_ids d.log) ≡ false
unfilled id d h new = elim (Bool-cases (mem id (filled_ids d.log))) [
  | inl e ↦ absurd (false≢true (sym new ∙ h.remembered id (h.fills_ordered id e)))
  | inr e ↦ e
]

-- A remembered key more leaves the log.
spent-IsIdempotent : (order : Order) (d : Desk) → IsIdempotent d → IsIdempotent (remember order d)
spent-IsIdempotent order d h = record {
  orders_distinct = h.orders_distinct;
  fills_distinct = h.fills_distinct;
  fills_ordered = h.fills_ordered;
  remembered = λ j m. rw mem-append_one (ground (arith, h.remembered j m));
}

-- The log after an order.
ordered_ids-ordered :
    (order : Order) (time : ℕ) (d : Desk)
    → ordered_ids (ordered_desk order time d).log ≡ ordered_ids d.log ++ order.client_order_id ∷ []
unfolding tell
ordered_ids-ordered order time d = ordered_ids-append d.log _

filled_ids-ordered :
    (order : Order) (time : ℕ) (d : Desk)
    → filled_ids (ordered_desk order time d).log ≡ filled_ids d.log
unfolding tell
filled_ids-ordered order time d = filled_ids-append d.log _ ∙ append-nil _

ordered-IsIdempotent :
    (order : Order) (time : ℕ) (d : Desk)
    → mem order.client_order_id d.submitted_orders ≡ false
    → IsIdempotent d
    → IsIdempotent (ordered_desk order time d)
ordered-IsIdempotent order time d new h =
    let id = order.client_order_id in
    let orders = ordered_ids-ordered order time d in
    let fills = filled_ids-ordered order time d in
    record {
      orders_distinct =
          rw orders
            (IsDistinct-append_one id (ordered_ids d.log) (unordered id d h new) h.orders_distinct);
      fills_distinct = rw fills h.fills_distinct;
      fills_ordered = λ j m.
          let m' : mem j (filled_ids d.log) ≡ true = rw fills at m in
          rw (orders, mem-append_one) (ground (arith, h.fills_ordered j m'));
      remembered = λ j m.
          let m' : mem j (ordered_ids d.log ++ id ∷ []) ≡ true = rw orders at m in
          unfold tell in
          rw mem-append_one
            (ground (arith, mem-append_one j id (ordered_ids d.log), h.remembered j));
    }

-- One more fill, whose key is that of an order and of no fill before.
add_fill-IsIdempotent :
    (c : Config) (f : Fill) (time : ℕ) (d : Desk)
    → mem f.client_order_id (ordered_ids d.log) ≡ true
    → mem f.client_order_id (filled_ids d.log) ≡ false
    → IsIdempotent d
    → IsIdempotent (publish_filled c time f d)
unfolding publish_filled
add_fill-IsIdempotent c f time d known new h =
    let id = f.client_order_id in
    let e : Envelope = record {
      source = "paper_executor";
      event_time = time;
      event = order_filled f;
    } in
    let fills : filled_ids (d.log ++ e ∷ []) ≡ filled_ids d.log ++ id ∷ [] =
      filled_ids-append d.log (e ∷ []) in
    let orders : ordered_ids (d.log ++ e ∷ []) ≡ ordered_ids d.log =
      rw (ordered_ids-append d.log (e ∷ [])) (append-nil _) in
    record {
      orders_distinct = rw orders h.orders_distinct;
      fills_distinct = rw fills (IsDistinct-append_one id (filled_ids d.log) new h.fills_distinct);
      fills_ordered = λ j m.
          let m' : mem j (filled_ids d.log ++ id ∷ []) ≡ true = rw fills at m in
          rw orders (
            ground (arith, mem-append_one j id (filled_ids d.log), eq_iff id j, h.fills_ordered j));
      remembered = λ j. rw orders (h.remembered j);
    }

filled-IsIdempotent :
    (c : Config) (order : Order) (f : Fill) (time : ℕ) (d : Desk)
    → mem order.client_order_id d.submitted_orders ≡ false
    → f.client_order_id ≡ order.client_order_id
    → IsIdempotent d
    → IsIdempotent (publish_filled c time f (ordered_desk order time d))
filled-IsIdempotent c order f time d new same h =
    add_fill-IsIdempotent c f time (ordered_desk order time d)
      (rw (same, ordered_ids-ordered order time d, mem-append_one, eq_refl) (ground arith))
      (rw (same, filled_ids-ordered order time d) (unfilled order.client_order_id d h new))
      (ordered-IsIdempotent order time d new h)

-- The keys are in the log and in the memory of the executor alone.
same_keys-IsIdempotent :
    (d e : Desk)
    → e.log ≡ d.log
    → e.submitted_orders ≡ d.submitted_orders
    → IsIdempotent d
    → IsIdempotent e
same_keys-IsIdempotent d e log keys h = record {
  orders_distinct = rw log h.orders_distinct;
  fills_distinct = rw log h.fills_distinct;
  fills_ordered = λ id. rw log (h.fills_ordered id);
  remembered = λ id. rw (log, keys) (h.remembered id);
}

Moves-IsIdempotent :
    {c : Config} {free : Bool} {d e : Desk} → Moves c free d e → IsIdempotent d → IsIdempotent e
Moves-IsIdempotent (here d) h = h
Moves-IsIdempotent (chain m n) h = Moves-IsIdempotent n (Moves-IsIdempotent m h)
Moves-IsIdempotent (told source time event d quiet) h =
    tell-IsIdempotent source time event d quiet h
Moves-IsIdempotent (marked tick d) h = same_keys-IsIdempotent d _ refl refl h
Moves-IsIdempotent (remoded mode d _) h = same_keys-IsIdempotent d _ refl refl h
Moves-IsIdempotent (requeued pending d) h = same_keys-IsIdempotent d _ refl refl h
Moves-IsIdempotent (deferred texts d) h = same_keys-IsIdempotent d _ refl refl h
Moves-IsIdempotent (spent order d new) h = spent-IsIdempotent order d h
Moves-IsIdempotent (ordered order time d new) h = ordered-IsIdempotent order time d new h
Moves-IsIdempotent {c} (filled order f time d new same _) h =
    filled-IsIdempotent c order f time d new same h

IsIdempotent-new : (c : Config) → IsIdempotent (new_desk c)
unfolding new_desk mem
IsIdempotent-new c = record {
  orders_distinct = tt;
  fills_distinct = tt;
  fills_ordered = λ id m. m;
  remembered = λ id m. absurd (false≢true m);
}

-- In every run of a process that starts, no two orders of the log and no two fills have the same
-- idempotency key, every fill has the key of an order of the log, and the executor remembers the
-- key of every order of the log, whether or not a submission raised.
pub run-IsIdempotent : (c : Config) (hs : List Happening) → IsIdempotent (run c hs (new_desk c))
run-IsIdempotent c hs = Moves-IsIdempotent (run-Moves c hs (new_desk c)) (IsIdempotent-new c)
