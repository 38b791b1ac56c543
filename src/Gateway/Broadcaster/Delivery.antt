-- ===== src/Gateway/Broadcaster/Delivery.antt =====
-- gateway/broadcaster.py: what a client gets of the events that were published while it was there.
use mathlib.Core.List.{Sublistᴰ, Sublistᴰ.slnil}
use mathlib.Core.Path.{subst}
use afterhours.Prelude.{
  ℕ, suc, ◌+◌, ◌≤◌, ◌<◌, String, ◌≡◌, refl, sym, ap, ◌∙◌, ◌⊎◌, inl, inr, true, false, Option, none,
  some, List, [], ◌∷◌, ◌++◌, append-nil, append_assoc, ltb, leb, ◌&&◌, length, length-append, arith,
  str_eq, if_rule, if◌then◌else◌,
}
use afterhours.Prelude.Sublists.{Sublistᴰ-append_one, Sublistᴰ-drop}
use afterhours.Prelude.Dict.{lookup}
use afterhours.Gateway.Broadcaster.{
  Channel, new_channel, is_full, enqueue, take_next, send_done, Step, published, connected,
  disconnected, taken, delivered, failed, Clients, step, run,
}
use afterhours.Gateway.Broadcaster.Isolation.{after, lookup-step}

abbrev in_flight : Option String → List String
in_flight none = []
in_flight (some text) = text ∷ []

-- What the client got, is getting, and is to get, in that order.
abbrev pub received : Channel → List String
received c = (c.sent ++ in_flight c.in_flight) ++ c.queue

-- What was published since the client connected last.
unfoldable pub hear : String → Step → List String → List String
hear ws (published text) texts = texts ++ text ∷ []
hear ws (connected w) texts = if str_eq w ws then [] else texts
hear ws _ texts = texts

unfoldable pub heard : String → List Step → List String → List String
heard ws [] texts = texts
heard ws (s ∷ steps) texts = heard ws steps (hear ws s texts)

-- The client's messages are some of those that it heard, in their order. Each of the others was
-- dropped, and counted; the queue is within its size.
pub record IsServed (size : ℕ) (texts : List String) (c : Channel) : Type 0 where
  pub ordered : Sublistᴰ (received c) texts
  pub counted : length (received c) + c.dropped ≡ length texts
  pub complete : c.dropped ≡ 0 → received c ≡ texts
  pub bounded : 0 < size → length c.queue ≤ size

-- The second channel has the messages of the first, and no longer a queue.
abbrev IsMoved : Channel → Channel → Type 0
IsMoved c d =
    (received d ≡ received c) × (d.dropped ≡ c.dropped) × (length d.queue ≤ length c.queue)

take_next-same :
    (queue : List String) (waiting : Option String) (sent : List String) (dropped : ℕ)
    → let c : Channel = record {
      queue = queue;
      in_flight = waiting;
      sent = sent;
      dropped = dropped;
    } in
      IsMoved c (take_next c)
unfolding take_next
take_next-same queue (some text) sent dropped = (refl, refl, omega arith)
take_next-same [] none sent dropped = (refl, refl, omega arith)
take_next-same (text ∷ rest) none sent dropped = (
  append_assoc sent (text ∷ []) rest ∙ ap (λ l. l ++ text ∷ rest) (sym (append-nil sent)),
  refl,
  omega arith,
)

send_done-same :
    (queue : List String) (waiting : Option String) (sent : List String) (dropped : ℕ)
    → let c : Channel = record {
      queue = queue;
      in_flight = waiting;
      sent = sent;
      dropped = dropped;
    } in
      IsMoved c (send_done c)
unfolding send_done
send_done-same queue none sent dropped = (refl, refl, omega arith)
send_done-same queue (some text) sent dropped =
    (ap (λ l. l ++ queue) (append-nil (sent ++ text ∷ [])), refl, omega arith)

List-cases : (xs : List String) → (xs ≡ []) ⊎ ((y : String) × (ys : List String) × (xs ≡ y ∷ ys))
List-cases [] = inl refl
List-cases (y ∷ ys) = inr (y, ys, refl)

module _ (size : ℕ) (texts : List String) where
  -- The queue gets a message, and is whole.
  IsServed-queued :
      (text : String) (c : Channel)
      → IsServed size texts c
      → suc (length c.queue) ≤ size ⊎ (size ≡ 0)
      → IsServed size (texts ++ text ∷ []) (record c { queue = c.queue ++ text ∷ [] })
  IsServed-queued text c h room =
      let front = c.sent ++ in_flight c.in_flight in
      let e = append_assoc front c.queue (text ∷ []) in
      record {
        ordered = rw (sym e) (Sublistᴰ-append_one (received c) texts text h.ordered);
        counted = omega (
          arith,
          h.counted,
          ap length e,
          length-append (received c) (text ∷ []),
          length-append texts (text ∷ []),
        );
        complete = λ z. sym e ∙ ap (λ l. l ++ text ∷ []) (h.complete z);
        bounded = λ p. elim room [
          | inl r ↦ omega (arith, r, length-append c.queue (text ∷ []))
          | inr r ↦ absurd (omega (arith, r, p))
        ];
      }

  -- The oldest message of the queue is dropped.
  IsServed-dropped :
      (oldest : String) (rest : List String) (c : Channel)
      → c.queue ≡ oldest ∷ rest
      → IsServed size texts c
      → IsServed size texts (record c { queue = rest; dropped = suc c.dropped })
  IsServed-dropped oldest rest c e h =
      let front = c.sent ++ in_flight c.in_flight in
      record {
        ordered =
            Sublistᴰ-drop front rest texts oldest
              (subst (λ q. Sublistᴰ (front ++ q) texts) e h.ordered);
        counted =
            omega (
              arith,
              h.counted,
              ap length e,
              length-append front c.queue,
              length-append front rest,
            );
        complete = λ z. absurd (omega (arith, z));
        bounded = λ p. omega (arith, h.bounded p, ap length e);
      }

  IsServed-enqueue :
      (text : String) (c : Channel)
      → IsServed size texts c
      → IsServed size (texts ++ text ∷ []) (enqueue size text c)
  unfolding enqueue is_full
  IsServed-enqueue text c h =
      let P = IsServed size (texts ++ text ∷ []) in
      if_rule P (ltb 0 size && leb size (length c.queue))
        (λ full. elim (List-cases c.queue) [
          | inl e ↦ absurd (ground (arith, full, ap length e))
          | inr (oldest, rest, e) ↦
              subst
                (λ q. P (elim q [
                  | [] ↦ record c { queue = text ∷ [] }
                  | oldest ∷ rest ↦ record c { queue = rest ++ text ∷ []; dropped = suc c.dropped }
                ]))
                (sym e)
                (IsServed-queued text _ (IsServed-dropped oldest rest c e h)
                  (shorter oldest rest (h.bounded (ground (arith, full))) e))
        ])
        (λ roomy. IsServed-queued text c h (ground (arith, roomy)))
    where
      shorter :
          (oldest : String) (rest : List String)
          → length c.queue ≤ size
          → c.queue ≡ oldest ∷ rest
          → (suc (length rest) ≤ size) ⊎ (size ≡ 0)
      shorter oldest rest le e = inl (omega (arith, le, ap length e))

  IsServed-moved :
      (c d : Channel)
      → received d ≡ received c
      → d.dropped ≡ c.dropped
      → length d.queue ≤ length c.queue
      → IsServed size texts c
      → IsServed size texts d
  IsServed-moved c d same kept shorter h = record {
    ordered = rw same h.ordered;
    counted = rw (same, kept) h.counted;
    complete = λ z. same ∙ h.complete (sym kept ∙ z);
    bounded = λ p. omega (arith, h.bounded p, shorter);
  }

  IsServed-take_next : (c : Channel) → IsServed size texts c → IsServed size texts (take_next c)
  unfolding take_next
  IsServed-take_next c h =
      let (same, kept, shorter) = take_next-same c.queue c.in_flight c.sent c.dropped in
      IsServed-moved c (take_next c) same kept shorter h

  IsServed-send_done : (c : Channel) → IsServed size texts c → IsServed size texts (send_done c)
  unfolding send_done
  IsServed-send_done c h =
      let (same, kept, shorter) = send_done-same c.queue c.in_flight c.sent c.dropped in
      IsServed-moved c (send_done c) same kept shorter h

-- The client is not there, or it is served.
abbrev pub IsServedIf : ℕ → List String → Option Channel → Type 0
IsServedIf size texts none = Unit
IsServedIf size texts (some c) = IsServed size texts c

IsServed-new : (size : ℕ) → IsServed size [] new_channel
IsServed-new size = record {
  ordered = slnil;
  counted = refl;
  complete = λ _. refl;
  bounded = λ p. omega arith;
}

IsServed-after :
    (size : ℕ) (ws : String) (s : Step) (texts : List String) (o : Option Channel)
    → IsServedIf size texts o
    → IsServedIf size (hear ws s texts) (after size ws s o)
unfolding after hear
IsServed-after size ws (published text) texts none h = tt
IsServed-after size ws (published text) texts (some c) h = IsServed-enqueue size texts text c h
IsServed-after size ws (connected w) texts o h =
    elim (str_eq w ws)
      as (λ b. IsServedIf size (if b then [] else texts) (if b then some new_channel else o)) [
        | true ↦ IsServed-new size
        | false ↦ h
      ]
IsServed-after size ws (disconnected w) texts o h =
    if_rule (IsServedIf size texts) (str_eq w ws) (λ _. tt) (λ _. h)
IsServed-after size ws (taken w) texts none h =
    if_rule (IsServedIf size texts) (str_eq w ws) (λ _. tt) (λ _. tt)
IsServed-after size ws (taken w) texts (some c) h =
    if_rule (IsServedIf size texts) (str_eq w ws) (λ _. IsServed-take_next size texts c h) (λ _. h)
IsServed-after size ws (delivered w) texts none h =
    if_rule (IsServedIf size texts) (str_eq w ws) (λ _. tt) (λ _. tt)
IsServed-after size ws (delivered w) texts (some c) h =
    if_rule (IsServedIf size texts) (str_eq w ws) (λ _. IsServed-send_done size texts c h) (λ _. h)
IsServed-after size ws (failed w) texts o h =
    if_rule (IsServedIf size texts) (str_eq w ws) (λ _. tt) (λ _. h)

-- Whatever happens to the clients, each that is there has been sent, is being sent and still has
-- queued, in this order, some of the events since it connected; the others are those that it
-- dropped, and it got them all where it dropped none; and its queue is within a positive size.
pub run-IsServed :
    (size : ℕ) (ws : String) (steps : List Step)
    → IsServedIf size (heard ws steps []) (lookup ws (run size steps []))
unfolding lookup run heard
run-IsServed size ws steps = run-IsServedIf steps [] [] tt
  where
    run-IsServedIf :
        (steps : List Step) (texts : List String) (clients : Clients)
        → IsServedIf size texts (lookup ws clients)
        → IsServedIf size (heard ws steps texts) (lookup ws (run size steps clients))
    run-IsServedIf [] texts clients h = h
    run-IsServedIf (s ∷ steps) texts clients h =
        run-IsServedIf steps (hear ws s texts) (step size s clients) (
          subst (IsServedIf size (hear ws s texts)) (sym (lookup-step size ws s clients))
            (IsServed-after size ws s texts (lookup ws clients) h))
