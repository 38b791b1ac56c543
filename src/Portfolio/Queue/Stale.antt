-- ===== src/Portfolio/Queue/Stale.antt =====
-- What becomes of parked approvals in portfolio/executor.py: the sweep of the stale ones, and the
-- flush at a halt, a mode change and the shutdown.
use afterhours.Prelude.{
  ℕ, String, ◌≡◌, refl, sym, ap, ◌∙◌, true, false, All, List, [], ◌∷◌, ◌++◌, map, append-nil,
  append_assoc, arith, str_eq, eq_iff, eq_refl, Bool-cases, inl, inr, if◌then◌else◌,
}
use afterhours.Prelude.Dict.{Dict, erase, keys}
use afterhours.Prelude.Texts.{mem, IsDistinct}
use afterhours.Core.Events.{Envelope, Expiry, decision_expired, ttl_expired}
use afterhours.Portfolio.Ledger.{ok}
use afterhours.Desk.{Parked, Desk, Config, correlates, tell}
use afterhours.Portfolio.Queue.{
  emit_expired, is_expired, emit_each, expire_pending, stale_ids, expire_each, sweep_expired,
}

-- The audited expiry of a decision.
abbrev pub expiry : Expiry → ℕ → String → Envelope
expiry reason now id = record {
  source = "paper_executor";
  event_time = now;
  event = decision_expired id reason;
}

-- The approvals that have not aged out.
unfoldable pub unexpired : Config → ℕ → Dict Parked → Dict Parked
unexpired c now [] = []
unexpired c now ((id, parked) ∷ rest) =
    let others = unexpired c now rest in
    if is_expired c parked now then others else (id, parked) ∷ others

-- The ids up to the first that no envelope can carry.
unfoldable pub announced : Config → List String → List String
announced c [] = []
announced c (id ∷ ids) = let rest = announced c ids in if correlates c id then id ∷ rest else []

emit_each_lem :
    (c : Config) (ids : List String) (reason : Expiry) (now : ℕ) (d : Desk)
    → (emit_each c ids reason now d).1
      ≡ record d { log = d.log ++ map (expiry reason now) (announced c ids) }
unfolding emit_each emit_expired announced tell
emit_each_lem c [] reason now d = ap (λ l. record d { log = l }) (sym (append-nil d.log))
emit_each_lem c (id ∷ ids) reason now d = elim (Bool-cases (correlates c id)) [
  | inl e ↦ rw e (
      emit_each_lem c ids reason now _
      ∙ ap (λ l. record d { log = l })
          (append_assoc d.log (expiry reason now id ∷ []) (map (expiry reason now) _)))
  | inr e ↦ rw e (ap (λ l. record d { log = l }) (sym (append-nil d.log)))
]

-- The flush leaves nothing parked, and the log gains an expiry with the given reason for each
-- decision that was, in their order, up to the first whose id no envelope can carry; nothing else
-- changes.
pub expire_pending_lem :
    (c : Config) (reason : Expiry) (now : ℕ) (d : Desk)
    → (expire_pending c reason now d).1 ≡ record d {
      pending = [];
      log = d.log ++ map (expiry reason now) (announced c (keys d.pending));
    }
unfolding expire_pending
expire_pending_lem c reason now d =
    emit_each_lem c (keys d.pending) reason now (record d { pending = [] })

-- Taking several keys out of a dictionary.
unfoldable erase_all : List String → Dict Parked → Dict Parked
erase_all [] q = q
erase_all (id ∷ ids) q = erase_all ids (erase id q)

erase-absent : (k : String) (q : Dict Parked) → mem k (keys q) ≡ false → erase k q ≡ q
unfolding erase mem
erase-absent k [] h = refl
erase-absent k ((j, v) ∷ q) h = ground (arith, erase-absent k q)

str_eq-flip : (i k : String) → str_eq i k ≡ false → str_eq k i ≡ false
str_eq-flip i k e = ground (arith, eq_iff i k, eq_iff k i)

erase_all-cons :
    (ids : List String) (k : String) (v : Parked) (q : Dict Parked)
    → mem k ids ≡ false
    → erase_all ids ((k, v) ∷ q) ≡ (k, v) ∷ erase_all ids q
unfolding erase_all erase mem
erase_all-cons [] k v q h = refl
erase_all-cons (i ∷ ids) k v q h = elim (Bool-cases (str_eq i k)) [
  | inl e ↦ ground (arith, e)
  | inr e ↦
      rw (erase_all, erase, str_eq-flip i k e)
        (erase_all-cons ids k v (erase i q) (ground (arith, e)))
]

mem-stale_ids :
    (c : Config) (now : ℕ) (k : String) (q : Dict Parked)
    → mem k (keys q) ≡ false
    → mem k (stale_ids c now q) ≡ false
unfolding mem stale_ids
mem-stale_ids c now k [] h = refl
mem-stale_ids c now k ((j, v) ∷ q) h = ground (arith, mem-stale_ids c now k q)

erase_all-stale_ids :
    (c : Config) (now : ℕ) (q : Dict Parked)
    → IsDistinct (keys q)
    → erase_all (stale_ids c now q) q ≡ unexpired c now q
unfolding erase_all stale_ids unexpired erase
erase_all-stale_ids c now [] h = refl
erase_all-stale_ids c now ((k, v) ∷ q) (new, h) = elim (Bool-cases (is_expired c v now)) [
  | inl e ↦
      rw (e, erase_all, erase, eq_refl k, erase-absent k q new) (erase_all-stale_ids c now q h)
  | inr e ↦
      rw (e, erase_all-cons (stale_ids c now q) k v q (mem-stale_ids c now k q new))
        (ap (λ l. (k, v) ∷ l) (erase_all-stale_ids c now q h))
]

-- The decisions whose id an envelope can carry.
abbrev pub AreTraceable : Config → List String → Type 0
AreTraceable c ids = All (λ id. correlates c id ≡ true) ids

expire_each_lem :
    (c : Config) (ids : List String) (now : ℕ) (d : Desk)
    → AreTraceable c ids
    → expire_each c ids now d ≡ (
      ok tt,
      record d {
        pending = erase_all ids d.pending;
        log = d.log ++ map (expiry ttl_expired now) ids;
      },
    )
unfolding expire_each emit_expired erase_all tell
expire_each_lem c [] now d t = ap (λ l. (ok tt, record d { log = l })) (sym (append-nil d.log))
expire_each_lem c (id ∷ ids) now d (u, t) = rw u (
    expire_each_lem c ids now _ t
    ∙ ap (λ l. (ok tt, record d { pending = erase_all ids (erase id d.pending); log = l }))
        (append_assoc d.log (expiry ttl_expired now id ∷ []) (map (expiry ttl_expired now) ids)))

-- Where the queue has distinct keys, and an envelope can carry the id of every approval that has
-- aged out, the sweep returns, keeps exactly the approvals that have not aged out, in their order,
-- and the log gains an expiry for each of the others; nothing else changes.
pub sweep_expired_lem :
    (c : Config) (now : ℕ) (d : Desk)
    → IsDistinct (keys d.pending)
    → AreTraceable c (stale_ids c now d.pending)
    → sweep_expired c now d ≡ (
      ok tt,
      record d {
        pending = unexpired c now d.pending;
        log = d.log ++ map (expiry ttl_expired now) (stale_ids c now d.pending);
      },
    )
unfolding sweep_expired
sweep_expired_lem c now d h t =
    rw
      (expire_each_lem c (stale_ids c now d.pending) now d t, erase_all-stale_ids c now d.pending h)
      refl
