-- ===== src/Ingestion/Health/Transitions.antt =====
-- Reports on transitions only, and the verdict of a cycle, in ingestion/health.py.
use afterhours.Prelude.{
  ℕ, suc, ◌+◌, String, ◌≡◌, refl, true, false, Option, none, some, List, [], ◌∷◌, arith, ◌==◌,
  Bool-cases, inl, inr, if_rule, if◌then◌else◌,
}
use afterhours.Ingestion.Health.{
  Status, healthy, degraded, is_status, FeedHealth, new_health, fetch_ok, fetch_failed, emit,
  report_healthy, report_degraded, report_cycle, commit, Call, fetched, committed, reported_healthy,
  failed, reported_degraded, call, calls,
}

-- The status of the latest report.
abbrev pub latest : List (Status × String) → Option Status
latest [] = none
latest ((s, _) ∷ _) = some s

-- Every report differs in its status from the one before it.
abbrev pub IsAlternating : List (Status × String) → Type 0
IsAlternating [] = Unit
IsAlternating ((s, _) ∷ reports) = (is_status s (latest reports) ≡ false) × IsAlternating reports

pub record IsReported (h : FeedHealth) : Type 0 where
  pub current : latest h.published ≡ h.status
  pub alternating : IsAlternating h.published

false_not_true : false ≡ true → ⊥
false_not_true h = ground arith

emit-IsReported :
    (s : Status) (detail : String) (h : FeedHealth) → IsReported h → IsReported (emit s detail h)
unfolding emit
emit-IsReported s detail h r =
    if_rule IsReported (is_status s h.status) (λ _. r)
      (λ e. record { current = refl; alternating = (rw r.current e, r.alternating) })

report_cycle-IsReported : (h : FeedHealth) → IsReported h → IsReported (report_cycle h)
unfolding report_cycle report_healthy report_degraded
report_cycle-IsReported h r =
    if_rule IsReported (h.ok == 0)
      (λ _. if_rule IsReported (h.fail == 0) (λ _. r) (λ _. emit-IsReported degraded _ h r))
      (λ _. emit-IsReported healthy "" h r)

call-IsReported : (c : Call) (h : FeedHealth) → IsReported h → IsReported (call c h)
unfolding call fetch_ok fetch_failed commit report_healthy report_degraded
call-IsReported fetched h r = record { current = r.current; alternating = r.alternating }
call-IsReported (failed error) h r = record { current = r.current; alternating = r.alternating }
call-IsReported committed h r =
    let s = report_cycle-IsReported h r in
    record { current = s.current; alternating = s.alternating }
call-IsReported reported_healthy h r = emit-IsReported healthy "" h r
call-IsReported (reported_degraded detail) h r = emit-IsReported degraded _ h r

calls_from-IsReported : (cs : List Call) (h : FeedHealth) → IsReported h → IsReported (calls cs h)
unfolding calls
calls_from-IsReported [] h r = r
calls_from-IsReported (c ∷ cs) h r = calls_from-IsReported cs (call c h) (call-IsReported c h r)

-- Whatever a feed calls, its health is published on transitions only: no two reports in a row have
-- the same status, and the latest report has the current one.
pub calls-IsReported : (cs : List Call) → IsReported (calls cs new_health)
unfolding new_health
calls-IsReported cs =
    calls_from-IsReported cs new_health (record { current = refl; alternating = tt })

-- The fetches of one cycle: none where one succeeded, and else the error.
unfoldable pub fetches : List (Option String) → FeedHealth → FeedHealth
fetches [] h = h
fetches (none ∷ os) h = fetches os (fetch_ok h)
fetches (some error ∷ os) h = fetches os (fetch_failed error h)

abbrev pub successes : List (Option String) → ℕ
successes [] = 0
successes (none ∷ os) = suc (successes os)
successes (some _ ∷ os) = successes os

abbrev pub failures : List (Option String) → ℕ
failures [] = 0
failures (none ∷ os) = failures os
failures (some _ ∷ os) = suc (failures os)

fetches_lem :
    (os : List (Option String)) (h : FeedHealth)
    → ((fetches os h).ok ≡ h.ok + successes os)
      × ((fetches os h).fail ≡ h.fail + failures os)
      × ((fetches os h).status ≡ h.status)
unfolding fetches fetch_ok fetch_failed
fetches_lem [] h = (omega arith, omega arith, refl)
fetches_lem (none ∷ os) h = let (a, b, c) = fetches_lem os (fetch_ok h) in (omega arith, b, c)
fetches_lem (some error ∷ os) h =
    let (a, b, c) = fetches_lem os (fetch_failed error h) in (a, omega arith, c)

is_status-true : (s : Status) (o : Option Status) → is_status s o ≡ true → o ≡ some s
is_status-true s none e = absurd (false_not_true e)
is_status-true healthy (some healthy) e = refl
is_status-true healthy (some degraded) e = absurd (false_not_true e)
is_status-true degraded (some healthy) e = absurd (false_not_true e)
is_status-true degraded (some degraded) e = refl

status-emit : (s : Status) (detail : String) (h : FeedHealth) → (emit s detail h).status ≡ some s
unfolding emit
status-emit s detail h =
    if_rule (λ (r : FeedHealth). r.status ≡ some s) (is_status s h.status)
      (λ e. is_status-true s h.status e) (λ _. refl)

status-report_cycle :
    (h : FeedHealth)
    → (report_cycle h).status
      ≡ (if h.ok == 0 then (if h.fail == 0 then h.status else some degraded) else some healthy)
unfolding report_healthy report_degraded report_cycle
status-report_cycle h = elim (Bool-cases (h.ok == 0)) [
  | inl e ↦ elim (Bool-cases (h.fail == 0)) [
    | inl f ↦ rw (report_cycle, e, f) refl
    | inr f ↦ rw (report_cycle, e, f) (status-emit degraded _ h)
  ]
  | inr e ↦ rw (report_cycle, e) (status-emit healthy "" h)
]

-- A cycle that starts from a reset ends healthy where one fetch succeeded, degraded where there were
-- fetches and none did, and leaves the status where there was none; and it is reset again.
status-commit :
    (os : List (Option String)) (h : FeedHealth)
    → h.ok ≡ 0
    → h.fail ≡ 0
    → let e = commit (fetches os h) in
      (e.status ≡ (
        if successes os == 0
        then (if failures os == 0 then h.status else some degraded)
        else some healthy))
      × (e.ok ≡ 0)
      × (e.fail ≡ 0)
unfolding commit
status-commit os h none_ok none_failed =
    let (a, b, c) = fetches_lem os h in
    let ok : (fetches os h).ok ≡ successes os = omega arith in
    let fail : (fetches os h).fail ≡ failures os = omega arith in
    (rw (status-report_cycle, ok, fail, c) refl, refl, refl)
