-- ===== src/Ingestion/Health.antt =====
-- ingestion/health.py: `FeedHealth`. The events that it publishes are kept in its state, the latest
-- first.
pub mod Transitions
use afterhours.Prelude.{
  ℕ, ◌+◌, String, Bool, true, false, Option, none, some, List, [], ◌∷◌, str_eq, ◌==◌, if◌then◌else◌,
}

pub data Status : Type 0 where
  healthy degraded : Status

-- `status == self._status`
abbrev pub is_status : Status → Option Status → Bool
is_status s none = false
is_status healthy (some healthy) = true
is_status healthy (some degraded) = false
is_status degraded (some healthy) = false
is_status degraded (some degraded) = true

pub record FeedHealth : Type 0 where
  -- `_status`: none until the first report
  pub status : Option Status
  pub ok : ℕ
  pub fail : ℕ
  pub last_error : String
  pub published : List (Status × String)

-- `FeedHealth.__init__`
unfoldable pub new_health : FeedHealth
new_health = record { status = none; ok = 0; fail = 0; last_error = ""; published = [] }

-- `text or "unknown error"`
abbrev pub or_unknown : String → String
or_unknown text = if str_eq text "" then "unknown error" else text

-- `FeedHealth.fetch_ok`, `FeedHealth.fetch_failed`
unfoldable pub fetch_ok : FeedHealth → FeedHealth
fetch_ok h = record h { ok = h.ok + 1 }

unfoldable pub fetch_failed : String → FeedHealth → FeedHealth
fetch_failed error h = record h { fail = h.fail + 1; last_error = or_unknown error }

-- `FeedHealth._emit`
unfoldable pub emit : Status → String → FeedHealth → FeedHealth
emit status detail h =
    if is_status status h.status
    then h
    else record h { status = some status; published = (status, detail) ∷ h.published }

-- `FeedHealth.report_healthy`, `FeedHealth.report_degraded`
unfoldable pub report_healthy : FeedHealth → FeedHealth
report_healthy h = emit healthy "" h

unfoldable pub report_degraded : String → FeedHealth → FeedHealth
report_degraded detail h = emit degraded (or_unknown detail) h

-- `FeedHealth.commit`: the report, and the reset.
unfoldable pub report_cycle : FeedHealth → FeedHealth
report_cycle h =
    if h.ok == 0
    then (if h.fail == 0 then h else report_degraded h.last_error h)
    else report_healthy h

unfoldable pub commit : FeedHealth → FeedHealth
commit h = record (report_cycle h) { ok = 0; fail = 0; last_error = "" }

-- What a feed calls.
pub data Call : Type 0 where
  fetched committed reported_healthy : Call
  failed reported_degraded : String → Call

unfoldable pub call : Call → FeedHealth → FeedHealth
call fetched h = fetch_ok h
call (failed error) h = fetch_failed error h
call committed h = commit h
call reported_healthy h = report_healthy h
call (reported_degraded detail) h = report_degraded detail h

unfoldable pub calls : List Call → FeedHealth → FeedHealth
calls [] h = h
calls (c ∷ cs) h = calls cs (call c h)
