-- ===== src/Gateway/Broadcaster/Isolation.antt =====
-- gateway/broadcaster.py: what a step does to the channel of one client.
use afterhours.Prelude.{ℕ, String, ◌≡◌, Option, none, some, str_eq, if◌then◌else◌}
use afterhours.Prelude.Dict.{lookup, lookup-insert, lookup-erase, lookup-adjust, lookup-map_values}
use afterhours.Gateway.Broadcaster.{
  Channel, new_channel, enqueue, take_next, send_done, Step, published, connected, disconnected,
  taken, delivered, failed, Clients, step,
}

module _ (size : ℕ) (ws : String) where
  -- What a step does to the channel of the client.
  unfoldable pub after : Step → Option Channel → Option Channel
  after (published text) o = elim o [ none ↦ none | some c ↦ some (enqueue size text c) ]
  after (connected w) o = if str_eq w ws then some new_channel else o
  after (disconnected w) o = if str_eq w ws then none else o
  after (taken w) o =
      if str_eq w ws then elim o [ none ↦ none | some c ↦ some (take_next c) ] else o
  after (delivered w) o =
      if str_eq w ws then elim o [ none ↦ none | some c ↦ some (send_done c) ] else o
  after (failed w) o = if str_eq w ws then none else o

  pub lookup-step : (s : Step) (c : Clients) → lookup ws (step size s c) ≡ after s (lookup ws c)
  unfolding step after
  lookup-step (published text) c = lookup-map_values (enqueue size text) ws c
  lookup-step (connected w) c = lookup-insert w ws new_channel c
  lookup-step (disconnected w) c = lookup-erase w ws c
  lookup-step (taken w) c = lookup-adjust w ws take_next c
  lookup-step (delivered w) c = lookup-adjust w ws send_done c
  lookup-step (failed w) c = lookup-erase w ws c
