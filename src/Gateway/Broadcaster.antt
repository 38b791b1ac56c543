-- ===== src/Gateway/Broadcaster.antt =====
-- gateway/broadcaster.py: every event goes to each connected client, through a bounded queue of the
-- client's own that sheds the oldest message. A message is the JSON of its event. A client is named
-- by a text; each socket connects once, so no writer outlives its place in the table.
pub mod Isolation
pub mod Delivery
use afterhours.Prelude.{
  ℕ, zero, suc, ◌+◌, String, Bool, ◌&&◌, Option, none, some, List, [], ◌∷◌, ◌++◌, length, ltb, leb,
  if◌then◌else◌,
}
use afterhours.Prelude.Dict.{Dict, insert, erase, adjust, map_values}

-- `_ClientChannel`: the queue, the message that the writer waits to send, and what was sent.
pub record Channel : Type 0 where
  pub queue : List String
  pub in_flight : Option String
  pub sent : List String
  pub dropped : ℕ

abbrev pub new_channel : Channel
new_channel = record { queue = []; in_flight = none; sent = []; dropped = 0 }

-- `Queue.full`: a queue without a positive size is never full.
unfoldable pub is_full : ℕ → List String → Bool
is_full size queue = ltb 0 size && leb size (length queue)

-- `enqueue`
unfoldable pub enqueue : ℕ → String → Channel → Channel
enqueue size text c =
    if is_full size c.queue
    then elim c.queue [
      | [] ↦ record c { queue = text ∷ [] }
      | oldest ∷ rest ↦ record c { queue = rest ++ text ∷ []; dropped = suc c.dropped }
    ]
    else record c { queue = c.queue ++ text ∷ [] }

-- The writer `_run` takes the next message, where it waits for none to be sent.
unfoldable pub take_next : Channel → Channel
take_next c = elim c.in_flight [
  | some _ ↦ c
  | none ↦ elim c.queue [ [] ↦ c | text ∷ rest ↦ record c { queue = rest; in_flight = some text } ]
]

-- The writer's send returns.
unfoldable pub send_done : Channel → Channel
send_done c = elim c.in_flight [
  | none ↦ c
  | some text ↦ record c { in_flight = none; sent = c.sent ++ text ∷ [] }
]

-- What happens to the broadcaster: an event of the bus, a client that comes or goes, and the writer
-- of a client: it takes a message, the send returns, or it fails.
pub data Step : Type 0 where
  published : String → Step
  connected disconnected taken delivered failed : String → Step

abbrev pub Clients : Type 0
Clients = Dict Channel

-- `_fanout`
abbrev pub fanout : ℕ → String → Clients → Clients
fanout size text = map_values (enqueue size text)

-- `connect`, and the start of the writer
abbrev pub connect : String → Clients → Clients
connect ws = insert ws new_channel

-- `disconnect`, and the pruning of a client whose send failed
abbrev pub disconnect : String → Clients → Clients
disconnect ws = erase ws

unfoldable pub step : ℕ → Step → Clients → Clients
step size (published text) clients = fanout size text clients
step size (connected ws) clients = connect ws clients
step size (disconnected ws) clients = disconnect ws clients
step size (taken ws) clients = adjust ws take_next clients
step size (delivered ws) clients = adjust ws send_done clients
step size (failed ws) clients = disconnect ws clients

unfoldable pub run : ℕ → List Step → Clients → Clients
run size [] clients = clients
run size (s ∷ steps) clients = run size steps (step size s clients)

-- `total_dropped`
unfoldable pub total_dropped : Clients → ℕ
total_dropped [] = 0
total_dropped ((_, c) ∷ clients) = c.dropped + total_dropped clients
