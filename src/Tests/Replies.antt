-- ===== src/Tests/Replies.antt =====
-- The theorem on the cache of replies at a concrete input: requests are texts, and their key is the
-- text itself.
use Prim.Native.String.{◌++◌ as str_append}
use afterhours.Prelude.{ℕ, String, ◌≡◌, none, List, [], ◌∷◌, ◌==◌, if◌then◌else◌}
use afterhours.Reasoning.Cache.{Provider, complete_each}
use afterhours.Reasoning.Cache.Replay.{replying, replay-record}

abbrev key : String → String
key messages = messages

-- A model that changes its mind after the first request.
abbrev moody : ℕ → String → String
moody n messages = if n == 0 then "long" else str_append "short " messages

abbrev empty_cache : Provider
empty_cache = record { responses = []; hits = 0; misses = 0 }

abbrev requests : List String
requests = "BTC-USD" ∷ "ETH-USD" ∷ "BTC-USD" ∷ []

replay-record_example :
    let (replies, p') = complete_each key (replying key moody) requests empty_cache in
    let replayed : Provider = record { responses = p'.responses; hits = 0; misses = 0 } in
    (complete_each key none requests replayed).0 ≡ replies
replay-record_example = replay-record key moody requests empty_cache 0 0
