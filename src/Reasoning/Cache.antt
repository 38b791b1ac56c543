-- ===== src/Reasoning/Cache.antt =====
-- reasoning/llm/cache.py: `CachingProvider` over `JsonFileLLMCache`. The hash of a list of messages
-- and the language model are parameters; the model's reply to its n-th request may depend on n, and
-- be an exception. The file and the time of a recording are left out.
pub mod Replay
use afterhours.Prelude.{ℕ, ◌+◌, String, Option, none, some, List, [], ◌∷◌}
use afterhours.Prelude.Dict.{Dict, lookup, insert}

-- `JsonFileLLMCache._data`, `CachingProvider.hits` and `misses`
pub record Provider : Type 0 where
  pub responses : Dict String
  pub hits : ℕ
  pub misses : ℕ

module _ {Messages : Type 0} (prompt_key : Messages → String) where
  -- The wrapped provider: none in replay mode.
  abbrev pub Inner : Type 0
  Inner = Option (ℕ → Messages → Option String)

  -- `CachingProvider.complete` past the cache.
  unfoldable pub ask_inner : Inner → Messages → Provider → Option String × Provider
  ask_inner none messages p = (none, record p { misses = p.misses + 1 })
  ask_inner (some ask) messages p = elim (ask p.misses messages) [
    | none ↦ (none, record p { misses = p.misses + 1 })
    | some response ↦ (
      some response,
      record p {
        misses = p.misses + 1;
        responses = insert (prompt_key messages) response p.responses;
      },
    )
  ]

  -- `CachingProvider.complete`: none where it raises.
  unfoldable pub complete : Inner → Messages → Provider → Option String × Provider
  complete inner messages p = elim (lookup (prompt_key messages) p.responses) [
    | none ↦ ask_inner inner messages p
    | some cached ↦ (some cached, record p { hits = p.hits + 1 })
  ]

  -- The replies to a sequence of requests.
  unfoldable pub complete_each : Inner → List Messages → Provider → List (Option String) × Provider
  complete_each inner [] p = ([], p)
  complete_each inner (messages ∷ rest) p =
      let (reply, p') = complete inner messages p in
      let (replies, p'') = complete_each inner rest p' in (reply ∷ replies, p'')
