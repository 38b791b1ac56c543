-- ===== src/Reasoning/Cache/Replay.antt =====
-- Record and replay of reasoning/llm/cache.py.
use afterhours.Prelude.{
  ℕ, String, ◌≡◌, refl, sym, ap, ◌∙◌, Option, none, some, List, [], ◌∷◌, map, arith, eq_iff,
  option_rule,
}
use afterhours.Prelude.Dict.{Dict, lookup, lookup-insert, lookup-insert_self}
use afterhours.Reasoning.Cache.{Provider, Inner, ask_inner, complete, complete_each}

cons-eq : {A : Type 0} {x y : A} {xs ys : List A} → x ≡ y → xs ≡ ys → (x ∷ xs) ≡ (y ∷ ys)
cons-eq {y = y} {xs = xs} e f = ap (λ z. z ∷ xs) e ∙ ap (λ (l : List _). y ∷ l) f

module _ {Messages : Type 0} (prompt_key : Messages → String) where
  -- A provider that always replies.
  abbrev pub replying : (ℕ → Messages → String) → Inner prompt_key
  replying reply = some (λ n messages. some (reply n messages))

  -- What the cache answers to a request.
  abbrev pub recorded : Dict String → Messages → Option String
  recorded responses messages = lookup (prompt_key messages) responses

  -- After a request its reply is recorded, and other records stay.
  complete-recorded :
      (reply : ℕ → Messages → String) (messages : Messages) (p : Provider)
      → let (answer, p') = complete prompt_key (replying reply) messages p in
        recorded p'.responses messages ≡ answer
  unfolding complete ask_inner
  complete-recorded reply messages p =
      option_rule (λ (r : Option String × Provider). recorded r.1.responses messages ≡ r.0)
        (lookup (prompt_key messages) p.responses)
        (λ _. lookup-insert_self (prompt_key messages) (reply p.misses messages) p.responses)
        (λ cached e. e)

  complete-keeps :
      (reply : ℕ → Messages → String) (messages : Messages) (p : Provider) (k r : String)
      → lookup k p.responses ≡ some r
      → lookup k (complete prompt_key (replying reply) messages p).1.responses ≡ some r
  unfolding complete ask_inner
  complete-keeps reply messages p k r h =
      option_rule (λ (q : Option String × Provider). lookup k q.1.responses ≡ some r)
        (lookup (prompt_key messages) p.responses)
        (λ e. ground (
          arith,
          eq_iff (prompt_key messages) k,
          lookup-insert (prompt_key messages) k (reply p.misses messages) p.responses,
        ))
        (λ cached e. h)

  complete_each-keeps :
      (reply : ℕ → Messages → String) (ms : List Messages) (p : Provider) (k r : String)
      → lookup k p.responses ≡ some r
      → lookup k (complete_each prompt_key (replying reply) ms p).1.responses ≡ some r
  unfolding complete_each
  complete_each-keeps reply [] p k r h = h
  complete_each-keeps reply (m ∷ ms) p k r h =
      complete_each-keeps reply ms (complete prompt_key (replying reply) m p).1 k r
        (complete-keeps reply m p k r h)

  -- A live request is answered.
  complete-answers :
      (reply : ℕ → Messages → String) (messages : Messages) (p : Provider)
      → (r : String) × ((complete prompt_key (replying reply) messages p).0 ≡ some r)
  unfolding complete ask_inner
  complete-answers reply messages p =
      option_rule (λ (q : Option String × Provider). (r : String) × (q.0 ≡ some r))
        (lookup (prompt_key messages) p.responses) (λ _. (reply p.misses messages, refl))
        (λ cached _. (cached, refl))

  -- The live replies are those that the cache has at the end.
  live_lem :
      (reply : ℕ → Messages → String) (ms : List Messages) (p : Provider)
      → (complete_each prompt_key (replying reply) ms p).0
        ≡ map (recorded (complete_each prompt_key (replying reply) ms p).1.responses) ms
  unfolding complete_each
  live_lem reply [] p = refl
  live_lem reply (m ∷ ms) p =
      let p1 = (complete prompt_key (replying reply) m p).1 in
      let (r, e) = complete-answers reply m p in
      let stays =
        complete_each-keeps reply ms p1 (prompt_key m) r (complete-recorded reply m p ∙ e) in
      cons-eq (e ∙ sym stays) (live_lem reply ms p1)

  replay_lem :
      (ms : List Messages) (responses : Dict String) (p : Provider)
      → p.responses ≡ responses
      → (complete_each prompt_key none ms p).0 ≡ map (recorded responses) ms
  unfolding complete_each complete ask_inner
  replay_lem [] responses p h = refl
  replay_lem (m ∷ ms) responses p h =
      let known = ap (λ (d : Dict String). lookup (prompt_key m) d) h in
      option_rule
        (λ (q : Option String × Provider).
          (q.0 ∷ (complete_each prompt_key none ms q.1).0)
          ≡ (recorded responses m ∷ map (recorded responses) ms))
        (lookup (prompt_key m) p.responses)
        (λ e. cons-eq (sym e ∙ known) (replay_lem ms responses _ h))
        (λ cached e. cons-eq (sym e ∙ known) (replay_lem ms responses _ h))

  -- Replay gives what was recorded: after any requests to a model that always replies, whatever the
  -- cache held before, the same requests in replay mode on that cache, with no model at all, get the
  -- same replies in the same order.
  pub replay-record :
      (reply : ℕ → Messages → String) (ms : List Messages) (p : Provider) (hits misses : ℕ)
      → let (replies, p') = complete_each prompt_key (replying reply) ms p in
        let replayed : Provider = record {
          responses = p'.responses;
          hits = hits;
          misses = misses;
        } in
        (complete_each prompt_key none ms replayed).0 ≡ replies
  replay-record reply ms p hits misses = replay_lem ms _ _ refl ∙ sym (live_lem reply ms p)
