-- ===== src/Service/Discover/Laws.antt =====
-- What discovery gives.
use cronos_stream.Prelude.{
  String, ◌≡◌, refl, ap, ◌∙◌, true, List, [], ◌∷◌, ◌++◌, ◌<>◌, sym, arith, ◌⊎◌, inl, inr,
}
use cronos_stream.Python.{
  Value, text, truthy, get, Outcome, ok, raised, interrupt, Exn, as_text, or_value, null,
  rstrip_slash, bind_outcome-eq-ok, ok_injective,
}
use cronos_stream.World.{World, Trace, posts, sent, logged}
use cronos_stream.Errors.Laws.{Caught, handle_errors-Caught}
use mathlib.Core.Path.{subst}
use cronos_stream.Service.{Has}
use cronos_stream.Service.Discover.{
  probe, probe_paths, fetch_agent_card, agent_record, discover_each, find_agents, discover_agents,
}

-- An agent's record: its card is there, and its address is a text.
abbrev pub IsAgent : Value → Type 0
IsAgent agent =
    (card : Value) × (address : String) × Has agent "card" card
    × (truthy card ≡ true)
    × Has agent "baseUrl" (text address)

pub AllAgents : List Value → Type 0
AllAgents [] = Unit
AllAgents (v ∷ vs) = IsAgent v × AllAgents vs

AllAgents-append :
    (vs : List Value) (v : Value) → AllAgents vs → IsAgent v → AllAgents (vs ++ (v ∷ []))
unfolding AllAgents
AllAgents-append [] v h k = (k, tt)
AllAgents-append (u ∷ us) v h k = (h.0, AllAgents-append us v h.1 k)

agent_record-IsAgent :
    (w : World) (base card agent : Value)
    → agent_record w base card ≡ ok agent
    → truthy card ≡ true
    → IsAgent agent
unfolding agent_record get
agent_record-IsAgent w base card agent h there =
    let (name, r1, h1) = bind_outcome-eq-ok (get card "name" (text "unknown")) _ h in
    let (url, r2, h2) = bind_outcome-eq-ok (get card "url" null) _ h1 in
    let (address, r3, h3) = bind_outcome-eq-ok (as_text (or_value url base)) _ h2 in
    let same = ok_injective _ agent h3 in
    (
      card,
      rstrip_slash address,
      ap (λ a. get a "card" null) (sym same),
      there,
      ap (λ a. get a "baseUrl" null) (sym same),
    )

added :
    (w : World) (agents : List Value) (base card agent : Value)
    → AllAgents agents
    → truthy card ≡ true
    → agent_record w base card ≡ ok agent
    → AllAgents (agents ++ (agent ∷ []))
added w agents base card agent h there made =
    AllAgents-append agents agent h (agent_record-IsAgent w base card agent made there)

-- Discovery only asks.
pub Quiet : Trace → Trace → Type 0
Quiet before after = (posts after ≡ posts before) × (sent after ≡ sent before)

module _ (w : World) where
  probe-Quiet : (url : String) (past : Trace) → Quiet past (probe w url past).1
  unfolding probe Quiet
  probe-Quiet url past = ground arith

  probe_paths-Quiet :
      (base : String) (paths : List String) (past : Trace)
      → Quiet past (probe_paths w base paths past).1
  unfolding probe_paths Quiet
  probe_paths-Quiet base [] past = (refl, refl)
  probe_paths-Quiet base (path ∷ paths) past = ground (
    arith,
    probe-Quiet (base <> path) past,
    probe_paths-Quiet base paths (probe w (base <> path) past).1,
  )

  fetch_agent_card-Quiet :
      (base : Value) (past : Trace) → Quiet past (fetch_agent_card w base past).1
  unfolding fetch_agent_card Quiet
  fetch_agent_card-Quiet base past = grind (arith, probe_paths-Quiet)

-- What a discovery leaves: nothing but requests for cards, and nothing but agents.
Found : Trace → Outcome (List Value) × Trace → Type 0
Found before (ok agents, after) = AllAgents agents × Quiet before after
Found before (raised e, after) = Quiet before after

ok-Found :
    (before : Trace) (agents : List Value) (past : Trace)
    → AllAgents agents
    → Quiet before past
    → Found before (ok agents, past)
unfolding Found
ok-Found before agents past h k = (h, k)

raised-Found :
    (before : Trace) (e : Exn) (past : Trace) → Quiet before past → Found before (raised e, past)
unfolding Found
raised-Found before e past k = k

Quiet-trans : (a b c : Trace) → Quiet a b → Quiet b c → Quiet a c
unfolding Quiet
Quiet-trans a b c h k = (k.0 ∙ h.0, k.1 ∙ h.1)

discover_each-Found :
    (w : World) (before : Trace) (urls agents : List Value) (past : Trace)
    → AllAgents agents
    → Quiet before past
    → Found before (discover_each w urls agents past)
unfolding discover_each
discover_each-Found w before [] agents past h k = ok-Found before agents past h k
discover_each-Found w before (base ∷ urls) agents past h k =
    let quiet = Quiet-trans before past _ k (fetch_agent_card-Quiet w base past) in
    grind (arith, discover_each-Found w before urls, added, raised-Found)

-- A discovery that ended: by an interrupt, or with agents, and without a post or a transaction.
abbrev pub Discovered : Trace → Outcome (List Value) × Trace → Type 0
Discovered before p =
    (((name : String) × (p.0 ≡ raised (interrupt name)))
      ⊎ ((agents : List Value) × (p.0 ≡ ok agents) × AllAgents agents))
    × Quiet before p.1

log-Quiet : (before past : Trace) (e : Exn) → Quiet before past → Quiet before (logged e ∷ past)
unfolding Quiet
log-Quiet before past e k = k

Found-Discovered :
    (before : Trace) (p q : Outcome (List Value) × Trace)
    → Found before p
    → Caught [] p q
    → Discovered before q
unfolding Found AllAgents
Found-Discovered before (ok agents, after) q (h, k) (inl (a, e, f)) =
    subst (Discovered before) (sym f)
      (inr (a, refl, subst AllAgents (ok_injective agents a e) h), k)
Found-Discovered before (raised x, after) q k (inl (a, e, f)) = cc
Found-Discovered before (ok agents, after) q h (inr (inl (x, e, f))) = cc
Found-Discovered before (raised x', after) q k (inr (inl (x, e, f))) =
    subst (Discovered before) (sym f) (inr ([], refl, tt), log-Quiet before after x k)
Found-Discovered before (ok agents, after) q h (inr (inr (name, e, f))) = cc
Found-Discovered before (raised x, after) q k (inr (inr (name, e, f))) =
    subst (Discovered before) (sym f) (inl (name, refl), k)

body-Found : (w : World) (urls : Value) (past : Trace) → Found past (find_agents w urls past)
unfolding Quiet AllAgents find_agents
body-Found w urls past = grind (arith, discover_each-Found w past, raised-Found)

-- `discover_agents` makes no post and sends no transaction. It raises nothing but an interrupt, and
-- every agent that it gives has a card that is there and an address that is a text.
pub discover_agents-Discovered :
    (w : World) (urls : Value) (past : Trace) → Discovered past (discover_agents w urls past)
unfolding discover_agents
discover_agents-Discovered w urls past =
    Found-Discovered past _ _ (body-Found w urls past)
      (handle_errors-Caught [] (find_agents w urls) past)
