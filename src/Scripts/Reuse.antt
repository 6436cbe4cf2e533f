-- ===== src/Scripts/Reuse.antt =====
-- scripts/verify_reusable_channel.py: two vouchers on one channel, and the check of their numbers.
pub mod Laws
use cronos_stream.Prelude.{
  String, ◌<>◌, Bool, true, false, Option, none, some, List, [], ◌∷◌, not, ◌==◌, string_has_eq,
  if◌then◌else◌,
}
use cronos_stream.Prelude.Int.{ℤ, pos, ◌+ℤ◌, int_has_eq}
use cronos_stream.Python.{
  Dict, Value, object, index, to_int, Outcome, ok, raised, bind_outcome, Action, pure, from_outcome,
  ◌>>=◌, ◌>>◌, choose, finally,
}
use cronos_stream.World.{
  World, Trace, Effect, perform, state_file_exists, read_state_file, token_hex, read_clock,
}
use cronos_stream.Channel.{Manager, Session, call, new_manager}
use cronos_stream.Channel.Voucher.{create_voucher}
use cronos_stream.Channel.Ensure.{ensure_channel}
use cronos_stream.Channel.Close.{close_channel}
use cronos_stream.Service.Streaming.{contract_address, chain_id}

abbrev pub reuse_sequencer_url : String
reuse_sequencer_url = "http://localhost:4001"

-- `int(v["sequenceNumber"])`
unfoldable pub voucher_number : Dict Value → Outcome ℤ
voucher_number v = bind_outcome (index (object v) "sequenceNumber") to_int

-- The `try` block of step 6: whether it prints the success.
unfoldable pub numbers_follow : Dict Value → Dict Value → Outcome Bool
numbers_follow v1 v2 =
    bind_outcome (voucher_number v1)
      λ n1. bind_outcome (voucher_number v2) λ n2. ok (n2 == n1 +ℤ pos 1)

module _ (w : World) where
  -- Steps 4 and 5. The owner pays itself.
  unfoldable pub two_vouchers : String → Action Session (Dict Value × Dict Value)
  two_vouchers owner = do
    v1 ← create_voucher w owner (pos 1000000)
    v2 ← create_voucher w owner (pos 2000000)
    pure (v1, v2)

  -- Steps 3 to 6, and the cleaning up.
  unfoldable pub try_reuse : String → Action Session Bool
  try_reuse owner = do
    now ← call (read_clock w)
    ensure_channel w reuse_sequencer_url "2000000" (now +ℤ pos 3600)
    vs ← two_vouchers owner
    finally (from_outcome (numbers_follow vs.0 vs.1))
        (do closed ← close_channel w reuse_sequencer_url; pure tt)

  unfoldable pub random_id : Effect String
  random_id = do random ← perform token_hex (λ past. ok (w.random_hex past)); pure ("0x" <> random)

  unfoldable pub or_random : Option String → Effect String
  or_random stored = elim stored as (λ _. Effect String) [
    | none ↦ random_id
    | some channel ↦ choose (channel == "") random_id (pure channel)
  ]

  -- The stored identifier, or a new one. An unreadable file ends the script.
  unfoldable pub channel_to_reuse : Effect String
  channel_to_reuse = do
    exists ← perform state_file_exists (λ past. ok (w.has_state_file past))
    stored ← choose exists (perform read_state_file w.stored_channel_id) (pure none)
    or_random stored

  unfoldable pub start_reuse : Manager → String → Effect Bool
  start_reuse m owner past =
      let (r, s) = try_reuse owner (record { manager = m; trace = past }) in (r, s.trace)

  unfoldable pub reuse_with_key : ℤ → String → Effect (Option Bool)
  reuse_with_key chain key = do
    channel ← channel_to_reuse
    owner ← from_outcome (w.account_of key)
    m ← from_outcome (new_manager w (contract_address w) chain key channel owner)
    follows ← start_reuse m owner
    pure (some follows)

  -- `test_streaming_reuse`; `none` where the key is missing. The chain's number is read when the
  -- manager's module is imported.
  unfoldable pub streaming_reuse : Effect (Option Bool)
  streaming_reuse = do
    chain ← from_outcome (chain_id w)
    elim (w.env "X402_AGENT_PRIVATE_KEY") as (λ _. Effect (Option Bool)) [
      | none ↦ pure none
      | some key ↦ choose (key == "") (pure none) (reuse_with_key chain key)
    ]
