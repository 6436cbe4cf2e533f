-- ===== src/Channel/Ensure/Keeps.antt =====
-- The posts made by the stages of `ensure_channel`, and the contract of the manager.
use cronos_stream.Prelude.{ℕ, String, ◌≡◌, refl, List, [], ◌∷◌, arith}
use cronos_stream.Prelude.Int.{ℤ, int_has_eq}
use cronos_stream.Python.{Value}
use cronos_stream.World.{World, Response, Trace, ContractCall, posts}
use cronos_stream.Channel.{Session}
use cronos_stream.Channel.Ensure.{
  sync_recipient, sync_recipients, sync_view, check_sequencer, send_transaction, ensure_allowance,
  sign_open_channel, submit_opening, open_on_chain, predict_channel,
}

module _ (w : World) where
  pub predict_channel_keeps :
      (amount expiry : ℤ) (s : Session)
      → let s' = (predict_channel w amount expiry s).1 in
        (posts s'.trace ≡ posts s.trace)
        × (s'.manager.contract_address ≡ s.manager.contract_address)
  unfolding predict_channel
  predict_channel_keeps amount expiry s = ground arith

  send_transaction_keeps :
      (contract : String) (function : ContractCall) (gas : ℕ) (owner : String) (past : Trace)
      → posts (send_transaction w contract function gas owner past).1 ≡ posts past
  unfolding send_transaction
  send_transaction_keeps contract function gas owner past = ground arith

  pub ensure_allowance_keeps :
      (amount : ℤ) (s : Session)
      → let s' = (ensure_allowance w amount s).1 in
        (posts s'.trace ≡ posts s.trace) × (s'.manager ≡ s.manager)
  unfolding ensure_allowance send_transaction
  ensure_allowance_keeps amount s = ground arith

  pub open_on_chain_keeps :
      (amount expiry : ℤ) (s : Session)
      → posts (open_on_chain w amount expiry s).1.trace ≡ posts s.trace
  unfolding open_on_chain submit_opening sign_open_channel send_transaction
  open_on_chain_keeps amount expiry s = ground arith

  -- Synchronising makes no call, and the contract stays.
  abbrev SyncKeeps : Session → Session → Type 0
  SyncKeeps s s' = (s'.trace ≡ s.trace) × (s'.manager.contract_address ≡ s.manager.contract_address)

  sync_recipient_keeps : (r : Value) (s : Session) → SyncKeeps s (sync_recipient w r s).1
  unfolding sync_recipient
  sync_recipient_keeps r s = ground arith

  sync_recipients_keeps : (rs : List Value) (s : Session) → SyncKeeps s (sync_recipients w rs s).1
  unfolding sync_recipients
  sync_recipients_keeps [] s = (refl, refl)
  sync_recipients_keeps (r ∷ rs) s =
      ground (arith, sync_recipient_keeps r s, sync_recipients_keeps rs (sync_recipient w r s).1)

  sync_view_keeps : (res : Response) (s : Session) → SyncKeeps s (sync_view w res s).1
  unfolding sync_view
  sync_view_keeps res s = grind (arith, sync_recipients_keeps)

  pub check_sequencer_keeps :
      (url : String) (s : Session)
      → let s' = (check_sequencer w url s).1 in
        (posts s'.trace ≡ posts s.trace)
        × (s'.manager.contract_address ≡ s.manager.contract_address)
  unfolding check_sequencer
  check_sequencer_keeps url s = grind (arith, sync_view_keeps)
