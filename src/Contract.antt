-- ===== src/Contract.antt =====
-- contracts/contracts/StreamChannel.sol: the contract that holds the money of the channels.
mod Data
pub mod Effects
pub mod Steps
pub mod Conservation
pub mod Owners
pub mod Closing
pub mod Finalizing
pub mod Sequenced
pub mod Publishing
unfoldable pub use Data.*
use cronos_stream.Prelude.{
  ℕ, ◌+◌, ◌-◌, String, Bool, true, false, not, Option, none, some, List, [], ◌∷◌, ◌++◌, map, length,
  ltb, leb, ◌==◌, nat_has_eq, string_has_eq, if◌then◌else◌,
}
use cronos_stream.Sequencer.{Update}

-- The contract's own address and configuration, the hash of `getChannelId`, `ECDSA.recover`, which
-- reverts on bytes that are no signature, and the token, whose calls may revert or answer false.
-- The token does not call the contract back.
pub record Deployment : Type 0 where
  pub sequencer : ℕ
  pub address : ℕ
  pub chain_id : ℕ
  pub channel_id_of : (owner expiry_time amount : ℕ) → ℕ
  pub recover : Update → Bytes → Option ℕ
  pub transfer_from_reply : List Transfer → ℕ → ℕ → Option Bool
  pub transfer_reply : List Transfer → ℕ → ℕ → Option Bool

-- `msg.sender`, whether it has code, and `block.timestamp`.
pub record Message : Type 0 where
  pub sender : ℕ
  pub has_code : Bool
  pub timestamp : ℕ

-- The constructor, whose two addresses are immutable; the storage is zero.
unfoldable pub deploy : (token sequencer : ℕ) → Reply Storage
deploy token sequencer = do
  require (not (token == 0)) "Invalid token"
  require (not (sequencer == 0)) "Invalid sequencer"
  returned
      (record { channels = []; balances = λ id r. 0; user_channels = λ owner. []; transfers = [] })

-- `_verifySignatureTimestampValue`
unfoldable pub verify_signature_timestamp : Message → ℕ → ℕ → Reply (Unit {0})
verify_signature_timestamp msg expiry_time timestamp = do
  earliest ← checked_sub timestamp 900
  require (leb earliest msg.timestamp) "Timestamp of signature from the future"
  require (leb timestamp expiry_time) "Signature after channel expiry"

-- The loop of `_updateChannelBalances`.
unfoldable pub set_balances : List ℕ → List ℕ → (ℕ → ℕ) → Reply (ℕ → ℕ)
set_balances [] amounts held = returned held
set_balances (r ∷ rs) [] held = reverted "Panic(0x32)"
set_balances (r ∷ rs) (a ∷ amounts) held = set_balances rs amounts (assign r a held)

-- The first loop of `_distributeChannelFunds`.
unfoldable pub check_amounts : List ℕ → List ℕ → ℕ → ℕ → Reply ℕ
check_amounts [] amounts balance total = returned total
check_amounts (r ∷ rs) [] balance total = reverted "Panic(0x32)"
check_amounts (r ∷ rs) (a ∷ amounts) balance total = do
  require (leb a balance) "Amount exceeds available balance"
  sum ← checked_add total a
  check_amounts rs amounts balance sum

unfoldable pub last_of : ℕ → List ℕ → ℕ
last_of x [] = x
last_of x (y ∷ ys) = last_of y ys

unfoldable pub without_last : ℕ → List ℕ → List ℕ
without_last x [] = []
without_last x (y ∷ ys) = x ∷ without_last y ys

-- `_removeChannelFromUser`: the last element takes the place of the first that is `id`.
unfoldable pub remove_channel : ℕ → List ℕ → List ℕ
remove_channel id [] = []
remove_channel id (x ∷ xs) =
    let rest = remove_channel id xs in
    if x == id
    then elim xs as (λ _. List ℕ) [ [] ↦ [] | y ∷ ys ↦ last_of y ys ∷ without_last y ys ]
    else x ∷ rest

-- `_closeAndCleanupChannel`
unfoldable pub close_and_cleanup_channel : ℕ → Storage → Storage
close_and_cleanup_channel id s =
    let c = channel_at s.channels id in
    record s {
      channels = put id no_channel s.channels;
      user_channels = assign c.owner (remove_channel id (s.user_channels c.owner)) s.user_channels;
    }

module _ (d : Deployment) where
  -- What `_isSignatureValidForSigner` hashes, of which `_hashTypedDataV4` makes the digest.
  unfoldable pub closing_update : ℕ → ℕ → ℕ → List ℕ → List ℕ → Update
  closing_update channel_id sequence_number timestamp recipients amounts = record {
    channel_id = channel_id;
    sequence_number = sequence_number;
    timestamp = timestamp;
    recipients = recipients;
    amounts = amounts;
    chain_id = d.chain_id;
    verifying_contract = d.address;
  }

  unfoldable pub is_signature_valid : ℕ → Update → Bytes → Reply Bool
  is_signature_valid expected_signer update signature = do
    require (not (expected_signer == 0)) "Invalid signer"
    elim (d.recover update signature) as (λ _. Reply Bool) [
      | none ↦ reverted "ECDSAInvalidSignature"
      | some signer ↦ returned (signer == expected_signer)
    ]

  -- `token.transfer(to, amount)`, whose answer is not looked at.
  unfoldable pub token_transfer : ℕ → ℕ → List Transfer → Reply (List Transfer)
  token_transfer to amount past = elim (d.transfer_reply past to amount) [
    | none ↦ reverted "transfer"
    | some answer ↦ returned (transfer to amount ∷ past)
  ]

  -- The second loop of `_distributeChannelFunds`: the balance left and the transfers.
  unfoldable pub pay_each : List ℕ → List ℕ → ℕ → List Transfer → Reply (ℕ × List Transfer)
  pay_each [] amounts balance past = returned (balance, past)
  pay_each (r ∷ rs) [] balance past = reverted "Panic(0x32)"
  pay_each (r ∷ rs) (a ∷ amounts) balance past = do
    paid ← token_transfer r a past
    rest ← checked_sub balance a
    pay_each rs amounts rest paid

  unfoldable pub distribute_channel_funds :
      List ℕ → List ℕ → ℕ → List Transfer → Reply (ℕ × List Transfer)
  distribute_channel_funds recipients amounts balance past = do
    total ← check_amounts recipients amounts balance 0
    require (leb total balance) "Total exceeds channel balance"
    pay_each recipients amounts balance past

  -- What is left goes back to the owner.
  unfoldable pub return_rest : ℕ → ℕ → List Transfer → Reply (List Transfer)
  return_rest owner balance past =
      if ltb 0 balance then token_transfer owner balance past else returned past

  -- The end of both ways to close: the payments, the rest, and the cleaning up.
  unfoldable pub pay_and_close : ℕ → List ℕ → List ℕ → Storage → Reply Storage
  pay_and_close id recipients amounts s = do
    let c = channel_at s.channels id
    left ← distribute_channel_funds recipients amounts c.balance s.transfers
    paid ← return_rest c.owner left.0 left.1
    returned (close_and_cleanup_channel id (record s { transfers = paid }))

  unfoldable pub validate_and_close_channel : Message → BatchClosure → Storage → Reply Storage
  validate_and_close_channel msg b s = do
    let c = channel_at s.channels b.channel_id
    require (not (b.channel_id == 0)) "Invalid channel ID"
    require (not (c.expiry_time == 0)) "Channel does not exist"
    require (length b.recipients == length b.amounts) "recipients and amounts must match in size"
    verify_signature_timestamp msg c.expiry_time b.timestamp
    valid ←
        is_signature_valid c.owner
          (closing_update b.channel_id b.sequence_number b.timestamp b.recipients b.amounts)
          b.user_signature
    require valid "Invalid user signature"
    require (leb c.sequence_number b.sequence_number) "Old sequence number provided"
    pay_and_close b.channel_id b.recipients b.amounts s

  unfoldable pub final_close_by_sequencer : Message → BatchClosure → Storage → Reply Storage
  final_close_by_sequencer msg b s = do
    require (msg.sender == d.sequencer) "Only sequencer can close the channel"
    validate_and_close_channel msg b s

  unfoldable pub close_batch : Message → List BatchClosure → Storage → Reply Storage
  close_batch msg [] s = returned s
  close_batch msg (b ∷ batch) s = do
    s' ← validate_and_close_channel msg b s
    close_batch msg batch s'

  unfoldable pub final_close_by_sequencer_batch :
      Message → List BatchClosure → Storage → Reply Storage
  final_close_by_sequencer_batch msg batch s = do
    require (msg.sender == d.sequencer) "Only sequencer can close the channel"
    close_batch msg batch s

  unfoldable pub close_after_expiry_by_anyone : Message → ℕ → Storage → Reply Storage
  close_after_expiry_by_anyone msg id s = do
    let c = channel_at s.channels id
    require (not (id == 0)) "Invalid channel ID"
    require (not (c.expiry_time == 0)) "Channel does not exist"
    require (ltb c.expiry_time msg.timestamp) "Channel has not expired yet"
    pay_and_close id c.recipients (map (s.balances id) c.recipients) s

  -- `_updateChannelBalances`
  unfoldable pub update_channel_balances : BatchClosure → Storage → Reply Storage
  update_channel_balances b s = do
    let c = channel_at s.channels b.channel_id
    held ← set_balances b.recipients b.amounts (s.balances b.channel_id)
    returned (record s {
      channels =
          put b.channel_id
            (record c { sequence_number = b.sequence_number; recipients = b.recipients })
            s.channels;
      balances = assign b.channel_id held s.balances;
    })

  unfoldable pub publish_intermediate_channel_state :
      Message → BatchClosure → Bytes → Storage → Reply Storage
  publish_intermediate_channel_state msg b sequencer_signature s = do
    let c = channel_at s.channels b.channel_id
    let update = closing_update b.channel_id b.sequence_number b.timestamp b.recipients b.amounts
    require (not (b.channel_id == 0)) "Invalid channel ID"
    require (not (c.expiry_time == 0)) "Channel does not exist"
    require (leb msg.timestamp c.expiry_time) "Channel has expired"
    require (length b.recipients == length b.amounts) "recipients and amounts must match in size"
    require (ltb c.sequence_number b.sequence_number) "Sequence number too low"
    verify_signature_timestamp msg c.expiry_time b.timestamp
    by_user ← is_signature_valid c.owner update b.user_signature
    require by_user "Invalid user signature"
    by_sequencer ← is_signature_valid d.sequencer update sequencer_signature
    require by_sequencer "Invalid sequencer signature"
    update_channel_balances b s

  -- `token.transferFrom(owner, address(this), amount)`
  unfoldable pub token_transfer_from : ℕ → ℕ → List Transfer → Reply (List Transfer)
  token_transfer_from owner amount past = elim (d.transfer_from_reply past owner amount) [
    | none ↦ reverted "transferFrom"
    | some answer ↦
        if answer then returned (transfer_from owner amount ∷ past) else reverted "Transfer failed"
  ]

  -- The writes of `openChannel`.
  unfoldable pub enter_channel : ℕ → ℕ → ℕ → ℕ → Storage → Storage
  enter_channel id owner amount expiry_time s = record s {
    channels =
        put id
          (record (channel_at s.channels id) {
            owner = owner;
            balance = amount;
            expiry_time = expiry_time;
          })
          s.channels;
    user_channels = assign owner (s.user_channels owner ++ (id ∷ [])) s.user_channels;
  }

  unfoldable pub open_channel :
      Message → (amount expiry_time timestamp : ℕ) → Bytes → Storage → Reply Storage
  open_channel msg amount expiry_time timestamp signature s = do
    let owner = msg.sender
    let id = d.channel_id_of owner expiry_time amount
    require (not msg.has_code) "Only EOA can open channels"
    require (ltb 0 amount) "Amount must be greater than zero"
    require (ltb msg.timestamp expiry_time) "Expiry time must be in the future"
    latest ← checked_add msg.timestamp 31536000
    require (leb expiry_time latest) "Expiry time must be within 1 year"
    require ((channel_at s.channels id).expiry_time == 0) "Channel already exists"
    verify_signature_timestamp msg expiry_time timestamp
    require (not (length signature == 0)) "Missing user signature"
    valid ← is_signature_valid owner (closing_update id 0 timestamp [] []) signature
    require valid "Invalid user signature"
    taken ← token_transfer_from owner amount s.transfers
    returned (enter_channel id owner amount expiry_time (record s { transfers = taken }))
