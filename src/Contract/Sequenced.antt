-- ===== src/Contract/Sequenced.antt =====
-- sequencer/src/service.rs: the transaction of `finalize_channel`, as the contract takes it.
use cronos_stream.Prelude.{
  ℕ, ◌+◌, ◌^◌, ◌≤◌, ◌<◌, ◌≡◌, ◌≢◌, refl, sym, String, some, List, [], ◌∷◌, arith, map, length,
  nat_has_eq,
}
use mathlib.Core.Path.{subst}
use cronos_stream.Python.{lookup}
use cronos_stream.Sequencer.{
  RecipientBalance, ChannelState, PayInChannelRequest, ChannelView, success, Update, Backend,
  Moment, Channels,
}
use cronos_stream.Sequencer.Payment.{
  Payment, channel_update, validate_timestamp, compute_next_state, parse_payment,
}
use cronos_stream.Sequencer.Payment.Amounts.{owed, owed_to, cost}
use cronos_stream.Sequencer.Payment.Laws.{try_result-eq-success}
use cronos_stream.Sequencer.Payment.Solvency.{due_to, compute_next_state-owed}
use cronos_stream.Sequencer.Service.{settle}
use cronos_stream.Sequencer.Service.Invariant.{cosign-keeps}
use cronos_stream.Sequencer.Service.Finalize.{
  Holds, settle-stored, accepted-Holds, finalize_update-Holds,
}
use cronos_stream.Contract.{
  Bytes, returned, channel_at, Storage, Deployment, Message, closing_update,
  final_close_by_sequencer,
}
use cronos_stream.Contract.Finalizing.{
  closure_of, parse_signature_bytes, finalize_channel, finalize_channel_lem, IsCanonical,
}
use cronos_stream.Contract.Closing.{sum, closed_by, IsClosable, PaysAlways, final_close-closes}

-- The sequencer's channel is one of the contract's, with a number that is not above the voucher's.
pub record Escrows (s : Storage) (c : ChannelState) (payload : PayInChannelRequest) : Type 0 where
  pub identified : c.channel_id ≢ 0
  pub owned : c.owner ≢ 0
  pub same_owner : (channel_at s.channels c.channel_id).owner ≡ c.owner
  pub same_balance : (channel_at s.channels c.channel_id).balance ≡ c.balance
  pub same_expiry : (channel_at s.channels c.channel_id).expiry_time ≡ c.expiry_ts
  pub not_above : (channel_at s.channels c.channel_id).sequence_number ≤ payload.sequence_number

-- The sequencer is configured for the contract, and the contract recovers the signer that the
-- sequencer does from a signature whose bytes are canonical. From another one it need not.
pub record Deploys (b : Backend) (d : Deployment) : Type 0 where
  pub same_chain : d.chain_id ≡ b.chain_id
  pub same_contract : d.address ≡ b.channel_manager
  pub recovers :
      (update : Update) (signature : String) (bytes : Bytes) (signer : ℕ)
      → parse_signature_bytes b signature ≡ success bytes
      → IsCanonical bytes
      → b.recover update signature ≡ success signer
      → d.recover update bytes ≡ some signer

sum-map_balance : (rs : List RecipientBalance) → sum (map (λ r. r.balance) rs) ≡ owed rs
sum-map_balance [] = refl
sum-map_balance (r ∷ rs) = omega (arith, sum-map_balance rs)

same_length :
    (rs : List RecipientBalance)
    → length (map (λ r. r.recipient_address) rs) ≡ length (map (λ r. r.balance) rs)
same_length [] = refl
same_length (r ∷ rs) = omega (arith, same_length rs)

validate_timestamp-bounds :
    (b : Backend) (now timestamp expiry : ℕ)
    → validate_timestamp b now timestamp expiry ≡ success tt
    → (timestamp ≤ now + 900) × (timestamp ≤ expiry)
unfolding validate_timestamp
validate_timestamp-bounds b now timestamp expiry h = ground arith

module _ (b : Backend) (d : Deployment) (same : Deploys b d) where
  -- The update that a stored voucher gives is one that the contract closes with.
  stored-IsClosable :
      (msg : Message) (later : ℕ) (s : Storage) (c : ChannelState) (payload : PayInChannelRequest)
      (u : ChannelState) (bytes : Bytes)
      → Escrows s c payload
      → parse_signature_bytes b payload.user_signature ≡ success bytes
      → IsCanonical bytes
      → Holds b c payload u
      → msg.sender ≡ d.sequencer
      → later ≤ msg.timestamp
      → 900 ≤ payload.timestamp
      → validate_timestamp b later payload.timestamp c.expiry_ts ≡ success tt
      → owed u.recipients ≤ c.balance
      → IsClosable d msg
          (closure_of
            (channel_update b c.channel_id payload.sequence_number payload.timestamp u.recipients)
            bytes)
          s
  unfolding channel_update closing_update
  stored-IsClosable msg later s c payload u bytes e decoded canonical holds sender timed settled
        valid covered =
      let (begun, unexpired) =
        validate_timestamp-bounds b later payload.timestamp c.expiry_ts valid in
      let (_, _, _, _, _, _, _, recovered) = holds in
      record {
        by_sequencer = sender;
        identified = e.identified;
        present = ground (arith, e.same_expiry);
        matching = same_length u.recipients;
        settled = settled;
        begun = omega arith;
        unexpired = omega (arith, e.same_expiry);
        owned = ground (arith, e.same_owner, e.owned);
        signed = ground (
          arith,
          same.same_chain,
          same.same_contract,
          e.same_owner,
          same.recovers
              (channel_update b c.channel_id payload.sequence_number payload.timestamp u.recipients)
              payload.user_signature bytes c.owner decoded canonical recovered,
        );
        current = e.not_above;
        covered = omega (arith, sum-map_balance u.recipients, e.same_balance);
      }

  -- Behind a new voucher that `settle` has answered with success, `finalize_channel` passes its tests,
  -- and the call that it sends closes the contract's channel: each recipient is paid what it was
  -- owed and what the voucher gives it, the owner the rest.
  --
  -- The amounts owed and the payment fit a word together. The voucher's signature is decoded to
  -- canonical bytes, with a low `s` and a `v` of 27 or 28, and from such a signature the contract
  -- recovers the signer that the sequencer does. The voucher's timestamp is at least 900, and the
  -- later time of the sequencer allows it, as the channel's expiry does; the block's time is not
  -- before that time, and the call comes from the contract's sequencer. The contract's channel has
  -- the sequencer's owner, balance and expiry and no higher number; both are configured for the
  -- same chain and contract; and the token reverts no payment.
  pub settle-final_close :
      PaysAlways d
      → (moment : Moment) (later : ℕ) (msg : Message) (s : Storage) (payload : PayInChannelRequest)
        (channels : Channels) {view : ChannelView} {after : Channels} (c : ChannelState)
        {payment : Payment} {bytes : Bytes}
      → lookup payload.channel_id channels ≡ some c
      → parse_payment b payload ≡ success payment
      → owed c.recipients + cost payment < 2 ^ 256
      → c.balance < 2 ^ 256
      → payload.sequence_number ≢ c.sequence_number
      → payload.user_signature ≢ ""
      → parse_signature_bytes b payload.user_signature ≡ success bytes
      → IsCanonical bytes
      → 900 ≤ payload.timestamp
      → validate_timestamp b later payload.timestamp c.expiry_ts ≡ success tt
      → Escrows s c payload
      → msg.sender ≡ d.sequencer
      → later ≤ msg.timestamp
      → settle b moment payload channels ≡ (success view, after)
      → (u : ChannelState) × (let update =
            channel_update b c.channel_id payload.sequence_number payload.timestamp u.recipients in
          let closure = closure_of update bytes in
          (finalize_channel b later payload.channel_id after ≡ success closure)
          × (final_close_by_sequencer d msg closure s ≡ returned (closed_by closure s))
          × (sum update.amounts ≡ owed c.recipients + cost payment)
          × ((j : ℕ) → owed_to j u.recipients ≡ owed_to j c.recipients + due_to j payment))
  unfolding channel_update
  settle-final_close pays moment later msg s payload channels {view} {after} c {bytes = bytes} found
        parsed fits word new written decoded canonical settled valid e sender timed h =
      let (u, kept, computed) = settle-stored b moment payload channels c found new h in
      let holds = accepted-Holds b moment.now c payload computed in
      let (updated, accepted, signed) =
        try_result-eq-success (compute_next_state b moment.now c payload) _ computed in
      let (same_recipients, _) = cosign-keeps b updated signed in
      let (_, summed, covered, each) =
        compute_next_state-owed b moment.now c payload parsed fits accepted in
      let closable =
        stored-IsClosable msg later s c payload u bytes e decoded canonical holds sender timed
          settled valid (rw same_recipients covered) in
      let update =
        channel_update b c.channel_id payload.sequence_number payload.timestamp u.recipients in
      (
        u,
        (
          finalize_channel_lem b later payload.channel_id after u update bytes kept
              (finalize_update-Holds b later payload.channel_id after c payload kept holds written
                (omega arith) valid)
              (subst (λ sig. parse_signature_bytes b sig ≡ success bytes) (sym holds.4) decoded),
          final_close-closes d pays msg (closure_of update bytes) s (omega (arith, e.same_balance))
              closable,
          rw (sum-map_balance u.recipients) (rw same_recipients summed),
          rw same_recipients each,
        ),
      )
