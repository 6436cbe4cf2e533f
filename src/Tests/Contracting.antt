-- ===== src/Tests/Contracting.antt =====
-- The contract with a small token, and the sequencer's channel on it.
use cronos_stream.Prelude.{
  ℕ, ◌+◌, ◌^◌, ◌≤◌, ◌<◌, ◌≡◌, ◌↔◌, refl, String, true, false, Option, none, some, inl, ap, sym, [],
  ◌∷◌, arith, eq_iff, ◌==◌, nat_has_eq, string_has_eq, if◌then◌else◌,
}
use mathlib.Core.Path.{subst}
use cronos_stream.Sequencer.{ChannelState, success}
use cronos_stream.Sequencer.Payment.{channel_update}
use cronos_stream.Sequencer.Payment.Amounts.{owed_to}
use cronos_stream.Sequencer.Payment.Solvency.{due_to}
use cronos_stream.Contract.{
  Bytes, returned, checked_add, checked_sub, no_channel, channel_at, put, assign, transfer_from,
  transfer, Storage, BatchClosure, Deployment, Message, verify_signature_timestamp, set_balances,
  check_amounts, remove_channel, close_and_cleanup_channel, is_signature_valid, token_transfer,
  pay_each, distribute_channel_funds, return_rest, pay_and_close, validate_and_close_channel,
  final_close_by_sequencer, close_after_expiry_by_anyone, update_channel_balances,
  publish_intermediate_channel_state, token_transfer_from, enter_channel, open_channel, deploy,
}
use cronos_stream.Contract.Steps.{empty, here, next, opens, closes}
use cronos_stream.Contract.Conservation.{IsConserved, deploy-IsConserved}
use cronos_stream.Contract.Owners.{IsListed, deploy-IsListed}
use cronos_stream.Contract.Closing.{
  sum, closed_by, closed_paying, IsClosable, PaysAlways, final_close_iff,
}
use cronos_stream.Contract.Publishing.{publish-close_after_expiry}
use cronos_stream.Contract.Finalizing.{
  closure_of, strip_0x, parse_signature_bytes, finalize_channel, IsCanonical,
}
use cronos_stream.Contract.Sequenced.{Escrows, Deploys, settle-final_close}
use cronos_stream.Tests.Sequencing.{
  backend, recovered, replicate, signature_bytes, moment, channel, channels, request, settled,
  payment, answered, read_payment, new_number, signed, in_time,
}

-- The first byte of a signature is its signer, 9 or the sequencer, 5.
abbrev signer_of : Bytes → Option ℕ
signer_of [] = none
signer_of (x ∷ xs) = if x == 9 then some 9 else if x == 5 then some 5 else none

abbrev deployment : Deployment
deployment = record {
  sequencer = 5;
  address = 7;
  chain_id = 338;
  channel_id_of = λ owner expiry_time amount. 100;
  recover = λ u sig. signer_of sig;
  transfer_from_reply = λ past owner amount. some true;
  transfer_reply = λ past to amount. some true;
}

pays : PaysAlways deployment
pays past to amount = (true, refl)

abbrev by : ℕ → ℕ → Message
by sender timestamp = record { sender = sender; has_code = false; timestamp = timestamp }

abbrev opened : Storage
opened = record {
  channels =
      (
        100,
        record {
          owner = 9;
          balance = 100;
          expiry_time = 5000;
          sequence_number = 0;
          recipients = [];
        },
      )
      ∷ [];
  balances = λ id r. 0;
  user_channels = assign 9 (100 ∷ []) (λ owner. []);
  transfers = transfer_from 9 100 ∷ [];
}

opening : open_channel deployment (by 9 950) 100 5000 1000 signature_bytes empty ≡ returned opened
unfolding open_channel checked_add checked_sub channel_at put verify_signature_timestamp
    is_signature_valid token_transfer_from enter_channel
opening = refl

abbrev closure : BatchClosure
closure = record {
  channel_id = 100;
  sequence_number = 5;
  timestamp = 1000;
  recipients = 1 ∷ 2 ∷ [];
  amounts = 10 ∷ 25 ∷ [];
  user_signature = signature_bytes;
}

abbrev closed : Storage
closed = record {
  channels = (100, no_channel) ∷ [];
  balances = λ id r. 0;
  user_channels = assign 9 [] (assign 9 (100 ∷ []) (λ owner. []));
  transfers = transfer 9 65 ∷ transfer 2 25 ∷ transfer 1 10 ∷ transfer_from 9 100 ∷ [];
}

closing : final_close_by_sequencer deployment (by 5 1200) closure opened ≡ returned closed
unfolding final_close_by_sequencer validate_and_close_channel verify_signature_timestamp checked_add
    checked_sub channel_at put is_signature_valid pay_and_close distribute_channel_funds
    check_amounts pay_each token_transfer return_rest close_and_cleanup_channel remove_channel
closing = refl

deployed : deploy 3 5 ≡ returned empty
unfolding deploy
deployed = refl

deploy-IsConserved_example : IsConserved closed
deploy-IsConserved_example = deploy-IsConserved deployment 3 5 deployed (
    next (next here (opens (by 9 950) 100 5000 1000 signature_bytes opening))
      (closes (by 5 1200) closure closing))

deploy-IsListed_example : IsListed closed
deploy-IsListed_example = deploy-IsListed deployment 3 5 deployed (
    next (next here (opens (by 9 950) 100 5000 1000 signature_bytes opening))
      (closes (by 5 1200) closure closing))

small_balance : (channel_at opened.channels 100).balance < 2 ^ 256
unfolding channel_at
small_balance = omega arith

final_close_iff_example :
    (final_close_by_sequencer deployment (by 5 1200) closure opened ≡ returned closed)
    ↔ (IsClosable deployment (by 5 1200) closure opened × (closed ≡ closed_by closure opened))
final_close_iff_example =
    final_close_iff deployment pays (by 5 1200) closure opened closed small_balance

abbrev published : Storage
published = record opened {
  channels =
      (
        100,
        record {
          owner = 9;
          balance = 100;
          expiry_time = 5000;
          sequence_number = 5;
          recipients = 1 ∷ 2 ∷ [];
        },
      )
      ∷ [];
  balances = assign 100 (assign 2 25 (assign 1 10 (λ r. 0))) (λ id r. 0);
}

publishing :
    publish_intermediate_channel_state deployment (by 8 1200) closure (5 ∷ []) opened
    ≡ returned published
unfolding publish_intermediate_channel_state update_channel_balances set_balances
    verify_signature_timestamp checked_sub channel_at put is_signature_valid
publishing = refl

publish-close_after_expiry_example :
    (close_after_expiry_by_anyone deployment (by 8 6000) 100 published ≡ returned closed) ↔ (
      ((channel_at opened.channels 100).expiry_time < 6000)
      × (35 ≤ (channel_at opened.channels 100).balance)
      × (closed ≡ closed_paying 100 (1 ∷ 2 ∷ []) (10 ∷ 25 ∷ []) published))
publish-close_after_expiry_example =
    publish-close_after_expiry deployment pays (by 8 1200) (by 8 6000) closure (5 ∷ []) opened
      published closed (refl, (refl, tt)) small_balance publishing

escrows : Escrows opened channel request
unfolding channel_at
escrows = record {
  identified = λ h. omega arith;
  owned = λ h. omega arith;
  same_owner = refl;
  same_balance = refl;
  same_expiry = refl;
  not_above = omega arith;
}

decoded_request : parse_signature_bytes backend "0xsig" ≡ success signature_bytes
unfolding parse_signature_bytes strip_0x
decoded_request = refl

recovers_alike :
    (sig : String) (bytes : Bytes) (signer : ℕ)
    → parse_signature_bytes backend sig ≡ success bytes
    → recovered sig ≡ success signer
    → signer_of bytes ≡ some signer
recovers_alike sig bytes signer decoded h =
    let same : sig ≡ "0xsig" = ground (arith, eq_iff sig "0xsig") in
    let signs : recovered sig ≡ success 9 = ap recovered same in
    let read : parse_signature_bytes backend sig ≡ success signature_bytes =
      subst (λ x. parse_signature_bytes backend x ≡ success signature_bytes) (sym same)
        decoded_request in
    let bytes_same : signature_bytes ≡ bytes = cc in
    let nine : 9 ≡ signer = cc in rw (sym bytes_same, sym nine) refl

canonical : IsCanonical signature_bytes
canonical = record {
  r = 9 ∷ replicate 31 0;
  s = 1 ∷ replicate 31 0;
  v = 27;
  parts = refl;
  r_length = refl;
  s_length = refl;
  low = omega arith;
  parity = inl refl;
}

deploys : Deploys backend deployment
deploys = record {
  same_chain = refl;
  same_contract = refl;
  recovers = λ u sig bytes signer decoded canonical h. recovers_alike sig bytes signer decoded h;
}

settle-final_close_example :
    (u : ChannelState) × (let update = channel_update backend 100 5 1000 u.recipients in
      let sent = closure_of update signature_bytes in
      (finalize_channel backend 1100 "0xC" (("0xC", settled) ∷ []) ≡ success sent)
      × (final_close_by_sequencer deployment (by 5 1200) sent opened
          ≡ returned (closed_by sent opened))
      × (sum update.amounts ≡ 35)
      × ((j : ℕ) → owed_to j u.recipients ≡ owed_to j channel.recipients + due_to j payment))
settle-final_close_example =
    settle-final_close backend deployment deploys pays moment 1100 (by 5 1200) opened request
      channels channel refl read_payment (omega arith) (omega arith) new_number signed
      decoded_request canonical (omega arith) in_time escrows refl (omega arith) answered
