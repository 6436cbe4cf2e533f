-- ===== src/Contract/Closing.antt =====
-- `finalCloseBySequencer`: when it succeeds, and whom it pays.
use cronos_stream.Prelude.{
  ℕ, ◌+◌, ◌-◌, ◌^◌, ◌≤◌, ◌<◌, ◌≡◌, ◌≢◌, ◌↔◌, sym, ap, ◌∙◌, some, List, [], ◌∷◌, arith, Bool, leb,
  ltb, nat_has_eq, nat_eq_iff, length, if◌then◌else◌,
}
use cronos_stream.Contract.{
  returned, require, checked_add, checked_sub, channel_at, Transfer, transfer, Storage,
  BatchClosure, Deployment, Message, verify_signature_timestamp, closing_update, is_signature_valid,
  close_and_cleanup_channel, token_transfer, check_amounts, pay_each, distribute_channel_funds,
  return_rest, pay_and_close, validate_and_close_channel, final_close_by_sequencer,
}
use cronos_stream.Contract.Effects.{>>=-eq-returned}

abbrev pub sum : List ℕ → ℕ
sum [] = 0
sum (a ∷ amounts) = a + sum amounts

-- A transfer to each recipient in turn, the last one newest.
abbrev pub paid_to : List ℕ → List ℕ → List Transfer → List Transfer
paid_to [] amounts past = past
paid_to (r ∷ rs) [] past = past
paid_to (r ∷ rs) (a ∷ amounts) past = paid_to rs amounts (transfer r a ∷ past)

-- The rest, where there is one.
abbrev pub rest_to : ℕ → ℕ → List Transfer → List Transfer
rest_to owner rest past = if ltb 0 rest then transfer owner rest ∷ past else past

-- The channel is gone, each recipient has its amount, and the owner what is left.
abbrev pub closed_paying : ℕ → List ℕ → List ℕ → Storage → Storage
closed_paying id rs amounts s =
    let c = channel_at s.channels id in
    close_and_cleanup_channel id (record s {
      transfers = rest_to c.owner (c.balance - sum amounts) (paid_to rs amounts s.transfers);
    })

abbrev pub closed_by : BatchClosure → Storage → Storage
closed_by b = closed_paying b.channel_id b.recipients b.amounts

-- What the contract asks of a closure.
pub record IsClosable (d : Deployment) (msg : Message) (b : BatchClosure) (s : Storage)
    : Type 0 where
  pub by_sequencer : msg.sender ≡ d.sequencer
  pub identified : b.channel_id ≢ 0
  pub present : (channel_at s.channels b.channel_id).expiry_time ≢ 0
  pub matching : length b.recipients ≡ length b.amounts
  pub settled : 900 ≤ b.timestamp
  pub begun : b.timestamp ≤ msg.timestamp + 900
  pub unexpired : b.timestamp ≤ (channel_at s.channels b.channel_id).expiry_time
  pub owned : (channel_at s.channels b.channel_id).owner ≢ 0
  pub signed :
      d.recover
        (closing_update d b.channel_id b.sequence_number b.timestamp b.recipients b.amounts)
        b.user_signature
      ≡ some (channel_at s.channels b.channel_id).owner
  pub current : (channel_at s.channels b.channel_id).sequence_number ≤ b.sequence_number
  pub covered : sum b.amounts ≤ (channel_at s.channels b.channel_id).balance

check_amounts-eq-returned :
    (rs amounts : List ℕ) (balance total : ℕ) {t : ℕ}
    → length rs ≡ length amounts
    → check_amounts rs amounts balance total ≡ returned t
    → t ≡ total + sum amounts
unfolding check_amounts checked_add
check_amounts-eq-returned [] [] balance total m h = ground arith
check_amounts-eq-returned [] (a ∷ amounts) balance total m h = absurd (omega (arith, m))
check_amounts-eq-returned (r ∷ rs) [] balance total m h = cc
check_amounts-eq-returned (r ∷ rs) (a ∷ amounts) balance total m h =
    let (_, _, h') =
      >>=-eq-returned (require (leb a balance) "Amount exceeds available balance") _ h in
    let (next, e, h'') = >>=-eq-returned (checked_add total a) _ h' in
    ground (arith, check_amounts-eq-returned rs amounts balance next (omega (arith, m)) h'')

check_amounts-covered :
    (rs amounts : List ℕ) (balance total : ℕ)
    → length rs ≡ length amounts
    → balance < 2 ^ 256
    → total + sum amounts ≤ balance
    → check_amounts rs amounts balance total ≡ returned (total + sum amounts)
unfolding check_amounts checked_add
check_amounts-covered [] [] balance total m w h = ground arith
check_amounts-covered [] (a ∷ amounts) balance total m w h = absurd (omega (arith, m))
check_amounts-covered (r ∷ rs) [] balance total m w h = absurd (omega (arith, m))
check_amounts-covered (r ∷ rs) (a ∷ amounts) balance total m w h =
    ground (
      arith,
      check_amounts-covered rs amounts balance (total + a) (omega (arith, m)) w (omega arith),
    )

-- The token reverts no payment of the contract.
abbrev pub PaysAlways : Deployment → Type 0
PaysAlways d =
    (past : List Transfer) (to amount : ℕ)
    → (answer : Bool) × (d.transfer_reply past to amount ≡ some answer)

module _ (d : Deployment) (pays : PaysAlways d) where
  token_transfer_lem :
      (to amount : ℕ) (past : List Transfer)
      → token_transfer d to amount past ≡ returned (transfer to amount ∷ past)
  unfolding token_transfer
  token_transfer_lem to amount past = ground (arith, (pays past to amount).1)

  pay_each-covered :
      (rs amounts : List ℕ) (balance : ℕ) (past : List Transfer)
      → length rs ≡ length amounts
      → sum amounts ≤ balance
      → pay_each d rs amounts balance past
        ≡ returned (balance - sum amounts, paid_to rs amounts past)
  unfolding pay_each checked_sub
  pay_each-covered [] [] balance past m h = ground arith
  pay_each-covered [] (a ∷ amounts) balance past m h = absurd (omega (arith, m))
  pay_each-covered (r ∷ rs) [] balance past m h = absurd (omega (arith, m))
  pay_each-covered (r ∷ rs) (a ∷ amounts) balance past m h = ground (
    arith,
    token_transfer_lem r a past,
    pay_each-covered rs amounts (balance - a) (transfer r a ∷ past) (omega (arith, m))
        (omega arith),
  )

  return_rest_lem :
      (owner rest : ℕ) (past : List Transfer)
      → return_rest d owner rest past ≡ returned (rest_to owner rest past)
  unfolding return_rest
  return_rest_lem owner rest past = ground (arith, token_transfer_lem owner rest past)

  distribute-covered :
      (rs amounts : List ℕ) (balance : ℕ) (past : List Transfer)
      → length rs ≡ length amounts
      → balance < 2 ^ 256
      → sum amounts ≤ balance
      → distribute_channel_funds d rs amounts balance past
        ≡ returned (balance - sum amounts, paid_to rs amounts past)
  unfolding distribute_channel_funds
  distribute-covered rs amounts balance past m w h = ground (
    arith,
    check_amounts-covered rs amounts balance 0 m w (omega arith),
    pay_each-covered rs amounts balance past m h,
  )

  pub pay_and_close-covered :
      (id : ℕ) (rs amounts : List ℕ) (s : Storage)
      → length rs ≡ length amounts
      → (channel_at s.channels id).balance < 2 ^ 256
      → sum amounts ≤ (channel_at s.channels id).balance
      → pay_and_close d id rs amounts s ≡ returned (closed_paying id rs amounts s)
  unfolding pay_and_close
  pay_and_close-covered id rs amounts s m w h =
      let c = channel_at s.channels id in
      rw (distribute-covered rs amounts c.balance s.transfers m w h)
        (rw (return_rest_lem c.owner (c.balance - sum amounts) (paid_to rs amounts s.transfers)))

  -- A closure with these properties closes.
  pub final_close-closes :
      (msg : Message) (b : BatchClosure) (s : Storage)
      → (channel_at s.channels b.channel_id).balance < 2 ^ 256
      → IsClosable d msg b s
      → final_close_by_sequencer d msg b s ≡ returned (closed_by b s)
  unfolding final_close_by_sequencer validate_and_close_channel verify_signature_timestamp
      is_signature_valid checked_sub
  final_close-closes msg b s w k = ground (
    arith,
    k.signed,
    pay_and_close-covered b.channel_id b.recipients b.amounts s k.matching w k.covered,
    nat_eq_iff (channel_at s.channels b.channel_id).owner
        (channel_at s.channels b.channel_id).owner,
  )

  pub covered_by :
      (id : ℕ) (rs amounts : List ℕ) (s : Storage) {s' : Storage}
      → length rs ≡ length amounts
      → pay_and_close d id rs amounts s ≡ returned s'
      → sum amounts ≤ (channel_at s.channels id).balance
  unfolding pay_and_close distribute_channel_funds
  covered_by id rs amounts s m h =
      let c = channel_at s.channels id in
      let (left, h', _) =
        >>=-eq-returned (distribute_channel_funds d rs amounts c.balance s.transfers) _ h in
      let (total, checked, h'') = >>=-eq-returned (check_amounts rs amounts c.balance 0) _ h' in
      let summed = check_amounts-eq-returned rs amounts c.balance 0 m checked in ground arith

  -- All that is asked before the payments.
  final_close-checks :
      (msg : Message) (b : BatchClosure) (s : Storage) {s' : Storage}
      → final_close_by_sequencer d msg b s ≡ returned s'
      → let c = channel_at s.channels b.channel_id in
        (msg.sender ≡ d.sequencer)
        × (b.channel_id ≢ 0)
        × (c.expiry_time ≢ 0)
        × (length b.recipients ≡ length b.amounts)
        × (900 ≤ b.timestamp)
        × (b.timestamp ≤ msg.timestamp + 900)
        × (b.timestamp ≤ c.expiry_time)
        × (c.owner ≢ 0)
        × (d.recover
              (closing_update d b.channel_id b.sequence_number b.timestamp b.recipients b.amounts)
              b.user_signature
            ≡ some c.owner)
        × (c.sequence_number ≤ b.sequence_number)
        × (pay_and_close d b.channel_id b.recipients b.amounts s ≡ returned s')
  unfolding final_close_by_sequencer validate_and_close_channel verify_signature_timestamp
      is_signature_valid checked_sub
  final_close-checks msg b s h = ground arith

  final_close-IsClosable :
      (msg : Message) (b : BatchClosure) (s : Storage) {s' : Storage}
      → final_close_by_sequencer d msg b s ≡ returned s'
      → IsClosable d msg b s
  final_close-IsClosable msg b s h =
      let (k0, k1, k2, k3, k4, k5, k6, k7, k8, k9, paid) = final_close-checks msg b s h in
      record {
        by_sequencer = k0;
        identified = k1;
        present = k2;
        matching = k3;
        settled = k4;
        begun = k5;
        unexpired = k6;
        owned = k7;
        signed = k8;
        current = k9;
        covered = covered_by b.channel_id b.recipients b.amounts s k3 paid;
      }

  -- While the token reverts no payment, `finalCloseBySequencer` succeeds exactly for a closure sent
  -- by the sequencer, that the channel's owner has signed, in time, with the channel's sequence
  -- number or a higher one and amounts that together the balance covers. It then makes a transfer
  -- to each recipient in turn and one of the rest to the owner, and clears the channel.
  pub final_close_iff :
      (msg : Message) (b : BatchClosure) (s s' : Storage)
      → (channel_at s.channels b.channel_id).balance < 2 ^ 256
      → (final_close_by_sequencer d msg b s ≡ returned s')
        ↔ (IsClosable d msg b s × (s' ≡ closed_by b s))
  final_close_iff msg b s s' w = (
    λ h. let k = final_close-IsClosable msg b s h in (k, cc (final_close-closes msg b s w k)),
    λ h. final_close-closes msg b s w h.0 ∙ ap returned (sym h.1),
  )
