-- ===== src/Contract/Conservation.antt =====
-- What the contract holds: the money of every channel, and no more.
use cronos_stream.Prelude.{
  ℕ, ◌+◌, ◌<◌, ◌≡◌, refl, List, [], ◌∷◌, arith, ◌==◌, nat_has_eq, if◌then◌else◌,
}
use mathlib.Core.Path.{subst}
use cronos_stream.Contract.{
  returned, checked_sub, Channel, no_channel, channel_at, put, Transfer, transfer_from, transfer,
  Storage, BatchClosure, Deployment, set_balances, close_and_cleanup_channel, token_transfer,
  pay_each, distribute_channel_funds, return_rest, pay_and_close, update_channel_balances,
  enter_channel, assign, deploy,
}
use cronos_stream.Contract.Steps.{empty, Reach, Reach-preserves}
use cronos_stream.Contract.Effects.{>>=-eq-returned, distribute-pays}

-- The balances of all channels.
abbrev pub held : List (ℕ × Channel) → ℕ
held [] = 0
held (e ∷ es) = e.1.balance + held es

-- What the token was asked to bring in and to pay out.
abbrev pub taken : List Transfer → ℕ
taken [] = 0
taken (transfer_from owner amount ∷ past) = amount + taken past
taken (transfer to amount ∷ past) = taken past

abbrev pub given : List Transfer → ℕ
given [] = 0
given (transfer_from owner amount ∷ past) = given past
given (transfer to amount ∷ past) = amount + given past

-- All that came in went out or is held for a channel, and a channel that is not there holds nothing.
pub record IsConserved (s : Storage) : Type 0 where
  pub conserved : taken s.transfers ≡ given s.transfers + held s.channels
  pub vacant :
      (id : ℕ) → (channel_at s.channels id).expiry_time ≡ 0 → (channel_at s.channels id).balance ≡ 0

held-put :
    (id : ℕ) (c : Channel) (es : List (ℕ × Channel))
    → held (put id c es) + (channel_at es id).balance ≡ held es + c.balance
unfolding put channel_at
held-put id c [] = omega arith
held-put id c (e ∷ es) = ground (arith, held-put id c es)

pub channel_at-put :
    (id j : ℕ) (c : Channel) (es : List (ℕ × Channel))
    → channel_at (put id c es) j ≡ (if id == j then c else channel_at es j)
unfolding put channel_at
channel_at-put id j c [] = refl
channel_at-put id j c (e ∷ es) = ground (arith, channel_at-put id j c es)

-- A channel that is written is there, or holds nothing.
put-vacant :
    (id : ℕ) (c : Channel) (es : List (ℕ × Channel))
    → ((j : ℕ) → (channel_at es j).expiry_time ≡ 0 → (channel_at es j).balance ≡ 0)
    → (c.expiry_time ≡ 0 → c.balance ≡ 0)
    → (j : ℕ) → (channel_at (put id c es) j).expiry_time ≡ 0
    → (channel_at (put id c es) j).balance ≡ 0
put-vacant id c es vacant written j gone = ground (arith, channel_at-put id j c es, vacant j)

pub empty-IsConserved : IsConserved empty
unfolding channel_at
empty-IsConserved = record { conserved = refl; vacant = λ id h. refl }

module _ (d : Deployment) where
  -- The payments come out of the balance.
  pub pay_each-given :
      (rs amounts : List ℕ) (balance : ℕ) (past : List Transfer) {left : ℕ × List Transfer}
      → pay_each d rs amounts balance past ≡ returned left
      → (taken left.1 ≡ taken past) × (given left.1 + left.0 ≡ given past + balance)
  unfolding pay_each token_transfer checked_sub
  pay_each-given [] amounts balance past h = ground arith
  pay_each-given (r ∷ rs) [] balance past h = cc
  pay_each-given (r ∷ rs) (a ∷ amounts) balance past h =
      let (paid, p, h') = >>=-eq-returned (token_transfer d r a past) _ h in
      let (rest, q, h'') = >>=-eq-returned (checked_sub balance a) _ h' in
      ground (arith, pay_each-given rs amounts rest paid h'')

  return_rest-given :
      (owner balance : ℕ) (past : List Transfer) {paid : List Transfer}
      → return_rest d owner balance past ≡ returned paid
      → (taken paid ≡ taken past) × (given paid ≡ given past + balance)
  unfolding return_rest token_transfer
  return_rest-given owner balance past h = ground arith

  pay_and_close-IsConserved :
      (id : ℕ) (rs amounts : List ℕ) (s s' : Storage)
      → IsConserved s
      → pay_and_close d id rs amounts s ≡ returned s'
      → IsConserved s'
  unfolding pay_and_close close_and_cleanup_channel
  pay_and_close-IsConserved id rs amounts s s' inv h =
      let c = channel_at s.channels id in
      let (left, distributed, h') =
        >>=-eq-returned (distribute_channel_funds d rs amounts c.balance s.transfers) _ h in
      let (paid, rest, h'') = >>=-eq-returned (return_rest d c.owner left.0 left.1) _ h' in
      let paid_out =
        pay_each-given rs amounts c.balance s.transfers
          (distribute-pays d rs amounts c.balance s.transfers distributed) in
      let given_back = return_rest-given c.owner left.0 left.1 rest in
      let emptied = held-put id no_channel s.channels in
      let closed = close_and_cleanup_channel id (record s { transfers = paid }) in
      let is_closed : closed ≡ s' = ground arith in
      subst IsConserved is_closed (record {
        conserved = omega (arith, paid_out, given_back, emptied, inv.conserved);
        vacant = put-vacant id no_channel s.channels inv.vacant (λ gone. refl);
      })

  update_channel_balances-IsConserved :
      (b : BatchClosure) (s s' : Storage)
      → IsConserved s
      → update_channel_balances d b s ≡ returned s'
      → IsConserved s'
  unfolding update_channel_balances
  update_channel_balances-IsConserved b s s' inv h =
      let c = channel_at s.channels b.channel_id in
      let (amounts, p, h') =
        >>=-eq-returned (set_balances b.recipients b.amounts (s.balances b.channel_id)) _ h in
      let c' : Channel = record c {
        sequence_number = b.sequence_number;
        recipients = b.recipients;
      } in
      let written : Storage = record s {
        channels = put b.channel_id c' s.channels;
        balances = assign b.channel_id amounts s.balances;
      } in
      let is_written : written ≡ s' = ground arith in
      let same = held-put b.channel_id c' s.channels in
      subst IsConserved is_written (record {
        conserved = omega (arith, same, inv.conserved);
        vacant = put-vacant b.channel_id c' s.channels inv.vacant (inv.vacant b.channel_id);
      })

  enter_channel-IsConserved :
      (id owner amount expiry_time : ℕ) (s : Storage)
      → IsConserved s
      → (channel_at s.channels id).expiry_time ≡ 0
      → 0 < expiry_time
      → IsConserved (
          enter_channel d id owner amount expiry_time
            (record s { transfers = transfer_from owner amount ∷ s.transfers }))
  unfolding enter_channel
  enter_channel-IsConserved id owner amount expiry_time s inv gone later =
      let c' : Channel = record (channel_at s.channels id) {
        owner = owner;
        balance = amount;
        expiry_time = expiry_time;
      } in
      let entered = held-put id c' s.channels in
      let empty = inv.vacant id gone in
      record {
        conserved = omega (arith, entered, empty, inv.conserved);
        vacant = put-vacant id c' s.channels inv.vacant (λ k. absurd (omega (arith, k, later)));
      }

  -- From the deployment on, over any sequence of calls, of whatever senders and whatever the token
  -- answers, what the contract had the token bring in is what it had it pay out and the balances
  -- of the channels together, and a channel that is not there has no balance.
  pub deploy-IsConserved :
      (token sequencer : ℕ) {s t : Storage}
      → deploy token sequencer ≡ returned s
      → Reach d s t
      → IsConserved t
  unfolding deploy
  deploy-IsConserved token sequencer {s} h r =
      let is_empty : empty ≡ s = ground arith in
      Reach-preserves d IsConserved pay_and_close-IsConserved update_channel_balances-IsConserved
        enter_channel-IsConserved (subst IsConserved is_empty empty-IsConserved) r
