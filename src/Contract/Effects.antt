-- ===== src/Contract/Effects.antt =====
-- What a successful call of the contract has checked, and what it then did.
use cronos_stream.Prelude.{
  ℕ, ◌<◌, ◌≡◌, refl, List, ◌∷◌, arith, nat_has_eq, string_has_eq, nat_eq_iff,
}
use cronos_stream.Contract.{
  Bytes, Reply, returned, reverted, ◌>>=◌, channel_at, Transfer, transfer_from, Storage,
  BatchClosure, Deployment, Message, pay_and_close, validate_and_close_channel,
  update_channel_balances, publish_intermediate_channel_state, token_transfer_from, enter_channel,
  open_channel, distribute_channel_funds, pay_each,
}

pub >>=-eq-returned :
    {A B : Type 0} (m : Reply A) (f : A → Reply B) {b : B}
    → (m >>= f) ≡ returned b
    → (a : A) × (m ≡ returned a) × (f a ≡ returned b)
>>=-eq-returned (returned a) f h = (a, refl, h)
>>=-eq-returned (reverted e) f h = cc

module _ (d : Deployment) where
  pub distribute-pays :
      (rs amounts : List ℕ) (balance : ℕ) (past : List Transfer) {left : ℕ × List Transfer}
      → distribute_channel_funds d rs amounts balance past ≡ returned left
      → pay_each d rs amounts balance past ≡ returned left
  unfolding distribute_channel_funds
  distribute-pays rs amounts balance past h = ground arith

  pub validate-closes :
      (msg : Message) (b : BatchClosure) (s : Storage) {s' : Storage}
      → validate_and_close_channel d msg b s ≡ returned s'
      → pay_and_close d b.channel_id b.recipients b.amounts s ≡ returned s'
  unfolding validate_and_close_channel
  validate-closes msg b s h = ground arith

  pub publish-updates :
      (msg : Message) (b : BatchClosure) (signature : Bytes) (s : Storage) {s' : Storage}
      → publish_intermediate_channel_state d msg b signature s ≡ returned s'
      → update_channel_balances d b s ≡ returned s'
  unfolding publish_intermediate_channel_state
  publish-updates msg b signature s h = ground arith

  -- A channel is entered where none is, once the token has brought the money in.
  pub open-enters :
      (msg : Message) (amount expiry_time timestamp : ℕ) (signature : Bytes) (s : Storage)
      {s' : Storage}
      → open_channel d msg amount expiry_time timestamp signature s ≡ returned s'
      → let id = d.channel_id_of msg.sender expiry_time amount in
        ((channel_at s.channels id).expiry_time ≡ 0)
        × (msg.timestamp < expiry_time)
        × (s'
            ≡ enter_channel d id msg.sender amount expiry_time
                (record s { transfers = transfer_from msg.sender amount ∷ s.transfers }))
  unfolding open_channel token_transfer_from
  open-enters msg amount expiry_time timestamp signature s h = ground (
    arith,
    nat_eq_iff (channel_at s.channels (d.channel_id_of msg.sender expiry_time amount)).expiry_time
        0,
  )
