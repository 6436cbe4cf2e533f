-- ===== src/Channel/Voucher.antt =====
-- `ChannelManager.create_voucher`.
pub mod Amounts
pub mod Laws
pub mod Series
use cronos_stream.Prelude.{String, [], ◌∷◌}
use cronos_stream.Prelude.Int.{ℤ, pos, ◌+ℤ◌}
use cronos_stream.Python.{
  Dict, keys, get_or, insert, Value, text, int, str_int, Action, pure, from_outcome, ◌>>=◌, ◌>>◌,
  modify, gets, add_one,
}
use cronos_stream.World.{World, TypedData, read_clock, sign_data}
use cronos_stream.Channel.{Manager, Session, call, channel_data, amounts_list}

abbrev set_manager : Manager → Action Session (Unit {0})
set_manager m = modify (λ s. record s { manager = m })

-- `self.sequence_number += 1`
unfoldable pub bump_sequence : Action Session (Unit {0})
bump_sequence = do
  m ← gets (λ s. s.manager)
  next ← from_outcome (add_one m.sequence_number)
  set_manager (record m { sequence_number = next })

-- The new total of the recipient, which the dict then holds.
unfoldable pub credit : String → ℤ → Action Session ℤ
credit recipient amount = do
  m ← gets (λ s. s.manager)
  let new_total = get_or recipient (pos 0) m.cumulative_amounts +ℤ amount
  set_manager (record m { cumulative_amounts = insert recipient new_total m.cumulative_amounts })
  pure new_total

-- The returned dict.
unfoldable pub voucher_of : Manager → String → ℤ → ℤ → String → ℤ → Dict Value
voucher_of m recipient amount timestamp signature total =
    ("channelId", text m.channel_id)
    ∷ ("amount", text (str_int amount))
    ∷ ("receiver", text recipient)
    ∷ ("sequenceNumber", m.sequence_number)
    ∷ ("timestamp", int timestamp)
    ∷ ("userSignature", text signature)
    ∷ ("totalAmount", text (str_int total))
    ∷ []

-- The document that a voucher signs: the manager's sequence number and all of its totals.
unfoldable pub state_data : Manager → ℤ → TypedData
unfolding channel_data
state_data m timestamp =
    let recipients = keys m.cumulative_amounts in
    channel_data m m.sequence_number timestamp recipients
      (amounts_list m.cumulative_amounts recipients)

unfoldable pub create_voucher : World → String → ℤ → Action Session (Dict Value)
unfolding bump_sequence credit
create_voucher w recipient amount = do
  bump_sequence
  timestamp ← call (read_clock w)
  new_total ← credit recipient amount
  m ← gets (λ s. s.manager)
  signature ← call (sign_data w (state_data m timestamp))
  pure (voucher_of m recipient amount timestamp signature new_total)
