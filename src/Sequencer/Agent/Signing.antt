-- ===== src/Sequencer/Agent/Signing.antt =====
-- What the agent signs and sends for a payment, read as the sequencer reads it.
use cronos_stream.Prelude.{
  ℕ, ◌+◌, ◌^◌, ◌<◌, String, ◌≡◌, ◌≢◌, refl, ap, ◌∙◌, none, some, List, arith, string_has_eq, eq_iff,
}
use mathlib.Core.Path.{subst}
use cronos_stream.Prelude.Int.{ℤ, pos}
use cronos_stream.Python.{insert, insert-NodupKeys, text, int, str_int, ok, to_int}
use cronos_stream.Python.Number.RoundTrip.{to_int-str_int}
use cronos_stream.Channel.{Manager, channel_data}
use cronos_stream.Channel.Voucher.{state_data, voucher_of}
use cronos_stream.Channel.Voucher.Amounts.{pay, amounts_list-keys}
use cronos_stream.Channel.Voucher.Laws.{paid}
use cronos_stream.Sequencer.{RecipientBalance, ChannelState, PayInChannelRequest, Backend}
use cronos_stream.Sequencer.Payment.{channel_update}
use cronos_stream.Sequencer.PayVoucher.{pay_voucher}
use cronos_stream.Sequencer.Agent.{SameBooks, Encodes, Agrees}
use cronos_stream.Sequencer.Agent.Books.{add_pos, SameBooks-addresses, SameBooks-amounts}

-- What reaches the sequencer of a voucher.
abbrev pub request_for : Manager → String → ℕ → ℕ → ℕ → String → PayInChannelRequest
request_for m receiver amount number time signature = record {
  channel_id = m.channel_id;
  amount = str_int (pos amount);
  receiver = receiver;
  sequence_number = number;
  timestamp = time;
  user_signature = signature;
  purpose = none;
  fee_for_payment = none;
}

str_int-ne-empty : (n : ℤ) → str_int n ≢ ""
unfolding to_int
str_int-ne-empty n h =
    let reads : to_int (text "") ≡ ok n =
      subst (λ s. to_int (text s) ≡ ok n) h (to_int-str_int n) in
    cc reads

pub voucher_reaches :
    (m : Manager) (id r sig : String) (a n t now : ℕ) (time total : ℤ)
    → id ≢ ""
    → m.channel_id ≢ ""
    → r ≢ ""
    → sig ≢ ""
    → n < 2 ^ 53
    → t < 2 ^ 53
    → m.sequence_number ≡ int (pos n)
    → time ≡ pos t
    → pay_voucher now (insert "paymentId" (text id) (voucher_of m r (pos a) time sig total))
      ≡ some (request_for m r a n t sig)
unfolding pay_voucher voucher_of
voucher_reaches m id r sig a n t now time total named known to_whom signed room safe_time counted
      clocked =
    ground (
      arith,
      eq_iff id "",
      eq_iff m.channel_id "",
      eq_iff r "",
      eq_iff sig "",
      eq_iff (str_int (pos a)) "",
      str_int-ne-empty (pos a),
    )

module _ (b : Backend) where
  -- The document that `create_voucher` signs says what the sequencer's update says.
  pub state_data-Encodes :
      (m : Manager) (c : ChannelState) (r : String) (a t : ℕ) (time : ℤ)
      (rs : List RecipientBalance)
      → time ≡ pos t
      → Agrees b m c
      → SameBooks b (pay r (pos a) m.cumulative_amounts) rs
      → Encodes b
          (state_data (paid m r (pos a) (pos c.sequence_number)) time)
          (channel_update b c.channel_id (c.sequence_number + 1) t rs)
  unfolding state_data channel_data channel_update
  state_data-Encodes m c r a t time rs clocked agrees same =
      let totals = pay r (pos a) m.cumulative_amounts in
      let distinct = insert-NodupKeys r _ m.cumulative_amounts agrees.distinct in
      record {
        types = refl;
        primary_type = refl;
        domain_name = refl;
        domain_version = refl;
        chain = agrees.chain;
        contract = agrees.contract;
        channel = agrees.channel;
        number = ap int (add_pos c.sequence_number 1);
        time = clocked;
        recipients = SameBooks-addresses b totals rs same;
        amounts = amounts_list-keys totals distinct ∙ SameBooks-amounts b totals rs same;
      }
