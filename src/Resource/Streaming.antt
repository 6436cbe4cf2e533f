-- ===== src/Resource/Streaming.antt =====
-- A voucher of the agent, from `create_voucher` to the paid content.
use cronos_stream.Prelude.{
  ℕ, ◌+◌, ◌^◌, ◌≤◌, ◌<◌, String, ◌≡◌, ◌≢◌, refl, some, arith, nat_has_eq, string_has_eq, eq_iff,
}
use cronos_stream.Prelude.Int.{pos}
use cronos_stream.Python.{Dict, lookup, insert, lookup-insert, Value, text, str_int, ok}
use cronos_stream.World.{World}
use cronos_stream.Channel.{Session}
use cronos_stream.Channel.Voucher.{create_voucher}
use cronos_stream.Sequencer.{ChannelState, success, Update, Backend, Moment}
use cronos_stream.Sequencer.Payment.Amounts.{owed}
use cronos_stream.Sequencer.Agent.{OneSpelling, SignsAs, Agrees}
use cronos_stream.Sequencer.Agent.Accepted.{create_voucher-settle}
use cronos_stream.Resource.{Shop, arrived, settled_reply, content, trim, get_data, post_pay_voucher}
use cronos_stream.Resource.Replay.{readdressed-named, pay_by_id-accepted, get_data-entitled}

module _ (w : World) (b : Backend) (moment : Moment) (sign : Update → String)
    (signs : (update : Update) → b.sign update ≡ success (sign update))
    (saves : (u : ChannelState) → moment.save_channel u ≡ success tt) where
  -- A voucher that `create_voucher` returns, posted with a payment id to POST /api/pay-voucher, is
  -- answered with success, and that id then gets the paid content at GET /api/data; the agent and
  -- the sequencer agree on a state of the channel that owes its recipients the payment more.
  --
  -- This is so where they agreed before, each address has one spelling, the account signs as the
  -- owner, the signer and the database do not fail, the sequencer's answer arrives, decimal texts
  -- of words are read back, the amount is not 0 and fits what the balance leaves, the voucher is
  -- made in time, and the id is not empty and has no white space at its ends.
  pub create_voucher-get_data :
      (s : Session) (c : ChannelState) (shop : Shop) (fresh id r : String) (address a t now : ℕ)
      {v : Dict Value}
      → SignsAs b w c.owner
      → ((n : ℕ) → n < 2 ^ 256 → b.u256_from_str (str_int (pos n)) ≡ some n)
      → Agrees b s.manager c
      → lookup s.manager.channel_id shop.channels ≡ some c
      → b.address_from_str r ≡ some address
      → OneSpelling b r address s.manager.cumulative_amounts
      → id ≢ ""
      → trim id ≡ id
      → s.manager.channel_id ≢ ""
      → r ≢ ""
      → a ≢ 0
      → owed c.recipients + a ≤ c.balance
      → c.balance < 2 ^ 256
      → c.sequence_number + 1 < 2 ^ 53
      → t < 2 ^ 53
      → w.now s.trace ≡ pos t
      → moment.now + 900 < 2 ^ 64
      → t ≤ moment.now + 900
      → t ≤ c.expiry_ts
      → (create_voucher w r (pos a) s).0 ≡ ok v
      → let (reply, after) =
          post_pay_voucher b moment arrived now (insert "paymentId" (text id) v) shop in
        (reply ≡ settled_reply)
        × (get_data fresh (some id) after ≡ content)
        × (u : ChannelState) × (lookup s.manager.channel_id after.channels ≡ some u)
        × Agrees b (create_voucher w r (pos a) s).1.manager u
        × (owed u.recipients ≡ owed c.recipients + a)
  unfolding post_pay_voucher
  create_voucher-get_data s c shop fresh id r address a t now {v} signs_as decimal agrees found
        spelt one named trimmed known to_whom some_amount covered fits room safe_time clocked
        clock_fits soon before done =
      let (payload, read, u, accepted, agree, _, _, _, raised) =
        create_voucher-settle w b moment sign signs saves s c shop.channels id r address a t now
          signs_as decimal agrees found spelt one named known to_whom some_amount covered fits room
          safe_time clocked clock_fits soon before done in
      let m = s.manager in
      let channels = insert m.channel_id u shop.channels in
      rw
        (
          readdressed-named id v named,
          read,
          pay_by_id-accepted b moment now id payload shop accepted,
        )
        (
          refl,
          get_data-entitled fresh id now shop channels named trimmed,
          u,
          ground (
            arith,
            eq_iff m.channel_id m.channel_id,
            lookup-insert m.channel_id m.channel_id u shop.channels,
          ),
          agree,
          raised,
        )
