-- ===== src/Sequencer/Agent/Accepted.antt =====
-- A payment from the agent's `create_voucher` through the resource service to `settle`.
use cronos_stream.Prelude.{
  ℕ, ◌+◌, ◌^◌, ◌≤◌, ◌<◌, String, ◌≡◌, ◌≢◌, refl, ap, sym, ◌∙◌, some, ◌∷◌, arith, nat_has_eq,
  string_has_eq,
}
use mathlib.Core.Path.{subst}
use cronos_stream.Prelude.Int.{pos, ◌+ℤ◌}
use cronos_stream.Python.{
  Dict, lookup, get_or, insert, insert-NodupKeys, Value, text, int, str_int, ok, bind_outcome-eq-ok,
  ok_injective,
}
use cronos_stream.World.{World, clock}
use cronos_stream.Channel.{Manager, Session}
use cronos_stream.Channel.Voucher.{create_voucher}
use cronos_stream.Channel.Voucher.Laws.{paid, signed_document, create_voucher_run}
use cronos_stream.Sequencer.{
  ChannelState, PayInChannelRequest, success, Update, Backend, Moment, Channels,
}
use cronos_stream.Sequencer.Payment.{
  parse_b256, channel_update, add_amount, updated_state, compute_next_state,
}
use cronos_stream.Sequencer.Payment.Amounts.{owed, owed-add_amount}
use cronos_stream.Sequencer.Service.{from_state, cosign, store_next, accept_next, settle}
use cronos_stream.Sequencer.Service.Replies.{settle-located, settle_channel-next}
use cronos_stream.Sequencer.PayVoucher.{pay_voucher}
use cronos_stream.Sequencer.Agent.{OneSpelling, SignsAs, Agrees}
use cronos_stream.Sequencer.Agent.Books.{add_pos, SameBooks-add_amount}
use cronos_stream.Sequencer.Agent.Signing.{request_for, voucher_reaches, state_data-Encodes}
use cronos_stream.Sequencer.Agent.Request.{parse_b256_lem, timely, credited, request_accepted}

module _ (w : World) (b : Backend) (moment : Moment) (sign : Update → String)
    (signs : (update : Update) → b.sign update ≡ success (sign update))
    (saves : (u : ChannelState) → moment.save_channel u ≡ success tt) where
  -- The state that `settle` keeps of it.
  abbrev cosigned : ChannelState → ChannelState
  cosigned u = record u {
    sequencer_signature =
        sign (channel_update b u.channel_id u.sequence_number u.signature_timestamp u.recipients);
  }

  accept_next_lem :
      (c u : ChannelState) (payload : PayInChannelRequest) (channels : Channels)
      → compute_next_state b moment.now c payload ≡ success u
      → accept_next b moment c payload channels
        ≡ (success (from_state b (cosigned u)), insert payload.channel_id (cosigned u) channels)
  unfolding accept_next store_next cosign
  accept_next_lem c u payload channels computed =
      rw
        (
          computed,
          signs
              (channel_update b u.channel_id u.sequence_number u.signature_timestamp u.recipients),
          saves (cosigned u),
        )
        refl

  settle-next :
      (c u : ChannelState) (payload : PayInChannelRequest) (channels : Channels) {id : ℕ}
      → parse_b256 b payload.channel_id ≡ success id
      → lookup payload.channel_id channels ≡ some c
      → payload.sequence_number ≡ c.sequence_number + 1
      → c.sequence_number + 1 < 2 ^ 64
      → compute_next_state b moment.now c payload ≡ success u
      → settle b moment payload channels
        ≡ (success (from_state b (cosigned u)), insert payload.channel_id (cosigned u) channels)
  settle-next c u payload channels parsed found number room computed =
      settle-located b moment payload channels parsed found
      ∙ settle_channel-next b moment c payload channels (omega arith)
      ∙ accept_next_lem c u payload channels computed

  -- The books behind a request that `settle` has taken agree again.
  credited-Agrees :
      (m : Manager) (c : ChannelState) (r sig : String) (address a t : ℕ)
      → a ≢ 0
      → b.address_from_str r ≡ some address
      → OneSpelling b r address m.cumulative_amounts
      → owed c.recipients + a < 2 ^ 256
      → Agrees b m c
      → Agrees b
          (paid m r (pos a) (pos c.sequence_number))
          (cosigned (credited b m c r address a t sig))
  unfolding updated_state
  credited-Agrees m c r sig address a t some_amount spelt one fits agrees = record {
    channel = agrees.channel;
    chain = agrees.chain;
    contract = agrees.contract;
    number = ap int (add_pos c.sequence_number 1);
    distinct = insert-NodupKeys r _ m.cumulative_amounts agrees.distinct;
    books =
        SameBooks-add_amount b r address a m.cumulative_amounts c.recipients some_amount spelt one
          agrees.books fits;
  }

  -- A voucher that `create_voucher` returns is passed on by the resource service, accepted by
  -- `settle` with an answer of success, and leaves the agent and the sequencer agreeing: the
  -- channel has the same owner, balance and expiry, and owes its recipients the payment more.
  --
  -- This is so where they agreed before, each address has one spelling, the account signs as the
  -- owner, the signer and the database do not fail, decimal texts of words are read back, the
  -- amount is not 0 and fits what the balance leaves, and the voucher is made in time.
  pub create_voucher-settle :
      (s : Session) (c : ChannelState) (channels : Channels) (id r : String)
      (address a t date_now : ℕ) {v : Dict Value}
      → SignsAs b w c.owner
      → ((n : ℕ) → n < 2 ^ 256 → b.u256_from_str (str_int (pos n)) ≡ some n)
      → Agrees b s.manager c
      → lookup s.manager.channel_id channels ≡ some c
      → b.address_from_str r ≡ some address
      → OneSpelling b r address s.manager.cumulative_amounts
      → id ≢ ""
      → s.manager.channel_id ≢ ""
      → r ≢ ""
      → a ≢ 0
      → owed c.recipients + a ≤ c.balance
      → c.balance < 2 ^ 256
      → c.sequence_number + 1 < 2 ^ 53
      → t < 2 ^ 53
      → w.now s.trace ≡ pos t
      → moment.now + 900 < 2 ^ 64
      → t ≤ moment.now + 900
      → t ≤ c.expiry_ts
      → (create_voucher w r (pos a) s).0 ≡ ok v
      → (payload : PayInChannelRequest) × (pay_voucher date_now (insert "paymentId" (text id) v)
          ≡ some payload)
        × (u : ChannelState) × (settle b moment payload channels
            ≡ (success (from_state b u), insert s.manager.channel_id u channels))
        × Agrees b (create_voucher w r (pos a) s).1.manager u
        × (u.owner ≡ c.owner)
        × (u.balance ≡ c.balance)
        × (u.expiry_ts ≡ c.expiry_ts)
        × (owed u.recipients ≡ owed c.recipients + a)
  unfolding updated_state
  create_voucher-settle s c channels id r address a t date_now {v} signs_as decimal agrees found
        spelt one named known to_whom some_amount covered fits room safe_time clocked clock_fits
        soon before done =
      let n = c.sequence_number in
      let m = s.manager in
      let (sig, signed, returned) =
        bind_outcome-eq-ok (w.signature (clock ∷ s.trace) (signed_document w r (pos a) s (pos n))) _
          (rw (create_voucher_run w r (pos a) s (pos n) agrees.number) at done) in
      let issued = ok_injective _ v returned in
      let same_books =
        SameBooks-add_amount b r address a m.cumulative_amounts c.recipients some_amount spelt one
          agrees.books (omega arith) in
      let encodes =
        state_data-Encodes b m c r a t (w.now s.trace) (add_amount c.recipients address a) clocked
          agrees same_books in
      let (written, recovered) = signs_as _ _ _ sig encodes signed in
      let payload = request_for m r a (n + 1) t sig in
      let arrives =
        voucher_reaches (paid m r (pos a) (pos n)) id r sig a (n + 1) t date_now (w.now s.trace)
          (get_or r (pos 0) m.cumulative_amounts +ℤ pos a) named known to_whom written room
          safe_time (ap int (add_pos n 1)) clocked in
      let computed =
        request_accepted b moment.now m c r sig address a t spelt (decimal a (omega arith))
          some_amount covered fits (timely b moment.now t c.expiry_ts clock_fits soon before)
          recovered in
      (
        payload,
        subst (λ d. pay_voucher date_now (insert "paymentId" (text id) d) ≡ some payload) issued
            arrives,
        cosigned (credited b m c r address a t sig),
        settle-next c (credited b m c r address a t sig) payload channels
            (parse_b256_lem b m.channel_id agrees.channel) found refl (omega arith) computed,
        subst (λ run. Agrees b run.1.manager (cosigned (credited b m c r address a t sig)))
            (sym (create_voucher_run w r (pos a) s (pos n) agrees.number))
            (credited-Agrees m c r sig address a t some_amount spelt one (omega arith) agrees),
        refl,
        refl,
        refl,
        owed-add_amount address a c.recipients (omega arith),
      )
