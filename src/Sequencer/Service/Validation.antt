-- ===== src/Sequencer/Service/Validation.antt =====
-- The answers of `validate_pay_in_channel`, beside those of `settle`.
use cronos_stream.Prelude.{
  ℕ, String, ◌≡◌, refl, arith, nat_has_eq, string_has_eq, Option-cases, inl, inr,
}
use cronos_stream.Python.{lookup}
use cronos_stream.Sequencer.{
  ChannelState, PayInChannelRequest, ChannelView, Result, success, failure, try_result, Update,
  Backend, Moment, Channels,
}
use cronos_stream.Sequencer.Payment.{channel_update, parse_b256, compute_next_state}
use cronos_stream.Sequencer.Service.{
  from_state, find_channel, validate_pay_in_channel, cosign, store_next, accept_next,
  settle_channel, settle_found, settle,
}

-- An answer without the sequencer's signature.
abbrev pub unsigned : Result ChannelView → Result ChannelView
unsigned (failure e) = failure e
unsigned (success view) = success (record view { sequencer_signature = "" })

module _ (b : Backend) (moment : Moment) (sign : Update → String)
    (signs : (update : Update) → b.sign update ≡ success (sign update))
    (saves : (u : ChannelState) → moment.save_channel u ≡ success tt) where
  unsigned-store_next :
      (id : String) (channels : Channels) (r : Result ChannelState)
      → unsigned (store_next b moment id channels (try_result r (cosign b))).0
        ≡ unsigned (try_result r λ updated. success (from_state b updated))
  unfolding store_next cosign from_state
  unsigned-store_next id channels (failure e) = refl
  unsigned-store_next id channels (success u) =
      let signature =
        sign (channel_update b u.channel_id u.sequence_number u.signature_timestamp u.recipients) in
      rw
        (
          signs
              (channel_update b u.channel_id u.sequence_number u.signature_timestamp u.recipients),
          saves (record u { sequencer_signature = signature }),
        )
        refl

  -- While the signer and the database do not fail, and the channel's identifier can be read,
  -- `validate_pay_in_channel` answers as `settle` would at the same moment, errors included: the
  -- answers differ at most in the sequencer's signature.
  pub validate_pay_in_channel-settle :
      (payload : PayInChannelRequest) (channels : Channels) {id : ℕ}
      → parse_b256 b payload.channel_id ≡ success id
      → unsigned (validate_pay_in_channel b moment.now payload channels)
        ≡ unsigned (settle b moment payload channels).0
  unfolding validate_pay_in_channel settle settle_found find_channel settle_channel accept_next
  validate_pay_in_channel-settle payload channels parsed =
      elim (Option-cases (lookup payload.channel_id channels)) [
        | inl missing ↦ ground arith
        | inr (c, found) ↦ ground (
          arith,
          unsigned-store_next payload.channel_id channels
              (compute_next_state b moment.now c payload),
        )
      ]
