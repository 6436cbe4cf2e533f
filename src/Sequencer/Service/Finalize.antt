-- ===== src/Sequencer/Service/Finalize.antt =====
-- `finalize_channel` behind a settled voucher.
use cronos_stream.Prelude.{
  ℕ, ◌≤◌, String, ◌≡◌, ◌≢◌, some, arith, nat_has_eq, string_has_eq, nat_eq_iff, eq_iff,
}
use mathlib.Core.Path.{subst}
use cronos_stream.Python.{lookup, lookup-insert}
use cronos_stream.Sequencer.{
  ChannelState, PayInChannelRequest, ChannelView, success, try_result, Backend, Moment, Channels,
}
use cronos_stream.Sequencer.Payment.{
  Payment, channel_update, validate_timestamp, parse_b256, compute_next_state, updated_state,
  total_from,
}
use cronos_stream.Sequencer.Payment.Laws.{
  try_result-eq-success, Accepts, compute_next_state-Accepts,
}
use cronos_stream.Sequencer.Service.{
  find_channel, cosign, accept_next, settle_channel, settle, finalize_update,
}
use cronos_stream.Sequencer.Service.Replies.{store_next-eq-success, settle_found-eq-success}

module _ (b : Backend) where
  -- What the sequencer keeps of a voucher: all that was signed, and the signature.
  abbrev pub Holds : ChannelState → PayInChannelRequest → ChannelState → Type 0
  Holds c payload u =
      (u.channel_id ≡ c.channel_id)
      × (u.owner ≡ c.owner)
      × (u.expiry_ts ≡ c.expiry_ts)
      × (u.sequence_number ≡ payload.sequence_number)
      × (u.user_signature ≡ payload.user_signature)
      × (u.signature_timestamp ≡ payload.timestamp)
      × (total_from 0 u.recipients ≤ c.balance)
      × (b.recover
            (channel_update b c.channel_id payload.sequence_number payload.timestamp u.recipients)
            payload.user_signature
          ≡ success c.owner)

  Accepts-Holds :
      (now : ℕ) (c : ChannelState) (payload : PayInChannelRequest) {payment : Payment}
      {updated u : ChannelState}
      → Accepts b now c payload payment updated
      → cosign b updated ≡ success u
      → Holds c payload u
  unfolding cosign updated_state
  Accepts-Holds now c payload {payment} {updated} {u} (_, _, _, funded, signed, run) h =
      ground arith

  pub accepted-Holds :
      (now : ℕ) (c : ChannelState) (payload : PayInChannelRequest) {u : ChannelState}
      → try_result (compute_next_state b now c payload) (cosign b) ≡ success u
      → Holds c payload u
  accepted-Holds now c payload {u} e =
      let (updated, computed, signed) =
        try_result-eq-success (compute_next_state b now c payload) _ e in
      let (payment, accepted) = compute_next_state-Accepts b now c payload computed in
      Accepts-Holds now c payload accepted signed

  pub finalize_update-Holds :
      (now : ℕ) (id : String) (channels : Channels) (c : ChannelState)
      (payload : PayInChannelRequest) {u : ChannelState}
      → lookup id channels ≡ some u
      → Holds c payload u
      → payload.user_signature ≢ ""
      → payload.timestamp ≢ 0
      → validate_timestamp b now payload.timestamp c.expiry_ts ≡ success tt
      → finalize_update b now id channels
        ≡ success
            (channel_update b c.channel_id payload.sequence_number payload.timestamp u.recipients)
  unfolding finalize_update find_channel
  finalize_update-Holds now id channels c payload {u} found (a1, a2, a3, a4, a5, a6, a7, a8) written
        timed valid =
      ground (
        arith,
        eq_iff payload.user_signature "",
        eq_iff u.user_signature "",
        nat_eq_iff payload.timestamp 0,
        nat_eq_iff c.owner c.owner,
      )

  accept_next-stored :
      (moment : Moment) (c : ChannelState) (payload : PayInChannelRequest) (channels : Channels)
      {view : ChannelView} {after : Channels}
      → accept_next b moment c payload channels ≡ (success view, after)
      → (u : ChannelState) × (lookup payload.channel_id after ≡ some u)
        × (try_result (compute_next_state b moment.now c payload) (cosign b) ≡ success u)
  unfolding accept_next
  accept_next-stored moment c payload channels h =
      let (u, computed, _, stored) =
        store_next-eq-success b moment payload.channel_id channels
          (try_result (compute_next_state b moment.now c payload) (cosign b)) h in
      (
        u,
        ground (
          arith,
          eq_iff payload.channel_id payload.channel_id,
          lookup-insert payload.channel_id payload.channel_id u channels,
        ),
        computed,
      )

  settle_channel-new :
      (moment : Moment) (c : ChannelState) (payload : PayInChannelRequest) (channels : Channels)
      {view : ChannelView} {after : Channels}
      → payload.sequence_number ≢ c.sequence_number
      → settle_channel b moment c payload channels ≡ (success view, after)
      → accept_next b moment c payload channels ≡ (success view, after)
  unfolding settle_channel
  settle_channel-new moment c payload channels new h =
      ground (arith, nat_eq_iff payload.sequence_number c.sequence_number)

  -- The state that a new voucher leaves, where `settle` answers with success.
  pub settle-stored :
      (moment : Moment) (payload : PayInChannelRequest) (channels : Channels) {view : ChannelView}
      {after : Channels} (c : ChannelState)
      → lookup payload.channel_id channels ≡ some c
      → payload.sequence_number ≢ c.sequence_number
      → settle b moment payload channels ≡ (success view, after)
      → (u : ChannelState) × (lookup payload.channel_id after ≡ some u)
        × (try_result (compute_next_state b moment.now c payload) (cosign b) ≡ success u)
  unfolding settle find_channel
  settle-stored moment payload channels {view} {after} c found new h =
      let (c', located, settled) =
        settle_found-eq-success b moment payload channels
          (try_result (parse_b256 b payload.channel_id)
            λ _. find_channel b payload.channel_id channels)
          h in
      let (id, parsed, same) = try_result-eq-success (parse_b256 b payload.channel_id) _ located in
      let is_c : c' ≡ c = ground arith in
      let taken : settle_channel b moment c payload channels ≡ (success view, after) =
        subst (λ x. settle_channel b moment x payload channels ≡ (success view, after)) is_c
          settled in
      accept_next-stored moment c payload channels
        (settle_channel-new moment c payload channels new taken)

  -- Behind a new voucher that `settle` has answered with success, at a time that the voucher's
  -- timestamp and the channel's expiry allow, the channel passes the tests of `finalize_channel` with
  -- the update that the voucher signs: its number and time, and recipients for whom the owner is
  -- recovered and whose sum, as the code computes it, the channel's balance covers. The voucher has
  -- a signature that is not empty and a timestamp that is not 0.
  pub settle-finalize_update :
      (moment : Moment) (later : ℕ) (payload : PayInChannelRequest) (channels : Channels)
      {view : ChannelView} {after : Channels} (c : ChannelState)
      → lookup payload.channel_id channels ≡ some c
      → payload.sequence_number ≢ c.sequence_number
      → payload.user_signature ≢ ""
      → payload.timestamp ≢ 0
      → validate_timestamp b later payload.timestamp c.expiry_ts ≡ success tt
      → settle b moment payload channels ≡ (success view, after)
      → (u : ChannelState) × (let update =
            channel_update b c.channel_id payload.sequence_number payload.timestamp u.recipients in
          (finalize_update b later payload.channel_id after ≡ success update)
          × (b.recover update payload.user_signature ≡ success c.owner)
          × (total_from 0 u.recipients ≤ c.balance))
  settle-finalize_update moment later payload channels {view} {after} c found new written timed
        valid h =
      let (u, kept, computed) = settle-stored moment payload channels c found new h in
      let holds = accepted-Holds moment.now c payload computed in
      let (_, _, _, _, _, _, covered, recovered) = holds in
      (
        u,
        (
          finalize_update-Holds later payload.channel_id after c payload kept holds written timed
              valid,
          recovered,
          covered,
        ),
      )
