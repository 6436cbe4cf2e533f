-- ===== src/Sequencer/Service/Replies.antt =====
-- The answers of `settle`, one request after another.
use cronos_stream.Prelude.{
  ℕ, String, ◌≡◌, ◌∙◌, refl, some, arith, ◌==◌, nat_has_eq, string_has_eq, eq_iff, Bool-cases, inl,
  inr,
}
use cronos_stream.Python.{lookup, insert, lookup-insert}
use cronos_stream.Sequencer.{
  add_u64, ChannelState, PayInChannelRequest, ChannelView, SequencerError, Result, success, failure,
  try_result, Backend, Moment, Channels,
}
use cronos_stream.Sequencer.Payment.{parse_b256, compute_next_state, updated_state}
use cronos_stream.Sequencer.Payment.Laws.{try_result-eq-success, compute_next_state-Accepts}
use cronos_stream.Sequencer.Service.{
  from_state, find_channel, cosign, store_next, accept_next, settle_channel, settle_found, settle,
}

-- Where a request is the last one that the channel took.
abbrev pub IsLast : PayInChannelRequest → ChannelState → Type 0
IsLast payload c =
    (payload.sequence_number ≡ c.sequence_number)
    × (payload.user_signature ≡ c.user_signature)
    × (payload.timestamp ≡ c.signature_timestamp)

module _ (b : Backend) where
  updated-IsLast :
      (now : ℕ) (c : ChannelState) (payload : PayInChannelRequest) {u : ChannelState}
      → try_result (compute_next_state b now c payload) (cosign b) ≡ success u
      → IsLast payload u
  unfolding cosign updated_state
  updated-IsLast now c payload {u} e =
      let (updated, computed, signed) =
        try_result-eq-success (compute_next_state b now c payload) _ e in
      let (_, (_, _, _, _, _, run)) = compute_next_state-Accepts b now c payload computed in
      ground arith

  pub settle-located :
      (moment : Moment) (payload : PayInChannelRequest) (channels : Channels) {id : ℕ}
      {c : ChannelState}
      → parse_b256 b payload.channel_id ≡ success id
      → lookup payload.channel_id channels ≡ some c
      → settle b moment payload channels ≡ settle_channel b moment c payload channels
  unfolding settle settle_found find_channel
  settle-located moment payload channels p e = ground arith

  pub settle_channel-next :
      (moment : Moment) (c : ChannelState) (payload : PayInChannelRequest) (channels : Channels)
      → payload.sequence_number ≡ add_u64 c.sequence_number 1
      → settle_channel b moment c payload channels ≡ accept_next b moment c payload channels
  unfolding settle_channel
  settle_channel-next moment c payload channels number = ground arith

  -- A request that is the last one that its channel took gets the channel's view, and changes nothing.
  settle-IsLast :
      (moment : Moment) (payload : PayInChannelRequest) (channels : Channels) {id : ℕ}
      {c : ChannelState}
      → parse_b256 b payload.channel_id ≡ success id
      → lookup payload.channel_id channels ≡ some c
      → IsLast payload c
      → settle b moment payload channels ≡ (success (from_state b c), channels)
  unfolding settle settle_found settle_channel find_channel
  settle-IsLast moment payload channels {c = c} p e (number, signature, time) =
      ground (arith, eq_iff payload.user_signature c.user_signature)

  pub store_next-eq-success :
      (moment : Moment) (id : String) (channels : Channels) (r : Result ChannelState)
      {view : ChannelView} {after : Channels}
      → store_next b moment id channels r ≡ (success view, after)
      → (u : ChannelState) × (r ≡ success u)
        × (view ≡ from_state b u)
        × (after ≡ insert id u channels)
  unfolding store_next
  store_next-eq-success moment id channels (failure e) h = cc
  store_next-eq-success moment id channels (success u) h = (u, refl, ground arith, ground arith)

  accept_next-eq-success :
      (moment : Moment) (c : ChannelState) (payload : PayInChannelRequest) (channels : Channels)
      {view : ChannelView} {after : Channels}
      → accept_next b moment c payload channels ≡ (success view, after)
      → (u : ChannelState) × IsLast payload u
        × (lookup payload.channel_id after ≡ some u)
        × (view ≡ from_state b u)
  unfolding accept_next
  accept_next-eq-success moment c payload channels h =
      let (u, computed, shown, stored) =
        store_next-eq-success moment payload.channel_id channels
          (try_result (compute_next_state b moment.now c payload) (cosign b)) h in
      (
        u,
        updated-IsLast moment.now c payload computed,
        ground (
          arith,
          eq_iff payload.channel_id payload.channel_id,
          lookup-insert payload.channel_id payload.channel_id u channels,
        ),
        shown,
      )

  -- What an answer of success leaves in the map.
  settle_channel-eq-success :
      (moment : Moment) (c : ChannelState) (payload : PayInChannelRequest) (channels : Channels)
      {view : ChannelView} {after : Channels}
      → lookup payload.channel_id channels ≡ some c
      → settle_channel b moment c payload channels ≡ (success view, after)
      → (u : ChannelState) × IsLast payload u
        × (lookup payload.channel_id after ≡ some u)
        × (view ≡ from_state b u)
  unfolding settle_channel
  settle_channel-eq-success moment c payload channels {view} {after} found h =
      elim (Bool-cases (payload.sequence_number == c.sequence_number)) [
        | inl same ↦ (
          c,
          ground (arith, eq_iff payload.user_signature c.user_signature),
          ground arith,
          ground arith,
        )
        | inr other ↦ accept_next-eq-success moment c payload channels (ground arith)
      ]

  pub settle_found-eq-success :
      (moment : Moment) (payload : PayInChannelRequest) (channels : Channels)
      (r : Result ChannelState) {view : ChannelView} {after : Channels}
      → settle_found b moment payload channels r ≡ (success view, after)
      → (c : ChannelState) × (r ≡ success c)
        × (settle_channel b moment c payload channels ≡ (success view, after))
  unfolding settle_found
  settle_found-eq-success moment payload channels (failure e) h = cc
  settle_found-eq-success moment payload channels (success c) h = (c, refl, h)

  -- A request that `settle` has answered with success, sent again at any later moment before
  -- another request for the channel, gets the same view from it and changes nothing.
  pub settle-settle :
      (moment later : Moment) (payload : PayInChannelRequest) (channels : Channels)
      {view : ChannelView} {after : Channels}
      → settle b moment payload channels ≡ (success view, after)
      → settle b later payload after ≡ (success view, after)
  unfolding settle find_channel
  settle-settle moment later payload channels {view} {after} h =
      let (c, located, settled) =
        settle_found-eq-success moment payload channels
          (try_result (parse_b256 b payload.channel_id)
            λ _. find_channel b payload.channel_id channels)
          h in
      let (id, parsed, found) = try_result-eq-success (parse_b256 b payload.channel_id) _ located in
      let (u, last, kept, shown) =
        settle_channel-eq-success moment c payload channels (ground arith) settled in
      settle-IsLast later payload after parsed kept last ∙ rw shown refl

  -- A voucher with the next sequence number is accepted and signed, and then the database fails.
  -- The request fails with that error, but the map has the voucher's state, and the same request,
  -- sent again at any moment, is answered with success and with that state, without a save.
  pub settle_unsaved :
      (moment later : Moment) (payload : PayInChannelRequest) (channels : Channels) {id : ℕ}
      {c u : ChannelState} {e : SequencerError}
      → parse_b256 b payload.channel_id ≡ success id
      → lookup payload.channel_id channels ≡ some c
      → payload.sequence_number ≡ add_u64 c.sequence_number 1
      → try_result (compute_next_state b moment.now c payload) (cosign b) ≡ success u
      → moment.save_channel u ≡ failure e
      → let advanced = insert payload.channel_id u channels in
        (settle b moment payload channels ≡ (failure e, advanced))
        × (settle b later payload advanced ≡ (success (from_state b u), advanced))
  unfolding accept_next store_next
  settle_unsaved moment later payload channels {id} {c} {u} parsed found number computed fails =
      let kept : lookup payload.channel_id (insert payload.channel_id u channels) ≡ some u =
        ground (
          arith,
          eq_iff payload.channel_id payload.channel_id,
          lookup-insert payload.channel_id payload.channel_id u channels,
        ) in
      (
        settle-located moment payload channels parsed found
            ∙ settle_channel-next moment c payload channels number
            ∙ ground arith,
        settle-IsLast later payload _ parsed kept (updated-IsLast moment.now c payload computed),
      )
