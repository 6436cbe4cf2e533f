-- ===== src/Sequencer/Service.antt =====
-- sequencer/src/service.rs: the operations on channels.
pub mod Invariant
pub mod Replies
pub mod Validation
pub mod Finalize
use cronos_stream.Prelude.{
  ℕ, String, ◌<>◌, Bool, true, false, not, ◌&&◌, Option, none, some, List, [], ◌∷◌, map, ◌==◌,
  nat_has_eq, string_has_eq, if◌then◌else◌,
}
use cronos_stream.Prelude.Int.{pos}
use cronos_stream.Python.{lookup, insert, str_int}
use cronos_stream.Sequencer.{
  add_u64, RecipientBalance, ChannelState, PayInChannelRequest, SeedChannelRequest, RecipientView,
  ChannelView, channel_not_found, invalid_signature, invalid_sequence_number, internal, Result,
  success, failure, try_result, Update, Backend, Moment, Channels,
}
use cronos_stream.Sequencer.Payment.{
  parse_address, parse_b256, parse_u256, validate_timestamp, channel_update, compute_next_state,
}

module _ (b : Backend) where
  unfoldable pub recipient_view_of : RecipientBalance → RecipientView
  recipient_view_of r = record {
    recipient_address = b.hex_address r.recipient_address;
    balance = str_int (pos r.balance);
  }

  -- `ChannelView::from_state`
  unfoldable pub from_state : ChannelState → ChannelView
  from_state c = record {
    channel_id = b.hex_b256 c.channel_id;
    owner = b.hex_address c.owner;
    balance = str_int (pos c.balance);
    expiry_timestamp = c.expiry_ts;
    sequence_number = c.sequence_number;
    user_signature = c.user_signature;
    sequencer_signature = c.sequencer_signature;
    signature_timestamp = c.signature_timestamp;
    recipients = map recipient_view_of c.recipients;
  }

  unfoldable pub seeded_state : ℕ → ℕ → ℕ → ℕ → ChannelState
  seeded_state channel_id owner balance expiry = record {
    channel_id = channel_id;
    owner = owner;
    balance = balance;
    expiry_ts = expiry;
    sequence_number = 0;
    user_signature = "";
    sequencer_signature = "";
    signature_timestamp = 0;
    recipients = [];
  }

  -- The database comes first; a failure of it leaves the map.
  unfoldable pub seed_channel :
      Moment → SeedChannelRequest → Channels → Result ChannelView × Channels
  seed_channel moment payload channels =
      elim (try_result (parse_b256 b payload.channel_id) λ channel_id.
        try_result (parse_address b payload.owner) λ owner.
          try_result (parse_u256 b payload.balance) λ balance.
            let c = seeded_state channel_id owner balance payload.expiry_timestamp in
            try_result (moment.save_channel c) λ _. success c)
        as (λ _. Result ChannelView × Channels) [
          | failure e ↦ (failure e, channels)
          | success c ↦ (success (from_state c), insert payload.channel_id c channels)
        ]

  unfoldable pub find_channel : String → Channels → Result ChannelState
  find_channel id channels = elim (lookup id channels) [
    | none ↦ failure (channel_not_found id)
    | some c ↦ success c
  ]

  unfoldable pub get_channel : String → Channels → Result ChannelView
  get_channel id channels = try_result (find_channel id channels) λ c. success (from_state c)

  -- A payload with the state's own sequence number is the last voucher again, or refused.
  abbrev pub is_replay : ChannelState → PayInChannelRequest → Bool
  is_replay c payload =
      (payload.user_signature == c.user_signature) && (payload.timestamp == c.signature_timestamp)

  abbrev pub wrong_number : ℕ → ℕ → {A : Type 0} → Result A
  wrong_number expected actual = failure (invalid_sequence_number expected actual)

  unfoldable pub validate_pay_in_channel : ℕ → PayInChannelRequest → Channels → Result ChannelView
  validate_pay_in_channel now payload channels =
      try_result (find_channel payload.channel_id channels) λ c.
        if payload.sequence_number == c.sequence_number
        then (if is_replay c payload
            then success (from_state c)
            else wrong_number c.sequence_number payload.sequence_number)
        else if not (payload.sequence_number == add_u64 c.sequence_number 1)
        then wrong_number (add_u64 c.sequence_number 1) payload.sequence_number
        else try_result (compute_next_state b now c payload) λ updated. success (from_state updated)

  -- The update with the sequencer's signature.
  unfoldable pub cosign : ChannelState → Result ChannelState
  cosign updated =
      try_result
        (b.sign (
          channel_update b updated.channel_id updated.sequence_number updated.signature_timestamp
            updated.recipients))
        λ signature. success (record updated { sequencer_signature = signature })

  -- The map is written before the database.
  unfoldable pub store_next :
      Moment → String → Channels → Result ChannelState → Result ChannelView × Channels
  store_next moment id channels (failure e) = (failure e, channels)
  store_next moment id channels (success updated) = (
    try_result (moment.save_channel updated) (λ _. success (from_state updated)),
    insert id updated channels,
  )

  -- A payload with the next sequence number.
  unfoldable pub accept_next :
      Moment → ChannelState → PayInChannelRequest → Channels → Result ChannelView × Channels
  accept_next moment c payload channels =
      store_next moment payload.channel_id channels
        (try_result (compute_next_state b moment.now c payload) cosign)

  unfoldable pub settle_channel :
      Moment → ChannelState → PayInChannelRequest → Channels → Result ChannelView × Channels
  settle_channel moment c payload channels =
      let next = accept_next moment c payload channels in
      if payload.sequence_number == c.sequence_number
      then (if is_replay c payload
          then (success (from_state c), channels)
          else (wrong_number c.sequence_number payload.sequence_number, channels))
      else if not (payload.sequence_number == add_u64 c.sequence_number 1)
      then (wrong_number (add_u64 c.sequence_number 1) payload.sequence_number, channels)
      else next

  unfoldable pub settle_found :
      Moment → PayInChannelRequest → Channels → Result ChannelState → Result ChannelView × Channels
  settle_found moment payload channels (failure e) = (failure e, channels)
  settle_found moment payload channels (success c) = settle_channel moment c payload channels

  unfoldable pub settle : Moment → PayInChannelRequest → Channels → Result ChannelView × Channels
  settle moment payload channels =
      settle_found moment payload channels
        (try_result (parse_b256 b payload.channel_id) λ _. find_channel payload.channel_id channels)

  -- The tests of `finalize_channel`, and the update that its transaction then carries.
  unfoldable pub finalize_update : ℕ → String → Channels → Result Update
  finalize_update now id channels = try_result (find_channel id channels) λ c.
      if c.user_signature == ""
      then failure (internal "channel has no user signature")
      else if c.signature_timestamp == 0
      then failure (internal "channel has no signature timestamp")
      else try_result (validate_timestamp b now c.signature_timestamp c.expiry_ts) λ _.
        let update =
          channel_update b c.channel_id c.sequence_number c.signature_timestamp c.recipients in
        try_result (b.recover update c.user_signature) λ recovered.
          if recovered == c.owner
          then success update
          else failure (invalid_signature (b.hex_address c.owner) (b.hex_address recovered))
