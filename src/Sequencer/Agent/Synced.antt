-- ===== src/Sequencer/Agent/Synced.antt =====
-- The sequencer's view of a channel, as the agent's `ensure_channel` reads it.
use cronos_stream.Prelude.{
  ℕ, String, ◌<>◌, ◌≡◌, ◌≢◌, ◌∙◌, refl, ap, sym, some, List, [], ◌∷◌, map, arith, nat_has_eq,
  string_has_eq, eq_iff,
}
use mathlib.Core.Path.{subst}
use cronos_stream.Prelude.Int.{ℤ, pos}
use cronos_stream.Python.{
  Dict, NodupKeys, lookup, insert, Value, text, int, array, object, ok, get, iterate, to_int,
}
use cronos_stream.Python.Number.RoundTrip.{to_int-str_int}
use cronos_stream.World.{World, Response, http_get}
use cronos_stream.Channel.{Session}
use cronos_stream.Channel.Ensure.{
  sync_recipient, sync_recipients, sync_view, check_sequencer, ensure_channel,
}
use cronos_stream.Channel.Ensure.Sync.{elements-items}
use cronos_stream.Sequencer.{
  RecipientBalance, ChannelState, RecipientView, ChannelView, success, Backend, Channels,
}
use cronos_stream.Sequencer.Payment.Amounts.{Distinct}
use cronos_stream.Sequencer.Service.{recipient_view_of, from_state, find_channel, get_channel}
use cronos_stream.Sequencer.Agent.{SameBooks, Spells, AllSpelt, Agrees}
use cronos_stream.Sequencer.Agent.Entered.{entered, entered-NodupKeys, entered-SameBooks}

-- The JSON of an answer: the fields in camel case.
unfoldable pub recipient_json : RecipientView → Value
recipient_json r =
    object (("recipientAddress", text r.recipient_address) ∷ ("balance", text r.balance) ∷ [])

unfoldable pub view_json : ChannelView → Value
view_json v = object (
    ("channelId", text v.channel_id)
    ∷ ("owner", text v.owner)
    ∷ ("balance", text v.balance)
    ∷ ("expiryTimestamp", int (pos v.expiry_timestamp))
    ∷ ("sequenceNumber", int (pos v.sequence_number))
    ∷ ("userSignature", text v.user_signature)
    ∷ ("sequencerSignature", text v.sequencer_signature)
    ∷ ("signatureTimestamp", int (pos v.signature_timestamp))
    ∷ ("recipients", array (map recipient_json v.recipients))
    ∷ [])

module _ (w : World) (b : Backend) (key : ℕ → String) where
  abbrev holding : Dict ℤ → Session → Session
  holding d s = record s { manager = record (s.manager) { cumulative_amounts = d } }

  abbrev recipients_json : List RecipientBalance → List Value
  recipients_json rs = map recipient_json (map (recipient_view_of b) rs)

  sync_recipient_lem :
      (r : RecipientBalance) (s : Session)
      → Spells b w key r.recipient_address
      → sync_recipient w (recipient_json (recipient_view_of b r)) s ≡ (
        ok tt,
        holding (insert (key r.recipient_address) (pos r.balance) s.manager.cumulative_amounts) s,
      )
  unfolding sync_recipient get recipient_json recipient_view_of
  sync_recipient_lem r s (written, checksums, reads) =
      ground (arith, to_int-str_int (pos r.balance), eq_iff (b.hex_address r.recipient_address) "")

  sync_recipients_lem :
      (rs : List RecipientBalance) (s : Session)
      → AllSpelt b w key rs
      → sync_recipients w (recipients_json rs) s
        ≡ (ok tt, holding (entered w b key rs s.manager.cumulative_amounts) s)
  unfolding sync_recipients
  sync_recipients_lem [] s all = refl
  sync_recipients_lem (r ∷ rs) s (spelt, all) = ground (
    arith,
    sync_recipient_lem r s spelt,
    sync_recipients_lem rs
        (holding (insert (key r.recipient_address) (pos r.balance) s.manager.cumulative_amounts) s)
        all,
  )

  sync_view_lem :
      (res : Response) (c : ChannelState) (s : Session)
      → AllSpelt b w key c.recipients
      → res.json ≡ ok (view_json (from_state b c))
      → sync_view w res s ≡ (
        ok tt,
        record s {
          manager = record (s.manager) {
            sequence_number = int (pos c.sequence_number);
            cumulative_amounts = entered w b key c.recipients s.manager.cumulative_amounts;
          };
        },
      )
  unfolding sync_view get iterate view_json from_state
  sync_view_lem res c s all answered =
      rw (answered, elements-items (recipients_json c.recipients))
        (sync_recipients_lem c.recipients
          (record s {
            manager = record (s.manager) { sequence_number = int (pos c.sequence_number) };
          })
          all)

  get_channel_shown :
      (id : String) (channels : Channels) {view : ChannelView} {c : ChannelState}
      → lookup id channels ≡ some c
      → get_channel b id channels ≡ success view
      → from_state b c ≡ view
  unfolding get_channel find_channel
  get_channel_shown id channels {view} {c} found h = ground arith

  -- The session behind the answer.
  abbrev agreed : String → ChannelState → Session → Session
  agreed url c s = record {
    manager = record (s.manager) {
      sequence_number = int (pos c.sequence_number);
      cumulative_amounts = entered w b key c.recipients s.manager.cumulative_amounts;
    };
    trace = http_get (url <> "/channel/" <> s.manager.channel_id) [] ∷ s.trace;
  }

  ensure_channel_run :
      (url balance : String) (expiry amount : ℤ) (res : Response) (s : Session) (c : ChannelState)
      → AllSpelt b w key c.recipients
      → to_int (text balance) ≡ ok amount
      → s.manager.channel_id ≢ ""
      → w.get_reply s.trace (url <> "/channel/" <> s.manager.channel_id) [] ≡ ok res
      → res.status ≡ 200
      → res.json ≡ ok (view_json (from_state b c))
      → ensure_channel w url balance expiry s ≡ (ok tt, agreed url c s)
  unfolding ensure_channel check_sequencer
  ensure_channel_run url balance expiry amount res s c all money known reply answered json =
      ground (
        arith,
        eq_iff s.manager.channel_id "",
        sync_view_lem res c
            (record s {
              trace = http_get (url <> "/channel/" <> s.manager.channel_id) [] ∷ s.trace;
            })
            all json,
      )

  -- A manager that is new, with a channel's identifier and the sequencer's chain and contract, asks
  -- the sequencer, and the answer is what `get_channel` shows of the channel. Then `ensure_channel`
  -- returns, and the manager agrees with the channel that the sequencer keeps. No recipient of the
  -- channel is listed twice, and the agent's spelling of each written address is read back.
  pub ensure_channel-Agrees :
      (url balance : String) (expiry amount : ℤ) (res : Response) (s : Session)
      (channels : Channels) {view : ChannelView} {c : ChannelState}
      → AllSpelt b w key c.recipients
      → Distinct c.recipients
      → to_int (text balance) ≡ ok amount
      → s.manager.channel_id ≢ ""
      → s.manager.cumulative_amounts ≡ []
      → s.manager.chain_id ≡ pos b.chain_id
      → b.address_from_str s.manager.contract_address ≡ some b.channel_manager
      → lookup s.manager.channel_id channels ≡ some c
      → b.b256_from_str s.manager.channel_id ≡ some c.channel_id
      → get_channel b s.manager.channel_id channels ≡ success view
      → w.get_reply s.trace (url <> "/channel/" <> s.manager.channel_id) [] ≡ ok res
      → res.status ≡ 200
      → res.json ≡ ok (view_json view)
      → ((ensure_channel w url balance expiry s).0 ≡ ok tt)
        × Agrees b (ensure_channel w url balance expiry s).1.manager c
  ensure_channel-Agrees url balance expiry amount res s channels {view} {c} all distinct money known
        empty chain contract found id shown reply answered json =
      let same = get_channel_shown s.manager.channel_id channels found shown in
      let run =
        ensure_channel_run url balance expiry amount res s c all money known reply answered
          (json ∙ ap (λ v. ok (view_json v)) (sym same)) in
      let agrees : Agrees b (agreed url c s).manager c = record {
        channel = id;
        chain = chain;
        contract = contract;
        number = refl;
        distinct =
            entered-NodupKeys w b key c.recipients s.manager.cumulative_amounts
              (subst NodupKeys (sym empty) tt);
        books =
            subst (λ d. SameBooks b (entered w b key c.recipients d) c.recipients) (sym empty)
              (entered-SameBooks w b key c.recipients all distinct);
      } in
      (ap (λ p. p.0) run, subst (λ p. Agrees b p.1.manager c) (sym run) agrees)
