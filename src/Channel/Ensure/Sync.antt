-- ===== src/Channel/Ensure/Sync.antt =====
-- The fast path of `ensure_channel`: the sequencer's view of the channel, and the manager behind it.
use cronos_stream.Prelude.{
  String, ◌<>◌, ◌≡◌, ◌≢◌, refl, ap, List, [], ◌∷◌, map, arith, eq_iff, string_has_eq,
}
use cronos_stream.Prelude.Int.{ℤ}
use cronos_stream.Python.{
  Dict, insert, Value, text, int, array, object, str_int, ok, get, iterate, to_int, items, elements,
}
use cronos_stream.Python.Number.RoundTrip.{to_int-str_int}
use cronos_stream.World.{World, Response, http_get}
use cronos_stream.Channel.{Session}
use cronos_stream.Channel.Ensure.{
  sync_recipient, sync_recipients, sync_view, check_sequencer, ensure_channel,
}

-- A recipient as the sequencer writes it: sequencer/src/model.rs, `RecipientView`.
abbrev pub recipient_view : String × ℤ → Value
recipient_view r = object (("recipientAddress", text r.0) ∷ ("balance", text (str_int r.1)) ∷ [])

-- The two members of a `ChannelView` that the agent reads, behind any others that come first.
abbrev pub channel_view : ℤ → List (String × ℤ) → Value
channel_view sequence recipients =
    object (
      ("sequenceNumber", int sequence) ∷ ("recipients", array (map recipient_view recipients)) ∷ [])

-- The sequencer's amounts, entered in order under checksummed addresses.
abbrev pub entered : (String → String) → List (String × ℤ) → Dict ℤ → Dict ℤ
entered key [] d = d
entered key (r ∷ rs) d = entered key rs (insert (key r.0) r.1 d)

-- No address is the empty text.
abbrev pub AllNamed : List (String × ℤ) → Type 0
AllNamed [] = Unit
AllNamed (r ∷ rs) = (r.0 ≢ "") × AllNamed rs

pub elements-items : (vs : List Value) → elements (items vs) ≡ vs
elements-items [] = refl
elements-items (v ∷ vs) = ap (λ l. v ∷ l) (elements-items vs)

module _ (w : World) (key : String → String)
    (checksums : (a : String) → w.checksum (text a) ≡ ok (key a)) where
  abbrev with_amounts : Dict ℤ → Session → Session
  with_amounts d s = record s { manager = record (s.manager) { cumulative_amounts = d } }

  sync_recipient_lem :
      (r : String × ℤ) (s : Session)
      → r.0 ≢ ""
      → sync_recipient w (recipient_view r) s
        ≡ (ok tt, with_amounts (insert (key r.0) r.1 s.manager.cumulative_amounts) s)
  unfolding sync_recipient get
  sync_recipient_lem r s named = ground (arith, to_int-str_int r.1, eq_iff r.0 "", checksums r.0)

  sync_recipients_lem :
      (rs : List (String × ℤ)) (s : Session)
      → AllNamed rs
      → sync_recipients w (map recipient_view rs) s
        ≡ (ok tt, with_amounts (entered key rs s.manager.cumulative_amounts) s)
  unfolding sync_recipients
  sync_recipients_lem [] s named = refl
  sync_recipients_lem (r ∷ rs) s (named, rest) = ground (
    arith,
    sync_recipient_lem r s named,
    sync_recipients_lem rs (with_amounts (insert (key r.0) r.1 s.manager.cumulative_amounts) s)
        rest,
  )

  -- The session behind a fast path with the answer `channel_view n rs`.
  abbrev pub synced : String → ℤ → List (String × ℤ) → Session → Session
  synced url n rs s = record {
    manager = record (s.manager) {
      sequence_number = int n;
      cumulative_amounts = entered key rs s.manager.cumulative_amounts;
    };
    trace = http_get (url <> "/channel/" <> s.manager.channel_id) [] ∷ s.trace;
  }

  sync_view_lem :
      (res : Response) (n : ℤ) (rs : List (String × ℤ)) (s : Session)
      → AllNamed rs
      → res.json ≡ ok (channel_view n rs)
      → sync_view w res s ≡ (
        ok tt,
        record s {
          manager = record (s.manager) {
            sequence_number = int n;
            cumulative_amounts = entered key rs s.manager.cumulative_amounts;
          };
        },
      )
  unfolding sync_view get iterate
  sync_view_lem res n rs s named answered =
      rw (answered, elements-items (map recipient_view rs))
        (sync_recipients_lem rs
          (record s { manager = record (s.manager) { sequence_number = int n } }) named)

  -- When the sequencer knows the channel, `ensure_channel` returns with the sequencer's sequence
  -- number and its amounts entered under checksummed addresses, after one request: nothing is sent
  -- to the chain and nothing is seeded.
  pub ensure_channel-synced :
      (url balance : String) (expiry n amount : ℤ) (rs : List (String × ℤ)) (res : Response)
      (s : Session)
      → to_int (text balance) ≡ ok amount
      → s.manager.channel_id ≢ ""
      → w.get_reply s.trace (url <> "/channel/" <> s.manager.channel_id) [] ≡ ok res
      → res.status ≡ 200
      → res.json ≡ ok (channel_view n rs)
      → AllNamed rs
      → ensure_channel w url balance expiry s ≡ (ok tt, synced url n rs s)
  unfolding ensure_channel check_sequencer
  ensure_channel-synced url balance expiry n amount rs res s money known reply found answered
        named =
      ground (
        arith,
        eq_iff s.manager.channel_id "",
        sync_view_lem res n rs
            (record s {
              trace = http_get (url <> "/channel/" <> s.manager.channel_id) [] ∷ s.trace;
            })
            named answered,
      )
