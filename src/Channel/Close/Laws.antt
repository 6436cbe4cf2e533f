-- ===== src/Channel/Close/Laws.antt =====
-- What closing by the sequencer comes to.
use cronos_stream.Prelude.{◌≡◌, String, ◌<>◌, true, [], ◌∷◌, arith}
use cronos_stream.Python.{Value, text, object, ok, get, is_ok, is_ok-value}
use cronos_stream.World.{World, Response, Trace, clock, sign, http_post}
use cronos_stream.Channel.{Session}
use cronos_stream.Channel.Voucher.{state_data}
use cronos_stream.Channel.Close.{close_channel}

module _ (w : World) (url : String) (s : Session) where
  abbrev pub asked : Value
  asked = object (("channelId", text s.manager.channel_id) ∷ [])

  abbrev pub before_post : Trace
  before_post = sign (state_data s.manager (w.now s.trace)) ∷ clock ∷ s.trace

  closes :
      (close_channel w url s).0 ≡ ok true
      → is_ok (w.post_reply before_post (url <> "/channel/finalize") asked) ≡ true
  unfolding close_channel
  closes h = ground arith

  closes_by :
      {res : Response}
      → (close_channel w url s).0 ≡ ok true
      → w.post_reply before_post (url <> "/channel/finalize") asked ≡ ok res
      → (res.status ≡ 200)
        × (is_ok (res.json) ≡ true)
        × ((close_channel w url s).1
            ≡ record s { trace = http_post (url <> "/channel/finalize") asked ∷ before_post })
  unfolding close_channel get
  closes_by h e = ground arith

  -- When `close_channel` reports success, it has signed the manager's state and then asked the
  -- sequencer to finalize the channel, which was answered with status 200 and JSON; the manager is
  -- as it was, and no other call was made.
  pub close_channel-closes :
      (close_channel w url s).0 ≡ ok true
      → (res : Response) × (w.post_reply before_post (url <> "/channel/finalize") asked ≡ ok res)
        × (res.status ≡ 200)
        × (is_ok (res.json) ≡ true)
        × ((close_channel w url s).1
            ≡ record s { trace = http_post (url <> "/channel/finalize") asked ∷ before_post })
  close_channel-closes h =
      let (res, e) =
        is_ok-value (w.post_reply before_post (url <> "/channel/finalize") asked) (closes h) in
      let (good, readable, run) = closes_by h e in (res, e, good, readable, run)
