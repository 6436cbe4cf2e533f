-- ===== src/Channel/Close.antt =====
-- `ChannelManager.close_channel`: the final state is signed, and the sequencer is asked to finalize.
-- The signature is not sent.
pub mod Laws
use cronos_stream.Prelude.{String, ◌<>◌, Bool, true, false, [], ◌∷◌, ◌==◌, nat_has_eq}
use cronos_stream.Python.{
  Value, text, object, Action, pure, from_outcome, ◌>>=◌, gets, choose, catch, get, bind_outcome,
}
use cronos_stream.World.{World, post, read_clock, sign_data}
use cronos_stream.Channel.{Session, call}
use cronos_stream.Channel.Voucher.{state_data}

unfoldable pub close_channel : World → String → Action Session Bool
close_channel w url = do
  m ← gets (λ s. s.manager)
  timestamp ← call (read_clock w)
  signature ← call (sign_data w (state_data m timestamp))
  catch
      (do
        res ←
            call
              (post w (url <> "/channel/finalize") (object (("channelId", text m.channel_id) ∷ [])))
        choose (res.status == 200)
            (do
              hash ←
                  from_outcome
                    (bind_outcome (res.json) (λ answer. get answer "transactionHash" Value.null))
              pure true)
            (pure false))
      (λ e. pure false)
