-- ===== src/Service/Streaming.antt =====
-- `PaywallService.handle_streaming_payment`: the channel's identifier is kept in a file, the channel
-- is ensured, and a voucher for the asked amount pays.
pub mod Laws
use cronos_stream.Prelude.{
  String, ◌<>◌, true, not, Option, none, some, [], ◌∷◌, ◌==◌, string_has_eq, nat_has_eq, leb,
}
use cronos_stream.Prelude.Int.{ℤ, pos, ◌+ℤ◌}
use cronos_stream.Python.{
  Dict, insert, Value, null, bool, int, text, object, get, to_int, str_int, str_value, Outcome, ok,
  raised, app, network_error, Action, bind_outcome, pure, raise, from_outcome, ◌>>=◌, ◌>>◌, choose,
  when, catch,
}
use cronos_stream.World.{
  World, Effect, perform, token_hex, state_file_exists, read_state_file, write_state_file,
  http_get_with, post, read_clock,
}
use cronos_stream.Channel.{Manager, Session, new_manager, call}
use cronos_stream.Channel.Voucher.{create_voucher}
use cronos_stream.Channel.Ensure.{ensure_channel}
use cronos_stream.Service.{x_payment_id_header}
use cronos_stream.Service.Header.{private_key}

-- A method of a manager, called from outside: its changes of the manager come back with the result.
abbrev pub on_manager : {A : Type 0} → Manager → Action Session A → Effect (A × Manager)
on_manager m method past =
    let (r, s) = method (record { manager = m; trace = past }) in
    elim r [ ok a ↦ (ok (a, s.manager), s.trace) | raised e ↦ (raised e, s.trace) ]

-- CHANNEL_MANAGER_ADDRESS and CHAIN_ID of channel_manager.py, read when the module is imported.
unfoldable pub contract_address : World → String
contract_address w = elim (w.env "CHANNEL_MANAGER_ADDRESS") [
  | none ↦ "0xE118E04431853e9df5390E1AACF36dEF6A7a0254"
  | some address ↦ address
]

unfoldable pub chain_id : World → Outcome ℤ
chain_id w = elim (w.env "CHAIN_ID") [ none ↦ ok (pos 338) | some n ↦ to_int (text n) ]

module _ (w : World) where
  -- `channel_id` behind the two attempts: the stored identifier, if there is one that can be read.
  unfoldable pub load_channel_id : Effect (Option String)
  load_channel_id = do
    exists ← perform state_file_exists (λ past. ok (w.has_state_file past))
    choose exists (catch (perform read_state_file w.stored_channel_id) (λ e. pure none)) (pure none)

  unfoldable pub save_channel_id : String → Effect (Unit {0})
  save_channel_id channel = catch (perform (write_state_file channel) w.save_reply) (λ e. pure tt)

  -- A new identifier, which is stored.
  unfoldable pub fresh_channel_id : Effect String
  fresh_channel_id = do
    random ← perform token_hex (λ past. ok (w.random_hex past))
    save_channel_id ("0x" <> random)
    pure ("0x" <> random)

  -- `if not channel_id`: none, or the empty text.
  unfoldable pub use_or_create : Option String → Effect String
  use_or_create none = fresh_channel_id
  use_or_create (some channel) = choose (channel == "") fresh_channel_id (pure channel)

  unfoldable pub persistent_channel_id : Effect String
  persistent_channel_id = do stored ← load_channel_id; use_or_create stored

  -- `cm.create_voucher(pay_to, amount)`. What is no text is refused when the document is encoded.
  unfoldable pub voucher_for : Value → ℤ → Action Session (Dict Value)
  voucher_for (text recipient) amount = create_voucher w recipient amount
  voucher_for other amount = do timestamp ← call (read_clock w); raise (w.refuse_recipient other)

  -- A manager whose channel is open, with the file naming that channel.
  unfoldable pub ready_manager : ℤ → String → Effect Manager
  ready_manager chain sequencer_url = do
    key ← from_outcome (private_key w)
    channel ← persistent_channel_id
    owner ← from_outcome (w.account_of key)
    cm ← from_outcome (new_manager w (contract_address w) chain key channel owner)
    now ← read_clock w
    (_, cm') ← on_manager cm (ensure_channel w sequencer_url "5000000" (now +ℤ pos 31536000))
    when (not (cm'.channel_id == channel)) (save_channel_id cm'.channel_id)
    pure cm'

  unfoldable pub submit_voucher :
      String → String → String → Value → Value → ℤ → Manager → Dict Value → Effect Value
  submit_voucher resource_url base_url sequencer_url payment_id pay_to amount cm voucher = do
    res ← post w (base_url <> "/api/pay-voucher") (object voucher)
    when (leb 400 res.status)
        (raise (app network_error ("Voucher settlement failed: " <> res.body)))
    retry ← http_get_with w resource_url ((x_payment_id_header, payment_id) ∷ [])
    when (not (retry.status == 200)) (
        raise
          (app network_error ("Retry failed: " <> str_int (pos retry.status) <> " " <> retry.body)))
    pay ← from_outcome (res.json)
    content ← from_outcome (retry.json)
    pure (
        object (
          ("ok", bool true)
          ∷ ("paid", bool true)
          ∷ ("paymentId", payment_id)
          ∷ ("pay", pay)
          ∷ ("data", content)
          ∷ (
            "debug_info",
            object (
                ("method", text "CronosStream (Layer 2)")
                ∷ ("channelId", text cm.channel_id)
                ∷ ("sequencerUrl", text sequencer_url)
                ∷ ("voucher", object voucher)
                ∷ ("amount", int amount)
                ∷ ("recipient", pay_to)
                ∷ []),
          )
          ∷ []))

  -- Behind the channel: the voucher for what the offer asks, and its submission.
  unfoldable pub pay_by_voucher : String → String → String → Value → Value → Manager → Effect Value
  pay_by_voucher resource_url base_url sequencer_url payment_id accepts cm = do
    amount ← from_outcome (bind_outcome (get accepts "maxAmountRequired" (text "0")) to_int)
    pay_to ← from_outcome (get accepts "payTo" null)
    (voucher, cm') ← on_manager cm (voucher_for pay_to amount)
    submit_voucher resource_url base_url sequencer_url payment_id pay_to amount cm'
        (insert "paymentId" payment_id voucher)

  unfoldable pub handle_streaming_payment : String → String → Value → Effect Value
  handle_streaming_payment resource_url base_url accepts = do
    chain ← from_outcome (chain_id w)
    extra ← from_outcome (get accepts "extra" (object []))
    payment_id ← from_outcome (get extra "paymentId" null)
    url ← from_outcome (get extra "sequencerUrl" (text "http://localhost:3000"))
    let sequencer_url = str_value w.repr url
    cm ← ready_manager chain sequencer_url
    pay_by_voucher resource_url base_url sequencer_url payment_id accepts cm
