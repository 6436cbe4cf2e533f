-- ===== src/Tests/Fetching.antt =====
-- Fetches in the small world.
use cronos_stream.Prelude.{String, ◌≡◌, refl, true, none, [], ◌∷◌}
use cronos_stream.Prelude.Int.{ℤ, ◌+ℤ◌, pos}
use cronos_stream.Python.{
  Dict, insert, bind_outcome, add_one, Value, null, bool, int, text, object, array, get, index, ok,
  to_int, subscript, length_of,
}
use cronos_stream.World.{World, Response, http_post}
use cronos_stream.Errors.{handle_errors}
use cronos_stream.Service.{x402_protocol}
use cronos_stream.Service.Choice.{
  chosen_target, choose_agent, choose_resource, resources_of, protocol_of, with_resource,
  or_invalid,
}
use cronos_stream.Service.Header.{generate_payment_header, private_key, signed_header}
use cronos_stream.Service.Fetch.{
  Endpoints, payment_id_of, pay_body, settle_exact, retrieve, fetch_resource,
}
use cronos_stream.Service.Fetch.Laws.{Answers, fetch_resource-Answers}
use cronos_stream.Service.Fetch.Exact.{Retrieved, settle_exact_order}
use cronos_stream.Channel.Voucher.{create_voucher, voucher_of}
use cronos_stream.Service.Streaming.{pay_by_voucher, voucher_for, submit_voucher}
use cronos_stream.Service.Streaming.Laws.{Submitted, pay_by_voucher-Submitted}
use cronos_stream.Tests.{receipt, manager, start, demo, offer}

abbrev shop : Endpoints
shop = record { base = "http://s"; resource_url = "http://s/r"; pay_endpoint = "http://s/api/pay" }

abbrev bought : Value
bought = object (
    ("ok", bool true)
    ∷ ("paid", bool true)
    ∷ ("paymentId", text "p1")
    ∷ ("pay", receipt)
    ∷ ("data", text "content")
    ∷ [])

settled : (settle_exact demo shop offer []).0 ≡ ok bought
unfolding settle_exact payment_id_of generate_payment_header signed_header private_key retrieve get
    index handle_errors to_int
settled = refl

settle_exact_order_example :
    let mid = (generate_payment_header demo offer []).1 in
    (id : Value) × (header : String) × (pay : Response) × (payment_id_of offer ≡ ok id)
    × ((generate_payment_header demo offer []).0 ≡ ok header)
    × (demo.post_reply mid "http://s/api/pay" (pay_body id header offer) ≡ ok pay)
    × Retrieved demo shop id pay
        (http_post "http://s/api/pay" (pay_body id header offer) ∷ mid)
        bought
        (settle_exact demo shop offer []).1
settle_exact_order_example = settle_exact_order demo shop offer [] settled

-- A world without a key.
abbrev keyless : World
keyless = record demo { env = λ k. none }

identified : payment_id_of offer ≡ ok (text "p1")
unfolding payment_id_of get
identified = refl

abbrev resource : Value
resource =
    object (("url", text "/r") ∷ ("paywall", object (("protocol", text x402_protocol) ∷ [])) ∷ [])

abbrev agent : Value
agent = object (
    ("baseUrl", text "http://s/")
    ∷ ("card", object (("resources", array (resource ∷ [])) ∷ []))
    ∷ [])

abbrev choice : Value
choice = object (("agentIndex", int (pos 0)) ∷ ("resourceIndex", text " 0 ") ∷ [])

abbrev target : Value
target = object (
    ("baseUrl", text "http://s/")
    ∷ ("card", object (("resources", array (resource ∷ [])) ∷ []))
    ∷ ("resource", resource)
    ∷ [])

chosen : chosen_target (agent ∷ []) choice ≡ ok target
unfolding chosen_target choose_agent choose_resource or_invalid index to_int subscript resources_of
    get length_of protocol_of with_resource
chosen = refl

fetch_resource-Answers_example : Answers [] (fetch_resource demo target true [])
fetch_resource-Answers_example = fetch_resource-Answers demo target true []

abbrev voucher : Dict Value
voucher =
    voucher_of (record manager { sequence_number = int (pos 5) }) "0xM" (pos 100) (pos 1000) "0xsig"
      (pos 100)

abbrev streamed : Value
streamed = object (
    ("ok", bool true)
    ∷ ("paid", bool true)
    ∷ ("paymentId", text "p1")
    ∷ ("pay", receipt)
    ∷ ("data", text "content")
    ∷ (
      "debug_info",
      object (
          ("method", text "CronosStream (Layer 2)")
          ∷ ("channelId", text "0xC")
          ∷ ("sequencerUrl", text "seq")
          ∷ ("voucher", object (insert "paymentId" (text "p1") voucher))
          ∷ ("amount", int (pos 100))
          ∷ ("recipient", text "0xM")
          ∷ []),
    )
    ∷ [])

vouched :
    (pay_by_voucher demo "http://s/r" "http://s" "seq" (text "p1") offer manager []).0 ≡ ok streamed
unfolding pay_by_voucher voucher_for submit_voucher create_voucher voucher_of get to_int add_one
    ◌+ℤ◌
vouched = refl

pay_by_voucher-Submitted_example :
    (amount : ℤ) × (recipient : String) × (v : Dict Value) × (bind_outcome
        (get offer "maxAmountRequired" (text "0"))
        to_int
      ≡ ok amount)
    × (get offer "payTo" null ≡ ok (text recipient))
    × ((create_voucher demo recipient amount start).0 ≡ ok v)
    × Submitted demo "http://s/r" "http://s" "seq"
        (text "p1")
        (insert "paymentId" (text "p1") v)
        (create_voucher demo recipient amount start).1.trace
        streamed
        (pay_by_voucher demo "http://s/r" "http://s" "seq" (text "p1") offer manager []).1
pay_by_voucher-Submitted_example =
    pay_by_voucher-Submitted demo "http://s/r" "http://s" "seq" (text "p1") offer manager [] vouched
