-- ===== src/Service/Fetch.antt =====
-- `PaywallService.fetch_resource`: the resource is asked for, paid for if the answer is 402, and
-- asked for again.
pub mod Laws
pub mod Exact
use cronos_stream.Prelude.{
  ℕ, String, ◌<>◌, Bool, true, false, not, Option, none, some, List, [], ◌∷◌, ◌==◌, nat_has_eq, leb,
  if◌then◌else◌, starts_with,
}
use cronos_stream.Python.{
  Value, null, bool, text, object, array, truthy, or_value, is_text, as_text, rstrip_slash, get,
  index, iterate, Outcome, ok, raised, app, network_error, validation_error, bind_outcome, pure,
  raise, from_outcome, ◌>>=◌, ◌>>◌, choose, when,
}
use cronos_stream.World.{World, Response, Effect, http_get_with, post}
use cronos_stream.Errors.{handle_errors}
use cronos_stream.Service.{x_payment_id_header, default_settlement_path}
use cronos_stream.Service.Header.{generate_payment_header}
use cronos_stream.Service.Streaming.{handle_streaming_payment}

-- The addresses that a target gives.
pub record Endpoints : Type 0 where
  pub base : String
  pub resource_url : String
  pub pay_endpoint : String

unfoldable pub absolute_url : String → String → String
absolute_url base url = if starts_with url "/" then base <> url else url

unfoldable pub settlement_url : String → String → String
settlement_url base path = base <> (if starts_with path "/" then path else "/" <> path)

unfoldable pub endpoints : Value → Outcome Endpoints
endpoints target = bind_outcome (bind_outcome (index target "baseUrl") as_text) λ base_url.
    bind_outcome (index target "resource") λ resource.
      bind_outcome (bind_outcome (index resource "url") as_text) λ url.
        bind_outcome (get resource "paywall" null) λ paywall.
          bind_outcome
            (bind_outcome
              (get (or_value paywall (object [])) "settlement" (text default_settlement_path))
              as_text)
            λ settlement. ok (record {
              base = rstrip_slash base_url;
              resource_url = absolute_url (rstrip_slash base_url) url;
              pay_endpoint = settlement_url (rstrip_slash base_url) settlement;
            })

-- `next((a for a in accepts_list if a.get("scheme") == scheme), None)`, with `null` for `None`
unfoldable pub find_scheme : String → List Value → Outcome Value
find_scheme scheme [] = ok null
find_scheme scheme (a ∷ rest) =
    let next = find_scheme scheme rest in
    bind_outcome (get a "scheme" null) λ s. if is_text s scheme then ok a else next

abbrev pub first_of_list : List Value → Value
first_of_list [] = null
first_of_list (a ∷ rest) = a

-- The offers of a challenge: the streaming one, and the one for a payment on its own, which is the
-- first of all where none is marked "exact".
pub record Offers : Type 0 where
  pub streaming : Value
  pub exact : Value

unfoldable pub read_offers : Bool → Value → Outcome Offers
read_offers use_streaming challenge = bind_outcome (get challenge "accepts" null) λ accepts.
    bind_outcome (iterate (or_value accepts (array []))) λ accepts_list.
      bind_outcome (find_scheme "streaming" accepts_list) λ streaming.
        bind_outcome (find_scheme "exact" accepts_list) λ exact. ok (record {
          streaming = if use_streaming then streaming else null;
          exact = or_value exact (first_of_list accepts_list);
        })

unfoldable pub payment_id_of : Value → Outcome Value
payment_id_of offer =
    if truthy offer
    then bind_outcome (get offer "extra" null) (λ extra.
      bind_outcome (get (or_value extra (object [])) "paymentId" null) (λ id.
        if truthy id
        then ok id
        else raised (app validation_error "Invalid 402 challenge: missing paymentId")))
    else raised (app validation_error "Invalid 402 challenge: no accepts")

abbrev pub pay_body : Value → String → Value → Value
pay_body payment_id header offer = object (
    ("paymentId", payment_id)
    ∷ ("paymentHeader", text header)
    ∷ ("paymentRequirements", offer)
    ∷ [])

-- The decorator's default result.
abbrev pub unexpected : Value
unexpected = object (("ok", bool false) ∷ ("error", text "unexpected_exception") ∷ [])

module _ (w : World) where
  -- Behind the settlement: its status is tested, and the resource is asked for again.
  unfoldable pub retrieve : Endpoints → Value → Response → Effect Value
  retrieve at payment_id pay_res = do
    when (leb 400 pay_res.status) (raise (app network_error "Settlement failed"))
    retry ← http_get_with w (at.resource_url) ((x_payment_id_header, payment_id) ∷ [])
    when (not (retry.status == 200)) (raise (app network_error "Retry after settlement failed"))
    pay ← from_outcome (pay_res.json)
    content ← from_outcome (retry.json)
    pure (
        object (
          ("ok", bool true)
          ∷ ("paid", bool true)
          ∷ ("paymentId", payment_id)
          ∷ ("pay", pay)
          ∷ ("data", content)
          ∷ []))

  -- Header, settlement, and the second request.
  unfoldable pub settle_exact : Endpoints → Value → Effect Value
  settle_exact at offer = do
    payment_id ← from_outcome (payment_id_of offer)
    header ← generate_payment_header w offer
    pay_res ← post w (at.pay_endpoint) (pay_body payment_id header offer)
    retrieve at payment_id pay_res

  -- The answer to a challenge.
  unfoldable pub pay_challenge : Bool → Endpoints → Response → Effect Value
  pay_challenge use_streaming at res = do
    offers ← from_outcome (bind_outcome (res.json) (read_offers use_streaming))
    choose (truthy offers.streaming)
        (handle_streaming_payment w (at.resource_url) (at.base) offers.streaming)
        (settle_exact at offers.exact)

  -- What is done with the first answer, by its status.
  unfoldable pub answer_by_status : Bool → Endpoints → Response → Effect Value
  answer_by_status use_streaming at res =
      choose (res.status == 200)
        (do
          content ← from_outcome (res.json)
          pure (object (("ok", bool true) ∷ ("paid", bool false) ∷ ("data", content) ∷ [])))
        (choose (res.status == 402) (pay_challenge use_streaming at res)
          (raise (app network_error "Unexpected status when fetching resource")))

  unfoldable pub fetch_body : Value → Bool → Effect Value
  fetch_body target use_streaming = do
    at ← from_outcome (endpoints target)
    res ← http_get_with w (at.resource_url) []
    answer_by_status use_streaming at res

  unfoldable pub fetch_resource : Value → Bool → Effect Value
  fetch_resource target use_streaming =
      handle_errors unexpected true false (fetch_body target use_streaming)
