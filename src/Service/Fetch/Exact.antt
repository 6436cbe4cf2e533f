-- ===== src/Service/Fetch/Exact.antt =====
-- The payment on its own of `PaywallService.fetch_resource`: the order of its calls.
use cronos_stream.Prelude.{◌<◌, String, ◌≡◌, ap, ◌∙◌, sym, true, nat_has_eq, [], ◌∷◌, none, arith}
use cronos_stream.Python.{Value, get, Outcome, ok, raised, app, config_error, is_ok, is_ok-value}
use cronos_stream.World.{World, Trace, Response, http_get, http_post, logged}
use mathlib.Core.Path.{subst}
use cronos_stream.Errors.{handle_errors}
use cronos_stream.Service.{Has, x_payment_id_header}
use cronos_stream.Service.Header.{
  generate_payment_header, signed_header, private_key, private_key_variable,
}
use cronos_stream.Service.Fetch.{Endpoints, payment_id_of, pay_body, retrieve, settle_exact}

module _ (w : World) where
  -- What the second half has seen when it returns `v`.
  abbrev pub Retrieved : Endpoints → Value → Response → Trace → Value → Trace → Type 0
  Retrieved at id pay before v after =
      (retry : Response) × (content : Value) × (pay.status < 400)
      × (w.get_reply before at.resource_url ((x_payment_id_header, id) ∷ []) ≡ ok retry)
      × (retry.status ≡ 200)
      × (retry.json ≡ ok content)
      × (after ≡ http_get at.resource_url ((x_payment_id_header, id) ∷ []) ∷ before)
      × Has v "paymentId" id
      × Has v "data" content

  module _ (at : Endpoints) (id : Value) (pay : Response) (past : Trace) where
    abbrev reply : Outcome Response
    reply = w.get_reply past at.resource_url ((x_payment_id_header, id) ∷ [])

    retrieve_asks :
        {v : Value}
        → (retrieve w at id pay past).0 ≡ ok v
        → (is_ok reply ≡ true)
          × (pay.status < 400)
          × ((retrieve w at id pay past).1
              ≡ http_get at.resource_url ((x_payment_id_header, id) ∷ []) ∷ past)
    unfolding retrieve
    retrieve_asks h = ground arith

    retrieve_reads :
        {v : Value} {retry : Response}
        → (retrieve w at id pay past).0 ≡ ok v
        → reply ≡ ok retry
        → (retry.status ≡ 200) × (is_ok (retry.json) ≡ true) × Has v "paymentId" id
    unfolding retrieve get
    retrieve_reads h e = ground arith

    retrieve_gives :
        {v content : Value} {retry : Response}
        → (retrieve w at id pay past).0 ≡ ok v
        → reply ≡ ok retry
        → retry.json ≡ ok content
        → Has v "data" content
    unfolding retrieve get
    retrieve_gives h e f = ground arith

    retrieve-Retrieved :
        {v : Value}
        → (retrieve w at id pay past).0 ≡ ok v
        → Retrieved at id pay past v (retrieve w at id pay past).1
    retrieve-Retrieved h =
        let (answered, accepted, newest) = retrieve_asks h in
        let (retry, e) = is_ok-value reply answered in
        let (good, readable, same) = retrieve_reads h e in
        let (content, f) = is_ok-value (retry.json) readable in
        (retry, content, accepted, e, good, f, newest, same, retrieve_gives h e f)

  module _ (at : Endpoints) (offer : Value) (past : Trace) where
    settle_exact_starts :
        {v : Value}
        → (settle_exact w at offer past).0 ≡ ok v
        → (is_ok (payment_id_of offer) ≡ true)
          × (is_ok (generate_payment_header w offer past).0 ≡ true)
    unfolding settle_exact
    settle_exact_starts h = ground arith

    settle_exact_posts :
        {v id : Value} {header : String}
        → payment_id_of offer ≡ ok id
        → (generate_payment_header w offer past).0 ≡ ok header
        → (settle_exact w at offer past).0 ≡ ok v
        → is_ok (
            w.post_reply
              (generate_payment_header w offer past).1
              at.pay_endpoint
              (pay_body id header offer))
          ≡ true
    unfolding settle_exact
    settle_exact_posts e f h = ground arith

    settle_exact_run :
        {id : Value} {header : String} {pay : Response}
        → payment_id_of offer ≡ ok id
        → (generate_payment_header w offer past).0 ≡ ok header
        → w.post_reply
            (generate_payment_header w offer past).1
            at.pay_endpoint
            (pay_body id header offer)
          ≡ ok pay
        → settle_exact w at offer past
          ≡ retrieve w at id pay (
              http_post at.pay_endpoint (pay_body id header offer)
              ∷ (generate_payment_header w offer past).1)
    unfolding settle_exact
    settle_exact_run e f g = ground arith

    -- A payment on its own that returns a result has settled before it asked again: the newest call
    -- is the second request, with the offer's payment identifier as its header, the call before it
    -- is the one post, to the settlement endpoint, with that identifier, the signed header and the
    -- offer, and was not refused. The second answer has status 200, and its JSON is the result's
    -- "data".
    pub settle_exact_order :
        {v : Value}
        → (settle_exact w at offer past).0 ≡ ok v
        → let mid = (generate_payment_header w offer past).1 in
          (id : Value) × (header : String) × (pay : Response) × (payment_id_of offer ≡ ok id)
          × ((generate_payment_header w offer past).0 ≡ ok header)
          × (w.post_reply mid at.pay_endpoint (pay_body id header offer) ≡ ok pay)
          × Retrieved at id pay
              (http_post at.pay_endpoint (pay_body id header offer) ∷ mid)
              v
              (settle_exact w at offer past).1
    settle_exact_order {v} h =
        let (has_id, signs) = settle_exact_starts h in
        let (id, e) = is_ok-value (payment_id_of offer) has_id in
        let (header, f) = is_ok-value ((generate_payment_header w offer past).0) signs in
        let (pay, g) = is_ok-value _ (settle_exact_posts e f h) in
        let run = settle_exact_run e f g in
        (
          id,
          header,
          pay,
          e,
          f,
          g,
          subst (Retrieved at id pay _ v) (ap (λ p. p.1) (sym run))
              (retrieve-Retrieved at id pay _ (ap (λ p. p.0) (sym run) ∙ h)),
        )

    generate_payment_header_unconfigured :
        w.env private_key_variable ≡ none
        → generate_payment_header w offer past ≡ (
          raised (app config_error "X402_AGENT_PRIVATE_KEY is not set"),
          logged (app config_error "X402_AGENT_PRIVATE_KEY is not set") ∷ past,
        )
    unfolding generate_payment_header handle_errors signed_header private_key
    generate_payment_header_unconfigured unset = ground arith

    -- Without a key in the environment nothing is posted: the exception is the one about the key,
    -- which the decorator of `generate_payment_header` logs and raises again.
    pub settle_exact_unconfigured :
        {id : Value}
        → w.env private_key_variable ≡ none
        → payment_id_of offer ≡ ok id
        → settle_exact w at offer past ≡ (
          raised (app config_error "X402_AGENT_PRIVATE_KEY is not set"),
          logged (app config_error "X402_AGENT_PRIVATE_KEY is not set") ∷ past,
        )
    unfolding settle_exact
    settle_exact_unconfigured unset e =
        let unsigned = generate_payment_header_unconfigured unset in ground arith
