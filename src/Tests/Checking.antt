-- ===== src/Tests/Checking.antt =====
-- The checking scripts in the small world.
use cronos_stream.Prelude.{
  ℕ, ◌+◌, ◌<◌, String, ◌≡◌, ◌≢◌, refl, true, [], ◌∷◌, nat_has_eq, string_has_eq,
}
use cronos_stream.Prelude.Int.{pos, int_has_eq}
use cronos_stream.Python.{
  Value, int, text, object, array, get, index, as_text, length_of, subscript, to_int, ok,
  bind_outcome, contains, strip,
}
use cronos_stream.Python.Search.Lines.{has_break, has_colon}
use cronos_stream.World.{Response, http_post, receipt_of}
use cronos_stream.Service.{x402_protocol}
use cronos_stream.Service.Choice.{
  chosen_target, choose_agent, choose_resource, or_invalid, resources_of, protocol_of,
  with_resource,
}
use cronos_stream.Scripts.Balance.{Wallet}
use cronos_stream.Scripts.Planning.{chosen_agent}
use cronos_stream.Scripts.Planning.Laws.{chosen_agent-chosen_target}
use cronos_stream.Scripts.Settling.{
  received, Balances, finalize_request, compare_balances, report_receipt, wait_for_settlement,
  report_finalized, verify_settlement,
}
use cronos_stream.Scripts.Settling.Laws.{finalize_url, finalize_body, verify_settlement-received}
use cronos_stream.Demo.Balance.{get_balance}
use cronos_stream.Demo.Balance.Laws.{get_balance-check_balance}
use cronos_stream.Tests.{demo}

abbrev wallet : Wallet
wallet = record {
  native = λ address. ok "0.5";
  symbol = ok "USDC";
  decimals = ok 6;
  raw = λ address. ok 1500000;
  divided = λ n k. ok "1.5";
  message = λ e. "error";
}

keyed : ◌≢◌ {A = String} "0xkey" ""
keyed h = cc

shown : strip "  1.5 USDC" ≡ "1.5 USDC"
unfolding strip
shown = refl

get_balance-check_balance_example : get_balance demo wallet true ≡ ok (strip "  1.5 USDC")
unfolding has_break has_colon contains
get_balance-check_balance_example =
    get_balance-check_balance demo wallet {decimals = 6} {raw = 1500000} refl keyed refl refl refl
      refl refl refl (refl, refl) (refl, refl) refl refl refl refl

abbrev resource : Value
resource =
    object (("url", text "/r") ∷ ("paywall", object (("protocol", text x402_protocol) ∷ [])) ∷ [])

abbrev agent : Value
agent =
    object
      (("name", text "shop") ∷ ("card", object (("resources", array (resource ∷ [])) ∷ [])) ∷ [])

abbrev choice : Value
choice = object (("agentIndex", int (pos 0)) ∷ ("resourceIndex", int (pos 0)) ∷ [])

abbrev target : Value
target = object (
    ("name", text "shop")
    ∷ ("card", object (("resources", array (resource ∷ [])) ∷ []))
    ∷ ("resource", resource)
    ∷ [])

chosen : chosen_target (agent ∷ []) choice ≡ ok target
unfolding chosen_target choose_agent choose_resource or_invalid index to_int subscript resources_of
    get length_of protocol_of with_resource
chosen = refl

picked : index choice "agentIndex" ≡ ok (int (pos 0))
unfolding index
picked = refl

chosen_agent-chosen_target_example :
    bind_outcome (chosen_agent (agent ∷ []) choice) (λ a. index a "name") ≡ index target "name"
chosen_agent-chosen_target_example =
    chosen_agent-chosen_target (agent ∷ []) choice (pos 0) target picked chosen

-- The merchant has 5 at first, and 30 behind the two calls.
abbrev merchant_balance : Balances
merchant_balance [] = ok 5
merchant_balance (c ∷ past) = ok 30

settled :
    verify_settlement demo merchant_balance []
    ≡ (ok (received 25), receipt_of "0xh" ∷ http_post finalize_url finalize_body ∷ [])
unfolding verify_settlement finalize_request report_finalized wait_for_settlement report_receipt
    compare_balances get as_text
settled = refl

verify_settlement-received_example :
    (res : Response) × (answer : Value) × (hash : String) × (before : ℕ) × (receipt_of "0xh"
        ∷ http_post finalize_url finalize_body
        ∷ []
      ≡ receipt_of hash ∷ http_post finalize_url finalize_body ∷ [])
    × (demo.post_reply [] finalize_url finalize_body ≡ ok res)
    × (res.status ≡ 200)
    × (res.json ≡ ok answer)
    × (get answer "transactionHash" Value.null ≡ ok (text hash))
    × (demo.receipt_status (http_post finalize_url finalize_body ∷ []) hash ≡ ok (pos 1))
    × (ok 5 ≡ ok before)
    × (ok 30 ≡ ok (before + 25))
    × (0 < 25)
verify_settlement-received_example =
    verify_settlement-received demo merchant_balance []
      (receipt_of "0xh" ∷ http_post finalize_url finalize_body ∷ []) 25 settled
