-- ===== src/Tests.antt =====
-- Runs in a small world, and the theorems at concrete data.
mod Vouchers
mod Opening
mod Fetching
mod Requests
mod Demonstration
mod Closing
mod Sequencing
mod Contracting
mod Agreement
mod Benchmarking
mod Synchronising
mod Scripting
mod Checking
mod Entitling
use cronos_stream.Prelude.{
  String, ◌<>◌, Bool, true, false, Option, none, some, List, [], ◌∷◌, ◌==◌, string_has_eq,
  if◌then◌else◌,
}
use cronos_stream.Prelude.Int.{ℤ, pos}
use cronos_stream.Python.{
  Dict, Value, null, bool, int, text, object, array, Outcome, ok, raised, exception, as_text,
  bind_outcome,
}
use cronos_stream.World.{World, Response}
use cronos_stream.Channel.{Manager, Session}

abbrev offer : Value
offer = object (
    ("scheme", text "exact")
    ∷ ("payTo", text "0xM")
    ∷ ("maxAmountRequired", text "100")
    ∷ ("extra", object (("paymentId", text "p1") ∷ []))
    ∷ [])

-- The resource answers 402, and 200 behind a payment's identifier.
abbrev resource_reply : String → Dict Value → Response
resource_reply url [] = record {
  status = 402;
  json = ok (object (("accepts", array (offer ∷ [])) ∷ []));
  body = "";
}
resource_reply url (header ∷ more) = record {
  status = 200;
  json = ok (text "content");
  body = "content";
}

abbrev receipt : Value
receipt = object (("transactionHash", text "0xh") ∷ [])

-- Every call succeeds; the sequencer answers 404.
abbrev demo : World
demo = record {
  env = λ k. if k == "X402_AGENT_PRIVATE_KEY" then some "0xkey" else none;
  repr = λ v. "value";
  account_of = λ key. ok "0xU";
  checksum = as_text;
  refuse_recipient = λ v. exception "TypeError";
  get_reply = λ past url headers.
      if url == "seq/channel/0xC"
      then ok (record { status = 404; json = raised (exception "JSONDecodeError"); body = "" })
      else ok (resource_reply url headers);
  post_reply = λ past url body. ok (record { status = 200; json = ok receipt; body = "" });
  now = λ past. pos 1000;
  random_hex = λ past. "ff";
  has_state_file = λ past. false;
  stored_channel_id = λ past. ok none;
  save_reply = λ past. ok tt;
  predicted_id = λ past owner expiry amount. ok "D";
  allowance = λ past owner spender. ok (pos 0);
  nonce = λ past account. ok (pos 7);
  price = λ past. ok (pos 1);
  send_reply = λ past tx. ok "0xhash";
  receipt_status = λ past hash. ok (pos 1);
  signature = λ past document. ok "0xsig";
  signature_by = λ past account document. ok ("0xsig" <> account);
  payment_header = λ past pay_to value valid_before. ok "header";
  chat_reply = λ past model messages. ok (text "null");
  json_loads = λ s.
      if s == "{\"query\": \"q\"}"
      then ok (object (("query", text "q") ∷ []))
      else raised (exception "JSONDecodeError");
  json_dumps = λ v. "{}";
}

abbrev manager : Manager
manager = record {
  channel_id = "0xC";
  owner = "0xU";
  contract_address = "0xE";
  chain_id = pos 338;
  usdc_address = "0xT";
  sequence_number = int (pos 4);
  cumulative_amounts = ("0xA", pos 10) ∷ ("0xB", pos 20) ∷ [];
}

abbrev start : Session
start = record { manager = manager; trace = [] }
