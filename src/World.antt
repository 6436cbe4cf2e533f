-- ===== src/World.antt =====
-- What the program reaches outside itself: HTTP, the clock, the environment, the state file, the
-- chain, the signer and the language model. None of it is implemented here. A `World` answers each
-- call from the calls made before it, so it may answer the same call differently later on, and
-- every reply may be an exception.
use cronos_stream.Prelude.{ℕ, String, Bool, Option, List, [], ◌∷◌}
use cronos_stream.Prelude.Int.{ℤ}
use cronos_stream.Python.{Dict, Value, Outcome, Action, Exn}

-- An httpx or requests response: the status, what `.json()` gives, and `.text`.
pub record Response : Type 0 where
  pub status : ℕ
  pub json : Outcome Value
  pub body : String

-- The EIP-712 document that a signature is made of.
pub record TypedData : Type 0 where
  pub types : Dict (Dict String)
  pub domain_name : String
  pub domain_version : String
  pub chain_id : ℤ
  pub verifying_contract : String
  pub primary_type : String
  pub channel_id : String
  pub sequence_number : Value
  pub timestamp : ℤ
  pub recipients : List String
  pub amounts : List ℤ

-- The contract functions that the program sends a transaction for.
pub data ContractCall : Type 0 where
  approve : (spender : String) (amount : ℤ) → ContractCall
  open_channel : (amount expiry timestamp : ℤ) (signature : String) → ContractCall
  final_close :
      (channel_id : String) (sequence timestamp : ℤ) (recipients : List String) (amounts : List ℤ)
      (signature : String)
      → ContractCall

pub record Transaction : Type 0 where
  pub contract : String
  pub function : ContractCall
  pub sender : String
  pub nonce : ℤ
  pub gas : Option ℕ
  pub gas_price : ℤ

pub data Call : Type 0 where
  http_get : (url : String) (headers : Dict Value) → Call
  http_post : (url : String) (json : Value) → Call
  clock : Call
  token_hex : Call
  state_file_exists : Call
  read_state_file : Call
  write_state_file : (channel_id : String) → Call
  channel_id_of : (owner : String) (expiry amount : ℤ) → Call
  allowance_of : (owner spender : String) → Call
  transaction_count : (account : String) → Call
  gas_price : Call
  send : Transaction → Call
  receipt_of : (hash : String) → Call
  sign : TypedData → Call
  sign_as : (account : String) → TypedData → Call
  facilitate : (pay_to value : Value) (valid_before : ℤ) → Call
  chat : (model : String) (messages : List (String × String)) → Call
  logged : Exn → Call

-- The calls so far, the newest first.
abbrev pub Trace : Type 0
Trace = List Call

-- `signature` is that of the account that the agent keeps, and `signature_by` that of an account
-- which is made from a key when it signs.
pub record World : Type 0 where
  pub env : String → Option String
  pub repr : Value → String
  pub account_of : String → Outcome String
  pub checksum : Value → Outcome String
  pub refuse_recipient : Value → Exn
  pub get_reply : Trace → String → Dict Value → Outcome Response
  pub post_reply : Trace → String → Value → Outcome Response
  pub now : Trace → ℤ
  pub random_hex : Trace → String
  pub has_state_file : Trace → Bool
  pub stored_channel_id : Trace → Outcome (Option String)
  pub save_reply : Trace → Outcome (Unit {0})
  pub predicted_id : Trace → String → ℤ → ℤ → Outcome String
  pub allowance : Trace → String → String → Outcome ℤ
  pub nonce : Trace → String → Outcome ℤ
  pub price : Trace → Outcome ℤ
  pub send_reply : Trace → Transaction → Outcome String
  pub receipt_status : Trace → String → Outcome ℤ
  pub signature : Trace → TypedData → Outcome String
  pub signature_by : Trace → String → TypedData → Outcome String
  pub payment_header : Trace → Value → Value → ℤ → Outcome String
  pub chat_reply : Trace → String → List (String × String) → Outcome Value
  pub json_loads : String → Outcome Value
  pub json_dumps : Value → String

-- An action that makes calls and keeps no other state.
abbrev pub Effect : Type 0 → Type 0
Effect = Action Trace

abbrev pub perform : {A : Type 0} → Call → (Trace → Outcome A) → Effect A
perform call reply past = (reply past, call ∷ past)

module _ (w : World) where
  abbrev pub http_get_with : String → Dict Value → Effect Response
  http_get_with url headers = perform (http_get url headers) (λ past. w.get_reply past url headers)

  abbrev pub post : String → Value → Effect Response
  post url json = perform (http_post url json) (λ past. w.post_reply past url json)

  -- `int(time.time())`
  abbrev pub read_clock : Effect ℤ
  read_clock = perform clock (λ past. Outcome.ok (w.now past))

  abbrev pub sign_data : TypedData → Effect String
  sign_data document = perform (sign document) (λ past. w.signature past document)

  abbrev pub sign_by : String → TypedData → Effect String
  sign_by account document =
      perform (sign_as account document) (λ past. w.signature_by past account document)

  abbrev pub wait_for_receipt : String → Effect ℤ
  wait_for_receipt hash = perform (receipt_of hash) (λ past. w.receipt_status past hash)

-- The posts of a trace, the newest first.
abbrev pub posts : Trace → List (String × Value)
posts [] = []
posts (http_post url json ∷ past) = (url, json) ∷ posts past
posts (_ ∷ past) = posts past

-- The transactions of a trace, the newest first.
abbrev pub sent : Trace → List Transaction
sent [] = []
sent (send tx ∷ past) = tx ∷ sent past
sent (_ ∷ past) = sent past
