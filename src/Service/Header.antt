-- ===== src/Service/Header.antt =====
-- `PaywallService.generate_payment_header`. The signing itself is the facilitator client's.
use cronos_stream.Prelude.{String, true, none, some, ◌==◌, string_has_eq, if◌then◌else◌}
use cronos_stream.Prelude.Int.{pos, ◌+ℤ◌}
use cronos_stream.Python.{
  Value, int, get, index, to_int, Outcome, ok, raised, app, config_error, bind_outcome,
  from_outcome, ◌>>=◌,
}
use cronos_stream.World.{World, Effect, perform, facilitate, read_clock}
use cronos_stream.Errors.{handle_errors}

abbrev pub private_key_variable : String
private_key_variable = "X402_AGENT_PRIVATE_KEY"

-- `os.getenv("X402_AGENT_PRIVATE_KEY")`, where the empty text counts as unset.
unfoldable pub private_key : World → Outcome String
private_key w = elim (w.env private_key_variable) [
  | none ↦ raised (app config_error "X402_AGENT_PRIVATE_KEY is not set")
  | some key ↦
      if key == "" then raised (app config_error "X402_AGENT_PRIVATE_KEY is not set") else ok key
]

unfoldable pub signed_header : World → Value → Effect String
unfolding private_key
signed_header w accepts = do
  key ← from_outcome (private_key w)
  account ← from_outcome (w.account_of key)
  now ← read_clock w
  timeout ← from_outcome (bind_outcome (get accepts "maxTimeoutSeconds" (int (pos 300))) to_int)
  pay_to ← from_outcome (index accepts "payTo")
  value ← from_outcome (index accepts "maxAmountRequired")
  let valid_before = now +ℤ timeout
  perform (facilitate pay_to value valid_before)
      (λ past. w.payment_header past pay_to value valid_before)

unfoldable pub generate_payment_header : World → Value → Effect String
generate_payment_header w accepts = handle_errors "" true true (signed_header w accepts)
