-- ===== src/Service.antt =====
-- a2a/a2a-service/host/service.py: the constants of `PaywallService`. The children model its
-- methods.
pub mod Discover
pub mod Choice
pub mod Header
pub mod Streaming
pub mod Fetch
pub mod Format
use cronos_stream.Prelude.{String, ◌≡◌}
use cronos_stream.Python.{Value, null, get, ok}

abbrev pub x402_protocol : String
x402_protocol = "x402"

abbrev pub x_payment_id_header : String
x_payment_id_header = "x-payment-id"

abbrev pub default_settlement_path : String
default_settlement_path = "/api/pay"

-- A member of a result, as the pipeline reads it.
abbrev pub Has : Value → String → Value → Type 0
Has v k member = get v k null ≡ ok member
