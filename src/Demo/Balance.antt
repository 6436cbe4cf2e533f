-- ===== src/Demo/Balance.antt =====
-- demo/cli.py: `get_balance`, which reads the balance out of what scripts/check_balance.py prints.
pub mod Laws
use cronos_stream.Prelude.{String, Bool, Option, none, some, List, [], ◌∷◌, if◌then◌else◌}
use cronos_stream.Python.{Outcome, ok, raised, exception, contains, split_colon, split_lines, strip}
use cronos_stream.Python.Search.Lines.{printed}
use cronos_stream.World.{World}
use cronos_stream.Scripts.Balance.{Wallet, check_balance}

-- `line.split(":")[1].strip()`
unfoldable pub second_piece : String → Outcome String
second_piece line = elim (split_colon line) [
  | none ↦ raised (exception "IndexError")
  | some (before, rest) ↦ elim (split_colon rest) [
    | none ↦ ok (strip rest)
    | some (piece, others) ↦ ok (strip piece)
  ]
]

unfoldable pub find_balance : List String → Outcome String
find_balance [] = ok "Unknown"
find_balance (line ∷ lines) =
    let rest = find_balance lines in
    if contains line "Token Balance" then second_piece line else rest

-- Whatever the script raises is passed over, an interrupt too. `available` says that its module
-- and web3 could be imported.
unfoldable pub get_balance : World → Wallet → Bool → Outcome String
get_balance w wallet available =
    if available
    then find_balance (split_lines (printed (check_balance w wallet []).1))
    else ok "N/A"
