-- ===== src/Scripts/Balance.antt =====
-- scripts/check_balance.py: what the account holds, printed.
use cronos_stream.Prelude.{
  ℕ, String, ◌<>◌, none, some, List, [], ◌∷◌, ◌++◌, ◌==◌, nat_has_eq, string_has_eq,
}
use cronos_stream.Prelude.Int.{pos}
use cronos_stream.Python.{
  Outcome, Exn, Action, from_outcome, ◌>>=◌, ◌>>◌, modify, choose, catch, str_int,
}
use cronos_stream.World.{World}

-- The chain's answers at the moment, with the text of an amount in TCRO, the text of a quotient
-- of two integers, which may be too large for a float, and the text of an exception.
pub record Wallet : Type 0 where
  pub native : String → Outcome String
  pub symbol : Outcome String
  pub decimals : Outcome ℕ
  pub raw : String → Outcome ℕ
  pub divided : ℕ → ℕ → Outcome String
  pub message : Exn → String

-- The state is the lines printed so far.
abbrev pub print : String → Action (List String) (Unit {0})
print line = modify (λ lines. lines ++ (line ∷ []))

abbrev pub address_line : String → String
address_line address = "Address: " <> address

abbrev pub native_line : String → String
native_line balance = "Native Balance: " <> (balance <> " TCRO")

abbrev pub token_line : String → String → String
token_line balance symbol = "Token Balance:  " <> (balance <> (" " <> symbol))

module _ (w : World) (wallet : Wallet) where
  -- The `try` block.
  unfoldable pub print_token : String → Action (List String) (Unit {0})
  print_token address = do
    symbol ← from_outcome (wallet.symbol)
    decimals ← from_outcome (wallet.decimals)
    raw ← from_outcome (wallet.raw address)
    balance ← from_outcome (wallet.divided raw decimals)
    print (token_line balance symbol)
    print ("Raw Token Bal:  " <> str_int (pos raw))

  unfoldable pub print_balances : String → Action (List String) (Unit {0})
  print_balances key = do
    address ← from_outcome (w.account_of key)
    print "--- Wallet Check ---"
    print (address_line address)
    balance ← from_outcome (wallet.native address)
    print (native_line balance)
    catch (print_token address) (λ e. print ("Error checking USDC: " <> wallet.message e))

  -- `main`
  unfoldable pub check_balance : Action (List String) (Unit {0})
  check_balance = elim (w.env "X402_AGENT_PRIVATE_KEY") as (λ _. Action (List String) (Unit {0})) [
    | none ↦ print "Error: X402_AGENT_PRIVATE_KEY not found in .env"
    | some key ↦
        choose (key == "") (print "Error: X402_AGENT_PRIVATE_KEY not found in .env")
          (print_balances key)
  ]
