-- ===== src/Scripts/Listing.antt =====
-- scripts/list_open_channels.py: the list of the account's channels with their states.
pub mod Laws
use cronos_stream.Prelude.{
  ℕ, zero, suc, ◌+◌, String, true, false, none, some, List, [], ◌∷◌, ◌++◌, ◌==◌, string_has_eq,
  if◌then◌else◌,
}
use cronos_stream.Prelude.Int.{ℤ, pos, ltb_ℤ}
use cronos_stream.Python.{
  Outcome, Action, pure, from_outcome, ◌>>=◌, ◌>>◌, modify, choose, catch, raised, ok,
}
use cronos_stream.World.{World, Trace}
use cronos_stream.CloseAll.{Stored, Views}

-- A printed line.
pub record Row : Type 0 where
  pub index : ℕ
  pub status : String
  pub channel : String
  pub stored : Stored

unfoldable pub listed_status : Stored → ℤ → String
listed_status c now =
    if ltb_ℤ (pos 0) c.balance
    then (if ltb_ℤ c.expiry now then "EXPIRED (Funds Locked)" else "OPEN")
    else "CLOSED/EMPTY"

-- The state is the lines printed so far. The contract is asked at the moment `past`.
module _ (views : Views) (past : Trace) where
  -- The rounds from `i` on, `k` of them.
  unfoldable pub list_from : String → ℤ → ℕ → ℕ → Action (List Row) (Unit {0})
  list_from user now zero i = pure tt
  list_from user now (suc k) i = do
    channel ← from_outcome (views.channel_at user i)
    c ← from_outcome (views.stored past channel)
    modify λ rows.
        rows
        ++ (record { index = i; status = listed_status c now; channel = channel; stored = c } ∷ [])
    list_from user now k (suc i)

  -- The `try` block and its handler, which prints.
  unfoldable pub list_channels : String → ℤ → Action (List Row) (Unit {0})
  list_channels user now =
      catch (do count ← from_outcome (views.channel_count user); list_from user now count 0)
        (λ e. pure tt)

-- `main`. What the contract holds in all is asked outside the `try` block.
unfoldable pub list_main : World → Views → Outcome ℤ → Trace → ℤ → Action (List Row) (Unit {0})
list_main w views contract_balance past now =
    elim (w.env "X402_AGENT_PRIVATE_KEY") as (λ _. Action (List Row) (Unit {0})) [
      | none ↦ pure tt
      | some key ↦ choose (key == "") (pure tt) (do
        user ← from_outcome (w.account_of key)
        balance ← from_outcome contract_balance
        list_channels views past user now)
    ]
