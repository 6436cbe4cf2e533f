-- ===== src/Contract/Data.antt =====
-- contracts/contracts/StreamChannel.sol: what the contract stores, and what a call may answer.
use cronos_stream.Prelude.{
  ℕ, ◌+◌, ◌-◌, ◌^◌, String, Bool, true, false, List, [], ◌∷◌, ltb, leb, ◌==◌, nat_has_eq,
  if◌then◌else◌,
}

-- A call gives a result, or is reverted and leaves the storage as it was.
pub data Reply (A : Type 0) : Type 0 where
  returned : A → Reply A
  reverted : String → Reply A

infixl 5 ◌>>=◌ ◌>>◌
abbrev pub ◌>>=◌ : {A B : Type 0} → Reply A → (A → Reply B) → Reply B
returned a >>= f = f a
reverted e >>= f = reverted e

abbrev pub ◌>>◌ : {B : Type 0} → Reply (Unit {0}) → Reply B → Reply B
m >> k = m >>= λ _. k

abbrev pub require : Bool → String → Reply (Unit {0})
require true e = returned tt
require false e = reverted e

-- `+` and `-` on `uint256`, which are checked.
unfoldable pub checked_add : ℕ → ℕ → Reply ℕ
checked_add a b = if ltb (a + b) (2 ^ 256) then returned (a + b) else reverted "Panic(0x11)"

unfoldable pub checked_sub : ℕ → ℕ → Reply ℕ
checked_sub a b = if leb b a then returned (a - b) else reverted "Panic(0x11)"

-- `Channel`, without the mapping `balances`, which `delete` leaves.
pub record Channel : Type 0 where
  pub owner : ℕ
  pub balance : ℕ
  pub expiry_time : ℕ
  pub sequence_number : ℕ
  pub recipients : List ℕ

abbrev pub no_channel : Channel
no_channel = record {
  owner = 0;
  balance = 0;
  expiry_time = 0;
  sequence_number = 0;
  recipients = [];
}

-- The mapping `channels`: what is not listed is zero.
unfoldable pub channel_at : List (ℕ × Channel) → ℕ → Channel
channel_at [] id = no_channel
channel_at (e ∷ es) id = if e.0 == id then e.1 else channel_at es id

unfoldable pub put : ℕ → Channel → List (ℕ × Channel) → List (ℕ × Channel)
put id c [] = (id, c) ∷ []
put id c (e ∷ es) = if e.0 == id then (id, c) ∷ es else e ∷ put id c es

-- The calls of the token that did not revert.
pub data Transfer : Type 0 where
  transfer_from : (owner amount : ℕ) → Transfer
  transfer : (to amount : ℕ) → Transfer

pub record Storage : Type 0 where
  pub channels : List (ℕ × Channel)
  pub balances : ℕ → ℕ → ℕ
  pub user_channels : ℕ → List ℕ
  pub transfers : List Transfer

-- A write of a mapping.
abbrev pub assign {ℓ} : {A : Type ℓ} → ℕ → A → (ℕ → A) → ℕ → A
assign k v f j = if k == j then v else f j

-- `bytes`, each a number below 256.
abbrev pub Bytes : Type 0
Bytes = List ℕ

-- `BatchClosure`
pub record BatchClosure : Type 0 where
  pub channel_id : ℕ
  pub sequence_number : ℕ
  pub timestamp : ℕ
  pub recipients : List ℕ
  pub amounts : List ℕ
  pub user_signature : Bytes
