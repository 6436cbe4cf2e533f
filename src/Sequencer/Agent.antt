-- ===== src/Sequencer/Agent.antt =====
-- The agent's `ChannelManager` and the sequencer's record of the same channel, side by side.
pub mod Books
pub mod Signing
pub mod Request
pub mod Accepted
pub mod Entered
pub mod Synced
use cronos_stream.Prelude.{ℕ, ◌+◌, ◌^◌, ◌<◌, String, ◌≡◌, ◌≢◌, none, some, List, [], ◌∷◌, map}
use cronos_stream.Prelude.Int.{ℤ, pos}
use cronos_stream.Python.{Dict, text, int, ok, NodupKeys}
use cronos_stream.World.{World, Trace, TypedData}
use cronos_stream.Channel.{Manager, channel_types}
use cronos_stream.Sequencer.{RecipientBalance, ChannelState, success, Update, Backend}

module _ (b : Backend) where
  -- Two lists of addresses, the agent's in text.
  abbrev pub SameAddresses : List String → List ℕ → Type 0
  SameAddresses [] [] = Unit
  SameAddresses (k ∷ ks) (a ∷ rest) = (b.address_from_str k ≡ some a) × SameAddresses ks rest
  SameAddresses _ _ = ⊥

  -- The agent's totals are the sequencer's balances, in the same order.
  abbrev pub SameBooks : Dict ℤ → List RecipientBalance → Type 0
  SameBooks [] [] = Unit
  SameBooks (e ∷ d) (r ∷ rs) =
      (b.address_from_str e.0 ≡ some r.recipient_address) × (e.1 ≡ pos r.balance) × SameBooks d rs
  SameBooks _ _ = ⊥

  -- The agent spells each address in one way only.
  abbrev pub OneSpelling : String → ℕ → Dict ℤ → Type 0
  OneSpelling k a [] = Unit
  OneSpelling k a (e ∷ d) = (b.address_from_str e.0 ≡ some a → e.0 ≡ k) × OneSpelling k a d

  -- A document says of a channel what an update says.
  pub record Encodes (doc : TypedData) (u : Update) : Type 0 where
    pub types : doc.types ≡ channel_types
    pub primary_type : doc.primary_type ≡ "ChannelData"
    pub domain_name : doc.domain_name ≡ "StreamChannel"
    pub domain_version : doc.domain_version ≡ "1"
    pub chain : doc.chain_id ≡ pos u.chain_id
    pub contract : b.address_from_str doc.verifying_contract ≡ some u.verifying_contract
    pub channel : b.b256_from_str doc.channel_id ≡ some u.channel_id
    pub number : doc.sequence_number ≡ int (pos u.sequence_number)
    pub time : doc.timestamp ≡ pos u.timestamp
    pub recipients : SameAddresses doc.recipients u.recipients
    pub amounts : doc.amounts ≡ map pos u.amounts

  -- A signature of the agent's account is recovered, from the update that the signed document
  -- encodes, as the owner: what EIP-712 promises.
  abbrev pub SignsAs : World → ℕ → Type 0
  SignsAs w owner =
      (past : Trace) (doc : TypedData) (u : Update) (sig : String)
      → Encodes doc u
      → w.signature past doc ≡ ok sig
      → (sig ≢ "") × (b.recover u sig ≡ success owner)

  -- `key` is how the agent spells an address that the sequencer has written: the checksummed text,
  -- which is read back.
  abbrev pub Spells : World → (ℕ → String) → ℕ → Type 0
  Spells w key a =
      (b.hex_address a ≢ "")
      × (w.checksum (text (b.hex_address a)) ≡ ok (key a))
      × (b.address_from_str (key a) ≡ some a)

  abbrev pub AllSpelt : World → (ℕ → String) → List RecipientBalance → Type 0
  AllSpelt w key [] = Unit
  AllSpelt w key (r ∷ rs) = Spells w key r.recipient_address × AllSpelt w key rs

  -- The agent and the sequencer agree on a channel.
  pub record Agrees (m : Manager) (c : ChannelState) : Type 0 where
    pub channel : b.b256_from_str m.channel_id ≡ some c.channel_id
    pub chain : m.chain_id ≡ pos b.chain_id
    pub contract : b.address_from_str m.contract_address ≡ some b.channel_manager
    pub number : m.sequence_number ≡ int (pos c.sequence_number)
    pub distinct : NodupKeys m.cumulative_amounts
    pub books : SameBooks m.cumulative_amounts c.recipients
