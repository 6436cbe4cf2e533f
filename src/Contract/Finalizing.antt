-- ===== src/Contract/Finalizing.antt =====
-- sequencer/src/service.rs: `finalize_channel` up to its call of the contract, and the signatures
-- that both sides read.
use cronos_stream.Prelude.{
  ℕ, ◌+◌, ◌*◌, ◌≤◌, String, ◌≡◌, ◌⊎◌, code, ◌&&◌, none, some, [], ◌∷◌, ◌++◌, length, ◌==◌,
  nat_has_eq, string_has_eq, arith, if◌then◌else◌,
}
use cronos_stream.Python.{lookup}
use cronos_stream.Sequencer.{
  malformed_signature, Result, success, failure, try_result, Update, Backend, Channels,
  ChannelState,
}
use cronos_stream.Sequencer.Service.{find_channel, finalize_update}
use cronos_stream.Contract.{Bytes, BatchClosure}

-- `strip_prefix("0x").unwrap_or(signature)`
unfoldable pub strip_0x : String → String
strip_0x (String.◌∷◌ a (String.◌∷◌ b rest)) =
    if code a == 48 && code b == 120 then rest else String.◌∷◌ a (String.◌∷◌ b rest)
strip_0x s = s

-- The arguments of the call.
abbrev pub closure_of : Update → Bytes → BatchClosure
closure_of update signature = record {
  channel_id = update.channel_id;
  sequence_number = update.sequence_number;
  timestamp = update.timestamp;
  recipients = update.recipients;
  amounts = update.amounts;
  user_signature = signature;
}

module _ (b : Backend) where
  unfoldable pub parse_signature_bytes : String → Result Bytes
  parse_signature_bytes signature = elim (b.decode_hex (strip_0x signature)) [
    | none ↦ failure (malformed_signature "invalid signature hex")
    | some bytes ↦ success bytes
  ]

  -- The tests, and then the call that is sent.
  unfoldable pub finalize_channel : ℕ → String → Channels → Result BatchClosure
  finalize_channel now id channels = try_result (find_channel b id channels) λ c.
      try_result (finalize_update b now id channels) λ update.
        try_result (parse_signature_bytes c.user_signature)
          λ bytes. success (closure_of update bytes)

  pub finalize_channel_lem :
      (now : ℕ) (id : String) (channels : Channels) (u : ChannelState) (update : Update)
      (bytes : Bytes)
      → lookup id channels ≡ some u
      → finalize_update b now id channels ≡ success update
      → parse_signature_bytes u.user_signature ≡ success bytes
      → finalize_channel now id channels ≡ success (closure_of update bytes)
  unfolding finalize_channel find_channel
  finalize_channel_lem now id channels u update bytes found passed decoded = ground arith

-- The number that bytes write, the highest first, behind `acc`.
abbrev pub big_endian : ℕ → Bytes → ℕ
big_endian acc [] = acc
big_endian acc (x ∷ xs) = big_endian (acc * 256 + x) xs

-- A signature as EIP-2 has it: `r`, an `s` that is at most half the order of the curve, and 27 or 28.
pub record IsCanonical (signature : Bytes) : Type 0 where
  pub r : Bytes
  pub s : Bytes
  pub v : ℕ
  pub parts : signature ≡ r ++ s ++ v ∷ []
  pub r_length : length r ≡ 32
  pub s_length : length s ≡ 32
  pub low :
      big_endian 0 s ≤ 57896044618658097711785492504343953926418782139537452191302581570759080747168
  pub parity : (v ≡ 27) ⊎ (v ≡ 28)
