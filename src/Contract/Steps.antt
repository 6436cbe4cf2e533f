-- ===== src/Contract/Steps.antt =====
-- The life of the contract: any calls in any order, and what holds through all of them.
use cronos_stream.Prelude.{ℕ, ◌<◌, ◌≡◌, sym, List, [], ◌∷◌, arith, map, nat_has_eq}
use mathlib.Core.Path.{subst}
use cronos_stream.Contract.{
  Bytes, returned, channel_at, transfer_from, Storage, BatchClosure, Deployment, Message,
  pay_and_close, validate_and_close_channel, final_close_by_sequencer, close_batch,
  final_close_by_sequencer_batch, close_after_expiry_by_anyone, update_channel_balances,
  publish_intermediate_channel_state, enter_channel, open_channel,
}
use cronos_stream.Contract.Effects.{>>=-eq-returned, validate-closes, publish-updates, open-enters}

-- The storage of a new contract.
abbrev pub empty : Storage
empty = record { channels = []; balances = λ id r. 0; user_channels = λ owner. []; transfers = [] }

-- The transactions that succeed; one that is reverted changes nothing.
pub data Step (d : Deployment) : Storage → Storage → Type 0 where
  opens :
      (msg : Message) (amount expiry_time timestamp : ℕ) (signature : Bytes) {s s' : Storage}
      → open_channel d msg amount expiry_time timestamp signature s ≡ returned s'
      → Step d s s'
  publishes :
      (msg : Message) (b : BatchClosure) (signature : Bytes) {s s' : Storage}
      → publish_intermediate_channel_state d msg b signature s ≡ returned s'
      → Step d s s'
  closes :
      (msg : Message) (b : BatchClosure) {s s' : Storage}
      → final_close_by_sequencer d msg b s ≡ returned s'
      → Step d s s'
  closes_batch :
      (msg : Message) (batch : List BatchClosure) {s s' : Storage}
      → final_close_by_sequencer_batch d msg batch s ≡ returned s'
      → Step d s s'
  expires :
      (msg : Message) (id : ℕ) {s s' : Storage}
      → close_after_expiry_by_anyone d msg id s ≡ returned s'
      → Step d s s'

pub data Reach (d : Deployment) (start : Storage) : Storage → Type 0 where
  here : Reach d start start
  next : {s t : Storage} → Reach d start s → Step d s t → Reach d start t

-- What the three writes of the storage keep holds after any calls.
module _ (d : Deployment) (P : Storage → Type 0)
    (closing : (id : ℕ) (rs amounts : List ℕ) (s s' : Storage)
      → P s
      → pay_and_close d id rs amounts s ≡ returned s'
      → P s')
    (writing : (b : BatchClosure) (s s' : Storage)
      → P s
      → update_channel_balances d b s ≡ returned s'
      → P s')
    (entering : (id owner amount expiry_time : ℕ) (s : Storage)
      → P s
      → (channel_at s.channels id).expiry_time ≡ 0
      → 0 < expiry_time
      → P (
          enter_channel d id owner amount expiry_time
            (record s { transfers = transfer_from owner amount ∷ s.transfers }))) where
  close_batch-preserves :
      (msg : Message) (batch : List BatchClosure) (s : Storage) {s' : Storage}
      → P s
      → close_batch d msg batch s ≡ returned s'
      → P s'
  unfolding close_batch
  close_batch-preserves msg [] s {s'} inv h = subst P {x = s} {y = s'} (ground arith) inv
  close_batch-preserves msg (b ∷ batch) s inv h =
      let (t, p, h') = >>=-eq-returned (validate_and_close_channel d msg b s) _ h in
      close_batch-preserves msg batch t
        (closing b.channel_id b.recipients b.amounts s t inv (validate-closes d msg b s p)) h'

  Step-preserves : {s t : Storage} → Step d s t → P s → P t
  unfolding final_close_by_sequencer final_close_by_sequencer_batch close_after_expiry_by_anyone
  Step-preserves (opens msg amount expiry_time timestamp signature {s} h) inv =
      let (gone, later, entered) = open-enters d msg amount expiry_time timestamp signature s h in
      let id = d.channel_id_of msg.sender expiry_time amount in
      subst P (sym entered)
        (entering id msg.sender amount expiry_time s inv gone (omega (arith, later)))
  Step-preserves (publishes msg b signature {s} {s'} h) inv =
      writing b s s' inv (publish-updates d msg b signature s h)
  Step-preserves (closes msg b {s} {s'} h) inv =
      closing b.channel_id b.recipients b.amounts s s' inv
        (validate-closes d msg b s (ground arith))
  Step-preserves (closes_batch msg batch {s} h) inv =
      close_batch-preserves msg batch s inv (ground arith)
  Step-preserves (expires msg id {s} {s'} h) inv =
      let c = channel_at s.channels id in
      closing id c.recipients (map (s.balances id) c.recipients) s s' inv (ground arith)

  pub Reach-preserves : {s t : Storage} → P s → Reach d s t → P t
  Reach-preserves inv here = inv
  Reach-preserves inv (next r step) = Step-preserves step (Reach-preserves inv r)
