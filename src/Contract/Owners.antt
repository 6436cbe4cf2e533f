-- ===== src/Contract/Owners.antt =====
-- The lists of `userChannels`, from which the agent's scripts learn which channels there are.
use cronos_stream.Prelude.{
  ℕ, suc, ◌+◌, ◌-◌, ◌<◌, ◌≡◌, refl, List, [], ◌∷◌, ◌++◌, arith, ◌==◌, nat_has_eq, if◌then◌else◌,
}
use mathlib.Core.Path.{subst}
use cronos_stream.Contract.{
  returned, no_channel, Channel, channel_at, put, transfer_from, Storage, BatchClosure, Deployment,
  set_balances, last_of, without_last, remove_channel, close_and_cleanup_channel,
  distribute_channel_funds, return_rest, pay_and_close, update_channel_balances, enter_channel,
  assign, deploy,
}
use cronos_stream.Contract.Steps.{empty, Reach, Reach-preserves}
use cronos_stream.Contract.Effects.{>>=-eq-returned}
use cronos_stream.Contract.Conservation.{channel_at-put}

-- How often an identifier stands in a list.
abbrev pub count : ℕ → List ℕ → ℕ
count id [] = 0
count id (x ∷ xs) = if x == id then suc (count id xs) else count id xs

-- Each owner's list has the channels that are there and are the owner's, each of them once.
abbrev pub IsListed : Storage → Type 0
IsListed s =
    (owner id : ℕ)
    → let c = channel_at s.channels id in
      count id (s.user_channels owner)
      ≡ (if c.expiry_time == 0 then 0 else if c.owner == owner then 1 else 0)

count-append :
    (id : ℕ) (xs : List ℕ) (y : ℕ)
    → count id (xs ++ (y ∷ [])) ≡ count id xs + (if y == id then 1 else 0)
count-append id [] y = ground arith
count-append id (x ∷ xs) y = ground (arith, count-append id xs y)

count-last_of :
    (id y : ℕ) (ys : List ℕ) → count id (last_of y ys ∷ without_last y ys) ≡ count id (y ∷ ys)
unfolding last_of without_last
count-last_of id y [] = refl
count-last_of id y (z ∷ zs) = ground (arith, count-last_of id z zs)

-- One occurrence goes, and no other identifier is touched.
count-remove_channel :
    (id j : ℕ) (xs : List ℕ)
    → count j (remove_channel id xs) ≡ (if id == j then count j xs - 1 else count j xs)
unfolding remove_channel
count-remove_channel id j [] = ground arith
count-remove_channel id j (x ∷ []) = ground arith
count-remove_channel id j (x ∷ y ∷ ys) =
    ground (arith, count-last_of j y ys, count-remove_channel id j (y ∷ ys))

empty-IsListed : IsListed empty
unfolding channel_at
empty-IsListed owner id = refl

module _ (d : Deployment) where
  pay_and_close-IsListed :
      (id : ℕ) (rs amounts : List ℕ) (s s' : Storage)
      → IsListed s
      → pay_and_close d id rs amounts s ≡ returned s'
      → IsListed s'
  unfolding pay_and_close close_and_cleanup_channel
  pay_and_close-IsListed id rs amounts s s' inv h =
      let c = channel_at s.channels id in
      let (left, distributed, h') =
        >>=-eq-returned (distribute_channel_funds d rs amounts c.balance s.transfers) _ h in
      let (paid, rest, h'') = >>=-eq-returned (return_rest d c.owner left.0 left.1) _ h' in
      let closed = close_and_cleanup_channel id (record s { transfers = paid }) in
      let is_closed : closed ≡ s' = ground arith in
      subst IsListed is_closed λ owner j. ground (
        arith,
        inv owner j,
        channel_at-put id j no_channel s.channels,
        count-remove_channel id j (s.user_channels c.owner),
      )

  update_channel_balances-IsListed :
      (b : BatchClosure) (s s' : Storage)
      → IsListed s
      → update_channel_balances d b s ≡ returned s'
      → IsListed s'
  unfolding update_channel_balances
  update_channel_balances-IsListed b s s' inv h =
      let c = channel_at s.channels b.channel_id in
      let c' : Channel = record c {
        sequence_number = b.sequence_number;
        recipients = b.recipients;
      } in
      let (amounts, p, h') =
        >>=-eq-returned (set_balances b.recipients b.amounts (s.balances b.channel_id)) _ h in
      let written : Storage = record s {
        channels = put b.channel_id c' s.channels;
        balances = assign b.channel_id amounts s.balances;
      } in
      let is_written : written ≡ s' = ground arith in
      subst IsListed is_written
        λ owner j. ground (arith, inv owner j, channel_at-put b.channel_id j c' s.channels)

  enter_channel-IsListed :
      (id owner amount expiry_time : ℕ) (s : Storage)
      → IsListed s
      → (channel_at s.channels id).expiry_time ≡ 0
      → 0 < expiry_time
      → IsListed (
          enter_channel d id owner amount expiry_time
            (record s { transfers = transfer_from owner amount ∷ s.transfers }))
  unfolding enter_channel
  enter_channel-IsListed id owner amount expiry_time s inv gone later other j =
      let c' : Channel = record (channel_at s.channels id) {
        owner = owner;
        balance = amount;
        expiry_time = expiry_time;
      } in
      ground (
        arith,
        inv other j,
        inv owner j,
        channel_at-put id j c' s.channels,
        count-append j (s.user_channels owner) id,
      )

  -- From the deployment on, over any sequence of calls, the list of each owner has exactly the
  -- channels that are there and are the owner's, each of them once.
  pub deploy-IsListed :
      (token sequencer : ℕ) {s t : Storage}
      → deploy token sequencer ≡ returned s
      → Reach d s t
      → IsListed t
  unfolding deploy
  deploy-IsListed token sequencer {s} h r =
      let is_empty : empty ≡ s = ground arith in
      Reach-preserves d IsListed pay_and_close-IsListed update_channel_balances-IsListed
        enter_channel-IsListed (subst IsListed is_empty empty-IsListed) r
