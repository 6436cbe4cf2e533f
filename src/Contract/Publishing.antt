-- ===== src/Contract/Publishing.antt =====
-- `publishIntermediateChannelState`, and the closing behind the channel's expiry.
use cronos_stream.Prelude.{
  ℕ, ◌^◌, ◌≤◌, ◌<◌, ◌≡◌, ◌≢◌, ◌↔◌, refl, sym, ap, ◌∙◌, List, [], ◌∷◌, arith, map, length,
  nat_has_eq,
}
use cronos_stream.Contract.{
  Bytes, returned, Channel, channel_at, put, assign, Storage, BatchClosure, Deployment, Message,
  set_balances, pay_and_close, close_after_expiry_by_anyone, update_channel_balances,
  publish_intermediate_channel_state,
}
use cronos_stream.Contract.Effects.{>>=-eq-returned, publish-updates}
use cronos_stream.Contract.Conservation.{channel_at-put}
use cronos_stream.Contract.Owners.{count}
use cronos_stream.Contract.Closing.{
  sum, PaysAlways, closed_paying, pay_and_close-covered, covered_by,
}

abbrev pub Unrepeated : List ℕ → Type 0
Unrepeated [] = Unit
Unrepeated (r ∷ rs) = (count r rs ≡ 0) × Unrepeated rs

set_balances-other :
    (j : ℕ) (rs amounts : List ℕ) (held : ℕ → ℕ) {held' : ℕ → ℕ}
    → count j rs ≡ 0
    → set_balances rs amounts held ≡ returned held'
    → held' j ≡ held j
unfolding set_balances
set_balances-other j [] amounts held out h = ground arith
set_balances-other j (r ∷ rs) [] held out h = cc
set_balances-other j (r ∷ rs) (a ∷ amounts) held out h =
    let unlisted : count j rs ≡ 0 = ground arith in
    ground (arith, set_balances-other j rs amounts (assign r a held) unlisted h)

-- What has been written is read back, where no recipient is repeated.
map-set_balances :
    (rs amounts : List ℕ) (held : ℕ → ℕ) {held' : ℕ → ℕ}
    → Unrepeated rs
    → length rs ≡ length amounts
    → set_balances rs amounts held ≡ returned held'
    → map held' rs ≡ amounts
unfolding set_balances
map-set_balances [] [] held u m h = refl
map-set_balances [] (a ∷ amounts) held u m h = absurd (omega (arith, m))
map-set_balances (r ∷ rs) [] held u m h = absurd (omega (arith, m))
map-set_balances (r ∷ rs) (a ∷ amounts) held u m h = ground (
  arith,
  set_balances-other r rs amounts (assign r a held) u.0 h,
  map-set_balances rs amounts (assign r a held) u.1 (omega (arith, m)) h,
)

module _ (d : Deployment) where
  publish-checks :
      (msg : Message) (b : BatchClosure) (signature : Bytes) (s : Storage) {t : Storage}
      → publish_intermediate_channel_state d msg b signature s ≡ returned t
      → (b.channel_id ≢ 0)
        × ((channel_at s.channels b.channel_id).expiry_time ≢ 0)
        × (length b.recipients ≡ length b.amounts)
  unfolding publish_intermediate_channel_state
  publish-checks msg b signature s h = ground arith

  -- What an update leaves: the channel with its new recipients, whose amounts are read back.
  update-leaves :
      (b : BatchClosure) (s : Storage) {t : Storage}
      → Unrepeated b.recipients
      → length b.recipients ≡ length b.amounts
      → update_channel_balances d b s ≡ returned t
      → let c = channel_at s.channels b.channel_id in
        let c' = channel_at t.channels b.channel_id in
        (c'.balance ≡ c.balance)
        × (c'.expiry_time ≡ c.expiry_time)
        × (c'.recipients ≡ b.recipients)
        × (map (t.balances b.channel_id) b.recipients ≡ b.amounts)
  unfolding update_channel_balances
  update-leaves b s {t} single m h =
      let c = channel_at s.channels b.channel_id in
      let c' : Channel = record c {
        sequence_number = b.sequence_number;
        recipients = b.recipients;
      } in
      let (held, e, h') =
        >>=-eq-returned (set_balances b.recipients b.amounts (s.balances b.channel_id)) _ h in
      let written : Storage = record s {
        channels = put b.channel_id c' s.channels;
        balances = assign b.channel_id held s.balances;
      } in
      let is_written : written ≡ t = ground arith in
      let read = map-set_balances b.recipients b.amounts (s.balances b.channel_id) single m e in
      let at = channel_at-put b.channel_id b.channel_id c' s.channels in
      let own : assign b.channel_id held s.balances b.channel_id ≡ held = ground arith in
      rw (← is_written) (ground arith, ground arith, ground arith, rw own read)

  close_after_expiry_lem :
      (later : Message) (id : ℕ) (t u : Storage)
      → id ≢ 0
      → (channel_at t.channels id).expiry_time ≢ 0
      → let c = channel_at t.channels id in
        (close_after_expiry_by_anyone d later id t ≡ returned u) ↔ (
          (c.expiry_time < later.timestamp)
          × (pay_and_close d id c.recipients (map (t.balances id) c.recipients) t ≡ returned u))
  unfolding close_after_expiry_by_anyone
  close_after_expiry_lem later id t u k e = (λ h. ground arith, λ h. ground arith)

module _ (d : Deployment) (pays : PaysAlways d) where
  -- Behind a published state that repeats no recipient, the closing by anyone succeeds exactly
  -- behind the channel's expiry and where the balance covers the published amounts together. It
  -- then pays each recipient its published amount and the owner the rest. The token reverts no
  -- payment.
  pub publish-close_after_expiry :
      (msg later : Message) (b : BatchClosure) (signature : Bytes) (s t u : Storage)
      → Unrepeated b.recipients
      → (channel_at s.channels b.channel_id).balance < 2 ^ 256
      → publish_intermediate_channel_state d msg b signature s ≡ returned t
      → let c = channel_at s.channels b.channel_id in
        (close_after_expiry_by_anyone d later b.channel_id t ≡ returned u) ↔ (
          (c.expiry_time < later.timestamp)
          × (sum b.amounts ≤ c.balance)
          × (u ≡ closed_paying b.channel_id b.recipients b.amounts t))
  publish-close_after_expiry msg later b signature s t u single word h =
      let id = b.channel_id in
      let (identified, present, m) = publish-checks d msg b signature s h in
      let (balance, expiry, rs, amounts) =
        update-leaves d b s single m (publish-updates d msg b signature s h) in
      let c = channel_at t.channels id in
      let same : map (t.balances id) c.recipients ≡ b.amounts = rw rs amounts in
      let closing = close_after_expiry_lem d later id t u identified (rw expiry present) in
      let paid =
        pay_and_close-covered d pays id b.recipients b.amounts t m (omega (arith, balance)) in
      (
        λ k.
            let (after, closed) = closing.0 k in
            let closed' : pay_and_close d id b.recipients b.amounts t ≡ returned u =
              rw (← same) (rw (← rs) closed) in
            let covered = covered_by d pays id b.recipients b.amounts t m closed' in
            (omega (arith, expiry), omega (arith, balance, covered), cc (paid covered)),
        λ k. closing.1 (
          omega (arith, expiry, k.0),
          rw same (rw rs (paid (omega (arith, balance, k.1)) ∙ ap returned (sym k.2))),
        ),
      )
