-- ===== src/Sequencer/Service/Invariant.antt =====
-- What holds of every channel that the sequencer keeps, over any sequence of requests.
use cronos_stream.Prelude.{
  ℕ, ◌≤◌, String, ◌≡◌, refl, Bool-cases, some, [], ◌∷◌, arith, ◌==◌, nat_has_eq, string_has_eq, inl,
  inr,
}
use mathlib.Core.Path.{subst}
use cronos_stream.Python.{lookup, insert}
use cronos_stream.Sequencer.{
  ChannelState, PayInChannelRequest, SeedChannelRequest, Result, success, failure, try_result,
  Backend, Moment, Channels,
}
use cronos_stream.Sequencer.Payment.{
  Payment, total_from, parse_b256, compute_next_state, updated_state,
}
use cronos_stream.Sequencer.Payment.Amounts.{Distinct}
use cronos_stream.Sequencer.Payment.Laws.{
  try_result-eq-success, Accepts, compute_next_state-Accepts, next_recipients-Distinct,
}
use cronos_stream.Sequencer.Service.{
  seeded_state, seed_channel, find_channel, cosign, store_next, accept_next, settle_channel,
  settle_found, settle,
}

-- No recipient is listed twice, and the code's own sum is covered by the balance.
abbrev pub IsSound : ChannelState → Type 0
IsSound c = Distinct c.recipients × (total_from 0 c.recipients ≤ c.balance)

unfoldable pub AllSound : Channels → Type 0
AllSound [] = Unit
AllSound (e ∷ d) = IsSound e.1 × AllSound d

lookup-AllSound :
    (k : String) (d : Channels) {c : ChannelState} → AllSound d → lookup k d ≡ some c → IsSound c
unfolding AllSound
lookup-AllSound k [] h e = cc
lookup-AllSound k (e' ∷ d) {c} h e = elim (Bool-cases (k == e'.0)) [
  | inl same ↦ subst IsSound {x = e'.1} {y = c} (ground arith) h.0
  | inr other ↦ lookup-AllSound k d {c = c} h.1 (ground arith)
]

insert-AllSound :
    (k : String) (c : ChannelState) (d : Channels)
    → IsSound c
    → AllSound d
    → AllSound (insert k c d)
unfolding AllSound
insert-AllSound k c [] h hs = (h, tt)
insert-AllSound k c (e ∷ d) h hs = ground (arith, insert-AllSound k c d h hs.1)

-- The requests that change the map, in any order and at any moments.
pub data Step (b : Backend) : Channels → Channels → Type 0 where
  seeds :
      (moment : Moment) (payload : SeedChannelRequest) (channels : Channels)
      → Step b channels (seed_channel b moment payload channels).1
  settles :
      (moment : Moment) (payload : PayInChannelRequest) (channels : Channels)
      → Step b channels (settle b moment payload channels).1

pub data Reach (b : Backend) (start : Channels) : Channels → Type 0 where
  here : Reach b start start
  next : {s t : Channels} → Reach b start s → Step b s t → Reach b start t

module _ (b : Backend) where
  seed_channel-AllSound :
      (moment : Moment) (payload : SeedChannelRequest) (channels : Channels)
      → AllSound channels
      → AllSound (seed_channel b moment payload channels).1
  unfolding seed_channel seeded_state total_from
  seed_channel-AllSound moment payload channels h = grind (arith, insert-AllSound)

  pub cosign-keeps :
      (updated : ChannelState) {u : ChannelState}
      → cosign b updated ≡ success u
      → (u.recipients ≡ updated.recipients) × (u.balance ≡ updated.balance)
  unfolding cosign
  cosign-keeps updated h = ground arith

  Accepts-IsSound :
      (now : ℕ) (c : ChannelState) (payload : PayInChannelRequest) (payment : Payment)
      (u : ChannelState)
      → IsSound c
      → Accepts b now c payload payment u
      → IsSound u
  unfolding updated_state
  Accepts-IsSound now c payload payment u (distinct, covered) (_, _, _, funded, _, run) =
      rw run (next_recipients-Distinct b now c payload c.recipients payment distinct, funded)

  accepted-IsSound :
      (now : ℕ) (c : ChannelState) (payload : PayInChannelRequest) {u : ChannelState}
      → IsSound c
      → try_result (compute_next_state b now c payload) (cosign b) ≡ success u
      → IsSound u
  accepted-IsSound now c payload {u} h e =
      let (updated, computed, signed) =
        try_result-eq-success (compute_next_state b now c payload) _ e in
      let (payment, accepted) = compute_next_state-Accepts b now c payload computed in
      let (same_recipients, same_balance) = cosign-keeps updated signed in
      let (distinct, covered) = Accepts-IsSound now c payload payment updated h accepted in
      rw (same_recipients, same_balance) (distinct, covered)

  store_next-AllSound :
      (moment : Moment) (id : String) (channels : Channels) (r : Result ChannelState)
      → AllSound channels
      → ((u : ChannelState) → r ≡ success u → IsSound u)
      → AllSound (store_next b moment id channels r).1
  unfolding store_next
  store_next-AllSound moment id channels (failure e) hs h = hs
  store_next-AllSound moment id channels (success u) hs h =
      insert-AllSound id u channels (h u refl) hs

  settle_channel-AllSound :
      (moment : Moment) (c : ChannelState) (payload : PayInChannelRequest) (channels : Channels)
      → IsSound c
      → AllSound channels
      → AllSound (settle_channel b moment c payload channels).1
  unfolding settle_channel accept_next
  settle_channel-AllSound moment c payload channels h hs =
      let accepted : AllSound (accept_next b moment c payload channels).1 =
        store_next-AllSound moment payload.channel_id channels _ hs
          (λ u. accepted-IsSound moment.now c payload h) in
      ground (arith, accepted)

  settle_found-AllSound :
      (moment : Moment) (payload : PayInChannelRequest) (channels : Channels)
      (r : Result ChannelState)
      → AllSound channels
      → ((c : ChannelState) → r ≡ success c → IsSound c)
      → AllSound (settle_found b moment payload channels r).1
  unfolding settle_found
  settle_found-AllSound moment payload channels (failure e) hs h = hs
  settle_found-AllSound moment payload channels (success c) hs h =
      settle_channel-AllSound moment c payload channels (h c refl) hs

  find_channel-IsSound :
      (id : String) (channels : Channels) {c : ChannelState}
      → AllSound channels
      → find_channel b id channels ≡ success c
      → IsSound c
  unfolding find_channel
  find_channel-IsSound id channels {c} hs e = lookup-AllSound id channels {c = c} hs (ground arith)

  settle-AllSound :
      (moment : Moment) (payload : PayInChannelRequest) (channels : Channels)
      → AllSound channels
      → AllSound (settle b moment payload channels).1
  unfolding settle
  settle-AllSound moment payload channels hs =
      settle_found-AllSound moment payload channels _ hs (λ c e.
        find_channel-IsSound payload.channel_id channels hs
          (try_result-eq-success (parse_b256 b payload.channel_id) _ e).2)

  -- Whatever requests come, in any order and at any moments, and whatever the clock and the
  -- database do: if no channel of the map lists a recipient twice, and the code's sum of the
  -- recipients' balances is at most the channel's balance in each, then this stays so.
  pub Reach-AllSound : (s t : Channels) → AllSound s → Reach b s t → AllSound t
  Reach-AllSound s t h here = h
  Reach-AllSound s t h (next before (seeds moment payload channels)) =
      seed_channel-AllSound moment payload channels (Reach-AllSound s channels h before)
  Reach-AllSound s t h (next before (settles moment payload channels)) =
      settle-AllSound moment payload channels (Reach-AllSound s channels h before)
