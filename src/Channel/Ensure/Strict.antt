-- ===== src/Channel/Ensure/Strict.antt =====
-- The way of `ensure_channel` over the chain, and the seeding of the sequencer.
use cronos_stream.Prelude.{String, ◌<>◌, ◌≡◌, ap, ◌∙◌, ◌∷◌, arith, ◌⊎◌, inl, inr, sym}
use mathlib.Core.Path.{subst}
use cronos_stream.Prelude.Int.{ℤ, int_has_eq}
use cronos_stream.Python.{text, ok, >>-cases, ◌>>◌, to_int}
use cronos_stream.World.{World, Trace, http_post, posts}
use cronos_stream.Channel.{Session}
use cronos_stream.Channel.Ensure.{
  check_sequencer, ensure_allowance, open_on_chain, seed_body, seed_sequencer, predict_channel,
  open_channel_path, ensure_channel,
}
use cronos_stream.Channel.Ensure.Keeps.{
  predict_channel_keeps, ensure_allowance_keeps, open_on_chain_keeps, check_sequencer_keeps,
}
use cronos_stream.Channel.Ensure.Opening.{Confirmed, open_on_chain-Confirmed}

module _ (w : World) where
  -- Either no post is made, or the sequencer is seeded once, directly behind a good receipt of the
  -- transaction that opens the channel with the same amount and expiry.
  abbrev pub SeedsOnlyConfirmed : String → ℤ → ℤ → Session → Session → Type 0
  SeedsOnlyConfirmed url amount expiry s s' =
      (posts s'.trace ≡ posts s.trace)
      ⊎ ((past : Trace) × (s'.trace
            ≡ http_post (url <> "/channel/seed") (seed_body s'.manager amount expiry) ∷ past)
          × (posts past ≡ posts s.trace)
          × Confirmed w s.manager.contract_address amount expiry past)

  seed_sequencer_run :
      (url : String) (amount expiry : ℤ) (s : Session)
      → (seed_sequencer w url amount expiry s).1 ≡ record s {
        trace = http_post (url <> "/channel/seed") (seed_body s.manager amount expiry) ∷ s.trace;
      }
  unfolding seed_sequencer
  seed_sequencer_run url amount expiry s = ground arith

  open_channel_path-SeedsOnlyConfirmed :
      (url : String) (amount expiry : ℤ) (s : Session)
      → SeedsOnlyConfirmed url amount expiry s (open_channel_path w url amount expiry s).1
  unfolding open_channel_path
  open_channel_path-SeedsOnlyConfirmed url amount expiry s =
      let s1 = (predict_channel w amount expiry s).1 in
      let s2 = (ensure_allowance w amount s1).1 in
      let s3 = (open_on_chain w amount expiry s2).1 in
      let seed = seed_sequencer w url amount expiry in
      let open_and_seed = open_on_chain w amount expiry >> seed in
      let (p1, c1) = predict_channel_keeps w amount expiry s in
      let (p2, c2) = ensure_allowance_keeps w amount s1 in
      let p3 = open_on_chain_keeps w amount expiry s2 in
      elim (>>-cases (predict_channel w amount expiry) (ensure_allowance w amount >> open_and_seed)
        s) [
          | inl (e, stop) ↦ inl (ap (λ p. posts p.1.trace) stop ∙ p1)
          | inr (_, on1) ↦ elim (>>-cases (ensure_allowance w amount) open_and_seed s1) [
            | inl (e, stop) ↦ inl (ap (λ p. posts p.1.trace) (on1 ∙ stop) ∙ p2 ∙ p1)
            | inr (_, on2) ↦ elim (>>-cases (open_on_chain w amount expiry) seed s2) [
              | inl (e, stop) ↦ inl (ap (λ p. posts p.1.trace) (on1 ∙ on2 ∙ stop) ∙ p3 ∙ p2 ∙ p1)
              | inr (opened, on3) ↦
                  let run =
                    ap (λ p. p.1) (on1 ∙ on2 ∙ on3) ∙ seed_sequencer_run url amount expiry s3 in
                  inr (
                    s3.trace,
                    ap (λ t. t.trace) run
                        ∙ ap
                            (λ m.
                              http_post (url <> "/channel/seed") (seed_body m amount expiry)
                              ∷ s3.trace)
                            (sym (ap (λ t. t.manager) run)),
                    p3 ∙ p2 ∙ p1,
                    subst (λ c. Confirmed w c amount expiry s3.trace)
                        (ap (λ m. m.contract_address) c2 ∙ c1)
                        (open_on_chain-Confirmed w amount expiry s2 opened),
                  )
            ]
          ]
        ]

  SeedsOnlyConfirmed-behind :
      (url : String) (amount expiry : ℤ) (s s1 s' : Session)
      → posts s1.trace ≡ posts s.trace
      → s1.manager.contract_address ≡ s.manager.contract_address
      → SeedsOnlyConfirmed url amount expiry s1 s'
      → SeedsOnlyConfirmed url amount expiry s s'
  SeedsOnlyConfirmed-behind url amount expiry s s1 s' p c (inl quiet) = inl (quiet ∙ p)
  SeedsOnlyConfirmed-behind url amount expiry s s1 s' p c (inr (past, newest, quiet, good)) =
      inr (past, newest, quiet ∙ p, subst (λ k. Confirmed w k amount expiry past) c good)

  ensure_channel_cases :
      (url balance : String) (expiry amount : ℤ) (s : Session)
      → to_int (text balance) ≡ ok amount
      → ((ensure_channel w url balance expiry s).1 ≡ (check_sequencer w url s).1)
        ⊎ (ensure_channel w url balance expiry s
            ≡ open_channel_path w url amount expiry (check_sequencer w url s).1)
  unfolding ensure_channel
  ensure_channel_cases url balance expiry amount s money = ground arith

  -- However `ensure_channel` ends, it posts at most once, and only to seed the channel that it has
  -- just opened: the two calls before the post are the opening transaction, for the same amount and
  -- expiry and on the manager's contract, and a receipt of it with status 1.
  pub ensure_channel-SeedsOnlyConfirmed :
      (url balance : String) (expiry amount : ℤ) (s : Session)
      → to_int (text balance) ≡ ok amount
      → SeedsOnlyConfirmed url amount expiry s (ensure_channel w url balance expiry s).1
  ensure_channel-SeedsOnlyConfirmed url balance expiry amount s money =
      let s1 = (check_sequencer w url s).1 in
      let (p, c) = check_sequencer_keeps w url s in
      elim (ensure_channel_cases url balance expiry amount s money) [
        | inl stop ↦ inl (ap (λ t. posts t.trace) stop ∙ p)
        | inr on ↦ subst (SeedsOnlyConfirmed url amount expiry s) (sym (ap (λ q. q.1) on)) (
            SeedsOnlyConfirmed-behind url amount expiry s s1 _ p c
              (open_channel_path-SeedsOnlyConfirmed url amount expiry s1))
      ]
