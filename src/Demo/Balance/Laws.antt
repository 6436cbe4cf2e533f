-- ===== src/Demo/Balance/Laws.antt =====
-- What the demo reads is what the script has printed.
use text.Mathlib.TextLemmas.{cons-append, append_assoc}
use cronos_stream.Prelude.{
  ℕ, String, ◌<>◌, ◌≡◌, ◌≢◌, refl, ap, ◌∙◌, true, false, none, some, List, [], ◌∷◌, arith,
  string_has_eq, eq_iff,
}
use cronos_stream.Prelude.Int.{pos}
use cronos_stream.Python.{ok, contains, split_colon, split_lines, strip, str_int}
use cronos_stream.Python.Search.Lines.{
  has_break, printed, split_lines-printed, contains-prefix, has_colon, has_colon-append,
  has_break-append, split_colon-eq-none, split_colon-append,
}
use cronos_stream.World.{World}
use cronos_stream.Scripts.Balance.{
  Wallet, address_line, native_line, token_line, print_token, print_balances, check_balance,
}
use cronos_stream.Demo.Balance.{second_piece, find_balance, get_balance}

contains-token_line : (q symbol : String) → contains (token_line q symbol) "Token Balance" ≡ true
contains-token_line q symbol =
    ap (λ s. contains s "Token Balance") (append_assoc "Token Balance" ":  " (q <> (" " <> symbol)))
    ∙ contains-prefix "T" "oken Balance" (":  " <> (q <> (" " <> symbol)))

-- Neither a colon nor a line's end.
abbrev pub IsPlain : String → Type 0
IsPlain s = (has_colon s ≡ false) × (has_break s ≡ false)

no_colon :
    (q symbol : String)
    → IsPlain q
    → IsPlain symbol
    → has_colon ("  " <> (q <> (" " <> symbol))) ≡ false
no_colon q symbol hq hs =
    let two : has_colon "  " ≡ false = unfold has_colon in refl in
    let one : has_colon " " ≡ false = unfold has_colon in refl in
    ground (
      arith,
      has_colon-append "  " (q <> (" " <> symbol)),
      has_colon-append q (" " <> symbol),
      has_colon-append " " symbol,
    )

no_break :
    (q symbol : String) → IsPlain q → IsPlain symbol → has_break (token_line q symbol) ≡ false
no_break q symbol hq hs =
    let begun : has_break "Token Balance:  " ≡ false = unfold has_break in refl in
    let one : has_break " " ≡ false = unfold has_break in refl in
    ground (
      arith,
      has_break-append "Token Balance:  " (q <> (" " <> symbol)),
      has_break-append q (" " <> symbol),
      has_break-append " " symbol,
    )

second_piece_lem :
    (line before rest : String)
    → split_colon line ≡ some (before, rest)
    → split_colon rest ≡ none
    → second_piece line ≡ ok (strip rest)
unfolding second_piece
second_piece_lem line before rest h k = ground arith

-- The first line with the words counts.
find_balance_lem :
    (a b c line : String) (later : List String)
    → contains a "Token Balance" ≡ false
    → contains b "Token Balance" ≡ false
    → contains c "Token Balance" ≡ false
    → contains line "Token Balance" ≡ true
    → find_balance (a ∷ b ∷ c ∷ line ∷ later) ≡ second_piece line
unfolding find_balance
find_balance_lem a b c line later ha hb hc h = ground arith

second_piece-token_line :
    (q symbol : String)
    → IsPlain q
    → IsPlain symbol
    → second_piece (token_line q symbol) ≡ ok (strip ("  " <> (q <> (" " <> symbol))))
second_piece-token_line q symbol hq hs =
    let rest = q <> (" " <> symbol) in
    let cut : token_line q symbol ≡ "Token Balance" <> String.◌∷◌ ":" ("  " <> rest) =
      append_assoc "Token Balance" ":  " rest
      ∙ ap (λ t. "Token Balance" <> t) (cons-append ":" "  " rest) in
    let before : has_colon "Token Balance" ≡ false = unfold has_colon in refl in
    second_piece_lem (token_line q symbol) "Token Balance" ("  " <> rest)
      (ap split_colon cut ∙ split_colon-append "Token Balance" ("  " <> rest) before)
      (split_colon-eq-none ("  " <> rest) (no_colon q symbol hq hs))

module _ (w : World) (wallet : Wallet) where
  -- What the script prints where the chain answers all that it asks.
  check_balance-prints :
      {key address native symbol q : String} {decimals raw : ℕ}
      → w.env "X402_AGENT_PRIVATE_KEY" ≡ some key
      → key ≢ ""
      → w.account_of key ≡ ok address
      → wallet.native address ≡ ok native
      → wallet.symbol ≡ ok symbol
      → wallet.decimals ≡ ok decimals
      → wallet.raw address ≡ ok raw
      → wallet.divided raw decimals ≡ ok q
      → (check_balance w wallet []).1
        ≡ "--- Wallet Check ---"
          ∷ address_line address
          ∷ native_line native
          ∷ token_line q symbol
          ∷ ("Raw Token Bal:  " <> str_int (pos raw))
          ∷ []
  unfolding check_balance print_balances print_token
  check_balance-prints {key} h0 h1 h2 h3 h4 h5 h6 h7 = ground (arith, eq_iff key "")

  -- Where the chain answers all that check_balance.py asks, and the texts that it prints have no
  -- line's end, the balance and the symbol no colon and the lines before theirs no "Token
  -- Balance", the demo shows the balance and the symbol, with a space between them.
  pub get_balance-check_balance :
      {key address native symbol q : String} {decimals raw : ℕ}
      → w.env "X402_AGENT_PRIVATE_KEY" ≡ some key
      → key ≢ ""
      → w.account_of key ≡ ok address
      → wallet.native address ≡ ok native
      → wallet.symbol ≡ ok symbol
      → wallet.decimals ≡ ok decimals
      → wallet.raw address ≡ ok raw
      → wallet.divided raw decimals ≡ ok q
      → IsPlain q
      → IsPlain symbol
      → has_break (address_line address) ≡ false
      → has_break (native_line native) ≡ false
      → contains (address_line address) "Token Balance" ≡ false
      → contains (native_line native) "Token Balance" ≡ false
      → get_balance w wallet true ≡ ok (strip ("  " <> (q <> (" " <> symbol))))
  unfolding get_balance
  get_balance-check_balance {key} {address} {native} {symbol} {q} {decimals} {raw} h0 h1 h2 h3 h4 h5
        h6 h7 hq hs a n a' n' =
      let first : has_break "--- Wallet Check ---" ≡ false = unfold has_break in refl in
      let titled : contains "--- Wallet Check ---" "Token Balance" ≡ false =
        unfold contains in refl in
      let lines =
        "--- Wallet Check ---"
        ∷ address_line address
        ∷ native_line native
        ∷ token_line q symbol
        ∷ [] in
      rw (check_balance-prints h0 h1 h2 h3 h4 h5 h6 h7) (
        rw
          (split_lines-printed lines (("Raw Token Bal:  " <> str_int (pos raw)) ∷ [])
            (first, (a, (n, (no_break q symbol hq hs, tt)))))
          (find_balance_lem "--- Wallet Check ---" (address_line address) (native_line native)
              (token_line q symbol)
              (split_lines (printed (("Raw Token Bal:  " <> str_int (pos raw)) ∷ []))) titled a' n'
              (contains-token_line q symbol)
            ∙ second_piece-token_line q symbol hq hs))
