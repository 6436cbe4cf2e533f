-- ===== src/Service/Format.antt =====
-- `PaywallService.format_result`.
use cronos_stream.Prelude.{String, ◌<>◌, List, [], ◌∷◌, ◌++◌, if◌then◌else◌}
use cronos_stream.Python.{
  Value, null, text, object, truthy, get, str_value, Outcome, ok, bind_outcome,
}
use cronos_stream.World.{World}

-- `"\n".join(lines)`
unfoldable pub join_lines : List String → String
join_lines [] = ""
join_lines (line ∷ []) = line
join_lines (line ∷ next ∷ lines) = line <> "\n" <> join_lines (next ∷ lines)

module _ (w : World) where
  -- `f"{label}{debug.get(key)}"`
  unfoldable pub debug_line : Value → String → String → Outcome String
  debug_line debug label key =
      bind_outcome (get debug key null) λ v. ok (label <> str_value w.repr v)

  unfoldable pub debug_lines : Value → Outcome (List String)
  debug_lines debug = bind_outcome (debug_line debug "Method: " "method") λ a.
      bind_outcome (debug_line debug "Channel: " "channelId") λ b.
        bind_outcome (debug_line debug "Voucher Amount: " "amount") λ c.
          bind_outcome (debug_line debug "Recipient: " "recipient") λ d. ok (a ∷ b ∷ c ∷ d ∷ [])

  unfoldable pub result_lines : Value → Outcome (List String)
  result_lines result = bind_outcome (get result "paid" null) λ paid.
      bind_outcome (get result "paymentId" (text "—")) λ pid.
        bind_outcome (get result "debug_info" (object [])) λ debug.
          bind_outcome (if truthy debug then debug_lines debug else ok []) λ more.
            bind_outcome (get result "data" null) λ content. ok (
              ("Status: " <> (if truthy paid then "PAID" else "FREE"))
              ∷ ("Payment ID: " <> str_value w.repr pid)
              ∷ (more ++ ("\n[Server Response]" ∷ str_value w.repr content ∷ [])))

  unfoldable pub format_result : Value → Outcome String
  format_result result = bind_outcome (result_lines result) λ lines. ok (join_lines lines)
